-- ===== src/Discovery/Balance/Steps.antt =====
-- How the operations of src/bridge.cpp hand on a local pointer to a context: the rules for their
-- sequences, tests and cases.
use hanfun_io_tivity.Prelude.{ℕ, ◌≡◌, Bool, true, false, List, Option, some, none, if◌then◌else◌}
use hanfun_io_tivity.Discovery.{
  Bridge, Context, World, Callback, M, pure, fault, ◌>>=◌, discover, Presence,
}
use hanfun_io_tivity.Discovery.Ops.{
  read_context, write_context, new_context, delete_context, continue_discovery, push_task,
  push_presence, destroy_piid, get_secure_mode,
}
use hanfun_io_tivity.Prelude.Bytes.{Bytes}
use hanfun_io_tivity.Stack.{DevAddr}
use hanfun_io_tivity.Discovery.Callbacks.{kept, need}
use hanfun_io_tivity.Discovery.Balance.{Balanced, Safe, Safe->>=}
use hanfun_io_tivity.Discovery.Balance.Ops.{
  read_context_lem, write_context_lem, new_context_lem, delete_context_lem, push_task_lem,
  push_presence_lem, destroy_piid_lem, continue_discovery_lem,
}

-- From a bridge in balance, with `l` the local pointer and `p` the handle of the running callback,
-- `m` leaves the bridge in balance, with what `f` makes of its result as the local pointer.
pub record Step {ℓ} {A : Type ℓ} (p l : Option ℕ) (m : M A) (f : A → Option ℕ) : Type 0 where
  pub run : (b : Bridge) → Balanced l p b → Safe (λ r. Balanced (f r) p) (m b)

module _ {p : Option ℕ} where
  pub Step->>= {ℓ κ} :
      {A : Type ℓ} {B : Type κ} {l : Option ℕ} {f : A → Option ℕ} {g : B → Option ℕ} {m : M A}
      {k : A → M B}
      → Step p l m f
      → ((a : A) → Step p (f a) (k a) g)
      → Step p l (m >>= k) g
  Step->>= {f = f} {g = g} {m = m} {k = k} h h' = record {
    run = λ b i.
        Safe->>= (λ r. Balanced (f r) p) (λ r. Balanced (g r) p) m k b (h.run b i)
          (λ a. (h' a).run);
  }

  pub Step-pure {ℓ} : {A : Type ℓ} {f : A → Option ℕ} (r : A) → Step p (f r) (pure r) f
  Step-pure r = record { run = λ b i. i }

  pub Step-fault {ℓ} : {A : Type ℓ} {l : Option ℕ} {f : A → Option ℕ} → Step p l fault f
  Step-fault = record { run = λ b i. tt }

  pub Step-if {ℓ} :
      {A : Type ℓ} {l : Option ℕ} {f : A → Option ℕ} {m n : M A} (t : Bool)
      → Step p l m f
      → Step p l n f
      → Step p l (if t then m else n) f
  Step-if true h h' = h
  Step-if false h h' = h'

  -- A test that is known.
  pub Step-if_true {ℓ} :
      {A : Type ℓ} {l : Option ℕ} {f : A → Option ℕ} {m : M A} (n : M A) (t : Bool)
      → t ≡ true
      → Step p l m f
      → Step p l (if t then m else n) f
  Step-if_true n t e h = rw e h

  -- Once a request is taken its context is owned by the map.
  pub Step-if_taken :
      {n : M (Option ℕ)} (a : ℕ) (t : Bool)
      → Step p (some a) n (λ r. r)
      → Step p (kept a t) (if t then pure none else n) (λ r. r)
  Step-if_taken a true h = Step-pure none
  Step-if_taken a false h = h

  pub Step-option {ℓ κ} :
      {A : Type ℓ} {B : Type κ} {l : Option ℕ} {f : A → Option ℕ} {n : M A} {s : B → M A}
      (o : Option B)
      → Step p l n f
      → ((x : B) → Step p l (s x) f)
      → Step p l (elim o [ none ↦ n | some x ↦ s x ]) f
  Step-option none h h' = h
  Step-option (some x) h h' = h' x

  pub Step-read : (a : ℕ) → Step p (some a) (read_context a) (λ _. some a)
  Step-read a = record { run = λ b i. read_context_lem p b a i }

  pub Step-write : (a : ℕ) (c : Context) → Step p (some a) (write_context a c) (λ _. some a)
  Step-write a c = record { run = λ b i. write_context_lem p b a c i }

  pub Step-new : (c : Context) → Step p none (new_context c) some
  Step-new c = record { run = λ b i. new_context_lem p b c i }

  pub Step-delete : (l : Option ℕ) → Step p l (delete_context l) (λ _. none)
  Step-delete l = record { run = λ b i. delete_context_lem p b l i }

  pub Step-continue :
      (w : World) (a : ℕ) (uri : Bytes) (addrs : List DevAddr) (cb : Callback)
      → Step p (some a) (continue_discovery w a uri addrs cb) (kept a)
  Step-continue w a uri addrs cb = record {
    run = λ b i. continue_discovery_lem p b w a uri addrs cb i;
  }

  pub Step-push_task :
      (a tick : ℕ) (piid : Bytes) → Step p (some a) (push_task (discover tick piid a)) (λ _. none)
  Step-push_task a tick piid = record { run = λ b i. push_task_lem p b a tick piid i }

  pub Step-push_presence : (l : Option ℕ) (q : Presence) → Step p l (push_presence q) (λ _. l)
  Step-push_presence l q = record { run = λ b i. push_presence_lem p b l q i }

  pub Step-destroy_piid : (l : Option ℕ) (piid : Bytes) → Step p l (destroy_piid piid) (λ _. l)
  Step-destroy_piid l piid = record { run = λ b i. destroy_piid_lem p b l piid i }

  pub Step-need : (l : Option ℕ) (s : Option Bytes) → Step p l (need s) (λ _. l)
  Step-need l none = Step-fault
  Step-need l (some s) = Step-pure s

  pub Step-get_secure_mode : (l : Option ℕ) → Step p l get_secure_mode (λ _. l)
  unfolding get_secure_mode
  Step-get_secure_mode l = record { run = λ b i. i }
