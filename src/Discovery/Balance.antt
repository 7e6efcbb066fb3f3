-- ===== src/Discovery/Balance.antt =====
-- Who owns a `DiscoverContext`: an entry of `discovered_`, a task, or a local pointer of the callback
-- that runs.
pub mod Ops
pub mod Steps
pub mod Handlers
pub mod Callbacks
pub mod Discover
pub mod Found
pub mod Process
pub mod Tasks
pub mod Device
use hanfun_io_tivity.Prelude.{
  ℕ, zero, suc, ◌+◌, ◌≤◌, ◌<◌, ◌≡◌, ap, List, [], ◌∷◌, Option, some, none, if◌then◌else◌, ◌==◌,
}
use hanfun_io_tivity.Prelude.Assoc.{count, lookup, erase, keys, values}
use hanfun_io_tivity.Discovery.{
  Bridge, Task, discover, rd_publish, Outcome, done, dangling, undefined, M, ◌>>=◌,
}

-- The contexts that tasks point to.
unfoldable pub task_contexts : List Task → List ℕ
task_contexts [] = []
task_contexts (discover tick piid a ∷ ts) = a ∷ task_contexts ts
task_contexts (rd_publish tick ∷ ts) = task_contexts ts

-- How often a local pointer points to `x`.
abbrev pub holds : Option ℕ → ℕ → ℕ
holds none x = 0
holds (some a) x = if a == x then 1 else 0

-- The map without the entry that the running callback is going to erase.
abbrev pub others : Option ℕ → List (ℕ × ℕ) → List (ℕ × ℕ)
others none m = m
others (some h) m = erase h m

-- Each living context has exactly one owner, and what is owned is alive; new addresses and handles
-- are not in use.
pub record Balanced (local pending : Option ℕ) (b : Bridge) : Type 0 where
  pub owned :
      (x : ℕ)
      → count x (keys b.contexts)
        ≡ count x (values (others pending b.discovered))
          + count x (task_contexts b.tasks)
          + holds local x
  pub once : (x : ℕ) → count x (keys b.contexts) ≤ 1
  pub fresh_contexts : (x : ℕ) → b.next_context ≤ x → count x (keys b.contexts) ≡ 0
  pub fresh_handles : (h : ℕ) → b.next_handle ≤ h → lookup h b.discovered ≡ none
  pub pending_old : (h : ℕ) → pending ≡ some h → h < b.next_handle

-- An outcome that is no use of a dead context, and meets a postcondition where it is a result.
abbrev pub Safe {ℓ} : {A : Type ℓ} → (A → Bridge → Type 0) → Outcome (A × Bridge) → Type 0
Safe P (done (a, b)) = P a b
Safe P dangling = ⊥
Safe P undefined = Unit

pub Safe->>= {ℓ κ} :
    {A : Type ℓ} {B : Type κ} (P : A → Bridge → Type 0) (Q : B → Bridge → Type 0) (m : M A)
    (f : A → M B) (b : Bridge)
    → Safe P (m b)
    → ((a : A) (b' : Bridge) → P a b' → Safe Q (f a b'))
    → Safe Q ((m >>= f) b)
Safe->>= {A = A} {B = B} P Q m f b h k = go (m b) h
  where
    go :
        (o : Outcome (A × Bridge))
        → Safe P o
        → Safe Q (elim o [ done (a, b') ↦ f a b' | dangling ↦ dangling | undefined ↦ undefined ])
    go (done (a, b')) h' = k a b' h'
    go dangling h' = h'
    go undefined h' = h'

pub >>=-done {ℓ κ} :
    {A : Type ℓ} {B : Type κ} (m : M A) (f : A → M B) (b b' : Bridge) (a : A)
    → m b ≡ done (a, b')
    → (m >>= f) b ≡ f a b'
>>=-done m f b b' a e =
    ap (λ o. elim o [ done (x, b'') ↦ f x b'' | dangling ↦ dangling | undefined ↦ undefined ]) e
