-- ===== src/Discovery/Balance/Device.antt =====
-- `GetDeviceCB` of src/bridge.cpp, and where it is free of undefined behaviour.
use hanfun_io_tivity.Prelude.{
  ℕ, ◌+◌, ◌≡◌, refl, Bool, true, false, Option, some, none, if◌then◌else◌, Option-cases, inl, inr,
  arith, ◌∙◌, sym, List,
}
use mathlib.Core.Path.{subst}
use mathlib.Core.Bool.{false≢true}
use hanfun_io_tivity.Prelude.Bytes.{Bytes}
use hanfun_io_tivity.Prelude.Assoc.{lookup}
use hanfun_io_tivity.Stack.{Constants, DevAddr}
use hanfun_io_tivity.Resource.{Device, is_virtual}
use hanfun_io_tivity.Discovery.{
  SeenState, not_seen, seen_native, seen_virtual, Bridge, World, Callback, Outcome, done, dangling,
  undefined, M, pure, ◌>>=◌, RepPayload, ClientResponse, discover,
}
use hanfun_io_tivity.Discovery.Ops.{
  read_context, continue_discovery, delete_context, erase_discovered, find_discovered, push_task,
  destroy_piid, rep_payload,
}
use hanfun_io_tivity.Discovery.Callbacks.{on_device, request_platform, get_seen_state, need}
use hanfun_io_tivity.Discovery.Steps.{respond, finish, with_payload}
use hanfun_io_tivity.Discovery.Balance.{Balanced, Safe}
use hanfun_io_tivity.Discovery.Balance.Callbacks.{respond-Balanced}
use hanfun_io_tivity.Discovery.Balance.Discover.{
  Ends, delete_context-defined, continue_discovery-done,
}

abbrev Defined {ℓ} : {A : Type ℓ} → M A → Type ℓ
Defined m = (b : Bridge) → ¬ (m b ≡ undefined)

Defined->>= {ℓ κ} :
    {A : Type ℓ} {B : Type κ} (m : M A) (k : A → M B)
    → Defined m
    → ((a : A) → Defined (k a))
    → Defined (m >>= k)
Defined->>= {A = A} {B = B} m k h h' b = go (m b) (h b)
  where
    go :
        (o : Outcome (A × Bridge))
        → ¬ (o ≡ undefined)
        → ¬ (
            elim o as (λ _. Outcome (B × Bridge)) [
              | done (a, b') ↦ k a b'
              | dangling ↦ dangling
              | undefined ↦ undefined
            ]
            ≡ undefined)
    go (done (a, b')) n = h' a b'
    go dangling n = λ e. ground arith
    go undefined n = λ e. n refl

Defined-done {ℓ} :
    {A : Type ℓ} (m : M A) → ((b : Bridge) → (r : A × Bridge) × (m b ≡ done r)) → Defined m
Defined-done {A = A} m h b e = let (r, e') = h b in go r (sym e' ∙ e)
  where
    go : (r : A × Bridge) → ¬ (done r ≡ undefined)
    go r e = ground arith

read_context-Defined : (a : ℕ) → Defined (read_context a)
unfolding read_context
read_context-Defined a b e = elim (Option-cases (lookup a b.contexts)) [
  | inl q ↦ ground arith
  | inr q ↦ ground arith
]

continue_discovery-Defined :
    (w : World) (a : ℕ) (uri : Bytes) (addrs : List DevAddr) (cb : Callback)
    → Defined (continue_discovery w a uri addrs cb)
continue_discovery-Defined w a uri addrs cb =
    Defined-done _ λ b. let (t, b', e) = continue_discovery-done w a uri addrs cb b in ((t, b'), e)

finish-Defined : (h : ℕ) (l : Option ℕ) → Defined (finish h l)
unfolding finish erase_discovered
finish-Defined h l =
    Defined->>= (delete_context l) (λ _. erase_discovered h) (delete_context-defined l)
      (λ _ b e. ground arith)

-- Whether a response names a piid, or is none that `GetDeviceCB` reads.
unfoldable pub piid_given : Option RepPayload → Bool
piid_given none = true
piid_given (some payload) = elim payload.piid [ none ↦ false | some piid ↦ true ]

module _ (oc : Constants) (w : World) where
  request_platform-Defined : (a : ℕ) (d : Device) → Defined (request_platform oc w a d)
  unfolding request_platform
  request_platform-Defined a d =
      Defined->>= (continue_discovery w a oc.platform_uri _ Callback.get_platform) _
        (continue_discovery-Defined w a _ _ _) (λ taken b e. ground arith)

  not_seen-Defined :
      (a tick : ℕ) (piid : Bytes) (d : Device) (v : Bool)
      → Defined (
          if v
          then (need (some piid) >>= λ piid'. push_task (discover tick piid' a) >>= λ _. pure none)
          else request_platform oc w a d)
  unfolding push_task
  not_seen-Defined a tick piid d true b e = ground arith
  not_seen-Defined a tick piid d false b e = request_platform-Defined a d b e

  seen_virtual-Defined :
      (a : ℕ) (piid : Bytes) (d : Device) (v : Bool)
      → Defined (
          if v
          then request_platform oc w a d
          else (need (some piid) >>= λ piid'.
              destroy_piid piid' >>= λ _. request_platform oc w a d))
  unfolding destroy_piid
  seen_virtual-Defined a piid d true b e = request_platform-Defined a d b e
  seen_virtual-Defined a piid d false b e = request_platform-Defined a d _ e

  seen-Defined :
      {A : Type 0} {m n k : M A} (s : SeenState)
      → Defined m
      → Defined n
      → Defined k
      → Defined (elim s as (λ _. M A) [ not_seen ↦ m | seen_native ↦ n | seen_virtual ↦ k ])
  seen-Defined not_seen h h' h'' = h
  seen-Defined seen_native h h' h'' = h'
  seen-Defined seen_virtual h h' h'' = h''

  on_device-Defined :
      (a : ℕ) (payload : RepPayload) (piid : Bytes)
      → Defined (on_device oc w a (record payload { piid = some piid }))
  unfolding on_device
  on_device-Defined a payload piid = Defined->>= (read_context a) _ (read_context-Defined a) λ c.
      seen-Defined (get_seen_state oc w (some piid))
        (not_seen-Defined a (w.now + 10) piid c.device (is_virtual oc c.device))
        (λ b e. ground arith) (seen_virtual-Defined a piid c.device (is_virtual oc c.device))

  payload-Defined :
      (h a : ℕ) (o : Option RepPayload)
      → piid_given o ≡ true
      → Defined (elim o as (λ _. M (Unit {0})) [
        | none ↦ finish h (some a)
        | some payload ↦ on_device oc w a payload >>= finish h
      ])
  unfolding piid_given
  payload-Defined h a none e = finish-Defined h (some a)
  payload-Defined h a (some payload) e = elim (Option-cases payload.piid) [
    | inl q ↦ absurd (false≢true (rw q at e))
    | inr q ↦
        let (piid, q') = q in
        Defined->>= (on_device oc w a payload) (finish h)
          (subst (λ o. Defined (on_device oc w a (record payload { piid = o }))) (sym q')
            (on_device-Defined a payload piid))
          (finish-Defined h)
  ]

  respond_device-Defined :
      (h : ℕ) (r : Option ClientResponse)
      → piid_given (rep_payload r) ≡ true
      → Defined (respond oc w Callback.get_device h r)
  unfolding respond with_payload find_discovered
  respond_device-Defined h r e b = go (lookup h b.discovered)
    where
      go :
          (o : Option ℕ)
          → ¬ (
              (elim o as (λ _. M (Unit {0})) [
                | none ↦ finish h none
                | some a ↦ elim (rep_payload r) [
                  | none ↦ finish h (some a)
                  | some payload ↦ on_device oc w a payload >>= finish h
                ]
              ])
                b
              ≡ undefined)
      go none = finish-Defined h none b
      go (some a) = payload-Defined h a (rep_payload r) e b

  -- Where every context has one owner, memory can be allocated and the response, if `GetDeviceCB`
  -- reads it, names a piid, `GetDeviceCB` ends with a result, and every context has one owner again.
  respond_device-Ends :
      (h : ℕ) (r : Option ClientResponse) (b : Bridge)
      → w.alloc ≡ true
      → piid_given (rep_payload r) ≡ true
      → Balanced none none b
      → Ends (respond oc w Callback.get_device h r) b
  respond_device-Ends h r b alloc e i =
      go (respond oc w Callback.get_device h r b) refl
        (respond-Balanced h b i oc w alloc Callback.get_device r)
    where
      go :
          (o : Outcome (Unit {0} × Bridge))
          → respond oc w Callback.get_device h r b ≡ o
          → Safe (λ _. Balanced none none) o
          → Ends (respond oc w Callback.get_device h r) b
      go (done (u, b')) q i' = (b', q, i')
      go dangling q i' = elim i' [ ]
      go undefined q i' = absurd (respond_device-Defined h r e b q)
