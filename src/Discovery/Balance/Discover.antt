-- ===== src/Discovery/Balance/Discover.antt =====
-- `DiscoverCB` of src/bridge.cpp, and the owners of the contexts that it makes.
use hanfun_io_tivity.Prelude.{
  ℕ, suc, ◌∙◌, sym, ap, map, ◌<◌, ◌≡◌, refl, Bool, true, false, ◌||◌, not, List, [], ◌∷◌, Option,
  some, none, if◌then◌else◌, Option-cases, Bool-cases, inl, inr, arith,
}
use hanfun_io_tivity.Prelude.Bytes.{Bytes, bytes_eq}
use hanfun_io_tivity.Prelude.Assoc.{count, values, lookup, insert, lookup-some}
use hanfun_io_tivity.Stack.{Constants, DevAddr, DiscoveryPayload}
use hanfun_io_tivity.Discovery.{
  Bridge, Context, World, Callback, Outcome, done, dangling, undefined, M, pure, ◌>>=◌,
}
use hanfun_io_tivity.Discovery.Ops.{
  read_context, new_context, continue_discovery, delete_context, get_secure_mode,
}
use hanfun_io_tivity.Discovery.Callbacks.{kept, get_dev_addrs}
use hanfun_io_tivity.Discovery.Steps.{
  seen, has_seen_before, update_presence_status, get_discovered, fresh_context, start_discovery,
  discover_payload, discover_cb, discover_response, has_translatable_resource,
}
use hanfun_io_tivity.Discovery.Balance.{Balanced, Safe, >>=-done}
use hanfun_io_tivity.Discovery.Balance.Ops.{Balanced-same}
use hanfun_io_tivity.Discovery.Balance.Steps.{Step, Step->>=, Step-new, Step-continue, Step-delete}

-- An operation that ends with a result, without undefined behaviour, and leaves the bridge in balance.
abbrev pub Ends : M (Unit {0}) → Bridge → Type 0
Ends m b = (b' : Bridge) × (m b ≡ done (tt, b')) × Balanced none none b'

pub Ends->>= :
    {A : Type 0} (m : M A) (f : A → M (Unit {0})) (b b' : Bridge) (a : A)
    → m b ≡ done (a, b')
    → Ends (f a) b'
    → Ends (m >>= f) b
Ends->>= m f b b' a e (b'', e', i) = (b'', >>=-done m f b b' a e ∙ e', i)

Ends-if :
    (m n : M (Unit {0})) (b : Bridge) (t : Bool) → Ends m b → Ends n b → Ends (if t then m else n) b
Ends-if m n b true h h' = h
Ends-if m n b false h h' = h'

-- What the map points to is alive.
pub values-alive :
    (b : Bridge)
    → Balanced none none b
    → (x : ℕ) → 0 < count x (values b.discovered)
    → (c : Context) × (lookup x b.contexts ≡ some c)
values-alive b i x q = lookup-some x b.contexts (omega (arith, i.owned x))

pub delete_context-defined : (l : Option ℕ) (b : Bridge) → ¬ (delete_context l b ≡ undefined)
unfolding delete_context
delete_context-defined none b e = cc
delete_context-defined (some a) b e = elim (Option-cases (lookup a b.contexts)) [
  | inl q ↦ ground arith
  | inr q ↦ ground arith
]

pub continue_discovery-done :
    (w : World) (a : ℕ) (uri : Bytes) (addrs : List DevAddr) (cb : Callback) (b : Bridge)
    → (t : Bool) × (b' : Bridge) × (continue_discovery w a uri addrs cb b ≡ done (t, b'))
unfolding continue_discovery
continue_discovery-done w a uri addrs cb b = elim (Bool-cases (w.accepts b.next_handle)) [
  | inl q ↦ (
    true,
    record b {
      next_handle = suc b.next_handle;
      discovered = insert b.next_handle a b.discovered;
      requests =
          record { handle = b.next_handle; callback = cb; uri = uri; addrs = addrs } ∷ b.requests;
    },
    rw q refl,
  )
  | inr q ↦ (false, record b { next_handle = suc b.next_handle }, rw q refl)
]

module _ (oc : Constants) (w : World) where
  start_discovery-Step :
      (origin : DevAddr) (payload : DiscoveryPayload)
      → Step none none (start_discovery oc w origin payload) (λ _. none)
  unfolding start_discovery
  start_discovery-Step origin payload =
      Step->>= (Step-new _)
        λ a. Step->>= (Step-continue w a _ _ _) λ taken. Step-delete (kept a taken)

  start_discovery-defined :
      (origin : DevAddr) (payload : DiscoveryPayload) (b : Bridge)
      → ¬ (start_discovery oc w origin payload b ≡ undefined)
  unfolding start_discovery new_context
  start_discovery-defined origin payload b e =
      let a = b.next_context in
      let c = fresh_context oc w origin payload in
      let b' : Bridge = record b { contexts = insert a c b.contexts; next_context = suc a } in
      let uri = oc.device_uri in
      let (t, b'', e') =
        continue_discovery-done w a uri (get_dev_addrs uri c.device) Callback.get_device b' in
      delete_context-defined (kept a t) b'' (
        sym (
          >>=-done (continue_discovery w a uri (get_dev_addrs uri c.device) Callback.get_device)
            (λ t'. delete_context (kept a t')) b' b'' t e')
        ∙ e)

  -- The search for a known device reads living contexts only, and changes nothing.
  has_seen_before_lem :
      (sid : Bytes) (as' : List ℕ) (b : Bridge)
      → ((x : ℕ) → 0 < count x as' → (c : Context) × (lookup x b.contexts ≡ some c))
      → (t : Bool) × (has_seen_before oc w sid as' b ≡ done (t, b))
  unfolding has_seen_before read_context count
  has_seen_before_lem sid [] b h = (false, refl)
  has_seen_before_lem sid (a ∷ as') b h =
      let (c, e) = h a (ground arith) in
      let (t, e') = has_seen_before_lem sid as' b (λ x q. h x (omega (arith, q))) in
      elim (Bool-cases (bytes_eq c.device.di sid)) [
        | inl q ↦ (
          true,
          >>=-done (read_context a) _ b b c
                (ap (λ o. elim o [ none ↦ dangling | some c' ↦ done (c', b) ]) e)
              ∙ rw q refl,
        )
        | inr q ↦ (
          t,
          >>=-done (read_context a) _ b b c
                (ap (λ o. elim o [ none ↦ dangling | some c' ↦ done (c', b) ]) e)
              ∙ rw q e',
        )
      ]

  start_discovery-Ends :
      (origin : DevAddr) (payload : DiscoveryPayload) (b : Bridge)
      → Balanced none none b
      → Ends (start_discovery oc w origin payload) b
  start_discovery-Ends origin payload b i =
      go (start_discovery oc w origin payload b) refl
        ((start_discovery-Step origin payload).run b i)
    where
      go :
          (o : Outcome (Unit {0} × Bridge))
          → start_discovery oc w origin payload b ≡ o
          → Safe (λ _. Balanced none none) o
          → Ends (start_discovery oc w origin payload) b
      go (done (u, b')) e i' = (b', e, i')
      go dangling e i' = elim i' [ ]
      go undefined e i' = absurd (start_discovery-defined origin payload b e)

  discover_payload-Ends :
      (origin : DevAddr) (payload : DiscoveryPayload) (b : Bridge)
      → Balanced none none b
      → Ends (discover_payload oc w origin payload) b
  unfolding discover_payload update_presence_status get_discovered get_secure_mode
  discover_payload-Ends origin payload b i =
      let b' : Bridge = record b { presence = map (seen oc w payload.sid) b.presence } in
      let i' = Balanced-same none none b b' refl refl refl refl refl i in
      let (t, e) = has_seen_before_lem payload.sid (values b.discovered) b' (values-alive b i) in
      Ends->>= (has_seen_before oc w payload.sid (values b.discovered)) _ b' b' t e (
        Ends-if (pure tt) (start_discovery oc w origin payload) b'
          (bytes_eq payload.sid w.self
            || (t || not (has_translatable_resource oc w b.secure_mode payload.resources)))
          (b', refl, i') (start_discovery-Ends origin payload b' i'))

  discover_cb-Ends :
      (origin : DevAddr) (payloads : List DiscoveryPayload) (b : Bridge)
      → Balanced none none b
      → Ends (discover_cb oc w origin payloads) b
  unfolding discover_cb
  discover_cb-Ends origin [] b i = (b, refl, i)
  discover_cb-Ends origin (p ∷ ps) b i =
      let (b', e, i') = discover_payload-Ends origin p b i in
      let (b'', e', i'') = discover_cb-Ends origin ps b' i' in
      (b'', >>=-done (discover_payload oc w origin p) _ b b' tt e ∙ e', i'')

  -- `DiscoverCB` ends with a result, whatever it is given: it reads no dead context, and where every
  -- context had one owner before, every context has one owner after it.
  pub discover_response-Ends :
      (ok : Bool) (origin : DevAddr) (payloads : List DiscoveryPayload) (b : Bridge)
      → Balanced none none b
      → Ends (discover_response oc w ok origin payloads) b
  unfolding discover_response
  discover_response-Ends true origin payloads b i = discover_cb-Ends origin payloads b i
  discover_response-Ends false origin payloads b i = (b, refl, i)
