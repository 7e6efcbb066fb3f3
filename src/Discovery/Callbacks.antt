-- ===== src/Discovery/Callbacks.antt =====
-- The client callbacks of src/bridge.cpp from `GetDeviceCB` to `GetCollectionCB`. Each handler below returns what its
-- local `context` points to at `exit`: NULL where the context has gone to another owner.
use hanfun_io_tivity.Prelude.{
  ℕ, zero, suc, ◌+◌, Bool, true, false, List, [], ◌∷◌, Option, some, none, if◌then◌else◌,
}
use hanfun_io_tivity.Prelude.Bytes.{Bytes, codes}
use hanfun_io_tivity.Stack.{Constants, DevAddr}
use hanfun_io_tivity.Resource.{
  Resource, Device, info, has_resource_type, get_resource_uri, get_resource_type, is_virtual,
}
use hanfun_io_tivity.Resource.Links.{set_collection_links, Moved}
use hanfun_io_tivity.Discovery.{
  SeenState, not_seen, seen_native, seen_virtual, Callback, World, Context, discover, M, pure,
  fault, ◌>>=◌, ◌>>◌, RepPayload,
}
use hanfun_io_tivity.Discovery.Iterator.{begin, current, get_uri}
use hanfun_io_tivity.Discovery.Ops.{
  read_context, write_context, continue_discovery, push_task, destroy_piid, get_secure_mode,
}

abbrev pub Handler : Type 0
Handler = ℕ → RepPayload → M (Option ℕ)

-- `context = NULL` after success.
abbrev pub kept : ℕ → Bool → Option ℕ
kept a true = none
kept a false = some a

-- `DiscoverContext::GetDevAddrs(uri)`.
unfoldable pub get_dev_addrs : Bytes → Device → List DevAddr
get_dev_addrs uri d = elim (get_resource_uri uri d.resources) [
  | none ↦ []
  | some r ↦ (info r).addrs
]

-- The resources from position `i` on.
unfoldable pub resources_from : ℕ → List Resource → List Resource
resources_from i [] = []
resources_from zero (r ∷ rs) = r ∷ rs
resources_from (suc i) (r ∷ rs) = resources_from i rs

-- The loop for "oric.r.hanfunobject": the position of the first such resource, and the resource; at
-- the end the position of the end.
unfoldable pub find_collection : ℕ → List Resource → ℕ × Option Resource
find_collection i [] = (i, none)
find_collection i (r ∷ rs) =
    let rest = find_collection (suc i) rs in
    if has_resource_type (info r).rts (codes "oic.r.hanfunobject") then (i, some r) else rest

-- `std::string` from a `char *`, which must not be NULL.
abbrev pub need : Option Bytes → M Bytes
need none = fault
need (some s) = pure s

module _ (oc : Constants) (w : World) where
  -- `GetSeenState`.
  unfoldable pub get_seen_state : Option Bytes → SeenState
  get_seen_state none = not_seen
  get_seen_state (some piid) = w.seen piid

  -- The request for the first or next translated resource: `it` must not be at its end.
  unfoldable pub request_resource : ℕ → Context → M Bool
  request_resource a c = elim (current c.it) [
    | none ↦ fault
    | some p ↦ continue_discovery w a (get_uri p) (info p.0).addrs Callback.get_resource
  ]

  -- A fresh pair of payloads, and the iterator at its beginning.
  unfoldable pub restart : Bool → Context → Context
  restart secure_mode c = record c {
    paths = some [];
    definitions = some [];
    it = begin oc secure_mode c.device.resources;
  }

  unfoldable pub start_resources : ℕ → M Bool
  unfolding request_resource restart
  start_resources a = do
    secure_mode ← get_secure_mode
    c ← read_context a
    let c' = restart secure_mode c
    write_context a c'
    request_resource a c'

  -- `GetIntrospection`. Where the payloads cannot be allocated it reports success.
  unfoldable pub get_introspection : ℕ → M Bool
  unfolding start_resources
  get_introspection a = do
    c ← read_context a
    elim (get_resource_type oc.type_introspection c.device.resources) [
      | some r ↦ continue_discovery w a (info r).uri (info r).addrs Callback.get_introspection
      | none ↦ if w.alloc then start_resources a else pure true
    ]

  -- The request for a collection, or on to the introspection.
  unfoldable pub next_collection : ℕ → ℕ × Option Resource → M Bool
  unfolding get_introspection
  next_collection a (i, found) = do
    c ← read_context a
    write_context a (record c { rit = i })
    elim found [
      | some r ↦ continue_discovery w a (info r).uri (info r).addrs Callback.get_collection
      | none ↦ get_introspection a
    ]

  -- `GetCollection`.
  unfoldable pub get_collection : ℕ → M Bool
  unfolding next_collection
  get_collection a = do c ← read_context a; next_collection a (find_collection 0 c.device.resources)

  -- `GetPlatformConfiguration`.
  unfoldable pub get_platform_configuration : ℕ → M Bool
  unfolding get_collection
  get_platform_configuration a = do
    c ← read_context a
    elim (get_resource_type oc.type_platform_configuration c.device.resources) [
      | some r ↦
          continue_discovery w a (info r).uri (info r).addrs Callback.get_platform_configuration
      | none ↦ get_collection a
    ]

  unfoldable pub request_platform : ℕ → Device → M (Option ℕ)
  request_platform a d = do
    taken ←
        continue_discovery w a oc.platform_uri (get_dev_addrs oc.platform_uri d)
          Callback.get_platform
    pure (kept a taken)

  -- `GetDeviceCB`.
  unfoldable pub on_device : Handler
  unfolding get_seen_state request_platform
  on_device a payload = do
    c ← read_context a
    elim (get_seen_state payload.piid) [
      | not_seen ↦
          if is_virtual oc c.device
          then (do piid ← need payload.piid; push_task (discover (w.now + 10) piid a); pure none)
          else request_platform a c.device
      | seen_native ↦ pure (some a)
      | seen_virtual ↦
          if is_virtual oc c.device
          then request_platform a c.device
          else (do piid ← need payload.piid; destroy_piid piid; request_platform a c.device)
    ]

  -- `GetPlatformCB`.
  unfoldable pub on_platform : Handler
  unfolding get_platform_configuration
  on_platform a payload = do
    c ← read_context a
    taken ← elim (get_resource_type oc.type_device_configuration c.device.resources) [
      | some r ↦
          continue_discovery w a (info r).uri (info r).addrs Callback.get_device_configuration
      | none ↦ get_platform_configuration a
    ]
    pure (kept a taken)

  -- `GetDeviceConfigurationCB`.
  unfoldable pub on_device_configuration : Handler
  unfolding get_platform_configuration
  on_device_configuration a payload = do taken ← get_platform_configuration a; pure (kept a taken)

  -- `GetPlatformConfigurationCB`, which needs no payload.
  unfoldable pub on_platform_configuration : ℕ → M (Option ℕ)
  unfolding get_collection
  on_platform_configuration a = do taken ← get_collection a; pure (kept a taken)

  -- The part of `GetCollectionCB` behind the links: the rest of the loop, if its iterator is still
  -- good, or the introspection.
  unfoldable pub after_links : ℕ → Bool × Moved → M (Option ℕ)
  unfolding next_collection
  after_links a (success, m) = do
    c ← read_context a
    let device' : Device = record { di = c.device.di; resources = m.resources }
    write_context a (record c { device = device' })
    if success
        then (if m.rit_valid
            then (do
              taken ←
                  next_collection a
                    (find_collection (suc c.rit) (resources_from (suc c.rit) m.resources))
              pure (kept a taken))
            else fault)
        else pure (some a)

  -- `GetCollectionCB`.
  unfoldable pub on_collection : Handler
  unfolding after_links
  on_collection a payload = do
    c ← read_context a
    elim (resources_from c.rit c.device.resources) [
      | [] ↦ fault
      | r ∷ rs ↦
          elim (set_collection_links w.alloc c.rit (info r).uri payload.links c.device.resources) [
            | none ↦ fault
            | some moved ↦ after_links a moved
          ]
    ]
