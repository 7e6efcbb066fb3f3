-- ===== src/Discovery/Steps.antt =====
-- The entry points of the discovery in src/bridge.cpp: `DiscoverCB`, the response callbacks with
-- their ends, `Destroy(const char *)`, the presence and the tasks of `Process`.
use hanfun_io_tivity.Prelude.{
  ℕ, Bool, true, false, not, ◌&&◌, ◌||◌, List, [], ◌∷◌, Option, some, none, if◌then◌else◌, map,
}
use hanfun_io_tivity.Prelude.Bytes.{Bytes, bytes_eq}
use hanfun_io_tivity.Prelude.Assoc.{values}
use hanfun_io_tivity.Stack.{Constants, DevAddr, EndpointPayload, ResourcePayload, DiscoveryPayload}
use hanfun_io_tivity.Resource.{new_device, translate_resource_type}
use hanfun_io_tivity.Discovery.{
  Callback, World, Context, Presence, done, M, pure, ◌>>=◌, ◌>>◌, RepPayload, ClientResponse,
}
use hanfun_io_tivity.Discovery.Ops.{
  read_context, new_context, delete_context, erase_discovered, find_discovered, continue_discovery,
  get_secure_mode, rep_payload,
}
use hanfun_io_tivity.Discovery.Callbacks.{
  get_dev_addrs, kept, on_device, on_platform, on_device_configuration, on_platform_configuration,
  on_collection, Handler,
}
use hanfun_io_tivity.Discovery.Introspection.{on_introspection, on_introspection_data, on_resource}

-- `exit:` of the callbacks: `delete context; discovered_.erase(handle)`.
unfoldable pub finish : ℕ → Option ℕ → M (Unit {0})
finish h c = do delete_context c; erase_discovered h

-- `exit:` of `GetCB`, the other way round.
unfoldable pub finish_resource : ℕ → Option ℕ → M (Unit {0})
finish_resource h c = do erase_discovered h; delete_context c

-- A callback that needs the context and the payload.
unfoldable pub with_payload : Handler → ℕ → Option ClientResponse → M (Unit {0})
unfolding finish
with_payload handler h response = do
  found ← find_discovered h
  elim found [
    | none ↦ finish h none
    | some a ↦ elim (rep_payload response) [
      | none ↦ finish h (some a)
      | some payload ↦ handler a payload >>= finish h
    ]
  ]

-- A callback that needs the context alone.
unfoldable pub with_context : (ℕ → M (Option ℕ)) → (Option ℕ → M (Unit {0})) → ℕ → M (Unit {0})
with_context handler end h = do
  found ← find_discovered h
  elim found [ none ↦ end none | some a ↦ handler a >>= end ]

-- The payload with `response->devAddr`.
unfoldable pub rep_with_addr : Option ClientResponse → Option (DevAddr × RepPayload)
rep_with_addr none = none
rep_with_addr (some r) = elim (rep_payload (some r)) [
  | none ↦ none
  | some payload ↦ some (r.dev_addr, payload)
]

module _ (oc : Constants) (w : World) where
  -- The callback of a request, on the request's handle and the response.
  unfoldable pub respond : Callback → ℕ → Option ClientResponse → M (Unit {0})
  unfolding with_payload with_context finish_resource
  respond Callback.get_device h r = with_payload (on_device oc w) h r
  respond Callback.get_platform h r = with_payload (on_platform oc w) h r
  respond Callback.get_device_configuration h r = with_payload (on_device_configuration oc w) h r
  respond Callback.get_platform_configuration h r =
      with_context (on_platform_configuration oc w) (finish h) h
  respond Callback.get_collection h r = with_payload (on_collection oc w) h r
  respond Callback.get_introspection h r =
      with_context (λ a. on_introspection oc w a (rep_with_addr r)) (finish h) h
  respond Callback.get_introspection_data h r =
      with_context (λ a. on_introspection_data oc w a (rep_payload r)) (finish h) h
  respond Callback.get_resource h r = with_context (on_resource oc w) (finish_resource h) h

  -- `IsSecure(const OCResourcePayload *)`.
  unfoldable pub any_secure_endpoint : List EndpointPayload → Bool
  any_secure_endpoint [] = false
  any_secure_endpoint (ep ∷ eps) = ep.family oc.secure || any_secure_endpoint eps

  unfoldable pub is_secure_payload : ResourcePayload → Bool
  unfolding any_secure_endpoint
  is_secure_payload r = if r.secure then true else any_secure_endpoint r.eps

  unfoldable any_translated : List Bytes → Bool
  any_translated [] = false
  any_translated (t ∷ ts) = if translate_resource_type oc t then true else any_translated ts

  -- `HasTranslatableResource`, on the resources of the payload.
  unfoldable pub has_translatable_resource : Bool → List ResourcePayload → Bool
  unfolding is_secure_payload any_translated
  has_translatable_resource secure_mode [] = false
  has_translatable_resource secure_mode (r ∷ rs) =
      let rest = has_translatable_resource secure_mode rs in
      if secure_mode && not (is_secure_payload r)
      then rest
      else if any_translated r.types
      then true
      else rest

  -- `HasSeenBefore`: the loop over the map reads every context up to the one it finds.
  unfoldable pub has_seen_before : Bytes → List ℕ → M Bool
  has_seen_before sid [] = pure false
  has_seen_before sid (a ∷ as') = do
    c ← read_context a
    if bytes_eq c.device.di sid then pure true else has_seen_before sid as'

  unfoldable pub seen : Bytes → Presence → Presence
  seen sid (Presence.hf id tick) =
      if bytes_eq id sid then Presence.hf id w.now else Presence.hf id tick
  seen sid (Presence.oc di period tick) =
      if bytes_eq di sid then Presence.oc di period w.now else Presence.oc di period tick

  -- `UpdatePresenceStatus`.
  unfoldable pub update_presence_status : Bytes → M (Unit {0})
  unfolding seen
  update_presence_status sid b = done (tt, record b { presence = map (seen sid) b.presence })

  unfoldable pub get_discovered : M (List ℕ)
  get_discovered b = done (values b.discovered, b)

  abbrev pub fresh_context : DevAddr → DiscoveryPayload → Context
  fresh_context origin payload = record {
    device = new_device oc origin payload;
    paths = none;
    definitions = none;
    rit = 0;
    it = record { resource_it = []; resource_type_it = [] };
  }

  -- A new context, and the request for its device; the part of `DiscoverCB` from `new` on.
  unfoldable pub start_discovery : DevAddr → DiscoveryPayload → M (Unit {0})
  start_discovery origin payload = do
    let c = fresh_context origin payload
    a ← new_context c
    taken ←
        continue_discovery w a oc.device_uri (get_dev_addrs oc.device_uri c.device)
          Callback.get_device
    delete_context (kept a taken)

  -- One round of the loop of `DiscoverCB`.
  unfoldable pub discover_payload : DevAddr → DiscoveryPayload → M (Unit {0})
  unfolding has_translatable_resource has_seen_before update_presence_status get_discovered
      start_discovery
  discover_payload origin payload = do
    update_presence_status payload.sid
    known ← get_discovered
    old ← has_seen_before payload.sid known
    secure_mode ← get_secure_mode
    if bytes_eq payload.sid w.self
          || (old || not (has_translatable_resource secure_mode payload.resources))
        then pure tt
        else start_discovery origin payload

  -- The loop of `DiscoverCB` over the payloads.
  unfoldable pub discover_cb : DevAddr → List DiscoveryPayload → M (Unit {0})
  unfolding discover_payload
  discover_cb origin [] = pure tt
  discover_cb origin (p ∷ ps) = discover_payload origin p >> discover_cb origin ps

  -- `DiscoverCB`, from whether there is a response with the result OC_STACK_OK, the address that it
  -- came from and its payloads.
  unfoldable pub discover_response : Bool → DevAddr → List DiscoveryPayload → M (Unit {0})
  unfolding discover_cb
  discover_response ok origin payloads = if ok then discover_cb origin payloads else pure tt
