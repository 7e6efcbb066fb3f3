-- ===== src/Occlient/Discovered.antt =====
-- What `DiscoverCB` of src/tools/occlient.cpp keeps of a response.
use hanfun_io_tivity.Prelude.{
  ℕ, ◌||◌, List, [], ◌∷◌, ◌++◌, Option, none, some, if◌then◌else◌, ◌>>=◌, ◌==◌, take, drop,
}
use hanfun_io_tivity.Prelude.Bytes.{Bytes, codes, bytes_eq}
use hanfun_io_tivity.Stack.{Constants, DevAddr, Adapter, ip, tcp, ResourcePayload, DiscoveryPayload}
use hanfun_io_tivity.Resource.{secured_origin}
use hanfun_io_tivity.HanClient.Cstring.{has_prefix}
use hanfun_io_tivity.Occlient.{Found, Client}

-- `strchr`.
unfoldable pub strchr : ℕ → Bytes → Option Bytes
strchr d [] = none
strchr d (c ∷ s) = if c == d then some (c ∷ s) else strchr d s

-- The path of a resource's URI; a `std::string` of NULL is undefined.
unfoldable pub path_of : Bytes → Option Bytes
unfolding strchr has_prefix
path_of uri = if has_prefix (codes "ocf://") uri then strchr b'/' (drop 6 uri) else some uri

module _ (oc : Constants) where
  unfoldable pub adapter_of : Bytes → Option Adapter
  adapter_of tps =
      if bytes_eq tps (codes "coap") || bytes_eq tps (codes "coaps")
      then some ip
      else if bytes_eq tps (codes "coap+tcp") || bytes_eq tps (codes "coaps+tcp")
      then some tcp
      else none

  -- The first endpoint, or else where the response came from.
  unfoldable pub found_addr : DevAddr → Bytes → ResourcePayload → DevAddr
  unfolding adapter_of
  found_addr origin sid r = elim r.eps [
    | [] ↦ secured_origin oc origin r
    | ep ∷ eps ↦ record {
      adapter = adapter_of ep.tps;
      flags = ep.family;
      port = ep.port;
      addr = take oc.max_addr_str_size ep.addr;
      ifindex = 0;
      route_data = [];
      remote_id = take oc.max_identity_size sid;
    }
  ]

  -- The loop over the resources of a payload.
  unfoldable pub add_resources :
      DevAddr → Bytes → List ResourcePayload → List Found → Option (List Found)
  unfolding path_of found_addr
  add_resources origin sid [] found = some found
  add_resources origin sid (r ∷ rs) found = path_of r.uri >>= λ uri.
      add_resources origin sid rs
        (found ++ ((record { di = sid; addr = found_addr origin sid r; uri = uri }) ∷ []))

  -- The loop over the payloads.
  unfoldable pub add_payloads : DevAddr → List DiscoveryPayload → List Found → Option (List Found)
  unfolding add_resources
  add_payloads origin [] found = some found
  add_payloads origin (p ∷ ps) found =
      add_resources origin p.sid p.resources found >>= add_payloads origin ps

  -- `DiscoverCB` of a response from an address with discovery payloads; every other response only is
  -- logged.
  unfoldable pub discover_cb : Option (DevAddr × List DiscoveryPayload) → Client → Option Client
  unfolding add_payloads
  discover_cb none c = some c
  discover_cb (some (origin, ps)) c =
      add_payloads origin ps c.resources >>= λ found. some (record c { resources = found })
