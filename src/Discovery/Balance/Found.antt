-- ===== src/Discovery/Balance/Found.antt =====
-- One round of `DiscoverCB` of src/bridge.cpp: which devices lead to a request.
use hanfun_io_tivity.Prelude.{ℕ, suc, map, Bool, false, ◌||◌, List, [], ◌∷◌, some, none}
use hanfun_io_tivity.Prelude.Bytes.{Bytes, bytes_eq}
use hanfun_io_tivity.Prelude.Assoc.{lookup, insert}
use hanfun_io_tivity.Stack.{Constants, DevAddr, DiscoveryPayload}
use hanfun_io_tivity.Discovery.{Bridge, Context, World, Callback}
use hanfun_io_tivity.Discovery.Callbacks.{get_dev_addrs}
use hanfun_io_tivity.Discovery.Steps.{seen, fresh_context}

-- Whether one of these contexts is for the device.
unfoldable pub is_known : Bytes → List (ℕ × Context) → List ℕ → Bool
is_known sid heap [] = false
is_known sid heap (a ∷ as') =
    (elim (lookup a heap) [ none ↦ false | some c ↦ bytes_eq c.device.di sid ])
    || is_known sid heap as'

module _ (oc : Constants) (w : World) where
  -- The bridge after the request for a new device.
  abbrev pub requested : DevAddr → DiscoveryPayload → Bridge → Bridge
  requested origin payload b =
      let c = fresh_context oc w origin payload in
      record b {
        presence = map (seen oc w payload.sid) b.presence;
        contexts = insert b.next_context c b.contexts;
        next_context = suc b.next_context;
        next_handle = suc b.next_handle;
        discovered = insert b.next_handle b.next_context b.discovered;
        requests =
            record {
              handle = b.next_handle;
              callback = Callback.get_device;
              uri = oc.device_uri;
              addrs = get_dev_addrs oc.device_uri c.device;
            }
            ∷ b.requests;
      }
