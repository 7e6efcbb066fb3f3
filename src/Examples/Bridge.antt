-- ===== src/Examples/Bridge.antt =====
-- A bridge with a device in discovery and a delayed one.
use hanfun_io_tivity.Prelude.{◌≡◌, refl, true, false, [], ◌∷◌, some, none, arith, length}
use hanfun_io_tivity.Prelude.Bytes.{Bytes, codes, bytes_eq}
use hanfun_io_tivity.Prelude.Assoc.{count, keys, values, lookup}
use hanfun_io_tivity.Stack.{Constants, DevAddr, ip, ResourcePayload, DiscoveryPayload}
use hanfun_io_tivity.Resource.{Resource, resource, end, translate_resource_type, has_resource_type}
use hanfun_io_tivity.Discovery.{
  seen_virtual, Callback, World, Context, Presence, discover, Bridge, done, representation,
  ClientResponse,
}
use hanfun_io_tivity.Discovery.Iterator.{begin, is_visited}
use hanfun_io_tivity.Discovery.Iterator.Pairs.{collect, pairs, type_pairs, collect-begin}
use hanfun_io_tivity.Discovery.Steps.{respond, discover_response}
use hanfun_io_tivity.Discovery.Process.{destroy, process_all_tasks}
use hanfun_io_tivity.Discovery.Balance.{Balanced, task_contexts}
use hanfun_io_tivity.Discovery.Balance.Callbacks.{Through, respond-Balanced}
use hanfun_io_tivity.Discovery.Balance.Discover.{Ends, discover_response-Ends}
use hanfun_io_tivity.Discovery.Steps.{seen}
use hanfun_io_tivity.Prelude.{true}
use hanfun_io_tivity.Prelude.Bytes.{bytes_eq}
use hanfun_io_tivity.Prelude.Assoc.{values}
use hanfun_io_tivity.Discovery.Balance.Process.{Absent, destroy-Absent}
use hanfun_io_tivity.Discovery.Balance.Tasks.{Ran, pending, process_all_tasks-Ran}

abbrev pub stack : Constants
stack = record {
  device_uri = codes "/oic/d";
  platform_uri = codes "/oic/p";
  type_collection = codes "oic.wk.col";
  type_introspection = codes "oic.wk.introspection";
  type_rd = codes "oic.wk.rd";
  type_rdpublish = codes "oic.wk.rdpub";
  type_res = codes "oic.wk.res";
  type_device = codes "oic.wk.d";
  type_device_configuration = codes "oic.wk.con";
  type_maintenance = codes "oic.wk.mnt";
  type_platform = codes "oic.wk.p";
  type_platform_configuration = codes "oic.wk.con.p";
  resource_type = codes "rt";
  interface = codes "if";
  interface_default = codes "oic.if.baseline";
  interface_read_write = codes "oic.if.rw";
  flag_secure = 4;
  ip_use_v6 = 6;
  secure = 4;
  max_addr_str_size = 66;
  max_identity_size = 37;
  tcp_adapter = false;
}

abbrev outside : World
outside = record {
  accepts = λ h. true;
  seen = λ piid. seen_virtual;
  alloc = true;
  set_object = λ name. true;
  self = codes "self";
  now = 100;
}

abbrev pub origin : DevAddr
origin = record {
  adapter = some ip;
  flags = λ bit. false;
  port = 5683;
  addr = codes "10.0.0.2";
  ifindex = 0;
  route_data = [];
  remote_id = [];
}

abbrev lamp : Resource
lamp =
    resource
      (record {
        uri = codes "/lamp";
        ifs = [];
        rts = codes "oic.wk.res" ∷ codes "oic.r.switch" ∷ codes "oic.r.light" ∷ [];
        is_observable = true;
        addrs = origin ∷ [];
      })
      end

abbrev context_of : Bytes → Context
context_of di = record {
  device = record { di = di; resources = lamp ∷ [] };
  paths = none;
  definitions = none;
  rit = 0;
  it = record { resource_it = []; resource_type_it = [] };
}

abbrev busy : Bridge
busy = record {
  secure_mode = false;
  discovered = (7, 1) ∷ [];
  contexts = (1, context_of (codes "d1")) ∷ (2, context_of (codes "d2")) ∷ [];
  next_context = 3;
  next_handle = 8;
  presence = Presence.oc (codes "d1") 5 10 ∷ [];
  tasks = discover 50 (codes "p2") 2 ∷ [];
  requests = [];
  killed = [];
}

busy-Balanced : Balanced none none busy
unfolding count keys values lookup task_contexts
busy-Balanced = record {
  owned = λ x. omega arith;
  once = λ x. ground arith;
  fresh_contexts = λ x q. ground arith;
  fresh_handles = λ h q. ground arith;
  pending_old = λ h e. cc;
}

abbrev device_response : ClientResponse
device_response = record {
  ok = true;
  payload = some (
      representation (record {
        piid = some (codes "p1");
        links = record { links = none; chain = [] };
        url_info = none;
      }));
  dev_addr = origin;
}

respond-Balanced_example :
    Through (respond stack outside Callback.get_device 7 (some device_response)) busy
respond-Balanced_example =
    respond-Balanced 7 busy busy-Balanced stack outside refl Callback.get_device
      (some device_response)

abbrev pub lamp_payload : ResourcePayload
lamp_payload = record {
  uri = codes "/lamp";
  types = codes "oic.r.light" ∷ [];
  interfaces = [];
  observable = true;
  secure = true;
  port = 5684;
  tcp_port = 0;
  eps =
      record { tps = codes "coap"; addr = codes "10.0.0.2"; family = λ bit. false; port = 5683 }
      ∷ [];
}

abbrev found : DiscoveryPayload
found = record { sid = codes "d3"; resources = lamp_payload ∷ [] }

discover_response-Ends_example :
    Ends (discover_response stack outside true origin (found ∷ [])) busy
discover_response-Ends_example =
    discover_response-Ends stack outside true origin (found ∷ []) busy busy-Balanced

process_all_tasks-Ran_example :
    (b' : Bridge) × (process_all_tasks stack outside busy ≡ done (tt, b'))
    × Ran (pending 100 (discover 50 (codes "p2") 2 ∷ [])) busy b'
process_all_tasks-Ran_example = process_all_tasks-Ran stack outside busy busy-Balanced

destroy-Absent_example :
    (b' : Bridge) × (destroy (codes "d1") busy ≡ done (tt, b'))
    × Balanced none none b'
    × Absent (codes "d1") b'
destroy-Absent_example = destroy-Absent (codes "d1") busy busy-Balanced

lamp-pairs : length (pairs stack false (lamp ∷ [])) ≡ 2
unfolding pairs type_pairs is_visited translate_resource_type has_resource_type bytes_eq
lamp-pairs = refl

collect-begin_example :
    collect stack false 9 (begin stack false (lamp ∷ [])) ≡ some (pairs stack false (lamp ∷ []))
collect-begin_example = collect-begin stack false (lamp ∷ []) 9 (omega (arith, lamp-pairs))
