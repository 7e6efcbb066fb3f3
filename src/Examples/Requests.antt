-- ===== src/Examples/Requests.antt =====
-- Queries and requests.
use hanfun_io_tivity.Prelude.{
  ℕ, ◌≡◌, Bool, none, refl, true, List, [], ◌∷◌, some, ◌>>=◌, arith, ◌==◌, if◌then◌else◌,
}
use hanfun_io_tivity.Prelude.Bytes.{Bytes, codes}
use hanfun_io_tivity.Prelude.Dict.{lookup}
use hanfun_io_tivity.Stack.{DevAddr, Results, keep_transaction, delete_transaction}
use hanfun_io_tivity.Resource.Query.{parse_query, is_valid_request}
use hanfun_io_tivity.Resource.Query.Pairs.{print_pairs, is_printable, said, parse_query-print_pairs}
use hanfun_io_tivity.Resource.Query.Valid.{served, is_served, is_valid_request-print_pairs}
use hanfun_io_tivity.Resource.Request.{State, bridge_do_resource}
use hanfun_io_tivity.Resource.Request.Order.{respond, conversation, bridge_do_resource-conversation}
use hanfun_io_tivity.Resource.Request.Runs.{
  Delivery, deliver_all, lives, InOrder, deliver_all-InOrder,
}
use hanfun_io_tivity.Discovery.Poll.{
  Discoverer, Happening, processed, answered, stopped, happen_all, IsSingle, happen_all-IsSingle,
}
use hanfun_io_tivity.Resource.Parse.{EndpointRep, LinkRep, parse_link}
use hanfun_io_tivity.Resource.Parse.Endpoints.{Fails, FailsBehind, parse_link-Fails}
use hanfun_io_tivity.Examples.Bridge.{stack, origin}

abbrev query : Bytes
query = codes "if=oic.if.rw&rt=oic.r.registration"

abbrev itf : Bytes × Bytes
itf = (codes "if", codes "oic.if.rw")

abbrev rt : Bytes × Bytes
rt = (codes "rt", codes "oic.r.registration")

abbrev registration_types : List Bytes
registration_types = codes "oic.r.registration" ∷ []

abbrev registration_interfaces : List Bytes
registration_interfaces = codes "oic.if.rw" ∷ codes "oic.if.baseline" ∷ []

printable : is_printable (itf ∷ rt ∷ []) ≡ true
unfolding is_printable
printable = refl

parse_query-print_pairs_example :
    (m : List (Bytes × Bytes)) × (parse_query stack
        (served registration_types registration_interfaces)
        (some (print_pairs (itf ∷ rt ∷ [])))
      ≡ some m)
    × ((k : Bytes)
        → lookup k m
          ≡ said stack (served registration_types registration_interfaces) (itf ∷ rt ∷ []) k)
parse_query-print_pairs_example =
    parse_query-print_pairs stack (served registration_types registration_interfaces) itf (rt ∷ [])
      printable

is_valid_request-print_pairs_example :
    is_valid_request stack
      (served registration_types registration_interfaces)
      (some (print_pairs (itf ∷ rt ∷ [])))
    ≡ some (is_served stack registration_types registration_interfaces (itf ∷ rt ∷ []))
is_valid_request-print_pairs_example =
    is_valid_request-print_pairs stack (codes "oic.r.registration") [] registration_interfaces itf
      (rt ∷ []) refl printable

abbrev results : Results
results = record { ok = 0; resource_changed = 4; invalid_query = 20 }

abbrev backup : DevAddr
backup = record origin { port = 5684 }

-- The first address does not answer well.
abbrev answers : DevAddr → ℕ
answers d = if d.port == 5683 then 30 else 0

bridge_do_resource-conversation_example :
    (respond results answers delete_transaction 2
        (bridge_do_resource (codes "/oic/d") (origin ∷ backup ∷ []))
      >>= λ s. some s.events)
    ≡ some (conversation results answers delete_transaction (codes "/oic/d") origin (backup ∷ []))
bridge_do_resource-conversation_example =
    bridge_do_resource-conversation results answers delete_transaction (codes "/oic/d") origin
      (backup ∷ [])

-- A bad answer of the first address, then one of the second that the callback wants to follow, its last,
-- and one that comes too late.
abbrev deliveries : List Delivery
deliveries =
    record { response = some 30; request_result = 0; answer = keep_transaction }
    ∷ record { response = some 0; request_result = 0; answer = keep_transaction }
    ∷ record { response = some 0; request_result = 0; answer = delete_transaction }
    ∷ record { response = some 0; request_result = 0; answer = delete_transaction }
    ∷ []

deliver_all-InOrder_example :
    (s' : State) × (live : Bool) × (deliver_all results deliveries
        (bridge_do_resource (codes "/oic/d") (origin ∷ backup ∷ []), true)
      ≡ some (s', live))
    × InOrder (origin ∷ backup ∷ []) s'
    × (lives s'.context ≡ live)
deliver_all-InOrder_example =
    deliver_all-InOrder results (codes "/oic/d") origin (backup ∷ []) deliveries

abbrev idle : Discoverer
idle = record { discover_handle = none; discover_next_tick = 0; made = 0; ended = 0 }

idle-IsSingle : IsSingle (codes "/oic/res") idle
unfolding IsSingle
idle-IsSingle = (none, refl, omega arith)

-- Two requests, a response to each, and `Stop`.
abbrev evening : List Happening
evening =
    processed 1 1
    ∷ answered (some 0) 0
    ∷ processed 6 7
    ∷ answered (some 30) 0
    ∷ stopped
    ∷ answered none 0
    ∷ []

happen_all-IsSingle_example :
    (d' : Discoverer) × (happen_all results (codes "/oic/res") evening idle ≡ some d')
    × IsSingle (codes "/oic/res") d'
happen_all-IsSingle_example =
    happen_all-IsSingle results (codes "/oic/res") evening idle idle-IsSingle

abbrev endpoint : EndpointRep
endpoint = record {
  ep = some (codes "coap://[fe80::1]:5683");
  tcp_port = none;
  ep_allocated = true;
  blocks_allocated = true;
}

abbrev unnamed : EndpointRep
unnamed = record endpoint { ep = none }

abbrev link : LinkRep
link = record {
  href = some (codes "/a");
  rel = none;
  anchor = none;
  resource_types = none;
  interfaces = none;
  policy = none;
  endpoints = some (unnamed ∷ endpoint ∷ []);
  payload_uri = codes "/b";
  payload_types = [];
  payload_interfaces = [];
  rp_allocated = true;
}

parse_link-Fails_example :
    Fails (parse_link stack 5 link) × FailsBehind stack 5 (unnamed ∷ []) (parse_link stack 5 link)
parse_link-Fails_example =
    parse_link-Fails stack 5 link (unnamed ∷ []) [] endpoint (codes "coap://[fe80::1]:5683") refl
      refl refl
