-- ===== src/Entity.antt =====
-- What the handlers of the bridge's own resources share: `CreatePayload`, `SetResourceTypes` and
-- `SetInterfaces` of src/resource.cpp, and the requests and responses of IoTivity that they handle.
-- Which calls of IoTivity succeed is an input. `none` is undefined behaviour.
pub mod SecureMode
pub mod Registration
use hanfun_io_tivity.Prelude.{
  ℕ, ◌+◌, Bool, true, false, not, List, [], ◌∷◌, ◌++◌, Option, some, none, if◌then◌else◌, ◌>>=◌,
  length,
}
use hanfun_io_tivity.Prelude.Bytes.{Bytes, codes}
use hanfun_io_tivity.Prelude.Dict.{insert}
use hanfun_io_tivity.HanClient.Cstring.{has_prefix}
use hanfun_io_tivity.Stack.{Constants}
use hanfun_io_tivity.Resource.Query.{Served}

-- The values of a representation that are set here.
pub data Value : Type 0 where
  bool : Bool → Value
  strings : List Bytes → Value

abbrev pub Rep : Type 0
Rep = List (Bytes × Value)

-- Which calls succeed: OCRepPayloadCreate, OICCalloc for a number of cells, and the setting of a
-- property by its name. The result of OCDoResponse only decides who frees the payload.
pub record Calls : Type 0 where
  pub create : Bool
  pub calloc : ℕ → Bool
  pub set : Bytes → Bool

pub data Method : Type 0 where
  get post other : Method

-- A payload that is no representation, and one with the Boolean property that the handler reads, if
-- it has one.
pub data Payload : Type 0 where
  not_representation : Payload
  representation : Option Bool → Payload

-- `OCEntityHandlerRequest`: what the stack says of the resource, the query and the payload.
pub record Request : Type 0 where
  pub method : Method
  pub resource : Served
  pub query : Option Bytes
  pub payload : Option Payload

pub data EntityHandlerResult : Type 0 where
  eh_ok eh_error eh_bad_req eh_method_not_allowed : EntityHandlerResult

-- What the handler does outside: OCDoResponse with a payload or NULL, and OCNotifyAllObservers.
pub data Effect : Type 0 where
  responded : Option Rep → Effect
  notified : Effect

-- `strstr`.
unfoldable has_substring : Bytes → Bytes → Bool
has_substring needle [] = has_prefix needle []
has_substring needle (c ∷ s) =
    let rest = has_substring needle s in if has_prefix needle (c ∷ s) then true else rest

-- The copies of all names, unless one is not given.
unfoldable all_names : List (Option Bytes) → Option (List Bytes)
all_names [] = some []
all_names (none ∷ ns) = none
all_names (some n ∷ ns) = all_names ns >>= λ rest. some (n ∷ rest)

-- `OCRepPayloadSet...` of a property.
abbrev pub set_property : Calls → Bytes → Value → Rep → Option Rep
set_property calls name value rep = if calls.set name then some (insert name value rep) else none

-- The common text of `SetResourceTypes` and `SetInterfaces`.
unfoldable set_names : Calls → Bytes → Option (List (Option Bytes)) → Rep → Option Rep
unfolding all_names
set_names calls name none rep = none
set_names calls name (some ns) rep =
    if calls.calloc (length ns)
    then (all_names ns >>= λ array. set_property calls name (strings array) rep)
    else none

-- `SetResourceTypes`, `none` for false.
unfoldable set_resource_types : Constants → Calls → Served → Rep → Option Rep
unfolding set_names
set_resource_types oc calls r rep = set_names calls oc.resource_type r.types rep

-- `SetInterfaces`.
unfoldable set_interfaces : Constants → Calls → Served → Rep → Option Rep
unfolding set_names
set_interfaces oc calls r rep = set_names calls oc.interface r.interfaces rep

-- INTERFACE_DEFAULT_QUERY is in the query.
unfoldable is_default_query : Constants → Option Bytes → Bool
unfolding has_substring
is_default_query oc none = false
is_default_query oc (some query) = has_substring (codes "if=" ++ oc.interface_default) query

-- `CreatePayload`, `none` for NULL.
unfoldable pub create_payload : Constants → Calls → Served → Option Bytes → Option Rep
unfolding set_resource_types set_interfaces is_default_query
create_payload oc calls r query =
    if calls.create
    then (if is_default_query oc query
        then (do typed ← set_resource_types oc calls r []; set_interfaces oc calls r typed)
        else some [])
    else none

-- How many responses, and how many notifications, a handler made.
unfoldable pub responses : List Effect → ℕ
responses [] = 0
responses (responded payload ∷ es) = 1 + responses es
responses (notified ∷ es) = responses es

unfoldable pub notifications : List Effect → ℕ
notifications [] = 0
notifications (responded payload ∷ es) = notifications es
notifications (notified ∷ es) = 1 + notifications es

abbrev pub is_ok : EntityHandlerResult → Bool
is_ok eh_ok = true
is_ok eh_error = false
is_ok eh_bad_req = false
is_ok eh_method_not_allowed = false

abbrev pub differs : Bool → Bool → Bool
differs a true = not a
differs a false = a

-- A GET, and a POST of the property's value.
abbrev pub get_request : Served → Option Bytes → Request
get_request r query = record { method = get; resource = r; query = query; payload = none }

abbrev pub post_request : Served → Option Bytes → Bool → Request
post_request r query value = record {
  method = post;
  resource = r;
  query = query;
  payload = some (representation (some value));
}
