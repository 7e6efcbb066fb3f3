-- ===== src/Entity/Registration.antt =====
-- src/registration_resource.cpp: the handler of the resource "/registration", with the HAN client
-- that it tells.
pub mod Laws
use hanfun_io_tivity.Prelude.{
  Bool, true, false, not, List, [], ◌∷◌, ◌++◌, Option, some, none, if◌then◌else◌, ◌>>=◌,
}
use hanfun_io_tivity.Prelude.Bytes.{Bytes, codes}
use hanfun_io_tivity.Stack.{Constants}
use hanfun_io_tivity.Resource.Query.{is_valid_request}
use hanfun_io_tivity.HanClient.Client.{HanClient, open_registration, close_registration}
use hanfun_io_tivity.Entity.{
  Value, bool, strings, Rep, Calls, get, post, other, Payload, not_representation, representation,
  Request, EntityHandlerResult, eh_ok, eh_error, eh_bad_req, eh_method_not_allowed, Effect,
  responded, notified, set_property, create_payload, differs,
}

-- `open_`, as `IsOpen` gives it, and `han_client_`; the mutex, the handle and the timeout, which nothing reads, are left out.
pub record RegistrationResource : Type 0 where
  pub is_open : Bool
  pub han_client : HanClient

pub record Handled : Type 0 where
  pub state : RegistrationResource
  pub result : EntityHandlerResult
  pub effects : List Effect

-- `HFSetRegistration`.
unfoldable pub hf_set_registration : RegistrationResource → Option RegistrationResource
hf_set_registration r = do
  c ← if r.is_open then open_registration r.han_client else close_registration r.han_client
  some (record r { han_client = c })

-- `PostRegistration` with the property: the new state, and whether it has changed.
unfoldable pub post_registration :
    Bool → RegistrationResource → Option (RegistrationResource × Bool)
unfolding hf_set_registration
post_registration value r = do
  r' ← hf_set_registration (record r { is_open = value })
  some (r', differs r.is_open value)

abbrev pub refused : RegistrationResource → EntityHandlerResult → Handled
refused r result = record { state = r; result = result; effects = [] }

module _ (oc : Constants) (calls : Calls) where
  -- `GetRegistration`: no property can be set in NULL.
  unfoldable pub get_registration : Request → RegistrationResource → Option Rep
  unfolding create_payload
  get_registration request r = do
    payload ← create_payload oc calls request.resource request.query
    opened ← set_property calls (codes "open") (bool r.is_open) payload
    typed ← set_property calls oc.resource_type (strings (codes "oic.r.registration" ∷ [])) opened
    set_property calls oc.interface (strings (oc.interface_read_write ∷ [])) typed

  -- The case OC_REST_GET.
  unfoldable pub handle_get : Request → RegistrationResource → Handled
  unfolding get_registration
  handle_get request r = elim (get_registration request r) [
    | none ↦ refused r eh_error
    | some payload ↦ record { state = r; result = eh_ok; effects = responded (some payload) ∷ [] }
  ]

  -- The case OC_REST_POST of a representation with the property, and the notification behind it.
  unfoldable pub handle_open : Bool → Request → RegistrationResource → Option Handled
  unfolding post_registration get_registration
  handle_open value request r = do
    (r', has_changed) ← post_registration value r
    some (record {
      state = r';
      result = eh_ok;
      effects =
          responded (get_registration request r') ∷ (if has_changed then notified ∷ [] else []);
    })

  -- The case OC_REST_POST.
  unfoldable pub handle_post : Request → RegistrationResource → Option Handled
  unfolding handle_open
  handle_post request r = elim request.payload [
    | none ↦ some (refused r eh_error)
    | some p ↦ elim p [
      | not_representation ↦ some (refused r eh_error)
      | representation property ↦ elim property [
        | none ↦ some (refused r eh_error)
        | some value ↦ handle_open value request r
      ]
    ]
  ]

  unfoldable pub handle_method : Request → RegistrationResource → Option Handled
  unfolding handle_get handle_post
  handle_method request r = elim request.method [
    | get ↦ some (handle_get request r)
    | post ↦ handle_post request r
    | other ↦ some (refused r eh_method_not_allowed)
  ]

  -- `EntityHandlerCB`.
  unfoldable pub entity_handler_cb : Request → RegistrationResource → Option Handled
  unfolding handle_method
  entity_handler_cb request r = do
    valid ← is_valid_request oc request.resource request.query
    if valid then handle_method request r else some (refused r eh_bad_req)
