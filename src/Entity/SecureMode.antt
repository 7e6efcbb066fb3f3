-- ===== src/Entity/SecureMode.antt =====
-- src/secure_mode_resource.cpp: the handler of the resource "/securemode".
pub mod Laws
use hanfun_io_tivity.Prelude.{
  Bool, true, false, not, List, [], ◌∷◌, ◌++◌, Option, some, none, if◌then◌else◌, ◌>>=◌,
}
use hanfun_io_tivity.Prelude.Bytes.{Bytes, codes}
use hanfun_io_tivity.Stack.{Constants}
use hanfun_io_tivity.Resource.Query.{is_valid_request}
use hanfun_io_tivity.Entity.{
  Value, bool, Rep, Calls, get, post, other, Payload, not_representation, representation, Request,
  EntityHandlerResult, eh_ok, eh_error, eh_bad_req, eh_method_not_allowed, Effect, responded,
  notified, set_property, create_payload, differs,
}

-- `m_secureMode`; the mutex and the handle are left out.
pub record SecureModeResource : Type 0 where
  pub secure_mode : Bool

-- What a call of the handler leaves: the state, its result, and what it did outside.
pub record Handled : Type 0 where
  pub state : SecureModeResource
  pub result : EntityHandlerResult
  pub effects : List Effect

abbrev pub refused : SecureModeResource → EntityHandlerResult → Handled
refused r result = record { state = r; result = result; effects = [] }

module _ (oc : Constants) (calls : Calls) where
  -- `GetSecureMode`: no property can be set in NULL.
  unfoldable pub get_secure_mode : Request → SecureModeResource → Option Rep
  unfolding create_payload
  get_secure_mode request r = do
    payload ← create_payload oc calls request.resource request.query
    set_property calls (codes "secureMode") (bool r.secure_mode) payload

  -- `PostSecureMode`: the new state, and whether it has changed; `none` for false.
  unfoldable pub post_secure_mode :
      Option Bool → SecureModeResource → Option (SecureModeResource × Bool)
  post_secure_mode none r = none
  post_secure_mode (some secure_mode) r =
      some (record r { secure_mode = secure_mode }, differs r.secure_mode secure_mode)

  -- The case OC_REST_GET.
  unfoldable pub handle_get : Request → SecureModeResource → Handled
  unfolding get_secure_mode
  handle_get request r = elim (get_secure_mode request r) [
    | none ↦ refused r eh_error
    | some payload ↦ record { state = r; result = eh_ok; effects = responded (some payload) ∷ [] }
  ]

  -- The case OC_REST_POST, with the notification behind it.
  unfoldable pub handle_post : Request → SecureModeResource → Handled
  unfolding post_secure_mode get_secure_mode
  handle_post request r = elim request.payload [
    | none ↦ refused r eh_error
    | some p ↦ elim p [
      | not_representation ↦ refused r eh_error
      | representation property ↦ elim (post_secure_mode property r) [
        | none ↦ refused r eh_error
        | some (r', has_changed) ↦ record {
          state = r';
          result = eh_ok;
          effects =
              responded (get_secure_mode request r') ∷ (if has_changed then notified ∷ [] else []);
        }
      ]
    ]
  ]

  unfoldable pub handle_method : Request → SecureModeResource → Handled
  unfolding handle_get handle_post
  handle_method request r = elim request.method [
    | get ↦ handle_get request r
    | post ↦ handle_post request r
    | other ↦ refused r eh_method_not_allowed
  ]

  -- `EntityHandlerCB`.
  unfoldable pub entity_handler_cb : Request → SecureModeResource → Option Handled
  unfolding handle_method
  entity_handler_cb request r = do
    valid ← is_valid_request oc request.resource request.query
    some (if valid then handle_method request r else refused r eh_bad_req)
