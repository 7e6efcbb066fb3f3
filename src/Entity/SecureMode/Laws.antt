-- ===== src/Entity/SecureMode/Laws.antt =====
-- The handler of src/secure_mode_resource.cpp: what it answers, keeps and tells.
use hanfun_io_tivity.Prelude.{
  Bool, true, false, [], ◌∷◌, Option, some, none, if◌then◌else◌, ◌>>=◌, ◌≡◌, refl, ap, ◌∙◌, arith,
}
use hanfun_io_tivity.Prelude.Bytes.{Bytes, codes}
use hanfun_io_tivity.Prelude.Dict.{insert}
use hanfun_io_tivity.Stack.{Constants}
use hanfun_io_tivity.Resource.Query.{Served, is_valid_request}
use hanfun_io_tivity.Entity.{
  bool, Rep, Calls, Method, get, post, other, Payload, not_representation, representation, Request,
  get_request, post_request, EntityHandlerResult, eh_ok, eh_error, eh_bad_req,
  eh_method_not_allowed, responded, notified, create_payload, responses, notifications, is_ok,
  differs,
}
use hanfun_io_tivity.Entity.SecureMode.{
  SecureModeResource, Handled, get_secure_mode, post_secure_mode, refused, handle_get, handle_post,
  handle_method, entity_handler_cb,
}

-- One response where the result is OC_EH_OK and none otherwise, and one notification where the mode
-- has changed and none otherwise; without OC_EH_OK the mode is as it was.
unfoldable pub IsSound : SecureModeResource → Handled → Type 0
IsSound r h =
    (responses h.effects ≡ (if is_ok h.result then 1 else 0))
    × (notifications h.effects ≡ (if differs r.secure_mode h.state.secure_mode then 1 else 0))
    × (is_ok h.result ≡ false → h.state ≡ r)

refused-IsSound :
    (r : SecureModeResource) (e : EntityHandlerResult) → is_ok e ≡ false → IsSound r (refused r e)
unfolding IsSound responses notifications
refused-IsSound r e h = (ground arith, ground arith, λ k. refl)

answered-IsSound :
    (r : SecureModeResource) (value : Bool) (payload : Option Rep)
    → IsSound r (record {
      state = record r { secure_mode = value };
      result = eh_ok;
      effects = responded payload ∷ (if differs r.secure_mode value then notified ∷ [] else []);
    })
unfolding IsSound responses notifications
answered-IsSound r value payload = (ground arith, ground arith, λ k. cc)

module _ (oc : Constants) (calls : Calls) (q : Request) (r : SecureModeResource) where
  handle_get-IsSound : IsSound r (handle_get oc calls q r)
  unfolding handle_get IsSound responses notifications
  handle_get-IsSound = go (get_secure_mode oc calls q r)
    where
      go :
          (o : Option Rep)
          → IsSound r (elim o [
            | none ↦ refused r eh_error
            | some payload ↦ record {
              state = r;
              result = eh_ok;
              effects = responded (some payload) ∷ [];
            }
          ])
      go none = refused-IsSound r eh_error refl
      go (some payload) = (refl, ground arith, λ k. cc)

  handle_post-IsSound : IsSound r (handle_post oc calls q r)
  unfolding handle_post post_secure_mode
  handle_post-IsSound = go q.payload
    where
      go : (o : Option Payload) → IsSound r (handle_post oc calls (record q { payload = o }) r)
      go none = refused-IsSound r eh_error refl
      go (some not_representation) = refused-IsSound r eh_error refl
      go (some (representation none)) = refused-IsSound r eh_error refl
      go (some (representation (some value))) = answered-IsSound r value (
          get_secure_mode oc calls (record q { payload = some (representation (some value)) })
            (record r { secure_mode = value }))

  handle_method-IsSound : IsSound r (handle_method oc calls q r)
  unfolding handle_method
  handle_method-IsSound = go q.method
    where
      go :
          (m : Method)
          → IsSound r (elim m [
            | get ↦ handle_get oc calls q r
            | post ↦ handle_post oc calls q r
            | other ↦ refused r eh_method_not_allowed
          ])
      go get = handle_get-IsSound
      go post = handle_post-IsSound
      go other = refused-IsSound r eh_method_not_allowed refl

-- Whatever the request and whichever calls of the stack fail, as long as the check of the request
-- ends the handler ends; it has sent one response where its result is OC_EH_OK and none otherwise, it
-- has notified the observers once where the mode has changed and not otherwise, and without OC_EH_OK
-- the resource is as it was.
entity_handler_cb-IsSound :
    (oc : Constants) (calls : Calls) (q : Request) (r : SecureModeResource) (valid : Bool)
    → is_valid_request oc q.resource q.query ≡ some valid
    → (h : Handled) × (entity_handler_cb oc calls q r ≡ some h) × IsSound r h
unfolding entity_handler_cb
entity_handler_cb-IsSound oc calls q r true e =
    (handle_method oc calls q r, rw e, handle_method-IsSound oc calls q r)
entity_handler_cb-IsSound oc calls q r false e =
    (refused r eh_bad_req, rw e, refused-IsSound r eh_bad_req refl)

entity_handler_cb-post :
    (oc : Constants) (calls : Calls) (served : Served) (query : Option Bytes)
    (r : SecureModeResource) (value : Bool)
    → is_valid_request oc served query ≡ some true
    → (h : Handled) × (entity_handler_cb oc calls (post_request served query value) r ≡ some h)
      × (h.state ≡ record { secure_mode = value })
unfolding entity_handler_cb handle_method handle_post post_secure_mode
entity_handler_cb-post oc calls served query r value e =
    (handle_post oc calls (post_request served query value) r, rw e, refl)

get_secure_mode-some :
    (oc : Constants) (calls : Calls) (served : Served) (query : Option Bytes)
    (r : SecureModeResource) (rep : Rep)
    → create_payload oc calls served query ≡ some rep
    → calls.set (codes "secureMode") ≡ true
    → get_secure_mode oc calls (get_request served query) r
      ≡ some (insert (codes "secureMode") (bool r.secure_mode) rep)
unfolding get_secure_mode
get_secure_mode-some oc calls served query r rep ec es = rw (ec, es)

entity_handler_cb-get :
    (oc : Constants) (calls : Calls) (served : Served) (query : Option Bytes)
    (r : SecureModeResource) (rep : Rep)
    → is_valid_request oc served query ≡ some true
    → create_payload oc calls served query ≡ some rep
    → calls.set (codes "secureMode") ≡ true
    → entity_handler_cb oc calls (get_request served query) r
      ≡ some (record {
        state = r;
        result = eh_ok;
        effects = responded (some (insert (codes "secureMode") (bool r.secure_mode) rep)) ∷ [];
      })
unfolding entity_handler_cb handle_method handle_get
entity_handler_cb-get oc calls served query r rep e ec es =
    ap
      (λ (v : Option Bool). v >>= λ valid.
        some (
          if valid then handle_get oc calls (get_request served query) r else refused r eh_bad_req))
      e
    ∙ ap
        (λ (o : Option Rep). some (elim o [
          | none ↦ refused r eh_error
          | some payload ↦ record {
            state = r;
            result = eh_ok;
            effects = responded (some payload) ∷ [];
          }
        ]))
        (get_secure_mode-some oc calls served query r rep ec es)

-- A valid POST of a mode, and a valid GET after it for which the stack gives a payload and takes the
-- property: the GET leaves the state with that mode, and its one response has the mode.
pub get-post :
    (oc : Constants) (calls : Calls) (served : Served) (query query' : Option Bytes)
    (r : SecureModeResource) (value : Bool) (rep : Rep)
    → is_valid_request oc served query ≡ some true
    → is_valid_request oc served query' ≡ some true
    → create_payload oc calls served query' ≡ some rep
    → calls.set (codes "secureMode") ≡ true
    → (entity_handler_cb oc calls (post_request served query value) r >>= λ h.
        entity_handler_cb oc calls (get_request served query') h.state)
      ≡ some (record {
        state = record { secure_mode = value };
        result = eh_ok;
        effects = responded (some (insert (codes "secureMode") (bool value) rep)) ∷ [];
      })
get-post oc calls served query query' r value rep pv gv gc gs =
    let (h, e, s) = entity_handler_cb-post oc calls served query r value pv in
    ap
      (λ (o : Option Handled).
        o >>= λ h'. entity_handler_cb oc calls (get_request served query') h'.state)
      e
    ∙ ap (entity_handler_cb oc calls (get_request served query')) s
    ∙ entity_handler_cb-get oc calls served query' (record { secure_mode = value }) rep gv gc gs
