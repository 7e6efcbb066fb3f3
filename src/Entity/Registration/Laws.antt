-- ===== src/Entity/Registration/Laws.antt =====
-- The handler of src/registration_resource.cpp: what it answers, keeps and tells, and what it has the
-- HAN client of src/han_client.cpp send.
use hanfun_io_tivity.Prelude.{
  ℕ, ◌≤◌, Bool, true, false, [], ◌∷◌, ◌++◌, Option, some, none, if◌then◌else◌, ◌>>=◌, ◌≡◌, refl,
  sym, arith, subst,
}
use hanfun_io_tivity.Prelude.Bytes.{Bytes}
use hanfun_io_tivity.Stack.{Constants}
use hanfun_io_tivity.HanClient.Message.{unpack}
use hanfun_io_tivity.HanClient.Client.Registration.{
  registration_message, set_registration, set_registration-unpack,
}
use hanfun_io_tivity.Resource.Query.{Served, is_valid_request}
use hanfun_io_tivity.Entity.{
  Rep, Calls, Method, get, post, other, Payload, not_representation, representation, Request,
  post_request, EntityHandlerResult, eh_ok, eh_error, eh_bad_req, eh_method_not_allowed, responded,
  notified, responses, notifications, is_ok, differs,
}
use hanfun_io_tivity.Entity.Registration.{
  RegistrationResource, Handled, hf_set_registration, post_registration, get_registration, refused,
  handle_get, handle_open, handle_post, handle_method, entity_handler_cb,
}

-- What an accepted POST leaves: the datagram is sent first.
abbrev pub opened : Bytes → Bool → Option Rep → RegistrationResource → Handled
opened d value payload r = record {
  state = record {
    is_open = value;
    han_client = record r.han_client { sent = d ∷ r.han_client.sent };
  };
  result = eh_ok;
  effects = responded payload ∷ (if differs r.is_open value then notified ∷ [] else []);
}

-- One response where the result is OC_EH_OK and none otherwise, one notification where the resource
-- was opened or closed and none otherwise; without OC_EH_OK it and the client are as they were.
unfoldable pub IsSound : RegistrationResource → Handled → Type 0
IsSound r h =
    (responses h.effects ≡ (if is_ok h.result then 1 else 0))
    × (notifications h.effects ≡ (if differs r.is_open h.state.is_open then 1 else 0))
    × (is_ok h.result ≡ false → h.state ≡ r)

refused-IsSound :
    (r : RegistrationResource) (e : EntityHandlerResult) → is_ok e ≡ false → IsSound r (refused r e)
unfolding IsSound responses notifications
refused-IsSound r e h = (ground arith, ground arith, λ k. refl)

opened-IsSound :
    (r : RegistrationResource) (d : Bytes) (value : Bool) (payload : Option Rep)
    → IsSound r (opened d value payload r)
unfolding IsSound responses notifications
opened-IsSound r d value payload = (ground arith, ground arith, λ k. cc)

-- Of an outcome: it is there and sound.
abbrev pub Ends : RegistrationResource → Option Handled → Type 0
Ends r o = (h : Handled) × (o ≡ some h) × IsSound r h

module _ (oc : Constants) (calls : Calls) (q : Request) (r : RegistrationResource) where
  handle_open_lem :
      (value : Bool) (d : Bytes)
      → set_registration value r.han_client
        ≡ some (record r.han_client { sent = d ∷ r.han_client.sent })
      → (payload : Option Rep) × (handle_open oc calls value q r ≡ some (opened d value payload r))
  unfolding handle_open post_registration hf_set_registration
  handle_open_lem value d e = (
    get_registration oc calls q (record {
      is_open = value;
      han_client = record r.han_client { sent = d ∷ r.han_client.sent };
    }),
    rw e,
  )

  handle_open-Ends : (value : Bool) → Ends r (handle_open oc calls value q r)
  handle_open-Ends value =
      let (d, e, u) = set_registration-unpack value r.han_client [] 64 (omega arith) in
      let (payload, e') = handle_open_lem value d e in
      (opened d value payload r, e', opened-IsSound r d value payload)

  handle_get-IsSound : IsSound r (handle_get oc calls q r)
  unfolding handle_get IsSound responses notifications
  handle_get-IsSound = go (get_registration oc calls q r)
    where
      go :
          (o : Option Rep)
          → IsSound r (elim o [
            | none ↦ refused r eh_error
            | some payload ↦ record {
              state = r;
              result = eh_ok;
              effects = responded (some payload) ∷ [];
            }
          ])
      go none = refused-IsSound r eh_error refl
      go (some payload) = (refl, ground arith, λ k. cc)

handle_post-Ends :
    (oc : Constants) (calls : Calls) (q : Request) (r : RegistrationResource)
    → Ends r (handle_post oc calls q r)
unfolding handle_post
handle_post-Ends oc calls q r = go q.payload
  where
    go : (o : Option Payload) → Ends r (handle_post oc calls (record q { payload = o }) r)
    go none = (_, refl, refused-IsSound r eh_error refl)
    go (some not_representation) = (_, refl, refused-IsSound r eh_error refl)
    go (some (representation none)) = (_, refl, refused-IsSound r eh_error refl)
    go (some (representation (some value))) =
        handle_open-Ends oc calls (record q { payload = some (representation (some value)) }) r
          value

handle_method-Ends :
    (oc : Constants) (calls : Calls) (q : Request) (r : RegistrationResource)
    → Ends r (handle_method oc calls q r)
unfolding handle_method
handle_method-Ends oc calls q r = go q.method
  where
    go :
        (m : Method)
        → Ends r (elim m [
          | get ↦ some (handle_get oc calls q r)
          | post ↦ handle_post oc calls q r
          | other ↦ some (refused r eh_method_not_allowed)
        ])
    go get = (_, refl, handle_get-IsSound oc calls q r)
    go post = handle_post-Ends oc calls q r
    go other = (_, refl, refused-IsSound r eh_method_not_allowed refl)

-- Whatever the request and whichever calls of the stack fail, as long as the check of the request
-- ends the handler ends; it has sent one response where its result is OC_EH_OK and none otherwise, it
-- has notified the observers once where the registration was opened or closed by it and not
-- otherwise, and without OC_EH_OK the resource and the HAN client are as they were.
pub entity_handler_cb-Ends :
    (oc : Constants) (calls : Calls) (q : Request) (r : RegistrationResource) (valid : Bool)
    → is_valid_request oc q.resource q.query ≡ some valid
    → Ends r (entity_handler_cb oc calls q r)
unfolding entity_handler_cb
entity_handler_cb-Ends oc calls q r valid e =
    subst
      (λ (o : Option Bool).
        Ends r (o >>= λ v. if v then handle_method oc calls q r else some (refused r eh_bad_req)))
      (sym e) (go valid)
  where
    go : (v : Bool) → Ends r (if v then handle_method oc calls q r else some (refused r eh_bad_req))
    go true = handle_method-Ends oc calls q r
    go false = (_, refl, refused-IsSound r eh_bad_req refl)

-- A valid POST of a value opens or closes the registration, and sends one datagram to the HAN server,
-- which reads it, with `Message::unpack`, as OPEN_REG for 60 seconds or as CLOSE_REG.
pub entity_handler_cb-unpack :
    (oc : Constants) (calls : Calls) (served : Served) (query : Option Bytes) (value : Bool)
    (r : RegistrationResource) (z : Bytes) (room : ℕ)
    → is_valid_request oc served query ≡ some true
    → 64 ≤ room
    → (d : Bytes) × (payload : Option Rep) × (entity_handler_cb oc calls
          (post_request served query value)
          r
        ≡ some (opened d value payload r))
      × (unpack (d ++ 0 ∷ z) room ≡ some (registration_message value))
unfolding entity_handler_cb handle_method handle_post
entity_handler_cb-unpack oc calls served query value r z room e h =
    let (d, e', u) = set_registration-unpack value r.han_client z room h in
    let (payload, k) = handle_open_lem oc calls (post_request served query value) r value d e' in
    (d, payload, rw (e, k), u)
