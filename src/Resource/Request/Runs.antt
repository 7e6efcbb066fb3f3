-- ===== src/Resource/Request/Runs.antt =====
-- Every course that a request of `Bridge::DoResource`, src/bridge.cpp, may take: any responses to
-- `DoResourceCB` of src/resource.cpp while there is a transaction, also several, any results of
-- OCDoRequest, and any answers of the callback.
use hanfun_io_tivity.Prelude.{
  ℕ, suc, ◌+◌, Bool, true, false, not, ◌&&◌, ◌||◌, List, [], ◌∷◌, ◌++◌, Option, none, some, ◌==◌,
  if◌then◌else◌, ◌>>=◌, map, append-nil, append_assoc, arith, ◌≡◌, refl, sym, ap, ◌∙◌,
}
use hanfun_io_tivity.Prelude.Bytes.{Bytes}
use hanfun_io_tivity.Stack.{
  DevAddr, Results, ApplicationResult, delete_transaction, keep_transaction,
}
use hanfun_io_tivity.Resource.Request.{
  Event, sent, called, cleaned, deleted, cancelled, DoContext, State, delete_context, send_request,
  do_resource, bridge_do_resource, is_delete, has_more, is_retry, next_destination, call_back,
  do_resource_cb,
}

unfoldable pub addressed : List Event → List (Option DevAddr)
addressed [] = []
addressed (e ∷ es) = elim e [ sent uri destination ↦ destination ∷ addressed es | _ ↦ addressed es ]

unfoldable pub deletions : List Event → ℕ
deletions [] = 0
deletions (e ∷ es) = elim e [ deleted ↦ suc (deletions es) | _ ↦ deletions es ]

addressed-append : (es es' : List Event) → addressed (es ++ es') ≡ addressed es ++ addressed es'
unfolding addressed
addressed-append [] es' = refl
addressed-append (sent uri destination ∷ es) es' =
    ap (λ l. destination ∷ l) (addressed-append es es')
addressed-append (called r ∷ es) es' = addressed-append es es'
addressed-append (cleaned ∷ es) es' = addressed-append es es'
addressed-append (deleted ∷ es) es' = addressed-append es es'
addressed-append (cancelled ∷ es) es' = addressed-append es es'

deletions-append : (es es' : List Event) → deletions (es ++ es') ≡ deletions es + deletions es'
unfolding deletions
deletions-append [] es' = omega arith
deletions-append (e ∷ es) es' = ground (arith, deletions-append es es')

-- A response to a transaction, with the result of OCDoRequest if it is called, and what the caller's
-- callback answers if it is.
pub record Delivery : Type 0 where
  pub response : Option ℕ
  pub request_result : ℕ
  pub answer : ApplicationResult

module _ (rc : Results) where
  -- Whether the response opened a transaction: it was a retry that the stack took.
  unfoldable pub opened : Delivery → Option DoContext → Bool
  opened d none = false
  opened d (some c) = is_retry rc d.response c.destinations && (d.request_result == rc.ok)

  -- The stack calls `DoResourceCB` for a response while there is a transaction with the context. It ends
  -- where the answer is OC_STACK_DELETE_TRANSACTION; a retry that the stack took has its own.
  unfoldable pub deliver : Delivery → State × Bool → Option (State × Bool)
  deliver d (s, false) = some (s, false)
  deliver d (s, true) = do_resource_cb rc d.response d.request_result d.answer s >>= λ r.
      some (r.0, not (is_delete r.1) || opened d s.context)

  unfoldable pub deliver_all : List Delivery → State × Bool → Option (State × Bool)
  deliver_all [] p = some p
  deliver_all (d ∷ ds) p = deliver d p >>= deliver_all ds

abbrev pub lives : Option DoContext → Bool
lives none = false
lives (some c) = true

-- What holds with the context that is left.
unfoldable InOrderWith : List DevAddr → Option DoContext → List Event → Type 0
InOrderWith ds none es =
    ((rest : List DevAddr) × (addressed es ++ map (λ d. some d) rest ≡ map (λ d. some d) ds))
    × (deletions es ≡ 1)
InOrderWith ds (some c) es =
    (addressed es ++ map (λ d. some d) c.destinations ≡ map (λ d. some d) ds)
    × (deletions es ≡ 0)
    × (c.has_cd ≡ false)

-- The requests went to the first of the addresses, in their order, each to one address; the context
-- still has the others, and is not deleted, or it is deleted once.
unfoldable pub InOrder : List DevAddr → State → Type 0
unfolding InOrderWith
InOrder ds s = InOrderWith ds s.context s.events

has_cd-InOrderWith :
    (ds : List DevAddr) (c : DoContext) (es : List Event)
    → InOrderWith ds (some c) es
    → c.has_cd ≡ false
unfolding InOrderWith
has_cd-InOrderWith ds c es (order, alive, no_cd) = no_cd

addressed-silent :
    (e : Event) (es : List Event)
    → addressed (e ∷ []) ≡ []
    → addressed (es ++ (e ∷ [])) ≡ addressed es
addressed-silent e es h =
    addressed-append es (e ∷ []) ∙ ap (λ l. addressed es ++ l) h ∙ append-nil (addressed es)

call_back-InOrder :
    (ds : List DevAddr) (c c' : DoContext) (response : Option ℕ) (answer : ApplicationResult)
    (es : List Event)
    → c.has_cd ≡ false
    → InOrderWith ds (some c') es
    → InOrder ds (call_back c response answer (record { context = some c'; events = es }))
unfolding InOrder call_back delete_context InOrderWith addressed deletions
call_back-InOrder ds c c' response answer es off (order, alive, no_cd) = go answer c.has_cd off
  where
    es' : List Event
    es' = es ++ (called response ∷ [])

    order' : addressed es' ++ map (λ d. some d) c'.destinations ≡ map (λ d. some d) ds
    order' =
        ap (λ l. l ++ map (λ d. some d) c'.destinations)
          (addressed-silent (called response) es refl)
        ∙ order

    go :
        (a : ApplicationResult) (b : Bool)
        → b ≡ false
        → InOrder ds (
            if is_delete a && not b
            then delete_context (record { context = some c'; events = es' })
            else record { context = some c'; events = es' })
    go a true e = cc
    go keep_transaction false e =
        (order', omega (arith, deletions-append es (called response ∷ [])), no_cd)
    go delete_transaction false e = (
      (
        c'.destinations,
        ap (λ l. l ++ map (λ d. some d) c'.destinations) (addressed-silent deleted es' refl)
            ∙ order',
      ),
      omega
          (arith, deletions-append es' (deleted ∷ []), deletions-append es (called response ∷ [])),
    )

send_request-InOrderWith :
    (ds : List DevAddr) (c : DoContext) (s : State)
    → has_more c.destinations ≡ true
    → InOrderWith ds (some c) s.events
    → InOrderWith ds
        (some (record c { destinations = (next_destination c.destinations).1 }))
        (s.events ++ (sent c.uri (next_destination c.destinations).0 ∷ []))
unfolding InOrderWith addressed deletions
send_request-InOrderWith ds c s h (order, alive, no_cd) = go c.destinations h order
  where
    go :
        (rest : List DevAddr)
        → has_more rest ≡ true
        → addressed s.events ++ map (λ d. some d) rest ≡ map (λ d. some d) ds
        → InOrderWith ds
            (some (record c { destinations = (next_destination rest).1 }))
            (s.events ++ (sent c.uri (next_destination rest).0 ∷ []))
    go [] h order = cc
    go (d ∷ rest) h order = (
      ap (λ l. l ++ map (λ a. some a) rest) (addressed-append s.events (sent c.uri (some d) ∷ []))
          ∙ append_assoc (addressed s.events) (some d ∷ []) (map (λ a. some a) rest)
          ∙ order,
      omega (arith, deletions-append s.events (sent c.uri (some d) ∷ [])),
      no_cd,
    )

send_request-InOrder :
    (ds : List DevAddr) (c : DoContext) (s : State)
    → has_more c.destinations ≡ true
    → InOrderWith ds (some c) s.events
    → InOrder ds (send_request c s)
unfolding InOrder send_request
send_request-InOrder = send_request-InOrderWith

is_retry-has_more :
    (rc : Results) (response : Option ℕ) (ds : List DevAddr)
    → is_retry rc response ds ≡ true
    → has_more ds ≡ true
unfolding is_retry
is_retry-has_more rc response ds h = ground arith

started :
    (uri : Bytes) (d : DevAddr) (ds : List DevAddr)
    → InOrder (d ∷ ds) (bridge_do_resource uri (d ∷ ds))
unfolding InOrder InOrderWith bridge_do_resource do_resource send_request addressed deletions
started uri d ds = (refl, refl, refl)

-- The callback's answer tells whether the context is left.
call_back-lives :
    (c c' : DoContext) (response : Option ℕ) (answer : ApplicationResult) (es : List Event)
    → c.has_cd ≡ false
    → lives (call_back c response answer (record { context = some c'; events = es })).context
      ≡ (not (is_delete answer) || false)
unfolding call_back delete_context
call_back-lives c c' response keep_transaction es h = refl
call_back-lives c c' response delete_transaction es h = rw h refl

module _ (rc : Results) (ds : List DevAddr) where
  -- A result with what holds for it.
  abbrev Goes : Option (State × Bool) → Type 0
  Goes o =
      (s' : State) × (live : Bool) × (o ≡ some (s', live))
      × InOrder ds s'
      × (lives s'.context ≡ live)

  deliver-Goes :
      (d : Delivery) (c : DoContext) (es : List Event)
      → InOrderWith ds (some c) es
      → Goes (deliver rc d (record { context = some c; events = es }, true))
  unfolding deliver opened do_resource_cb send_request
  deliver-Goes d c es i =
      go (is_retry rc d.response c.destinations) (d.request_result == rc.ok) refl
    where
      s : State
      s = record { context = some c; events = es }

      sent_on : State
      sent_on = send_request c s

      off : c.has_cd ≡ false
      off = has_cd-InOrderWith ds c es i

      choice : Bool → Bool → Option (State × Bool)
      choice retry took =
          let called_back : Option (State × ApplicationResult) =
            some (call_back c d.response d.answer sent_on, d.answer) in
          let called_once : Option (State × ApplicationResult) =
            some (call_back c d.response d.answer s, d.answer) in
          let again : Option (State × ApplicationResult) = some (sent_on, delete_transaction) in
          (if retry then (if took then again else called_back) else called_once) >>= λ r.
          some (r.0, not (is_delete r.1) || (retry && took))

      go :
          (retry took : Bool)
          → is_retry rc d.response c.destinations ≡ retry
          → Goes (choice retry took)
      go false took h = (
        call_back c d.response d.answer s,
        not (is_delete d.answer) || false,
        refl,
        call_back-InOrder ds c c d.response d.answer es off i,
        call_back-lives c c d.response d.answer es off,
      )
      go true true h = (
        sent_on,
        true,
        refl,
        send_request-InOrder ds c s (is_retry-has_more rc d.response c.destinations h) i,
        refl,
      )
      go true false h =
          let more = is_retry-has_more rc d.response c.destinations h in
          let c' : DoContext = record c { destinations = (next_destination c.destinations).1 } in
          let es' : List Event = es ++ (sent c.uri (next_destination c.destinations).0 ∷ []) in
          (
            call_back c d.response d.answer sent_on,
            not (is_delete d.answer) || false,
            refl,
            call_back-InOrder ds c c' d.response d.answer es' off
                (send_request-InOrderWith ds c s more i),
            call_back-lives c c' d.response d.answer es' off,
          )

  deliver_all-Goes :
      (deliveries : List Delivery) (o : Option DoContext) (es : List Event)
      → InOrderWith ds o es
      → Goes (deliver_all rc deliveries (record { context = o; events = es }, lives o))
  unfolding deliver_all InOrder deliver
  deliver_all-Goes [] o es i = (record { context = o; events = es }, lives o, refl, i, refl)
  deliver_all-Goes (d ∷ deliveries) none es i = deliver_all-Goes deliveries none es i
  deliver_all-Goes (d ∷ deliveries) (some c) es i =
      let (s, live, ran, order, alive) = deliver-Goes d c es i in
      let (s', live', ran', order', alive') =
        deliver_all-Goes deliveries s.context s.events order in
      (
        s',
        live',
        ap (λ (r : Option (State × Bool)). r >>= deliver_all rc deliveries) ran
            ∙ ap (λ b. deliver_all rc deliveries (s, b)) (sym alive)
            ∙ ran',
        order',
        alive',
      )

-- A request of the bridge with addresses that the stack took, whatever responses come to its
-- transactions, whatever OCDoRequest returns and whatever the callback answers: no response finds the
-- context deleted; the requests went to the addresses in their order, one to each, from the first on;
-- and the context is there, with the other addresses, exactly while there is a transaction, and else it
-- was deleted once.
pub deliver_all-InOrder :
    (rc : Results) (uri : Bytes) (d : DevAddr) (ds : List DevAddr) (deliveries : List Delivery)
    → (s' : State) × (live : Bool) × (deliver_all rc deliveries
          (bridge_do_resource uri (d ∷ ds), true)
        ≡ some (s', live))
      × InOrder (d ∷ ds) s'
      × (lives s'.context ≡ live)
unfolding InOrder bridge_do_resource do_resource send_request
deliver_all-InOrder rc uri d ds deliveries =
    let s : State = bridge_do_resource uri (d ∷ ds) in
    deliver_all-Goes rc (d ∷ ds) deliveries s.context s.events (started uri d ds)
