-- ===== src/Resource/Request/Order.antt =====
-- The order in which `DoResource` and `DoResourceCB` of src/resource.cpp try the destinations of a
-- request, as the bridge uses them: without a deleter.
use hanfun_io_tivity.Prelude.{
  ℕ, zero, suc, Bool, true, false, not, ◌&&◌, List, [], ◌∷◌, ◌++◌, Option, none, some,
  if◌then◌else◌, ◌>>=◌, length, append_assoc, ==_refl, ◌≡◌, refl, sym, ap, ◌∙◌, Bool-cases, inl,
  inr,
}
use hanfun_io_tivity.Prelude.Bytes.{Bytes}
use hanfun_io_tivity.Stack.{
  DevAddr, Results, ApplicationResult, delete_transaction, keep_transaction,
}
use hanfun_io_tivity.Resource.Request.{
  Event, sent, called, deleted, DoContext, State, delete_context, emit, send_request, do_resource,
  bridge_do_resource, is_delete, is_retry, call_back, do_resource_cb,
}

-- The request that waits for its response: that of the last event.
unfoldable pub pending : List Event → Option DevAddr
pending [] = none
pending (e ∷ es) = elim es [
  | [] ↦ elim e [ sent uri destination ↦ destination | _ ↦ none ]
  | e' ∷ es' ↦ pending es
]

pending-append : (es : List Event) (e : Event) → pending (es ++ (e ∷ [])) ≡ pending (e ∷ [])
unfolding pending
pending-append [] e = refl
pending-append (e' ∷ []) e = refl
pending-append (e' ∷ e'' ∷ es) e = pending-append (e'' ∷ es) e

module _ (rc : Results) (answer : DevAddr → ℕ) (reply : ApplicationResult) where
  -- The stack's part: every request succeeds, and each destination gives its answer.
  unfoldable pub respond : ℕ → State → Option State
  respond zero s = some s
  respond (suc fuel) s = elim (pending s.events) [
    | none ↦ some s
    | some d ↦ do_resource_cb rc (some (answer d)) rc.ok reply s >>= λ p. respond fuel p.0
  ]

  -- The callback gets the answer, and the context ends where the callback asks for it.
  abbrev pub ending : DevAddr → List Event
  ending d = called (some (answer d)) ∷ (if is_delete reply then deleted ∷ [] else [])

  -- What is to happen: the destinations are asked in their order, up to the first one whose answer is
  -- no reason to try another, or else the last one, and the callback gets that answer, and no other.
  unfoldable pub conversation : Bytes → DevAddr → List DevAddr → List Event
  conversation uri d [] = sent uri (some d) ∷ ending d
  conversation uri d (d' ∷ ds) =
      let rest = conversation uri d' ds in
      sent uri (some d) ∷ (if is_retry rc (some (answer d)) (d' ∷ ds) then rest else ending d)

  respond-pending :
      (fuel : ℕ) (s : State) (o : Option DevAddr)
      → pending s.events ≡ o
      → respond (suc fuel) s ≡ elim o [
        | none ↦ some s
        | some d ↦ do_resource_cb rc (some (answer d)) rc.ok reply s >>= λ p. respond fuel p.0
      ]
  unfolding respond
  respond-pending fuel s o h =
      ap
        (λ (k : Option DevAddr). elim k [
          | none ↦ some s
          | some d ↦ do_resource_cb rc (some (answer d)) rc.ok reply s >>= λ p. respond fuel p.0
        ])
        h

  -- The state in which a request waits.
  abbrev waiting : Bytes → DevAddr → List DevAddr → List Event → State
  waiting uri d ds es = record {
    context = some (record { uri = uri; destinations = ds; has_cd = false });
    events = es ++ (sent uri (some d) ∷ []);
  }

  respond-waiting :
      (fuel : ℕ) (uri : Bytes) (d : DevAddr) (ds : List DevAddr) (es : List Event)
      → respond (suc fuel) (waiting uri d ds es) ≡ (
          do_resource_cb rc (some (answer d)) rc.ok reply (waiting uri d ds es) >>= λ p.
          respond fuel p.0)
  unfolding pending
  respond-waiting fuel uri d ds es =
      respond-pending fuel (waiting uri d ds es) (some d) (pending-append es (sent uri (some d)))

  pending-call_back :
      (c : DoContext) (response : Option ℕ) (s : State)
      → pending (call_back c response reply s).events ≡ none
  unfolding call_back delete_context pending
  pending-call_back c response s = go (is_delete reply && not c.has_cd)
    where
      go :
          (b : Bool)
          → pending
              (if b
                then delete_context (emit (called response) s)
                else emit (called response) s).events
            ≡ none
      go true = pending-append (s.events ++ (called response ∷ [])) deleted
      go false = pending-append s.events (called response)

  -- No request waits after the callback.
  respond-called :
      (fuel : ℕ) (c : DoContext) (response : Option ℕ) (s : State)
      → (respond fuel (call_back c response reply s) >>= λ s'. some s'.events)
        ≡ some (call_back c response reply s).events
  unfolding respond
  respond-called zero c response s = refl
  respond-called (suc fuel) c response s =
      ap (λ (o : Option State). o >>= λ s'. some s'.events)
        (respond-pending fuel (call_back c response reply s) none (pending-call_back c response s))

  call_back-events :
      (c : DoContext) (response : Option ℕ) (s : State)
      → c.has_cd ≡ false
      → (call_back c response reply s).events
        ≡ s.events ++ (called response ∷ (if is_delete reply then deleted ∷ [] else []))
  unfolding call_back delete_context
  call_back-events c response s h = go c.has_cd h reply
    where
      go :
          (b : Bool)
          → b ≡ false
          → (a : ApplicationResult)
          → (if is_delete a && not b
              then delete_context (emit (called response) s)
              else emit (called response) s).events
            ≡ s.events ++ (called response ∷ (if is_delete a then deleted ∷ [] else []))
      go true e a = cc
      go false e delete_transaction = append_assoc s.events (called response ∷ []) (deleted ∷ [])
      go false e keep_transaction = refl

  do_resource_cb-final :
      (uri : Bytes) (d : DevAddr) (ds : List DevAddr) (es : List Event)
      → is_retry rc (some (answer d)) ds ≡ false
      → do_resource_cb rc (some (answer d)) rc.ok reply (waiting uri d ds es)
        ≡ some (
          call_back
              (record { uri = uri; destinations = ds; has_cd = false })
              (some (answer d))
              reply
              (waiting uri d ds es),
          reply,
        )
  unfolding do_resource_cb
  do_resource_cb-final uri d ds es h = rw h

  do_resource_cb-retry :
      (uri : Bytes) (d d' : DevAddr) (ds : List DevAddr) (es : List Event)
      → is_retry rc (some (answer d)) (d' ∷ ds) ≡ true
      → do_resource_cb rc (some (answer d)) rc.ok reply (waiting uri d (d' ∷ ds) es)
        ≡ some (waiting uri d' ds (es ++ (sent uri (some d) ∷ [])), delete_transaction)
  unfolding do_resource_cb send_request
  do_resource_cb-retry uri d d' ds es h = rw (h, ==_refl rc.ok)

  -- An answer that is no reason to try another destination ends the conversation.
  respond-final :
      (fuel : ℕ) (uri : Bytes) (d : DevAddr) (ds : List DevAddr) (es : List Event)
      → is_retry rc (some (answer d)) ds ≡ false
      → (respond (suc fuel) (waiting uri d ds es) >>= λ s. some s.events)
        ≡ some (es ++ (sent uri (some d) ∷ ending d))
  unfolding do_resource_cb
  respond-final fuel uri d ds es h =
      let c : DoContext = record { uri = uri; destinations = ds; has_cd = false } in
      ap (λ (o : Option State). o >>= λ s. some s.events)
        (respond-waiting fuel uri d ds es
          ∙ ap (λ (o : Option (State × ApplicationResult)). o >>= λ p. respond fuel p.0)
              (do_resource_cb-final uri d ds es h))
      ∙ respond-called fuel c (some (answer d)) (waiting uri d ds es)
      ∙ ap some (
          call_back-events c (some (answer d)) (waiting uri d ds es) refl
          ∙ append_assoc es (sent uri (some d) ∷ []) (ending d))

  -- Any other answer is followed by the next request.
  respond-retry :
      (fuel : ℕ) (uri : Bytes) (d d' : DevAddr) (ds : List DevAddr) (es : List Event)
      → is_retry rc (some (answer d)) (d' ∷ ds) ≡ true
      → respond (suc fuel) (waiting uri d (d' ∷ ds) es)
        ≡ respond fuel (waiting uri d' ds (es ++ (sent uri (some d) ∷ [])))
  unfolding do_resource_cb send_request
  respond-retry fuel uri d d' ds es h =
      respond-waiting fuel uri d (d' ∷ ds) es
      ∙ ap (λ (o : Option (State × ApplicationResult)). o >>= λ p. respond fuel p.0)
          (do_resource_cb-retry uri d d' ds es h)

  is_retry-last : (response : ℕ) → is_retry rc (some response) [] ≡ false
  unfolding is_retry
  is_retry-last response = refl

  respond-conversation :
      (uri : Bytes) (d : DevAddr) (ds : List DevAddr) (es : List Event)
      → (respond (suc (length ds)) (waiting uri d ds es) >>= λ s. some s.events)
        ≡ some (es ++ conversation uri d ds)
  unfolding conversation
  respond-conversation uri d [] es = respond-final 0 uri d [] es (is_retry-last (answer d))
  respond-conversation uri d (d' ∷ ds) es =
      let chosen = λ (b : Bool).
        some (es ++ (sent uri (some d) ∷ (if b then conversation uri d' ds else ending d))) in
      elim (Bool-cases (is_retry rc (some (answer d)) (d' ∷ ds))) [
        | inl h ↦
            ap (λ (o : Option State). o >>= λ s. some s.events)
              (respond-retry (suc (length ds)) uri d d' ds es h)
            ∙ respond-conversation uri d' ds (es ++ (sent uri (some d) ∷ []))
            ∙ ap some (append_assoc es (sent uri (some d) ∷ []) (conversation uri d' ds))
            ∙ ap chosen (sym h)
        | inr h ↦ respond-final (suc (length ds)) uri d (d' ∷ ds) es h ∙ ap chosen (sym h)
      ]

  -- A request of the bridge with addresses, all of which the stack takes: the answers are read by a
  -- loop of as many turns as there are addresses, the addresses are asked in their order, each one
  -- where the answer of the one before is a reason to try another, and the callback is called once,
  -- with the last answer.
  pub bridge_do_resource-conversation :
      (uri : Bytes) (d : DevAddr) (ds : List DevAddr)
      → (respond (suc (length ds)) (bridge_do_resource uri (d ∷ ds)) >>= λ s. some s.events)
        ≡ some (conversation uri d ds)
  unfolding bridge_do_resource do_resource send_request
  bridge_do_resource-conversation uri d ds = respond-conversation uri d ds []
