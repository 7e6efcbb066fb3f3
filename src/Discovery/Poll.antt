-- ===== src/Discovery/Poll.antt =====
-- The request for discovery of src/bridge.cpp: the OC part of `Process`, `Stop`, and the responses to
-- the request, over `DoResource` and `Cancel` of src/resource.cpp. `none` is undefined behaviour: the
-- use of a context that was deleted.
use hanfun_io_tivity.Prelude.{
  ℕ, suc, ◌+◌, Bool, true, false, List, [], ◌∷◌, ◌++◌, Option, some, none, if◌then◌else◌, ◌>>=◌,
  leb, ◌≡◌, refl, ap, ◌∙◌, arith,
}
use hanfun_io_tivity.Prelude.Bytes.{Bytes}
use hanfun_io_tivity.Stack.{Results, keep_transaction}
use hanfun_io_tivity.Resource.Request.{
  Event, called, sent, DoContext, State, send_request, do_resource, is_retry, call_back,
  do_resource_cb, cancel,
}

-- `discover_handle_` with the context behind it, `discover_next_tick_`, how many requests were made,
-- and how many contexts were deleted and cancelled with the stack.
pub record Discoverer : Type 0 where
  pub discover_handle : Option State
  pub discover_next_tick : ℕ
  pub made : ℕ
  pub ended : ℕ

-- `Cancel(discover_handle_, ...)` where it is set, and `discover_handle_ = NULL`; the result of
-- OCCancel is only logged.
unfoldable cancel_discovery : Discoverer → Option Discoverer
unfolding cancel
cancel_discovery d = elim d.discover_handle [
  | none ↦ some d
  | some s ↦ cancel s >>= λ s'. some (record d { discover_handle = none; ended = suc d.ended })
]

-- The OC part of `Process`, at the time of the test and the time after it: the request goes to no
-- certain address, and its result is not read.
unfoldable process_oc : Bytes → ℕ → ℕ → Discoverer → Option Discoverer
unfolding cancel_discovery do_resource
process_oc well_known_uri now later d =
    if leb d.discover_next_tick now
    then (do
      d' ← cancel_discovery d
      some (record {
        discover_handle = some (do_resource well_known_uri [] false);
        discover_next_tick = later + 5;
        made = suc d'.made;
        ended = d'.ended;
      }))
    else some d

-- `Stop`.
unfoldable stop : Discoverer → Option Discoverer
unfolding cancel_discovery
stop d = cancel_discovery d

-- A response to the request: `DiscoverCB` answers that the transaction is to be kept. The stack calls
-- no callback after OCCancel.
unfoldable discover_answer : Results → Option ℕ → ℕ → Discoverer → Option Discoverer
unfolding do_resource_cb
discover_answer rc response request_result d = elim d.discover_handle [
  | none ↦ some d
  | some s ↦ do_resource_cb rc response request_result keep_transaction s >>= λ p.
      some (record d { discover_handle = some p.0 })
]

-- What happens to the bridge.
pub data Happening : Type 0 where
  processed : (now later : ℕ) → Happening
  answered : (response : Option ℕ) (request_result : ℕ) → Happening
  stopped : Happening

module _ (rc : Results) (well_known_uri : Bytes) where
  unfoldable happen : Happening → Discoverer → Option Discoverer
  unfolding process_oc discover_answer stop
  happen (processed now later) d = process_oc well_known_uri now later d
  happen (answered response request_result) d = discover_answer rc response request_result d
  happen stopped d = stop d

  unfoldable pub happen_all : List Happening → Discoverer → Option Discoverer
  unfolding happen
  happen_all [] d = some d
  happen_all (h ∷ hs) d = happen h d >>= happen_all hs

-- The context of the request, with no address left to try and without a deleter.
abbrev waiting : Bytes → DoContext
waiting uri = record { uri = uri; destinations = []; has_cd = false }

-- The handle is NULL and every request has ended, or it points to the one context that is left.
unfoldable pub IsSingle : Bytes → Discoverer → Type 0
IsSingle uri d =
    (handle : Option (List Event)) × (d.discover_handle ≡ elim handle [
      | none ↦ none
      | some es ↦ some (record { context = some (waiting uri); events = es })
    ])
    × (d.made ≡ d.ended + elim handle [ none ↦ 0 | some es ↦ 1 ])

abbrev Leads : Bytes → Option Discoverer → Type 0
Leads uri o = (d' : Discoverer) × (o ≡ some d') × IsSingle uri d'

cancel_discovery_lem :
    (uri : Bytes) (d : Discoverer)
    → IsSingle uri d
    → (d' : Discoverer) × (cancel_discovery d ≡ some d')
      × (d'.discover_handle ≡ none)
      × (d'.made ≡ d'.ended)
unfolding cancel_discovery IsSingle cancel
cancel_discovery_lem uri d (none, e, n) = (d, rw e, e, omega arith)
cancel_discovery_lem uri d (some es, e, n) =
    (record d { discover_handle = none; ended = suc d.ended }, rw e, refl, omega arith)

process_oc-IsSingle :
    (uri : Bytes) (now later : ℕ) (d : Discoverer)
    → IsSingle uri d
    → Leads uri (process_oc uri now later d)
unfolding process_oc IsSingle do_resource send_request
process_oc-IsSingle uri now later d i = go (leb d.discover_next_tick now) refl
  where
    go : (b : Bool) → leb d.discover_next_tick now ≡ b → Leads uri (process_oc uri now later d)
    go false h = (d, rw h, i)
    go true h =
        let (d', e, handle, n) = cancel_discovery_lem uri d i in
        (
          record {
            discover_handle = some (do_resource uri [] false);
            discover_next_tick = later + 5;
            made = suc d'.made;
            ended = d'.ended;
          },
          rw (h, e),
          (some (sent uri none ∷ []), refl, omega arith),
        )

stop-IsSingle : (uri : Bytes) (d : Discoverer) → IsSingle uri d → Leads uri (stop d)
unfolding stop IsSingle
stop-IsSingle uri d i =
    let (d', e, handle, n) = cancel_discovery_lem uri d i in (d', e, (none, handle, omega arith))

is_retry-last : (rc : Results) (response : Option ℕ) → is_retry rc response [] ≡ false
unfolding is_retry
is_retry-last rc none = refl
is_retry-last rc (some result) = refl

-- The one context has no other address to try, and stays.
do_resource_cb-waiting :
    (rc : Results) (uri : Bytes) (response : Option ℕ) (request_result : ℕ) (es : List Event)
    → do_resource_cb rc response request_result keep_transaction
        (record { context = some (waiting uri); events = es })
      ≡ some (
        record { context = some (waiting uri); events = es ++ (called response ∷ []) },
        keep_transaction,
      )
unfolding do_resource_cb call_back
do_resource_cb-waiting rc uri response request_result es = rw (is_retry-last rc response)

discover_answer-IsSingle :
    (rc : Results) (uri : Bytes) (response : Option ℕ) (request_result : ℕ) (d : Discoverer)
    → IsSingle uri d
    → Leads uri (discover_answer rc response request_result d)
unfolding discover_answer IsSingle
discover_answer-IsSingle rc uri response request_result d (none, e, n) = (d, rw e, (none, e, n))
discover_answer-IsSingle rc uri response request_result d (some es, e, n) = (
  record d {
    discover_handle =
        some (record { context = some (waiting uri); events = es ++ (called response ∷ []) });
  },
  rw (e, do_resource_cb-waiting rc uri response request_result es),
  (some (es ++ (called response ∷ [])), refl, n),
)

happen-IsSingle :
    (rc : Results) (uri : Bytes) (h : Happening) (d : Discoverer)
    → IsSingle uri d
    → Leads uri (happen rc uri h d)
unfolding happen
happen-IsSingle rc uri (processed now later) d i = process_oc-IsSingle uri now later d i
happen-IsSingle rc uri (answered response request_result) d i =
    discover_answer-IsSingle rc uri response request_result d i
happen-IsSingle rc uri stopped d i = stop-IsSingle uri d i

-- From a handle that is NULL or points to the one context that is left, any list of calls of
-- `Process`, responses and calls of `Stop` uses no deleted context, and leaves the handle so.
pub happen_all-IsSingle :
    (rc : Results) (uri : Bytes) (hs : List Happening) (d : Discoverer)
    → IsSingle uri d
    → Leads uri (happen_all rc uri hs d)
unfolding happen_all
happen_all-IsSingle rc uri [] d i = (d, refl, i)
happen_all-IsSingle rc uri (h ∷ hs) d i =
    let (d', e, i') = happen-IsSingle rc uri h d i in
    let (d'', e', i'') = happen_all-IsSingle rc uri hs d' i' in
    (d'', ap (λ (o : Option Discoverer). o >>= happen_all rc uri hs) e ∙ e', i'')
