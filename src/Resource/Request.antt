-- ===== src/Resource/Request.antt =====
-- The client requests of src/resource.cpp: `DoResource`, which retries at the other addresses of a
-- resource, and `Cancel`. The results of OCDoRequest and of the caller's callback are inputs. `none` is
-- undefined behaviour: the use of a context that was deleted.
pub mod Order
pub mod Runs
use hanfun_io_tivity.Prelude.{
  ℕ, Bool, true, false, not, ◌&&◌, List, [], ◌∷◌, ◌++◌, Option, none, some, ltb, ◌==◌,
  if◌then◌else◌, ◌>>=◌,
}
use hanfun_io_tivity.Prelude.Bytes.{Bytes}
use hanfun_io_tivity.Stack.{
  DevAddr, Results, ApplicationResult, delete_transaction, keep_transaction,
}

-- What the others see: a request, the callback with the result of the response, the caller's deleter,
-- the end of the context, and OCCancel.
pub data Event : Type 0 where
  sent : Bytes → Option DevAddr → Event
  called : Option ℕ → Event
  cleaned deleted cancelled : Event

-- `DoContext`: the URI, the destinations from `destination_` on, and whether the callback data has a
-- deleter.
pub record DoContext : Type 0 where
  pub uri : Bytes
  pub destinations : List DevAddr
  pub has_cd : Bool

-- The context, `none` once it is deleted, and what happened so far.
pub record State : Type 0 where
  pub context : Option DoContext
  pub events : List Event

abbrev pub emit : Event → State → State
emit e s = record s { events = s.events ++ (e ∷ []) }

-- `delete context`.
unfoldable pub delete_context : State → State
delete_context s = record s { context = none; events = s.events ++ (deleted ∷ []) }

-- The destination of a request, and the destinations behind it.
abbrev pub next_destination : List DevAddr → Option DevAddr × List DevAddr
next_destination [] = (none, [])
next_destination (d ∷ ds) = (some d, ds)

-- `DoResource(DoContext *)`, but for the result of OCDoRequest, which it returns.
unfoldable pub send_request : DoContext → State → State
send_request c s =
    let (destination, rest) = next_destination c.destinations in
    record {
      context = some (record c { destinations = rest });
      events = s.events ++ (sent c.uri destination ∷ []);
    }

-- `DoResource`: the callers get the result of OCDoRequest.
unfoldable pub do_resource : Bytes → List DevAddr → Bool → State
unfolding send_request
do_resource uri destinations has_cd =
    send_request (record { uri = uri; destinations = destinations; has_cd = has_cd })
      (record { context = none; events = [] })

-- `Bridge::DoResource`, for a list of addresses and for one.
unfoldable pub bridge_do_resource : Bytes → List DevAddr → State
unfolding do_resource
bridge_do_resource uri addrs = do_resource uri addrs false

unfoldable bridge_do_resource_at : Bytes → DevAddr → State
unfolding bridge_do_resource
bridge_do_resource_at uri addr = bridge_do_resource uri (addr ∷ [])

abbrev pub is_delete : ApplicationResult → Bool
is_delete delete_transaction = true
is_delete keep_transaction = false

abbrev pub has_more : List DevAddr → Bool
has_more [] = false
has_more (d ∷ ds) = true

-- The end of `DoResourceCB`: the caller's callback, with its answer as an argument.
unfoldable pub call_back : DoContext → Option ℕ → ApplicationResult → State → State
unfolding delete_context
call_back c response answer s =
    let s' = emit (called response) s in
    if is_delete answer && not c.has_cd then delete_context s' else s'

module _ (rc : Results) where
  -- The condition of a retry.
  unfoldable pub is_retry : Option ℕ → List DevAddr → Bool
  is_retry none ds = false
  is_retry (some result) ds =
      has_more ds && (ltb rc.resource_changed result && not (rc.invalid_query == result))

  -- `DoResourceCB`: the response, `none` for NULL, the result of OCDoRequest if it is called, and what
  -- the caller's callback answers if it is.
  unfoldable pub do_resource_cb :
      Option ℕ → ℕ → ApplicationResult → State → Option (State × ApplicationResult)
  unfolding is_retry send_request call_back
  do_resource_cb response request_result answer s = do
    c ← s.context
    let s' = send_request c s
    if is_retry response c.destinations
        then (if request_result == rc.ok
            then some (s', delete_transaction)
            else some (call_back c response answer s', answer))
        else some (call_back c response answer s, answer)

-- `DoContextDeleter`.
unfoldable do_context_deleter : State → Option State
unfolding delete_context
do_context_deleter s = do
  c ← s.context
  some (if c.has_cd then delete_context (emit cleaned s) else s)

-- `Cancel`: the context's end, without a deleter, and OCCancel.
unfoldable pub cancel : State → Option State
unfolding delete_context
cancel s = do c ← s.context; some (emit cancelled (if c.has_cd then s else delete_context s))
