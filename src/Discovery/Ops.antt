-- ===== src/Discovery/Ops.antt =====
-- The heap, the map `discovered_` and the requests, as src/bridge.cpp uses them.
use hanfun_io_tivity.Prelude.{
  ℕ, suc, Bool, true, false, List, [], ◌∷◌, ◌++◌, Option, some, none, if◌then◌else◌,
}
use hanfun_io_tivity.Prelude.Bytes.{Bytes}
use hanfun_io_tivity.Prelude.Assoc.{lookup, insert, erase}
use hanfun_io_tivity.Stack.{DevAddr}
use hanfun_io_tivity.Discovery.{
  World, done, dangling, Context, Callback, M, ClientResponse, RepPayload, representation, other,
  Task, Presence,
}

-- `*context`.
unfoldable pub read_context : ℕ → M Context
read_context a b = elim (lookup a b.contexts) [ none ↦ dangling | some c ↦ done (c, b) ]

unfoldable pub write_context : ℕ → Context → M (Unit {0})
write_context a c b = elim (lookup a b.contexts) [
  | none ↦ dangling
  | some old ↦ done (tt, record b { contexts = insert a c b.contexts })
]

-- `new DiscoverContext(...)`.
unfoldable pub new_context : Context → M ℕ
new_context c b = done (
  b.next_context,
  record b { contexts = insert b.next_context c b.contexts; next_context = suc b.next_context },
)

-- `delete context`, of a pointer that may be NULL.
unfoldable pub delete_context : Option ℕ → M (Unit {0})
delete_context none b = done (tt, b)
delete_context (some a) b = elim (lookup a b.contexts) [
  | none ↦ dangling
  | some c ↦ done (tt, record b { contexts = erase a b.contexts })
]

-- `discovered_.erase(handle)`.
unfoldable pub erase_discovered : ℕ → M (Unit {0})
erase_discovered h b = done (tt, record b { discovered = erase h b.discovered })

-- `discovered_.find(handle)`; NULL where there is none.
unfoldable pub find_discovered : ℕ → M (Option ℕ)
find_discovered h b = done (lookup h b.discovered, b)

-- `ContinueDiscovery`: whether the stack took the request; then the map owns the context.
unfoldable pub continue_discovery : World → ℕ → Bytes → List DevAddr → Callback → M Bool
continue_discovery w a uri addrs cb b =
    let h = b.next_handle in
    if w.accepts h
    then done (
      true,
      record b {
        next_handle = suc h;
        discovered = insert h a b.discovered;
        requests = record { handle = h; callback = cb; uri = uri; addrs = addrs } ∷ b.requests;
      },
    )
    else done (false, record b { next_handle = suc h })

unfoldable pub push_task : Task → M (Unit {0})
push_task t b = done (tt, record b { tasks = b.tasks ++ t ∷ [] })

unfoldable pub push_presence : Presence → M (Unit {0})
push_presence p b = done (tt, record b { presence = b.presence ++ p ∷ [] })

-- `DestroyPiid`.
unfoldable pub destroy_piid : Bytes → M (Unit {0})
destroy_piid piid b = done (tt, record b { killed = b.killed ++ piid ∷ [] })

unfoldable pub get_secure_mode : M Bool
get_secure_mode b = done (b.secure_mode, b)

-- The payload that `GetContextAndRepPayload` returns; `none` is NULL.
unfoldable pub rep_payload : Option ClientResponse → Option RepPayload
rep_payload none = none
rep_payload (some r) =
    if r.ok
    then elim r.payload [
      | none ↦ none
      | some p ↦ elim p [ representation rep ↦ some rep | other ↦ none ]
    ]
    else none
