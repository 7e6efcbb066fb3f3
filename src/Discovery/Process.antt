-- ===== src/Discovery/Process.antt =====
-- The end of `Process` in src/bridge.cpp: `Destroy(const char *)` for the absent of
-- src/presence.cpp, and the tasks that are due.
use hanfun_io_tivity.Prelude.{
  ℕ, ◌-◌, ◌*◌, Bool, true, false, List, [], ◌∷◌, ◌++◌, some, none, if◌then◌else◌, leb, ◌==◌,
}
use hanfun_io_tivity.Prelude.Bytes.{Bytes, bytes_eq}
use hanfun_io_tivity.Prelude.Assoc.{lookup, erase, values}
use hanfun_io_tivity.Stack.{Constants}
use hanfun_io_tivity.Resource.{is_virtual}
use hanfun_io_tivity.Discovery.{
  not_seen, seen_native, seen_virtual, Callback, World, Context, Presence, Task, discover,
  rd_publish, Outcome, done, dangling, undefined, M, pure, ◌>>=◌, ◌>>◌,
}
use hanfun_io_tivity.Discovery.Ops.{read_context, delete_context, continue_discovery, destroy_piid}
use hanfun_io_tivity.Discovery.Callbacks.{get_dev_addrs, kept}

-- `GetId`.
unfoldable pub get_id : Presence → Bytes
get_id (Presence.hf id tick) = id
get_id (Presence.oc di period tick) = di

-- `IsPresent`, with `RETRIES` 3.
unfoldable pub is_present : ℕ → Presence → Bool
is_present now (Presence.hf id tick) = true
is_present now (Presence.oc di period tick) = leb (now - tick) (period * 3)

unfoldable pub absent_ids : ℕ → List Presence → List Bytes
unfolding get_id
absent_ids now [] = []
absent_ids now (p ∷ ps) =
    let rest = absent_ids now ps in if is_present now p then rest else get_id p ∷ rest

-- The loop of `Destroy(id)` over the map, which also gives back the heap.
unfoldable pub destroy_contexts :
    Bytes → List (ℕ × ℕ) → List (ℕ × Context) → Outcome (List (ℕ × ℕ) × List (ℕ × Context))
destroy_contexts id [] heap = done ([], heap)
destroy_contexts id ((h, a) ∷ m) heap = elim (lookup a heap) [
  | none ↦ dangling
  | some c ↦
      let kept_rest = destroy_contexts id m heap in
      let rest = destroy_contexts id m (erase a heap) in
      if bytes_eq c.device.di id then rest else elim kept_rest [
        | done (m', heap') ↦ done ((h, a) ∷ m', heap')
        | dangling ↦ dangling
        | undefined ↦ undefined
      ]
]

-- The loop over `presence_`.
unfoldable pub without : Bytes → List Presence → List Presence
unfolding get_id
without id [] = []
without id (p ∷ ps) = let rest = without id ps in if bytes_eq (get_id p) id then rest else p ∷ rest

-- `Destroy(id)`.
unfoldable pub destroy : Bytes → M (Unit {0})
unfolding destroy_contexts without
destroy id b = elim (destroy_contexts id b.discovered b.contexts) [
  | done (m, heap) ↦
      done (tt, record b { discovered = m; contexts = heap; presence = without id b.presence })
  | dangling ↦ dangling
  | undefined ↦ undefined
]

unfoldable pub destroy_all : List Bytes → M (Unit {0})
unfolding destroy
destroy_all [] = pure tt
destroy_all (id ∷ ids) = destroy id >> destroy_all ids

-- The presence in `Process`.
unfoldable pub process_presence : ℕ → M (Unit {0})
unfolding absent_ids destroy_all
process_presence now b = destroy_all (absent_ids now b.presence) b

-- Whether a context is in the map.
unfoldable pub contains : ℕ → List ℕ → Bool
contains a [] = false
contains a (x ∷ xs) = if x == a then true else contains a xs

-- The field `tick` of a task.
unfoldable pub tick : Task → ℕ
tick (discover t piid a) = t
tick (rd_publish t) = t

module _ (oc : Constants) (w : World) where
  unfoldable destroy_native : Bytes → Bool → M (Unit {0})
  destroy_native piid virtual = elim (w.seen piid) [
    | not_seen ↦ pure tt
    | seen_native ↦ pure tt
    | seen_virtual ↦ if virtual then pure tt else destroy_piid piid
  ]

  unfoldable pub get_discovered_contexts : M (List ℕ)
  get_discovered_contexts b = done (values b.discovered, b)

  -- `DiscoverTask::Run`.
  unfoldable pub run_discover : Bytes → ℕ → M (Unit {0})
  unfolding contains destroy_native get_discovered_contexts
  run_discover piid a = do
    known ← get_discovered_contexts
    if contains a known
        then (do
          c ← read_context a
          destroy_native piid (is_virtual oc c.device)
          taken ←
              continue_discovery w a oc.platform_uri (get_dev_addrs oc.platform_uri c.device)
                Callback.get_platform
          delete_context (kept a taken))
        else delete_context (some a)

  -- `Task::Run`. The publication changes nothing of the state that is modelled.
  unfoldable pub run_task : Task → M (Unit {0})
  unfolding run_discover
  run_task (discover tick piid a) = run_discover piid a
  run_task (rd_publish tick) = pure tt

  unfoldable set_tasks : List Task → M (Unit {0})
  set_tasks ts b = done (tt, record b { tasks = ts })

  -- The loop over `tasks_`, with the tasks that it has passed.
  unfoldable pub process_tasks : List Task → List Task → M (Unit {0})
  unfolding run_task tick set_tasks
  process_tasks passed [] = pure tt
  process_tasks passed (t ∷ ts) =
      let later = process_tasks (passed ++ t ∷ []) ts in
      let rest = process_tasks passed ts in
      if leb (tick t) w.now then run_task t >> (set_tasks (passed ++ ts) >> rest) else later

  unfoldable pub process_all_tasks : M (Unit {0})
  unfolding process_tasks
  process_all_tasks b = process_tasks [] b.tasks b
