-- ===== src/Virtualization/Publish.antt =====
-- `RDPublish`, `RDPublishTask` and the loop over `tasks_` at the end of `Process`, src/bridge.cpp: the
-- publication is put off until no resource was created for a second. `none` is undefined behaviour:
-- the use of a task that was deleted.
pub mod Refinement
use hanfun_io_tivity.Prelude.{
  ℕ, suc, ◌+◌, Bool, true, false, List, [], ◌∷◌, ◌++◌, Option, some, none, if◌then◌else◌, ◌>>=◌,
  ◌==◌, leb,
}

-- `DiscoverTask`, whose run is in `Discovery`, and `RDPublishTask` at its address.
pub data Task : Type 0 where
  discover : (tick : ℕ) → Task
  rd_publish : (address tick : ℕ) → Task

-- `tasks_`, the pointer `rd_publish_task_` and the next address that is free.
pub record Queue : Type 0 where
  pub tasks : List Task
  pub rd_publish_task : Option ℕ
  pub next_task : ℕ

-- `rd_publish_task_->tick = tick`.
unfoldable pub set_tick : ℕ → ℕ → List Task → Option (List Task)
set_tick a tick [] = none
set_tick a tick (t ∷ ts) =
    let rest = set_tick a tick ts >>= λ ts'. some (t ∷ ts') in
    elim t [
      | discover n ↦ rest
      | rd_publish b n ↦ if b == a then some (rd_publish b tick ∷ ts) else rest
    ]

-- `RDPublish`.
unfoldable pub request_publication : ℕ → Queue → Option Queue
unfolding set_tick
request_publication now q = elim q.rd_publish_task [
  | some a ↦ set_tick a (now + 1) q.tasks >>= λ ts. some (record q { tasks = ts })
  | none ↦ some (record {
    tasks = q.tasks ++ (rd_publish q.next_task (now + 1) ∷ []);
    rd_publish_task = some q.next_task;
    next_task = suc q.next_task;
  })
]

-- What the loop over `tasks_` leaves: the tasks, the pointer and how often it published.
pub record Ran : Type 0 where
  pub tasks : List Task
  pub rd_publish_task : Option ℕ
  pub published : ℕ

-- The loop: a task that is due runs and is deleted.
unfoldable pub process_tasks : ℕ → List Task → Option ℕ → Ran
process_tasks now [] pointer = record { tasks = []; rd_publish_task = pointer; published = 0 }
process_tasks now (t ∷ ts) pointer =
    let rest = process_tasks now ts pointer in
    let ran = process_tasks now ts none in
    elim t [
      | discover n ↦ if leb n now then rest else record rest { tasks = discover n ∷ rest.tasks }
      | rd_publish a n ↦
          if leb n now
          then record ran { published = suc ran.published }
          else record rest { tasks = rd_publish a n ∷ rest.tasks }
    ]

unfoldable pub process : ℕ → Queue → Queue × ℕ
unfolding process_tasks
process now q =
    let ran = process_tasks now q.tasks q.rd_publish_task in
    (record q { tasks = ran.tasks; rd_publish_task = ran.rd_publish_task }, ran.published)
