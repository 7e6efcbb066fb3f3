-- ===== src/Discovery/Balance/Tasks.antt =====
-- The tasks of `Process` in src/bridge.cpp, and the owners of the contexts.
use hanfun_io_tivity.Prelude.{
  ℕ, ◌∙◌, sym, ap, ◌<◌, ◌≡◌, refl, false, List, [], ◌∷◌, ◌++◌, some, none, if◌then◌else◌,
  Bool-cases, inl, inr, leb, arith,
}
use mathlib.Core.List.{append_assoc}
use hanfun_io_tivity.Prelude.Bytes.{Bytes}
use hanfun_io_tivity.Prelude.Assoc.{count, values, lookup, erase, lookup-some, keys-erase}
use hanfun_io_tivity.Stack.{Constants}
use hanfun_io_tivity.Discovery.{Bridge, Context, World, done, Task, discover, rd_publish}
use hanfun_io_tivity.Discovery.Ops.{delete_context}
use hanfun_io_tivity.Discovery.Process.{
  contains, run_discover, run_task, tick, process_tasks, process_all_tasks, get_discovered_contexts,
}
use hanfun_io_tivity.Discovery.Balance.{Balanced, task_contexts, >>=-done}
use hanfun_io_tivity.Discovery.Balance.Ops.{task_contexts-append}

contains-none : (a : ℕ) (xs : List ℕ) → count a xs ≡ 0 → contains a xs ≡ false
unfolding contains count
contains-none a [] e = refl
contains-none a (x ∷ xs) e = ground (arith, contains-none a xs)

-- The tasks that are not due.
unfoldable pub pending : ℕ → List Task → List Task
unfolding tick
pending now [] = []
pending now (t ∷ ts) = let rest = pending now ts in if leb (tick t) now then rest else t ∷ rest

-- What has not changed, and who owns what, after the tasks from `passed` on.
pub record Ran (tasks : List Task) (b b' : Bridge) : Type 0 where
  pub balanced : Balanced none none b'
  pub same_requests : b'.requests ≡ b.requests
  pub same_discovered : b'.discovered ≡ b.discovered
  pub same_killed : b'.killed ≡ b.killed
  pub left_tasks : b'.tasks ≡ tasks

delete_context-some :
    (a : ℕ) (c : Context) (b : Bridge)
    → lookup a b.contexts ≡ some c
    → delete_context (some a) b ≡ done (tt, record b { contexts = erase a b.contexts })
unfolding delete_context
delete_context-some a c b e = rw (e, delete_context) refl

module _ (oc : Constants) (w : World) where
  -- A task's context is not in the map, so the task only deletes it.
  run_discover_lem :
      (piid : Bytes) (a : ℕ) (b : Bridge)
      → Balanced none none b
      → 0 < count a (task_contexts b.tasks)
      → run_discover oc w piid a b ≡ done (tt, record b { contexts = erase a b.contexts })
  unfolding run_discover get_discovered_contexts
  run_discover_lem piid a b i q =
      let (c, e) = lookup-some a b.contexts (omega (arith, i.owned a)) in
      let n = contains-none a (values b.discovered) (omega (arith, i.owned a, i.once a)) in
      rw n (delete_context-some a c b e)

  run_task_lem :
      (t : Task) (passed ts : List Task) (b : Bridge)
      → b.tasks ≡ passed ++ t ∷ ts
      → Balanced none none b
      → (b' : Bridge) × (run_task oc w t b ≡ done (tt, b'))
        × Ran (passed ++ ts) b (record b' { tasks = passed ++ ts })
  unfolding run_task task_contexts count
  run_task_lem (discover tick piid a) passed ts b e i =
      let before = λ (x : ℕ).
        ap (λ us. count x (task_contexts us)) e
        ∙ task_contexts-append passed (discover tick piid a ∷ ts) x in
      let after = λ (x : ℕ). task_contexts-append passed ts x in
      let (c, q) = lookup-some a b.contexts (ground (arith, i.owned a, before a)) in
      let less = λ (x : ℕ). keys-erase x a c b.contexts q in
      (
        record b { contexts = erase a b.contexts },
        run_discover_lem piid a b i (ground (arith, before a)),
        record {
          balanced = record {
            owned = λ x. omega (arith, i.owned x, before x, after x, less x);
            once = λ x. omega (arith, i.once x, less x);
            fresh_contexts = λ x r. omega (arith, i.fresh_contexts x r, less x);
            fresh_handles = i.fresh_handles;
            pending_old = i.pending_old;
          };
          same_requests = refl;
          same_discovered = refl;
          same_killed = refl;
          left_tasks = refl;
        },
      )
  run_task_lem (rd_publish tick) passed ts b e i =
      let before = λ (x : ℕ).
        ap (λ us. count x (task_contexts us)) e
        ∙ task_contexts-append passed (rd_publish tick ∷ ts) x in
      (
        b,
        refl,
        record {
          balanced = record {
            owned = λ x. omega (arith, i.owned x, before x, task_contexts-append passed ts x);
            once = i.once;
            fresh_contexts = i.fresh_contexts;
            fresh_handles = i.fresh_handles;
            pending_old = i.pending_old;
          };
          same_requests = refl;
          same_discovered = refl;
          same_killed = refl;
          left_tasks = refl;
        },
      )

  process_tasks_lem :
      (passed ts : List Task) (b : Bridge)
      → b.tasks ≡ passed ++ ts
      → Balanced none none b
      → (b' : Bridge) × (process_tasks oc w passed ts b ≡ done (tt, b'))
        × Ran (passed ++ pending w.now ts) b b'
  unfolding process_tasks pending
  process_tasks_lem passed [] b e i = (
    b,
    refl,
    record {
      balanced = i;
      same_requests = refl;
      same_discovered = refl;
      same_killed = refl;
      left_tasks = e;
    },
  )
  process_tasks_lem passed (t ∷ ts) b e i = elim (Bool-cases (leb (tick t) w.now)) [
    | inl q ↦
        let (b1, e1, r1) = run_task_lem t passed ts b e i in
        let (b2, e2, r2) =
          process_tasks_lem passed ts (record b1 { tasks = passed ++ ts }) refl r1.balanced in
        (
          b2,
          rw q (>>=-done (run_task oc w t) _ b b1 tt e1 ∙ e2),
          record {
            balanced = r2.balanced;
            same_requests = r2.same_requests ∙ r1.same_requests;
            same_discovered = r2.same_discovered ∙ r1.same_discovered;
            same_killed = r2.same_killed ∙ r1.same_killed;
            left_tasks = rw q r2.left_tasks;
          },
        )
    | inr q ↦
        let (b', e', r) =
          process_tasks_lem (passed ++ t ∷ []) ts b (e ∙ sym (append_assoc passed (t ∷ []) ts)) i in
        (
          b',
          rw q e',
          record {
            balanced = r.balanced;
            same_requests = r.same_requests;
            same_discovered = r.same_discovered;
            same_killed = r.same_killed;
            left_tasks = rw q (r.left_tasks ∙ append_assoc passed (t ∷ []) (pending w.now ts));
          },
        )
  ]

  -- Where every context has one owner, the loop over the tasks ends with a result and leaves the
  -- tasks that are not due; every context has one owner again. A delayed discovery is never taken
  -- up: no request is made, no device is killed, and the map stays as it was.
  pub process_all_tasks-Ran :
      (b : Bridge)
      → Balanced none none b
      → (b' : Bridge) × (process_all_tasks oc w b ≡ done (tt, b'))
        × Ran (pending w.now b.tasks) b b'
  unfolding process_all_tasks
  process_all_tasks-Ran b i = process_tasks_lem [] b.tasks b refl i
