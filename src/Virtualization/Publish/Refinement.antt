-- ===== src/Virtualization/Publish/Refinement.antt =====
-- The publication of src/bridge.cpp as a timer with at most one deadline.
use hanfun_io_tivity.Prelude.{
  ℕ, suc, ◌+◌, true, false, List, [], ◌∷◌, ◌++◌, Option, some, none, map, if◌then◌else◌, ◌>>=◌, leb,
  ◌≡◌, refl, sym, ap, ◌∙◌, subst, arith, if-holds,
}
use hanfun_io_tivity.Virtualization.Publish.{
  Task, discover, rd_publish, Queue, set_tick, request_publication, Ran, process_tasks, process,
}

-- The publications that are in the list, with their addresses and ticks.
unfoldable pub publications : List Task → List (ℕ × ℕ)
publications [] = []
publications (t ∷ ts) = elim t [
  | discover n ↦ publications ts
  | rd_publish a n ↦ (a, n) ∷ publications ts
]

publications-append :
    (ts us : List Task) → publications (ts ++ us) ≡ publications ts ++ publications us
unfolding publications
publications-append [] us = refl
publications-append (discover n ∷ ts) us = publications-append ts us
publications-append (rd_publish a n ∷ ts) us = ap (λ l. (a, n) ∷ l) (publications-append ts us)

publications-single :
    (b m : ℕ) (ts : List Task) (a n : ℕ)
    → publications (rd_publish b m ∷ ts) ≡ (a, n) ∷ []
    → (b ≡ a) × (m ≡ n) × (publications ts ≡ [])
unfolding publications
publications-single b m ts a n h = (cc, cc, cc)

set_tick-publications :
    (a n tick : ℕ) (ts : List Task)
    → publications ts ≡ (a, n) ∷ []
    → (ts' : List Task) × (set_tick a tick ts ≡ some ts') × (publications ts' ≡ (a, tick) ∷ [])
unfolding publications set_tick
set_tick-publications a n tick [] h = cc
set_tick-publications a n tick (discover m ∷ ts) h =
    let (ts', e, p) = set_tick-publications a n tick ts h in
    (discover m ∷ ts', ap (λ o. o >>= λ us. some (discover m ∷ us)) e, p)
set_tick-publications a n tick (rd_publish b m ∷ ts) h =
    let (e, e', none_left) = publications-single b m ts a n h in
    (
      rd_publish b tick ∷ ts,
      ground arith,
      ap (λ l. (b, tick) ∷ l) none_left ∙ ap (λ c. (c, tick) ∷ []) e,
    )

-- What a run of the loop leaves: the publications in the list, the pointer and the count.
abbrev Leaves : List (ℕ × ℕ) → Option ℕ → ℕ → Ran → Type 0
Leaves ps pointer count r =
    (publications r.tasks ≡ ps) × (r.rd_publish_task ≡ pointer) × (r.published ≡ count)

process_tasks-none :
    (now : ℕ) (ts : List Task) (pointer : Option ℕ)
    → publications ts ≡ []
    → Leaves [] pointer 0 (process_tasks now ts pointer)
unfolding publications process_tasks
process_tasks-none now [] pointer h = (refl, refl, refl)
process_tasks-none now (discover n ∷ ts) pointer h =
    let i = process_tasks-none now ts pointer h in
    if-holds (Leaves [] pointer 0) (leb n now) _ _ (λ e. i) (λ e. i)
process_tasks-none now (rd_publish a n ∷ ts) pointer h = cc

process_tasks-some :
    (now a n : ℕ) (ts : List Task)
    → publications ts ≡ (a, n) ∷ []
    → (leb n now ≡ true → Leaves [] none 1 (process_tasks now ts (some a)))
      × (leb n now ≡ false → Leaves ((a, n) ∷ []) (some a) 0 (process_tasks now ts (some a)))
unfolding publications process_tasks
process_tasks-some now a n [] h = cc
process_tasks-some now a n (discover m ∷ ts) h =
    let (i, j) = process_tasks-some now a n ts h in
    (
      λ d. if-holds (Leaves [] none 1) (leb m now) _ _ (λ e. i d) (λ e. i d),
      λ d. if-holds (Leaves ((a, n) ∷ []) (some a) 0) (leb m now) _ _ (λ e. j d) (λ e. j d),
    )
process_tasks-some now a n (rd_publish b m ∷ ts) h =
    let (e, e', none_left) = publications-single b m ts a n h in
    let (t, p, c) = process_tasks-none now ts none none_left in
    let (t', p', c') = process_tasks-none now ts (some a) none_left in
    let left = ap (λ l. (b, m) ∷ l) t' ∙ ap (λ x. (x, m) ∷ []) e ∙ ap (λ x. (a, x) ∷ []) e' in
    (
      λ d.
          if-holds (Leaves [] none 1) (leb m now) _ _ (λ d'. (t, p, ap suc c))
            (λ d'. absurd (ground arith)),
      λ d.
          if-holds (Leaves ((a, n) ∷ []) (some a) 0) (leb m now) _ _ (λ d'. absurd (ground arith))
            (λ d'. (left, p', c')),
    )

-- The timer: a request sets it to a second from now, a turn of the loop fires it if it is due.
abbrev pub requested : ℕ → Option ℕ → Option ℕ
requested now deadline = some (now + 1)

abbrev pub turned : ℕ → Option ℕ → Option ℕ × ℕ
turned now none = (none, 0)
turned now (some n) = if leb n now then (none, 1) else (some n, 0)

-- The queue holds the deadline: the pointer is NULL and the list has no publication, or it points to
-- the only one in the list.
unfoldable pub Holds : Option ℕ → Queue → Type 0
Holds none q = (publications q.tasks ≡ []) × (q.rd_publish_task ≡ none)
Holds (some n) q = (a : ℕ) × (publications q.tasks ≡ (a, n) ∷ []) × (q.rd_publish_task ≡ some a)

pub request_publication-Holds :
    (now : ℕ) (deadline : Option ℕ) (q : Queue)
    → Holds deadline q
    → (q' : Queue) × (request_publication now q ≡ some q') × Holds (requested now deadline) q'
unfolding Holds request_publication publications
request_publication-Holds now none q (t, p) = (
  record {
    tasks = q.tasks ++ (rd_publish q.next_task (now + 1) ∷ []);
    rd_publish_task = some q.next_task;
    next_task = suc q.next_task;
  },
  rw p,
  (
    q.next_task,
    publications-append q.tasks (rd_publish q.next_task (now + 1) ∷ [])
        ∙ ap (λ l. l ++ ((q.next_task, now + 1) ∷ [])) t,
    refl,
  ),
)
request_publication-Holds now (some n) q (a, t, p) =
    let (ts, e, t') = set_tick-publications a n (now + 1) q.tasks t in
    (record q { tasks = ts }, rw (p, e), (a, t', p))

abbrev Turns : ℕ → Option ℕ → Queue → Type 0
Turns now deadline q =
    Holds (turned now deadline).0 (process now q).0 × ((process now q).1 ≡ (turned now deadline).1)

process-some :
    (now n a : ℕ) (ts : List Task) (next : ℕ)
    → publications ts ≡ (a, n) ∷ []
    → Turns now (some n) (record { tasks = ts; rd_publish_task = some a; next_task = next })
unfolding Holds process
process-some now n a ts next t =
    let q : Queue = record { tasks = ts; rd_publish_task = some a; next_task = next } in
    let (fires, waits) = process_tasks-some now a n ts t in
    if-holds (λ (d : Option ℕ × ℕ). Holds d.0 (process now q).0 × ((process now q).1 ≡ d.1))
      (leb n now) (none, 1) (some n, 0) (λ e. let (t', p', c) = fires e in ((t', p'), c))
      (λ e. let (t', p', c) = waits e in ((a, t', p'), c))

process-Holds :
    (now : ℕ) (deadline : Option ℕ) (q : Queue) → Holds deadline q → Turns now deadline q
unfolding Holds process
process-Holds now none q (t, p) =
    let (t', p', c) = process_tasks-none now q.tasks q.rd_publish_task t in ((t', p' ∙ p), c)
process-Holds now (some n) q (a, t, p) =
    subst (λ (pointer : Option ℕ). Turns now (some n) (record q { rd_publish_task = pointer }))
      (sym p) (process-some now n a q.tasks q.next_task t)

-- What happens to the bridge: a request of a publication, and a turn of the loop.
pub data Event : Type 0 where
  request turn : (now : ℕ) → Event

-- The events from a queue on, and how often each turn publishes.
unfoldable pub run : List Event → Queue → Option (List ℕ)
unfolding request_publication process
run [] q = some []
run (e ∷ es) q = elim e [
  | request now ↦ request_publication now q >>= λ q'. run es q'
  | turn now ↦ run es (process now q).0 >>= λ ns. some ((process now q).1 ∷ ns)
]

-- The same for the timer.
unfoldable pub run_timer : List Event → Option ℕ → List ℕ
run_timer [] deadline = []
run_timer (e ∷ es) deadline = elim e [
  | request now ↦ run_timer es (requested now deadline)
  | turn now ↦ (turned now deadline).1 ∷ run_timer es (turned now deadline).0
]

run-Holds :
    (es : List Event) (deadline : Option ℕ) (q : Queue)
    → Holds deadline q
    → run es q ≡ some (run_timer es deadline)
unfolding run run_timer
run-Holds [] deadline q h = refl
run-Holds (request now ∷ es) deadline q h =
    let (q', e, h') = request_publication-Holds now deadline q h in
    ap (λ (o : Option Queue). o >>= run es) e ∙ run-Holds es (requested now deadline) q' h'
run-Holds (turn now ∷ es) deadline q h =
    let (h', c) = process-Holds now deadline q h in
    ap (λ (o : Option (List ℕ)). o >>= λ ns. some ((process now q).1 ∷ ns))
      (run-Holds es (turned now deadline).0 (process now q).0 h')
    ∙ ap (λ n. some (n ∷ run_timer es (turned now deadline).0)) c

-- Whatever tasks of other kinds the list holds, a bridge without a publication in it never uses a
-- deleted task, and publishes as the timer fires: each request puts the publication off to a second
-- from then, and a turn at or after the last such time publishes once.
pub run-timer :
    (es : List Event) (ticks : List ℕ) (next : ℕ)
    → run es
        (record { tasks = map (λ n. discover n) ticks; rd_publish_task = none; next_task = next })
      ≡ some (run_timer es none)
unfolding Holds publications
run-timer es ticks next = run-Holds es none _ (discoveries ticks, refl)
  where
    discoveries : (ns : List ℕ) → publications (map (λ n. discover n) ns) ≡ []
    discoveries [] = refl
    discoveries (n ∷ ns) = discoveries ns
