-- ===== src/Discovery/Balance/Process.antt =====
-- The absent devices and the tasks of `Process` in src/bridge.cpp, and the owners of the contexts.
use hanfun_io_tivity.Prelude.{
  ℕ, all, not, ◌∙◌, ◌+◌, ◌<◌, ◌≤◌, ◌≡◌, refl, true, false, List, [], ◌∷◌, some, none, if◌then◌else◌,
  Bool-cases, inl, inr, ◌==◌, arith,
}
use hanfun_io_tivity.Prelude.Bytes.{Bytes, bytes_eq}
use hanfun_io_tivity.Prelude.Assoc.{count, keys, values, lookup, erase, lookup-some, keys-erase}
use hanfun_io_tivity.Discovery.{Bridge, Presence, Context, done}
use hanfun_io_tivity.Discovery.Process.{
  get_id, destroy_contexts, destroy, destroy_all, without, process_presence, absent_ids,
}
use hanfun_io_tivity.Discovery.Balance.{Balanced, task_contexts}
use hanfun_io_tivity.Discovery.Balance.Discover.{Ends, Ends->>=}

lookup-erase_other {ℓ} :
    {A : Type ℓ} (k h : ℕ) (m : List (ℕ × A)) → ¬ (h ≡ k) → lookup k (erase h m) ≡ lookup k m
unfolding lookup erase
lookup-erase_other k h [] n = refl
lookup-erase_other k h ((j, u) ∷ m) n = ground (arith, lookup-erase_other k h m)

-- What the loop of `Destroy(id)` makes of a map and a heap, where `rest` counts the other owners.
pub record Swept (id : Bytes) (rest : ℕ → ℕ) (m : List (ℕ × ℕ)) (heap : List (ℕ × Context))
    (m' : List (ℕ × ℕ)) (heap' : List (ℕ × Context)) : Type 0 where
  pub owned : (x : ℕ) → count x (keys heap') ≡ count x (values m') + rest x
  pub fewer : (x : ℕ) → count x (keys heap') ≤ count x (keys heap)
  pub handles : (k : ℕ) → lookup k m ≡ none → lookup k m' ≡ none
  pub others_same : (x : ℕ) → 0 < rest x → lookup x heap' ≡ lookup x heap
  pub gone :
      (k a : ℕ) (c : Context)
      → lookup k m' ≡ some a
      → lookup a heap' ≡ some c
      → bytes_eq c.device.di id ≡ false

module _ (id : Bytes) (h a : ℕ) (c : Context) (m : List (ℕ × ℕ)) (heap : List (ℕ × Context)) where
  destroy_contexts-gone :
      lookup a heap ≡ some c
      → bytes_eq c.device.di id ≡ true
      → destroy_contexts id ((h, a) ∷ m) heap ≡ destroy_contexts id m (erase a heap)
  unfolding destroy_contexts
  destroy_contexts-gone e q = rw (e, q, destroy_contexts) refl

  destroy_contexts-kept :
      (m' : List (ℕ × ℕ)) (heap' : List (ℕ × Context))
      → lookup a heap ≡ some c
      → bytes_eq c.device.di id ≡ false
      → destroy_contexts id m heap ≡ done (m', heap')
      → destroy_contexts id ((h, a) ∷ m) heap ≡ done ((h, a) ∷ m', heap')
  unfolding destroy_contexts
  destroy_contexts-kept m' heap' e q e' = rw (e, q, e', destroy_contexts) refl

gone_here :
    (id : Bytes) (a a' : ℕ) (c c' : Context) (heap : List (ℕ × Context))
    → lookup a heap ≡ some c
    → some a ≡ some a'
    → lookup a' heap ≡ some c'
    → bytes_eq c.device.di id ≡ false
    → bytes_eq c'.device.di id ≡ false
gone_here id a a' c c' heap e n r q = cc

destroy_contexts_lem :
    (id : Bytes) (m : List (ℕ × ℕ)) (heap : List (ℕ × Context)) (rest : ℕ → ℕ)
    → ((x : ℕ) → count x (keys heap) ≡ count x (values m) + rest x)
    → ((x : ℕ) → count x (keys heap) ≤ 1)
    → (m' : List (ℕ × ℕ)) × (heap' : List (ℕ × Context)) × (destroy_contexts id m heap
        ≡ done (m', heap'))
      × Swept id rest m heap m' heap'
unfolding destroy_contexts values count lookup
destroy_contexts_lem id [] heap rest own once = (
  [],
  heap,
  refl,
  record {
    owned = own;
    fewer = λ x. omega arith;
    handles = λ k q. q;
    others_same = λ x q. refl;
    gone = λ k a c e q. cc;
  },
)
destroy_contexts_lem id ((h, a) ∷ m) heap rest own once =
    let (c, e) = lookup-some a heap (ground (arith, own a)) in
    let less = λ (x : ℕ). keys-erase x a c heap e in
    let (m1, heap1, e1, s1) =
      destroy_contexts_lem id m (erase a heap) rest (λ x. omega (arith, own x, less x))
        (λ x. omega (arith, once x, less x)) in
    let (m2, heap2, e2, s2) =
      destroy_contexts_lem id m heap (λ x. rest x + (if a == x then 1 else 0))
        (λ x. omega (arith, own x)) once in
    elim (Bool-cases (bytes_eq c.device.di id)) [
      | inl q ↦ (
        m1,
        heap1,
        destroy_contexts-gone id h a c m heap e q ∙ e1,
        record {
          owned = s1.owned;
          fewer = λ x. omega (arith, s1.fewer x, less x);
          handles = λ k n. s1.handles k (ground (arith, n));
          others_same = λ x r.
              s1.others_same x r
              ∙ lookup-erase_other x a heap (λ n. ground (arith, n, r, own x, once x));
          gone = s1.gone;
        },
      )
      | inr q ↦ (
        (h, a) ∷ m2,
        heap2,
        destroy_contexts-kept id h a c m heap m2 heap2 e q e2,
        record {
          owned = λ x. omega (arith, s2.owned x);
          fewer = s2.fewer;
          handles = λ k n. ground (arith, s2.handles k);
          others_same = λ x r. s2.others_same x (omega (arith, r));
          gone = λ k a' c' n r. elim (Bool-cases (h == k)) [
            | inl t ↦
                let same = s2.others_same a (ground arith) ∙ e in
                gone_here id a a' c c' heap2 same (rw t at n) r q
            | inr t ↦ s2.gone k a' c' (rw t at n) r
          ];
        },
      )
    ]

-- No device and no presence of the name is left.
pub record Absent (id : Bytes) (b : Bridge) : Type 0 where
  pub no_context :
      (k a : ℕ) (c : Context)
      → lookup k b.discovered ≡ some a
      → lookup a b.contexts ≡ some c
      → bytes_eq c.device.di id ≡ false
  pub no_presence : all (λ p. not (bytes_eq (get_id p) id)) b.presence ≡ true

all-without :
    (id : Bytes) (ps : List Presence)
    → all (λ p. not (bytes_eq (get_id p) id)) (without id ps) ≡ true
unfolding without
all-without id [] = refl
all-without id (p ∷ ps) = ground (arith, all-without id ps)

-- Where every context has one owner, `Destroy(id)` ends with a result, no device and no presence of
-- that name is left, and every context has one owner again.
pub destroy-Absent :
    (id : Bytes) (b : Bridge)
    → Balanced none none b
    → (b' : Bridge) × (destroy id b ≡ done (tt, b')) × Balanced none none b' × Absent id b'
unfolding destroy
destroy-Absent id b i =
    let (m, heap, e, s) =
      destroy_contexts_lem id b.discovered b.contexts (λ x. count x (task_contexts b.tasks))
        (λ x. omega (arith, i.owned x)) i.once in
    let b' : Bridge = record b {
      discovered = m;
      contexts = heap;
      presence = without id b.presence;
    } in
    (
      b',
      rw (e, destroy) refl,
      record {
        owned = λ x. omega (arith, s.owned x);
        once = λ x. omega (arith, s.fewer x, i.once x);
        fresh_contexts = λ x q. omega (arith, s.fewer x, i.fresh_contexts x q);
        fresh_handles = λ h q. s.handles h (i.fresh_handles h q);
        pending_old = i.pending_old;
      },
      record { no_context = s.gone; no_presence = all-without id b.presence },
    )

destroy_all-Ends : (ids : List Bytes) (b : Bridge) → Balanced none none b → Ends (destroy_all ids) b
unfolding destroy_all
destroy_all-Ends [] b i = (b, refl, i)
destroy_all-Ends (id ∷ ids) b i =
    let (b', e, i', gone) = destroy-Absent id b i in
    Ends->>= (destroy id) _ b b' tt e (destroy_all-Ends ids b' i')

-- Where every context has one owner, the presence loop of `Process`, with `Destroy` for each absent
-- device, ends with a result, and every context has one owner again.
process_presence-Ends :
    (now : ℕ) (b : Bridge) → Balanced none none b → Ends (process_presence now) b
unfolding process_presence
process_presence-Ends now b i = destroy_all-Ends (absent_ids now b.presence) b i
