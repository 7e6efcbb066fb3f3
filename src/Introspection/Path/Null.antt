-- ===== src/Introspection/Path/Null.antt =====
-- What `IntrospectPath` of src/introspection.cpp returns.
use hanfun_io_tivity.Prelude.{
  ℕ, suc, Bool, false, List, [], ◌∷◌, Option, some, none, ◌≡◌, refl, ap, ◌∙◌, Bool-cases, inl, inr,
}
use hanfun_io_tivity.Prelude.Bytes.{Bytes}
use hanfun_io_tivity.Introspection.{Rep, Reps, nil, M, ◌then_try◌, ask}
use hanfun_io_tivity.Introspection.Path.{
  add_ref, with_refs, make_refs, make_post, make_schema, introspect_path,
}

-- NULL is returned, without undefined behaviour.
abbrev IsNull : {A : Type 0} → M (Option A) → Type 0
IsNull m = (n : ℕ) → (n' : ℕ) × (m n ≡ some (none, n'))

try-IsNull :
    (answers : ℕ → Bool) (rest : M (Option Rep)) → IsNull rest → IsNull (ask answers then_try rest)
try-IsNull answers rest h n = elim (Bool-cases (answers n)) [
  | inl a ↦ rw a (h (suc n))
  | inr a ↦ rw a (suc n, refl)
]

module _ (answers : ℕ → Bool) where
  -- The loop over the resource types ends.
  make_refs-ends :
      (rts : List Bytes) (n : ℕ)
      → (o : Option Reps) × (n' : ℕ) × (make_refs answers rts n ≡ some (o, n'))
  unfolding make_refs
  make_refs-ends [] n = (some nil, n, refl)
  make_refs-ends (rt ∷ rts) n = elim (Bool-cases (answers n)) [
    | inr a ↦ rw a (none, suc n, refl)
    | inl a ↦ elim (Bool-cases (answers (suc n))) [
      | inr b ↦ rw (a, b) (none, suc (suc n), refl)
      | inl b ↦
          let (o, n', e) = make_refs-ends rts (suc (suc n)) in
          rw (a, b)
            (
              add_ref rt o,
              n',
              ap (λ x. elim x [ none ↦ none | some (r, k) ↦ some (add_ref rt r, k) ]) e,
            )
    ]
  ]

  make_post-IsNull :
      (interfaces : List Bytes) (schema : Rep) → IsNull (make_post answers false interfaces schema)
  unfolding make_post
  make_post-IsNull interfaces schema n = (n, refl)

  with_refs-IsNull :
      (interfaces : List Bytes) (refs : Option Reps)
      → IsNull (with_refs answers false interfaces refs)
  unfolding with_refs
  with_refs-IsNull interfaces none = λ n. (n, refl)
  with_refs-IsNull interfaces (some refs) = search (try-IsNull, make_post-IsNull)

  make_schema-IsNull :
      (resource_types interfaces : List Bytes)
      → IsNull (make_schema answers false resource_types interfaces)
  unfolding make_schema
  make_schema-IsNull resource_types interfaces = try-IsNull answers _ (try-IsNull answers _ loop)
    where
      loop : IsNull (λ n. elim (make_refs answers resource_types n) [
        | none ↦ none
        | some (refs, k) ↦ with_refs answers false interfaces refs k
      ])
      loop n =
          let (o, k, e) = make_refs-ends resource_types n in
          let (k', e') = with_refs-IsNull interfaces o k in
          (
            k',
            ap
                  (λ (x : Option (Option Reps × ℕ)). elim x [
                    | none ↦ none
                    | some (refs, j) ↦ with_refs answers false interfaces refs j
                  ])
                  e
                ∙ e',
          )

  path-IsNull :
      (resource_types interfaces : List Bytes)
      → IsNull (introspect_path answers false resource_types interfaces)
  unfolding introspect_path
  path-IsNull resource_types interfaces = search (try-IsNull, make_schema-IsNull) depth 14

-- Where a setter of a NULL payload returns false, whatever other calls fail: `IntrospectPath` ends
-- without undefined behaviour, and returns NULL.
pub introspect_path-IsNull :
    (answers : ℕ → Bool) (null_answer : Bool) (resource_types interfaces : List Bytes) (n : ℕ)
    → null_answer ≡ false
    → (n' : ℕ) × (introspect_path answers null_answer resource_types interfaces n ≡ some (none, n'))
introspect_path-IsNull answers null_answer resource_types interfaces n h =
    rw h (path-IsNull answers resource_types interfaces n)
