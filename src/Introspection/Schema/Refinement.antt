-- ===== src/Introspection/Schema/Refinement.antt =====
-- `SetPropertiesSchema` of src/introspection.cpp makes the schema that is described, whatever calls fail.
use hanfun_io_tivity.Prelude.{
  ℕ, zero, suc, Bool, false, List, [], ◌∷◌, Option, some, none, ltb, ◌≡◌, refl, Bool-cases, inl,
  inr, ◌>>=◌,
}
use hanfun_io_tivity.Prelude.Bytes.{Bytes, codes, bytes_eq}
use hanfun_io_tivity.Introspection.{
  Kind, null, int, double, boolean, string, byte_string, Payload, no_values, value, Value, plain,
  obj, no_obj, arr, Elements, plains, arrays, objs, null_obj, unset, Rep, empty, field, text,
  object, set, M,
}
use hanfun_io_tivity.Introspection.Schema.{
  Made, made, failed, dangling, adopt, set_type, adopt_properties, with_items, adopt_schema,
  set_kind, set_object, set_array, set_properties, set_value, set_elements, read_pointer,
}
use hanfun_io_tivity.Introspection.Schema.Description.{
  typed, describe_kind, describe_object, describe_array, describe, describe_value,
  describe_elements,
}

-- What was made is what was to be made.
abbrev Allows : Option Rep → Option (Made × ℕ) → Type 0
Allows o none = Unit
Allows o (some (made r, n)) = o ≡ some r
Allows o (some (failed, n)) = Unit
Allows o (some (dangling, n)) = Unit

abbrev pub AllowsRep : Option Rep → Option (Option Rep × ℕ) → Type 0
AllowsRep o none = Unit
AllowsRep o (some (none, n)) = Unit
AllowsRep o (some (some r, n)) = o ≡ some r

module _ (answers : ℕ → Bool) where
  adopt-Allows :
      (name type : Bytes) (child : Rep) (n : ℕ)
      → bytes_eq (codes "type") name ≡ false
      → Allows
          (some (field name (object child) (typed type)))
          (adopt answers name child type empty n)
  unfolding adopt set
  adopt-Allows name type child n h = elim (Bool-cases (answers n)) [
    | inr no_child ↦ rw no_child tt
    | inl a ↦ elim (Bool-cases (answers (suc n))) [
      | inr b ↦ rw (a, b) tt
      | inl b ↦ rw (a, b, h) refl
    ]
  ]

  set_type-Allows :
      (name : Bytes) (n : ℕ) → Allows (some (typed name)) (set_type answers name empty n)
  unfolding set
  set_type-Allows name n = elim (Bool-cases (answers n)) [ inl a ↦ rw a refl | inr a ↦ rw a tt ]

  set_kind-Allows : (k : Kind) (n : ℕ) → Allows (describe_kind k) (set_kind answers k empty n)
  unfolding set_kind set bytes_eq
  set_kind-Allows null n = tt
  set_kind-Allows int n = set_type-Allows (codes "integer") n
  set_kind-Allows double n = set_type-Allows (codes "number") n
  set_kind-Allows boolean n = set_type-Allows (codes "boolean") n
  set_kind-Allows string n = set_type-Allows (codes "string") n
  set_kind-Allows byte_string n = elim (Bool-cases (answers n)) [
    | inr a ↦ rw a tt
    | inl a ↦ elim (Bool-cases (answers (suc n))) [
      | inr b ↦ rw (a, b) tt
      | inl b ↦
          rw (a, b)
            (adopt-Allows (codes "media") (codes "string")
              (field (codes "binaryEncoding") (text (codes "base64")) empty) (suc (suc n)) refl)
    ]
  ]

  set_object-Allows :
      (schema : M (Option Rep)) (o : Option Rep) (n : ℕ)
      → ((k : ℕ) → AllowsRep o (schema k))
      → Allows (describe_object o) (set_object answers schema empty n)
  unfolding set_object bytes_eq
  set_object-Allows schema o n h = elim (Bool-cases (answers n)) [
    | inr a ↦ rw a tt
    | inl a ↦ rw a (go (schema (suc n)) (h (suc n)))
  ]
    where
      go :
          (x : Option (Option Rep × ℕ))
          → AllowsRep o x
          → Allows
              (describe_object o)
              (elim x [ none ↦ none | some (r, k) ↦ adopt_properties answers r empty k ])
      go none h' = tt
      go (some (none, k)) h' = tt
      go (some (some child, k)) h' =
          rw h' (adopt-Allows (codes "properties") (codes "object") child k refl)

  set_array-Allows :
      (elements : M Made) (o : Option Rep) (ds : List ℕ)
      → ((k : ℕ) → Allows o (elements k))
      → (n : ℕ) → Allows (describe_array o ds) (set_array answers elements ds n)
  unfolding set_array describe_array with_items set bytes_eq
  set_array-Allows elements o [] h n = h n
  set_array-Allows elements o (zero ∷ ds) h n = h n
  set_array-Allows elements o (suc d ∷ ds) h n = elim (Bool-cases (answers n)) [
    | inr a ↦ rw a tt
    | inl a ↦ elim (Bool-cases (answers (suc n))) [
      | inr b ↦ rw (a, b) tt
      | inl b ↦ elim (Bool-cases (answers (suc (suc n)))) [
        | inr c ↦ rw (a, b, c) tt
        | inl c ↦
            rw (a, b, c)
              (go (set_array answers elements ds (suc (suc (suc n))))
                (set_array-Allows elements o ds h (suc (suc (suc n)))))
      ]
    ]
  ]
    where
      go :
          (x : Option (Made × ℕ))
          → Allows (describe_array o ds) x
          → Allows
              (describe_array o (suc d ∷ ds))
              (elim x [ none ↦ none | some (m, k) ↦ some (with_items m, k) ])
      go none h' = tt
      go (some (made r, k)) h' = rw h' refl
      go (some (failed, k)) h' = tt
      go (some (dangling, k)) h' = tt

  adopt_schema-AllowsRep :
      (name : Bytes) (o : Option Rep) (parent : Rep) (spec : Rep → Option Rep)
      (continue : Rep → M (Option Rep)) (x : Option (Made × ℕ))
      → ((r : Rep) (k : ℕ) → AllowsRep (spec r) (continue r k))
      → Allows o x
      → AllowsRep
          (o >>= λ r. spec (set name (object r) parent))
          (elim x [ none ↦ none | some (m, k) ↦ adopt_schema answers name m parent continue k ])
  unfolding adopt_schema set
  adopt_schema-AllowsRep name o parent spec continue none h h' = tt
  adopt_schema-AllowsRep name o parent spec continue (some (failed, k)) h h' = tt
  adopt_schema-AllowsRep name o parent spec continue (some (dangling, k)) h h' = tt
  adopt_schema-AllowsRep name o parent spec continue (some (made r, k)) h h' =
      elim (Bool-cases (answers k)) [
        | inr a ↦ rw a tt
        | inl a ↦ rw (h', a) (h (set name (object r) parent) (suc k))
      ]

module _ (pointer_size : ℕ) (answers : ℕ → Bool) where
  pointer-Allows :
      (bytes : ℕ) (o : Option Rep) (m : M Made) (n : ℕ)
      → Allows o (m n)
      → Allows o (read_pointer pointer_size bytes m n)
  pointer-Allows bytes o m n h = elim (Bool-cases (ltb bytes pointer_size)) [
    | inl a ↦ rw a tt
    | inr a ↦ rw a h
  ]

  mutual
    unfolding set_properties describe set_object

    pub set_properties-AllowsRep :
        (p : Payload) (parent : Rep) (n : ℕ)
        → AllowsRep (describe parent p) (set_properties pointer_size answers parent p n)
    set_properties-AllowsRep no_values parent n = refl
    set_properties-AllowsRep (value name v rest) parent n = elim (Bool-cases (answers n)) [
      | inr a ↦ rw a tt
      | inl a ↦ rw a (
          adopt_schema-AllowsRep answers name (describe_value v) parent (λ r. describe r rest)
            (λ r. set_properties pointer_size answers r rest)
            (set_value pointer_size answers v (suc n)) (λ r k. set_properties-AllowsRep rest r k)
            (set_value-Allows v (suc n)))
    ]

    set_value-Allows :
        (v : Value) (n : ℕ) → Allows (describe_value v) (set_value pointer_size answers v n)
    set_value-Allows (plain k) n = set_kind-Allows answers k n
    set_value-Allows (obj p) n =
        set_object-Allows answers (set_properties pointer_size answers empty p) (describe empty p) n
          (λ k. set_properties-AllowsRep p empty k)
    set_value-Allows no_obj n =
        set_object-Allows answers (λ k. some (some empty, k)) (some empty) n (λ k. refl)
    set_value-Allows (arr ds es) n =
        set_array-Allows answers (set_elements pointer_size answers es) (describe_elements es) ds
          (λ k. set_elements-Allows es k) n

    set_elements-Allows :
        (es : Elements) (n : ℕ)
        → Allows (describe_elements es) (set_elements pointer_size answers es n)
    set_elements-Allows (plains k bytes) n =
        pointer-Allows bytes (describe_kind k) (set_kind answers k empty) n
          (set_kind-Allows answers k n)
    set_elements-Allows (arrays bytes) n = pointer-Allows bytes none (λ m. some (failed, m)) n tt
    set_elements-Allows (objs p) n =
        set_object-Allows answers (set_properties pointer_size answers empty p) (describe empty p) n
          (λ k. set_properties-AllowsRep p empty k)
    set_elements-Allows null_obj n =
        set_object-Allows answers (λ k. some (some empty, k)) (some empty) n (λ k. refl)
    set_elements-Allows unset n = tt

-- Whatever calls fail: where `SetPropertiesSchema` returns true, the parent has the schema of the
-- payload added to it, and the payload has one.
pub set_properties-describe :
    (pointer_size : ℕ) (answers : ℕ → Bool) (p : Payload) (parent r : Rep) (n m : ℕ)
    → set_properties pointer_size answers parent p n ≡ some (some r, m)
    → describe parent p ≡ some r
set_properties-describe pointer_size answers p parent r n m h =
    rw h at (set_properties-AllowsRep pointer_size answers p parent n)
