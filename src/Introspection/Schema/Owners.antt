-- ===== src/Introspection/Schema/Owners.antt =====
-- A child with two owners in `SetPropertiesSchema` of src/introspection.cpp.
use hanfun_io_tivity.Prelude.{
  ℕ, zero, suc, Bool, true, false, [], ◌∷◌, Option, none, some, ◌≡◌, refl, ap, ◌∙◌, ◌⊎◌, inl, inr,
}
use hanfun_io_tivity.Prelude.Bytes.{Bytes}
use hanfun_io_tivity.Introspection.{
  null, int, double, boolean, string, byte_string, Payload, no_values, value, Value, plain, obj,
  no_obj, arr, Rep, empty,
}
use hanfun_io_tivity.Introspection.Schema.{
  Made, made, dangling, adopt, adopt_properties, adopt_schema, set_kind, set_object, set_array,
  set_properties, set_value,
}

module _ (size : ℕ) (answers : ℕ → Bool) where
  -- From a call on, a child of the value's property is made and adopted, and the given call is the next:
  -- the setter of the type "string", "object" or "array". An array has a dimension, its first.
  unfoldable pub Adopted : Value → ℕ → ℕ → Type 0
  Adopted (plain byte_string) n j =
      (answers n ≡ true)
      × (answers (suc n) ≡ true)
      × (answers (suc (suc n)) ≡ true)
      × (j ≡ suc (suc (suc n)))
  Adopted (plain _) n j = false ≡ true
  Adopted (obj p) n j =
      (answers n ≡ true)
      × (child : Rep) × (m : ℕ) × (set_properties size answers empty p (suc n)
          ≡ some (some child, m))
      × (answers m ≡ true)
      × (j ≡ suc m)
  Adopted no_obj n j = (answers n ≡ true) × (answers (suc n) ≡ true) × (j ≡ suc (suc n))
  Adopted (arr [] es) n j = false ≡ true
  Adopted (arr (zero ∷ ds) es) n j = false ≡ true
  Adopted (arr (suc d ∷ ds) es) n j =
      (answers n ≡ true) × (answers (suc n) ≡ true) × (j ≡ suc (suc n))

  -- From a call on, the setter of the type of some value of the payload fails behind an adoption; the
  -- values in front of it go to the parent.
  unfoldable pub FailsAdopted : Payload → ℕ → Type 0
  unfolding Adopted
  FailsAdopted no_values n = false ≡ true
  FailsAdopted (value name v rest) n =
      (answers n ≡ true)
      × (((j : ℕ) × Adopted v (suc n) j × (answers j ≡ false))
          ⊎ ((r : Rep) × (m : ℕ) × (set_value size answers v (suc n) ≡ some (made r, m))
              × (answers m ≡ true)
              × FailsAdopted rest (suc m)))

  set_value-dangling :
      (v : Value) (n j : ℕ)
      → Adopted v n j
      → answers j ≡ false
      → (m : ℕ) × (set_value size answers v n ≡ some (dangling, m))
  unfolding Adopted set_properties set_kind set_object set_array adopt
  set_value-dangling (plain null) n j h f = cc
  set_value-dangling (plain int) n j h f = cc
  set_value-dangling (plain double) n j h f = cc
  set_value-dangling (plain boolean) n j h f = cc
  set_value-dangling (plain string) n j h f = cc
  set_value-dangling (plain byte_string) n j (a, b, c, e) f =
      let d : answers (suc (suc (suc n))) ≡ false = cc in
      (suc (suc (suc (suc n))), rw (a, b, c, d) refl)
  set_value-dangling (obj p) n j (a, child, m, ran, b, e) f =
      let d : answers (suc m) ≡ false = cc in
      let adoption : adopt_properties answers (some child) empty m ≡ some (dangling, suc (suc m)) =
        rw (b, d) refl in
      (
        suc (suc m),
        rw a (
            ap
              (λ (x : Option (Option Rep × ℕ)). elim x [
                | none ↦ none
                | some (r, i) ↦ adopt_properties answers r empty i
              ])
              ran
            ∙ adoption),
      )
  set_value-dangling no_obj n j (a, b, e) f =
      let d : answers (suc (suc n)) ≡ false = cc in (suc (suc (suc n)), rw (a, b, d) refl)
  set_value-dangling (arr [] es) n j h f = cc
  set_value-dangling (arr (zero ∷ ds) es) n j h f = cc
  set_value-dangling (arr (suc d ∷ ds) es) n j (a, b, e) f =
      let d' : answers (suc (suc n)) ≡ false = cc in (suc (suc (suc n)), rw (a, b, d') refl)

  -- What follows the `switch`.
  abbrev adopted_value : Bytes → Rep → Payload → Option (Made × ℕ) → Option (Option Rep × ℕ)
  adopted_value name parent rest none = none
  adopted_value name parent rest (some (made', j)) =
      adopt_schema answers name made' parent (λ r. set_properties size answers r rest) j

  -- Where the setter of the type of some value fails after a child of the value's property was adopted,
  -- for a byte string, an object, which may be NULL, and the first dimension of an array, and the values
  -- in front went to the parent: `exit` destroys the child twice.
  pub set_properties-two_owners :
      (payload : Payload) (parent : Rep) (n : ℕ)
      → FailsAdopted payload n
      → set_properties size answers parent payload n ≡ none
  unfolding FailsAdopted set_properties
  set_properties-two_owners no_values parent n h = cc
  set_properties-two_owners (value name v rest) parent n (created, inl (j, adopted, f)) =
      let (m, d) = set_value-dangling v (suc n) j adopted f in
      rw created (ap (adopted_value name parent rest) d)
  set_properties-two_owners (value name v rest) parent n (created, inr (r, m, ran, adopted, h)) =
      let next : adopted_value name parent rest (some (made r, m)) ≡ none =
        rw adopted (set_properties-two_owners rest _ (suc m) h) in
      rw created (ap (adopted_value name parent rest) ran ∙ next)
