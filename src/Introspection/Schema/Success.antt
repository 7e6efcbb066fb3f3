-- ===== src/Introspection/Schema/Success.antt =====
-- `SetPropertiesSchema` of src/introspection.cpp where every allocation and every setter works.
use hanfun_io_tivity.Prelude.{
  ℕ, zero, suc, Bool, true, false, List, [], ◌∷◌, Option, some, none, ltb, leb, ◌&&◌, ◌≡◌, refl, ap,
  ◌>>=◌, arith,
}
use hanfun_io_tivity.Prelude.Bytes.{Bytes, codes, bytes_eq}
use hanfun_io_tivity.Introspection.{
  Kind, null, int, double, boolean, string, byte_string, Payload, no_values, value, Value, plain,
  obj, no_obj, arr, Elements, plains, arrays, objs, null_obj, unset, Rep, empty, field, object, set,
  M,
}
use hanfun_io_tivity.Introspection.Schema.{
  Made, made, failed, adopt_properties, with_items, adopt_schema, set_kind, set_object, set_array,
  set_properties, set_value, set_elements, read_pointer,
}
use hanfun_io_tivity.Introspection.Schema.Description.{
  typed, describe_kind, describe_object, describe_array, describe, describe_value,
  describe_elements,
}

-- Each array has a block, which has room for a pointer.
unfoldable mutual
  pub is_readable : ℕ → Payload → Bool
  is_readable size no_values = true
  is_readable size (value name v rest) = is_readable_value size v && is_readable size rest

  pub is_readable_value : ℕ → Value → Bool
  is_readable_value size (plain k) = true
  is_readable_value size (obj p) = is_readable size p
  is_readable_value size no_obj = true
  is_readable_value size (arr ds es) = is_readable_elements size es

  pub is_readable_elements : ℕ → Elements → Bool
  is_readable_elements size (plains k bytes) = leb size bytes
  is_readable_elements size (arrays bytes) = leb size bytes
  is_readable_elements size (objs p) = is_readable size p
  is_readable_elements size null_obj = true
  is_readable_elements size unset = false

abbrev pub always : ℕ → Bool
always n = true

abbrev to_made : Option Rep → Made
to_made none = failed
to_made (some r) = made r

abbrev Gives : {A : Type 0} → A → Option (A × ℕ) → Type 0
Gives a x = (m : ℕ) × (x ≡ some (a, m))

bind-Gives :
    {A B : Type 0} (x : Option (A × ℕ)) (f : A → M B) (a : A) (b : B)
    → Gives a x
    → ((k : ℕ) → Gives b (f a k))
    → Gives b (elim x [ none ↦ none | some (a', k) ↦ f a' k ])
bind-Gives none f a b (m, e) h = cc
bind-Gives (some (a', k)) f a b (m, e) h = let e' : a' ≡ a = cc in rw e' (h k)

set_kind-Gives : (k : Kind) (n : ℕ) → Gives (to_made (describe_kind k)) (set_kind always k empty n)
unfolding set_kind set bytes_eq
set_kind-Gives null n = (n, refl)
set_kind-Gives int n = (suc n, refl)
set_kind-Gives double n = (suc n, refl)
set_kind-Gives boolean n = (suc n, refl)
set_kind-Gives string n = (suc n, refl)
set_kind-Gives byte_string n = (suc (suc (suc (suc n))), refl)

adopt_properties-Gives :
    (o : Option Rep) (n : ℕ)
    → Gives (to_made (describe_object o)) (adopt_properties always o empty n)
unfolding set bytes_eq adopt_properties
adopt_properties-Gives none n = (n, refl)
adopt_properties-Gives (some r) n = (suc (suc n), refl)

set_object-Gives :
    (schema : M (Option Rep)) (o : Option Rep) (n : ℕ)
    → ((k : ℕ) → Gives o (schema k))
    → Gives (to_made (describe_object o)) (set_object always schema empty n)
unfolding set_object
set_object-Gives schema o n h =
    bind-Gives (schema (suc n)) (λ r. adopt_properties always r empty) o
      (to_made (describe_object o)) (h (suc n)) (adopt_properties-Gives o)

with_items-describe :
    (o : Option Rep) (d : ℕ) (ds : List ℕ)
    → with_items (to_made (describe_array o ds)) ≡ to_made (describe_array o (suc d ∷ ds))
unfolding describe_array with_items set bytes_eq
with_items-describe o d ds = go (describe_array o ds)
  where
    go :
        (o' : Option Rep)
        → with_items (to_made o')
          ≡ to_made (o' >>= λ r. some (field (codes "items") (object r) (typed (codes "array"))))
    go none = refl
    go (some r) = refl

set_array-Gives :
    (elements : M Made) (o : Option Rep) (ds : List ℕ)
    → ((k : ℕ) → Gives (to_made o) (elements k))
    → (n : ℕ) → Gives (to_made (describe_array o ds)) (set_array always elements ds n)
unfolding set_array describe_array
set_array-Gives elements o [] h n = h n
set_array-Gives elements o (zero ∷ ds) h n = h n
set_array-Gives elements o (suc d ∷ ds) h n =
    bind-Gives (set_array always elements ds (suc (suc (suc n)))) (λ m k. some (with_items m, k))
      (to_made (describe_array o ds)) (to_made (describe_array o (suc d ∷ ds)))
      (set_array-Gives elements o ds h (suc (suc (suc n))))
      (λ k. (k, ap (λ t. some (t, k)) (with_items-describe o d ds)))

pointer-Gives :
    (size bytes : ℕ) (a : Made) (m : M Made) (n : ℕ)
    → leb size bytes ≡ true
    → Gives a (m n)
    → Gives a (read_pointer size bytes m n)
pointer-Gives size bytes a m n h (k, e) =
    let room : ltb bytes size ≡ false = ground arith in (k, rw room e)

-- The loop goes on where the value has a schema.
adopt_schema-Gives :
    (name : Bytes) (o : Option Rep) (parent : Rep) (spec : Rep → Option Rep)
    (continue : Rep → M (Option Rep)) (n : ℕ)
    → ((r : Rep) (k : ℕ) → Gives (spec r) (continue r k))
    → Gives
        (o >>= λ r. spec (set name (object r) parent))
        (adopt_schema always name (to_made o) parent continue n)
unfolding adopt_schema set
adopt_schema-Gives name none parent spec continue n h = (n, refl)
adopt_schema-Gives name (some r) parent spec continue n h = h (set name (object r) parent) (suc n)

module _ (size : ℕ) where
  mutual
    unfolding set_properties describe is_readable

    set_properties-Gives :
        (p : Payload) (parent : Rep) (n : ℕ)
        → is_readable size p ≡ true
        → Gives (describe parent p) (set_properties size always parent p n)
    set_properties-Gives no_values parent n h = (n, refl)
    set_properties-Gives (value name v rest) parent n h =
        let first : is_readable_value size v ≡ true = ground arith in
        let others : is_readable size rest ≡ true = ground arith in
        bind-Gives (set_value size always v (suc n))
          (λ m. adopt_schema always name m parent (λ r. set_properties size always r rest))
          (to_made (describe_value v))
          (describe_value v >>= λ r. describe (set name (object r) parent) rest)
          (set_value-Gives v (suc n) first)
          (λ k.
            adopt_schema-Gives name (describe_value v) parent (λ r. describe r rest)
              (λ r. set_properties size always r rest) k
              (λ r k'. set_properties-Gives rest r k' others))

    set_value-Gives :
        (v : Value) (n : ℕ)
        → is_readable_value size v ≡ true
        → Gives (to_made (describe_value v)) (set_value size always v n)
    set_value-Gives (plain k) n h = set_kind-Gives k n
    set_value-Gives (obj p) n h =
        set_object-Gives (set_properties size always empty p) (describe empty p) n
          (λ k. set_properties-Gives p empty k h)
    set_value-Gives no_obj n h =
        set_object-Gives (λ k. some (some empty, k)) (some empty) n (λ k. (k, refl))
    set_value-Gives (arr ds es) n h =
        set_array-Gives (set_elements size always es) (describe_elements es) ds
          (λ k. set_elements-Gives es k h) n

    set_elements-Gives :
        (es : Elements) (n : ℕ)
        → is_readable_elements size es ≡ true
        → Gives (to_made (describe_elements es)) (set_elements size always es n)
    set_elements-Gives (plains k bytes) n h =
        pointer-Gives size bytes (to_made (describe_kind k)) (set_kind always k empty) n h
          (set_kind-Gives k n)
    set_elements-Gives (arrays bytes) n h =
        pointer-Gives size bytes failed (λ m. some (failed, m)) n h (n, refl)
    set_elements-Gives (objs p) n h =
        set_object-Gives (set_properties size always empty p) (describe empty p) n
          (λ k. set_properties-Gives p empty k h)
    set_elements-Gives null_obj n h =
        set_object-Gives (λ k. some (some empty, k)) (some empty) n (λ k. (k, refl))
    set_elements-Gives unset n h = cc

-- Where all calls work, and every array of the payload has a block with room for a pointer:
-- `SetPropertiesSchema` ends without undefined behaviour, and returns true with the schema of the
-- payload in the parent exactly where the payload has a schema, and else false.
pub set_properties-always :
    (size : ℕ) (p : Payload) (parent : Rep) (n : ℕ)
    → is_readable size p ≡ true
    → (m : ℕ) × (set_properties size always parent p n ≡ some (describe parent p, m))
set_properties-always size p parent n h = set_properties-Gives size p parent n h
