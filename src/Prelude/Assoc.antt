-- ===== src/Prelude/Assoc.antt =====
-- Association lists over numbers, as `std::map` and as a heap, and the counting of their entries.
use Prim.Native.Nat.{ℕ, ◌+◌, ◌<◌}
use mathlib.Core.Path.{◌≡◌, refl}
use mathlib.Core.Logic.{inl, inr}
use mathlib.Core.List.{List, [], ◌∷◌, ◌++◌}
use mathlib.Core.Option.{Option, none, some}
use native.Mathlib.Omega.{arith}
use hanfun_io_tivity.Prelude.Tests.{◌==◌, if◌then◌else◌, Option-cases}

-- How often a number is in a list.
unfoldable pub count : ℕ → List ℕ → ℕ
count a [] = 0
count a (x ∷ xs) = (if x == a then 1 else 0) + count a xs

pub count-append : (a : ℕ) (xs ys : List ℕ) → count a (xs ++ ys) ≡ count a xs + count a ys
unfolding count
count-append a [] ys = omega arith
count-append a (x ∷ xs) ys = omega (arith, count-append a xs ys)

module _ {ℓ} {A : Type ℓ} where
  unfoldable pub lookup : ℕ → List (ℕ × A) → Option A
  lookup k [] = none
  lookup k ((j, v) ∷ m) = if j == k then some v else lookup k m

  -- `m[k] = v`.
  unfoldable pub insert : ℕ → A → List (ℕ × A) → List (ℕ × A)
  insert k v [] = (k, v) ∷ []
  insert k v ((j, w) ∷ m) = if j == k then (k, v) ∷ m else (j, w) ∷ insert k v m

  unfoldable pub erase : ℕ → List (ℕ × A) → List (ℕ × A)
  erase k [] = []
  erase k ((j, v) ∷ m) = if j == k then m else (j, v) ∷ erase k m

  unfoldable pub keys : List (ℕ × A) → List ℕ
  keys [] = []
  keys ((k, v) ∷ m) = k ∷ keys m

  pub keys-insert_old :
      (a k : ℕ) (v w : A) (m : List (ℕ × A))
      → lookup k m ≡ some w
      → count a (keys (insert k v m)) ≡ count a (keys m)
  unfolding lookup insert keys count
  keys-insert_old a k v w [] h = cc
  keys-insert_old a k v w ((j, u) ∷ m) h = ground (arith, keys-insert_old a k v w m)

  pub keys-insert_new :
      (a k : ℕ) (v : A) (m : List (ℕ × A))
      → lookup k m ≡ none
      → count a (keys (insert k v m)) ≡ count a (keys m) + (if k == a then 1 else 0)
  unfolding lookup insert keys count
  keys-insert_new a k v [] h = omega arith
  keys-insert_new a k v ((j, u) ∷ m) h = ground (arith, keys-insert_new a k v m)

  pub keys-erase :
      (a k : ℕ) (w : A) (m : List (ℕ × A))
      → lookup k m ≡ some w
      → count a (keys (erase k m)) + (if k == a then 1 else 0) ≡ count a (keys m)
  unfolding lookup erase keys count
  keys-erase a k w [] h = cc
  keys-erase a k w ((j, u) ∷ m) h = ground (arith, keys-erase a k w m)

  pub lookup-none : (k : ℕ) (m : List (ℕ × A)) → count k (keys m) ≡ 0 → lookup k m ≡ none
  unfolding lookup keys count
  lookup-none k [] h = refl
  lookup-none k ((j, u) ∷ m) h = ground (arith, lookup-none k m)

  pub keys-none : (k : ℕ) (m : List (ℕ × A)) → lookup k m ≡ none → count k (keys m) ≡ 0
  unfolding lookup keys count
  keys-none k [] h = refl
  keys-none k ((j, u) ∷ m) h = ground (arith, keys-none k m)

  pub lookup-some :
      (k : ℕ) (m : List (ℕ × A)) → 0 < count k (keys m) → (w : A) × (lookup k m ≡ some w)
  lookup-some k m h = elim (Option-cases (lookup k m)) [
    | inl e ↦ absurd (omega (arith, keys-none k m e))
    | inr p ↦ p
  ]

  pub count_of_lookup :
      (k : ℕ) (w : A) (m : List (ℕ × A)) → lookup k m ≡ some w → 0 < count k (keys m)
  unfolding lookup keys count
  count_of_lookup k w [] h = cc
  count_of_lookup k w ((j, u) ∷ m) h = ground (arith, count_of_lookup k w m)

-- The values of a map into numbers.
unfoldable pub values : List (ℕ × ℕ) → List ℕ
values [] = []
values ((k, v) ∷ m) = v ∷ values m

pub values-insert_new :
    (a k v : ℕ) (m : List (ℕ × ℕ))
    → lookup k m ≡ none
    → count a (values (insert k v m)) ≡ count a (values m) + (if v == a then 1 else 0)
unfolding lookup insert values count
values-insert_new a k v [] h = omega arith
values-insert_new a k v ((j, u) ∷ m) h = ground (arith, values-insert_new a k v m)

pub values-erase :
    (a k w : ℕ) (m : List (ℕ × ℕ))
    → lookup k m ≡ some w
    → count a (values (erase k m)) + (if w == a then 1 else 0) ≡ count a (values m)
unfolding lookup erase values count
values-erase a k w [] h = cc
values-erase a k w ((j, u) ∷ m) h = ground (arith, values-erase a k w m)

pub erase-none : (k : ℕ) (m : List (ℕ × ℕ)) → lookup k m ≡ none → erase k m ≡ m
unfolding lookup erase
erase-none k [] h = refl
erase-none k ((j, u) ∷ m) h = ground (arith, erase-none k m)
