-- ===== src/Prelude/Slices.antt =====
-- What the library's reads, writes and slices of lists do to one another.
use Prim.Native.Nat.{ℕ, zero, suc, ◌+◌, ◌≤◌, ◌<◌}
use mathlib.Core.Path.{◌≡◌, refl, ap}
use mathlib.Core.Logic.{◌≢◌}
use mathlib.Core.List.{List, [], ◌∷◌, ◌++◌, map}
use mathlib.Core.Option.{some}
use native.Mathlib.Omega.{arith}
use hanfun_io_tivity.Prelude.Lists.{length, get_elem?, set, take, drop}

module _ {ℓ} {A : Type ℓ} where
  pub get_elem?-map :
      {B : Type ℓ} (f : A → B) (xs : List A) (i : ℕ) (x : A)
      → get_elem? xs i ≡ some x
      → get_elem? (map f xs) i ≡ some (f x)
  get_elem?-map f [] i x h = cc
  get_elem?-map f (y ∷ xs) zero x h = let e : y ≡ x = cc in ap (λ z. some (f z)) e
  get_elem?-map f (y ∷ xs) (suc i) x h = get_elem?-map f xs i x h

  pub get_elem?-drop :
      (xs : List A) (i : ℕ) (x : A) (ys : List A) → drop i xs ≡ x ∷ ys → get_elem? xs i ≡ some x
  get_elem?-drop [] zero x ys h = cc
  get_elem?-drop [] (suc i) x ys h = cc
  get_elem?-drop (z ∷ xs) zero x ys h = let e : z ≡ x = cc in ap (λ y. some y) e
  get_elem?-drop (z ∷ xs) (suc i) x ys h = get_elem?-drop xs i x ys h

  pub drop-suc :
      (xs : List A) (i : ℕ) (x : A) (ys : List A) → drop i xs ≡ x ∷ ys → drop (suc i) xs ≡ ys
  drop-suc [] zero x ys h = cc
  drop-suc [] (suc i) x ys h = cc
  drop-suc (z ∷ xs) zero x ys h = cc
  drop-suc (z ∷ xs) (suc i) x ys h = drop-suc xs i x ys h

  pub drop-drop : (m n k : ℕ) (xs : List A) → k ≡ m + n → drop n (drop m xs) ≡ drop k xs
  drop-drop zero n k xs e = let e' : n ≡ k = omega arith in ap (λ j. drop j xs) e'
  drop-drop (suc m) n zero xs e = absurd (omega arith)
  drop-drop (suc m) zero (suc k) [] e = refl
  drop-drop (suc m) (suc n) (suc k) [] e = refl
  drop-drop (suc m) n (suc k) (x ∷ xs) e = drop-drop m n k xs (omega arith)

  pub length-page :
      (n : ℕ) (xs : List A)
      → n ≤ length xs
      → (length (take n xs) ≡ n) × (length (drop n xs) + n ≡ length xs)
  length-page zero xs h = (refl, omega arith)
  length-page (suc n) [] h = absurd (omega arith)
  length-page (suc n) (x ∷ xs) h =
      let (e, e') = length-page n xs (omega arith) in (ap suc e, omega arith)

  pub take-drop : (n : ℕ) (xs : List A) → take n xs ++ drop n xs ≡ xs
  take-drop zero xs = refl
  take-drop (suc n) [] = refl
  take-drop (suc n) (x ∷ xs) = ap (λ l. x ∷ l) (take-drop n xs)

  pub length-set : (xs : List A) (i : ℕ) (v : A) → length (set xs i v) ≡ length xs
  length-set [] i v = refl
  length-set (x ∷ xs) zero v = refl
  length-set (x ∷ xs) (suc i) v = ap suc (length-set xs i v)

  pub get_elem?-set_same :
      (d : List A) (i : ℕ) (v w : A) → get_elem? d i ≡ some v → get_elem? (set d i w) i ≡ some w
  get_elem?-set_same [] i v w h = cc
  get_elem?-set_same (x ∷ d) zero v w h = refl
  get_elem?-set_same (x ∷ d) (suc i) v w h = get_elem?-set_same d i v w h

  pub get_elem?-set_other :
      (d : List A) (i j : ℕ) (w : A) → j ≢ i → get_elem? (set d i w) j ≡ get_elem? d j
  get_elem?-set_other [] i j w h = refl
  get_elem?-set_other (x ∷ d) zero zero w h = absurd (h refl)
  get_elem?-set_other (x ∷ d) zero (suc j) w h = refl
  get_elem?-set_other (x ∷ d) (suc i) zero w h = refl
  get_elem?-set_other (x ∷ d) (suc i) (suc j) w h = get_elem?-set_other d i j w (λ e. h (ap suc e))

  pub get_elem?-take : (n i : ℕ) (d : List A) → i < n → get_elem? (take n d) i ≡ get_elem? d i
  get_elem?-take zero i d h = absurd (omega arith)
  get_elem?-take (suc n) i [] h = refl
  get_elem?-take (suc n) zero (x ∷ d) h = refl
  get_elem?-take (suc n) (suc i) (x ∷ d) h = get_elem?-take n i d (omega arith)

  pub length-take : (n : ℕ) (d : List A) → n ≤ length d → length (take n d) ≡ n
  length-take zero d h = refl
  length-take (suc n) [] h = absurd (omega arith)
  length-take (suc n) (x ∷ d) h = ap suc (length-take n d (omega arith))

  pub take-append_add :
      (xs ys : List A) (m n : ℕ) → n ≡ length xs + m → take n (xs ++ ys) ≡ xs ++ take m ys
  take-append_add [] ys m n e = let e' : n ≡ m = omega arith in ap (λ k. take k ys) e'
  take-append_add (x ∷ xs) ys m zero e = absurd (omega arith)
  take-append_add (x ∷ xs) ys m (suc n) e =
      ap (λ l. x ∷ l) (take-append_add xs ys m n (omega arith))
