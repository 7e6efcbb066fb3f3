-- ===== src/Prelude/Dict.antt =====
-- Dictionaries from byte strings, as `std::map`.
use mathlib.Core.Path.{◌≡◌, refl}
use mathlib.Core.List.{List, [], ◌∷◌}
use mathlib.Core.Option.{Option, none, some}
use native.Mathlib.Omega.{arith}
use hanfun_io_tivity.Prelude.Tests.{if◌then◌else◌}
use hanfun_io_tivity.Prelude.Bytes.{Bytes, bytes_eq, bytes_eq_iff}

module _ {ℓ} {A : Type ℓ} where
  unfoldable pub lookup : Bytes → List (Bytes × A) → Option A
  lookup k [] = none
  lookup k ((j, v) ∷ m) = if bytes_eq j k then some v else lookup k m

  -- `m[k] = v`.
  unfoldable pub insert : Bytes → A → List (Bytes × A) → List (Bytes × A)
  insert k v [] = (k, v) ∷ []
  insert k v ((j, w) ∷ m) = if bytes_eq j k then (k, v) ∷ m else (j, w) ∷ insert k v m

  pub lookup-insert :
      (k j : Bytes) (v : A) (m : List (Bytes × A))
      → lookup j (insert k v m) ≡ (if bytes_eq k j then some v else lookup j m)
  unfolding lookup insert
  lookup-insert k j v [] = refl
  lookup-insert k j v ((i, w) ∷ m) =
      ground (arith, bytes_eq_iff k j, bytes_eq_iff i k, bytes_eq_iff i j, lookup-insert k j v m)
