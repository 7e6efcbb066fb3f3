-- ===== src/Discovery/Iterator/Pairs.antt =====
-- The loop `for (it = Begin(); it != End(); ++it)` over the iterator of src/bridge.cpp.
use hanfun_io_tivity.Prelude.{
  ℕ, zero, suc, ◌<◌, ◌≡◌, refl, Bool, true, false, List, [], ◌∷◌, ◌++◌, Option, some, none, arith,
  if◌then◌else◌, ◌>>=◌, length, ◌↔◌, Bool-cases, inl, inr,
}
use hanfun_io_tivity.Prelude.Bytes.{Bytes}
use hanfun_io_tivity.Stack.{Constants}
use hanfun_io_tivity.Resource.{Resource, info, translate_resource_type}
use hanfun_io_tivity.Discovery.Iterator.{
  Iterator, find_type, is_visited, find_resource, begin, advance, next, differs_from_end, current,
  advance,
}

module _ (oc : Constants) (secure_mode : Bool) where
  -- What the loop collects, with fuel; `none` where an iterator at an end is read or advanced, and
  -- where the fuel runs out.
  unfoldable pub collect : ℕ → Iterator → Option (List (Resource × Bytes))
  collect zero it = none
  collect (suc fuel) it =
      let rest = next oc secure_mode it >>= λ it'. collect fuel it' in
      if differs_from_end it then (current it >>= λ p. rest >>= λ ps. some (p ∷ ps)) else some []

  -- The pairs that are meant.
  unfoldable pub type_pairs : Resource → List Bytes → List (Resource × Bytes)
  type_pairs r [] = []
  type_pairs r (t ∷ ts) =
      if translate_resource_type oc t then (r, t) ∷ type_pairs r ts else type_pairs r ts

  unfoldable pub pairs : List Resource → List (Resource × Bytes)
  unfolding type_pairs
  pairs [] = []
  pairs (r ∷ rs) =
      if is_visited oc secure_mode r then type_pairs r (info r).rts ++ pairs rs else pairs rs

  collect_step :
      (fuel : ℕ) (r : Resource) (rs : List Resource) (t : Bytes) (ts : List Bytes)
      → collect (suc fuel) (record { resource_it = r ∷ rs; resource_type_it = t ∷ ts })
        ≡ (collect fuel (advance oc secure_mode ts r rs) >>= λ ps. some ((r, t) ∷ ps))
  unfolding collect next differs_from_end current
  collect_step fuel r [] t ts = refl
  collect_step fuel r (s ∷ rs) t ts = refl

  advance-stop :
      (t : Bytes) (ts : List Bytes) (r : Resource) (rs : List Resource)
      → translate_resource_type oc t ≡ true
      → advance oc secure_mode (t ∷ ts) r rs
        ≡ record { resource_it = r ∷ rs; resource_type_it = t ∷ ts }
  unfolding advance find_type
  advance-stop t ts r rs h = rw (h, advance)

  advance-skip :
      (t : Bytes) (ts : List Bytes) (r : Resource) (rs : List Resource)
      → translate_resource_type oc t ≡ false
      → advance oc secure_mode (t ∷ ts) r rs ≡ advance oc secure_mode ts r rs
  unfolding advance find_type
  advance-skip t ts r rs h = rw (h, advance)

  -- What the loop is to do from the types of one resource on.
  abbrev Collects : Resource → List Resource → List Bytes → Type 0
  Collects r rs types =
      (fuel : ℕ)
      → length (type_pairs r types ++ pairs rs) < fuel
      → collect fuel (advance oc secure_mode types r rs) ≡ some (type_pairs r types ++ pairs rs)

  collect_pair :
      (r : Resource) (rs : List Resource) (t : Bytes) (ts : List Bytes)
      → Collects r rs ts
      → (fuel : ℕ) → length ((r, t) ∷ (type_pairs r ts ++ pairs rs)) < fuel
      → collect fuel (record { resource_it = r ∷ rs; resource_type_it = t ∷ ts })
        ≡ some ((r, t) ∷ (type_pairs r ts ++ pairs rs))
  collect_pair r rs t ts ih zero h = absurd (omega arith)
  collect_pair r rs t ts ih (suc fuel) h = rw (collect_step fuel r rs t ts, ih fuel (omega arith))

  collect_types :
      (r : Resource) (rs : List Resource)
      → ((fuel : ℕ)
          → length (pairs rs) < fuel
          → collect fuel (find_resource oc secure_mode [] rs) ≡ some (pairs rs))
      → (types : List Bytes) → Collects r rs types
  unfolding type_pairs
  collect_types r rs after [] fuel h = unfold advance in after fuel h
  collect_types r rs after (t ∷ ts) fuel h = elim (Bool-cases (translate_resource_type oc t)) [
    | inl stop ↦
        rw (stop, advance-stop t ts r rs stop)
          (collect_pair r rs t ts (collect_types r rs after ts) fuel (rw stop at h))
    | inr skip ↦
        rw (skip, advance-skip t ts r rs skip) (collect_types r rs after ts fuel (rw skip at h))
  ]

  find_resource-visited :
      (types : List Bytes) (r : Resource) (rs : List Resource)
      → is_visited oc secure_mode r ≡ true
      → find_resource oc secure_mode types (r ∷ rs) ≡ advance oc secure_mode (info r).rts r rs
  unfolding find_resource advance
  find_resource-visited types r rs h = rw h

  find_resource-passed :
      (types : List Bytes) (r : Resource) (rs : List Resource)
      → is_visited oc secure_mode r ≡ false
      → find_resource oc secure_mode types (r ∷ rs) ≡ find_resource oc secure_mode types rs
  unfolding find_resource
  find_resource-passed types r rs h = rw h

  collect_resources :
      (rs : List Resource) (types : List Bytes) (fuel : ℕ)
      → length (pairs rs) < fuel
      → collect fuel (find_resource oc secure_mode types rs) ≡ some (pairs rs)
  unfolding pairs
  collect_resources [] types zero h = absurd (omega arith)
  collect_resources [] types (suc fuel) h = unfold find_resource collect differs_from_end in refl
  collect_resources (r ∷ rs) types fuel h = elim (Bool-cases (is_visited oc secure_mode r)) [
    | inl e ↦
        rw (e, find_resource-visited types r rs e)
          (collect_types r rs (collect_resources rs []) (info r).rts fuel (rw e at h))
    | inr e ↦
        rw (e, find_resource-passed types r rs e) (collect_resources rs types fuel (rw e at h))
  ]

  -- With more fuel than there are pairs the loop from `Begin()` ends, reads no iterator at an end,
  -- and sees the translated types of the visited resources, each once and in order.
  pub collect-begin :
      (rs : List Resource) (fuel : ℕ)
      → length (pairs rs) < fuel
      → collect fuel (begin oc secure_mode rs) ≡ some (pairs rs)
  unfolding begin
  collect-begin rs fuel h = collect_resources rs [] fuel h

  -- `Begin()` differs from `End()`, so that what it points to may be read, exactly where there is a
  -- pair.
  differs_from_end-begin :
      (rs : List Resource) → (differs_from_end (begin oc secure_mode rs) ≡ false) ↔ (pairs rs ≡ [])
  unfolding collect
  differs_from_end-begin rs =
      let key = collect-begin rs (suc (length (pairs rs))) (omega arith) in
      (λ same. ground arith, λ empty. ground arith)
