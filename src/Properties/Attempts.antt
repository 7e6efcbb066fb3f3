-- ===== src/Properties/Attempts.antt =====
-- Chains of calls that go on while the calls succeed.
use hanfun_io_tivity.Prelude.{
  Bool, true, false, List, [], ◌∷◌, ◌++◌, if◌then◌else◌, ◌≡◌, refl, sym, ap, ◌∙◌, append-nil,
  append_assoc,
}

-- The calls that were made, the last one last, and whether all succeeded.
abbrev pub Attempt {ℓ} : Type ℓ → Type ℓ
Attempt A = List A → List A × Bool

abbrev pub skip {ℓ} : {A : Type ℓ} → Attempt A
skip calls = (calls, true)

infixr 5 ◌>>◌
abbrev pub ◌>>◌ {ℓ} : {A : Type ℓ} → Attempt A → Attempt A → Attempt A
◌>>◌ m k calls = let r = m calls in let rest = k r.0 in if r.1 then rest else (r.0, false)

module _ {ℓ} {A : Type ℓ} (works : A → Bool) where
  abbrev pub attempt : A → Attempt A
  attempt a calls = (calls ++ (a ∷ []), works a)

  -- The calls of a list up to the first that fails.
  unfoldable pub until_failure : List A → List A × Bool
  until_failure [] = ([], true)
  until_failure (a ∷ xs) =
      let rest = until_failure xs in if works a then (a ∷ rest.0, rest.1) else (a ∷ [], false)

  -- A chain makes the calls of a list up to the first that fails, behind those that were made.
  unfoldable pub Follows : Attempt A → List A → Type ℓ
  unfolding until_failure
  Follows m xs = (calls : List A) → m calls ≡ (calls ++ (until_failure xs).0, (until_failure xs).1)

  -- What follows a list that was called up to its first failure.
  abbrev after : List A × Bool → List A × Bool → List A × Bool
  after (zs, true) r = (zs ++ r.0, r.1)
  after (zs, false) r = (zs, false)

  until_failure-append :
      (xs ys : List A) → until_failure (xs ++ ys) ≡ after (until_failure xs) (until_failure ys)
  unfolding until_failure
  until_failure-append [] ys = refl
  until_failure-append (a ∷ xs) ys =
      ap (λ r. if works a then (a ∷ r.0, r.1) else (a ∷ [], false)) (until_failure-append xs ys)
      ∙ go (works a) (until_failure xs)
    where
      go :
          (b : Bool) (r : List A × Bool)
          → (if b
              then (a ∷ (after r (until_failure ys)).0, (after r (until_failure ys)).1)
              else (a ∷ [], false))
            ≡ after (if b then (a ∷ r.0, r.1) else (a ∷ [], false)) (until_failure ys)
      go true (zs, true) = refl
      go true (zs, false) = refl
      go false r = refl

  pub skip-Follows : Follows skip []
  unfolding Follows
  skip-Follows calls = ap (λ l. (l, true)) (sym (append-nil calls))

  pub attempt-Follows : (a : A) → Follows (attempt a) (a ∷ [])
  unfolding Follows
  attempt-Follows a calls = go (works a)
    where
      one : Bool → List A × Bool
      one b = if b then (a ∷ [], true) else (a ∷ [], false)

      go :
          (b : Bool)
          → ◌≡◌ {A = List A × Bool} (calls ++ (a ∷ []), b) (let r = one b in (calls ++ r.0, r.1))
      go true = refl
      go false = refl

  pub >>-Follows :
      (m k : Attempt A) (xs ys : List A) → Follows m xs → Follows k ys → Follows (m >> k) (xs ++ ys)
  unfolding Follows
  >>-Follows m k xs ys f g calls =
      ap (λ r. let rest = k r.0 in if r.1 then rest else (r.0, false)) (f calls)
      ∙ go (until_failure xs)
      ∙ ap (λ r. (calls ++ r.0, r.1)) (sym (until_failure-append xs ys))
    where
      go :
          (r : List A × Bool)
          → (let rest = k (calls ++ r.0) in if r.1 then rest else (calls ++ r.0, false))
            ≡ (calls ++ (after r (until_failure ys)).0, (after r (until_failure ys)).1)
      go (zs, true) =
          g (calls ++ zs)
          ∙ ap (λ l. (l, (until_failure ys).1)) (append_assoc calls zs (until_failure ys).0)
      go (zs, false) = refl

  -- A call, and what follows it.
  pub then-Follows :
      (a : A) (k : Attempt A) (xs : List A) → Follows k xs → Follows (attempt a >> k) (a ∷ xs)
  then-Follows a k xs f = >>-Follows (attempt a) k (a ∷ []) xs (attempt-Follows a) f
