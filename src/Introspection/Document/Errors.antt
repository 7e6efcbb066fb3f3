-- ===== src/Introspection/Document/Errors.antt =====
-- The errors that `Introspect`, src/introspection.cpp, joins by `|=`.
use Prim.Native.Nat.{digits, max, bit_or, bit_or-bitwise}
use hanfun_io_tivity.Prelude.{
  ℕ, zero, suc, ◌/◌, ◌≤◌, false, if◌then◌else◌, leb, ◌≡◌, refl, ◌∙◌, ◌⊎◌, inl, inr, Bool-cases,
  arith,
}

-- The result of an operation behind which so many bytes are encoded.
abbrev pub status : ℕ → ℕ → ℕ → ℕ
status oom capacity used = if leb used capacity then 0 else oom

digits_same : (n a : ℕ) → a ≤ n → digits (λ b. b) max n a a ≡ a
digits_same zero zero h = refl
digits_same zero (suc a) h = absurd (omega arith)
digits_same (suc n) zero h = refl
digits_same (suc n) (suc a) h = omega (arith, digits_same n (suc a / 2) (omega arith))

bit_or_same : (a : ℕ) → bit_or a a ≡ a
bit_or_same a = bit_or-bitwise a a ∙ digits_same a a (omega arith)

zero-bit_or : (a : ℕ) → bit_or 0 a ≡ a
zero-bit_or a = bit_or-bitwise 0 a

-- An error of an operation with fewer bytes, or none, is lost in that of a later one.
pub bit_or-status :
    (oom capacity a b err : ℕ)
    → a ≤ b
    → (err ≡ 0) ⊎ (err ≡ status oom capacity a)
    → bit_or err (status oom capacity b) ≡ status oom capacity b
bit_or-status oom capacity a b err h (inl e) = rw e (zero-bit_or (status oom capacity b))
bit_or-status oom capacity a b err h (inr e) = elim (Bool-cases (leb a capacity)) [
  | inl fits ↦ rw (e, fits) (zero-bit_or (status oom capacity b))
  | inr over ↦
      let over' : leb b capacity ≡ false = ground arith in rw (e, over, over') (bit_or_same oom)
]
