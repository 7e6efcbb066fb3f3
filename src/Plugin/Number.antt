-- ===== src/Plugin/Number.antt =====
-- `%u` of src/samples/hanfun_bridge.cpp, and what `strtol` reads of it.
use hanfun_io_tivity.Prelude.{
  ℕ, zero, suc, ◌/◌, ◌%◌, ◌≤◌, ◌<◌, Bool, true, false, [], ◌∷◌, ◌++◌, ltb, ◌==◌, all, append-nil,
  append_assoc, ◌≡◌, refl, sym, ap, ◌∙◌, Bool-cases, inl, inr, ltb→lt, arith,
}
use hanfun_io_tivity.Prelude.Bytes.{Bytes}
use hanfun_io_tivity.HanClient.Number.{
  is_space, is_digit, digits_value, signed_value, atoi, digit, digits_value-digit,
}
use hanfun_io_tivity.Plugin.{decimal_text}

is_digit-digit : (k : ℕ) → k < 10 → is_digit (digit k) ≡ true
unfolding digit
is_digit-digit k h = ground arith

digits_value-decimal_text :
    (fuel n : ℕ) (s : Bytes)
    → n ≤ fuel
    → digits_value 0 (decimal_text (suc fuel) n ++ s) ≡ digits_value n s
unfolding decimal_text
digits_value-decimal_text zero n s h =
    let e : n ≡ 0 = omega arith in rw e (digits_value-digit 0 0 s (omega arith))
digits_value-decimal_text (suc fuel) n s h = elim (Bool-cases (ltb n 10)) [
  | inl one ↦
      rw one (digits_value-digit 0 n s (ltb→lt n 10 one) ∙ ap (λ k. digits_value k s) (omega arith))
  | inr more ↦ rw more (
      ap (digits_value 0) (append_assoc (decimal_text (suc fuel) (n / 10)) (digit (n % 10) ∷ []) s)
      ∙ digits_value-decimal_text fuel (n / 10) (digit (n % 10) ∷ s) (omega arith)
      ∙ digits_value-digit (n / 10) (n % 10) s (omega arith)
      ∙ ap (λ k. digits_value k s) (omega arith))
]

-- Text of digits.
abbrev pub is_digits : Bytes → Bool
is_digits = all is_digit

is_digits-snoc :
    (s : Bytes) (k : ℕ) → is_digits s ≡ true → k < 10 → is_digits (s ++ (digit k ∷ [])) ≡ true
is_digits-snoc [] k h lt = rw (is_digit-digit k lt) refl
is_digits-snoc (c ∷ s) k h lt = ground (arith, is_digits-snoc s k)

-- There is a digit.
pub decimal_text-digits :
    (fuel n : ℕ)
    → n ≤ fuel
    → (c : ℕ) × (s : Bytes) × (decimal_text (suc fuel) n ≡ c ∷ s) × (is_digits (c ∷ s) ≡ true)
unfolding decimal_text
decimal_text-digits zero n h =
    let e : n ≡ 0 = omega arith in (digit 0, [], rw e refl, is_digits-snoc [] 0 refl (omega arith))
decimal_text-digits (suc fuel) n h = elim (Bool-cases (ltb n 10)) [
  | inl one ↦ (digit n, [], rw one refl, is_digits-snoc [] n refl (ltb→lt n 10 one))
  | inr more ↦
      let (c, s, e, d) = decimal_text-digits fuel (n / 10) (omega arith) in
      (
        c,
        s ++ (digit (n % 10) ∷ []),
        rw more (ap (λ t. t ++ (digit (n % 10) ∷ [])) e),
        is_digits-snoc (c ∷ s) (n % 10) d (omega arith),
      )
]

atoi-digits :
    (c : ℕ) (s : Bytes) → is_digit c ≡ true → atoi (c ∷ s) ≡ (false, digits_value 0 (c ∷ s))
unfolding atoi signed_value
atoi-digits c s h =
    let blank : is_space c ≡ false = ground arith in
    let minus : (c == b'-') ≡ false = ground arith in
    let plus : (c == b'+') ≡ false = ground arith in rw (blank, minus, plus) refl

-- What is printed is read back.
pub atoi-decimal_text : (n : ℕ) → atoi (decimal_text (suc n) n) ≡ (false, n)
unfolding digits_value
atoi-decimal_text n =
    let (c, s, e, d) = decimal_text-digits n n (omega arith) in
    let first : is_digit c ≡ true = ground arith in
    let value : digits_value 0 (c ∷ s) ≡ n =
      ap (digits_value 0) (sym e ∙ sym (append-nil (decimal_text (suc n) n)))
      ∙ digits_value-decimal_text n n [] (omega arith) in
    ap atoi e ∙ atoi-digits c s first ∙ ap (λ k. (false, k)) value
