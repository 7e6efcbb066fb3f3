-- ===== src/HanClient/Number.antt =====
-- `atoi`, the casts of its result, and `sprintf("%d")` of a `uint8_t`, as han_client.cpp uses them.
-- `int` is not bounded: a text of more than nine digits is outside what `atoi` defines.
use hanfun_io_tivity.Prelude.{
  ℕ, ◌+◌, ◌-◌, ◌*◌, ◌/◌, ◌%◌, ◌<◌, ◌≡◌, Bool, true, false, ◌&&◌, ◌||◌, [], ◌∷◌, ◌++◌, arith, leb,
  ltb, ◌==◌, if◌then◌else◌, Bool-cases, inl, inr, ltb→lt,
}
use hanfun_io_tivity.Prelude.Bytes.{Bytes}

abbrev pub is_space : ℕ → Bool
is_space c = (c == 32) || (leb 9 c && leb c 13)

abbrev pub is_digit : ℕ → Bool
is_digit c = leb b'0' c && leb c b'9'

unfoldable pub digits_value : ℕ → Bytes → ℕ
digits_value acc [] = acc
digits_value acc (c ∷ s) = if is_digit c then digits_value (acc * 10 + (c - 48)) s else acc

-- The sign, true for a minus, and the digits behind it.
unfoldable pub signed_value : Bytes → Bool × ℕ
unfolding digits_value
signed_value [] = (false, 0)
signed_value (c ∷ s) =
    if c == b'-'
    then (true, digits_value 0 s)
    else if c == b'+'
    then (false, digits_value 0 s)
    else (false, digits_value 0 (c ∷ s))

unfoldable pub atoi : Bytes → Bool × ℕ
unfolding signed_value
atoi [] = (false, 0)
atoi (c ∷ s) = let rest = atoi s in if is_space c then rest else signed_value (c ∷ s)

-- The cast of an `int` to an unsigned type of `m` values.
unfoldable pub cast : ℕ → Bool × ℕ → ℕ
cast m (true, n) = (m - n % m) % m
cast m (false, n) = n % m

unfoldable pub digit : ℕ → ℕ
digit n = 48 + n

-- `sprintf("%d", n)` for n < 256.
unfoldable pub decimal : ℕ → Bytes
unfolding digit
decimal n =
    if ltb n 10
    then digit n ∷ []
    else if ltb n 100
    then digit (n / 10) ∷ digit (n % 10) ∷ []
    else digit (n / 100) ∷ digit (n / 10 % 10) ∷ digit (n % 10) ∷ []

pub digits_value-digit :
    (acc k : ℕ) (s : Bytes)
    → k < 10
    → digits_value acc (digit k ∷ s) ≡ digits_value (acc * 10 + k) s
unfolding digits_value digit
digits_value-digit acc k s h =
    let e : 48 + k - 48 ≡ k = omega arith in
    let t : is_digit (48 + k) ≡ true = ground arith in rw (t, e)

digits_value-stop : (acc c : ℕ) (s : Bytes) → is_digit c ≡ false → digits_value acc (c ∷ s) ≡ acc
unfolding digits_value
digits_value-stop acc c s h = rw h

atoi-digit : (k : ℕ) (s : Bytes) → k < 10 → atoi (digit k ∷ s) ≡ (false, digits_value k s)
unfolding atoi
atoi-digit k s h =
    let blank : is_space (digit k) ≡ false = unfold digit in ground arith in
    let minus : (digit k == b'-') ≡ false = unfold digit in ground arith in
    let plus : (digit k == b'+') ≡ false = unfold digit in ground arith in
    let e : 0 * 10 + k ≡ k = omega arith in rw (blank, minus, plus, digits_value-digit 0 k s h, e)

-- What is printed reads back, whatever follows that is no digit.
atoi-decimal :
    (n c : ℕ) (s : Bytes) → n < 256 → is_digit c ≡ false → cast 256 (atoi (decimal n ++ c ∷ s)) ≡ n
unfolding decimal cast
atoi-decimal n c s h d = elim (Bool-cases (ltb n 10)) [
  | inl one ↦
      rw (one, atoi-digit n (c ∷ s) (ltb→lt n 10 one), digits_value-stop n c s d) (omega arith)
  | inr more ↦ elim (Bool-cases (ltb n 100)) [
    | inl two ↦
        let tens : n / 10 < 10 = omega (arith, ltb→lt n 100 two) in
        rw
          (
            more,
            two,
            atoi-digit (n / 10) (digit (n % 10) ∷ c ∷ s) tens,
            digits_value-digit (n / 10) (n % 10) (c ∷ s) (omega arith),
            digits_value-stop (n / 10 * 10 + n % 10) c s d,
          )
          (omega arith)
    | inr three ↦
        rw
          (
            more,
            three,
            atoi-digit (n / 100) (digit (n / 10 % 10) ∷ digit (n % 10) ∷ c ∷ s) (omega arith),
            digits_value-digit (n / 100) (n / 10 % 10) (digit (n % 10) ∷ c ∷ s) (omega arith),
            digits_value-digit (n / 100 * 10 + n / 10 % 10) (n % 10) (c ∷ s) (omega arith),
            digits_value-stop ((n / 100 * 10 + n / 10 % 10) * 10 + n % 10) c s d,
          )
          (omega arith)
  ]
]
