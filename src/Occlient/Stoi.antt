-- ===== src/Occlient/Stoi.antt =====
-- `std::stoi` of base 10 and 0, as src/tools/occlient.cpp uses it.
use hanfun_io_tivity.Prelude.{
  ℕ, ◌+◌, ◌-◌, ◌*◌, ◌^◌, Bool, true, false, ◌&&◌, ◌||◌, [], ◌∷◌, Option, none, some, if◌then◌else◌,
  ◌>>=◌, ltb, leb, ◌==◌,
}
use hanfun_io_tivity.Prelude.Bytes.{Bytes}
use hanfun_io_tivity.HanClient.Number.{is_space, is_digit, atoi, cast}

-- Whether `strtol` finds a number.
unfoldable pub has_number : Bytes → Bool
has_number [] = false
has_number (c ∷ []) = is_digit c
has_number (c ∷ d ∷ s) =
    let rest = has_number (d ∷ s) in
    if is_space c then rest else if (c == b'-') || (c == b'+') then is_digit d else is_digit c

abbrev pub is_int : Bool × ℕ → Bool
is_int (true, n) = leb n (2 ^ 31)
is_int (false, n) = ltb n (2 ^ 31)

-- `size_t i = std::stoi(s)`: `none` where it throws.
unfoldable pub stoi : Bytes → Option ℕ
unfolding has_number
stoi s =
    if has_number s then (if is_int (atoi s) then some (cast (2 ^ 64) (atoi s)) else none) else none

-- A digit of base 16.
abbrev digit_value : ℕ → ℕ
digit_value c =
    if is_digit c
    then c - 48
    else if leb b'a' c && leb c b'f'
    then c - 87
    else if leb b'A' c && leb c b'F'
    then c - 55
    else 16

unfoldable digits_of : ℕ → ℕ → Bytes → ℕ
digits_of base acc [] = acc
digits_of base acc (c ∷ s) =
    if ltb (digit_value c) base then digits_of base (acc * base + digit_value c) s else acc

-- Behind a "0": base 16 behind an "x" with a digit, or else base 8.
unfoldable behind_zero : Bytes → ℕ
unfolding digits_of
behind_zero (x ∷ d ∷ s) =
    if ((x == b'x') || (x == b'X')) && ltb (digit_value d) 16
    then digits_of 16 0 (d ∷ s)
    else digits_of 8 0 (x ∷ d ∷ s)
behind_zero (x ∷ []) = digits_of 8 0 (x ∷ [])
behind_zero [] = 0

unfoldable unsigned_any : Bytes → Option ℕ
unfolding behind_zero
unsigned_any [] = none
unsigned_any (c ∷ s) =
    if c == b'0'
    then some (behind_zero s)
    else if is_digit c
    then some (digits_of 10 0 (c ∷ s))
    else none

unfoldable signed_any : Bytes → Option (Bool × ℕ)
unfolding unsigned_any
signed_any [] = none
signed_any (c ∷ s) =
    let rest = signed_any s in
    if is_space c
    then rest
    else if c == b'-'
    then (unsigned_any s >>= λ n. some (true, n))
    else if c == b'+'
    then (unsigned_any s >>= λ n. some (false, n))
    else (unsigned_any (c ∷ s) >>= λ n. some (false, n))

-- `(OCDoHandle) (intptr_t) std::stoi(s, 0, 0)`: `none` where it throws.
unfoldable pub stoi_any : Bytes → Option ℕ
unfolding signed_any
stoi_any s = signed_any s >>= λ v. if is_int v then some (cast (2 ^ 64) v) else none
