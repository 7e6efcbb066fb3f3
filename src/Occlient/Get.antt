-- ===== src/Occlient/Get.antt =====
-- The command "get" of src/tools/occlient.cpp, behind a discovery.
use hanfun_io_tivity.Prelude.{
  ℕ, suc, ◌%◌, ◌^◌, ◌<◌, true, false, ◌||◌, [], ◌∷◌, some, ltb, lt→ltb, ◌==◌, ◌≡◌, refl, ap, ◌∙◌,
  arith,
}
use hanfun_io_tivity.Prelude.Bytes.{Bytes}
use hanfun_io_tivity.HanClient.Cstring.{is_blank, is_word}
use hanfun_io_tivity.HanClient.Number.{is_space, is_digit, cast}
use hanfun_io_tivity.Plugin.{decimal_text}
use hanfun_io_tivity.Plugin.Number.{is_digits, decimal_text-digits, atoi-decimal_text}
use hanfun_io_tivity.Occlient.Stoi.{has_number, stoi}
use hanfun_io_tivity.Occlient.Words.{is_name}

has_number-digits : (c : ℕ) (s : Bytes) → is_digit c ≡ true → has_number (c ∷ s) ≡ true
unfolding has_number
has_number-digits c [] h = h
has_number-digits c (d ∷ s) h =
    let blank : is_space c ≡ false = ground arith in
    let sign : ((c == b'-') || (c == b'+')) ≡ false = ground arith in rw (blank, sign) h

has_number-decimal_text : (n : ℕ) → has_number (decimal_text (suc n) n) ≡ true
has_number-decimal_text n =
    let (c, s, e, d) = decimal_text-digits n n (omega arith) in
    let first : is_digit c ≡ true = ground arith in ap has_number e ∙ has_number-digits c s first

-- An index that was printed is read back.
pub stoi-decimal_text : (n : ℕ) → n < 2 ^ 31 → stoi (decimal_text (suc n) n) ≡ some n
unfolding stoi cast
stoi-decimal_text n h =
    let small : ltb n (2 ^ 31) ≡ true = lt→ltb n (2 ^ 31) h in
    let same : n % 2 ^ 64 ≡ n = omega arith in
    rw (has_number-decimal_text n, atoi-decimal_text n, small, same) refl

digits-name : (s : Bytes) → is_digits s ≡ true → is_word is_blank s ≡ true
digits-name [] h = refl
digits-name (c ∷ s) h = ground (arith, digits-name s)

pub decimal_text-name : (n : ℕ) → is_name (decimal_text (suc n) n) ≡ true
decimal_text-name n =
    let (c, s, e, d) = decimal_text-digits n n (omega arith) in ap is_name e ∙ digits-name (c ∷ s) d
