-- ===== src/HanClient/Cstring.antt =====
-- The C library's string functions, as han_client.cpp uses them. A C string is its bytes, without
-- the NUL; a block of memory is the list of its cells.
use hanfun_io_tivity.Prelude.{
  ℕ, ◌-◌, ◌≡◌, refl, Bool, true, false, not, ◌||◌, List, [], ◌∷◌, ◌++◌, arith, ◌==◌, if◌then◌else◌,
  length, take, replicate, all, append-nil, length-append, take-append, take-all,
}
use hanfun_io_tivity.Prelude.Bytes.{Bytes}

-- A token, unless it is empty.
unfoldable pub add_token : Bytes → List Bytes → List Bytes
add_token [] ts = ts
add_token (c ∷ t) ts = (c ∷ t) ∷ ts

-- The bytes before the first delimiter, and the tokens behind it.
unfoldable pub split : (ℕ → Bool) → Bytes → Bytes × List Bytes
unfolding add_token
split delim [] = ([], [])
split delim (c ∷ s) =
    let rest = split delim s in
    if delim c then ([], add_token rest.0 rest.1) else (c ∷ rest.0, rest.1)

-- What successive calls of `strtok` return: the non-empty runs of bytes between delimiters.
unfoldable pub tokens : (ℕ → Bool) → Bytes → List Bytes
unfolding split add_token
tokens delim s = add_token (split delim s).0 (split delim s).1

abbrev pub is_crlf : ℕ → Bool
is_crlf c = (c == 13) || (c == 10)

abbrev pub is_blank : ℕ → Bool
is_blank c = c == 32

abbrev pub is_word : (ℕ → Bool) → Bytes → Bool
is_word delim = all (λ c. not (delim c))

-- `strncpy(d, s, n)` into a block of `n` cells.
unfoldable pub strncpy : Bytes → ℕ → Bytes
strncpy s n = take n s ++ replicate (n - length s) 0

-- `0 == strncmp(prefix, s, strlen(prefix))`.
unfoldable pub has_prefix : Bytes → Bytes → Bool
has_prefix [] s = true
has_prefix (p ∷ ps) [] = false
has_prefix (p ∷ ps) (c ∷ s) = if p == c then has_prefix ps s else false

pub split-word :
    (delim : ℕ → Bool) (w s : Bytes)
    → is_word delim w ≡ true
    → split delim (w ++ s) ≡ (w ++ (split delim s).0, (split delim s).1)
unfolding split
split-word delim [] s h = refl
split-word delim (c ∷ w) s h = ground (arith, split-word delim w s)

-- A word in front of a delimiter is the first token.
pub tokens-word :
    (delim : ℕ → Bool) (w : Bytes) (c : ℕ) (s : Bytes)
    → is_word delim w ≡ true
    → delim c ≡ true
    → tokens delim (w ++ c ∷ s) ≡ add_token w (tokens delim s)
unfolding tokens
tokens-word delim w c s h d = rw (split-word delim w (c ∷ s) h, d, append-nil)

pub tokens-delim :
    (delim : ℕ → Bool) (c : ℕ) (s : Bytes) → delim c ≡ true → tokens delim (c ∷ s) ≡ tokens delim s
unfolding tokens
tokens-delim delim c s d = ground arith

pub has_prefix-append : (p s : Bytes) → has_prefix p (p ++ s) ≡ true
unfolding has_prefix
has_prefix-append [] s = refl
has_prefix-append (c ∷ p) s = ground (arith, has_prefix-append p s)

pub strncpy-exact : (s t : Bytes) → strncpy (s ++ t) (length s) ≡ s
unfolding strncpy
strncpy-exact s t =
    let e : length s - length (s ++ t) ≡ 0 = omega (arith, length-append s t) in
    rw (take-append s t, e, append-nil)

-- A block of the string's own length has no room for its NUL.
pub strncpy_all : (s : Bytes) → strncpy s (length s) ≡ s
unfolding strncpy
strncpy_all s =
    let e : length s - length s ≡ 0 = omega arith in
    rw (take-all (length s) s (omega arith), e, append-nil)
