-- ===== src/Resource/Scan.antt =====
-- `sscanf` of the format "%10s://%48s:%d", as `ParseEndpoint` of src/resource.cpp calls it. `int` is not
-- bounded in the reading of the port.
use hanfun_io_tivity.Prelude.{
  ℕ, zero, suc, Bool, true, false, not, ◌&&◌, [], ◌∷◌, Option, none, some, ◌==◌, if◌then◌else◌,
  ◌>>=◌, all,
}
use hanfun_io_tivity.Prelude.Bytes.{Bytes, codes}
use hanfun_io_tivity.HanClient.Number.{is_space, is_digit, signed_value}

-- `sscanf`: white space before a conversion.
unfoldable pub skip_space : Bytes → Bytes
skip_space [] = []
skip_space (c ∷ s) = let rest = skip_space s in if is_space c then rest else c ∷ s

-- `%10s`: bytes up to white space, at most so many, and what follows them.
unfoldable pub scan_word : ℕ → Bytes → Bytes × Bytes
scan_word zero s = ([], s)
scan_word (suc n) [] = ([], [])
scan_word (suc n) (c ∷ s) =
    let (word, rest) = scan_word n s in if is_space c then ([], c ∷ s) else (c ∷ word, rest)

-- Bytes of the format that stand for themselves.
unfoldable pub scan_literal : Bytes → Bytes → Option Bytes
scan_literal [] s = some s
scan_literal (p ∷ ps) [] = none
scan_literal (p ∷ ps) (c ∷ s) = let rest = scan_literal ps s in if p == c then rest else none

abbrev is_number : Bytes → Bool
is_number [] = false
is_number (c ∷ []) = is_digit c
is_number (c ∷ c' ∷ s) =
    if is_digit c then true else not (all (λ x. not (x == c)) (codes "+-")) && is_digit c'

-- `%d`.
unfoldable scan_int : Bytes → Option (Bool × ℕ)
unfolding skip_space signed_value
scan_int s = if is_number (skip_space s) then some (signed_value (skip_space s)) else none

-- The conversions that were made; the last one only where the others were.
pub record Scan : Type 0 where
  pub tps : Option Bytes
  pub addr : Option Bytes
  pub port : Option (Bool × ℕ)

abbrev pub non_empty : Bytes → Option Bytes
non_empty [] = none
non_empty (c ∷ s) = some (c ∷ s)

-- What follows the address.
unfoldable pub scan_port : Bytes → Bytes → Bytes → Scan
unfolding scan_literal scan_int
scan_port tps addr s = record {
  tps = some tps;
  addr = some addr;
  port = scan_literal (codes ":") s >>= scan_int;
}

-- What follows the scheme.
unfoldable pub scan_addr : Bytes → Option Bytes → Scan
unfolding scan_word skip_space scan_port
scan_addr tps none = record { tps = some tps; addr = none; port = none }
scan_addr tps (some s) =
    let (addr, rest) = scan_word 48 (skip_space s) in
    elim (non_empty addr) [
      | none ↦ record { tps = some tps; addr = none; port = none }
      | some addr' ↦ scan_port tps addr' rest
    ]

-- The first conversion made, and what follows.
unfoldable pub scan_scheme : Bytes × Bytes → Scan
unfolding scan_literal scan_addr
scan_scheme (tps, rest) = elim (non_empty tps) [
  | none ↦ record { tps = none; addr = none; port = none }
  | some tps' ↦ scan_addr tps' (scan_literal (codes "://") rest)
]

-- `sscanf(s, "%10s://%48s:%d", tps, addr, &port)`.
unfoldable pub scan : Bytes → Scan
unfolding scan_word skip_space scan_scheme
scan s = scan_scheme (scan_word 10 (skip_space s))
