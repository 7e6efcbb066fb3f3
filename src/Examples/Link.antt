-- ===== src/Examples/Link.antt =====
-- A link to an application.
use hanfun_io_tivity.Prelude.{
  ℕ, ◌+◌, ◌*◌, ◌/◌, ◌%◌, ◌≡◌, refl, [], ◌∷◌, ◌++◌, some, none, arith, length, leb,
}
use hanfun_io_tivity.Prelude.Bytes.{Bytes}
use hanfun_io_tivity.Transport.{HanFun, send, on_read, bytes, received}
use hanfun_io_tivity.Transport.Arrays.{IsHanFun}
use hanfun_io_tivity.Transport.Exchange.{on_read-send}
use hanfun_io_tivity.Transport.Partial.{on_read-take}

abbrev word_of : Bytes → ℕ
word_of [] = 0
word_of (a ∷ []) = a
word_of (a ∷ b ∷ s) = a * 256 + b

abbrev first : Bytes → ℕ
first [] = 0
first (a ∷ s) = a

-- Words with the high byte first, and identifiers of one byte.
abbrev library : HanFun
library = record {
  put_word = λ n. n / 256 ∷ n % 256 ∷ [];
  get_word = word_of;
  available = λ array offset n. leb (offset + n) (length array);
  versions = (1, 2, 3);
  Uid = ℕ;
  no_uid = 0;
  pack_uid = λ u. u ∷ [];
  unpack_uid = first;
}

library-IsHanFun : IsHanFun library
library-IsHanFun = record {
  word_length = λ n. refl;
  word_back = λ n h. omega arith;
  available_lem = λ array offset n. refl;
  uid_back = λ u rest. refl;
}

on_read-send_example :
    (d : Bytes) × (send library (7 ∷ 8 ∷ []) ≡ some d)
    × (on_read library (bytes (d ++ (9 ∷ []))) ≡ some (received (7 ∷ 8 ∷ []) ∷ []))
on_read-send_example = on_read-send library (7 ∷ 8 ∷ []) (9 ∷ []) library-IsHanFun (omega arith)

sent : send library (7 ∷ 8 ∷ []) ≡ some (0 ∷ 4 ∷ 2 ∷ 1 ∷ 7 ∷ 8 ∷ [])
unfolding send
sent = refl

on_read-take_example : on_read library (bytes (0 ∷ 4 ∷ 2 ∷ 1 ∷ 7 ∷ [])) ≡ none
on_read-take_example =
    on_read-take library (7 ∷ 8 ∷ []) (0 ∷ 4 ∷ 2 ∷ 1 ∷ 7 ∷ 8 ∷ []) 5 library-IsHanFun (omega arith)
      sent (omega arith) (omega arith)
