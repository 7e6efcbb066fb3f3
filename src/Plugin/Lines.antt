-- ===== src/Plugin/Lines.antt =====
-- The line buffer of src/samples/plugin_manager.cpp.
use hanfun_io_tivity.Prelude.{
  ℕ, ◌+◌, ◌<◌, ◌≤◌, Bool, true, false, not, ◌&&◌, [], ◌∷◌, ◌++◌, Option, none, some, ◌>>=◌, ltb,
  ltb→lt, ◌==◌, length, length-append, all, append_assoc, ◌≡◌, refl, ap, ◌∙◌, arith, Bool-cases,
  inl, inr,
}
use hanfun_io_tivity.Prelude.Bytes.{Bytes, c_str, is_text, c_str-append}
use hanfun_io_tivity.HanClient.Cstring.{is_word}
use hanfun_io_tivity.HanClient.Number.{is_space}
use hanfun_io_tivity.Plugin.Manager.{Manager, line_size, handle_line, read_byte, read_all}
use hanfun_io_tivity.Plugin.Words.{IsWord}

-- No byte of it is a line end or NUL.
abbrev pub is_clean : Bytes → Bool
is_clean = all (λ c. not (c == 10) && not (c == 0))

pub is_clean-append :
    (s t : Bytes) → is_clean s ≡ true → is_clean t ≡ true → is_clean (s ++ t) ≡ true
is_clean-append [] t h k = k
is_clean-append (c ∷ s) t h k = ground (arith, is_clean-append s t)

is_text-is_clean : (s : Bytes) → is_clean s ≡ true → is_text s ≡ true
is_text-is_clean [] h = refl
is_text-is_clean (c ∷ s) h = ground (arith, is_text-is_clean s)

is_clean-words : (w : Bytes) → is_word is_space w ≡ true → is_text w ≡ true → is_clean w ≡ true
is_clean-words [] h k = refl
is_clean-words (c ∷ w) h k = ground (arith, is_clean-words w)

pub is_clean-IsWord : (w : Bytes) → IsWord w → is_clean w ≡ true
is_clean-IsWord w h = is_clean-words w h.word h.text

module _ (uuid_size : ℕ) (name : Bytes) (fork : ℕ → Option ℕ) where
  -- A byte that ends no line, where there is room for it.
  read_byte-clean :
      (c : ℕ) (m : Manager)
      → (c == 10) ≡ false
      → length m.line < line_size
      → read_byte uuid_size name fork c m ≡ some (record m { line = m.line ++ (c ∷ []) })
  unfolding read_byte
  read_byte-clean c m h room =
      let fits : ltb (length (m.line ++ (c ∷ []))) (line_size + 1) ≡ true =
        ground (arith, length-append m.line (c ∷ [])) in
      rw (fits, h) refl

  -- A line is handled at its end, and the buffer is empty again.
  pub read_all-line :
      (w s : Bytes) (m : Manager)
      → is_clean m.line ≡ true
      → is_clean w ≡ true
      → m.returned ≡ false
      → length m.line + length w + 1 < line_size
      → read_all uuid_size name fork (w ++ 10 ∷ s) m ≡ (
          handle_line uuid_size name fork (m.line ++ (w ++ 10 ∷ [])) (record m { line = [] })
          >>= read_all uuid_size name fork s)
  unfolding read_all read_byte c_str
  read_all-line [] s m l h r room =
      let fits : ltb (length (m.line ++ (10 ∷ []))) (line_size + 1) ≡ true =
        ground (arith, length-append m.line (10 ∷ [])) in
      let ends : ltb (length (m.line ++ (10 ∷ []))) line_size ≡ true =
        ground (arith, length-append m.line (10 ∷ [])) in
      rw (r, fits, ends, c_str-append m.line (10 ∷ []) (is_text-is_clean m.line l)) refl
  read_all-line (c ∷ w) s m l h r room =
      let first : (c == 10) ≡ false = ground arith in
      let rest : is_clean w ≡ true = ground arith in
      let clean : is_clean (m.line ++ (c ∷ [])) ≡ true =
        is_clean-append m.line (c ∷ []) l (ground arith) in
      let m' : Manager = record m { line = m.line ++ (c ∷ []) } in
      let shorter : length (m.line ++ (c ∷ [])) + length w + 1 < line_size =
        omega (arith, length-append m.line (c ∷ [])) in
      let one : read_all uuid_size name fork (c ∷ (w ++ 10 ∷ s)) m
          ≡ (read_byte uuid_size name fork c m >>= read_all uuid_size name fork (w ++ 10 ∷ s)) =
        rw r refl in
      one
      ∙ ap (λ (o : Option Manager). o >>= read_all uuid_size name fork (w ++ 10 ∷ s))
          (read_byte-clean c m first (omega arith))
      ∙ read_all-line w s m' clean rest r shorter
      ∙ ap
          (λ t.
            handle_line uuid_size name fork t (record m { line = [] })
            >>= read_all uuid_size name fork s)
          (append_assoc m.line (c ∷ []) (w ++ 10 ∷ []))

  overflow :
      (w s : Bytes) (m : Manager)
      → is_clean w ≡ true
      → m.returned ≡ false
      → line_size < length m.line + length w
      → length m.line ≤ line_size
      → read_all uuid_size name fork (w ++ s) m ≡ none
  unfolding read_all read_byte
  overflow [] s m h r long h' = absurd (omega arith)
  overflow (c ∷ w) s m h r long h' =
      let first : (c == 10) ≡ false = ground arith in
      let rest : is_clean w ≡ true = ground arith in
      elim (Bool-cases (ltb (length m.line) line_size)) [
        | inl room ↦
            let m' : Manager = record m { line = m.line ++ (c ∷ []) } in
            let one : read_all uuid_size name fork (c ∷ (w ++ s)) m
                ≡ (read_byte uuid_size name fork c m >>= read_all uuid_size name fork (w ++ s)) =
              rw r refl in
            one
            ∙ ap (λ (o : Option Manager). o >>= read_all uuid_size name fork (w ++ s))
                (read_byte-clean c m first (ltb→lt (length m.line) line_size room))
            ∙ overflow w s m' rest r (omega (arith, length-append m.line (c ∷ []))) (
                omega (arith, length-append m.line (c ∷ []), ltb→lt (length m.line) line_size room))
        | inr full ↦
            let over : ltb (length (m.line ++ (c ∷ []))) (line_size + 1) ≡ false =
              ground (arith, length-append m.line (c ∷ [])) in
            rw (r, over) refl
      ]

  -- A line of more bytes than the buffer has is written behind it, whatever follows.
  read_all-overflow :
      (w s : Bytes) (m : Manager)
      → m.line ≡ []
      → is_clean w ≡ true
      → m.returned ≡ false
      → line_size < length w
      → read_all uuid_size name fork (w ++ s) m ≡ none
  read_all-overflow w s m e h r long =
      let empty : length m.line ≡ 0 = ap length e in overflow w s m h r (omega arith) (omega arith)
