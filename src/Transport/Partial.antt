-- ===== src/Transport/Partial.antt =====
-- What `on_read` of src/transport.cpp makes of a part of a message.
use hanfun_io_tivity.Prelude.{
  ℕ, ◌+◌, ◌-◌, ◌%◌, ◌≤◌, ◌<◌, Bool, true, false, [], ◌++◌, Option, some, none, if◌then◌else◌, ◌>>=◌,
  leb, length, take, ◌≡◌, refl, sym, ap, ◌∙◌, subst, arith, length-append, length-take,
  take-append_add,
}
use hanfun_io_tivity.Prelude.Bytes.{Bytes}
use hanfun_io_tivity.Transport.{
  HanFun, Message, none_msg, data_msg, new_message, size, read_at, read_message, unpack, send,
  handle_message, bytes, on_read,
}
use hanfun_io_tivity.Transport.Arrays.{IsHanFun, read_at_lem, packed, send_message_lem}
use hanfun_io_tivity.Transport.Exchange.{on_read_filled}

if-cong :
    {A : Type 0} (b : Bool) (x y z : A)
    → (b ≡ true → x ≡ y)
    → (if b then x else z) ≡ (if b then y else z)
if-cong true x y z f = f refl
if-cong false x y z f = refl

some-injective : {s t : Bytes} → some s ≡ some t → s ≡ t
some-injective e = cc

read_at_short :
    (array : Bytes) (offset n : ℕ) → length array < offset + n → read_at offset n array ≡ none
unfolding read_at
read_at_short array offset n h =
    let outside : leb (offset + n) (length array) ≡ false = ground arith in rw outside

-- A part of a message that is longer than its words.
module _ (hf : HanFun) (is : IsHanFun hf) (primitive : ℕ) (payload : Bytes) (k : ℕ) where
  length-packed : length (packed hf is primitive payload) ≡ 4 + length payload
  length-packed = omega (
    arith,
    is.word_length (2 + length payload),
    is.word_length primitive,
    length-append (hf.put_word (2 + length payload)) (hf.put_word primitive ++ payload),
    length-append (hf.put_word primitive) payload,
  )

  take-packed :
      4 ≤ k
      → take k (packed hf is primitive payload)
        ≡ hf.put_word (2 + length payload) ++ (hf.put_word primitive ++ take (k - 4) payload)
  take-packed h =
      let a : Bytes = hf.put_word (2 + length payload) in
      let b : Bytes = hf.put_word primitive in
      let la = is.word_length (2 + length payload) in
      let lb = is.word_length primitive in
      take-append_add a (b ++ payload) (k - 2) k (omega arith)
      ∙ ap (λ (r : Bytes). a ++ r) (take-append_add b payload (k - 4) (k - 2) (omega arith))

  read_message-short :
      4 ≤ k
      → k < 4 + length payload
      → length payload + 4 < 65536
      → read_message hf (take k (packed hf is primitive payload)) 0 ≡ none
  unfolding read_message
  read_message-short h q size =
      let n : ℕ = length payload in
      let a : Bytes = hf.put_word (2 + n) in
      let b : Bytes = hf.put_word primitive in
      let rest : Bytes = take (k - 4) payload in
      let la = is.word_length (2 + n) in
      let lb = is.word_length primitive in
      let lr : length rest ≡ k - 4 = length-take (k - 4) payload (omega arith) in
      let wa = is.word_back (2 + n) (omega arith) in
      let array : Bytes = a ++ (b ++ rest) in
      let read_a : read_at 0 2 array ≡ some a = read_at_lem [] a (b ++ rest) 0 2 refl (sym la) in
      let read_b : read_at 2 2 array ≡ some b = read_at_lem a b rest 2 2 (sym la) (sym lb) in
      let size_of : (hf.get_word a + 65536 - 2) % 65536 ≡ n = omega arith in
      let beyond : read_at 4 n array ≡ none =
        read_at_short array 4 n
          (omega (arith, length-append a (b ++ rest), length-append b rest)) in
      ap (λ (s : Bytes). read_message hf s 0) (take-packed h) ∙ rw (read_a, read_b, size_of, beyond)

  unpack-short :
      (m : Message)
      → 0 < k
      → k < 4 + length payload
      → length payload + 4 < 65536
      → unpack hf m (take k (packed hf is primitive payload)) 0
        ≡ (if leb 4 k then none else some (m, 0))
  unfolding unpack
  unpack-short m p q size =
      let part : Bytes = take k (packed hf is primitive payload) in
      let whole = length-packed in
      let lp : length part ≡ k = length-take k (packed hf is primitive payload) (omega arith) in
      let test : hf.available part 0 4 ≡ leb 4 k = is.available_lem part 0 4 ∙ ap (leb 4) lp in
      ap (λ (b : Bool). if b then (read_message hf part 0 >>= λ m'. some (m', 4)) else some (m, 0))
        test
      ∙ if-cong (leb 4 k) (read_message hf part 0 >>= λ m'. some (m', 4)) none (some (m, 0)) λ h.
        ap (λ (o : Option Message). o >>= λ m'. some (m', 4))
          (read_message-short (ground arith) q size)

-- The first part of what a link sends, when it comes alone: a part of less than four bytes is
-- forgotten, and a longer one, short of the whole, is read beyond its end.
pub on_read-take :
    (hf : HanFun) (array d : Bytes) (k : ℕ)
    → IsHanFun hf
    → length array + 4 < 65536
    → send hf array ≡ some d
    → 0 < k
    → k < length d
    → on_read hf (bytes (take k d)) ≡ (if leb 4 k then none else some [])
unfolding send handle_message
on_read-take hf array d k is h e p q =
    let m : Message = new_message none_msg [] in
    let is_d : packed hf is data_msg array ≡ d =
      some-injective (sym (send_message_lem hf is data_msg array h) ∙ e) in
    let whole : length (packed hf is data_msg array) ≡ 4 + length array =
      length-packed hf is data_msg array k in
    let same : length (packed hf is data_msg array) ≡ length d =
      ap (λ (s : Bytes). length s) is_d in
    let lp = length-take k (packed hf is data_msg array) (omega arith) in
    subst (λ (d' : Bytes). on_read hf (bytes (take k d')) ≡ (if leb 4 k then none else some []))
      is_d
      (on_read_filled hf is (take k (packed hf is data_msg array)) (omega arith)
        ∙ ap (λ (o : Option (Message × ℕ)). o >>= λ q'. some (handle_message hf q'.0))
            (unpack-short hf is data_msg array k m p (omega arith) h)
        ∙ after (leb 4 k))
  where
    first : Bool → Option (Message × ℕ)
    first b = if b then none else some (new_message none_msg [], 0)

    after :
        (b : Bool)
        → (first b >>= λ q'. some (handle_message hf q'.0)) ≡ (if b then none else some [])
    after true = refl
    after false = refl
