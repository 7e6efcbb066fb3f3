-- ===== src/Transport/Arrays.antt =====
-- What src/transport.cpp relies on of HAN-FUN, and the arrays of `Message` under it.
use hanfun_io_tivity.Prelude.{
  ℕ, zero, suc, ◌+◌, ◌-◌, ◌%◌, ◌≤◌, ◌<◌, Bool, true, [], ◌∷◌, ◌++◌, Option, some, none,
  if◌then◌else◌, ◌>>=◌, leb, length, take, drop, replicate, ◌≡◌, refl, sym, ap, ◌∙◌, arith,
  length-append, length-replicate, take-append, drop-append_add, drop-replicate, append-nil,
  append_assoc,
}
use hanfun_io_tivity.Prelude.Bytes.{Bytes}
use hanfun_io_tivity.Transport.{
  HanFun, Message, new_message, size, overwrite, write_at, read_at, write_message, read_message,
  pack, unpack, send_message,
}

-- HAN-FUN as it is documented: a word takes two bytes and is read back from them, the check compares
-- with the length of the array, and an identifier is read back whatever follows it.
pub record IsHanFun (hf : HanFun) : Type 0 where
  pub word_length : (n : ℕ) → length (hf.put_word n) ≡ 2
  pub word_back : (n : ℕ) → n < 65536 → hf.get_word (hf.put_word n) ≡ n
  pub available_lem :
      (array : Bytes) (offset n : ℕ) → hf.available array offset n ≡ leb (offset + n) (length array)
  pub uid_back : (uid : hf.Uid) (rest : Bytes) → hf.unpack_uid (hf.pack_uid uid ++ rest) ≡ uid

overwrite_lem :
    (s array : Bytes)
    → length s ≤ length array
    → overwrite s array ≡ some (s ++ drop (length s) array)
unfolding overwrite
overwrite_lem [] array h = refl
overwrite_lem (c ∷ s) [] h = absurd (omega arith)
overwrite_lem (c ∷ s) (d ∷ array) h =
    ap (λ (o : Option Bytes). o >>= λ rest. some (c ∷ rest)) (overwrite_lem s array (omega arith))

-- A write behind bytes that are kept.
pub write_at_lem :
    (kept s array : Bytes) (offset : ℕ)
    → offset ≡ length kept
    → length s ≤ length array
    → write_at offset s (kept ++ array) ≡ some (kept ++ (s ++ drop (length s) array))
unfolding write_at
write_at_lem [] s array zero e h = overwrite_lem s array h
write_at_lem [] s array (suc offset) e h = absurd (omega arith)
write_at_lem (c ∷ kept) s array zero e h = absurd (omega arith)
write_at_lem (c ∷ kept) s array (suc offset) e h =
    ap (λ (o : Option Bytes). o >>= λ rest. some (c ∷ rest))
      (write_at_lem kept s array offset (omega arith) h)

-- A read behind other bytes.
pub read_at_lem :
    (before s rest : Bytes) (offset n : ℕ)
    → offset ≡ length before
    → n ≡ length s
    → read_at offset n (before ++ (s ++ rest)) ≡ some s
unfolding read_at
read_at_lem before s rest offset n e k =
    let inside : leb (offset + n) (length (before ++ (s ++ rest))) ≡ true =
      ground (arith, length-append before (s ++ rest), length-append s rest) in
    ap (λ (b : Bool). if b then some (take n (drop offset (before ++ (s ++ rest)))) else none)
      inside
    ∙ ap (λ (t : Bytes). some (take n t))
        (drop-append_add before (s ++ rest) 0 offset (omega arith))
    ∙ ap (λ m. some (take m (s ++ rest))) k
    ∙ ap (λ (t : Bytes). some t) (take-append s rest)

module _ (hf : HanFun) (is : IsHanFun hf) where
  -- The bytes of a message.
  abbrev pub packed : ℕ → Bytes → Bytes
  packed primitive payload = hf.put_word (2 + length payload) ++ (hf.put_word primitive ++ payload)

  -- A word written into zeros.
  write_word :
      (kept : Bytes) (w k offset : ℕ)
      → offset ≡ length kept
      → write_at offset (hf.put_word w) (kept ++ replicate (2 + k) 0)
        ≡ some (kept ++ (hf.put_word w ++ replicate k 0))
  write_word kept w k offset e =
      write_at_lem kept (hf.put_word w) (replicate (2 + k) 0) offset e
        (omega (arith, is.word_length w, length-replicate {A = ℕ} (2 + k) 0))
      ∙ ap (λ (r : Bytes). some (kept ++ (hf.put_word w ++ r)))
          (drop-replicate (length (hf.put_word w)) (2 + k) k 0 (omega (arith, is.word_length w)))

  write_message_lem :
      (w primitive n : ℕ) (payload : Bytes)
      → n ≡ 4 + length payload
      → write_message (hf.put_word w) (hf.put_word primitive) payload (replicate n 0) 0
        ≡ some (hf.put_word w ++ (hf.put_word primitive ++ payload))
  unfolding write_message
  write_message_lem w primitive n payload e =
      let k : ℕ = length payload in
      let a : Bytes = hf.put_word w in
      let b : Bytes = hf.put_word primitive in
      let la = is.word_length w in
      let lb = is.word_length primitive in
      ap (λ (o : Option Bytes). o >>= λ x. (write_at 2 b x >>= λ y. write_at 4 payload y))
        (ap (λ m. write_at 0 a (replicate m 0)) {y = 2 + (2 + k)} (omega arith)
          ∙ write_word [] w (2 + k) 0 refl)
      ∙ ap (λ (o : Option Bytes). o >>= λ y. write_at 4 payload y)
          (write_word a primitive k 2 (omega arith))
      ∙ ap (write_at 4 payload) (sym (append_assoc a b (replicate k 0)))
      ∙ write_at_lem (a ++ b) payload (replicate k 0) 4 (omega (arith, length-append a b))
          (omega (arith, length-replicate {A = ℕ} k 0))
      ∙ ap (λ (r : Bytes). some ((a ++ b) ++ (payload ++ r))) (drop-replicate k k 0 0 (omega arith))
      ∙ ap (λ (r : Bytes). some ((a ++ b) ++ r)) (append-nil payload)
      ∙ ap (λ (r : Bytes). some r) (append_assoc a b payload)

  pub send_message_lem :
      (primitive : ℕ) (payload : Bytes)
      → length payload + 4 < 65536
      → send_message hf (new_message primitive payload) ≡ some (packed primitive payload)
  unfolding send_message pack size
  send_message_lem primitive payload h =
      let n : ℕ = length payload in
      let size_of : (4 + n) % 65536 ≡ 4 + n = omega arith in
      let size_of' : (2 + n) % 65536 ≡ 2 + n = omega arith in
      let inside : hf.available (replicate (4 + n) 0) 0 (4 + n) ≡ true =
        is.available_lem (replicate (4 + n) 0) 0 (4 + n)
        ∙ ground (arith, length-replicate {A = ℕ} (4 + n) 0) in
      rw (size_of, inside, size_of', write_message_lem (2 + n) primitive (4 + n) payload refl)

  read_message-packed :
      (primitive : ℕ) (payload rest : Bytes)
      → primitive < 65536
      → length payload + 4 < 65536
      → read_message hf (packed primitive payload ++ rest) 0
        ≡ some (record { nbytes = 2 + length payload; primitive = primitive; payload = payload })
  unfolding read_message
  read_message-packed primitive payload rest p h =
      let n : ℕ = length payload in
      let a : Bytes = hf.put_word (2 + n) in
      let b : Bytes = hf.put_word primitive in
      let la = is.word_length (2 + n) in
      let lb = is.word_length primitive in
      let wa = is.word_back (2 + n) (omega arith) in
      let wb = is.word_back primitive p in
      let array : Bytes = (a ++ (b ++ payload)) ++ rest in
      let as_a : array ≡ [] ++ (a ++ ((b ++ payload) ++ rest)) =
        append_assoc a (b ++ payload) rest in
      let as_b : array ≡ a ++ (b ++ (payload ++ rest)) =
        as_a ∙ ap (λ (r : Bytes). a ++ r) (append_assoc b payload rest) in
      let as_p : array ≡ (a ++ b) ++ (payload ++ rest) =
        as_b ∙ sym (append_assoc a b (payload ++ rest)) in
      let read_a : read_at 0 2 array ≡ some a =
        ap (read_at 0 2) as_a ∙ read_at_lem [] a ((b ++ payload) ++ rest) 0 2 refl (sym la) in
      let read_b : read_at 2 2 array ≡ some b =
        ap (read_at 2 2) as_b ∙ read_at_lem a b (payload ++ rest) 2 2 (sym la) (sym lb) in
      let size_of : (hf.get_word a + 65536 - 2) % 65536 ≡ n = omega arith in
      let read_p : read_at 4 n array ≡ some payload =
        ap (read_at 4 n) as_p
        ∙ read_at_lem (a ++ b) payload rest 4 n (omega (arith, length-append a b)) refl in
      rw (read_a, read_b, size_of, read_p, wa, wb)

  pub unpack-packed :
      (m : Message) (primitive : ℕ) (payload rest : Bytes)
      → primitive < 65536
      → length payload + 4 < 65536
      → unpack hf m (packed primitive payload ++ rest) 0
        ≡ some (record { nbytes = 2 + length payload; primitive = primitive; payload = payload }, 4)
  unfolding unpack
  unpack-packed m primitive payload rest p h =
      let a : Bytes = hf.put_word (2 + length payload) in
      let b : Bytes = hf.put_word primitive in
      let inside : hf.available (packed primitive payload ++ rest) 0 4 ≡ true =
        is.available_lem (packed primitive payload ++ rest) 0 4
        ∙ ground (
          arith,
          is.word_length (2 + length payload),
          is.word_length primitive,
          length-append (packed primitive payload) rest,
          length-append a (b ++ payload),
          length-append b payload,
        ) in
      rw (inside, read_message-packed primitive payload rest p h)
