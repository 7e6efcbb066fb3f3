-- ===== src/Transport/Exchange.antt =====
-- What src/transport.cpp sends, as its own `on_read` reads it.
use hanfun_io_tivity.Prelude.{
  ℕ, ◌+◌, ◌%◌, ◌<◌, true, [], ◌∷◌, ◌++◌, Option, some, ◌>>=◌, length, replicate, ◌≡◌, refl, sym, ap,
  ◌∙◌, arith, length-append, length-replicate, drop-replicate, append-nil,
}
use hanfun_io_tivity.Prelude.Bytes.{Bytes}
use hanfun_io_tivity.Transport.{
  HanFun, Message, none_msg, hello_msg, data_msg, new_message, write_hello, write_at, unpack,
  pack_hello, unpack_hello, send_hello, send, added, received, handle_message, bytes, on_read,
}
use hanfun_io_tivity.Transport.Arrays.{
  IsHanFun, write_at_lem, packed, send_message_lem, unpack-packed,
}

module _ (hf : HanFun) (is : IsHanFun hf) where
  pub on_read_filled :
      (s : Bytes)
      → 0 < length s
      → on_read hf (bytes s)
        ≡ (unpack hf (new_message none_msg []) s 0 >>= λ p. some (handle_message hf p.0))
  unfolding on_read
  on_read_filled [] h = absurd (omega arith)
  on_read_filled (c ∷ s) h = refl

  on_read-packed :
      (primitive : ℕ) (payload rest : Bytes)
      → primitive < 65536
      → length payload + 4 < 65536
      → on_read hf (bytes (packed hf is primitive payload ++ rest))
        ≡ some (
            handle_message hf
              (record { nbytes = 2 + length payload; primitive = primitive; payload = payload }))
  on_read-packed primitive payload rest p h =
      on_read_filled (packed hf is primitive payload ++ rest) (
        omega (
          arith,
          is.word_length (2 + length payload),
          length-append (packed hf is primitive payload) rest,
          length-append (hf.put_word (2 + length payload)) (hf.put_word primitive ++ payload),
        ))
      ∙ ap (λ (o : Option (Message × ℕ)). o >>= λ q. some (handle_message hf q.0))
          (unpack-packed hf is (new_message none_msg []) primitive payload rest p h)

-- What a link sends, of less than 65532 bytes, is received as it was sent, once; whatever came in the
-- same read behind it is lost.
pub on_read-send :
    (hf : HanFun) (array rest : Bytes)
    → IsHanFun hf
    → length array + 4 < 65536
    → (d : Bytes) × (send hf array ≡ some d)
      × (on_read hf (bytes (d ++ rest)) ≡ some (received array ∷ []))
unfolding send handle_message
on_read-send hf array rest is h = (
  packed hf is data_msg array,
  send_message_lem hf is data_msg array h,
  on_read-packed hf is data_msg array rest (omega arith) h,
)

write_hello_lem :
    (versions : ℕ × ℕ × ℕ) (uid : Bytes)
    → write_hello versions uid (replicate (3 + length uid) 0) 0
      ≡ some ((versions.0 ∷ versions.1 ∷ versions.2 ∷ []) ++ uid)
unfolding write_hello
write_hello_lem (core, profiles, interfaces) uid =
    let n : ℕ = length uid in
    let vs : Bytes = core ∷ profiles ∷ interfaces ∷ [] in
    ap (λ (o : Option Bytes). o >>= λ a. write_at 3 uid a)
      (write_at_lem [] vs (replicate (3 + n) 0) 0 refl
          (omega (arith, length-replicate {A = ℕ} (3 + n) 0))
        ∙ ap (λ (r : Bytes). some (vs ++ r)) (drop-replicate 3 (3 + n) n 0 (omega arith)))
    ∙ write_at_lem vs uid (replicate n 0) 3 refl (omega (arith, length-replicate {A = ℕ} n 0))
    ∙ ap (λ (r : Bytes). some (vs ++ (uid ++ r))) (drop-replicate n n 0 0 (omega arith))
    ∙ ap (λ (r : Bytes). some (vs ++ r)) (append-nil uid)

module _ (hf : HanFun) (is : IsHanFun hf) where
  -- The bytes of a greeting.
  abbrev greeting : hf.Uid → Bytes
  greeting uid = (hf.versions.0 ∷ hf.versions.1 ∷ hf.versions.2 ∷ []) ++ hf.pack_uid uid

  send_hello_lem :
      (uid : hf.Uid)
      → length (hf.pack_uid uid) + 7 < 65536
      → send_hello hf uid ≡ some (packed hf is hello_msg (greeting uid))
  unfolding send_hello pack_hello
  send_hello_lem uid h =
      let n : ℕ = length (hf.pack_uid uid) in
      let size_of : (3 + n) % 65536 ≡ 3 + n = omega arith in
      let inside : hf.available (replicate (3 + n) 0) 0 (3 + n) ≡ true =
        is.available_lem (replicate (3 + n) 0) 0 (3 + n)
        ∙ ground (arith, length-replicate {A = ℕ} (3 + n) 0) in
      rw (size_of, inside, write_hello_lem hf.versions (hf.pack_uid uid))
        (send_message_lem hf is hello_msg (greeting uid) (omega arith))

  unpack_hello-greeting : (uid : hf.Uid) → unpack_hello hf (greeting uid) 0 ≡ uid
  unfolding unpack_hello
  unpack_hello-greeting uid =
      let inside : hf.available (greeting uid) 0 3 ≡ true =
        is.available_lem (greeting uid) 0 3 ∙ ground arith in
      rw inside (ap hf.unpack_uid (sym (append-nil (hf.pack_uid uid))) ∙ is.uid_back uid [])

-- The greeting that a link sends is read by the other side as its own: the link is added there, with
-- the sender's identifier.
on_read-send_hello :
    (hf : HanFun) (uid : hf.Uid) (rest : Bytes)
    → IsHanFun hf
    → length (hf.pack_uid uid) + 7 < 65536
    → (d : Bytes) × (send_hello hf uid ≡ some d)
      × (on_read hf (bytes (d ++ rest)) ≡ some (added uid ∷ []))
unfolding send_hello handle_message
on_read-send_hello hf uid rest is h = (
  packed hf is hello_msg (greeting hf is uid),
  send_hello_lem hf is uid h,
  on_read-packed hf is hello_msg (greeting hf is uid) rest (omega arith) (omega arith)
      ∙ ap (λ u. some (added u ∷ [])) (unpack_hello-greeting hf is uid),
)
