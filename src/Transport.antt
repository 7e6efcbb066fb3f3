-- ===== src/Transport.antt =====
-- src/transport.cpp: the messages between the bridge and a HAN-FUN application over TCP. HAN-FUN's
-- byte arrays, identifiers and versions are parameters. `none` is undefined behaviour: a read or a
-- write outside of an array.
pub mod Arrays
pub mod Exchange
pub mod Partial
use hanfun_io_tivity.Prelude.{
  ℕ, zero, suc, ◌+◌, ◌-◌, ◌%◌, ◌^◌, Bool, true, false, List, [], ◌∷◌, ◌++◌, Option, some, none,
  if◌then◌else◌, ◌>>=◌, ◌==◌, leb, length, take, drop, replicate,
}
use hanfun_io_tivity.Prelude.Bytes.{Bytes}

-- HAN-FUN: the two bytes that an array holds for a word and the word that is read from two bytes, the
-- versions of `HelloMessage`, and the bytes of an identifier and the identifier that is read from
-- bytes. `available` is the test of HF_SERIALIZABLE_CHECK: an array, an offset and a size.
pub record HanFun : Type 1 where
  pub put_word : ℕ → Bytes
  pub get_word : Bytes → ℕ
  pub available : Bytes → ℕ → ℕ → Bool
  pub versions : ℕ × ℕ × ℕ
  pub Uid : Type 0
  pub no_uid : Uid
  pub pack_uid : Uid → Bytes
  pub unpack_uid : Bytes → Uid

abbrev pub word : ℕ → ℕ
word n = n % 2 ^ 16

-- `Message`; its `data` is the payload.
pub record Message : Type 0 where
  pub nbytes : ℕ
  pub primitive : ℕ
  pub payload : Bytes

abbrev pub none_msg : ℕ
none_msg = 65535

abbrev pub hello_msg : ℕ
hello_msg = 257

abbrev pub data_msg : ℕ
data_msg = 513

-- The constructors; `nbytes` is not set, which nothing reads.
abbrev pub new_message : ℕ → Bytes → Message
new_message primitive payload = record { nbytes = 0; primitive = primitive; payload = payload }

-- `Message::size`.
unfoldable pub size : Message → ℕ
size m = word (4 + length m.payload)

-- A write into an array, from its start or from an offset on.
unfoldable pub overwrite : Bytes → Bytes → Option Bytes
overwrite [] array = some array
overwrite (c ∷ s) [] = none
overwrite (c ∷ s) (d ∷ array) = overwrite s array >>= λ rest. some (c ∷ rest)

unfoldable pub write_at : ℕ → Bytes → Bytes → Option Bytes
unfolding overwrite
write_at zero s array = overwrite s array
write_at (suc offset) s [] = none
write_at (suc offset) s (d ∷ array) = write_at offset s array >>= λ rest. some (d ∷ rest)

-- The writes of `Message::pack`.
unfoldable pub write_message : Bytes → Bytes → Bytes → Bytes → ℕ → Option Bytes
unfolding write_at
write_message nbytes primitive payload array offset = do
  a ← write_at offset nbytes array
  b ← write_at (offset + 2) primitive a
  write_at (offset + 4) payload b

-- The writes of `HelloMessage::pack`.
unfoldable pub write_hello : ℕ × ℕ × ℕ → Bytes → Bytes → ℕ → Option Bytes
unfolding write_at
write_hello (core, profiles, interfaces) uid array offset = do
  a ← write_at offset (core ∷ profiles ∷ interfaces ∷ []) array
  write_at (offset + 3) uid a

-- A copy of a number of bytes out of an array, from an offset on.
unfoldable pub read_at : ℕ → ℕ → Bytes → Option Bytes
read_at offset n array =
    if leb (offset + n) (length array) then some (take n (drop offset array)) else none

-- What libuv has read: an error, or bytes, which may be none.
pub data Read : Type 0 where
  failed : Read
  bytes : Bytes → Read

module _ (hf : HanFun) where
  -- `Message::pack`: the array and the number that is returned.
  unfoldable pub pack : Message → Bytes → ℕ → Option (Bytes × ℕ)
  unfolding size write_message
  pack m array offset =
      if hf.available array offset (size m)
      then (do
        a ←
            write_message (hf.put_word (word (2 + length m.payload))) (hf.put_word m.primitive)
              m.payload array offset
        some (a, 4))
      else some (array, 0)

  -- The reads of `Message::unpack`: as many bytes as `nbytes` says.
  unfoldable pub read_message : Bytes → ℕ → Option Message
  unfolding read_at
  read_message array offset = do
    a ← read_at offset 2 array
    b ← read_at (offset + 2) 2 array
    payload ← read_at (offset + 4) (word (hf.get_word a + 2 ^ 16 - 2)) array
    some (record { nbytes = hf.get_word a; primitive = hf.get_word b; payload = payload })

  -- `Message::unpack`: the message and the number that is returned.
  unfoldable pub unpack : Message → Bytes → ℕ → Option (Message × ℕ)
  unfolding read_message
  unpack m array offset =
      if hf.available array offset 4
      then (do m' ← read_message array offset; some (m', 4))
      else some (m, 0)

  -- `HelloMessage`, its versions and its identifier.
  unfoldable pub pack_hello : hf.Uid → Bytes → ℕ → Option (Bytes × ℕ)
  unfolding write_hello
  pack_hello uid array offset =
      let bytes = hf.pack_uid uid in
      if hf.available array offset (word (3 + length bytes))
      then (do a ← write_hello hf.versions bytes array offset; some (a, 3 + length bytes))
      else some (array, 0)

  -- `HelloMessage::unpack`: the identifier alone, since nothing reads the versions.
  unfoldable pub unpack_hello : Bytes → ℕ → hf.Uid
  unpack_hello array offset =
      if hf.available array offset 3 then hf.unpack_uid (drop (offset + 3) array) else hf.no_uid

  -- `send_message`: the bytes that are given to libuv.
  unfoldable pub send_message : Message → Option Bytes
  unfolding pack
  send_message m = pack m (replicate (size m) 0) 0 >>= λ p. some p.0

  -- `send_hello`.
  unfoldable pub send_hello : hf.Uid → Option Bytes
  unfolding pack_hello send_message
  send_hello uid = do
    p ← pack_hello uid (replicate (word (3 + length (hf.pack_uid uid))) 0) 0
    send_message (new_message hello_msg p.0)

  -- `Link::send`.
  unfoldable pub send : Bytes → Option Bytes
  unfolding send_message
  send array = send_message (new_message data_msg array)

  -- What is done for a link: it is added with its identifier, its data are received, or it is removed
  -- and closed.
  pub data Effect : Type 0 where
    added : hf.Uid → Effect
    received : Bytes → Effect
    removed : Effect

  -- `handle_message`.
  unfoldable pub handle_message : Message → List Effect
  unfolding unpack_hello
  handle_message m =
      if m.primitive == hello_msg
      then added (unpack_hello m.payload 0) ∷ []
      else if m.primitive == data_msg
      then received m.payload ∷ []
      else []

  -- `on_read`.
  unfoldable pub on_read : Read → Option (List Effect)
  unfolding unpack handle_message
  on_read failed = some (removed ∷ [])
  on_read (bytes []) = some []
  on_read (bytes (c ∷ s)) =
      unpack (new_message none_msg []) (c ∷ s) 0 >>= λ p. some (handle_message p.0)
