-- ===== src/Introspection/Document.antt =====
-- `Introspect` of src/introspection.cpp, and `SetIntrospectionData` of src/bridge.cpp, which calls it
-- with a larger buffer until the document fits. TinyCBOR, its errors, the allocation and the persistent
-- storage are parameters; an error is the 64 bits of an `int64_t`.
pub mod Errors
pub mod Encoded
pub mod Pieces
pub mod Rounds
use Prim.Native.Nat.{bit_or}
use hanfun_io_tivity.Prelude.{
  ℕ, zero, suc, ◌+◌, Bool, true, false, not, ◌&&◌, ◌||◌, List, [], ◌∷◌, Option, some, none,
  if◌then◌else◌, ◌==◌, take,
}
use hanfun_io_tivity.Prelude.Bytes.{Bytes, codes}

-- TinyCBOR: a container is opened with a new encoder, beside the one that it stands in, and closed with
-- both; `content` is the buffer.
pub record Cbor : Type 1 where
  pub Encoder : Type 0
  pub init : ℕ → Encoder
  pub text : Bytes → Encoder → Encoder × ℕ
  pub create_map : Encoder → Encoder × Encoder × ℕ
  pub create_array : ℕ → Encoder → Encoder × Encoder × ℕ
  pub close_container : Encoder → Encoder → Encoder × ℕ
  pub extra_bytes_needed : Encoder → ℕ
  pub buffer_size : Encoder → ℕ
  pub content : Encoder → Bytes
  pub out_of_memory : ℕ
  pub internal_error : ℕ

module _ (cb : Cbor) where
  -- An encoder and the errors so far.
  abbrev pub State : Type 0
  State = cb.Encoder × ℕ

  -- VERIFY_CBOR goes to `exit`.
  abbrev pub is_fatal : ℕ → Bool
  is_fatal err = not (err == 0) && not (err == cb.out_of_memory)

  -- `err |= call; VERIFY_CBOR(err);`, which is skipped behind a fatal error.
  unfoldable pub then_call : (cb.Encoder → State) → State → State
  then_call call (e, err) =
      let (e', err') = call e in if is_fatal err then (e, err) else (e', bit_or err err')

  -- A container that is created, filled and closed.
  unfoldable pub container :
      (cb.Encoder → cb.Encoder × cb.Encoder × ℕ) → (State → State) → State → State
  container create fill (e, err) =
      let (e', child, opened) = create e in
      let err' = bit_or err opened in
      let (child', err'') = fill (child, err') in
      let (e'', closed) = cb.close_container e' child' in
      if is_fatal err
      then (e, err)
      else if is_fatal err'
      then (e', err')
      else if is_fatal err''
      then (e', err'')
      else (e'', bit_or err'' closed)

  -- A map that is left open where the number of resources is not known.
  unfoldable pub unclosed : State → State
  unclosed (e, err) =
      let (e', child, opened) = cb.create_map e in
      let err' = bit_or err opened in
      if is_fatal err
      then (e, err)
      else if is_fatal err'
      then (e', err')
      else (e', bit_or err' cb.internal_error)

  -- `Pair`.
  unfoldable pub pair : Bytes → Bytes → cb.Encoder → State
  unfolding then_call
  pair key value e = then_call (cb.text value) (then_call (cb.text key) (e, 0))

  -- `Info`.
  unfoldable pub info : Bytes → Bytes → cb.Encoder → State
  unfolding then_call container pair
  info title version e =
      container cb.create_map
        (λ s. then_call (pair (codes "version") version) (then_call (pair (codes "title") title) s))
        (then_call (cb.text (codes "info")) (e, 0))

  -- `Schemes`, `Consumes` and `Produces`.
  unfoldable pub one_text : Bytes → Bytes → cb.Encoder → State
  unfolding then_call container
  one_text key value e =
      container (cb.create_array 1) (λ s. then_call (cb.text value) s)
        (then_call (cb.text key) (e, 0))

  -- `Paths` and `Definitions`: an empty map, if the number of resources is known.
  unfoldable pub empty_map : Bool → Bytes → cb.Encoder → State
  unfolding then_call container unclosed
  empty_map counted key e =
      let s = then_call (cb.text key) (e, 0) in
      if counted then container cb.create_map (λ child. child) s else unclosed s

  -- What stands in the map of `Introspect`; both counts of the resources give the same result.
  unfoldable pub fill_map : Bytes → Bytes → Bool → State → State
  unfolding then_call pair info one_text empty_map
  fill_map title version counted s0 =
      let s1 = then_call (pair (codes "swagger") (codes "2.0")) s0 in
      let s2 = then_call (info title version) s1 in
      let s3 = then_call (one_text (codes "schemes") (codes "http")) s2 in
      let s4 = then_call (one_text (codes "consumes") (codes "application/json")) s3 in
      let s5 = then_call (one_text (codes "produces") (codes "application/json")) s4 in
      let s6 = then_call (empty_map counted (codes "paths")) s5 in
      then_call (empty_map counted (codes "definitions")) s6

  -- The end of `Introspect`: the buffer, the size and the error.
  unfoldable pub finish : ℕ → State → Bytes × ℕ × ℕ
  finish out_size (e, err) =
      let size =
        if err == cb.out_of_memory
        then out_size + cb.extra_bytes_needed e
        else if err == 0
        then cb.buffer_size e
        else out_size in
      (cb.content e, size, err)

  -- `Introspect`.
  unfoldable pub introspect : Bytes → Bytes → Bool → ℕ → Bytes × ℕ × ℕ
  unfolding container fill_map finish
  introspect title version counted out_size =
      finish out_size
        (container cb.create_map (fill_map title version counted) (cb.init out_size, 0))

  -- The loop of `SetIntrospectionData`, with as many rounds as there is fuel: the buffer that is
  -- written and how many of its bytes; the inner `none` is that no buffer could be allocated.
  unfoldable pub encode : ℕ → Bytes → Bytes → Bool → (ℕ → Bool) → ℕ → Option (Option (Bytes × ℕ))
  encode zero title version counted allocated cur_size = none
  encode (suc fuel) title version counted allocated cur_size =
      let (out, size, err) = introspect title version counted cur_size in
      let again = encode fuel title version counted allocated size in
      if allocated cur_size
      then (if err == cb.out_of_memory then again else some (some (out, size)))
      else some none

  -- What `write` is given.
  abbrev pub with_file : Bool → Option (Option (Bytes × ℕ)) → Option (Option Bytes)
  with_file opened none = none
  with_file opened (some none) = some none
  with_file opened (some (some (out, size))) = some (if opened then some (take size out) else none)

  -- `SetIntrospectionData`: what `write` is given, if the file can be opened.
  unfoldable pub set_introspection_data :
      ℕ → Bytes → Bytes → Bool → (ℕ → Bool) → Bool → Option (Option Bytes)
  set_introspection_data fuel title version counted allocated opened =
      with_file opened (encode fuel title version counted allocated 1024)
