-- ===== src/Occlient/Json.antt =====
-- Both `ConvertJSONToCBOR` of src/tools/occlient.cpp; cJSON and TinyCBOR are parameters.
pub mod Encoded
pub mod Sizes
use hanfun_io_tivity.Prelude.{
  ℕ, zero, suc, Bool, true, false, List, [], ◌∷◌, Option, some, none, if◌then◌else◌, ◌==◌, take,
}
use hanfun_io_tivity.Prelude.Bytes.{Bytes}

mutual
  -- `cJSON`: its key, if any, and its value.
  pub data Json : Type 0 where
    json : Option Bytes → Value → Json

  -- By `type`; a number is the bits of its double.
  pub data Value : Type 0 where
    boolean : Bool → Value
    null : Value
    number : ℕ → Value
    string : Bytes → Value
    array : Jsons → Value
    object : Jsons → Value
    other : Value

  pub data Jsons : Type 0 where
    end : Jsons
    item : Json → Jsons → Jsons

-- `cJSON_GetArraySize`.
abbrev pub array_size : Jsons → ℕ
array_size end = 0
array_size (item j js) = suc (array_size js)

-- TinyCBOR: a call gives the encoder and an error, 0 for none; a container is opened with an encoder
-- of its own, beside the one that it stands in, and closed with both.
pub record Cbor : Type 1 where
  pub Encoder : Type 0
  pub init : ℕ → Encoder
  pub text : Bytes → Encoder → Encoder × ℕ
  pub boolean : Bool → Encoder → Encoder × ℕ
  pub null : Encoder → Encoder × ℕ
  pub double : ℕ → Encoder → Encoder × ℕ
  pub create_array : ℕ → Encoder → Encoder × Encoder × ℕ
  pub create_map : ℕ → Encoder → Encoder × Encoder × ℕ
  pub close_container : Encoder → Encoder → Encoder × ℕ
  pub buffer_size : Encoder → ℕ
  pub content : Encoder → Bytes

module _ (cb : Cbor) where
  -- The key is encoded and its error kept.
  unfoldable pub convert_key : Option Bytes → cb.Encoder → cb.Encoder × ℕ
  convert_key none e = (e, 0)
  convert_key (some key) e = cb.text key e

  -- The end of a container: it is closed unless a child failed.
  unfoldable pub close : cb.Encoder → cb.Encoder × ℕ → cb.Encoder × ℕ
  close e (child, err) =
      let closed = cb.close_container e child in if err == 0 then closed else (e, err)

  unfoldable mutual
    unfolding convert_key close

    pub convert : Json → cb.Encoder → cb.Encoder × ℕ
    convert (json key v) e = convert_value v (convert_key key e)

    -- The `switch`: the error of the key is overwritten.
    pub convert_value : Value → cb.Encoder × ℕ → cb.Encoder × ℕ
    convert_value (boolean b) (e, err) = cb.boolean b e
    convert_value null (e, err) = cb.null e
    convert_value (number d) (e, err) = cb.double d e
    convert_value (string s) (e, err) = cb.text s e
    convert_value (array js) (e, err) =
        let (e', child, opened) = cb.create_array (array_size js) e in
        close e' (convert_children js (child, opened))
    convert_value (object js) (e, err) =
        let (e', child, opened) = cb.create_map (array_size js) e in
        close e' (convert_children js (child, opened))
    convert_value other (e, err) = (e, err)

    -- The loop over the children, up to the first error.
    pub convert_children : Jsons → cb.Encoder × ℕ → cb.Encoder × ℕ
    convert_children end (child, err) = (child, err)
    convert_children (item j js) (child, err) =
        let rest = convert_children js (convert j child) in if err == 0 then rest else (child, err)

  -- The bytes of the buffer that are used.
  unfoldable pub finish : cb.Encoder × ℕ → Bytes
  finish (e, err) = if err == 0 then take (cb.buffer_size e) (cb.content e) else []

  -- Without JSON nothing is encoded.
  abbrev pub convert_parsed : ℕ → Option Json → Bytes
  convert_parsed size none = finish (cb.init size, 0)
  convert_parsed size (some j) = finish (convert j (cb.init size))

  -- Of a text and the size of the buffer.
  unfoldable pub convert_json : (Bytes → Option Json) → ℕ → Bytes → Bytes
  convert_json parse size text = convert_parsed size (parse text)
