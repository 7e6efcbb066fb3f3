-- ===== src/Examples/Introspected.antt =====
-- Schemas and an introspection document.
use hanfun_io_tivity.Prelude.{
  inl, inr, ℕ, ◌+◌, ◌-◌, ◌^◌, Bool, true, false, not, [], ◌∷◌, ◌++◌, some, none, ◌==◌, leb, length,
  take-all, ◌≡◌, refl, arith,
}
use hanfun_io_tivity.Prelude.Bytes.{Bytes, codes, bytes_eq}
use hanfun_io_tivity.Introspection.{
  int, string, byte_string, Payload, no_values, value, plain, arr, objs, Rep, empty, field, text,
  flag, texts, object, set,
}
use hanfun_io_tivity.Introspection.Schema.{set_properties}
use hanfun_io_tivity.Introspection.Schema.Description.{describe, typed}
use hanfun_io_tivity.Introspection.Schema.Refinement.{set_properties-describe}
use hanfun_io_tivity.Introspection.Schema.Success.{is_readable, always, set_properties-always}
use hanfun_io_tivity.Introspection.Schema.Owners.{FailsAdopted, Adopted, set_properties-two_owners}
use hanfun_io_tivity.Introspection.Definition.{introspect_definition}
use hanfun_io_tivity.Introspection.Definition.Interfaces.{
  definition_of, introspect_definition-definition_of,
}
use hanfun_io_tivity.Introspection.Path.{introspect_path}
use hanfun_io_tivity.Introspection.Path.Null.{introspect_path-IsNull}
use hanfun_io_tivity.Introspection.Document.{Cbor, set_introspection_data}
use hanfun_io_tivity.Introspection.Document.Errors.{status}
use hanfun_io_tivity.Introspection.Document.Encoded.{IsCbor}
use hanfun_io_tivity.Introspection.Document.Pieces.{document}
use hanfun_io_tivity.Introspection.Document.Rounds.{set_introspection_data-document}

-- A number, a list of two objects with a text each, and a byte string.
abbrev lamp_state : Payload
lamp_state = value (codes "power") (plain int) (
    value (codes "rooms")
      (arr (2 ∷ 0 ∷ 0 ∷ []) (objs (value (codes "name") (plain string) no_values)))
      (value (codes "key") (plain byte_string) no_values))

abbrev lamp_schema : Rep
lamp_schema = field (codes "power") (object (typed (codes "integer"))) (
    field (codes "rooms")
      (object (
        field (codes "items")
          (object (
            field (codes "properties")
              (object (field (codes "name") (object (typed (codes "string"))) empty))
              (typed (codes "object"))))
          (typed (codes "array"))))
      (field (codes "key")
        (object (
          field (codes "media")
            (object (field (codes "binaryEncoding") (text (codes "base64")) empty))
            (typed (codes "string"))))
        empty))

set_properties-describe_example : describe empty lamp_state ≡ some lamp_schema
unfolding set_properties set bytes_eq
set_properties-describe_example =
    set_properties-describe 8 always lamp_state empty lamp_schema 0 20 refl

set_properties-always_example :
    (m : ℕ) × (set_properties 8 always empty lamp_state 0 ≡ some (describe empty lamp_state, m))
unfolding is_readable
set_properties-always_example = set_properties-always 8 lamp_state empty 0 refl

-- The eighth call fails.
abbrev but_eighth : ℕ → Bool
but_eighth n = not (n == 7)

abbrev lamp_key : Payload
lamp_key = value (codes "power") (plain int) (value (codes "key") (plain byte_string) lamp_state)

lamp_key-FailsAdopted : FailsAdopted 8 but_eighth lamp_key 0
unfolding FailsAdopted Adopted set_properties set
lamp_key-FailsAdopted = (
  refl,
  inr (
    set (codes "type") (text (codes "integer")) empty,
    2,
    refl,
    refl,
    (refl, inl (7, (refl, refl, refl, refl), refl)),
  ),
)

set_properties-two_owners_example : set_properties 8 but_eighth empty lamp_key 0 ≡ none
set_properties-two_owners_example =
    set_properties-two_owners 8 but_eighth lamp_key empty 0 lamp_key-FailsAdopted

abbrev lamp_definition : Rep
lamp_definition = field (codes "type") (text (codes "object")) (
    field (codes "properties")
      (object (
        field (codes "rt")
          (object (
            field (codes "readOnly") (flag true) (
              field (codes "type") (text (codes "array"))
                (field (codes "default") (texts (codes "oic.r.switch" ∷ [])) empty))))
          lamp_schema))
      empty)

introspect_definition-definition_of_example :
    definition_of (some lamp_state) (codes "oic.r.switch") ≡ some lamp_definition
unfolding introspect_definition set_properties set bytes_eq
introspect_definition-definition_of_example =
    introspect_definition-definition_of 8 always false (some lamp_state) (codes "oic.r.switch")
      (codes "oic.if.a" ∷ codes "oic.if.baseline" ∷ []) lamp_definition 0 37 refl refl

introspect_path-IsNull_example :
    (n' : ℕ) × (introspect_path always false (codes "oic.r.switch" ∷ []) (codes "oic.if.a" ∷ []) 0
      ≡ some (none, n'))
introspect_path-IsNull_example =
    introspect_path-IsNull always false (codes "oic.r.switch" ∷ []) (codes "oic.if.a" ∷ []) 0 refl

-- An encoder: what was encoded, the size of the buffer, and the end of the container.
record Buffer : Type 0 where
  bytes : Bytes
  size : ℕ
  last : Bytes

abbrev full : ℕ
full = 2 ^ 64 - 2 ^ 31

abbrev push : Bytes → Buffer → Buffer
push s e = record e { bytes = e.bytes ++ s }

abbrev state : Buffer → ℕ
state e = status full e.size (length e.bytes)

abbrev tiny : Cbor
tiny = record {
  Encoder = Buffer;
  init = λ n. record { bytes = []; size = n; last = [] };
  text = λ s e. (push ((96 + length s) ∷ s) e, state (push ((96 + length s) ∷ s) e));
  create_map = λ e. (e, record (push (191 ∷ []) e) { last = 255 ∷ [] }, state (push (191 ∷ []) e));
  create_array =
      λ n e. (e, record (push ((128 + n) ∷ []) e) { last = [] }, state (push ((128 + n) ∷ []) e));
  close_container =
      λ e child. (record (push child.last child) { last = e.last }, state (push child.last child));
  extra_bytes_needed = λ e. length e.bytes - e.size;
  buffer_size = λ e. length e.bytes;
  content = λ e. e.bytes;
  out_of_memory = full;
  internal_error = 2 ^ 31 - 1;
}

tiny_extra :
    (e : Buffer)
    → leb (length e.bytes) e.size ≡ false
    → e.size + (length e.bytes - e.size) ≡ length e.bytes
tiny_extra e h = ground arith

abbrev tiny-IsCbor : IsCbor tiny
tiny-IsCbor = record {
  written = λ e. e.bytes;
  capacity = λ e. e.size;
  ending = λ e. e.last;
  text_bytes = λ s. (96 + length s) ∷ s;
  map_bytes = 191 ∷ [];
  map_end = 255 ∷ [];
  array_bytes = λ n. (128 + n) ∷ [];
  memory = refl;
  init_lem = λ n. (refl, refl);
  text_lem = λ s e. (refl, refl, refl, refl);
  create_map_lem = λ e. (refl, refl, refl, refl, refl);
  create_array_lem = λ n e. (refl, refl, refl, refl, refl);
  close_container_lem = λ e child. (refl, refl, refl, refl);
  extra_bytes_needed_lem = tiny_extra;
  buffer_size_lem = λ e h. refl;
  content_lem = λ e h. take-all (length e.bytes) e.bytes (omega arith);
}

set_introspection_data-document_example :
    set_introspection_data tiny 2 (codes "TITLE") (codes "VERSION") true always true
    ≡ some (some (document tiny tiny-IsCbor (codes "TITLE") (codes "VERSION")))
set_introspection_data-document_example =
    set_introspection_data-document tiny tiny-IsCbor 0 (codes "TITLE") (codes "VERSION") true always
      true refl refl refl
