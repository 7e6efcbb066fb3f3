-- ===== src/Introspection/Definition.antt =====
-- `IntrospectDefinition` of src/introspection.cpp. What a setter of a NULL payload returns is a
-- parameter.
pub mod Interfaces
use hanfun_io_tivity.Prelude.{
  ℕ, Bool, true, false, List, [], ◌∷◌, Option, some, none, if◌then◌else◌, ◌≡◌, refl, Bool-cases,
  inl, inr,
}
use hanfun_io_tivity.Prelude.Bytes.{Bytes, codes, bytes_eq}
use hanfun_io_tivity.Introspection.{
  Payload, Rep, empty, field, Node, text, flag, texts, object, null_object, set, M, pure, fault,
  ◌>>=◌, ◌then_try◌, ask,
}
use hanfun_io_tivity.Introspection.Schema.{set_properties}

-- A setter of a payload that may be NULL.
abbrev pub setter : (ℕ → Bool) → Bool → Option Rep → M Bool
setter answers null_answer none = pure null_answer
setter answers null_answer (some r) = ask answers

abbrev pub node_of : Option Rep → Node
node_of none = null_object
node_of (some r) = object r

abbrev pub created : Bool → Option Rep
created false = none
created true = some empty

abbrev pub set_maybe : Bytes → Node → Option Rep → Option Rep
unfolding set
set_maybe name x none = none
set_maybe name x (some r) = some (set name x r)

-- The schema of the property `rt`.
abbrev pub describe_rt : Bytes → Option Rep → Option Rep
unfolding set
describe_rt resource_type rt =
    set_maybe (codes "default") (texts (resource_type ∷ [])) (
      set_maybe (codes "type") (text (codes "array")) (set_maybe (codes "readOnly") (flag true) rt))

module _ (answers : ℕ → Bool) where
  -- From the result of `SetPropertiesSchema` on.
  unfoldable pub define : Option Rep → M (Option Rep)
  unfolding set
  define none = pure none
  define (some r) =
      ask answers
      then_try pure (
          some (
            set (codes "properties") (object r) (set (codes "type") (text (codes "object")) empty)))

  -- The payloads `itf` and `items`, which nothing adopts. Where the setter of "enum" fails, `itfs` is
  -- not NULL, and `error` reads `resource_types[0]` of a NULL `resource_types`.
  unfoldable pub make_itf : M (Option Rep) → M (Option Rep)
  make_itf rest =
      ask answers
      then_try ask answers
      then_try ask answers
      then_try ask answers
      then_try ask answers
      then_try ask answers
      then_try (ask answers >>= λ taken. if taken then rest else fault)

module _ (pointer_size : ℕ) (answers : ℕ → Bool) where
  -- `SetPropertiesSchema(properties, payload)`, for a payload that may be NULL.
  unfoldable pub set_payload : Rep → Option Payload → M (Option Rep)
  unfolding set_properties
  set_payload properties none = pure (some properties)
  set_payload properties (some p) = set_properties pointer_size answers properties p

  unfoldable pub finish_definition : Option Payload → Rep → M (Option Rep)
  unfolding set_payload define
  finish_definition payload properties = set_payload properties payload >>= λ r. define answers r

module _ (pointer_size : ℕ) (answers : ℕ → Bool) (null_answer : Bool) where
  -- From the creation of `rt` on; NULL is only logged.
  unfoldable pub with_rt : Option Payload → Bytes → M (Option Rep)
  unfolding make_itf finish_definition describe_rt
  with_rt payload resource_type = ask answers >>= λ ok.
      setter answers null_answer (created ok)
      then_try setter answers null_answer (created ok)
      then_try ask answers
      then_try setter answers null_answer (created ok)
      then_try ask answers
      then_try make_itf answers (
          finish_definition pointer_size answers payload
            (set (codes "rt") (node_of (describe_rt resource_type (created ok))) empty))

  -- `IntrospectDefinition`: the definition, its type and `properties` first.
  unfoldable pub introspect_definition : Option Payload → Bytes → List Bytes → M (Option Rep)
  unfolding with_rt
  introspect_definition payload resource_type interfaces =
      ask answers then_try ask answers then_try ask answers then_try with_rt payload resource_type
