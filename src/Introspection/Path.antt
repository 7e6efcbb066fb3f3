-- ===== src/Introspection/Path.antt =====
-- `IntrospectPath` of src/introspection.cpp. What a setter of a NULL payload returns is a parameter.
pub mod Null
use hanfun_io_tivity.Prelude.{
  ℕ, Bool, true, false, ◌||◌, List, [], ◌∷◌, ◌++◌, Option, some, none, if◌then◌else◌,
}
use hanfun_io_tivity.Prelude.Bytes.{Bytes, codes, bytes_eq}
use hanfun_io_tivity.Introspection.{
  Rep, empty, field, Node, text, texts, object, objects, Reps, nil, cons, set, M, pure, ◌>>=◌,
  ◌then_try◌, ask,
}
use hanfun_io_tivity.Introspection.Definition.{setter, node_of, set_maybe}

abbrev is_read_only : Bytes → Bool
is_read_only itf =
    bytes_eq itf (codes "oic.if.ll")
    || (bytes_eq itf (codes "oic.if.r") || bytes_eq itf (codes "oic.if.s"))

-- The loop over the interfaces for "post".
unfoldable pub post_interfaces : List Bytes → List Bytes
post_interfaces [] = []
post_interfaces (itf ∷ itfs) =
    let rest = post_interfaces itfs in if is_read_only itf then rest else itf ∷ rest

-- The parameter "if" with its interfaces.
abbrev pub parameter_if : List Bytes → Rep
parameter_if itfs = field (codes "name") (text (codes "if")) (
    field (codes "in") (text (codes "query"))
      (field (codes "type") (text (codes "string")) (field (codes "enum") (texts itfs) empty)))

abbrev pub parameter_body : Rep → Rep
parameter_body schema =
    field (codes "name") (text (codes "body"))
      (field (codes "in") (text (codes "body")) (field (codes "schema") (object schema) empty))

abbrev pub responses_of : Rep → Rep
responses_of schema =
    field (codes "200")
      (object
        (field (codes "description") (text []) (field (codes "schema") (object schema) empty)))
      empty

abbrev pub add_ref : Bytes → Option Reps → Option Reps
add_ref rt none = none
add_ref rt (some refs) =
    some (cons (field (codes "$ref") (text (codes "#/definitions/" ++ rt)) empty) refs)

module _ (answers : ℕ → Bool) where
  -- The loop over the resource types.
  unfoldable pub make_refs : List Bytes → M (Option Reps)
  make_refs [] = pure (some nil)
  make_refs (rt ∷ rts) =
      ask answers then_try ask answers then_try (make_refs rts >>= λ refs. pure (add_ref rt refs))

module _ (answers : ℕ → Bool) (null_answer : Bool) where
  -- From the second `method` on, the one for "get".
  unfoldable pub make_get : List Bytes → Rep → Rep → M (Option Rep)
  unfolding set
  make_get interfaces responses path =
      ask answers
      then_try ask answers
      then_try ask answers
      then_try ask answers
      then_try ask answers
      then_try ask answers
      then_try pure (
          some (
            set (codes "get")
              (object (
                field (codes "parameters") (objects (cons (parameter_if interfaces) nil))
                  (field (codes "responses") (object responses) empty)))
              path))

  -- From the setter of "parameters" on: `method` is still NULL.
  unfoldable pub make_post : List Bytes → Rep → M (Option Rep)
  unfolding make_get post_interfaces set
  make_post interfaces schema =
      let parameters =
        cons (parameter_if (post_interfaces interfaces)) (cons (parameter_body schema) nil) in
      let method = set_maybe (codes "parameters") (objects parameters) none in
      setter answers null_answer method
      then_try ask answers
      then_try ask answers
      then_try ask answers
      then_try ask answers
      then_try ask answers
      then_try setter answers null_answer method
      then_try ask answers
      then_try make_get interfaces (responses_of schema) (
          set (codes "post")
            (node_of (set_maybe (codes "responses") (object (responses_of schema)) method)) empty)

  -- From the end of the loop on.
  unfoldable pub with_refs : List Bytes → Option Reps → M (Option Rep)
  unfolding make_post
  with_refs interfaces none = pure none
  with_refs interfaces (some refs) =
      ask answers
      then_try ask answers
      then_try make_post interfaces (field (codes "oneOf") (objects refs) empty)

  -- From the creation of `schema` on.
  unfoldable pub make_schema : List Bytes → List Bytes → M (Option Rep)
  unfolding make_refs with_refs
  make_schema resource_types interfaces =
      ask answers
      then_try ask answers
      then_try (make_refs answers resource_types >>= λ refs. with_refs interfaces refs)

  -- `IntrospectPath`: the path and the array of parameters; the parameter "if", with three properties,
  -- an array and its setter; and the parameter "body", with two properties.
  unfoldable pub introspect_path : List Bytes → List Bytes → M (Option Rep)
  unfolding make_schema
  introspect_path resource_types interfaces =
      ask answers
      then_try ask answers
      then_try ask answers
      then_try ask answers
      then_try ask answers
      then_try ask answers
      then_try ask answers
      then_try ask answers
      then_try ask answers
      then_try ask answers
      then_try ask answers
      then_try make_schema resource_types interfaces
