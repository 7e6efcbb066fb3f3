-- ===== src/Introspection/Definition/Interfaces.antt =====
-- What the definition of `IntrospectDefinition`, src/introspection.cpp, holds, and what it leaves out.
use hanfun_io_tivity.Prelude.{
  ℕ, suc, Bool, true, false, List, [], ◌∷◌, Option, some, none, if◌then◌else◌, ◌≡◌, refl, ◌>>=◌,
  Bool-cases, inl, inr,
}
use hanfun_io_tivity.Prelude.Bytes.{Bytes, codes, bytes_eq}
use hanfun_io_tivity.Introspection.{
  Payload, Rep, empty, field, flag, text, texts, object, set, M, ◌then_try◌, ask, fault,
}
use hanfun_io_tivity.Introspection.Schema.Description.{describe}
use hanfun_io_tivity.Introspection.Schema.Refinement.{AllowsRep, set_properties-AllowsRep}
use hanfun_io_tivity.Introspection.Definition.{
  set_payload, define, finish_definition, make_itf, with_rt, introspect_definition,
}

abbrev describe_payload : Rep → Option Payload → Option Rep
describe_payload parent none = some parent
describe_payload parent (some p) = describe parent p

-- The property "rt" alone: a read-only array with the resource type as its default.
abbrev rt_only : Bytes → Rep
rt_only resource_type =
    field (codes "rt")
      (object (
        field (codes "readOnly") (flag true) (
          field (codes "type") (text (codes "array"))
            (field (codes "default") (texts (resource_type ∷ [])) empty))))
      empty

abbrev definition_with : Rep → Rep
definition_with r =
    field (codes "type") (text (codes "object")) (field (codes "properties") (object r) empty)

-- An object whose properties are "rt" and those of the payload.
abbrev pub definition_of : Option Payload → Bytes → Option Rep
definition_of payload resource_type =
    describe_payload (rt_only resource_type) payload >>= λ r. some (definition_with r)

abbrev Makes : Option Rep → M (Option Rep) → Type 0
Makes o m = (n : ℕ) → AllowsRep o (m n)

module _ (answers : ℕ → Bool) where
  try-Makes :
      (o : Option Rep) (rest : M (Option Rep)) → Makes o rest → Makes o (ask answers then_try rest)
  try-Makes o rest h n = elim (Bool-cases (answers n)) [
    | inl a ↦ rw a (h (suc n))
    | inr a ↦ rw a tt
  ]

  make_itf-Makes :
      (o : Option Rep) (rest : M (Option Rep)) → Makes o rest → Makes o (make_itf answers rest)
  unfolding make_itf
  make_itf-Makes o rest h = search (try-Makes, last) depth 14
    where
      last : Makes o (λ n. (if answers n then rest else fault) (suc n))
      last n = elim (Bool-cases (answers n)) [ inl a ↦ rw a (h (suc n)) | inr a ↦ rw a tt ]

  define-Makes :
      (o : Option Rep) (x : Option (Option Rep × ℕ))
      → AllowsRep o x
      → AllowsRep
          (o >>= λ r. some (definition_with r))
          (elim x [ none ↦ none | some (r, n) ↦ define answers r n ])
  unfolding define set bytes_eq
  define-Makes o none h = tt
  define-Makes o (some (none, n)) h = tt
  define-Makes o (some (some r, n)) h = elim (Bool-cases (answers n)) [
    | inl a ↦ rw (h, a) refl
    | inr a ↦ rw a tt
  ]

module _ (pointer_size : ℕ) (answers : ℕ → Bool) (payload : Option Payload)
    (resource_type : Bytes) where
  set_payload-Makes :
      (properties : Rep)
      → Makes
          (describe_payload properties payload)
          (set_payload pointer_size answers properties payload)
  unfolding set_payload
  set_payload-Makes properties = go payload
    where
      go :
          (o : Option Payload)
          → Makes (describe_payload properties o) (set_payload pointer_size answers properties o)
      go none n = refl
      go (some p) n = set_properties-AllowsRep pointer_size answers p properties n

  finish_definition-Makes :
      Makes
        (definition_of payload resource_type)
        (finish_definition pointer_size answers payload (rt_only resource_type))
  unfolding finish_definition
  finish_definition-Makes n =
      define-Makes answers (describe_payload (rt_only resource_type) payload)
        (set_payload pointer_size answers (rt_only resource_type) payload n)
        (set_payload-Makes (rt_only resource_type) n)

  with_rt-Makes :
      Makes
        (definition_of payload resource_type)
        (with_rt pointer_size answers false payload resource_type)
  unfolding with_rt set bytes_eq
  with_rt-Makes n = elim (Bool-cases (answers n)) [
    | inr a ↦ rw a tt
    | inl a ↦ rw a (after_rt (suc n))
  ]
    where
      after_rt : Makes (definition_of payload resource_type) (
          ask answers
          then_try ask answers
          then_try ask answers
          then_try ask answers
          then_try ask answers
          then_try make_itf answers
              (finish_definition pointer_size answers payload (rt_only resource_type)))
      after_rt =
          search (try-Makes answers, make_itf-Makes answers, finish_definition-Makes) depth 14

  definition-Makes :
      (interfaces : List Bytes)
      → Makes
          (definition_of payload resource_type)
          (introspect_definition pointer_size answers false payload resource_type interfaces)
  unfolding introspect_definition
  definition-Makes interfaces = search (try-Makes answers, with_rt-Makes) depth 14

-- Where a setter of a NULL payload returns false, whatever other calls fail: a definition that
-- `IntrospectDefinition` returns is the object with "rt" and the schema of the payload as its
-- properties, whatever the interfaces are: none of them is in it.
pub introspect_definition-definition_of :
    (pointer_size : ℕ) (answers : ℕ → Bool) (null_answer : Bool) (payload : Option Payload)
    (resource_type : Bytes) (interfaces : List Bytes) (d : Rep) (n m : ℕ)
    → null_answer ≡ false
    → introspect_definition pointer_size answers null_answer payload resource_type interfaces n
      ≡ some (some d, m)
    → definition_of payload resource_type ≡ some d
introspect_definition-definition_of pointer_size answers null_answer payload resource_type
      interfaces d n m h e =
    let e' = rw h at e in
    rw e' at (definition-Makes pointer_size answers payload resource_type interfaces n)
