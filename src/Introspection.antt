-- ===== src/Introspection.antt =====
-- src/introspection.cpp: the schemas that `IntrospectDefinition` and `IntrospectPath` build, and the
-- document that `Introspect` encodes. This file has the payloads and the calls that may fail.
pub mod Schema
pub mod Definition
pub mod Path
pub mod Document
use hanfun_io_tivity.Prelude.{ℕ, suc, Bool, true, false, List, Option, some, none, if◌then◌else◌}
use hanfun_io_tivity.Prelude.Bytes.{Bytes, bytes_eq}

-- The types of a value that is neither an object nor an array, OCREP_PROP_....
pub data Kind : Type 0 where
  null int double boolean string byte_string : Kind

-- A payload that came in, with what the code reads of it: an object may be NULL, and an array has its
-- dimensions, the type of its elements and the number of bytes in its block, or the first object.
mutual
  pub data Payload : Type 0 where
    no_values : Payload
    value : Bytes → Value → Payload → Payload

  pub data Value : Type 0 where
    plain : Kind → Value
    obj : Payload → Value
    no_obj : Value
    arr : List ℕ → Elements → Value

  pub data Elements : Type 0 where
    plains : Kind → ℕ → Elements
    arrays : ℕ → Elements
    objs : Payload → Elements
    null_obj unset : Elements

-- A payload that is built.
mutual
  pub data Rep : Type 0 where
    empty : Rep
    field : Bytes → Node → Rep → Rep

  pub data Node : Type 0 where
    text : Bytes → Node
    flag : Bool → Node
    texts : List Bytes → Node
    object : Rep → Node
    objects : Reps → Node
    null_object : Node

  pub data Reps : Type 0 where
    nil : Reps
    cons : Rep → Reps → Reps

-- A property is set: in its place, or else at the end.
unfoldable pub set : Bytes → Node → Rep → Rep
set name x empty = field name x empty
set name x (field name' x' r) =
    let rest = set name x r in if bytes_eq name name' then field name x r else field name' x' rest

-- The number of the next call that may fail; `none` is undefined behaviour.
abbrev pub M : Type 0 → Type 0
M A = ℕ → Option (A × ℕ)

abbrev pub pure : {A : Type 0} → A → M A
pure a n = some (a, n)

abbrev pub fault : {A : Type 0} → M A
fault n = none

infixl 5 ◌>>=◌
abbrev pub ◌>>=◌ : {A B : Type 0} → M A → (A → M B) → M B
◌>>=◌ m f n = elim (m n) [ none ↦ none | some (a, n') ↦ f a n' ]

-- `if (!call) goto error`.
infixr 4 ◌then_try◌
abbrev pub ◌then_try◌ : {A : Type 0} → M Bool → M (Option A) → M (Option A)
m then_try k = m >>= λ ok. if ok then k else pure none

-- A call that may fail: an allocation or a setter.
abbrev pub ask : (ℕ → Bool) → M Bool
ask answers n = some (answers n, suc n)
