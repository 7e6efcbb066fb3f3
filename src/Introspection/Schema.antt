-- ===== src/Introspection/Schema.antt =====
-- The two functions `SetPropertiesSchema` of src/introspection.cpp, with who owns what they make where
-- a call fails.
pub mod Description
pub mod Refinement
pub mod Owners
pub mod Success
use hanfun_io_tivity.Prelude.{
  ℕ, zero, suc, Bool, true, false, List, [], ◌∷◌, Option, some, none, if◌then◌else◌, ltb,
}
use hanfun_io_tivity.Prelude.Bytes.{Bytes, codes}
use hanfun_io_tivity.Introspection.{
  Kind, null, int, double, boolean, string, byte_string, Payload, no_values, value, Value, plain,
  obj, no_obj, arr, Elements, plains, arrays, objs, null_obj, unset, Rep, empty, text, object, set,
  M, pure, fault, ◌>>=◌, ask,
}

-- How the schema of a value ends: it is made; it failed, and what there is of it has one owner; or it
-- failed, and holds a child that `exit` destroys as well.
pub data Made : Type 0 where
  made : Rep → Made
  failed dangling : Made

-- A block that is read as if it began with a pointer.
abbrev pub read_pointer : {A : Type 0} → ℕ → ℕ → M A → M A
read_pointer pointer_size bytes k = if ltb bytes pointer_size then fault else k

-- An array that holds a child whose schema was made after it was adopted.
abbrev pub with_items : Made → Made
unfolding set
with_items (made child) =
    made (set (codes "type") (text (codes "array")) (set (codes "items") (object child) empty))
with_items failed = failed
with_items dangling = dangling

module _ (answers : ℕ → Bool) where
  -- A setter of the type, before which nothing was adopted.
  abbrev pub set_type : Bytes → Rep → M Made
  set_type name property = ask answers >>= λ ok.
      pure (if ok then made (set (codes "type") (text name) property) else failed)

  -- A child is adopted under a name, and then the type is set: where that fails the child has two
  -- owners, the property and the variable.
  unfoldable pub adopt : Bytes → Rep → Bytes → Rep → M Made
  unfolding set
  adopt name child type property = ask answers >>= λ adopted.
      if adopted
      then (ask answers >>= λ ok. pure (
          if ok
          then made (set (codes "type") (text type) (set name (object child) property))
          else dangling))
      else pure failed

  -- The cases of both functions for a value that is neither an object nor an array.
  unfoldable pub set_kind : Kind → Rep → M Made
  unfolding adopt
  set_kind null property = pure failed
  set_kind int property = set_type (codes "integer") property
  set_kind double property = set_type (codes "number") property
  set_kind boolean property = set_type (codes "boolean") property
  set_kind string property = set_type (codes "string") property
  set_kind byte_string property = ask answers >>= λ created.
      if created
      then (ask answers >>= λ encoded.
          if encoded
          then adopt (codes "media") (set (codes "binaryEncoding") (text (codes "base64")) empty)
              (codes "string") property
          else pure failed)
      else pure failed

  -- What follows the schema of the properties of an object, `none` for false.
  abbrev pub adopt_properties : Option Rep → Rep → M Made
  unfolding adopt
  adopt_properties none property = pure failed
  adopt_properties (some child) property =
      adopt (codes "properties") child (codes "object") property

  -- The case of an object.
  unfoldable pub set_object : M (Option Rep) → Rep → M Made
  unfolding adopt_properties
  set_object schema property = ask answers >>= λ created.
      if created then (schema >>= λ r. adopt_properties r property) else pure failed

  -- The loop over the dimensions, up to one that is 0, and what follows it. The property under which
  -- the next child is adopted was just created.
  unfoldable pub set_array : M Made → List ℕ → M Made
  set_array elements [] = elements
  set_array elements (zero ∷ ds) = elements
  set_array elements (suc d ∷ ds) = ask answers >>= λ created.
      if created
      then (ask answers >>= λ adopted.
          if adopted
          then (ask answers >>= λ ok.
              if ok then (set_array elements ds >>= λ m. pure (with_items m)) else pure dangling)
          else pure failed)
      else pure failed

  -- What follows the `switch`: the property goes to the parent, and the loop goes on, or `exit`
  -- destroys the child and the property.
  abbrev pub adopt_schema : Bytes → Made → Rep → (Rep → M (Option Rep)) → M (Option Rep)
  unfolding set
  adopt_schema name (made r) parent continue = ask answers >>= λ adopted.
      if adopted then continue (set name (object r) parent) else pure none
  adopt_schema name failed parent continue = pure none
  adopt_schema name dangling parent continue = fault

module _ (pointer_size : ℕ) (answers : ℕ → Bool) where
  unfoldable mutual
    unfolding set_kind set_object set_array adopt_schema

    -- `SetPropertiesSchema(parent, obj)`, from the values of the object on.
    pub set_properties : Rep → Payload → M (Option Rep)
    set_properties parent no_values = pure (some parent)
    set_properties parent (value name v rest) = ask answers >>= λ created.
        if created
        then (set_value v >>= λ m.
            adopt_schema answers name m parent (λ parent'. set_properties parent' rest))
        else pure none

    -- Its `switch`.
    pub set_value : Value → M Made
    set_value (plain k) = set_kind answers k empty
    set_value (obj p) = set_object answers (set_properties empty p) empty
    set_value no_obj = set_object answers (pure (some empty)) empty
    set_value (arr dimensions es) = set_array answers (set_elements es) dimensions

    -- `SetPropertiesSchema(property, type, obj)`, with the reading of `objArray[0]`.
    pub set_elements : Elements → M Made
    set_elements (plains k bytes) = read_pointer pointer_size bytes (set_kind answers k empty)
    set_elements (arrays bytes) = read_pointer pointer_size bytes (pure failed)
    set_elements (objs p) = set_object answers (set_properties empty p) empty
    set_elements null_obj = set_object answers (pure (some empty)) empty
    set_elements unset = fault
