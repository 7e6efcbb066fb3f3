-- ===== src/Introspection/Schema/Description.antt =====
-- What the schema of a payload is, with no call that may fail: what `SetPropertiesSchema` of
-- src/introspection.cpp is to make.
use hanfun_io_tivity.Prelude.{ℕ, zero, suc, List, [], ◌∷◌, Option, some, none, ◌>>=◌}
use hanfun_io_tivity.Prelude.Bytes.{Bytes, codes}
use hanfun_io_tivity.Introspection.{
  Kind, null, int, double, boolean, string, byte_string, Payload, no_values, value, Value, plain,
  obj, no_obj, arr, Elements, plains, arrays, objs, null_obj, unset, Rep, empty, field, text,
  object, set,
}

abbrev pub typed : Bytes → Rep
typed name = field (codes "type") (text name) empty

abbrev pub describe_kind : Kind → Option Rep
describe_kind null = none
describe_kind int = some (typed (codes "integer"))
describe_kind double = some (typed (codes "number"))
describe_kind boolean = some (typed (codes "boolean"))
describe_kind string = some (typed (codes "string"))
describe_kind byte_string = some (
    field (codes "media") (object (field (codes "binaryEncoding") (text (codes "base64")) empty))
      (typed (codes "string")))

abbrev pub describe_object : Option Rep → Option Rep
describe_object o = o >>= λ r. some (field (codes "properties") (object r) (typed (codes "object")))

unfoldable pub describe_array : Option Rep → List ℕ → Option Rep
describe_array o [] = o
describe_array o (zero ∷ ds) = o
describe_array o (suc d ∷ ds) =
    describe_array o ds >>= λ r. some (field (codes "items") (object r) (typed (codes "array")))

unfoldable mutual
  unfolding describe_array

  -- The properties of an object, in their order, after those of the parent; a null, and an array of
  -- nulls or of arrays, have no schema.
  pub describe : Rep → Payload → Option Rep
  describe parent no_values = some parent
  describe parent (value name v rest) =
      describe_value v >>= λ r. describe (set name (object r) parent) rest

  pub describe_value : Value → Option Rep
  describe_value (plain k) = describe_kind k
  describe_value (obj p) = describe_object (describe empty p)
  describe_value no_obj = describe_object (some empty)
  describe_value (arr ds es) = describe_array (describe_elements es) ds

  pub describe_elements : Elements → Option Rep
  describe_elements (plains k bytes) = describe_kind k
  describe_elements (arrays bytes) = none
  describe_elements (objs p) = describe_object (describe empty p)
  describe_elements null_obj = describe_object (some empty)
  describe_elements unset = none
