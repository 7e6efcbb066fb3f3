-- ===== src/Resource/Query/Valid.antt =====
-- `IsValidRequest` of src/resource.cpp.
use hanfun_io_tivity.Prelude.{
  Bool, true, false, ◌&&◌, List, [], ◌∷◌, Option, some, none, ◌>>=◌, arith, ◌≡◌, refl, sym, ap, ◌∙◌,
  map,
}
use hanfun_io_tivity.Prelude.Bytes.{Bytes, codes, bytes_eq, bytes_eq_refl}
use hanfun_io_tivity.Prelude.Dict.{lookup}
use hanfun_io_tivity.Stack.{Constants}
use hanfun_io_tivity.Resource.{has_resource_type}
use hanfun_io_tivity.Resource.Query.{
  Served, has_types, has_name, has_name_of, has_names, is_valid_request,
}
use hanfun_io_tivity.Resource.Query.Pairs.{
  print_pairs, is_printable, last_value, said, parse_query-print_pairs,
}

-- A resource of which the stack gives all the names.
abbrev pub served : List Bytes → List Bytes → Served
served types interfaces = record {
  types = some (map (λ n. some n) types);
  interfaces = some (map (λ n. some n) interfaces);
}

bytes_eq_comm : (s t : Bytes) → bytes_eq s t ≡ bytes_eq t s
unfolding bytes_eq
bytes_eq_comm [] [] = refl
bytes_eq_comm [] (y ∷ ys) = refl
bytes_eq_comm (x ∷ xs) [] = refl
bytes_eq_comm (x ∷ xs) (y ∷ ys) = ground (arith, bytes_eq_comm xs ys)

has_name-some :
    (oc : Constants) (w : Bytes) (ns : List Bytes)
    → has_name oc (some w) (map (λ n. some n) ns) ≡ some (has_resource_type ns w)
unfolding has_name has_resource_type
has_name-some oc w [] = refl
has_name-some oc w (n ∷ ns) = ground (arith, has_name-some oc w ns, bytes_eq_comm w n)

-- The interface that a query asks for.
abbrev pub asked_interface : Constants → List (Bytes × Bytes) → Bytes
asked_interface oc ps = elim (last_value oc.interface ps) [
  | some itf ↦ itf
  | none ↦ oc.interface_default
]

-- What a valid request is: the interface that it names, or else the default interface, is one of the
-- resource, and so is the type, where it names one.
abbrev pub is_served : Constants → List Bytes → List Bytes → List (Bytes × Bytes) → Bool
is_served oc types interfaces ps =
    has_resource_type interfaces (asked_interface oc ps)
    && elim (last_value (codes "rt") ps) [ some rt ↦ has_resource_type types rt | none ↦ true ]

has_names-some :
    (oc : Constants) (types interfaces : List Bytes) (itf : Bytes) (rt : Option Bytes)
    → has_names oc (served types interfaces) (some itf) rt
      ≡ some (
          has_resource_type interfaces itf
          && elim rt [ some name ↦ has_resource_type types name | none ↦ true ])
unfolding has_names has_name_of
has_names-some oc types interfaces itf none = ground (arith, has_name-some oc itf interfaces)
has_names-some oc types interfaces itf (some name) =
    ground (arith, has_name-some oc itf interfaces, has_name-some oc name types)

said_interface :
    (oc : Constants) (t : Bytes) (types interfaces : List Bytes) (ps : List (Bytes × Bytes))
    → said oc (served (t ∷ types) interfaces) ps oc.interface ≡ some (asked_interface oc ps)
unfolding has_types
said_interface oc t types interfaces ps = ground (arith, bytes_eq_refl oc.interface)

said_type :
    (oc : Constants) (r : Served) (ps : List (Bytes × Bytes))
    → oc.interface ≡ codes "if"
    → said oc r ps (codes "rt") ≡ last_value (codes "rt") ps
unfolding bytes_eq
said_type oc r ps h =
    let e : bytes_eq oc.interface (codes "rt") ≡ false = ap (λ i. bytes_eq i (codes "rt")) h in
    ground arith

-- For a resource with a type, whose names the stack all gives: a query written from pairs, names free
-- of '=' and values free of '&' and ';', is valid exactly where the last interface that it names, or
-- else the default one, is among the resource's, and the last type that it names, if it does, among
-- the resource's types; and the check never reads an iterator at its end.
pub is_valid_request-print_pairs :
    (oc : Constants) (t : Bytes) (types interfaces : List Bytes) (p : Bytes × Bytes)
    (ps : List (Bytes × Bytes))
    → oc.interface ≡ codes "if"
    → is_printable (p ∷ ps) ≡ true
    → is_valid_request oc (served (t ∷ types) interfaces) (some (print_pairs (p ∷ ps)))
      ≡ some (is_served oc (t ∷ types) interfaces (p ∷ ps))
unfolding is_valid_request
is_valid_request-print_pairs oc t types interfaces p ps h w =
    let r = served (t ∷ types) interfaces in
    let (m, e, f) = parse_query-print_pairs oc r p ps w in
    ap
      (λ o. o >>= λ (m' : List (Bytes × Bytes)).
        has_names oc r (lookup (codes "if") m') (lookup (codes "rt") m'))
      e
    ∙ ap (λ (k : Option Bytes). has_names oc r k (lookup (codes "rt") m))
        (ap (λ (i : Bytes). lookup i m) (sym h)
          ∙ f oc.interface
          ∙ said_interface oc t types interfaces (p ∷ ps))
    ∙ ap (λ (k : Option Bytes). has_names oc r (some (asked_interface oc (p ∷ ps))) k)
        (f (codes "rt") ∙ said_type oc r (p ∷ ps) h)
    ∙ has_names-some oc (t ∷ types) interfaces (asked_interface oc (p ∷ ps))
        (last_value (codes "rt") (p ∷ ps))
