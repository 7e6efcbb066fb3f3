-- ===== src/Resource/Query.antt =====
-- `ParseQuery` and `IsValidRequest` of src/resource.cpp. What the stack says of the resource that is
-- asked is a parameter. `none` as a result is undefined behaviour: an iterator read at its end.
pub mod Pairs
pub mod Valid
use hanfun_io_tivity.Prelude.{
  ℕ, zero, suc, Bool, true, false, ◌||◌, List, [], ◌∷◌, ◌++◌, Option, some, none, ◌==◌,
  if◌then◌else◌, ◌>>=◌, length, leb,
}
use hanfun_io_tivity.Prelude.Bytes.{Bytes, codes, bytes_eq}
use hanfun_io_tivity.Prelude.Dict.{lookup, insert}
use hanfun_io_tivity.Stack.{Constants}

-- `find` and `substr`: the bytes before the first delimiter, and those behind it, if there is one.
unfoldable pub cut : (ℕ → Bool) → Bytes → Bytes × Option Bytes
cut delim [] = ([], none)
cut delim (c ∷ s) = let rest = cut delim s in if delim c then ([], some s) else (c ∷ rest.0, rest.1)

abbrev pub is_equals : ℕ → Bool
is_equals c = c == b'='

abbrev pub is_separator : ℕ → Bool
is_separator c = (c == b'&') || (c == b';')

-- The value behind a key and a '=', and what is left to read.
unfoldable pub value_of : Option Bytes → Bytes × Option Bytes
unfolding cut
value_of none = ([], none)
value_of (some rest) = cut is_separator rest

-- A turn of the loop: the pair that it reads, and the rest of the query for the next turn.
unfoldable pub next_pair : Bytes → (Bytes × Bytes) × Option Bytes
unfolding cut value_of
next_pair query =
    let (key, after) = cut is_equals query in
    let (value, more) = value_of after in ((key, value), more)

-- The loop: the keys and values in their order, with fuel.
unfoldable pub query_pairs : ℕ → Bytes → Option (List (Bytes × Bytes))
unfolding next_pair
query_pairs zero query = none
query_pairs (suc fuel) query =
    let (p, more) = next_pair query in
    elim more [
      | none ↦ some (p ∷ [])
      | some query' ↦ query_pairs fuel query' >>= λ ps. some (p ∷ ps)
    ]

-- `queryMap[key] = value` for each.
unfoldable pub insert_pairs : List (Bytes × Bytes) → List (Bytes × Bytes) → List (Bytes × Bytes)
insert_pairs [] m = m
insert_pairs ((key, value) ∷ ps) m = insert_pairs ps (insert key value m)

-- What the stack says of a resource: its types and interfaces, `none` where it gives an error, and a
-- name that it does not give.
pub record Served : Type 0 where
  pub types : Option (List (Option Bytes))
  pub interfaces : Option (List (Option Bytes))

unfoldable pub has_types : Served → Bool
has_types r = elim r.types [ none ↦ false | some names ↦ elim names [ [] ↦ false | n ∷ ns ↦ true ] ]

module _ (oc : Constants) where
  -- The default interface.
  unfoldable pub with_default : Served → List (Bytes × Bytes) → List (Bytes × Bytes)
  unfolding has_types
  with_default r m = elim (lookup oc.interface m) [
    | some itf ↦ m
    | none ↦ if has_types r then insert oc.interface oc.interface_default m else m
  ]

  -- `ParseQuery`.
  unfoldable pub parse_query : Served → Option Bytes → Option (List (Bytes × Bytes))
  unfolding query_pairs insert_pairs with_default
  parse_query r none = some (with_default r [])
  parse_query r (some query) = do
    ps ← query_pairs (suc (length query)) query
    some (with_default r (insert_pairs ps []))

  -- The loops of `IsValidRequest` over names: whether one is the value of an iterator, which is read
  -- for each name; a name that is not given ends the loop.
  unfoldable pub has_name : Option Bytes → List (Option Bytes) → Option Bool
  has_name wanted [] = some false
  has_name wanted (none ∷ ns) = some false
  has_name none (some n ∷ ns) = none
  has_name (some w) (some n ∷ ns) =
      let rest = has_name (some w) ns in if bytes_eq w n then some true else rest

  unfoldable pub has_name_of : Option Bytes → Option (List (Option Bytes)) → Option Bool
  unfolding has_name
  has_name_of wanted none = some false
  has_name_of wanted (some names) = has_name wanted names

  -- `IsValidRequest`, from what the two iterators point to on.
  unfoldable pub has_names : Served → Option Bytes → Option Bytes → Option Bool
  unfolding has_name_of
  has_names r itf rt = do
    has_itf ← has_name_of itf r.interfaces
    if has_itf
        then elim rt [ none ↦ some true | some name ↦ has_name_of (some name) r.types ]
        else some false

  -- `IsValidRequest`.
  unfoldable pub is_valid_request : Served → Option Bytes → Option Bool
  unfolding parse_query has_names
  is_valid_request r query = do
    m ← parse_query r query
    has_names r (lookup (codes "if") m) (lookup (codes "rt") m)
