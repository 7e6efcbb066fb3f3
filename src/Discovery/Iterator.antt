-- ===== src/Discovery/Iterator.antt =====
-- `Bridge::DiscoverContext::Iterator` of src/bridge.cpp: it stops at each pair of a resource and a
-- type that is translated. A C++ iterator is the part of its vector from its position on.
pub mod Pairs
use hanfun_io_tivity.Prelude.{
  ℕ, zero, suc, Bool, true, false, not, ◌&&◌, ◌||◌, List, [], ◌∷◌, ◌++◌, Option, some, none,
  if◌then◌else◌,
}
use hanfun_io_tivity.Prelude.Bytes.{Bytes, codes}
use hanfun_io_tivity.Stack.{Constants}
use hanfun_io_tivity.Resource.{Info, Resource, info, translate_resource_type, is_secure}

pub record Iterator : Type 0 where
  pub resource_it : List Resource
  pub resource_type_it : List Bytes

module _ (oc : Constants) (secure_mode : Bool) where
  -- The inner loop: from here to a type that is translated.
  pub find_type : List Bytes → List Bytes
  find_type [] = []
  find_type (t ∷ ts) = if translate_resource_type oc t then t ∷ ts else find_type ts

  -- Whether the outer loop looks at the types of a resource.
  unfoldable pub is_visited : Resource → Bool
  is_visited r = not secure_mode || is_secure oc r

  -- The outer loop, with the type iterator as it stands.
  unfoldable pub find_resource : List Bytes → List Resource → Iterator
  unfolding find_type is_visited
  find_resource types [] = record { resource_it = []; resource_type_it = types }
  find_resource types (r ∷ rs) =
      let skipped = find_resource types rs in
      let searched = find_resource [] rs in
      if is_visited r
      then elim (find_type (info r).rts) [
        | [] ↦ searched
        | t ∷ ts ↦ record { resource_it = r ∷ rs; resource_type_it = t ∷ ts }
      ]
      else skipped

  -- `Begin()`. The type iterator is not set before a resource is visited.
  unfoldable pub begin : List Resource → Iterator
  unfolding find_resource
  begin resources = find_resource [] resources

  -- The jump to `next`: on in the types of this resource, then in the resources behind it.
  unfoldable pub advance : List Bytes → Resource → List Resource → Iterator
  unfolding find_resource
  advance types r rs = elim (find_type types) [
    | [] ↦ find_resource [] rs
    | t ∷ ts ↦ record { resource_it = r ∷ rs; resource_type_it = t ∷ ts }
  ]

  -- `operator++`; `none` where an iterator at an end would be advanced.
  next_at : List Resource → List Bytes → Option Iterator
  unfolding advance
  next_at [] types = none
  next_at (r ∷ rs) [] = none
  next_at (r ∷ rs) (t ∷ ts) = some (advance ts r rs)

  unfoldable pub next : Iterator → Option Iterator
  unfolding next_at
  next it = next_at it.resource_it it.resource_type_it

-- Whether the type iterator differs from the end of the last resource's types.
type_differs : Resource → List Resource → List Bytes → Bool
type_differs r [] [] = false
type_differs r [] (t ∷ ts) = true
type_differs r (s ∷ rs) types = true

-- `it != End()`: both iterators differ.
differs_at : List Resource → List Bytes → Bool
unfolding type_differs
differs_at [] types = false
differs_at (r ∷ rs) types = type_differs r rs types

unfoldable pub differs_from_end : Iterator → Bool
unfolding differs_at
differs_from_end it = differs_at it.resource_it it.resource_type_it

pair_at : List Resource → List Bytes → Option (Resource × Bytes)
pair_at [] types = none
pair_at (r ∷ rs) [] = none
pair_at (r ∷ rs) (t ∷ ts) = some (r, t)

-- `GetResource()` and `GetResourceType()`; `none` at an end.
unfoldable pub current : Iterator → Option (Resource × Bytes)
unfolding pair_at
current it = pair_at it.resource_it it.resource_type_it

has_many : List Bytes → Bool
has_many [] = false
has_many (t ∷ []) = false
has_many (t ∷ u ∷ ts) = true

-- `GetUri()`.
unfoldable pub get_uri : Resource × Bytes → Bytes
unfolding has_many
get_uri (r, t) = if has_many (info r).rts then (info r).uri ++ (codes "?rt=" ++ t) else (info r).uri
