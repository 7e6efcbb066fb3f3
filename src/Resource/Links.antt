-- ===== src/Resource/Links.antt =====
-- `Device::SetCollectionLinks` of src/resource.cpp: the resources that a collection links to move
-- into it.
use hanfun_io_tivity.Prelude.{
  ℕ, zero, suc, Bool, true, false, ◌&&◌, List, [], ◌∷◌, Option, some, none, ltb, if◌then◌else◌,
  ◌>>=◌, set, get_elem?,
}
use hanfun_io_tivity.Prelude.Bytes.{Bytes, bytes_eq}
use hanfun_io_tivity.Resource.{Resource, resource, info, children, push_back}

-- One link: its "href" if it has one, and its uri, which may be NULL.
pub record Link : Type 0 where
  pub href : Option Bytes
  pub uri : Option Bytes

-- The links of a payload: its array "links" if it has one, else the chain of payloads.
pub record Links : Type 0 where
  pub links : Option (List Link)
  pub chain : List Link

-- The position of the first resource of a uri.
unfoldable find_resource_from_uri : Bytes → List Resource → Option ℕ
find_resource_from_uri uri [] = none
find_resource_from_uri uri (r ∷ rs) =
    let rest = find_resource_from_uri uri rs in
    if bytes_eq (info r).uri uri then some 0 else (rest >>= λ i. some (suc i))

unfoldable erase_at : ℕ → List Resource → List Resource
erase_at i [] = []
erase_at zero (r ∷ rs) = rs
erase_at (suc i) (r ∷ rs) = r ∷ erase_at i rs

abbrev pub add_child : Resource → Resource → Resource
add_child c r = resource (info c) (push_back (children c) r)

-- The resources, and whether an iterator at position `rit` is still good: `erase` spoils the
-- iterators from the erased position on.
pub record Moved : Type 0 where
  pub resources : List Resource
  pub rit_valid : Bool

unfoldable pub fresh : List Resource → Moved
fresh rs = record { resources = rs; rit_valid = true }

-- The linked resource at `i` goes to the end of the collection at `c`.
unfoldable move_link : ℕ → ℕ → ℕ → Moved → Option Moved
unfolding erase_at
move_link rit i c m = do
  r ← get_elem? m.resources i
  collection ← get_elem? m.resources c
  some (record {
    resources = erase_at i (set m.resources c (add_child collection r));
    rit_valid = m.rit_valid && ltb rit i;
  })

-- One round of the loop. `none` is a failed assertion: the collection is no longer there.
unfoldable set_link : ℕ → Bytes → Bytes → Moved → Option Moved
unfolding find_resource_from_uri move_link
set_link rit collection_uri href m = elim (find_resource_from_uri href m.resources) [
  | none ↦ some m
  | some i ↦ do
    c ← find_resource_from_uri collection_uri m.resources
    m' ← move_link rit i c m
    again ← find_resource_from_uri collection_uri m'.resources
    some m'
]

-- "href", or else a copy of the uri.
abbrev pub href_of : Link → Option Bytes
href_of l = elim l.href [ some h ↦ some h | none ↦ l.uri ]

-- The loop; false where a link has neither.
unfoldable set_links : ℕ → Bytes → List Link → Moved → Option (Bool × Moved)
unfolding set_link
set_links rit collection_uri [] m = some (true, m)
set_links rit collection_uri (l ∷ ls) m = elim (href_of l) [
  | none ↦ some (false, m)
  | some href ↦ set_link rit collection_uri href m >>= λ m'. set_links rit collection_uri ls m'
]

-- `alloc` says whether the array of links can be allocated, where the payload has none.
unfoldable pub set_collection_links :
    Bool → ℕ → Bytes → Links → List Resource → Option (Bool × Moved)
unfolding set_links fresh
set_collection_links alloc rit collection_uri payload resources = do
  let m = fresh resources
  present ← find_resource_from_uri collection_uri resources
  elim payload.links [
    | some ls ↦ set_links rit collection_uri ls m
    | none ↦ if alloc then set_links rit collection_uri payload.chain m else some (false, m)
  ]
