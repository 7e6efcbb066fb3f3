-- ===== src/Resource/Query/Pairs.antt =====
-- `ParseQuery` of src/resource.cpp: its loop ends, and it reads what was written.
use hanfun_io_tivity.Prelude.{
  ℕ, zero, suc, ◌≤◌, ◌<◌, Bool, true, false, not, ◌&&◌, List, [], ◌∷◌, ◌++◌, Option, some, none,
  if◌then◌else◌, ◌>>=◌, length, all, arith, ◌≡◌, refl, ap, ◌∙◌, inl, inr, Option-cases,
  length-append,
}
use hanfun_io_tivity.Prelude.Bytes.{Bytes, bytes_eq, bytes_eq_iff}
use hanfun_io_tivity.Prelude.Dict.{lookup, insert, lookup-insert}
use hanfun_io_tivity.Stack.{Constants}
use hanfun_io_tivity.Resource.Query.{
  cut, is_equals, is_separator, value_of, next_pair, query_pairs, insert_pairs, Served, has_types,
  with_default, parse_query,
}

cut-length : (delim : ℕ → Bool) (s t : Bytes) → (cut delim s).1 ≡ some t → length t < length s
unfolding cut
cut-length delim [] t e = cc
cut-length delim (c ∷ s) t e = ground (arith, cut-length delim s t)

cut-append :
    (delim : ℕ → Bool) (s t : Bytes) (c : ℕ)
    → all (λ a. not (delim a)) s ≡ true
    → delim c ≡ true
    → cut delim (s ++ c ∷ t) ≡ (s, some t)
unfolding cut
cut-append delim [] t c h d = rw d
cut-append delim (a ∷ s) t c h d = ground (arith, cut-append delim s t c)

cut-all :
    (delim : ℕ → Bool) (s : Bytes) → all (λ a. not (delim a)) s ≡ true → cut delim s ≡ (s, none)
unfolding cut
cut-all delim [] h = refl
cut-all delim (a ∷ s) h = ground (arith, cut-all delim s)

value_of-length :
    (after : Option Bytes) (t : Bytes)
    → (value_of after).1 ≡ some t
    → (rest : Bytes) × (after ≡ some rest) × (length t < length rest)
unfolding value_of
value_of-length none t h = cc
value_of-length (some rest) t h = (rest, refl, cut-length is_separator rest t h)

next_pair-length : (query t : Bytes) → (next_pair query).1 ≡ some t → length t < length query
unfolding next_pair
next_pair-length query t h =
    let (rest, e, l') = value_of-length (cut is_equals query).1 t h in
    let l = cut-length is_equals query rest e in omega arith

module _ (fuel : ℕ) (query : Bytes) where
  query_pairs-last :
      (p : Bytes × Bytes)
      → next_pair query ≡ (p, none)
      → query_pairs (suc fuel) query ≡ some (p ∷ [])
  unfolding query_pairs
  query_pairs-last p e =
      ap
        (λ n. elim n.1 [
          | none ↦ some (n.0 ∷ [])
          | some query' ↦ query_pairs fuel query' >>= λ ps. some (n.0 ∷ ps)
        ])
        e

  query_pairs-more :
      (p : Bytes × Bytes) (more : Bytes)
      → next_pair query ≡ (p, some more)
      → query_pairs (suc fuel) query ≡ (query_pairs fuel more >>= λ ps. some (p ∷ ps))
  unfolding query_pairs
  query_pairs-more p more e =
      ap
        (λ n. elim n.1 [
          | none ↦ some (n.0 ∷ [])
          | some query' ↦ query_pairs fuel query' >>= λ ps. some (n.0 ∷ ps)
        ])
        e

-- The loop reads any query to its end, with one turn more than the query has bytes.
query_pairs-length :
    (fuel : ℕ) (query : Bytes)
    → length query < fuel
    → (ps : List (Bytes × Bytes)) × (query_pairs fuel query ≡ some ps)
query_pairs-length zero query h = absurd (omega arith)
query_pairs-length (suc fuel) query h = elim (Option-cases (next_pair query).1) [
  | inl e ↦
      (_, query_pairs-last fuel query (next_pair query).0 (ap (λ o. ((next_pair query).0, o)) e))
  | inr (more, e) ↦
      let l = next_pair-length query more e in
      let (ps, q) = query_pairs-length fuel more (omega arith) in
      (
        (next_pair query).0 ∷ ps,
        query_pairs-more fuel query (next_pair query).0 more (ap (λ o. ((next_pair query).0, o)) e)
            ∙ ap (λ o. o >>= λ (qs : List (Bytes × Bytes)). some ((next_pair query).0 ∷ qs)) q,
      )
]

-- A query as it is written: "key=value" pairs, joined by '&'.
unfoldable pub print_pairs : List (Bytes × Bytes) → Bytes
print_pairs [] = []
print_pairs ((key, value) ∷ ps) = elim ps [
  | [] ↦ key ++ b'=' ∷ value
  | p ∷ ps' ↦ key ++ (b'=' ∷ (value ++ (b'&' ∷ print_pairs ps)))
]

-- No delimiter is inside a key or a value.
unfoldable pub is_printable : List (Bytes × Bytes) → Bool
is_printable [] = true
is_printable ((key, value) ∷ ps) =
    all (λ a. not (is_equals a)) key && (all (λ a. not (is_separator a)) value && is_printable ps)

is_printable-head :
    (key value : Bytes) (ps : List (Bytes × Bytes))
    → is_printable ((key, value) ∷ ps) ≡ true
    → (all (λ a. not (is_equals a)) key ≡ true)
      × (all (λ a. not (is_separator a)) value ≡ true)
      × (is_printable ps ≡ true)
unfolding is_printable
is_printable-head key value ps w = (ground arith, ground arith, ground arith)

next_pair-append :
    (key value more : Bytes)
    → all (λ a. not (is_equals a)) key ≡ true
    → all (λ a. not (is_separator a)) value ≡ true
    → next_pair (key ++ (b'=' ∷ (value ++ (b'&' ∷ more)))) ≡ ((key, value), some more)
unfolding next_pair value_of
next_pair-append key value more k v = rw (
  cut-append is_equals key (value ++ b'&' ∷ more) b'=' k refl,
  cut-append is_separator value more b'&' v refl,
)

query_pairs-print_pairs :
    (fuel : ℕ) (p : Bytes × Bytes) (ps : List (Bytes × Bytes))
    → is_printable (p ∷ ps) ≡ true
    → length ps < fuel
    → query_pairs fuel (print_pairs (p ∷ ps)) ≡ some (p ∷ ps)
unfolding print_pairs next_pair value_of
query_pairs-print_pairs zero p ps w h = absurd (omega arith)
query_pairs-print_pairs (suc fuel) (key, value) [] w h =
    let (k, v, u) = is_printable-head key value [] w in
    query_pairs-last fuel (key ++ b'=' ∷ value) (key, value)
      (rw (cut-append is_equals key value b'=' k refl, cut-all is_separator value v))
query_pairs-print_pairs (suc fuel) (key, value) (p ∷ ps) w h =
    let (k, v, u) = is_printable-head key value (p ∷ ps) w in
    let more = print_pairs (p ∷ ps) in
    query_pairs-more fuel (print_pairs ((key, value) ∷ p ∷ ps)) (key, value) more
      (next_pair-append key value more k v)
    ∙ ap (λ o. o >>= λ (qs : List (Bytes × Bytes)). some ((key, value) ∷ qs))
        (query_pairs-print_pairs fuel p ps u (omega arith))

-- The map that is filled holds for each name the last of its values.
unfoldable pub last_value : Bytes → List (Bytes × Bytes) → Option Bytes
last_value k [] = none
last_value k ((key, value) ∷ ps) =
    let rest = last_value k ps in
    elim rest [ some v ↦ some v | none ↦ if bytes_eq key k then some value else none ]

lookup-insert_pairs :
    (k : Bytes) (ps m : List (Bytes × Bytes))
    → lookup k (insert_pairs ps m) ≡ elim (last_value k ps) [ some v ↦ some v | none ↦ lookup k m ]
unfolding insert_pairs last_value
lookup-insert_pairs k [] m = refl
lookup-insert_pairs k ((key, value) ∷ ps) m =
    ground (arith, lookup-insert_pairs k ps (insert key value m), lookup-insert key k value m)

lookup-insert_pairs_nil :
    (k : Bytes) (ps : List (Bytes × Bytes)) → lookup k (insert_pairs ps []) ≡ last_value k ps
unfolding lookup
lookup-insert_pairs_nil k ps = ground (arith, lookup-insert_pairs k ps [])

-- What a request says of a name: the last value that its query gives, or the default interface.
abbrev pub said : Constants → Served → List (Bytes × Bytes) → Bytes → Option Bytes
said oc r ps k = elim (last_value k ps) [
  | some v ↦ some v
  | none ↦ if bytes_eq oc.interface k && has_types r then some oc.interface_default else none
]

lookup-with_default :
    (oc : Constants) (r : Served) (m : List (Bytes × Bytes)) (k : Bytes)
    → lookup k (with_default oc r m) ≡ elim (lookup k m) [
      | some v ↦ some v
      | none ↦ if bytes_eq oc.interface k && has_types r then some oc.interface_default else none
    ]
unfolding with_default
lookup-with_default oc r m k = go (has_types r) (lookup oc.interface m) refl
  where
    go :
        (b : Bool) (o : Option Bytes)
        → lookup oc.interface m ≡ o
        → lookup k (elim o [
          | some itf ↦ m
          | none ↦ if b then insert oc.interface oc.interface_default m else m
        ])
          ≡ elim (lookup k m) [
            | some v ↦ some v
            | none ↦ if bytes_eq oc.interface k && b then some oc.interface_default else none
          ]
    go b (some itf) e = ground (arith, bytes_eq_iff oc.interface k)
    go true none e =
        ground
          (arith, lookup-insert oc.interface k oc.interface_default m, bytes_eq_iff oc.interface k)
    go false none e = ground arith

lookup-parsed :
    (oc : Constants) (r : Served) (ps : List (Bytes × Bytes)) (k : Bytes)
    → lookup k (with_default oc r (insert_pairs ps [])) ≡ said oc r ps k
lookup-parsed oc r ps k =
    lookup-with_default oc r (insert_pairs ps []) k
    ∙ ap
        (λ (o : Option Bytes). elim o [
          | some v ↦ some v
          | none ↦
              if bytes_eq oc.interface k && has_types r then some oc.interface_default else none
        ])
        (lookup-insert_pairs_nil k ps)

print_pairs-length :
    (p : Bytes × Bytes) (ps : List (Bytes × Bytes)) → length ps ≤ length (print_pairs (p ∷ ps))
unfolding print_pairs
print_pairs-length (key, value) [] = omega arith
print_pairs-length (key, value) (p ∷ ps) =
    let l = print_pairs-length p ps in
    let more = print_pairs (p ∷ ps) in
    omega (
      arith,
      length-append key (b'=' ∷ (value ++ (b'&' ∷ more))),
      length-append value (b'&' ∷ more),
    )

-- The query that is written from a list of pairs, names free of '=' and values free of '&' and ';',
-- parses to a map that holds for each name the last value given to it, and else, for a resource with
-- a type, the default interface as the interface.
pub parse_query-print_pairs :
    (oc : Constants) (r : Served) (p : Bytes × Bytes) (ps : List (Bytes × Bytes))
    → is_printable (p ∷ ps) ≡ true
    → (m : List (Bytes × Bytes)) × (parse_query oc r (some (print_pairs (p ∷ ps))) ≡ some m)
      × ((k : Bytes) → lookup k m ≡ said oc r (p ∷ ps) k)
unfolding parse_query
parse_query-print_pairs oc r p ps w =
    let l = print_pairs-length p ps in
    (
      with_default oc r (insert_pairs (p ∷ ps) []),
      ap (λ o. o >>= λ (qs : List (Bytes × Bytes)). some (with_default oc r (insert_pairs qs [])))
          (query_pairs-print_pairs (suc (length (print_pairs (p ∷ ps)))) p ps w (omega arith)),
      lookup-parsed oc r (p ∷ ps),
    )
