-- ===== src/Occlient/Kept.antt =====
-- What `DiscoverCB` of src/tools/occlient.cpp keeps.
use hanfun_io_tivity.Prelude.{
  ℕ, zero, suc, ◌+◌, List, [], ◌∷◌, ◌++◌, Option, some, none, ◌>>=◌, length, length-append,
  get_elem?, append-nil, append_assoc, ◌≡◌, refl, sym, ap, ◌∙◌, arith,
}
use hanfun_io_tivity.Prelude.Bytes.{Bytes}
use hanfun_io_tivity.Stack.{Constants, DevAddr, ResourcePayload, DiscoveryPayload}
use hanfun_io_tivity.Occlient.{Found}
use hanfun_io_tivity.Occlient.Discovered.{path_of, found_addr, add_resources, add_payloads}

get_elem?-length :
    (xs : List Found) (x : Found) (ys : List Found) → get_elem? (xs ++ x ∷ ys) (length xs) ≡ some x
get_elem?-length [] x ys = refl
get_elem?-length (z ∷ xs) x ys = get_elem?-length xs x ys

pub get_elem?-append :
    (xs ys : List Found) (i : ℕ) (x : Found)
    → get_elem? xs i ≡ some x
    → get_elem? (xs ++ ys) i ≡ some x
get_elem?-append [] ys i x h = cc
get_elem?-append (z ∷ xs) ys zero x h = h
get_elem?-append (z ∷ xs) ys (suc i) x h = get_elem?-append xs ys i x h

-- A result of two steps has one of the first.
pub bind-some {ℓ κ} :
    {A : Type ℓ} {B : Type κ} (o : Option A) (f : A → Option B) (b : B)
    → (o >>= f) ≡ some b
    → (a : A) × (o ≡ some a) × (f a ≡ some b)
bind-some none f b h = cc
bind-some (some a) f b h = (a, refl, h)

-- The resources of payloads.
abbrev pub total : List DiscoveryPayload → ℕ
total [] = 0
total (p ∷ ps) = length p.resources + total ps

module _ (oc : Constants) (origin : DevAddr) where
  -- Resources are added behind the ones that are known.
  add_resources-more :
      (sid : Bytes) (rs : List ResourcePayload) (found found' : List Found)
      → add_resources oc origin sid rs found ≡ some found'
      → (more : List Found) × (found' ≡ found ++ more)
  unfolding add_resources
  add_resources-more sid [] found found' h =
      let e : found ≡ found' = cc in ([], sym e ∙ sym (append-nil found))
  add_resources-more sid (r ∷ rs) found found' h =
      let (uri, e, k) = bind-some (path_of r.uri) _ found' h in
      let (more, m) = add_resources-more sid rs (found ++ _ ∷ []) found' k in
      (_ ∷ more, m ∙ append_assoc found (_ ∷ []) more)

  pub add_payloads-more :
      (ps : List DiscoveryPayload) (found found' : List Found)
      → add_payloads oc origin ps found ≡ some found'
      → (more : List Found) × (found' ≡ found ++ more)
  unfolding add_payloads
  add_payloads-more [] found found' h =
      let e : found ≡ found' = cc in ([], sym e ∙ sym (append-nil found))
  add_payloads-more (p ∷ ps) found found' h =
      let (f1, e, k) = bind-some (add_resources oc origin p.sid p.resources found) _ found' h in
      let (m1, a1) = add_resources-more p.sid p.resources found f1 e in
      let (m2, a2) = add_payloads-more ps f1 found' k in
      (m1 ++ m2, a2 ∙ ap (λ t. t ++ m2) a1 ∙ append_assoc found m1 m2)

  -- A resource stands behind the known ones and those before it, at its address.
  pub add_resources-get :
      (sid : Bytes) (rs : List ResourcePayload) (r : ResourcePayload) (rs' : List ResourcePayload)
      (found found' : List Found)
      → add_resources oc origin sid (rs ++ r ∷ rs') found ≡ some found'
      → (uri : Bytes) × (path_of r.uri ≡ some uri)
        × (get_elem? found' (length found + length rs)
            ≡ some (record { di = sid; addr = found_addr oc origin sid r; uri = uri }))
  unfolding add_resources
  add_resources-get sid [] r rs' found found' h =
      let (uri, e, k) = bind-some (path_of r.uri) _ found' h in
      let x : Found = record { di = sid; addr = found_addr oc origin sid r; uri = uri } in
      let (more, m) = add_resources-more sid rs' (found ++ x ∷ []) found' k in
      let i : length found + 0 ≡ length found = omega arith in
      (
        uri,
        e,
        ap (get_elem? found') i
            ∙ ap (λ t. get_elem? t (length found)) (m ∙ append_assoc found (x ∷ []) more)
            ∙ get_elem?-length found x more,
      )
  add_resources-get sid (r0 ∷ rs) r rs' found found' h =
      let (u, e, k) = bind-some (path_of r0.uri) _ found' h in
      let x : Found = record { di = sid; addr = found_addr oc origin sid r0; uri = u } in
      let (uri, e', g) = add_resources-get sid rs r rs' (found ++ x ∷ []) found' k in
      let i : length found + suc (length rs) ≡ length (found ++ x ∷ []) + length rs =
        omega (arith, length-append found (x ∷ [])) in
      (uri, e', ap (get_elem? found') i ∙ g)

  add_resources-length :
      (sid : Bytes) (rs : List ResourcePayload) (found found' : List Found)
      → add_resources oc origin sid rs found ≡ some found'
      → length found' ≡ length found + length rs
  unfolding add_resources
  add_resources-length sid [] found found' h =
      let e : found ≡ found' = cc in ap length (sym e) ∙ omega arith
  add_resources-length sid (r ∷ rs) found found' h =
      let (uri, e, k) = bind-some (path_of r.uri) _ found' h in
      let x : Found = record { di = sid; addr = found_addr oc origin sid r; uri = uri } in
      let longer = add_resources-length sid rs (found ++ x ∷ []) found' k in
      omega (arith, length-append found (x ∷ []))

  -- A resource of any payload stands behind the known ones and those of the payloads before.
  pub add_payloads-get :
      (ps : List DiscoveryPayload) (sid : Bytes) (rs : List ResourcePayload) (r : ResourcePayload)
      (rs' : List ResourcePayload) (ps' : List DiscoveryPayload) (found found' : List Found)
      → add_payloads oc origin (ps ++ (record { sid = sid; resources = rs ++ r ∷ rs' }) ∷ ps') found
        ≡ some found'
      → (uri : Bytes) × (path_of r.uri ≡ some uri)
        × (get_elem? found' (length found + (total ps + length rs))
            ≡ some (record { di = sid; addr = found_addr oc origin sid r; uri = uri }))
  unfolding add_payloads
  add_payloads-get [] sid rs r rs' ps' found found' h =
      let (f1, added, others) =
        bind-some (add_resources oc origin sid (rs ++ r ∷ rs') found) _ found' h in
      let (uri, path, at) = add_resources-get sid rs r rs' found f1 added in
      let (more, m) = add_payloads-more ps' f1 found' others in
      let i : length found + (0 + length rs) ≡ length found + length rs = omega arith in
      (
        uri,
        path,
        ap (get_elem? found') i
            ∙ ap (λ t. get_elem? t (length found + length rs)) m
            ∙ get_elem?-append f1 more (length found + length rs) _ at,
      )
  add_payloads-get (p ∷ ps) sid rs r rs' ps' found found' h =
      let (f1, added, others) =
        bind-some (add_resources oc origin p.sid p.resources found) _ found' h in
      let size : length f1 ≡ length found + length p.resources =
        add_resources-length p.sid p.resources found f1 added in
      let (uri, path, at) = add_payloads-get ps sid rs r rs' ps' f1 found' others in
      let i : length found + ((length p.resources + total ps) + length rs)
          ≡ length f1 + (total ps + length rs) =
        omega arith in
      (uri, path, ap (get_elem? found') i ∙ at)
