-- ===== src/Occlient/Address.antt =====
-- The address that src/tools/occlient.cpp keeps of a resource, and those of the bridge.
use hanfun_io_tivity.Prelude.{
  ℕ, zero, suc, Bool, true, false, not, ◌&&◌, List, [], ◌∷◌, if◌then◌else◌, map, take, all, ◌==◌,
  ◌≡◌, refl, ap, ◌∙◌, arith,
}
use hanfun_io_tivity.Prelude.Bytes.{Bytes}
use hanfun_io_tivity.Stack.{Constants, DevAddr, EndpointPayload, ResourcePayload}
use hanfun_io_tivity.HanClient.Cstring.{has_prefix}
use hanfun_io_tivity.Resource.{copy_addr, endpoint_adapter, endpoint_addr, get_dev_addrs}
use hanfun_io_tivity.Occlient.Discovered.{adapter_of, found_addr}

abbrev pub has_no_percent : Bytes → Bool
has_no_percent = all (λ c. not (b'%' == c))

-- The first endpoint, if there is one, has an address without a percent sign.
abbrev pub is_plain : List EndpointPayload → Bool
is_plain [] = true
is_plain (ep ∷ eps) = has_no_percent ep.addr

no_skip : (b : Bool) → (b && false) ≡ false
no_skip true = refl
no_skip false = refl

copy_addr-take :
    (room : ℕ) (v6 : Bool) (s : Bytes)
    → has_no_percent s ≡ true
    → copy_addr 0 room v6 s ≡ take room s
unfolding copy_addr has_prefix
copy_addr-take zero v6 s h = refl
copy_addr-take (suc room) v6 [] h = refl
copy_addr-take (suc room) v6 (c ∷ s) h =
    let first : (b'%' == c) ≡ false = ground arith in
    let rest : has_no_percent s ≡ true = ground arith in
    rw first (
      ap (λ b. c ∷ copy_addr (if b then 2 else 0) room v6 s) (no_skip v6)
      ∙ ap (λ t. c ∷ t) (copy_addr-take room v6 s rest))

module _ (oc : Constants) (origin : DevAddr) (sid : Bytes) where
  with_endpoints :
      (r : ResourcePayload) (eps : List EndpointPayload)
      → is_plain eps ≡ true
      → (more : List DevAddr) × (get_dev_addrs oc origin sid (record r { eps = eps })
          ≡ found_addr oc origin sid (record r { eps = eps }) ∷ more)
  unfolding get_dev_addrs found_addr endpoint_addr endpoint_adapter adapter_of
  with_endpoints r [] h = ([], refl)
  with_endpoints r (ep ∷ eps) h = (
    map (endpoint_addr oc sid) eps,
    ap
        (λ t.
          (record (found_addr oc origin sid (record r { eps = ep ∷ eps })) { addr = t })
          ∷ map (endpoint_addr oc sid) eps)
        (copy_addr-take oc.max_addr_str_size (ep.family oc.ip_use_v6) ep.addr h),
  )

  -- The client keeps the first address that the bridge has for a resource, unless its endpoint has an
  -- address with a percent sign.
  pub get_dev_addrs-found_addr :
      (r : ResourcePayload)
      → is_plain r.eps ≡ true
      → (more : List DevAddr) × (get_dev_addrs oc origin sid r ≡ found_addr oc origin sid r ∷ more)
  get_dev_addrs-found_addr r h = with_endpoints r r.eps h
