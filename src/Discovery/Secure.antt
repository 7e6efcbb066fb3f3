-- ===== src/Discovery/Secure.antt =====
-- The two tests for a secure resource: `Bridge::IsSecure` of src/bridge.cpp on a payload, and
-- `Resource::IsSecure` of src/resource.cpp on the resource that is made from it.
use hanfun_io_tivity.Prelude.{
  ◌≡◌, refl, ap, sym, ◌∙◌, Bool, false, ◌||◌, List, [], ◌∷◌, map, arith, Bool-cases, inl, inr,
}
use hanfun_io_tivity.Prelude.Bytes.{Bytes}
use hanfun_io_tivity.Stack.{Constants, DevAddr, EndpointPayload, ResourcePayload}
use hanfun_io_tivity.Resource.{
  any_secure, is_secure, new_resource, endpoint_addr, secured_origin, get_dev_addrs,
}
use hanfun_io_tivity.Discovery.{World}
use hanfun_io_tivity.Discovery.Steps.{any_secure_endpoint, is_secure_payload}

-- What is left of the mark `secure` in the resource: nothing, once there are endpoints.
unfoldable pub mark_that_counts : ResourcePayload → Bool
mark_that_counts r = elim r.eps [ [] ↦ r.secure | ep ∷ eps ↦ false ]

module _ (oc : Constants) (w : World) (same_bit : oc.secure ≡ oc.flag_secure) where
  any_secure-endpoints :
      (di : Bytes) (eps : List EndpointPayload)
      → any_secure oc (map (endpoint_addr oc di) eps) ≡ any_secure_endpoint oc w eps
  unfolding any_secure any_secure_endpoint endpoint_addr
  any_secure-endpoints di [] = refl
  any_secure-endpoints di (ep ∷ eps) =
      ap (λ bit. ep.family bit || any_secure oc (map (endpoint_addr oc di) eps)) (sym same_bit)
      ∙ ap (λ t. ep.family oc.secure || t) (any_secure-endpoints di eps)

  -- Where the origin is not secure, and OC_SECURE and OC_FLAG_SECURE are the same bit, the resource
  -- is secure exactly if the bridge holds the payload without the mark `secure` to be secure, or the
  -- payload has the mark and no endpoints.
  is_secure-new_resource :
      (origin : DevAddr) (di : Bytes) (r : ResourcePayload)
      → origin.flags oc.flag_secure ≡ false
      → is_secure oc (new_resource oc origin di r)
        ≡ is_secure_payload oc w (record r { secure = mark_that_counts r })
  unfolding is_secure new_resource get_dev_addrs secured_origin is_secure_payload any_secure
      any_secure_endpoint mark_that_counts
  is_secure-new_resource origin di r h = go r.eps refl
    where
      go :
          (eps : List EndpointPayload)
          → r.eps ≡ eps
          → is_secure oc (new_resource oc origin di r)
            ≡ is_secure_payload oc w (record r { secure = mark_that_counts r })
      go [] e = elim (Bool-cases r.secure) [
        | inl q ↦ rw (e, q) (ground arith)
        | inr q ↦ rw (e, q) (ground (arith, h))
      ]
      go (ep ∷ eps) e = rw e (any_secure-endpoints di (ep ∷ eps))
