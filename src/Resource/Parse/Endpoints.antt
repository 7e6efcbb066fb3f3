-- ===== src/Resource/Parse/Endpoints.antt =====
-- What `ParseEndpoint` and `ParseLink` of src/resource.cpp make of the text of an endpoint.
use hanfun_io_tivity.Prelude.{
  ℕ, zero, suc, Bool, true, false, List, [], ◌∷◌, ◌++◌, Option, none, some, ltb, ◌==◌, ◌>>=◌,
  length, ◌≡◌, refl, ap, ◌∙◌, ◌⊎◌, inl, inr, arith, Bool-cases, Option-cases,
}
use hanfun_io_tivity.Prelude.Bytes.{Bytes, codes}
use hanfun_io_tivity.HanClient.Number.{is_space}
use hanfun_io_tivity.Stack.{Constants}
use hanfun_io_tivity.Resource.Scan.{
  Scan, skip_space, scan_word, scan_literal, non_empty, scan_port, scan_addr, scan_scheme, scan,
}
use hanfun_io_tivity.Resource.Parse.{
  fits, next_endpoint, Endpoint, EndpointRep, LinkRep, Link, stored, parse_endpoint,
  parse_endpoints, parse_link,
}

-- Undefined behaviour or NULL.
abbrev pub Fails : {A : Type 0} → Option (Option A) → Type 0
Fails o = (o ≡ none) ⊎ (o ≡ some none)

module _ (oc : Constants) (ip_use_v4 : ℕ) where
  -- A word is as long as the bound, or white space or the end comes next.
  abbrev AtEnd : Bytes → Type 0
  AtEnd [] = true ≡ true
  AtEnd (c ∷ s) = is_space c ≡ true

  scan_word-length : (n : ℕ) (s : Bytes) → (length (scan_word n s).0 ≡ n) ⊎ AtEnd (scan_word n s).1
  unfolding scan_word
  scan_word-length zero s = inl refl
  scan_word-length (suc n) [] = inr refl
  scan_word-length (suc n) (c ∷ s) = elim (Bool-cases (is_space c)) [
    | inl h ↦ inr (rw h h)
    | inr h ↦ elim (scan_word-length n s) [ inl e ↦ inl (rw h (ap suc e)) | inr e ↦ inr (rw h e) ]
  ]

  scan_literal-AtEnd : (s : Bytes) → AtEnd s → scan_literal (codes "://") s ≡ none
  unfolding scan_literal
  scan_literal-AtEnd [] h = refl
  scan_literal-AtEnd (c ∷ s) h = let e : (b':' == c) ≡ false = ground arith in rw e

  scan_addr-tps : (tps : Bytes) (o : Option Bytes) → (scan_addr tps o).tps ≡ some tps
  unfolding scan_addr scan_port
  scan_addr-tps tps none = refl
  scan_addr-tps tps (some s) =
      go (scan_word 48 (skip_space s)).1 (non_empty (scan_word 48 (skip_space s)).0)
    where
      go :
          (rest : Bytes) (o : Option Bytes)
          → (let r : Scan = elim o [
            | none ↦ record { tps = some tps; addr = none; port = none }
            | some addr' ↦ scan_port tps addr' rest
          ] in
              r.tps ≡ some tps)
      go rest none = refl
      go rest (some addr) = refl

  stored-too_long :
      (tcp_port : Option (Bool × ℕ)) (r : Scan) (tps : Bytes)
      → r.tps ≡ some tps
      → length tps ≡ 10
      → stored oc ip_use_v4 tcp_port r ≡ none
  unfolding stored
  stored-too_long tcp_port r tps e n =
      let long : fits 10 (some tps) ≡ false = ground arith in rw (e, long)

  stored-scan_scheme :
      (tcp_port : Option (Bool × ℕ)) (tps rest : Bytes)
      → (length tps ≡ 10) ⊎ AtEnd rest
      → Fails (stored oc ip_use_v4 tcp_port (scan_scheme (tps, rest)))
  unfolding stored scan_scheme scan_addr
  stored-scan_scheme tcp_port [] rest h = inr refl
  stored-scan_scheme tcp_port (c ∷ tps) rest (inl n) = inl (
      stored-too_long tcp_port (scan_addr (c ∷ tps) (scan_literal (codes "://") rest)) (c ∷ tps)
        (scan_addr-tps (c ∷ tps) (scan_literal (codes "://") rest)) n)
  stored-scan_scheme tcp_port (c ∷ tps) rest (inr h) =
      elim (Bool-cases (ltb (length (c ∷ tps)) 10)) [
        | inl short ↦ inr (rw (scan_literal-AtEnd rest h, short))
        | inr long ↦ inl (rw (scan_literal-AtEnd rest h, long))
      ]

  parse_endpoint-Fails :
      (e : EndpointRep) (s : Bytes) → e.ep ≡ some s → Fails (parse_endpoint oc ip_use_v4 e)
  unfolding parse_endpoint scan
  parse_endpoint-Fails e s h = elim (Bool-cases e.ep_allocated) [
    | inr off ↦ inr (rw off)
    | inl on ↦ elim (Bool-cases e.blocks_allocated) [
      | inr off ↦ inr (rw (on, h, off))
      | inl on' ↦
          rw (on, h, on')
            (stored-scan_scheme e.tcp_port (scan_word 10 (skip_space s)).0
              (scan_word 10 (skip_space s)).1 (scan_word-length 10 (skip_space s)))
    ]
  ]

  next_endpoint-Fails :
      (destroyed : Bool) (rest : Option (Option (List Endpoint))) (o : Option (Option Endpoint))
      → Fails rest
      → Fails (o >>= next_endpoint oc ip_use_v4 destroyed rest)
  next_endpoint-Fails destroyed rest none f = inl refl
  next_endpoint-Fails true rest (some none) f = inl refl
  next_endpoint-Fails false rest (some none) f = inr refl
  next_endpoint-Fails destroyed rest (some (some ep)) (inl u) = inl (rw u)
  next_endpoint-Fails destroyed rest (some (some ep)) (inr n) = inr (rw n)

  next_endpoint-undefined :
      (o : Option (Option Endpoint)) → o >>= next_endpoint oc ip_use_v4 true none ≡ none
  next_endpoint-undefined none = refl
  next_endpoint-undefined (some none) = refl
  next_endpoint-undefined (some (some ep)) = refl

  parse_endpoints-Fails :
      (destroyed : Bool) (before after : List EndpointRep) (e : EndpointRep) (s : Bytes)
      → e.ep ≡ some s
      → Fails (parse_endpoints oc ip_use_v4 destroyed (before ++ e ∷ after))
  unfolding parse_endpoints
  parse_endpoints-Fails true [] after e s h = elim (parse_endpoint-Fails e s h) [
    | inl u ↦ inl (rw u)
    | inr n ↦ inl (rw n)
  ]
  parse_endpoints-Fails false [] after e s h = elim (parse_endpoint-Fails e s h) [
    | inl u ↦ inl (rw u)
    | inr n ↦ inr (rw n)
  ]
  parse_endpoints-Fails destroyed (e' ∷ before) after e s h =
      next_endpoint-Fails destroyed (parse_endpoints oc ip_use_v4 true (before ++ e ∷ after))
        (parse_endpoint oc ip_use_v4 e') (parse_endpoints-Fails true before after e s h)

  -- Behind an endpoint that was destroyed there is no NULL.
  parse_endpoints-undefined :
      (before after : List EndpointRep) (e : EndpointRep) (s : Bytes)
      → e.ep ≡ some s
      → parse_endpoints oc ip_use_v4 true (before ++ e ∷ after) ≡ none
  unfolding parse_endpoints
  parse_endpoints-undefined [] after e s h = elim (parse_endpoint-Fails e s h) [
    | inl u ↦ rw u
    | inr n ↦ rw n
  ]
  parse_endpoints-undefined (e' ∷ before) after e s h =
      ap (λ rest. parse_endpoint oc ip_use_v4 e' >>= next_endpoint oc ip_use_v4 true rest)
        (parse_endpoints-undefined before after e s h)
      ∙ next_endpoint-undefined (parse_endpoint oc ip_use_v4 e')

  -- What becomes of a link, by the first of its endpoints.
  abbrev pub FailsBehind : List EndpointRep → Option (Option Link) → Type 0
  FailsBehind [] o = Fails o
  FailsBehind (e ∷ before) o = (parse_endpoint oc ip_use_v4 e ≡ some none) ⊎ (o ≡ none)

  parse_endpoints-FailsBehind :
      (e0 : EndpointRep) (before after : List EndpointRep) (e : EndpointRep) (s : Bytes)
      → e.ep ≡ some s
      → (parse_endpoint oc ip_use_v4 e0 ≡ some none)
        ⊎ (parse_endpoints oc ip_use_v4 false (e0 ∷ (before ++ e ∷ after)) ≡ none)
  unfolding parse_endpoints
  parse_endpoints-FailsBehind e0 before after e s h =
      let undefined = parse_endpoints-undefined before after e s h in
      elim (Option-cases (parse_endpoint oc ip_use_v4 e0)) [
        | inl n ↦ inr (rw n)
        | inr (none, n) ↦ inl n
        | inr (some ep, n) ↦ inr (rw (n, undefined))
      ]

  -- A link that was allocated, with an endpoint that has a text, among any others: it is never parsed,
  -- whatever the text is. Where that endpoint is the first, its scheme is written behind the block or
  -- the result is NULL. Where another is the first, that one gives NULL itself, or the result is
  -- undefined: a scheme is written behind its block, or `exit` frees again what the loop has destroyed.
  pub parse_link-Fails :
      (r : LinkRep) (before after : List EndpointRep) (e : EndpointRep) (s : Bytes)
      → r.rp_allocated ≡ true
      → r.endpoints ≡ some (before ++ e ∷ after)
      → e.ep ≡ some s
      → Fails (parse_link oc ip_use_v4 r) × FailsBehind before (parse_link oc ip_use_v4 r)
  unfolding parse_link
  parse_link-Fails r before after e s on h h' = (
    elim (parse_endpoints-Fails false before after e s h') [
      | inl u ↦ inl (rw (on, h, u))
      | inr n ↦ inr (rw (on, h, n))
    ],
    behind before h,
  )
    where
      behind :
          (es : List EndpointRep)
          → r.endpoints ≡ some (es ++ e ∷ after)
          → FailsBehind es (parse_link oc ip_use_v4 r)
      behind [] k = elim (parse_endpoints-Fails false [] after e s h') [
        | inl u ↦ inl (rw (on, k, u))
        | inr n ↦ inr (rw (on, k, n))
      ]
      behind (e0 ∷ es) k = elim (parse_endpoints-FailsBehind e0 es after e s h') [
        | inl n ↦ inl n
        | inr u ↦ inr (rw (on, k, u))
      ]
