-- ===== src/Resource/Parse.antt =====
-- `ParseEndpoint` and `ParseLink` of src/resource.cpp. The outer `none` is undefined behaviour, a write
-- behind a block or a payload that is freed twice, and the inner one NULL.
pub mod Endpoints
use hanfun_io_tivity.Prelude.{
  ℕ, zero, suc, ◌-◌, ◌*◌, ◌+◌, ◌^◌, Bool, true, false, not, ◌&&◌, List, [], ◌∷◌, ◌++◌, Option, none,
  some, ltb, ◌==◌, if◌then◌else◌, ◌>>=◌, length, all, ◌≡◌, refl, ap, ◌∙◌, ◌⊎◌, inl, inr, arith,
  Bool-cases,
}
use hanfun_io_tivity.Prelude.Bytes.{Bytes, codes}
use hanfun_io_tivity.HanClient.Cstring.{has_prefix}
use hanfun_io_tivity.HanClient.Number.{is_space, is_digit, signed_value, cast}
use hanfun_io_tivity.Stack.{Constants, Flags, with_flag}
use hanfun_io_tivity.Resource.Scan.{Scan, scan}

-- What was converted and its NUL fit into a block of so many cells.
abbrev pub fits : ℕ → Option Bytes → Bool
fits room none = true
fits room (some word) = ltb (length word) room

-- OCEndpointPayload.
pub record Endpoint : Type 0 where
  pub tps : Option Bytes
  pub addr : Option Bytes
  pub family : Flags
  pub port : ℕ
  pub pri : ℕ

-- The properties of an endpoint that `ParseEndpoint` reads, and which allocations work.
pub record EndpointRep : Type 0 where
  pub ep : Option Bytes
  pub tcp_port : Option (Bool × ℕ)
  pub ep_allocated : Bool
  pub blocks_allocated : Bool

abbrev cast_or : ℕ → ℕ → Option (Bool × ℕ) → ℕ
cast_or m default none = default
cast_or m default (some n) = cast m n

-- The properties of a policy that `ParseLink` reads.
pub record PolicyRep : Type 0 where
  pub bitmap : Option (Bool × ℕ)
  pub secure : Option Bool
  pub hosting_port : Option (Bool × ℕ)
  pub tcp_port : Option (Bool × ℕ)

-- The representation that `ParseLink` reads, with the fields of its payload, and whether the
-- allocation works.
pub record LinkRep : Type 0 where
  pub href : Option Bytes
  pub rel : Option Bytes
  pub anchor : Option Bytes
  pub resource_types : Option (List Bytes)
  pub interfaces : Option (List Bytes)
  pub policy : Option PolicyRep
  pub endpoints : Option (List EndpointRep)
  pub payload_uri : Bytes
  pub payload_types : List Bytes
  pub payload_interfaces : List Bytes
  pub rp_allocated : Bool

-- OCResourcePayload as `ParseLink` fills it.
pub record Link : Type 0 where
  pub uri : Bytes
  pub rel : Option Bytes
  pub anchor : Option Bytes
  pub types : List Bytes
  pub interfaces : List Bytes
  pub bitmap : ℕ
  pub secure : Bool
  pub port : ℕ
  pub tcp_port : ℕ
  pub eps : List Endpoint

abbrev or_else {ℓ} : {A : Type ℓ} → A → Option A → A
or_else a none = a
or_else a (some b) = b

-- The policy, with the TCP port in a build for TCP.
unfoldable with_policy : Bool → Option PolicyRep → Link → Link
with_policy tcp none l = l
with_policy tcp (some p) l = record l {
  bitmap = cast_or (2 ^ 8) l.bitmap p.bitmap;
  secure = or_else l.secure p.secure;
  port = cast_or (2 ^ 16) l.port p.hosting_port;
  tcp_port = if tcp then cast_or (2 ^ 16) l.tcp_port p.tcp_port else l.tcp_port;
}

-- OC_IP_USE_V4, as a bit number.
module _ (oc : Constants) (ip_use_v4 : ℕ) where
  abbrev no_flags : Flags
  no_flags i = false

  -- `ep->family`.
  unfoldable endpoint_family : Bytes → Bytes → Flags
  endpoint_family tps addr =
      let v4 = all (λ c. not (c == b'[')) addr in
      let family = with_flag (if v4 then ip_use_v4 else oc.ip_use_v6) no_flags in
      if has_prefix (codes "coaps") tps then with_flag oc.flag_secure family else family

  -- The endpoint where all three conversions were made.
  abbrev converted : Option (Bool × ℕ) → Scan → Option Endpoint
  converted tcp_port r = do
    tps ← r.tps
    addr ← r.addr
    port ← r.port
    some (record {
      tps = some tps;
      addr = some addr;
      family = endpoint_family tps addr;
      port = cast (2 ^ 16) port;
      pri = cast_or (2 ^ 16) 1 tcp_port;
    })

  -- The blocks for the scheme and the address have 10 and 48 cells.
  unfoldable pub stored : Option (Bool × ℕ) → Scan → Option (Option Endpoint)
  unfolding endpoint_family
  stored tcp_port r = if fits 10 r.tps && fits 48 r.addr then some (converted tcp_port r) else none

  -- `ParseEndpoint`.
  unfoldable pub parse_endpoint : EndpointRep → Option (Option Endpoint)
  unfolding stored scan
  parse_endpoint e =
      if e.ep_allocated
      then elim e.ep [
        | none ↦ some (
            some (record {
              tps = none;
              addr = none;
              family = no_flags;
              port = 0;
              pri = cast_or (2 ^ 16) 1 e.tcp_port;
            }))
        | some s ↦ if e.blocks_allocated then stored e.tcp_port (scan s) else some none
      ]
      else some none

  -- A round of the loop, with what follows it. Where an endpoint is not parsed, `exit` frees the
  -- payloads of all of them, and those of the endpoints in front were destroyed in the loop.
  abbrev pub next_endpoint :
      Bool → Option (Option (List Endpoint)) → Option Endpoint → Option (Option (List Endpoint))
  next_endpoint destroyed rest none = if destroyed then none else some none
  next_endpoint destroyed rest (some ep) = rest >>= λ eps. some (eps >>= λ eps'. some (ep ∷ eps'))

  -- The loop over the endpoints, and whether there were any in front.
  unfoldable pub parse_endpoints : Bool → List EndpointRep → Option (Option (List Endpoint))
  unfolding parse_endpoint
  parse_endpoints destroyed [] = some (some [])
  parse_endpoints destroyed (e ∷ es) =
      let rest = parse_endpoints true es in parse_endpoint e >>= next_endpoint destroyed rest

  -- `ParseLink`.
  unfoldable pub parse_link : LinkRep → Option (Option Link)
  unfolding parse_endpoints with_policy
  parse_link r =
      if r.rp_allocated
      then (do
        eps ← parse_endpoints false (or_else [] r.endpoints)
        some (
            eps >>= λ eps'. some (
              with_policy oc.tcp_adapter r.policy (record {
                uri = or_else r.payload_uri r.href;
                rel = r.rel;
                anchor = r.anchor;
                types = or_else r.payload_types r.resource_types;
                interfaces = or_else r.payload_interfaces r.interfaces;
                bitmap = 0;
                secure = false;
                port = 0;
                tcp_port = 0;
                eps = eps';
              }))))
      else some none
