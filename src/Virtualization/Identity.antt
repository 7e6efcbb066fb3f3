-- ===== src/Virtualization/Identity.antt =====
-- `Hash` of src/hash.cpp, and the identifiers that src/device_information.cpp makes of it. SHA-1, by
-- OpenSSL, is a parameter, `none` where one of its calls fails; so are OCConvertUuidToString, `none`
-- for false, and what a variable on the stack holds that nothing was stored in.
use hanfun_io_tivity.Prelude.{
  ℕ, ◌+◌, ◌%◌, ◌/◌, ◌<◌, [], ◌∷◌, ◌++◌, Option, some, none, ◌>>=◌, length, take, set, get_elem?,
  length-set, get_elem?-set_same, get_elem?-set_other, get_elem?-take, length-take, ◌≡◌, refl, sym,
  ap, ◌∙◌, arith, ◌≢◌, subst,
}
use hanfun_io_tivity.Prelude.Bytes.{Bytes, c_str}

-- What is not of the repository: SHA-1 and the text of an identifier, and the contents of a digest
-- and of an identifier that were not set.
pub record Library : Type 0 where
  pub sha1 : Bytes → Option Bytes
  pub uuid_text : Bytes → Option Bytes
  pub unset_digest : Bytes
  pub unset_id : Bytes

-- The name space `ns`.
abbrev pub namespace : Bytes
namespace =
    235 ∷ 130 ∷ 66 ∷ 253 ∷ 93 ∷ 149 ∷ 70 ∷ 146 ∷ 128 ∷ 246 ∷ 121 ∷ 50 ∷ 32 ∷ 97 ∷ 184 ∷ 255 ∷ []

-- `(b & 0x0f) | 0x50` and `(b & 0x3f) | 0x80`.
unfoldable pub with_version : ℕ → ℕ
with_version b = b % 16 + 80

unfoldable pub with_variant : ℕ → ℕ
with_variant b = b % 64 + 128

-- `digest[i] = f(digest[i])`.
unfoldable modify : ℕ → (ℕ → ℕ) → Bytes → Bytes
modify i f d = elim (get_elem? d i) [ none ↦ d | some b ↦ set d i (f b) ]

-- The end of `Hash`.
unfoldable pub finish : Bytes → Bytes
unfolding modify
finish digest = take 16 (modify 8 with_variant (modify 7 with_version digest))

-- `digest` after the calls of SHA-1, which on a failure are only logged.
unfoldable pub digest : Library → Bytes → Bytes
digest lib text = elim (lib.sha1 text) [ some d ↦ d | none ↦ lib.unset_digest ]

-- `Hash(OCUUIdentity *, const char *)`; NULL adds nothing.
unfoldable pub hash_uid : Library → Option Bytes → Bytes
unfolding finish digest
hash_uid lib none = finish (digest lib namespace)
hash_uid lib (some uid) = finish (digest lib (namespace ++ c_str uid))

-- `Hash(OCUUIdentity *, uint8_t *, uint8_t *)`, for an IPUI and an EMC.
unfoldable pub hash : Library → Bytes → Bytes → Bytes
unfolding finish digest
hash lib ipui emc = finish (digest lib (namespace ++ (take 5 ipui ++ take 2 emc)))

-- `GetProtocolIndependentId` of an IPUI and an EMC, which may be NULL; `none` for false.
unfoldable pub get_protocol_independent_id : Library → Option Bytes → Option Bytes → Option Bytes
unfolding hash
get_protocol_independent_id lib none emc = none
get_protocol_independent_id lib (some ipui) none = none
get_protocol_independent_id lib (some ipui) (some emc) = lib.uuid_text (hash lib ipui emc)

-- `GetPlatformId` of an IPUI and an EMC: for NULL, the text of an identifier that was not set.
unfoldable pub get_platform_id : Library → Option Bytes → Option Bytes → Option Bytes
unfolding hash
get_platform_id lib none emc = lib.uuid_text lib.unset_id
get_platform_id lib (some ipui) none = lib.uuid_text lib.unset_id
get_platform_id lib (some ipui) (some emc) = lib.uuid_text (hash lib ipui emc)

-- The version of a UUID, by RFC 4122: the upper half of octet 6.
abbrev pub version : Bytes → Option ℕ
version id = get_elem? id 6 >>= λ v. some (v / 16)

-- The first 16 bytes of a digest, with the upper half of octet 7 set to 5 and the upper bits of octet 8
-- to the variant of RFC 4122.
unfoldable pub IsMarked : Bytes → Bytes → Type 0
IsMarked d id =
    (length id ≡ 16)
    × ((i : ℕ) → i < 16 → i ≢ 7 → i ≢ 8 → get_elem? id i ≡ get_elem? d i)
    × ((v : ℕ)
        → get_elem? d 7 ≡ some v
        → (w : ℕ) × (get_elem? id 7 ≡ some w) × (w / 16 ≡ 5) × (w % 16 ≡ v % 16))
    × ((v : ℕ)
        → get_elem? d 8 ≡ some v
        → (w : ℕ) × (get_elem? id 8 ≡ some w) × (w / 64 ≡ 2) × (w % 64 ≡ v % 64))

length-modify : (i : ℕ) (f : ℕ → ℕ) (d : Bytes) → length (modify i f d) ≡ length d
unfolding modify
length-modify i f d = go (get_elem? d i)
  where
    go : (o : Option ℕ) → length (elim o [ none ↦ d | some b ↦ set d i (f b) ]) ≡ length d
    go none = refl
    go (some b) = length-set d i (f b)

get_elem?-modify_same :
    (i : ℕ) (f : ℕ → ℕ) (d : Bytes) (v : ℕ)
    → get_elem? d i ≡ some v
    → get_elem? (modify i f d) i ≡ some (f v)
unfolding modify
get_elem?-modify_same i f d v h =
    ap (λ (o : Option ℕ). get_elem? (elim o [ none ↦ d | some b ↦ set d i (f b) ]) i) h
    ∙ get_elem?-set_same d i v (f v) h

get_elem?-modify_other :
    (i j : ℕ) (f : ℕ → ℕ) (d : Bytes) → j ≢ i → get_elem? (modify i f d) j ≡ get_elem? d j
unfolding modify
get_elem?-modify_other i j f d h = go (get_elem? d i)
  where
    go : (o : Option ℕ) → get_elem? (elim o [ none ↦ d | some b ↦ set d i (f b) ]) j ≡ get_elem? d j
    go none = refl
    go (some b) = get_elem?-set_other d i j (f b) h

finish-IsMarked : (d : Bytes) → length d ≡ 20 → IsMarked d (finish d)
unfolding IsMarked finish with_version with_variant
finish-IsMarked d h =
    let d' : Bytes = modify 7 with_version d in
    let d'' : Bytes = modify 8 with_variant d' in
    let l = length-modify 7 with_version d in
    let l' = length-modify 8 with_variant d' in
    (
      length-take 16 d'' (omega arith),
      λ i below n7 n8.
          get_elem?-take 16 i d'' below
          ∙ get_elem?-modify_other 8 i with_variant d' n8
          ∙ get_elem?-modify_other 7 i with_version d n7,
      λ v e. (
        with_version v,
        get_elem?-take 16 7 d'' (omega arith)
            ∙ get_elem?-modify_other 8 7 with_variant d' (λ k. omega arith)
            ∙ get_elem?-modify_same 7 with_version d v e,
        omega arith,
        omega arith,
      ),
      λ v e. (
        with_variant v,
        get_elem?-take 16 8 d'' (omega arith)
            ∙ get_elem?-modify_same 8 with_variant d' v
                (get_elem?-modify_other 7 8 with_version d (λ k. omega arith) ∙ e),
        omega arith,
        omega arith,
      ),
    )

-- Where SHA-1 gives a digest of its 20 bytes, the identifier of a device is the digest's first 16 bytes
-- with the 5 of a version in octet 7 and the variant in octet 8; but RFC 4122 has the version in octet
-- 6, so the version of the identifier is whatever the digest has there, and not 5.
pub hash-version :
    (lib : Library) (ipui emc d : Bytes)
    → lib.sha1 (namespace ++ (take 5 ipui ++ take 2 emc)) ≡ some d
    → length d ≡ 20
    → IsMarked d (hash lib ipui emc) × (version (hash lib ipui emc) ≡ version d)
unfolding hash digest IsMarked
hash-version lib ipui emc d e h =
    let marked : IsMarked d (hash lib ipui emc) =
      subst
        (λ (o : Option Bytes).
          IsMarked d (finish (elim o [ some x ↦ x | none ↦ lib.unset_digest ])))
        (sym e) (finish-IsMarked d h) in
    (
      marked,
      ap (λ (o : Option ℕ). o >>= λ v. some (v / 16))
          (marked.1 6 (omega arith) (λ k. omega arith) (λ k. omega arith)),
    )
