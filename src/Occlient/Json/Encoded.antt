-- ===== src/Occlient/Json/Encoded.antt =====
-- What `ConvertJSONToCBOR` of src/tools/occlient.cpp relies on of TinyCBOR, and the bytes of a document.
use hanfun_io_tivity.Prelude.{
  ℕ, ◌≤◌, Bool, true, false, [], ◌++◌, Option, some, none, if◌then◌else◌, ◌==◌, leb, length,
  length-append, take, ◌≡◌, sym, ap, ◌∙◌, inl, inr, Bool-cases, append_assoc, arith,
}
use hanfun_io_tivity.Prelude.Bytes.{Bytes}
use hanfun_io_tivity.Introspection.Document.Errors.{status}
use hanfun_io_tivity.Occlient.Json.{
  Json, json, Value, boolean, null, number, string, array, object, other, Jsons, end, item,
  array_size, Cbor,
}

-- TinyCBOR as it is documented, without the count of a container's items: a call adds its bytes, counts
-- behind the end of the buffer and returns an error there; closing a container adds nothing.
pub record IsCbor (cb : Cbor) : Type 0 where
  pub written : cb.Encoder → Bytes
  pub capacity : cb.Encoder → ℕ
  pub out_of_memory : ℕ
  pub memory : (out_of_memory == 0) ≡ false
  pub text_bytes : Bytes → Bytes
  pub boolean_bytes : Bool → Bytes
  pub null_bytes : Bytes
  pub double_bytes : ℕ → Bytes
  pub array_bytes : ℕ → Bytes
  pub map_bytes : ℕ → Bytes
  pub init_lem : (n : ℕ) → (written (cb.init n) ≡ []) × (capacity (cb.init n) ≡ n)
  pub text_lem :
      (s : Bytes) (e : cb.Encoder)
      → (written (cb.text s e).0 ≡ written e ++ text_bytes s)
        × (capacity (cb.text s e).0 ≡ capacity e)
        × ((cb.text s e).1 ≡ status out_of_memory (capacity e) (length (written e ++ text_bytes s)))
  pub boolean_lem :
      (b : Bool) (e : cb.Encoder)
      → (written (cb.boolean b e).0 ≡ written e ++ boolean_bytes b)
        × (capacity (cb.boolean b e).0 ≡ capacity e)
        × ((cb.boolean b e).1
            ≡ status out_of_memory (capacity e) (length (written e ++ boolean_bytes b)))
  pub null_lem :
      (e : cb.Encoder)
      → (written (cb.null e).0 ≡ written e ++ null_bytes)
        × (capacity (cb.null e).0 ≡ capacity e)
        × ((cb.null e).1 ≡ status out_of_memory (capacity e) (length (written e ++ null_bytes)))
  pub double_lem :
      (d : ℕ) (e : cb.Encoder)
      → (written (cb.double d e).0 ≡ written e ++ double_bytes d)
        × (capacity (cb.double d e).0 ≡ capacity e)
        × ((cb.double d e).1
            ≡ status out_of_memory (capacity e) (length (written e ++ double_bytes d)))
  pub create_array_lem :
      (n : ℕ) (e : cb.Encoder)
      → (written (cb.create_array n e).1 ≡ written e ++ array_bytes n)
        × (capacity (cb.create_array n e).1 ≡ capacity e)
        × ((cb.create_array n e).2
            ≡ status out_of_memory (capacity e) (length (written e ++ array_bytes n)))
  pub create_map_lem :
      (n : ℕ) (e : cb.Encoder)
      → (written (cb.create_map n e).1 ≡ written e ++ map_bytes n)
        × (capacity (cb.create_map n e).1 ≡ capacity e)
        × ((cb.create_map n e).2
            ≡ status out_of_memory (capacity e) (length (written e ++ map_bytes n)))
  pub close_container_lem :
      (e child : cb.Encoder)
      → (written (cb.close_container e child).0 ≡ written child ++ [])
        × (capacity (cb.close_container e child).0 ≡ capacity child)
        × ((cb.close_container e child).1
            ≡ status out_of_memory (capacity child) (length (written child ++ [])))
  pub buffer_lem :
      (e : cb.Encoder)
      → leb (length (written e)) (capacity e) ≡ true
      → take (cb.buffer_size e) (cb.content e) ≡ written e

module _ (cb : Cbor) (l : IsCbor cb) where
  abbrev pub key_bytes : Option Bytes → Bytes
  key_bytes none = []
  key_bytes (some key) = l.text_bytes key

  unfoldable mutual
    -- A document in CBOR: keys, values, and containers with their size in front.
    pub json_bytes : Json → Bytes
    json_bytes (json key v) = key_bytes key ++ value_bytes v

    pub value_bytes : Value → Bytes
    value_bytes (boolean b) = l.boolean_bytes b
    value_bytes null = l.null_bytes
    value_bytes (number d) = l.double_bytes d
    value_bytes (string s) = l.text_bytes s
    value_bytes (array js) = l.array_bytes (array_size js) ++ children_bytes js
    value_bytes (object js) = l.map_bytes (array_size js) ++ children_bytes js
    value_bytes other = []

    pub children_bytes : Jsons → Bytes
    children_bytes end = []
    children_bytes (item j js) = json_bytes j ++ children_bytes js

  abbrev pub fits : cb.Encoder → Bytes → Bool
  fits e v = leb (length (l.written e ++ v)) (l.capacity e)

  -- The bytes follow those of an encoder in the same buffer.
  abbrev pub Follows : cb.Encoder → Bytes → cb.Encoder → Type 0
  Follows e v e' = (l.written e' ≡ l.written e ++ v) × (l.capacity e' ≡ l.capacity e)

  -- The error tells whether they fit, and if so they were written.
  abbrev pub Result : cb.Encoder → Bytes → cb.Encoder × ℕ → Type 0
  Result e v s =
      (s.1 ≡ status l.out_of_memory (l.capacity e) (length (l.written e ++ v)))
      × (fits e v ≡ true → Follows e v s.0)

  pub Result-fits :
      (e : cb.Encoder) (v : Bytes) (s : cb.Encoder × ℕ)
      → Result e v s
      → (s.1 == 0) ≡ true
      → fits e v ≡ true
  Result-fits e v s (h, f) k = elim (Bool-cases (fits e v)) [
    | inl inside ↦ inside
    | inr over ↦
        let failed : s.1 ≡ l.out_of_memory = h ∙ ap (λ b. if b then 0 else l.out_of_memory) over in
        let clash : true ≡ false = sym k ∙ ap (λ n. n == 0) failed ∙ l.memory in cc
  ]

  pub Result-fails :
      (e : cb.Encoder) (v : Bytes) (s : cb.Encoder × ℕ)
      → Result e v s
      → (s.1 == 0) ≡ false
      → fits e v ≡ false
  Result-fails e v s (h, f) k = elim (Bool-cases (fits e v)) [
    | inl inside ↦
        let worked : s.1 ≡ 0 = h ∙ ap (λ b. if b then 0 else l.out_of_memory) inside in
        let clash : false ≡ true = sym k ∙ ap (λ n. n == 0) worked in cc
    | inr over ↦ over
  ]

  -- More bytes, behind bytes that were written.
  pub Follows-then :
      (e : cb.Encoder) (v : Bytes) (e' : cb.Encoder) (w : Bytes) (s : cb.Encoder × ℕ)
      → Follows e v e'
      → Result e' w s
      → Result e (v ++ w) s
  Follows-then e v e' w s (a, b) (h, f) =
      let bytes : l.written e' ++ w ≡ l.written e ++ (v ++ w) =
        ap (λ t. t ++ w) a ∙ append_assoc (l.written e) v w in
      let same : fits e' w ≡ fits e (v ++ w) =
        ap (λ (t : Bytes). leb (length t) (l.capacity e')) bytes
        ∙ ap (leb (length (l.written e ++ (v ++ w)))) b in
      (
        h
            ∙ ap (λ (t : Bytes). status l.out_of_memory (l.capacity e') (length t)) bytes
            ∙ ap (λ n. status l.out_of_memory n (length (l.written e ++ (v ++ w)))) b,
        λ k. let (wr, cap) = f (same ∙ k) in (wr ∙ bytes, cap ∙ b),
      )

  -- No more bytes behind a failure.
  pub Result-more :
      (e : cb.Encoder) (v w : Bytes) (s : cb.Encoder × ℕ) (e' : cb.Encoder)
      → Result e v s
      → (s.1 == 0) ≡ false
      → Result e (v ++ w) (e', s.1)
  Result-more e v w s e' r k =
      let over : fits e v ≡ false = Result-fails e v s r k in
      let longer : length (l.written e ++ v) ≤ length (l.written e ++ (v ++ w)) = omega (
        arith,
        length-append {0} (l.written e) v,
        length-append {0} (l.written e) (v ++ w),
        length-append {0} v w,
      ) in
      let over' : fits e (v ++ w) ≡ false = ground arith in
      (
        r.0
            ∙ ap (λ b. if b then 0 else l.out_of_memory) over
            ∙ ap (λ b. if b then 0 else l.out_of_memory) (sym over'),
        λ inside. let clash : false ≡ true = sym over' ∙ inside in cc,
      )
