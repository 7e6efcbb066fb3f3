-- ===== src/Occlient/Json/Sizes.antt =====
-- `ConvertJSONToCBOR` of src/tools/occlient.cpp gives a whole document or nothing.
use hanfun_io_tivity.Prelude.{
  ℕ, true, false, [], ◌++◌, Option, some, none, if◌then◌else◌, ◌==◌, leb, length, ◌≡◌, refl, sym,
  ap, arith, ◌∙◌, inl, inr, Bool-cases, append_assoc, append-nil, subst,
}
use hanfun_io_tivity.Prelude.Bytes.{Bytes}
use hanfun_io_tivity.Introspection.Document.Errors.{status}
use hanfun_io_tivity.Occlient.Json.{
  Json, json, Value, boolean, null, number, string, array, object, other, Jsons, end, item,
  array_size, Cbor, convert_key, close, convert, convert_value, convert_children, finish,
  convert_parsed, convert_json,
}
use hanfun_io_tivity.Occlient.Json.Encoded.{
  IsCbor, key_bytes, json_bytes, value_bytes, children_bytes, fits, Follows, Result, Result-fits,
  Result-fails, Follows-then, Result-more,
}

module _ (cb : Cbor) (l : IsCbor cb) where
  -- A call that adds its bytes.
  Result-call :
      (e : cb.Encoder) (v : Bytes) (s : cb.Encoder × ℕ)
      → (l.written s.0 ≡ l.written e ++ v)
        × (l.capacity s.0 ≡ l.capacity e)
        × (s.1 ≡ status l.out_of_memory (l.capacity e) (length (l.written e ++ v)))
      → Result cb l e v s
  Result-call e v s (a, b, c) = (c, λ k. (a, b))

  -- A key: its error tells whether it fits.
  convert_key-Result :
      (key : Option Bytes) (e : cb.Encoder)
      → fits cb l e [] ≡ true
      → Follows cb l e (key_bytes cb l key) (convert_key cb key e).0
        × Result cb l e (key_bytes cb l key) (convert_key cb key e)
  unfolding convert_key
  convert_key-Result none e h =
      let same : Follows cb l e [] e = (sym (append-nil (l.written e)), refl) in
      (same, (ap (λ b. if b then 0 else l.out_of_memory) (sym h), λ k. same))
  convert_key-Result (some key) e h =
      let (a, b, c) = l.text_lem key e in
      ((a, b), Result-call e (l.text_bytes key) (cb.text key e) (a, b, c))

  close-Result :
      (e : cb.Encoder) (v : Bytes) (e' : cb.Encoder) (s : cb.Encoder × ℕ)
      → Result cb l e v s
      → Result cb l e v (close cb e' s)
  unfolding close
  close-Result e v e' (child, err) r = elim (Bool-cases (err == 0)) [
    | inl worked ↦
        let closed : Result cb l e (v ++ []) (cb.close_container e' child) =
          Follows-then cb l e v child [] (cb.close_container e' child)
            (r.1 (Result-fits cb l e v (child, err) r worked))
            (Result-call child [] (cb.close_container e' child) (l.close_container_lem e' child)) in
        let here : Result cb l e v (cb.close_container e' child) =
          subst (λ t. Result cb l e t (cb.close_container e' child)) (append-nil v) closed in
        rw worked here
    | inr failed ↦
        let more : Result cb l e (v ++ []) (e', err) =
          Result-more cb l e v [] (child, err) e' r failed in
        let here : Result cb l e v (e', err) =
          subst (λ t. Result cb l e t (e', err)) (append-nil v) more in
        rw failed here
  ]

  mutual
    unfolding convert convert_value convert_children json_bytes value_bytes children_bytes

    convert-Result :
        (j : Json) (e : cb.Encoder)
        → fits cb l e [] ≡ true
        → Result cb l e (json_bytes cb l j) (convert cb j e)
    convert-Result (json key v) e h =
        let (f, r) = convert_key-Result key e h in
        convert_value-Result v e (key_bytes cb l key) (convert_key cb key e) f r

    convert_value-Result :
        (v : Value) (e : cb.Encoder) (k : Bytes) (s : cb.Encoder × ℕ)
        → Follows cb l e k s.0
        → Result cb l e k s
        → Result cb l e (k ++ value_bytes cb l v) (convert_value cb v s)
    convert_value-Result (boolean b) e k (e', err) f r =
        Follows-then cb l e k e' _ (cb.boolean b e') f (Result-call e' _ _ (l.boolean_lem b e'))
    convert_value-Result null e k (e', err) f r =
        Follows-then cb l e k e' _ (cb.null e') f (Result-call e' _ _ (l.null_lem e'))
    convert_value-Result (number d) e k (e', err) f r =
        Follows-then cb l e k e' _ (cb.double d e') f (Result-call e' _ _ (l.double_lem d e'))
    convert_value-Result (string t) e k (e', err) f r =
        Follows-then cb l e k e' _ (cb.text t e') f (Result-call e' _ _ (l.text_lem t e'))
    convert_value-Result (array js) e k (e', err) f r =
        let c = cb.create_array (array_size js) e' in
        Follows-then cb l e k e' _ _ f (
          close-Result e' _ c.0 _ (
            convert_children-Result js e' (l.array_bytes (array_size js)) (c.1, c.2)
              (Result-call e' _ (c.1, c.2) (l.create_array_lem (array_size js) e'))))
    convert_value-Result (object js) e k (e', err) f r =
        let c = cb.create_map (array_size js) e' in
        Follows-then cb l e k e' _ _ f (
          close-Result e' _ c.0 _ (
            convert_children-Result js e' (l.map_bytes (array_size js)) (c.1, c.2)
              (Result-call e' _ (c.1, c.2) (l.create_map_lem (array_size js) e'))))
    convert_value-Result other e k (e', err) f r =
        subst (λ t. Result cb l e t (e', err)) (sym (append-nil k)) r

    convert_children-Result :
        (js : Jsons) (e : cb.Encoder) (w : Bytes) (s : cb.Encoder × ℕ)
        → Result cb l e w s
        → Result cb l e (w ++ children_bytes cb l js) (convert_children cb js s)
    convert_children-Result end e w (child, err) r =
        subst (λ t. Result cb l e t (child, err)) (sym (append-nil w)) r
    convert_children-Result (item j js) e w (child, err) r = elim (Bool-cases (err == 0)) [
      | inl worked ↦
          let inside : fits cb l e w ≡ true = Result-fits cb l e w (child, err) r worked in
          let (a, b) = r.1 inside in
          let room : fits cb l child [] ≡ true =
            ap (λ (t : Bytes). leb (length t) (l.capacity child)) (append-nil (l.written child) ∙ a)
            ∙ ap (leb (length (l.written e ++ w))) b
            ∙ inside in
          let one : Result cb l e (w ++ json_bytes cb l j) (convert cb j child) =
            Follows-then cb l e w child _ (convert cb j child) (a, b)
              (convert-Result j child room) in
          let all_of : Result cb l e ((w ++ json_bytes cb l j) ++ children_bytes cb l js)
              (convert_children cb js (convert cb j child)) =
            convert_children-Result js e (w ++ json_bytes cb l j) (convert cb j child) one in
          let here : Result cb l e (w ++ (json_bytes cb l j ++ children_bytes cb l js))
              (convert_children cb js (convert cb j child)) =
            subst (λ t. Result cb l e t (convert_children cb js (convert cb j child)))
              (append_assoc w (json_bytes cb l j) (children_bytes cb l js)) all_of in
          rw worked here
      | inr failed ↦
          let here : Result cb l e (w ++ (json_bytes cb l j ++ children_bytes cb l js))
              (child, err) =
            Result-more cb l e w (json_bytes cb l j ++ children_bytes cb l js) (child, err) child r
              failed in
          rw failed here
    ]

  finish-Result :
      (e : cb.Encoder) (v : Bytes) (s : cb.Encoder × ℕ)
      → l.written e ≡ []
      → Result cb l e v s
      → finish cb s ≡ (if fits cb l e v then v else [])
  unfolding finish
  finish-Result e v (e', err) empty r = elim (Bool-cases (err == 0)) [
    | inl worked ↦
        let inside : fits cb l e v ≡ true = Result-fits cb l e v (e', err) r worked in
        let (a, b) = r.1 inside in
        let room : leb (length (l.written e')) (l.capacity e') ≡ true =
          ap (λ (t : Bytes). leb (length t) (l.capacity e')) a
          ∙ ap (leb (length (l.written e ++ v))) b
          ∙ inside in
        let bytes : l.written e' ≡ v = a ∙ ap (λ t. t ++ v) empty in
        rw worked (l.buffer_lem e' room ∙ bytes ∙ sym (ap (λ b'. if b' then v else []) inside))
    | inr failed ↦
        let over : fits cb l e v ≡ false = Result-fails cb l e v (e', err) r failed in
        rw failed (sym (ap (λ b. if b then v else []) over))
  ]

  -- Of the JSON of a text the bytes are all of the document where they fit in the buffer, and none where
  -- they do not.
  pub convert_json-json_bytes :
      (parse : Bytes → Option Json) (size : ℕ) (text : Bytes) (j : Json)
      → parse text ≡ some j
      → convert_json cb parse size text
        ≡ (if leb (length (json_bytes cb l j)) size then json_bytes cb l j else [])
  unfolding convert_json
  convert_json-json_bytes parse size text j p =
      let (empty, cap) = l.init_lem size in
      let room : fits cb l (cb.init size) [] ≡ true =
        ap (λ (t : Bytes). leb (length (t ++ [])) (l.capacity (cb.init size))) empty
        ∙ ground arith in
      let r = convert-Result j (cb.init size) room in
      let same : fits cb l (cb.init size) (json_bytes cb l j)
          ≡ leb (length (json_bytes cb l j)) size =
        ap (λ t. leb (length (t ++ json_bytes cb l j)) (l.capacity (cb.init size))) empty
        ∙ ap (leb (length (json_bytes cb l j))) cap in
      ap (convert_parsed cb size) p
      ∙ finish-Result (cb.init size) (json_bytes cb l j) (convert cb j (cb.init size)) empty r
      ∙ ap (λ b. if b then json_bytes cb l j else []) same
