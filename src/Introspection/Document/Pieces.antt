-- ===== src/Introspection/Document/Pieces.antt =====
-- The bytes that the parts of `Introspect`, src/introspection.cpp, encode.
use hanfun_io_tivity.Prelude.{ℕ, true, [], ◌++◌, refl, sym, inl, inr, append-nil}
use hanfun_io_tivity.Prelude.Bytes.{Bytes, codes}
use hanfun_io_tivity.Introspection.Document.{
  Cbor, State, then_call, container, pair, info, one_text, empty_map, fill_map,
}
use hanfun_io_tivity.Introspection.Document.Encoded.{
  IsCbor, Wrote, Near, then_call-Wrote, container-Wrote,
}

module _ (cb : Cbor) (l : IsCbor cb) where
  abbrev pair_bytes : Bytes → Bytes → Bytes
  pair_bytes key value = l.text_bytes key ++ l.text_bytes value

  abbrev info_bytes : Bytes → Bytes → Bytes
  info_bytes title version =
      l.text_bytes (codes "info")
      ++ (l.map_bytes
          ++ ((pair_bytes (codes "title") title ++ pair_bytes (codes "version") version)
              ++ l.map_end))

  abbrev list_bytes : Bytes → Bytes → Bytes
  list_bytes key value = l.text_bytes key ++ (l.array_bytes 1 ++ (l.text_bytes value ++ []))

  abbrev empty_map_bytes : Bytes → Bytes
  empty_map_bytes key = l.text_bytes key ++ (l.map_bytes ++ ([] ++ l.map_end))

  abbrev fields_bytes : Bytes → Bytes → Bytes
  fields_bytes title version =
      (((((pair_bytes (codes "swagger") (codes "2.0") ++ info_bytes title version)
              ++ list_bytes (codes "schemes") (codes "http"))
            ++ list_bytes (codes "consumes") (codes "application/json"))
          ++ list_bytes (codes "produces") (codes "application/json"))
        ++ empty_map_bytes (codes "paths"))
      ++ empty_map_bytes (codes "definitions")

  -- The whole document: a map of indefinite length.
  unfoldable pub document : Bytes → Bytes → Bytes
  document title version = l.map_bytes ++ (fields_bytes title version ++ l.map_end)

  near : (e : cb.Encoder) (w : Bytes) (s : State cb) → Wrote cb l e w s → Near cb l e w s
  near e w s (f, h) = (f, inr h)

  start : (e : cb.Encoder) → Near cb l e [] (e, 0)
  start e = ((sym (append-nil (l.written e)), refl, refl), inl refl)

  text-Wrote : (t : Bytes) (e : cb.Encoder) → Wrote cb l e (l.text_bytes t) (cb.text t e)
  text-Wrote t e = let (a, b, c, d) = l.text_lem t e in ((a, b, c), d)

  -- A call behind others, and one behind a first text.
  after :
      (call : cb.Encoder → State cb) (v : Bytes) (e : cb.Encoder) (w : Bytes) (s : State cb)
      → ((e' : cb.Encoder) → Wrote cb l e' v (call e'))
      → Near cb l e w s
      → Near cb l e (w ++ v) (then_call cb call s)
  after call v e w s h n =
      near e (w ++ v) (then_call cb call s) (then_call-Wrote cb l call v e w s h n)

  first_text :
      (key : Bytes) (e : cb.Encoder)
      → Near cb l e (l.text_bytes key) (then_call cb (cb.text key) (e, 0))
  first_text key e = after (cb.text key) (l.text_bytes key) e [] (e, 0) (text-Wrote key) (start e)

  pair-Wrote :
      (key value : Bytes) (e : cb.Encoder)
      → Wrote cb l e (pair_bytes key value) (pair cb key value e)
  unfolding pair
  pair-Wrote key value e =
      then_call-Wrote cb l (cb.text value) (l.text_bytes value) e (l.text_bytes key)
        (then_call cb (cb.text key) (e, 0)) (text-Wrote value) (first_text key e)

  info-Wrote :
      (title version : Bytes) (e : cb.Encoder)
      → Wrote cb l e (info_bytes title version) (info cb title version e)
  unfolding info
  info-Wrote title version e =
      container-Wrote cb l cb.create_map l.map_bytes l.map_end
        (λ s.
          then_call cb (pair cb (codes "version") version)
            (then_call cb (pair cb (codes "title") title) s))
        (pair_bytes (codes "title") title ++ pair_bytes (codes "version") version) e
        (l.text_bytes (codes "info")) (then_call cb (cb.text (codes "info")) (e, 0))
        l.create_map_lem
        (λ c s n.
          after (pair cb (codes "version") version) (pair_bytes (codes "version") version) c
            (pair_bytes (codes "title") title) (then_call cb (pair cb (codes "title") title) s)
            (pair-Wrote (codes "version") version)
            (after (pair cb (codes "title") title) (pair_bytes (codes "title") title) c [] s
              (pair-Wrote (codes "title") title) n))
        (first_text (codes "info") e)

  one_text-Wrote :
      (key value : Bytes) (e : cb.Encoder)
      → Wrote cb l e (list_bytes key value) (one_text cb key value e)
  unfolding one_text
  one_text-Wrote key value e =
      container-Wrote cb l (cb.create_array 1) (l.array_bytes 1) []
        (λ s. then_call cb (cb.text value) s) (l.text_bytes value) e (l.text_bytes key)
        (then_call cb (cb.text key) (e, 0)) (l.create_array_lem 1)
        (λ c s n. after (cb.text value) (l.text_bytes value) c [] s (text-Wrote value) n)
        (first_text key e)

  empty_map-Wrote :
      (key : Bytes) (e : cb.Encoder) → Wrote cb l e (empty_map_bytes key) (empty_map cb true key e)
  unfolding empty_map
  empty_map-Wrote key e =
      container-Wrote cb l cb.create_map l.map_bytes l.map_end (λ s. s) [] e (l.text_bytes key)
        (then_call cb (cb.text key) (e, 0)) l.create_map_lem (λ c s n. n) (first_text key e)

  list_after :
      (key value : Bytes) (e : cb.Encoder) (w : Bytes) (s : State cb)
      → Near cb l e w s
      → Near cb l e (w ++ list_bytes key value) (then_call cb (one_text cb key value) s)
  list_after key value e w s n =
      after (one_text cb key value) (list_bytes key value) e w s (one_text-Wrote key value) n

  map_after :
      (key : Bytes) (e : cb.Encoder) (w : Bytes) (s : State cb)
      → Near cb l e w s
      → Near cb l e (w ++ empty_map_bytes key) (then_call cb (empty_map cb true key) s)
  map_after key e w s n =
      after (empty_map cb true key) (empty_map_bytes key) e w s (empty_map-Wrote key) n

  fill_map-Near :
      (title version : Bytes) (c : cb.Encoder) (s : State cb)
      → Near cb l c [] s
      → Near cb l c (fields_bytes title version) (fill_map cb title version true s)
  unfolding fill_map
  fill_map-Near title version c s0 n0 =
      let s1 = then_call cb (pair cb (codes "swagger") (codes "2.0")) s0 in
      let n1 =
        after (pair cb (codes "swagger") (codes "2.0")) (pair_bytes (codes "swagger") (codes "2.0"))
          c [] s0 (pair-Wrote (codes "swagger") (codes "2.0")) n0 in
      let s2 = then_call cb (info cb title version) s1 in
      let n2 =
        after (info cb title version) (info_bytes title version) c _ s1 (info-Wrote title version)
          n1 in
      let s3 = then_call cb (one_text cb (codes "schemes") (codes "http")) s2 in
      let n3 = list_after (codes "schemes") (codes "http") c _ s2 n2 in
      let s4 = then_call cb (one_text cb (codes "consumes") (codes "application/json")) s3 in
      let n4 = list_after (codes "consumes") (codes "application/json") c _ s3 n3 in
      let s5 = then_call cb (one_text cb (codes "produces") (codes "application/json")) s4 in
      let n5 = list_after (codes "produces") (codes "application/json") c _ s4 n4 in
      let s6 = then_call cb (empty_map cb true (codes "paths")) s5 in
      let n6 = map_after (codes "paths") c _ s5 n5 in map_after (codes "definitions") c _ s6 n6

  -- The encoder and the error at the end of `Introspect`.
  pub whole-Wrote :
      (title version : Bytes) (size : ℕ)
      → Wrote cb l
          (cb.init size)
          (document title version)
          (container cb cb.create_map (fill_map cb title version true) (cb.init size, 0))
  unfolding document
  whole-Wrote title version size =
      container-Wrote cb l cb.create_map l.map_bytes l.map_end (fill_map cb title version true)
        (fields_bytes title version) (cb.init size) [] (cb.init size, 0) l.create_map_lem
        (λ c s n. fill_map-Near title version c s n) (start (cb.init size))
