-- ===== src/Introspection/Document/Encoded.antt =====
-- What src/introspection.cpp relies on of TinyCBOR, and the bytes that `Introspect` encodes.
use Prim.Native.Nat.{bit_or}
use hanfun_io_tivity.Prelude.{
  ℕ, ◌+◌, ◌≤◌, true, false, [], ◌++◌, ◌==◌, leb, length, length-append, take, ◌≡◌, refl, sym, ap,
  ◌∙◌, ◌⊎◌, inl, inr, Bool-cases, append_assoc, append-nil, ==_refl, arith,
}
use hanfun_io_tivity.Prelude.Bytes.{Bytes}
use hanfun_io_tivity.Introspection.Document.{Cbor, State, is_fatal, then_call, container}
use hanfun_io_tivity.Introspection.Document.Errors.{status, bit_or-status}

-- TinyCBOR as it is documented: after the buffer is full the calls go on, return that error and count;
-- a map of indefinite length ends with a break, an array of a given length with nothing.
pub record IsCbor (cb : Cbor) : Type 0 where
  pub written : cb.Encoder → Bytes
  pub capacity : cb.Encoder → ℕ
  pub ending : cb.Encoder → Bytes
  pub text_bytes : Bytes → Bytes
  pub map_bytes : Bytes
  pub map_end : Bytes
  pub array_bytes : ℕ → Bytes
  pub memory : (cb.out_of_memory == 0) ≡ false
  pub init_lem : (n : ℕ) → (written (cb.init n) ≡ []) × (capacity (cb.init n) ≡ n)
  pub text_lem :
      (s : Bytes) (e : cb.Encoder)
      → (written (cb.text s e).0 ≡ written e ++ text_bytes s)
        × (capacity (cb.text s e).0 ≡ capacity e)
        × (ending (cb.text s e).0 ≡ ending e)
        × ((cb.text s e).1
            ≡ status cb.out_of_memory (capacity e) (length (written e ++ text_bytes s)))
  pub create_map_lem :
      (e : cb.Encoder)
      → (ending (cb.create_map e).0 ≡ ending e)
        × (written (cb.create_map e).1 ≡ written e ++ map_bytes)
        × (capacity (cb.create_map e).1 ≡ capacity e)
        × (ending (cb.create_map e).1 ≡ map_end)
        × ((cb.create_map e).2
            ≡ status cb.out_of_memory (capacity e) (length (written e ++ map_bytes)))
  pub create_array_lem :
      (n : ℕ) (e : cb.Encoder)
      → (ending (cb.create_array n e).0 ≡ ending e)
        × (written (cb.create_array n e).1 ≡ written e ++ array_bytes n)
        × (capacity (cb.create_array n e).1 ≡ capacity e)
        × (ending (cb.create_array n e).1 ≡ [])
        × ((cb.create_array n e).2
            ≡ status cb.out_of_memory (capacity e) (length (written e ++ array_bytes n)))
  pub close_container_lem :
      (e child : cb.Encoder)
      → (written (cb.close_container e child).0 ≡ written child ++ ending child)
        × (capacity (cb.close_container e child).0 ≡ capacity child)
        × (ending (cb.close_container e child).0 ≡ ending e)
        × ((cb.close_container e child).1
            ≡ status cb.out_of_memory (capacity child) (length (written child ++ ending child)))
  pub extra_bytes_needed_lem :
      (e : cb.Encoder)
      → leb (length (written e)) (capacity e) ≡ false
      → capacity e + cb.extra_bytes_needed e ≡ length (written e)
  pub buffer_size_lem :
      (e : cb.Encoder)
      → leb (length (written e)) (capacity e) ≡ true
      → cb.buffer_size e ≡ length (written e)
  pub content_lem :
      (e : cb.Encoder)
      → leb (length (written e)) (capacity e) ≡ true
      → take (length (written e)) (cb.content e) ≡ written e

module _ (cb : Cbor) (l : IsCbor cb) where
  -- The bytes follow those of an encoder in the same buffer.
  abbrev pub Follows : cb.Encoder → Bytes → State cb → Type 0
  Follows e w s =
      (l.written s.0 ≡ l.written e ++ w)
      × (l.capacity s.0 ≡ l.capacity e)
      × (l.ending s.0 ≡ l.ending e)

  abbrev pub status_of : cb.Encoder → Bytes → ℕ
  status_of e w = status cb.out_of_memory (l.capacity e) (length (l.written e ++ w))

  -- And the error is that of the last operation; or there was no operation yet.
  abbrev pub Wrote : cb.Encoder → Bytes → State cb → Type 0
  Wrote e w s = Follows e w s × (s.1 ≡ status_of e w)

  abbrev pub Near : cb.Encoder → Bytes → State cb → Type 0
  Near e w s = Follows e w s × ((s.1 ≡ 0) ⊎ (s.1 ≡ status_of e w))

  not_fatal :
      (err capacity a : ℕ)
      → (err ≡ 0) ⊎ (err ≡ status cb.out_of_memory capacity a)
      → is_fatal cb err ≡ false
  not_fatal err capacity a (inl e) = rw e refl
  not_fatal err capacity a (inr e) = elim (Bool-cases (leb a capacity)) [
    | inl fits ↦ rw (e, fits) refl
    | inr over ↦ rw (e, over, l.memory, ==_refl cb.out_of_memory) refl
  ]

  pub then_call-Wrote :
      (call : cb.Encoder → State cb) (v : Bytes) (e : cb.Encoder) (w : Bytes) (s : State cb)
      → ((e' : cb.Encoder) → Wrote e' v (call e'))
      → Near e w s
      → Wrote e (w ++ v) (then_call cb call s)
  unfolding then_call
  then_call-Wrote call v e w (e1, err) h ((hw, hc, he), hs) =
      let ((kw, kc, ke), ks) = h e1 in
      let bytes : l.written e1 ++ v ≡ l.written e ++ (w ++ v) =
        ap (λ t. t ++ v) hw ∙ append_assoc (l.written e) w v in
      let ks' : (call e1).1 ≡ status_of e (w ++ v) =
        ks
        ∙ ap (λ c. status cb.out_of_memory c (length (l.written e1 ++ v))) hc
        ∙ ap (λ (t : Bytes). status cb.out_of_memory (l.capacity e) (length t)) bytes in
      let shorter : length (l.written e ++ w) ≤ length (l.written e ++ (w ++ v)) = omega (
        arith,
        length-append {0} (l.written e) w,
        length-append {0} (l.written e) (w ++ v),
        length-append {0} w v,
      ) in
      rw (not_fatal err (l.capacity e) (length (l.written e ++ w)) hs) (
        (kw ∙ bytes, kc ∙ hc, ke ∙ he),
        ap (λ k. bit_or err k) ks'
            ∙ bit_or-status cb.out_of_memory (l.capacity e) (length (l.written e ++ w))
                (length (l.written e ++ (w ++ v))) err shorter hs,
      )

  -- The container that a call opens: what it writes first and last.
  abbrev pub Opens : (cb.Encoder → cb.Encoder × cb.Encoder × ℕ) → Bytes → Bytes → Type 0
  Opens create start finish =
      (e : cb.Encoder)
      → (l.ending (create e).0 ≡ l.ending e)
        × (l.written (create e).1 ≡ l.written e ++ start)
        × (l.capacity (create e).1 ≡ l.capacity e)
        × (l.ending (create e).1 ≡ finish)
        × ((create e).2 ≡ status_of e start)

  child-Near :
      (create : cb.Encoder → cb.Encoder × cb.Encoder × ℕ) (start finish : Bytes) (e : cb.Encoder)
      (w : Bytes) (e1 : cb.Encoder) (err : ℕ)
      → Opens create start finish
      → Near e w (e1, err)
      → Near (create e1).1 [] ((create e1).1, bit_or err (create e1).2)
  child-Near create start finish e w e1 err opens ((hw, hc, he), hs) =
      let (pe, cw, cc, ce, cs) = opens e1 in
      let shorter : length (l.written e ++ w) ≤ length (l.written e1 ++ start) =
        omega (arith, length-append {0} (l.written e1) start, ap length hw) in
      let opened : (create e1).2
          ≡ status cb.out_of_memory (l.capacity e) (length (l.written e1 ++ start)) =
        cs ∙ ap (λ c. status cb.out_of_memory c (length (l.written e1 ++ start))) hc in
      let child : status cb.out_of_memory (l.capacity e) (length (l.written e1 ++ start))
          ≡ status_of (create e1).1 [] =
        ap (λ c. status cb.out_of_memory c (length (l.written e1 ++ start))) (sym (cc ∙ hc))
        ∙ ap (λ (t : Bytes). status cb.out_of_memory (l.capacity (create e1).1) (length t))
            (sym cw ∙ sym (append-nil (l.written (create e1).1))) in
      (
        (sym (append-nil (l.written (create e1).1)), refl, refl),
        inr (
            ap (λ k. bit_or err k) opened
            ∙ bit_or-status cb.out_of_memory (l.capacity e) (length (l.written e ++ w))
                (length (l.written e1 ++ start)) err shorter hs
            ∙ child),
      )

  pub container-Wrote :
      (create : cb.Encoder → cb.Encoder × cb.Encoder × ℕ) (start finish : Bytes)
      (fill : State cb → State cb) (v : Bytes) (e : cb.Encoder) (w : Bytes) (s : State cb)
      → Opens create start finish
      → ((c : cb.Encoder) (s' : State cb) → Near c [] s' → Near c v (fill s'))
      → Near e w s
      → Wrote e (w ++ (start ++ (v ++ finish))) (container cb create fill s)
  unfolding container
  container-Wrote create start finish fill v e w (e1, err) opens filled ((hw, hc, he), hs) =
      let (pe, cw, cc, ce, cs) = opens e1 in
      let child = child-Near create start finish e w e1 err opens ((hw, hc, he), hs) in
      let s2 = fill ((create e1).1, bit_or err (create e1).2) in
      let ((fw, fc, fe), fs) =
        filled (create e1).1 ((create e1).1, bit_or err (create e1).2) child in
      let (gw, gc, ge, gs) = l.close_container_lem (create e1).0 s2.0 in
      let before : l.written s2.0 ≡ (l.written e ++ (w ++ start)) ++ v =
        fw ∙ ap (λ t. t ++ v) (cw ∙ ap (λ t. t ++ start) hw ∙ append_assoc (l.written e) w start) in
      let bytes : l.written s2.0 ++ l.ending s2.0 ≡ l.written e ++ (w ++ (start ++ (v ++ finish))) =
        ap (λ t. t ++ l.ending s2.0) before
        ∙ ap (λ t. ((l.written e ++ (w ++ start)) ++ v) ++ t) (fe ∙ ce)
        ∙ simp append_assoc in
      let room : l.capacity s2.0 ≡ l.capacity e = fc ∙ cc ∙ hc in
      let fs' : (s2.1 ≡ 0)
          ⊎ (s2.1 ≡ status cb.out_of_memory (l.capacity e) (length (l.written s2.0))) =
        elim fs [
          | inl x ↦ inl x
          | inr x ↦ inr (
              x
              ∙ ap (λ c. status cb.out_of_memory c (length (l.written (create e1).1 ++ v)))
                  (cc ∙ hc)
              ∙ ap (λ (t : Bytes). status cb.out_of_memory (l.capacity e) (length t)) (sym fw))
        ] in
      let closed : (cb.close_container (create e1).0 s2.0).1
          ≡ status cb.out_of_memory (l.capacity e) (length (l.written s2.0 ++ l.ending s2.0)) =
        gs ∙ ap (λ c. status cb.out_of_memory c (length (l.written s2.0 ++ l.ending s2.0))) room in
      let shorter : length (l.written s2.0) ≤ length (l.written s2.0 ++ l.ending s2.0) =
        omega (arith, length-append {0} (l.written s2.0) (l.ending s2.0)) in
      rw
        (
          not_fatal err (l.capacity e) (length (l.written e ++ w)) hs,
          not_fatal (bit_or err (create e1).2) (l.capacity (create e1).1)
              (length (l.written (create e1).1 ++ [])) child.1,
          not_fatal s2.1 (l.capacity (create e1).1) (length (l.written (create e1).1 ++ v)) fs,
        )
        (
          (gw ∙ bytes, gc ∙ room, ge ∙ pe ∙ he),
          ap (λ k. bit_or s2.1 k) closed
              ∙ bit_or-status cb.out_of_memory (l.capacity e) (length (l.written s2.0))
                  (length (l.written s2.0 ++ l.ending s2.0)) s2.1 shorter fs'
              ∙ ap (λ (t : Bytes). status cb.out_of_memory (l.capacity e) (length t)) bytes,
        )
