-- ===== src/Introspection/Document/Rounds.antt =====
-- The rounds of `SetIntrospectionData`, src/bridge.cpp: the second buffer has the size of the document.
use hanfun_io_tivity.Prelude.{
  ℕ, suc, ◌+◌, Bool, true, false, ◌++◌, some, none, if◌then◌else◌, ◌==◌, leb, length, take, ◌≡◌,
  refl, sym, ap, ◌∙◌, inl, inr, Bool-cases, ==_refl, arith,
}
use hanfun_io_tivity.Prelude.Bytes.{Bytes}
use hanfun_io_tivity.Introspection.Document.{
  Cbor, State, container, fill_map, finish, introspect, encode, with_file, set_introspection_data,
}
use hanfun_io_tivity.Introspection.Document.Errors.{status}
use hanfun_io_tivity.Introspection.Document.Encoded.{IsCbor}
use hanfun_io_tivity.Introspection.Document.Pieces.{document, whole-Wrote}

module _ (cb : Cbor) (l : IsCbor cb) where
  -- The whole of a document in a buffer, or not.
  abbrev Whole : Bytes → ℕ → State cb → Type 0
  Whole d size s =
      (l.written s.0 ≡ d)
      × (l.capacity s.0 ≡ size)
      × (s.1 ≡ status cb.out_of_memory size (length d))

  whole :
      (title version : Bytes) (size : ℕ)
      → Whole
          (document cb l title version)
          size
          (container cb cb.create_map (fill_map cb title version true) (cb.init size, 0))
  whole title version size =
      let ((w, c, f), s) = whole-Wrote cb l title version size in
      let (none_yet, room) = l.init_lem size in
      let bytes : l.written (cb.init size) ++ document cb l title version
          ≡ document cb l title version =
        ap (λ t. t ++ document cb l title version) none_yet in
      (
        w ∙ bytes,
        c ∙ room,
        s
            ∙ ap
                (λ k.
                  status cb.out_of_memory k
                    (length (l.written (cb.init size) ++ document cb l title version)))
                room
            ∙ ap (λ (t : Bytes). status cb.out_of_memory size (length t)) bytes,
      )

  finish-fits :
      (d : Bytes) (size : ℕ) (s : State cb)
      → Whole d size s
      → leb (length d) size ≡ true
      → (finish cb size s ≡ (cb.content s.0, length d, 0)) × (take (length d) (cb.content s.0) ≡ d)
  unfolding finish
  finish-fits d size (e, err) (w, c, s) h =
      let no_error : err ≡ 0 = s ∙ ap (λ b. if b then 0 else cb.out_of_memory) h in
      let fits : leb (length (l.written e)) (l.capacity e) ≡ true = rw (w, c) h in
      let other : (0 == cb.out_of_memory) ≡ false = ground (arith, l.memory) in
      (
        rw (no_error, other)
            (ap (λ k. (cb.content e, k, 0)) (l.buffer_size_lem e fits ∙ ap length w)),
        ap (λ (t : Bytes). take (length t) (cb.content e)) (sym w) ∙ l.content_lem e fits ∙ w,
      )

  finish-over :
      (d : Bytes) (size : ℕ) (s : State cb)
      → Whole d size s
      → leb (length d) size ≡ false
      → finish cb size s ≡ (cb.content s.0, length d, cb.out_of_memory)
  unfolding finish
  finish-over d size (e, err) (w, c, s) h =
      let full : err ≡ cb.out_of_memory = s ∙ ap (λ b. if b then 0 else cb.out_of_memory) h in
      let over : leb (length (l.written e)) (l.capacity e) ≡ false = rw (w, c) h in
      rw (full, ==_refl cb.out_of_memory)
        (ap (λ k. (cb.content e, k, cb.out_of_memory))
          (ap (λ k. k + cb.extra_bytes_needed e) (sym c)
            ∙ l.extra_bytes_needed_lem e over
            ∙ ap length w))

  introspect-finish :
      (title version : Bytes) (size : ℕ)
      → introspect cb title version true size
        ≡ finish cb size
            (container cb cb.create_map (fill_map cb title version true) (cb.init size, 0))
  unfolding introspect
  introspect-finish title version size = refl

  -- The last round of the loop.
  encode-fits :
      (fuel : ℕ) (title version : Bytes) (allocated : ℕ → Bool) (size : ℕ)
      → leb (length (document cb l title version)) size ≡ true
      → allocated size ≡ true
      → (out : Bytes) × (encode cb (suc fuel) title version true allocated size
          ≡ some (some (out, length (document cb l title version))))
        × (take (length (document cb l title version)) out ≡ document cb l title version)
  unfolding encode
  encode-fits fuel title version allocated size h a =
      let s = container cb cb.create_map (fill_map cb title version true) (cb.init size, 0) in
      let (f, t) = finish-fits (document cb l title version) size s (whole title version size) h in
      let other : (0 == cb.out_of_memory) ≡ false = ground (arith, l.memory) in
      (cb.content s.0, rw (introspect-finish title version size ∙ f, a, other) refl, t)

  encode-over :
      (fuel : ℕ) (title version : Bytes) (allocated : ℕ → Bool) (size : ℕ)
      → leb (length (document cb l title version)) size ≡ false
      → allocated size ≡ true
      → encode cb (suc fuel) title version true allocated size
        ≡ encode cb fuel title version true allocated (length (document cb l title version))
  unfolding encode
  encode-over fuel title version allocated size h a =
      let s = container cb cb.create_map (fill_map cb title version true) (cb.init size, 0) in
      rw
        (
          introspect-finish title version size
              ∙ finish-over (document cb l title version) size s (whole title version size) h,
          a,
          ==_refl cb.out_of_memory,
        )
        refl

  -- The loop ends in its second round at the latest.
  encode-document :
      (fuel : ℕ) (title version : Bytes) (allocated : ℕ → Bool)
      → allocated 1024 ≡ true
      → allocated (length (document cb l title version)) ≡ true
      → (out : Bytes) × (encode cb (suc (suc fuel)) title version true allocated 1024
          ≡ some (some (out, length (document cb l title version))))
        × (take (length (document cb l title version)) out ≡ document cb l title version)
  encode-document fuel title version allocated a b =
      elim (Bool-cases (leb (length (document cb l title version)) 1024)) [
        | inl h ↦ encode-fits (suc fuel) title version allocated 1024 h a
        | inr h ↦
            let exact : leb (length (document cb l title version))
                  (length (document cb l title version))
                ≡ true =
              ground arith in
            let (out, e, t) =
              encode-fits fuel title version allocated (length (document cb l title version)) exact
                b in
            (out, encode-over (suc fuel) title version allocated 1024 h a ∙ e, t)
      ]

  -- Where the number of resources is known and both buffers can be allocated: the loop ends after at
  -- most two rounds, and if the file can be opened `SetIntrospectionData` writes the whole document,
  -- and no more, also where it does not fit in the first buffer.
  pub set_introspection_data-document :
      (fuel : ℕ) (title version : Bytes) (counted : Bool) (allocated : ℕ → Bool) (opened : Bool)
      → counted ≡ true
      → allocated 1024 ≡ true
      → allocated (length (document cb l title version)) ≡ true
      → set_introspection_data cb (suc (suc fuel)) title version counted allocated opened
        ≡ some (if opened then some (document cb l title version) else none)
  unfolding set_introspection_data
  set_introspection_data-document fuel title version counted allocated opened c a b =
      let (out, e, t) = encode-document fuel title version allocated a b in
      rw c (ap (with_file cb opened) e ∙ ap (λ t'. some (if opened then some t' else none)) t)
