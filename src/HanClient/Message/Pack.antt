-- ===== src/HanClient/Message/Pack.antt =====
-- `Message::pack` against the text that it is meant to produce.
use hanfun_io_tivity.Prelude.{
  ℕ, ◌+◌, ◌≡◌, refl, true, [], ◌∷◌, ◌++◌, Option, some, none, arith, leb, length, replicate,
  append_assoc, append-nil, length-append, length-replicate, take-append, drop-append_add,
  drop-replicate,
}
use hanfun_io_tivity.Prelude.Bytes.{Bytes}
use hanfun_io_tivity.HanClient.Message.{
  write_at, pack_service, pack_command, pack_parameters, pack, crlf, service_pack_size,
  parameters_pack_size,
}

-- The text of each part.
abbrev pub service_text : Option Bytes → Bytes
service_text none = []
service_text (some s) = b'[' ∷ (s ++ b']' ∷ crlf)

abbrev pub parameters_text : Option Bytes → Bytes
parameters_text none = []
parameters_text (some p) = p

-- Writing at the end of what is filled so far.
fill :
    (w s : Bytes) (k n : ℕ) (offset : ℕ)
    → offset ≡ length w
    → n ≡ length s + k
    → write_at offset s (w ++ replicate n 0) ≡ some ((w ++ s) ++ replicate k 0)
unfolding write_at
fill w s k n offset e f =
    let room : leb (offset + length s) (length (w ++ replicate n 0)) ≡ true =
      ground (arith, length-append w (replicate n 0), length-replicate {A = ℕ} n 0) in
    rw (
      room,
      e,
      take-append w (replicate n 0),
      drop-append_add w (replicate n 0) (length s) (length w + length s) (omega arith),
      drop-replicate {A = ℕ} (length s) n k 0 f,
      append_assoc,
    )

pack_service_lem :
    (s : Option Bytes) (n k : ℕ)
    → n ≡ length (service_text s) + k
    → pack_service s (replicate n 0) ≡ some (service_text s ++ replicate k 0)
unfolding pack_service
pack_service_lem none n k e = let e' : n ≡ k = omega arith in rw e'
pack_service_lem (some s) n k e =
    let total : n ≡ length s + (k + 4) = omega (arith, length-append s (b']' ∷ crlf)) in
    rw
      (
        fill [] (b'[' ∷ []) (length s + (k + 3)) n 0 (omega arith) (omega arith),
        fill (b'[' ∷ []) s (k + 3) (length s + (k + 3)) 1 (omega arith) (omega arith),
        fill (b'[' ∷ s) (b']' ∷ []) (k + 2) (k + 3) (length s + 1) (omega arith) (omega arith),
        fill (b'[' ∷ (s ++ b']' ∷ [])) (13 ∷ []) (k + 1) (k + 2) (length s + 2)
            (omega (arith, length-append s (b']' ∷ []))) (omega arith),
        fill (b'[' ∷ ((s ++ b']' ∷ []) ++ 13 ∷ [])) (10 ∷ []) k (k + 1) (length s + 3)
            (omega (arith, length-append s (b']' ∷ []), length-append (s ++ b']' ∷ []) (13 ∷ [])))
            (omega arith),
      )
      (simp append_assoc)

pack_command_lem :
    (w c : Bytes) (offset n k : ℕ)
    → offset ≡ length w
    → n ≡ length c + 2 + k
    → pack_command (some c) offset (w ++ replicate n 0) ≡ some ((w ++ (c ++ crlf)) ++ replicate k 0)
unfolding pack_command
pack_command_lem w c offset n k o e =
    rw
      (
        fill w c (k + 2) n offset o (omega arith),
        fill (w ++ c) (13 ∷ []) (k + 1) (k + 2) (offset + length c)
            (omega (arith, length-append w c)) (omega arith),
        fill ((w ++ c) ++ 13 ∷ []) (10 ∷ []) k (k + 1) (offset + length c + 1)
            (omega (arith, length-append w c, length-append (w ++ c) (13 ∷ []))) (omega arith),
      )
      (simp append_assoc)

pack_parameters_lem :
    (w : Bytes) (p : Option Bytes) (offset n k : ℕ)
    → offset ≡ length w
    → n ≡ length (parameters_text p) + k
    → pack_parameters p offset (w ++ replicate n 0)
      ≡ some ((w ++ parameters_text p) ++ replicate k 0)
unfolding pack_parameters
pack_parameters_lem w none offset n k o e = let e' : n ≡ k = omega arith in rw (e', append-nil)
pack_parameters_lem w (some []) offset n k o e = let e' : n ≡ k = omega arith in rw (e', append-nil)
pack_parameters_lem w (some (c ∷ p)) offset n k o e = ground (arith, fill w (c ∷ p) k n offset o e)

service_pack_size_lem :
    (s c p : Option Bytes)
    → service_pack_size (record { service = s; command = c; parameters = p })
      ≡ length (service_text s)
unfolding service_pack_size
service_pack_size_lem none c p = omega arith
service_pack_size_lem (some s) c p = omega (arith, length-append s (b']' ∷ crlf))

parameters_pack_size_lem :
    (s c p : Option Bytes)
    → parameters_pack_size (record { service = s; command = c; parameters = p })
      ≡ length (parameters_text p)
unfolding parameters_pack_size
parameters_pack_size_lem s c none = refl
parameters_pack_size_lem s c (some p) = refl

-- Whatever the message holds, `pack` stays inside its buffer and fills it with the service in
-- brackets, the command, the parameters as they are and an empty line.
pub pack_lem :
    (s p : Option Bytes) (c : Bytes)
    → pack (record { service = s; command = some c; parameters = p })
      ≡ some (service_text s ++ (c ++ (crlf ++ (parameters_text p ++ crlf))))
unfolding pack
pack_lem s p c =
    let a : ℕ = length (service_text s) in
    let b : ℕ = length c + 2 in
    let d : ℕ = length (parameters_text p) in
    let st : Bytes = service_text s in
    let body : Bytes = st ++ (c ++ crlf) in
    let pt : Bytes = parameters_text p in
    let body_len : length body ≡ a + b =
      omega (arith, length-append st (c ++ crlf), length-append c crlf) in
    rw
      (
        service_pack_size_lem s (some c) p,
        parameters_pack_size_lem s (some c) p,
        pack_service_lem s (a + b + d + 2) (b + d + 2) (omega arith),
        pack_command_lem st c a (b + d + 2) (d + 2) (omega arith) (omega arith),
        pack_parameters_lem body p (a + b) (d + 2) 2 (omega arith) (omega arith),
        fill (body ++ pt) (13 ∷ []) 1 2 (a + b + d) (omega (arith, length-append body pt))
            (omega arith),
        fill ((body ++ pt) ++ 13 ∷ []) (10 ∷ []) 0 1 (a + b + d + 1)
            (omega (arith, length-append body pt, length-append (body ++ pt) (13 ∷ [])))
            (omega arith),
      )
      (simp (append_assoc, append-nil))
