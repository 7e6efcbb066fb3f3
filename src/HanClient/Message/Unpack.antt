-- ===== src/HanClient/Message/Unpack.antt =====
-- `Message::unpack` on datagrams, those of `Message::pack` and others.
use hanfun_io_tivity.Prelude.{
  ℕ, zero, suc, ◌+◌, ◌-◌, ◌%◌, ◌<◌, ◌≡◌, refl, ◌≢◌, true, false, List, [], ◌∷◌, ◌++◌, Option, some,
  none, arith, ltb, length, take, append_assoc, append-nil, length-append, ◌>>=◌,
}
use hanfun_io_tivity.Prelude.Bytes.{Bytes, c_str, is_text, c_str-append, c_str-append_nul}
use hanfun_io_tivity.HanClient.Cstring.{tokens, is_crlf, strncpy, strncpy-exact, strncpy_all}
use hanfun_io_tivity.HanClient.Message.{
  pack, crlf, unpack, unpack_lines, unpack_rest, unpack_service, unpack_command, unpack_parameters,
  append_lines, strcat, default_service, read_block,
}
use hanfun_io_tivity.HanClient.Message.Lines.{
  IsLine, AreLines, join_lines, service_lines, tokens-datagram, is_text-datagram,
}
use hanfun_io_tivity.HanClient.Message.Pack.{service_text, parameters_text, pack_lem}

strcat_lem : (room : ℕ) (s t : Bytes) → length s + length t < room → strcat room s t ≡ some (s ++ t)
unfolding strcat
strcat_lem room s t h = ground arith

append_lines_lem :
    (room : ℕ) (acc : Bytes) (ls : List Bytes)
    → length acc + length (join_lines ls) < room
    → append_lines room acc ls ≡ some (acc ++ join_lines ls)
unfolding append_lines
append_lines_lem room acc [] h = simp append-nil
append_lines_lem room acc (l ∷ ls) h =
    let n : length (l ++ (crlf ++ join_lines ls)) ≡ length l + 2 + length (join_lines ls) =
      omega (arith, length-append l (crlf ++ join_lines ls)) in
    let m : length (acc ++ l) ≡ length acc + length l = length-append acc l in
    rw
      (
        strcat_lem room acc l (omega arith),
        strcat_lem room (acc ++ l) crlf (omega arith),
        append_lines_lem room ((acc ++ l) ++ crlf) ls
            (omega (arith, length-append (acc ++ l) crlf)),
      )
      (simp append_assoc)

-- The parameters' block that `unpack` makes of these lines.
abbrev pub parameters_block : List Bytes → Option Bytes
parameters_block [] = none
parameters_block (l ∷ ls) = some (join_lines (l ∷ ls) ++ 0 ∷ [])

unpack_parameters_lem :
    (room : ℕ) (ls : List Bytes)
    → length (join_lines ls) < room
    → unpack_parameters room ls ≡ some (parameters_block ls)
unfolding unpack_parameters
unpack_parameters_lem room [] h = refl
unpack_parameters_lem room (l ∷ ls) h = rw (append_lines_lem room [] (l ∷ ls) (omega arith))

unpack_rest_lem :
    (n k : ℕ) (svc : Option Bytes) (c : Bytes) (ls : List Bytes)
    → length c < 256
    → length (join_lines ls) + k + length c < n
    → unpack_rest n k svc (c ∷ ls)
      ≡ some (record { service = svc; command = some c; parameters = parameters_block ls })
unfolding unpack_rest unpack_command
unpack_rest_lem n k svc c ls h room =
    let e : length c % 256 ≡ length c = omega arith in
    rw (e, unpack_parameters_lem (n - k - length c) ls (omega arith), strncpy_all c)

abbrev pub service_block : Option Bytes → Bytes
service_block none = default_service
service_block (some s) = s

unpack_service_lem :
    (s : Bytes) → length s + 2 < 256 → unpack_service (b'[' ∷ (s ++ b']' ∷ [])) ≡ some s
unfolding unpack_service
unpack_service_lem s h =
    let n : length (b'[' ∷ (s ++ b']' ∷ [])) % 256 ≡ length s + 2 =
      omega (arith, length-append s (b']' ∷ [])) in
    let small : ltb (length s + 2) 2 ≡ false = ground arith in
    let k : length s + 2 - 2 ≡ length s = omega arith in
    rw (n, small, k, strncpy-exact s (b']' ∷ []))

unpack_lines_lem :
    (n : ℕ) (svc : Option Bytes) (c : ℕ) (cs : Bytes) (ls : List Bytes)
    → (svc ≡ none → c ≢ b'[')
    → length (service_text svc) < 256
    → length (c ∷ cs) < 256
    → length (join_lines ls) + length (service_text svc) + length (c ∷ cs) < n
    → unpack_lines n (service_lines svc ++ (c ∷ cs) ∷ ls)
      ≡ some (record {
        service = some (service_block svc);
        command = some (c ∷ cs);
        parameters = parameters_block ls;
      })
unfolding unpack_lines unpack_service
unpack_lines_lem n none c cs ls plain a b room =
    ground (arith, plain refl, unpack_rest_lem n 0 (some default_service) (c ∷ cs) ls)
unpack_lines_lem n (some s) c cs ls plain a b room =
    let len : length (s ++ b']' ∷ crlf) ≡ length s + 3 = length-append s (b']' ∷ crlf) in
    let k : length (b'[' ∷ (s ++ b']' ∷ [])) % 256 ≡ length s + 2 =
      omega (arith, length-append s (b']' ∷ [])) in
    rw (unpack_service_lem s (omega arith), k)
      (unpack_rest_lem n (length s + 2) (some s) (c ∷ cs) ls b (omega arith))

-- What `pack` is given survives: the service and the command are one line each, and no command
-- that stands first looks like a service.
pub record Survives (svc : Option Bytes) (c : ℕ) (cs : Bytes) (ls : List Bytes) : Type 0 where
  pub service_fits : length (service_text svc) < 256
  pub service_lines_ok : AreLines (service_lines svc)
  pub command_fits : length (c ∷ cs) < 256
  pub command_line : IsLine (c ∷ cs)
  pub command_plain : svc ≡ none → c ≢ b'['
  pub parameters_ok : AreLines ls

-- What `pack` makes of a command, with a service or none and whole lines of parameters, comes back
-- from `unpack`, in a receive buffer of `n` bytes where a NUL follows the datagram.
pub unpack-pack :
    (svc p : Option Bytes) (c : ℕ) (cs : Bytes) (ls : List Bytes) (z : Bytes) (n : ℕ)
    → Survives svc c cs ls
    → parameters_text p ≡ join_lines ls
    → length (join_lines ls) + length (service_text svc) + length (c ∷ cs) < n
    → (pack (record { service = svc; command = some (c ∷ cs); parameters = p }) >>= λ d.
        unpack (d ++ 0 ∷ z) n)
      ≡ some (record {
        service = some (service_block svc);
        command = some (c ∷ cs);
        parameters = parameters_block ls;
      })
unfolding unpack
unpack-pack svc p c cs ls z n ok e room =
    let text =
      is_text-datagram svc (c ∷ cs) ls ok.service_lines_ok ok.command_line ok.parameters_ok in
    rw
      (
        pack_lem svc p (c ∷ cs),
        e,
        c_str-append_nul (service_text svc ++ ((c ∷ cs) ++ (crlf ++ (join_lines ls ++ crlf)))) z
            text,
        tokens-datagram svc (c ∷ cs) ls ok.service_lines_ok ok.command_line ok.parameters_ok,
      )
      (unpack_lines_lem n svc c cs ls ok.command_plain ok.service_fits ok.command_fits room)

is_text-take : (n : ℕ) (s : Bytes) → is_text s ≡ true → is_text (take n s) ≡ true
is_text-take zero s h = refl
is_text-take (suc n) [] h = refl
is_text-take (suc n) (c ∷ s) h = ground (arith, is_text-take n s)

-- The block of the command holds the line's bytes, the length taken modulo 256, and no NUL: a
-- reader goes on into the memory behind the block, up to the first NUL there.
read_block-unpack_command :
    (line slack : Bytes)
    → is_text line ≡ true
    → read_block slack (unpack_command line) ≡ take (length line % 256) line ++ c_str slack
unfolding read_block unpack_command strncpy
read_block-unpack_command line slack h =
    let k : length line % 256 - length line ≡ 0 = omega arith in
    rw (k, append-nil, c_str-append (take (length line % 256) line) slack (is_text-take _ line h))

-- A datagram whose first line starts with '[' and has a length of 0 or 1 modulo 256, such as a '['
-- alone, makes `unpack` copy to NULL.
unpack_bad_service :
    (buffer cs : Bytes) (ls : List Bytes) (n : ℕ)
    → tokens is_crlf (c_str buffer) ≡ (b'[' ∷ cs) ∷ ls
    → length (b'[' ∷ cs) % 256 < 2
    → unpack buffer n ≡ none
unfolding unpack unpack_lines unpack_service
unpack_bad_service buffer cs ls n e h = rw e (ground arith)
