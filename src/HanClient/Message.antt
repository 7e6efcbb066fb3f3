-- ===== src/HanClient/Message.antt =====
-- `Message` of src/han_client.cpp: a service, a command and parameters, as the lines
-- "[service]", "command" and the parameters' own lines. `none` as a result is undefined
-- behaviour: a null pointer read as a string, or an access outside a block.
pub mod Lines
pub mod Pack
pub mod Unpack
use hanfun_io_tivity.Prelude.{
  ℕ, suc, ◌+◌, ◌-◌, ◌%◌, ◌≡◌, refl, Bool, true, false, List, [], ◌∷◌, ◌++◌, Option, some, none, ltb,
  leb, ◌==◌, if◌then◌else◌, ◌>>=◌, length, take, drop, replicate,
}
use hanfun_io_tivity.Prelude.Bytes.{Bytes, codes, c_str}
use hanfun_io_tivity.HanClient.Cstring.{tokens, is_crlf, strncpy}

-- The three `char *`; `none` is NULL.
pub record Message : Type 0 where
  pub service : Option Bytes
  pub command : Option Bytes
  pub parameters : Option Bytes

abbrev pub crlf : Bytes
crlf = 13 ∷ 10 ∷ []

-- A copy of `s` to `buffer + offset`.
pub write_at : ℕ → Bytes → Bytes → Option Bytes
write_at offset s buffer =
    if leb (offset + length s) (length buffer)
    then some (take offset buffer ++ (s ++ drop (offset + length s) buffer))
    else none

-- `strlen`, of a pointer that may be NULL.
pub strlen : Option Bytes → Option ℕ
strlen none = none
strlen (some s) = some (length s)

pub service_pack_size : Message → ℕ
service_pack_size m = elim m.service [ none ↦ 0 | some s ↦ length s + 4 ]

pub pack_service : Option Bytes → Bytes → Option Bytes
unfolding write_at
pack_service none buffer = some buffer
pack_service (some s) buffer = do
  b1 ← write_at 0 (b'[' ∷ []) buffer
  b2 ← write_at 1 s b1
  b3 ← write_at (length s + 1) (b']' ∷ []) b2
  b4 ← write_at (length s + 2) (13 ∷ []) b3
  write_at (length s + 3) (10 ∷ []) b4

command_pack_size : Message → Option ℕ
unfolding strlen
command_pack_size m = do n ← strlen m.command; some (n + 2)

pub pack_command : Option Bytes → ℕ → Bytes → Option Bytes
unfolding write_at
pack_command none offset buffer = none
pack_command (some c) offset buffer = do
  b1 ← write_at offset c buffer
  b2 ← write_at (offset + length c) (13 ∷ []) b1
  write_at (offset + length c + 1) (10 ∷ []) b2

pub parameters_pack_size : Message → ℕ
parameters_pack_size m = elim m.parameters [ none ↦ 0 | some p ↦ length p ]

pub pack_parameters : Option Bytes → ℕ → Bytes → Option Bytes
unfolding write_at
pack_parameters none offset buffer = some buffer
pack_parameters (some p) offset buffer =
    if ltb 0 (length p) then write_at offset p buffer else some buffer

-- The filled buffer; its length is what the source returns.
unfoldable pub pack : Message → Option Bytes
unfolding write_at pack_service pack_command pack_parameters service_pack_size command_pack_size
    parameters_pack_size
pack m = do
  command_size ← command_pack_size m
  let service_size = service_pack_size m
  let parameters_size = parameters_pack_size m
  let total = service_size + command_size + parameters_size
  b1 ← pack_service m.service (replicate (total + 2) 0)
  b2 ← pack_command m.command service_size b1
  b3 ← pack_parameters m.parameters (service_size + command_size) b2
  b4 ← write_at total (13 ∷ []) b3
  write_at (total + 1) (10 ∷ []) b4

-- `calloc(1, len - 2)` and the copy from `line + 1`, where `len` is a `uint8_t`. Below 2 the size is
-- negative, which `calloc` reads as a size that it cannot give, and the copy goes to NULL.
pub unpack_service : Bytes → Option Bytes
unpack_service line =
    let service_len = length line % 256 in
    if ltb service_len 2 then none else some (strncpy (drop 1 line) (service_len - 2))

-- `calloc(1, len)` and the copy, with no room for a NUL; `len` is a `uint8_t`.
unfoldable pub unpack_command : Bytes → Bytes
unpack_command line = strncpy line (length line % 256)

-- `strcat` onto a string in a block of `room` cells.
pub strcat : ℕ → Bytes → Bytes → Option Bytes
strcat room s t = if ltb (length s + length t) room then some (s ++ t) else none

pub append_lines : ℕ → Bytes → List Bytes → Option Bytes
unfolding strcat
append_lines room acc [] = some acc
append_lines room acc (line ∷ lines) = do
  with_line ← strcat room acc line
  ended ← strcat room with_line crlf
  append_lines room ended lines

-- The parameters' block as a C string with its NUL. The source computes the size in `size_t`.
pub unpack_parameters : ℕ → List Bytes → Option (Option Bytes)
unfolding append_lines
unpack_parameters room [] = some none
unpack_parameters room (line ∷ lines) = do
  p ← append_lines room [] (line ∷ lines)
  some (some (p ++ 0 ∷ []))

-- The lines behind the service.
pub unpack_rest : ℕ → ℕ → Option Bytes → List Bytes → Option Message
unfolding unpack_command unpack_parameters
unpack_rest buffer_len service_len service [] =
    some (record { service = service; command = none; parameters = none })
unpack_rest buffer_len service_len service (line ∷ lines) = do
  p ← unpack_parameters (buffer_len - service_len - length line % 256) lines
  some (record { service = service; command = some (unpack_command line); parameters = p })

abbrev pub default_service : Bytes
default_service = codes "HAN" ++ 0 ∷ []

-- The first token, which starts with '[' where it names a service.
pub unpack_lines : ℕ → List Bytes → Option Message
unfolding unpack_service unpack_rest
unpack_lines buffer_len [] = some (record { service = none; command = none; parameters = none })
unpack_lines buffer_len ([] ∷ lines) = unpack_rest buffer_len 0 (some default_service) ([] ∷ lines)
unpack_lines buffer_len ((c ∷ cs) ∷ lines) =
    if c == b'['
    then (unpack_service (c ∷ cs) >>= λ s.
        unpack_rest buffer_len (length (c ∷ cs) % 256) (some s) lines)
    else unpack_rest buffer_len 0 (some default_service) ((c ∷ cs) ∷ lines)

-- The fields of the result are the cells of their blocks.
unfoldable pub unpack : Bytes → ℕ → Option Message
unfolding unpack_lines
unpack buffer buffer_len = unpack_lines buffer_len (tokens is_crlf (c_str buffer))

-- What `strcmp` and its kin read at a block that `slack` follows in memory.
unfoldable pub read_block : Bytes → Bytes → Bytes
read_block slack block = c_str (block ++ slack)
