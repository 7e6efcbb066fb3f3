-- ===== src/HanClient/Client/Registration.antt =====
-- `open_registration` and `close_registration` of src/han_client.cpp, as the other side reads them.
use hanfun_io_tivity.Prelude.{
  ℕ, ◌≤◌, ◌≡◌, refl, Bool, true, false, List, [], ◌∷◌, ◌++◌, Option, some, none, arith, ◌>>=◌,
  if◌then◌else◌, ap,
}
use hanfun_io_tivity.Prelude.Bytes.{Bytes, codes}
use hanfun_io_tivity.HanClient.Message.{Message, unpack, crlf, default_service}
use hanfun_io_tivity.HanClient.Message.Pack.{pack_lem}
use hanfun_io_tivity.HanClient.Message.Unpack.{Survives, unpack-pack, parameters_block}
use hanfun_io_tivity.HanClient.Client.{HanClient, open_registration, close_registration}

-- The command that opens or closes the registration, and its lines.
abbrev pub registration_command : Bool → Bytes
registration_command true = codes "OPEN_REG"
registration_command false = codes "CLOSE_REG"

abbrev pub registration_lines : Bool → List Bytes
registration_lines true = codes " TIME: 60" ∷ []
registration_lines false = []

-- `open_registration` and `close_registration`, by the value of the property.
abbrev pub set_registration : Bool → HanClient → Option HanClient
set_registration value c = if value then open_registration c else close_registration c

-- What the other side is to read.
abbrev pub registration_message : Bool → Message
registration_message value = record {
  service = some default_service;
  command = some (registration_command value);
  parameters = parameters_block (registration_lines value);
}

open-Survives : Survives none b'O' (codes "PEN_REG") (registration_lines true)
open-Survives = record {
  service_fits = omega arith;
  service_lines_ok = tt;
  command_fits = omega arith;
  command_line = record { text = refl; word = refl; filled = λ e. cc };
  command_plain = λ e. omega arith;
  parameters_ok = (record { text = refl; word = refl; filled = λ e. cc }, tt);
}

close-Survives : Survives none b'C' (codes "LOSE_REG") (registration_lines false)
close-Survives = record {
  service_fits = omega arith;
  service_lines_ok = tt;
  command_fits = omega arith;
  command_line = record { text = refl; word = refl; filled = λ e. cc };
  command_plain = λ e. omega arith;
  parameters_ok = tt;
}

-- The client sends one datagram more, which the other side reads as the command to open or close.
pub set_registration-unpack :
    (value : Bool) (c : HanClient) (z : Bytes) (room : ℕ)
    → 64 ≤ room
    → (d : Bytes) × (set_registration value c ≡ some (record c { sent = d ∷ c.sent }))
      × (unpack (d ++ 0 ∷ z) room ≡ some (registration_message value))
unfolding open_registration close_registration
set_registration-unpack true c z room h =
    let text = codes " TIME: 60" ++ crlf in
    let packed = pack_lem none (some text) (codes "OPEN_REG") in
    let key =
      unpack-pack none (some text) b'O' (codes "PEN_REG") (registration_lines true) z room
        open-Survives refl (omega arith) in
    (_, ap (λ o. o >>= λ d. some (record c { sent = d ∷ c.sent })) packed, rw packed at key)
set_registration-unpack false c z room h =
    let packed = pack_lem none none (codes "CLOSE_REG") in
    let key =
      unpack-pack none none b'C' (codes "LOSE_REG") [] z room close-Survives refl (omega arith) in
    (_, ap (λ o. o >>= λ d. some (record c { sent = d ∷ c.sent })) packed, rw packed at key)
