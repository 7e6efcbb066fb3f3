-- ===== src/Examples/Commands.antt =====
-- A client at the command line.
use hanfun_io_tivity.Prelude.{
  ℕ, ◌+◌, true, false, List, [], ◌∷◌, ◌++◌, none, some, if◌then◌else◌, length, take-all, ◌≡◌, refl,
  arith,
}
use hanfun_io_tivity.Prelude.Bytes.{Bytes, codes}
use hanfun_io_tivity.Stack.{DevAddr, ResourcePayload}
use hanfun_io_tivity.Resource.{get_dev_addrs}
use hanfun_io_tivity.Introspection.Document.Errors.{status}
use hanfun_io_tivity.Occlient.{Found, Client}
use hanfun_io_tivity.Occlient.Discovered.{found_addr}
use hanfun_io_tivity.Occlient.Commands.{Posting}
use hanfun_io_tivity.Occlient.Address.{get_dev_addrs-found_addr}
use hanfun_io_tivity.Occlient.Json.{Json, json, boolean, object, item, end, Cbor, convert_json}
use hanfun_io_tivity.Occlient.Json.Encoded.{IsCbor, json_bytes}
use hanfun_io_tivity.Occlient.Json.Sizes.{convert_json-json_bytes}
use hanfun_io_tivity.Examples.Bridge.{stack, origin, lamp_payload}

abbrev lamp_found : Found
lamp_found = record { di = codes "lamp"; addr = origin; uri = codes "/lamp" }

abbrev client : Client
client = record { resources = lamp_found ∷ []; requests = []; cancelled = []; quit = false }

abbrev switch_payload : ResourcePayload
switch_payload = record lamp_payload { uri = codes "ocf://00a0c91e/switch"; eps = [] }

-- An allocator of payloads that tells them apart by their size.
abbrev posting : (Bytes → Bytes) → Posting
posting convert = record {
  convert_json = convert;
  rep_payload_create = some 1;
  parse_payload = λ bytes created. some (length bytes);
}

abbrev lamp_kept : Found
lamp_kept = record {
  di = codes "a";
  addr = found_addr stack origin (codes "a") lamp_payload;
  uri = codes "/lamp";
}

abbrev switch_kept : Found
switch_kept = record {
  di = codes "b";
  addr = found_addr stack origin (codes "b") switch_payload;
  uri = codes "/switch";
}

abbrev discovered : Client
discovered = record client { resources = lamp_found ∷ lamp_kept ∷ switch_kept ∷ [] }

get_dev_addrs-found_addr_example :
    (more : List DevAddr) × (get_dev_addrs stack origin (codes "a") lamp_payload
      ≡ found_addr stack origin (codes "a") lamp_payload ∷ more)
get_dev_addrs-found_addr_example =
    get_dev_addrs-found_addr stack origin (codes "a") lamp_payload refl

-- An encoder that writes a byte for each value and container.
record Buffer : Type 0 where
  bytes : Bytes
  size : ℕ

abbrev push : Bytes → Buffer → Buffer × ℕ
push s e = (record e { bytes = e.bytes ++ s }, status 1 e.size (length (e.bytes ++ s)))

abbrev small : Cbor
small = record {
  Encoder = Buffer;
  init = λ n. record { bytes = []; size = n };
  text = push;
  boolean = λ b. push ((if b then 245 else 244) ∷ []);
  null = push (246 ∷ []);
  double = λ d. push (251 ∷ d ∷ []);
  create_array = λ n e. (e, (push ((128 + n) ∷ []) e).0, (push ((128 + n) ∷ []) e).1);
  create_map = λ n e. (e, (push ((160 + n) ∷ []) e).0, (push ((160 + n) ∷ []) e).1);
  close_container = λ e child. push [] child;
  buffer_size = λ e. length e.bytes;
  content = λ e. e.bytes;
}

abbrev small-IsCbor : IsCbor small
small-IsCbor = record {
  written = λ e. e.bytes;
  capacity = λ e. e.size;
  out_of_memory = 1;
  memory = refl;
  text_bytes = λ s. s;
  boolean_bytes = λ b. (if b then 245 else 244) ∷ [];
  null_bytes = 246 ∷ [];
  double_bytes = λ d. 251 ∷ d ∷ [];
  array_bytes = λ n. (128 + n) ∷ [];
  map_bytes = λ n. (160 + n) ∷ [];
  init_lem = λ n. (refl, refl);
  text_lem = λ s e. (refl, refl, refl);
  boolean_lem = λ b e. (refl, refl, refl);
  null_lem = λ e. (refl, refl, refl);
  double_lem = λ d e. (refl, refl, refl);
  create_array_lem = λ n e. (refl, refl, refl);
  create_map_lem = λ n e. (refl, refl, refl);
  close_container_lem = λ e child. (refl, refl, refl);
  buffer_lem = λ e h. take-all (length e.bytes) e.bytes (omega arith);
}

-- `{"value":true}`, whatever the text is.
abbrev switch_on : Json
switch_on = json none (object (item (json (some (codes "value")) (boolean true)) end))

convert_json-json_bytes_example :
    convert_json small (λ text. some switch_on) 4 (codes "{\"value\":true}") ≡ []
unfolding json_bytes
convert_json-json_bytes_example =
    convert_json-json_bytes small small-IsCbor (λ text. some switch_on) 4 (codes "{\"value\":true}")
      switch_on refl
