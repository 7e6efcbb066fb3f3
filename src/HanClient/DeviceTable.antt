-- ===== src/HanClient/DeviceTable.antt =====
-- `DeviceTableMessage` of src/han_client.cpp. `none` as a result is undefined behaviour: a null
-- pointer read as a string, or a write behind the end of an array.
pub mod Devices
use hanfun_io_tivity.Prelude.{
  ℕ, zero, suc, ◌+◌, ◌-◌, Bool, true, false, List, [], ◌∷◌, ◌++◌, Option, some, none, ltb,
  if◌then◌else◌, ◌>>=◌, length, take, drop, set, replicate, map,
}
use hanfun_io_tivity.Prelude.Bytes.{Bytes, codes}
use hanfun_io_tivity.HanClient.Cstring.{tokens, is_crlf, is_blank, strncpy, has_prefix}
use hanfun_io_tivity.HanClient.Number.{atoi, cast}
use hanfun_io_tivity.HanClient.Message.{read_block}

-- The arrays are lists of their cells; a cell that nothing was stored in is `none`.
pub record DeviceTableMessage : Type 0 where
  pub dev_index : ℕ
  pub no_of_devices : ℕ
  pub dev_ids : List (Option ℕ)
  pub dev_ipuis : List (Option Bytes)
  pub dev_emcs : List (Option Bytes)

-- The default constructor: `dev_ids` is NULL, and the other two arrays have one cell.
unfoldable pub new_message : DeviceTableMessage
new_message = record {
  dev_index = 0;
  no_of_devices = 0;
  dev_ids = [];
  dev_ipuis = none ∷ [];
  dev_emcs = none ∷ [];
}

pub store {ℓ} : {A : Type ℓ} → ℕ → A → List (Option A) → Option (List (Option A))
store i v cells = if ltb i (length cells) then some (set cells i (some v)) else none

-- The value behind a prefix: a block of `length line - size` cells, copied from `line + from`, and
-- read as a string with the memory behind it.
pub value_text : Bytes → ℕ → ℕ → Bytes → Bytes
value_text slack from size line = read_block slack (strncpy (drop from line) (length line - size))

-- The first `n` numbers between blanks, as bytes.
unfoldable pub octets : ℕ → Bytes → Bytes
octets n text = take n (map (λ t. cast 256 (atoi t)) (tokens is_blank text))

abbrev pub dev_index_prefix : Bytes
dev_index_prefix = codes " DEV_INDEX: "

abbrev pub no_of_devices_prefix : Bytes
no_of_devices_prefix = codes " NO_OF_DEVICES: "

abbrev pub dev_id_prefix : Bytes
dev_id_prefix = codes " DEV_ID: "

abbrev pub dev_ipui_prefix : Bytes
dev_ipui_prefix = codes " DEV_IPUI: "

abbrev pub dev_emc_prefix : Bytes
dev_emc_prefix = codes " DEV_EMC: "

-- The lines that are left, and the message so far.
abbrev pub Progress : Type 0
Progress = List Bytes × DeviceTableMessage

pub unpack_id : Bytes → ℕ → Progress → Option Progress
unfolding store value_text
unpack_id slack i ([], m) = none
unpack_id slack i (line ∷ lines, m) =
    if has_prefix dev_id_prefix line
    then (store i (cast 65536 (atoi (value_text slack 9 9 line))) m.dev_ids >>= λ ids.
        some (lines, record m { dev_ids = ids }))
    else some (line ∷ lines, m)

pub unpack_ipui : Bytes → ℕ → Progress → Option Progress
unfolding store value_text
unpack_ipui slack i ([], m) = none
unpack_ipui slack i (line ∷ lines, m) =
    if has_prefix dev_ipui_prefix line
    then (store i (octets 5 (value_text slack 11 11 line)) m.dev_ipuis >>= λ ipuis.
        some (lines, record m { dev_ipuis = ipuis }))
    else some (line ∷ lines, m)

-- The copy starts at `lines + 11`, though the prefix has ten bytes.
pub unpack_emc : Bytes → ℕ → Progress → Option Progress
unfolding store value_text
unpack_emc slack i ([], m) = none
unpack_emc slack i (line ∷ lines, m) =
    if has_prefix dev_emc_prefix line
    then (store i (octets 2 (value_text slack 11 10 line)) m.dev_emcs >>= λ emcs.
        some (lines, record m { dev_emcs = emcs }))
    else some (line ∷ lines, m)

-- One round of the loop over the devices.
pub unpack_device : Bytes → ℕ → Progress → Option Progress
unfolding unpack_id unpack_ipui unpack_emc
unpack_device slack i p = do
  p1 ← unpack_id slack i p
  p2 ← unpack_ipui slack i p1
  unpack_emc slack i p2

-- The first argument is `no_of_devices - i`.
pub unpack_devices : ℕ → Bytes → ℕ → Progress → Option DeviceTableMessage
unfolding unpack_device
unpack_devices zero slack i (lines, m) = some m
unpack_devices (suc rounds) slack i ([], m) = some m
unpack_devices (suc rounds) slack i (line ∷ lines, m) = do
  p ← unpack_device slack i (line ∷ lines, m)
  unpack_devices rounds slack (i + 1) p

pub unpack_count : Bytes → Progress → Option Progress
unfolding value_text
unpack_count slack ([], m) = none
unpack_count slack (line ∷ lines, m) =
    if has_prefix no_of_devices_prefix line
    then some (lines, record m { no_of_devices = cast 256 (atoi (value_text slack 16 16 line)) })
    else some (lines, m)

pub unpack_table : Bytes → Progress → Option DeviceTableMessage
unfolding unpack_devices
unpack_table slack (lines, m) =
    if ltb 0 m.no_of_devices
    then unpack_devices m.no_of_devices slack 0
        (lines, record m { dev_ids = replicate m.no_of_devices none })
    else some m

pub unpack_lines : Bytes → List Bytes → Option DeviceTableMessage
unfolding unpack_count unpack_table value_text new_message
unpack_lines slack [] = some new_message
unpack_lines slack (line ∷ lines) =
    if has_prefix dev_index_prefix line
    then (unpack_count slack
          (lines, record new_message { dev_index = cast 256 (atoi (value_text slack 12 12 line)) })
        >>= λ p. unpack_table slack p)
    else some new_message

-- `slack` is what memory holds behind a block that was just allocated.
unfoldable pub unpack : Bytes → Option Bytes → Option DeviceTableMessage
unfolding unpack_lines
unpack slack none = none
unpack slack (some buffer) = unpack_lines slack (tokens is_crlf buffer)
