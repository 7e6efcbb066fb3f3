-- ===== src/Properties/Information.antt =====
-- `DeviceInformation::Set` of src/device_information.cpp, with the strings that it gets and frees.
pub mod Lost
use hanfun_io_tivity.Prelude.{Bool, true, false, List, [], ◌∷◌, ◌++◌, Option, some, none, ◌>>=◌}
use hanfun_io_tivity.Prelude.Bytes.{Bytes}

-- `DeviceInformation`.
pub record Information : Type 0 where
  pub app_version : Bytes
  pub device_uid : Bytes
  pub friendly_name : Bytes
  pub hardware_version : Bytes
  pub manufacturer_name : Bytes
  pub serial_number : Bytes

-- The strings of a payload by their names, OC_RSRVD_....
pub data Name : Type 0 where
  device_name device_id device_model_num protocol_independent_id software_version mfg_date
        firmware_version hardware_version mfg_url os_version platform_version support_url
        platform_id system_time :
      Name

-- A payload: its strings, and its manufacturer names with a language and a value each.
pub record Strings : Type 0 where
  pub text : Name → Option Bytes
  pub manufacturers : Option (List (Option Bytes × Option Bytes))

-- `value`: NULL, a string that is not freed yet, or a string that is freed.
pub data Pointer : Type 0 where
  null : Pointer
  held : Bytes → Pointer
  freed : Pointer

-- The fields, `value`, and the strings that no pointer holds any more.
pub record State : Type 0 where
  pub fields : Information
  pub value : Pointer
  pub lost : List Bytes

-- A string that stays where nothing frees it.
abbrev pub in_pointer : Pointer → List Bytes
in_pointer null = []
in_pointer (held s) = s ∷ []
in_pointer freed = []

-- `OCRepPayloadGetPropString(payload, name, &value)` of a string that there is.
unfoldable pub get_string : Bytes → State → State
get_string s st = record st { value = held s; lost = st.lost ++ in_pointer st.value }

-- `OICFree(value)`; a second time is undefined.
abbrev pub free_at : Pointer → State → Option State
free_at null st = some st
free_at (held s) st = some (record st { value = freed })
free_at freed st = none

abbrev pub free_value : State → Option State
free_value st = free_at st.value st

-- A property that is set, freed and NULL again.
unfoldable pub set_string : Option Bytes → (Bytes → Information → Information) → State → State
unfolding get_string
set_string none setter st = st
set_string (some s) setter st = record (get_string s st) {
  fields = setter s st.fields;
  value = null;
}

-- A property that is only read.
unfoldable pub read_string : Option Bytes → State → State
unfolding get_string
read_string none st = st
read_string (some s) st = get_string s st

-- The first manufacturer name, with a language and a value.
unfoldable pub set_manufacturer : List (Option Bytes × Option Bytes) → State → Option State
unfolding get_string
set_manufacturer [] st = some st
set_manufacturer ((some language, some s) ∷ names) st =
    free_value (record (get_string s st) { fields = record st.fields { manufacturer_name = s } })
set_manufacturer ((some language, none) ∷ names) st = free_value st
set_manufacturer ((none, s) ∷ names) st = free_value st

abbrev pub set_manufacturers : Option (List (Option Bytes × Option Bytes)) → State → Option State
set_manufacturers none st = some st
set_manufacturers (some names) st = set_manufacturer names st

-- The properties in front of the manufacturer names.
unfoldable pub set_names : Strings → State → State
set_names p st =
    set_string (p.text device_id) (λ s i. record i { serial_number = s })
      (set_string (p.text device_name) (λ s i. record i { friendly_name = s }) st)

-- And those behind.
unfoldable pub set_versions : Strings → State → State
set_versions p st =
    let s1 =
      read_string (p.text protocol_independent_id) (read_string (p.text device_model_num) st) in
    let s2 = set_string (p.text software_version) (λ s i. record i { app_version = s }) s1 in
    let s3 = read_string (p.text firmware_version) (read_string (p.text mfg_date) s2) in
    let s4 = set_string (p.text hardware_version) (λ s i. record i { hardware_version = s }) s3 in
    let s5 = read_string (p.text os_version) (read_string (p.text mfg_url) s4) in
    let s6 = read_string (p.text support_url) (read_string (p.text platform_version) s5) in
    let s7 = set_string (p.text platform_id) (λ s i. record i { device_uid = s }) s6 in
    read_string (p.text system_time) s7

-- `Set`: the fields, and the strings that are never freed. The objects of the descriptions, which are
-- never freed either, are left out.
unfoldable pub set : Strings → Information → Option (Information × List Bytes)
set p i =
    set_manufacturers p.manufacturers (set_names p (record { fields = i; value = null; lost = [] }))
    >>= λ st. let last = set_versions p st in some (last.fields, last.lost ++ in_pointer last.value)
