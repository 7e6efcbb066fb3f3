-- ===== src/Properties/Information/Lost.antt =====
-- The fields that `DeviceInformation::Set` sets, and the strings that it loses.
use hanfun_io_tivity.Prelude.{
  List, [], ◌∷◌, ◌++◌, Option, some, none, ◌>>=◌, append-nil, append_assoc, ◌≡◌, refl, sym, ap, ◌∙◌,
}
use hanfun_io_tivity.Prelude.Bytes.{Bytes}
use hanfun_io_tivity.Properties.Information.{
  Information, Name, device_name, device_id, device_model_num, protocol_independent_id,
  software_version, mfg_date, firmware_version, hardware_version, mfg_url, os_version,
  platform_version, support_url, platform_id, system_time, Strings, null, in_pointer, State,
  get_string, free_at, set_string, read_string, set_manufacturer, set_manufacturers, set_names,
  set_versions, set,
}

-- A property, or else the field as it was.
abbrev pub or_field : Option Bytes → Bytes → Bytes
or_field none old = old
or_field (some s) old = s

-- The manufacturer of the first name, where it has a language and a value.
abbrev pub first_name : Option (List (Option Bytes × Option Bytes)) → Option Bytes
first_name none = none
first_name (some []) = none
first_name (some ((none, s) ∷ names)) = none
first_name (some ((some language, s) ∷ names)) = s

abbrev pub described : Strings → Information → Information
described p i = record {
  app_version = or_field (p.text software_version) i.app_version;
  device_uid = or_field (p.text platform_id) i.device_uid;
  friendly_name = or_field (p.text device_name) i.friendly_name;
  hardware_version = or_field (p.text hardware_version) i.hardware_version;
  manufacturer_name = or_field (first_name p.manufacturers) i.manufacturer_name;
  serial_number = or_field (p.text device_id) i.serial_number;
}

abbrev present : Option Bytes → List Bytes
present none = []
present (some s) = s ∷ []

-- The strings of a payload under some names.
abbrev pub strings_of : Strings → List Name → List Bytes
strings_of p [] = []
strings_of p (n ∷ ns) = present (p.text n) ++ strings_of p ns

-- The properties that are read and neither used nor freed.
abbrev pub unused : List Name
unused =
    device_model_num ∷ protocol_independent_id ∷ mfg_date ∷ firmware_version ∷ mfg_url ∷ os_version
    ∷ platform_version ∷ support_url ∷ system_time ∷ []

-- The strings that are lost if nothing else frees one.
abbrev all_lost : State → List Bytes
all_lost st = st.lost ++ in_pointer st.value

abbrev fill : Option Bytes → (Bytes → Information → Information) → Information → Information
fill none setter i = i
fill (some s) setter i = setter s i

module _ (setter : Bytes → Information → Information) where
  set_string-lost :
      (o : Option Bytes) (st : State) → all_lost (set_string o setter st) ≡ all_lost st
  unfolding set_string get_string
  set_string-lost none st = refl
  set_string-lost (some s) st = append-nil (all_lost st)

  set_string-null :
      (o : Option Bytes) (st : State) → st.value ≡ null → (set_string o setter st).value ≡ null
  unfolding set_string
  set_string-null none st h = h
  set_string-null (some s) st h = refl

  set_string-fields :
      (o : Option Bytes) (st : State) → (set_string o setter st).fields ≡ fill o setter st.fields
  unfolding set_string
  set_string-fields none st = refl
  set_string-fields (some s) st = refl

read_string-lost :
    (o : Option Bytes) (st : State) → all_lost (read_string o st) ≡ all_lost st ++ present o
unfolding read_string get_string
read_string-lost none st = sym (append-nil (all_lost st))
read_string-lost (some s) st = refl

read_string-fields : (o : Option Bytes) (st : State) → (read_string o st).fields ≡ st.fields
unfolding read_string get_string
read_string-fields none st = refl
read_string-fields (some s) st = refl

-- In front of them no string is held, so none is freed twice.
set_manufacturers-null :
    (names : Option (List (Option Bytes × Option Bytes))) (st : State)
    → st.value ≡ null
    → (st' : State) × (set_manufacturers names st ≡ some st')
      × (all_lost st' ≡ all_lost st)
      × (st'.fields ≡ fill (first_name names) (λ s i. record i { manufacturer_name = s }) st.fields)
unfolding set_manufacturer get_string
set_manufacturers-null none st h = (st, refl, refl, refl)
set_manufacturers-null (some []) st h = (st, refl, refl, refl)
set_manufacturers-null (some ((some language, some s) ∷ names)) st h =
    (_, refl, append-nil (all_lost st), refl)
set_manufacturers-null (some ((some language, none) ∷ names)) st h =
    (st, ap (λ v. free_at v st) h, refl, refl)
set_manufacturers-null (some ((none, s) ∷ names)) st h = (st, ap (λ v. free_at v st) h, refl, refl)

set_versions-lost :
    (p : Strings) (st : State)
    → all_lost st ≡ []
    → all_lost (set_versions p st) ≡ strings_of p unused
unfolding set_versions
set_versions-lost p st h = simp (read_string-lost, set_string-lost, h, append_assoc, append-nil)

set_versions-fields :
    (p : Strings) (st : State)
    → (set_versions p st).fields ≡ record st.fields {
      app_version = or_field (p.text software_version) st.fields.app_version;
      hardware_version = or_field (p.text hardware_version) st.fields.hardware_version;
      device_uid = or_field (p.text platform_id) st.fields.device_uid;
    }
unfolding set_versions
set_versions-fields p st =
    let filled : (set_versions p st).fields
        ≡ fill (p.text platform_id) (λ s j. record j { device_uid = s })
            (fill (p.text hardware_version) (λ s j. record j { hardware_version = s })
              (fill (p.text software_version) (λ s j. record j { app_version = s }) st.fields)) =
      simp (read_string-fields, set_string-fields) in
    filled
    ∙ fill_versions (p.text software_version) (p.text hardware_version) (p.text platform_id)
        st.fields
  where
    fill_versions :
        (a h u : Option Bytes) (i : Information)
        → fill u
            (λ s j. record j { device_uid = s })
            (fill h
              (λ s j. record j { hardware_version = s })
              (fill a (λ s j. record j { app_version = s }) i))
          ≡ record i {
            app_version = or_field a i.app_version;
            hardware_version = or_field h i.hardware_version;
            device_uid = or_field u i.device_uid;
          }
    fill_versions none none none i = refl
    fill_versions none none (some u) i = refl
    fill_versions none (some h) none i = refl
    fill_versions none (some h) (some u) i = refl
    fill_versions (some a) none none i = refl
    fill_versions (some a) none (some u) i = refl
    fill_versions (some a) (some h) none i = refl
    fill_versions (some a) (some h) (some u) i = refl

set_names-fields :
    (p : Strings) (st : State) (m : Option Bytes)
    → fill m (λ s i. record i { manufacturer_name = s }) (set_names p st).fields
      ≡ record st.fields {
        friendly_name = or_field (p.text device_name) st.fields.friendly_name;
        serial_number = or_field (p.text device_id) st.fields.serial_number;
        manufacturer_name = or_field m st.fields.manufacturer_name;
      }
unfolding set_names
set_names-fields p st m =
    ap (fill m (λ s i. record i { manufacturer_name = s })) (simp set_string-fields)
    ∙ fill_names (p.text device_name) (p.text device_id) m st.fields
  where
    fill_names :
        (n d o : Option Bytes) (i : Information)
        → fill o
            (λ s j. record j { manufacturer_name = s })
            (fill d
              (λ s j. record j { serial_number = s })
              (fill n (λ s j. record j { friendly_name = s }) i))
          ≡ record i {
            friendly_name = or_field n i.friendly_name;
            serial_number = or_field d i.serial_number;
            manufacturer_name = or_field o i.manufacturer_name;
          }
    fill_names none none none i = refl
    fill_names none none (some m) i = refl
    fill_names none (some d) none i = refl
    fill_names none (some d) (some m) i = refl
    fill_names (some n) none none i = refl
    fill_names (some n) none (some m) i = refl
    fill_names (some n) (some d) none i = refl
    fill_names (some n) (some d) (some m) i = refl

-- Whatever the payload has, `Set` frees no string twice, sets each field to its property where there is
-- one, and never frees the strings of nine other properties.
pub set-described :
    (p : Strings) (i : Information) → set p i ≡ some (described p i, strings_of p unused)
unfolding set
set-described p i =
    let start : State = record { fields = i; value = null; lost = [] } in
    let empty : (set_names p start).value ≡ null =
      unfold set_names in
      set_string-null _ (p.text device_id) _ (set_string-null _ (p.text device_name) start refl) in
    let none_lost : all_lost (set_names p start) ≡ [] = unfold set_names in simp set_string-lost in
    let (st, ran, lost, fields) =
      set_manufacturers-null p.manufacturers (set_names p start) empty in
    ap
      (λ (o : Option State).
        o >>= λ s. some ((set_versions p s).fields, all_lost (set_versions p s)))
      ran
    ∙ ap (λ x. some (x, all_lost (set_versions p st)))
        (set_versions-fields p st
          ∙ ap
              (λ (j : Information). record j {
                app_version = or_field (p.text software_version) j.app_version;
                hardware_version = or_field (p.text hardware_version) j.hardware_version;
                device_uid = or_field (p.text platform_id) j.device_uid;
              })
              (fields ∙ set_names-fields p start (first_name p.manufacturers)))
    ∙ ap (λ x. some (described p i, x)) (set_versions-lost p st (lost ∙ none_lost))
