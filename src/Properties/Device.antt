-- ===== src/Properties/Device.antt =====
-- src/device_resource.cpp, src/platform_resource.cpp and `VirtualOcfDevice::SetProperties` of
-- src/virtual_ocf_device.cpp: the properties of a virtual device, from the attributes of HAN-FUN and
-- from an IPUI and an EMC.
pub mod Order
use hanfun_io_tivity.Prelude.{
  ℕ, zero, suc, ◌+◌, ◌/◌, ◌%◌, Bool, true, false, List, [], ◌∷◌, ◌++◌, Option, some, none,
  if◌then◌else◌, ◌==◌, ltb,
}
use hanfun_io_tivity.Prelude.Bytes.{Bytes, codes, c_str}
use hanfun_io_tivity.HanClient.Number.{digit}
use hanfun_io_tivity.Virtualization.Identity.{
  Library, hash_uid, get_protocol_independent_id, get_platform_id,
}
use hanfun_io_tivity.Properties.Attempts.{Attempt, skip, attempt, ◌>>◌}

-- The names of the properties, OC_RSRVD_..., and OC_SPEC_VERSION.
pub record Names : Type 0 where
  pub device_name : Bytes
  pub spec_version : Bytes
  pub protocol_independent_id : Bytes
  pub data_model_version : Bytes
  pub software_version : Bytes
  pub device_model_num : Bytes
  pub device_description : Bytes
  pub device_mfg_name : Bytes
  pub platform_id : Bytes
  pub mfg_name : Bytes
  pub model_num : Bytes
  pub hardware_version : Bytes
  pub vid : Bytes
  pub spec_version_value : Bytes

-- OCSetPropertyValue of the device, or of the platform, with a name and a value, and of the device with
-- a list of texts.
pub data Property : Type 0 where
  device platform : (name value : Bytes) → Property
  device_list : (name : Bytes) (values : List Bytes) → Property

-- An identifier of HAN-FUN: without one, a DECT or MAC address, or a URI.
pub data Uid : Type 0 where
  none_uid dect_uid mac_uid : Uid
  uri_uid : Bytes → Uid

-- The attributes that are read, where the list has them. A friendly name has the units' numbers.
pub record Attributes : Type 0 where
  pub friendly_name : Option (List (ℕ × Bytes))
  pub core_version : Option ℕ
  pub profile_version : Option ℕ
  pub interface_version : Option ℕ
  pub app_version : Option Bytes
  pub location : Option Bytes
  pub manufacturer_name : Option Bytes
  pub serial_number : Option Bytes
  pub hw_version : Option Bytes
  pub emc : Option ℕ
  pub uid : Option Uid

-- `std::to_string` of a number with at most a count of digits.
unfoldable to_string : ℕ → ℕ → Bytes
to_string zero n = []
to_string (suc digits) n =
    let front = to_string digits (n / 10) in
    if ltb n 10 then digit n ∷ [] else front ++ (digit (n % 10) ∷ [])

abbrev pub text : Option Bytes → Bytes
text none = []
text (some s) = s

unfoldable name_of_unit_zero : List (ℕ × Bytes) → Bytes
name_of_unit_zero [] = []
name_of_unit_zero ((id, name) ∷ units) = if id == 0 then name else name_of_unit_zero units

-- `GetDeviceName`.
unfoldable pub get_device_name : Attributes → Bytes
unfolding name_of_unit_zero
get_device_name a = elim a.friendly_name [ none ↦ [] | some units ↦ name_of_unit_zero units ]

-- `GetDataModelVersion`; the versions are bytes.
unfoldable pub get_data_model_version : Attributes → Bytes
unfolding to_string
get_data_model_version a = elim a.core_version [
  | none ↦ []
  | some core ↦ elim a.profile_version [
    | none ↦ []
    | some profile ↦ elim a.interface_version [
      | none ↦ []
      | some interface ↦
          codes "ocf.res.1.1.0"
          ++ (codes ", x.core."
              ++ (to_string 3 core
                  ++ (codes ", x.profile."
                      ++ (to_string 3 profile
                          ++ (codes ", x.interface." ++ to_string 3 interface)))))
    ]
  ]
]

-- `GetVendorId`; the EMC is a word.
unfoldable pub get_vendor_id : Attributes → Bytes
unfolding to_string
get_vendor_id a = elim a.emc [ none ↦ [] | some emc ↦ if emc == 0 then [] else to_string 5 emc ]

-- `GetManufacturerName` of src/platform_resource.cpp.
unfoldable pub get_manufacturer_name : Bytes → Attributes → Bytes
get_manufacturer_name bridge_manufacturer a = elim a.manufacturer_name [
  | none ↦ bridge_manufacturer
  | some name ↦ name
]

module _ (lib : Library) where
  -- The identifier that `Hash` makes of a URI; of another it is as it was, which is not set.
  unfoldable uid_identity : Uid → Bytes
  uid_identity none_uid = lib.unset_id
  uid_identity dect_uid = lib.unset_id
  uid_identity mac_uid = lib.unset_id
  uid_identity (uri_uid uri) = hash_uid lib (some uri)

  -- `GetProtocolIndependentId` of the attributes, into a buffer of zeros.
  unfoldable pub piid_of : Attributes → Bytes
  unfolding uid_identity
  piid_of a = elim a.uid [ none ↦ [] | some uid ↦ text (lib.uuid_text (uid_identity uid)) ]

  -- `GetPlatformId` of the attributes.
  unfoldable pub platform_id_of : Attributes → Bytes
  unfolding uid_identity
  platform_id_of a = elim a.uid [
    | none ↦ text (lib.uuid_text lib.unset_id)
    | some uid ↦ text (lib.uuid_text (uid_identity uid))
  ]

-- Two texts that are added behind a list, which is NULL where it is empty.
abbrev add_text : Option Bytes → List Bytes → List Bytes
add_text none ll = ll
add_text (some s) ll = ll ++ (codes "en" ∷ c_str s ∷ [])

-- `GetLocalizedDescription` and `GetManufacturerName`: the list of their own pointer at the end.
unfoldable pub get_localized_description : Attributes → List Bytes → List Bytes
get_localized_description a ll = add_text a.location ll

unfoldable pub get_device_manufacturer_name : Attributes → List Bytes → List Bytes
get_device_manufacturer_name a ll = add_text a.manufacturer_name ll

-- The caller's list after a call that gets a copy of its pointer: what is added to a list is added
-- behind its nodes, but where the pointer was NULL it stays NULL.
abbrev pub by_value : (List Bytes → List Bytes) → List Bytes → List Bytes
by_value f [] = []
by_value f (s ∷ ll) = f (s ∷ ll)

module _ (names : Names) (lib : Library) (works : Property → Bool) where
  -- A property with a text that may be empty, which is then not set.
  abbrev pub set_filled : (Bytes → Property) → Bytes → Attempt Property
  set_filled p [] = skip
  set_filled p (c ∷ s) = attempt works (p (c ∷ s))

  -- `if (ll)`.
  abbrev pub set_list : (List Bytes → Property) → List Bytes → Attempt Property
  set_list p [] = skip
  set_list p (s ∷ ll) = attempt works (p (s ∷ ll))

  -- `SetDeviceProperties` of attributes; `ll` is NULL in front of both calls that get it.
  unfoldable pub set_device_properties : Attributes → Attempt Property
  unfolding get_device_name piid_of get_data_model_version get_localized_description
      get_device_manufacturer_name
  set_device_properties a =
      let description = by_value (get_localized_description a) [] in
      let manufacturer = by_value (get_device_manufacturer_name a) [] in
      set_filled (device names.device_name) (get_device_name a)
      >> (attempt works (device names.spec_version names.spec_version_value)
          >> (attempt works (device names.protocol_independent_id (piid_of lib a))
              >> (attempt works (device names.data_model_version (get_data_model_version a))
                  >> (set_list (device_list names.device_description) description
                      >> (set_filled (device names.software_version) (text a.app_version)
                          >> (set_list (device_list names.device_mfg_name) manufacturer
                              >> set_filled (device names.device_model_num)
                                  (text a.serial_number)))))))

  -- `SetPlatformProperties` of attributes.
  unfoldable pub set_platform_properties : Bytes → Attributes → Attempt Property
  unfolding platform_id_of get_manufacturer_name get_vendor_id
  set_platform_properties bridge_manufacturer a =
      attempt works (platform names.platform_id (platform_id_of lib a))
      >> (attempt works (platform names.mfg_name (get_manufacturer_name bridge_manufacturer a))
          >> (set_filled (platform names.model_num) (text a.serial_number)
              >> (set_filled (platform names.hardware_version) (text a.hw_version)
                  >> set_filled (platform names.vid) (get_vendor_id a))))

  -- `VirtualOcfDevice::SetProperties` of attributes.
  unfoldable pub set_properties : Bytes → Attributes → Attempt Property
  unfolding set_device_properties set_platform_properties
  set_properties bridge_manufacturer a =
      set_device_properties a >> set_platform_properties bridge_manufacturer a

  -- `SetDeviceProperties` of an IPUI and an EMC.
  unfoldable pub set_device_properties_of : Option Bytes → Option Bytes → Attempt Property
  set_device_properties_of ipui emc =
      attempt works (device names.device_name (codes "sample"))
      >> (attempt works (device names.spec_version names.spec_version_value)
          >> (attempt works (
                device names.protocol_independent_id
                  (text (get_protocol_independent_id lib ipui emc)))
              >> attempt works (device names.data_model_version (codes "1"))))

  -- `SetPlatformProperties` of an IPUI and an EMC.
  unfoldable pub set_platform_properties_of : Option Bytes → Option Bytes → Attempt Property
  set_platform_properties_of ipui emc =
      attempt works (platform names.platform_id (text (get_platform_id lib ipui emc)))

  -- `VirtualOcfDevice::SetProperties` of an IPUI and an EMC.
  unfoldable pub set_properties_of : Option Bytes → Option Bytes → Attempt Property
  unfolding set_device_properties_of set_platform_properties_of
  set_properties_of ipui emc =
      set_device_properties_of ipui emc >> set_platform_properties_of ipui emc
