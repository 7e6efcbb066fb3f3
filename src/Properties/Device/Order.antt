-- ===== src/Properties/Device/Order.antt =====
-- The calls by which a virtual device of src/virtual_ocf_device.cpp sets its properties.
use hanfun_io_tivity.Prelude.{Bool, List, [], ◌∷◌, ◌++◌, Option, some, ◌≡◌, ap, ◌∙◌}
use hanfun_io_tivity.Prelude.Bytes.{Bytes, codes}
use hanfun_io_tivity.Virtualization.Identity.{Library, get_protocol_independent_id, get_platform_id}
use hanfun_io_tivity.Properties.Attempts.{
  Attempt, ◌>>◌, until_failure, Follows, skip-Follows, attempt-Follows, >>-Follows, then-Follows,
}
use hanfun_io_tivity.Properties.Device.{
  Names, Property, device, platform, Attributes, text, get_device_name, get_data_model_version,
  get_vendor_id, get_manufacturer_name, piid_of, platform_id_of, set_filled, set_device_properties,
  set_platform_properties, set_properties, set_device_properties_of, set_platform_properties_of,
  set_properties_of,
}

abbrev pub filled : (Bytes → Property) → Bytes → List Property
filled p [] = []
filled p (c ∷ s) = p (c ∷ s) ∷ []

module _ (names : Names) (lib : Library) where
  -- The properties of the device, in their order: those in brackets where they have a text.
  abbrev pub device_properties : Attributes → List Property
  device_properties a =
      filled (device names.device_name) (get_device_name a)
      ++ (device names.spec_version names.spec_version_value
          ∷ (device names.protocol_independent_id (piid_of lib a)
              ∷ (device names.data_model_version (get_data_model_version a)
                  ∷ (filled (device names.software_version) (text a.app_version)
                      ++ filled (device names.device_model_num) (text a.serial_number)))))

  -- Those of the platform.
  abbrev pub platform_properties : Bytes → Attributes → List Property
  platform_properties bridge_manufacturer a =
      platform names.platform_id (platform_id_of lib a)
      ∷ (platform names.mfg_name (get_manufacturer_name bridge_manufacturer a)
          ∷ (filled (platform names.model_num) (text a.serial_number)
              ++ (filled (platform names.hardware_version) (text a.hw_version)
                  ++ filled (platform names.vid) (get_vendor_id a))))

  -- Those of a device with an IPUI and an EMC, by its identifier and that of its platform.
  abbrev pub sample_properties : Bytes → Bytes → List Property
  sample_properties piid pi =
      device names.device_name (codes "sample")
      ∷ device names.spec_version names.spec_version_value
      ∷ device names.protocol_independent_id piid
      ∷ device names.data_model_version (codes "1")
      ∷ platform names.platform_id pi
      ∷ []

module _ (names : Names) (lib : Library) (works : Property → Bool) where
  set_filled-Follows :
      (p : Bytes → Property) (s : Bytes)
      → Follows works (set_filled names lib works p s) (filled p s)
  set_filled-Follows p [] = skip-Follows works
  set_filled-Follows p (c ∷ s) = attempt-Follows works (p (c ∷ s))

  filled-Follows :
      (p : Bytes → Property) (s : Bytes) (k : Attempt Property) (ps : List Property)
      → Follows works k ps
      → Follows works (set_filled names lib works p s >> k) (filled p s ++ ps)
  filled-Follows p s k ps f =
      >>-Follows works (set_filled names lib works p s) k (filled p s) ps (set_filled-Follows p s) f

  set_device_properties-Follows :
      (a : Attributes)
      → Follows works (set_device_properties names lib works a) (device_properties names lib a)
  unfolding set_device_properties
  set_device_properties-Follows a =
      filled-Follows (device names.device_name) (get_device_name a) _ _ (
        then-Follows works (device names.spec_version names.spec_version_value) _ _ (
          then-Follows works (device names.protocol_independent_id (piid_of lib a)) _ _ (
            then-Follows works (device names.data_model_version (get_data_model_version a)) _ _ (
              filled-Follows (device names.software_version) (text a.app_version) _ _
                (set_filled-Follows (device names.device_model_num) (text a.serial_number))))))

  set_platform_properties-Follows :
      (bridge_manufacturer : Bytes) (a : Attributes)
      → Follows works
          (set_platform_properties names lib works bridge_manufacturer a)
          (platform_properties names lib bridge_manufacturer a)
  unfolding set_platform_properties
  set_platform_properties-Follows bridge_manufacturer a =
      then-Follows works (platform names.platform_id (platform_id_of lib a)) _ _ (
        then-Follows works (platform names.mfg_name (get_manufacturer_name bridge_manufacturer a)) _
          _
          (filled-Follows (platform names.model_num) (text a.serial_number) _ _ (
            filled-Follows (platform names.hardware_version) (text a.hw_version) _ _
              (set_filled-Follows (platform names.vid) (get_vendor_id a)))))

  -- `SetProperties` of attributes makes the calls for the device and then for the platform, in the
  -- order of `device_properties` and `platform_properties`, up to the first that fails, and succeeds
  -- where none fails; no call sets the description or the manufacturer of the device, whatever the
  -- attributes say.
  pub set_properties-until_failure :
      (bridge_manufacturer : Bytes) (a : Attributes)
      → set_properties names lib works bridge_manufacturer a []
        ≡ until_failure works
            (device_properties names lib a ++ platform_properties names lib bridge_manufacturer a)
  unfolding set_properties Follows
  set_properties-until_failure bridge_manufacturer a =
      >>-Follows works (set_device_properties names lib works a)
        (set_platform_properties names lib works bridge_manufacturer a)
        (device_properties names lib a) (platform_properties names lib bridge_manufacturer a)
        (set_device_properties-Follows a) (set_platform_properties-Follows bridge_manufacturer a) []

  set_properties_of-Follows :
      (ipui emc : Option Bytes)
      → Follows works (set_properties_of names lib works ipui emc) (
          sample_properties names lib
            (text (get_protocol_independent_id lib ipui emc))
            (text (get_platform_id lib ipui emc)))
  unfolding set_properties_of set_device_properties_of set_platform_properties_of
  set_properties_of-Follows ipui emc =
      let piid : Bytes = text (get_protocol_independent_id lib ipui emc) in
      let pi : Bytes = text (get_platform_id lib ipui emc) in
      >>-Follows works (set_device_properties_of names lib works ipui emc)
        (set_platform_properties_of names lib works ipui emc)
        (device names.device_name (codes "sample")
          ∷ device names.spec_version names.spec_version_value
          ∷ device names.protocol_independent_id piid
          ∷ device names.data_model_version (codes "1")
          ∷ [])
        (platform names.platform_id pi ∷ [])
        (then-Follows works (device names.device_name (codes "sample")) _ _ (
          then-Follows works (device names.spec_version names.spec_version_value) _ _ (
            then-Follows works (device names.protocol_independent_id piid) _ _
              (attempt-Follows works (device names.data_model_version (codes "1"))))))
        (attempt-Follows works (platform names.platform_id pi))

  -- A device that has an identifier, which is the one that it was launched with, gives it as its
  -- identifier and as that of its platform, with its name and its versions, up to the first call that
  -- fails.
  set_properties_of-until_failure :
      (ipui emc piid : Bytes)
      → get_protocol_independent_id lib (some ipui) (some emc) ≡ some piid
      → set_properties_of names lib works (some ipui) (some emc) []
        ≡ until_failure works (sample_properties names lib piid piid)
  unfolding Follows get_protocol_independent_id get_platform_id
  set_properties_of-until_failure ipui emc piid e =
      set_properties_of-Follows (some ipui) (some emc) []
      ∙ ap
          (λ (o : Option Bytes).
            until_failure works (sample_properties names lib (text o) (text o)))
          e
