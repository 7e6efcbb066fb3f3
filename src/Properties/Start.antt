-- ===== src/Properties/Start.antt =====
-- `Start` of src/bridge.cpp: the calls that a bridge makes of itself, up to the first that fails.
use hanfun_io_tivity.Prelude.{
  ℕ, Bool, true, false, List, [], ◌∷◌, ◌++◌, if◌then◌else◌, ◌==◌, ◌≡◌, sym, ap, ◌∙◌,
}
use hanfun_io_tivity.Prelude.Bytes.{Bytes, codes}
use hanfun_io_tivity.Properties.Attempts.{
  Attempt, skip, attempt, ◌>>◌, until_failure, Follows, skip-Follows, attempt-Follows, >>-Follows,
  then-Follows,
}
use hanfun_io_tivity.Properties.Device.{Names, Property, device, platform}

-- The steps of `Start`: the security of the stack, a handle at a URI, the properties of a resource, a
-- property, a resource type, the two resources of the bridge, the introspection data, which cannot
-- fail, and the HAN client.
pub data Step : Type 0 where
  init_security : Step
  get_handle : (uri : Bytes) → Step
  set_resource_properties : (uri : Bytes) → Step
  set_property : Property → Step
  bind_resource_type : (uri type : Bytes) → Step
  create_secure_mode create_registration : Step
  set_introspection_data : Step
  start_han_client : Step

-- The URIs, and the bridge's name and manufacturer.
pub record Bridge : Type 0 where
  pub well_known_uri : Bytes
  pub device_uri : Bytes
  pub device_name : Bytes
  pub manufacturer_name : Bytes
  pub sender : ℕ
  pub has_hf : Bool

module _ (names : Names) (works : Step → Bool) where
  -- `SetIntrospectionData` returns nothing.
  abbrev pub introspect : Attempt Step
  introspect calls = (calls ++ (set_introspection_data ∷ []), true)

  -- The branch of a bridge that is not a virtual device.
  unfoldable start_bridge : Bridge → Attempt Step
  start_bridge b =
      attempt works (get_handle b.well_known_uri)
      >> (attempt works (set_resource_properties b.well_known_uri)
          >> (attempt works (set_property (device names.device_name b.device_name))
              >> (attempt works (set_property (device names.spec_version names.spec_version_value))
                  >> (attempt works
                        (set_property (device names.data_model_version (codes "ocf.res.1.1.0")))
                      >> (attempt works (get_handle b.device_uri)
                          >> (attempt works (bind_resource_type b.device_uri (codes "oic.d.bridge"))
                              >> (attempt works
                                    (set_property (platform names.mfg_name b.manufacturer_name))
                                  >> (attempt works create_secure_mode
                                      >> (attempt works create_registration >> introspect)))))))))

  -- `Start`.
  unfoldable pub start : Bridge → Attempt Step
  unfolding start_bridge
  start b =
      attempt works init_security
      >> ((if b.sender == 0 then start_bridge b else skip)
          >> (if b.has_hf then attempt works start_han_client else skip))

-- The steps of a bridge that is not a virtual device.
abbrev pub bridge_steps : Names → Bridge → List Step
bridge_steps names b =
    get_handle b.well_known_uri
    ∷ set_resource_properties b.well_known_uri
    ∷ set_property (device names.device_name b.device_name)
    ∷ set_property (device names.spec_version names.spec_version_value)
    ∷ set_property (device names.data_model_version (codes "ocf.res.1.1.0"))
    ∷ get_handle b.device_uri
    ∷ bind_resource_type b.device_uri (codes "oic.d.bridge")
    ∷ set_property (platform names.mfg_name b.manufacturer_name)
    ∷ create_secure_mode
    ∷ create_registration
    ∷ set_introspection_data
    ∷ []

-- All steps: a virtual device leaves out those of the bridge, and without HAN FUN there is no client.
abbrev pub steps : Names → Bridge → List Step
steps names b =
    init_security
    ∷ ((if b.sender == 0 then bridge_steps names b else [])
        ++ (if b.has_hf then start_han_client ∷ [] else []))

module _ (names : Names) (works : Step → Bool) where
  introspect-Follows :
      works set_introspection_data ≡ true
      → Follows works (introspect names works) (set_introspection_data ∷ [])
  unfolding Follows
  introspect-Follows h calls =
      ap (λ (b : Bool). (calls ++ (set_introspection_data ∷ []), b)) (sym h)
      ∙ attempt-Follows works set_introspection_data calls

  start_bridge-Follows :
      (b : Bridge)
      → works set_introspection_data ≡ true
      → Follows works (start_bridge names works b) (bridge_steps names b)
  unfolding start_bridge
  start_bridge-Follows b h = then-Follows works (get_handle b.well_known_uri) _ _ (
      then-Follows works (set_resource_properties b.well_known_uri) _ _ (
        then-Follows works (set_property (device names.device_name b.device_name)) _ _ (
          then-Follows works (set_property (device names.spec_version names.spec_version_value)) _ _
            (then-Follows works
              (set_property (device names.data_model_version (codes "ocf.res.1.1.0"))) _ _
              (then-Follows works (get_handle b.device_uri) _ _ (
                then-Follows works (bind_resource_type b.device_uri (codes "oic.d.bridge")) _ _ (
                  then-Follows works (set_property (platform names.mfg_name b.manufacturer_name)) _
                    _
                    (then-Follows works create_secure_mode _ _
                      (then-Follows works create_registration _ _ (introspect-Follows h))))))))))

  if-Follows :
      (b : Bool) (m : Attempt Step) (ss : List Step)
      → Follows works m ss
      → Follows works (if b then m else skip) (if b then ss else [])
  if-Follows true m ss f = f
  if-Follows false m ss f = skip-Follows works

  -- Where the introspection data do not fail, `Start` makes its steps in order, up to the first that
  -- fails, and returns true where none fails; a virtual device makes none of the bridge's own steps.
  start-until_failure :
      (b : Bridge)
      → works set_introspection_data ≡ true
      → start names works b [] ≡ until_failure works (steps names b)
  unfolding start Follows
  start-until_failure b h =
      then-Follows works init_security _ _
        (>>-Follows works (if b.sender == 0 then start_bridge names works b else skip)
          (if b.has_hf then attempt works start_han_client else skip)
          (if b.sender == 0 then bridge_steps names b else [])
          (if b.has_hf then start_han_client ∷ [] else [])
          (if-Follows (b.sender == 0) _ _ (start_bridge-Follows b h))
          (if-Follows b.has_hf _ _ (attempt-Follows works start_han_client)))
        []
