-- ===== src/Examples/Own.antt =====
-- The payload of a device.
use hanfun_io_tivity.Prelude.{◌≡◌, [], ◌∷◌, some, none}
use hanfun_io_tivity.Prelude.Bytes.{codes}
use hanfun_io_tivity.Properties.Information.{
  Information, Strings, device_name, device_id, device_model_num, protocol_independent_id,
  software_version, mfg_date, firmware_version, hardware_version, mfg_url, os_version,
  platform_version, support_url, platform_id, system_time, set,
}
use hanfun_io_tivity.Properties.Information.Lost.{set-described}

-- A payload with a name, two manufacturer names and a model number.
abbrev lamp_strings : Strings
lamp_strings = record {
  text = λ n. elim n [
    | device_name ↦ some (codes "Lamp")
    | device_id ↦ none
    | device_model_num ↦ some (codes "L1")
    | protocol_independent_id ↦ none
    | software_version ↦ some (codes "2.0")
    | mfg_date ↦ none
    | firmware_version ↦ none
    | hardware_version ↦ none
    | mfg_url ↦ none
    | os_version ↦ some (codes "4")
    | platform_version ↦ none
    | support_url ↦ none
    | platform_id ↦ none
    | system_time ↦ none
  ];
  manufacturers = some (
      (some (codes "en"), some (codes "Maker"))
      ∷ (some (codes "de"), some (codes "Hersteller"))
      ∷ []);
}

abbrev blank : Information
blank = record {
  app_version = [];
  device_uid = [];
  friendly_name = [];
  hardware_version = [];
  manufacturer_name = [];
  serial_number = [];
}

set-described_example :
    set lamp_strings blank
    ≡ some (
      record blank {
        app_version = codes "2.0";
        friendly_name = codes "Lamp";
        manufacturer_name = codes "Maker";
      },
      codes "L1" ∷ codes "4" ∷ [],
    )
set-described_example = set-described lamp_strings blank
