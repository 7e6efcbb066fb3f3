-- ===== src/Stack.antt =====
-- What the code takes from IoTivity, which is not part of the repository: the reserved names and flag
-- bits of its headers, and the payloads that it hands over. Flags are their set bits.
use hanfun_io_tivity.Prelude.{ℕ, Bool, true, List, Option, ◌==◌, if◌then◌else◌}
use hanfun_io_tivity.Prelude.Bytes.{Bytes}

-- The constants, OC_RSRVD_... and others.
pub record Constants : Type 0 where
  pub device_uri : Bytes
  pub platform_uri : Bytes
  pub type_collection : Bytes
  pub type_introspection : Bytes
  pub type_rd : Bytes
  pub type_rdpublish : Bytes
  pub type_res : Bytes
  pub type_device : Bytes
  pub type_device_configuration : Bytes
  pub type_maintenance : Bytes
  pub type_platform : Bytes
  pub type_platform_configuration : Bytes
  -- OC_RSRVD_RESOURCE_TYPE, OC_RSRVD_INTERFACE and OC_RSRVD_INTERFACE_....
  pub resource_type : Bytes
  pub interface : Bytes
  pub interface_default : Bytes
  pub interface_read_write : Bytes
  -- OC_FLAG_SECURE, OC_IP_USE_V6 and OC_SECURE, as bit numbers.
  pub flag_secure : ℕ
  pub ip_use_v6 : ℕ
  pub secure : ℕ
  pub max_addr_str_size : ℕ
  pub max_identity_size : ℕ
  -- The build option TCP_ADAPTER.
  pub tcp_adapter : Bool

abbrev pub Flags : Type 0
Flags = ℕ → Bool

abbrev pub with_flag : ℕ → Flags → Flags
with_flag bit f i = if i == bit then true else f i

pub data Adapter : Type 0 where
  ip tcp other : Adapter

-- OCDevAddr; an adapter that the code leaves unset is `none`.
pub record DevAddr : Type 0 where
  pub adapter : Option Adapter
  pub flags : Flags
  pub port : ℕ
  pub addr : Bytes
  pub ifindex : ℕ
  pub route_data : Bytes
  pub remote_id : Bytes

pub record EndpointPayload : Type 0 where
  pub tps : Bytes
  pub addr : Bytes
  pub family : Flags
  pub port : ℕ

-- OCResourcePayload, with the bit OC_OBSERVABLE of its bitmap.
pub record ResourcePayload : Type 0 where
  pub uri : Bytes
  pub types : List Bytes
  pub interfaces : List Bytes
  pub observable : Bool
  pub secure : Bool
  pub port : ℕ
  pub tcp_port : ℕ
  pub eps : List EndpointPayload

pub record DiscoveryPayload : Type 0 where
  pub sid : Bytes
  pub resources : List ResourcePayload

-- OCStackResult: its values as numbers.
pub record Results : Type 0 where
  pub ok : ℕ
  pub resource_changed : ℕ
  pub invalid_query : ℕ

-- OCStackApplicationResult.
pub data ApplicationResult : Type 0 where
  delete_transaction keep_transaction : ApplicationResult
