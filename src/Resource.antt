-- ===== src/Resource.antt =====
-- src/resource.h, src/resource.cpp and src/interfaces.cpp: resources and devices as discovered.
pub mod Links
pub mod Query
pub mod Request
pub mod Scan
pub mod Parse
use hanfun_io_tivity.Prelude.{
  ℕ, zero, suc, ◌+◌, Bool, true, false, not, ◌&&◌, ◌||◌, List, [], ◌∷◌, ◌++◌, Option, some, none,
  if◌then◌else◌, map, take,
}
use hanfun_io_tivity.Prelude.Bytes.{Bytes, codes, bytes_eq}
use hanfun_io_tivity.HanClient.Cstring.{has_prefix}
use hanfun_io_tivity.Stack.{
  Constants, Flags, with_flag, Adapter, ip, tcp, other, DevAddr, EndpointPayload, ResourcePayload,
  DiscoveryPayload,
}

-- The fields of a `Resource` but for the resources that it holds.
pub record Info : Type 0 where
  pub uri : Bytes
  pub ifs : List Bytes
  pub rts : List Bytes
  pub is_observable : Bool
  pub addrs : List DevAddr

mutual
  pub data Resource : Type 0 where
    resource : Info → Resources → Resource

  pub data Resources : Type 0 where
    end : Resources
    item : Resource → Resources → Resources

abbrev pub info : Resource → Info
info (resource i rs) = i

abbrev pub children : Resource → Resources
children (resource i rs) = rs

unfoldable pub push_back : Resources → Resource → Resources
push_back end r = item r end
push_back (item x xs) r = item x (push_back xs r)

pub record Device : Type 0 where
  pub di : Bytes
  pub resources : List Resource

-- `HasResourceType`.
unfoldable pub has_resource_type : List Bytes → Bytes → Bool
has_resource_type [] rt = false
has_resource_type (t ∷ ts) rt = bytes_eq t rt || has_resource_type ts rt

-- The first argument counts the bytes of "%25" still to be skipped, the second the bytes of the
-- source that the bound still lets the loop read.
unfoldable pub copy_addr : ℕ → ℕ → Bool → Bytes → Bytes
copy_addr skip zero v6 s = []
copy_addr skip (suc room) v6 [] = []
copy_addr (suc skip) (suc room) v6 (c ∷ s) = copy_addr skip room v6 s
copy_addr zero (suc room) v6 (c ∷ s) =
    c ∷ copy_addr (if v6 && has_prefix (codes "%25") (c ∷ s) then 2 else 0) room v6 s

module _ (oc : Constants) where
  unfoldable pub endpoint_adapter : Bytes → Option Adapter
  endpoint_adapter tps =
      if bytes_eq tps (codes "coap") || bytes_eq tps (codes "coaps")
      then some ip
      else if bytes_eq tps (codes "coap+tcp") || bytes_eq tps (codes "coaps+tcp")
      then some tcp
      else none

  unfoldable pub endpoint_addr : Bytes → EndpointPayload → DevAddr
  unfolding endpoint_adapter copy_addr
  endpoint_addr di ep = record {
    adapter = endpoint_adapter ep.tps;
    flags = ep.family;
    port = ep.port;
    addr = copy_addr 0 oc.max_addr_str_size (ep.family oc.ip_use_v6) ep.addr;
    ifindex = 0;
    route_data = [];
    remote_id = take oc.max_identity_size di;
  }

  -- The origin's port: that of a secure resource, for the adapter that the origin has.
  unfoldable secure_port : Option Adapter → ℕ → ResourcePayload → ℕ
  secure_port none port r = port
  secure_port (some ip) port r = r.port
  secure_port (some tcp) port r = if oc.tcp_adapter then r.tcp_port else port
  secure_port (some other) port r = port

  unfoldable pub secured_origin : DevAddr → ResourcePayload → DevAddr
  unfolding secure_port
  secured_origin origin r =
      if r.secure
      then record origin {
        flags = with_flag oc.flag_secure origin.flags;
        port = secure_port origin.adapter origin.port r;
      }
      else origin

  unfoldable pub get_dev_addrs : DevAddr → Bytes → ResourcePayload → List DevAddr
  unfolding endpoint_addr secured_origin
  get_dev_addrs origin di r = elim r.eps [
    | [] ↦ secured_origin origin r ∷ []
    | ep ∷ eps ↦ map (endpoint_addr di) (ep ∷ eps)
  ]

  -- The constructor of `Resource`.
  unfoldable pub new_resource : DevAddr → Bytes → ResourcePayload → Resource
  unfolding get_dev_addrs
  new_resource origin di r =
      resource
        (record {
          uri = r.uri;
          ifs = r.interfaces;
          rts = r.types;
          is_observable = r.observable;
          addrs = get_dev_addrs origin di r;
        })
        end

  unfoldable pub any_secure : List DevAddr → Bool
  any_secure [] = false
  any_secure (a ∷ addrs) = a.flags oc.flag_secure || any_secure addrs

  -- `Resource::IsSecure`.
  unfoldable pub is_secure : Resource → Bool
  unfolding any_secure
  is_secure r = any_secure (info r).addrs

  -- The constructor of `Device`.
  unfoldable pub new_device : DevAddr → DiscoveryPayload → Device
  unfolding new_resource
  new_device origin payload = record {
    di = payload.sid;
    resources = map (new_resource origin payload.sid) payload.resources;
  }

  -- `do_not_translate` and `do_deep_translation` of `TranslateResourceType`.
  abbrev pub do_not_translate : List Bytes
  do_not_translate =
      codes "oic.d.bridge"
      ∷ oc.type_collection
      ∷ oc.type_introspection
      ∷ oc.type_rd
      ∷ oc.type_rdpublish
      ∷ oc.type_res
      ∷ codes "oic.r.hanfunobject"
      ∷ codes "oic.r.acl"
      ∷ codes "oic.r.acl2"
      ∷ codes "oic.r.amacl"
      ∷ codes "oic.r.cred"
      ∷ codes "oic.r.crl"
      ∷ codes "oic.r.csr"
      ∷ codes "oic.r.doxm"
      ∷ codes "oic.r.pstat"
      ∷ codes "oic.r.roles"
      ∷ codes "oic.r.securemode"
      ∷ []

  abbrev pub do_deep_translation : List Bytes
  do_deep_translation =
      oc.type_device ∷ oc.type_device_configuration ∷ oc.type_maintenance ∷ oc.type_platform
      ∷ oc.type_platform_configuration ∷ []

  -- `TranslateResourceType`.
  unfoldable pub translate_resource_type : Bytes → Bool
  unfolding has_resource_type
  translate_resource_type name =
      if has_resource_type do_not_translate name
      then false
      else if has_resource_type do_deep_translation name
      then true
      else true

-- `Device::GetResourceUri` and `FindResourceFromUri`.
unfoldable pub get_resource_uri : Bytes → List Resource → Option Resource
get_resource_uri uri [] = none
get_resource_uri uri (r ∷ rs) =
    if bytes_eq (info r).uri uri then some r else get_resource_uri uri rs

-- `Device::GetResourceType` and `FindResourceFromType`.
unfoldable pub get_resource_type : Bytes → List Resource → Option Resource
unfolding has_resource_type
get_resource_type rt [] = none
get_resource_type rt (r ∷ rs) =
    if has_resource_type (info r).rts rt then some r else get_resource_type rt rs

-- `Device::IsVirtual`.
unfoldable pub is_virtual : Constants → Device → Bool
unfolding get_resource_uri has_resource_type
is_virtual oc d = elim (get_resource_uri oc.device_uri d.resources) [
  | none ↦ false
  | some r ↦ has_resource_type (info r).rts (codes "oic.d.virtual")
]
