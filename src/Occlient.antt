-- ===== src/Occlient.antt =====
-- src/tools/occlient.cpp: what the client of the command line keeps, and the requests that its commands
-- make. In the children `none` is undefined behaviour, or an exception that nothing catches.

pub mod Words
pub mod Find
pub mod Get
pub mod Json
pub mod Post
pub mod Address
pub mod Kept
pub mod Discovered
pub mod Stoi
pub mod Arguments
pub mod Commands
use hanfun_io_tivity.Prelude.{
  ℕ, suc, ◌+◌, ◌-◌, ◌*◌, ◌%◌, ◌^◌, Bool, true, false, ◌&&◌, ◌||◌, List, [], ◌∷◌, ◌++◌, Option, none,
  some, if◌then◌else◌, ◌>>=◌, ltb, leb, ◌==◌, take, drop, get_elem?,
}
use hanfun_io_tivity.Prelude.Bytes.{Bytes, codes, bytes_eq}
use hanfun_io_tivity.Stack.{
  Constants, DevAddr, Adapter, ip, tcp, EndpointPayload, ResourcePayload, DiscoveryPayload,
}
use hanfun_io_tivity.Resource.{secured_origin}
use hanfun_io_tivity.HanClient.Cstring.{tokens, is_blank, has_prefix}
use hanfun_io_tivity.HanClient.Number.{is_space, is_digit, atoi, cast}

-- `Resource`.
pub record Found : Type 0 where
  pub di : Bytes
  pub addr : DevAddr
  pub uri : Bytes

pub data Format : Type 0 where
  cbor vnd_ocf_cbor : Format

pub data Method : Type 0 where
  discover get post observe : Method

-- A call of `OCDoResource`: the format of its header option, and its payload, a number that stands for
-- the representation of IoTivity.
pub record ClientRequest : Type 0 where
  pub method : Method
  pub uri : Bytes
  pub addr : Option DevAddr
  pub payload : Option ℕ
  pub accept : Option Format

-- `g_resources`, the requests so far, the handles that were cancelled, and whether the loop of `main`
-- has ended.
pub record Client : Type 0 where
  pub resources : List Found
  pub requests : List ClientRequest
  pub cancelled : List ℕ
  pub quit : Bool
