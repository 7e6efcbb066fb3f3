-- ===== src/Discovery.antt =====
-- The discovery of OCF devices by src/bridge.cpp: the bridge's state, with the heap of its
-- `DiscoverContext`s, and what its operations do to it.
pub mod Iterator
pub mod Ops
pub mod Callbacks
pub mod Introspection
pub mod Steps
pub mod Process
pub mod Secure
pub mod Poll
pub mod Balance
use hanfun_io_tivity.Prelude.{
  ℕ, suc, ◌+◌, Bool, true, false, List, [], ◌∷◌, ◌++◌, Option, some, none, if◌then◌else◌,
}
use hanfun_io_tivity.Prelude.Bytes.{Bytes}
use hanfun_io_tivity.Prelude.Assoc.{lookup, insert, erase}
use hanfun_io_tivity.Stack.{DevAddr}
use hanfun_io_tivity.Resource.{Device}
use hanfun_io_tivity.Resource.Links.{Links}

pub data SeenState : Type 0 where
  not_seen seen_native seen_virtual : SeenState

-- The client callbacks that a request may name.
pub data Callback : Type 0 where
  get_device get_platform get_device_configuration get_platform_configuration : Callback
  get_collection get_introspection get_introspection_data get_resource : Callback

-- The outside world, for the length of one callback: which requests the stack accepts, by the number
-- of the handle, what `seen_state_cb_` says of a piid, whether allocation works, whether
-- `OCRepPayloadSetPropObjectAsOwner` does for a name, the stack's own identifier and the time.
pub record World : Type 0 where
  pub accepts : ℕ → Bool
  pub seen : Bytes → SeenState
  pub alloc : Bool
  pub set_object : Bytes → Bool
  pub self : Bytes
  pub now : ℕ

-- `DiscoverContext`; of the payloads `paths` and `definitions` the names of their values.
pub record Context : Type 0 where
  pub device : Device
  pub paths : Option (List Bytes)
  pub definitions : Option (List Bytes)
  pub rit : ℕ
  pub it : Iterator.Iterator

-- `HFPresence` and `OCPresence` of src/presence.h.
pub data Presence : Type 0 where
  hf : (id : Bytes) (last_tick : ℕ) → Presence
  oc : (di : Bytes) (period_secs last_tick : ℕ) → Presence

-- `DiscoverTask`, with its pointer to a context, and `RDPublishTask`.
pub data Task : Type 0 where
  discover : (tick : ℕ) (piid : Bytes) (context : ℕ) → Task
  rd_publish : (tick : ℕ) → Task

-- A request that the stack has accepted, and the callback that gets the response.
pub record Request : Type 0 where
  pub handle : ℕ
  pub callback : Callback
  pub uri : Bytes
  pub addrs : List DevAddr

-- `contexts` is the heap; `killed` are the calls of `kill_cb_`. Handles and addresses are numbers.
pub record Bridge : Type 0 where
  pub secure_mode : Bool
  pub discovered : List (ℕ × ℕ)
  pub contexts : List (ℕ × Context)
  pub next_context : ℕ
  pub next_handle : ℕ
  pub presence : List Presence
  pub tasks : List Task
  pub requests : List Request
  pub killed : List Bytes

-- How an operation ends: with a result, with the use of a context that is not alive, or with
-- undefined behaviour of another kind, such as an iterator read at its end or a null pointer.
pub data Outcome {ℓ} (A : Type ℓ) : Type ℓ where
  done : A → Outcome A
  dangling : Outcome A
  undefined : Outcome A

abbrev pub M {ℓ} : Type ℓ → Type ℓ
M A = Bridge → Outcome (A × Bridge)

abbrev pub pure {ℓ} : {A : Type ℓ} → A → M A
pure a b = done (a, b)

abbrev pub fault {ℓ} : {A : Type ℓ} → M A
fault b = undefined

infixl 5 ◌>>=◌ ◌>>◌
abbrev pub ◌>>=◌ {ℓ κ} : {A : Type ℓ} {B : Type κ} → M A → (A → M B) → M B
◌>>=◌ m f b = elim (m b) [ done (a, b') ↦ f a b' | dangling ↦ dangling | undefined ↦ undefined ]

abbrev pub ◌>>◌ {κ} : {B : Type κ} → M (Unit {0}) → M B → M B
m >> k = m >>= λ _. k

-- The properties that the callbacks read from a representation, as IoTivity hands them out. A
-- `char *` that is not set is `none`.
pub record UrlInfo : Type 0 where
  pub protocol : Option Bytes
  pub url : Option Bytes

pub record RepPayload : Type 0 where
  pub piid : Option Bytes
  pub links : Links
  pub url_info : Option (List UrlInfo)

-- A payload that is no representation is `other`.
pub data Payload : Type 0 where
  representation : RepPayload → Payload
  other : Payload

-- `OCClientResponse`; `ok` says that its result is OC_STACK_OK.
pub record ClientResponse : Type 0 where
  pub ok : Bool
  pub payload : Option Payload
  pub dev_addr : DevAddr
