-- ===== src/Virtualization/Table.antt =====
-- The HAN part of src/bridge.cpp: `Process` up to the discovery of OCF devices, `GetDeviceTableCB` and
-- `Destroy` of an address. `none` is undefined behaviour: a cell of the table that is not there or
-- that nothing was stored in, or the use of a device that was deleted.
pub mod Stale
use hanfun_io_tivity.Prelude.{
  ℕ, zero, suc, ◌+◌, ◌-◌, ◌%◌, Bool, true, false, not, List, [], ◌∷◌, ◌++◌, Option, some, none,
  if◌then◌else◌, ◌>>=◌, ◌==◌, leb, get_elem?,
}
use hanfun_io_tivity.Prelude.Bytes.{Bytes}
use hanfun_io_tivity.HanClient.DeviceTable.{DeviceTableMessage}
use hanfun_io_tivity.HanClient.Client.{HanClient, set_device_table_cb, get_device_table}
use hanfun_io_tivity.Discovery.{SeenState, not_seen, seen_native, seen_virtual}
use hanfun_io_tivity.Virtualization.Identity.{Library, get_protocol_independent_id}
use hanfun_io_tivity.Virtualization.Publish.{Queue, request_publication}

-- The calls of `exec_cb_`, without `is_virtual`, which is false, and of `kill_cb_`.
pub data Launch : Type 0 where
  exec : (piid : Bytes) (sender : ℕ) (secure_mode : Bool) → Launch
  kill : (piid : Bytes) → Launch

pub data HanState : Type 0 where
  created started running : HanState

-- The bridge. `unanswered` is the last request of the device table, its index and its number, until
-- the answer comes. A virtual device has its address, and whether it is alive; a virtual resource has
-- its `address_`, `none` where nothing was stored in it; an `HFPresence` has its address.
pub record Bridge : Type 0 where
  pub sender : ℕ
  pub secure_mode : Bool
  pub han_state : HanState
  pub han_client : HanClient
  pub get_devices_next_tick : ℕ
  pub unanswered : Option (ℕ × ℕ)
  pub launches : List Launch
  pub devices : List (ℕ × Bool)
  pub presence : List ℕ
  pub resources : List (Option ℕ)
  pub queue : Queue

-- The rest of the world: the library's functions, what `seen_state_cb_` says after the launches so
-- far, and whether `SetProperties` of a virtual device succeeds for an IPUI and an EMC.
pub record World : Type 0 where
  pub lib : Library
  pub seen : List Launch → Bytes → SeenState
  pub set_properties : Bytes → Bytes → Bool

-- `han_client_->get_device_table`, whose arguments are bytes.
unfoldable pub ask : ℕ → ℕ → Bridge → Option Bridge
ask start n b = do
  c ← get_device_table (start % 256) (n % 256) b.han_client
  some (record b { han_client = c; unanswered = some (start % 256, n % 256) })

-- The HAN part of `Process`, at the time of the test and the time after it.
unfoldable pub process_han : ℕ → ℕ → Bridge → Option Bridge
unfolding ask
process_han now later b = elim b.han_state [
  | created ↦ some (
      if b.han_client.initialized
      then record b { han_client = set_device_table_cb b.han_client; han_state = started }
      else b)
  | started ↦
      if leb b.get_devices_next_tick now
      then ((if b.sender == 0 then ask 0 5 b else ask (b.sender - 1) 1 b) >>= λ b'.
          some (record b' { get_devices_next_tick = later + 30 }))
      else some b
  | running ↦ some b
]

-- A cell of an array that is read.
abbrev pub cell : {A : Type 0} → List (Option A) → ℕ → Option A
cell cells i = get_elem? cells i >>= λ o. o

abbrev pub launch : Launch → Bridge → Bridge
launch l b = record b { launches = b.launches ++ (l ∷ []) }

module _ (w : World) where
  -- The `switch` over the seen state.
  unfoldable pub launch_device : Bytes → ℕ → Bridge → Bridge
  launch_device piid sender b = elim (w.seen b.launches piid) [
    | not_seen ↦ launch (exec piid sender b.secure_mode) b
    | seen_native ↦ b
    | seen_virtual ↦ launch (exec piid sender b.secure_mode) (launch (kill piid) b)
  ]

  -- The body of the loop, for the index of the table and that of the page.
  unfoldable pub virtualize : ℕ → ℕ → DeviceTableMessage → Bridge → Option Bridge
  unfolding launch_device
  virtualize dev_index i t b = do
    id ← get_elem? t.dev_ids i
    ipui ← cell t.dev_ipuis i
    emc ← cell t.dev_emcs i
    some (elim (get_protocol_independent_id w.lib (some ipui) (some emc)) [
      | none ↦ b
      | some piid ↦ launch_device piid (dev_index + i + 1) b
    ])

  -- The loop, from an index of the page on, over a number of devices.
  unfoldable pub virtualize_from : ℕ → ℕ → DeviceTableMessage → Bridge → Option Bridge
  unfolding virtualize
  virtualize_from i zero t b = some b
  virtualize_from i (suc n) t b =
      virtualize t.dev_index i t b >>= λ b'. virtualize_from (suc i) n t b'

  -- The branch of `GetDeviceTableCB` of a bridge that launches others.
  unfoldable pub launch_table : DeviceTableMessage → Bridge → Option Bridge
  unfolding virtualize_from ask
  launch_table t b = do
    b' ← virtualize_from 0 t.no_of_devices t b
    if t.no_of_devices == 5 then ask (t.dev_index + 5) 5 b' else some b'

  -- The branch of a bridge that stands for one device, with the publication that the new resource
  -- requests. No constructor of a resource stores its address.
  unfoldable pub virtualize_device : ℕ → DeviceTableMessage → Bridge → Option Bridge
  unfolding request_publication
  virtualize_device now t b = do
    id ← cell t.dev_ids 0
    ipui ← cell t.dev_ipuis 0
    emc ← cell t.dev_emcs 0
    q ← request_publication now b.queue
    some (record b {
      devices = b.devices ++ ((id, w.set_properties ipui emc) ∷ []);
      presence = b.presence ++ (id ∷ []);
      resources = b.resources ++ (none ∷ []);
      queue = q;
      han_state = running;
    })

  -- `GetDeviceTableCB`: the answer to a request.
  unfoldable pub get_device_table_cb : ℕ → DeviceTableMessage → Bridge → Option Bridge
  unfolding launch_table virtualize_device
  get_device_table_cb now t b =
      let answered = record b { unanswered = none } in
      if b.sender == 0 then launch_table t answered else virtualize_device now t answered

-- The loops of `Destroy(uint16_t)`.
unfoldable pub destroy_resources : ℕ → List (Option ℕ) → Option (List (Option ℕ))
destroy_resources id [] = some []
destroy_resources id (none ∷ rs) = none
destroy_resources id (some a ∷ rs) = do
  rest ← destroy_resources id rs
  some (if a == id then rest else some a ∷ rest)

unfoldable destroy_devices : ℕ → List (ℕ × Bool) → Option (List (ℕ × Bool))
destroy_devices id [] = some []
destroy_devices id ((a, alive) ∷ ds) = do
  rest ← destroy_devices id ds
  if alive then some (if a == id then rest else (a, true) ∷ rest) else none

-- `Destroy(uint16_t)`.
unfoldable pub destroy : ℕ → Bridge → Option Bridge
unfolding destroy_resources destroy_devices
destroy id b = do
  rs ← destroy_resources id b.resources
  ds ← destroy_devices id b.devices
  some (record b { resources = rs; devices = ds })
