-- ===== src/HanClient/Client.antt =====
-- `HanClient` of inc/han_client.h and src/han_client.cpp. libuv is a parameter: the status of each
-- of its calls, and the datagrams that it hands to the receive callback. `none` is undefined behaviour.
pub mod Requests
pub mod Receive
pub mod Registration
use hanfun_io_tivity.Prelude.{
  ℕ, ◌+◌, Bool, true, false, ◌&&◌, ltb, List, [], ◌∷◌, ◌++◌, Option, some, none, if◌then◌else◌,
  ◌>>=◌, length,
}
use hanfun_io_tivity.Prelude.Bytes.{Bytes, codes, bytes_eq, c_str}
use hanfun_io_tivity.HanClient.Number.{decimal}
use hanfun_io_tivity.HanClient.Message.{Message, crlf, pack, unpack, read_block}
use hanfun_io_tivity.HanClient.DeviceTable.{DeviceTableMessage}
use hanfun_io_tivity.HanClient.DeviceTable

-- `bound` says that `socket_.data` is the client and not NULL; `receiving` that the receive callback
-- is registered; `has_table_cb` that `device_table_cb_` was set, which the constructor leaves open.
-- `sent` are the datagrams given to `uv_udp_send`, the last one first.
pub record HanClient : Type 0 where
  pub initialized : Bool
  pub bound : Bool
  pub receiving : Bool
  pub has_table_cb : Bool
  pub sent : List Bytes

unfoldable pub new : HanClient
new = record {
  initialized = false;
  bound = false;
  receiving = false;
  has_table_cb = false;
  sent = [];
}

-- The setter does not read its argument.
unfoldable set_initialized : Bool → HanClient → HanClient
set_initialized value c = record c { initialized = true }

unfoldable pub set_device_table_cb : HanClient → HanClient
set_device_table_cb c = record c { has_table_cb = true }

-- Packing a message without a service, and giving it to `uv_udp_send`.
send : Bytes → Option Bytes → HanClient → Option HanClient
send command parameters c = do
  d ← pack (record { service = none; command = some command; parameters = parameters })
  some (record c { sent = d ∷ c.sent })

unfoldable send_init_message : HanClient → Option HanClient
unfolding send
send_init_message c =
    send (codes "INIT") (some (codes " VERSION: 1" ++ crlf)) (record c { bound = true })

unfoldable pub open_registration : HanClient → Option HanClient
unfolding send
open_registration c = send (codes "OPEN_REG") (some (codes " TIME: 60" ++ crlf)) c

unfoldable pub close_registration : HanClient → Option HanClient
unfolding send
close_registration c = send (codes "CLOSE_REG") none c

-- The text that `sprintf` writes to `msg.parameters`, without its NUL.
unfoldable pub table_parameters : ℕ → ℕ → Bytes
table_parameters start_index no_of_devices =
    codes " DEV_INDEX: "
    ++ (decimal start_index ++ (crlf ++ (codes " HOW_MANY: " ++ (decimal no_of_devices ++ crlf))))

-- The cells of `new char[28 + strlen(index)]`.
unfoldable pub table_parameters_room : ℕ → ℕ
table_parameters_room start_index = 28 + length (decimal start_index)

-- `sprintf` writes its text and a NUL to each of the two blocks.
unfoldable pub get_device_table : ℕ → ℕ → HanClient → Option HanClient
unfolding send
get_device_table start_index no_of_devices c =
    if ltb (length (decimal start_index)) 3
      && ltb (length (table_parameters start_index no_of_devices))
          (table_parameters_room start_index)
    then send (codes "GET_DEV_TABLE") (some (table_parameters start_index no_of_devices)) c
    else none

-- The statuses of `uv_ip4_addr`, `uv_udp_init`, `uv_udp_recv_start` and `uv_udp_send`; `some n` is
-- the negative status -n.
pub record Uv : Type 0 where
  pub ip4_addr : Option ℕ
  pub udp_init : Option ℕ
  pub udp_recv_start : Option ℕ
  pub udp_send : Option ℕ

-- The state, and the negative status that is returned, if any.
unfoldable pub start : Uv → HanClient → Option (HanClient × Option ℕ)
unfolding send_init_message
start uv c = elim uv.ip4_addr [
  | some e ↦ some (c, some e)
  | none ↦ elim uv.udp_init [
    | some e ↦ some (c, some e)
    | none ↦ elim uv.udp_recv_start [
      | some e ↦ some (c, some e)
      | none ↦ send_init_message (record c { receiving = true }) >>= λ s. some (s, uv.udp_send)
    ]
  ]
]

unfoldable pub stop : HanClient → HanClient
stop c = record c { receiving = false }

-- The device table's branch: the message's parameters, which may be NULL, go to
-- `DeviceTableMessage::unpack`, and the result to the callback.
unfoldable pub recv_table :
    Bytes → Option Bytes → HanClient → Option (HanClient × Option DeviceTableMessage)
recv_table slack parameters c =
    if c.bound
    then (DeviceTable.unpack slack
          (elim parameters [ none ↦ none | some p ↦ some (read_block slack p) ])
        >>= λ t. if c.has_table_cb then some (c, some t) else none)
    else some (c, none)

-- What is done with an unpacked message; the table is the one that the callback is given.
unfoldable pub recv_message :
    Bytes → Message → HanClient → Option (HanClient × Option DeviceTableMessage)
unfolding recv_table set_initialized
recv_message slack msg c = elim msg.command [
  | none ↦ none
  | some cells ↦
      let command = read_block slack cells in
      if bytes_eq (codes "INIT_RES") command
      then some (if c.bound then set_initialized true c else c, none)
      else if bytes_eq (codes "DEV_TABLE") command
      then recv_table slack msg.parameters c
      else some (c, none)
]

-- What libuv hands to the callback: a datagram of at least one byte in a zeroed buffer of `room`
-- bytes, nothing, or an error.
pub data Read : Type 0 where
  datagram : Bytes → Read
  nothing : Read
  failed : Read

-- `slack` is what memory holds behind the blocks that the handler allocates.
unfoldable pub client_recv_cb :
    Bytes → ℕ → Read → HanClient → Option (HanClient × Option DeviceTableMessage)
unfolding recv_message
client_recv_cb slack room (datagram d) c =
    unpack (d ++ 0 ∷ []) room >>= λ msg. recv_message slack msg c
client_recv_cb slack room nothing c = some (c, none)
client_recv_cb slack room failed c = some (record c { receiving = false }, none)
