-- ===== src/HanClient/Client/Receive.antt =====
-- What a datagram does to the client.
use hanfun_io_tivity.Prelude.{
  ℕ, ◌+◌, ◌≤◌, ◌<◌, ◌≡◌, refl, true, List, [], ◌∷◌, ◌++◌, Option, some, none, arith, if◌then◌else◌,
  ◌>>=◌, length, append-nil, append_assoc, ◌∙◌, drop, ◌||◌,
}
use hanfun_io_tivity.Prelude.Bytes.{
  Bytes, codes, is_text, c_str, bytes_eq, bytes_eq_refl, c_str-append, c_str-append_nul,
}
use hanfun_io_tivity.HanClient.Cstring.{tokens, is_crlf}
use hanfun_io_tivity.HanClient.Number.{atoi, cast}
use hanfun_io_tivity.HanClient.Message.{Message, pack, unpack, read_block}
use hanfun_io_tivity.HanClient.Message.Lines.{
  AreLines, join_lines, tokens-join_lines_bare, is_text-join_lines,
}
use hanfun_io_tivity.HanClient.Message.Pack.{service_text, parameters_text}
use hanfun_io_tivity.HanClient.Message.Unpack.{
  Survives, unpack-pack, parameters_block, service_block,
}
use hanfun_io_tivity.HanClient.DeviceTable.{DeviceTableMessage, octets}
use hanfun_io_tivity.HanClient.DeviceTable
use hanfun_io_tivity.HanClient.DeviceTable.Devices.{
  DeviceText, AreTexts, device_lines, table_lines, unpack_one_device, unpack_two_devices,
}
use hanfun_io_tivity.HanClient.Client.{
  HanClient, client_recv_cb, datagram, Read, nothing, failed, recv_message, recv_table,
}

-- A packed message that survives is handled by its command and its parameters.
recv-pack :
    (slack : Bytes) (room : ℕ) (svc p : Option Bytes) (c : ℕ) (cs : Bytes) (ls : List Bytes)
    (cl : HanClient)
    → Survives svc c cs ls
    → parameters_text p ≡ join_lines ls
    → length (join_lines ls) + length (service_text svc) + length (c ∷ cs) < room
    → (pack (record { service = svc; command = some (c ∷ cs); parameters = p }) >>= λ d.
        client_recv_cb slack room (datagram d) cl)
      ≡ recv_message slack
          (record {
            service = some (service_block svc);
            command = some (c ∷ cs);
            parameters = parameters_block ls;
          })
          cl
unfolding client_recv_cb
recv-pack slack room svc p c cs ls cl ok e h =
    bind (pack (record { service = svc; command = some (c ∷ cs); parameters = p }))
      (unpack-pack svc p c cs ls [] room ok e h)
  where
    bind :
        (o : Option Bytes) {m : Message}
        → (o >>= λ d. unpack (d ++ 0 ∷ []) room) ≡ some m
        → (o >>= λ d. unpack (d ++ 0 ∷ []) room >>= λ msg. recv_message slack msg cl)
          ≡ recv_message slack m cl
    bind none k = cc
    bind (some d) k = rw k

read_block_clean : (slack s : Bytes) → c_str slack ≡ [] → is_text s ≡ true → read_block slack s ≡ s
unfolding read_block
read_block_clean slack s clean t = rw (c_str-append s slack t, clean, append-nil)

recv_message-init_res :
    (slack : Bytes) (svc p : Option Bytes) (cl : HanClient)
    → c_str slack ≡ []
    → recv_message slack
        (record { service = svc; command = some (codes "INIT_RES"); parameters = p })
        cl
      ≡ some (if cl.bound then record cl { initialized = true } else cl, none)
unfolding recv_message
recv_message-init_res slack svc p cl clean =
    rw (read_block_clean slack (codes "INIT_RES") clean refl, bytes_eq_refl (codes "INIT_RES"))

recv_message-dev_table :
    (slack : Bytes) (svc p : Option Bytes) (cl : HanClient)
    → c_str slack ≡ []
    → recv_message slack
        (record { service = svc; command = some (codes "DEV_TABLE"); parameters = p })
        cl
      ≡ recv_table slack p cl
unfolding recv_message bytes_eq
recv_message-dev_table slack svc p cl clean =
    rw (read_block_clean slack (codes "DEV_TABLE") clean refl)

-- An INIT_RES message, whatever else it holds, makes a bound client initialized and changes nothing
-- else.
recv_init_res :
    (slack : Bytes) (room : ℕ) (svc p : Option Bytes) (ls : List Bytes) (cl : HanClient)
    → c_str slack ≡ []
    → Survives svc b'I' (codes "NIT_RES") ls
    → parameters_text p ≡ join_lines ls
    → length (join_lines ls) + length (service_text svc) + 8 < room
    → cl.bound ≡ true
    → (pack (record { service = svc; command = some (codes "INIT_RES"); parameters = p }) >>= λ d.
        client_recv_cb slack room (datagram d) cl)
      ≡ some (record cl { initialized = true }, none)
recv_init_res slack room svc p ls cl clean ok e h bound =
    recv-pack slack room svc p b'I' (codes "NIT_RES") ls cl ok e h
    ∙ recv_message-init_res slack (some (service_block svc)) (parameters_block ls) cl clean
    ∙ rw bound

-- A client with a callback, which the server sends a device table of these lines.
module _ (slack : Bytes) (room : ℕ) (svc p : Option Bytes) (cl : HanClient)
    (clean : c_str slack ≡ []) (bound : cl.bound ≡ true)
    (has_table_cb : cl.has_table_cb ≡ true) where
  table_read :
      (l : Bytes) (ls : List Bytes) (o : Option DeviceTableMessage)
      → AreLines (l ∷ ls)
      → ((buffer : Bytes)
          → tokens is_crlf buffer ≡ l ∷ ls
          → DeviceTable.unpack slack (some buffer) ≡ o)
      → recv_table slack (parameters_block (l ∷ ls)) cl ≡ (o >>= λ t. some (cl, some t))
  unfolding recv_table read_block
  table_read l ls o h unpacked = rw (
    bound,
    append_assoc (join_lines (l ∷ ls)) (0 ∷ []) slack,
    c_str-append_nul (join_lines (l ∷ ls)) slack (is_text-join_lines (l ∷ ls) h),
    unpacked (join_lines (l ∷ ls)) (tokens-join_lines_bare (l ∷ ls) h),
    has_table_cb,
  )

  table_recv :
      (l : Bytes) (ls : List Bytes) (o : Option DeviceTableMessage)
      → Survives svc b'D' (codes "EV_TABLE") (l ∷ ls)
      → parameters_text p ≡ join_lines (l ∷ ls)
      → length (join_lines (l ∷ ls)) + length (service_text svc) + 9 < room
      → ((buffer : Bytes)
          → tokens is_crlf buffer ≡ l ∷ ls
          → DeviceTable.unpack slack (some buffer) ≡ o)
      → (pack (record { service = svc; command = some (codes "DEV_TABLE"); parameters = p })
          >>= λ d. client_recv_cb slack room (datagram d) cl)
        ≡ (o >>= λ t. some (cl, some t))
  table_recv l ls o ok e h unpacked =
      recv-pack slack room svc p b'D' (codes "EV_TABLE") (l ∷ ls) cl ok e h
      ∙ recv_message-dev_table slack (some (service_block svc)) (parameters_block (l ∷ ls)) cl clean
      ∙ table_read l ls o ok.parameters_ok unpacked

  -- A DEV_TABLE message of one device reaches the callback, with the index, the identifier and the
  -- IPUI that it names, and the EMC of its text without the first byte.
  recv_one_device :
      (index count : Bytes) (d : DeviceText)
      → is_text index ≡ true
      → is_text count ≡ true
      → AreTexts d
      → cast 256 (atoi count) ≡ 1
      → Survives svc b'D' (codes "EV_TABLE") (table_lines index count (device_lines d []))
      → parameters_text p ≡ join_lines (table_lines index count (device_lines d []))
      → length (join_lines (table_lines index count (device_lines d [])))
          + length (service_text svc)
          + 9
        < room
      → (pack (record { service = svc; command = some (codes "DEV_TABLE"); parameters = p })
          >>= λ m. client_recv_cb slack room (datagram m) cl)
        ≡ some (
          cl,
          some (record {
            dev_index = cast 256 (atoi index);
            no_of_devices = 1;
            dev_ids = some (cast 65536 (atoi d.id)) ∷ [];
            dev_ipuis = some (octets 5 d.ipui) ∷ [];
            dev_emcs = some (octets 2 (drop 1 d.emc)) ∷ [];
          }),
        )
  recv_one_device index count d ti tc td one ok e h =
      table_recv _ _ (some _) ok e h
        (λ buffer t. unpack_one_device slack clean index count d buffer ti tc td one t)

  -- A DEV_TABLE message of two devices or more, as the bridge asks for, has undefined behaviour: the
  -- second device's IPUI is stored behind the array that the constructor made for one.
  pub recv_two_devices :
      (index count : Bytes) (d d' : DeviceText) (rest : List Bytes)
      → is_text index ≡ true
      → is_text count ≡ true
      → AreTexts d
      → AreTexts d'
      → 2 ≤ cast 256 (atoi count)
      → Survives svc b'D'
          (codes "EV_TABLE")
          (table_lines index count (device_lines d (device_lines d' rest)))
      → parameters_text p
        ≡ join_lines (table_lines index count (device_lines d (device_lines d' rest)))
      → length (join_lines (table_lines index count (device_lines d (device_lines d' rest))))
          + length (service_text svc)
          + 9
        < room
      → (pack (record { service = svc; command = some (codes "DEV_TABLE"); parameters = p })
          >>= λ m. client_recv_cb slack room (datagram m) cl)
        ≡ none
  recv_two_devices index count d d' rest ti tc td td' two ok e h =
      table_recv _ _ none ok e h
        (λ buffer t. unpack_two_devices slack clean index count d d' rest buffer ti tc td td' two t)

-- No datagram takes the client back: where the receive callback returns, it has kept what was sent,
-- the binding and the callback, and an initialized client stays initialized.
client_recv_cb_keeps :
    (slack : Bytes) (room : ℕ) (r : Read) (c c' : HanClient) (t : Option DeviceTableMessage)
    → client_recv_cb slack room r c ≡ some (c', t)
    → (c'.sent ≡ c.sent)
      × (c'.bound ≡ c.bound)
      × (c'.has_table_cb ≡ c.has_table_cb)
      × ((c.initialized || c'.initialized) ≡ c'.initialized)
unfolding client_recv_cb
client_recv_cb_keeps slack room (datagram d) c c' t h = ground arith
client_recv_cb_keeps slack room nothing c c' t h = ground arith
client_recv_cb_keeps slack room failed c c' t h = ground arith

-- A datagram of line ends alone, and one with nothing before its first NUL, make the callback read
-- the command through NULL.
client_recv_cb_no_command :
    (slack d : Bytes) (room : ℕ) (c : HanClient)
    → tokens is_crlf (c_str (d ++ 0 ∷ [])) ≡ []
    → client_recv_cb slack room (datagram d) c ≡ none
unfolding client_recv_cb recv_message unpack
client_recv_cb_no_command slack d room c e = rw e
