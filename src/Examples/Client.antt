-- ===== src/Examples/Client.antt =====
-- Datagrams for the HAN client.
use hanfun_io_tivity.Prelude.{
  ◌+◌, length, ◌≡◌, refl, true, false, List, [], ◌∷◌, ◌++◌, some, none, ◌>>=◌, arith,
}
use hanfun_io_tivity.Prelude.Bytes.{Bytes, codes, c_str}
use hanfun_io_tivity.HanClient.Number.{decimal, atoi, signed_value, digits_value, cast}
use hanfun_io_tivity.HanClient.Message.{pack, unpack, crlf}
use hanfun_io_tivity.HanClient.Message.Pack.{pack_lem}
use hanfun_io_tivity.HanClient.Message.Lines.{join_lines}
use hanfun_io_tivity.HanClient.Message.Unpack.{Survives, unpack-pack, parameters_block}
use hanfun_io_tivity.HanClient.DeviceTable.Devices.{DeviceText, AreTexts, device_lines, table_lines}
use hanfun_io_tivity.HanClient.Client.{
  HanClient, client_recv_cb, datagram, get_device_table, table_parameters, table_parameters_room,
}
use hanfun_io_tivity.HanClient.Client.Requests.{get_device_table-overflow}
use hanfun_io_tivity.HanClient.Client.Receive.{recv_two_devices}

abbrev version : Bytes
version = codes " VERSION: 1"

init_res-Survives : Survives (some (codes "HAN")) b'I' (codes "NIT_RES") (version ∷ [])
init_res-Survives = record {
  service_fits = omega arith;
  service_lines_ok = (record { text = refl; word = refl; filled = λ e. cc }, tt);
  command_fits = omega arith;
  command_line = record { text = refl; word = refl; filled = λ e. cc };
  command_plain = λ e. cc;
  parameters_ok = (record { text = refl; word = refl; filled = λ e. cc }, tt);
}

unpack-pack_example :
    (pack (record {
      service = some (codes "HAN");
      command = some (codes "INIT_RES");
      parameters = some (version ++ crlf);
    })
      >>= λ d. unpack (d ++ 0 ∷ []) 1024)
    ≡ some (record {
      service = some (codes "HAN");
      command = some (codes "INIT_RES");
      parameters = parameters_block (version ∷ []);
    })
unpack-pack_example =
    unpack-pack (some (codes "HAN")) (some (version ++ crlf)) b'I' (codes "NIT_RES") (version ∷ [])
      [] 1024 init_res-Survives refl (omega arith)

abbrev client : HanClient
client = record {
  initialized = false;
  bound = true;
  receiving = true;
  has_table_cb = true;
  sent = [];
}

abbrev plug : DeviceText
plug = record { id = codes "1"; ipui = codes "2 3 4 5 6"; emc = codes "77 8" }

plug-AreTexts : AreTexts plug
plug-AreTexts = record { id_text = refl; ipui_text = refl; emc_text = refl }

atoi_one : cast 256 (atoi (codes "1")) ≡ 1
unfolding cast atoi signed_value digits_value
atoi_one = refl

atoi_two : cast 256 (atoi (codes "2")) ≡ 2
unfolding cast atoi signed_value digits_value
atoi_two = refl

abbrev one_line : List Bytes
one_line = table_lines (codes "0") (codes "1") (device_lines plug [])

one-Survives : Survives none b'D' (codes "EV_TABLE") one_line
one-Survives = record {
  service_fits = omega arith;
  service_lines_ok = tt;
  command_fits = omega arith;
  command_line = record { text = refl; word = refl; filled = λ e. cc };
  command_plain = λ e. omega arith;
  parameters_ok = (
    record { text = refl; word = refl; filled = λ e. cc },
    (
      record { text = refl; word = refl; filled = λ e. cc },
      (
        record { text = refl; word = refl; filled = λ e. cc },
        (
          record { text = refl; word = refl; filled = λ e. cc },
          (record { text = refl; word = refl; filled = λ e. cc }, tt),
        ),
      ),
    ),
  );
}

abbrev two_lines : List Bytes
two_lines = table_lines (codes "0") (codes "2") (device_lines plug (device_lines plug []))

two-Survives : Survives none b'D' (codes "EV_TABLE") two_lines
two-Survives = record {
  service_fits = omega arith;
  service_lines_ok = tt;
  command_fits = omega arith;
  command_line = record { text = refl; word = refl; filled = λ e. cc };
  command_plain = λ e. omega arith;
  parameters_ok = (
    record { text = refl; word = refl; filled = λ e. cc },
    (
      record { text = refl; word = refl; filled = λ e. cc },
      (
        record { text = refl; word = refl; filled = λ e. cc },
        (
          record { text = refl; word = refl; filled = λ e. cc },
          (
            record { text = refl; word = refl; filled = λ e. cc },
            (
              record { text = refl; word = refl; filled = λ e. cc },
              (
                record { text = refl; word = refl; filled = λ e. cc },
                (record { text = refl; word = refl; filled = λ e. cc }, tt),
              ),
            ),
          ),
        ),
      ),
    ),
  );
}

recv_two_devices_example :
    (pack (record {
      service = none;
      command = some (codes "DEV_TABLE");
      parameters = some (join_lines two_lines);
    })
      >>= λ m. client_recv_cb [] 1024 (datagram m) client)
    ≡ none
unfolding c_str
recv_two_devices_example =
    recv_two_devices [] 1024 none (some (join_lines two_lines)) client refl refl refl (codes "0")
      (codes "2") plug plug [] refl refl plug-AreTexts plug-AreTexts (omega (arith, atoi_two))
      two-Survives refl (omega arith)

get_device_table-overflow_example :
    (get_device_table 3 5 client ≡ none)
    × (length (table_parameters 3 5) + 1 ≡ table_parameters_room 3 + length (decimal 5))
get_device_table-overflow_example = get_device_table-overflow 3 5 client

pack_lem_example :
    pack (record { service = none; command = some (codes "CLOSE_REG"); parameters = none })
    ≡ some (codes "CLOSE_REG" ++ (crlf ++ crlf))
pack_lem_example = pack_lem none none (codes "CLOSE_REG")
