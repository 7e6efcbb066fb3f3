-- ===== src/HanClient/Client/Requests.antt =====
-- What the client sends, as the other side reads it.
use hanfun_io_tivity.Prelude.{
  ltb, Bool-cases, inl, inr, false, ℕ, ◌+◌, ◌<◌, ◌≡◌, ◌++◌, none, arith, length, length-append,
}
use hanfun_io_tivity.Prelude.Bytes.{codes}
use hanfun_io_tivity.HanClient.Number.{decimal}
use hanfun_io_tivity.HanClient.Message.{crlf}
use hanfun_io_tivity.HanClient.Client.{
  table_parameters, table_parameters_room, HanClient, get_device_table,
}

-- `sprintf` writes more than the block holds, whatever the arguments: as many bytes too many as the
-- decimal text of `no_of_devices` has.
table_parameters_overflow :
    (start_index no_of_devices : ℕ)
    → length (table_parameters start_index no_of_devices) + 1
      ≡ table_parameters_room start_index + length (decimal no_of_devices)
unfolding table_parameters table_parameters_room
table_parameters_overflow a b = omega (
  arith,
  length-append (decimal a) (crlf ++ (codes " HOW_MANY: " ++ (decimal b ++ crlf))),
  length-append (decimal b) crlf,
)

decimal-filled : (n : ℕ) → 0 < length (decimal n)
unfolding decimal
decimal-filled n = ground arith

-- Every request of a device table is undefined, whatever its arguments are: the text of its parameters
-- and its NUL are longer than their block, by as many bytes as the number of devices has digits.
pub get_device_table-overflow :
    (a b : ℕ) (c : HanClient)
    → (get_device_table a b c ≡ none)
      × (length (table_parameters a b) + 1 ≡ table_parameters_room a + length (decimal b))
unfolding get_device_table
get_device_table-overflow a b c =
    let over = table_parameters_overflow a b in
    let some_digits = decimal-filled b in
    let long : ltb (length (table_parameters a b)) (table_parameters_room a) ≡ false =
      ground arith in
    (
      elim (Bool-cases (ltb (length (decimal a)) 3)) [
        | inl short ↦ rw (short, long)
        | inr wide ↦ rw wide
      ],
      over,
    )
