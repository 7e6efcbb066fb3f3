-- ===== src/HanClient/DeviceTable/Devices.antt =====
-- `DeviceTableMessage::unpack` on tables of one device and of more.
use hanfun_io_tivity.Prelude.{
  ℕ, suc, ◌-◌, ◌≤◌, ◌≡◌, refl, true, List, [], ◌∷◌, ◌++◌, Option, some, none, arith, ltb, ◌>>=◌,
  length, drop, replicate, append-nil, append_assoc, take-all,
}
use hanfun_io_tivity.Prelude.Bytes.{Bytes, c_str, c_str-append, c_str-append_nul, is_text}
use hanfun_io_tivity.HanClient.Cstring.{tokens, is_crlf, strncpy, strncpy_all, has_prefix-append}
use hanfun_io_tivity.HanClient.Number.{atoi, cast}
use hanfun_io_tivity.HanClient.Message.{read_block}
use hanfun_io_tivity.HanClient.DeviceTable.{
  DeviceTableMessage, new_message, store, value_text, octets, dev_index_prefix,
  no_of_devices_prefix, dev_id_prefix, dev_ipui_prefix, dev_emc_prefix, unpack_id, unpack_ipui,
  unpack_emc, unpack_device, unpack_devices, unpack_count, unpack_table, unpack_lines, unpack,
}

-- The texts of one device's values.
pub record DeviceText : Type 0 where
  pub id : Bytes
  pub ipui : Bytes
  pub emc : Bytes

pub record AreTexts (d : DeviceText) : Type 0 where
  pub id_text : is_text d.id ≡ true
  pub ipui_text : is_text d.ipui ≡ true
  pub emc_text : is_text d.emc ≡ true

abbrev pub device_lines : DeviceText → List Bytes → List Bytes
device_lines d rest =
    (dev_id_prefix ++ d.id) ∷ (dev_ipui_prefix ++ d.ipui) ∷ (dev_emc_prefix ++ d.emc) ∷ rest

abbrev pub table_lines : Bytes → Bytes → List Bytes → List Bytes
table_lines index count rest = (dev_index_prefix ++ index) ∷ (no_of_devices_prefix ++ count) ∷ rest

store_first {ℓ} :
    {A : Type ℓ} (v : A) (x : Option A) (xs : List (Option A))
    → store 0 v (x ∷ xs) ≡ some (some v ∷ xs)
unfolding store
store_first v x xs = ground arith

store_second {ℓ} :
    {A : Type ℓ} (v : A) (x y : Option A) (xs : List (Option A))
    → store 1 v (x ∷ y ∷ xs) ≡ some (x ∷ some v ∷ xs)
unfolding store
store_second v x y xs = ground arith

module _ (slack : Bytes) (clean : c_str slack ≡ []) where
  value_text_lem :
      (v line : Bytes) (from size : ℕ)
      → is_text v ≡ true
      → drop from line ≡ v
      → length line - size ≡ length v
      → value_text slack from size line ≡ v
  unfolding value_text read_block
  value_text_lem v line from size t e n =
      rw (e, n, strncpy_all v, c_str-append v slack t, clean, append-nil)

  -- Of an EMC's value the first byte is lost.
  emc_text_lem :
      (v : Bytes) → is_text v ≡ true → value_text slack 11 10 (dev_emc_prefix ++ v) ≡ drop 1 v
  unfolding value_text read_block strncpy
  emc_text_lem [] t = clean
  emc_text_lem (c ∷ v) t =
      let n : length (dev_emc_prefix ++ c ∷ v) - 10 ≡ suc (length v) = omega arith in
      let pad : suc (length v) - length v ≡ 1 = omega arith in
      let text : is_text v ≡ true = ground arith in
      rw (
        n,
        pad,
        take-all (suc (length v)) v (omega arith),
        append_assoc,
        c_str-append_nul v slack text,
      )

  unpack_id_lem :
      (i : ℕ) (v : Bytes) (lines : List Bytes) (m : DeviceTableMessage)
      → is_text v ≡ true
      → unpack_id slack i ((dev_id_prefix ++ v) ∷ lines, m) ≡ (
          store i (cast 65536 (atoi v)) m.dev_ids >>= λ ids.
          some (lines, record m { dev_ids = ids }))
  unfolding unpack_id
  unpack_id_lem i v lines m t = rw (
    has_prefix-append dev_id_prefix v,
    value_text_lem v (dev_id_prefix ++ v) 9 9 t refl (omega arith),
  )

  unpack_ipui_lem :
      (i : ℕ) (v : Bytes) (lines : List Bytes) (m : DeviceTableMessage)
      → is_text v ≡ true
      → unpack_ipui slack i ((dev_ipui_prefix ++ v) ∷ lines, m) ≡ (
          store i (octets 5 v) m.dev_ipuis >>= λ ipuis.
          some (lines, record m { dev_ipuis = ipuis }))
  unfolding unpack_ipui
  unpack_ipui_lem i v lines m t = rw (
    has_prefix-append dev_ipui_prefix v,
    value_text_lem v (dev_ipui_prefix ++ v) 11 11 t refl (omega arith),
  )

  unpack_emc_lem :
      (i : ℕ) (v : Bytes) (lines : List Bytes) (m : DeviceTableMessage)
      → is_text v ≡ true
      → unpack_emc slack i ((dev_emc_prefix ++ v) ∷ lines, m) ≡ (
          store i (octets 2 (drop 1 v)) m.dev_emcs >>= λ emcs.
          some (lines, record m { dev_emcs = emcs }))
  unfolding unpack_emc
  unpack_emc_lem i v lines m t = rw (has_prefix-append dev_emc_prefix v, emc_text_lem v t)

  -- One round over a device whose cells are there.
  unpack_device_lem :
      (i : ℕ) (d : DeviceText) (rest : List Bytes) (m : DeviceTableMessage)
      → AreTexts d
      → unpack_device slack i (device_lines d rest, m) ≡ (
          store i (cast 65536 (atoi d.id)) m.dev_ids >>= λ ids.
          store i (octets 5 d.ipui) m.dev_ipuis >>= λ ipuis.
          store i (octets 2 (drop 1 d.emc)) m.dev_emcs >>= λ emcs.
          some (rest, record m { dev_ids = ids; dev_ipuis = ipuis; dev_emcs = emcs }))
  unfolding unpack_device
  unpack_device_lem i d rest m t =
      rw
        (unpack_id_lem i d.id ((dev_ipui_prefix ++ d.ipui) ∷ (dev_emc_prefix ++ d.emc) ∷ rest) m
          t.id_text)
        (after (store i (cast 65536 (atoi d.id)) m.dev_ids))
    where
      last :
          (n : DeviceTableMessage) (o : Option (List (Option Bytes)))
          → ((o >>= λ ipuis.
                some ((dev_emc_prefix ++ d.emc) ∷ rest, record n { dev_ipuis = ipuis }))
              >>= λ p. unpack_emc slack i p)
            ≡ (o >>= λ ipuis. store i (octets 2 (drop 1 d.emc)) n.dev_emcs >>= λ emcs.
                some (rest, record n { dev_ipuis = ipuis; dev_emcs = emcs }))
      last n none = refl
      last n (some ipuis) = unpack_emc_lem i d.emc rest (record n { dev_ipuis = ipuis }) t.emc_text

      after :
          (o : Option (List (Option ℕ)))
          → ((o >>= λ ids. some (
            (dev_ipui_prefix ++ d.ipui) ∷ (dev_emc_prefix ++ d.emc) ∷ rest,
            record m { dev_ids = ids },
          ))
              >>= λ p. unpack_ipui slack i p >>= λ q. unpack_emc slack i q)
            ≡ (o >>= λ ids. store i (octets 5 d.ipui) m.dev_ipuis >>= λ ipuis.
                store i (octets 2 (drop 1 d.emc)) m.dev_emcs >>= λ emcs.
                some (rest, record m { dev_ids = ids; dev_ipuis = ipuis; dev_emcs = emcs }))
      after none = refl
      after (some ids) =
          rw
            (unpack_ipui_lem i d.ipui ((dev_emc_prefix ++ d.emc) ∷ rest)
              (record m { dev_ids = ids }) t.ipui_text)
            (last (record m { dev_ids = ids }) (store i (octets 5 d.ipui) m.dev_ipuis))

  header_lem :
      (index count : Bytes) (rest : List Bytes)
      → is_text index ≡ true
      → is_text count ≡ true
      → unpack_lines slack (table_lines index count rest)
        ≡ unpack_table slack (
          rest,
          record new_message {
            dev_index = cast 256 (atoi index);
            no_of_devices = cast 256 (atoi count);
          },
        )
  unfolding unpack_lines unpack_count
  header_lem index count rest ti tc = rw (
    has_prefix-append dev_index_prefix index,
    value_text_lem index (dev_index_prefix ++ index) 12 12 ti refl (omega arith),
    has_prefix-append no_of_devices_prefix count,
    value_text_lem count (no_of_devices_prefix ++ count) 16 16 tc refl (omega arith),
  )

  -- A table of one device is read whole, but for the first byte of the EMC's text.
  pub unpack_one_device :
      (index count : Bytes) (d : DeviceText) (buffer : Bytes)
      → is_text index ≡ true
      → is_text count ≡ true
      → AreTexts d
      → cast 256 (atoi count) ≡ 1
      → tokens is_crlf buffer ≡ table_lines index count (device_lines d [])
      → unpack slack (some buffer)
        ≡ some (record {
          dev_index = cast 256 (atoi index);
          no_of_devices = 1;
          dev_ids = some (cast 65536 (atoi d.id)) ∷ [];
          dev_ipuis = some (octets 5 d.ipui) ∷ [];
          dev_emcs = some (octets 2 (drop 1 d.emc)) ∷ [];
        })
  unfolding unpack unpack_table unpack_devices store new_message
  unpack_one_device index count d buffer ti tc td one e = rw (
    e,
    header_lem index count (device_lines d []) ti tc,
    one,
    unpack_device_lem 0 d []
        (record {
          dev_index = cast 256 (atoi index);
          no_of_devices = 1;
          dev_ids = none ∷ [];
          dev_ipuis = none ∷ [];
          dev_emcs = none ∷ [];
        })
        td,
  )

  two_rounds :
      (index k : ℕ) (d d' : DeviceText) (rest : List Bytes)
      → AreTexts d
      → AreTexts d'
      → unpack_table slack (
        device_lines d (device_lines d' rest),
        record new_message { dev_index = index; no_of_devices = suc (suc k) },
      )
        ≡ none
  unfolding unpack_table unpack_devices new_message
  two_rounds index k d d' rest td td' =
      let some_device : ltb 0 (suc (suc k)) ≡ true = ground arith in
      rw (
        some_device,
        unpack_device_lem 0 d (device_lines d' rest)
            (record {
              dev_index = index;
              no_of_devices = suc (suc k);
              dev_ids = none ∷ none ∷ replicate k none;
              dev_ipuis = none ∷ [];
              dev_emcs = none ∷ [];
            })
            td,
        store_first (cast 65536 (atoi d.id)) none (none ∷ replicate k none),
        unpack_device_lem 1 d' rest
            (record {
              dev_index = index;
              no_of_devices = suc (suc k);
              dev_ids = some (cast 65536 (atoi d.id)) ∷ none ∷ replicate k none;
              dev_ipuis = some (octets 5 d.ipui) ∷ [];
              dev_emcs = some (octets 2 (drop 1 d.emc)) ∷ [];
            })
            td',
        store_second (cast 65536 (atoi d'.id)) (some (cast 65536 (atoi d.id))) none
            (replicate k none),
      )

  -- In a table of two devices or more, the second IPUI goes behind the end of its array.
  pub unpack_two_devices :
      (index count : Bytes) (d d' : DeviceText) (rest : List Bytes) (buffer : Bytes)
      → is_text index ≡ true
      → is_text count ≡ true
      → AreTexts d
      → AreTexts d'
      → 2 ≤ cast 256 (atoi count)
      → tokens is_crlf buffer ≡ table_lines index count (device_lines d (device_lines d' rest))
      → unpack slack (some buffer) ≡ none
  unfolding unpack
  unpack_two_devices index count d d' rest buffer ti tc td td' two e =
      let k : ℕ = cast 256 (atoi count) - 2 in
      let n : cast 256 (atoi count) ≡ suc (suc k) = omega arith in
      rw (e, header_lem index count (device_lines d (device_lines d' rest)) ti tc, n)
        (two_rounds (cast 256 (atoi index)) k d d' rest td td')
