-- ===== src/Examples/Processes.antt =====
-- A bridge, its manager and the processes.
use hanfun_io_tivity.Prelude.{
  ℕ, ◌+◌, ◌<◌, true, false, List, [], ◌∷◌, ◌++◌, Option, some, length, ◌≡◌, refl, arith,
}
use hanfun_io_tivity.Prelude.Bytes.{Bytes, codes, bytes_eq}
use hanfun_io_tivity.Prelude.Dict.{lookup, insert}
use hanfun_io_tivity.Discovery.{seen_native}
use hanfun_io_tivity.Plugin.{
  defaults, parse_arguments, exec_line, kill_line, store_seen_state, get_seen_state, decimal_text,
}
use hanfun_io_tivity.Plugin.Manager.{Manager, read_all}
use hanfun_io_tivity.Plugin.Words.{IsWord}
use hanfun_io_tivity.Plugin.Launch.{launched, read_all-launched}
use hanfun_io_tivity.Plugin.Seen.{get_seen_state-read_all}
use hanfun_io_tivity.Plugin.Kill.{read_all-exec-kill}

abbrev prefix : Bytes
prefix = codes "HanFunBridge_"

abbrev lamp : Bytes
lamp = codes "f81d4fae"

abbrev own : Bytes
own = codes "00a0c91e"

abbrev bridge : Bytes
bridge = codes "hanfun_bridge"

-- Processes are numbered from 100 on.
abbrev fork : ℕ → Option ℕ
fork n = some (100 + n)

-- A manager that has started one process, of the same device.
abbrev manager : Manager
manager = record {
  line = [];
  pids = (lamp, 100) ∷ [];
  started = (100, bridge ∷ codes "--oc" ∷ []) ∷ [];
  interrupted = [];
  returned = false;
}

prefix-IsWord : IsWord prefix
prefix-IsWord = record { word = refl; text = refl; filled = λ x. cc }

lamp-IsWord : IsWord lamp
lamp-IsWord = record { word = refl; text = refl; filled = λ x. cc }

own-IsWord : IsWord own
own-IsWord = record { word = refl; text = refl; filled = λ x. cc }

exec_line-size : length (exec_line prefix lamp 7 own true true) + 1 < 512
unfolding exec_line decimal_text
exec_line-size = omega arith

read_all-launched_example :
    (words : List Bytes) × (read_all 37 bridge fork
        (exec_line prefix lamp 7 own true true ++ 10 ∷ [])
        manager
      ≡ some (record manager {
        line = [];
        pids = insert lamp 101 manager.pids;
        started = manager.started ++ ((101, words) ∷ []);
      }))
    × (parse_arguments words (defaults false) ≡ launched prefix lamp 7 own true)
unfolding bytes_eq
read_all-launched_example =
    read_all-launched prefix lamp own 7 true 37 bridge fork true false manager 101 prefix-IsWord
      lamp-IsWord own-IsWord refl (omega arith) refl refl refl exec_line-size

get_seen_state-read_all_example :
    (m' : Manager) × (words : List Bytes) × (read_all 37 bridge fork
        (exec_line prefix lamp 7 own true true ++ 10 ∷ [])
        manager
      ≡ some m')
    × (m'.started ≡ manager.started ++ ((101, words) ∷ []))
    × (get_seen_state prefix lamp (store_seen_state (parse_arguments words (defaults false)) [])
        ≡ some seen_native)
unfolding bytes_eq
get_seen_state-read_all_example =
    get_seen_state-read_all prefix lamp own 7 true 37 bridge fork true false [] manager 101
      prefix-IsWord lamp-IsWord own-IsWord refl (omega arith) refl refl refl refl exec_line-size

read_all-exec-kill_example :
    (m' : Manager) × (read_all 37 bridge fork
        (exec_line prefix lamp 7 own true true ++ 10 ∷ (kill_line lamp ++ 10 ∷ []))
        manager
      ≡ some m')
    × (m'.interrupted ≡ 101 ∷ [])
    × (lookup lamp m'.pids ≡ some 101)
read_all-exec-kill_example =
    read_all-exec-kill 37 bridge fork lamp prefix own 7 true true manager 101 prefix-IsWord
      lamp-IsWord own-IsWord (omega arith) (omega arith) refl refl refl exec_line-size
