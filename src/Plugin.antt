-- ===== src/Plugin.antt =====
-- The processes of src/samples/hanfun_bridge.cpp: the options of `main`, the lines that `ExecCB` and
-- `KillCB` print for src/samples/plugin_manager.cpp, and the file that tells what a device is.
pub mod Manager
pub mod Words
pub mod Number
pub mod Lines
pub mod Launch
pub mod Seen
pub mod Kill
use hanfun_io_tivity.Prelude.{
  ℕ, zero, suc, ◌+◌, ◌*◌, ◌/◌, ◌%◌, ◌^◌, Bool, true, false, not, ◌||◌, List, [], ◌∷◌, ◌++◌, Option,
  none, some, if◌then◌else◌, ltb, ◌==◌, length,
}
use hanfun_io_tivity.Prelude.Bytes.{Bytes, codes, bytes_eq, c_str}
use hanfun_io_tivity.Prelude.Dict.{lookup, insert}
use hanfun_io_tivity.HanClient.Cstring.{tokens}
use hanfun_io_tivity.HanClient.Number.{is_space, atoi, cast, digit}
use hanfun_io_tivity.Discovery.{SeenState, not_seen, seen_native, seen_virtual}

-- The static variables, the protocols and `is_virtual`.
pub record Options : Type 0 where
  pub prefix : Bytes
  pub hf : Bool
  pub oc : Bool
  pub uuid : Option Bytes
  pub sender : ℕ
  pub rd : Option Bytes
  pub is_virtual : Bool
  pub secure_mode : Bool

abbrev pub defaults : Bool → Options
defaults secure_mode = record {
  prefix = codes "HanFunBridge_";
  hf = false;
  oc = false;
  uuid = none;
  sender = 0;
  rd = none;
  is_virtual = false;
  secure_mode = secure_mode;
}

abbrev pub takes_value : Bytes → Bool
takes_value a =
    bytes_eq a (codes "--ps")
    || (bytes_eq a (codes "--uuid")
        || (bytes_eq a (codes "--sender")
            || (bytes_eq a (codes "--rd") || bytes_eq a (codes "--secureMode"))))

-- An option with the argument that follows it.
unfoldable pub set_value : Bytes → Bytes → Options → Options
set_value a b o =
    if bytes_eq a (codes "--ps")
    then record o { prefix = b }
    else if bytes_eq a (codes "--uuid")
    then record o { uuid = some b }
    else if bytes_eq a (codes "--sender")
    then record o { sender = cast (2 ^ 16) (atoi b) }
    else if bytes_eq a (codes "--rd")
    then record o { rd = some b }
    else if bytes_eq b (codes "false")
    then record o { secure_mode = false }
    else if bytes_eq b (codes "true")
    then record o { secure_mode = true }
    else o

unfoldable pub set_flag : Bytes → Options → Options
set_flag a o =
    if bytes_eq a (codes "--hf")
    then record o { hf = true }
    else if bytes_eq a (codes "--oc")
    then record o { oc = true }
    else if bytes_eq a (codes "--virtual")
    then record o { is_virtual = true }
    else o

-- The loop over the arguments behind the program's name; an option that takes a value and is the last
-- argument is passed over.
unfoldable pub parse_arguments : List Bytes → Options → Options
unfolding set_value set_flag
parse_arguments [] o = o
parse_arguments (a ∷ []) o = set_flag a o
parse_arguments (a ∷ b ∷ rest) o =
    let behind = parse_arguments rest (set_value a b o) in
    let next = parse_arguments (b ∷ rest) (set_flag a o) in if takes_value a then behind else next

-- `GetFilename`.
abbrev pub get_filename : Bytes → Option Bytes → Bytes → Bytes
get_filename prefix none suffix = prefix ++ suffix
get_filename prefix (some uuid) suffix = prefix ++ (uuid ++ (codes "_" ++ suffix))

-- `%u`: as many rounds as the number says are enough.
unfoldable pub decimal_text : ℕ → ℕ → Bytes
decimal_text zero n = []
decimal_text (suc fuel) n =
    let rest = decimal_text fuel (n / 10) ++ (digit (n % 10) ∷ []) in
    if ltb n 10 then digit n ∷ [] else rest

abbrev pub bool_text : Bool → Bytes
bool_text true = codes "true"
bool_text false = codes "false"

abbrev pub virtual_text : Bool → Bytes
virtual_text true = codes "--virtual"
virtual_text false = []

-- What `ExecCB` prints, for a process with these options and the own identifier, up to the line end.
unfoldable pub exec_line : Bytes → Bytes → ℕ → Bytes → Bool → Bool → Bytes
unfolding decimal_text
exec_line prefix uuid sender own secure_mode is_virtual =
    codes "exec --ps "
    ++ (prefix
        ++ (codes " --uuid "
            ++ (uuid
                ++ (codes " --sender "
                    ++ (decimal_text (suc sender) sender
                        ++ (codes " --rd "
                            ++ (own
                                ++ (codes " --secureMode "
                                    ++ (bool_text secure_mode
                                        ++ (codes " " ++ virtual_text is_virtual))))))))))

-- What `KillCB` prints.
abbrev pub kill_line : Bytes → Bytes
kill_line uuid = codes "kill --uuid " ++ uuid

-- The part of `main` that stores what the device of a process is; the file can be opened.
unfoldable pub store_seen_state : Options → List (Bytes × Bytes) → List (Bytes × Bytes)
store_seen_state o files =
    if o.sender == 0
    then files
    else insert (get_filename o.prefix o.uuid (codes "seen.state"))
        (if o.is_virtual then codes "virtual" else codes "native") files

-- What `%s` read: without a word the block stays unset, and a word must fit in its 16 bytes with its NUL.
unfoldable pub seen_state_of : List Bytes → Option SeenState
seen_state_of [] = none
seen_state_of (word ∷ words) =
    if ltb (length word) 16
    then some (if bytes_eq (codes "virtual") (c_str word) then seen_virtual else seen_native)
    else none

-- Without the file, and with what it holds.
abbrev pub found_state : Option Bytes → Option SeenState
found_state none = some not_seen
found_state (some content) = seen_state_of (tokens is_space content)

-- `GetSeenStateCB`, of a process with that prefix; `none` is undefined behaviour.
unfoldable pub get_seen_state : Bytes → Bytes → List (Bytes × Bytes) → Option SeenState
get_seen_state prefix uuid files =
    found_state (lookup (get_filename prefix (some uuid) (codes "seen.state")) files)
