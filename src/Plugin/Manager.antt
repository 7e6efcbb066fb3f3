-- ===== src/Plugin/Manager.antt =====
-- src/samples/plugin_manager.cpp: the loop that reads the lines of a bridge, and starts and ends its
-- processes. `none` is undefined behaviour; which calls of `fork` work is a parameter.
use hanfun_io_tivity.Prelude.{
  ℕ, ◌+◌, Bool, true, List, [], ◌∷◌, ◌++◌, Option, none, some, if◌then◌else◌, ◌>>=◌, ltb, ◌==◌,
  length, take, drop, get_elem?,
}
use hanfun_io_tivity.Prelude.Bytes.{Bytes, codes, c_str}
use hanfun_io_tivity.Prelude.Dict.{lookup, insert}
use hanfun_io_tivity.HanClient.Cstring.{tokens, has_prefix}
use hanfun_io_tivity.HanClient.Number.{is_space}
use hanfun_io_tivity.Resource.Scan.{skip_space, scan_literal}

-- What was read of the line, `pids`, the processes that were started with their arguments behind the
-- program's name, the processes that were interrupted, and whether `main` has returned.
pub record Manager : Type 0 where
  pub line : Bytes
  pub pids : List (Bytes × ℕ)
  pub started : List (ℕ × List Bytes)
  pub interrupted : List ℕ
  pub returned : Bool

-- The bytes of `line` and, in IoTivity, UUID_STRING_SIZE.
abbrev pub line_size : ℕ
line_size = 512

module _ (uuid_size : ℕ) (name : Bytes) (fork : ℕ → Option ℕ) where
  -- The result of `fork`; the `std::string` of a NULL identifier is undefined.
  unfoldable pub start_process : Option ℕ → List Bytes → Manager → Option Manager
  start_process none words m = some (record m { returned = true })
  start_process (some pid) words m = get_elem? words 3 >>= λ uuid. some (record m {
    pids = insert uuid pid m.pids;
    started = m.started ++ ((pid, name ∷ words) ∷ []);
  })

  -- A line that starts with "exec": ten words at most, the fourth of which is the identifier.
  unfoldable pub exec : Bytes → Manager → Option Manager
  unfolding tokens start_process
  exec line m = start_process (fork (length m.started)) (take 10 (tokens is_space (drop 4 line))) m

  -- `sscanf(line, "kill --uuid %s", uuid)`: without the word the block stays unset, and a word must fit
  -- with its NUL.
  unfoldable pub killed_uuid : Bytes → Option Bytes
  unfolding tokens skip_space scan_literal
  killed_uuid line = do
    rest ← scan_literal (codes "--uuid") (skip_space (drop 4 line))
    uuid ← get_elem? (tokens is_space rest) 0
    if ltb (length uuid) uuid_size then some uuid else none

  -- A line that starts with "kill".
  unfoldable pub kill : Bytes → Manager → Option Manager
  unfolding killed_uuid
  kill line m = do
    uuid ← killed_uuid line
    some (elim (lookup uuid m.pids) [
      | none ↦ m
      | some pid ↦ record m { interrupted = m.interrupted ++ (pid ∷ []) }
    ])

  unfoldable pub handle_line : Bytes → Manager → Option Manager
  unfolding exec kill has_prefix
  handle_line line m =
      if has_prefix (codes "exec") line
      then exec line m
      else if has_prefix (codes "kill") line
      then kill line m
      else some m

  -- A byte is put behind the others, and a line end is followed by a NUL.
  unfoldable pub read_byte : ℕ → Manager → Option Manager
  unfolding handle_line c_str
  read_byte c m =
      let line = m.line ++ (c ∷ []) in
      if ltb (length line) (line_size + 1)
      then (if c == 10
          then (if ltb (length line) line_size
              then handle_line (c_str line) (record m { line = [] })
              else none)
          else some (record m { line = line }))
      else none

  -- The loop, up to the end of the pipe or of `main`.
  unfoldable pub read_all : Bytes → Manager → Option Manager
  unfolding read_byte
  read_all [] m = some m
  read_all (c ∷ s) m = if m.returned then some m else read_byte c m >>= read_all s
