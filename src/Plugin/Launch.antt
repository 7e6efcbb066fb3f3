-- ===== src/Plugin/Launch.antt =====
-- From `ExecCB` of src/samples/hanfun_bridge.cpp, through src/samples/plugin_manager.cpp, to the options
-- of the process.
use hanfun_io_tivity.Prelude.{
  ℕ, suc, ◌+◌, ◌<◌, Bool, true, false, not, ◌||◌, List, [], ◌∷◌, ◌++◌, Option, some, ◌>>=◌, length,
  take, drop, ◌≡◌, refl, ap, ◌∙◌, arith,
}
use hanfun_io_tivity.Prelude.Bytes.{Bytes, codes, bytes_eq}
use hanfun_io_tivity.Prelude.Dict.{insert}
use hanfun_io_tivity.HanClient.Cstring.{has_prefix, tokens}
use hanfun_io_tivity.HanClient.Number.{is_space, cast}
use hanfun_io_tivity.Plugin.{
  Options, defaults, takes_value, set_value, set_flag, parse_arguments, decimal_text, bool_text,
  virtual_text, exec_line,
}
use hanfun_io_tivity.Plugin.Number.{atoi-decimal_text}
use hanfun_io_tivity.Plugin.Manager.{Manager, line_size, start_process, exec, handle_line, read_all}
use hanfun_io_tivity.Plugin.Words.{
  IsWord, decimal_text-IsWord, bool_text-IsWord, exec_words, take-exec_line,
}
use hanfun_io_tivity.Plugin.Lines.{is_clean, is_clean-append, is_clean-IsWord, read_all-line}

-- A program's name that is no option.
abbrev pub is_name : Bytes → Bool
is_name w = not (
    takes_value w
    || (bytes_eq w (codes "--hf") || (bytes_eq w (codes "--oc") || bytes_eq w (codes "--virtual"))))

-- The options of the process.
abbrev pub launched : Bytes → Bytes → ℕ → Bytes → Bool → Options
launched prefix uuid sender own secure_mode = record {
  prefix = prefix;
  hf = false;
  oc = false;
  uuid = some uuid;
  sender = sender;
  rd = some own;
  is_virtual = false;
  secure_mode = secure_mode;
}

set_flag-name : (name : Bytes) (o : Options) → is_name name ≡ true → set_flag name o ≡ o
unfolding set_flag
set_flag-name name o h = ground arith

parse-name :
    (name a : Bytes) (rest : List Bytes) (o : Options)
    → is_name name ≡ true
    → parse_arguments (name ∷ a ∷ rest) o ≡ parse_arguments (a ∷ rest) o
unfolding parse_arguments
parse-name name a rest o h =
    let no_value : takes_value name ≡ false = ground arith in
    rw no_value (ap (parse_arguments (a ∷ rest)) (set_flag-name name o h))

parse-value :
    (a b : Bytes) (rest : List Bytes) (o : Options)
    → takes_value a ≡ true
    → parse_arguments (a ∷ b ∷ rest) o ≡ parse_arguments rest (set_value a b o)
unfolding parse_arguments
parse-value a b rest o h = rw h refl

secure_mode-set :
    (mode : Bool) (o : Options)
    → set_value (codes "--secureMode") (bool_text mode) o ≡ record o { secure_mode = mode }
unfolding set_value bytes_eq
secure_mode-set true o = refl
secure_mode-set false o = refl

virtual_text-is_clean : (v : Bool) → is_clean (32 ∷ virtual_text v) ≡ true
virtual_text-is_clean true = refl
virtual_text-is_clean false = refl

module _ (prefix uuid own : Bytes) (sender : ℕ) (secure_mode : Bool) where
  parse-exec_words :
      (name : Bytes) (default_mode : Bool)
      → is_name name ≡ true
      → sender < 65536
      → parse_arguments
          (name ∷ exec_words prefix uuid own sender secure_mode)
          (defaults default_mode)
        ≡ launched prefix uuid sender own secure_mode
  unfolding exec_words bytes_eq set_value cast parse_arguments
  parse-exec_words name default_mode h lt =
      let n : Bytes = decimal_text (suc sender) sender in
      let last : List Bytes = codes "--secureMode" ∷ bool_text secure_mode ∷ [] in
      let o0 : Options = defaults default_mode in
      let o1 : Options = record o0 { prefix = prefix } in
      let o2 : Options = record o1 { uuid = some uuid } in
      let o3 : Options = record o2 { sender = sender } in
      let o4 : Options = record o3 { rd = some own } in
      let number : set_value (codes "--sender") n o2 ≡ o3 =
        ap (λ k. record o2 { sender = cast 65536 k }) (atoi-decimal_text sender)
        ∙ ap (λ k. record o2 { sender = k }) (omega arith) in
      parse-name name (codes "--ps")
        (prefix ∷ codes "--uuid" ∷ uuid ∷ codes "--sender" ∷ n ∷ codes "--rd" ∷ own ∷ last) o0 h
      ∙ parse-value (codes "--ps") prefix
          (codes "--uuid" ∷ uuid ∷ codes "--sender" ∷ n ∷ codes "--rd" ∷ own ∷ last) o0 refl
      ∙ parse-value (codes "--uuid") uuid (codes "--sender" ∷ n ∷ codes "--rd" ∷ own ∷ last) o1 refl
      ∙ parse-value (codes "--sender") n (codes "--rd" ∷ own ∷ last) o2 refl
      ∙ ap (parse_arguments (codes "--rd" ∷ own ∷ last)) number
      ∙ parse-value (codes "--rd") own last o3 refl
      ∙ parse-value (codes "--secureMode") (bool_text secure_mode) [] o4 refl
      ∙ secure_mode-set secure_mode o4

  exec_line-is_clean :
      (is_virtual : Bool)
      → IsWord prefix
      → IsWord uuid
      → IsWord own
      → is_clean (exec_line prefix uuid sender own secure_mode is_virtual) ≡ true
  unfolding exec_line
  exec_line-is_clean is_virtual p u o = is_clean-append prefix _ (is_clean-IsWord prefix p) (
      is_clean-append uuid _ (is_clean-IsWord uuid u) (
        is_clean-append (decimal_text (suc sender) sender) _
          (is_clean-IsWord (decimal_text (suc sender) sender) (decimal_text-IsWord sender))
          (is_clean-append own _ (is_clean-IsWord own o) (
            is_clean-append (bool_text secure_mode) _
              (is_clean-IsWord (bool_text secure_mode) (bool_text-IsWord secure_mode))
              (virtual_text-is_clean is_virtual)))))

  -- The manager behind an "exec" line.
  abbrev pub behind : Bytes → ℕ → Manager → Manager
  behind name pid m = record m {
    line = [];
    pids = insert uuid pid m.pids;
    started = m.started ++ ((pid, name ∷ exec_words prefix uuid own sender secure_mode) ∷ []);
  }

  module _ (uuid_size : ℕ) (name : Bytes) (fork : ℕ → Option ℕ) (is_virtual : Bool) where
    exec-words :
        (line : Bytes) (m : Manager) (pid : ℕ)
        → take 10 (tokens is_space (drop 4 line)) ≡ exec_words prefix uuid own sender secure_mode
        → fork (length m.started) ≡ some pid
        → exec uuid_size name fork line m
          ≡ some (record m {
            pids = insert uuid pid m.pids;
            started =
                m.started ++ ((pid, name ∷ exec_words prefix uuid own sender secure_mode) ∷ []);
          })
    unfolding exec exec_words
    exec-words line m pid e f =
        ap (λ o. start_process uuid_size name fork o (take 10 (tokens is_space (drop 4 line))) m) f
        ∙ ap (λ ws. start_process uuid_size name fork (some pid) ws m) e

    handle_line-exec :
        (m : Manager) (pid : ℕ)
        → IsWord prefix
        → IsWord uuid
        → IsWord own
        → fork (length m.started) ≡ some pid
        → handle_line uuid_size name fork
            (exec_line prefix uuid sender own secure_mode is_virtual ++ 10 ∷ [])
            (record m { line = [] })
          ≡ some (behind name pid m)
    unfolding handle_line has_prefix exec_line
    handle_line-exec m pid p u o f =
        exec-words (exec_line prefix uuid sender own secure_mode is_virtual ++ 10 ∷ [])
          (record m { line = [] }) pid
          (take-exec_line prefix uuid own sender secure_mode is_virtual (10 ∷ []) p u o) f

    pub read_all-exec_line :
        (s : Bytes) (m : Manager) (pid : ℕ)
        → IsWord prefix
        → IsWord uuid
        → IsWord own
        → m.line ≡ []
        → m.returned ≡ false
        → fork (length m.started) ≡ some pid
        → length (exec_line prefix uuid sender own secure_mode is_virtual) + 1 < line_size
        → read_all uuid_size name fork
            (exec_line prefix uuid sender own secure_mode is_virtual ++ 10 ∷ s)
            m
          ≡ read_all uuid_size name fork s (behind name pid m)
    read_all-exec_line s m pid p u o e r f room =
        let w = exec_line prefix uuid sender own secure_mode is_virtual in
        let empty : length m.line ≡ 0 = ap length e in
        let clean : is_clean m.line ≡ true = ap is_clean e in
        read_all-line uuid_size name fork w s m clean (exec_line-is_clean is_virtual p u o) r
          (omega arith)
        ∙ ap
            (λ t.
              handle_line uuid_size name fork (t ++ (w ++ 10 ∷ [])) (record m { line = [] })
              >>= read_all uuid_size name fork s)
            e
        ∙ ap (λ (x : Option Manager). x >>= read_all uuid_size name fork s)
            (handle_line-exec m pid p u o f)

    -- The line that `ExecCB` prints makes the manager start a process, known by its identifier, whose
    -- options are the prefix, the identifier, the sender, the directory and the secure mode that
    -- `ExecCB` was given; but it is never virtual, since the manager reads ten words.
    pub read_all-launched :
        (default_mode : Bool) (m : Manager) (pid : ℕ)
        → IsWord prefix
        → IsWord uuid
        → IsWord own
        → is_name name ≡ true
        → sender < 65536
        → m.line ≡ []
        → m.returned ≡ false
        → fork (length m.started) ≡ some pid
        → length (exec_line prefix uuid sender own secure_mode is_virtual) + 1 < line_size
        → (words : List Bytes) × (read_all uuid_size name fork
              (exec_line prefix uuid sender own secure_mode is_virtual ++ 10 ∷ [])
              m
            ≡ some (record m {
              line = [];
              pids = insert uuid pid m.pids;
              started = m.started ++ ((pid, words) ∷ []);
            }))
          × (parse_arguments words (defaults default_mode)
              ≡ launched prefix uuid sender own secure_mode)
    unfolding read_all
    read_all-launched default_mode m pid p u o n lt e r f room = (
      name ∷ exec_words prefix uuid own sender secure_mode,
      read_all-exec_line [] m pid p u o e r f room,
      parse-exec_words name default_mode n lt,
    )
