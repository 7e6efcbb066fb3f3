-- ===== src/Plugin/Seen.antt =====
-- What `GetSeenStateCB` of src/samples/hanfun_bridge.cpp says of a device that has a process.
use hanfun_io_tivity.Prelude.{
  ℕ, ◌+◌, ◌<◌, Bool, true, false, List, [], ◌∷◌, ◌++◌, Option, some, if◌then◌else◌, ◌==◌, length,
  ◌≡◌, refl, ap, ◌∙◌,
}
use hanfun_io_tivity.Prelude.Bytes.{Bytes, codes, bytes_eq, bytes_eq_refl, c_str}
use hanfun_io_tivity.Prelude.Dict.{lookup, insert, lookup-insert}
use hanfun_io_tivity.HanClient.Cstring.{tokens, split, add_token}
use hanfun_io_tivity.Discovery.{seen_native}
use hanfun_io_tivity.Plugin.{
  defaults, parse_arguments, exec_line, get_filename, store_seen_state, get_seen_state,
  seen_state_of, found_state,
}
use hanfun_io_tivity.Plugin.Manager.{Manager, line_size, read_all}
use hanfun_io_tivity.Plugin.Words.{IsWord}
use hanfun_io_tivity.Plugin.Launch.{is_name, launched, read_all-launched}

module _ (prefix uuid own : Bytes) (sender : ℕ) (secure_mode : Bool) where
  seen-launched :
      (files : List (Bytes × Bytes))
      → (sender == 0) ≡ false
      → get_seen_state prefix uuid
          (store_seen_state (launched prefix uuid sender own secure_mode) files)
        ≡ some seen_native
  unfolding get_seen_state store_seen_state seen_state_of tokens split add_token bytes_eq c_str
  seen-launched files h =
      let file : Bytes = get_filename prefix (some uuid) (codes "seen.state") in
      let found : lookup file (insert file (codes "native") files) ≡ some (codes "native") =
        lookup-insert file file (codes "native") files
        ∙ ap (λ b. if b then some (codes "native") else lookup file files) (bytes_eq_refl file) in
      ap (λ b. get_seen_state prefix uuid (if b then files else insert file (codes "native") files))
        h
      ∙ ap found_state found

  -- The bridge asks for the state of a device whose process was started by the line that `ExecCB`
  -- printed, has read its arguments and stored its state: the device is native, also where `ExecCB` was
  -- told that it is virtual.
  pub get_seen_state-read_all :
      (uuid_size : ℕ) (name : Bytes) (fork : ℕ → Option ℕ) (is_virtual default_mode : Bool)
      (files : List (Bytes × Bytes)) (m : Manager) (pid : ℕ)
      → IsWord prefix
      → IsWord uuid
      → IsWord own
      → is_name name ≡ true
      → sender < 65536
      → (sender == 0) ≡ false
      → m.line ≡ []
      → m.returned ≡ false
      → fork (length m.started) ≡ some pid
      → length (exec_line prefix uuid sender own secure_mode is_virtual) + 1 < line_size
      → (m' : Manager) × (words : List Bytes) × (read_all uuid_size name fork
            (exec_line prefix uuid sender own secure_mode is_virtual ++ 10 ∷ [])
            m
          ≡ some m')
        × (m'.started ≡ m.started ++ ((pid, words) ∷ []))
        × (get_seen_state prefix uuid
              (store_seen_state (parse_arguments words (defaults default_mode)) files)
            ≡ some seen_native)
  get_seen_state-read_all uuid_size name fork is_virtual default_mode files m pid p u o n lt
        some_sender e r f room =
      let (words, ran, options) =
        read_all-launched prefix uuid own sender secure_mode uuid_size name fork is_virtual
          default_mode m pid p u o n lt e r f room in
      (
        record m {
          line = [];
          pids = insert uuid pid m.pids;
          started = m.started ++ ((pid, words) ∷ []);
        },
        words,
        ran,
        refl,
        ap (λ x. get_seen_state prefix uuid (store_seen_state x files)) options
            ∙ seen-launched files some_sender,
      )
