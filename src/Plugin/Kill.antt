-- ===== src/Plugin/Kill.antt =====
-- From `KillCB` of src/samples/hanfun_bridge.cpp to the process, through src/samples/plugin_manager.cpp.
use hanfun_io_tivity.Prelude.{
  ℕ, ◌+◌, ◌<◌, Bool, true, false, [], ◌∷◌, ◌++◌, Option, some, if◌then◌else◌, ◌>>=◌, ltb, lt→ltb,
  length, ◌≡◌, refl, ap, ◌∙◌, arith,
}
use hanfun_io_tivity.Prelude.Bytes.{Bytes, bytes_eq_refl}
use hanfun_io_tivity.Prelude.Dict.{lookup, lookup-insert}
use hanfun_io_tivity.HanClient.Cstring.{has_prefix, tokens, tokens-delim}
use hanfun_io_tivity.HanClient.Number.{is_space}
use hanfun_io_tivity.Resource.Scan.{skip_space, scan_literal}
use hanfun_io_tivity.Plugin.{exec_line, kill_line}
use hanfun_io_tivity.Plugin.Manager.{Manager, line_size, killed_uuid, kill, handle_line, read_all}
use hanfun_io_tivity.Plugin.Words.{IsWord, tokens-IsWord}
use hanfun_io_tivity.Plugin.Lines.{is_clean, is_clean-IsWord, read_all-line}
use hanfun_io_tivity.Plugin.Launch.{behind, read_all-exec_line}

module _ (uuid_size : ℕ) (name : Bytes) (fork : ℕ → Option ℕ) (uuid : Bytes) where
  killed_uuid-kill_line :
      IsWord uuid
      → length uuid < uuid_size
      → killed_uuid uuid_size name fork (kill_line uuid ++ 10 ∷ []) ≡ some uuid
  unfolding killed_uuid skip_space scan_literal
  killed_uuid-kill_line u lt =
      let word : tokens is_space (32 ∷ (uuid ++ 10 ∷ [])) ≡ uuid ∷ tokens is_space [] =
        tokens-delim is_space 32 (uuid ++ 10 ∷ []) refl ∙ tokens-IsWord uuid 10 [] u refl in
      let fits : ltb (length uuid) uuid_size ≡ true = lt→ltb (length uuid) uuid_size lt in
      rw (word, fits) refl

  handle_line-kill :
      (m : Manager) (pid : ℕ)
      → IsWord uuid
      → length uuid < uuid_size
      → lookup uuid m.pids ≡ some pid
      → handle_line uuid_size name fork (kill_line uuid ++ 10 ∷ []) m
        ≡ some (record m { interrupted = m.interrupted ++ (pid ∷ []) })
  unfolding handle_line has_prefix kill
  handle_line-kill m pid u lt l = rw (killed_uuid-kill_line u lt, l) refl

  -- The line that `KillCB` prints interrupts the process that is known by the identifier.
  read_all-kill_line :
      (s : Bytes) (m : Manager) (pid : ℕ)
      → IsWord uuid
      → length uuid < uuid_size
      → m.line ≡ []
      → m.returned ≡ false
      → length (kill_line uuid) + 1 < line_size
      → lookup uuid m.pids ≡ some pid
      → read_all uuid_size name fork (kill_line uuid ++ 10 ∷ s) m
        ≡ read_all uuid_size name fork s
            (record m { line = []; interrupted = m.interrupted ++ (pid ∷ []) })
  read_all-kill_line s m pid u lt e r room l =
      let w : Bytes = kill_line uuid in
      let empty : length m.line ≡ 0 = ap length e in
      read_all-line uuid_size name fork w s m (ap is_clean e) (is_clean-IsWord uuid u) r
        (omega arith)
      ∙ ap
          (λ t.
            handle_line uuid_size name fork (t ++ (w ++ 10 ∷ [])) (record m { line = [] })
            >>= read_all uuid_size name fork s)
          e
      ∙ ap (λ (x : Option Manager). x >>= read_all uuid_size name fork s)
          (handle_line-kill (record m { line = [] }) pid u lt l)

  -- A process that was started by the line of `ExecCB` is the one that is interrupted by the line of
  -- `KillCB` for its identifier, also where an older process had that identifier.
  pub read_all-exec-kill :
      (prefix own : Bytes) (sender : ℕ) (secure_mode is_virtual : Bool) (m : Manager) (pid : ℕ)
      → IsWord prefix
      → IsWord uuid
      → IsWord own
      → length uuid < uuid_size
      → uuid_size < 500
      → m.line ≡ []
      → m.returned ≡ false
      → fork (length m.started) ≡ some pid
      → length (exec_line prefix uuid sender own secure_mode is_virtual) + 1 < line_size
      → (m' : Manager) × (read_all uuid_size name fork
            (exec_line prefix uuid sender own secure_mode is_virtual
              ++ 10 ∷ (kill_line uuid ++ 10 ∷ []))
            m
          ≡ some m')
        × (m'.interrupted ≡ m.interrupted ++ (pid ∷ []))
        × (lookup uuid m'.pids ≡ some pid)
  unfolding read_all
  read_all-exec-kill prefix own sender secure_mode is_virtual m pid p u o lt size e r f room =
      let after : Manager = behind prefix uuid own sender secure_mode name pid m in
      let known : lookup uuid after.pids ≡ some pid =
        lookup-insert uuid uuid pid m.pids
        ∙ ap (λ b. if b then some pid else lookup uuid m.pids) (bytes_eq_refl uuid) in
      (
        record after { line = []; interrupted = m.interrupted ++ (pid ∷ []) },
        read_all-exec_line prefix uuid own sender secure_mode uuid_size name fork is_virtual
              (kill_line uuid ++ 10 ∷ []) m pid p u o e r f room
            ∙ read_all-kill_line [] after pid u lt refl r (omega arith) known,
        refl,
        known,
      )
