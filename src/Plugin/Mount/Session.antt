-- ===== src/Plugin/Mount/Session.antt =====
-- Plugin and connector together: what mountKodo reports of a session of the connector.
use kubernetes_csi_driver.Base.{◌≡◌, refl, true, false, ◌&&◌, List, [], ◌∷◌, some, arith, ok}
use kubernetes_csi_driver.Base.Integers.{ℤ}
use kubernetes_csi_driver.Text.{Str}
use kubernetes_csi_driver.Protocol.{TerminateCmd, InitKodoMountCmd, terminate_name}
use kubernetes_csi_driver.Connector.{
  Setup, Answers, Action, send_terminate, new_session, Event, command, exited, mount_kodo, step,
  run, handle_command, handle_mount_kodo, handle_exit, exec_command,
}
use kubernetes_csi_driver.Connector.Lifecycle.{terminates}
use kubernetes_csi_driver.Connector.Failure.{run_failed_mount}
use kubernetes_csi_driver.Plugin.Mount.Loop.{Decoders, Incoming, exit_result, kodo_loop}
use kubernetes_csi_driver.Plugin.Mount.Command.{make_request}
use kubernetes_csi_driver.Plugin.Mount.Verdict.{kodo_loop-terminate, kodo_loop-closed}

module _ (json : Decoders) (marshal : TerminateCmd → Str) where
  -- marshalToConn in handleConn of connector/main.go: the messages that leave a session. The
  -- output of the program, which other goroutines send, is left out.
  unfoldable pub messages : List Action → List Incoming
  messages [] = []
  messages (send_terminate code ∷ xs) =
      record {
        request = some (make_request terminate_name (marshal (record { code = code })));
        writable = true;
      }
      ∷ messages xs
  messages (_ ∷ xs) = messages xs

  messages_silent : (xs : List Action) → terminates xs ≡ 0 → messages xs ≡ []
  unfolding messages
  messages_silent [] h = refl
  messages_silent (send_terminate c ∷ xs) h = absurd (omega arith)
  messages_silent (_ ∷ xs) h = messages_silent xs h

  -- A Kodo mount whose configuration, cache directory or log directory cannot be written is
  -- reported to NodePublishVolume as a success, whatever happens later in the session.
  pub failed_mount_reported :
      (setup : Setup) (c : InitKodoMountCmd) (a : Answers) (es : List Event)
      → (a.config_saved && (a.cache_dir_made && a.log_dir_made)) ≡ false
      → kodo_loop json (messages (run setup (command (mount_kodo c) a ∷ es) new_session).1) ≡ ok tt
  failed_mount_reported setup c a es h =
      let (_, silent, _) = run_failed_mount setup c a es h in
      rw (messages_silent _ silent) (kodo_loop-closed json [] tt)

  -- Everything that the connector needs for a mount works.
  pub record AllWorks (a : Answers) : Type 0 where
    pub config : a.config_saved ≡ true
    pub cache : a.cache_dir_made ≡ true
    pub log : a.log_dir_made ≡ true
    pub stdin : a.stdin_piped ≡ true
    pub stdout : a.stdout_piped ≡ true
    pub stderr : a.stderr_piped ≡ true

  ran_messages :
      (setup : Setup) (c : InitKodoMountCmd) (a : Answers) (code : ℤ)
      → AllWorks a
      → messages (run setup (command (mount_kodo c) a ∷ exited code ∷ []) new_session).1
        ≡ record {
          request = some (make_request terminate_name (marshal (record { code = code })));
          writable = true;
        }
          ∷ []
  unfolding messages run step handle_command handle_mount_kodo handle_exit exec_command
  ran_messages setup c a code w = ground arith

  -- When the connector can do its part and the process ends with an exit code, mountKodo reports
  -- exactly that code: success for 0, an error with the code otherwise. The hypothesis on JSON is
  -- that the plugin decodes what the connector encoded.
  pub finished_mount_reported :
      (setup : Setup) (c : InitKodoMountCmd) (a : Answers) (code : ℤ)
      → ((t : TerminateCmd) → json.terminate (marshal t) ≡ some t)
      → AllWorks a
      → kodo_loop json
          (messages (run setup (command (mount_kodo c) a ∷ exited code ∷ []) new_session).1)
        ≡ exit_result code
  unfolding make_request
  finished_mount_reported setup c a code law w = rw (ran_messages setup c a code w) (
      kodo_loop-terminate json [] _ code [] tt (record {
        request = make_request terminate_name (marshal (record { code = code }));
        body = record { code = code };
        decoded = refl;
        version = refl;
        cmd = refl;
        payload = law (record { code = code });
        exit_code = refl;
      }))
