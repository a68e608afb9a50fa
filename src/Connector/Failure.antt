-- ===== src/Connector/Failure.antt =====
-- Sessions of connector/main.go that fail before the process is started.
use kubernetes_csi_driver.Base.{ℕ, suc, ◌≡◌, refl, true, false, ◌&&◌, List, [], ◌∷◌, arith}
use mathlib.Core.List.{append-nil}
use kubernetes_csi_driver.Protocol.{InitKodoMountCmd}
use kubernetes_csi_driver.Connector.Requests.{mount_kodo}
use kubernetes_csi_driver.Connector.Lifecycle.{starts, terminates}
use kubernetes_csi_driver.Connector.Session.{
  Setup, Answers, Action, remove, Session, new_session, Event, command, handle_command,
  handle_mount_kodo, handle_exit, step, run,
}

-- The files that are removed.
abbrev pub removals : List Action → ℕ
removals [] = 0
removals (remove _ ∷ xs) = suc (removals xs)
removals (_ ∷ xs) = removals xs

module _ (setup : Setup) where
  step_idle :
      (e : Event) (s : Session)
      → s.returned ≡ true
      → s.running ≡ false
      → ((step setup e s).1 ≡ [])
        × ((step setup e s).0.returned ≡ true)
        × ((step setup e s).0.running ≡ false)
  unfolding step handle_exit
  step_idle (command c a) s r i = ground arith
  step_idle e s r i = ground arith

  -- A session that has returned and runs no process does nothing more.
  pub run_idle :
      (es : List Event) (s : Session)
      → s.returned ≡ true
      → s.running ≡ false
      → (run setup es s).1 ≡ []
  unfolding run
  run_idle [] s r i = refl
  run_idle (e ∷ es) s r i =
      let (nothing, r', i') = step_idle e s r i in
      rw (nothing, run_idle es (step setup e s).0 r' i')

  failed_step :
      (c : InitKodoMountCmd) (a : Answers)
      → (a.config_saved && (a.cache_dir_made && a.log_dir_made)) ≡ false
      → let t = step setup (command (mount_kodo c) a) new_session in
        (t.0.returned ≡ true)
        × (t.0.running ≡ false)
        × (starts t.1 ≡ 0)
        × (terminates t.1 ≡ 0)
        × (removals t.1 ≡ 0)
  unfolding step handle_command handle_mount_kodo
  failed_step c a h = ground arith

-- If the configuration, the cache directory or the log directory of a Kodo mount cannot be
-- written, then, whatever happens later in the session, no process is started, no exit code is
-- sent, and nothing that was written is removed.
pub run_failed_mount :
    (setup : Setup) (c : InitKodoMountCmd) (a : Answers) (es : List Event)
    → (a.config_saved && (a.cache_dir_made && a.log_dir_made)) ≡ false
    → let actions = (run setup (command (mount_kodo c) a ∷ es) new_session).1 in
      (starts actions ≡ 0) × (terminates actions ≡ 0) × (removals actions ≡ 0)
unfolding run
run_failed_mount setup c a es h =
    let (r, i, x, y, z) = failed_step setup c a h in
    rw (run_idle setup es (step setup (command (mount_kodo c) a) new_session).0 r i, append-nil _)
      (x, y, z)
