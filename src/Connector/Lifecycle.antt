-- ===== src/Connector/Lifecycle.antt =====
-- The processes and the exit codes of a whole session of connector/main.go.
use kubernetes_csi_driver.Base.{
  ℕ, suc, ◌+◌, ◌≤◌, ◌≡◌, List, [], ◌∷◌, ◌++◌, none, some, arith, if◌then◌else◌,
}
use kubernetes_csi_driver.Connector.Requests.{mount_kodofs, mount_kodo, send_data, umount_kodo}
use kubernetes_csi_driver.Connector.Session.{
  Setup, Action, start, send_terminate, Session, new_session, Event, command, exited, exec_command,
  handle_umount, handle_command, handle_mount_kodo, handle_mount_kodofs, handle_data, handle_exit,
  step, run,
}

-- The processes that are started, and the exit codes that are sent.
abbrev pub starts : List Action → ℕ
starts [] = 0
starts (start _ ∷ xs) = suc (starts xs)
starts (_ ∷ xs) = starts xs

abbrev pub terminates : List Action → ℕ
terminates [] = 0
terminates (send_terminate _ ∷ xs) = suc (terminates xs)
terminates (_ ∷ xs) = terminates xs

starts-append : (xs ys : List Action) → starts (xs ++ ys) ≡ starts xs + starts ys
starts-append [] ys = omega arith
starts-append (start c ∷ xs) ys = omega (arith, starts-append xs ys)
starts-append (_ ∷ xs) ys = starts-append xs ys

terminates-append : (xs ys : List Action) → terminates (xs ++ ys) ≡ terminates xs + terminates ys
terminates-append [] ys = omega arith
terminates-append (send_terminate c ∷ xs) ys = omega (arith, terminates-append xs ys)
terminates-append (_ ∷ xs) ys = terminates-append xs ys

-- 1 as long as no process was asked for; 1 while the process runs.
abbrev free : Session → ℕ
free s = elim s.exec [ none ↦ 1 | some _ ↦ 0 ]

abbrev live : Session → ℕ
live s = if s.running then 1 else 0

module _ (setup : Setup) where
  starts-step :
      (e : Event) (s : Session) → starts (step setup e s).1 + free (step setup e s).0 ≤ free s
  unfolding step handle_command handle_mount_kodo handle_mount_kodofs handle_umount handle_data
      handle_exit exec_command
  starts-step (command (mount_kodofs c) a) s = ground arith
  starts-step (command (mount_kodo c) a) s = ground arith
  starts-step (command (send_data c) a) s = ground arith
  starts-step (command (umount_kodo c) a) s = ground arith
  starts-step (exited c) s = ground arith
  starts-step e s = ground arith

  terminates-step :
      (e : Event) (s : Session)
      → terminates (step setup e s).1 + live (step setup e s).0 ≤ live s + starts (step setup e s).1
  unfolding step handle_command handle_mount_kodo handle_mount_kodofs handle_umount handle_data
      handle_exit exec_command
  terminates-step (command (mount_kodofs c) a) s = ground arith
  terminates-step (command (mount_kodo c) a) s = ground arith
  terminates-step (command (send_data c) a) s = ground arith
  terminates-step (command (umount_kodo c) a) s = ground arith
  terminates-step (exited c) s = ground arith
  terminates-step e s = ground arith

  starts-run : (es : List Event) (s : Session) → starts (run setup es s).1 ≤ free s
  unfolding run
  starts-run [] s = omega arith
  starts-run (e ∷ es) s = omega (
    arith,
    starts-append (step setup e s).1 (run setup es (step setup e s).0).1,
    starts-step e s,
    starts-run es (step setup e s).0,
  )

  terminates-run :
      (es : List Event) (s : Session)
      → terminates (run setup es s).1 ≤ live s + starts (run setup es s).1
  unfolding run
  terminates-run [] s = omega arith
  terminates-run (e ∷ es) s = omega (
    arith,
    starts-append (step setup e s).1 (run setup es (step setup e s).0).1,
    terminates-append (step setup e s).1 (run setup es (step setup e s).0).1,
    terminates-step e s,
    terminates-run es (step setup e s).0,
  )

-- Whatever arrives in whatever order, a session starts at most one process, and sends no more exit
-- codes than it started processes.
pub run_once :
    (setup : Setup) (es : List Event)
    → (starts (run setup es new_session).1 ≤ 1)
      × (terminates (run setup es new_session).1 ≤ starts (run setup es new_session).1)
run_once setup es =
    (starts-run setup es new_session, omega (arith, terminates-run setup es new_session))
