-- ===== src/Connector/Input.antt =====
-- What reaches the standard input of the mount process.
use mathlib.Core.List.{append_assoc}
use kubernetes_csi_driver.Base.{
  ◌≡◌, refl, sym, ◌∙◌, ap, true, List, [], ◌∷◌, ◌++◌, arith, ◌⊎◌, inl, inr,
}
use kubernetes_csi_driver.Text.{Str}
use kubernetes_csi_driver.Connector.Requests.{mount_kodofs, mount_kodo, send_data, umount_kodo}
use kubernetes_csi_driver.Connector.Session.{
  Setup, Action, write_stdin, Session, new_session, Event, command, exec_command, handle_umount,
  handle_command, handle_mount_kodo, handle_mount_kodofs, handle_data, handle_exit, step, run,
}

-- The data that the plugin sends, and the data that is written.
abbrev pub sent : List Event → List Str
sent [] = []
sent (command (send_data c) _ ∷ es) = c.text ∷ sent es
sent (_ ∷ es) = sent es

abbrev pub written : List Action → List Str
written [] = []
written (write_stdin t ∷ xs) = t ∷ written xs
written (_ ∷ xs) = written xs

-- One list begins another.
abbrev pub IsPrefix : List Str → List Str → Type 0
IsPrefix xs ys = (rest : List Str) × (xs ++ rest ≡ ys)

written-append : (xs ys : List Action) → written (xs ++ ys) ≡ written xs ++ written ys
written-append [] ys = refl
written-append (write_stdin t ∷ xs) ys = ap (◌∷◌ t) (written-append xs ys)
written-append (_ ∷ xs) ys = written-append xs ys

sent-cons : (e : Event) (es : List Event) → sent (e ∷ es) ≡ sent (e ∷ []) ++ sent es
sent-cons (command (send_data c) a) es = refl
sent-cons (command _ a) es = refl
sent-cons _ es = refl

module _ (setup : Setup) where
  -- Only a data command writes, and it writes its own data or ends the session.
  step_written :
      (e : Event) (s : Session)
      → (written (step setup e s).1 ≡ sent (e ∷ []))
        ⊎ ((written (step setup e s).1 ≡ []) × ((step setup e s).0.returned ≡ true))
  unfolding step handle_command handle_mount_kodo handle_mount_kodofs handle_umount handle_data
      handle_exit exec_command
  step_written (command (mount_kodofs c) a) s = ground arith
  step_written (command (mount_kodo c) a) s = ground arith
  step_written (command (send_data c) a) s = ground arith
  step_written (command (umount_kodo c) a) s = ground arith
  step_written e s = ground arith

  step_returned :
      (e : Event) (s : Session)
      → s.returned ≡ true
      → (written (step setup e s).1 ≡ []) × ((step setup e s).0.returned ≡ true)
  unfolding step handle_exit
  step_returned (command c a) s h = ground arith
  step_returned e s h = ground arith

  run_returned :
      (es : List Event) (s : Session) → s.returned ≡ true → written (run setup es s).1 ≡ []
  unfolding run
  run_returned [] s h = refl
  run_returned (e ∷ es) s h =
      let (nothing, later) = step_returned e s h in
      rw (written-append (step setup e s).1 (run setup es (step setup e s).0).1, nothing)
        (run_returned es (step setup e s).0 later)

  run_written : (es : List Event) (s : Session) → IsPrefix (written (run setup es s).1) (sent es)
  unfolding run
  run_written [] s = ([], refl)
  run_written (e ∷ es) s =
      let t = step setup e s in
      let later = written-append t.1 (run setup es t.0).1 in
      elim (step_written e s) [
        | inl same ↦
            let (rest, eq) = run_written es t.0 in
            (
              rest,
              rw (later, same, append_assoc (sent (e ∷ [])) (written (run setup es t.0).1) rest)
                  (ap (◌++◌ (sent (e ∷ []))) eq ∙ sym (sent-cons e es)),
            )
        | inr (nothing, over) ↦ (sent (e ∷ es), rw (later, nothing, run_returned es t.0 over))
      ]

-- The texts that are written to the process are the first of those that the plugin sent, in the
-- same order: none is lost before the last one written, repeated or made up.
pub run_written_prefix :
    (setup : Setup) (es : List Event) → IsPrefix (written (run setup es new_session).1) (sent es)
run_written_prefix setup es = run_written setup es new_session
