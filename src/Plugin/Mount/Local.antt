-- ===== src/Plugin/Mount/Local.antt =====
-- mountKodoFSLocally in plugin/utils.go: it runs kodofs itself and answers its questions.
use kubernetes_csi_driver.Base.{
  false, List, [], ◌∷◌, ◌++◌, Option, none, some, if◌then◌else◌, Result, ok, err,
}
use kubernetes_csi_driver.Text.{Str, lit, contains}
use kubernetes_csi_driver.Protocol.{InitKodofsMountCmd, ExecCmd, exec_kodofs}

-- How a local mount ends.
pub data LocalError (E : Type 0) : Type 0 where
  no_stdin no_stdout no_stderr run_failed : E → LocalError E

-- What the system answers: whether the three pipes are made, and how the command ends.
pub record LocalAnswers (E : Type 0) : Type 0 where
  pub stdin_piped : Result E (Unit {0})
  pub stdout_piped : Result E (Unit {0})
  pub stderr_piped : Result E (Unit {0})
  pub command_run : ExecCmd → Result E (Unit {0})

-- The command, which is never run on systemd.
unfoldable pub local_command : Str → Str → Str → Str → InitKodofsMountCmd
local_command volume_id gateway_id mount_path sub_dir = record {
  volume_id = volume_id;
  gateway_id = gateway_id;
  mount_path = mount_path;
  sub_dir = sub_dir;
  may_run_on_systemd = false;
}

-- The goroutine over the output: what it writes to the standard input. The errors of these writes
-- are ignored.
unfoldable pub local_answer : Str → Str → Str → Option Str
local_answer master_address access_token text =
    if contains text
      (lit "please enter the master address(separate multiple addresses with commas):")
    then some (master_address ++ lit "\n")
    else if contains text (lit "please enter the AccessToken:")
    then some (access_token ++ lit "\n")
    else none

unfoldable pub local_answers : Str → Str → List Str → List Str
local_answers master_address access_token [] = []
local_answers master_address access_token (text ∷ texts) =
    let rest = local_answers master_address access_token texts in
    elim (local_answer master_address access_token text) [ none ↦ rest | some a ↦ a ∷ rest ]

-- `mountKodoFSLocally`
unfoldable pub mount_locally :
    {E : Type 0} → LocalAnswers E → Str → InitKodofsMountCmd → Result (LocalError E) (Unit {0})
mount_locally a random_name c = elim a.stdin_piped [
  | err e ↦ err (no_stdin e)
  | ok _ ↦ elim a.stdout_piped [
    | err e ↦ err (no_stdout e)
    | ok _ ↦ elim a.stderr_piped [
      | err e ↦ err (no_stderr e)
      | ok _ ↦ elim (a.command_run (exec_kodofs c random_name)) [
        | err e ↦ err (run_failed e)
        | ok _ ↦ ok tt
      ]
    ]
  ]
]
