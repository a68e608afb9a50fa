-- ===== src/Connector/Session.antt =====
-- handleCmd in connector/main.go: one session, as a state and a step for each event of its select
-- loop and of the goroutine that runs the process.
use kubernetes_csi_driver.Base.{
  Bool, true, false, ◌&&◌, List, [], ◌∷◌, ◌++◌, Option, none, some, if◌then◌else◌,
}
use kubernetes_csi_driver.Base.Integers.{ℤ}
use kubernetes_csi_driver.Text.{Str, lit}
use kubernetes_csi_driver.Protocol.{
  RequestDataCmd, InitKodoMountCmd, InitKodofsMountCmd, KodoUmountCmd, ExecCmd, ExecContext,
  exec_kodo, exec_kodofs,
}
use kubernetes_csi_driver.Connector.Requests.{Cmd, mount_kodofs, mount_kodo, send_data, umount_kodo}

-- The directories and the agent that main computes, and what the session calls of other code:
-- `filepath.Join`, `filepath.Dir` and `rcloneCacheId` (an MD5 sum).
pub record Setup : Type 0 where
  pub cache_dir : Str
  pub log_dir : Str
  pub config_dir : Str
  pub user_agent : Str
  pub join : List Str → Str
  pub dir : Str → Str
  pub cache_id : Str → Str
  pub random_name : Str

-- How the system answers while a command is handled.
pub record Answers : Type 0 where
  pub systemd_works : Bool
  pub config_saved : Bool
  pub cache_dir_made : Bool
  pub log_dir_made : Bool
  pub stdin_piped : Bool
  pub stdout_piped : Bool
  pub stderr_piped : Bool
  pub stdin_written : Bool

-- What a session does to the world.
pub data Action : Type 0 where
  save_config : InitKodoMountCmd → Str → Action
  make_dir : Str → Action
  start : ExecCmd → Action
  write_stdin : Str → Action
  remove_all : Str → Action
  remove : Str → Action
  send_terminate : ℤ → Action

-- `execCmd`, `rcloneConfigPath`, whether `stdin` is set, whether the run is followed by the removal
-- of the configuration, whether the process runs, and whether the loop has returned.
pub record Session : Type 0 where
  pub exec : Option ExecCmd
  pub rclone_config_path : Str
  pub has_stdin : Bool
  pub removes_config : Bool
  pub running : Bool
  pub returned : Bool

abbrev pub new_session : Session
new_session = record {
  exec = none;
  rclone_config_path = [];
  has_stdin = false;
  removes_config = false;
  running = false;
  returned = false;
}

pub data Event : Type 0 where
  -- A command arrives on cmdIn.
  command : Cmd → Answers → Event
  -- cmdIn is closed.
  closed : Event
  -- The process ends with an exit code.
  exited : ℤ → Event
  -- The loop sees that the context was cancelled.
  cancelled : Event

-- A return from the loop.
abbrev pub leave : Session → Session
leave s = record s { returned = true }

-- `execCommand`: false is a return from the loop.
unfoldable pub exec_command : ExecCmd → Bool → Answers → Session → Session × List Action
exec_command ec removes a s = elim s.exec [
  | some _ ↦ (leave s, [])
  | none ↦
      let s' = record s { exec = some ec } in
      if a.stdin_piped
      then (if a.stdout_piped && a.stderr_piped
          then (
            record s' { has_stdin = true; removes_config = removes; running = true },
            start ec ∷ [],
          )
          else (leave (record s' { has_stdin = true }), []))
      else (leave s', [])
]

module _ (setup : Setup) where
  -- `volumeCacheDir` and `rcloneLogFile`
  unfoldable pub volume_cache_dir : Str → Str → Str
  volume_cache_dir volume mount_path =
      setup.join (setup.cache_dir ∷ volume ∷ setup.cache_id mount_path ∷ [])

  unfoldable pub rclone_log_file : Str → Str → Str
  rclone_log_file volume mount_path =
      setup.join (setup.log_dir ∷ volume ∷ (setup.cache_id mount_path ++ lit ".log") ∷ [])

  -- The path of writeRcloneConfig.
  unfoldable pub config_path : Str → Str
  config_path volume = setup.join (setup.config_dir ∷ (volume ++ lit ".conf") ∷ [])

  unfoldable pub exec_context : InitKodoMountCmd → ExecContext
  exec_context c = record {
    config_file_path = config_path c.volume_id;
    user_agent = setup.user_agent;
    log_file_path = rclone_log_file c.volume_id c.mount_path;
    cache_dir_path = volume_cache_dir c.volume_id c.mount_path;
  }

  -- `case *protocol.InitKodoFSMountCmd`
  unfoldable pub handle_mount_kodofs :
      InitKodofsMountCmd → Answers → Session → Session × List Action
  handle_mount_kodofs c a s =
      let c' = record c { may_run_on_systemd = c.may_run_on_systemd && a.systemd_works } in
      exec_command (exec_kodofs c' setup.random_name) false a s

  -- `case *protocol.InitKodoMountCmd`
  unfoldable pub handle_mount_kodo : InitKodoMountCmd → Answers → Session → Session × List Action
  handle_mount_kodo c a s =
      let c' = record c { may_run_on_systemd = c.may_run_on_systemd && a.systemd_works } in
      let saved = save_config c' (config_path c.volume_id) in
      let cache = make_dir (volume_cache_dir c.volume_id c.mount_path) in
      let log = make_dir (setup.dir (rclone_log_file c.volume_id c.mount_path)) in
      let s' = record s { rclone_config_path = config_path c.volume_id } in
      if a.config_saved
      then (if a.cache_dir_made
          then (if a.log_dir_made
              then (let r =
                    exec_command (exec_kodo c' (exec_context c') setup.random_name) true a s' in
                  (r.0, saved ∷ cache ∷ log ∷ r.1))
              else (leave s', saved ∷ cache ∷ []))
          else (leave s', saved ∷ []))
      else (leave s', [])

  -- `case *protocol.KodoUmountCmd`
  unfoldable pub handle_umount : KodoUmountCmd → List Action
  handle_umount c =
      let cache = volume_cache_dir c.volume_id c.mount_path in
      let log = rclone_log_file c.volume_id c.mount_path in
      remove_all cache ∷ remove log ∷ remove (setup.dir log) ∷ remove (setup.dir cache) ∷ []

  -- `case *protocol.RequestDataCmd`
  unfoldable pub handle_data : RequestDataCmd → Answers → Session → Session × List Action
  handle_data c a s =
      if s.has_stdin
      then (if a.stdin_written then (s, write_stdin c.text ∷ []) else (leave s, []))
      else (leave s, [])

  unfoldable pub handle_command : Cmd → Answers → Session → Session × List Action
  handle_command (mount_kodofs c) a s = handle_mount_kodofs c a s
  handle_command (mount_kodo c) a s = handle_mount_kodo c a s
  handle_command (umount_kodo c) a s = (s, handle_umount c)
  handle_command (send_data c) a s = handle_data c a s

  -- The goroutine after `execCmd.Run()`: clean up, and tell the plugin unless the loop has
  -- returned.
  unfoldable pub handle_exit : ℤ → Session → Session × List Action
  handle_exit code s =
      if s.running
      then (
        record s { running = false },
        (if s.removes_config then remove s.rclone_config_path ∷ [] else [])
            ++ (if s.returned then [] else send_terminate code ∷ []),
      )
      else (s, [])

  -- One event; a session that has returned receives nothing more from its channels.
  unfoldable pub step : Event → Session → Session × List Action
  step (exited code) s = handle_exit code s
  step (command c a) s = if s.returned then (s, []) else handle_command c a s
  step closed s = (leave s, [])
  step cancelled s = (leave s, [])

  -- A run of events, with all that it does.
  unfoldable pub run : List Event → Session → Session × List Action
  run [] s = (s, [])
  run (e ∷ es) s = let t = step e s in let u = run es t.0 in (u.0, t.1 ++ u.1)
