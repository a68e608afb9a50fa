-- ===== src/Tests/Sessions.antt =====
-- A Kodo mount on the connector, and what the plugin reports of it.
use kubernetes_csi_driver.Base.{
  ◌≤◌, ◌≡◌, refl, true, false, List, [], ◌∷◌, Option, none, some, ok, ◌==◌, if◌then◌else◌,
}
use kubernetes_csi_driver.Base.Integers.{ℤ, pos, negsuc}
use kubernetes_csi_driver.Text.{Str, lit}
use kubernetes_csi_driver.Protocol.{
  TerminateCmd, RequestDataCmd, InitKodoMountCmd, terminate_name, response_data_name,
}
use kubernetes_csi_driver.Connector.{
  Setup, Answers, Event, command, exited, cancelled, mount_kodo, send_data, new_session, run,
}
use kubernetes_csi_driver.Connector.Lifecycle.{starts, terminates, run_once}
use kubernetes_csi_driver.Connector.Input.{IsPrefix, sent, written, run_written_prefix}
use kubernetes_csi_driver.Plugin.Mount.{Decoders, Incoming, kodo_loop, make_request}
use kubernetes_csi_driver.Plugin.Mount.Verdict.{IsResponse, IsTerminate}
use kubernetes_csi_driver.Plugin.Mount.Session.{messages, AllWorks, failed_mount_reported}

abbrev pub setup : Setup
setup = record {
  cache_dir = lit "/var/cache";
  log_dir = lit "/var/log";
  config_dir = lit "/var/config";
  user_agent = lit "qiniu";
  join = λ parts. lit "/joined";
  dir = λ path. lit "/joined";
  cache_id = λ path. lit "0f";
  random_name = lit "abcdefgh";
}

abbrev pub good : Answers
good = record {
  systemd_works = true;
  config_saved = true;
  cache_dir_made = true;
  log_dir_made = true;
  stdin_piped = true;
  stdout_piped = true;
  stderr_piped = true;
  stdin_written = true;
}

abbrev disk_full : Answers
disk_full = record good { config_saved = false }

abbrev mount : InitKodoMountCmd
mount = record {
  volume_id = lit "pv-1";
  mount_path = lit "/mnt";
  sub_dir = [];
  access_key = lit "ak";
  secret_key = lit "sk";
  bucket_id = lit "b1";
  s3_region = lit "cn-east-1";
  s3_endpoint = lit "https://s3";
  s3_force_path_style = false;
  storage_class = lit "STANDARD";
  vfs_cache_mode = lit "off";
  dir_cache_duration = [];
  buffer_size = some 4096;
  vfs_cache_max_age = [];
  vfs_cache_poll_interval = [];
  vfs_write_back = [];
  vfs_cache_max_size = none;
  vfs_read_ahead = none;
  vfs_fast_finger_print = false;
  vfs_read_chunk_size = none;
  vfs_read_chunk_size_limit = none;
  no_check_sum = false;
  no_mod_time = false;
  no_seek = false;
  read_only = true;
  vfs_read_wait = [];
  vfs_write_wait = [];
  transfers = none;
  vfs_disk_space_total_size = none;
  upload_cutoff = none;
  upload_chunk_size = none;
  upload_concurrency = none;
  write_back_cache = false;
  debug_http = false;
  debug_fuse = false;
  may_run_on_systemd = false;
}

abbrev hello : RequestDataCmd
hello = record { text = lit "hello" }

-- A mount that starts, gets a line, and a second mount command that is refused.
abbrev session : List Event
session =
    command (mount_kodo mount) good
    ∷ command (send_data hello) good
    ∷ command (mount_kodo mount) good
    ∷ exited (pos 0)
    ∷ []

run_once_example :
    (starts (run setup session new_session).1 ≤ 1)
    × (terminates (run setup session new_session).1 ≤ starts (run setup session new_session).1)
run_once_example = run_once setup session

run_written_prefix_example : IsPrefix (written (run setup session new_session).1) (sent session)
run_written_prefix_example = run_written_prefix setup session

-- Exit codes 0, 1 and so on as one byte of text.
abbrev pub marshal : TerminateCmd → Str
marshal t = elim t.code [ pos n ↦ 0 ∷ n ∷ [] | negsuc n ↦ 1 ∷ n ∷ [] ]

abbrev unmarshal : Str → Option TerminateCmd
unmarshal (tag ∷ n ∷ []) = some (record { code = if tag == 0 then pos n else negsuc n })
unmarshal _ = none

abbrev pub json : Decoders
json = record {
  response = λ s. some (record { is_error = false; text = s });
  terminate = unmarshal;
}

unmarshal-code : (c : ℤ) → unmarshal (marshal (record { code = c })) ≡ some (record { code = c })
unmarshal-code (pos n) = refl
unmarshal-code (negsuc n) = refl

pub unmarshal-marshal : (t : TerminateCmd) → json.terminate (marshal t) ≡ some t
unmarshal-marshal t = unmarshal-code t.code

abbrev failed : Incoming
failed = record {
  request = some (make_request terminate_name (marshal (record { code = pos 1 })));
  writable = true;
}

abbrev output : Incoming
output = record { request = some (make_request response_data_name (lit "out")); writable = true }

output-IsResponse : IsResponse json output
unfolding make_request
output-IsResponse = record {
  request = make_request response_data_name (lit "out");
  body = record { is_error = false; text = lit "out" };
  decoded = refl;
  version = refl;
  cmd = refl;
  payload = refl;
}

failed-IsTerminate : IsTerminate json failed (pos 1)
unfolding make_request
failed-IsTerminate = record {
  request = make_request terminate_name (marshal (record { code = pos 1 }));
  body = record { code = pos 1 };
  decoded = refl;
  version = refl;
  cmd = refl;
  payload = refl;
  exit_code = refl;
}

failed_mount_reported_example :
    kodo_loop json (
      messages json marshal
        (run setup (command (mount_kodo mount) disk_full ∷ cancelled ∷ []) new_session).1)
    ≡ ok tt
failed_mount_reported_example =
    failed_mount_reported json marshal setup mount disk_full (cancelled ∷ []) refl

pub good-AllWorks : AllWorks json marshal good
good-AllWorks = record {
  config = refl;
  cache = refl;
  log = refl;
  stdin = refl;
  stdout = refl;
  stderr = refl;
}
