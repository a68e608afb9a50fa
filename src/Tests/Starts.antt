-- ===== src/Tests/Starts.antt =====
-- Both programs on a host that has all they need.
use kubernetes_csi_driver.Base.{
  ◌≡◌, ◌↔◌, refl, false, List, [], ◌∷◌, none, some, ok, ℕ, if◌then◌else◌,
}
use kubernetes_csi_driver.Base.Integers.{pos}
use kubernetes_csi_driver.Text.{Str, lit, str_eq, to_lower}
use kubernetes_csi_driver.Connector.Files.{
  is_directory, absent, ensure_directory_exists, ensure_file_not_exists, outcome_of,
}
use kubernetes_csi_driver.Connector.Startup.{
  Host, Build, Serving, socket_path, require_passed, require_ok, text_or_blank, user_log_dir,
  rclone_dir, require_directory, require_no_file, require_command, user_agent, check_host, serve,
  start_connector,
}
use kubernetes_csi_driver.Connector.Startup.Ready.{IsChecked, IsListening, start_connector_ready}
use kubernetes_csi_driver.Plugin.Node.Mounts.{directory, ensure_directory_created}
use kubernetes_csi_driver.Plugin.Logging.{set_log_attribute, log_type_of}
use kubernetes_csi_driver.Plugin.Startup.{
  kodo_driver_name, kodofs_driver_name, new_kodo_driver, Flags, PluginHost, Started, port_of,
  check_driver_name, check_log, check_umount, check_directory, check_endpoint, new_driver,
  start_plugin,
}

abbrev host : Host Str
host = record {
  goos = lit "linux";
  env = λ name. [];
  temp_dir = lit "/tmp";
  join = λ parts. lit "/root/rclone";
  dir = λ path. lit "/var";
  stat = λ path. if str_eq path socket_path then absent else is_directory;
  made = λ path. ok tt;
  removed = λ path. ok tt;
  user_config_dir = ok (lit "/root/.config");
  user_cache_dir = ok (lit "/root/.cache");
  look_path = λ name. ok name;
  version_output = ok (lit "rclone v1.63");
  rclone_version_in = λ text. some (lit "v1.63");
  os_version_in = λ text. none;
  os_kernel_in = λ text. none;
  reborn = ok false;
  listened = λ path. ok tt;
}

abbrev build : Build
build = record { is_test = false; version = lit "1"; commit_id = lit "c" }

abbrev serving : Serving
serving = record {
  config_dir = lit "/root/rclone";
  cache_dir = lit "/root/rclone";
  log_dir = lit "/root/rclone";
  user_agent = lit "QiniuCSIDriver/1/c/rclone/v1.63//";
}

connector_starts : start_connector (λ v. v) host build ≡ ok serving
unfolding start_connector check_host serve require_directory require_no_file require_command
    require_passed require_ok ensure_directory_exists ensure_file_not_exists outcome_of rclone_dir
    user_log_dir user_agent text_or_blank str_eq
connector_starts = refl

start_connector_ready_example :
    (start_connector (λ v. v) host build ≡ ok serving)
    ↔ ((false ≡ false) × IsChecked (λ v. v) host build serving × IsListening (λ v. v) host)
start_connector_ready_example = start_connector_ready (λ v. v) host build serving

abbrev plugin_host : PluginHost Str
plugin_host = record {
  log = record {
    log_type = lit "stdout";
    join = λ name. name;
    opened = false;
    size = none;
    time_text = [];
    opened_again = false;
  };
  look_path = λ name. ok name;
  parse_endpoint = λ endpoint. ok (lit "unix", endpoint);
  dir = λ path. lit "/csi";
  stat = λ path. directory;
  made = λ path. ok tt;
  service_port = [];
  atoi = λ text. none;
}

abbrev flags : Flags
flags = record {
  endpoint = lit "/csi/csi.sock";
  node_id = [];
  driver_name = lit "kodo";
  health_port = pos 11260;
}

abbrev plugin : Started
plugin = record { driver = new_kodo_driver [] (lit "/csi/csi.sock") (lit "1"); port = pos 11260 }

plugin_starts : start_plugin plugin_host flags (lit "1") ≡ ok plugin
unfolding start_plugin check_driver_name check_log set_log_attribute log_type_of check_umount
    check_endpoint check_directory ensure_directory_created new_driver port_of str_eq to_lower
    kodo_driver_name kodofs_driver_name
plugin_starts = refl

abbrev draws : List ℕ
draws = 0 ∷ 35 ∷ []
