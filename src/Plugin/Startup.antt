-- ===== src/Plugin/Startup.antt =====
-- main in plugin/main.go and the drivers of plugin/driver.go, with ensureCommandExists in
-- plugin/utils.go.
pub mod Drivers
use kubernetes_csi_driver.Base.{
  Bool, true, false, ◌||◌, Option, none, some, Result, ok, err, ◌>>=◌, if◌then◌else◌,
}
use kubernetes_csi_driver.Base.Integers.{ℤ, is_zero}
use kubernetes_csi_driver.Text.{Str, lit, str_eq}
use kubernetes_csi_driver.Plugin.Logging.{LogAnswers, set_log_attribute}
use kubernetes_csi_driver.Plugin.Node.Mounts.{Stat, DirectoryError, ensure_directory_created}

unfoldable pub kodo_driver_name : Str
kodo_driver_name = lit "kodo"

unfoldable pub kodofs_driver_name : Str
kodofs_driver_name = lit "kodofs"

unfoldable pub type_plugin_kodo : Str
type_plugin_kodo = lit "kodoplugin.storage.qiniu.com"

unfoldable pub type_plugin_kodofs : Str
type_plugin_kodofs = lit "kodofsplugin.storage.qiniu.com"

-- The controller server and the node server that `Run` registers.
pub data Servers : Type 0 where
  kodo_servers kodofs_servers : Servers

-- `KodoDriver` and `KodoFSDriver`, with the arguments of `NewCSIDriver`. Both have the same access
-- mode and the same capabilities.
pub record Driver : Type 0 where
  pub plugin_name : Str
  pub version : Str
  pub node_id : Str
  pub endpoint : Str
  pub servers : Servers

unfoldable pub new_kodo_driver : Str → Str → Str → Driver
new_kodo_driver node_id endpoint version = record {
  plugin_name = type_plugin_kodo;
  version = version;
  node_id = node_id;
  endpoint = endpoint;
  servers = kodo_servers;
}

unfoldable pub new_kodofs_driver : Str → Str → Str → Driver
new_kodofs_driver node_id endpoint version = record {
  plugin_name = type_plugin_kodofs;
  version = version;
  node_id = node_id;
  endpoint = endpoint;
  servers = kodofs_servers;
}

-- The flags, of which no pointer is nil.
pub record Flags : Type 0 where
  pub endpoint : Str
  pub node_id : Str
  pub driver_name : Str
  pub health_port : ℤ

-- What main uses of the system, `csicommon.ParseEndpoint` and `strconv.Atoi`.
pub record PluginHost (E : Type 0) : Type 0 where
  pub log : LogAnswers
  pub look_path : Str → Result E Str
  pub parse_endpoint : Str → Result E (Str × Str)
  pub dir : Str → Str
  pub stat : Str → Stat E
  pub made : Str → Result E (Unit {0})
  pub service_port : Str
  pub atoi : Str → Option ℤ

-- The messages before `os.Exit(1)`.
pub data StartError (E : Type 0) : Type 0 where
  wrong_driver no_log : StartError E
  no_umount invalid_endpoint : E → StartError E
  no_endpoint_directory : DirectoryError E → StartError E

-- The driver that runs, and the port of the health check.
pub record Started : Type 0 where
  pub driver : Driver
  pub port : ℤ

-- `servicePort, err := strconv.Atoi(…); if err != nil || servicePort == 0 { … }`
unfoldable pub port_of : Option ℤ → ℤ → ℤ
port_of none health_port = health_port
port_of (some port) health_port = if is_zero port then health_port else port

module _ {E : Type 0} (host : PluginHost E) where
  unfoldable pub check_driver_name : Str → Result (StartError E) (Unit {0})
  check_driver_name name =
      if str_eq name kodo_driver_name || str_eq name kodofs_driver_name
      then ok tt
      else err wrong_driver

  -- `setLogAttribute(*driverName)`
  unfoldable pub check_log : Str → Result (StartError E) (Unit {0})
  check_log name = elim (set_log_attribute host.log name) [ none ↦ err no_log | some _ ↦ ok tt ]

  -- `ensureCommandExists("umount")`
  unfoldable pub check_umount : Result (StartError E) (Unit {0})
  check_umount = elim (host.look_path (lit "umount")) [ err e ↦ err (no_umount e) | ok _ ↦ ok tt ]

  unfoldable pub check_directory : Str → Result (StartError E) (Unit {0})
  check_directory path = elim (ensure_directory_created (host.stat path) (host.made path)) [
    | err e ↦ err (no_endpoint_directory e)
    | ok _ ↦ ok tt
  ]

  unfoldable pub check_endpoint : Str → Result (StartError E) (Unit {0})
  check_endpoint endpoint = elim (host.parse_endpoint endpoint) [
    | err e ↦ err (invalid_endpoint e)
    | ok (proto, addr) ↦
        if str_eq proto (lit "unix") then check_directory (host.dir addr) else ok tt
  ]

  -- The second switch over the name.
  unfoldable pub new_driver : Flags → Str → Result (StartError E) Driver
  new_driver flags version =
      if str_eq flags.driver_name kodo_driver_name
      then ok (new_kodo_driver flags.node_id flags.endpoint version)
      else if str_eq flags.driver_name kodofs_driver_name
      then ok (new_kodofs_driver flags.node_id flags.endpoint version)
      else err wrong_driver

  -- `main`
  unfoldable pub start_plugin : Flags → Str → Result (StartError E) Started
  start_plugin flags version = do
    _ ← check_driver_name flags.driver_name
    _ ← check_log flags.driver_name
    _ ← check_umount
    _ ← check_endpoint flags.endpoint
    driver ← new_driver flags version
    ok (record { driver = driver; port = port_of (host.atoi host.service_port) flags.health_port })
