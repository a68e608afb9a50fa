-- ===== src/Connector/Startup.antt =====
-- main in connector/main.go until it accepts connections, with userLogDir, ensureCommandExists and
-- getRcloneVersion in connector/utils.go.
pub mod Ready
use kubernetes_csi_driver.Base.{
  Bool, true, false, List, [], ◌∷◌, ◌++◌, Option, none, some, Result, ok, err, ◌>>=◌, if◌then◌else◌,
}
use kubernetes_csi_driver.Text.{Str, lit, str_eq, is_blank}
use kubernetes_csi_driver.Protocol.{kodofs_path, rclone_path}
use kubernetes_csi_driver.Connector.Files.{
  FileStat, CheckOutcome, passed, failed, not_a_directory, panics, ensure_directory_exists,
  ensure_file_not_exists,
}

abbrev pub log_file : Str
log_file = lit "/var/log/qiniu/storage/csi-plugin/connector.log"

abbrev pub pid_file : Str
pid_file = lit "/var/lib/qiniu/storage/csi-plugin/connector.pid"

abbrev pub socket_path : Str
socket_path = lit "/var/lib/qiniu/storage/csi-plugin/connector.sock"

-- How main ends before it serves: `os.Exit`, a panic, or the return of the parent process.
pub data Halt : Type 0 where
  exits_with_0 exits_with_1 crashes returns_to_shell : Halt

-- What main uses of the system, with `runtime.GOOS`, `os.Getenv` and the packages `filepath`,
-- `exec`, `regexp`, `go-daemon` and `net`.
pub record Host (E : Type 0) : Type 0 where
  pub goos : Str
  pub env : Str → Str
  pub temp_dir : Str
  pub join : List Str → Str
  pub dir : Str → Str
  pub stat : Str → FileStat E
  pub made : Str → Result E (Unit {0})
  pub removed : Str → Result E (Unit {0})
  pub user_config_dir : Result E Str
  pub user_cache_dir : Result E Str
  pub look_path : Str → Result E Str
  -- The output of `rclone version`, and the first group of a match of each expression.
  pub version_output : Result E Str
  pub rclone_version_in : Str → Option Str
  pub os_version_in : Str → Option Str
  pub os_kernel_in : Str → Option Str
  -- Whether this is the parent process.
  pub reborn : Result E Bool
  pub listened : Str → Result E (Unit {0})

-- The flag and the variables of the build.
pub record Build : Type 0 where
  pub is_test : Bool
  pub version : Str
  pub commit_id : Str

-- What the sessions use: `rcloneConfigDir`, `rcloneCacheDir`, `rcloneLogDir`, `userAgent`.
pub record Serving : Type 0 where
  pub config_dir : Str
  pub cache_dir : Str
  pub log_dir : Str
  pub user_agent : Str

-- `if err = …; err != nil { …; os.Exit(1) }`
unfoldable pub require_passed : {E : Type 0} → CheckOutcome E → Result Halt (Unit {0})
require_passed passed = ok tt
require_passed (failed e) = err exits_with_1
require_passed not_a_directory = err exits_with_1
require_passed panics = err crashes

unfoldable pub require_ok : {E A : Type 0} → Result E A → Result Halt A
require_ok (ok a) = ok a
require_ok (err e) = err exits_with_1

unfoldable pub if_blank : {E : Type 0} → E → Str → Str → Result E Str
if_blank e s suffix = if is_blank s then err e else ok (s ++ suffix)

unfoldable pub text_or_blank : Option Str → Str
text_or_blank none = []
text_or_blank (some s) = s

module _ {E : Type 0} (undefined : Str → E) (host : Host E) where
  -- `userLogDir`; `undefined` is the error that a variable is not defined.
  unfoldable pub user_log_dir : Result E Str
  user_log_dir =
      if str_eq host.goos (lit "windows")
      then if_blank (undefined (lit "%LocalAppData%")) (host.env (lit "LocalAppData")) []
      else if str_eq host.goos (lit "darwin")
      then if_blank (undefined (lit "$HOME")) (host.env (lit "HOME")) (lit "/Library/Logs")
      else if str_eq host.goos (lit "ios")
      then if_blank (undefined (lit "$HOME")) (host.env (lit "HOME")) (lit "/Library/Logs")
      else if str_eq host.goos (lit "plan9")
      then if_blank (undefined (lit "$home")) (host.env (lit "home")) (lit "/lib/log")
      else ok (lit "/var/log")

  -- A directory of the user, or one under the temporary directory.
  unfoldable pub rclone_dir : Result E Str → Str → Str
  rclone_dir (ok d) what = host.join (d ∷ lit "rclone" ∷ [])
  rclone_dir (err e) what = host.join (host.temp_dir ∷ lit ".rclone" ∷ what ∷ [])

  -- `ensureDirectoryExists` and `ensureFileNotExists` under their `if`
  unfoldable pub require_directory : Str → Result Halt (Unit {0})
  require_directory path =
      require_passed (ensure_directory_exists (host.stat path) (host.made path))

  unfoldable pub require_no_file : Str → Result Halt (Unit {0})
  require_no_file path =
      require_passed (ensure_file_not_exists (host.stat path) (host.removed path))

  -- `ensureCommandExists`
  unfoldable pub require_command : Str → Result Halt (Unit {0})
  require_command name = do _ ← require_ok (host.look_path name); ok tt

  -- `getRcloneVersion` and the text of `userAgent`
  unfoldable pub user_agent : Build → Str → Str
  user_agent build output =
      lit "QiniuCSIDriver/"
      ++ (build.version
          ++ (lit "/"
              ++ (build.commit_id
                  ++ (lit "/rclone/"
                      ++ (text_or_blank (host.rclone_version_in output)
                          ++ (lit "/"
                              ++ (text_or_blank (host.os_version_in output)
                                  ++ (lit "/" ++ text_or_blank (host.os_kernel_in output)))))))))

  -- The directories and commands that main asks for before it looks at the flag -test.
  unfoldable pub check_host : Build → Result Halt Serving
  check_host build = do
    _ ← require_directory (host.dir log_file)
    _ ← require_directory (host.dir pid_file)
    _ ← require_directory (host.dir socket_path)
    let config = rclone_dir host.user_config_dir (lit "config")
    let cache = rclone_dir host.user_cache_dir (lit "cache")
    let log = rclone_dir user_log_dir (lit "log")
    _ ← require_directory config
    _ ← require_directory cache
    _ ← require_directory log
    _ ← require_command (kodofs_path)
    _ ← require_command (rclone_path)
    _ ← require_command (lit "fusermount3")
    output ← require_ok host.version_output
    ok (record {
      config_dir = config;
      cache_dir = cache;
      log_dir = log;
      user_agent = user_agent build output;
    })

  -- The daemon: the child process listens.
  unfoldable pub serve : Serving → Result Halt Serving
  serve found = do
    is_parent ← require_ok host.reborn
    if is_parent then err returns_to_shell else (do
      _ ← require_directory (host.dir socket_path)
      _ ← require_no_file socket_path
      _ ← require_ok (host.listened socket_path)
      ok found)

  -- `main`
  unfoldable pub start_connector : Build → Result Halt Serving
  start_connector build = do
    found ← check_host build
    if build.is_test then err exits_with_0 else serve found
