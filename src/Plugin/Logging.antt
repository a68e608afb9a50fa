-- ===== src/Plugin/Logging.antt =====
-- setLogAttribute in plugin/utils.go.
use kubernetes_csi_driver.Base.{
  ℕ, ◌*◌, Bool, false, not, ◌&&◌, List, [], ◌∷◌, ◌++◌, Option, none, some, ltb, if◌then◌else◌,
}
use kubernetes_csi_driver.Text.{Str, lit, str_eq, to_lower}

-- Where the log goes: the standard output, a file, or both.
pub data LogOutput : Type 0 where
  standard : LogOutput
  file both : Str → LogOutput

-- What the system answers: the variable LOG_TYPE, `filepath.Join` with the directory of the logs,
-- whether the file is opened, its size, the time in the name of the old file, and whether the file
-- is opened again.
pub record LogAnswers : Type 0 where
  pub log_type : Str
  pub join : Str → Str
  pub opened : Bool
  pub size : Option ℕ
  pub time_text : Str
  pub opened_again : Bool

unfoldable pub log_type_of : Str → Str
log_type_of text =
    let t = to_lower text in
    if not (str_eq t (lit "stdout")) && not (str_eq t (lit "host")) then lit "both" else t

unfoldable pub is_too_large : Option ℕ → Bool
is_too_large none = false
is_too_large (some size) = ltb (2 * 1024 * 1024) size

unfoldable pub log_output : Str → Str → LogOutput
log_output log_type path = if str_eq log_type (lit "both") then both path else file path

-- `setLogAttribute`, with the renaming of the old file; `none` is `os.Exit(1)`.
unfoldable pub set_log_attribute : LogAnswers → Str → Option (LogOutput × List (Str × Str))
set_log_attribute a driver_name =
    let log_type = log_type_of a.log_type in
    let path = a.join (driver_name ++ lit "plugin.log") in
    let old = a.join (driver_name ++ (lit "plugin" ++ (a.time_text ++ lit ".log"))) in
    if str_eq log_type (lit "stdout")
    then some (standard, [])
    else if a.opened
    then (if is_too_large a.size
        then (if a.opened_again then some (log_output log_type path, (path, old) ∷ []) else none)
        else some (log_output log_type path, []))
    else none
