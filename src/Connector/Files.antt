-- ===== src/Connector/Files.antt =====
-- connector/utils.go: the configuration of rclone, and the checks of files and directories.
use kubernetes_csi_driver.Base.{
  ℕ, List, [], ◌∷◌, ◌++◌, Option, none, some, Result, ok, err, if◌then◌else◌,
}
use kubernetes_csi_driver.Text.{Str, lit, str_eq, format_uint, format_bool}
use kubernetes_csi_driver.Protocol.{InitKodoMountCmd, format_byte_size}

-- The entries of one section, in the order of the calls of `SetValue`.
abbrev pub ConfigSection : Type 0
ConfigSection = List (Str × Str)

-- `config.SetValue` under an `if` on a pointer.
unfoldable pub optional_value : Str → Option Str → ConfigSection
optional_value key none = []
optional_value key (some value) = (key, value) ∷ []

unfoldable pub size_text : Option ℕ → Option Str
size_text none = none
size_text (some n) = some (format_byte_size n)

unfoldable pub number_text : Option ℕ → Option Str
number_text none = none
number_text (some n) = some (format_uint n)

-- The section that writeRcloneConfig fills for the volume.
unfoldable pub rclone_section : InitKodoMountCmd → ConfigSection
rclone_section c =
    (lit "type", lit "s3")
    ∷ (lit "provider", lit "Qiniu")
    ∷ (lit "access_key_id", c.access_key)
    ∷ (lit "secret_access_key", c.secret_key)
    ∷ (lit "region", c.s3_region)
    ∷ (lit "endpoint", c.s3_endpoint)
    ∷ (lit "location_constraint", c.s3_region)
    ∷ (lit "acl", lit "public-read-write")
    ∷ (lit "storage_class", c.storage_class)
    ∷ (lit "no_check_bucket", lit "true")
    ∷ (lit "force_path_style", format_bool c.s3_force_path_style)
    ∷ (optional_value (lit "chunk_size") (size_text c.upload_chunk_size)
        ++ (optional_value (lit "upload_cutoff") (size_text c.upload_cutoff)
            ++ optional_value (lit "upload_concurrency") (number_text c.upload_concurrency)))

-- `writeRcloneConfig`: `path_of` is `filepath.Join(rcloneConfigDir, …)`, and `saved` the answer of
-- SaveConfigFile for a path, a section name and its entries.
unfoldable pub write_rclone_config :
    {E : Type 0}
    → (Str → Str)
    → (Str → Str → ConfigSection → Result E (Unit {0}))
    → InitKodoMountCmd
    → Str × Result E (Unit {0})
write_rclone_config path_of saved c =
    let path = path_of (c.volume_id ++ lit ".conf") in
    (path, saved path c.volume_id (rclone_section c))

-- The value of a key: what rclone reads.
unfoldable pub config_value : Str → ConfigSection → Option Str
config_value key [] = none
config_value key ((k, v) ∷ s) =
    let rest = config_value key s in if str_eq k key then some v else rest

-- What `os.Stat` says of a path.
pub data FileStat (E : Type 0) : Type 0 where
  absent : FileStat E
  stat_failed : E → FileStat E
  is_directory : FileStat E
  is_file : FileStat E

-- How a check ends: a panic is the use of a nil `fileInfo`.
pub data CheckOutcome (E : Type 0) : Type 0 where
  passed : CheckOutcome E
  failed : E → CheckOutcome E
  not_a_directory : CheckOutcome E
  panics : CheckOutcome E

unfoldable pub outcome_of : {E : Type 0} → Result E (Unit {0}) → CheckOutcome E
outcome_of (ok _) = passed
outcome_of (err e) = failed e

-- `ensureDirectoryExists`, with the answer of `os.MkdirAll`.
unfoldable pub ensure_directory_exists :
    {E : Type 0} → FileStat E → Result E (Unit {0}) → CheckOutcome E
ensure_directory_exists absent made = outcome_of made
ensure_directory_exists (stat_failed e) made = panics
ensure_directory_exists is_directory made = passed
ensure_directory_exists is_file made = not_a_directory

-- `ensureFileNotExists`, with the answer of `os.Remove`.
unfoldable pub ensure_file_not_exists :
    {E : Type 0} → FileStat E → Result E (Unit {0}) → CheckOutcome E
ensure_file_not_exists absent removed = passed
ensure_file_not_exists _ removed = outcome_of removed

-- `useSystemdOrNot`: the answers of `exec.LookPath` and of a run of systemd-run.
unfoldable pub use_systemd_or_not :
    {E : Type 0} → Result E Str → Result E (Unit {0}) → Result E (Unit {0})
use_systemd_or_not (err e) run = err e
use_systemd_or_not (ok path) run = run

-- `rcloneCacheId`: what is hashed, and its hash by `md5` as hexadecimal text.
unfoldable pub cache_id_input : List Str → Str
cache_id_input [] = []
cache_id_input (item ∷ items) = item ++ (0 ∷ cache_id_input items)

unfoldable pub rclone_cache_id : (Str → Str) → List Str → Str
rclone_cache_id md5_hex items = md5_hex (cache_id_input items)
