-- ===== src/Plugin/Kodo/StorageClass.antt =====
-- `kodoStorageClassParameter` and `parseKodoStorageClassParameter`.
use kubernetes_csi_driver.Base.{
  Bool, false, [], Option, none, some, ℕ, Result, ok, err, ◌>>=◌, range_loop,
}
use kubernetes_csi_driver.Text.{Str, lit, trim_space}
use kubernetes_csi_driver.Plugin.Fields.{
  Field, field_of, name, sub_dir, s3_force_path_style, uc_endpoint, storage_class, vfs_cache_mode,
  dir_cache_duration, buffer_size, vfs_cache_max_age, vfs_cache_poll_interval, vfs_write_back,
  vfs_cache_max_size, vfs_read_ahead, vfs_fast_finger_print, vfs_read_chunk_size,
  vfs_read_chunk_size_limit, no_checksum, no_mod_time, no_seek, read_only, vfs_read_wait,
  vfs_write_wait, transfers, vfs_disk_space_total_size, write_back_cache, upload_cutoff,
  upload_chunk_size, upload_concurrency, debug_http, debug_fuse, access_key, secret_key, region,
}
use kubernetes_csi_driver.Plugin.Values.{
  GoLib, ParseError, unrecognized, is_empty, StrMap, lookup, VfsCacheMode, unset, parse_mode,
  want_bool, want_uint, want_url, want_duration, text_or_fail, text_or_default,
}

pub record KodoStorageClassParameter (Url Duration : Type 0) : Type 0 where
  pub access_key : Str
  pub secret_key : Str
  pub region : Str
  pub uc_endpoint : Option Url
  pub storage_class : Str
  pub sub_dir : Str
  pub s3_force_path_style : Option Bool
  pub dir_cache_duration : Option Duration
  pub buffer_size : Option ℕ
  pub vfs_cache_mode : VfsCacheMode
  pub vfs_cache_max_age : Option Duration
  pub vfs_cache_poll_interval : Option Duration
  pub vfs_write_back : Option Duration
  pub vfs_cache_max_size : Option ℕ
  pub vfs_read_ahead : Option ℕ
  pub vfs_fast_fingerprint : Bool
  pub vfs_read_chunk_size : Option ℕ
  pub vfs_read_chunk_size_limit : Option ℕ
  pub no_checksum : Bool
  pub no_mod_time : Bool
  pub no_seek : Bool
  pub read_only : Bool
  pub vfs_read_wait : Option Duration
  pub vfs_write_wait : Option Duration
  pub transfers : Option ℕ
  pub vfs_disk_space_total_size : Option ℕ
  pub upload_cutoff : Option ℕ
  pub upload_chunk_size : Option ℕ
  pub upload_concurrency : Option ℕ
  pub write_back_cache : Bool
  pub debug_http : Bool
  pub debug_fuse : Bool

-- `var p kodoStorageClassParameter`: every field has its zero value.
abbrev pub zero_storage_class : {Url Duration : Type 0} → KodoStorageClassParameter Url Duration
zero_storage_class = record {
  access_key = [];
  secret_key = [];
  region = [];
  uc_endpoint = none;
  storage_class = [];
  sub_dir = [];
  s3_force_path_style = none;
  dir_cache_duration = none;
  buffer_size = none;
  vfs_cache_mode = unset;
  vfs_cache_max_age = none;
  vfs_cache_poll_interval = none;
  vfs_write_back = none;
  vfs_cache_max_size = none;
  vfs_read_ahead = none;
  vfs_fast_fingerprint = false;
  vfs_read_chunk_size = none;
  vfs_read_chunk_size_limit = none;
  no_checksum = false;
  no_mod_time = false;
  no_seek = false;
  read_only = false;
  vfs_read_wait = none;
  vfs_write_wait = none;
  transfers = none;
  vfs_disk_space_total_size = none;
  upload_cutoff = none;
  upload_chunk_size = none;
  upload_concurrency = none;
  write_back_cache = false;
  debug_http = false;
  debug_fuse = false;
}

module _ {Url Duration : Type 0} (go : GoLib Url Duration) (fn : Str) where
  -- The switch: what the value of a recognised key changes.
  unfoldable pub assign :
      Field
      → Str
      → KodoStorageClassParameter Url Duration
      → Result ParseError (KodoStorageClassParameter Url Duration)
  assign access_key value p = ok (record p { access_key = trim_space value })
  assign secret_key value p = ok (record p { secret_key = trim_space value })
  assign uc_endpoint value p = do
    u ← want_url go fn uc_endpoint value
    ok (record p { uc_endpoint = some u })
  assign region value p = ok (record p { region = trim_space value })
  assign storage_class value p = ok (record p { storage_class = trim_space value })
  assign sub_dir value p = ok (record p { sub_dir = trim_space value })
  assign s3_force_path_style value p = do
    b ← want_bool fn s3_force_path_style value
    ok (record p { s3_force_path_style = some b })
  assign vfs_cache_mode value p = elim (parse_mode value) [
    | none ↦ err (unrecognized fn vfs_cache_mode value)
    | some mode ↦ ok (record p { vfs_cache_mode = mode })
  ]
  assign dir_cache_duration value p = do
    d ← want_duration go fn dir_cache_duration value
    ok (record p { dir_cache_duration = some d })
  assign buffer_size value p = do
    s ← want_uint fn buffer_size value
    ok (record p { buffer_size = some s })
  assign vfs_cache_max_age value p = do
    d ← want_duration go fn vfs_cache_max_age value
    ok (record p { vfs_cache_max_age = some d })
  assign vfs_cache_poll_interval value p = do
    d ← want_duration go fn vfs_cache_poll_interval value
    ok (record p { vfs_cache_poll_interval = some d })
  assign vfs_write_back value p = do
    d ← want_duration go fn vfs_write_back value
    ok (record p { vfs_write_back = some d })
  assign vfs_cache_max_size value p = do
    s ← want_uint fn vfs_cache_max_size value
    ok (record p { vfs_cache_max_size = some s })
  assign vfs_read_ahead value p = do
    s ← want_uint fn vfs_read_ahead value
    ok (record p { vfs_read_ahead = some s })
  assign vfs_fast_finger_print value p = do
    b ← want_bool fn vfs_fast_finger_print value
    ok (record p { vfs_fast_fingerprint = b })
  assign vfs_read_chunk_size value p = do
    s ← want_uint fn vfs_read_chunk_size value
    ok (record p { vfs_read_chunk_size = some s })
  assign vfs_read_chunk_size_limit value p = do
    s ← want_uint fn vfs_read_chunk_size_limit value
    ok (record p { vfs_read_chunk_size_limit = some s })
  assign no_checksum value p = do
    b ← want_bool fn no_checksum value
    ok (record p { no_checksum = b })
  assign no_mod_time value p = do
    b ← want_bool fn no_mod_time value
    ok (record p { no_mod_time = b })
  assign no_seek value p = do b ← want_bool fn no_seek value; ok (record p { no_seek = b })
  assign read_only value p = do b ← want_bool fn read_only value; ok (record p { read_only = b })
  assign vfs_read_wait value p = do
    d ← want_duration go fn vfs_read_wait value
    ok (record p { vfs_read_wait = some d })
  assign vfs_write_wait value p = do
    d ← want_duration go fn vfs_write_wait value
    ok (record p { vfs_write_wait = some d })
  assign transfers value p = do
    s ← want_uint fn transfers value
    ok (record p { transfers = some s })
  assign vfs_disk_space_total_size value p = do
    s ← want_uint fn vfs_disk_space_total_size value
    ok (record p { vfs_disk_space_total_size = some s })
  assign write_back_cache value p = do
    b ← want_bool fn write_back_cache value
    ok (record p { write_back_cache = b })
  assign upload_chunk_size value p = do
    s ← want_uint fn upload_chunk_size value
    ok (record p { upload_chunk_size = some s })
  assign upload_cutoff value p = do
    s ← want_uint fn upload_cutoff value
    ok (record p { upload_cutoff = some s })
  assign upload_concurrency value p = do
    s ← want_uint fn upload_concurrency value
    ok (record p { upload_concurrency = some s })
  assign debug_http value p = do b ← want_bool fn debug_http value; ok (record p { debug_http = b })
  assign debug_fuse value p = do b ← want_bool fn debug_fuse value; ok (record p { debug_fuse = b })
  assign _ value p = ok p

  -- One round of `for key, value := range ctx`.
  unfoldable pub assign_entry :
      Str × Str
      → KodoStorageClassParameter Url Duration
      → Result ParseError (KodoStorageClassParameter Url Duration)
  assign_entry (key, value) p = elim (field_of key) [ none ↦ ok p | some f ↦ assign f value p ]

  -- The loop over `ctx`.
  unfoldable pub assign_all :
      StrMap
      → KodoStorageClassParameter Url Duration
      → Result ParseError (KodoStorageClassParameter Url Duration)
  assign_all ctx p = range_loop assign_entry ctx p

  -- What is not in `ctx` comes from `secrets`, or has a default, or is an error.
  unfoldable pub complete_uc_endpoint : StrMap → Option Url → Result ParseError Url
  complete_uc_endpoint secrets (some u) = ok u
  complete_uc_endpoint secrets none = elim (lookup (name uc_endpoint) secrets) [
    | none ↦ err (is_empty fn (name uc_endpoint))
    | some value ↦ want_url go fn uc_endpoint value
  ]

  unfoldable pub complete_force_path_style : StrMap → Option Bool → Result ParseError (Option Bool)
  complete_force_path_style secrets (some b) = ok (some b)
  complete_force_path_style secrets none = elim (lookup (name s3_force_path_style) secrets) [
    | none ↦ ok none
    | some value ↦ (do b ← want_bool fn s3_force_path_style value; ok (some b))
  ]

  unfoldable pub complete :
      StrMap
      → KodoStorageClassParameter Url Duration
      → Result ParseError (KodoStorageClassParameter Url Duration)
  complete secrets p = do
    access ← text_or_fail fn access_key secrets p.access_key
    secret ← text_or_fail fn secret_key secrets p.secret_key
    uc ← complete_uc_endpoint secrets p.uc_endpoint
    style ← complete_force_path_style secrets p.s3_force_path_style
    ok (record p {
      access_key = access;
      secret_key = secret;
      uc_endpoint = some uc;
      region = text_or_default region secrets (lit "z0") p.region;
      storage_class = text_or_default storage_class secrets (lit "STANDARD") p.storage_class;
      sub_dir = text_or_default sub_dir secrets [] p.sub_dir;
      s3_force_path_style = style;
    })

  unfoldable pub parse_storage_class :
      StrMap → StrMap → Result ParseError (KodoStorageClassParameter Url Duration)
  parse_storage_class ctx secrets = do p ← assign_all ctx zero_storage_class; complete secrets p
