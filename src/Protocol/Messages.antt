-- ===== src/Protocol/Messages.antt =====
-- The messages: protocol/protocol.go, protocol/const.go and the structs of protocol/kodo_cmd.go
-- and protocol/kodofs_cmd.go.
use kubernetes_csi_driver.Base.{ℕ, Bool, Option}
use kubernetes_csi_driver.Base.Integers.{ℤ}
use kubernetes_csi_driver.Text.{Str, lit}

-- A payload is kept as raw JSON.
pub record Request : Type 0 where
  pub version : Str
  pub cmd : Str
  pub payload : Str

-- Shut, so that proofs compare the names and not their bytes.
unfoldable pub version_v2 : Str
version_v2 = lit "v2"

unfoldable pub init_kodo_mount_name : Str
init_kodo_mount_name = lit "init_kodo_mount"

unfoldable pub init_kodofs_mount_name : Str
init_kodofs_mount_name = lit "init_kodofs_mount"

unfoldable pub kodo_umount_name : Str
kodo_umount_name = lit "umount_kodo"

unfoldable pub request_data_name : Str
request_data_name = lit "request_data"

unfoldable pub response_data_name : Str
response_data_name = lit "response_data"

unfoldable pub terminate_name : Str
terminate_name = lit "terminate"

unfoldable pub kodofs_path : Str
kodofs_path = lit "/usr/local/bin/kodofs"

unfoldable pub rclone_path : Str
rclone_path = lit "/usr/local/bin/rclone"

pub record RequestDataCmd : Type 0 where
  pub text : Str

pub record ResponseDataCmd : Type 0 where
  pub is_error : Bool
  pub text : Str

pub record TerminateCmd : Type 0 where
  pub code : ℤ

pub record InitKodofsMountCmd : Type 0 where
  pub volume_id : Str
  pub gateway_id : Str
  pub mount_path : Str
  pub sub_dir : Str
  pub may_run_on_systemd : Bool

pub record KodoUmountCmd : Type 0 where
  pub volume_id : Str
  pub mount_path : Str

pub record InitKodoMountCmd : Type 0 where
  pub volume_id : Str
  pub mount_path : Str
  pub sub_dir : Str
  pub access_key : Str
  pub secret_key : Str
  pub bucket_id : Str
  pub s3_region : Str
  pub s3_endpoint : Str
  pub s3_force_path_style : Bool
  pub storage_class : Str
  pub vfs_cache_mode : Str
  pub dir_cache_duration : Str
  pub buffer_size : Option ℕ
  pub vfs_cache_max_age : Str
  pub vfs_cache_poll_interval : Str
  pub vfs_write_back : Str
  pub vfs_cache_max_size : Option ℕ
  pub vfs_read_ahead : Option ℕ
  pub vfs_fast_finger_print : Bool
  pub vfs_read_chunk_size : Option ℕ
  pub vfs_read_chunk_size_limit : Option ℕ
  pub no_check_sum : Bool
  pub no_mod_time : Bool
  pub no_seek : Bool
  pub read_only : Bool
  pub vfs_read_wait : Str
  pub vfs_write_wait : Str
  pub transfers : Option ℕ
  pub vfs_disk_space_total_size : Option ℕ
  pub upload_cutoff : Option ℕ
  pub upload_chunk_size : Option ℕ
  pub upload_concurrency : Option ℕ
  pub write_back_cache : Bool
  pub debug_http : Bool
  pub debug_fuse : Bool
  pub may_run_on_systemd : Bool
