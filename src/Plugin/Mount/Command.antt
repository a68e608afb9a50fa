-- ===== src/Plugin/Mount/Command.antt =====
-- The commands that the plugin sends: the beginning of mountKodo, mountKodoFS and
-- cleanAfterKodoUmount in plugin/utils.go, with the arguments that the node servers give them.
use kubernetes_csi_driver.Base.{Bool, true, false, [], Option, none, some, if◌then◌else◌}
use kubernetes_csi_driver.Text.{Str, lit, is_blank, has_prefix}
use kubernetes_csi_driver.Protocol.{
  Request, InitKodoMountCmd, InitKodofsMountCmd, KodoUmountCmd, version_v2,
}
use kubernetes_csi_driver.Plugin.Values.{GoLib, mode_string}
use kubernetes_csi_driver.Plugin.Kodo.{KodoPvParameter}

-- `makeRequest`
unfoldable pub make_request : Str → Str → Request
make_request name payload = record { version = version_v2; cmd = name; payload = payload }

-- `if d != nil { cmd.X = d.String() }`, over the zero value "".
unfoldable pub text_of : {A : Type 0} → (A → Str) → Option A → Str
text_of f none = []
text_of f (some a) = f a

-- `if b != nil { cmd.X = *b }`, over the zero value false.
unfoldable pub flag_of : Option Bool → Bool
flag_of none = false
flag_of (some b) = b

module _ {Url Duration : Type 0} (go : GoLib Url Duration) where
  -- mountKodo, called by NodePublishVolume with the parsed parameters.
  unfoldable pub kodo_command : Str → Str → KodoPvParameter Url Duration → InitKodoMountCmd
  kodo_command volume_id mount_path p = record {
    volume_id = volume_id;
    mount_path = mount_path;
    sub_dir = p.class.sub_dir;
    access_key = p.class.access_key;
    secret_key = p.class.secret_key;
    bucket_id = p.bucket_id;
    s3_region = p.s3_region;
    s3_endpoint = text_of go.url_string p.s3_endpoint;
    s3_force_path_style = flag_of p.class.s3_force_path_style;
    storage_class = p.class.storage_class;
    vfs_cache_mode = mode_string p.class.vfs_cache_mode;
    dir_cache_duration = text_of go.duration_string p.class.dir_cache_duration;
    buffer_size = p.class.buffer_size;
    vfs_cache_max_age = text_of go.duration_string p.class.vfs_cache_max_age;
    vfs_cache_poll_interval = text_of go.duration_string p.class.vfs_cache_poll_interval;
    vfs_write_back = text_of go.duration_string p.class.vfs_write_back;
    vfs_cache_max_size = p.class.vfs_cache_max_size;
    vfs_read_ahead = p.class.vfs_read_ahead;
    vfs_fast_finger_print = p.class.vfs_fast_fingerprint;
    vfs_read_chunk_size = p.class.vfs_read_chunk_size;
    vfs_read_chunk_size_limit = p.class.vfs_read_chunk_size_limit;
    no_check_sum = p.class.no_checksum;
    no_mod_time = p.class.no_mod_time;
    no_seek = p.class.no_seek;
    read_only = p.class.read_only;
    vfs_read_wait = text_of go.duration_string p.class.vfs_read_wait;
    vfs_write_wait = text_of go.duration_string p.class.vfs_write_wait;
    transfers = p.class.transfers;
    vfs_disk_space_total_size = p.class.vfs_disk_space_total_size;
    upload_cutoff = p.class.upload_cutoff;
    upload_chunk_size = p.class.upload_chunk_size;
    upload_concurrency = p.class.upload_concurrency;
    write_back_cache = p.class.write_back_cache;
    debug_http = p.class.debug_http;
    debug_fuse = p.class.debug_fuse;
    may_run_on_systemd = false;
  }

-- mountKodoFS; `join_root` is `filepath.Join("/", …)`.
unfoldable pub kodofs_sub_dir : (Str → Str) → Str → Str
kodofs_sub_dir join_root sub_dir =
    if is_blank sub_dir
    then lit "/"
    else if has_prefix sub_dir (lit "/")
    then sub_dir
    else join_root sub_dir

unfoldable pub kodofs_command : (Str → Str) → Str → Str → Str → Str → InitKodofsMountCmd
kodofs_command join_root volume_id gateway_id mount_path sub_dir = record {
  volume_id = volume_id;
  gateway_id = gateway_id;
  mount_path = mount_path;
  sub_dir = kodofs_sub_dir join_root sub_dir;
  may_run_on_systemd = true;
}

-- cleanAfterKodoUmount
unfoldable pub umount_command : Str → Str → KodoUmountCmd
umount_command volume_id mount_path = record { volume_id = volume_id; mount_path = mount_path }
