-- ===== src/Plugin/Kodo/Context.antt =====
-- The volume context that CreateVolume in plugin/kodo_controller_server.go writes into the
-- persistent volume, and that the node server reads.
use mathlib.Core.Option
use kubernetes_csi_driver.Base.{Bool, [], ◌∷◌, ◌++◌, Option, none, some, if◌then◌else◌}
use kubernetes_csi_driver.Text.{Str, format_uint, format_bool}
use kubernetes_csi_driver.Plugin.Fields.{
  Field, name, bucket_id, bucket_name, s3_endpoint, s3_region, sub_dir, access_key, secret_key,
  original_access_key, original_secret_key, uc_endpoint, region, storage_class, vfs_cache_mode,
  s3_force_path_style, dir_cache_duration, buffer_size, vfs_cache_max_age, vfs_cache_poll_interval,
  vfs_write_back, vfs_cache_max_size, vfs_read_ahead, vfs_fast_finger_print, vfs_read_chunk_size,
  vfs_read_chunk_size_limit, no_checksum, no_mod_time, no_seek, read_only, vfs_read_wait,
  vfs_write_wait, transfers, vfs_disk_space_total_size, write_back_cache, upload_cutoff,
  upload_chunk_size, upload_concurrency, debug_http, debug_fuse,
}
use kubernetes_csi_driver.Plugin.Values.{GoLib, StrMap, mode_string}
use kubernetes_csi_driver.Plugin.Kodo.StorageClass.{KodoStorageClassParameter}

-- `if x != nil { volumeContext[FIELD_…] = … }`
unfoldable pub optional_entry : Field → Option Str → StrMap
optional_entry f none = []
optional_entry f (some value) = (name f, value) ∷ []

-- `if b { volumeContext[FIELD_…] = formatBool(b) }`
unfoldable pub flag_entry : Field → Bool → StrMap
flag_entry f b = if b then (name f, format_bool b) ∷ [] else []

-- What CreateVolume knows of the bucket and of the keys of the account.
pub record Provisioned : Type 0 where
  pub id : Str
  pub bucket : Str
  pub endpoint : Str
  pub s3_region_id : Str
  pub original_access : Str
  pub original_secret : Str

module _ {Url Duration : Type 0} (go : GoLib Url Duration) where
  -- `parameter.ucEndpoint.String()`, where the endpoint is never nil after the parser.
  unfoldable pub url_text : Option Url → Str
  url_text none = []
  url_text (some u) = go.url_string u

  -- The map literal; the keys are those of the new IAM user.
  unfoldable pub required_entries : Provisioned → KodoStorageClassParameter Url Duration → StrMap
  required_entries b p =
      (name bucket_id, b.id)
      ∷ (name bucket_name, b.bucket)
      ∷ (name s3_endpoint, b.endpoint)
      ∷ (name s3_region, b.s3_region_id)
      ∷ (name sub_dir, p.sub_dir)
      ∷ (name access_key, p.access_key)
      ∷ (name secret_key, p.secret_key)
      ∷ (name original_access_key, b.original_access)
      ∷ (name original_secret_key, b.original_secret)
      ∷ (name uc_endpoint, url_text p.uc_endpoint)
      ∷ (name region, p.region)
      ∷ (name storage_class, p.storage_class)
      ∷ (name vfs_cache_mode, mode_string p.vfs_cache_mode)
      ∷ []

  -- The entries that are written only when the parameter is set, in two halves.
  unfoldable pub cache_entries : KodoStorageClassParameter Url Duration → StrMap
  cache_entries p =
      optional_entry s3_force_path_style (Option.map format_bool p.s3_force_path_style)
      ++ (optional_entry dir_cache_duration (Option.map go.duration_string p.dir_cache_duration)
          ++ (optional_entry buffer_size (Option.map format_uint p.buffer_size)
              ++ (optional_entry vfs_cache_max_age
                    (Option.map go.duration_string p.vfs_cache_max_age)
                  ++ (optional_entry vfs_cache_poll_interval
                        (Option.map go.duration_string p.vfs_cache_poll_interval)
                      ++ (optional_entry vfs_write_back
                            (Option.map go.duration_string p.vfs_write_back)
                          ++ (optional_entry vfs_cache_max_size
                                (Option.map format_uint p.vfs_cache_max_size)
                              ++ (optional_entry vfs_read_ahead
                                    (Option.map format_uint p.vfs_read_ahead)
                                  ++ (flag_entry vfs_fast_finger_print p.vfs_fast_fingerprint
                                      ++ (optional_entry vfs_read_chunk_size
                                            (Option.map format_uint p.vfs_read_chunk_size)
                                          ++ (optional_entry vfs_read_chunk_size_limit
                                                (Option.map format_uint p.vfs_read_chunk_size_limit)
                                              ++ (flag_entry no_checksum p.no_checksum
                                                  ++ (flag_entry no_mod_time
                                                      p.no_mod_time))))))))))))

  unfoldable pub transfer_entries : KodoStorageClassParameter Url Duration → StrMap
  transfer_entries p =
      flag_entry no_seek p.no_seek
      ++ (flag_entry read_only p.read_only
          ++ (optional_entry vfs_read_wait (Option.map go.duration_string p.vfs_read_wait)
              ++ (optional_entry vfs_write_wait (Option.map go.duration_string p.vfs_write_wait)
                  ++ (optional_entry transfers (Option.map format_uint p.transfers)
                      ++ (optional_entry vfs_disk_space_total_size
                            (Option.map format_uint p.vfs_disk_space_total_size)
                          ++ (flag_entry write_back_cache p.write_back_cache
                              ++ (optional_entry upload_cutoff
                                    (Option.map format_uint p.upload_cutoff)
                                  ++ (optional_entry upload_chunk_size
                                        (Option.map format_uint p.upload_chunk_size)
                                      ++ (optional_entry upload_concurrency
                                            (Option.map format_uint p.upload_concurrency)
                                          ++ (flag_entry debug_http p.debug_http
                                              ++ (flag_entry debug_fuse p.debug_fuse)))))))))))

  unfoldable pub volume_context : Provisioned → KodoStorageClassParameter Url Duration → StrMap
  volume_context b p = required_entries b p ++ (cache_entries p ++ transfer_entries p)
