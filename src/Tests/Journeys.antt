-- ===== src/Tests/Journeys.antt =====
-- The volume of the other tests, from its creation to the configuration of rclone and to its
-- deletion.
use kubernetes_csi_driver.Base.{
  ◌≡◌, refl, ◌↔◌, Bool, true, false, [], ◌∷◌, none, some, ok, err, Result, if◌then◌else◌,
}
use kubernetes_csi_driver.Text.{Str, lit, str_eq, trim_space, is_blank}
use kubernetes_csi_driver.Protocol.{InitKodoMountCmd}
use kubernetes_csi_driver.Connector.Files.{rclone_section, config_value}
use kubernetes_csi_driver.Plugin.Values.{parse_url}
use kubernetes_csi_driver.Plugin.Kodo.{
  KodoStorageClassParameter, zero_storage_class, Provisioned, key_pair, FoundBucket, create_volume,
  PersistentVolume, DeleteAnswers, Client, delete_volume, find_volume, get_persistent_volume,
}
use kubernetes_csi_driver.Plugin.Kodo.Provision.{IsMade, created, IsAnswered}
use kubernetes_csi_driver.Plugin.Kodo.RoundTrip.{IsWritable}
use kubernetes_csi_driver.Plugin.Kodo.Survive.{IsFilled}
use kubernetes_csi_driver.Plugin.Kodo.Arrive.{IsPlaced}
use kubernetes_csi_driver.Plugin.Kodo.Lifecycle.{
  account_client, IsGranted, teardown, delete_volume-create_volume,
}
use kubernetes_csi_driver.Plugin.Mount.{MountError}
use kubernetes_csi_driver.Plugin.Node.{node_publish}
use kubernetes_csi_driver.Plugin.Node.Journey.{request_for, command_for, node_publish-create_volume}
use kubernetes_csi_driver.Tests.Volumes.{go, go-ReadsDurations, service, no_options}
use kubernetes_csi_driver.Tests.Servers.{request, cloud, made, nothing_known, read_by_request}

abbrev found : Provisioned
found = record {
  id = lit "b7";
  bucket = lit "pvc-1-x";
  endpoint = lit "s3-z0";
  s3_region_id = lit "cn-z0";
  original_access = lit "ak";
  original_secret = lit "sk";
}

abbrev read : KodoStorageClassParameter Str Bool
read = record zero_storage_class {
  access_key = lit "ak";
  secret_key = lit "sk";
  uc_endpoint = some (lit "uc");
  region = lit "z0";
  storage_class = lit "STANDARD";
}

abbrev written : KodoStorageClassParameter Str Bool
written = record read { access_key = lit "uak"; secret_key = lit "usk" }

abbrev bucket_found : FoundBucket
bucket_found = record { id = lit "b7"; name = lit "pvc-1-x"; kodo_region_id = lit "z0" }

made-IsMade : IsMade go cloud request read made found written
unfolding key_pair
made-IsMade = record {
  named = refl;
  sized = refl;
  written = refl;
  own_keys = refl;
  account_access = refl;
  account_secret = refl;
  rest_kept = refl;
  found_bucket = bucket_found;
  obtained = created bucket_found refl refl refl;
  id_found = refl;
  name_found = refl;
  found_endpoint = lit "s3-z0";
  endpoint_found = refl;
  endpoint_written = refl;
  s3_region_found = refl;
  user_made = refl;
  policy_made = refl;
  policy_given = refl;
}

written-IsWritable : IsWritable go written (lit "uc")
unfolding trim_space parse_url
written-IsWritable = record {
  access_trimmed = refl;
  secret_trimmed = refl;
  region_trimmed = refl;
  class_trimmed = refl;
  dir_trimmed = refl;
  endpoint_set = refl;
  endpoint_read = refl;
  buffer_size_fits = tt;
  vfs_cache_max_size_fits = tt;
  vfs_read_ahead_fits = tt;
  vfs_read_chunk_size_fits = tt;
  vfs_read_chunk_size_limit_fits = tt;
  transfers_fits = tt;
  vfs_disk_space_total_size_fits = tt;
  upload_cutoff_fits = tt;
  upload_chunk_size_fits = tt;
  upload_concurrency_fits = tt;
}

written-IsFilled : IsFilled written
unfolding is_blank
written-IsFilled = record {
  access_filled = refl;
  secret_filled = refl;
  region_filled = refl;
  class_filled = refl;
}

found-IsPlaced : IsPlaced go found (lit "s3-z0")
unfolding trim_space is_blank parse_url
found-IsPlaced = record {
  id_trimmed = refl;
  id_filled = refl;
  bucket_trimmed = refl;
  bucket_filled = refl;
  s3_region_trimmed = refl;
  s3_region_filled = refl;
  access_trimmed = refl;
  secret_trimmed = refl;
  endpoint_read = refl;
}

given : is_blank (lit "/mnt") ≡ false
unfolding is_blank
given = refl

abbrev make_path : Str → Result Str (Unit {0})
make_path path = ok tt

abbrev mounted : InitKodoMountCmd → Result MountError (Unit {0})
mounted c = ok tt

answered :
    IsAnswered go cloud request read bucket_found
      (lit "z0")
      (lit "s3-z0")
      (lit "cn-z0")
      (lit "uak", lit "usk")
unfolding key_pair
answered = record {
  obtained = created bucket_found refl refl refl;
  endpoint = refl;
  s3_region = refl;
  user = refl;
  own_keys = refl;
  policy = refl;
  grant = refl;
}

node_publish-create_volume_example :
    let command = command_for go made (lit "/mnt") found written (lit "s3-z0") in
    ((create_volume go cloud request []).0.0 ≡ ok made)
    × ((node_publish go service make_path mounted (request_for made (lit "/mnt") []) ≡ ok tt)
        ↔ (mounted command ≡ ok tt))
    × (config_value (lit "type") (rclone_section command) ≡ some (lit "s3"))
    × (config_value (lit "access_key_id") (rclone_section command) ≡ some (lit "uak"))
    × (config_value (lit "secret_access_key") (rclone_section command) ≡ some (lit "usk"))
    × (config_value (lit "endpoint") (rclone_section command) ≡ some (lit "s3-z0"))
    × (config_value (lit "region") (rclone_section command) ≡ some (lit "cn-z0"))
node_publish-create_volume_example =
    node_publish-create_volume go service make_path mounted cloud request [] read bucket_found
      (lit "z0") (lit "s3-z0") (lit "cn-z0") (lit "uak", lit "usk") (lit "uc") (lit "s3-z0")
      (lit "/mnt") [] nothing_known read_by_request answered go-ReadsDurations written-IsWritable
      written-IsFilled found-IsPlaced no_options given refl

-- The persistent volume of the volume that was made.
abbrev kept_by_kubernetes : PersistentVolume
kept_by_kubernetes = record { attributes = made.context; reclaim_policy = lit "Delete" }

-- Only the account that created the volume may delete it.
abbrev account : Client Str → DeleteAnswers Str
account client =
    let answer : Result Str (Unit {0}) =
      if str_eq client.access_key (lit "ak") then ok tt else err (lit "denied") in
    record {
      policy_revoked = λ id p. answer;
      policy_deleted = λ p. answer;
      user_deleted = λ id. answer;
      objects_cleaned = λ b. answer;
      bucket_deleted = λ b. answer;
    }

disposable_goes : str_eq (lit "Delete") (lit "Delete") ≡ true
unfolding str_eq
disposable_goes = refl

delete_volume-create_volume_example :
    let end = delete_volume go service (λ id. ok kept_by_kubernetes) account (lit "pvc-1") [] [] in
    ((end.0.0 ≡ ok tt) ↔ (
      IsGranted (account (account_client read)) (lit "pvc-1") (lit "pvc-1-x")
      × (end.0.1 ≡ get_persistent_volume (lit "pvc-1") ∷ teardown (lit "pvc-1") (lit "pvc-1-x"))))
    × (find_volume (lit "pvc-1") end.1 ≡ none)
delete_volume-create_volume_example =
    delete_volume-create_volume go service (λ id. ok kept_by_kubernetes) account cloud request read
      written made found (lit "uc") (lit "s3-z0") kept_by_kubernetes [] [] made-IsMade
      go-ReadsDurations written-IsWritable written-IsFilled found-IsPlaced no_options refl refl
      disposable_goes
