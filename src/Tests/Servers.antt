-- ===== src/Tests/Servers.antt =====
-- One volume, created and deleted.
use kubernetes_csi_driver.Base.{◌≡◌, refl, Bool, false, [], ◌++◌, none, some, ok, err, range_loop}
use kubernetes_csi_driver.Text.{
  Str, lit, str_eq, trim_space, is_blank, to_lower, is_space, trim_left,
}
use kubernetes_csi_driver.Plugin.Fields.{name, field_of}
use kubernetes_csi_driver.Plugin.Values.{
  lookup, parse_url, want_url, text_or_fail, text_or_default, is_empty,
}
use kubernetes_csi_driver.Plugin.Kodo.{
  KodoStorageClassParameter, zero_storage_class, Provisioned, parse_storage_class, volume_context,
  assign_all, assign_entry, assign, complete, complete_force_path_style, complete_uc_endpoint,
  CsiVolume, find_volume, Cloud, CreateRequest, key_pair, obtain_bucket, obtain_keys, provision,
  create_volume, done, rejected, PersistentVolume, DeleteAnswers, Client, delete_volume,
}
use kubernetes_csi_driver.Plugin.Kodo.Provision.{IsMade, create_volume-again, create_volume-IsMade}
use kubernetes_csi_driver.Plugin.Kodo.Teardown.{destroys, delete_volume-retains}
use kubernetes_csi_driver.Tests.Volumes.{go, service, by_name}

abbrev pub request : CreateRequest
request = record {
  name = lit "pvc-1";
  parameters = by_name;
  secrets = [];
  required_bytes = 1024;
  random_suffix = lit "x";
  random_password = lit "pw";
}

abbrev pub cloud : Cloud Str Str
cloud = record {
  found_before = λ n. ok none;
  bucket_created = λ n r. ok tt;
  found_after = λ n. ok (some (record { id = lit "b7"; name = n; kodo_region_id = lit "z0" }));
  s3_endpoint_of = λ r. ok (some (lit "s3-" ++ r));
  s3_region_of = λ r. ok (some (lit "cn-" ++ r));
  user_created = λ n p. ok tt;
  first_key_pair = λ n. err (lit "no keys");
  key_pair_created = λ n. ok (lit "uak", lit "usk");
  policy_created = λ p b. ok tt;
  policy_granted = λ n p. ok tt;
}

abbrev offline : Cloud Str Str
offline = record cloud { found_before = λ n. err (lit "offline") }

abbrev pub made : CsiVolume
made = record {
  capacity = 1024;
  id = lit "pvc-1";
  context =
      volume_context go
        (record {
          id = lit "b7";
          bucket = lit "pvc-1-x";
          endpoint = lit "s3-z0";
          s3_region_id = lit "cn-z0";
          original_access = lit "ak";
          original_secret = lit "sk";
        })
        (record zero_storage_class {
          access_key = lit "uak";
          secret_key = lit "usk";
          uc_endpoint = some (lit "uc");
          region = lit "z0";
          storage_class = lit "STANDARD";
        });
}

made_by_request : (create_volume go cloud request []).0.0 ≡ ok made
unfolding create_volume find_volume provision obtain_bucket obtain_keys key_pair parse_storage_class
    assign_all range_loop assign_entry field_of str_eq name to_lower assign want_url parse_url
    complete text_or_fail is_blank trim_space is_space trim_left complete_force_path_style
    complete_uc_endpoint lookup text_or_default
made_by_request = refl

pub read_by_request :
    parse_storage_class go (lit "CreateVolume") by_name []
    ≡ ok (record zero_storage_class {
      access_key = lit "ak";
      secret_key = lit "sk";
      uc_endpoint = some (lit "uc");
      region = lit "z0";
      storage_class = lit "STANDARD";
    })
unfolding parse_storage_class assign_all range_loop assign_entry field_of str_eq name to_lower
    assign want_url parse_url complete text_or_fail is_blank trim_space is_space trim_left
    complete_force_path_style complete_uc_endpoint lookup text_or_default
read_by_request = refl

create_volume-again_example :
    let after = (create_volume go cloud request []).1 in
    create_volume go offline request after ≡ (done made, after)
create_volume-again_example =
    create_volume-again go cloud offline request request [] made made_by_request refl

abbrev bad_request : CreateRequest
bad_request = record request { parameters = [] }

bad_request_rejected :
    (create_volume go cloud bad_request []).0.0
    ≡ err (rejected (is_empty (lit "CreateVolume") (lit "accesskey")))
unfolding create_volume find_volume parse_storage_class assign_all range_loop complete text_or_fail
    is_blank lookup name
bad_request_rejected = refl

pub nothing_known : find_volume (lit "pvc-1") [] ≡ none
unfolding find_volume
nothing_known = refl

create_volume-IsMade_example :
    (p : KodoStorageClassParameter Str Bool) × (parse_storage_class go
        (lit "CreateVolume")
        by_name
        []
      ≡ ok p)
    × ((b : Provisioned) × (q : KodoStorageClassParameter Str Bool) × IsMade go cloud request p made
          b q)
create_volume-IsMade_example =
    create_volume-IsMade go cloud request [] made nothing_known made_by_request

abbrev kept : PersistentVolume
kept = record { attributes = by_name; reclaim_policy = lit "Retain" }

abbrev works : Client Str → DeleteAnswers Str
works client = record {
  policy_revoked = λ id p. ok tt;
  policy_deleted = λ p. ok tt;
  user_deleted = λ id. ok tt;
  objects_cleaned = λ b. ok tt;
  bucket_deleted = λ b. ok tt;
}

kept_is_kept : str_eq (lit "Retain") (lit "Delete") ≡ false
unfolding str_eq
kept_is_kept = refl

delete_volume-retains_example :
    destroys (delete_volume go service (λ id. ok kept) works (lit "pvc-1") [] []).0.1 ≡ false
delete_volume-retains_example =
    delete_volume-retains go service (λ id. ok kept) works (lit "pvc-1") [] [] kept refl
      kept_is_kept
