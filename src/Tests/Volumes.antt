-- ===== src/Tests/Volumes.antt =====
-- The parameters of a Kodo volume, with URLs kept as texts and two durations.
use mathlib.Core.List.{Permᴰ}
use kubernetes_csi_driver.Base.{
  ◌≡◌, refl, Bool, true, false, [], ◌∷◌, ◌++◌, none, some, ok, if◌then◌else◌, to_option, arith,
  range_loop,
}
use kubernetes_csi_driver.Text.{
  Str, lit, str_eq, trim_space, is_blank, to_lower, is_space, trim_left,
}
use kubernetes_csi_driver.Plugin.Fields.{Field, name, field_of, region, read_only, field_of-name}
use kubernetes_csi_driver.Plugin.Values.{
  GoLib, StrMap, lookup, parse_url, want_url, text_or_fail, text_or_default, off,
}
use kubernetes_csi_driver.Plugin.Kodo.{
  KodoStorageClassParameter, zero_storage_class, Provisioned, parse_storage_class, volume_context,
  KodoPvParameter, KodoService, read_pv, parse_kodo_pv, parsed, assign_all, assign_entry, assign,
  complete, complete_force_path_style, complete_uc_endpoint, assign_pv, assign_pv_entry,
  endpoint_from_secrets, found, resolve_bucket, resolve_endpoint, resolve_region,
}
use kubernetes_csi_driver.Plugin.Kodo.RoundTrip.{IsWritable, ReadsDurations}
use kubernetes_csi_driver.Plugin.Kodo.Survive.{LeavesOptions, IsFilled}
use kubernetes_csi_driver.Plugin.Kodo.Arrive.{IsPlaced, parse_kodo_pv-volume_context}
use kubernetes_csi_driver.Plugin.Kodo.Order.{HasDistinctFields, parse_storage_class-perm}
use kubernetes_csi_driver.Plugin.Kodo.Resolve.{
  BucketFrom, EndpointFrom, RegionFrom, parse_kodo_pv_sound,
}

-- `false` is "0s" and `true` "1h0m0s".
abbrev pub go : GoLib Str Bool
go = record {
  parse = some;
  url_string = λ u. u;
  scheme = λ u. lit "https";
  parse_duration = λ s.
      if str_eq s (lit "1h0m0s")
      then some true
      else if str_eq s (lit "0s")
      then some false
      else none;
  duration_string = λ d. if d then lit "1h0m0s" else lit "0s";
}

pub go-ReadsDurations : ReadsDurations go
unfolding trim_space str_eq
go-ReadsDurations true = refl
go-ReadsDurations false = refl

abbrev provisioned : Provisioned
provisioned = record {
  id = lit "id1";
  bucket = lit "pvc-1";
  endpoint = lit "s3";
  s3_region_id = lit "cn";
  original_access = lit "oak";
  original_secret = lit "osk";
}

abbrev class : KodoStorageClassParameter Str Bool
class = record zero_storage_class {
  access_key = lit "ak";
  secret_key = lit "sk";
  uc_endpoint = some (lit "uc");
  region = lit "z0";
  storage_class = lit "STANDARD";
  buffer_size = some 4096;
  dir_cache_duration = some true;
  read_only = true;
}

class-IsWritable : IsWritable go class (lit "uc")
unfolding trim_space parse_url
class-IsWritable = record {
  access_trimmed = refl;
  secret_trimmed = refl;
  region_trimmed = refl;
  class_trimmed = refl;
  dir_trimmed = refl;
  endpoint_set = refl;
  endpoint_read = refl;
  buffer_size_fits = ground arith;
  vfs_cache_max_size_fits = tt;
  vfs_read_ahead_fits = tt;
  vfs_read_chunk_size_fits = tt;
  vfs_read_chunk_size_limit_fits = tt;
  transfers_fits = tt;
  vfs_disk_space_total_size_fits = tt;
  upload_cutoff_fits = tt;
  upload_chunk_size_fits = tt;
  upload_concurrency_fits = tt;
}

class-IsFilled : IsFilled class
unfolding is_blank
class-IsFilled = record {
  access_filled = refl;
  secret_filled = refl;
  region_filled = refl;
  class_filled = refl;
}

pub no_options : LeavesOptions []
unfolding lookup
no_options = record { no_dir = refl; no_style = refl }

-- A volume that is given by the name of its bucket.
abbrev pub service : KodoService Str Str
service = record {
  find_bucket = λ s. ok (some (record { id = lit "b7"; name = s; kodo_region_id = lit "z2" }));
  get_s3_endpoint = λ r. ok (some (lit "s3-" ++ r));
  get_s3_region = λ r. ok (some (lit "cn-" ++ r));
}

provisioned-IsPlaced : IsPlaced go provisioned (lit "s3")
unfolding trim_space is_blank parse_url
provisioned-IsPlaced = record {
  id_trimmed = refl;
  id_filled = refl;
  bucket_trimmed = refl;
  bucket_filled = refl;
  s3_region_trimmed = refl;
  s3_region_filled = refl;
  access_trimmed = refl;
  secret_trimmed = refl;
  endpoint_read = refl;
}

parse_kodo_pv-volume_context_example :
    parse_kodo_pv go (lit "DeleteVolume") service (volume_context go provisioned class) []
    ≡ ok (record {
      class = record class { vfs_cache_mode = off };
      bucket_id = lit "id1";
      bucket_name = lit "pvc-1";
      original_access_key = lit "oak";
      original_secret_key = lit "osk";
      s3_endpoint = some (lit "s3");
      s3_region = lit "cn";
    })
parse_kodo_pv-volume_context_example =
    parse_kodo_pv-volume_context go (lit "DeleteVolume") class provisioned (lit "s3")
      provisioned-IsPlaced service [] (lit "uc") go-ReadsDurations class-IsWritable class-IsFilled
      no_options

-- Two entries, in both orders.
abbrev one_way : StrMap
one_way = (name region, lit "z1") ∷ (name read_only, lit "yes") ∷ []

abbrev other_way : StrMap
other_way = (name read_only, lit "yes") ∷ (name region, lit "z1") ∷ []

fields_apart : (f : Field) → some region ≡ some f → some read_only ≡ some f → ⊥
fields_apart f d e = ground arith

one_way-HasDistinctFields : HasDistinctFields one_way
one_way-HasDistinctFields = (
  (
    λ f d e. fields_apart f (rw (field_of-name region) at d) (rw (field_of-name read_only) at e),
    tt,
  ),
  (tt, tt),
)

parse_storage_class-perm_example :
    to_option (parse_storage_class go (lit "DeleteVolume") one_way [])
    ≡ to_option (parse_storage_class go (lit "DeleteVolume") other_way [])
parse_storage_class-perm_example =
    parse_storage_class-perm go (lit "DeleteVolume") one_way other_way [] (Permᴰ.swap refl refl)
      one_way-HasDistinctFields

abbrev pub by_name : StrMap
by_name =
    (lit "accesskey", lit "ak")
    ∷ (lit "secretkey", lit "sk")
    ∷ (lit "ucendpoint", lit "uc")
    ∷ (lit "bucketname", lit "logs")
    ∷ []

abbrev pub by_name_read : KodoPvParameter Str Bool
by_name_read = record {
  class = record zero_storage_class {
    access_key = lit "ak";
    secret_key = lit "sk";
    uc_endpoint = some (lit "uc");
    region = lit "z2";
    storage_class = lit "STANDARD";
  };
  bucket_id = lit "b7";
  bucket_name = lit "logs";
  original_access_key = [];
  original_secret_key = [];
  s3_endpoint = some (lit "s3-z2");
  s3_region = lit "cn-z2";
}

pub by_name_parsed : (fn : Str) → parse_kodo_pv go fn service by_name [] ≡ ok by_name_read
unfolding parse_kodo_pv parsed read_pv parse_storage_class assign_all range_loop assign_entry
    field_of str_eq name to_lower assign want_url parse_url complete text_or_fail is_blank
    trim_space is_space trim_left complete_force_path_style complete_uc_endpoint assign_pv
    assign_pv_entry endpoint_from_secrets found resolve_bucket resolve_endpoint resolve_region
    lookup text_or_default
by_name_parsed fn = refl

parse_kodo_pv_sound_example :
    (read : KodoPvParameter Str Bool) × (read_pv go (lit "DeleteVolume") by_name [] ≡ ok read)
    × BucketFrom go (lit "DeleteVolume") service read by_name_read
    × EndpointFrom go (lit "DeleteVolume") service read by_name_read
    × RegionFrom go (lit "DeleteVolume") service read by_name_read
parse_kodo_pv_sound_example =
    parse_kodo_pv_sound go (lit "DeleteVolume") service by_name [] by_name_read
      (by_name_parsed (lit "DeleteVolume"))
