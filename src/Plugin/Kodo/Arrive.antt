-- ===== src/Plugin/Kodo/Arrive.antt =====
-- The volume context of plugin/kodo_controller_server.go under parseKodoPvParameter in
-- plugin/kodo_parameters.go.
use mathlib.Core.List.{append_assoc, append-nil}
use kubernetes_csi_driver.Base.{
  ◌≡◌, refl, ap, ◌∙◌, Bool, true, false, [], ◌∷◌, ◌++◌, Option, none, some, Result, ok, range_loop,
  range_loop-cons,
}
use kubernetes_csi_driver.Text.{Str, is_blank, format_bool}
use kubernetes_csi_driver.Plugin.Fields.{
  Field, name, field_of-name, s3_force_path_style, dir_cache_duration, buffer_size,
  vfs_cache_max_age, vfs_cache_poll_interval, vfs_write_back, vfs_cache_max_size, vfs_read_ahead,
  vfs_fast_finger_print, vfs_read_chunk_size, vfs_read_chunk_size_limit, no_checksum, no_mod_time,
  no_seek, read_only, vfs_read_wait, vfs_write_wait, transfers, vfs_disk_space_total_size,
  write_back_cache, upload_cutoff, upload_chunk_size, upload_concurrency, debug_http, debug_fuse,
  sub_dir, access_key, secret_key, uc_endpoint, region, storage_class, vfs_cache_mode, bucket_id,
  bucket_name, s3_endpoint, s3_region, original_access_key, original_secret_key,
}
use kubernetes_csi_driver.Plugin.Values.{GoLib, ParseError, StrMap, parse_url, want_url}
use kubernetes_csi_driver.Plugin.Reading.{settle}
use kubernetes_csi_driver.Plugin.Kodo.StorageClass.{KodoStorageClassParameter}
use kubernetes_csi_driver.Plugin.Kodo.Volume.{
  KodoPvParameter, KodoService, assign_pv, assign_pv_entry, endpoint_from_secrets, read_pv, parsed,
  resolve_bucket, resolve_endpoint, resolve_region, parse_kodo_pv,
}
use kubernetes_csi_driver.Plugin.Kodo.Context.{
  Provisioned, optional_entry, flag_entry, required_entries, cache_entries, transfer_entries,
  volume_context,
}
use kubernetes_csi_driver.Plugin.Kodo.RoundTrip.{IsTrimmed, IsWritable, ReadsDurations}
use kubernetes_csi_driver.Plugin.Kodo.Survive.{
  LeavesOptions, IsFilled, parse_storage_class-volume_context, text_or_default_kept,
}

-- What the controller knows of the bucket, as it is read back: trimmed texts, an ID, a name and an
-- S3 region that are not blank, and an endpoint that is read back from its text.
pub record IsPlaced {Url Duration : Type 0} (go : GoLib Url Duration) (b : Provisioned) (e : Url)
    : Type 0 where
  pub id_trimmed : IsTrimmed b.id
  pub id_filled : is_blank b.id ≡ false
  pub bucket_trimmed : IsTrimmed b.bucket
  pub bucket_filled : is_blank b.bucket ≡ false
  pub s3_region_trimmed : IsTrimmed b.s3_region_id
  pub s3_region_filled : is_blank b.s3_region_id ≡ false
  pub access_trimmed : IsTrimmed b.original_access
  pub secret_trimmed : IsTrimmed b.original_secret
  pub endpoint_read : parse_url go b.endpoint ≡ some e

module _ {Url Duration : Type 0} (go : GoLib Url Duration) (fn : Str) where
  abbrev assign_pv_all :
      StrMap → KodoPvParameter Url Duration → Result ParseError (KodoPvParameter Url Duration)
  assign_pv_all m q = range_loop (assign_pv_entry go fn) m q

  assign_pv_entry-name :
      (f : Field) (v : Str) (q : KodoPvParameter Url Duration)
      → assign_pv_entry go fn (name f, v) q ≡ assign_pv go fn f v q
  unfolding assign_pv_entry
  assign_pv_entry-name f v q = rw (field_of-name f, assign_pv_entry)

  assign_pv_all-cons :
      (f : Field) (v : Str) (rest : StrMap) (q r : KodoPvParameter Url Duration)
      → assign_pv go fn f v q ≡ ok r
      → assign_pv_all ((name f, v) ∷ rest) q ≡ assign_pv_all rest r
  assign_pv_all-cons f v rest q r e =
      range_loop-cons (assign_pv_entry go fn) (name f, v) rest q r (assign_pv_entry-name f v q ∙ e)

  -- An entry that only the storage class has.
  module _ (f : Field) (rest : StrMap) (q : KodoPvParameter Url Duration)
      (silent : (v : Str) → assign_pv go fn f v q ≡ ok q) where
    skip_optional :
        (o : Option Str) → assign_pv_all (optional_entry f o ++ rest) q ≡ assign_pv_all rest q
    unfolding optional_entry
    skip_optional none = refl
    skip_optional (some v) = assign_pv_all-cons f v rest q q (silent v)

    skip_flag : (b : Bool) → assign_pv_all (flag_entry f b ++ rest) q ≡ assign_pv_all rest q
    unfolding flag_entry
    skip_flag false = refl
    skip_flag true = assign_pv_all-cons f (format_bool true) rest q q (silent (format_bool true))

  module _ (p : KodoStorageClassParameter Url Duration) where
    skip_cache :
        (rest : StrMap) (q : KodoPvParameter Url Duration)
        → assign_pv_all (cache_entries go p ++ rest) q ≡ assign_pv_all rest q
    unfolding cache_entries assign_pv
    skip_cache rest q = simp append_assoc (
        skip_optional s3_force_path_style _ q (λ v. refl) _
        ∙ skip_optional dir_cache_duration _ q (λ v. refl) _
        ∙ skip_optional buffer_size _ q (λ v. refl) _
        ∙ skip_optional vfs_cache_max_age _ q (λ v. refl) _
        ∙ skip_optional vfs_cache_poll_interval _ q (λ v. refl) _
        ∙ skip_optional vfs_write_back _ q (λ v. refl) _
        ∙ skip_optional vfs_cache_max_size _ q (λ v. refl) _
        ∙ skip_optional vfs_read_ahead _ q (λ v. refl) _
        ∙ skip_flag vfs_fast_finger_print _ q (λ v. refl) _
        ∙ skip_optional vfs_read_chunk_size _ q (λ v. refl) _
        ∙ skip_optional vfs_read_chunk_size_limit _ q (λ v. refl) _
        ∙ skip_flag no_checksum _ q (λ v. refl) _
        ∙ skip_flag no_mod_time _ q (λ v. refl) _)

    skip_transfer :
        (rest : StrMap) (q : KodoPvParameter Url Duration)
        → assign_pv_all (transfer_entries go p ++ rest) q ≡ assign_pv_all rest q
    unfolding transfer_entries assign_pv
    skip_transfer rest q = simp append_assoc (
        skip_flag no_seek _ q (λ v. refl) _
        ∙ skip_flag read_only _ q (λ v. refl) _
        ∙ skip_optional vfs_read_wait _ q (λ v. refl) _
        ∙ skip_optional vfs_write_wait _ q (λ v. refl) _
        ∙ skip_optional transfers _ q (λ v. refl) _
        ∙ skip_optional vfs_disk_space_total_size _ q (λ v. refl) _
        ∙ skip_flag write_back_cache _ q (λ v. refl) _
        ∙ skip_optional upload_cutoff _ q (λ v. refl) _
        ∙ skip_optional upload_chunk_size _ q (λ v. refl) _
        ∙ skip_optional upload_concurrency _ q (λ v. refl) _
        ∙ skip_flag debug_http _ q (λ v. refl) _
        ∙ skip_flag debug_fuse _ q (λ v. refl) _)

    module _ (b : Provisioned) (e : Url) (placed : IsPlaced go b e) where
      -- What the map literal says of the bucket.
      abbrev pub arrived : KodoStorageClassParameter Url Duration → KodoPvParameter Url Duration
      arrived class = record {
        class = class;
        bucket_id = b.id;
        bucket_name = b.bucket;
        original_access_key = b.original_access;
        original_secret_key = b.original_secret;
        s3_endpoint = some e;
        s3_region = b.s3_region_id;
      }

      reads_s3_endpoint :
          (q : KodoPvParameter Url Duration)
          → assign_pv go fn s3_endpoint b.endpoint q ≡ ok (record q { s3_endpoint = some e })
      unfolding assign_pv want_url
      reads_s3_endpoint q = rw (placed.endpoint_read, assign_pv, want_url)

      load_required_pv :
          (class : KodoStorageClassParameter Url Duration) (rest : StrMap)
          → assign_pv_all (required_entries go b p ++ rest) (record {
            class = class;
            bucket_id = [];
            bucket_name = [];
            original_access_key = [];
            original_secret_key = [];
            s3_endpoint = none;
            s3_region = [];
          })
            ≡ assign_pv_all rest (arrived class)
      unfolding required_entries assign_pv
      load_required_pv class rest =
          let q0 : KodoPvParameter Url Duration = record {
            class = class;
            bucket_id = [];
            bucket_name = [];
            original_access_key = [];
            original_secret_key = [];
            s3_endpoint = none;
            s3_region = [];
          } in
          let q1 = record q0 { bucket_id = b.id } in
          let q2 = record q1 { bucket_name = b.bucket } in
          let q3 = record q2 { s3_endpoint = some e } in
          let q4 = record q3 { s3_region = b.s3_region_id } in
          let q5 = record q4 { original_access_key = b.original_access } in
          let q6 = record q5 { original_secret_key = b.original_secret } in
          assign_pv_all-cons bucket_id _ _ q0 q1
            (ap (λ t. ok (record q0 { bucket_id = t })) placed.id_trimmed)
          ∙ assign_pv_all-cons bucket_name _ _ q1 q2
              (ap (λ t. ok (record q1 { bucket_name = t })) placed.bucket_trimmed)
          ∙ assign_pv_all-cons s3_endpoint _ _ q2 q3 (reads_s3_endpoint q2)
          ∙ assign_pv_all-cons s3_region _ _ q3 q4
              (ap (λ t. ok (record q3 { s3_region = t })) placed.s3_region_trimmed)
          ∙ assign_pv_all-cons sub_dir _ _ q4 q4 refl
          ∙ assign_pv_all-cons access_key _ _ q4 q4 refl
          ∙ assign_pv_all-cons secret_key _ _ q4 q4 refl
          ∙ assign_pv_all-cons original_access_key _ _ q4 q5
              (ap (λ t. ok (record q4 { original_access_key = t })) placed.access_trimmed)
          ∙ assign_pv_all-cons original_secret_key _ _ q5 q6
              (ap (λ t. ok (record q5 { original_secret_key = t })) placed.secret_trimmed)
          ∙ assign_pv_all-cons uc_endpoint _ _ q6 q6 refl
          ∙ assign_pv_all-cons region _ _ q6 q6 refl
          ∙ assign_pv_all-cons storage_class _ _ q6 q6 refl
          ∙ assign_pv_all-cons vfs_cache_mode _ _ q6 q6 refl

      load_pv :
          (class : KodoStorageClassParameter Url Duration)
          → assign_pv_all (volume_context go b p) (record {
            class = class;
            bucket_id = [];
            bucket_name = [];
            original_access_key = [];
            original_secret_key = [];
            s3_endpoint = none;
            s3_region = [];
          })
            ≡ ok (arrived class)
      unfolding volume_context range_loop
      load_pv class =
          load_required_pv class (cache_entries go p ++ transfer_entries go p)
          ∙ skip_cache (transfer_entries go p) (arrived class)
          ∙ rw (← append-nil (transfer_entries go p)) (skip_transfer [] (arrived class))

      -- The volume context that CreateVolume writes is read by the node server without a call of
      -- the service: the bucket, the endpoint and the S3 region are those that the controller knew,
      -- and every parameter of the class is as it was, but for a cache mode that was not set. This
      -- is for texts that are trimmed and, but for `subdir` and the keys of the account, not blank, for
      -- addresses, durations and numbers that are read back from their texts, and for secrets that
      -- give no `subdir` and no `s3forcepathstyle`.
      pub parse_kodo_pv-volume_context :
          {E : Type 0} (service : KodoService Url E) (secrets : StrMap) (u : Url)
          → ReadsDurations go
          → IsWritable go p u
          → IsFilled p
          → LeavesOptions secrets
          → parse_kodo_pv go fn service (volume_context go b p) secrets
            ≡ ok (arrived (record p { vfs_cache_mode = settle p.vfs_cache_mode }))
      unfolding parse_kodo_pv read_pv parsed resolve_bucket resolve_endpoint resolve_region
          endpoint_from_secrets
      parse_kodo_pv-volume_context service secrets u durations w filled leaves =
          let class = record p { vfs_cache_mode = settle p.vfs_cache_mode } in
          rw
            (
              parse_storage_class-volume_context go fn secrets durations b p u w filled leaves,
              load_pv class,
              text_or_default_kept s3_region secrets [] b.s3_region_id placed.s3_region_filled,
              text_or_default_kept bucket_id secrets [] b.id placed.id_filled,
              text_or_default_kept bucket_name secrets [] b.bucket placed.bucket_filled,
              placed.id_filled,
              placed.s3_region_filled,
              parse_kodo_pv,
              read_pv,
              parsed,
              resolve_bucket,
              resolve_endpoint,
              resolve_region,
            )
            refl
