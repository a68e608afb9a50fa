-- ===== src/Plugin/Kodo/RoundTrip.antt =====
-- The volume context of plugin/kodo_controller_server.go under the switch of
-- plugin/kodo_parameters.go.
use mathlib.Core.List.{append_assoc, append-nil}
use kubernetes_csi_driver.Base.{◌≡◌, refl, ap, ◌∙◌, [], ◌++◌, some, ok, range_loop}
use kubernetes_csi_driver.Text.{Str, trim_space}
use kubernetes_csi_driver.Plugin.Fields.{
  s3_force_path_style, dir_cache_duration, buffer_size, vfs_cache_max_age, vfs_cache_poll_interval,
  vfs_write_back, vfs_cache_max_size, vfs_read_ahead, vfs_fast_finger_print, vfs_read_chunk_size,
  vfs_read_chunk_size_limit, no_checksum, no_mod_time, no_seek, read_only, vfs_read_wait,
  vfs_write_wait, transfers, vfs_disk_space_total_size, write_back_cache, upload_cutoff,
  upload_chunk_size, upload_concurrency, debug_http, debug_fuse, sub_dir, access_key, secret_key,
  uc_endpoint, region, storage_class, vfs_cache_mode, bucket_id, bucket_name, s3_endpoint,
  s3_region, original_access_key, original_secret_key,
}
use kubernetes_csi_driver.Plugin.Values.{GoLib, StrMap, parse_url, want_url, mode_string}
use kubernetes_csi_driver.Plugin.Reading.{settle, parse_mode-mode_string}
use kubernetes_csi_driver.Plugin.Kodo.StorageClass.{
  KodoStorageClassParameter, zero_storage_class, assign, assign_all,
}
use kubernetes_csi_driver.Plugin.Kodo.Context.{
  Provisioned, url_text, required_entries, cache_entries, transfer_entries, volume_context,
}
use kubernetes_csi_driver.Plugin.Kodo.Load.{
  Fits, assign_all-cons, load_uint, load_bool, load_duration, load_flag,
}

-- A text as `strings.TrimSpace` leaves it.
abbrev pub IsTrimmed : Str → Type 0
IsTrimmed s = trim_space s ≡ s

module _ {Url Duration : Type 0} (go : GoLib Url Duration) where
  -- `time.ParseDuration` reads what `Duration.String` writes.
  abbrev pub ReadsDurations : Type 0
  ReadsDurations = (d : Duration) → go.parse_duration (trim_space (go.duration_string d)) ≡ some d

  -- Parameters as the parser and the account leave them: trimmed texts, an endpoint that is read
  -- back from its text, 64-bit numbers.
  pub record IsWritable (p : KodoStorageClassParameter Url Duration) (u : Url) : Type 0 where
    pub access_trimmed : IsTrimmed p.access_key
    pub secret_trimmed : IsTrimmed p.secret_key
    pub region_trimmed : IsTrimmed p.region
    pub class_trimmed : IsTrimmed p.storage_class
    pub dir_trimmed : IsTrimmed p.sub_dir
    pub endpoint_set : p.uc_endpoint ≡ some u
    pub endpoint_read : parse_url go (go.url_string u) ≡ some u
    pub buffer_size_fits : Fits p.buffer_size
    pub vfs_cache_max_size_fits : Fits p.vfs_cache_max_size
    pub vfs_read_ahead_fits : Fits p.vfs_read_ahead
    pub vfs_read_chunk_size_fits : Fits p.vfs_read_chunk_size
    pub vfs_read_chunk_size_limit_fits : Fits p.vfs_read_chunk_size_limit
    pub transfers_fits : Fits p.transfers
    pub vfs_disk_space_total_size_fits : Fits p.vfs_disk_space_total_size
    pub upload_cutoff_fits : Fits p.upload_cutoff
    pub upload_chunk_size_fits : Fits p.upload_chunk_size
    pub upload_concurrency_fits : Fits p.upload_concurrency

  module _ (fn : Str) (durations : ReadsDurations) (b : Provisioned)
      (p : KodoStorageClassParameter Url Duration) (u : Url) (w : IsWritable p u) where
    -- What the required entries set, and then the entries of the first half.
    with_required : KodoStorageClassParameter Url Duration
    with_required = record zero_storage_class {
      sub_dir = p.sub_dir;
      access_key = p.access_key;
      secret_key = p.secret_key;
      uc_endpoint = some u;
      region = p.region;
      storage_class = p.storage_class;
      vfs_cache_mode = settle p.vfs_cache_mode;
    }

    with_cache : KodoStorageClassParameter Url Duration
    with_cache = record with_required {
      s3_force_path_style = p.s3_force_path_style;
      dir_cache_duration = p.dir_cache_duration;
      buffer_size = p.buffer_size;
      vfs_cache_max_age = p.vfs_cache_max_age;
      vfs_cache_poll_interval = p.vfs_cache_poll_interval;
      vfs_write_back = p.vfs_write_back;
      vfs_cache_max_size = p.vfs_cache_max_size;
      vfs_read_ahead = p.vfs_read_ahead;
      vfs_fast_fingerprint = p.vfs_fast_fingerprint;
      vfs_read_chunk_size = p.vfs_read_chunk_size;
      vfs_read_chunk_size_limit = p.vfs_read_chunk_size_limit;
      no_checksum = p.no_checksum;
      no_mod_time = p.no_mod_time;
    }

    loaded : KodoStorageClassParameter Url Duration
    loaded = record p { uc_endpoint = some u; vfs_cache_mode = settle p.vfs_cache_mode }

    -- The entries of the map literal that the storage class parser knows.
    reads_endpoint :
        (q : KodoStorageClassParameter Url Duration)
        → assign go fn uc_endpoint (url_text go p.uc_endpoint) q
          ≡ ok (record q { uc_endpoint = some u })
    unfolding assign want_url url_text
    reads_endpoint q = rw (w.endpoint_set, w.endpoint_read, assign, want_url)

    reads_mode :
        (q : KodoStorageClassParameter Url Duration)
        → assign go fn vfs_cache_mode (mode_string p.vfs_cache_mode) q
          ≡ ok (record q { vfs_cache_mode = settle p.vfs_cache_mode })
    unfolding assign
    reads_mode q = rw (parse_mode-mode_string p.vfs_cache_mode, assign)

    load_required :
        (rest : StrMap)
        → assign_all go fn (required_entries go b p ++ rest) zero_storage_class
          ≡ assign_all go fn rest with_required
    unfolding required_entries with_required assign
    load_required rest =
        let q0 : KodoStorageClassParameter Url Duration = zero_storage_class in
        let q1 = record q0 { sub_dir = p.sub_dir } in
        let q2 = record q1 { access_key = p.access_key } in
        let q3 = record q2 { secret_key = p.secret_key } in
        let q4 = record q3 { uc_endpoint = some u } in
        let q5 = record q4 { region = p.region } in
        let q6 = record q5 { storage_class = p.storage_class } in
        let q7 = record q6 { vfs_cache_mode = settle p.vfs_cache_mode } in
        assign_all-cons go fn bucket_id _ _ q0 q0 refl
        ∙ assign_all-cons go fn bucket_name _ _ q0 q0 refl
        ∙ assign_all-cons go fn s3_endpoint _ _ q0 q0 refl
        ∙ assign_all-cons go fn s3_region _ _ q0 q0 refl
        ∙ assign_all-cons go fn sub_dir _ _ q0 q1
            (ap (λ t. ok (record q0 { sub_dir = t })) w.dir_trimmed)
        ∙ assign_all-cons go fn access_key _ _ q1 q2
            (ap (λ t. ok (record q1 { access_key = t })) w.access_trimmed)
        ∙ assign_all-cons go fn secret_key _ _ q2 q3
            (ap (λ t. ok (record q2 { secret_key = t })) w.secret_trimmed)
        ∙ assign_all-cons go fn original_access_key _ _ q3 q3 refl
        ∙ assign_all-cons go fn original_secret_key _ _ q3 q3 refl
        ∙ assign_all-cons go fn uc_endpoint _ _ q3 q4 (reads_endpoint q3)
        ∙ assign_all-cons go fn region _ _ q4 q5
            (ap (λ t. ok (record q4 { region = t })) w.region_trimmed)
        ∙ assign_all-cons go fn storage_class _ _ q5 q6
            (ap (λ t. ok (record q5 { storage_class = t })) w.class_trimmed)
        ∙ assign_all-cons go fn vfs_cache_mode _ _ q6 q7 (reads_mode q6)

    load_cache :
        (rest : StrMap)
        → assign_all go fn (cache_entries go p ++ rest) with_required
          ≡ assign_all go fn rest with_cache
    unfolding cache_entries with_required with_cache loaded assign
    load_cache rest =
        let q0 = with_required in
        let q1 = record q0 { s3_force_path_style = p.s3_force_path_style } in
        let q2 = record q1 { dir_cache_duration = p.dir_cache_duration } in
        let q3 = record q2 { buffer_size = p.buffer_size } in
        let q4 = record q3 { vfs_cache_max_age = p.vfs_cache_max_age } in
        let q5 = record q4 { vfs_cache_poll_interval = p.vfs_cache_poll_interval } in
        let q6 = record q5 { vfs_write_back = p.vfs_write_back } in
        let q7 = record q6 { vfs_cache_max_size = p.vfs_cache_max_size } in
        let q8 = record q7 { vfs_read_ahead = p.vfs_read_ahead } in
        let q9 = record q8 { vfs_fast_fingerprint = p.vfs_fast_fingerprint } in
        let q10 = record q9 { vfs_read_chunk_size = p.vfs_read_chunk_size } in
        let q11 = record q10 { vfs_read_chunk_size_limit = p.vfs_read_chunk_size_limit } in
        let q12 = record q11 { no_checksum = p.no_checksum } in
        simp append_assoc (
          load_bool go fn s3_force_path_style _ (λ x. record q0 { s3_force_path_style = x })
            (λ v x e. rw (e, assign)) p.s3_force_path_style
          ∙ load_duration go fn dir_cache_duration _ (λ x. record q1 { dir_cache_duration = x })
              (λ v x e. rw (e, assign)) p.dir_cache_duration durations
          ∙ load_uint go fn buffer_size _ (λ x. record q2 { buffer_size = x })
              (λ v x e. rw (e, assign)) p.buffer_size w.buffer_size_fits
          ∙ load_duration go fn vfs_cache_max_age _ (λ x. record q3 { vfs_cache_max_age = x })
              (λ v x e. rw (e, assign)) p.vfs_cache_max_age durations
          ∙ load_duration go fn vfs_cache_poll_interval _
              (λ x. record q4 { vfs_cache_poll_interval = x }) (λ v x e. rw (e, assign))
              p.vfs_cache_poll_interval durations
          ∙ load_duration go fn vfs_write_back _ (λ x. record q5 { vfs_write_back = x })
              (λ v x e. rw (e, assign)) p.vfs_write_back durations
          ∙ load_uint go fn vfs_cache_max_size _ (λ x. record q6 { vfs_cache_max_size = x })
              (λ v x e. rw (e, assign)) p.vfs_cache_max_size w.vfs_cache_max_size_fits
          ∙ load_uint go fn vfs_read_ahead _ (λ x. record q7 { vfs_read_ahead = x })
              (λ v x e. rw (e, assign)) p.vfs_read_ahead w.vfs_read_ahead_fits
          ∙ load_flag go fn vfs_fast_finger_print _ (λ x. record q8 { vfs_fast_fingerprint = x })
              (λ v x e. rw (e, assign)) p.vfs_fast_fingerprint
          ∙ load_uint go fn vfs_read_chunk_size _ (λ x. record q9 { vfs_read_chunk_size = x })
              (λ v x e. rw (e, assign)) p.vfs_read_chunk_size w.vfs_read_chunk_size_fits
          ∙ load_uint go fn vfs_read_chunk_size_limit _
              (λ x. record q10 { vfs_read_chunk_size_limit = x }) (λ v x e. rw (e, assign))
              p.vfs_read_chunk_size_limit w.vfs_read_chunk_size_limit_fits
          ∙ load_flag go fn no_checksum _ (λ x. record q11 { no_checksum = x })
              (λ v x e. rw (e, assign)) p.no_checksum
          ∙ load_flag go fn no_mod_time _ (λ x. record q12 { no_mod_time = x })
              (λ v x e. rw (e, assign)) p.no_mod_time)

    load_transfer :
        (rest : StrMap)
        → assign_all go fn (transfer_entries go p ++ rest) with_cache ≡ assign_all go fn rest loaded
    unfolding transfer_entries with_required with_cache loaded assign
    load_transfer rest =
        let q0 = with_cache in
        let q1 = record q0 { no_seek = p.no_seek } in
        let q2 = record q1 { read_only = p.read_only } in
        let q3 = record q2 { vfs_read_wait = p.vfs_read_wait } in
        let q4 = record q3 { vfs_write_wait = p.vfs_write_wait } in
        let q5 = record q4 { transfers = p.transfers } in
        let q6 = record q5 { vfs_disk_space_total_size = p.vfs_disk_space_total_size } in
        let q7 = record q6 { write_back_cache = p.write_back_cache } in
        let q8 = record q7 { upload_cutoff = p.upload_cutoff } in
        let q9 = record q8 { upload_chunk_size = p.upload_chunk_size } in
        let q10 = record q9 { upload_concurrency = p.upload_concurrency } in
        let q11 = record q10 { debug_http = p.debug_http } in
        simp append_assoc (
          load_flag go fn no_seek _ (λ x. record q0 { no_seek = x }) (λ v x e. rw (e, assign))
            p.no_seek
          ∙ load_flag go fn read_only _ (λ x. record q1 { read_only = x }) (λ v x e. rw (e, assign))
              p.read_only
          ∙ load_duration go fn vfs_read_wait _ (λ x. record q2 { vfs_read_wait = x })
              (λ v x e. rw (e, assign)) p.vfs_read_wait durations
          ∙ load_duration go fn vfs_write_wait _ (λ x. record q3 { vfs_write_wait = x })
              (λ v x e. rw (e, assign)) p.vfs_write_wait durations
          ∙ load_uint go fn transfers _ (λ x. record q4 { transfers = x }) (λ v x e. rw (e, assign))
              p.transfers w.transfers_fits
          ∙ load_uint go fn vfs_disk_space_total_size _
              (λ x. record q5 { vfs_disk_space_total_size = x }) (λ v x e. rw (e, assign))
              p.vfs_disk_space_total_size w.vfs_disk_space_total_size_fits
          ∙ load_flag go fn write_back_cache _ (λ x. record q6 { write_back_cache = x })
              (λ v x e. rw (e, assign)) p.write_back_cache
          ∙ load_uint go fn upload_cutoff _ (λ x. record q7 { upload_cutoff = x })
              (λ v x e. rw (e, assign)) p.upload_cutoff w.upload_cutoff_fits
          ∙ load_uint go fn upload_chunk_size _ (λ x. record q8 { upload_chunk_size = x })
              (λ v x e. rw (e, assign)) p.upload_chunk_size w.upload_chunk_size_fits
          ∙ load_uint go fn upload_concurrency _ (λ x. record q9 { upload_concurrency = x })
              (λ v x e. rw (e, assign)) p.upload_concurrency w.upload_concurrency_fits
          ∙ load_flag go fn debug_http _ (λ x. record q10 { debug_http = x })
              (λ v x e. rw (e, assign)) p.debug_http
          ∙ load_flag go fn debug_fuse _ (λ x. record q11 { debug_fuse = x })
              (λ v x e. rw (e, assign)) p.debug_fuse)

    pub assign_all-volume_context :
        assign_all go fn (volume_context go b p) zero_storage_class
        ≡ ok (record p { uc_endpoint = some u; vfs_cache_mode = settle p.vfs_cache_mode })
    unfolding volume_context assign_all range_loop loaded
    assign_all-volume_context =
        load_required (cache_entries go p ++ transfer_entries go p)
        ∙ load_cache (transfer_entries go p)
        ∙ rw (← append-nil (transfer_entries go p)) (load_transfer [])
