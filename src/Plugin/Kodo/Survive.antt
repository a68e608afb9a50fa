-- ===== src/Plugin/Kodo/Survive.antt =====
-- The way of the parameters from CreateVolume (plugin/kodo_controller_server.go) to the parser of
-- the node server (plugin/kodo_parameters.go).
use kubernetes_csi_driver.Base.{
  ◌≡◌, refl, sym, ap, ◌∙◌, Bool, false, [], ◌∷◌, Option, none, some, ok,
}
use kubernetes_csi_driver.Text.{Str, is_blank}
use kubernetes_csi_driver.Plugin.Fields.{
  Field, name, access_key, secret_key, region, storage_class, sub_dir, s3_force_path_style,
}
use kubernetes_csi_driver.Plugin.Values.{GoLib, StrMap, lookup, text_or_fail, text_or_default}
use kubernetes_csi_driver.Plugin.Reading.{settle}
use kubernetes_csi_driver.Plugin.Kodo.StorageClass.{
  KodoStorageClassParameter, complete, complete_uc_endpoint, complete_force_path_style,
  parse_storage_class,
}
use kubernetes_csi_driver.Plugin.Kodo.Context.{Provisioned, volume_context}
use kubernetes_csi_driver.Plugin.Kodo.RoundTrip.{
  IsWritable, ReadsDurations, assign_all-volume_context,
}

-- Secrets that say nothing of the sub-directory and of the path style.
pub record LeavesOptions (secrets : StrMap) : Type 0 where
  pub no_dir : lookup (name sub_dir) secrets ≡ none
  pub no_style : lookup (name s3_force_path_style) secrets ≡ none

-- The texts that the parser takes from the secrets when they are blank.
pub record IsFilled {Url Duration : Type 0} (p : KodoStorageClassParameter Url Duration)
    : Type 0 where
  pub access_filled : is_blank p.access_key ≡ false
  pub secret_filled : is_blank p.secret_key ≡ false
  pub region_filled : is_blank p.region ≡ false
  pub class_filled : is_blank p.storage_class ≡ false

text_or_fail_kept :
    (fn : Str) (f : Field) (secrets : StrMap) (s : Str)
    → is_blank s ≡ false
    → text_or_fail fn f secrets s ≡ ok s
unfolding text_or_fail
text_or_fail_kept fn f secrets s h = rw h

pub text_or_default_kept :
    (f : Field) (secrets : StrMap) (d s : Str)
    → is_blank s ≡ false
    → text_or_default f secrets d s ≡ s
unfolding text_or_default
text_or_default_kept f secrets d s h = rw h

text_or_default_absent :
    (f : Field) (secrets : StrMap) (s : Str)
    → lookup (name f) secrets ≡ none
    → text_or_default f secrets [] s ≡ s
unfolding text_or_default is_blank
text_or_default_absent f secrets [] h = rw h
text_or_default_absent f secrets (c ∷ s) h = refl

module _ {Url Duration : Type 0} (go : GoLib Url Duration) (fn : Str) (secrets : StrMap) where
  style_kept :
      (o : Option Bool)
      → lookup (name s3_force_path_style) secrets ≡ none
      → complete_force_path_style go fn secrets o ≡ ok o
  unfolding complete_force_path_style
  style_kept none h = rw (h, complete_force_path_style)
  style_kept (some b) h = refl

  endpoint_kept :
      (o : Option Url) (u : Url) → o ≡ some u → complete_uc_endpoint go fn secrets o ≡ ok u
  unfolding complete_uc_endpoint
  endpoint_kept o u h = rw h

  -- Completed parameters are not changed by a second completion.
  complete_filled :
      (p : KodoStorageClassParameter Url Duration) (u : Url)
      → p.uc_endpoint ≡ some u
      → IsFilled p
      → LeavesOptions secrets
      → complete go fn secrets p ≡ ok p
  unfolding complete
  complete_filled p u set filled leaves =
      rw
        (
          text_or_fail_kept fn access_key secrets p.access_key filled.access_filled,
          text_or_fail_kept fn secret_key secrets p.secret_key filled.secret_filled,
          endpoint_kept p.uc_endpoint u set,
          style_kept p.s3_force_path_style leaves.no_style,
          text_or_default_kept region secrets _ p.region filled.region_filled,
          text_or_default_kept storage_class secrets _ p.storage_class filled.class_filled,
          text_or_default_absent sub_dir secrets p.sub_dir leaves.no_dir,
        )
        (ap (λ e. ok (record p { uc_endpoint = e })) (sym set))

  -- What CreateVolume wrote into the volume context is read back by the node server: every
  -- parameter as it was, except that a cache mode that was not given becomes "off". This is for
  -- parameters as the parser and the account leave them: trimmed texts, 64-bit numbers, an endpoint
  -- that is read back from its text, and keys, a region and a storage class that are not blank; for
  -- secrets that have neither a sub-directory nor a path style; and for durations that
  -- `time.ParseDuration` reads back.
  pub parse_storage_class-volume_context :
      ReadsDurations go
      → (b : Provisioned) (p : KodoStorageClassParameter Url Duration) (u : Url) → IsWritable go p u
      → IsFilled p
      → LeavesOptions secrets
      → parse_storage_class go fn (volume_context go b p) secrets
        ≡ ok (record p { vfs_cache_mode = settle p.vfs_cache_mode })
  unfolding parse_storage_class
  parse_storage_class-volume_context durations b p u w filled leaves =
      let q = record p { uc_endpoint = some u; vfs_cache_mode = settle p.vfs_cache_mode } in
      let kept : IsFilled q = record {
        access_filled = filled.access_filled;
        secret_filled = filled.secret_filled;
        region_filled = filled.region_filled;
        class_filled = filled.class_filled;
      } in
      rw (assign_all-volume_context go fn durations b p u w) (
        complete_filled q u refl kept leaves
        ∙ ap (λ e. ok (record p { uc_endpoint = e; vfs_cache_mode = settle p.vfs_cache_mode }))
            (sym w.endpoint_set))
