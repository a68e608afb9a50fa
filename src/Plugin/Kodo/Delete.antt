-- ===== src/Plugin/Kodo/Delete.antt =====
-- DeleteVolume in plugin/kodo_controller_server.go.
use kubernetes_csi_driver.Base.{[], ◌∷◌, Option, if◌then◌else◌, Result, ok, err}
use kubernetes_csi_driver.Text.{Str, lit, str_eq}
use kubernetes_csi_driver.Plugin.Values.{GoLib, StrMap}
use kubernetes_csi_driver.Plugin.Kodo.Volume.{KodoPvParameter, KodoService, parse_kodo_pv}
use kubernetes_csi_driver.Plugin.Kodo.Create.{Volumes, drop_volume, normalize_policy_name}
use kubernetes_csi_driver.Plugin.Kodo.Calls.{
  get_persistent_volume, revoke_policy, delete_policy, delete_user, clean_objects, delete_bucket,
  Outcome, ◌>>=◌, done, attempt, unreadable, failed,
}

-- What Kubernetes keeps of a volume: its attributes and its reclaim policy.
pub record PersistentVolume : Type 0 where
  pub attributes : StrMap
  pub reclaim_policy : Str

-- The answers to the calls of one DeleteVolume to the object storage.
pub record DeleteAnswers (E : Type 0) : Type 0 where
  pub policy_revoked : Str → Str → Result E (Unit {0})
  pub policy_deleted : Str → Result E (Unit {0})
  pub user_deleted : Str → Result E (Unit {0})
  pub objects_cleaned : Str → Result E (Unit {0})
  pub bucket_deleted : Str → Result E (Unit {0})

-- `qiniu.NewKodoClient`: whose calls they are.
pub record Client (Url : Type 0) : Type 0 where
  pub access_key : Str
  pub secret_key : Str
  pub uc_endpoint : Option Url

-- The client of DeleteVolume.
unfoldable pub deleting_client : {Url Duration : Type 0} → KodoPvParameter Url Duration → Client Url
deleting_client p = record {
  access_key = p.original_access_key;
  secret_key = p.original_secret_key;
  uc_endpoint = p.class.uc_endpoint;
}

module _ {E : Type 0} (answers : DeleteAnswers E) where
  -- The user and the policy of a volume.
  unfoldable pub withdraw : Str → Outcome E (Unit {0})
  withdraw id = do
    let policy = normalize_policy_name id
    _ ← attempt (revoke_policy id policy) (answers.policy_revoked id policy)
    _ ← attempt (delete_policy policy) (answers.policy_deleted policy)
    attempt (delete_user id) (answers.user_deleted id)

  -- Its bucket, when the reclaim policy is `PersistentVolumeReclaimDelete`.
  unfoldable pub reclaim : Str → Str → Outcome E (Unit {0})
  reclaim policy bucket =
      if str_eq policy (lit "Delete")
      then (do
        _ ← attempt (clean_objects bucket) (answers.objects_cleaned bucket)
        attempt (delete_bucket bucket) (answers.bucket_deleted bucket))
      else done tt

-- `kubernetes` is the answer of `PersistentVolumes().Get`, and `account` what the object storage
-- answers to the calls of a client.
module _ {Url Duration E : Type 0} (go : GoLib Url Duration) (service : KodoService Url E)
    (kubernetes : Str → Result E PersistentVolume) (account : Client Url → DeleteAnswers E) where
  -- `DeleteVolume`
  unfoldable pub delete_volume : Str → StrMap → Volumes → Outcome E (Unit {0}) × Volumes
  delete_volume id secrets vs = elim (kubernetes id) [
    | err e ↦ ((err (failed (get_persistent_volume id) e), get_persistent_volume id ∷ []), vs)
    | ok pv ↦ elim (parse_kodo_pv go (lit "DeleteVolume") service pv.attributes secrets) [
      | err e ↦ ((err (unreadable e), get_persistent_volume id ∷ []), vs)
      | ok p ↦
          let answers = account (deleting_client p) in
          let o = withdraw answers id >>= λ _. reclaim answers pv.reclaim_policy p.bucket_name in
          ((o.0, get_persistent_volume id ∷ o.1), drop_volume id vs)
    ]
  ]
