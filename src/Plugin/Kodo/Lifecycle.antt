-- ===== src/Plugin/Kodo/Lifecycle.antt =====
-- A Kodo volume from CreateVolume to DeleteVolume, in plugin/kodo_controller_server.go.
use kubernetes_csi_driver.Base.{
  ◌≡◌, refl, ap, ◌∙◌, ◌↔◌, true, List, [], ◌∷◌, none, Result, ok, arith,
}
use kubernetes_csi_driver.Text.{Str, lit, str_eq}
use kubernetes_csi_driver.Plugin.Values.{GoLib, StrMap}
use kubernetes_csi_driver.Plugin.Reading.{settle}
use kubernetes_csi_driver.Plugin.Kodo.StorageClass.{KodoStorageClassParameter}
use kubernetes_csi_driver.Plugin.Kodo.Volume.{KodoService, KodoPvParameter, parse_kodo_pv}
use kubernetes_csi_driver.Plugin.Kodo.Context.{Provisioned}
use kubernetes_csi_driver.Plugin.Kodo.Calls.{
  Call, get_persistent_volume, revoke_policy, delete_policy, delete_user, clean_objects,
  delete_bucket, ◌>>=◌,
}
use kubernetes_csi_driver.Plugin.Kodo.Create.{
  CsiVolume, Cloud, CreateRequest, Volumes, find_volume, drop_volume, normalize_policy_name,
}
use kubernetes_csi_driver.Plugin.Kodo.Provision.{IsMade}
use kubernetes_csi_driver.Plugin.Kodo.RoundTrip.{IsWritable, ReadsDurations}
use kubernetes_csi_driver.Plugin.Kodo.Survive.{LeavesOptions, IsFilled}
use kubernetes_csi_driver.Plugin.Kodo.Arrive.{IsPlaced, arrived, parse_kodo_pv-volume_context}
use kubernetes_csi_driver.Plugin.Kodo.Delete.{
  PersistentVolume, DeleteAnswers, Client, deleting_client, withdraw, reclaim, delete_volume,
}
use kubernetes_csi_driver.Plugin.Kodo.Teardown.{find_volume-drop_volume}

-- The calls of a whole deletion after the volume was looked up.
abbrev pub teardown : Str → Str → List Call
teardown id bucket =
    revoke_policy id (normalize_policy_name id)
    ∷ delete_policy (normalize_policy_name id)
    ∷ delete_user id
    ∷ clean_objects bucket
    ∷ delete_bucket bucket
    ∷ []

-- What has to be answered for it.
pub record IsGranted {E : Type 0} (answers : DeleteAnswers E) (id bucket : Str) : Type 0 where
  pub revoked : answers.policy_revoked id (normalize_policy_name id) ≡ ok tt
  pub policy_gone : answers.policy_deleted (normalize_policy_name id) ≡ ok tt
  pub user_gone : answers.user_deleted id ≡ ok tt
  pub objects_gone : answers.objects_cleaned bucket ≡ ok tt
  pub bucket_gone : answers.bucket_deleted bucket ≡ ok tt

module _ {E : Type 0} (answers : DeleteAnswers E) (id policy bucket : Str)
    (disposable : str_eq policy (lit "Delete") ≡ true) where
  granted :
      IsGranted answers id bucket
      → (withdraw answers id >>= λ _. reclaim answers policy bucket) ≡ (ok tt, teardown id bucket)
  unfolding withdraw reclaim
  granted g =
      rw
        (
          disposable, g.revoked, g.policy_gone, g.user_gone, g.objects_gone, g.bucket_gone,
          withdraw, reclaim,
        )
        refl

  grants :
      (withdraw answers id >>= λ _. reclaim answers policy bucket).0 ≡ ok tt
      → IsGranted answers id bucket
  unfolding withdraw reclaim
  grants worked = record {
    revoked = ground arith;
    policy_gone = ground arith;
    user_gone = ground arith;
    objects_gone = ground arith;
    bucket_gone = ground arith;
  }

  deleted :
      let o = withdraw answers id >>= λ _. reclaim answers policy bucket in
      (o.0 ≡ ok tt) ↔ (
        IsGranted answers id bucket
        × (get_persistent_volume id ∷ o.1 ≡ get_persistent_volume id ∷ teardown id bucket))
  deleted = (
    λ worked. let g = grants worked in (g, ap (λ o. get_persistent_volume id ∷ o.1) (granted g)),
    λ (g, _). ap (λ o. o.0) (granted g),
  )

-- The client of the account that the parameters of a class give.
abbrev pub account_client :
    {Url Duration : Type 0} → KodoStorageClassParameter Url Duration → Client Url
account_client p = record {
  access_key = p.access_key;
  secret_key = p.secret_key;
  uc_endpoint = p.uc_endpoint;
}

module _ {Url Duration E : Type 0} (go : GoLib Url Duration) (service : KodoService Url E)
    (kubernetes : Str → Result E PersistentVolume) (account : Client Url → DeleteAnswers E) where
  -- The client of DeleteVolume is that of CreateVolume, before the keys were replaced.
  same_account :
      (cloud : Cloud Url E) (r : CreateRequest) (p q : KodoStorageClassParameter Url Duration)
      (v : CsiVolume) (b : Provisioned) (e : Url) (placed : IsPlaced go b e)
      → IsMade go cloud r p v b q
      → (fn : Str)
      → deleting_client
          (arrived go fn q b e placed (record q { vfs_cache_mode = settle q.vfs_cache_mode }))
        ≡ account_client p
  unfolding deleting_client
  same_account cloud r p q v b e placed made fn =
      rw (made.account_access, made.account_secret, ap (λ c. c.uc_endpoint) made.rest_kept) refl

  -- DeleteVolume once the parameters were read.
  ends :
      (id : Str) (secrets : StrMap) (vs : Volumes) (pv : PersistentVolume)
      (p : KodoPvParameter Url Duration)
      → kubernetes id ≡ ok pv
      → parse_kodo_pv go (lit "DeleteVolume") service pv.attributes secrets ≡ ok p
      → let answers = account (deleting_client p) in
        let o = withdraw answers id >>= λ _. reclaim answers pv.reclaim_policy p.bucket_name in
        delete_volume go service kubernetes account id secrets vs
        ≡ ((o.0, get_persistent_volume id ∷ o.1), drop_volume id vs)
  unfolding delete_volume
  ends id secrets vs pv p known good = rw (known, good, delete_volume) refl

  -- A volume that the controller made, and that Kubernetes still has with the volume context it was
  -- given, under the reclaim policy "Delete": DeleteVolume succeeds exactly if the account that
  -- created the volume may revoke and delete its policy, delete its user, clean its bucket and
  -- delete it, and then it made these calls and no other, as that account. In any case the name of
  -- the volume is free again. This is for parameters and a bucket that are read back from their
  -- texts.
  pub delete_volume-create_volume :
      (cloud : Cloud Url E) (r : CreateRequest) (p q : KodoStorageClassParameter Url Duration)
      (v : CsiVolume) (b : Provisioned) (u e : Url) (pv : PersistentVolume) (secrets : StrMap)
      (vs : Volumes)
      → IsMade go cloud r p v b q
      → ReadsDurations go
      → IsWritable go q u
      → IsFilled q
      → IsPlaced go b e
      → LeavesOptions secrets
      → kubernetes v.id ≡ ok pv
      → pv.attributes ≡ v.context
      → str_eq pv.reclaim_policy (lit "Delete") ≡ true
      → let end = delete_volume go service kubernetes account v.id secrets vs in
        ((end.0.0 ≡ ok tt) ↔ (
          IsGranted (account (account_client p)) r.name b.bucket
          × (end.0.1 ≡ get_persistent_volume r.name ∷ teardown r.name b.bucket)))
        × (find_volume r.name end.1 ≡ none)
  delete_volume-create_volume cloud r p q v b u e pv secrets vs made durations w filled placed
        leaves known attributes disposable =
      let class = record q { vfs_cache_mode = settle q.vfs_cache_mode } in
      let read =
        ap (λ m. parse_kodo_pv go (lit "DeleteVolume") service m secrets)
          (attributes ∙ made.written)
        ∙ parse_kodo_pv-volume_context go (lit "DeleteVolume") q b e placed service secrets u
            durations w filled leaves in
      let whole =
        ends v.id secrets vs pv (arrived go (lit "DeleteVolume") q b e placed class) known read in
      rw (whole, same_account cloud r p q v b e placed made (lit "DeleteVolume"), made.named)
        (
          deleted (account (account_client p)) r.name pv.reclaim_policy b.bucket disposable,
          find_volume-drop_volume r.name vs,
        )
