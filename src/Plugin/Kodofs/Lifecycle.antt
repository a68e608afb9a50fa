-- ===== src/Plugin/Kodofs/Lifecycle.antt =====
-- A KodoFS volume from CreateVolume to DeleteVolume, in plugin/kodofs_controller_server.go.
use kubernetes_csi_driver.Base.{
  ℕ, zero, suc, ◌≡◌, refl, sym, ok-injective, ap, ◌∙◌, ◌≢◌, Option, err, Bool, true, false, List,
  [], ◌∷◌, none, some, Result, ok, arith, Result-cases, inl, inr,
}
use kubernetes_csi_driver.Text.{Str, lit, str_eq}
use kubernetes_csi_driver.Plugin.Values.{GoLib, StrMap}
use kubernetes_csi_driver.Plugin.Kodo.{
  PersistentVolume, CsiVolume, Volumes, find_volume, drop_volume,
}
use kubernetes_csi_driver.Plugin.Kodo.Teardown.{find_volume-drop_volume}
use kubernetes_csi_driver.Plugin.Kodofs.Parameters.{
  KodofsStorageClassParameter, KodofsPvParameter, parse_kodofs_pv,
}
use kubernetes_csi_driver.Plugin.Kodofs.Calls.{
  KodofsClient, kodofs_client, KodofsCall, remove_all, drop_volume_of_master,
}
use kubernetes_csi_driver.Plugin.Kodofs.Archive.{
  ArchiveAnswers, ArchiveError, archive_loop, archive,
}
use kubernetes_csi_driver.Plugin.Kodofs.Endless.{archive_fails}
use kubernetes_csi_driver.Plugin.Kodofs.Server.{
  CreateKodofsAnswers, CreateKodofsRequest, kodofs_context, provision_kodofs,
}
use kubernetes_csi_driver.Plugin.Kodofs.Delete.{
  RemoveAnswers, RemoveError, removal_result, archive_result, delete_by_policy,
  delete_volume_of_kodofs,
}
use kubernetes_csi_driver.Plugin.Kodofs.Removal.{HowRemoved, remove_volume_of_kodofs_sound}
use kubernetes_csi_driver.Plugin.Kodofs.Survive.{IsReadBack, IsText, parse_kodofs_pv-kodofs_context}

-- The calls that destroy data.
abbrev pub destroys_volume : {Url : Type 0} → List (KodofsCall Url) → Bool
destroys_volume [] = false
destroys_volume (remove_all _ ∷ cs) = true
destroys_volume (drop_volume_of_master _ ∷ cs) = true
destroys_volume (_ ∷ cs) = destroys_volume cs

module _ (Url : Type 0) {E : Type 0} (answers : ArchiveAnswers E) (id : Str) where
  archive_loop-keeps :
      (fuel i : ℕ) → destroys_volume (archive_loop {Url = Url} answers id fuel i).1 ≡ false
  unfolding archive_loop
  archive_loop-keeps zero i = refl
  archive_loop-keeps (suc fuel) i = ground (arith, archive_loop-keeps fuel (suc i))

  archive-keeps :
      (point : Str) (fuel : ℕ)
      → destroys_volume (archive {Url = Url} answers id point fuel).1 ≡ false
  unfolding archive
  archive-keeps point fuel = ground (arith, archive_loop-keeps fuel 0)

-- An archived volume is never reported as deleted.
archive_result-unfinished :
    {Url E : Type 0} (o : Option (Result (ArchiveError E) (Unit {0})))
    → o ≢ some (ok tt)
    → archive_result {Url = Url} o ≢ some (ok tt)
unfolding archive_result
archive_result-unfinished none h e = ground arith
archive_result-unfinished (some (ok _)) h e = h refl
archive_result-unfinished (some (err x)) h e = ground arith

removal_result-worked :
    {Url E : Type 0} (o : Option (RemoveError Url E))
    → some (removal_result o) ≡ some (ok tt)
    → o ≡ none
unfolding removal_result
removal_result-worked none h = refl
removal_result-worked (some e) h = absurd (ground arith)

module _ {Url Duration E : Type 0} (join : Str → Str → Str)
    (removing : KodofsClient Url → RemoveAnswers Url E)
    (archiving : KodofsClient Url → ArchiveAnswers E) (go : GoLib Url Duration)
    (persistent_volume : Str → Result E PersistentVolume) where
  -- DeleteVolume once the parameters were read.
  ends :
      (fuel : ℕ) (id : Str) (secrets : StrMap) (vs : Volumes) (pv : PersistentVolume)
      (p : KodofsPvParameter Url)
      → persistent_volume id ≡ ok pv
      → parse_kodofs_pv go (lit "DeleteVolume") pv.attributes secrets ≡ ok p
      → delete_volume_of_kodofs join removing archiving go persistent_volume fuel id secrets vs
        ≡ (delete_by_policy join removing archiving fuel id pv.reclaim_policy p, drop_volume id vs)
  unfolding delete_volume_of_kodofs
  ends fuel id secrets vs pv p known good = rw (known, good, delete_volume_of_kodofs) refl

  kept_by_policy :
      (fuel : ℕ) (id policy : Str) (p : KodofsPvParameter Url)
      → str_eq policy (lit "Delete") ≡ false
      → (destroys_volume (delete_by_policy join removing archiving fuel id policy p).1 ≡ false)
        × ((delete_by_policy join removing archiving fuel id policy p).0 ≢ some (ok tt))
  unfolding delete_by_policy
  kept_by_policy fuel id policy p kept =
      let answers = archiving (kodofs_client p.class) in
      rw (kept, delete_by_policy)
        (
          archive-keeps Url answers id p.access_point_id fuel,
          archive_result-unfinished _ (archive_fails Url answers id p.access_point_id fuel),
        )

  -- For a volume that Kubernetes knows: unless the reclaim policy is "Delete", DeleteVolume destroys
  -- no data, and it never reports a success, whatever is answered and however long its loop runs.
  pub delete_volume_of_kodofs-retains :
      (fuel : ℕ) (id : Str) (secrets : StrMap) (vs : Volumes) (pv : PersistentVolume)
      → persistent_volume id ≡ ok pv
      → str_eq pv.reclaim_policy (lit "Delete") ≡ false
      → let end =
          delete_volume_of_kodofs join removing archiving go persistent_volume fuel id secrets vs in
        (destroys_volume end.0.1 ≡ false) × (end.0.0 ≢ some (ok tt))
  unfolding delete_volume_of_kodofs
  delete_volume_of_kodofs-retains fuel id secrets vs pv known kept =
      elim (Result-cases (parse_kodofs_pv go (lit "DeleteVolume") pv.attributes secrets)) [
        | inr (e, bad) ↦ rw (known, bad, delete_volume_of_kodofs) (refl, λ h. ground arith)
        | inl (p, good) ↦
            rw (ends fuel id secrets vs pv p known good)
              (kept_by_policy fuel id pv.reclaim_policy p kept)
      ]

  removed_by_policy :
      (fuel : ℕ) (id policy : Str) (p : KodofsPvParameter Url)
      → str_eq policy (lit "Delete") ≡ true
      → (delete_by_policy join removing archiving fuel id policy p).0 ≡ some (ok tt)
      → HowRemoved join
          (removing (kodofs_client p.class))
          id
          p
          (delete_by_policy join removing archiving fuel id policy p).1
  unfolding delete_by_policy
  removed_by_policy fuel id policy p disposable worked =
      rw (disposable, delete_by_policy)
        (remove_volume_of_kodofs_sound join (removing (kodofs_client p.class)) id p
          (removal_result-worked _ (rw (disposable, delete_by_policy) at worked)))

  module _ (p : KodofsStorageClassParameter Url) (mount master : Url)
      (reads : IsReadBack go (lit "DeleteVolume") p mount master) where
    made_volume :
        (answers : CreateKodofsAnswers E) (r : CreateKodofsRequest) (gateway point token : Str)
        (v : CsiVolume)
        → answers.volume_created r.name r.name p.region p.fs_type p.block_size ≡ ok gateway
        → answers.access_point_created r.name r.name ≡ ok point
        → answers.access_token_of point ≡ ok token
        → provision_kodofs go answers r p ≡ ok v
        → (v.id ≡ r.name) × (v.context ≡ kodofs_context go gateway point token p)
    unfolding provision_kodofs
    made_volume answers r gateway point token v created pointed tokened made =
        let same = ok-injective (rw (created, pointed, tokened, provision_kodofs) at made) in
        (sym (ap (λ w. w.id) same), sym (ap (λ w. w.context) same))

    -- A KodoFS volume that the controller made, and that Kubernetes still has with the volume context
    -- it was given, under the reclaim policy "Delete": if DeleteVolume succeeds, it made one of three
    -- sequences of calls, as the client that created the volume, with the gateway, the access point
    -- and the token that the master gave then. Either there was no such volume; or everything in it
    -- was removed, it was unmounted, and the access point and the volume were removed; or it was not
    -- unmounted but is not mounted either, and both were kept. The name is free again. This is for
    -- trimmed texts that are not blank and for parameters that are read back from their texts.
    pub delete_volume_of_kodofs-provision_kodofs :
        (answers : CreateKodofsAnswers E) (r : CreateKodofsRequest) (gateway point token : Str)
        (v : CsiVolume) (pv : PersistentVolume) (fuel : ℕ) (secrets : StrMap) (vs : Volumes)
        → answers.volume_created r.name r.name p.region p.fs_type p.block_size ≡ ok gateway
        → answers.access_point_created r.name r.name ≡ ok point
        → answers.access_token_of point ≡ ok token
        → IsText go (lit "DeleteVolume") p mount master reads gateway
        → IsText go (lit "DeleteVolume") p mount master reads point
        → IsText go (lit "DeleteVolume") p mount master reads token
        → provision_kodofs go answers r p ≡ ok v
        → persistent_volume v.id ≡ ok pv
        → pv.attributes ≡ v.context
        → str_eq pv.reclaim_policy (lit "Delete") ≡ true
        → let end =
            delete_volume_of_kodofs join removing archiving go persistent_volume fuel v.id secrets
              vs in
          end.0.0 ≡ some (ok tt)
          → HowRemoved join
              (removing (kodofs_client p))
              r.name
              (record {
                class = p;
                gateway_id = gateway;
                access_token = token;
                access_point_id = point;
              })
              (delete_volume_of_kodofs join removing archiving go persistent_volume fuel v.id
                secrets vs).0.1
            × (find_volume r.name
                  (delete_volume_of_kodofs join removing archiving go persistent_volume fuel v.id
                    secrets vs).1
                ≡ none)
    delete_volume_of_kodofs-provision_kodofs answers r gateway point token v pv fuel secrets vs
          created pointed tokened g q t made known attributes disposable worked =
        let (named, written) =
          made_volume answers r gateway point token v created pointed tokened made in
        let read =
          ap (λ m. parse_kodofs_pv go (lit "DeleteVolume") m secrets) (attributes ∙ written)
          ∙ parse_kodofs_pv-kodofs_context go (lit "DeleteVolume") p mount master reads gateway
              point token secrets g q t in
        let whole = ends fuel v.id secrets vs pv _ known read in
        rw (whole, named)
          (
            removed_by_policy fuel r.name pv.reclaim_policy _ disposable
                (rw (whole, named) at worked),
            find_volume-drop_volume r.name vs,
          )
