-- ===== src/Plugin/Kodo/Teardown.antt =====
-- About DeleteVolume in plugin/kodo_controller_server.go.
use kubernetes_csi_driver.Base.{
  ◌≡◌, refl, ap, Bool, true, false, List, [], ◌∷◌, none, Result, ok, arith, Result-cases, inl, inr,
  Bool-cases, err-ne-ok,
}
use kubernetes_csi_driver.Text.{Str, lit, str_eq}
use kubernetes_csi_driver.Plugin.Values.{GoLib, StrMap}
use kubernetes_csi_driver.Plugin.Kodo.Volume.{KodoService, KodoPvParameter, parse_kodo_pv}
use kubernetes_csi_driver.Plugin.Kodo.Calls.{
  Call, get_persistent_volume, revoke_policy, delete_policy, delete_user, clean_objects,
  delete_bucket, ◌>>=◌,
}
use kubernetes_csi_driver.Plugin.Kodo.Create.{
  Volumes, find_volume, drop_volume, normalize_policy_name,
}
use kubernetes_csi_driver.Plugin.Kodo.Delete.{
  PersistentVolume, DeleteAnswers, Client, deleting_client, withdraw, reclaim, delete_volume,
}

-- The calls that destroy data.
abbrev pub destroys : List Call → Bool
destroys [] = false
destroys (clean_objects _ ∷ cs) = true
destroys (delete_bucket _ ∷ cs) = true
destroys (_ ∷ cs) = destroys cs

pub find_volume-drop_volume :
    (name : Str) (vs : Volumes) → find_volume name (drop_volume name vs) ≡ none
unfolding find_volume drop_volume
find_volume-drop_volume name [] = refl
find_volume-drop_volume name ((k, v) ∷ vs) = elim (Bool-cases (str_eq k name)) [
  | inl same ↦ rw same (find_volume-drop_volume name vs)
  | inr other ↦ rw (other, find_volume, other) (find_volume-drop_volume name vs)
]

module _ {E : Type 0} (answers : DeleteAnswers E) where
  -- The calls after the parameters were read, when all succeed.
  reclaim_trace :
      (id policy bucket : Str)
      → str_eq policy (lit "Delete") ≡ true
      → (withdraw answers id >>= λ _. reclaim answers policy bucket).0 ≡ ok tt
      → (withdraw answers id >>= λ _. reclaim answers policy bucket).1
        ≡ revoke_policy id (normalize_policy_name id)
          ∷ delete_policy (normalize_policy_name id)
          ∷ delete_user id
          ∷ clean_objects bucket
          ∷ delete_bucket bucket
          ∷ []
  unfolding withdraw reclaim
  reclaim_trace id policy bucket h worked = ground arith

module _ {Url Duration E : Type 0} (go : GoLib Url Duration) (service : KodoService Url E)
    (kubernetes : Str → Result E PersistentVolume) (account : Client Url → DeleteAnswers E)
    (id : Str) (secrets : StrMap) (vs : Volumes) (pv : PersistentVolume)
    (known : kubernetes id ≡ ok pv) where
  -- For a volume that Kubernetes knows: unless the reclaim policy is "Delete", nothing is removed from the bucket, and the bucket is
  -- not deleted, whatever fails.
  pub delete_volume-retains :
      str_eq pv.reclaim_policy (lit "Delete") ≡ false
      → destroys (delete_volume go service kubernetes account id secrets vs).0.1 ≡ false
  unfolding delete_volume withdraw reclaim
  delete_volume-retains h =
      elim (Result-cases (parse_kodo_pv go (lit "DeleteVolume") service pv.attributes secrets)) [
        | inr (e, bad) ↦ rw (known, bad, delete_volume)
        | inl (p, good) ↦
            let answers = account (deleting_client p) in
            elim (Result-cases (answers.policy_revoked id (normalize_policy_name id))) [
              | inr (e, r) ↦ rw (known, good, r, delete_volume)
              | inl (_, r) ↦
                  elim (Result-cases (answers.policy_deleted (normalize_policy_name id))) [
                    | inr (e, d) ↦ rw (known, good, r, d, delete_volume)
                    | inl (_, d) ↦ elim (Result-cases (answers.user_deleted id)) [
                      | inr (e, u) ↦ rw (known, good, r, d, u, delete_volume)
                      | inl (_, u) ↦ rw (known, good, r, d, u, h, delete_volume)
                    ]
                  ]
            ]
      ]

  -- For a volume that Kubernetes knows: when the reclaim policy is "Delete", a deletion that succeeds made exactly these calls in this
  -- order: the policy is revoked and deleted, then the user, then the objects, then the bucket;
  -- and the parameters of the persistent volume name that bucket.
  pub delete_volume-reclaims :
      str_eq pv.reclaim_policy (lit "Delete") ≡ true
      → (delete_volume go service kubernetes account id secrets vs).0.0 ≡ ok tt
      → (p : KodoPvParameter Url Duration) × (parse_kodo_pv go
            (lit "DeleteVolume")
            service
            pv.attributes
            secrets
          ≡ ok p)
        × ((delete_volume go service kubernetes account id secrets vs).0.1
            ≡ get_persistent_volume id
              ∷ revoke_policy id (normalize_policy_name id)
              ∷ delete_policy (normalize_policy_name id)
              ∷ delete_user id
              ∷ clean_objects p.bucket_name
              ∷ delete_bucket p.bucket_name
              ∷ [])
  unfolding delete_volume withdraw reclaim
  delete_volume-reclaims h worked =
      elim (Result-cases (parse_kodo_pv go (lit "DeleteVolume") service pv.attributes secrets)) [
        | inr (e, bad) ↦ absurd (err-ne-ok (rw (known, bad, delete_volume) at worked))
        | inl (p, good) ↦ (
          p,
          good,
          rw (known, good, delete_volume)
              (ap (◌∷◌ (get_persistent_volume id)) (
                reclaim_trace (account (deleting_client p)) id pv.reclaim_policy p.bucket_name h
                  (rw (known, good, delete_volume) at worked))),
        )
      ]

  -- For a volume that Kubernetes knows: once its parameters were read the volume is forgotten, even if a call fails later.
  delete_volume-forgets :
      (p : KodoPvParameter Url Duration)
      → parse_kodo_pv go (lit "DeleteVolume") service pv.attributes secrets ≡ ok p
      → find_volume id (delete_volume go service kubernetes account id secrets vs).1 ≡ none
  unfolding delete_volume
  delete_volume-forgets p good = rw (known, good, delete_volume) (find_volume-drop_volume id vs)
