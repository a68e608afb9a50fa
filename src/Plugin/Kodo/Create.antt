-- ===== src/Plugin/Kodo/Create.antt =====
-- CreateVolume in plugin/kodo_controller_server.go.
use kubernetes_csi_driver.Base.{
  ℕ, List, [], ◌∷◌, ◌++◌, Option, none, some, if◌then◌else◌, Result, ok, err,
}
use kubernetes_csi_driver.Text.{Str, lit, str_eq, remove_byte}
use kubernetes_csi_driver.Plugin.Values.{GoLib, StrMap}
use kubernetes_csi_driver.Plugin.Kodo.StorageClass.{KodoStorageClassParameter, parse_storage_class}
use kubernetes_csi_driver.Plugin.Kodo.Context.{volume_context}
use kubernetes_csi_driver.Plugin.Kodo.Volume.{FoundBucket}
use kubernetes_csi_driver.Plugin.Kodo.Calls.{
  find_bucket, create_bucket, get_s3_endpoint, get_s3_region, create_user, get_key_pair,
  create_policy, grant_policy, Outcome, ◌>>=◌, done, attempt, require, rejected,
}

-- `csi.Volume`
pub record CsiVolume : Type 0 where
  pub capacity : ℕ
  pub id : Str
  pub context : StrMap

-- The map `volumes` of the server.
abbrev pub Volumes : Type 0
Volumes = List (Str × CsiVolume)

unfoldable pub find_volume : Str → Volumes → Option CsiVolume
find_volume name [] = none
find_volume name ((k, v) ∷ vs) = if str_eq k name then some v else find_volume name vs

-- `delete(cs.volumes, volumeId)`
unfoldable pub drop_volume : Str → Volumes → Volumes
drop_volume name [] = []
drop_volume name ((k, v) ∷ vs) =
    let rest = drop_volume name vs in if str_eq k name then rest else (k, v) ∷ rest

-- `cs.volumes[pvName] = volume`
unfoldable pub put_volume : Str → CsiVolume → Volumes → Volumes
put_volume name v vs = (name, v) ∷ drop_volume name vs

-- The answers of the cloud to the calls of one CreateVolume; a bucket is looked for before it is
-- created and after it.
pub record Cloud (Url E : Type 0) : Type 0 where
  pub found_before : Str → Result E (Option FoundBucket)
  pub bucket_created : Str → Str → Result E (Unit {0})
  pub found_after : Str → Result E (Option FoundBucket)
  pub s3_endpoint_of : Str → Result E (Option Url)
  pub s3_region_of : Str → Result E (Option Str)
  pub user_created : Str → Str → Result E (Unit {0})
  pub first_key_pair : Str → Result E (Option (Str × Str))
  pub key_pair_created : Str → Result E (Str × Str)
  pub policy_created : Str → Str → Result E (Unit {0})
  pub policy_granted : Str → Str → Result E (Unit {0})

-- The request, with the draws of `randomBucketName(16)` and `randomPassword(128)`.
pub record CreateRequest : Type 0 where
  pub name : Str
  pub parameters : StrMap
  pub secrets : StrMap
  pub required_bytes : ℕ
  pub random_suffix : Str
  pub random_password : Str

-- `normalizePolicyName`
unfoldable pub normalize_policy_name : Str → Str
normalize_policy_name s = remove_byte b'-' s

module _ {Url Duration E : Type 0} (go : GoLib Url Duration) (cloud : Cloud Url E) where
  -- `GetIAMUserKeyPair` in qiniu/kodo.go: an error of the lookup is not an error.
  unfoldable pub key_pair : Str → Result E (Str × Str)
  key_pair user = elim (cloud.first_key_pair user) [
    | ok (some keys) ↦ ok keys
    | _ ↦ cloud.key_pair_created user
  ]

  -- The bucket: that which is found, in its region, or a new one in the region of the parameters.
  unfoldable pub obtain_bucket :
      Str
      → KodoStorageClassParameter Url Duration
      → Outcome E (FoundBucket × KodoStorageClassParameter Url Duration)
  obtain_bucket bucket p = do
    before ← attempt (find_bucket bucket) (cloud.found_before bucket)
    elim before [
      | some b ↦ done (b, record p { region = b.kodo_region_id })
      | none ↦ (do
        _ ← attempt (create_bucket bucket p.region) (cloud.bucket_created bucket p.region)
        b ← require (find_bucket bucket) (cloud.found_after bucket)
        done (b, p))
    ]

  -- A user for the volume, its keys, and a policy for the bucket that is granted to it.
  unfoldable pub obtain_keys : CreateRequest → Str → Outcome E (Str × Str)
  obtain_keys r bucket = do
    _ ← attempt (create_user r.name) (cloud.user_created r.name r.random_password)
    keys ← attempt (get_key_pair r.name) (key_pair r.name)
    let policy = normalize_policy_name r.name
    _ ← attempt (create_policy policy bucket) (cloud.policy_created policy bucket)
    _ ← attempt (grant_policy r.name policy) (cloud.policy_granted r.name policy)
    done keys

  -- Everything after the parameters were read.
  unfoldable pub provision :
      CreateRequest → KodoStorageClassParameter Url Duration → Outcome E CsiVolume
  provision r p = do
    (b, q) ← obtain_bucket (r.name ++ (lit "-" ++ r.random_suffix)) p
    endpoint ← require (get_s3_endpoint q.region) (cloud.s3_endpoint_of q.region)
    region_id ← require (get_s3_region q.region) (cloud.s3_region_of q.region)
    keys ← obtain_keys r b.name
    done (record {
      capacity = r.required_bytes;
      id = r.name;
      context =
          volume_context go
            (record {
              id = b.id;
              bucket = b.name;
              endpoint = go.url_string endpoint;
              s3_region_id = region_id;
              original_access = q.access_key;
              original_secret = q.secret_key;
            })
            (record q { access_key = keys.0; secret_key = keys.1 });
    })

  -- `CreateVolume`
  unfoldable pub create_volume : CreateRequest → Volumes → Outcome E CsiVolume × Volumes
  create_volume r vs = elim (find_volume r.name vs) [
    | some v ↦ (done v, vs)
    | none ↦ elim (parse_storage_class go (lit "CreateVolume") r.parameters r.secrets) [
      | err e ↦ ((err (rejected e), []), vs)
      | ok p ↦
          let o = provision r p in
          elim o.0 [ err e ↦ ((err e, o.1), vs) | ok v ↦ ((ok v, o.1), put_volume r.name v vs) ]
    ]
  ]
