-- ===== src/Plugin/Kodo/Provision.antt =====
-- About CreateVolume in plugin/kodo_controller_server.go.
use mathlib.Core.Path.{subst}
use kubernetes_csi_driver.Base.{
  ◌≡◌, refl, sym, ap, ◌∙◌, ◌++◌, Option, inl, inr, none, some, Result, ok, err, arith, Option-cases,
  Result-cases, err-ne-ok, ok-injective,
}
use kubernetes_csi_driver.Text.{Str, lit, str_eq_refl}
use kubernetes_csi_driver.Plugin.Values.{GoLib}
use kubernetes_csi_driver.Plugin.Kodo.StorageClass.{KodoStorageClassParameter, parse_storage_class}
use kubernetes_csi_driver.Plugin.Kodo.Context.{Provisioned, volume_context}
use kubernetes_csi_driver.Plugin.Kodo.Volume.{FoundBucket}
use kubernetes_csi_driver.Plugin.Kodo.Calls.{
  Call, Outcome, ServerError, ◌>>=◌, done, attempt, require,
}
use kubernetes_csi_driver.Plugin.Kodo.Create.{
  CsiVolume, Volumes, find_volume, put_volume, Cloud, CreateRequest, key_pair, obtain_bucket,
  obtain_keys, provision, create_volume, normalize_policy_name,
}

pub find_volume-put_volume :
    (name : Str) (v : CsiVolume) (vs : Volumes) → find_volume name (put_volume name v vs) ≡ some v
unfolding find_volume put_volume
find_volume-put_volume name v vs = rw (str_eq_refl name)

-- Inversion of a bind that succeeds.
bind-eq-ok :
    {E A B : Type 0} (o : Outcome E A) (f : A → Outcome E B) (b : B)
    → (o >>= f).0 ≡ ok b
    → (a : A) × (o.0 ≡ ok a) × ((f a).0 ≡ ok b)
bind-eq-ok (ok a, calls) f b h = (a, refl, h)
bind-eq-ok (err e, calls) f b h = cc

attempt-eq-ok :
    {E A : Type 0} (c : Call) (r : Result E A) (a : A) → (attempt c r).0 ≡ ok a → r ≡ ok a
attempt-eq-ok c (ok b) a h = cc
attempt-eq-ok c (err e) a h = cc

require-eq-ok :
    {E A : Type 0} (c : Call) (r : Result E (Option A)) (a : A)
    → (require c r).0 ≡ ok a
    → r ≡ ok (some a)
require-eq-ok c (ok (some b)) a h = ap (λ x. ok (some x)) (ok-injective h)
require-eq-ok c (ok none) a h = absurd (err-ne-ok h)
require-eq-ok c (err e) a h = absurd (err-ne-ok h)

-- What is known of the bucket, and the parameters that are written for the volume.
abbrev pub bucket_known :
    {Url Duration : Type 0}
    → GoLib Url Duration
    → KodoStorageClassParameter Url Duration
    → FoundBucket
    → Url
    → Str
    → Provisioned
bucket_known go p c f t = record {
  id = c.id;
  bucket = c.name;
  endpoint = go.url_string f;
  s3_region_id = t;
  original_access = p.access_key;
  original_secret = p.secret_key;
}

abbrev pub with_own_keys :
    {Url Duration : Type 0}
    → KodoStorageClassParameter Url Duration
    → Str
    → Str × Str
    → KodoStorageClassParameter Url Duration
with_own_keys p region keys = record p { region = region; access_key = keys.0; secret_key = keys.1 }

module _ {Url Duration E : Type 0} (go : GoLib Url Duration) where
  -- A request for a name that is known returns the volume that is known, makes no call and changes
  -- nothing.
  create_volume_known :
      (cloud : Cloud Url E) (r : CreateRequest) (vs : Volumes) (v : CsiVolume)
      → find_volume r.name vs ≡ some v
      → create_volume go cloud r vs ≡ (done v, vs)
  unfolding create_volume
  create_volume_known cloud r vs v h = rw (h, create_volume)

  -- After a success the volume is known by its name.
  create_volume_stored :
      (cloud : Cloud Url E) (r : CreateRequest) (vs : Volumes) (v : CsiVolume)
      → (create_volume go cloud r vs).0.0 ≡ ok v
      → find_volume r.name (create_volume go cloud r vs).1 ≡ some v
  unfolding create_volume
  create_volume_stored cloud r vs v h = elim (Option-cases (find_volume r.name vs)) [
    | inr (w, known) ↦ ground (arith, known)
    | inl unknown ↦
        elim (Result-cases (parse_storage_class go (lit "CreateVolume") r.parameters r.secrets)) [
          | inr (e, bad) ↦ absurd (err-ne-ok (rw (unknown, bad, create_volume) at h))
          | inl (p, good) ↦ elim (Result-cases (provision go cloud r p).0) [
            | inr (e, bad) ↦ absurd (err-ne-ok (rw (unknown, good, bad, create_volume) at h))
            | inl (w, made) ↦
                let same = ok-injective (rw (unknown, good, made, create_volume) at h) in
                rw (unknown, good, made, create_volume)
                  (find_volume-put_volume r.name w vs ∙ ap some same)
          ]
        ]
  ]

  -- After a CreateVolume that succeeded, another one for the same name, whatever its parameters and
  -- whatever the cloud answers, returns the same volume, makes no call and changes nothing.
  pub create_volume-again :
      (cloud cloud' : Cloud Url E) (r r' : CreateRequest) (vs : Volumes) (v : CsiVolume)
      → (create_volume go cloud r vs).0.0 ≡ ok v
      → r'.name ≡ r.name
      → let after = (create_volume go cloud r vs).1 in
        create_volume go cloud' r' after ≡ (done v, after)
  create_volume-again cloud cloud' r r' vs v h same = create_volume_known cloud' r' _ v (
      ap (λ name. find_volume name (create_volume go cloud r vs).1) same
      ∙ create_volume_stored cloud r vs v h)

  -- A CreateVolume that fails leaves the map of the volumes as it was.
  pub create_volume-failed :
      (cloud : Cloud Url E) (r : CreateRequest) (vs : Volumes) (e : ServerError E)
      → (create_volume go cloud r vs).0.0 ≡ err e
      → (create_volume go cloud r vs).1 ≡ vs
  unfolding create_volume
  create_volume-failed cloud r vs e h = elim (Option-cases (find_volume r.name vs)) [
    | inr (w, known) ↦ rw (known, create_volume)
    | inl unknown ↦
        elim (Result-cases (parse_storage_class go (lit "CreateVolume") r.parameters r.secrets)) [
          | inr (e', bad) ↦ rw (unknown, bad, create_volume)
          | inl (p, good) ↦ elim (Result-cases (provision go cloud r p).0) [
            | inr (e', bad) ↦ rw (unknown, good, bad, create_volume)
            | inl (w, made) ↦
                absurd (err-ne-ok (sym (rw (unknown, good, made, create_volume) at h)))
          ]
        ]
  ]

  -- Where the bucket comes from, with the region that is used from then on: it was there and its own
  -- region is taken, or it was created in the region of the parameters.
  pub data IsObtained (cloud : Cloud Url E) (name region : Str) : FoundBucket → Str → Type 0 where
    reused :
        (c : FoundBucket)
        → cloud.found_before name ≡ ok (some c)
        → IsObtained cloud name region c c.kodo_region_id
    created :
        (c : FoundBucket)
        → cloud.found_before name ≡ ok none
        → cloud.bucket_created name region ≡ ok tt
        → cloud.found_after name ≡ ok (some c)
        → IsObtained cloud name region c region

  -- The cloud can do its part of a CreateVolume: `c` is the bucket, `region` its region, `f` and `t`
  -- are the endpoint and the S3 region that are answered for it, and `keys` those of the user.
  pub record IsAnswered (cloud : Cloud Url E) (r : CreateRequest)
      (p : KodoStorageClassParameter Url Duration) (c : FoundBucket) (region : Str) (f : Url)
      (t : Str) (keys : Str × Str) : Type 0 where
    pub obtained : IsObtained cloud (r.name ++ (lit "-" ++ r.random_suffix)) p.region c region
    pub endpoint : cloud.s3_endpoint_of region ≡ ok (some f)
    pub s3_region : cloud.s3_region_of region ≡ ok (some t)
    pub user : cloud.user_created r.name r.random_password ≡ ok tt
    pub own_keys : key_pair go cloud r.name ≡ ok keys
    pub policy : cloud.policy_created (normalize_policy_name r.name) c.name ≡ ok tt
    pub grant : cloud.policy_granted r.name (normalize_policy_name r.name) ≡ ok tt

  obtain_bucket_eq :
      (cloud : Cloud Url E) (name : Str) (p : KodoStorageClassParameter Url Duration)
      (c : FoundBucket) (region : Str)
      → IsObtained cloud name p.region c region
      → (obtain_bucket go cloud name p).0 ≡ ok (c, record p { region = region })
  unfolding obtain_bucket
  obtain_bucket_eq cloud name p c _ (reused _ there) = rw (there, obtain_bucket) refl
  obtain_bucket_eq cloud name p c _ (created _ absent made there) =
      rw (absent, made, there, obtain_bucket) refl

  -- A CreateVolume whose cloud can do its part succeeds with this volume.
  pub create_volume-IsAnswered :
      (cloud : Cloud Url E) (r : CreateRequest) (vs : Volumes)
      (p : KodoStorageClassParameter Url Duration) (c : FoundBucket) (region : Str) (f : Url)
      (t : Str) (keys : Str × Str)
      → find_volume r.name vs ≡ none
      → parse_storage_class go (lit "CreateVolume") r.parameters r.secrets ≡ ok p
      → IsAnswered cloud r p c region f t keys
      → (create_volume go cloud r vs).0.0
        ≡ ok (record {
          capacity = r.required_bytes;
          id = r.name;
          context = volume_context go (bucket_known go p c f t) (with_own_keys p region keys);
        })
  unfolding create_volume provision obtain_keys
  create_volume-IsAnswered cloud r vs p c region f t keys unknown good a =
      rw
        (
          unknown,
          good,
          create_volume,
          provision,
          obtain_bucket_eq cloud _ p c region a.obtained,
          a.endpoint,
          a.s3_region,
          obtain_keys,
          a.user,
          a.own_keys,
          a.policy,
          a.grant,
        )
        refl

  -- How a new volume came about: `p` are the parameters that were read, and `q` those that were
  -- written; the bucket, its region, the endpoint and the S3 region are answers of the cloud.
  pub record IsMade (cloud : Cloud Url E) (r : CreateRequest)
      (p : KodoStorageClassParameter Url Duration) (v : CsiVolume) (b : Provisioned)
      (q : KodoStorageClassParameter Url Duration) : Type 0 where
    pub named : v.id ≡ r.name
    pub sized : v.capacity ≡ r.required_bytes
    pub written : v.context ≡ volume_context go b q
    pub own_keys : key_pair go cloud r.name ≡ ok (q.access_key, q.secret_key)
    pub account_access : b.original_access ≡ p.access_key
    pub account_secret : b.original_secret ≡ p.secret_key
    pub found_bucket : FoundBucket
    pub obtained :
        IsObtained cloud (r.name ++ (lit "-" ++ r.random_suffix)) p.region found_bucket q.region
    pub id_found : b.id ≡ found_bucket.id
    pub name_found : b.bucket ≡ found_bucket.name
    pub found_endpoint : Url
    pub endpoint_found : cloud.s3_endpoint_of q.region ≡ ok (some found_endpoint)
    pub endpoint_written : b.endpoint ≡ go.url_string found_endpoint
    pub s3_region_found : cloud.s3_region_of q.region ≡ ok (some b.s3_region_id)
    pub user_made : cloud.user_created r.name r.random_password ≡ ok tt
    pub policy_made : cloud.policy_created (normalize_policy_name r.name) b.bucket ≡ ok tt
    pub policy_given : cloud.policy_granted r.name (normalize_policy_name r.name) ≡ ok tt
    pub rest_kept :
        record q { access_key = p.access_key; secret_key = p.secret_key; region = p.region } ≡ p

  bucket_keeps :
      (cloud : Cloud Url E) (name : Str) (p : KodoStorageClassParameter Url Duration)
      (b : FoundBucket) (q : KodoStorageClassParameter Url Duration)
      → (obtain_bucket go cloud name p).0 ≡ ok (b, q)
      → record q { region = p.region } ≡ p
  unfolding obtain_bucket
  bucket_keeps cloud name p b q h = elim (Result-cases (cloud.found_before name)) [
    | inr (e, broken) ↦ absurd (err-ne-ok (rw (broken, obtain_bucket) at h))
    | inl (before, looked) ↦ elim (Option-cases before) [
      | inr (c, old) ↦
          let same = ok-injective (rw (looked, old, obtain_bucket) at h) in
          rw (← ap (λ w. w.1) same) refl
      | inl new ↦
          let (_, _, h1) =
            bind-eq-ok (attempt _ (cloud.bucket_created name p.region)) _ (b, q)
              (rw (looked, new, obtain_bucket) at h) in
          let (_, _, h2) = bind-eq-ok (require _ (cloud.found_after name)) _ (b, q) h1 in
          rw (← ap (λ w. w.1) (ok-injective h2)) refl
    ]
  ]

  bucket_obtained :
      (cloud : Cloud Url E) (name : Str) (p : KodoStorageClassParameter Url Duration)
      (b : FoundBucket) (q : KodoStorageClassParameter Url Duration)
      → (obtain_bucket go cloud name p).0 ≡ ok (b, q)
      → IsObtained cloud name p.region b q.region
  unfolding obtain_bucket
  bucket_obtained cloud name p b q h = elim (Result-cases (cloud.found_before name)) [
    | inr (e, broken) ↦ absurd (err-ne-ok (rw (broken, obtain_bucket) at h))
    | inl (before, looked) ↦ elim (Option-cases before) [
      | inr (c, old) ↦
          let same = ok-injective (rw (looked, old, obtain_bucket) at h) in
          subst (λ w. IsObtained cloud name p.region w.0 w.1.region) same
            (reused c (looked ∙ ap ok old))
      | inl new ↦
          let (_, made, h1) =
            bind-eq-ok (attempt _ (cloud.bucket_created name p.region)) _ (b, q)
              (rw (looked, new, obtain_bucket) at h) in
          let (c, there, h2) = bind-eq-ok (require _ (cloud.found_after name)) _ (b, q) h1 in
          subst (λ w. IsObtained cloud name p.region w.0 w.1.region) (ok-injective h2)
            (created c (looked ∙ ap ok new) (attempt-eq-ok _ _ _ made) (require-eq-ok _ _ _ there))
    ]
  ]

  keys_given :
      (cloud : Cloud Url E) (r : CreateRequest) (bucket : Str) (keys : Str × Str)
      → (obtain_keys go cloud r bucket).0 ≡ ok keys
      → (key_pair go cloud r.name ≡ ok keys)
        × (cloud.user_created r.name r.random_password ≡ ok tt)
        × (cloud.policy_created (normalize_policy_name r.name) bucket ≡ ok tt)
        × (cloud.policy_granted r.name (normalize_policy_name r.name) ≡ ok tt)
  unfolding obtain_keys
  keys_given cloud r bucket keys h =
      let (_, user, h1) =
        bind-eq-ok (attempt _ (cloud.user_created r.name r.random_password)) _ keys h in
      let (given, e, h2) = bind-eq-ok (attempt _ (key_pair go cloud r.name)) _ keys h1 in
      let (_, policy, h3) = bind-eq-ok (attempt _ (cloud.policy_created _ bucket)) _ keys h2 in
      let (_, grant, h4) = bind-eq-ok (attempt _ (cloud.policy_granted r.name _)) _ keys h3 in
      (
        attempt-eq-ok _ _ given e ∙ ap ok (ok-injective h4),
        attempt-eq-ok _ _ _ user,
        attempt-eq-ok _ _ _ policy,
        attempt-eq-ok _ _ _ grant,
      )

  -- What a provisioning that succeeds has made.
  provision_makes :
      (cloud : Cloud Url E) (r : CreateRequest) (p : KodoStorageClassParameter Url Duration)
      (v : CsiVolume)
      → (provision go cloud r p).0 ≡ ok v
      → (b : Provisioned) × (q : KodoStorageClassParameter Url Duration) × IsMade cloud r p v b q
  unfolding provision
  provision_makes cloud r p v h =
      let ((c, q), found, h1) = bind-eq-ok (obtain_bucket go cloud _ p) _ v h in
      let (endpoint, served, h2) = bind-eq-ok (require _ (cloud.s3_endpoint_of q.region)) _ v h1 in
      let (region_id, named, h3) = bind-eq-ok (require _ (cloud.s3_region_of q.region)) _ v h2 in
      let (keys, given, h4) = bind-eq-ok (obtain_keys go cloud r c.name) _ v h3 in
      let kept = bucket_keeps cloud _ p c q found in
      let (own, user, policy, grant) = keys_given cloud r c.name keys given in
      let made = ok-injective h4 in
      (
        record {
          id = c.id;
          bucket = c.name;
          endpoint = go.url_string endpoint;
          s3_region_id = region_id;
          original_access = q.access_key;
          original_secret = q.secret_key;
        },
        record q { access_key = keys.0; secret_key = keys.1 },
        record {
          named = sym (ap (λ w. w.id) made);
          sized = sym (ap (λ w. w.capacity) made);
          written = sym (ap (λ w. w.context) made);
          own_keys = own;
          found_bucket = c;
          obtained = bucket_obtained cloud _ p c q found;
          id_found = refl;
          name_found = refl;
          found_endpoint = endpoint;
          endpoint_found = require-eq-ok _ _ _ served;
          endpoint_written = refl;
          s3_region_found = require-eq-ok _ _ _ named;
          user_made = user;
          policy_made = policy;
          policy_given = grant;
          account_access = ap (λ w. w.access_key) kept;
          account_secret = ap (λ w. w.secret_key) kept;
          rest_kept =
              ap {A = KodoStorageClassParameter Url Duration}
                (λ w. record w { access_key = p.access_key; secret_key = p.secret_key }) kept;
        },
      )

  -- A volume that was not known and is created: with the parameters that were read, its context is
  -- that of the same parameters, except for the region and for the keys, which are those of the
  -- user of the volume; the keys of the account stand beside them. The bucket was there before, and
  -- then the region is its own, or it was created in the region of the parameters. Its ID and its
  -- name, and the endpoint and the S3 region of that region, are those that the cloud answered, and
  -- the user was granted a policy for the bucket.
  pub create_volume-IsMade :
      (cloud : Cloud Url E) (r : CreateRequest) (vs : Volumes) (v : CsiVolume)
      → find_volume r.name vs ≡ none
      → (create_volume go cloud r vs).0.0 ≡ ok v
      → (p : KodoStorageClassParameter Url Duration) × (parse_storage_class go
            (lit "CreateVolume")
            r.parameters
            r.secrets
          ≡ ok p)
        × ((b : Provisioned) × (q : KodoStorageClassParameter Url Duration) × IsMade cloud r p v b
              q)
  unfolding create_volume
  create_volume-IsMade cloud r vs v unknown h =
      elim (Result-cases (parse_storage_class go (lit "CreateVolume") r.parameters r.secrets)) [
        | inr (e, bad) ↦ absurd (err-ne-ok (rw (unknown, bad, create_volume) at h))
        | inl (p, good) ↦ elim (Result-cases (provision go cloud r p).0) [
          | inr (e, bad) ↦ absurd (err-ne-ok (rw (unknown, good, bad, create_volume) at h))
          | inl (w, made) ↦
              let same = ok-injective (rw (unknown, good, made, create_volume) at h) in
              (p, good, provision_makes cloud r p v (made ∙ ap ok same))
        ]
      ]
