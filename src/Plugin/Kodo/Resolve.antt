-- ===== src/Plugin/Kodo/Resolve.antt =====
-- About parseKodoPvParameter in plugin/kodo_parameters.go.
use kubernetes_csi_driver.Base.{
  ◌≡◌, sym, ap, ◌∙◌, ◌⊎◌, inl, inr, false, Option, none, some, Result, ok, err, >>=-eq-ok, arith,
  Bool-cases, Option-cases,
}
use kubernetes_csi_driver.Text.{Str, is_blank}
use kubernetes_csi_driver.Plugin.Values.{GoLib, StrMap, ParseError}
use kubernetes_csi_driver.Plugin.Kodo.Volume.{
  KodoPvParameter, KodoService, FoundBucket, found, parsed, read_pv, resolve_bucket,
  resolve_endpoint, resolve_region, parse_kodo_pv,
}

module _ {Url Duration E : Type 0} (go : GoLib Url Duration) (fn : Str)
    (service : KodoService Url E) where
  -- The bucket ID was read, or it is that of the bucket with the name that was read; then the region
  -- is the bucket's too.
  abbrev pub BucketFrom : KodoPvParameter Url Duration → KodoPvParameter Url Duration → Type 0
  BucketFrom read p =
      ((is_blank read.bucket_id ≡ false)
        × (p.bucket_id ≡ read.bucket_id)
        × (p.class.region ≡ read.class.region))
      ⊎ ((b : FoundBucket) × (service.find_bucket read.bucket_name ≡ ok (some b))
          × (p.bucket_id ≡ b.id)
          × (p.class.region ≡ b.kodo_region_id))

  -- The endpoint was read, or it is that of the region.
  abbrev pub EndpointFrom : KodoPvParameter Url Duration → KodoPvParameter Url Duration → Type 0
  EndpointFrom read p =
      (u : Url) × (p.s3_endpoint ≡ some u)
      × ((read.s3_endpoint ≡ some u) ⊎ (service.get_s3_endpoint p.class.region ≡ ok (some u)))

  -- The S3 region was read, or it is that of the region.
  abbrev pub RegionFrom : KodoPvParameter Url Duration → KodoPvParameter Url Duration → Type 0
  RegionFrom read p =
      ((is_blank read.s3_region ≡ false) × (p.s3_region ≡ read.s3_region))
      ⊎ (service.get_s3_region p.class.region ≡ ok (some p.s3_region))

  found-eq-ok :
      {A : Type 0} (what : Str) (r : Result E (Option A)) (a : A)
      → found fn what r ≡ ok a
      → r ≡ ok (some a)
  unfolding found
  found-eq-ok what (err e) a h = cc
  found-eq-ok what (ok none) a h = cc
  found-eq-ok what (ok (some b)) a h = cc

  bucket_stage :
      (read p : KodoPvParameter Url Duration)
      → resolve_bucket go fn service read ≡ ok p
      → BucketFrom read p × (p.s3_endpoint ≡ read.s3_endpoint) × (p.s3_region ≡ read.s3_region)
  unfolding resolve_bucket
  bucket_stage read p h = elim (Bool-cases (is_blank read.bucket_id)) [
    | inr given ↦ ground arith
    | inl missing ↦ elim (Bool-cases (is_blank read.bucket_name)) [
      | inl none_given ↦ ground arith
      | inr named ↦
          let (b, e, same) =
            >>=-eq-ok (found fn read.bucket_name (service.find_bucket read.bucket_name)) _
              (rw (missing, named, resolve_bucket) at h) in
          (
            inr (b, found-eq-ok read.bucket_name _ b e, ground arith, ground arith),
            ground arith,
            ground arith,
          )
    ]
  ]

  endpoint_stage :
      (read p : KodoPvParameter Url Duration)
      → resolve_endpoint go fn service read ≡ ok p
      → EndpointFrom read p
        × (p.bucket_id ≡ read.bucket_id)
        × (p.class.region ≡ read.class.region)
        × (p.s3_region ≡ read.s3_region)
  unfolding resolve_endpoint
  endpoint_stage read p h = elim (Option-cases read.s3_endpoint) [
    | inr (u, given) ↦ ((u, ground arith, ground arith), ground arith, ground arith, ground arith)
    | inl missing ↦
        let (u, e, same) =
          >>=-eq-ok (found fn read.class.region (service.get_s3_endpoint read.class.region)) _
            (rw (missing, resolve_endpoint) at h) in
        let answer = found-eq-ok read.class.region _ u e in
        ((u, ground arith, ground arith), ground arith, ground arith, ground arith)
  ]

  region_stage :
      (read p : KodoPvParameter Url Duration)
      → resolve_region go fn service read ≡ ok p
      → RegionFrom read p
        × (p.bucket_id ≡ read.bucket_id)
        × (p.class.region ≡ read.class.region)
        × (p.s3_endpoint ≡ read.s3_endpoint)
  unfolding resolve_region
  region_stage read p h = elim (Bool-cases (is_blank read.s3_region)) [
    | inr given ↦ ground arith
    | inl missing ↦
        let (r, e, same) =
          >>=-eq-ok (found fn read.class.region (service.get_s3_region read.class.region)) _
            (rw (missing, resolve_region) at h) in
        let answer = found-eq-ok read.class.region _ r e in ground arith
  ]

  -- The three facts do not mind the later stages.
  BucketFrom-later :
      (read q p : KodoPvParameter Url Duration)
      → BucketFrom read q
      → p.bucket_id ≡ q.bucket_id
      → p.class.region ≡ q.class.region
      → BucketFrom read p
  BucketFrom-later read q p (inl (given, id, region)) d e = inl (given, d ∙ id, e ∙ region)
  BucketFrom-later read q p (inr (b, answer, id, region)) d e = inr (b, answer, d ∙ id, e ∙ region)

  EndpointFrom-later :
      (read q r p : KodoPvParameter Url Duration)
      → EndpointFrom q r
      → q.s3_endpoint ≡ read.s3_endpoint
      → p.s3_endpoint ≡ r.s3_endpoint
      → p.class.region ≡ r.class.region
      → EndpointFrom read p
  EndpointFrom-later read q r p (u, set, inl given) d e f = (u, e ∙ set, inl (sym d ∙ given))
  EndpointFrom-later read q r p (u, set, inr answer) d e f =
      (u, e ∙ set, inr (ap service.get_s3_endpoint f ∙ answer))

  RegionFrom-later :
      (read r p : KodoPvParameter Url Duration)
      → RegionFrom r p
      → r.s3_region ≡ read.s3_region
      → RegionFrom read p
  RegionFrom-later read r p (inl (given, same)) d = inl (ap is_blank (sym d) ∙ given, same ∙ d)
  RegionFrom-later read r p (inr answer) d = inr answer

  parsed-eq-ok : {A : Type 0} (r : Result ParseError A) (a : A) → parsed {E = E} r ≡ ok a → r ≡ ok a
  unfolding parsed
  parsed-eq-ok (ok b) a h = cc
  parsed-eq-ok (err e) a h = cc

  -- When parseKodoPvParameter succeeds, with `read` what it read from the two maps: the bucket ID
  -- was read and is not blank, or it is the ID of the bucket with the name that was read, whose
  -- region is taken over; the S3 endpoint and the S3 region were read, or are those that the
  -- service gives for the final region.
  pub parse_kodo_pv_sound :
      (ctx secrets : StrMap) (p : KodoPvParameter Url Duration)
      → parse_kodo_pv go fn service ctx secrets ≡ ok p
      → (read : KodoPvParameter Url Duration) × (read_pv go fn ctx secrets ≡ ok read)
        × BucketFrom read p
        × EndpointFrom read p
        × RegionFrom read p
  unfolding parse_kodo_pv
  parse_kodo_pv_sound ctx secrets p h =
      let (read, e, h1) = >>=-eq-ok (parsed (read_pv go fn ctx secrets)) _ h in
      let (q, e1, h2) = >>=-eq-ok (resolve_bucket go fn service read) _ h1 in
      let (r, e2, e3) = >>=-eq-ok (resolve_endpoint go fn service q) _ h2 in
      let (bucket, b1, b2) = bucket_stage read q e1 in
      let (endpoint, c1, c2, c3) = endpoint_stage q r e2 in
      let (region, d1, d2, d3) = region_stage r p e3 in
      (
        read,
        parsed-eq-ok _ read e,
        BucketFrom-later read q p bucket (d1 ∙ c1) (d2 ∙ c2),
        EndpointFrom-later read q r p endpoint b1 d3 d2,
        RegionFrom-later read r p region (c3 ∙ b2),
      )
