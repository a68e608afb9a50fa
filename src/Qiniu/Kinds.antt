-- ===== src/Qiniu/Kinds.antt =====
-- About the type assertions of qiniu/kodo.go on the values of the cache.
use kubernetes_csi_driver.Base.{
  ℕ, ◌≡◌, refl, Bool, [], ◌∷◌, ◌++◌, Option, none, some, Result, ok, err, ◌+◌, ◌≢◌, inl, inr,
  Bool-cases, Option-cases, Result-cases, ltb, if◌then◌else◌, arith,
}
use kubernetes_csi_driver.Text.{Str, lit, str_eq, str_eq→eq, has_prefix}
use kubernetes_csi_driver.Qiniu.Cache.{CacheMap, CacheValue, load, store}
use kubernetes_csi_driver.Qiniu.Client.{
  HttpRequest, Response, Cached, url_value, regions_value, buckets_value, bucket_value,
  region_id_value, Network, KodoFailure, panicked, World, Client, after, ◌>>=◌, returns, lift,
  error_of, decoded, answer_of, perform, fresh_value, keep_value, if_absent, get_cached,
}
use kubernetes_csi_driver.Qiniu.Regions.{
  KodoClient, as_url, as_regions, as_buckets, as_bucket, as_region_id, key_prefix, cache_key,
}

pub data Kind : Type 0 where
  url_kind : Kind
  regions_kind : Kind
  buckets_kind : Kind
  bucket_kind : Kind
  region_id_kind : Kind

-- The kind of value that belongs to a key, by what follows the prefix of the client.
unfoldable pub kind_of : Str → Kind
unfolding has_prefix
kind_of s =
    if has_prefix s (lit "regions")
    then regions_kind
    else if has_prefix s (lit "buckets")
    then buckets_kind
    else if has_prefix s (lit "bucketName-")
    then bucket_kind
    else if has_prefix s (lit "s3RegionId-")
    then region_id_kind
    else url_kind

unfoldable pub kind_of_value : {Url : Type 0} → Cached Url → Kind
kind_of_value (url_value u) = url_kind
kind_of_value (regions_value rs) = regions_kind
kind_of_value (buckets_value bs) = buckets_kind
kind_of_value (bucket_value b) = bucket_kind
kind_of_value (region_id_value i) = region_id_kind

append-cancel : (p s t : Str) → str_eq (p ++ s) (p ++ t) ≡ str_eq s t
unfolding str_eq
append-cancel [] s t = refl
append-cancel (c ∷ p) s t = ground (arith, append-cancel p s t)

-- Not a panic, and a value with the property.
abbrev pub Satisfies : {E A : Type 0} → (A → Type 0) → Result (KodoFailure E) A → Type 0
Satisfies P (ok a) = P a
Satisfies P (err e) = e ≢ panicked

abbrev pub Any : {A : Type 0} → A → Type 0
Any a = Unit

module _ {S Url E : Type 0} (net : Network S Url E) (client : KodoClient Url) where
  -- The values under the keys of the client are of the kinds that belong to the keys.
  unfoldable pub IsTyped : CacheMap (Cached Url) → Type 0
  IsTyped m =
      (s : Str) (c : CacheValue (Cached Url))
      → load (cache_key net client s) m ≡ some c
      → kind_of_value c.value ≡ kind_of s

  -- What a call leaves behind: a typed cache, and no panic.
  abbrev pub Holds : {A : Type 0} → (A → Type 0) → Result (KodoFailure E) A × World S Url E → Type 0
  Holds P o = IsTyped o.1.cache × Satisfies P o.0

  abbrev pub Gives : {A : Type 0} → (A → Type 0) → Client S Url E A → Type 0
  Gives P m = (w : World S Url E) → IsTyped w.cache → Holds P (m w)

  abbrev pub HasKind : Str → Cached Url → Type 0
  HasKind s v = kind_of_value v ≡ kind_of s

  store-IsTyped :
      (s : Str) (c : CacheValue (Cached Url)) (m : CacheMap (Cached Url))
      → HasKind s c.value
      → IsTyped m
      → IsTyped (store (cache_key net client s) c m)
  unfolding IsTyped store load
  store-IsTyped s c m k h t d e = elim (Bool-cases (str_eq s t)) [
    | inl q ↦
        let same = rw (append-cancel (key_prefix net client) s t, q) at e in
        let eq = str_eq→eq s t q in cc
    | inr q ↦ let rest = rw (append-cancel (key_prefix net client) s t, q) at e in h t d rest
  ]

  after-Holds :
      {A B : Type 0} (P : A → Type 0) (Q : B → Type 0)
      (o : Result (KodoFailure E) A × World S Url E) (f : A → Client S Url E B)
      → Holds P o
      → ((a : A) → P a → Gives Q (f a))
      → Holds Q (after o f)
  unfolding after
  after-Holds P Q (ok a, w) f h hf = hf a h.1 w h.0
  after-Holds P Q (err e, w) f h hf = h

  pub after-Gives :
      {A B : Type 0} (P : A → Type 0) (Q : B → Type 0) (m : Client S Url E A)
      (f : A → Client S Url E B)
      → Gives P m
      → ((a : A) → P a → Gives Q (f a))
      → Gives Q (m >>= f)
  after-Gives P Q m f hm hf w h = after-Holds P Q (m w) f (hm w h) hf

  pub returns-Gives : {A : Type 0} (P : A → Type 0) (a : A) → P a → Gives P (returns a)
  returns-Gives P a p w h = (h, p)

  error_of-Satisfies :
      (A : Type 0) (status : ℕ) (bs : Str) → Satisfies {A = A} Any (error_of net status bs)
  unfolding error_of
  error_of-Satisfies A status bs = elim (Result-cases (net.unmarshal_message bs)) [
    | inl ([], e) ↦ rw (error_of, e) (λ h. ground arith)
    | inl (c ∷ cs, e) ↦ rw (error_of, e) (λ h. ground arith)
    | inr (_, e) ↦ rw (error_of, e) (λ h. ground arith)
  ]

  decoded-Satisfies : {A : Type 0} (r : Result E A) → Satisfies Any (decoded net r)
  unfolding decoded
  decoded-Satisfies (ok a) = tt
  decoded-Satisfies (err e) = λ h. ground arith

  -- What the answer to a request gives is not a panic.
  answer_of-Satisfies :
      {A : Type 0} (accepts : ℕ → Bool) (decode : Str → Result E A) (a : Result E (Response E))
      → Satisfies Any (answer_of net accepts decode a)
  unfolding answer_of
  answer_of-Satisfies accepts decode (err e) = λ h. ground arith
  answer_of-Satisfies {A} accepts decode (ok r) = elim (Result-cases r.body) [
    | inl (bs, e) ↦ rw e (elim (Bool-cases (accepts r.status)) [
      | inl t ↦ rw t (decoded-Satisfies (decode bs))
      | inr t ↦ rw t (error_of-Satisfies A r.status bs)
    ])
    | inr (f, e) ↦ rw e (λ h. ground arith)
  ]

  pub perform-Gives :
      {A : Type 0} (request : HttpRequest) (accepts : ℕ → Bool) (decode : Str → Result E A)
      → Gives Any (perform net request accepts decode)
  unfolding perform
  perform-Gives request accepts decode w h = elim (Option-cases (net.new_request request)) [
    | inl e ↦ rw (perform, e) (h, answer_of-Satisfies accepts decode (net.send request w.cloud).0)
    | inr (f, e) ↦ rw (perform, e) (h, λ k. ground arith)
  ]

  fresh_value-Gives :
      (s : Str)
      → Gives
          (λ found. (v : Cached Url) → found ≡ some v → HasKind s v)
          (fresh_value net (cache_key net client s))
  unfolding fresh_value IsTyped
  fresh_value-Gives s w h = elim (Option-cases (load (cache_key net client s) w.cache)) [
    | inl e ↦ rw (fresh_value, e) (h, λ v g. absurd (ground arith))
    | inr (c, e) ↦
        rw (fresh_value, e)
          (
            h,
            elim (Bool-cases (ltb (net.clock w.cloud).0 c.deadline)) [
              | inl t ↦ rw t (λ v g. let k = h s c e in cc)
              | inr t ↦ rw t (λ v g. absurd (ground arith))
            ],
          )
  ]

  -- The value is stored under its key.
  keep_value-Gives :
      (s : Str) (ttl : ℕ) (v : Cached Url)
      → HasKind s v
      → Gives (HasKind s) (keep_value net (cache_key net client s) ttl v)
  unfolding keep_value
  keep_value-Gives s ttl v k w h = (
    store-IsTyped s (record { value = v; deadline = (net.clock w.cloud).0 + ttl }) w.cache k h,
    k,
  )

  if_absent-Gives :
      (s : Str) (found : Option (Cached Url)) (fn : Client S Url E (Cached Url))
      → ((v : Cached Url) → found ≡ some v → HasKind s v)
      → Gives (HasKind s) fn
      → Gives (HasKind s) (if_absent net found fn)
  unfolding if_absent
  if_absent-Gives s (some v) fn k hf w h = (h, k v refl)
  if_absent-Gives s none fn k hf w h = hf w h

  pub get_cached-Gives :
      (s : Str) (ttl : ℕ) (fn : Client S Url E (Cached Url))
      → Gives (HasKind s) fn
      → Gives (HasKind s) (get_cached net (cache_key net client s) ttl fn)
  unfolding get_cached
  get_cached-Gives s ttl fn hf =
      after-Gives _ _ (fresh_value net (cache_key net client s)) _ (fresh_value-Gives s) (λ first k.
        if_absent-Gives s first _ k (
          after-Gives _ _ (fresh_value net (cache_key net client s)) _ (fresh_value-Gives s)
            (λ second k2. if_absent-Gives s second _ k2 (
              after-Gives _ _ fn (keep_value net (cache_key net client s) ttl) hf
                (keep_value-Gives s ttl)))))

  pub as_url-Gives : (v : Cached Url) → kind_of_value v ≡ url_kind → Gives Any (as_url v)
  unfolding as_url kind_of_value
  as_url-Gives (url_value u) k w h = (h, tt)
  as_url-Gives (regions_value u) k w h = absurd (ground arith)
  as_url-Gives (buckets_value u) k w h = absurd (ground arith)
  as_url-Gives (bucket_value u) k w h = absurd (ground arith)
  as_url-Gives (region_id_value u) k w h = absurd (ground arith)

  pub as_regions-Gives :
      (v : Cached Url) → kind_of_value v ≡ regions_kind → Gives Any (as_regions v)
  unfolding as_regions kind_of_value
  as_regions-Gives (url_value u) k w h = absurd (ground arith)
  as_regions-Gives (regions_value u) k w h = (h, tt)
  as_regions-Gives (buckets_value u) k w h = absurd (ground arith)
  as_regions-Gives (bucket_value u) k w h = absurd (ground arith)
  as_regions-Gives (region_id_value u) k w h = absurd (ground arith)

  pub as_buckets-Gives :
      (v : Cached Url) → kind_of_value v ≡ buckets_kind → Gives Any (as_buckets v)
  unfolding as_buckets kind_of_value
  as_buckets-Gives (url_value u) k w h = absurd (ground arith)
  as_buckets-Gives (regions_value u) k w h = absurd (ground arith)
  as_buckets-Gives (buckets_value u) k w h = (h, tt)
  as_buckets-Gives (bucket_value u) k w h = absurd (ground arith)
  as_buckets-Gives (region_id_value u) k w h = absurd (ground arith)

  pub as_bucket-Gives : (v : Cached Url) → kind_of_value v ≡ bucket_kind → Gives Any (as_bucket v)
  unfolding as_bucket kind_of_value
  as_bucket-Gives (url_value u) k w h = absurd (ground arith)
  as_bucket-Gives (regions_value u) k w h = absurd (ground arith)
  as_bucket-Gives (buckets_value u) k w h = absurd (ground arith)
  as_bucket-Gives (bucket_value u) k w h = (h, tt)
  as_bucket-Gives (region_id_value u) k w h = absurd (ground arith)

  pub as_region_id-Gives :
      (v : Cached Url) → kind_of_value v ≡ region_id_kind → Gives Any (as_region_id v)
  unfolding as_region_id kind_of_value
  as_region_id-Gives (url_value u) k w h = absurd (ground arith)
  as_region_id-Gives (regions_value u) k w h = absurd (ground arith)
  as_region_id-Gives (buckets_value u) k w h = absurd (ground arith)
  as_region_id-Gives (bucket_value u) k w h = absurd (ground arith)
  as_region_id-Gives (region_id_value u) k w h = (h, tt)

  pub lift-Gives :
      {A : Type 0} (r : Result (KodoFailure E) A) → Satisfies Any r → Gives Any (lift r)
  lift-Gives r k w h = (h, k)
