-- ===== src/Qiniu/Regions.antt =====
-- The calls of qiniu/kodo.go that look something up: regions, their endpoints and buckets, with
-- what they keep in the cache of the process.
use kubernetes_csi_driver.Base.{
  ℕ, ◌*◌, Bool, true, false, List, [], ◌∷◌, ◌++◌, Option, none, some, Result, ok, err, ◌==◌,
  if◌then◌else◌,
}
use kubernetes_csi_driver.Text.{Str, lit, str_eq, contains}
use kubernetes_csi_driver.Qiniu.Cache.{Bucket, bucket_named}
use kubernetes_csi_driver.Qiniu.Client.{
  http_get, HttpRequest, Service, Region, Cached, url_value, regions_value, buckets_value,
  bucket_value, region_id_value, Network, KodoFailure, not_configured, invalid_url, panicked,
  Client, ◌>>=◌, returns, fails, lift, perform, get_cached,
}

-- `KodoClient`
pub record KodoClient (Url : Type 0) : Type 0 where
  pub uc_url : Url
  pub access_key : Str
  pub secret_key : Str

abbrev pub day : ℕ
day = 24 * 3600

unfoldable pub is_ok : ℕ → Bool
is_ok status = status == 200

-- `for _, region := range regions { if region.KodoRegionID == regionID …`
unfoldable pub region_with : Str → List Region → Option Region
region_with id [] = none
region_with id (r ∷ rs) = if str_eq r.kodo_region_id id then some r else region_with id rs

unfoldable pub first_domain : Option Service → Option Str
first_domain none = none
first_domain (some s) = elim s.domains [ [] ↦ none | d ∷ ds ↦ some d ]

unfoldable pub region_alias : Option Region → Option Str
region_alias none = none
region_alias (some r) = elim r.s3 [ none ↦ none | some s ↦ some s.s3_region_id ]

module _ {S Url E : Type 0} where
  -- The type assertions on what the cache gives.
  unfoldable pub as_url : Cached Url → Client S Url E (Option Url)
  as_url (url_value u) = returns u
  as_url _ = fails panicked

  unfoldable pub as_regions : Cached Url → Client S Url E (List Region)
  as_regions (regions_value rs) = returns rs
  as_regions _ = fails panicked

  unfoldable pub as_buckets : Cached Url → Client S Url E (List Bucket)
  as_buckets (buckets_value bs) = returns bs
  as_buckets _ = fails panicked

  unfoldable pub as_bucket : Cached Url → Client S Url E (Option Bucket)
  as_bucket (bucket_value b) = returns b
  as_bucket _ = fails panicked

  unfoldable pub as_region_id : Cached Url → Client S Url E (Option Str)
  as_region_id (region_id_value i) = returns i
  as_region_id _ = fails panicked

module _ {S Url E : Type 0} (net : Network S Url E) (client : KodoClient Url) where
  unfoldable pub key_prefix : Str
  key_prefix =
      lit "cacheKey-"
      ++ client.access_key
      ++ lit "-"
      ++ client.secret_key
      ++ lit "-"
      ++ net.url_string client.uc_url
      ++ lit "-"

  abbrev pub cache_key : Str → Str
  cache_key suffix = key_prefix ++ suffix

  -- A GET without a body.
  abbrev get : Str → HttpRequest
  get path = record {
    method = http_get;
    url = net.url_string client.uc_url ++ path;
    content_type = none;
    body = [];
  }

  -- `getRegions` and `GetRegions`
  unfoldable pub fetch_regions : Client S Url E (List Region)
  fetch_regions = perform net (get (lit "/regions")) is_ok net.unmarshal_regions

  unfoldable pub get_regions : Client S Url E (List Region)
  get_regions =
      get_cached net (cache_key (lit "regions")) day
        (fetch_regions >>= λ rs. returns (regions_value rs))
      >>= as_regions

  -- The text that url.Parse reads: a domain without "://" gets the scheme of the UC address.
  unfoldable pub address_of : Str → Str
  address_of domain =
      if contains domain (lit "://")
      then domain
      else net.scheme client.uc_url ++ lit "://" ++ domain

  unfoldable pub parse_address : Str → Result (KodoFailure E) (Option Url)
  parse_address address = elim (net.parse_url address) [
    | err e ↦ err (invalid_url address e)
    | ok u ↦ ok (some u)
  ]

  unfoldable pub service_url : Str → Option Service → Result (KodoFailure E) (Option Url)
  service_url what service = elim (first_domain service) [
    | none ↦ err (not_configured what)
    | some d ↦ parse_address (address_of d)
  ]

  unfoldable pub s3_url : Str → List Region → Result (KodoFailure E) (Option Url)
  s3_url id regions = elim (region_with id regions) [
    | none ↦ ok none
    | some r ↦ service_url (lit "s3") r.s3
  ]

  unfoldable pub rs_url : Str → List Region → Result (KodoFailure E) (Option Url)
  rs_url id regions = elim (region_with id regions) [
    | none ↦ ok none
    | some r ↦ service_url (lit "rs") r.rs
  ]

  unfoldable pub rsf_url : Str → List Region → Result (KodoFailure E) (Option Url)
  rsf_url id regions = elim (region_with id regions) [
    | none ↦ ok none
    | some r ↦ service_url (lit "rsf") r.rsf
  ]

  unfoldable pub central_api_url : List Region → Result (KodoFailure E) (Option Url)
  central_api_url [] = ok none
  central_api_url (r ∷ rs) = service_url (lit "api") r.api

  -- What the public calls share: the lower-case call under the cache, for a day.
  unfoldable pub get_url :
      Str → (List Region → Result (KodoFailure E) (Option Url)) → Client S Url E (Option Url)
  get_url suffix choose =
      get_cached net (cache_key suffix) day
        (get_regions >>= λ rs. lift (choose rs) >>= λ u. returns (url_value u))
      >>= as_url

  unfoldable pub get_s3_endpoint : Str → Client S Url E (Option Url)
  get_s3_endpoint id = get_url (lit "s3Endpoint-" ++ id) (s3_url id)

  unfoldable pub get_rs_endpoint : Str → Client S Url E (Option Url)
  get_rs_endpoint id = get_url (lit "rsEndpoint-" ++ id) (rs_url id)

  unfoldable pub get_rsf_endpoint : Str → Client S Url E (Option Url)
  get_rsf_endpoint id = get_url (lit "rsfEndpoint-" ++ id) (rsf_url id)

  unfoldable pub get_central_api_endpoint : Client S Url E (Option Url)
  get_central_api_endpoint = get_url (lit "centralApiEndpoint") central_api_url

  -- `FromKodoRegionIDToS3RegionID`
  unfoldable pub get_s3_region_id : Str → Client S Url E (Option Str)
  get_s3_region_id id =
      get_cached net (cache_key (lit "s3RegionId-" ++ id)) day
        (get_regions >>= λ rs. returns (region_id_value (region_alias (region_with id rs))))
      >>= as_region_id

  -- `getBuckets` and `GetBuckets`
  unfoldable pub fetch_buckets : Client S Url E (List Bucket)
  fetch_buckets = perform net (get (lit "/v2/buckets?shared=rd")) is_ok net.unmarshal_buckets

  unfoldable pub get_buckets : Client S Url E (List Bucket)
  get_buckets =
      get_cached net (cache_key (lit "buckets")) 1
        (fetch_buckets >>= λ bs. returns (buckets_value bs))
      >>= as_buckets

  -- `findBucketByName` and `FindBucketByName`
  unfoldable pub search_bucket : Str → Bool → Client S Url E (Option Bucket)
  search_bucket name use_cache =
      (if use_cache then get_buckets else fetch_buckets) >>= λ bs. returns (bucket_named name bs)

  unfoldable pub find_bucket : Str → Bool → Client S Url E (Option Bucket)
  find_bucket name true =
      get_cached net (cache_key (lit "bucketName-" ++ name)) day
        (search_bucket name true >>= λ b. returns (bucket_value b))
      >>= as_bucket
  find_bucket name false = search_bucket name false
