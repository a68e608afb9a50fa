-- ===== src/Plugin/Kodo/Volume.antt =====
-- `kodoPvParameter` and `parseKodoPvParameter` in plugin/kodo_parameters.go.
use kubernetes_csi_driver.Base.{
  [], Option, none, some, if◌then◌else◌, Result, ok, err, ◌>>=◌, range_loop,
}
use kubernetes_csi_driver.Text.{Str, trim_space, is_blank}
use kubernetes_csi_driver.Plugin.Fields.{
  Field, field_of, name, bucket_id, bucket_name, s3_endpoint, s3_region, original_access_key,
  original_secret_key,
}
use kubernetes_csi_driver.Plugin.Values.{
  GoLib, ParseError, StrMap, lookup, want_url, text_or_default,
}
use kubernetes_csi_driver.Plugin.Kodo.StorageClass.{KodoStorageClassParameter, parse_storage_class}

pub record KodoPvParameter (Url Duration : Type 0) : Type 0 where
  pub class : KodoStorageClassParameter Url Duration
  pub bucket_id : Str
  pub bucket_name : Str
  pub original_access_key : Str
  pub original_secret_key : Str
  pub s3_endpoint : Option Url
  pub s3_region : Str

pub record FoundBucket : Type 0 where
  pub id : Str
  pub name : Str
  pub kodo_region_id : Str

-- The calls of the Kodo client (package qiniu/) that the plugin makes for a volume, as the account
-- of the client answers them at the time: `E` is the error of a call, and `none` a nil result.
pub record KodoService (Url E : Type 0) : Type 0 where
  pub find_bucket : Str → Result E (Option FoundBucket)
  pub get_s3_endpoint : Str → Result E (Option Url)
  pub get_s3_region : Str → Result E (Option Str)

pub data PvError (E : Type 0) : Type 0 where
  parse_failed : ParseError → PvError E
  -- "%s: failed to find bucket by %s: %w", "… get s3 endpoint …", "… get s3 region …"
  call_failed : Str → Str → E → PvError E
  -- "%s: cannot find bucket by %s", "… get s3 endpoint …", "… get s3 region …"
  not_found : Str → Str → PvError E
  -- "%s: both %s and %s are empty"
  both_empty : Str → PvError E

-- `x, err := f(); if err != nil { return } else if x == nil { return } else { … }`
unfoldable pub found : {A E : Type 0} → Str → Str → Result E (Option A) → Result (PvError E) A
found fn what (err e) = err (call_failed fn what e)
found fn what (ok none) = err (not_found fn what)
found fn what (ok (some a)) = ok a

unfoldable pub parsed : {A E : Type 0} → Result ParseError A → Result (PvError E) A
parsed (ok a) = ok a
parsed (err e) = err (parse_failed e)

module _ {Url Duration : Type 0} (go : GoLib Url Duration) (fn : Str) where
  -- The switch of the second loop over `ctx`.
  unfoldable pub assign_pv :
      Field → Str → KodoPvParameter Url Duration → Result ParseError (KodoPvParameter Url Duration)
  assign_pv original_access_key value p = ok (record p { original_access_key = trim_space value })
  assign_pv original_secret_key value p = ok (record p { original_secret_key = trim_space value })
  assign_pv bucket_id value p = ok (record p { bucket_id = trim_space value })
  assign_pv bucket_name value p = ok (record p { bucket_name = trim_space value })
  assign_pv s3_endpoint value p = do
    u ← want_url go fn s3_endpoint value
    ok (record p { s3_endpoint = some u })
  assign_pv s3_region value p = ok (record p { s3_region = trim_space value })
  assign_pv _ value p = ok p

  unfoldable pub assign_pv_entry :
      Str × Str → KodoPvParameter Url Duration → Result ParseError (KodoPvParameter Url Duration)
  assign_pv_entry (key, value) p = elim (field_of key) [
    | none ↦ ok p
    | some f ↦ assign_pv f value p
  ]

  -- `if p.s3Endpoint == nil { if value, ok := secrets[FIELD_S3_ENDPOINT]; ok { … } }`
  unfoldable pub endpoint_from_secrets : StrMap → Option Url → Result ParseError (Option Url)
  endpoint_from_secrets secrets (some u) = ok (some u)
  endpoint_from_secrets secrets none = elim (lookup (name s3_endpoint) secrets) [
    | none ↦ ok none
    | some value ↦ (do u ← want_url go fn s3_endpoint value; ok (some u))
  ]

  -- Everything that is read from the two maps.
  unfoldable pub read_pv : StrMap → StrMap → Result ParseError (KodoPvParameter Url Duration)
  read_pv ctx secrets = do
    class ← parse_storage_class go fn ctx secrets
    p ← range_loop assign_pv_entry ctx (record {
      class = class;
      bucket_id = [];
      bucket_name = [];
      original_access_key = [];
      original_secret_key = [];
      s3_endpoint = none;
      s3_region = [];
    })
    endpoint ← endpoint_from_secrets secrets p.s3_endpoint
    ok (record p {
      s3_endpoint = endpoint;
      s3_region = text_or_default s3_region secrets [] p.s3_region;
      bucket_id = text_or_default bucket_id secrets [] p.bucket_id;
      bucket_name = text_or_default bucket_name secrets [] p.bucket_name;
    })

  module _ {E : Type 0} (service : KodoService Url E) where
    -- Without a bucket ID the bucket is looked up by its name, and its region is taken over.
    unfoldable pub resolve_bucket :
        KodoPvParameter Url Duration → Result (PvError E) (KodoPvParameter Url Duration)
    resolve_bucket p =
        if is_blank p.bucket_id
        then (if is_blank p.bucket_name then err (both_empty fn) else (do
          bucket ← found fn p.bucket_name (service.find_bucket p.bucket_name)
          let class = p.class
          ok (record p {
            bucket_id = bucket.id;
            class = record class { region = bucket.kodo_region_id };
          })))
        else ok p

    unfoldable pub resolve_endpoint :
        KodoPvParameter Url Duration → Result (PvError E) (KodoPvParameter Url Duration)
    resolve_endpoint p = elim p.s3_endpoint [
      | some _ ↦ ok p
      | none ↦ (do
        u ← found fn p.class.region (service.get_s3_endpoint p.class.region)
        ok (record p { s3_endpoint = some u }))
    ]

    unfoldable pub resolve_region :
        KodoPvParameter Url Duration → Result (PvError E) (KodoPvParameter Url Duration)
    resolve_region p =
        if is_blank p.s3_region
        then (do
          r ← found fn p.class.region (service.get_s3_region p.class.region)
          ok (record p { s3_region = r }))
        else ok p

    unfoldable pub parse_kodo_pv :
        StrMap → StrMap → Result (PvError E) (KodoPvParameter Url Duration)
    parse_kodo_pv ctx secrets = do
      p ← parsed (read_pv ctx secrets)
      p ← resolve_bucket p
      p ← resolve_endpoint p
      resolve_region p
