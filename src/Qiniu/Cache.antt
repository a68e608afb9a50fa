-- ===== src/Qiniu/Cache.antt =====
-- The map of getCacheValueByKey, and the list of buckets, in qiniu/kodo.go.
use kubernetes_csi_driver.Base.{ℕ, List, [], ◌∷◌, Option, none, some, if◌then◌else◌}
use kubernetes_csi_driver.Text.{Str, str_eq}

-- `CacheValue`, with times in seconds.
pub record CacheValue (V : Type 0) : Type 0 where
  pub value : V
  pub deadline : ℕ

-- `cacheMap`
abbrev pub CacheMap : Type 0 → Type 0
CacheMap V = List (Str × CacheValue V)

module _ {V : Type 0} where
  unfoldable pub load : Str → CacheMap V → Option (CacheValue V)
  load key [] = none
  load key ((k, c) ∷ m) = if str_eq k key then some c else load key m

  -- A later entry hides an earlier one.
  unfoldable pub store : Str → CacheValue V → CacheMap V → CacheMap V
  store key c m = (key, c) ∷ m

pub record Bucket : Type 0 where
  pub id : Str
  pub name : Str
  pub kodo_region_id : Str

-- The loop of findBucketByName; `none` is nil.
unfoldable pub bucket_named : Str → List Bucket → Option Bucket
bucket_named name [] = none
bucket_named name (b ∷ bs) = if str_eq b.name name then some b else bucket_named name bs
