-- ===== src/Qiniu/Calls.antt =====
-- The calls of a Kodo client of qiniu/kodo.go, and sequences of them.
use kubernetes_csi_driver.Base.{Bool, List, [], ◌∷◌, Result}
use kubernetes_csi_driver.Text.{Str}
use kubernetes_csi_driver.Qiniu.Client.{Network, KodoFailure, World, Client, ◌>>=◌, returns}
use kubernetes_csi_driver.Qiniu.Regions.{
  KodoClient, get_regions, get_s3_endpoint, get_rs_endpoint, get_rsf_endpoint, get_s3_region_id,
  get_buckets, find_bucket,
}
use kubernetes_csi_driver.Qiniu.Iam.{
  create_bucket, delete_bucket, create_iam_user, get_key_pair, delete_iam_user, create_iam_policy,
  delete_iam_policy, grant_iam_policy, revoke_iam_policy, batch_endpoint, send_delete_objects,
}

-- What a client is asked to do: the public calls, and a batch of deleteObjects.
pub data KodoCall : Type 0 where
  call_create_bucket : (bucket region : Str) → KodoCall
  call_delete_bucket : (bucket : Str) → KodoCall
  call_create_user : (user password : Str) → KodoCall
  call_get_key_pair : (user : Str) → KodoCall
  call_delete_user : (user : Str) → KodoCall
  call_create_policy : (policy bucket : Str) → KodoCall
  call_delete_policy : (policy : Str) → KodoCall
  call_grant_policy : (user : Str) (policies : List Str) → KodoCall
  call_revoke_policy : (user : Str) (policies : List Str) → KodoCall
  call_delete_objects : (bucket : Str) (objects : List Str) → KodoCall
  call_s3_endpoint : (region : Str) → KodoCall
  call_rs_endpoint : (region : Str) → KodoCall
  call_rsf_endpoint : (region : Str) → KodoCall
  call_s3_region_id : (region : Str) → KodoCall
  call_regions : KodoCall
  call_buckets : KodoCall
  call_find_bucket : (bucket : Str) (use_cache : Bool) → KodoCall

module _ {S Url E : Type 0} (net : Network S Url E) (client : KodoClient Url) where
  -- The call without its value.
  abbrev pub void : {A : Type 0} → Client S Url E A → Client S Url E (Unit {0})
  void m = m >>= λ a. returns tt

  unfoldable pub run_call : KodoCall → Client S Url E (Unit {0})
  run_call (call_create_bucket b r) = create_bucket net client b r
  run_call (call_delete_bucket b) = delete_bucket net client b
  run_call (call_create_user u p) = create_iam_user net client u p
  run_call (call_get_key_pair u) = void (get_key_pair net client u)
  run_call (call_delete_user u) = delete_iam_user net client u
  run_call (call_create_policy p b) = create_iam_policy net client p b
  run_call (call_delete_policy p) = delete_iam_policy net client p
  run_call (call_grant_policy u ps) = grant_iam_policy net client u ps
  run_call (call_revoke_policy u ps) = revoke_iam_policy net client u ps
  run_call (call_delete_objects b os) =
      batch_endpoint net client b >>= λ rs. send_delete_objects net client b rs os
  run_call (call_s3_endpoint r) = void (get_s3_endpoint net client r)
  run_call (call_rs_endpoint r) = void (get_rs_endpoint net client r)
  run_call (call_rsf_endpoint r) = void (get_rsf_endpoint net client r)
  run_call (call_s3_region_id r) = void (get_s3_region_id net client r)
  run_call call_regions = void (get_regions net client)
  run_call call_buckets = void (get_buckets net client)
  run_call (call_find_bucket b c) = void (find_bucket net client b c)

  -- The results of the calls, one after the other, whatever the earlier ones returned.
  unfoldable pub run_calls :
      List KodoCall → World S Url E → List (Result (KodoFailure E) (Unit {0}))
  run_calls [] w = []
  run_calls (c ∷ cs) w = let o = run_call c w in o.0 ∷ run_calls cs o.1
