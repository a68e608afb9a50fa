-- ===== src/Qiniu/Panics.antt =====
-- About sequences of calls of a Kodo client (qiniu/kodo.go), and the type assertions in them.
mod Lookups
use Lookups.*
use mathlib.Core.Path.{subst}
use kubernetes_csi_driver.Base.{
  ℕ, All, ◌≢◌, ◌≡◌, refl, sym, ◌∙◌, Bool, true, false, List, [], ◌∷◌, ◌++◌, Option, none, some,
  Result, ok, err, inl, inr, Bool-cases, Option-cases, Result-cases, arith,
}
use kubernetes_csi_driver.Text.{Str, lit, has_prefix}
use kubernetes_csi_driver.Qiniu.Cache.{CacheValue, CacheMap, load, store, Bucket, bucket_named}
use kubernetes_csi_driver.Qiniu.Client.{
  Method, http_get, http_post, http_patch, http_delete, HttpRequest, Response, Service, Region,
  Statement, RequestBody, user_body, policy_body, grant_body, Cached, url_value, regions_value,
  buckets_value, bucket_value, region_id_value, Network, KodoFailure, create_failed, send_failed,
  read_failed, parse_failed, marshal_failed, unreadable_error, kodo_error, invalid_status,
  no_api_endpoint, no_bucket, no_rs_endpoint, not_configured, invalid_url, panicked, World, Client,
  after, ◌>>=◌, returns, fails, lift, error_of, decoded, answer_of, perform, fresh_value,
  keep_value, if_absent, get_cached,
}
use kubernetes_csi_driver.Qiniu.Regions.{
  KodoClient, day, is_ok, region_with, first_domain, region_alias, as_url, as_regions, as_buckets,
  as_bucket, as_region_id, key_prefix, cache_key, fetch_regions, get_regions, address_of,
  parse_address, service_url, s3_url, rs_url, rsf_url, central_api_url, get_url, get_s3_endpoint,
  get_rs_endpoint, get_rsf_endpoint, get_central_api_endpoint, get_s3_region_id, fetch_buckets,
  get_buckets, search_bucket, find_bucket,
}
use kubernetes_csi_driver.Qiniu.Iam.{
  ignore, first_pair, is_batch_ok, policy_actions, plain_request, json_request, create_bucket,
  delete_bucket, address_or, api_endpoint, marshalled, call_api, send_api, create_iam_user,
  key_pairs_path, get_first_key_pair, create_key_pair, or_create, get_key_pair, delete_iam_user,
  create_iam_policy, delete_iam_policy, policies_path, grant_iam_policy, revoke_iam_policy,
  rs_address, batch_endpoint, encode_entry, send_delete_objects,
}
use kubernetes_csi_driver.Qiniu.Kinds.{
  Kind, url_kind, regions_kind, buckets_kind, bucket_kind, region_id_kind, kind_of, kind_of_value,
  Satisfies, Any, IsTyped, Holds, Gives, HasKind, after-Gives, returns-Gives, perform-Gives,
  get_cached-Gives, as_url-Gives, as_regions-Gives, as_buckets-Gives, as_bucket-Gives,
  as_region_id-Gives, lift-Gives,
}
use kubernetes_csi_driver.Qiniu.Calls.{
  KodoCall, call_create_bucket, call_delete_bucket, call_create_user, call_get_key_pair,
  call_delete_user, call_create_policy, call_delete_policy, call_grant_policy, call_revoke_policy,
  call_delete_objects, call_s3_endpoint, call_rs_endpoint, call_rsf_endpoint, call_s3_region_id,
  call_regions, call_buckets, call_find_bucket, void, run_call, run_calls,
}

module _ {S Url E : Type 0} (net : Network S Url E) (client : KodoClient Url) where
  address_or-Safe :
      (missing : KodoFailure E) (found : Option Url)
      → missing ≢ panicked
      → Safe net client (address_or net client missing found)
  unfolding address_or
  address_or-Safe missing none k w h = (h, k)
  address_or-Safe missing (some u) k w h = (h, tt)

  api_endpoint-Safe : Safe net client (api_endpoint net client)
  unfolding api_endpoint
  api_endpoint-Safe =
      after-Gives net client Any _ _ _ (get_central_api_endpoint-Safe net client)
        (λ found k. address_or-Safe _ found (λ q. ground arith))

  marshalled-Satisfies : (b : RequestBody) → Satisfies Any (marshalled net client b)
  unfolding marshalled
  marshalled-Satisfies b = elim (Result-cases (net.marshal b)) [
    | inl (bs, e) ↦ rw (marshalled, e) tt
    | inr (f, e) ↦ rw (marshalled, e) (λ h. ground arith)
  ]

  call_api-Safe :
      {A : Type 0} (m : Method) (path : Str) (decode : Str → Result E A)
      → Safe net client (call_api net client m path decode)
  unfolding call_api
  call_api-Safe m path decode =
      after-Gives net client Any _ _ _ api_endpoint-Safe (λ api k. perform-Gives net client _ _ _)

  send_api-Safe :
      (m : Method) (path : Str) (b : RequestBody) → Safe net client (send_api net client m path b)
  unfolding send_api
  send_api-Safe m path b = after-Gives net client Any _ _ _ api_endpoint-Safe (λ api k.
      after-Gives net client Any _ _ _ (λ w h. (h, marshalled-Satisfies b))
        (λ bs k2. perform-Gives net client _ _ _))

  or_create-Safe :
      (o : Result (KodoFailure E) (Option (Str × Str)) × World S Url E)
      (create : Client S Url E (Str × Str))
      → Holds net client Any o
      → Safe net client create
      → Holds net client Any (or_create net client o create)
  unfolding or_create
  or_create-Safe (ok (some pair), w) create h hc = h
  or_create-Safe (ok none, w) create h hc = hc w h.0
  or_create-Safe (err e, w) create h hc = hc w h.0

  get_first_key_pair-Safe : (user : Str) → Safe net client (get_first_key_pair net client user)
  unfolding get_first_key_pair
  get_first_key_pair-Safe user =
      after-Gives net client Any _ _ _ (call_api-Safe _ _ _) (λ pairs k w h. (h, tt))

  get_key_pair-Safe : (user : Str) → Safe net client (get_key_pair net client user)
  unfolding get_key_pair create_key_pair
  get_key_pair-Safe user w h =
      or_create-Safe (get_first_key_pair net client user w) _ (get_first_key_pair-Safe user w h)
        (call_api-Safe _ _ _)

  rs_address-Safe :
      (bucket : Str) (found : Option Bucket) → Safe net client (rs_address net client bucket found)
  unfolding rs_address
  rs_address-Safe bucket none = λ w h. (h, λ q. ground arith)
  rs_address-Safe bucket (some b) =
      after-Gives net client Any _ _ _ (get_rs_endpoint-Safe net client b.kodo_region_id)
        (λ found k. address_or-Safe _ found (λ q. ground arith))

  batch_endpoint-Safe : (bucket : Str) → Safe net client (batch_endpoint net client bucket)
  unfolding batch_endpoint rs_address
  batch_endpoint-Safe bucket =
      after-Gives net client Any _ _ _ (find_bucket-Safe net client bucket true)
        (λ found k. rs_address-Safe bucket found)

  void-Safe :
      {A : Type 0} (m : Client S Url E A) → Safe net client m → Safe net client (void net client m)
  void-Safe m hm = after-Gives net client Any Any _ _ hm (λ a k w h. (h, tt))

  run_call-Safe : (c : KodoCall) → Safe net client (run_call net client c)
  unfolding run_call create_bucket delete_bucket create_iam_user delete_iam_user create_iam_policy
      delete_iam_policy grant_iam_policy revoke_iam_policy send_delete_objects
  run_call-Safe (call_create_bucket b r) = perform-Gives net client _ _ _
  run_call-Safe (call_delete_bucket b) = perform-Gives net client _ _ _
  run_call-Safe (call_create_user u p) = send_api-Safe _ _ _
  run_call-Safe (call_get_key_pair u) = void-Safe _ (get_key_pair-Safe u)
  run_call-Safe (call_delete_user u) = call_api-Safe _ _ _
  run_call-Safe (call_create_policy p b) = send_api-Safe _ _ _
  run_call-Safe (call_delete_policy p) = call_api-Safe _ _ _
  run_call-Safe (call_grant_policy u ps) = send_api-Safe _ _ _
  run_call-Safe (call_revoke_policy u ps) = send_api-Safe _ _ _
  run_call-Safe (call_delete_objects b os) =
      after-Gives net client Any _ _ _ (batch_endpoint-Safe b)
        (λ rs k. perform-Gives net client _ _ _)
  run_call-Safe (call_s3_endpoint r) = void-Safe _ (endpoints-Safe net client r).0
  run_call-Safe (call_rs_endpoint r) = void-Safe _ (get_rs_endpoint-Safe net client r)
  run_call-Safe (call_rsf_endpoint r) = void-Safe _ (endpoints-Safe net client r).2
  run_call-Safe (call_s3_region_id r) = void-Safe _ (get_s3_region_id-Safe net client r)
  run_call-Safe call_regions = void-Safe _ (get_regions-Safe net client)
  run_call-Safe call_buckets = void-Safe _ (get_buckets-Safe net client)
  run_call-Safe (call_find_bucket b c) = void-Safe _ (find_bucket-Safe net client b c)

  Satisfies-no_panic : (r : Result (KodoFailure E) (Unit {0})) → Satisfies Any r → r ≢ err panicked
  Satisfies-no_panic (ok a) k q = ground arith
  Satisfies-no_panic (err e) k q = k (ground arith)

  run_calls-IsTyped :
      (cs : List KodoCall) (w : World S Url E)
      → IsTyped net client w.cache
      → All (λ r. r ≢ err panicked) (run_calls net client cs w)
  unfolding run_calls
  run_calls-IsTyped [] w h = tt
  run_calls-IsTyped (c ∷ cs) w h =
      let o = run_call-Safe c w h in
      (
        Satisfies-no_panic (run_call net client c w).0 o.1,
        run_calls-IsTyped cs (run_call net client c w).1 o.0,
      )

  -- From an empty cache, however the cloud and the clock behave, no type assertion on a cached value
  -- fails in any sequence of calls of one client.
  pub run_calls-no_panic :
      (cs : List KodoCall) (w : World S Url E)
      → w.cache ≡ []
      → All (λ r. r ≢ err panicked) (run_calls net client cs w)
  unfolding IsTyped load
  run_calls-no_panic cs w h =
      run_calls-IsTyped cs w (subst (IsTyped net client) (sym h) (λ s c e. absurd (ground arith)))
