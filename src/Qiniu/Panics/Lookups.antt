-- ===== src/Qiniu/Panics/Lookups.antt =====
-- About the type assertions of the lookups of qiniu/kodo.go.
use kubernetes_csi_driver.Base.{
  ◌≡◌, refl, sym, ◌∙◌, Bool, true, false, List, [], ◌∷◌, ◌++◌, Option, Result, inl, inr,
  Option-cases, Result-cases, arith,
}
use kubernetes_csi_driver.Text.{Str, lit, has_prefix}
use kubernetes_csi_driver.Qiniu.Client.{Service, Region, Network, KodoFailure, Client}
use kubernetes_csi_driver.Qiniu.Regions.{
  KodoClient, day, region_with, first_domain, fetch_regions, get_regions, address_of, parse_address,
  service_url, s3_url, rs_url, rsf_url, central_api_url, get_url, get_s3_endpoint, get_rs_endpoint,
  get_rsf_endpoint, get_central_api_endpoint, get_s3_region_id, fetch_buckets, get_buckets,
  search_bucket, find_bucket,
}
use kubernetes_csi_driver.Qiniu.Kinds.{
  url_kind, kind_of, kind_of_value, Satisfies, Gives, Any, after-Gives, perform-Gives,
  get_cached-Gives, as_url-Gives, as_regions-Gives, as_buckets-Gives, as_bucket-Gives,
  as_region_id-Gives,
}

module _ {S Url E : Type 0} (net : Network S Url E) (client : KodoClient Url) where
  abbrev pub Safe : {A : Type 0} → Client S Url E A → Type 0
  Safe m = Gives net client Any m

  pub get_regions-Safe : Safe (get_regions net client)
  unfolding get_regions fetch_regions kind_of has_prefix kind_of_value
  get_regions-Safe =
      after-Gives net client _ _ _ _
        (get_cached-Gives net client (lit "regions") day _ (
          after-Gives net client Any _ _ _ (perform-Gives net client _ _ _)
            (λ rs k w h. (h, refl))))
        (λ v k. as_regions-Gives net client v k)

  parse_address-Satisfies : (a : Str) → Satisfies Any (parse_address net client a)
  unfolding parse_address
  parse_address-Satisfies a = elim (Result-cases (net.parse_url a)) [
    | inl (u, e) ↦ rw (parse_address, e) tt
    | inr (f, e) ↦ rw (parse_address, e) (λ h. ground arith)
  ]

  service_url-Satisfies :
      (what : Str) (service : Option Service) → Satisfies Any (service_url net client what service)
  unfolding service_url
  service_url-Satisfies what service = elim (Option-cases (first_domain service)) [
    | inl e ↦ rw (service_url, e) (λ h. ground arith)
    | inr (d, e) ↦ rw (service_url, e) (parse_address-Satisfies (address_of net client d))
  ]

  get_url-Safe :
      (suffix : Str) (choose : List Region → Result (KodoFailure E) (Option Url))
      → kind_of suffix ≡ url_kind
      → ((rs : List Region) → Satisfies Any (choose rs))
      → Safe (get_url net client suffix choose)
  unfolding get_url kind_of_value
  get_url-Safe suffix choose kind chosen =
      after-Gives net client _ _ _ _
        (get_cached-Gives net client suffix day _ (
          after-Gives net client Any _ _ _ get_regions-Safe (λ rs k.
            after-Gives net client Any _ _ _ (λ w h. (h, chosen rs))
              (λ u k2 w h. (h, (sym kind))))))
        (λ v k. as_url-Gives net client v (k ∙ kind))

  s3_url-Satisfies : (id : Str) (rs : List Region) → Satisfies Any (s3_url net client id rs)
  unfolding s3_url
  s3_url-Satisfies id rs = elim (Option-cases (region_with id rs)) [
    | inl e ↦ rw (s3_url, e) tt
    | inr (r, e) ↦ rw (s3_url, e) (service_url-Satisfies _ _)
  ]

  rs_url-Satisfies : (id : Str) (rs : List Region) → Satisfies Any (rs_url net client id rs)
  unfolding rs_url
  rs_url-Satisfies id rs = elim (Option-cases (region_with id rs)) [
    | inl e ↦ rw (rs_url, e) tt
    | inr (r, e) ↦ rw (rs_url, e) (service_url-Satisfies _ _)
  ]

  rsf_url-Satisfies : (id : Str) (rs : List Region) → Satisfies Any (rsf_url net client id rs)
  unfolding rsf_url
  rsf_url-Satisfies id rs = elim (Option-cases (region_with id rs)) [
    | inl e ↦ rw (rsf_url, e) tt
    | inr (r, e) ↦ rw (rsf_url, e) (service_url-Satisfies _ _)
  ]

  central_api_url-Satisfies : (rs : List Region) → Satisfies Any (central_api_url net client rs)
  unfolding central_api_url
  central_api_url-Satisfies [] = tt
  central_api_url-Satisfies (r ∷ rs) = service_url-Satisfies _ _

  pub get_rs_endpoint-Safe : (id : Str) → Safe (get_rs_endpoint net client id)
  unfolding get_rs_endpoint kind_of has_prefix
  get_rs_endpoint-Safe id = get_url-Safe (lit "rsEndpoint-" ++ id) _ refl (rs_url-Satisfies id)

  pub get_central_api_endpoint-Safe : Safe (get_central_api_endpoint net client)
  unfolding get_central_api_endpoint kind_of has_prefix
  get_central_api_endpoint-Safe =
      get_url-Safe (lit "centralApiEndpoint") _ refl central_api_url-Satisfies

  -- The four endpoints.
  pub endpoints-Safe :
      (id : Str)
      → Safe (get_s3_endpoint net client id)
        × Safe (get_rs_endpoint net client id)
        × Safe (get_rsf_endpoint net client id)
  unfolding get_s3_endpoint get_rsf_endpoint kind_of has_prefix
  endpoints-Safe id = (
    get_url-Safe (lit "s3Endpoint-" ++ id) _ refl (s3_url-Satisfies id),
    get_rs_endpoint-Safe id,
    get_url-Safe (lit "rsfEndpoint-" ++ id) _ refl (rsf_url-Satisfies id),
  )

  pub get_s3_region_id-Safe : (id : Str) → Safe (get_s3_region_id net client id)
  unfolding get_s3_region_id kind_of has_prefix kind_of_value
  get_s3_region_id-Safe id =
      after-Gives net client _ _ _ _
        (get_cached-Gives net client (lit "s3RegionId-" ++ id) day _
          (after-Gives net client Any _ _ _ get_regions-Safe (λ rs k w h. (h, refl))))
        (λ v k. as_region_id-Gives net client v k)

  pub get_buckets-Safe : Safe (get_buckets net client)
  unfolding get_buckets fetch_buckets kind_of has_prefix kind_of_value
  get_buckets-Safe =
      after-Gives net client _ _ _ _
        (get_cached-Gives net client (lit "buckets") 1 _ (
          after-Gives net client Any _ _ _ (perform-Gives net client _ _ _)
            (λ bs k w h. (h, refl))))
        (λ v k. as_buckets-Gives net client v k)

  search_bucket-Safe :
      (name : Str) (use_cache : Bool) → Safe (search_bucket net client name use_cache)
  unfolding search_bucket fetch_buckets
  search_bucket-Safe name true =
      after-Gives net client Any _ _ _ get_buckets-Safe (λ bs k w h. (h, tt))
  search_bucket-Safe name false =
      after-Gives net client Any _ _ _ (perform-Gives net client _ _ _) (λ bs k w h. (h, tt))

  pub find_bucket-Safe :
      (name : Str) (use_cache : Bool) → Safe (find_bucket net client name use_cache)
  unfolding find_bucket kind_of has_prefix kind_of_value
  find_bucket-Safe name true =
      after-Gives net client _ _ _ _
        (get_cached-Gives net client (lit "bucketName-" ++ name) day _
          (after-Gives net client Any _ _ _ (search_bucket-Safe name true) (λ b k w h. (h, refl))))
        (λ v k. as_bucket-Gives net client v k)
  find_bucket-Safe name false = search_bucket-Safe name false
