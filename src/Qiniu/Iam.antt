-- ===== src/Qiniu/Iam.antt =====
-- The calls of qiniu/kodo.go that change the account: buckets, users, their keys and policies.
use kubernetes_csi_driver.Base.{
  ℕ, Bool, true, List, [], ◌∷◌, ◌++◌, Option, none, some, Result, ok, err, ◌==◌, ◌||◌, map,
}
use kubernetes_csi_driver.Text.{Str, lit}
use kubernetes_csi_driver.Qiniu.Cache.{Bucket}
use kubernetes_csi_driver.Qiniu.Client.{
  Method, http_get, http_post, http_patch, http_delete, HttpRequest, RequestBody, user_body,
  policy_body, grant_body, Network, KodoFailure, marshal_failed, no_api_endpoint, no_bucket,
  no_rs_endpoint, Client, World, ◌>>=◌, returns, fails, lift, perform,
}
use kubernetes_csi_driver.Qiniu.Regions.{
  KodoClient, is_ok, get_central_api_endpoint, find_bucket, get_rs_endpoint,
}

-- The body of a successful answer is not looked at.
abbrev pub ignore : {E : Type 0} → Str → Result {0, 0} E Unit
ignore bs = ok tt

-- The first element of the list, if there is one.
unfoldable pub first_pair : List (Str × Str) → Option (Str × Str)
first_pair [] = none
first_pair (p ∷ ps) = some p

-- 298: some of the operations of a batch failed.
unfoldable pub is_batch_ok : ℕ → Bool
is_batch_ok status = status == 200 || status == 298

unfoldable pub policy_actions : List Str
policy_actions =
    lit "kodo/get"
    ∷ lit "kodo/upload"
    ∷ lit "kodo/mkfile"
    ∷ lit "kodo/stat"
    ∷ lit "kodo/chgm"
    ∷ lit "kodo/delete"
    ∷ lit "kodo/list"
    ∷ lit "kodo/listParts"
    ∷ lit "kodo/abortMultipartUpload"
    ∷ []

module _ {S Url E : Type 0} (net : Network S Url E) (client : KodoClient Url) where
  abbrev pub plain_request : Method → Str → HttpRequest
  plain_request m u = record { method = m; url = u; content_type = none; body = [] }

  abbrev pub json_request : Method → Str → Str → HttpRequest
  json_request m u bs = record {
    method = m;
    url = u;
    content_type = some (lit "application/json");
    body = bs;
  }

  unfoldable pub create_bucket : Str → Str → Client S Url E Unit
  create_bucket bucket_name region_id =
      perform net
        (plain_request http_post (
          net.url_string client.uc_url
          ++ lit "/mkbucketv3/"
          ++ bucket_name
          ++ lit "/region/"
          ++ region_id
          ++ lit "/private/true/nodomain/true"))
        is_ok ignore

  unfoldable pub delete_bucket : Str → Client S Url E Unit
  delete_bucket bucket_name =
      perform net
        (plain_request http_post (net.url_string client.uc_url ++ lit "/drop/" ++ bucket_name))
        is_ok ignore

  -- An address that must be there.
  unfoldable pub address_or : KodoFailure E → Option Url → Client S Url E Str
  address_or missing none = fails missing
  address_or missing (some u) = returns (net.url_string u)

  -- The address of the central region, which must be there.
  unfoldable pub api_endpoint : Client S Url E Str
  api_endpoint = get_central_api_endpoint net client >>= address_or no_api_endpoint

  -- `json.Marshal`
  unfoldable pub marshalled : RequestBody → Result (KodoFailure E) Str
  marshalled b = elim (net.marshal b) [ err e ↦ err marshal_failed | ok bs ↦ ok bs ]

  -- A call of the central region without a body, and one with a body.
  unfoldable pub call_api : {A : Type 0} → Method → Str → (Str → Result E A) → Client S Url E A
  call_api m path decode =
      api_endpoint >>= λ api. perform net (plain_request m (api ++ path)) is_ok decode

  unfoldable pub send_api : Method → Str → RequestBody → Client S Url E Unit
  send_api m path b = api_endpoint >>= λ api.
      lift (marshalled b) >>= λ bs. perform net (json_request m (api ++ path) bs) is_ok ignore

  unfoldable pub create_iam_user : Str → Str → Client S Url E Unit
  create_iam_user user_name password =
      send_api http_post (lit "/iam/v1/users") (user_body user_name password)

  abbrev pub key_pairs_path : Str → Str
  key_pairs_path user_name = lit "/iam/v1/users/" ++ user_name ++ lit "/keypairs"

  unfoldable pub get_first_key_pair : Str → Client S Url E (Option (Str × Str))
  get_first_key_pair user_name =
      call_api http_get (key_pairs_path user_name) net.unmarshal_key_pairs >>= λ pairs.
      returns (first_pair pairs)

  unfoldable pub create_key_pair : Str → Client S Url E (Str × Str)
  create_key_pair user_name = call_api http_post (key_pairs_path user_name) net.unmarshal_key_pair

  -- Any error of the first call leads to the second one.
  unfoldable pub or_create :
      Result (KodoFailure E) (Option (Str × Str)) × World S Url E
      → Client S Url E (Str × Str)
      → Result (KodoFailure E) (Str × Str) × World S Url E
  or_create (ok (some pair), w) create = (ok pair, w)
  or_create (ok none, w) create = create w
  or_create (err e, w) create = create w

  unfoldable pub get_key_pair : Str → Client S Url E (Str × Str)
  get_key_pair user_name w = or_create (get_first_key_pair user_name w) (create_key_pair user_name)

  unfoldable pub delete_iam_user : Str → Client S Url E Unit
  delete_iam_user user_name = call_api http_delete (lit "/iam/v1/users/" ++ user_name) ignore

  unfoldable pub create_iam_policy : Str → Str → Client S Url E Unit
  create_iam_policy policy bucket_name = send_api http_post (lit "/iam/v1/policies") (
      policy_body policy 1 (
        record {
          action = policy_actions;
          resource = (lit "qrn:kodo:::bucket/" ++ bucket_name) ∷ [];
          effect = lit "Allow";
        }
        ∷ []))

  unfoldable pub delete_iam_policy : Str → Client S Url E Unit
  delete_iam_policy policy = call_api http_delete (lit "/iam/v1/policies/" ++ policy) ignore

  abbrev pub policies_path : Str → Str
  policies_path user_name = lit "/iam/v1/users/" ++ user_name ++ lit "/policies"

  unfoldable pub grant_iam_policy : Str → List Str → Client S Url E Unit
  grant_iam_policy user_name policies =
      send_api http_patch (policies_path user_name) (grant_body policies)

  unfoldable pub revoke_iam_policy : Str → List Str → Client S Url E Unit
  revoke_iam_policy user_name policies =
      send_api http_delete (policies_path user_name) (grant_body policies)

  unfoldable pub rs_address : Str → Option Bucket → Client S Url E Str
  rs_address bucket_name none = fails (no_bucket bucket_name)
  rs_address bucket_name (some b) =
      get_rs_endpoint net client b.kodo_region_id >>= address_or (no_rs_endpoint bucket_name)

  -- Where deleteObjects sends its batches.
  unfoldable pub batch_endpoint : Str → Client S Url E Str
  batch_endpoint bucket_name = find_bucket net client bucket_name true >>= rs_address bucket_name

  -- `encodeEntry`
  unfoldable pub encode_entry : Str → Str → Str
  encode_entry bucket_name object_name = net.base64_url (bucket_name ++ lit ":" ++ object_name)

  unfoldable pub send_delete_objects : Str → Str → List Str → Client S Url E Unit
  send_delete_objects bucket_name rs object_names =
      perform net
        (record {
          method = http_post;
          url = rs ++ lit "/batch";
          content_type = none;
          body =
              net.encode_values (lit "op")
                (map (λ o. lit "/delete/" ++ encode_entry bucket_name o) object_names);
        })
        is_batch_ok ignore
