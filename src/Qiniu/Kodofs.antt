-- ===== src/Qiniu/Kodofs.antt =====
-- The client of the KodoFS master: qiniu/kodofs.go.
use kubernetes_csi_driver.Base.{
  ℕ, Bool, true, false, List, [], ◌∷◌, ◌++◌, Option, none, some, Result, ok, err, if◌then◌else◌,
  ◌==◌,
}
use kubernetes_csi_driver.Base.Integers.{ℤ, pos, negsuc, is_zero}
use kubernetes_csi_driver.Text.{Str, lit}
use kubernetes_csi_driver.Qiniu.Client.{http_get, http_post, HttpRequest, Response}

-- The types `Request` of the calls, which are sent as JSON.
pub data KodofsBody : Type 0 where
  create_volume_body :
      (description region : Str) (fs_type block_size : ℕ) (volume_name : Str) → KodofsBody
  create_access_point_body : (description volume path : Str) (mode : List Str) → KodofsBody
  remove_access_point_body : (access_id : Str) → KodofsBody
  rename_volume_body : (old_volume_name new_volume_name : Str) → KodofsBody
  remove_volume_body : (volume : Str) → KodofsBody

-- `KodoFSErrorResponseBody`
pub record KodofsErrorBody : Type 0 where
  pub code : ℤ
  pub error_code : Str
  pub message : Str

pub data KodofsFailure (E : Type 0) : Type 0 where
  marshal_failed : E → KodofsFailure E
  create_failed : E → KodofsFailure E
  send_failed : E → KodofsFailure E
  read_failed : E → KodofsFailure E
  -- parseKodoFSErrorFromResponseBody returned an error, or a body.
  unreadable_error : E → Str → KodofsFailure E
  kodofs_error : KodofsErrorBody → KodofsFailure E
  parse_failed : E → KodofsFailure E

-- What the client gets from Go's library and from the master, whose state is an `S`.
pub record KodofsNetwork (S Url E : Type 0) : Type 0 where
  pub new_request : HttpRequest → Option E
  pub send : HttpRequest → S → Result E (Response E) × S
  pub url_string : Url → Str
  -- url.Values.Encode for one key and its value.
  pub encode_pair : Str → Str → Str
  pub marshal : KodofsBody → Result E Str
  pub unmarshal_error : Str → Result E KodofsErrorBody
  pub unmarshal_gateway_id : Str → Result E Str
  pub unmarshal_access_id : Str → Result E Str
  pub unmarshal_access_token : Str → Result E Str

abbrev pub KodofsClient : Type 0 → Type 0 → Type 0 → Type 0
KodofsClient S E A = S → Result (KodofsFailure E) A × S

-- `errBody.Code == -2000`
unfoldable pub is_no_volume : ℤ → Bool
is_no_volume (pos n) = false
is_no_volume (negsuc n) = n == 1999

module _ {S Url E : Type 0} (net : KodofsNetwork S Url E) (master_url : Url) where
  abbrev pub existing : Str → Result E (Unit {0})
  existing bs = ok tt

  unfoldable pub parsed : {A : Type 0} → Result E A → Result (KodofsFailure E) A
  parsed (ok a) = ok a
  parsed (err e) = err (parse_failed e)

  -- The body of an answer, whatever its status: the error that it holds, if its code is not 0.
  unfoldable pub read_answer : {A : Type 0} → (Str → Result E A) → Str → Result (KodofsFailure E) A
  read_answer decode bs = elim (net.unmarshal_error bs) [
    | err e ↦ err (unreadable_error e bs)
    | ok b ↦ if is_zero b.code then parsed (decode bs) else err (kodofs_error b)
  ]

  unfoldable pub kodofs_answer :
      {A : Type 0} → (Str → Result E A) → Result E (Response E) → Result (KodofsFailure E) A
  kodofs_answer decode (err e) = err (send_failed e)
  kodofs_answer decode (ok r) = elim r.body [
    | err e ↦ err (read_failed e)
    | ok bs ↦ read_answer decode bs
  ]

  -- http.NewRequest, `Do` and what follows it in every call.
  unfoldable pub exchange : {A : Type 0} → HttpRequest → (Str → Result E A) → KodofsClient S E A
  exchange request decode s = elim (net.new_request request) [
    | some e ↦ (err (create_failed e), s)
    | none ↦ let a = net.send request s in (kodofs_answer decode a.0, a.1)
  ]

  unfoldable pub query : {A : Type 0} → Str → (Str → Result E A) → KodofsClient S E A
  query path decode =
      exchange
        (record {
          method = http_get;
          url = net.url_string master_url ++ path;
          content_type = none;
          body = [];
        })
        decode

  unfoldable pub submit :
      {A : Type 0} → Str → Option Str → KodofsBody → (Str → Result E A) → KodofsClient S E A
  submit path content_type b decode s = elim (net.marshal b) [
    | err e ↦ (err (marshal_failed e), s)
    | ok bs ↦
        exchange
          (record {
            method = http_post;
            url = net.url_string master_url ++ path;
            content_type = content_type;
            body = bs;
          })
          decode s
  ]

  unfoldable pub create_kodofs_volume : Str → Str → Str → ℕ → ℕ → KodofsClient S E Str
  create_kodofs_volume volume_name description region fs_type block_size =
      submit (lit "/v1/kodofs-master/volume/create") (some (lit "application/json"))
        (create_volume_body description region fs_type block_size volume_name)
        net.unmarshal_gateway_id

  unfoldable pub create_access_point : Str → Str → KodofsClient S E Str
  create_access_point volume_name description =
      submit (lit "/v1/kodofs-master/accessPoint/create") (some (lit "application/json"))
        (create_access_point_body description volume_name (lit "/")
          (lit "read" ∷ lit "write" ∷ lit "delete" ∷ []))
        net.unmarshal_access_id

  unfoldable pub get_access_token : Str → KodofsClient S E Str
  get_access_token access_point_id =
      query
        (lit "/v1/kodofs-master/accessPoint/info?"
          ++ net.encode_pair (lit "accessId") access_point_id)
        net.unmarshal_access_token

  unfoldable pub remove_access_point : Str → KodofsClient S E (Unit {0})
  remove_access_point access_point_id =
      submit (lit "/v1/kodofs-master/accessPoint/remove") none
        (remove_access_point_body access_point_id) existing

  -- An error with the code -2000 says that there is no such volume.
  unfoldable pub existence : Result (KodofsFailure E) (Unit {0}) → Result (KodofsFailure E) Bool
  existence (ok _) = ok true
  existence (err (kodofs_error b)) = if is_no_volume b.code then ok false else err (kodofs_error b)
  existence (err e) = err e

  unfoldable pub is_volume_exists : Str → KodofsClient S E Bool
  is_volume_exists volume_name s =
      let o =
        query (lit "/v1/kodofs-master/volume/info?" ++ net.encode_pair (lit "volume") volume_name)
          existing s in
      (existence o.0, o.1)

  unfoldable pub rename_volume : Str → Str → KodofsClient S E (Unit {0})
  rename_volume old_volume_name new_volume_name =
      submit (lit "/v1/kodofs-master/volume/rename") none
        (rename_volume_body old_volume_name new_volume_name) existing

  unfoldable pub remove_kodofs_volume : Str → KodofsClient S E (Unit {0})
  remove_kodofs_volume volume_name =
      submit (lit "/v1/kodofs-master/volume/remove") none (remove_volume_body volume_name) existing
