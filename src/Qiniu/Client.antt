-- ===== src/Qiniu/Client.antt =====
-- The Kodo client of qiniu/kodo.go: what its calls work on, and how they are put together. A call
-- takes the state of the process and of the cloud and returns its result with the next state.
use kubernetes_csi_driver.Base.{
  ℕ, ◌+◌, Bool, List, [], ◌∷◌, Option, none, some, Result, ok, err, ltb, if◌then◌else◌,
}
use kubernetes_csi_driver.Text.{Str}
use kubernetes_csi_driver.Qiniu.Cache.{CacheMap, load, store, Bucket}

pub data Method : Type 0 where
  http_get : Method
  http_post : Method
  http_patch : Method
  http_delete : Method

pub record HttpRequest : Type 0 where
  pub method : Method
  pub url : Str
  pub content_type : Option Str
  pub body : Str

-- `http.Response`, with what io.ReadAll gives for its body.
pub record Response (E : Type 0) : Type 0 where
  pub status : ℕ
  pub body : Result E Str

pub record Service : Type 0 where
  pub s3_region_id : Str
  pub domains : List Str

-- `none` is a nil pointer.
pub record Region : Type 0 where
  pub kodo_region_id : Str
  pub s3 : Option Service
  pub rs : Option Service
  pub rsf : Option Service
  pub api : Option Service

pub record Statement : Type 0 where
  pub action : List Str
  pub resource : List Str
  pub effect : Str

-- The types `RequestBody` of the calls that send JSON.
pub data RequestBody : Type 0 where
  user_body : (user_name password : Str) → RequestBody
  policy_body : (policy_name : Str) (edit_type : ℕ) (statements : List Statement) → RequestBody
  grant_body : (policy_names : List Str) → RequestBody

-- The dynamic types of the values in `cacheMap`.
pub data Cached (Url : Type 0) : Type 0 where
  url_value : Option Url → Cached Url
  regions_value : List Region → Cached Url
  buckets_value : List Bucket → Cached Url
  bucket_value : Option Bucket → Cached Url
  region_id_value : Option Str → Cached Url

-- What the client gets from Go's library and from the cloud, whose state is an `S`: the clock in
-- seconds, net/http, net/url and encoding/json. A field that a JSON text lacks is empty.
pub record Network (S Url E : Type 0) : Type 0 where
  pub clock : S → ℕ × S
  -- An error of http.NewRequest.
  pub new_request : HttpRequest → Option E
  pub send : HttpRequest → S → Result E (Response E) × S
  pub parse_url : Str → Result E Url
  pub url_string : Url → Str
  pub scheme : Url → Str
  -- base64.URLEncoding, and url.Values.Encode for the values of one key.
  pub base64_url : Str → Str
  pub encode_values : Str → List Str → Str
  pub marshal : RequestBody → Result E Str
  pub unmarshal_regions : Str → Result E (List Region)
  pub unmarshal_buckets : Str → Result E (List Bucket)
  pub unmarshal_key_pairs : Str → Result E (List (Str × Str))
  pub unmarshal_key_pair : Str → Result E (Str × Str)
  -- `KodoErrorResponseBody.Message`
  pub unmarshal_message : Str → Result E Str

pub data KodoFailure (E : Type 0) : Type 0 where
  create_failed : E → KodoFailure E
  send_failed : E → KodoFailure E
  read_failed : E → KodoFailure E
  parse_failed : E → KodoFailure E
  marshal_failed : KodoFailure E
  -- parseKodoErrorFromResponseBody returned an error, or a message.
  unreadable_error : E → Str → KodoFailure E
  kodo_error : Str → KodoFailure E
  invalid_status : ℕ → KodoFailure E
  -- "cannot get api endpoint of central region"
  no_api_endpoint : KodoFailure E
  no_bucket : Str → KodoFailure E
  no_rs_endpoint : Str → KodoFailure E
  no_rsf_endpoint : Str → KodoFailure E
  -- "… is not configured for region …"
  not_configured : Str → KodoFailure E
  invalid_url : Str → E → KodoFailure E
  -- A type assertion panicked.
  panicked : KodoFailure E

-- The cache of the process, the cloud, and the requests so far with their answers, the last one
-- first.
pub record World (S Url E : Type 0) : Type 0 where
  pub cache : CacheMap (Cached Url)
  pub cloud : S
  pub sent : List (HttpRequest × Result E (Response E))

abbrev pub Client : Type 0 → Type 0 → Type 0 → Type 0 → Type 0
Client S Url E A = World S Url E → Result (KodoFailure E) A × World S Url E

module _ {S Url E : Type 0} where
  unfoldable pub after :
      {A B : Type 0}
      → Result (KodoFailure E) A × World S Url E
      → (A → Client S Url E B)
      → Result (KodoFailure E) B × World S Url E
  after (ok a, w) f = f a w
  after (err e, w) f = (err e, w)

  infixl 5 ◌>>=◌
  abbrev pub ◌>>=◌ : {A B : Type 0} → Client S Url E A → (A → Client S Url E B) → Client S Url E B
  m >>= f = λ w. after (m w) f

  abbrev pub returns : {A : Type 0} → A → Client S Url E A
  returns a w = (ok a, w)

  abbrev pub fails : {A : Type 0} → KodoFailure E → Client S Url E A
  fails e w = (err e, w)

  abbrev pub lift : {A : Type 0} → Result (KodoFailure E) A → Client S Url E A
  lift r w = (r, w)

module _ {S Url E : Type 0} (net : Network S Url E) where
  -- parseKodoErrorFromResponseBody, and what the calls do with its results.
  unfoldable pub error_of : {A : Type 0} → ℕ → Str → Result (KodoFailure E) A
  error_of status bs = elim (net.unmarshal_message bs) [
    | err e ↦ err (unreadable_error e bs)
    | ok [] ↦ err (invalid_status status)
    | ok (c ∷ cs) ↦ err (kodo_error (c ∷ cs))
  ]

  unfoldable pub decoded : {A : Type 0} → Result E A → Result (KodoFailure E) A
  decoded (ok a) = ok a
  decoded (err e) = err (parse_failed e)

  -- What follows `client.httpClient.Do` in every call. Most calls want the status 200.
  unfoldable pub answer_of :
      {A : Type 0}
      → (ℕ → Bool)
      → (Str → Result E A)
      → Result E (Response E)
      → Result (KodoFailure E) A
  answer_of accepts decode (err e) = err (send_failed e)
  answer_of accepts decode (ok r) = elim r.body [
    | err e ↦ err (read_failed e)
    | ok bs ↦ if accepts r.status then decoded (decode bs) else error_of r.status bs
  ]

  -- http.NewRequest, `Do` and the reading of the response.
  unfoldable pub perform :
      {A : Type 0} → HttpRequest → (ℕ → Bool) → (Str → Result E A) → Client S Url E A
  perform request accepts decode w = elim (net.new_request request) [
    | some e ↦ (err (create_failed e), w)
    | none ↦
        let a = net.send request w.cloud in
        (answer_of accepts decode a.0, record w { cloud = a.1; sent = (request, a.0) ∷ w.sent })
  ]

  -- `cacheMap.Load` and the test of the deadline: the clock is read only if there is a value.
  unfoldable pub fresh_value : Str → Client S Url E (Option (Cached Url))
  fresh_value key w = elim (load key w.cache) [
    | none ↦ (ok none, w)
    | some c ↦
        let t = net.clock w.cloud in
        (ok (if ltb t.0 c.deadline then some c.value else none), record w { cloud = t.1 })
  ]

  unfoldable pub keep_value : Str → ℕ → Cached Url → Client S Url E (Cached Url)
  keep_value key ttl v w =
      let t = net.clock w.cloud in
      (
        ok v,
        record w {
          cache = store key (record { value = v; deadline = t.0 + ttl }) w.cache;
          cloud = t.1;
        },
      )

  unfoldable pub if_absent :
      Option (Cached Url) → Client S Url E (Cached Url) → Client S Url E (Cached Url)
  if_absent (some v) fn = returns v
  if_absent none fn = fn

  -- `getCacheValueByKey` for a call that singleflight merges with no other.
  unfoldable pub get_cached : Str → ℕ → Client S Url E (Cached Url) → Client S Url E (Cached Url)
  get_cached key ttl fn = fresh_value key >>= λ first.
      if_absent first (fresh_value key >>= λ second. if_absent second (fn >>= keep_value key ttl))
