-- ===== src/Tests/Clients.antt =====
-- A cloud with one region that answers every request, and calls of a client of it.
use kubernetes_csi_driver.Base.{
  ℕ, suc, ◌≡◌, ◌≢◌, refl, All, true, false, List, [], ◌∷◌, none, some, Result, ok, err,
  if◌then◌else◌, ◌==◌, arith,
}
use kubernetes_csi_driver.Text.{Str, lit, has_prefix, contains, str_eq}
use kubernetes_csi_driver.Qiniu.{
  Service, Region, Network, World, panicked, after, answer_of, decoded, perform, fresh_value,
  keep_value, if_absent, get_cached, load, store, KodoFailure, Cached, url_value, invalid_status,
  CacheValue, Line,
}
use kubernetes_csi_driver.Qiniu.Regions.{
  KodoClient, is_ok, first_domain, as_url, as_regions, key_prefix, fetch_regions, get_regions,
  address_of, parse_address, service_url, central_api_url, get_url, get_central_api_endpoint,
}
use kubernetes_csi_driver.Qiniu.Freshness.{stored, get_cached-fresh}
use kubernetes_csi_driver.Qiniu.Pages.{Pages, send_list_objects, list_answer, list_pages}
use kubernetes_csi_driver.Qiniu.Served.{ServesFrom, last_page, page, list_pages_complete}
use kubernetes_csi_driver.Qiniu.Iam.{address_or, api_endpoint, call_api, delete_iam_user}
use kubernetes_csi_driver.Qiniu.Calls.{
  KodoCall, call_create_user, call_delete_user, call_s3_endpoint, run_call, run_calls,
}
use kubernetes_csi_driver.Qiniu.Panics.{run_calls-no_panic}
use kubernetes_csi_driver.Qiniu.Answers.{is_change, Answered, accepted, run_call-Answered}

abbrev served : Str → Service
served domain = record { s3_region_id = lit "east"; domains = domain ∷ [] }

abbrev z0 : Region
z0 = record {
  kodo_region_id = lit "z0";
  s3 = some (served (lit "s3.east"));
  rs = some (served (lit "http://rs.east"));
  rsf = none;
  api = some (served (lit "api.east"));
}

-- The state of the cloud is the time, and each request takes a second.
abbrev network : Network ℕ Str Str
network = record {
  clock = λ t. (t, t);
  new_request = λ request. none;
  send = λ request t. (ok (record { status = 200; body = ok (lit "{}") }), suc t);
  parse_url = λ s. ok s;
  url_string = λ u. u;
  scheme = λ u. lit "https";
  base64_url = λ s. s;
  encode_values = λ key values. key;
  marshal = λ b. ok (lit "{}");
  unmarshal_regions = λ bs. ok (z0 ∷ []);
  unmarshal_buckets = λ bs. ok [];
  unmarshal_key_pairs = λ bs. ok [];
  unmarshal_key_pair = λ bs. ok (lit "ak", lit "sk");
  unmarshal_message = λ bs. ok [];
}

abbrev account : KodoClient Str
account = record { uc_url = lit "https://uc"; access_key = lit "a"; secret_key = lit "s" }

abbrev start : World ℕ Str Str
start = record { cache = []; cloud = 0; sent = [] }

abbrev calls : List KodoCall
calls = call_create_user (lit "u") (lit "p") ∷ call_s3_endpoint (lit "z0") ∷ []

run_calls-no_panic_example : All (λ r. r ≢ err panicked) (run_calls network account calls start)
run_calls-no_panic_example = run_calls-no_panic network account calls start refl

abbrev removal : KodoCall
removal = call_delete_user (lit "u")

removal_succeeds : (run_call network account removal start).0 ≡ ok tt
unfolding run_call delete_iam_user call_api api_endpoint get_central_api_endpoint get_url get_cached
    fresh_value load get_regions fetch_regions perform answer_of decoded is_ok keep_value store
    if_absent after as_url as_regions central_api_url service_url first_domain parse_address
    address_of address_or key_prefix contains has_prefix str_eq
removal_succeeds = refl

removal_changes : is_change removal ≡ true
unfolding is_change
removal_changes = refl

run_call-Answered_example :
    Answered network account
      (accepted network account removal)
      (run_call network account removal start).1
run_call-Answered_example =
    run_call-Answered network account removal start removal_changes removal_succeeds

abbrev first : List Line
first = record { marker = some (lit "m"); key = some (lit "a") } ∷ []

abbrev second : List Line
second = record { marker = some []; key = some (lit "b") } ∷ []

-- The answer is the first page if it asks for no marker, and then the second.
abbrev pages : Pages Str
pages = record {
  encode_query = λ query. elim query [
    | [] ↦ []
    | q ∷ qs ↦ elim qs [ [] ↦ [] | (key, marker) ∷ rest ↦ marker ]
  ];
  lines = λ r. elim r.body [ err e ↦ [] | ok bs ↦ if str_eq bs (lit "1") then first else second ];
}

-- The cloud counts its requests.
abbrev listed : Network ℕ Str Str
listed = record network {
  send = λ request t.
      (ok (record { status = 200; body = ok (if t == 0 then lit "1" else lit "2") }), suc t);
}

abbrev once : World ℕ Str Str
once = (send_list_objects listed pages (lit "logs") (lit "https://rsf") [] start).1

abbrev twice : World ℕ Str Str
twice = (send_list_objects listed pages (lit "logs") (lit "https://rsf") (lit "m") once).1

pages_served :
    ServesFrom listed pages
      (lit "logs")
      (lit "https://rsf")
      []
      start
      (lit "a" ∷ lit "b" ∷ [])
      2
      twice
unfolding send_list_objects list_answer is_ok str_eq
pages_served =
    page [] start once twice first 109 [] (lit "b" ∷ []) 1 refl refl
      (last_page (lit "m") once twice second refl refl)

list_pages_complete_example :
    list_pages listed pages (lit "logs") (lit "https://rsf") 5 [] start
    ≡ (some (lit "a" ∷ lit "b" ∷ [], none), twice)
list_pages_complete_example =
    list_pages_complete listed pages (lit "logs") (lit "https://rsf") [] start twice
      (lit "a" ∷ lit "b" ∷ []) 2 5 pages_served (omega arith)

-- A value that is fetched at the time 0, another key that is stored, and the first one at the time 5.
abbrev fetch : World ℕ Str Str → Result (KodoFailure Str) (Cached Str) × World ℕ Str Str
fetch w = (ok (url_value none), w)

abbrev refuse : World ℕ Str Str → Result (KodoFailure Str) (Cached Str) × World ℕ Str Str
refuse w = (err (invalid_status 503), w)

abbrev others : List (Str × CacheValue (Cached Str))
others = (lit "other", record { value = url_value none; deadline = 9 }) ∷ []

abbrev later : World ℕ Str Str
later = record start {
  cache = stored others (get_cached network (lit "key") 10 fetch start).1.cache;
  cloud = 5;
}

key_absent : load (lit "key") start.cache ≡ none
unfolding load
key_absent = refl

key_apart : str_eq (lit "other") (lit "key") ≡ false
unfolding str_eq
key_apart = refl

get_cached-fresh_example :
    ((get_cached network (lit "key") 10 fetch start).0 ≡ ok (url_value none))
    × (get_cached network (lit "key") 7 refuse later
        ≡ (ok (url_value none), record later { cloud = 5 }))
get_cached-fresh_example =
    get_cached-fresh network (lit "key") 10 7 fetch refuse start start later (url_value none) others
      key_absent refl (key_apart, tt) refl (omega arith)
