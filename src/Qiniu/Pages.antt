-- ===== src/Qiniu/Pages.antt =====
-- The requests of listObjects in qiniu/kodo.go.
use kubernetes_csi_driver.Base.{
  ℕ, zero, suc, true, List, [], ◌∷◌, ◌++◌, Option, none, some, Result, ok, err, if◌then◌else◌,
}
use kubernetes_csi_driver.Text.{Str, lit, is_blank}
use kubernetes_csi_driver.Qiniu.Cache.{Bucket}
use kubernetes_csi_driver.Qiniu.Client.{
  http_post, HttpRequest, Response, Network, KodoFailure, create_failed, send_failed, read_failed,
  no_bucket, no_rsf_endpoint, World, Client, ◌>>=◌, fails, error_of,
}
use kubernetes_csi_driver.Qiniu.Regions.{KodoClient, is_ok, find_bucket, get_rsf_endpoint}
use kubernetes_csi_driver.Qiniu.Iam.{address_or}
use kubernetes_csi_driver.Qiniu.Objects.{Line, decode_lines, zero_object, last_marker, object_names}

-- url.Values.Encode for "bucket" and perhaps "marker", and what a json.Decoder reads of a body up to
-- its end or to the first error.
pub record Pages (E : Type 0) : Type 0 where
  pub encode_query : List (Str × Str) → Str
  pub lines : Response E → List Line

module _ {S Url E : Type 0} (net : Network S Url E) (client : KodoClient Url) where
  unfoldable pub rsf_address : Str → Option Bucket → Client S Url E Str
  rsf_address bucket_name none = fails (no_bucket bucket_name)
  rsf_address bucket_name (some b) =
      get_rsf_endpoint net client b.kodo_region_id
      >>= address_or net client (no_rsf_endpoint bucket_name)

  -- Where listObjects sends its requests.
  unfoldable pub listing_endpoint : Str → Client S Url E Str
  listing_endpoint bucket_name = find_bucket net client bucket_name true >>= rsf_address bucket_name

module _ {E : Type 0} (pages : Pages E) (bucket_name rsf : Str) where
  unfoldable pub list_query : Str → List (Str × Str)
  list_query marker =
      (lit "bucket", bucket_name) ∷ elim marker [ [] ↦ [] | c ∷ cs ↦ (lit "marker", c ∷ cs) ∷ [] ]

  unfoldable pub list_request : Str → HttpRequest
  list_request marker = record {
    method = http_post;
    url = rsf ++ lit "/v2/list?" ++ pages.encode_query (list_query marker);
    content_type = none;
    body = [];
  }

module _ {S Url E : Type 0} (net : Network S Url E) (pages : Pages E) (bucket_name rsf : Str) where
  unfoldable pub list_answer : Result E (Response E) → Result (KodoFailure E) (List Line)
  list_answer (err e) = err (send_failed e)
  list_answer (ok r) =
      if is_ok r.status
      then ok (pages.lines r)
      else elim r.body [ err e ↦ err (read_failed e) | ok bs ↦ error_of net r.status bs ]

  -- `sendListObjectsRequest`
  unfoldable pub send_list_objects : Str → Client S Url E (List Line)
  send_list_objects marker w = elim (net.new_request (list_request pages bucket_name rsf marker)) [
    | some e ↦ (err (create_failed e), w)
    | none ↦
        let a = net.send (list_request pages bucket_name rsf marker) w.cloud in
        (
          list_answer a.0,
          record w {
            cloud = a.1;
            sent = (list_request pages bucket_name rsf marker, a.0) ∷ w.sent;
          },
        )
  ]

  unfoldable pub prepend :
      List Str
      → Option (List Str × Option (KodoFailure E))
      → Option (List Str × Option (KodoFailure E))
  prepend names none = none
  prepend names (some (more, e)) = some (names ++ more, e)

  -- The loop of listObjects with its requests, as `list_objects` with the answers.
  unfoldable pub list_pages :
      ℕ → Str → World S Url E → Option (List Str × Option (KodoFailure E)) × World S Url E
  list_pages zero m w = (none, w)
  list_pages (suc fuel) m w =
      let a = send_list_objects m w in
      elim a.0 [
        | err e ↦ (some ([], some e), a.1)
        | ok ls ↦
            let os = decode_lines zero_object ls in
            let rest = list_pages fuel (last_marker m os) a.1 in
            if is_blank (last_marker m os)
            then (some (object_names os, none), a.1)
            else (prepend (object_names os) rest.0, rest.1)
      ]
