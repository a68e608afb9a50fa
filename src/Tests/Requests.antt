-- ===== src/Tests/Requests.antt =====
-- A request that is signed.
use kubernetes_csi_driver.Base.{true, false, [], ◌∷◌, ◌++◌, some, ok, ◌≡◌, refl, arith}
use kubernetes_csi_driver.Text.{Str, lit, str_eq, is_blank, has_prefix}
use kubernetes_csi_driver.Qiniu.Signing.{
  known, SignedRequest, Credential, Crypto, read_again, first_value, value_of, put_value,
  is_x_qiniu, form_type, get_header, authorization, read_body, body_part, qiniu_text,
  qiniu_includes, with_header, dated, typed, sign_qiniu, round_trip,
}
use kubernetes_csi_driver.Qiniu.Verifies.{IsCanonical, IsVerified, round_trip-IsVerified}

-- Names that are canonical already.
abbrev crypto : Crypto
crypto = record {
  canonical = λ name. name;
  hmac = λ key text. key ++ text;
  base64_url = λ bs. bs;
  time_text = lit "20240102T030405Z";
}

x_qiniu_apart : (k : Str) → is_x_qiniu k ≡ true → str_eq (lit "Authorization") k ≡ false
unfolding is_x_qiniu str_eq has_prefix
x_qiniu_apart [] h = refl
x_qiniu_apart (c ∷ k) h = ground arith

crypto-IsCanonical : IsCanonical crypto
unfolding is_x_qiniu str_eq has_prefix
crypto-IsCanonical = record { apart = refl; plain = refl; others = x_qiniu_apart }

abbrev credential : Credential
credential = record { access_key = lit "ak"; secret_key = lit "sk" }

abbrev request : SignedRequest Str
request = record {
  method = lit "POST";
  path = lit "/drop/logs";
  raw_query = [];
  host = lit "uc";
  header = (lit "User-Agent", lit "x" ∷ []) ∷ [];
  content_length = known 1;
  body = some (read_again (lit "b"));
}

abbrev with_date : SignedRequest Str
with_date = record request {
  header =
      (lit "User-Agent", lit "x" ∷ [])
      ∷ (lit "X-Qiniu-Date", lit "20240102T030405Z" ∷ [])
      ∷ (lit "Content-Type", lit "application/x-www-form-urlencoded" ∷ [])
      ∷ [];
}

abbrev sent : SignedRequest Str
sent =
    with_header crypto (lit "Authorization")
      (authorization crypto credential (lit "Qiniu") (qiniu_text crypto with_date ++ lit "b"))
      with_date

unsigned : is_blank (get_header crypto request.header (lit "Authorization")) ≡ true
unfolding is_blank get_header value_of str_eq
unsigned = refl

request_sent : round_trip crypto credential false request ≡ ok sent
unfolding round_trip sign_qiniu typed dated body_part qiniu_includes read_body get_header
    with_header value_of put_value str_eq is_blank first_value form_type
request_sent = refl

round_trip-IsVerified_example : IsVerified crypto crypto-IsCanonical credential sent
round_trip-IsVerified_example =
    round_trip-IsVerified crypto crypto-IsCanonical credential request sent unsigned request_sent
