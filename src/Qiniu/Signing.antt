-- ===== src/Qiniu/Signing.antt =====
-- qiniu/auth.go: how a request is signed before it is sent.
use kubernetes_csi_driver.Base.{
  ℕ, Bool, true, false, ◌&&◌, ◌||◌, List, [], ◌∷◌, ◌++◌, Option, none, some, Result, ok, ◌>>=◌,
  if◌then◌else◌, length, ltb, ◌==◌,
}
use kubernetes_csi_driver.Text.{Str, lit, str_eq, is_blank, has_prefix}

-- `http.Header`, in the order in which `range` visits it: names with their values.
abbrev pub Header : Type 0
Header = List (Str × List Str)

-- The body of a request, by what reading gives: `io.ReadFull` of so many bytes, or everything.
pub record Body (E : Type 0) : Type 0 where
  pub read_full : ℕ → Result E Str
  pub read_all : Result E Str

-- `Request.ContentLength`
pub data ContentLength : Type 0 where
  known : ℕ → ContentLength
  unknown : ContentLength

-- `http.Request`; a nil body is `none`.
pub record SignedRequest (E : Type 0) : Type 0 where
  pub method : Str
  pub path : Str
  pub raw_query : Str
  pub host : Str
  pub header : Header
  pub content_length : ContentLength
  pub body : Option (Body E)

pub record Credential : Type 0 where
  pub access_key : Str
  pub secret_key : Str

-- What comes from Go's library: CanonicalMIMEHeaderKey, HMAC-SHA1 by key and text, base64 and the
-- time of the signature.
pub record Crypto : Type 0 where
  pub canonical : Str → Str
  pub hmac : Str → Str → Str
  pub base64_url : Str → Str
  pub time_text : Str

-- A body that was read: `ioutil.NopCloser(bytes.NewReader(body))`.
abbrev pub read_again : {E : Type 0} → Str → Body E
read_again bs = record { read_full = λ n. ok bs; read_all = ok bs }

unfoldable pub first_value : List Str → Str
first_value [] = []
first_value (v ∷ vs) = v

unfoldable pub value_of : Str → Header → Str
value_of key [] = []
value_of key ((k, vs) ∷ h) = if str_eq k key then first_value vs else value_of key h

unfoldable pub put_value : Str → Str → Header → Header
put_value key v [] = (key, v ∷ []) ∷ []
put_value key v ((k, vs) ∷ h) =
    let rest = put_value key v h in if str_eq k key then (k, v ∷ []) ∷ h else (k, vs) ∷ rest

-- Texts in the order of Go's `<`.
unfoldable pub str_lt : Str → Str → Bool
str_lt [] [] = false
str_lt [] (b ∷ t) = true
str_lt (a ∷ s) [] = false
str_lt (a ∷ s) (b ∷ t) = let rest = str_lt s t in if a == b then rest else ltb a b

pub record HeaderItem : Type 0 where
  pub name : Str
  pub value : Str

-- `xQiniuHeaders.Less`
unfoldable pub header_less : HeaderItem → HeaderItem → Bool
header_less i j =
    if str_lt i.name j.name
    then true
    else if str_lt j.name i.name
    then false
    else str_lt i.value j.value

-- `sort.Sort`, as an insertion sort.
unfoldable pub insert_item : HeaderItem → List HeaderItem → List HeaderItem
insert_item i [] = i ∷ []
insert_item i (j ∷ js) =
    let rest = insert_item i js in if header_less j i then j ∷ rest else i ∷ j ∷ js

unfoldable pub sort_items : List HeaderItem → List HeaderItem
sort_items [] = []
sort_items (i ∷ is) = insert_item i (sort_items is)

unfoldable pub item_lines : List HeaderItem → Str
item_lines [] = []
item_lines (i ∷ is) = i.name ++ lit ": " ++ i.value ++ lit "\n" ++ item_lines is

-- `len(headerName) > len("X-Qiniu-") && strings.HasPrefix(headerName, "X-Qiniu-")`
unfoldable pub is_x_qiniu : Str → Bool
is_x_qiniu name = ltb 8 (length name) && has_prefix name (lit "X-Qiniu-")

unfoldable pub query_part : Str → Str
query_part raw_query = if is_blank raw_query then [] else lit "?" ++ raw_query

unfoldable pub form_type : Str
form_type = lit "application/x-www-form-urlencoded"

module _ (crypto : Crypto) where
  -- `Header.Get`
  unfoldable pub get_header : Header → Str → Str
  get_header h key = value_of (crypto.canonical key) h

  -- The items of `range request.Header`, whose values `Get` looks up in the whole header.
  unfoldable pub x_qiniu_items : Header → Header → List HeaderItem
  x_qiniu_items whole [] = []
  x_qiniu_items whole ((k, vs) ∷ h) =
      let rest = x_qiniu_items whole h in
      if is_x_qiniu k
      then record { name = crypto.canonical k; value = get_header whole k } ∷ rest
      else rest

  -- `sign`
  unfoldable pub authorization : Credential → Str → Str → Str
  authorization credential auth_name text =
      auth_name
      ++ lit " "
      ++ credential.access_key
      ++ lit ":"
      ++ crypto.base64_url (crypto.hmac credential.secret_key text)

module _ {E : Type 0} (crypto : Crypto) where
  -- `readAllRequestBody`
  unfoldable pub read_body : ContentLength → Body E → Result E Str
  read_body (known n) b = if n == 0 then ok [] else b.read_full n
  read_body unknown b = b.read_all

  -- The body as a part of the text, if it is included.
  unfoldable pub body_part : Bool → SignedRequest E → Result E (Str × SignedRequest E)
  body_part included r = elim r.body [
    | none ↦ ok ([], r)
    | some b ↦
        if included
        then (do
          bs ← read_body r.content_length b
          ok (bs, record r { body = some (read_again bs) }))
        else ok ([], r)
  ]

  -- The texts that are signed, without the body.
  unfoldable pub qbox_text : SignedRequest E → Str
  qbox_text r = r.path ++ query_part r.raw_query ++ lit "\n"

  unfoldable pub qiniu_text : SignedRequest E → Str
  qiniu_text r =
      r.method
      ++ lit " "
      ++ r.path
      ++ query_part r.raw_query
      ++ lit "\nHost: "
      ++ r.host
      ++ lit "\n"
      ++ lit "Content-Type: "
      ++ get_header crypto r.header (lit "Content-Type")
      ++ lit "\n"
      ++ item_lines (sort_items (x_qiniu_items crypto r.header r.header))
      ++ lit "\n"

  unfoldable pub qbox_includes : SignedRequest E → Bool
  qbox_includes r = str_eq (get_header crypto r.header (lit "Content-Type")) form_type

  unfoldable pub qiniu_includes : SignedRequest E → Bool
  qiniu_includes r =
      str_eq (get_header crypto r.header (lit "Content-Type")) form_type
      || str_eq (get_header crypto r.header (lit "Content-Type")) (lit "application/json")

  -- `Header.Set`
  unfoldable pub with_header : Str → Str → SignedRequest E → SignedRequest E
  with_header key v r = record r { header = put_value (crypto.canonical key) v r.header }

  -- What signQiniuRequest sets before it signs: the date, and the type of the content if there is
  -- none.
  unfoldable pub dated : SignedRequest E → SignedRequest E
  dated r = with_header (lit "X-Qiniu-Date") crypto.time_text r

  unfoldable pub typed : SignedRequest E → SignedRequest E
  typed r =
      if is_blank (get_header crypto r.header (lit "Content-Type"))
      then with_header (lit "Content-Type") form_type r
      else r

  module _ (credential : Credential) where
    unfoldable pub sign_qbox : SignedRequest E → Result E (Str × SignedRequest E)
    sign_qbox r = do
      (bs, q) ← body_part (qbox_includes r) r
      ok (authorization crypto credential (lit "QBox") (qbox_text r ++ bs), q)

    unfoldable pub sign_qiniu : SignedRequest E → Result E (Str × SignedRequest E)
    sign_qiniu r = do
      let t = typed (dated r)
      (bs, q) ← body_part (qiniu_includes t) t
      ok (authorization crypto credential (lit "Qiniu") (qiniu_text t ++ bs), q)

    -- What `RoundTrip` hands to the inner transport.
    unfoldable pub round_trip : Bool → SignedRequest E → Result E (SignedRequest E)
    round_trip use_qbox r =
        if is_blank (get_header crypto r.header (lit "Authorization"))
        then (do
          (auth, q) ← (if use_qbox then sign_qbox r else sign_qiniu r)
          ok (with_header (lit "Authorization") auth q))
        else ok r
