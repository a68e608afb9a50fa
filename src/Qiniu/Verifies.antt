-- ===== src/Qiniu/Verifies.antt =====
-- About the signatures of qiniu/auth.go: that they fit the requests that are sent.
use kubernetes_csi_driver.Base.{
  Bool, true, false, [], ◌∷◌, ◌++◌, Option, none, some, ok, ◌>>=◌, ◌≡◌, refl, sym, ap, ◌∙◌,
  Bool-cases, inl, inr, >>=-eq-ok, ok-injective, ◌==◌,
}
use mathlib.Core.Path.{subst}
use kubernetes_csi_driver.Text.{Str, lit, str_eq, str_eq→eq, str_eq_refl, is_blank}
use kubernetes_csi_driver.Qiniu.Signing.{
  Header, Body, ContentLength, known, unknown, SignedRequest, Credential, Crypto, read_again,
  first_value, value_of, put_value, is_x_qiniu, get_header, x_qiniu_items, authorization, read_body,
  body_part, qiniu_text, qiniu_includes, with_header, dated, typed, sign_qiniu, round_trip,
}

-- Keys that are not the canonical name of the header that is set.
value_of-put_value :
    (key other v : Str) (h : Header)
    → str_eq key other ≡ false
    → value_of other (put_value key v h) ≡ value_of other h
unfolding value_of put_value
value_of-put_value key other v [] n = rw (value_of, n) refl
value_of-put_value key other v ((k, vs) ∷ h) n = elim (Bool-cases (str_eq k key)) [
  | inl q ↦
      let skips : str_eq k other ≡ false = rw (str_eq→eq k key q) n in
      rw (put_value, q, value_of, skips) refl
  | inr q ↦ elim (Bool-cases (str_eq k other)) [
    | inl found ↦ rw (put_value, q, value_of, found) refl
    | inr more ↦ rw (put_value, q, value_of, more) (value_of-put_value key other v h n)
  ]
]

value_of-put_value_same : (key v : Str) (h : Header) → value_of key (put_value key v h) ≡ v
unfolding value_of put_value first_value
value_of-put_value_same key v [] = rw (value_of, str_eq_refl key) refl
value_of-put_value_same key v ((k, vs) ∷ h) = elim (Bool-cases (str_eq k key)) [
  | inl q ↦ rw (put_value, q, value_of, q) refl
  | inr q ↦ rw (put_value, q, value_of, q) (value_of-put_value_same key v h)
]

module _ (crypto : Crypto) where
  items_agree :
      (whole whole' h : Header)
      → ((k : Str) → is_x_qiniu k ≡ true → get_header crypto whole' k ≡ get_header crypto whole k)
      → x_qiniu_items crypto whole' h ≡ x_qiniu_items crypto whole h
  unfolding x_qiniu_items
  items_agree whole whole' [] agree = refl
  items_agree whole whole' ((k, vs) ∷ h) agree = elim (Bool-cases (is_x_qiniu k)) [
    | inl q ↦ rw (x_qiniu_items, q, agree k q, items_agree whole whole' h agree) refl
    | inr q ↦ rw (x_qiniu_items, q) (items_agree whole whole' h agree)
  ]

  items_kept :
      (key v : Str) (whole whole' h : Header)
      → is_x_qiniu key ≡ false
      → ((k : Str) → is_x_qiniu k ≡ true → get_header crypto whole' k ≡ get_header crypto whole k)
      → x_qiniu_items crypto whole' (put_value key v h) ≡ x_qiniu_items crypto whole h
  unfolding x_qiniu_items put_value
  items_kept key v whole whole' [] plain agree = rw (x_qiniu_items, plain) refl
  items_kept key v whole whole' ((k, vs) ∷ h) plain agree = elim (Bool-cases (str_eq k key)) [
    | inl same ↦
        let skipped : is_x_qiniu k ≡ false = rw (str_eq→eq k key same) plain in
        rw (put_value, same, x_qiniu_items, skipped) (items_agree whole whole' h agree)
    | inr other ↦ elim (Bool-cases (is_x_qiniu k)) [
      | inl q ↦
          rw
            (
              put_value,
              other,
              x_qiniu_items,
              q,
              agree k q,
              items_kept key v whole whole' h plain agree,
            )
            refl
      | inr q ↦
          rw (put_value, other, x_qiniu_items, q) (items_kept key v whole whole' h plain agree)
    ]
  ]

  -- The canonical form of header names: "Authorization" is neither that of "Content-Type" nor one of
  -- the X-Qiniu headers.
  pub record IsCanonical : Type 0 where
    pub apart :
        str_eq (crypto.canonical (lit "Authorization")) (crypto.canonical (lit "Content-Type"))
        ≡ false
    pub plain : is_x_qiniu (crypto.canonical (lit "Authorization")) ≡ false
    pub others :
        (k : Str)
        → is_x_qiniu k ≡ true
        → str_eq (crypto.canonical (lit "Authorization")) (crypto.canonical k) ≡ false

  module _ (names : IsCanonical) where
    header_kept :
        (auth : Str) (h : Header)
        → get_header crypto
            (put_value (crypto.canonical (lit "Authorization")) auth h)
            (lit "Content-Type")
          ≡ get_header crypto h (lit "Content-Type")
    unfolding get_header
    header_kept auth h = value_of-put_value _ _ auth h names.apart

    items_text_kept :
        (auth : Str) (h : Header)
        → x_qiniu_items crypto
            (put_value (crypto.canonical (lit "Authorization")) auth h)
            (put_value (crypto.canonical (lit "Authorization")) auth h)
          ≡ x_qiniu_items crypto h h
    unfolding get_header
    items_text_kept auth h =
        items_kept (crypto.canonical (lit "Authorization")) auth h _ h names.plain
          (λ k q. value_of-put_value _ _ auth h (names.others k q))

  module _ {E : Type 0} (names : IsCanonical) where
    -- The text of a request does not depend on its signature.
    text_kept :
        (auth : Str) (r : SignedRequest E)
        → qiniu_text crypto (with_header crypto (lit "Authorization") auth r) ≡ qiniu_text crypto r
    unfolding qiniu_text with_header
    text_kept auth r =
        rw
          (
            qiniu_text,
            with_header,
            header_kept names auth r.header,
            items_text_kept names auth r.header,
          )
          refl

    includes_kept :
        (auth : Str) (r : SignedRequest E)
        → qiniu_includes crypto (with_header crypto (lit "Authorization") auth r)
          ≡ qiniu_includes crypto r
    unfolding qiniu_includes with_header
    includes_kept auth r = rw (qiniu_includes, with_header, header_kept names auth r.header) refl

    reads_again :
        (l : ContentLength) (b : Body E) (bs : Str)
        → read_body crypto l b ≡ ok bs
        → read_body crypto l (read_again {E = E} bs) ≡ ok bs
    unfolding read_body
    reads_again (known n) b bs h = elim (Bool-cases (n == 0)) [
      | inl q ↦ let empty = rw (read_body, q) at h in rw (read_body, q) empty
      | inr q ↦ rw (read_body, q) refl
    ]
    reads_again unknown b bs h = refl

    -- A text with the request that it was read from: reading again gives the same, and what is
    -- signed of `r` is still there.
    abbrev IsKept : Bool → SignedRequest E → Str → Str × SignedRequest E → Type 0
    IsKept included r auth p =
        (body_part crypto included (with_header crypto (lit "Authorization") auth p.1)
          ≡ ok (p.0, with_header crypto (lit "Authorization") auth p.1))
        × (qiniu_text crypto p.1 ≡ qiniu_text crypto r)
        × (qiniu_includes crypto p.1 ≡ qiniu_includes crypto r)

    no_body :
        (included : Bool) (q : SignedRequest E)
        → q.body ≡ none
        → body_part crypto included q ≡ ok ([], q)
    unfolding body_part
    no_body included q e =
        subst (λ z. body_part crypto included z ≡ ok ([], z))
          (sym (ap (λ x. record q { body = x }) e)) refl

    body_left :
        (q : SignedRequest E) (b : Body E) → q.body ≡ some b → body_part crypto false q ≡ ok ([], q)
    unfolding body_part
    body_left q b e =
        subst (λ z. body_part crypto false z ≡ ok ([], z)) (sym (ap (λ x. record q { body = x }) e))
          refl

    body_part-IsKept :
        (included : Bool) (r : SignedRequest E) (body : Option (Body E)) (auth : Str)
        (p : Str × SignedRequest E)
        → r.body ≡ body
        → body_part crypto included r ≡ ok p
        → IsKept included r auth p
    unfolding body_part with_header qiniu_text qiniu_includes
    body_part-IsKept included r none auth p e h =
        subst (IsKept included r auth) (ok-injective (sym (no_body included r e) ∙ h))
          (no_body included (with_header crypto (lit "Authorization") auth r) e, refl, refl)
    body_part-IsKept false r (some b) auth p e h =
        subst (IsKept false r auth) (ok-injective (sym (body_left r b e) ∙ h))
          (body_left (with_header crypto (lit "Authorization") auth r) b e, refl, refl)
    body_part-IsKept true r (some b) auth p e h =
        let (bs, read, same) =
          >>=-eq-ok (read_body crypto r.content_length b) _ (rw (body_part, e) at h) in
        subst (IsKept true r auth) (ok-injective same)
          (rw (body_part, reads_again r.content_length b bs read) (refl, refl, refl))

    -- The authorization of a request is the signature of the text that a receiver computes from it,
    -- with the body that it reads.
    abbrev pub IsVerified : Credential → SignedRequest E → Type 0
    IsVerified credential s =
        (bs : Str) × (body_part crypto (qiniu_includes crypto s) s ≡ ok (bs, s))
        × (get_header crypto s.header (lit "Authorization")
            ≡ authorization crypto credential (lit "Qiniu") (qiniu_text crypto s ++ bs))

    signed-IsVerified :
        (credential : Credential) (t : SignedRequest E) (p : Str × SignedRequest E)
        → body_part crypto (qiniu_includes crypto t) t ≡ ok p
        → IsVerified credential (
            with_header crypto
              (lit "Authorization")
              (authorization crypto credential (lit "Qiniu") (qiniu_text crypto t ++ p.0))
              p.1)
    unfolding get_header with_header
    signed-IsVerified credential t p read =
        let auth = authorization crypto credential (lit "Qiniu") (qiniu_text crypto t ++ p.0) in
        let sent = with_header crypto (lit "Authorization") auth p.1 in
        let (again, text, included) =
          body_part-IsKept (qiniu_includes crypto t) t t.body auth p refl read in
        let same_text : qiniu_text crypto sent ≡ qiniu_text crypto t = text_kept auth p.1 ∙ text in
        let same_kind : qiniu_includes crypto sent ≡ qiniu_includes crypto t =
          includes_kept auth p.1 ∙ included in
        (
          p.0,
          subst (λ i. body_part crypto i sent ≡ ok (p.0, sent)) (sym same_kind) again,
          value_of-put_value_same _ auth p.1.header
              ∙ ap (λ x. authorization crypto credential (lit "Qiniu") (x ++ p.0)) (sym same_text),
        )

    -- A request without an authorization is sent, in the Qiniu scheme, with the signature of the very
    -- text that a receiver computes from the request as it was sent, with the body that it reads.
    pub round_trip-IsVerified :
        (credential : Credential) (r s : SignedRequest E)
        → is_blank (get_header crypto r.header (lit "Authorization")) ≡ true
        → round_trip crypto credential false r ≡ ok s
        → IsVerified credential s
    unfolding round_trip sign_qiniu
    round_trip-IsVerified credential r s blank h =
        let t = typed crypto (dated crypto r) in
        let signed : (sign_qiniu crypto credential r >>= λ o.
        ok (with_header crypto (lit "Authorization") o.0 o.1))
            ≡ ok s =
          rw (round_trip, blank) at h in
        let (o, done, last) = >>=-eq-ok (sign_qiniu crypto credential r) _ signed in
        let (p, read, made) = >>=-eq-ok (body_part crypto (qiniu_includes crypto t) t) _ done in
        let pair = ok-injective made in
        subst (IsVerified credential)
          (ap (λ q. with_header crypto (lit "Authorization") q.0 q.1) pair ∙ ok-injective last)
          (signed-IsVerified credential t p read)
