-- ===== src/Qiniu/Answers.antt =====
-- About the requests behind the calls of qiniu/kodo.go that change the account.
use mathlib.Core.Path.{subst}
use kubernetes_csi_driver.Base.{
  ℕ, ◌≢◌, ◌≡◌, refl, Bool, true, false, List, [], ◌∷◌, Result, ok, err-ne-ok, ap, sym, ◌∙◌, err,
  inl, inr, Bool-cases, Option-cases, Result-cases, arith,
}
use kubernetes_csi_driver.Text.{Str}
use kubernetes_csi_driver.Qiniu.Client.{
  Method, http_get, HttpRequest, Response, RequestBody, Network, KodoFailure, World, Client, after,
  ◌>>=◌, lift, error_of, answer_of, perform,
}
use kubernetes_csi_driver.Qiniu.Regions.{KodoClient, is_ok}
use kubernetes_csi_driver.Qiniu.Iam.{
  ignore, is_batch_ok, create_bucket, delete_bucket, api_endpoint, marshalled, call_api, send_api,
  create_iam_user, delete_iam_user, create_iam_policy, delete_iam_policy, grant_iam_policy,
  revoke_iam_policy, batch_endpoint, send_delete_objects,
}
use kubernetes_csi_driver.Qiniu.Calls.{
  KodoCall, call_create_bucket, call_delete_bucket, call_create_user, call_get_key_pair,
  call_delete_user, call_create_policy, call_delete_policy, call_grant_policy, call_revoke_policy,
  call_delete_objects, call_s3_endpoint, call_rs_endpoint, call_rsf_endpoint, call_s3_region_id,
  call_regions, call_buckets, call_find_bucket, run_call,
}

-- The calls that change the account.
unfoldable pub is_change : KodoCall → Bool
is_change (call_create_bucket b r) = true
is_change (call_delete_bucket b) = true
is_change (call_create_user u p) = true
is_change (call_delete_user u) = true
is_change (call_create_policy p b) = true
is_change (call_delete_policy p) = true
is_change (call_grant_policy u ps) = true
is_change (call_revoke_policy u ps) = true
is_change (call_delete_objects b os) = true
is_change _ = false

module _ {S Url E : Type 0} (net : Network S Url E) (client : KodoClient Url) where
  -- The last request was no GET, and its answer has an accepted status and a body.
  pub Answered : (ℕ → Bool) → World S Url E → Type 0
  Answered accepts w =
      (request : HttpRequest) × (r : Response E) × (bs : Str) × (rest : List
        (HttpRequest × Result E (Response E)))
      × (w.sent ≡ (request, ok r) ∷ rest)
      × (accepts r.status ≡ true)
      × (r.body ≡ ok bs)
      × (request.method ≢ http_get)

  after-eq-ok :
      {A B : Type 0} (o : Result (KodoFailure E) A × World S Url E) (f : A → Client S Url E B)
      (b : B)
      → (after o f).0 ≡ ok b
      → (a : A) × ((after o f) ≡ f a o.1)
  unfolding after
  after-eq-ok (ok a, w) f b h = (a, refl)
  after-eq-ok (err e, w) f b h = absurd (ground arith)

  error_of-ne-ok : (A : Type 0) (status : ℕ) (bs : Str) (a : A) → error_of net status bs ≢ ok a
  unfolding error_of
  error_of-ne-ok A status bs a h = elim (Result-cases (net.unmarshal_message bs)) [
    | inl ([], e) ↦ err-ne-ok (rw (error_of, e) at h)
    | inl (c ∷ cs, e) ↦ err-ne-ok (rw (error_of, e) at h)
    | inr (f, e) ↦ err-ne-ok (rw (error_of, e) at h)
  ]

  answer_of-eq-ok :
      {A : Type 0} (accepts : ℕ → Bool) (decode : Str → Result E A) (r : Response E) (a : A)
      → answer_of net accepts decode (ok r) ≡ ok a
      → (accepts r.status ≡ true) × (bs : Str) × (r.body ≡ ok bs)
  unfolding answer_of
  answer_of-eq-ok {A} accepts decode r a h = elim (Result-cases r.body) [
    | inl (bs, e) ↦ elim (Bool-cases (accepts r.status)) [
      | inl t ↦ (t, bs, e)
      | inr t ↦ absurd (error_of-ne-ok A r.status bs a (rw (answer_of, e, t) at h))
    ]
    | inr (f, e) ↦ absurd (err-ne-ok (rw (answer_of, e) at h))
  ]

  perform-Answered :
      {A : Type 0} (request : HttpRequest) (accepts : ℕ → Bool) (decode : Str → Result E A) (a : A)
      (w : World S Url E)
      → (perform net request accepts decode w).0 ≡ ok a
      → request.method ≢ http_get
      → Answered accepts (perform net request accepts decode w).1
  unfolding perform Answered answer_of
  perform-Answered request accepts decode a w h change =
      elim (Option-cases (net.new_request request)) [
        | inl e ↦ elim (Result-cases (net.send request w.cloud).0) [
          | inl (r, q) ↦
              let done = answer_of-eq-ok accepts decode r a (rw (perform, e, q) at h) in
              rw (perform, e)
                (
                  request,
                  r,
                  done.1,
                  w.sent,
                  ap (λ x. (request, x) ∷ w.sent) q,
                  done.0,
                  done.2,
                  change,
                )
          | inr (f, q) ↦ absurd (err-ne-ok (rw (perform, e, q, answer_of) at h))
        ]
        | inr (f, e) ↦ absurd (err-ne-ok (rw (perform, e) at h))
      ]

  -- A call that is followed by a request.
  after-Answered :
      {A B : Type 0} (accepts : ℕ → Bool) (m : Client S Url E A) (f : A → Client S Url E B) (b : B)
      (w : World S Url E)
      → ((a : A) (w' : World S Url E) → (f a w').0 ≡ ok b → Answered accepts (f a w').1)
      → ((m >>= f) w).0 ≡ ok b
      → Answered accepts ((m >>= f) w).1
  after-Answered accepts m f b w k h =
      let o = after-eq-ok (m w) f b h in
      subst (λ x. Answered accepts x.1) (sym o.1) (k o.0 (m w).1 (sym (ap (λ x. x.0) o.1) ∙ h))

  call_api-Answered :
      {A : Type 0} (m : Method) (path : Str) (decode : Str → Result E A) (a : A) (w : World S Url E)
      → m ≢ http_get
      → (call_api net client m path decode w).0 ≡ ok a
      → Answered is_ok (call_api net client m path decode w).1
  unfolding call_api
  call_api-Answered m path decode a w change h =
      after-Answered is_ok (api_endpoint net client) _ a w
        (λ api w' k. perform-Answered _ is_ok decode a w' k change) h

  send_api-Answered :
      (m : Method) (path : Str) (b : RequestBody) (w : World S Url E)
      → m ≢ http_get
      → (send_api net client m path b w).0 ≡ ok tt
      → Answered is_ok (send_api net client m path b w).1
  unfolding send_api
  send_api-Answered m path b w change h =
      after-Answered is_ok (api_endpoint net client) _ tt w
        (λ api w1 k.
          after-Answered is_ok (lift (marshalled net client b)) _ tt w1
            (λ bs w2 k2. perform-Answered _ is_ok ignore tt w2 k2 change) k)
        h

  -- The statuses that a call takes for a success.
  unfoldable pub accepted : KodoCall → ℕ → Bool
  accepted (call_delete_objects b os) = is_batch_ok
  accepted _ = is_ok

  -- A change of the account that is reported as done was answered: the last request of the call was
  -- no GET, and its answer had the status 200, or 298 for a batch of objects.
  pub run_call-Answered :
      (c : KodoCall) (w : World S Url E)
      → is_change c ≡ true
      → (run_call net client c w).0 ≡ ok tt
      → Answered (accepted c) (run_call net client c w).1
  unfolding run_call is_change accepted create_bucket delete_bucket create_iam_user delete_iam_user
      create_iam_policy delete_iam_policy grant_iam_policy revoke_iam_policy send_delete_objects
  run_call-Answered (call_create_bucket b r) w c h =
      perform-Answered _ _ _ tt w h (λ q. ground arith)
  run_call-Answered (call_delete_bucket b) w c h = perform-Answered _ _ _ tt w h (λ q. ground arith)
  run_call-Answered (call_create_user u p) w c h = send_api-Answered _ _ _ w (λ q. ground arith) h
  run_call-Answered (call_delete_user u) w c h = call_api-Answered _ _ _ tt w (λ q. ground arith) h
  run_call-Answered (call_create_policy p b) w c h = send_api-Answered _ _ _ w (λ q. ground arith) h
  run_call-Answered (call_delete_policy p) w c h =
      call_api-Answered _ _ _ tt w (λ q. ground arith) h
  run_call-Answered (call_grant_policy u ps) w c h = send_api-Answered _ _ _ w (λ q. ground arith) h
  run_call-Answered (call_revoke_policy u ps) w c h =
      send_api-Answered _ _ _ w (λ q. ground arith) h
  run_call-Answered (call_delete_objects b os) w c h =
      after-Answered is_batch_ok (batch_endpoint net client b) _ tt w
        (λ rs w' k. perform-Answered _ _ _ tt w' k (λ q. ground arith)) h
  run_call-Answered (call_get_key_pair u) w c h = absurd (ground arith)
  run_call-Answered (call_s3_endpoint r) w c h = absurd (ground arith)
  run_call-Answered (call_rs_endpoint r) w c h = absurd (ground arith)
  run_call-Answered (call_rsf_endpoint r) w c h = absurd (ground arith)
  run_call-Answered (call_s3_region_id r) w c h = absurd (ground arith)
  run_call-Answered call_regions w c h = absurd (ground arith)
  run_call-Answered call_buckets w c h = absurd (ground arith)
  run_call-Answered (call_find_bucket b d) w c h = absurd (ground arith)
