-- ===== src/Qiniu/Existence.antt =====
-- About IsVolumeExists in qiniu/kodofs.go.
use kubernetes_csi_driver.Base.{
  ◌++◌, ◌≡◌, ◌↔◌, refl, true, false, none, ok, err, if◌then◌else◌, arith,
}
use kubernetes_csi_driver.Base.Integers.{ℤ, pos, negsuc, is_zero}
use kubernetes_csi_driver.Text.{Str, lit}
use kubernetes_csi_driver.Qiniu.Client.{http_get, HttpRequest, Response}
use kubernetes_csi_driver.Qiniu.Kodofs.{
  KodofsErrorBody, kodofs_error, KodofsNetwork, is_no_volume, read_answer, existing, parsed,
  kodofs_answer, exchange, query, existence, is_volume_exists,
}

-- The request behind IsVolumeExists.
abbrev pub lookup_request : {S Url E : Type 0} → KodofsNetwork S Url E → Url → Str → HttpRequest
lookup_request net master_url name = record {
  method = http_get;
  url =
      net.url_string master_url
      ++ (lit "/v1/kodofs-master/volume/info?" ++ net.encode_pair (lit "volume") name);
  content_type = none;
  body = lit "";
}

module _ {S Url E : Type 0} (net : KodofsNetwork S Url E) (master_url : Url) where
  by_code_iff :
      (b : KodofsErrorBody) (c : ℤ)
      → b.code ≡ c
      → ((existence net master_url (if is_zero b.code then ok tt else err (kodofs_error b))
            ≡ ok false)
          ↔ (b.code ≡ negsuc 1999))
        × ((existence net master_url (if is_zero b.code then ok tt else err (kodofs_error b))
              ≡ ok true)
            ↔ (b.code ≡ pos 0))
  unfolding existence is_no_volume
  by_code_iff b (pos n) h = rw h (ground arith)
  by_code_iff b (negsuc n) h = rw h (ground arith)

  -- What the code of an answer says.
  verdict_iff :
      (b : KodofsErrorBody) (bs : Str)
      → net.unmarshal_error bs ≡ ok b
      → ((existence net master_url (read_answer net master_url (existing net master_url) bs)
            ≡ ok false)
          ↔ (b.code ≡ negsuc 1999))
        × ((existence net master_url (read_answer net master_url (existing net master_url) bs)
              ≡ ok true)
            ↔ (b.code ≡ pos 0))
  unfolding existence read_answer parsed is_no_volume
  verdict_iff b bs h = rw (read_answer, h) (by_code_iff b b.code refl)

  -- When the master answers with a body that has an error code, IsVolumeExists says that there is no
  -- such volume exactly for the code -2000, and that there is one exactly for the code 0, whatever
  -- the status of the answer is.
  pub is_volume_exists_iff :
      (name : Str) (s s' : S) (r : Response E) (bs : Str) (b : KodofsErrorBody)
      → net.new_request (lookup_request net master_url name) ≡ none
      → net.send (lookup_request net master_url name) s ≡ (ok r, s')
      → r.body ≡ ok bs
      → net.unmarshal_error bs ≡ ok b
      → (((is_volume_exists net master_url name s).0 ≡ ok false) ↔ (b.code ≡ negsuc 1999))
        × (((is_volume_exists net master_url name s).0 ≡ ok true) ↔ (b.code ≡ pos 0))
  unfolding is_volume_exists query exchange kodofs_answer
  is_volume_exists_iff name s s' r bs b created sent whole parsed =
      rw (is_volume_exists, query, exchange, created, sent, kodofs_answer, whole)
        (verdict_iff b bs parsed)
