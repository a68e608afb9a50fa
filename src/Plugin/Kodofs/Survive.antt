-- ===== src/Plugin/Kodofs/Survive.antt =====
-- About the volume context of a KodoFS volume: what CreateVolume in
-- plugin/kodofs_controller_server.go writes, and what parseKodoFSPvParameter in
-- plugin/kodofs_parameters.go reads.
use kubernetes_csi_driver.Base.{
  ℕ, ◌^◌, ◌%◌, ◌<◌, ◌≡◌, refl, sym, ap, ◌∙◌, false, true, [], ◌∷◌, none, some, Result, ok,
  range_loop, range_loop-cons, ◌==◌, arith,
}
use kubernetes_csi_driver.Text.{
  Str, trim_space, is_blank, format_uint, trim_space-format_uint, parse_uint-format_uint,
}
use kubernetes_csi_driver.Plugin.Fields.{
  Field, name, field_of-name, gateway_id, access_point_id, access_token, mount_server_address,
  access_key, secret_key, master_server_address, region, fs_type, block_size,
}
use kubernetes_csi_driver.Plugin.Values.{GoLib, ParseError, StrMap, lookup, want_url, text_or_fail}
use kubernetes_csi_driver.Plugin.Kodofs.Parameters.{
  KodofsStorageClassParameter, zero_kodofs_class, KodofsPvParameter, number_of, default_block_size,
  assign_kodofs_pv, assign_kodofs_pv_all, class_or_zero, assign_kodofs, assign_kodofs_entry,
  text_or_ignore, url_or_ignore, complete_kodofs, parse_kodofs_class, mount_address,
  parse_kodofs_pv,
}
use kubernetes_csi_driver.Plugin.Values
use kubernetes_csi_driver.Plugin.Kodofs.Bounds.{IsSized}
use kubernetes_csi_driver.Plugin.Kodofs.Server.{address_text, kodofs_context}

-- Parameters as the parser leaves them: trimmed texts, numbers that fit with a block size, and
-- addresses that are read back from their texts.
pub record IsReadBack {Url Duration : Type 0} (go : GoLib Url Duration) (fn : Str)
    (p : KodofsStorageClassParameter Url) (mount master : Url) : Type 0 where
  pub access_trimmed : trim_space p.access_key ≡ p.access_key
  pub secret_trimmed : trim_space p.secret_key ≡ p.secret_key
  pub region_trimmed : trim_space p.region ≡ p.region
  pub mount_set : p.mount_server_address ≡ some mount
  pub master_set : p.master_server_address ≡ some master
  pub mount_reads : want_url go fn mount_server_address (go.url_string mount) ≡ ok mount
  pub master_reads : want_url go fn master_server_address (go.url_string master) ≡ ok master
  pub sized : IsSized p
  pub block_set : (p.block_size == 0) ≡ false

module _ {Url Duration : Type 0} (go : GoLib Url Duration) (fn : Str) where
  number_of-format_uint : (f : Field) (n : ℕ) → n < 2 ^ 64 → number_of fn f (format_uint n) ≡ ok n
  unfolding number_of Values.parse_uint
  number_of-format_uint f n h =
      rw (trim_space-format_uint n, parse_uint-format_uint n h, number_of, Values.parse_uint)

  -- The loop over one entry and the rest.
  step :
      (f : Field) (v : Str) (rest : StrMap) (p q : KodofsStorageClassParameter Url)
      {out : Result ParseError (KodofsStorageClassParameter Url)}
      → assign_kodofs go fn f v p ≡ ok q
      → range_loop (assign_kodofs_entry go fn) rest q ≡ out
      → range_loop (assign_kodofs_entry go fn) ((name f, v) ∷ rest) p ≡ out
  unfolding assign_kodofs_entry
  step f v rest p q e after =
      range_loop-cons (assign_kodofs_entry go fn) (name f, v) rest p q
        (rw (field_of-name f, assign_kodofs_entry) e)
      ∙ after

  loop_end :
      (p : KodofsStorageClassParameter Url) → range_loop (assign_kodofs_entry go fn) [] p ≡ ok p
  unfolding range_loop
  loop_end p = refl

  module _ (p : KodofsStorageClassParameter Url) (mount master : Url)
      (reads : IsReadBack go fn p mount master) where
    -- The class parameters that the loop collects.
    abbrev collected : KodofsStorageClassParameter Url
    collected = record {
      access_key = trim_space p.access_key;
      secret_key = trim_space p.secret_key;
      mount_server_address = some mount;
      master_server_address = some master;
      region = trim_space p.region;
      fs_type = p.fs_type;
      block_size = p.block_size;
    }

    fits_type : p.fs_type % 2 ^ 8 ≡ p.fs_type
    fits_type = omega (arith, reads.sized.type_fits)

    fits_block : p.block_size % 2 ^ 32 ≡ p.block_size
    fits_block = omega (arith, reads.sized.block_fits)

    type_read :
        (q : KodofsStorageClassParameter Url)
        → assign_kodofs go fn fs_type (format_uint p.fs_type) q
          ≡ ok (record q { fs_type = p.fs_type })
    unfolding assign_kodofs
    type_read q =
        rw
          (
            number_of-format_uint fs_type p.fs_type (omega (arith, reads.sized.type_fits)),
            fits_type,
          )
          refl

    mount_read :
        (q : KodofsStorageClassParameter Url)
        → assign_kodofs go fn mount_server_address (go.url_string mount) q
          ≡ ok (record q { mount_server_address = some mount })
    unfolding assign_kodofs
    mount_read q = rw reads.mount_reads refl

    master_read :
        (q : KodofsStorageClassParameter Url)
        → assign_kodofs go fn master_server_address (go.url_string master) q
          ≡ ok (record q { master_server_address = some master })
    unfolding assign_kodofs
    master_read q = rw reads.master_reads refl

    size_read :
        (q : KodofsStorageClassParameter Url)
        → assign_kodofs go fn block_size (format_uint p.block_size) q
          ≡ ok (record q { block_size = p.block_size })
    unfolding assign_kodofs
    size_read q =
        rw
          (
            number_of-format_uint block_size p.block_size (omega (arith, reads.sized.block_fits)),
            fits_block,
          )
          refl

    loop_context :
        (gateway point token : Str)
        → range_loop
            (assign_kodofs_entry go fn)
            (kodofs_context go gateway point token p)
            zero_kodofs_class
          ≡ ok collected
    unfolding kodofs_context assign_kodofs address_text
    loop_context gateway point token =
        rw (reads.mount_set, reads.master_set)
          (step gateway_id gateway _ _ _ refl (
            step access_point_id point _ _ _ refl (
              step access_token token _ _ _ refl (
                step access_key p.access_key _ _ _ refl (
                  step secret_key p.secret_key _ _ _ refl (
                    step mount_server_address (go.url_string mount) _ _ _
                      (mount_read (record collected {
                        mount_server_address = none;
                        master_server_address = none;
                        region = [];
                        fs_type = 0;
                        block_size = 0;
                      }))
                      (step master_server_address (go.url_string master) _ _ _
                        (master_read (record collected {
                          master_server_address = none;
                          region = [];
                          fs_type = 0;
                          block_size = 0;
                        }))
                        (step region p.region _ _ _ refl (
                          step fs_type (format_uint p.fs_type) _ _ _
                            (type_read (record collected { fs_type = 0; block_size = 0 }))
                            (step block_size (format_uint p.block_size) _ _ _
                              (size_read (record collected { block_size = 0 }))
                              (loop_end _)))))))))))

    ignored_text : (f : Field) (s : Str) → text_or_ignore go fn true f [] s ≡ ok s
    unfolding text_or_ignore is_blank lookup
    ignored_text f [] = refl
    ignored_text f (c ∷ s) = refl

    -- The class of the volume.
    class_context :
        (gateway point token : Str)
        → parse_kodofs_class go fn (kodofs_context go gateway point token p) [] true ≡ ok p
    unfolding parse_kodofs_class complete_kodofs url_or_ignore default_block_size
    class_context gateway point token =
        rw
          (
            loop_context gateway point token,
            reads.access_trimmed,
            reads.secret_trimmed,
            reads.region_trimmed,
            ignored_text access_key p.access_key,
            ignored_text secret_key p.secret_key,
            ignored_text region p.region,
            reads.block_set,
          )
          (ap (λ a. ok (record p { mount_server_address = a; master_server_address = some master }))
              (sym reads.mount_set)
            ∙ ap (λ b. ok (record p { master_server_address = b })) (sym reads.master_set))

    -- A value that the parser leaves as it is.
    abbrev pub IsText : Str → Type 0
    IsText s = (trim_space s ≡ s) × (is_blank s ≡ false)

    pv_step :
        (f : Field) (v : Str) (rest : StrMap) (r : KodofsPvParameter Url)
        {out : KodofsPvParameter Url}
        → assign_kodofs_pv_all rest (assign_kodofs_pv f v r) ≡ out
        → assign_kodofs_pv_all ((name f, v) ∷ rest) r ≡ out
    unfolding assign_kodofs_pv_all
    pv_step f v rest r after = rw (assign_kodofs_pv_all, field_of-name f) after

    pv_end : (r : KodofsPvParameter Url) → assign_kodofs_pv_all [] r ≡ r
    unfolding assign_kodofs_pv_all
    pv_end r = refl

    trimmed :
        (gateway point token : Str)
        → IsText gateway
        → IsText point
        → IsText token
        → Path
            (KodofsPvParameter Url)
            (record {
              class = p;
              gateway_id = trim_space gateway;
              access_token = trim_space token;
              access_point_id = trim_space point;
            })
            (record {
              class = p;
              gateway_id = gateway;
              access_token = token;
              access_point_id = point;
            })
    trimmed gateway point token g q t = rw (g.0, q.0, t.0) refl

    -- The fields of the volume itself.
    volume_context :
        (gateway point token : Str)
        → IsText gateway
        → IsText point
        → IsText token
        → assign_kodofs_pv_all
            (kodofs_context go gateway point token p)
            (record { class = p; gateway_id = []; access_token = []; access_point_id = [] })
          ≡ record {
            class = p;
            gateway_id = gateway;
            access_token = token;
            access_point_id = point;
          }
    unfolding kodofs_context assign_kodofs_pv
    volume_context gateway point token g q t = pv_step gateway_id gateway _ _ (
        pv_step access_point_id point _ _ (
          pv_step access_token token _ _ (
            pv_step access_key p.access_key _ _ (
              pv_step secret_key p.secret_key _ _ (
                pv_step mount_server_address _ _ _ (
                  pv_step master_server_address _ _ _ (
                    pv_step region p.region _ _ (
                      pv_step fs_type _ _ _ (
                        pv_step block_size _ _ _ (
                          pv_end (record {
                            class = p;
                            gateway_id = trim_space gateway;
                            access_token = trim_space token;
                            access_point_id = trim_space point;
                          })
                          ∙ trimmed gateway point token g q t))))))))))

    text_kept :
        (f : Field) (secrets : StrMap) (s : Str)
        → is_blank s ≡ false
        → text_or_fail fn f secrets s ≡ ok s
    unfolding text_or_fail
    text_kept f secrets s h = rw (text_or_fail, h) refl

    -- What CreateVolume writes into the volume context of a KodoFS volume is read back by the node
    -- server and by DeleteVolume, whatever the secrets are: the gateway, the access point, the token
    -- and all parameters of the class. This is for trimmed texts that are not blank, numbers of
    -- their widths and addresses that are read back from their texts.
    pub parse_kodofs_pv-kodofs_context :
        (gateway point token : Str) (secrets : StrMap)
        → IsText gateway
        → IsText point
        → IsText token
        → parse_kodofs_pv go fn (kodofs_context go gateway point token p) secrets
          ≡ ok (record {
            class = p;
            gateway_id = gateway;
            access_token = token;
            access_point_id = point;
          })
    unfolding parse_kodofs_pv class_or_zero mount_address
    parse_kodofs_pv-kodofs_context gateway point token secrets g q t =
        rw
          (
            parse_kodofs_pv,
            class_context gateway point token,
            volume_context gateway point token g q t,
            text_kept gateway_id secrets gateway g.1,
            text_kept access_token secrets token t.1,
            reads.mount_set,
          )
          refl
