-- ===== src/Plugin/Kodofs/Slips.antt =====
-- About the errors and the truncation in plugin/kodofs_parameters.go.
use kubernetes_csi_driver.Base.{
  ℕ, ◌+◌, ◌*◌, ◌%◌, ◌^◌, ◌<◌, ◌≡◌, ◌≢◌, refl, sym, ap, ◌∙◌, true, [], ◌∷◌, none, ok, err, >>=-eq-ok,
  err-ne-ok, arith, Option-cases, inl, inr,
}
use kubernetes_csi_driver.Text.{Str, format_uint, parse_uint-format_uint, trim_space-format_uint}
use kubernetes_csi_driver.Plugin.Fields.{
  Field, field_of, name, mount_server_address, fs_type, gateway_id,
}
use kubernetes_csi_driver.Plugin.Values.{
  GoLib, StrMap, ParseError, is_empty, parse_uint, lookup, text_or_fail,
}
use kubernetes_csi_driver.Plugin.Kodofs.Parameters.{
  KodofsStorageClassParameter, KodofsPvParameter, number_of, assign_kodofs, parse_kodofs_class,
  class_or_zero, mount_address, parse_kodofs_pv, assign_kodofs_pv, assign_kodofs_pv_all,
}

number_of-format_uint :
    (fn : Str) (f : Field) (n : ℕ) → n < 2 ^ 64 → number_of fn f (format_uint n) ≡ ok n
unfolding number_of parse_uint
number_of-format_uint fn f n h =
    rw (trim_space-format_uint n, parse_uint-format_uint n h, number_of, parse_uint) refl

assign_kodofs_pv_keeps :
    {Url : Type 0} (f : Field) (value : Str) (p : KodofsPvParameter Url)
    → (assign_kodofs_pv f value p).class ≡ p.class
unfolding assign_kodofs_pv
assign_kodofs_pv_keeps gateway_id value p = refl
assign_kodofs_pv_keeps f value p = refl

-- The second loop leaves the parameters of the class alone.
assign_kodofs_pv_all_keeps :
    {Url : Type 0} (ctx : StrMap) (p : KodofsPvParameter Url)
    → (assign_kodofs_pv_all ctx p).class ≡ p.class
unfolding assign_kodofs_pv_all
assign_kodofs_pv_all_keeps [] p = refl
assign_kodofs_pv_all_keeps ((key, value) ∷ ctx) p = elim (Option-cases (field_of key)) [
  | inl unknown ↦ rw (assign_kodofs_pv_all, unknown) (assign_kodofs_pv_all_keeps ctx p)
  | inr (f, known) ↦
      rw (assign_kodofs_pv_all, known)
        (assign_kodofs_pv_all_keeps ctx (assign_kodofs_pv f value p)
          ∙ assign_kodofs_pv_keeps f value p)
]

module _ {Url Duration : Type 0} (go : GoLib Url Duration) (fn : Str) where
  -- Two 64-bit numbers that differ by a multiple of 256 are the same type of a file system: none is
  -- refused for being too large.
  pub assign_kodofs_wraps :
      (n k : ℕ) (p : KodofsStorageClassParameter Url)
      → n + 256 * k < 2 ^ 64
      → assign_kodofs go fn fs_type (format_uint (n + 256 * k)) p
        ≡ assign_kodofs go fn fs_type (format_uint n) p
  unfolding assign_kodofs
  assign_kodofs_wraps n k p h =
      let wraps : (n + 256 * k) % 2 ^ 8 ≡ n % 2 ^ 8 = omega arith in
      rw
        (
          number_of-format_uint fn fs_type (n + 256 * k) h,
          number_of-format_uint fn fs_type n (omega arith),
          wraps,
        )
        refl

  mount_address_absent :
      (secrets : StrMap)
      → lookup (name mount_server_address) secrets ≡ none
      → mount_address go fn secrets none ≡ err (is_empty (name mount_server_address) fn)
  unfolding mount_address
  mount_address_absent secrets h = rw (mount_address, h) refl

  -- If one parameter of the class in the volume context is wrong, whichever it is, the address of
  -- the mount server in the context is lost: unless the secrets have one, the volume is refused.
  pub parse_kodofs_pv_refuses :
      (ctx secrets : StrMap) (e : ParseError) (p : KodofsPvParameter Url)
      → parse_kodofs_class go fn ctx [] true ≡ err e
      → lookup (name mount_server_address) secrets ≡ none
      → parse_kodofs_pv go fn ctx secrets ≢ ok p
  unfolding parse_kodofs_pv class_or_zero
  parse_kodofs_pv_refuses ctx secrets e p wrong absent h =
      let start : KodofsPvParameter Url = record {
        class = class_or_zero (parse_kodofs_class go fn ctx [] true);
        gateway_id = [];
        access_token = [];
        access_point_id = [];
      } in
      let read = assign_kodofs_pv_all ctx start in
      let (_, _, h1) = >>=-eq-ok (text_or_fail fn gateway_id secrets read.gateway_id) _ h in
      let (_, found, _) =
        >>=-eq-ok (mount_address go fn secrets read.class.mount_server_address) _ h1 in
      let lost = assign_kodofs_pv_all_keeps ctx start ∙ ap class_or_zero wrong in
      let refused = ap (λ c. mount_address go fn secrets c.mount_server_address) lost in
      err-ne-ok (sym (mount_address_absent secrets absent) ∙ (sym refused ∙ found))
