-- ===== src/Plugin/Kodofs/Bounds.antt =====
-- About the numbers in plugin/kodofs_parameters.go.
use mathlib.Core.Path.{subst}
use kubernetes_csi_driver.Base.{
  ℕ, ◌^◌, ◌<◌, ◌≡◌, Bool, [], ◌∷◌, ok, >>=-eq-ok, ok-injective, arith, Option-cases, inl, inr,
  range_loop,
}
use kubernetes_csi_driver.Text.{Str}
use kubernetes_csi_driver.Plugin.Fields.{
  Field, field_of, mount_server_address, master_server_address, access_key, secret_key, region,
  fs_type, block_size,
}
use kubernetes_csi_driver.Plugin.Values.{GoLib, StrMap, want_url}
use kubernetes_csi_driver.Plugin.Kodofs.Parameters.{
  KodofsStorageClassParameter, zero_kodofs_class, number_of, assign_kodofs, assign_kodofs_entry,
  complete_kodofs, default_block_size, text_or_ignore, url_or_ignore, parse_kodofs_class,
}

-- The values of `uint8` and `uint32`.
pub record IsSized {Url : Type 0} (p : KodofsStorageClassParameter Url) : Type 0 where
  pub type_fits : p.fs_type < 2 ^ 8
  pub block_fits : p.block_size < 2 ^ 32

module _ {Url Duration : Type 0} (go : GoLib Url Duration) (fn : Str) where
  assign_kodofs-IsSized :
      (f : Field) (value : Str) (p q : KodofsStorageClassParameter Url)
      → assign_kodofs go fn f value p ≡ ok q
      → IsSized p
      → IsSized q
  unfolding assign_kodofs
  assign_kodofs-IsSized fs_type value p q h s =
      let (n, _, same) = >>=-eq-ok (number_of fn fs_type value) _ h in
      subst IsSized (ok-injective same)
        (record { type_fits = omega arith; block_fits = s.block_fits })
  assign_kodofs-IsSized block_size value p q h s =
      let (n, _, same) = >>=-eq-ok (number_of fn block_size value) _ h in
      subst IsSized (ok-injective same)
        (record { type_fits = s.type_fits; block_fits = omega arith })
  assign_kodofs-IsSized mount_server_address value p q h s =
      let (u, _, same) = >>=-eq-ok (want_url go fn mount_server_address value) _ h in ground arith
  assign_kodofs-IsSized master_server_address value p q h s =
      let (u, _, same) = >>=-eq-ok (want_url go fn master_server_address value) _ h in ground arith
  assign_kodofs-IsSized f value p q h s = ground arith

  assign_kodofs_entry-IsSized :
      (e : Str × Str) (p q : KodofsStorageClassParameter Url)
      → assign_kodofs_entry go fn e p ≡ ok q
      → IsSized p
      → IsSized q
  unfolding assign_kodofs_entry
  assign_kodofs_entry-IsSized (key, value) p q h s = elim (Option-cases (field_of key)) [
    | inl unknown ↦ ground arith
    | inr (f, known) ↦ assign_kodofs-IsSized f value p q (rw (known, assign_kodofs_entry) at h) s
  ]

  loop-IsSized :
      (ctx : StrMap) (p q : KodofsStorageClassParameter Url)
      → range_loop (assign_kodofs_entry go fn) ctx p ≡ ok q
      → IsSized p
      → IsSized q
  unfolding range_loop
  loop-IsSized [] p q h s = ground arith
  loop-IsSized (e ∷ ctx) p q h s =
      let (r, first, rest) = >>=-eq-ok (assign_kodofs_entry go fn e p) _ h in
      loop-IsSized ctx r q rest (assign_kodofs_entry-IsSized e p r first s)

  -- The block size that is filled in.
  default_block_size_bound :
      (n : ℕ) → n < 2 ^ 32 → (default_block_size n < 2 ^ 32) × (0 < default_block_size n)
  unfolding default_block_size
  default_block_size_bound n h = ground arith

  -- The parameters of a KodoFS storage class that were read: the type of the file system is a
  -- `uint8`, and the block size a `uint32` that is not zero.
  pub parse_kodofs_class-IsSized :
      (ctx secrets : StrMap) (ignore : Bool) (p : KodofsStorageClassParameter Url)
      → parse_kodofs_class go fn ctx secrets ignore ≡ ok p
      → IsSized p × (0 < p.block_size)
  unfolding parse_kodofs_class complete_kodofs
  parse_kodofs_class-IsSized ctx secrets ignore p h =
      let (q, read, h1) =
        >>=-eq-ok (range_loop (assign_kodofs_entry go fn) ctx zero_kodofs_class) _ h in
      let (_, _, h2) =
        >>=-eq-ok (text_or_ignore go fn ignore access_key secrets q.access_key) _ h1 in
      let (_, _, h3) =
        >>=-eq-ok (text_or_ignore go fn ignore secret_key secrets q.secret_key) _ h2 in
      let (_, _, h4) =
        >>=-eq-ok (url_or_ignore go fn ignore mount_server_address secrets q.mount_server_address) _
          h3 in
      let (_, _, h5) =
        >>=-eq-ok (url_or_ignore go fn ignore master_server_address secrets q.master_server_address)
          _ h4 in
      let (_, _, h6) = >>=-eq-ok (text_or_ignore go fn ignore region secrets q.region) _ h5 in
      let sized =
        loop-IsSized ctx zero_kodofs_class q read
          (record { type_fits = omega arith; block_fits = omega arith }) in
      let (fits, positive) = default_block_size_bound q.block_size sized.block_fits in
      subst (λ r. IsSized r × (0 < r.block_size)) (ok-injective h6)
        (record { type_fits = sized.type_fits; block_fits = fits }, positive)
