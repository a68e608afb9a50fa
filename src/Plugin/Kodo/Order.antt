-- ===== src/Plugin/Kodo/Order.antt =====
-- About the order in which `range` visits the map in parseKodoStorageClassParameter of
-- plugin/kodo_parameters.go.
use mathlib.Core.List.{Permᴰ}
use kubernetes_csi_driver.Base.{
  ◌≡◌, refl, ap, some, arith, Result, ok, err, ◌>>=◌, to_option, Option-cases, inl, inr, Pairs,
  range_loop-perm, bind_agree,
}
use kubernetes_csi_driver.Text.{Str}
use kubernetes_csi_driver.Plugin.Fields.{Field, field_of}
use kubernetes_csi_driver.Plugin.Values.{GoLib, StrMap}
use kubernetes_csi_driver.Plugin.Kodo.Swap.{assign_swap}
use kubernetes_csi_driver.Plugin.Kodo.StorageClass.{
  KodoStorageClassParameter, zero_storage_class, assign, assign_entry, assign_all, complete,
  parse_storage_class,
}

-- Two keys that do not denote one field.
abbrev pub AreApart : Str → Str → Type 0
AreApart k l = (f : Field) → field_of k ≡ some f → field_of l ≡ some f → ⊥

-- No two keys of the map agree up to case on a field.
abbrev pub HasDistinctFields : StrMap → Type 0
HasDistinctFields = Pairs (λ d e. AreApart d.0 e.0)

module _ {E A : Type 0} where
  ok_bind : (r : Result E A) → (r >>= ok) ≡ r
  ok_bind (ok a) = refl
  ok_bind (err e) = refl

module _ {Url Duration : Type 0} (go : GoLib Url Duration) (fn : Str) where
  assign_entry_swap :
      (d e : Str × Str) (p : KodoStorageClassParameter Url Duration)
      → AreApart d.0 e.0
      → to_option (assign_entry go fn d p >>= assign_entry go fn e)
        ≡ to_option (assign_entry go fn e p >>= assign_entry go fn d)
  unfolding assign_entry
  assign_entry_swap (k, v) (l, w) p apart = elim (Option-cases (field_of k)) [
    | inl unknown ↦
        rw (unknown, assign_entry) (ground (arith, ok_bind (assign_entry go fn (l, w) p)))
    | inr (f, known) ↦ elim (Option-cases (field_of l)) [
      | inl unknown ↦
          rw (known, unknown, assign_entry) (ap to_option (ok_bind (assign go fn f v p)))
      | inr (g, other) ↦
          rw (known, other, assign_entry)
            (assign_swap go fn f g v w p (λ e. apart f known (rw e other)))
    ]
  ]

  -- Two iteration orders of one map give the same parameters, or both an error, if no two keys of
  -- the map denote one field.
  pub parse_storage_class-perm :
      (ctx ctx' secrets : StrMap)
      → Permᴰ ctx ctx'
      → HasDistinctFields ctx
      → to_option (parse_storage_class go fn ctx secrets)
        ≡ to_option (parse_storage_class go fn ctx' secrets)
  unfolding parse_storage_class assign_all
  parse_storage_class-perm ctx ctx' secrets perm h = bind_agree _ _ (complete go fn secrets) (
      range_loop-perm (assign_entry go fn) _ (λ d e apart f k l. apart f l k) assign_entry_swap perm
        h zero_storage_class)
