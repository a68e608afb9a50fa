-- ===== src/Plugin/Kodo/Load.antt =====
-- One entry of the volume context under the switch of plugin/kodo_parameters.go.
use mathlib.Core.Option
use kubernetes_csi_driver.Base.{
  ◌≡◌, refl, ◌∙◌, ℕ, ◌^◌, ◌<◌, Bool, true, false, ◌∷◌, ◌++◌, Option, none, some, ok,
  range_loop-cons,
}
use kubernetes_csi_driver.Text.{Str, format_uint, format_bool, trim_space}
use kubernetes_csi_driver.Plugin.Fields.{Field, name, field_of-name}
use kubernetes_csi_driver.Plugin.Values.{GoLib, StrMap, want_uint, want_bool, want_duration}
use kubernetes_csi_driver.Plugin.Reading.{
  want_uint-format_uint, want_bool-format_bool, want_duration-duration_string,
}
use kubernetes_csi_driver.Plugin.Kodo.StorageClass.{
  KodoStorageClassParameter, assign, assign_entry, assign_all,
}
use kubernetes_csi_driver.Plugin.Kodo.Context.{optional_entry, flag_entry}

-- A 64-bit number, if there is one.
abbrev pub Fits : Option ℕ → Type 0
Fits none = Unit
Fits (some n) = n < 2 ^ 64

module _ {Url Duration : Type 0} (go : GoLib Url Duration) (fn : Str) where
  assign_entry-name :
      (f : Field) (v : Str) (p : KodoStorageClassParameter Url Duration)
      → assign_entry go fn (name f, v) p ≡ assign go fn f v p
  unfolding assign_entry
  assign_entry-name f v p = rw (field_of-name f, assign_entry)

  pub assign_all-cons :
      (f : Field) (v : Str) (rest : StrMap) (p q : KodoStorageClassParameter Url Duration)
      → assign go fn f v p ≡ ok q
      → assign_all go fn ((name f, v) ∷ rest) p ≡ assign_all go fn rest q
  unfolding assign_all
  assign_all-cons f v rest p q e =
      range_loop-cons (assign_entry go fn) (name f, v) rest p q (assign_entry-name f v p ∙ e)

  module _ (f : Field) (rest : StrMap) where
    -- Loading an optional number, duration or truth value, and a flag; `set` writes the field.
    pub load_uint :
        (set : Option ℕ → KodoStorageClassParameter Url Duration)
        → ((v : Str) (n : ℕ)
            → want_uint fn f v ≡ ok n
            → assign go fn f v (set none) ≡ ok (set (some n)))
        → (o : Option ℕ) → Fits o
        → assign_all go fn (optional_entry f (Option.map format_uint o) ++ rest) (set none)
          ≡ assign_all go fn rest (set o)
    unfolding optional_entry
    load_uint set reads none fits = refl
    load_uint set reads (some n) fits =
        assign_all-cons f (format_uint n) rest (set none) (set (some n))
          (reads (format_uint n) n (want_uint-format_uint fn f n fits))

    pub load_duration :
        (set : Option Duration → KodoStorageClassParameter Url Duration)
        → ((v : Str) (d : Duration)
            → want_duration go fn f v ≡ ok d
            → assign go fn f v (set none) ≡ ok (set (some d)))
        → (o : Option Duration)
        → ((d : Duration) → go.parse_duration (trim_space (go.duration_string d)) ≡ some d)
        → assign_all go fn (optional_entry f (Option.map go.duration_string o) ++ rest) (set none)
          ≡ assign_all go fn rest (set o)
    unfolding optional_entry
    load_duration set reads none law = refl
    load_duration set reads (some d) law =
        assign_all-cons f (go.duration_string d) rest (set none) (set (some d))
          (reads (go.duration_string d) d (want_duration-duration_string go fn f d (law d)))

    pub load_bool :
        (set : Option Bool → KodoStorageClassParameter Url Duration)
        → ((v : Str) (b : Bool)
            → want_bool fn f v ≡ ok b
            → assign go fn f v (set none) ≡ ok (set (some b)))
        → (o : Option Bool)
        → assign_all go fn (optional_entry f (Option.map format_bool o) ++ rest) (set none)
          ≡ assign_all go fn rest (set o)
    unfolding optional_entry
    load_bool set reads none = refl
    load_bool set reads (some b) =
        assign_all-cons f (format_bool b) rest (set none) (set (some b))
          (reads (format_bool b) b (want_bool-format_bool fn f b))

    pub load_flag :
        (set : Bool → KodoStorageClassParameter Url Duration)
        → ((v : Str) (b : Bool)
            → want_bool fn f v ≡ ok b
            → assign go fn f v (set false) ≡ ok (set b))
        → (b : Bool)
        → assign_all go fn (flag_entry f b ++ rest) (set false) ≡ assign_all go fn rest (set b)
    unfolding flag_entry
    load_flag set reads false = refl
    load_flag set reads true =
        assign_all-cons f (format_bool true) rest (set false) (set true)
          (reads (format_bool true) true (want_bool-format_bool fn f true))
