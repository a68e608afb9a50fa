-- ===== src/Plugin/Reading.antt =====
-- What is formatted by CreateVolume is read back by the value parsers.
use kubernetes_csi_driver.Base.{ℕ, ◌<◌, ◌^◌, ◌≡◌, refl, Bool, true, false, some, ok}
use kubernetes_csi_driver.Text.{
  Str, format_uint, format_bool, parse_uint-format_uint, trim_space-format_uint, trim_space, str_eq,
  to_lower,
}
use kubernetes_csi_driver.Plugin.Fields.{Field}
use kubernetes_csi_driver.Plugin.Values.{
  GoLib, parse_uint, parse_bool, want_uint, want_bool, want_duration, VfsCacheMode, unset, off,
  mode_string, parse_mode,
}

pub want_uint-format_uint :
    (fn : Str) (f : Field) (n : ℕ) → n < 2 ^ 64 → want_uint fn f (format_uint n) ≡ ok n
unfolding want_uint parse_uint
want_uint-format_uint fn f n h =
    rw (trim_space-format_uint n, parse_uint-format_uint n h, want_uint, parse_uint)

pub want_bool-format_bool :
    (fn : Str) (f : Field) (b : Bool) → want_bool fn f (format_bool b) ≡ ok b
unfolding want_bool parse_bool format_bool trim_space str_eq to_lower
want_bool-format_bool fn f true = refl
want_bool-format_bool fn f false = refl

pub want_duration-duration_string :
    {Url Duration : Type 0} (go : GoLib Url Duration) (fn : Str) (f : Field) (d : Duration)
    → go.parse_duration (trim_space (go.duration_string d)) ≡ some d
    → want_duration go fn f (go.duration_string d) ≡ ok d
unfolding want_duration
want_duration-duration_string go fn f d h = rw (h, want_duration)

-- A mode that was not given is written as "" and read as "off".
abbrev pub settle : VfsCacheMode → VfsCacheMode
settle unset = off
settle mode = mode

pub parse_mode-mode_string : (m : VfsCacheMode) → parse_mode (mode_string m) ≡ some (settle m)
unfolding parse_mode mode_string trim_space str_eq to_lower
parse_mode-mode_string unset = refl
parse_mode-mode_string m = refl
