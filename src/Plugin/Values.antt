-- ===== src/Plugin/Values.antt =====
-- How the values of parameters are read: the functions at the end of plugin/kodo_parameters.go and
-- plugin/kodofs_parameters.go, the errors of the parsers, and the maps that they read.
use kubernetes_csi_driver.Base.{
  Bool, true, false, ◌||◌, List, [], ◌∷◌, Option, none, some, if◌then◌else◌, ℕ, Result, ok, err,
}
use kubernetes_csi_driver.Text.{Str, lit, str_eq, trim_space, to_lower, is_blank, NumError}
use kubernetes_csi_driver.Text
use kubernetes_csi_driver.Plugin.Fields.{Field, name}

-- What the driver uses of the packages `net/url` and `time`: `url.Parse`, `URL.String`,
-- `URL.Scheme`, `time.ParseDuration` and `Duration.String`, over their abstract types.
pub record GoLib (Url Duration : Type 0) : Type 0 where
  pub parse : Str → Option Url
  pub url_string : Url → Str
  pub scheme : Url → Str
  pub parse_duration : Str → Option Duration
  pub duration_string : Duration → Str

-- The errors of the parsers, with the texts that `fmt.Errorf` inserts; the cause that `%w` wraps
-- is left out.
pub data ParseError : Type 0 where
  -- "%s: invalid %s: %s: %w"
  invalid : Str → Field → Str → ParseError
  -- "%s: unrecognized %s: %s"
  unrecognized : Str → Field → Str → ParseError
  -- "%s: failed to parse %s: %w"
  failed_to_parse : Str → Field → ParseError
  -- "%s: %s is empty"
  is_empty : Str → Str → ParseError

-- `map[string]string`: the entries in the order of one iteration.
abbrev pub StrMap : Type 0
StrMap = List (Str × Str)

-- `value, ok := m[key]`
unfoldable pub lookup : Str → StrMap → Option Str
lookup key [] = none
lookup key ((k, v) ∷ m) = if str_eq k key then some v else lookup key m

one_of : Str → List Str → Bool
one_of s [] = false
one_of s (t ∷ ts) = str_eq s t || one_of s ts

-- `toLower`
unfoldable pub lower_trimmed : Str → Str
lower_trimmed s = to_lower (trim_space s)

unfoldable pub parse_bool : Str → Option Bool
unfolding one_of lower_trimmed
parse_bool s =
    if one_of (lower_trimmed s) (lit "yes" ∷ lit "true" ∷ lit "y" ∷ lit "on" ∷ [])
    then some true
    else if one_of (lower_trimmed s) (lit "no" ∷ lit "false" ∷ lit "n" ∷ lit "off" ∷ [])
    then some false
    else none

-- `parseUint`
unfoldable pub parse_uint : Str → Result NumError ℕ
parse_uint s = Text.parse_uint (trim_space s)

pub data VfsCacheMode : Type 0 where
  -- The zero value "", for a mode that is not given.
  unset off minimal writes full : VfsCacheMode

-- `VfsCacheMode.String`
unfoldable pub mode_string : VfsCacheMode → Str
mode_string unset = []
mode_string off = lit "off"
mode_string minimal = lit "minimal"
mode_string writes = lit "writes"
mode_string full = lit "full"

-- The inner switch of `case FIELD_VFS_CACHE_MODE`.
unfoldable pub parse_mode : Str → Option VfsCacheMode
unfolding one_of lower_trimmed
parse_mode s =
    if one_of (lower_trimmed s) (lit "off" ∷ [] ∷ [])
    then some off
    else if one_of (lower_trimmed s) (lit "min" ∷ lit "minimal" ∷ [])
    then some minimal
    else if str_eq (lower_trimmed s) (lit "writes")
    then some writes
    else if str_eq (lower_trimmed s) (lit "full")
    then some full
    else none

-- The four ways in which the switches read a value, with the error of each.
unfoldable pub want_bool : Str → Field → Str → Result ParseError Bool
want_bool fn f value = elim (parse_bool value) [
  | none ↦ err (unrecognized fn f value)
  | some b ↦ ok b
]

unfoldable pub want_uint : Str → Field → Str → Result ParseError ℕ
want_uint fn f value = elim (parse_uint value) [ err _ ↦ err (failed_to_parse fn f) | ok n ↦ ok n ]

module _ {Url Duration : Type 0} (go : GoLib Url Duration) where
  -- `parseUrl`
  unfoldable pub parse_url : Str → Option Url
  parse_url s = go.parse (trim_space s)

  unfoldable pub want_url : Str → Field → Str → Result ParseError Url
  want_url fn f value = elim (parse_url value) [ none ↦ err (invalid fn f value) | some u ↦ ok u ]

  unfoldable pub want_duration : Str → Field → Str → Result ParseError Duration
  want_duration fn f value = elim (go.parse_duration (trim_space value)) [
    | none ↦ err (failed_to_parse fn f)
    | some d ↦ ok d
  ]

-- `if current == "" { if value, ok := secrets[FIELD_…]; ok { … } else { error } }`
unfoldable pub text_or_fail : Str → Field → StrMap → Str → Result ParseError Str
text_or_fail fn f secrets current =
    if is_blank current
    then elim (lookup (name f) secrets) [
      | none ↦ err (is_empty fn (name f))
      | some value ↦ ok (trim_space value)
    ]
    else ok current

-- The same with a default in place of the error.
unfoldable pub text_or_default : Field → StrMap → Str → Str → Str
text_or_default f secrets default current =
    if is_blank current
    then elim (lookup (name f) secrets) [ none ↦ default | some value ↦ trim_space value ]
    else current
