-- ===== src/Protocol/DirKey.antt =====
-- About normalizeDirKey in protocol/utils.go, whose comment says that the key does not start with a
-- slash.
use mathlib.Core.List.{reverse-append}
use kubernetes_csi_driver.Base.{
  ℕ, ◌≡◌, ◌↔◌, ◌⊎◌, inl, inr, Bool, true, false, [], ◌∷◌, ◌++◌, arith, Bool-cases, ◌==◌, ◌&&◌, ◌∙◌,
  if◌then◌else◌,
}
use kubernetes_csi_driver.Text.{Str, lit, has_prefix, has_suffix, trim_prefix}
use kubernetes_csi_driver.Protocol.Utils.{normalize_dir_key}

has_prefix-slash : (c : ℕ) (s : Str) → has_prefix (c ∷ s) (lit "/") ≡ (c == 47)
unfolding has_prefix
has_prefix-slash c s = ground arith

has_suffix-concat : (s : Str) → has_suffix (s ++ lit "/") (lit "/") ≡ true
unfolding has_suffix has_prefix
has_suffix-concat s = rw (reverse-append s (lit "/"))

-- The key ends with a slash, whatever it was.
pub normalize_dir_key-has_suffix : (key : Str) → has_suffix (normalize_dir_key key) (lit "/") ≡ true
unfolding normalize_dir_key
normalize_dir_key-has_suffix key =
    elim (Bool-cases (has_suffix (trim_prefix key (lit "/")) (lit "/"))) [
      | inl there ↦ rw (there, normalize_dir_key) there
      | inr missing ↦
          rw (missing, normalize_dir_key) (has_suffix-concat (trim_prefix key (lit "/")))
    ]

-- The keys whose normal form starts with a slash.
abbrev pub IsRooted : Str → Type 0
IsRooted key = (key ≡ []) ⊎ (key ≡ lit "/") ⊎ (has_prefix key (lit "//") ≡ true)

slash_end :
    (b : Bool) (c : ℕ) (s : Str)
    → has_prefix (if b then c ∷ s else c ∷ s ++ lit "/") (lit "/") ≡ (c == 47)
unfolding has_prefix
slash_end true c s = ground arith
slash_end false c s = ground arith

trim_slash : (c : ℕ) (s : Str) → trim_prefix (c ∷ s) (lit "/") ≡ (if c == 47 then s else c ∷ s)
unfolding trim_prefix
trim_slash c s = ground arith

-- A key of two bytes or more keeps its second byte.
starts_long :
    (c d : ℕ) (key : Str)
    → has_prefix (normalize_dir_key (c ∷ d ∷ key)) (lit "/") ≡ (c == 47 && d == 47)
unfolding normalize_dir_key
starts_long c d key = elim (Bool-cases (c == 47)) [
  | inl slash ↦
      rw (trim_slash c (d ∷ key), slash, normalize_dir_key)
        (slash_end (has_suffix (d ∷ key) (lit "/")) d key)
  | inr other ↦
      rw (trim_slash c (d ∷ key), other, normalize_dir_key)
        (slash_end (has_suffix (c ∷ d ∷ key) (lit "/")) c (d ∷ key) ∙ other)
]

-- The normal form starts with a slash exactly for the keys "", "/" and those that start with two
-- slashes.
pub normalize_dir_key-has_prefix_iff :
    (key : Str) → (has_prefix (normalize_dir_key key) (lit "/") ≡ true) ↔ IsRooted key
unfolding normalize_dir_key has_prefix trim_prefix has_suffix
normalize_dir_key-has_prefix_iff [] = ground arith
normalize_dir_key-has_prefix_iff (c ∷ []) = ground arith
normalize_dir_key-has_prefix_iff (c ∷ d ∷ key) = ground (arith, starts_long c d key)
