-- ===== src/Text/Counts.antt =====
-- How often a text is in a list.
use kubernetes_csi_driver.Base.{ℕ, suc, ◌+◌, ◌≡◌, refl, List, [], ◌∷◌, ◌++◌, if◌then◌else◌, arith}
use kubernetes_csi_driver.Text.Bytes.{Str, str_eq}

unfoldable pub count : Str → List Str → ℕ
count x [] = 0
count x (y ∷ ys) = let rest = count x ys in if str_eq x y then suc rest else rest

pub count-append : (x : Str) (ys zs : List Str) → count x (ys ++ zs) ≡ count x ys + count x zs
unfolding count
count-append x [] zs = omega arith
count-append x (y ∷ ys) zs = ground (arith, count-append x ys zs)

-- One text more, without a case split.
pub count-cons : (x y : Str) (ys : List Str) → count x (y ∷ ys) ≡ count x (y ∷ []) + count x ys
unfolding count
count-cons x y ys = ground arith

pub count-nil : (x : Str) → count x [] ≡ 0
unfolding count
count-nil x = refl
