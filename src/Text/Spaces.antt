-- ===== src/Text/Spaces.antt =====
-- Texts that `strings.TrimSpace` leaves as they are.
use mathlib.Core.List.{reverse-reverse, reverse-cons}
use kubernetes_csi_driver.Base.{
  ℕ, zero, suc, ◌+◌, ◌/◌, ◌%◌, ◌<◌, ◌≡◌, refl, false, [], ◌∷◌, reverse, arith, All, All-append, ltb,
  Bool-cases, inl, inr,
}
use kubernetes_csi_driver.Text.Bytes.{Str, is_space, trim_left, trim_space}
use kubernetes_csi_driver.Text.Numbers.{digits, format_uint}

abbrev pub HasNoSpace : Str → Type 0
HasNoSpace = All (λ c. is_space c ≡ false)

trim_left-HasNoSpace : (s : Str) → HasNoSpace s → trim_left s ≡ s
unfolding trim_left
trim_left-HasNoSpace [] h = refl
trim_left-HasNoSpace (c ∷ s) h = rw h.0

reverse-HasNoSpace : (s : Str) → HasNoSpace s → HasNoSpace (reverse s)
reverse-HasNoSpace [] h = tt
reverse-HasNoSpace (c ∷ s) h =
    rw (reverse-cons c s) (All-append _ (reverse s) (c ∷ []) (reverse-HasNoSpace s h.1) (h.0, tt))

pub trim_space-HasNoSpace : (s : Str) → HasNoSpace s → trim_space s ≡ s
unfolding trim_space
trim_space-HasNoSpace s h =
    rw (trim_left-HasNoSpace s h, trim_left-HasNoSpace (reverse s) (reverse-HasNoSpace s h))
      (reverse-reverse s)

digit-HasNoSpace : (d : ℕ) → d < 10 → is_space (d + 48) ≡ false
unfolding is_space
digit-HasNoSpace d h = ground arith

digits-HasNoSpace : (fuel n : ℕ) → HasNoSpace (digits fuel n)
unfolding digits
digits-HasNoSpace zero n = tt
digits-HasNoSpace (suc fuel) n = elim (Bool-cases (ltb n 10)) [
  | inl small ↦ rw small (digit-HasNoSpace n (ground arith), tt)
  | inr large ↦ rw large (
      All-append _ (digits fuel (n / 10)) _ (digits-HasNoSpace fuel (n / 10))
        (digit-HasNoSpace (n % 10) (omega arith), tt))
]

pub trim_space-format_uint : (n : ℕ) → trim_space (format_uint n) ≡ format_uint n
unfolding format_uint
trim_space-format_uint n = trim_space-HasNoSpace (digits 20 n) (digits-HasNoSpace 20 n)
