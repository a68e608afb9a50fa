-- ===== src/Text/Numbers.antt =====
-- `strconv.ParseUint(s, 10, 64)`, `strconv.FormatUint(n, 10)` and `strconv.FormatBool`.
use kubernetes_csi_driver.Base.{
  ℕ, zero, suc, ◌+◌, ◌-◌, ◌*◌, ◌/◌, ◌%◌, ◌^◌, ◌<◌, ◌≡◌, refl, Bool, true, false, ◌&&◌, [], ◌∷◌,
  ◌++◌, arith, leb, ltb, if◌then◌else◌, sym, ap, ◌∙◌, ◌≢◌, ltb→lt, Bool-cases, inl, inr, Result, ok,
  err, ◌>>=◌,
}
use mathlib.Core.Path.{fun_ext}
use native.Mathlib.Nat.{pow-suc}
use kubernetes_csi_driver.Text.Bytes.{Str, lit}

pub data NumError : Type 0 where
  syntax out_of_range : NumError

-- One round of the loop: the digit must be one, and the value must fit 64 bits.
parse_digit : ℕ → ℕ → Result NumError ℕ
parse_digit n c =
    if leb b'0' c && leb c b'9'
    then (if ltb (n * 10 + (c - 48)) (2 ^ 64) then ok (n * 10 + (c - 48)) else err out_of_range)
    else err syntax

parse_digits : ℕ → Str → Result NumError ℕ
parse_digits n [] = ok n
parse_digits n (c ∷ s) = do m ← parse_digit n c; parse_digits m s

unfoldable pub parse_uint : Str → Result NumError ℕ
unfolding parse_digits parse_digit
parse_uint [] = err syntax
parse_uint (c ∷ s) = parse_digits 0 (c ∷ s)

-- The digits of a number below 10 ^ fuel, most significant first.
unfoldable pub digits : ℕ → ℕ → Str
digits zero n = []
digits (suc fuel) n =
    let front = digits fuel (n / 10) in
    if ltb n 10 then (n + 48) ∷ [] else front ++ (n % 10 + 48) ∷ []

-- A 64-bit number has 20 digits at most.
unfoldable pub format_uint : ℕ → Str
format_uint n = digits 20 n

unfoldable pub format_bool : Bool → Str
format_bool true = lit "true"
format_bool false = lit "false"

>>=_assoc {ℓ} :
    {A B C : Type 0} {E : Type ℓ} (r : Result E A) (f : A → Result E B) (g : B → Result E C)
    → ((r >>= f) >>= g) ≡ (r >>= λ a. f a >>= g)
>>=_assoc (ok a) f g = refl
>>=_assoc (err e) f g = refl

parse_digits-append :
    (n : ℕ) (s t : Str) → parse_digits n (s ++ t) ≡ (parse_digits n s >>= λ m. parse_digits m t)
unfolding parse_digits
parse_digits-append n [] t = refl
parse_digits-append n (c ∷ s) t =
    rw (fun_ext (λ m. parse_digits-append m s t)) (sym (>>=_assoc (parse_digit n c) _ _))

parse_digit_lem :
    (n d : ℕ) → d < 10 → n * 10 + d < 2 ^ 64 → parse_digit n (d + 48) ≡ ok (n * 10 + d)
unfolding parse_digit
parse_digit_lem n d h b = ground arith

-- Reading the digits of a 64-bit number gives the number back.
parse_digits-digits :
    (fuel n : ℕ) → n < 10 ^ fuel → n < 2 ^ 64 → parse_digits 0 (digits fuel n) ≡ ok n
unfolding digits parse_digits
parse_digits-digits zero n h b = ap ok (omega arith)
parse_digits-digits (suc fuel) n h b = elim (Bool-cases (ltb n 10)) [
  | inl small ↦
      rw (small, parse_digit_lem 0 n (ltb→lt n 10 small) (omega arith)) (ap ok (omega arith))
  | inr large ↦
      rw
        (
          large,
          parse_digits-append 0 (digits fuel (n / 10)) ((n % 10 + 48) ∷ []),
          parse_digits-digits fuel (n / 10) (omega (arith, pow-suc 10 fuel)) (omega arith),
          parse_digit_lem (n / 10) (n % 10) (omega arith) (omega arith),
        )
        (ap ok (omega arith))
]

concat-ne-nil : (s : Str) (c : ℕ) → s ++ c ∷ [] ≢ []
concat-ne-nil [] c h = cc
concat-ne-nil (a ∷ s) c h = cc

digits-ne-nil : (fuel n : ℕ) → digits (suc fuel) n ≢ []
unfolding digits
digits-ne-nil fuel n = ground (arith, concat-ne-nil (digits fuel (n / 10)) (n % 10 + 48))

parse_uint-digits : (s : Str) → s ≢ [] → parse_uint s ≡ parse_digits 0 s
unfolding parse_uint
parse_uint-digits [] h = absurd (h refl)
parse_uint-digits (c ∷ s) h = refl

pub parse_uint-format_uint : (n : ℕ) → n < 2 ^ 64 → parse_uint (format_uint n) ≡ ok n
unfolding format_uint
parse_uint-format_uint n b =
    parse_uint-digits (digits 20 n) (digits-ne-nil 19 n) ∙ parse_digits-digits 20 n (omega arith) b
