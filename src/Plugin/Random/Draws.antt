-- ===== src/Plugin/Random/Draws.antt =====
-- About the random names of plugin/utils.go.
use kubernetes_csi_driver.Base.{
  ℕ, zero, suc, ◌<◌, ◌≡◌, refl, ap, Bool, true, ◌&&◌, ◌||◌, List, [], ◌∷◌, some, length, All,
  get_elem?, leb, arith,
}
use kubernetes_csi_driver.Text.{Str}
use kubernetes_csi_driver.Plugin.Random.{random_choices, bucket_choices, random_bucket_name}

-- A lower case letter or a digit, which the name of a bucket may hold.
unfoldable pub is_bucket_char : ℕ → Bool
is_bucket_char c = (leb b'a' c && leb c b'z') || (leb b'0' c && leb c b'9')

all_in : (ℕ → Bool) → Str → Bool
all_in p [] = true
all_in p (c ∷ s) = p c && all_in p s

get_elem?-in_range :
    (p : ℕ → Bool) (s : Str) (i : ℕ)
    → i < length s
    → all_in p s ≡ true
    → (c : ℕ) × (get_elem? s i ≡ some c) × (p c ≡ true)
unfolding all_in
get_elem?-in_range p [] i h k = absurd (omega arith)
get_elem?-in_range p (c ∷ s) zero h k = (c, refl, ground arith)
get_elem?-in_range p (c ∷ s) (suc i) h k = get_elem?-in_range p s i (omega arith) (ground arith)

drawn :
    (p : ℕ → Bool) (choices : Str) (draws : List ℕ)
    → all_in p choices ≡ true
    → All (λ i. i < length choices) draws
    → (s : Str) × (random_choices choices draws ≡ some s)
      × (length s ≡ length draws)
      × All (λ c. p c ≡ true) s
unfolding random_choices
drawn p choices [] good _ = ([], refl, refl, tt)
drawn p choices (i ∷ draws) good (fits, others) =
    let (c, chosen, holds) = get_elem?-in_range p choices i fits good in
    let (s, made, long, all_hold) = drawn p choices draws good others in
    (c ∷ s, rw (chosen, made, random_choices) refl, ap suc long, (holds, all_hold))

bucket_choices_good : all_in is_bucket_char bucket_choices ≡ true
unfolding all_in is_bucket_char bucket_choices
bucket_choices_good = refl

-- For draws below the number of choices, as `Intn` documents, no index is out of range, and the
-- random part of the name of a bucket has one character for each draw, all of them lower case
-- letters or digits.
pub random_bucket_name_total :
    (draws : List ℕ)
    → All (λ i. i < 36) draws
    → (s : Str) × (random_bucket_name draws ≡ some s)
      × (length s ≡ length draws)
      × All (λ c. is_bucket_char c ≡ true) s
unfolding random_bucket_name bucket_choices
random_bucket_name_total draws fits =
    drawn is_bucket_char bucket_choices draws bucket_choices_good fits
