-- ===== src/Plugin/Random.antt =====
-- randomChoices, randomBucketName and randomPassword in plugin/utils.go.
pub mod Draws
use kubernetes_csi_driver.Base.{ℕ, List, [], ◌∷◌, Option, none, some, length, get_elem?}
use kubernetes_csi_driver.Text.{Str, lit}

-- `choices[r.Intn(choicesCount)]` for each draw of the source of randomness; `none` is an index out
-- of range, which is a panic.
unfoldable pub random_choices : Str → List ℕ → Option Str
random_choices choices [] = some []
random_choices choices (i ∷ draws) = elim (get_elem? choices i) [
  | none ↦ none
  | some c ↦ elim (random_choices choices draws) [ none ↦ none | some s ↦ some (c ∷ s) ]
]

unfoldable pub password_choices : Str
password_choices =
    lit
      "abcdefghijklmnopqrstuvwxyzABCDEFGHIJKLMNOPQRSTUVWXYZ0123456789~`!@#$%^&*()-=_+[];'<,>.?/\\\""

unfoldable pub bucket_choices : Str
bucket_choices = lit "abcdefghijklmnopqrstuvwxyz0123456789"

unfoldable pub random_password : List ℕ → Option Str
random_password draws = random_choices password_choices draws

unfoldable pub random_bucket_name : List ℕ → Option Str
random_bucket_name draws = random_choices bucket_choices draws
