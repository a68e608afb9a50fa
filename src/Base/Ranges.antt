-- ===== src/Base/Ranges.antt =====
-- `for _, x := range xs { … return err … }` as a loop over a state, and when the order of the
-- elements does not matter to it.
use mathlib.Core.Path.{subst, ◌≡◌, refl, ◌∙◌, ap}
use mathlib.Core.List.{List, [], ◌∷◌, Permᴰ}
use mathlib.Core.Option
use mathlib.Core.Logic.{inl, inr}
use kubernetes_csi_driver.Base.Errors.{Result, ok, err, ◌>>=◌, to_option, Result-cases}
use kubernetes_csi_driver.Base.Lists.{All}

abbrev pub Pairs {ℓ} : {X : Type ℓ} → (X → X → Type 0) → List X → Type 0
Pairs R [] = Unit
Pairs R (x ∷ xs) = All (R x) xs × Pairs R xs

All-perm : {A : Type 0} (P : A → Type 0) {xs ys : List A} → Permᴰ xs ys → All P xs → All P ys
All-perm P Permᴰ.nil h = tt
All-perm P (Permᴰ.cons e p) h = (rw (← e) h.0, All-perm P p h.1)
All-perm P (Permᴰ.swap e f) h = (rw (← f) h.1.0, (rw (← e) h.0, h.1.1))
All-perm P (Permᴰ.trans p q) h = All-perm P q (All-perm P p h)

Pairs-perm :
    {A : Type 0} (R : A → A → Type 0)
    → ((a b : A) → R a b → R b a)
    → {xs ys : List A} → Permᴰ xs ys
    → Pairs R xs
    → Pairs R ys
Pairs-perm R flip Permᴰ.nil h = tt
Pairs-perm R flip (Permᴰ.cons e p) h = (rw (← e) (All-perm (R _) p h.0), Pairs-perm R flip p h.1)
Pairs-perm R flip (Permᴰ.swap {l} e f) h = (
  (rw (← e, ← f) (flip _ _ h.0.0), subst (λ x. All (R x) l) f h.1.0),
  (subst (λ x. All (R x) l) e h.0.1, h.1.1),
)
Pairs-perm R flip (Permᴰ.trans p q) h = Pairs-perm R flip q (Pairs-perm R flip p h)

pub bind_agree {ℓ} :
    {E : Type ℓ} {A B : Type 0} (r s : Result E A) (k : A → Result E B)
    → to_option r ≡ to_option s
    → to_option (r >>= k) ≡ to_option (s >>= k)
unfolding Option.bind
bind_agree (ok a) (ok b) k h = ap (λ o. Option.bind o (λ c. to_option (k c))) h
bind_agree (ok a) (err e) k h = cc
bind_agree (err e) (ok b) k h = cc
bind_agree (err e) (err d) k h = refl

bind_assoc {ℓ} :
    {E : Type ℓ} {A B C : Type 0} (r : Result E A) (f : A → Result E B) (g : B → Result E C)
    → (r >>= λ a. f a >>= g) ≡ ((r >>= f) >>= g)
bind_assoc (ok a) f g = refl
bind_assoc (err e) f g = refl

module _ {X P E : Type 0} (step : X → P → Result E P) where
  -- A loop whose rounds may return an error.
  unfoldable pub range_loop : List X → P → Result E P
  range_loop [] p = ok p
  range_loop (x ∷ xs) p = do q ← step x p; range_loop xs q

  pub range_loop-cons :
      (x : X) (xs : List X) (p q : P) → step x p ≡ ok q → range_loop (x ∷ xs) p ≡ range_loop xs q
  unfolding range_loop
  range_loop-cons x xs p q e = rw e

  module _ (R : X → X → Type 0) (flip : (x y : X) → R x y → R y x)
      (swap : (x y : X) (p : P)
        → R x y
        → to_option (step x p >>= step y) ≡ to_option (step y p >>= step x)) where
    -- If related elements may be exchanged, the order of the list decides at most which error is
    -- returned.
    pub range_loop-perm :
        {xs ys : List X}
        → Permᴰ xs ys
        → Pairs R xs
        → (p : P) → to_option (range_loop xs p) ≡ to_option (range_loop ys p)
    unfolding range_loop
    range_loop-perm Permᴰ.nil h p = refl
    range_loop-perm (Permᴰ.cons {a} e perm) h p = elim (Result-cases (step a p)) [
      | inl (q, done) ↦ rw (← e, done) (range_loop-perm perm h.1 q)
      | inr (f, failed) ↦ rw (← e, failed)
    ]
    range_loop-perm (Permᴰ.swap {a} {b} {l} e f) h p =
        rw
          (
            ← e,
            ← f,
            bind_assoc (step a p) (step b) (range_loop l),
            bind_assoc (step b p) (step a) (range_loop l),
          )
          (bind_agree (step a p >>= step b) (step b p >>= step a) (range_loop l) (swap a b p h.0.0))
    range_loop-perm (Permᴰ.trans {l₂} perm perm') h p =
        range_loop-perm perm h p ∙ range_loop-perm perm' (Pairs-perm R flip perm h) p
