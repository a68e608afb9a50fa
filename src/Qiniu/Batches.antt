-- ===== src/Qiniu/Batches.antt =====
-- About the batches of deleteObjects in qiniu/kodo.go.
use mathlib.Core.List.{append_assoc}
use kubernetes_csi_driver.Base.{
  ◌≡◌, refl, ◌∙◌, ◌≤◌, ◌<◌, false, List, [], ◌∷◌, ◌++◌, All, length, length-append, arith,
  Bool-cases, inl, inr,
}
use kubernetes_csi_driver.Text.{Str}
use kubernetes_csi_driver.Qiniu.Objects.{max_batch_size, is_full, batches}

abbrev pub flatten : List (List Str) → List Str
flatten [] = []
flatten (b ∷ bs) = b ++ flatten bs

-- A batch that the service accepts.
abbrev pub IsBatch : List Str → Type 0
IsBatch b = (0 < length b) × (length b ≤ max_batch_size)

flatten-batches : (ps ns : List Str) → flatten (batches ps ns) ≡ ps ++ ns
unfolding batches
flatten-batches [] [] = refl
flatten-batches (p ∷ ps) [] = refl
flatten-batches ps (n ∷ ns) = elim (Bool-cases (is_full (ps ++ n ∷ []))) [
  | inl full ↦ rw (batches, full, flatten-batches [] ns) (append_assoc ps (n ∷ []) ns)
  | inr room ↦ rw (batches, room) (flatten-batches (ps ++ n ∷ []) ns ∙ append_assoc ps (n ∷ []) ns)
]

not_full : (ps : List Str) → is_full ps ≡ false → length ps < max_batch_size
unfolding is_full
not_full ps h = ground arith

batches_sized : (ps ns : List Str) → length ps < max_batch_size → All IsBatch (batches ps ns)
unfolding batches
batches_sized [] [] h = tt
batches_sized (p ∷ ps) [] h = ((omega arith, omega arith), tt)
batches_sized ps (n ∷ ns) h =
    let grown = length-append ps (n ∷ []) in
    elim (Bool-cases (is_full (ps ++ n ∷ []))) [
      | inl full ↦
          rw (batches, full)
            ((omega (arith, grown), omega (arith, grown, h)), batches_sized [] ns (omega arith))
      | inr room ↦
          rw (batches, room) (batches_sized (ps ++ n ∷ []) ns (not_full (ps ++ n ∷ []) room))
    ]

-- The batches hold exactly the names that were listed, in their order, and each has between 1 and
-- 100 names.
pub batches_sound :
    (names : List Str) → (flatten (batches [] names) ≡ names) × All IsBatch (batches [] names)
batches_sound names = (flatten-batches [] names, batches_sized [] names (omega arith))
