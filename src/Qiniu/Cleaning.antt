-- ===== src/Qiniu/Cleaning.antt =====
-- CleanObjects in qiniu/kodo.go: the listing and the deletion, joined by a channel of names.
use kubernetes_csi_driver.Base.{
  ℕ, zero, suc, ◌≡◌, refl, sym, ap, ◌∙◌, false, List, [], ◌++◌, Option, none, some, Result, ok, err,
  arith, if◌then◌else◌, Bool-cases, Result-cases, inl, inr,
}
use mathlib.Core.Path.{subst}
use mathlib.Core.Option.{some-injective}
use kubernetes_csi_driver.Text.{Str, is_blank, count}
use kubernetes_csi_driver.Qiniu.Objects.{
  Line, decode_lines, zero_object, last_marker, object_names, list_objects,
}
use kubernetes_csi_driver.Qiniu.Listing.{Serves, last_page, page}
use kubernetes_csi_driver.Qiniu.Workers.{Pool, start, Steps, IsOver, fails_with}
use kubernetes_csi_driver.Qiniu.Workers.Tally.{total}
use kubernetes_csi_driver.Qiniu.Workers.Completion.{deletion_complete}

-- What deleteObjects returns: an error of the lookups of the bucket and its endpoint, or the first
-- error of the goroutines, which have ended in this state.
unfoldable pub delete_objects : {E : Type 0} → Result E (Unit {0}) → E → Pool → Result E (Unit {0})
delete_objects (err e) first s = err e
delete_objects (ok _) first s = if fails_with s then err first else ok tt

-- `CleanObjects`: the lookups of the listing, what deleteObjects returns, and the error that ended
-- the listing, which is asked for last.
unfoldable pub clean_objects :
    {E : Type 0} → Result E (Unit {0}) → Result E (Unit {0}) → Option E → Result E (Unit {0})
clean_objects (err e) deleted stopped = err e
clean_objects (ok _) (err e) stopped = err e
clean_objects (ok _) (ok _) (some e) = err e
clean_objects (ok _) (ok _) none = ok tt

delete_objects-ok :
    {E : Type 0} (ready : Result E (Unit {0})) (first : E) (s : Pool)
    → delete_objects ready first s ≡ ok tt
    → fails_with s ≡ false
unfolding delete_objects
delete_objects-ok (err e) first s h = ground arith
delete_objects-ok (ok _) first s h = ground arith

clean_objects-ok :
    {E : Type 0} (opened deleted : Result E (Unit {0})) (stopped : Option E)
    → clean_objects opened deleted stopped ≡ ok tt
    → (deleted ≡ ok tt) × (stopped ≡ none)
unfolding clean_objects
clean_objects-ok (err e) deleted stopped h = ground arith
clean_objects-ok (ok _) (err e) stopped h = ground arith
clean_objects-ok (ok _) (ok _) (some e) h = ground arith
clean_objects-ok (ok _) (ok _) none h = (refl, refl)

module _ {E : Type 0} (send : Str → Result E (List Line)) where
  -- What a listing that met no error found behind its first page.
  list_objects-later :
      (fuel : ℕ) (m : Str) (names : List Str) (ls : List Line) (rest : Option (List Str × Option E))
      → send m ≡ ok ls
      → is_blank (last_marker m (decode_lines zero_object ls)) ≡ false
      → list_objects send fuel (last_marker m (decode_lines zero_object ls)) ≡ rest
      → list_objects send (suc fuel) m ≡ some (names, none)
      → (later : List Str) × (rest ≡ some (later, none))
        × (object_names (decode_lines zero_object ls) ++ later ≡ names)
  unfolding list_objects
  list_objects-later fuel m names ls none sent more found h =
      let nothing : list_objects send (suc fuel) m ≡ none =
        rw (list_objects, sent, more, found) refl in
      ground (arith, nothing, h)
  list_objects-later fuel m names ls (some (later, e)) sent more found h =
      let all : list_objects send (suc fuel) m
          ≡ some (object_names (decode_lines zero_object ls) ++ later, e) =
        rw (list_objects, sent, more, found) refl in
      let same = sym all ∙ h in
      let pairs = some-injective _ _ same in
      (later, ap (λ q. some (later, q)) (ap (λ q. q.1) pairs), ap (λ q. q.0) pairs)

  -- A listing that ends without an error has the names of all pages to a last one.
  list_objects_sound :
      (fuel : ℕ) (m : Str) (names : List Str)
      → list_objects send fuel m ≡ some (names, none)
      → (n : ℕ) × Serves send m names n
  unfolding list_objects
  list_objects_sound zero m names h = ground (arith, h)
  list_objects_sound (suc fuel) m names h = elim (Result-cases (send m)) [
    | inr (e, failed) ↦
        let broken : list_objects send (suc fuel) m ≡ some ([], some e) =
          rw (list_objects, failed) refl in
        ground (arith, broken, h)
    | inl (ls, sent) ↦
        let os = decode_lines zero_object ls in
        elim (Bool-cases (is_blank (last_marker m os))) [
          | inl last ↦
              let all : list_objects send (suc fuel) m ≡ some (object_names os, none) =
                rw (list_objects, sent, last) refl in
              let same = ap (λ q. q.0) (some-injective _ _ (sym all ∙ h)) in
              (1, subst (λ k. Serves send m k 1) same (last_page m ls sent last))
          | inr more ↦
              let (later, found, same) =
                list_objects-later fuel m names ls (list_objects send fuel (last_marker m os)) sent
                  more refl h in
              let (n, served) = list_objects_sound fuel (last_marker m os) later found in
              (
                suc n,
                subst (λ k. Serves send m k (suc n)) same (page m ls later n sent more served),
              )
        ]
  ]

  -- When the goroutines have ended and CleanObjects returns no error, the pages of the bucket led to
  -- a last one, and every name on them, as often as it is there, was in a batch whose request
  -- succeeded.
  pub clean_objects_complete :
      (opened ready : Result E (Unit {0})) (first : E) (fuel : ℕ) (names : List Str)
      (stopped : Option E) (s : Pool)
      → list_objects send fuel [] ≡ some (names, stopped)
      → Steps (start names) s
      → IsOver s
      → clean_objects opened (delete_objects ready first s) stopped ≡ ok tt
      → ((n : ℕ) × Serves send [] names n) × ((x : Str) → total x s.requested ≡ count x names)
  clean_objects_complete opened ready first fuel names stopped s found run over done =
      let (deleted, quiet) = clean_objects-ok opened (delete_objects ready first s) stopped done in
      let fine = delete_objects-ok ready first s deleted in
      (
        list_objects_sound fuel [] names (found ∙ ap (λ e. some (names, e)) quiet),
        deletion_complete names s run over fine,
      )
