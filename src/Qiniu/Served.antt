-- ===== src/Qiniu/Served.antt =====
-- About the requests of listObjects in qiniu/kodo.go.
use kubernetes_csi_driver.Base.{
  ℕ, zero, suc, ◌≤◌, ◌≡◌, refl, ap, ◌∙◌, sym, List, [], ◌∷◌, ◌++◌, Option, none, some, Result, ok,
  arith, Result-cases, Option-cases, inl, inr, Bool-cases,
}
use kubernetes_csi_driver.Text.{Str, is_blank}
use kubernetes_csi_driver.Qiniu.Client.{Network, KodoFailure, World}
use kubernetes_csi_driver.Qiniu.Objects.{
  Line, decode_lines, zero_object, last_marker, object_names, list_objects, keep, ListedObject,
}
use kubernetes_csi_driver.Qiniu.Pages.{Pages, send_list_objects, prepend, list_pages}

-- The value that a sequence of optional values ends with, each of which stays until another is given.
abbrev pub last_given : Str → List (Option Str) → Str
last_given d [] = d
last_given d (none ∷ xs) = last_given d xs
last_given d (some x ∷ xs) = last_given x xs

abbrev pub markers : List Line → List (Option Str)
markers [] = []
markers (l ∷ ls) = l.marker ∷ markers ls

-- The marker after a page: that which its lines gave last, and the old one if it has no line.
abbrev pub page_marker : Str → List Line → Str
page_marker m [] = m
page_marker m (l ∷ ls) = last_given [] (markers (l ∷ ls))

-- The names of a page, after the keys `seen`: each is the key that was given last up to its line.
abbrev pub names_after : List (Option Str) → List Line → List Str
names_after seen [] = []
names_after seen (l ∷ ls) = let now = seen ++ (l.key ∷ []) in last_given [] now ∷ names_after now ls

last_given-append :
    (d : Str) (xs : List (Option Str)) (x : Option Str)
    → last_given d (xs ++ (x ∷ [])) ≡ keep x (last_given d xs)
unfolding keep
last_given-append d [] none = refl
last_given-append d [] (some y) = refl
last_given-append d (none ∷ xs) x = last_given-append d xs x
last_given-append d (some y ∷ xs) x = last_given-append y xs x

last_marker-eq :
    (prev : ListedObject) (ls : List Line)
    → last_marker prev.marker (decode_lines prev ls) ≡ last_given prev.marker (markers ls)
unfolding last_marker decode_lines keep
last_marker-eq prev [] = refl
last_marker-eq prev (l ∷ ls) =
    let now : ListedObject = record {
      marker = keep l.marker prev.marker;
      object_name = keep l.key prev.object_name;
    } in
    elim (Option-cases l.marker) [
      | inl silent ↦ last_marker-eq now ls ∙ rw (silent) refl
      | inr (x, given) ↦ last_marker-eq now ls ∙ rw (given) refl
    ]

page_marker-eq :
    (m : Str) (ls : List Line) → last_marker m (decode_lines zero_object ls) ≡ page_marker m ls
unfolding last_marker decode_lines
page_marker-eq m [] = refl
page_marker-eq m (l ∷ ls) = last_marker-eq zero_object (l ∷ ls)

page_names-eq :
    (prev : ListedObject) (seen : List (Option Str)) (ls : List Line)
    → prev.object_name ≡ last_given [] seen
    → object_names (decode_lines prev ls) ≡ names_after seen ls
unfolding object_names decode_lines
page_names-eq prev seen [] h = refl
page_names-eq prev seen (l ∷ ls) h =
    let now : ListedObject = record {
      marker = keep l.marker prev.marker;
      object_name = keep l.key prev.object_name;
    } in
    let here = ap (keep l.key) h ∙ sym (last_given-append [] seen l.key) in
    ap (◌∷◌ (keep l.key prev.object_name)) (page_names-eq now (seen ++ (l.key ∷ [])) ls here)
    ∙ ap (λ n. n ∷ names_after (seen ++ (l.key ∷ [])) ls) here

module _ {S Url E : Type 0} (net : Network S Url E) (pages : Pages E) (bucket_name rsf : Str) where
  abbrev send : Str → World S Url E → Result (KodoFailure E) (List Line) × World S Url E
  send = send_list_objects net pages bucket_name rsf

  -- From a marker and a world the cloud answers with pages that lead to a last one: the names on the
  -- pages, how many pages there are, and the world after them.
  pub data ServesFrom : Str → World S Url E → List Str → ℕ → World S Url E → Type 0 where
    last_page :
        (m : Str) (w next : World S Url E) (ls : List Line)
        → send m w ≡ (ok ls, next)
        → page_marker m ls ≡ []
        → ServesFrom m w (names_after [] ls) 1 next
    page :
        (m : Str) (w next end : World S Url E) (ls : List Line) (c : ℕ) (m' : Str)
        (names : List Str) (n : ℕ)
        → send m w ≡ (ok ls, next)
        → page_marker m ls ≡ c ∷ m'
        → ServesFrom (c ∷ m') next names n end
        → ServesFrom m w (names_after [] ls ++ names) (suc n) end

  -- When the pages lead to one that leaves the marker empty, the loop of listObjects ends after as
  -- many requests as there are pages, however the cloud changes between them, and gives the names on
  -- all pages in their order, without an error. A key or a marker that a line of a page leaves out is
  -- the one that was given last on that page, and empty if there was none.
  pub list_pages_complete :
      (m : Str) (w end : World S Url E) (names : List Str) (n fuel : ℕ)
      → ServesFrom m w names n end
      → n ≤ fuel
      → list_pages net pages bucket_name rsf fuel m w ≡ (some (names, none), end)
  unfolding list_pages prepend is_blank
  list_pages_complete _ _ _ _ _ zero (last_page m w next ls sent last) h = absurd (omega arith)
  list_pages_complete _ _ _ _ _ zero (page m w next end ls c m' names n sent more s) h =
      absurd (omega arith)
  list_pages_complete _ _ _ _ _ (suc fuel) (last_page m w next ls sent last) h =
      rw
        (
          list_pages,
          ap (λ o. o.0) sent,
          ap (λ o. o.1) sent,
          page_marker-eq m ls,
          page_names-eq zero_object [] ls refl,
          last,
        )
        refl
  list_pages_complete m w end _ _ (suc fuel) (page _ _ next _ ls c m' names n sent more s) h =
      rw
        (
          list_pages,
          ap (λ o. o.0) sent,
          ap (λ o. o.1) sent,
          page_marker-eq m ls,
          page_names-eq zero_object [] ls refl,
          more,
          list_pages_complete (c ∷ m') next end names n fuel s (omega arith),
        )
        refl

  -- If the answer to a marker does not depend on the world, the loop with its requests gives what
  -- the loop over the answers gives.
  pub list_pages-list_objects :
      (answer : Str → Result (KodoFailure E) (List Line))
      → ((m : Str) (w : World S Url E) → (send m w).0 ≡ answer m)
      → (fuel : ℕ) (m : Str) (w : World S Url E)
      → (list_pages net pages bucket_name rsf fuel m w).0 ≡ list_objects answer fuel m
  unfolding list_pages list_objects prepend
  list_pages-list_objects answer same zero m w = refl
  list_pages-list_objects answer same (suc fuel) m w = elim (Result-cases (answer m)) [
    | inr (e, bad) ↦ rw (list_pages, same m w, bad, list_objects) refl
    | inl (ls, good) ↦
        let os = decode_lines zero_object ls in
        let rest = list_pages-list_objects answer same fuel (last_marker m os) (send m w).1 in
        elim (Bool-cases (is_blank (last_marker m os))) [
          | inl last ↦ rw (list_pages, same m w, good, list_objects, last) refl
          | inr more ↦ elim (Option-cases (list_objects answer fuel (last_marker m os))) [
            | inl out ↦ rw (list_pages, same m w, good, list_objects, more, rest, out) refl
            | inr (o, listed) ↦
                rw (list_pages, same m w, good, list_objects, more, rest, listed) refl
          ]
        ]
  ]
