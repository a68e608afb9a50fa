-- ===== src/Qiniu/Listing.antt =====
-- About the pages of listObjects in qiniu/kodo.go.
use kubernetes_csi_driver.Base.{
  ℕ, zero, suc, ◌≤◌, ◌≡◌, refl, true, false, List, [], ◌++◌, none, some, Result, ok, arith,
}
use kubernetes_csi_driver.Text.{Str, is_blank}
use kubernetes_csi_driver.Qiniu.Objects.{
  Line, decode_lines, zero_object, last_marker, object_names, list_objects,
}

module _ {E : Type 0} (send : Str → Result E (List Line)) where
  -- The service answers from a marker with pages that lead to a last one: the marker, the names on
  -- the pages and how many pages there are.
  pub data Serves : Str → List Str → ℕ → Type 0 where
    last_page :
        (m : Str) (ls : List Line)
        → send m ≡ ok ls
        → is_blank (last_marker m (decode_lines zero_object ls)) ≡ true
        → Serves m (object_names (decode_lines zero_object ls)) 1
    page :
        (m : Str) (ls : List Line) (names : List Str) (n : ℕ)
        → send m ≡ ok ls
        → is_blank (last_marker m (decode_lines zero_object ls)) ≡ false
        → Serves (last_marker m (decode_lines zero_object ls)) names n
        → Serves m (object_names (decode_lines zero_object ls) ++ names) (suc n)

  -- When the pages lead to a last one, as many requests as there are pages are enough, and the
  -- listing gives the names on all pages in their order, without an error.
  pub list_objects_complete :
      (m : Str) (names : List Str) (n fuel : ℕ)
      → Serves m names n
      → n ≤ fuel
      → list_objects send fuel m ≡ some (names, none)
  unfolding list_objects
  list_objects_complete _ _ _ zero (last_page m ls sent last) h = absurd (omega arith)
  list_objects_complete _ _ _ zero (page m ls names n sent more s) h = absurd (omega arith)
  list_objects_complete _ _ _ (suc fuel) (last_page m ls sent last) h =
      rw (list_objects, sent, last) refl
  list_objects_complete m _ _ (suc fuel) (page _ ls names n sent more s) h =
      rw
        (
          list_objects,
          sent,
          more,
          list_objects_complete (last_marker m (decode_lines zero_object ls)) names n fuel s
              (omega arith),
        )
        refl

  -- If the service answers a marker that is not blank with a page without lines, the page is asked
  -- for again and again: no number of requests ends the listing.
  list_objects-stuck :
      (m : Str) (fuel : ℕ) → is_blank m ≡ false → send m ≡ ok [] → list_objects send fuel m ≡ none
  unfolding list_objects last_marker decode_lines
  list_objects-stuck m zero b h = refl
  list_objects-stuck m (suc fuel) b h = rw (list_objects, h, b, list_objects-stuck m fuel b h) refl
