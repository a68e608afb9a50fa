-- ===== src/Plugin/Kodofs/Removal.antt =====
-- About the branch of DeleteVolume in plugin/kodofs_controller_server.go that removes a volume.
use kubernetes_csi_driver.Base.{
  ◌≡◌, refl, ◌⊎◌, inl, inr, true, false, List, [], ◌∷◌, ◌++◌, map, Option, none, some, ok,
  Result-cases, Option-cases, arith, ap, ◌∙◌,
}
use mathlib.Core.Path.{subst, sym}
use mathlib.Core.List.{append_assoc}
use kubernetes_csi_driver.Text.{Str}
use kubernetes_csi_driver.Plugin.Kodofs.Parameters.{KodofsPvParameter}
use kubernetes_csi_driver.Plugin.Kodofs.Calls.{
  KodofsCall, temporary_mount, look_up, make_directory, mount_locally, read_directory, remove_all,
  unmount, check_mounted, drop_access_point, drop_volume_of_master, remove_directory,
}
use kubernetes_csi_driver.Plugin.Kodofs.Delete.{
  RemoveAnswers, Steps, then_steps, clean_entries, release, empty_directory, and_finally,
  remove_volume_of_kodofs,
}

module _ {Url E : Type 0} (join : Str → Str → Str) (answers : RemoveAnswers Url E) (id : Str)
    (p : KodofsPvParameter Url) where
  -- The calls up to the second `umount`, when all entries were removed.
  abbrev pub emptied : Str → List Str → List (KodofsCall Url)
  emptied dir names =
      look_up id
      ∷ make_directory
      ∷ mount_locally (temporary_mount id p dir)
      ∷ read_directory dir
      ∷ map (λ n. remove_all (join dir n)) names

  pub data HowRemoved : List (KodofsCall Url) → Type 0 where
    already_gone : (answers.volume_exists id) ≡ ok false → HowRemoved (look_up id ∷ [])
    removed :
        (dir : Str) (names : List Str)
        → answers.unmounted dir ≡ none
        → answers.entries dir ≡ ok names
        → HowRemoved (
            emptied dir names
            ++ (unmount dir
                ∷ drop_access_point p.access_point_id
                ∷ drop_volume_of_master id
                ∷ unmount dir
                ∷ remove_directory dir
                ∷ []))
    kept :
        (dir : Str) (names : List Str)
        → answers.is_mounted dir ≡ ok false
        → answers.entries dir ≡ ok names
        → HowRemoved (
            emptied dir names
            ++ (unmount dir ∷ check_mounted dir ∷ unmount dir ∷ remove_directory dir ∷ []))

  then_steps-eq :
      (c : KodofsCall Url) (a : Option E) (rest : Steps Url E)
      → (then_steps join answers id p c a rest).0 ≡ none
      → (a ≡ none) × (rest.0 ≡ none) × ((then_steps join answers id p c a rest).1 ≡ c ∷ rest.1)
  unfolding then_steps
  then_steps-eq c (some e) rest h = absurd (ground arith)
  then_steps-eq c none rest h = (refl, h, refl)

  clean_entries-eq :
      (dir : Str) (names : List Str) (rest : Steps Url E)
      → (clean_entries join answers id p (map (join dir) names) rest).0 ≡ none
      → (rest.0 ≡ none)
        × ((clean_entries join answers id p (map (join dir) names) rest).1
            ≡ map (λ n. remove_all (join dir n)) names ++ rest.1)
  unfolding clean_entries
  clean_entries-eq dir [] rest h = (h, refl)
  clean_entries-eq dir (n ∷ ns) rest h =
      let first = then_steps-eq (remove_all (join dir n)) (answers.removed_all (join dir n)) _ h in
      let others = clean_entries-eq dir ns rest first.1 in
      (others.0, first.2 ∙ ap (◌∷◌ (remove_all (join dir n))) others.1)

  release-eq :
      (dir : Str)
      → (release join answers id p dir).0 ≡ none
      → ((answers.unmounted dir ≡ none)
          × (release join answers id p dir ≡ (
            none,
            unmount dir ∷ drop_access_point p.access_point_id ∷ drop_volume_of_master id ∷ [],
          )))
        ⊎ ((answers.is_mounted dir ≡ ok false)
            × (release join answers id p dir ≡ (none, unmount dir ∷ check_mounted dir ∷ [])))
  unfolding release then_steps
  release-eq dir h = ground arith

  -- The steps from the reading of the directory.
  empty_directory-eq :
      (dir : Str)
      → (empty_directory join answers id p dir).0 ≡ none
      → (names : List Str) × (answers.entries dir ≡ ok names)
        × ((release join answers id p dir).0 ≡ none)
        × ((empty_directory join answers id p dir).1
            ≡ read_directory dir
              ∷ (map (λ n. remove_all (join dir n)) names ++ (release join answers id p dir).1))
  unfolding empty_directory
  empty_directory-eq dir h = elim (Result-cases (answers.entries dir)) [
    | inr (e, bad) ↦ absurd (ground arith)
    | inl (names, good) ↦
        let first = then_steps-eq (read_directory dir) none _ (rw (empty_directory, good) at h) in
        let others = clean_entries-eq dir names (release join answers id p dir) first.1 in
        (
          names,
          good,
          others.0,
          rw (empty_directory, good) (first.2 ∙ ap (◌∷◌ (read_directory dir)) others.1),
        )
  ]

  -- The whole sequence of calls, from those of `release`.
  whole_trace-eq :
      (dir : Str) (names : List Str) (last : List (KodofsCall Url))
      → (((read_directory dir ∷ (map (λ n. remove_all (join dir n)) names ++ last))
            ++ (unmount dir ∷ []))
          ++ (remove_directory dir ∷ []))
        ≡ read_directory dir
          ∷ (map (λ n. remove_all (join dir n)) names
              ++ (last ++ (unmount dir ∷ remove_directory dir ∷ [])))
  whole_trace-eq dir names last =
      let done = map (λ n. remove_all (join dir n)) names in
      rw
        (
          append_assoc done last (unmount dir ∷ []),
          append_assoc done (last ++ (unmount dir ∷ [])) (remove_directory dir ∷ []),
          append_assoc last (unmount dir ∷ []) (remove_directory dir ∷ []),
        )
        refl

  removed-HowRemoved :
      (dir : Str)
      → (answers.volume_exists id) ≡ ok true
      → (empty_directory join answers id p dir).0 ≡ none
      → HowRemoved (
          look_up id
          ∷ make_directory
          ∷ mount_locally (temporary_mount id p dir)
          ∷ (((empty_directory join answers id p dir).1 ++ (unmount dir ∷ []))
              ++ (remove_directory dir ∷ [])))
  removed-HowRemoved dir there h =
      let (names, good, ended, calls) = empty_directory-eq dir h in
      let start = look_up id ∷ make_directory ∷ mount_locally (temporary_mount id p dir) ∷ [] in
      elim (release-eq dir ended) [
        | inl (free, last) ↦
            subst (λ t. HowRemoved (start ++ t))
              (sym (
                ap (λ t. (t ++ (unmount dir ∷ [])) ++ (remove_directory dir ∷ [])) calls
                ∙ whole_trace-eq dir names (release join answers id p dir).1
                ∙ ap
                    (λ l.
                      read_directory dir
                      ∷ (map (λ n. remove_all (join dir n)) names
                          ++ (l.1 ++ (unmount dir ∷ remove_directory dir ∷ []))))
                    last))
              (removed dir names free good)
        | inr (gone, last) ↦
            subst (λ t. HowRemoved (start ++ t))
              (sym (
                ap (λ t. (t ++ (unmount dir ∷ [])) ++ (remove_directory dir ∷ [])) calls
                ∙ whole_trace-eq dir names (release join answers id p dir).1
                ∙ ap
                    (λ l.
                      read_directory dir
                      ∷ (map (λ n. remove_all (join dir n)) names
                          ++ (l.1 ++ (unmount dir ∷ remove_directory dir ∷ []))))
                    last))
              (kept dir names gone good)
      ]

  -- A removal that succeeds made exactly one of three sequences of calls. Either there was no such
  -- volume; or everything in it was removed, it was unmounted, and the access point and the volume
  -- were removed; or it was not unmounted but is not mounted either, and both were kept.
  pub remove_volume_of_kodofs_sound :
      (remove_volume_of_kodofs join answers id p).0 ≡ none
      → HowRemoved (remove_volume_of_kodofs join answers id p).1
  unfolding remove_volume_of_kodofs and_finally then_steps empty_directory release clean_entries
  remove_volume_of_kodofs_sound h = elim (Result-cases (answers.volume_exists id)) [
    | inr (e, q) ↦ absurd (ground arith)
    | inl (false, q) ↦
        let trace : (remove_volume_of_kodofs join answers id p).1 ≡ look_up id ∷ [] =
          rw (remove_volume_of_kodofs, q) refl in
        subst HowRemoved (sym trace) (already_gone q)
    | inl (true, q) ↦ elim (Result-cases answers.directory_made) [
      | inr (e, d) ↦ absurd (ground arith)
      | inl (dir, d) ↦ elim (Option-cases (answers.mounted_locally (temporary_mount id p dir))) [
        | inr (e, m) ↦ absurd (ground arith)
        | inl m ↦
            let trace : (remove_volume_of_kodofs join answers id p).1
                ≡ look_up id
                  ∷ make_directory
                  ∷ mount_locally (temporary_mount id p dir)
                  ∷ (((empty_directory join answers id p dir).1 ++ (unmount dir ∷ []))
                      ++ (remove_directory dir ∷ [])) =
              rw (remove_volume_of_kodofs, q, d, m) refl in
            subst HowRemoved (sym trace)
              (removed-HowRemoved dir q (rw (remove_volume_of_kodofs, q, d, m) at h))
      ]
    ]
  ]
