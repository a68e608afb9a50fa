-- ===== src/Plugin/Kodofs/Endless.antt =====
-- About the archive loop of plugin/kodofs_controller_server.go.
use kubernetes_csi_driver.Base.{ℕ, zero, suc, ◌≡◌, ◌≢◌, refl, false, none, some, ok, arith}
use kubernetes_csi_driver.Text.{Str}
use kubernetes_csi_driver.Plugin.Kodofs.Archive.{
  ArchiveAnswers, archive_name, archive_loop, archive,
}

module _ (Url : Type 0) {E : Type 0} (answers : ArchiveAnswers E) (id : Str) where
  archive_loop_fails : (fuel i : ℕ) → (archive_loop {Url = Url} answers id fuel i).0 ≢ some (ok tt)
  unfolding archive_loop
  archive_loop_fails zero i h = ground arith
  archive_loop_fails (suc fuel) i h = ground (arith, archive_loop_fails fuel (suc i))

  -- Whatever the service answers and however many rounds are made, the deletion of a volume that is
  -- not reclaimed never succeeds: a renaming that succeeds does not end the loop.
  pub archive_fails :
      (point : Str) (fuel : ℕ) → (archive {Url = Url} answers id point fuel).0 ≢ some (ok tt)
  unfolding archive
  archive_fails point fuel h = ground (arith, archive_loop_fails fuel 0)

  loop_spins :
      ((i : ℕ) (name : Str) → answers.volume_exists i name ≡ ok false)
      → ((i : ℕ) (old new : Str) → answers.volume_renamed i old new ≡ ok tt)
      → (fuel i : ℕ) → (archive_loop {Url = Url} answers id fuel i).0 ≡ none
  unfolding archive_loop
  loop_spins free renamed zero i = refl
  loop_spins free renamed (suc fuel) i =
      rw (archive_loop, free i (archive_name i id), renamed i id (archive_name i id))
        (loop_spins free renamed fuel (suc i))

  -- If every name is free and every renaming succeeds, no number of rounds is enough.
  pub archive_endless :
      (point : Str) (fuel : ℕ)
      → answers.access_point_removed point ≡ ok tt
      → ((i : ℕ) (name : Str) → answers.volume_exists i name ≡ ok false)
      → ((i : ℕ) (old new : Str) → answers.volume_renamed i old new ≡ ok tt)
      → (archive {Url = Url} answers id point fuel).0 ≡ none
  unfolding archive
  archive_endless point fuel removed free renamed =
      rw (archive, removed) (loop_spins free renamed fuel 0)
