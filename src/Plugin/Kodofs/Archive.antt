-- ===== src/Plugin/Kodofs/Archive.antt =====
-- DeleteVolume in plugin/kodofs_controller_server.go for a volume that is not reclaimed: its access
-- point is removed, and it is renamed.
use kubernetes_csi_driver.Base.{
  ℕ, zero, suc, Bool, true, false, List, [], ◌∷◌, ◌++◌, Option, none, some, Result, ok, err,
}
use kubernetes_csi_driver.Text.{Str, lit, format_uint}
use kubernetes_csi_driver.Plugin.Kodofs.Calls.{
  KodofsCall, look_up, rename_volume, drop_access_point,
}

-- The answers of the KodoFS client; those in the loop by the number of the round.
pub record ArchiveAnswers (E : Type 0) : Type 0 where
  pub access_point_removed : Str → Result E (Unit {0})
  pub volume_exists : ℕ → Str → Result E Bool
  pub volume_renamed : ℕ → Str → Str → Result E (Unit {0})

pub data ArchiveError (E : Type 0) : Type 0 where
  access_point_failed lookup_failed rename_failed : E → ArchiveError E

-- `fmt.Sprintf("deleted-%d-%s", i, volumeId)`
unfoldable pub archive_name : ℕ → Str → Str
archive_name i id = lit "deleted-" ++ (format_uint i ++ (lit "-" ++ id))

module _ {Url E : Type 0} (answers : ArchiveAnswers E) (id : Str) where
  -- The loop from round `i`, with its calls; `none` is a loop that is not over after so many rounds.
  unfoldable pub archive_loop :
      ℕ → ℕ → Option (Result (ArchiveError E) (Unit {0})) × List (KodofsCall Url)
  archive_loop zero i = (none, [])
  archive_loop (suc fuel) i =
      let new = archive_name i id in
      let rest = archive_loop fuel (suc i) in
      elim (answers.volume_exists i new) [
        | err e ↦ (some (err (lookup_failed e)), look_up new ∷ [])
        | ok true ↦ (rest.0, look_up new ∷ rest.1)
        | ok false ↦ elim (answers.volume_renamed i id new) [
          | err e ↦ (some (err (rename_failed e)), look_up new ∷ rename_volume id new ∷ [])
          | ok _ ↦ (rest.0, look_up new ∷ rename_volume id new ∷ rest.1)
        ]
      ]

  -- `point` is the access point.
  unfoldable pub archive :
      Str → ℕ → Option (Result (ArchiveError E) (Unit {0})) × List (KodofsCall Url)
  archive point fuel = elim (answers.access_point_removed point) [
    | err e ↦ (some (err (access_point_failed e)), drop_access_point point ∷ [])
    | ok _ ↦ let rest = archive_loop fuel 0 in (rest.0, drop_access_point point ∷ rest.1)
  ]
