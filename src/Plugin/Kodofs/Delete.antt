-- ===== src/Plugin/Kodofs/Delete.antt =====
-- DeleteVolume in plugin/kodofs_controller_server.go.
use kubernetes_csi_driver.Base.{
  ℕ, Bool, true, false, List, [], ◌∷◌, ◌++◌, map, Option, none, some, Result, ok, err,
  if◌then◌else◌,
}
use kubernetes_csi_driver.Text.{Str, lit, str_eq}
use kubernetes_csi_driver.Plugin.Values.{GoLib, StrMap, ParseError}
use kubernetes_csi_driver.Plugin.Kodo.{PersistentVolume, Volumes, drop_volume}
use kubernetes_csi_driver.Plugin.Kodofs.Parameters.{KodofsPvParameter, parse_kodofs_pv}
use kubernetes_csi_driver.Plugin.Kodofs.Calls.{
  KodofsClient, kodofs_client, LocalMount, temporary_mount, KodofsCall, look_up, make_directory,
  mount_locally, read_directory, remove_all, unmount, check_mounted, drop_access_point,
  drop_volume_of_master, remove_directory,
}
use kubernetes_csi_driver.Plugin.Kodofs.Archive.{ArchiveAnswers, ArchiveError, archive}

-- The answers to the calls that remove a volume; `none` is nil.
pub record RemoveAnswers (Url E : Type 0) : Type 0 where
  pub volume_exists : Str → Result E Bool
  pub directory_made : Result E Str
  pub mounted_locally : LocalMount Url → Option E
  pub entries : Str → Result E (List Str)
  pub removed_all : Str → Option E
  pub unmounted : Str → Option E
  pub is_mounted : Str → Result E Bool
  pub access_point_dropped : Str → Option E
  pub volume_dropped : Str → Option E

pub data RemoveError (Url E : Type 0) : Type 0 where
  call_failed : KodofsCall Url → E → RemoveError Url E
  -- "failed to umount": the error that it prints is the one of the check, nil.
  still_mounted : Str → RemoveError Url E

-- A result and the calls made.
abbrev pub Steps : Type 0 → Type 0 → Type 0
Steps Url E = Option (RemoveError Url E) × List (KodofsCall Url)

-- `id` is the volume and `p` are its parameters.
module _ {Url E : Type 0} (join : Str → Str → Str) (answers : RemoveAnswers Url E) (id : Str)
    (p : KodofsPvParameter Url) where
  -- `if err := f(); err != nil { return err }`, and what follows.
  unfoldable pub then_steps : KodofsCall Url → Option E → Steps Url E → Steps Url E
  then_steps c (some e) rest = (some (call_failed c e), c ∷ [])
  then_steps c none rest = (rest.0, c ∷ rest.1)

  unfoldable pub clean_entries : List Str → Steps Url E → Steps Url E
  clean_entries [] rest = rest
  clean_entries (path ∷ paths) rest =
      let others = clean_entries paths rest in
      then_steps (remove_all path) (answers.removed_all path) others

  -- From the second `umount` on.
  unfoldable pub release : Str → Steps Url E
  release dir = elim (answers.unmounted dir) [
    | some e ↦ elim (answers.is_mounted dir) [
      | err f ↦ (some (call_failed (check_mounted dir) f), unmount dir ∷ check_mounted dir ∷ [])
      | ok true ↦ (some (still_mounted dir), unmount dir ∷ check_mounted dir ∷ [])
      | ok false ↦ (none, unmount dir ∷ check_mounted dir ∷ [])
    ]
    | none ↦ then_steps (unmount dir) none (
        then_steps (drop_access_point p.access_point_id)
          (answers.access_point_dropped p.access_point_id)
          (then_steps (drop_volume_of_master id) (answers.volume_dropped id) (none, [])))
  ]

  -- `filepath.Join` is `join`.
  unfoldable pub empty_directory : Str → Steps Url E
  empty_directory dir = elim (answers.entries dir) [
    | err e ↦ (some (call_failed (read_directory dir) e), read_directory dir ∷ [])
    | ok names ↦
        then_steps (read_directory dir) none (clean_entries (map (join dir) names) (release dir))
  ]

  -- A deferred call, which runs however the steps end.
  unfoldable pub and_finally : KodofsCall Url → Steps Url E → Steps Url E
  and_finally c o = (o.0, o.1 ++ (c ∷ []))

  -- The branch for the reclaim policy "Delete".
  unfoldable pub remove_volume_of_kodofs : Steps Url E
  remove_volume_of_kodofs = elim (answers.volume_exists id) [
    | err e ↦ (some (call_failed (look_up id) e), look_up id ∷ [])
    | ok false ↦ (none, look_up id ∷ [])
    | ok true ↦ elim answers.directory_made [
      | err e ↦ (some (call_failed make_directory e), look_up id ∷ make_directory ∷ [])
      | ok dir ↦ then_steps (look_up id) none (
          then_steps make_directory none (
            and_finally (remove_directory dir) (
              then_steps (mount_locally (temporary_mount id p dir))
                (answers.mounted_locally (temporary_mount id p dir))
                (and_finally (unmount dir) (empty_directory dir)))))
    ]
  ]

pub data DeleteKodofsError (Url E : Type 0) : Type 0 where
  unknown_volume : E → DeleteKodofsError Url E
  unreadable : ParseError → DeleteKodofsError Url E
  not_removed : RemoveError Url E → DeleteKodofsError Url E
  not_archived : ArchiveError E → DeleteKodofsError Url E

unfoldable pub removal_result :
    {Url E : Type 0} → Option (RemoveError Url E) → Result (DeleteKodofsError Url E) (Unit {0})
removal_result none = ok tt
removal_result (some e) = err (not_removed e)

unfoldable pub archive_result :
    {Url E : Type 0}
    → Option (Result (ArchiveError E) (Unit {0}))
    → Option (Result (DeleteKodofsError Url E) (Unit {0}))
archive_result none = none
archive_result (some (ok _)) = some (ok tt)
archive_result (some (err e)) = some (err (not_archived e))

-- The master answers to a client.
module _ {Url E : Type 0} (join : Str → Str → Str)
    (removing : KodofsClient Url → RemoveAnswers Url E)
    (archiving : KodofsClient Url → ArchiveAnswers E) where
  -- The part after the volume was forgotten, with its calls.
  unfoldable pub delete_by_policy :
      ℕ
      → Str
      → Str
      → KodofsPvParameter Url
      → Option (Result (DeleteKodofsError Url E) (Unit {0})) × List (KodofsCall Url)
  delete_by_policy fuel id policy p =
      let client = kodofs_client p.class in
      if str_eq policy (lit "Delete")
      then (let o = remove_volume_of_kodofs join (removing client) id p in
          (some (removal_result o.0), o.1))
      else (let o = archive (archiving client) id p.access_point_id fuel in
          (archive_result o.0, o.1))

  -- `persistent_volume` is the answer of `PersistentVolumes().Get`.
  module _ {Duration : Type 0} (go : GoLib Url Duration)
      (persistent_volume : Str → Result E PersistentVolume) where
    -- `DeleteVolume`; `none` is an archive loop that is not over after `fuel` rounds.
    unfoldable pub delete_volume_of_kodofs :
        ℕ
        → Str
        → StrMap
        → Volumes
        → (Option (Result (DeleteKodofsError Url E) (Unit {0})) × List (KodofsCall Url)) × Volumes
    delete_volume_of_kodofs fuel id secrets vs = elim (persistent_volume id) [
      | err e ↦ ((some (err (unknown_volume e)), []), vs)
      | ok pv ↦ elim (parse_kodofs_pv go (lit "DeleteVolume") pv.attributes secrets) [
        | err e ↦ ((some (err (unreadable e)), []), vs)
        | ok p ↦ (delete_by_policy fuel id pv.reclaim_policy p, drop_volume id vs)
      ]
    ]
