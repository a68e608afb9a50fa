-- ===== src/Plugin/Node/Mounts.antt =====
-- isMounted and ensureDirectoryCreated in plugin/utils.go.
use kubernetes_csi_driver.Base.{Bool, true, false, ◌&&◌, List, [], ◌∷◌, Result, ok, err}
use kubernetes_csi_driver.Text.{Str, lit, str_eq}

-- `mountinfo.Info`
pub record MountInfo : Type 0 where
  pub mountpoint : Str
  pub fs_type : Str

-- What a `mountinfo.FilterFunc` returns.
pub record Verdict : Type 0 where
  pub skip : Bool
  pub stop : Bool

abbrev pub Filter : Type 0
Filter = MountInfo → Verdict

unfoldable pub fuse_type_kodofs : Str
fuse_type_kodofs = lit "fuse.KodoFS"

unfoldable pub fuse_type_kodo : Str
fuse_type_kodo = lit "fuse.rclone"

-- The function that isMounted passes to `mountinfo.GetMounts`.
unfoldable pub mount_filter : Str → Str → Filter
mount_filter mount_path fs_type i = record {
  skip = false;
  stop = str_eq i.mountpoint mount_path && str_eq i.fs_type fs_type;
}

unfoldable pub some_mount : List MountInfo → Bool
some_mount [] = false
some_mount (i ∷ is) = true

module _ {E : Type 0} (get_mounts : Filter → Result E (List MountInfo)) where
  unfoldable pub is_mounted : Str → Str → Result E Bool
  is_mounted mount_path fs_type = elim (get_mounts (mount_filter mount_path fs_type)) [
    | err e ↦ err e
    | ok is ↦ ok (some_mount is)
  ]

  unfoldable pub is_kodofs_mounted : Str → Result E Bool
  is_kodofs_mounted mount_path = is_mounted mount_path fuse_type_kodofs

  unfoldable pub is_kodo_mounted : Str → Result E Bool
  is_kodo_mounted mount_path = is_mounted mount_path fuse_type_kodo

-- What `os.Lstat` says of a path.
pub data Stat (E : Type 0) : Type 0 where
  not_exist : Stat E
  stat_failed : E → Stat E
  directory : Stat E
  other_file : Stat E

pub data DirectoryError (E : Type 0) : Type 0 where
  not_made : E → DirectoryError E
  not_known : E → DirectoryError E
  -- "… already exist and it's not directory"
  not_directory : DirectoryError E

-- `made` is the answer of `os.MkdirAll`.
unfoldable pub ensure_directory_created :
    {E : Type 0} → Stat E → Result E (Unit {0}) → Result (DirectoryError E) (Unit {0})
ensure_directory_created not_exist (ok _) = ok tt
ensure_directory_created not_exist (err e) = err (not_made e)
ensure_directory_created (stat_failed e) made = err (not_known e)
ensure_directory_created directory made = ok tt
ensure_directory_created other_file made = err not_directory
