-- ===== src/Plugin/Node/Table.antt =====
-- About isMounted in plugin/utils.go, and what NodeUnpublishVolume makes of it.
use kubernetes_csi_driver.Base.{false, List, [], ◌∷◌, Result, ok, err, if◌then◌else◌, ◌≡◌, refl}
use kubernetes_csi_driver.Text.{is_blank}
use kubernetes_csi_driver.Plugin.Node.Server.{NodeRequest}
use kubernetes_csi_driver.Plugin.Node.Mounts.{
  MountInfo, Filter, mount_filter, some_mount, is_mounted, is_kodofs_mounted,
}
use kubernetes_csi_driver.Plugin.Node.Kodofs.{not_unmounted, kodofs_unpublish}

-- The entries that `mountinfo.GetMounts` returns of a table, as its documentation has it: those that
-- the filter does not skip, up to the first one at which it stops.
unfoldable pub filtered : Filter → List MountInfo → List MountInfo
filtered f [] = []
filtered f (i ∷ is) =
    let rest = if (f i).stop then [] else filtered f is in if (f i).skip then rest else i ∷ rest

-- When anything at all is mounted on the host, a path where nothing is mounted is taken for a mount
-- of KodoFS, so that NodeUnpublishVolume fails for it if `umount` does.
pub kodofs_unpublish_fails :
    {E : Type 0} (get_mounts : Filter → Result E (List MountInfo)) (i : MountInfo)
    (is : List MountInfo) (r : NodeRequest) (e : E)
    → ((f : Filter) → get_mounts f ≡ ok (filtered f (i ∷ is)))
    → is_blank r.target_path ≡ false
    → kodofs_unpublish (is_kodofs_mounted get_mounts r.target_path) (err e) r
      ≡ err (not_unmounted e)
unfolding kodofs_unpublish is_kodofs_mounted is_mounted some_mount filtered mount_filter
kodofs_unpublish_fails get_mounts i is r e documented path =
    rw (kodofs_unpublish, path, is_kodofs_mounted, is_mounted, documented _, filtered, some_mount)
      refl
