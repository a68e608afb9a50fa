-- ===== src/Plugin/Node/Server.antt =====
-- NodePublishVolume and NodeUnpublishVolume in plugin/kodo_node_server.go.
use kubernetes_csi_driver.Base.{Bool, true, false, List, [], ◌∷◌, if◌then◌else◌, Result, ok, err}
use kubernetes_csi_driver.Text.{Str, lit, is_blank}
use kubernetes_csi_driver.Protocol.{InitKodoMountCmd, KodoUmountCmd}
use kubernetes_csi_driver.Plugin.Values.{GoLib, StrMap}
use kubernetes_csi_driver.Plugin.Kodo.{KodoService, PvError, parse_kodo_pv}
use kubernetes_csi_driver.Plugin.Mount.{MountError, kodo_command, umount_command}

pub data NodeError (E : Type 0) : Type 0 where
  no_path : NodeError E
  wrong_parameters : PvError E → NodeError E
  no_directory not_unmounted : E → NodeError E
  not_mounted : MountError → NodeError E

-- The request, for both operations.
pub record NodeRequest : Type 0 where
  pub volume_id : Str
  pub target_path : Str
  pub context : StrMap
  pub secrets : StrMap

module _ {Url Duration E : Type 0} (go : GoLib Url Duration) (service : KodoService Url E)
    (directory_created : Str → Result E (Unit {0}))
    (mounted : InitKodoMountCmd → Result MountError (Unit {0})) where
  -- `NodePublishVolume`; `mounted` is what mountKodo reports of a command.
  unfoldable pub node_publish : NodeRequest → Result (NodeError E) (Unit {0})
  node_publish r =
      if is_blank r.target_path
      then err no_path
      else elim (parse_kodo_pv go (lit "NodePublishVolume") service r.context r.secrets) [
        | err e ↦ err (wrong_parameters e)
        | ok p ↦ elim (directory_created r.target_path) [
          | err e ↦ err (no_directory e)
          | ok _ ↦ elim (mounted (kodo_command go r.volume_id r.target_path p)) [
            | err e ↦ err (not_mounted e)
            | ok _ ↦ ok tt
          ]
        ]
      ]

-- `NodeUnpublishVolume`, with the cleaning commands that are sent; an error of the test whether the
-- path is mounted, and one of the cleaning, are only logged.
unfoldable pub node_unpublish :
    {E : Type 0}
    → Result E Bool
    → Result E (Unit {0})
    → NodeRequest
    → Result (NodeError E) (Unit {0}) × List KodoUmountCmd
node_unpublish is_mounted unmounted r =
    if is_blank r.target_path then (err no_path, []) else elim is_mounted [
      | err _ ↦ (ok tt, umount_command r.volume_id r.target_path ∷ [])
      | ok false ↦ (ok tt, umount_command r.volume_id r.target_path ∷ [])
      | ok true ↦ elim unmounted [
        | err e ↦ (err (not_unmounted e), [])
        | ok _ ↦ (ok tt, umount_command r.volume_id r.target_path ∷ [])
      ]
    ]
