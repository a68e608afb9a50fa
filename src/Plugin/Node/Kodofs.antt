-- ===== src/Plugin/Node/Kodofs.antt =====
-- NodePublishVolume and NodeUnpublishVolume in plugin/kodofs_node_server.go.
use kubernetes_csi_driver.Base.{Bool, true, false, if◌then◌else◌, Result, ok, err}
use kubernetes_csi_driver.Text.{Str, lit, is_blank}
use kubernetes_csi_driver.Protocol.{InitKodofsMountCmd}
use kubernetes_csi_driver.Plugin.Values.{GoLib, ParseError}
use kubernetes_csi_driver.Plugin.Kodofs.{parse_kodofs_pv}
use kubernetes_csi_driver.Plugin.Kodofs.Server.{address_text}
use kubernetes_csi_driver.Plugin.Mount.{MountError, kodofs_command}
use kubernetes_csi_driver.Plugin.Node.Server.{NodeRequest}

pub data KodofsNodeError (E : Type 0) : Type 0 where
  no_path : KodofsNodeError E
  wrong_parameters : ParseError → KodofsNodeError E
  no_directory : E → KodofsNodeError E
  not_mounted : MountError → KodofsNodeError E
  not_unmounted : E → KodofsNodeError E

unfoldable pub mount_report :
    {E : Type 0} → Result MountError (Unit {0}) → Result (KodofsNodeError E) (Unit {0})
mount_report (ok _) = ok tt
mount_report (err e) = err (not_mounted e)

module _ {Url Duration E : Type 0} (go : GoLib Url Duration) (join_root : Str → Str)
    (directory_created : Str → Result E (Unit {0}))
    (mounted : InitKodofsMountCmd → Str → Str → Result MountError (Unit {0})) where
  -- `NodePublishVolume`; `mounted` is what mountKodoFS reports of a command, when the two questions
  -- of the process are answered with the address and with the token.
  unfoldable pub kodofs_publish : NodeRequest → Result (KodofsNodeError E) (Unit {0})
  kodofs_publish r =
      if is_blank r.target_path
      then err no_path
      else elim (parse_kodofs_pv go (lit "NodePublishVolume") r.context r.secrets) [
        | err e ↦ err (wrong_parameters e)
        | ok p ↦ elim (directory_created r.target_path) [
          | err e ↦ err (no_directory e)
          | ok _ ↦ mount_report (
              mounted (kodofs_command join_root r.volume_id p.gateway_id r.target_path (lit "/"))
                (address_text go p.class.mount_server_address) p.access_token)
        ]
      ]

-- `NodeUnpublishVolume`; an error of the test whether the path is mounted is only logged.
unfoldable pub kodofs_unpublish :
    {E : Type 0}
    → Result E Bool
    → Result E (Unit {0})
    → NodeRequest
    → Result (KodofsNodeError E) (Unit {0})
kodofs_unpublish is_mounted unmounted r =
    if is_blank r.target_path then err no_path else elim is_mounted [
      | err _ ↦ ok tt
      | ok false ↦ ok tt
      | ok true ↦ elim unmounted [ err e ↦ err (not_unmounted e) | ok _ ↦ ok tt ]
    ]
