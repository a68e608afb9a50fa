-- ===== src/Plugin/Node/Composition.antt =====
-- What a KodoFS volume that the controller made becomes on a node: CreateVolume in
-- plugin/kodofs_controller_server.go and NodePublishVolume in plugin/kodofs_node_server.go together.
use kubernetes_csi_driver.Base.{false, List, All, Result, ok, ◌≡◌, ap, refl}
use kubernetes_csi_driver.Text.{Str, lit, is_blank}
use kubernetes_csi_driver.Protocol.{InitKodofsMountCmd, ResponseDataCmd}
use kubernetes_csi_driver.Plugin.Values.{GoLib, StrMap}
use kubernetes_csi_driver.Plugin.Kodo.{CsiVolume}
use kubernetes_csi_driver.Plugin.Kodofs.{KodofsStorageClassParameter}
use kubernetes_csi_driver.Plugin.Kodofs.Server.{
  CreateKodofsAnswers, CreateKodofsRequest, address_text, kodofs_context, provision_kodofs,
}
use kubernetes_csi_driver.Plugin.Kodofs.Survive.{IsReadBack, IsText, parse_kodofs_pv-kodofs_context}
use kubernetes_csi_driver.Plugin.Mount.{Decoders, MountError, kodofs_command, kodofs_loop}
use kubernetes_csi_driver.Plugin.Mount.Local.{local_answers}
use kubernetes_csi_driver.Plugin.Mount.Questions.{asked, IsDecoded, kodofs_loop-local_answers}
use kubernetes_csi_driver.Plugin.Node.Server.{NodeRequest}
use kubernetes_csi_driver.Plugin.Node.Kodofs.{mount_report, kodofs_publish}

-- The request on a node for a volume with this context.
abbrev pub publish_request : (volume path : Str) → StrMap → StrMap → NodeRequest
publish_request volume path context secrets = record {
  volume_id = volume;
  target_path = path;
  context = context;
  secrets = secrets;
}

-- mountKodoFS on what the kodofs of a command prints; `outcome` is what becomes of the mount with the
-- lines that are written to its standard input and the result of the loop.
abbrev pub session_of :
    Decoders
    → (ResponseDataCmd → Str)
    → (InitKodofsMountCmd → List Str)
    → (InitKodofsMountCmd → List Str → Result MountError (Unit {0}) → Result MountError (Unit {0}))
    → InitKodofsMountCmd
    → Str
    → Str
    → Result MountError (Unit {0})
session_of json marshal prints outcome command master token =
    let o = kodofs_loop json master token (asked marshal (prints command)) in
    outcome command o.1 o.0

module _ {Url Duration E : Type 0} (go : GoLib Url Duration) (join_root : Str → Str)
    (directory_created : Str → Result E (Unit {0})) (json : Decoders)
    (marshal : ResponseDataCmd → Str) (prints : InitKodofsMountCmd → List Str)
    (outcome : InitKodofsMountCmd
      → List Str
      → Result MountError (Unit {0})
      → Result MountError (Unit {0}))
    (p : KodofsStorageClassParameter Url) (mount master : Url)
    (reads : IsReadBack go (lit "NodePublishVolume") p mount master) where
  -- When the controller made a KodoFS volume, and the target path is not blank and its directory is
  -- made, the node mounts the root of the gateway that the master gave, and what is written to
  -- kodofs are the answers to what it prints: the address of the mount server where it asks for the
  -- address, and the token that the master gave where it asks for the token. This is for trimmed
  -- texts that are not blank, parameters that are read back from their texts, output that the
  -- connector sends as standard output and the plugin decodes, and writes that succeed.
  pub kodofs_publish-provision_kodofs :
      (answers : CreateKodofsAnswers E) (r : CreateKodofsRequest) (gateway point token path : Str)
      (secrets : StrMap)
      → answers.volume_created r.name r.name p.region p.fs_type p.block_size ≡ ok gateway
      → answers.access_point_created r.name r.name ≡ ok point
      → answers.access_token_of point ≡ ok token
      → IsText go (lit "NodePublishVolume") p mount master reads gateway
      → IsText go (lit "NodePublishVolume") p mount master reads point
      → IsText go (lit "NodePublishVolume") p mount master reads token
      → is_blank path ≡ false
      → directory_created path ≡ ok tt
      → All
          (IsDecoded json marshal)
          (prints (kodofs_command join_root r.name gateway path (lit "/")))
      → let command = kodofs_command join_root r.name gateway path (lit "/") in
        (v : CsiVolume) × (provision_kodofs go answers r p ≡ ok v)
        × (kodofs_publish go join_root directory_created
              (session_of json marshal prints outcome)
              (publish_request v.id path v.context secrets)
            ≡ mount_report (
                outcome command
                  (local_answers (go.url_string mount) token (prints command))
                  (ok tt)))
  unfolding provision_kodofs kodofs_publish address_text
  kodofs_publish-provision_kodofs answers r gateway point token path secrets v q t vt qt tt' there
        made laws =
      let command = kodofs_command join_root r.name gateway path (lit "/") in
      (
        record {
          capacity = r.required_bytes;
          id = r.name;
          context = kodofs_context go gateway point token p;
        },
        rw (provision_kodofs, v, q, t) refl,
        rw
            (
              kodofs_publish,
              there,
              parse_kodofs_pv-kodofs_context go (lit "NodePublishVolume") p mount master reads
                  gateway point token secrets vt qt tt',
              made,
              reads.mount_set,
            )
            (ap (λ o. mount_report (outcome command o.1 o.0))
              (kodofs_loop-local_answers json marshal (go.url_string mount) token (prints command)
                laws)),
      )
