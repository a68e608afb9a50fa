-- ===== src/Tests/Mounts.antt =====
-- A KodoFS volume on a node.
use kubernetes_csi_driver.Base.{false, none, some, List, [], ◌∷◌, Result, ok, err, ◌≡◌, refl}
use kubernetes_csi_driver.Text.{Str, lit, is_blank}
use kubernetes_csi_driver.Protocol.{InitKodofsMountCmd, ResponseDataCmd}
use kubernetes_csi_driver.Plugin.Kodo.{CsiVolume}
use kubernetes_csi_driver.Plugin.Kodofs.Server.{
  CreateKodofsAnswers, CreateKodofsRequest, provision_kodofs,
}
use kubernetes_csi_driver.Plugin.Mount.{Decoders, MountError, write_failed, kodofs_command}
use kubernetes_csi_driver.Plugin.Mount.Local.{local_answers}
use kubernetes_csi_driver.Plugin.Node.{NodeRequest}
use kubernetes_csi_driver.Plugin.Node.Mounts.{MountInfo, Filter, is_kodofs_mounted}
use kubernetes_csi_driver.Plugin.Node.Kodofs.{
  not_unmounted, mount_report, kodofs_publish, kodofs_unpublish,
}
use kubernetes_csi_driver.Plugin.Node.Table.{filtered, kodofs_unpublish_fails}
use kubernetes_csi_driver.Plugin.Node.Composition.{
  publish_request, session_of, kodofs_publish-provision_kodofs,
}
use kubernetes_csi_driver.Tests.Volumes.{go}
use kubernetes_csi_driver.Tests.Archives.{class, class-IsReadBack, g1_is_text}

-- A host where only the root is mounted.
abbrev root : MountInfo
root = record { mountpoint = lit "/"; fs_type = lit "ext4" }

abbrev get_mounts : Filter → Result Str (List MountInfo)
get_mounts f = ok (filtered f (root ∷ []))

abbrev unpublish : NodeRequest
unpublish = record { volume_id = lit "v"; target_path = lit "/mnt"; context = []; secrets = [] }

mnt_is_path : is_blank (lit "/mnt") ≡ false
unfolding is_blank
mnt_is_path = refl

kodofs_unpublish_fails_example :
    kodofs_unpublish (is_kodofs_mounted get_mounts (lit "/mnt")) (err (lit "not mounted")) unpublish
    ≡ err (not_unmounted (lit "not mounted"))
kodofs_unpublish_fails_example =
    kodofs_unpublish_fails get_mounts root [] unpublish (lit "not mounted") (λ f. refl) mnt_is_path

abbrev master : CreateKodofsAnswers Str
master = record {
  volume_created = λ name description region fs_type block_size. ok (lit "g1");
  access_point_created = λ name description. ok (lit "g1");
  access_token_of = λ point. ok (lit "g1");
}

abbrev creation : CreateKodofsRequest
creation = record { name = lit "v"; parameters = []; secrets = []; required_bytes = 1 }

abbrev make_path : Str → Result Str (Unit {0})
make_path path = ok tt

-- A JSON of bare texts, and a kodofs that asks for the token.
abbrev json : Decoders
json = record {
  response = λ text. some (record { is_error = false; text = text });
  terminate = λ text. none;
}

abbrev marshal : ResponseDataCmd → Str
marshal c = c.text

abbrev prints : InitKodofsMountCmd → List Str
prints command = lit "please enter the AccessToken:" ∷ []

-- The mount fails unless something is answered.
abbrev outcome :
    InitKodofsMountCmd → List Str → Result MountError (Unit {0}) → Result MountError (Unit {0})
outcome command [] result = err write_failed
outcome command (line ∷ lines) result = result

kodofs_publish-provision_kodofs_example :
    let command = kodofs_command (λ path. path) (lit "v") (lit "g1") (lit "/mnt") (lit "/") in
    (v : CsiVolume) × (provision_kodofs go master creation class ≡ ok v)
    × (kodofs_publish go
          (λ path. path)
          make_path
          (session_of json marshal prints outcome)
          (publish_request v.id (lit "/mnt") v.context [])
        ≡ mount_report
            (outcome command (local_answers (lit "m") (lit "g1") (prints command)) (ok tt)))
kodofs_publish-provision_kodofs_example =
    kodofs_publish-provision_kodofs go (λ path. path) make_path json marshal prints outcome class
      (lit "m") (lit "n") (class-IsReadBack (lit "NodePublishVolume")) master creation (lit "g1")
      (lit "g1") (lit "g1") (lit "/mnt") [] refl refl refl g1_is_text g1_is_text g1_is_text
      mnt_is_path refl (refl, tt)
