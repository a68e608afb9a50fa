-- ===== src/Plugin/Node/Journey.antt =====
-- A Kodo volume on its whole way: CreateVolume in plugin/kodo_controller_server.go,
-- NodePublishVolume in plugin/kodo_node_server.go, mountKodo in plugin/utils.go and
-- writeRcloneConfig in connector/utils.go.
use kubernetes_csi_driver.Base.{
  ◌≡◌, refl, none, sym, ◌∙◌, ◌↔◌, false, some, Result, ok, Result-cases, inl, inr, err-ne-ok,
}
use kubernetes_csi_driver.Text.{Str, lit, is_blank}
use kubernetes_csi_driver.Protocol.{InitKodoMountCmd}
use kubernetes_csi_driver.Connector.Files.{rclone_section, config_value}
use kubernetes_csi_driver.Connector.Configuration.{rclone_section-IsWritten, rclone_section-type}
use kubernetes_csi_driver.Plugin.Values.{GoLib, StrMap}
use kubernetes_csi_driver.Plugin.Reading.{settle}
use kubernetes_csi_driver.Plugin.Kodo.{
  KodoStorageClassParameter, KodoPvParameter, KodoService, parse_kodo_pv, Provisioned, CsiVolume,
  Cloud, CreateRequest, FoundBucket, Volumes, find_volume, create_volume, parse_storage_class,
  volume_context,
}
use kubernetes_csi_driver.Plugin.Kodo.Provision.{
  IsAnswered, bucket_known, with_own_keys, create_volume-IsAnswered,
}
use kubernetes_csi_driver.Plugin.Kodo.RoundTrip.{IsWritable, ReadsDurations}
use kubernetes_csi_driver.Plugin.Kodo.Survive.{LeavesOptions, IsFilled}
use kubernetes_csi_driver.Plugin.Kodo.Arrive.{IsPlaced, arrived, parse_kodo_pv-volume_context}
use kubernetes_csi_driver.Plugin.Mount.{MountError, kodo_command, text_of}
use kubernetes_csi_driver.Plugin.Node.Server.{NodeRequest, node_publish}

-- The request on a node for a volume.
abbrev pub request_for : CsiVolume → Str → StrMap → NodeRequest
request_for v path secrets = record {
  volume_id = v.id;
  target_path = path;
  context = v.context;
  secrets = secrets;
}

module _ {Url Duration : Type 0} (go : GoLib Url Duration) where
  -- The command for the volume, with the parameters that the controller wrote.
  abbrev pub command_for :
      CsiVolume
      → Str
      → Provisioned
      → KodoStorageClassParameter Url Duration
      → Url
      → InitKodoMountCmd
  command_for v path b q e = kodo_command go v.id path (record {
    class = record q { vfs_cache_mode = settle q.vfs_cache_mode };
    bucket_id = b.id;
    bucket_name = b.bucket;
    original_access_key = b.original_access;
    original_secret_key = b.original_secret;
    s3_endpoint = some e;
    s3_region = b.s3_region_id;
  })

module _ {Url Duration E : Type 0} (go : GoLib Url Duration) (service : KodoService Url E)
    (directory_created : Str → Result E (Unit {0}))
    (mounted : InitKodoMountCmd → Result MountError (Unit {0})) where
  mounts :
      (r : NodeRequest) (pv : KodoPvParameter Url Duration)
      → is_blank r.target_path ≡ false
      → directory_created r.target_path ≡ ok tt
      → parse_kodo_pv go (lit "NodePublishVolume") service r.context r.secrets ≡ ok pv
      → (node_publish go service directory_created mounted r ≡ ok tt)
        ↔ (mounted (kodo_command go r.volume_id r.target_path pv) ≡ ok tt)
  unfolding node_publish
  mounts r pv there made good =
      elim (Result-cases (mounted (kodo_command go r.volume_id r.target_path pv))) [
        | inl (_, done) ↦ (λ _. done, λ _. rw (there, good, made, done, node_publish) refl)
        | inr (e, failed) ↦ (
          λ h. absurd (err-ne-ok (rw (there, good, made, failed, node_publish) at h)),
          λ h. absurd (err-ne-ok (sym failed ∙ h)),
        )
      ]

  -- If the cloud can do its part, CreateVolume succeeds with a volume, and on a node, for a target
  -- path that is not blank and whose directory is made, NodePublishVolume asks nothing of the service
  -- and succeeds exactly if mountKodo succeeds with a command whose rclone configuration is one for S3 with the
  -- keys of the volume's own user, and the endpoint and the S3 region that the cloud answered for the
  -- region of the bucket: its own if it was there before, or that of the parameters, in which it was
  -- created. This is for parameters and answers with trimmed texts that, but for `subdir`, are not
  -- blank (the two keys of the account may be), for addresses, durations and numbers that are read
  -- back from their texts, and for secrets that give no `subdir` and no `s3forcepathstyle`.
  pub node_publish-create_volume :
      (cloud : Cloud Url E) (r : CreateRequest) (vs : Volumes)
      (p : KodoStorageClassParameter Url Duration) (c : FoundBucket) (region : Str) (f : Url)
      (t : Str) (keys : Str × Str) (u e : Url) (path : Str) (secrets : StrMap)
      → find_volume r.name vs ≡ none
      → parse_storage_class go (lit "CreateVolume") r.parameters r.secrets ≡ ok p
      → IsAnswered go cloud r p c region f t keys
      → ReadsDurations go
      → IsWritable go (with_own_keys p region keys) u
      → IsFilled (with_own_keys p region keys)
      → IsPlaced go (bucket_known go p c f t) e
      → LeavesOptions secrets
      → is_blank path ≡ false
      → directory_created path ≡ ok tt
      → let v : CsiVolume = record {
        capacity = r.required_bytes;
        id = r.name;
        context = volume_context go (bucket_known go p c f t) (with_own_keys p region keys);
      } in
        let command =
          command_for go v path (bucket_known go p c f t) (with_own_keys p region keys) e in
        ((create_volume go cloud r vs).0.0 ≡ ok v)
        × ((node_publish go service directory_created mounted (request_for v path secrets) ≡ ok tt)
            ↔ (mounted command ≡ ok tt))
        × (config_value (lit "type") (rclone_section command) ≡ some (lit "s3"))
        × (config_value (lit "access_key_id") (rclone_section command) ≡ some keys.0)
        × (config_value (lit "secret_access_key") (rclone_section command) ≡ some keys.1)
        × (config_value (lit "endpoint") (rclone_section command) ≡ some (go.url_string e))
        × (config_value (lit "region") (rclone_section command) ≡ some t)
  unfolding kodo_command text_of
  node_publish-create_volume cloud r vs p c region f t keys u e path secrets unknown parsed answered
        durations w filled placed leaves there directory =
      let q = with_own_keys p region keys in
      let b = bucket_known go p c f t in
      let v : CsiVolume = record {
        capacity = r.required_bytes;
        id = r.name;
        context = volume_context go b q;
      } in
      let command = command_for go v path b q e in
      let pv =
        arrived go (lit "NodePublishVolume") q b e placed
          (record q { vfs_cache_mode = settle q.vfs_cache_mode }) in
      let read =
        parse_kodo_pv-volume_context go (lit "NodePublishVolume") q b e placed service secrets u
          durations w filled leaves in
      let (access, secret, region_of, endpoint_of, _, _, _, _, _) =
        rclone_section-IsWritten command in
      (
        create_volume-IsAnswered go cloud r vs p c region f t keys unknown parsed answered,
        mounts (request_for v path secrets) pv there directory read,
        rclone_section-type command,
        access,
        secret,
        endpoint_of,
        region_of,
      )
