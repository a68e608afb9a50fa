-- ===== src/Plugin/Kodofs/Server.antt =====
-- plugin/kodofs_controller_server.go: CreateVolume.
use kubernetes_csi_driver.Base.{ℕ, false, [], ◌∷◌, Option, none, some, Result, ok, err}
use kubernetes_csi_driver.Text.{Str, lit, format_uint}
use kubernetes_csi_driver.Plugin.Fields.{
  name, gateway_id, access_point_id, access_token, mount_server_address, access_key, secret_key,
  master_server_address, region, fs_type, block_size,
}
use kubernetes_csi_driver.Plugin.Values.{GoLib, StrMap, ParseError}
use kubernetes_csi_driver.Plugin.Kodo.{CsiVolume, Volumes, find_volume, put_volume}
use kubernetes_csi_driver.Plugin.Kodofs.Parameters.{KodofsStorageClassParameter, parse_kodofs_class}

-- What the master answers to the calls of one CreateVolume.
pub record CreateKodofsAnswers (E : Type 0) : Type 0 where
  pub volume_created : (name description region : Str) → (fs_type block_size : ℕ) → Result E Str
  pub access_point_created : (name description : Str) → Result E Str
  pub access_token_of : Str → Result E Str

pub record CreateKodofsRequest : Type 0 where
  pub name : Str
  pub parameters : StrMap
  pub secrets : StrMap
  pub required_bytes : ℕ

pub data CreateKodofsError (E : Type 0) : Type 0 where
  rejected : ParseError → CreateKodofsError E
  mount_failed : E → CreateKodofsError E
  access_point_failed : E → CreateKodofsError E
  access_token_failed : E → CreateKodofsError E

-- `String` of an address.
unfoldable pub address_text : {Url Duration : Type 0} → GoLib Url Duration → Option Url → Str
address_text go none = []
address_text go (some u) = go.url_string u

module _ {Url Duration : Type 0} (go : GoLib Url Duration) where
  -- The map `volumeContext`.
  unfoldable pub kodofs_context : Str → Str → Str → KodofsStorageClassParameter Url → StrMap
  kodofs_context gateway point token p =
      (name gateway_id, gateway)
      ∷ (name access_point_id, point)
      ∷ (name access_token, token)
      ∷ (name access_key, p.access_key)
      ∷ (name secret_key, p.secret_key)
      ∷ (name mount_server_address, address_text go p.mount_server_address)
      ∷ (name master_server_address, address_text go p.master_server_address)
      ∷ (name region, p.region)
      ∷ (name fs_type, format_uint p.fs_type)
      ∷ (name block_size, format_uint p.block_size)
      ∷ []

module _ {Url Duration E : Type 0} (go : GoLib Url Duration) where
  unfoldable pub provision_kodofs :
      CreateKodofsAnswers E
      → CreateKodofsRequest
      → KodofsStorageClassParameter Url
      → Result (CreateKodofsError E) CsiVolume
  provision_kodofs answers r p =
      elim (answers.volume_created r.name r.name p.region p.fs_type p.block_size) [
        | err e ↦ err (mount_failed e)
        | ok gateway ↦ elim (answers.access_point_created r.name r.name) [
          | err e ↦ err (access_point_failed e)
          | ok point ↦ elim (answers.access_token_of point) [
            | err e ↦ err (access_token_failed e)
            | ok token ↦ ok (record {
              capacity = r.required_bytes;
              id = r.name;
              context = kodofs_context go gateway point token p;
            })
          ]
        ]
      ]

  -- `CreateVolume`
  unfoldable pub create_volume_of_kodofs :
      CreateKodofsAnswers E
      → CreateKodofsRequest
      → Volumes
      → Result (CreateKodofsError E) CsiVolume × Volumes
  create_volume_of_kodofs answers r vs = elim (find_volume r.name vs) [
    | some v ↦ (ok v, vs)
    | none ↦ elim (parse_kodofs_class go (lit "CreateVolume") r.parameters r.secrets false) [
      | err e ↦ (err (rejected e), vs)
      | ok p ↦ elim (provision_kodofs answers r p) [
        | err e ↦ (err e, vs)
        | ok v ↦ (ok v, put_volume r.name v vs)
      ]
    ]
  ]
