-- ===== src/Plugin/Mount/Wire.antt =====
-- The two ends of the connection: what writeCmdToConn in plugin/utils.go writes, what handleConn in
-- connector/main.go reads and writes, and what the plugin makes of it.
use kubernetes_csi_driver.Base.{◌≡◌, refl, ap, List, [], ◌∷◌, ◌++◌, some, map, All}
use kubernetes_csi_driver.Text.{Str, str_eq, str_eq_refl}
use kubernetes_csi_driver.Protocol.{
  Request, RequestDataCmd, InitKodoMountCmd, InitKodofsMountCmd, KodoUmountCmd, version_v2,
  init_kodo_mount_name, init_kodofs_mount_name, kodo_umount_name, request_data_name,
}
use kubernetes_csi_driver.Connector.{
  Cmd, mount_kodofs, mount_kodo, send_data, umount_kodo, decode_request, decode_line, read_commands,
}
use kubernetes_csi_driver.Connector as Connector
use kubernetes_csi_driver.Plugin.Mount.Command.{make_request}

-- `json.Marshal` at each struct that the plugin sends.
pub record Encoders : Type 0 where
  pub request : Request → Str
  pub init_kodofs : InitKodofsMountCmd → Str
  pub init_kodo : InitKodoMountCmd → Str
  pub request_data : RequestDataCmd → Str
  pub kodo_umount : KodoUmountCmd → Str

-- The request of writeCmdToConn; each of the three mount functions has its own cases of it.
unfoldable pub request_of : Encoders → Cmd → Request
request_of json (mount_kodofs c) = make_request init_kodofs_mount_name (json.init_kodofs c)
request_of json (mount_kodo c) = make_request init_kodo_mount_name (json.init_kodo c)
request_of json (send_data c) = make_request request_data_name (json.request_data c)
request_of json (umount_kodo c) = make_request kodo_umount_name (json.kodo_umount c)

unfoldable pub write_command : Encoders → Cmd → Str
write_command json c = json.request (request_of json c)

module _ (encode : Encoders) (decode : Connector.Decoders) where
  -- `json.Unmarshal` gives back the payload of a command.
  abbrev pub IsPayloadRead : Cmd → Type 0
  IsPayloadRead (mount_kodofs c) = decode.init_kodofs (encode.init_kodofs c) ≡ some c
  IsPayloadRead (mount_kodo c) = decode.init_kodo (encode.init_kodo c) ≡ some c
  IsPayloadRead (send_data c) = decode.request_data (encode.request_data c) ≡ some c
  IsPayloadRead (umount_kodo c) = decode.kodo_umount (encode.kodo_umount c) ≡ some c

  -- JSON gives back the command and the request around it.
  abbrev pub IsCarried : Cmd → Type 0
  IsCarried c =
      IsPayloadRead c × (decode.request (write_command encode c) ≡ some (request_of encode c))

  decode_request_of :
      (c : Cmd) → IsPayloadRead c → decode_request decode (request_of encode c) ≡ some c
  unfolding decode_request request_of make_request str_eq init_kodofs_mount_name
      init_kodo_mount_name request_data_name kodo_umount_name
  decode_request_of (mount_kodofs c) h = rw h
  decode_request_of (mount_kodo c) h = rw h
  decode_request_of (send_data c) h = rw h
  decode_request_of (umount_kodo c) h = rw h

  request_version : (c : Cmd) → (request_of encode c).version ≡ version_v2
  unfolding request_of make_request
  request_version (mount_kodofs c) = refl
  request_version (mount_kodo c) = refl
  request_version (send_data c) = refl
  request_version (umount_kodo c) = refl

  decode_line-write_command :
      (c : Cmd) → IsCarried c → decode_line decode (write_command encode c) ≡ some c
  unfolding decode_line request_of
  decode_line-write_command c (payload, line) =
      rw (line, request_version c, str_eq_refl version_v2, decode_line)
        (decode_request_of c payload)

  -- The commands that the plugin writes are the commands that handleConn passes on, in their order
  -- and before all later lines, when JSON gives back what it was given.
  pub read_commands-write_command :
      (cs : List Cmd) (rest : List Str)
      → All IsCarried cs
      → read_commands decode (map (write_command encode) cs ++ rest)
        ≡ cs ++ read_commands decode rest
  unfolding read_commands
  read_commands-write_command [] rest _ = refl
  read_commands-write_command (c ∷ cs) rest (carried, others) =
      rw (decode_line-write_command c carried, read_commands)
        (ap (◌∷◌ c) (read_commands-write_command cs rest others))
