-- ===== src/Connector/Requests.antt =====
-- The reading half of handleConn in connector/main.go: lines of the connection become commands.
use kubernetes_csi_driver.Base.{List, [], ◌∷◌, Option, none, some, if◌then◌else◌}
use kubernetes_csi_driver.Text.{Str, str_eq}
use kubernetes_csi_driver.Protocol.{
  Request, RequestDataCmd, InitKodoMountCmd, InitKodofsMountCmd, KodoUmountCmd, version_v2,
  init_kodo_mount_name, init_kodofs_mount_name, kodo_umount_name, request_data_name,
}

-- What the connector uses of the package `encoding/json`: `json.Unmarshal` at each struct, with
-- `none` for an error.
pub record Decoders : Type 0 where
  pub request : Str → Option Request
  pub init_kodofs : Str → Option InitKodofsMountCmd
  pub init_kodo : Str → Option InitKodoMountCmd
  pub request_data : Str → Option RequestDataCmd
  pub kodo_umount : Str → Option KodoUmountCmd

-- The commands that the connector accepts.
pub data Cmd : Type 0 where
  mount_kodofs : InitKodofsMountCmd → Cmd
  mount_kodo : InitKodoMountCmd → Cmd
  send_data : RequestDataCmd → Cmd
  umount_kodo : KodoUmountCmd → Cmd

module _ (json : Decoders) where
  -- The switch over `request.Cmd`; `none` is a return.
  unfoldable pub decode_request : Request → Option Cmd
  decode_request r =
      if str_eq r.cmd init_kodofs_mount_name
      then elim (json.init_kodofs r.payload) [ none ↦ none | some c ↦ some (mount_kodofs c) ]
      else if str_eq r.cmd init_kodo_mount_name
      then elim (json.init_kodo r.payload) [ none ↦ none | some c ↦ some (mount_kodo c) ]
      else if str_eq r.cmd request_data_name
      then elim (json.request_data r.payload) [ none ↦ none | some c ↦ some (send_data c) ]
      else if str_eq r.cmd kodo_umount_name
      then elim (json.kodo_umount r.payload) [ none ↦ none | some c ↦ some (umount_kodo c) ]
      else none

  -- One line: a bad line, a wrong version, an unknown command and a bad payload end the loop.
  unfoldable pub decode_line : Str → Option Cmd
  decode_line line = elim (json.request line) [
    | none ↦ none
    | some r ↦ if str_eq r.version version_v2 then decode_request r else none
  ]

  -- The loop over the lines: what is sent to handleCmd before the channel is closed. The
  -- limit of bufio.Scanner, 64 KiB for a line, is left out.
  unfoldable pub read_commands : List Str → List Cmd
  read_commands [] = []
  read_commands (line ∷ lines) = elim (decode_line line) [
    | none ↦ []
    | some c ↦ c ∷ read_commands lines
  ]
