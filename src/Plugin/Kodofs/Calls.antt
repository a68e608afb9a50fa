-- ===== src/Plugin/Kodofs/Calls.antt =====
-- The calls of DeleteVolume in plugin/kodofs_controller_server.go.
use kubernetes_csi_driver.Base.{Option}
use kubernetes_csi_driver.Text.{Str, lit}
use kubernetes_csi_driver.Plugin.Kodofs.Parameters.{KodofsStorageClassParameter, KodofsPvParameter}

-- `qiniu.NewKodoFSClient`: whose calls they are.
pub record KodofsClient (Url : Type 0) : Type 0 where
  pub access_key : Str
  pub secret_key : Str
  pub master_url : Option Url

-- The client of a server for these parameters.
unfoldable pub kodofs_client : {Url : Type 0} → KodofsStorageClassParameter Url → KodofsClient Url
kodofs_client p = record {
  access_key = p.access_key;
  secret_key = p.secret_key;
  master_url = p.master_server_address;
}

-- The arguments of `mountKodoFSLocally`.
pub record LocalMount (Url : Type 0) : Type 0 where
  pub volume_id : Str
  pub gateway_id : Str
  pub mount_path : Str
  pub mount_server_address : Option Url
  pub access_token : Str
  pub sub_dir : Str

unfoldable pub temporary_mount : {Url : Type 0} → Str → KodofsPvParameter Url → Str → LocalMount Url
temporary_mount id p directory = record {
  volume_id = id;
  gateway_id = p.gateway_id;
  mount_path = directory;
  mount_server_address = p.class.mount_server_address;
  access_token = p.access_token;
  sub_dir = lit "/";
}

-- Of the client of the master, and of the system for the directory where the volume is mounted for
-- a while.
pub data KodofsCall (Url : Type 0) : Type 0 where
  look_up : Str → KodofsCall Url
  make_directory : KodofsCall Url
  mount_locally : LocalMount Url → KodofsCall Url
  read_directory : Str → KodofsCall Url
  remove_all : Str → KodofsCall Url
  unmount : Str → KodofsCall Url
  check_mounted : Str → KodofsCall Url
  drop_access_point : Str → KodofsCall Url
  drop_volume_of_master : Str → KodofsCall Url
  remove_directory : Str → KodofsCall Url
  rename_volume : Str → Str → KodofsCall Url
