-- ===== src/Tests/Archives.antt =====
-- A KodoFS volume: its context, a removal that keeps it, a volume that is archived, and the
-- question whether it exists.
use kubernetes_csi_driver.Base.{
  ℕ, ◌≡◌, ◌≢◌, List, Option, Result, ◌↔◌, refl, true, false, [], ◌∷◌, ◌++◌, none, some, ok, arith,
}
use kubernetes_csi_driver.Base.Integers.{pos, negsuc}
use kubernetes_csi_driver.Text.{Str, lit, str_eq, trim_space, trim_left, is_space, is_blank}
use kubernetes_csi_driver.Qiniu.Kodofs.{KodofsNetwork, KodofsErrorBody, is_volume_exists}
use kubernetes_csi_driver.Qiniu.Existence.{is_volume_exists_iff}
use kubernetes_csi_driver.Plugin.Values.{want_url, parse_url}
use kubernetes_csi_driver.Plugin.Kodo.{PersistentVolume, CsiVolume, Volumes, find_volume}
use kubernetes_csi_driver.Plugin.Kodofs.{
  KodofsStorageClassParameter, ArchiveAnswers, KodofsCall, parse_kodofs_pv,
}
use kubernetes_csi_driver.Plugin.Kodofs.Server.{
  kodofs_context, CreateKodofsAnswers, CreateKodofsRequest, provision_kodofs,
}
use kubernetes_csi_driver.Plugin.Kodofs.Delete.{
  RemoveAnswers, DeleteKodofsError, delete_volume_of_kodofs, delete_by_policy, removal_result,
  then_steps, clean_entries, release, empty_directory, and_finally, remove_volume_of_kodofs,
}
use kubernetes_csi_driver.Plugin.Kodofs.Removal.{HowRemoved}
use kubernetes_csi_driver.Plugin.Kodofs.Lifecycle.{
  destroys_volume, delete_volume_of_kodofs-retains, delete_volume_of_kodofs-provision_kodofs,
}
use kubernetes_csi_driver.Plugin.Kodofs.Survive.{IsReadBack, parse_kodofs_pv-kodofs_context}
use kubernetes_csi_driver.Tests.Volumes.{go}

abbrev pub class : KodofsStorageClassParameter Str
class = record {
  access_key = lit "ak";
  secret_key = lit "sk";
  mount_server_address = some (lit "m");
  master_server_address = some (lit "n");
  region = lit "z0";
  fs_type = 2;
  block_size = 4194304;
}

pub class-IsReadBack : (fn : Str) → IsReadBack go fn class (lit "m") (lit "n")
unfolding trim_space trim_left is_space want_url parse_url
class-IsReadBack fn = record {
  access_trimmed = refl;
  secret_trimmed = refl;
  region_trimmed = refl;
  mount_set = refl;
  master_set = refl;
  mount_reads = refl;
  master_reads = refl;
  sized = record { type_fits = omega arith; block_fits = omega arith };
  block_set = refl;
}

pub g1_is_text : (trim_space (lit "g1") ≡ lit "g1") × (is_blank (lit "g1") ≡ false)
unfolding trim_space trim_left is_space is_blank
g1_is_text = (refl, refl)

parse_kodofs_pv-kodofs_context_example :
    parse_kodofs_pv go (lit "f") (kodofs_context go (lit "g1") (lit "g1") (lit "g1") class) []
    ≡ ok (record {
      class = class;
      gateway_id = lit "g1";
      access_token = lit "g1";
      access_point_id = lit "g1";
    })
parse_kodofs_pv-kodofs_context_example =
    parse_kodofs_pv-kodofs_context go (lit "f") class (lit "m") (lit "n")
      (class-IsReadBack (lit "f")) (lit "g1") (lit "g1") (lit "g1") [] g1_is_text g1_is_text
      g1_is_text

abbrev join : Str → Str → Str
join dir path = dir ++ (lit "/" ++ path)

-- A busy directory that is not mounted in the end.
abbrev busy : RemoveAnswers Str Str
busy = record {
  volume_exists = λ id. ok true;
  directory_made = ok (lit "/tmp/t");
  mounted_locally = λ m. none;
  entries = λ dir. ok (lit "a" ∷ []);
  removed_all = λ path. none;
  unmounted = λ dir. some (lit "busy");
  is_mounted = λ dir. ok false;
  access_point_dropped = λ point. none;
  volume_dropped = λ id. none;
}

abbrev created : CreateKodofsAnswers Str
created = record {
  volume_created = λ name description region fs_type block_size. ok (lit "g1");
  access_point_created = λ name description. ok (lit "g1");
  access_token_of = λ point. ok (lit "g1");
}

abbrev wanted : CreateKodofsRequest
wanted = record { name = lit "v"; parameters = []; secrets = []; required_bytes = 1024 }

abbrev volume : CsiVolume
volume = record {
  capacity = 1024;
  id = lit "v";
  context = kodofs_context go (lit "g1") (lit "g1") (lit "g1") class;
}

made : provision_kodofs go created wanted class ≡ ok volume
unfolding provision_kodofs
made = refl

abbrev persistent : Str → PersistentVolume
persistent policy = record { attributes = volume.context; reclaim_policy = policy }

-- A service where every name is free.
abbrev obliging : ArchiveAnswers Str
obliging = record {
  access_point_removed = λ point. ok tt;
  volume_exists = λ i name. ok false;
  volume_renamed = λ i old new. ok tt;
}

abbrev deletion :
    Str → (Option (Result (DeleteKodofsError Str Str) (Unit {0})) × List (KodofsCall Str)) × Volumes
deletion policy =
    delete_volume_of_kodofs join (λ client. busy) (λ client. obliging) go
      (λ id. ok (persistent policy)) 9 (lit "v") [] []

disposable : str_eq (lit "Delete") (lit "Delete") ≡ true
unfolding str_eq
disposable = refl

retained : str_eq (lit "Retain") (lit "Delete") ≡ false
unfolding str_eq
retained = refl

parsed :
    parse_kodofs_pv go (lit "DeleteVolume") volume.context []
    ≡ ok (record {
      class = class;
      gateway_id = lit "g1";
      access_token = lit "g1";
      access_point_id = lit "g1";
    })
parsed =
    parse_kodofs_pv-kodofs_context go (lit "DeleteVolume") class (lit "m") (lit "n")
      (class-IsReadBack (lit "DeleteVolume")) (lit "g1") (lit "g1") (lit "g1") [] g1_is_text
      g1_is_text g1_is_text

busy_succeeds : (deletion (lit "Delete")).0.0 ≡ some (ok tt)
unfolding delete_volume_of_kodofs delete_by_policy str_eq removal_result remove_volume_of_kodofs
    then_steps and_finally empty_directory clean_entries release
busy_succeeds = rw (delete_volume_of_kodofs, parsed) refl

delete_volume_of_kodofs-provision_kodofs_example :
    HowRemoved join busy
      (lit "v")
      (record {
        class = class;
        gateway_id = lit "g1";
        access_token = lit "g1";
        access_point_id = lit "g1";
      })
      (deletion (lit "Delete")).0.1
    × (find_volume (lit "v") (deletion (lit "Delete")).1 ≡ none)
delete_volume_of_kodofs-provision_kodofs_example =
    delete_volume_of_kodofs-provision_kodofs join (λ client. busy) (λ client. obliging) go
      (λ id. ok (persistent (lit "Delete"))) class (lit "m") (lit "n")
      (class-IsReadBack (lit "DeleteVolume")) created wanted (lit "g1") (lit "g1") (lit "g1") volume
      (persistent (lit "Delete")) 9 [] [] refl refl refl g1_is_text g1_is_text g1_is_text made refl
      refl disposable busy_succeeds

delete_volume_of_kodofs-retains_example :
    (destroys_volume (deletion (lit "Retain")).0.1 ≡ false)
    × ((deletion (lit "Retain")).0.0 ≢ some (ok tt))
delete_volume_of_kodofs-retains_example =
    delete_volume_of_kodofs-retains join (λ client. busy) (λ client. obliging) go
      (λ id. ok (persistent (lit "Retain"))) 9 (lit "v") [] [] (persistent (lit "Retain")) refl
      retained

abbrev missing : KodofsErrorBody
missing = record { code = negsuc 1999; error_code = lit "x"; message = lit "no volume" }

-- A master that knows no volume.
abbrev master : KodofsNetwork ℕ Str Str
master = record {
  new_request = λ request. none;
  send = λ request s. (ok (record { status = 200; body = ok (lit "{}") }), s);
  url_string = λ u. u;
  encode_pair = λ key value. value;
  marshal = λ b. ok [];
  unmarshal_error = λ bs. ok missing;
  unmarshal_gateway_id = λ bs. ok bs;
  unmarshal_access_id = λ bs. ok bs;
  unmarshal_access_token = λ bs. ok bs;
}

is_volume_exists_iff_example :
    (((is_volume_exists master (lit "u") (lit "v") 0).0 ≡ ok false) ↔ (negsuc 1999 ≡ negsuc 1999))
    × (((is_volume_exists master (lit "u") (lit "v") 0).0 ≡ ok true) ↔ (negsuc 1999 ≡ pos 0))
is_volume_exists_iff_example =
    is_volume_exists_iff master (lit "u") (lit "v") 0 0
      (record { status = 200; body = ok (lit "{}") }) (lit "{}") missing refl refl refl refl
