-- ===== src/Plugin/Fields.antt =====
-- The field names of the volume and storage class parameters: the constants at the top of
-- plugin/kodo_parameters.go and plugin/kodofs_parameters.go, and the recognition of a key.
use kubernetes_csi_driver.Base.{
  ◌≡◌, refl, Bool-cases, inl, inr, List, [], ◌∷◌, Option, none, some, arith, if◌then◌else◌,
}
use kubernetes_csi_driver.Text.{Str, lit, str_eq, str_eq→eq, to_lower}

pub data Field : Type 0 where
  bucket_id bucket_name sub_dir s3_region s3_endpoint s3_force_path_style uc_endpoint storage_class
        vfs_cache_mode dir_cache_duration buffer_size vfs_cache_max_age vfs_cache_poll_interval
        vfs_write_back vfs_cache_max_size vfs_read_ahead vfs_fast_finger_print vfs_read_chunk_size
        vfs_read_chunk_size_limit no_checksum no_mod_time no_seek read_only vfs_read_wait
        vfs_write_wait transfers vfs_disk_space_total_size write_back_cache upload_cutoff
        upload_chunk_size upload_concurrency debug_http debug_fuse original_access_key
        original_secret_key gateway_id access_point_id access_token mount_server_address access_key
        secret_key master_server_address region fs_type block_size :
      Field

-- The value of each constant `FIELD_…`.
unfoldable pub name : Field → Str
name bucket_id = lit "bucketid"
name bucket_name = lit "bucketname"
name sub_dir = lit "subdir"
name s3_region = lit "s3region"
name s3_endpoint = lit "s3endpoint"
name s3_force_path_style = lit "s3forcepathstyle"
name uc_endpoint = lit "ucendpoint"
name storage_class = lit "storageclass"
name vfs_cache_mode = lit "vfscachemode"
name dir_cache_duration = lit "dircacheduration"
name buffer_size = lit "buffersize"
name vfs_cache_max_age = lit "vfscachemaxage"
name vfs_cache_poll_interval = lit "vfscachepollinterval"
name vfs_write_back = lit "vfswriteback"
name vfs_cache_max_size = lit "vfscachemaxsize"
name vfs_read_ahead = lit "vfsreadahead"
name vfs_fast_finger_print = lit "vfsfastfingerprint"
name vfs_read_chunk_size = lit "vfsreadchunksize"
name vfs_read_chunk_size_limit = lit "vfsreadchunksizelimit"
name no_checksum = lit "nochecksum"
name no_mod_time = lit "nomodtime"
name no_seek = lit "noseek"
name read_only = lit "readonly"
name vfs_read_wait = lit "vfsreadwait"
name vfs_write_wait = lit "vfswritewait"
name transfers = lit "transfers"
name vfs_disk_space_total_size = lit "vfsdiskspacetotalsize"
name write_back_cache = lit "writebackcache"
name upload_cutoff = lit "uploadcutoff"
name upload_chunk_size = lit "uploadchunksize"
name upload_concurrency = lit "uploadconcurrency"
name debug_http = lit "debughttp"
name debug_fuse = lit "debugfuse"
name original_access_key = lit "originalaccesskey"
name original_secret_key = lit "originalsecretkey"
name gateway_id = lit "gatewayid"
name access_point_id = lit "accesspointid"
name access_token = lit "accesstoken"
name mount_server_address = lit "mntsvraddr"
name access_key = lit "accesskey"
name secret_key = lit "secretkey"
name master_server_address = lit "mastersvraddr"
name region = lit "region"
name fs_type = lit "fstype"
name block_size = lit "blocksize"

-- All constants, in the order of the source.
abbrev all_fields : List Field
all_fields =
    bucket_id ∷ bucket_name ∷ sub_dir ∷ s3_region ∷ s3_endpoint ∷ s3_force_path_style ∷ uc_endpoint
    ∷ storage_class ∷ vfs_cache_mode ∷ dir_cache_duration ∷ buffer_size ∷ vfs_cache_max_age
    ∷ vfs_cache_poll_interval ∷ vfs_write_back ∷ vfs_cache_max_size ∷ vfs_read_ahead
    ∷ vfs_fast_finger_print ∷ vfs_read_chunk_size ∷ vfs_read_chunk_size_limit ∷ no_checksum
    ∷ no_mod_time ∷ no_seek ∷ read_only ∷ vfs_read_wait ∷ vfs_write_wait ∷ transfers
    ∷ vfs_disk_space_total_size ∷ write_back_cache ∷ upload_cutoff ∷ upload_chunk_size
    ∷ upload_concurrency ∷ debug_http ∷ debug_fuse ∷ original_access_key ∷ original_secret_key
    ∷ gateway_id ∷ access_point_id ∷ access_token ∷ mount_server_address ∷ access_key ∷ secret_key
    ∷ master_server_address ∷ region ∷ fs_type ∷ block_size ∷ []

find_name : List Field → Str → Option Field
find_name [] key = none
find_name (f ∷ fs) key = if str_eq (name f) key then some f else find_name fs key

-- `key = strings.ToLower(key); switch key { … }`: the constant that a key is spelled like, in
-- whatever case. Each switch then has a clause for the fields that it knows.
unfoldable pub field_of : Str → Option Field
unfolding find_name
field_of key = find_name all_fields (to_lower key)

find_name_sound :
    (fs : List Field) (key : Str) (f : Field) → find_name fs key ≡ some f → name f ≡ key
unfolding find_name
find_name_sound [] key f h = cc
find_name_sound (g ∷ fs) key f h = elim (Bool-cases (str_eq (name g) key)) [
  | inl same ↦ ground (arith, str_eq→eq (name g) key)
  | inr other ↦ find_name_sound fs key f (ground arith)
]

-- Every constant is recognised as itself.
pub field_of-name : (f : Field) → field_of (name f) ≡ some f
unfolding field_of name to_lower str_eq
field_of-name bucket_id = refl
field_of-name f = refl

-- A recognised key is the constant's value, up to case.
pub field_of_sound : (key : Str) (f : Field) → field_of key ≡ some f → name f ≡ to_lower key
unfolding field_of
field_of_sound key f h = find_name_sound all_fields (to_lower key) f h

pub Field-discrete : Discrete Field
Field-discrete = hlevel
