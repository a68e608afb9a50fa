-- ===== src/Plugin/Kodofs/Parameters.antt =====
-- plugin/kodofs_parameters.go.
use kubernetes_csi_driver.Base.{
  ℕ, ◌%◌, ◌^◌, Bool, true, [], ◌∷◌, Option, none, some, if◌then◌else◌, Result, ok, err, ◌>>=◌, ◌==◌,
  range_loop,
}
use kubernetes_csi_driver.Text.{Str, trim_space, is_blank}
use kubernetes_csi_driver.Plugin.Fields.{
  Field, field_of, name, gateway_id, access_point_id, access_token, mount_server_address,
  access_key, secret_key, master_server_address, region, fs_type, block_size,
}
use kubernetes_csi_driver.Plugin.Values.{
  GoLib, ParseError, invalid, is_empty, StrMap, lookup, parse_uint, want_url, text_or_fail,
}

pub record KodofsStorageClassParameter (Url : Type 0) : Type 0 where
  pub access_key : Str
  pub secret_key : Str
  pub mount_server_address : Option Url
  pub master_server_address : Option Url
  pub region : Str
  -- `uint8` and `uint32`
  pub fs_type : ℕ
  pub block_size : ℕ

abbrev pub zero_kodofs_class : {Url : Type 0} → KodofsStorageClassParameter Url
zero_kodofs_class = record {
  access_key = [];
  secret_key = [];
  mount_server_address = none;
  master_server_address = none;
  region = [];
  fs_type = 0;
  block_size = 0;
}

pub record KodofsPvParameter (Url : Type 0) : Type 0 where
  pub class : KodofsStorageClassParameter Url
  pub gateway_id : Str
  pub access_token : Str
  pub access_point_id : Str

-- A number whose error quotes the value.
unfoldable pub number_of : Str → Field → Str → Result ParseError ℕ
number_of fn f value = elim (parse_uint value) [ err _ ↦ err (invalid fn f value) | ok n ↦ ok n ]

-- `if p.blockSize == 0 { p.blockSize = 1 << 22 }`
unfoldable pub default_block_size : ℕ → ℕ
default_block_size n = if n == 0 then 4194304 else n

-- The switch of parseKodoFSPvParameter.
unfoldable pub assign_kodofs_pv :
    {Url : Type 0} → Field → Str → KodofsPvParameter Url → KodofsPvParameter Url
assign_kodofs_pv gateway_id value p = record p { gateway_id = trim_space value }
assign_kodofs_pv access_point_id value p = record p { access_point_id = trim_space value }
assign_kodofs_pv access_token value p = record p { access_token = trim_space value }
assign_kodofs_pv _ value p = p

unfoldable pub assign_kodofs_pv_all :
    {Url : Type 0} → StrMap → KodofsPvParameter Url → KodofsPvParameter Url
assign_kodofs_pv_all [] p = p
assign_kodofs_pv_all ((key, value) ∷ ctx) p = elim (field_of key) [
  | none ↦ assign_kodofs_pv_all ctx p
  | some f ↦ assign_kodofs_pv_all ctx (assign_kodofs_pv f value p)
]

-- The error of the parameters of the class is dropped, and with it all of them.
unfoldable pub class_or_zero :
    {Url : Type 0}
    → Result ParseError (KodofsStorageClassParameter Url)
    → KodofsStorageClassParameter Url
class_or_zero (err _) = zero_kodofs_class
class_or_zero (ok p) = p

module _ {Url Duration : Type 0} (go : GoLib Url Duration) (fn : Str) where
  -- The switch of parseKodoFSStorageClassParameter; the two numbers are truncated.
  unfoldable pub assign_kodofs :
      Field
      → Str
      → KodofsStorageClassParameter Url
      → Result ParseError (KodofsStorageClassParameter Url)
  assign_kodofs access_key value p = ok (record p { access_key = trim_space value })
  assign_kodofs secret_key value p = ok (record p { secret_key = trim_space value })
  assign_kodofs mount_server_address value p = do
    u ← want_url go fn mount_server_address value
    ok (record p { mount_server_address = some u })
  assign_kodofs master_server_address value p = do
    u ← want_url go fn master_server_address value
    ok (record p { master_server_address = some u })
  assign_kodofs region value p = ok (record p { region = trim_space value })
  assign_kodofs fs_type value p = do
    n ← number_of fn fs_type value
    ok (record p { fs_type = n % 2 ^ 8 })
  assign_kodofs block_size value p = do
    n ← number_of fn block_size value
    ok (record p { block_size = n % 2 ^ 32 })
  assign_kodofs _ value p = ok p

  unfoldable pub assign_kodofs_entry :
      Str × Str
      → KodofsStorageClassParameter Url
      → Result ParseError (KodofsStorageClassParameter Url)
  assign_kodofs_entry (key, value) p = elim (field_of key) [
    | none ↦ ok p
    | some f ↦ assign_kodofs f value p
  ]

  -- A text and a URL that may come from the secrets; without them they are an error, unless the
  -- secrets are ignored.
  unfoldable pub text_or_ignore : Bool → Field → StrMap → Str → Result ParseError Str
  text_or_ignore ignore f secrets current =
      if is_blank current
      then elim (lookup (name f) secrets) [
        | some value ↦ ok (trim_space value)
        | none ↦ if ignore then ok current else err (is_empty fn (name f))
      ]
      else ok current

  unfoldable pub url_or_ignore : Bool → Field → StrMap → Option Url → Result ParseError (Option Url)
  url_or_ignore ignore f secrets (some u) = ok (some u)
  url_or_ignore ignore f secrets none = elim (lookup (name f) secrets) [
    | some value ↦ (do u ← want_url go fn f value; ok (some u))
    | none ↦ if ignore then ok none else err (is_empty fn (name f))
  ]

  -- What follows the loop.
  unfoldable pub complete_kodofs :
      StrMap
      → Bool
      → KodofsStorageClassParameter Url
      → Result ParseError (KodofsStorageClassParameter Url)
  complete_kodofs secrets ignore p = do
    access ← text_or_ignore ignore access_key secrets p.access_key
    secret ← text_or_ignore ignore secret_key secrets p.secret_key
    mount ← url_or_ignore ignore mount_server_address secrets p.mount_server_address
    master ← url_or_ignore ignore master_server_address secrets p.master_server_address
    area ← text_or_ignore ignore region secrets p.region
    ok (record p {
      access_key = access;
      secret_key = secret;
      mount_server_address = mount;
      master_server_address = master;
      region = area;
      block_size = default_block_size p.block_size;
    })

  -- `parseKodoFSStorageClassParameter`
  unfoldable pub parse_kodofs_class :
      StrMap → StrMap → Bool → Result ParseError (KodofsStorageClassParameter Url)
  parse_kodofs_class ctx secrets ignore = do
    p ← range_loop assign_kodofs_entry ctx zero_kodofs_class
    complete_kodofs secrets ignore p

  -- The address; the error of its absence has its two texts swapped.
  unfoldable pub mount_address : StrMap → Option Url → Result ParseError Url
  mount_address secrets (some u) = ok u
  mount_address secrets none = elim (lookup (name mount_server_address) secrets) [
    | some value ↦ want_url go fn mount_server_address value
    | none ↦ err (is_empty (name mount_server_address) fn)
  ]

  -- `parseKodoFSPvParameter`
  unfoldable pub parse_kodofs_pv : StrMap → StrMap → Result ParseError (KodofsPvParameter Url)
  parse_kodofs_pv ctx secrets = do
    let p = assign_kodofs_pv_all ctx (record {
      class = class_or_zero (parse_kodofs_class ctx [] true);
      gateway_id = [];
      access_token = [];
      access_point_id = [];
    })
    gateway ← text_or_fail fn gateway_id secrets p.gateway_id
    mount ← mount_address secrets p.class.mount_server_address
    token ← text_or_fail fn access_token secrets p.access_token
    let class = p.class
    ok (record p {
      class = record class { mount_server_address = some mount };
      gateway_id = gateway;
      access_token = token;
    })
