-- ===== src/Tests/Kodofs.antt =====
-- The parameters of a KodoFS volume.
use kubernetes_csi_driver.Base.{◌<◌, ◌≡◌, ◌≢◌, refl, true, [], ◌∷◌, none, some, ok, err, range_loop}
use kubernetes_csi_driver.Text.{
  Str, lit, str_eq, trim_space, trim_left, is_space, is_blank, to_lower, parse_uint,
}
use kubernetes_csi_driver.Plugin.Fields.{name, field_of, fs_type, mount_server_address}
use kubernetes_csi_driver.Plugin.Values.{StrMap, lookup, parse_url, want_url, invalid}
use kubernetes_csi_driver.Plugin.Values
use kubernetes_csi_driver.Plugin.Kodofs.{
  KodofsStorageClassParameter, zero_kodofs_class, assign_kodofs, assign_kodofs_entry, number_of,
  text_or_ignore, url_or_ignore, default_block_size, complete_kodofs, parse_kodofs_class,
  parse_kodofs_pv,
}
use kubernetes_csi_driver.Plugin.Kodofs.Bounds.{IsSized, parse_kodofs_class-IsSized}
use kubernetes_csi_driver.Plugin.Kodofs.Slips.{parse_kodofs_pv_refuses}
use kubernetes_csi_driver.Tests.Volumes.{go}

abbrev context : StrMap
context = (lit "mntsvraddr", lit "m") ∷ (lit "region", lit "z0") ∷ []

abbrev class : KodofsStorageClassParameter Str
class = record zero_kodofs_class {
  mount_server_address = some (lit "m");
  region = lit "z0";
  block_size = 4194304;
}

context_read : parse_kodofs_class go (lit "f") context [] true ≡ ok class
unfolding parse_kodofs_class complete_kodofs assign_kodofs_entry assign_kodofs text_or_ignore
    url_or_ignore default_block_size range_loop field_of str_eq name to_lower trim_space trim_left
    is_space is_blank lookup want_url parse_url
context_read = refl

parse_kodofs_class-IsSized_example : IsSized class × (0 < 4194304)
parse_kodofs_class-IsSized_example =
    parse_kodofs_class-IsSized go (lit "f") context [] true class context_read

-- An address, and a type that is no number.
abbrev bad_type : StrMap
bad_type = (lit "mntsvraddr", lit "m") ∷ (lit "fstype", lit "x") ∷ []

bad_type_read :
    parse_kodofs_class go (lit "f") bad_type [] true ≡ err (invalid (lit "f") fs_type (lit "x"))
unfolding parse_kodofs_class assign_kodofs_entry assign_kodofs range_loop field_of str_eq name
    to_lower number_of Values.parse_uint parse_uint trim_space trim_left is_space want_url parse_url
bad_type_read = refl

nothing_secret : lookup (name mount_server_address) [] ≡ none
unfolding lookup
nothing_secret = refl

parse_kodofs_pv_refuses_example :
    parse_kodofs_pv go (lit "f") bad_type []
    ≢ ok (record { class = class; gateway_id = []; access_token = []; access_point_id = [] })
parse_kodofs_pv_refuses_example =
    parse_kodofs_pv_refuses go (lit "f") bad_type [] (invalid (lit "f") fs_type (lit "x"))
      (record { class = class; gateway_id = []; access_token = []; access_point_id = [] })
      bad_type_read nothing_secret
