-- ===== src/Tests/Keys.antt =====
-- protocol/utils.go at concrete keys.
use kubernetes_csi_driver.Base.{◌≡◌, refl}
use kubernetes_csi_driver.Text.{lit, has_suffix, trim_prefix}
use kubernetes_csi_driver.Protocol.{normalize_dir_key}

normalize_dir_key_test : normalize_dir_key (lit "/a/b") ≡ lit "a/b/"
unfolding normalize_dir_key has_suffix trim_prefix
normalize_dir_key_test = refl
