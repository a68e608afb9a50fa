-- ===== src/Protocol/Utils.antt =====
-- protocol/utils.go.
use kubernetes_csi_driver.Base.{ℕ, List, ◌∷◌, ◌++◌, if◌then◌else◌}
use kubernetes_csi_driver.Text.{Str, lit, format_uint, trim_prefix, has_suffix}

-- An `exec.Cmd`: the program and its arguments.
pub record ExecCmd : Type 0 where
  pub program : Str
  pub args : List Str

-- `execOnSystemd`
unfoldable pub exec_on_systemd : Str → Str → List Str → ExecCmd
exec_on_systemd unit program args = record {
  program = lit "systemd-run";
  args =
      lit "--no-ask-password"
      ∷ (lit "--unit=" ++ unit)
      ∷ lit "--pipe"
      ∷ lit "--service-type=forking"
      ∷ lit "--collect"
      ∷ program
      ∷ args;
}

-- `formatByteSize`
unfoldable pub format_byte_size : ℕ → Str
format_byte_size n = format_uint n ++ lit "b"

-- `normalizeDirKey`
unfoldable pub normalize_dir_key : Str → Str
normalize_dir_key key =
    let rest = trim_prefix key (lit "/") in
    if has_suffix rest (lit "/") then rest else rest ++ lit "/"
