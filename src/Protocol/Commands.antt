-- ===== src/Protocol/Commands.antt =====
-- The `ExecCommand` methods of protocol/kodo_cmd.go and protocol/kodofs_cmd.go.
use kubernetes_csi_driver.Base.{ℕ, Bool, List, [], ◌∷◌, ◌++◌, Option, none, some, if◌then◌else◌}
use kubernetes_csi_driver.Text.{Str, lit, format_uint, is_blank}
use kubernetes_csi_driver.Protocol.Messages.{
  InitKodoMountCmd, InitKodofsMountCmd, rclone_path, kodofs_path,
}
use kubernetes_csi_driver.Protocol.Utils.{
  ExecCmd, exec_on_systemd, format_byte_size, normalize_dir_key,
}

-- The values that the connector puts into the context.
pub record ExecContext : Type 0 where
  pub config_file_path : Str
  pub user_agent : Str
  pub log_file_path : Str
  pub cache_dir_path : Str

-- `if c.X != nil { flags = append(flags, "--…", format(*c.X)) }`
unfoldable pub size_flag : Str → Option ℕ → List Str
size_flag flag none = []
size_flag flag (some n) = flag ∷ format_byte_size n ∷ []

unfoldable pub number_flag : Str → Option ℕ → List Str
number_flag flag none = []
number_flag flag (some n) = flag ∷ format_uint n ∷ []

-- `if c.X != "" { flags = append(flags, "--…", c.X) }`
unfoldable pub text_flag : Str → Str → List Str
text_flag flag value = if is_blank value then [] else flag ∷ value ∷ []

-- `if c.X { flags = append(flags, …) }`
unfoldable pub switch_flag : List Str → Bool → List Str
switch_flag flags b = if b then flags else []

unfoldable pub command_flags : InitKodoMountCmd → ExecContext → List Str
command_flags c ctx =
    lit "--auto-confirm"
    ∷ lit "--config"
    ∷ ctx.config_file_path
    ∷ lit "--user-agent"
    ∷ (ctx.user_agent ++ (lit "/" ++ c.volume_id))
    ∷ lit "--log-file"
    ∷ ctx.log_file_path
    ∷ (size_flag (lit "--buffer-size") c.buffer_size
        ++ (number_flag (lit "--transfers") c.transfers
            ++ switch_flag (lit "--verbose" ∷ lit "--dump" ∷ lit "headers" ∷ []) c.debug_http))

unfoldable pub mount_flags : InitKodoMountCmd → ExecContext → List Str
mount_flags c ctx =
    lit "--daemon"
    ∷ lit "--cache-dir"
    ∷ ctx.cache_dir_path
    ∷ (text_flag (lit "--dir-cache-time") c.dir_cache_duration
        ++ (text_flag (lit "--vfs-cache-mode") c.vfs_cache_mode
            ++ (text_flag (lit "--vfs-cache-max-age") c.vfs_cache_max_age
                ++ (size_flag (lit "--vfs-cache-max-size") c.vfs_cache_max_size
                    ++ (text_flag (lit "--vfs-cache-poll-interval") c.vfs_cache_poll_interval
                        ++ (size_flag (lit "--vfs-read-ahead") c.vfs_read_ahead
                            ++ (switch_flag (lit "--vfs-fast-fingerprint" ∷ [])
                                  c.vfs_fast_finger_print
                                ++ (text_flag (lit "--vfs-write-back") c.vfs_write_back
                                    ++ (size_flag (lit "--vfs-read-chunk-size")
                                          c.vfs_read_chunk_size
                                        ++ (size_flag (lit "--vfs-read-chunk-size-limit")
                                              c.vfs_read_chunk_size_limit
                                            ++ (switch_flag (lit "--no-checksum" ∷ [])
                                                  c.no_check_sum
                                                ++ (switch_flag (lit "--no-modtime" ∷ [])
                                                      c.no_mod_time
                                                    ++ (switch_flag (lit "--no-seek" ∷ []) c.no_seek
                                                        ++ (switch_flag (lit "--read-only" ∷ [])
                                                            c.read_only
                                                            ++ (text_flag (lit "--vfs-read-wait")
                                                            c.vfs_read_wait
                                                            ++ (text_flag (lit "--vfs-write-wait")
                                                            c.vfs_write_wait
                                                            ++ (size_flag
                                                            (lit "--vfs-disk-space-total-size")
                                                            c.vfs_disk_space_total_size
                                                            ++ (switch_flag
                                                            (lit "--write-back-cache" ∷ [])
                                                            c.write_back_cache
                                                            ++ (switch_flag
                                                            (lit "--debug-fuse" ∷ [])
                                                            c.debug_fuse)))))))))))))))))))

-- The arguments of rclone.
unfoldable pub rclone_args : InitKodoMountCmd → ExecContext → List Str
rclone_args c ctx =
    command_flags c ctx
    ++ (lit "mount"
        ∷ (mount_flags c ctx
            ++ ((c.volume_id
                  ++ (lit ":" ++ (c.bucket_id ++ (lit "/" ++ normalize_dir_key c.sub_dir))))
                ∷ c.mount_path
                ∷ [])))

-- `InitKodoMountCmd.ExecCommand`; `random` is the name that `randomName(8)` draws.
unfoldable pub exec_kodo : InitKodoMountCmd → ExecContext → Str → ExecCmd
exec_kodo c ctx random =
    if c.may_run_on_systemd
    then exec_on_systemd
        (lit "run-kodo-rclone-" ++ (c.volume_id ++ (lit "-" ++ (random ++ lit ".service"))))
        rclone_path (rclone_args c ctx)
    else record { program = rclone_path; args = rclone_args c ctx }

unfoldable pub kodofs_args : InitKodofsMountCmd → List Str
kodofs_args c =
    lit "mount" ∷ c.gateway_id ∷ c.mount_path ∷ lit "-s" ∷ c.sub_dir ∷ lit "--force_reinit" ∷ []

-- `InitKodoFSMountCmd.ExecCommand`
unfoldable pub exec_kodofs : InitKodofsMountCmd → Str → ExecCmd
exec_kodofs c random =
    if c.may_run_on_systemd
    then exec_on_systemd
        (lit "run-kodofs-" ++ (c.volume_id ++ (lit "-" ++ (random ++ lit ".service")))) kodofs_path
        (kodofs_args c)
    else record { program = kodofs_path; args = kodofs_args c }
