-- ===== src/Connector/Configuration.antt =====
-- About the configuration that connector/utils.go writes for rclone.
use kubernetes_csi_driver.Base.{ℕ, ◌++◌, Option, none, some, ◌≡◌, refl}
use kubernetes_csi_driver.Text.{lit, str_eq, format_bool}
use kubernetes_csi_driver.Protocol.{InitKodoMountCmd}
use kubernetes_csi_driver.Connector.Files.{
  ConfigSection, optional_value, size_text, number_text, rclone_section, config_value,
}

-- The optional values at the end of the section, whatever key is asked for.
abbrev optional_values : Option ℕ → Option ℕ → Option ℕ → ConfigSection
optional_values chunk cutoff concurrency =
    optional_value (lit "chunk_size") (size_text chunk)
    ++ (optional_value (lit "upload_cutoff") (size_text cutoff)
        ++ optional_value (lit "upload_concurrency") (number_text concurrency))

optional_values_read :
    (chunk cutoff concurrency : Option ℕ)
    → (config_value (lit "chunk_size") (optional_values chunk cutoff concurrency) ≡ size_text chunk)
      × (config_value (lit "upload_cutoff") (optional_values chunk cutoff concurrency)
          ≡ size_text cutoff)
      × (config_value (lit "upload_concurrency") (optional_values chunk cutoff concurrency)
          ≡ number_text concurrency)
unfolding optional_value size_text number_text config_value str_eq
optional_values_read none none none = (refl, refl, refl)
optional_values_read none none (some k) = (refl, refl, refl)
optional_values_read none (some m) none = (refl, refl, refl)
optional_values_read none (some m) (some k) = (refl, refl, refl)
optional_values_read (some n) none none = (refl, refl, refl)
optional_values_read (some n) none (some k) = (refl, refl, refl)
optional_values_read (some n) (some m) none = (refl, refl, refl)
optional_values_read (some n) (some m) (some k) = (refl, refl, refl)

-- What rclone reads from the section of a volume.
abbrev pub IsWritten : InitKodoMountCmd → Type 0
IsWritten c =
    (config_value (lit "access_key_id") (rclone_section c) ≡ some c.access_key)
    × (config_value (lit "secret_access_key") (rclone_section c) ≡ some c.secret_key)
    × (config_value (lit "region") (rclone_section c) ≡ some c.s3_region)
    × (config_value (lit "endpoint") (rclone_section c) ≡ some c.s3_endpoint)
    × (config_value (lit "storage_class") (rclone_section c) ≡ some c.storage_class)
    × (config_value (lit "force_path_style") (rclone_section c)
        ≡ some (format_bool c.s3_force_path_style))
    × (config_value (lit "chunk_size") (rclone_section c) ≡ size_text c.upload_chunk_size)
    × (config_value (lit "upload_cutoff") (rclone_section c) ≡ size_text c.upload_cutoff)
    × (config_value (lit "upload_concurrency") (rclone_section c)
        ≡ number_text c.upload_concurrency)

-- Every value that a mount depends on is read back from the configuration of the volume: no later
-- entry hides it, and the three limits of an upload are there exactly when the command has them.
pub rclone_section-IsWritten : (c : InitKodoMountCmd) → IsWritten c
unfolding rclone_section config_value str_eq
rclone_section-IsWritten c =
    let (chunk, cutoff, concurrency) =
      optional_values_read c.upload_chunk_size c.upload_cutoff c.upload_concurrency in
    (refl, refl, refl, refl, refl, refl, chunk, cutoff, concurrency)

pub rclone_section-type :
    (c : InitKodoMountCmd) → config_value (lit "type") (rclone_section c) ≡ some (lit "s3")
unfolding rclone_section config_value str_eq
rclone_section-type c = refl
