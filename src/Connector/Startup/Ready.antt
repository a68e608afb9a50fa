-- ===== src/Connector/Startup/Ready.antt =====
-- About the start of the connector, main in connector/main.go.
use mathlib.Core.Path.{subst}
use kubernetes_csi_driver.Base.{
  ◌≡◌, ◌⊎◌, ◌↔◌, refl, arith, sym, ap, ◌∙◌, false, Result, ok, err, >>=-eq-ok, Bool-cases, inl, inr,
  ok-injective, err-ne-ok,
}
use kubernetes_csi_driver.Text.{Str, lit}
use kubernetes_csi_driver.Connector.Files.{
  FileStat, absent, stat_failed, is_directory, is_file, outcome_of, ensure_directory_exists,
  ensure_file_not_exists,
}
use kubernetes_csi_driver.Protocol.{kodofs_path, rclone_path}
use kubernetes_csi_driver.Connector.Startup.{
  Host, require_passed, rclone_dir, user_log_dir, Build, Serving, log_file, pid_file, socket_path,
  require_ok, require_directory, require_no_file, require_command, user_agent, check_host, serve,
  start_connector,
}

-- What the check of a directory and that of a file say of the system.
require_passed-directory :
    {E : Type 0} (st : FileStat E) (made : Result E (Unit {0}))
    → (require_passed (ensure_directory_exists st made) ≡ ok tt)
      ↔ ((st ≡ is_directory) ⊎ ((st ≡ absent) × (made ≡ ok tt)))
unfolding require_passed ensure_directory_exists outcome_of
require_passed-directory absent (ok _) = (λ h. inr (refl, refl), λ h. refl)
require_passed-directory absent (err e) = (λ h. absurd (ground arith), λ h. absurd (ground arith))
require_passed-directory (stat_failed e) made =
    (λ h. absurd (ground arith), λ h. absurd (ground arith))
require_passed-directory is_directory made = (λ h. inl refl, λ h. refl)
require_passed-directory is_file made = (λ h. absurd (ground arith), λ h. absurd (ground arith))

require_passed-file :
    {E : Type 0} (st : FileStat E) (removed : Result E (Unit {0}))
    → (require_passed (ensure_file_not_exists st removed) ≡ ok tt)
      ↔ ((st ≡ absent) ⊎ (removed ≡ ok tt))
unfolding require_passed ensure_file_not_exists outcome_of
require_passed-file absent removed = (λ h. inl refl, λ h. refl)
require_passed-file (stat_failed e) (ok _) = (λ h. inr refl, λ h. refl)
require_passed-file (stat_failed e) (err x) =
    (λ h. absurd (ground arith), λ h. absurd (ground arith))
require_passed-file is_directory (ok _) = (λ h. inr refl, λ h. refl)
require_passed-file is_directory (err x) = (λ h. absurd (ground arith), λ h. absurd (ground arith))
require_passed-file is_file (ok _) = (λ h. inr refl, λ h. refl)
require_passed-file is_file (err x) = (λ h. absurd (ground arith), λ h. absurd (ground arith))

module _ {E : Type 0} (undefined : Str → E) (host : Host E) where
  -- The path is a directory, or nothing and can be made one.
  abbrev pub IsThere : Str → Type 0
  IsThere path =
      (host.stat path ≡ is_directory) ⊎ ((host.stat path ≡ absent) × (host.made path ≡ ok tt))

  -- No file is in the way, or it can be removed.
  abbrev pub IsFree : Str → Type 0
  IsFree path = (host.stat path ≡ absent) ⊎ (host.removed path ≡ ok tt)

  require_directory_iff :
      (path : Str) → (require_directory undefined host path ≡ ok tt) ↔ IsThere path
  unfolding require_directory
  require_directory_iff path = require_passed-directory (host.stat path) (host.made path)

  require_no_file_iff : (path : Str) → (require_no_file undefined host path ≡ ok tt) ↔ IsFree path
  unfolding require_no_file
  require_no_file_iff path = require_passed-file (host.stat path) (host.removed path)

  require_ok-eq-ok : {A : Type 0} (r : Result E A) (a : A) → require_ok r ≡ ok a → r ≡ ok a
  unfolding require_ok
  require_ok-eq-ok (ok b) a h = ap ok (ok-injective h)
  require_ok-eq-ok (err e) a h = absurd (err-ne-ok h)

  require_command-eq-ok :
      (name : Str)
      → require_command undefined host name ≡ ok tt
      → (path : Str) × (host.look_path name ≡ ok path)
  unfolding require_command
  require_command-eq-ok name h =
      let (path, looked, _) = >>=-eq-ok (require_ok (host.look_path name)) _ h in
      (path, require_ok-eq-ok _ path looked)

  -- The directories of the log, the pid file and the socket, and those for the configurations, the
  -- caches and the logs of rclone are there, the programs were found, and the agent names the version
  -- that rclone printed.
  pub record IsChecked (build : Build) (found : Serving) : Type 0 where
    pub logs : IsThere (host.dir log_file)
    pub pid : IsThere (host.dir pid_file)
    pub socket : IsThere (host.dir socket_path)
    pub config : IsThere found.config_dir
    pub cache : IsThere found.cache_dir
    pub rclone_logs : IsThere found.log_dir
    pub config_at : found.config_dir ≡ rclone_dir undefined host host.user_config_dir (lit "config")
    pub cache_at : found.cache_dir ≡ rclone_dir undefined host host.user_cache_dir (lit "cache")
    pub logs_at :
        found.log_dir ≡ rclone_dir undefined host (user_log_dir undefined host) (lit "log")
    pub kodofs : (path : Str) × (host.look_path kodofs_path ≡ ok path)
    pub rclone : (path : Str) × (host.look_path rclone_path ≡ ok path)
    pub fusermount : (path : Str) × (host.look_path (lit "fusermount3") ≡ ok path)
    pub agent :
        (output : Str) × (host.version_output ≡ ok output)
        × (found.user_agent ≡ user_agent undefined host build output)

  -- The child process listens on a socket that no file stands in the way of.
  pub record IsListening : Type 0 where
    pub child : host.reborn ≡ ok false
    pub directory : IsThere (host.dir socket_path)
    pub free : IsFree socket_path
    pub listens : host.listened socket_path ≡ ok tt

  check_host-IsChecked :
      (build : Build) (found : Serving)
      → check_host undefined host build ≡ ok found
      → IsChecked build found
  unfolding check_host
  check_host-IsChecked build found h =
      let (_, logs, h1) = >>=-eq-ok (require_directory undefined host _) _ h in
      let (_, pid, h2) = >>=-eq-ok (require_directory undefined host _) _ h1 in
      let (_, socket, h3) = >>=-eq-ok (require_directory undefined host _) _ h2 in
      let (_, config, h4) = >>=-eq-ok (require_directory undefined host _) _ h3 in
      let (_, cache, h5) = >>=-eq-ok (require_directory undefined host _) _ h4 in
      let (_, rclone_logs, h6) = >>=-eq-ok (require_directory undefined host _) _ h5 in
      let (_, kodofs, h7) = >>=-eq-ok (require_command undefined host kodofs_path) _ h6 in
      let (_, rclone, h8) = >>=-eq-ok (require_command undefined host rclone_path) _ h7 in
      let (_, fusermount, h9) =
        >>=-eq-ok (require_command undefined host (lit "fusermount3")) _ h8 in
      let (output, printed, h10) = >>=-eq-ok (require_ok host.version_output) _ h9 in
      let made = ok-injective h10 in
      record {
        logs = (require_directory_iff _).0 logs;
        pid = (require_directory_iff _).0 pid;
        socket = (require_directory_iff _).0 socket;
        config = subst (λ s. IsThere s.config_dir) made ((require_directory_iff _).0 config);
        cache = subst (λ s. IsThere s.cache_dir) made ((require_directory_iff _).0 cache);
        rclone_logs = subst (λ s. IsThere s.log_dir) made ((require_directory_iff _).0 rclone_logs);
        config_at = sym (ap (λ s. s.config_dir) made);
        cache_at = sym (ap (λ s. s.cache_dir) made);
        logs_at = sym (ap (λ s. s.log_dir) made);
        kodofs = require_command-eq-ok kodofs_path kodofs;
        rclone = require_command-eq-ok rclone_path rclone;
        fusermount = require_command-eq-ok (lit "fusermount3") fusermount;
        agent = (output, require_ok-eq-ok _ output printed, sym (ap (λ s. s.user_agent) made));
      }

  serve-IsListening :
      (given found : Serving)
      → serve undefined host given ≡ ok found
      → (given ≡ found) × IsListening
  unfolding serve
  serve-IsListening given found h =
      let (parent, forked, h1) = >>=-eq-ok (require_ok host.reborn) _ h in
      elim (Bool-cases parent) [
        | inl is_parent ↦ absurd (err-ne-ok (rw is_parent at h1))
        | inr is_child ↦
            let h2 = rw is_child at h1 in
            let (_, directory, h3) = >>=-eq-ok (require_directory undefined host _) _ h2 in
            let (_, free, h4) = >>=-eq-ok (require_no_file undefined host socket_path) _ h3 in
            let (_, listens, h5) = >>=-eq-ok (require_ok (host.listened socket_path)) _ h4 in
            (
              ok-injective h5,
              record {
                child = require_ok-eq-ok _ parent forked ∙ ap ok is_child;
                directory = (require_directory_iff _).0 directory;
                free = (require_no_file_iff socket_path).0 free;
                listens = require_ok-eq-ok _ tt listens;
              },
            )
      ]

  require_command-there :
      (name path : Str)
      → host.look_path name ≡ ok path
      → require_command undefined host name ≡ ok tt
  unfolding require_command require_ok
  require_command-there name path h = rw (h, require_command, require_ok) refl

  check_host-serves :
      (build : Build) (found : Serving)
      → IsChecked build found
      → check_host undefined host build ≡ ok found
  unfolding check_host require_ok user_agent
  check_host-serves build found c =
      let (output, printed, agent) = c.agent in
      rw
        (
          check_host,
          ← c.config_at,
          ← c.cache_at,
          ← c.logs_at,
          (require_directory_iff _).1 c.logs,
          (require_directory_iff _).1 c.pid,
          (require_directory_iff _).1 c.socket,
          (require_directory_iff _).1 c.config,
          (require_directory_iff _).1 c.cache,
          (require_directory_iff _).1 c.rclone_logs,
          require_command-there kodofs_path c.kodofs.0 c.kodofs.1,
          require_command-there rclone_path c.rclone.0 c.rclone.1,
          require_command-there (lit "fusermount3") c.fusermount.0 c.fusermount.1,
          printed,
          ← agent,
        )
        refl

  serve-listens : (found : Serving) → IsListening → serve undefined host found ≡ ok found
  unfolding serve require_ok require_directory require_no_file
  serve-listens found l =
      rw
        (
          l.child,
          (require_directory_iff _).1 l.directory,
          (require_no_file_iff socket_path).1 l.free,
          l.listens,
        )
        refl

  ready :
      (build : Build) (found : Serving)
      → start_connector undefined host build ≡ ok found
      → (build.is_test ≡ false) × IsChecked build found × IsListening
  unfolding start_connector
  ready build found h =
      let (given, checked, h1) = >>=-eq-ok (check_host undefined host build) _ h in
      elim (Bool-cases build.is_test) [
        | inl test ↦ absurd (err-ne-ok (rw test at h1))
        | inr real ↦
            let (same, listening) = serve-IsListening given found (rw real at h1) in
            (
              real,
              subst (IsChecked build) same (check_host-IsChecked build given checked),
              listening,
            )
      ]

  -- Main begins to serve exactly if it was not started as a test, the directories of its log, its pid
  -- file and its socket and those for the configurations, the caches and the logs of rclone are there
  -- or can be made, kodofs, rclone and fusermount3 are found, rclone prints its version, this is the
  -- child process, and nothing is in the way of the socket, on which it can listen. It serves with
  -- these directories and with the agent that names the version.
  pub start_connector_ready :
      (build : Build) (found : Serving)
      → (start_connector undefined host build ≡ ok found)
        ↔ ((build.is_test ≡ false) × IsChecked build found × IsListening)
  unfolding start_connector
  start_connector_ready build found = (
    ready build found,
    λ (real, checked, listening).
        rw (check_host-serves build found checked, real) (serve-listens found listening),
  )
