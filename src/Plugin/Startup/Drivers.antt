-- ===== src/Plugin/Startup/Drivers.antt =====
-- About the start of the plugin, main in plugin/main.go.
use mathlib.Core.Path.{subst}
use kubernetes_csi_driver.Base.{
  ◌≡◌, refl, sym, ◌⊎◌, inl, inr, true, false, Option, none, some, ok, >>=-eq-ok, Bool-cases,
  Result-cases, ok-injective, err-ne-ok,
}
use kubernetes_csi_driver.Base.Integers.{ℤ, is_zero}
use kubernetes_csi_driver.Text.{Str, lit, str_eq, str_eq→eq}
use kubernetes_csi_driver.Plugin.Node.Mounts.{ensure_directory_created}
use kubernetes_csi_driver.Plugin.Startup.{
  kodo_driver_name, kodofs_driver_name, Driver, new_kodo_driver, new_kodofs_driver, Flags,
  PluginHost, Started, port_of, check_driver_name, check_log, check_umount, check_directory,
  check_endpoint, new_driver, start_plugin,
}

-- The driver is that of its name.
abbrev pub IsNamed : Flags → Str → Driver → Type 0
IsNamed flags version d =
    ((flags.driver_name ≡ kodo_driver_name)
      × (d ≡ new_kodo_driver flags.node_id flags.endpoint version))
    ⊎ ((flags.driver_name ≡ kodofs_driver_name)
        × (d ≡ new_kodofs_driver flags.node_id flags.endpoint version))

-- The port is that of the environment, or else that of the flag.
abbrev pub IsPortOf : Option ℤ → ℤ → ℤ → Type 0
IsPortOf given health_port port =
    ((given ≡ some port) × (is_zero port ≡ false))
    ⊎ ((port ≡ health_port)
        × ((given ≡ none) ⊎ ((zero : ℤ) × (given ≡ some zero) × (is_zero zero ≡ true))))

port_of-IsPortOf :
    (given : Option ℤ) (health_port : ℤ) → IsPortOf given health_port (port_of given health_port)
unfolding port_of
port_of-IsPortOf none health_port = inr (refl, inl refl)
port_of-IsPortOf (some port) health_port = elim (Bool-cases (is_zero port)) [
  | inl zero ↦ inr (rw zero refl, inr (port, refl, zero))
  | inr other ↦ rw other (inl (refl, other))
]

module _ {E : Type 0} (host : PluginHost E) where
  new_driver-IsNamed :
      (flags : Flags) (version : Str) (d : Driver)
      → new_driver host flags version ≡ ok d
      → IsNamed flags version d
  unfolding new_driver
  new_driver-IsNamed flags version d h =
      elim (Bool-cases (str_eq flags.driver_name kodo_driver_name)) [
        | inl kodo ↦ inl (str_eq→eq _ _ kodo, sym (ok-injective (rw kodo at h)))
        | inr other ↦ elim (Bool-cases (str_eq flags.driver_name kodofs_driver_name)) [
          | inl kodofs ↦ inr (str_eq→eq _ _ kodofs, sym (ok-injective (rw (other, kodofs) at h)))
          | inr unknown ↦ absurd (err-ne-ok (rw (other, unknown) at h))
        ]
      ]

  -- The endpoint could be read, and the directory of a Unix socket is there.
  abbrev pub IsReachable : Str → Type 0
  IsReachable endpoint =
      (proto : Str) × (addr : Str) × (host.parse_endpoint endpoint ≡ ok (proto, addr))
      × ((str_eq proto (lit "unix") ≡ false)
          ⊎ (ensure_directory_created (host.stat (host.dir addr)) (host.made (host.dir addr))
              ≡ ok tt))

  check_directory-eq-ok :
      (path : Str)
      → check_directory host path ≡ ok tt
      → ensure_directory_created (host.stat path) (host.made path) ≡ ok tt
  unfolding check_directory
  check_directory-eq-ok path h =
      elim (Result-cases (ensure_directory_created (host.stat path) (host.made path))) [
        | inl (_, made) ↦ made
        | inr (e, bad) ↦ absurd (err-ne-ok (rw (bad, check_directory) at h))
      ]

  check_endpoint-IsReachable :
      (endpoint : Str) → check_endpoint host endpoint ≡ ok tt → IsReachable endpoint
  unfolding check_endpoint
  check_endpoint-IsReachable endpoint h = elim (Result-cases (host.parse_endpoint endpoint)) [
    | inr (e, bad) ↦ absurd (err-ne-ok (rw (bad, check_endpoint) at h))
    | inl ((proto, addr), read) ↦ elim (Bool-cases (str_eq proto (lit "unix"))) [
      | inr other ↦ (proto, addr, read, inl other)
      | inl local ↦ (
        proto,
        addr,
        read,
        inr (check_directory-eq-ok (host.dir addr) (rw (read, local, check_endpoint) at h)),
      )
    ]
  ]

  check_umount-eq-ok :
      check_umount host ≡ ok tt → (path : Str) × (host.look_path (lit "umount") ≡ ok path)
  unfolding check_umount
  check_umount-eq-ok h = elim (Result-cases (host.look_path (lit "umount"))) [
    | inl (path, looked) ↦ (path, looked)
    | inr (e, missing) ↦ absurd (err-ne-ok (rw (missing, check_umount) at h))
  ]

  -- A plugin that starts runs the driver of its name, kodo or kodofs and no other, with its own
  -- type of plugin and servers; umount was found, the endpoint could be read and the directory of a
  -- Unix socket is there; the port of the health check is that of SERVICE_PORT if this is a number
  -- other than 0, or that of the flag.
  pub start_plugin_serves :
      (flags : Flags) (version : Str) (s : Started)
      → start_plugin host flags version ≡ ok s
      → IsNamed flags version s.driver
        × ((path : Str) × (host.look_path (lit "umount") ≡ ok path))
        × IsReachable flags.endpoint
        × IsPortOf (host.atoi host.service_port) flags.health_port s.port
  unfolding start_plugin
  start_plugin_serves flags version s h =
      let (_, _, h1) = >>=-eq-ok (check_driver_name host flags.driver_name) _ h in
      let (_, _, h2) = >>=-eq-ok (check_log host flags.driver_name) _ h1 in
      let (_, found, h3) = >>=-eq-ok (check_umount host) _ h2 in
      let (_, reachable, h4) = >>=-eq-ok (check_endpoint host flags.endpoint) _ h3 in
      let (d, new, h5) = >>=-eq-ok (new_driver host flags version) _ h4 in
      let same = ok-injective h5 in
      (
        subst (λ t. IsNamed flags version t.driver) same (new_driver-IsNamed flags version d new),
        check_umount-eq-ok found,
        check_endpoint-IsReachable flags.endpoint reachable,
        subst (λ t. IsPortOf (host.atoi host.service_port) flags.health_port t.port) same
            (port_of-IsPortOf (host.atoi host.service_port) flags.health_port),
      )
