-- ===== src/Plugin/Node/Publish.antt =====
-- The node server of plugin/kodo_node_server.go over the connector.
use kubernetes_csi_driver.Base.{
  ◌≡◌, ◌≢◌, All, ◌++◌, ap, sym, ◌∙◌, true, [], ◌∷◌, Result, ok, Result-cases, Bool-cases, err-ne-ok,
  inl, inr, ◌⊎◌,
}
use kubernetes_csi_driver.Base.Integers.{ℤ, is_zero}
use kubernetes_csi_driver.Text.{Str, lit, is_blank}
use kubernetes_csi_driver.Protocol.{InitKodoMountCmd}
use kubernetes_csi_driver.Connector.{run}
use kubernetes_csi_driver.Plugin.Values.{GoLib}
use kubernetes_csi_driver.Plugin.Kodo.{KodoService, KodoPvParameter, parse_kodo_pv}
use kubernetes_csi_driver.Plugin.Mount.{Decoders, MountError, exit_result, kodo_loop, kodo_command}
use kubernetes_csi_driver.Connector.Streams.{Traffic, Moves, started, finished, torn}
use kubernetes_csi_driver.Plugin.Mount.Heard.{
  Replies, heard, remainder, end_of, exits, IsHeard, session_verdict,
}
use kubernetes_csi_driver.Plugin.Node.Server.{NodeRequest, node_publish}

exit_result-eq-ok : (code : ℤ) → exit_result code ≡ ok tt → is_zero code ≡ true
exit_result-eq-ok code h = elim (Bool-cases (is_zero code)) [
  | inl zero ↦ zero
  | inr other ↦ absurd (err-ne-ok (rw other at h))
]

module _ {Url Duration E : Type 0} (go : GoLib Url Duration) (service : KodoService Url E)
    (directory_created : Str → Result E (Unit {0})) where
  publish_mounts :
      (mounted : InitKodoMountCmd → Result MountError (Unit {0})) (r : NodeRequest)
      → node_publish go service directory_created mounted r ≡ ok tt
      → (p : KodoPvParameter Url Duration) × (parse_kodo_pv go
            (lit "NodePublishVolume")
            service
            r.context
            r.secrets
          ≡ ok p)
        × (mounted (kodo_command go r.volume_id r.target_path p) ≡ ok tt)
  unfolding node_publish
  publish_mounts mounted r h = elim (Bool-cases (is_blank r.target_path)) [
    | inl blank ↦ absurd (err-ne-ok (rw (blank, node_publish) at h))
    | inr given ↦
        elim (Result-cases
          (parse_kodo_pv go (lit "NodePublishVolume") service r.context r.secrets)) [
            | inr (e, bad) ↦ absurd (err-ne-ok (rw (given, bad, node_publish) at h))
            | inl (p, good) ↦ elim (Result-cases (directory_created r.target_path)) [
              | inr (e, bad) ↦ absurd (err-ne-ok (rw (given, good, bad, node_publish) at h))
              | inl (_, made) ↦
                  elim (Result-cases (mounted (kodo_command go r.volume_id r.target_path p))) [
                    | inr (e, bad) ↦
                        absurd (err-ne-ok (rw (given, good, made, bad, node_publish) at h))
                    | inl (_, done) ↦ (p, good, done)
                  ]
            ]
          ]
  ]

  -- `s` is the traffic of the session in which the connector has run the process of a mount, however
  -- its goroutines took turns, and the process has ended with an exit code. If NodePublishVolume
  -- succeeds with what was sent then, its parameters were readable, and the exit code is 0; or the
  -- exit code did not reach the plugin, since the connector could not write it or the session was
  -- closed before, and no part of a message was left on the connection. The hypothesis on JSON is that
  -- the plugin decodes what the connector encoded.
  pub node_publish_verdict :
      (json : Decoders) (replies : Replies) (s : Traffic) (code : ℤ) (r : NodeRequest)
      → Moves started s
      → s.runner ≡ finished code
      → All (IsHeard json replies) s.delivered
      → node_publish go service directory_created
          (λ c. kodo_loop json (heard replies s.delivered ++ remainder s.link))
          r
        ≡ ok tt
      → ((is_zero code ≡ true)
          ⊎ ((exits s.delivered ≡ [])
              × ((exits s.lost ≡ code ∷ []) ⊎ (s.is_closed ≡ true))
              × (s.link ≢ torn)))
        × ((p : KodoPvParameter Url Duration) × (parse_kodo_pv go
                (lit "NodePublishVolume")
                service
                r.context
                r.secrets
              ≡ ok p))
  unfolding end_of
  node_publish_verdict json replies s code r run ended laws h =
      let (p, good, done) = publish_mounts _ r h in
      (
        elim (session_verdict json replies s code run ended laws) [
          | inl (_, reported) ↦ inl (exit_result-eq-ok code (sym reported ∙ done))
          | inr (silent, why, reported) ↦
              inr (silent, why, λ broken. err-ne-ok (sym (ap end_of broken) ∙ sym reported ∙ done))
        ],
        (p, good),
      )
