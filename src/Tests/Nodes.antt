-- ===== src/Tests/Nodes.antt =====
-- A volume that is published over a connection that fails.
use kubernetes_csi_driver.Base.{
  ◌≡◌, ◌≢◌, refl, ◌⊎◌, inl, arith, All, ◌++◌, Bool, true, [], ◌∷◌, Result, ok,
}
use kubernetes_csi_driver.Base.Integers.{pos, is_zero}
use kubernetes_csi_driver.Text.{Str, lit, is_blank}
use kubernetes_csi_driver.Protocol.{InitKodoMountCmd}
use kubernetes_csi_driver.Connector.Streams.{
  has_exited, reporting, finished, exit, Traffic, started, down, torn, goes_down, terminate, report,
  close_pipe, exit_fails, Moves, stay, go_on,
}
use kubernetes_csi_driver.Plugin.Kodo.{KodoPvParameter, parse_kodo_pv}
use kubernetes_csi_driver.Plugin.Mount.{MountError, kodo_loop}
use kubernetes_csi_driver.Plugin.Mount.Heard.{heard, remainder, exits, IsHeard}
use kubernetes_csi_driver.Plugin.Node.{NodeRequest, node_publish}
use kubernetes_csi_driver.Plugin.Node.Publish.{node_publish_verdict}
use kubernetes_csi_driver.Tests.Volumes.{go, service, by_name, by_name_parsed}
use kubernetes_csi_driver.Tests.Streams.{json, replies}

abbrev request : NodeRequest
request = record {
  volume_id = lit "pv-1";
  target_path = lit "/mnt";
  context = by_name;
  secrets = [];
}

abbrev make_path : Str → Result Str (Unit {0})
make_path path = ok tt

-- The mount process has ended with 3, and the connection failed when this was sent.
abbrev missed : Traffic
missed = record started {
  pipe_closed = true;
  runner = finished (pos 3);
  lost = exit (record { code = pos 3 }) ∷ [];
  link = down;
}

missed_run : Moves started missed
unfolding started
missed_run =
    let ended = record started { runner = has_exited (pos 3) } in
    let piped = record ended { pipe_closed = true } in
    let telling = record piped { runner = reporting (pos 3) } in
    go_on _ telling missed
      (go_on _ piped telling
        (go_on _ ended piped (go_on _ started ended (stay started) (terminate started (pos 3) refl))
          (close_pipe ended (inl (λ h. ground arith)) refl))
        (report piped (pos 3) refl refl refl))
      (exit_fails telling (pos 3) down refl refl refl goes_down)

abbrev mounted : InitKodoMountCmd → Result MountError (Unit {0})
mounted c = kodo_loop json (heard replies missed.delivered ++ remainder missed.link)

published : node_publish go service make_path mounted request ≡ ok tt
unfolding node_publish is_blank started kodo_loop heard remainder
published = rw (node_publish, by_name_parsed (lit "NodePublishVolume")) refl

no_messages : All (IsHeard json replies) missed.delivered
unfolding started
no_messages = tt

node_publish_verdict_example :
    ((is_zero (pos 3) ≡ true)
      ⊎ ((exits missed.delivered ≡ [])
          × ((exits missed.lost ≡ pos 3 ∷ []) ⊎ (missed.is_closed ≡ true))
          × (missed.link ≢ torn)))
    × ((p : KodoPvParameter Str Bool) × (parse_kodo_pv go
            (lit "NodePublishVolume")
            service
            by_name
            []
          ≡ ok p))
node_publish_verdict_example =
    node_publish_verdict go service make_path json replies missed (pos 3) request missed_run refl
      no_messages published
