-- ===== src/Connector/Streams/Crash.antt =====
-- About the end of a session in connector/main.go while its goroutines send.
use kubernetes_csi_driver.Base.{refl, true, false, [], ◌∷◌}
use kubernetes_csi_driver.Text.{Str}
use kubernetes_csi_driver.Connector.Streams.{
  has_read, sending, Traffic, started, reader, with_reader, write, read, keep, leave, close_channel,
  Moves, stay, go_on, Panics, reader_panics,
}

abbrev begun : Str → Traffic
begun x = record started { written = x ∷ []; unread = x ∷ [] }

-- The process writes, and a reader passes the test of isClosed.
sending_run : (x : Str) → Moves started (record (begun x) { unread = []; out_reader = sending x })
unfolding started reader with_reader
sending_run x =
    let taken = record (begun x) { unread = []; out_reader = has_read x } in
    go_on _ taken _
      (go_on _ (begun x) taken
        (go_on _ started (begun x) (stay started) (write started x refl refl))
        (read (begun x) false x [] refl refl))
      (keep taken false x refl refl)

-- Whatever the process writes first, the session can end so that a reader sends it on the closed
-- channel, which is a panic of the whole connector.
pub session_crashes : (x : Str) → (s : Traffic) × Moves started s × Panics s
unfolding started reader
session_crashes x =
    let held = record (begun x) { unread = []; out_reader = sending x } in
    let left = record held { is_closed = true } in
    let closed = record left { channel_closed = true } in
    (
      closed,
      go_on _ left closed (go_on _ held left (sending_run x) (leave held refl))
          (close_channel left refl refl),
      reader_panics false x refl refl,
    )
