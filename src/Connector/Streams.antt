-- ===== src/Connector/Streams.antt =====
-- The goroutines of a session that send to the connection: the readers of the output and the
-- goroutine that runs the process in handleCmd, and the writer of handleConn, in connector/main.go.
pub mod Account
pub mod Crash
use kubernetes_csi_driver.Base.{◌≡◌, ◌≢◌, ◌⊎◌, Bool, true, false, List, [], ◌∷◌, ◌++◌}
use kubernetes_csi_driver.Base.Integers.{ℤ}
use kubernetes_csi_driver.Text.{Str}
use kubernetes_csi_driver.Protocol.{ResponseDataCmd, TerminateCmd}

-- `outputReader`: it waits for `stdout.Read`, has read a chunk, has seen that the session is not
-- closed and sends the chunk, or has returned.
pub data Reader : Type 0 where
  waiting : Reader
  has_read : Str → Reader
  sending : Str → Reader
  ended : Reader

-- The goroutine of `execCmd.Run()`.
pub data Runner : Type 0 where
  running : Runner
  has_exited : ℤ → Runner
  reporting : ℤ → Runner
  finished : ℤ → Runner

-- What is sent on `cmdOut`.
pub data Message : Type 0 where
  output : ResponseDataCmd → Message
  exit : TerminateCmd → Message

-- The connection as its writer has left it: no write failed, one failed, or one failed after a part
-- of its text was sent.
pub data Link : Type 0 where
  up down torn : Link

-- What becomes of the connection when marshalToConn does not send a message: nothing, if the text
-- could not be made or the connection had failed before, or it fails now.
pub data Fails : Link → Link → Type 0 where
  unchanged : (l : Link) → Fails l l
  goes_down : Fails up down
  is_torn : Fails up torn

-- `unread` are the chunks of the standard output that wait in the pipe, `written` those that the
-- process wrote at all, `dropped` those that were read and given up, and `discarded` those that were
-- in the pipe when it was closed; whether the writing side of the pipe is closed, and the reading
-- side; `isClosed`, whether cmdOut is closed, whether the writer of handleConn still receives, the
-- messages that it sent, those that it received and could not send (the last one first), and the
-- connection.
pub record Traffic : Type 0 where
  pub written : List Str
  pub unread : List Str
  pub dropped : List Str
  pub discarded : List Str
  pub at_end : Bool
  pub pipe_closed : Bool
  pub out_reader : Reader
  pub err_reader : Reader
  pub runner : Runner
  pub is_closed : Bool
  pub channel_closed : Bool
  pub received : Bool
  pub delivered : List Message
  pub lost : List Message
  pub link : Link

-- `execCommand` has started the goroutines.
unfoldable pub started : Traffic
started = record {
  written = [];
  unread = [];
  dropped = [];
  discarded = [];
  at_end = false;
  pipe_closed = false;
  out_reader = waiting;
  err_reader = waiting;
  runner = running;
  is_closed = false;
  channel_closed = false;
  received = true;
  delivered = [];
  lost = [];
  link = up;
}

-- The reader with this value of `isError`. Both read the variable `stdout`.
unfoldable pub reader : Bool → Traffic → Reader
reader false s = s.out_reader
reader true s = s.err_reader

unfoldable pub with_reader : Bool → Reader → Traffic → Traffic
with_reader false r s = record s { out_reader = r }
with_reader true r s = record s { err_reader = r }

pub data Move : Traffic → Traffic → Type 0 where
  -- The process, or one that it started, writes to its standard output.
  write :
      (s : Traffic) (x : Str)
      → s.at_end ≡ false
      → s.pipe_closed ≡ false
      → Move s (record s { written = x ∷ s.written; unread = s.unread ++ (x ∷ []) })
  -- Nobody holds the standard output any more.
  close_output : (s : Traffic) → s.at_end ≡ false → Move s (record s { at_end = true })
  -- `execCmd.Run()` after the process has ended, and the deferred function of handleCmd, close the
  -- pipe with what is left in it.
  close_pipe :
      (s : Traffic)
      → (s.runner ≢ running) ⊎ (s.is_closed ≡ true)
      → s.pipe_closed ≡ false
      → Move s (record s { pipe_closed = true; unread = []; discarded = s.unread })
  -- `n, err := stdout.Read(buf)`
  read :
      (s : Traffic) (is_error : Bool) (x : Str) (xs : List Str)
      → reader is_error s ≡ waiting
      → s.unread ≡ x ∷ xs
      → Move s (with_reader is_error (has_read x) (record s { unread = xs }))
  -- `if atomic.LoadUint32(&isClosed) > 0 { return }`
  keep :
      (s : Traffic) (is_error : Bool) (x : Str)
      → reader is_error s ≡ has_read x
      → s.is_closed ≡ false
      → Move s (with_reader is_error (sending x) s)
  drop :
      (s : Traffic) (is_error : Bool) (x : Str)
      → reader is_error s ≡ has_read x
      → s.is_closed ≡ true
      → Move s (with_reader is_error ended (record s { dropped = x ∷ s.dropped }))
  -- `cmdOut <- &protocol.ResponseDataCmd{…}`, which the writer receives and sends.
  forward :
      (s : Traffic) (is_error : Bool) (x : Str)
      → reader is_error s ≡ sending x
      → s.channel_closed ≡ false
      → s.received ≡ true
      → s.link ≡ up
      → Move s (
          with_reader is_error waiting (record s {
            delivered = s.delivered ++ (output (record { is_error = is_error; text = x }) ∷ []);
          }))
  -- The writer receives it, and json.Marshal or conn.Write fails.
  forward_fails :
      (s : Traffic) (is_error : Bool) (x : Str) (l : Link)
      → reader is_error s ≡ sending x
      → s.channel_closed ≡ false
      → s.received ≡ true
      → Fails s.link l
      → Move s (
          with_reader is_error waiting (record s {
            lost = output (record { is_error = is_error; text = x }) ∷ s.lost;
            link = l;
          }))
  -- `io.EOF` or `os.ErrClosed`
  end_of_output :
      (s : Traffic) (is_error : Bool)
      → reader is_error s ≡ waiting
      → ((s.at_end ≡ true) × (s.unread ≡ [])) ⊎ (s.pipe_closed ≡ true)
      → Move s (with_reader is_error ended s)
  -- Any other error of `Read`.
  read_fails :
      (s : Traffic) (is_error : Bool)
      → reader is_error s ≡ waiting
      → Move s (with_reader is_error ended s)
  -- The process of `execCmd.Run()` ends.
  terminate :
      (s : Traffic) (code : ℤ) → s.runner ≡ running → Move s (record s { runner = has_exited code })
  -- `Run` has closed the pipe and returns.
  report :
      (s : Traffic) (code : ℤ)
      → s.runner ≡ has_exited code
      → s.pipe_closed ≡ true
      → s.is_closed ≡ false
      → Move s (record s { runner = reporting code })
  keep_quiet :
      (s : Traffic) (code : ℤ)
      → s.runner ≡ has_exited code
      → s.pipe_closed ≡ true
      → s.is_closed ≡ true
      → Move s (record s { runner = finished code })
  -- `cmdOut <- &protocol.TerminateCmd{…}`, which the writer receives and sends.
  send_exit :
      (s : Traffic) (code : ℤ)
      → s.runner ≡ reporting code
      → s.channel_closed ≡ false
      → s.received ≡ true
      → s.link ≡ up
      → Move s (record s {
        runner = finished code;
        delivered = s.delivered ++ (exit (record { code = code }) ∷ []);
      })
  exit_fails :
      (s : Traffic) (code : ℤ) (l : Link)
      → s.runner ≡ reporting code
      → s.channel_closed ≡ false
      → s.received ≡ true
      → Fails s.link l
      → Move s (record s {
        runner = finished code;
        lost = exit (record { code = code }) ∷ s.lost;
        link = l;
      })
  -- handleCmd returns: its deferred functions set isClosed, and later close the channel.
  leave : (s : Traffic) → s.is_closed ≡ false → Move s (record s { is_closed = true })
  close_channel :
      (s : Traffic)
      → s.is_closed ≡ true
      → s.channel_closed ≡ false
      → Move s (record s { channel_closed = true })
  -- handleConn has no more lines and cancels its writer.
  hang_up : (s : Traffic) → s.received ≡ true → Move s (record s { received = false })

pub data Moves : Traffic → Traffic → Type 0 where
  stay : (s : Traffic) → Moves s s
  go_on : (s t u : Traffic) → Moves s t → Move t u → Moves s u

-- A goroutine sends on the closed channel, which ends the program of the connector.
pub data Panics (s : Traffic) : Type 0 where
  reader_panics :
      (is_error : Bool) (x : Str)
      → reader is_error s ≡ sending x
      → s.channel_closed ≡ true
      → Panics s
  runner_panics : (code : ℤ) → s.runner ≡ reporting code → s.channel_closed ≡ true → Panics s
