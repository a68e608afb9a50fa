-- ===== src/Connector/Streams/Account.antt =====
-- About the output of the process on its way to the plugin, in connector/main.go.
use kubernetes_csi_driver.Base.{
  ℕ, ◌+◌, ◌≡◌, refl, ap, ◌∙◌, Bool, true, false, List, [], ◌∷◌, ◌++◌, arith,
}
use kubernetes_csi_driver.Text.{Str, count, count-append, count-cons, count-nil}
use kubernetes_csi_driver.Connector.Streams.{
  Reader, waiting, has_read, sending, ended, Message, output, exit, Traffic, started, reader,
  with_reader, Move, write, read, keep, drop, forward, end_of_output, terminate, report, keep_quiet,
  send_exit, leave, close_channel, hang_up, close_output, close_pipe, forward_fails, read_fails,
  exit_fails, Link, Moves, stay, go_on,
}

-- The chunks of some messages.
abbrev pub texts : List Message → List Str
texts [] = []
texts (output c ∷ ms) = c.text ∷ texts ms
texts (exit c ∷ ms) = texts ms

texts-append : (ms ns : List Message) → texts (ms ++ ns) ≡ texts ms ++ texts ns
texts-append [] ns = refl
texts-append (output c ∷ ms) ns = ap (◌∷◌ c.text) (texts-append ms ns)
texts-append (exit c ∷ ms) ns = texts-append ms ns

count-texts-append :
    (y : Str) (ms ns : List Message)
    → count y (texts (ms ++ ns)) ≡ count y (texts ms) + count y (texts ns)
count-texts-append y ms ns =
    ap (count y) (texts-append ms ns) ∙ count-append y (texts ms) (texts ns)

-- The chunk that a reader holds.
unfoldable pub held : Reader → List Str
held (has_read x) = x ∷ []
held (sending x) = x ∷ []
held _ = []

abbrev pub both_held : Str → Traffic → ℕ
both_held x s = count x (held s.out_reader) + count x (held s.err_reader)

-- Where the chunks are that the process has written.
abbrev pub tally : Str → Traffic → ℕ
tally x s =
    count x (texts s.delivered)
    + count x (texts s.lost)
    + both_held x s
    + count x s.unread
    + count x s.dropped
    + count x s.discarded

-- A pipe that is open has discarded nothing.
abbrev KeptOpen : Traffic → Type 0
KeptOpen s = s.pipe_closed ≡ false → s.discarded ≡ []

abbrev Balanced : Str → Traffic → Type 0
Balanced y s = tally y s ≡ count y s.written

-- A reader goes from one state to another, when its traffic has these fields.
passed :
    (y : Str) (is_error : Bool) (old new : Reader) (s : Traffic) (unread dropped : List Str)
    (delivered lost : List Message) (link : Link)
    → reader is_error s ≡ old
    → let t = with_reader is_error new (record s {
      unread = unread;
      dropped = dropped;
      delivered = delivered;
      lost = lost;
      link = link;
    }) in
      (tally y t + count y (held old)
        ≡ count y (texts delivered)
          + count y (texts lost)
          + both_held y s
          + count y unread
          + count y dropped
          + count y s.discarded
          + count y (held new))
      × (count y t.written ≡ count y s.written)
unfolding reader with_reader
passed y false old new s unread dropped delivered lost link p =
    let same : count y (held s.out_reader) ≡ count y (held old) = ap (λ r. count y (held r)) p in
    (omega (arith, same), refl)
passed y true old new s unread dropped delivered lost link p =
    let same : count y (held s.err_reader) ≡ count y (held old) = ap (λ r. count y (held r)) p in
    (omega (arith, same), refl)

Move-Balanced : (y : Str) (s t : Traffic) → Move s t → KeptOpen s → Balanced y s → Balanced y t
unfolding held
Move-Balanced y s _ (write _ x at open') k h =
    omega (arith, h, count-append y s.unread (x ∷ []), count-cons y x s.written)
Move-Balanced y s _ (read _ b x xs p u) k h = omega (
  arith,
  h,
  passed y b waiting (has_read x) s xs s.dropped s.delivered s.lost s.link p,
  ap (count y) u,
  count-cons y x xs,
  count-nil y,
)
Move-Balanced y s _ (keep _ b x p open') k h =
    omega (
      arith,
      h,
      passed y b (has_read x) (sending x) s s.unread s.dropped s.delivered s.lost s.link p,
    )
Move-Balanced y s _ (drop _ b x p shut) k h = omega (
  arith,
  h,
  passed y b (has_read x) ended s s.unread (x ∷ s.dropped) s.delivered s.lost s.link p,
  count-cons y x s.dropped,
  count-nil y,
)
Move-Balanced y s _ (forward _ b x p open' there linked) k h = omega (
  arith,
  h,
  passed y b (sending x) waiting s s.unread s.dropped
      (s.delivered ++ (output (record { is_error = b; text = x }) ∷ [])) s.lost s.link p,
  count-texts-append y s.delivered (output (record { is_error = b; text = x }) ∷ []),
  count-nil y,
)
Move-Balanced y s _ (forward_fails _ b x l p open' there fails) k h = omega (
  arith,
  h,
  passed y b (sending x) waiting s s.unread s.dropped s.delivered
      (output (record { is_error = b; text = x }) ∷ s.lost) l p,
  count-cons y x (texts s.lost),
  count-nil y,
)
Move-Balanced y s _ (close_output _ open') k h = h
Move-Balanced y s _ (close_pipe _ why open') k h =
    omega (arith, h, ap (count y) (k open'), count-nil y)
Move-Balanced y s _ (read_fails _ b p) k h =
    omega (arith, h, passed y b waiting ended s s.unread s.dropped s.delivered s.lost s.link p)
Move-Balanced y s _ (exit_fails _ code l p open' there fails) k h = h
Move-Balanced y s _ (end_of_output _ b p why) k h =
    omega (arith, h, passed y b waiting ended s s.unread s.dropped s.delivered s.lost s.link p)
Move-Balanced y s _ (terminate _ code p) k h = h
Move-Balanced y s _ (report _ code p piped open') k h = h
Move-Balanced y s _ (keep_quiet _ code p piped shut) k h = h
Move-Balanced y s _ (send_exit _ code p open' there linked) k h =
    omega
      (arith, h, count-texts-append y s.delivered (exit (record { code = code }) ∷ []), count-nil y)
Move-Balanced y s _ (leave _ open') k h = h
Move-Balanced y s _ (close_channel _ shut open') k h = h
Move-Balanced y s _ (hang_up _ there) k h = h

with_reader-KeptOpen :
    (b : Bool) (r : Reader) (s : Traffic) → KeptOpen s → KeptOpen (with_reader b r s)
unfolding with_reader
with_reader-KeptOpen false r s k = k
with_reader-KeptOpen true r s k = k

Move-KeptOpen : (s t : Traffic) → Move s t → KeptOpen s → KeptOpen t
Move-KeptOpen s _ (write _ x at open') k = k
Move-KeptOpen s _ (close_output _ open') k = k
Move-KeptOpen s _ (close_pipe _ why open') k = λ h. absurd (ground arith)
Move-KeptOpen s _ (read _ b x xs p u) k = with_reader-KeptOpen b _ _ k
Move-KeptOpen s _ (keep _ b x p open') k = with_reader-KeptOpen b _ _ k
Move-KeptOpen s _ (drop _ b x p shut) k = with_reader-KeptOpen b _ _ k
Move-KeptOpen s _ (forward _ b x p open' there linked) k = with_reader-KeptOpen b _ _ k
Move-KeptOpen s _ (forward_fails _ b x l p open' there fails) k = with_reader-KeptOpen b _ _ k
Move-KeptOpen s _ (end_of_output _ b p why) k = with_reader-KeptOpen b _ _ k
Move-KeptOpen s _ (read_fails _ b p) k = with_reader-KeptOpen b _ _ k
Move-KeptOpen s _ (terminate _ code p) k = k
Move-KeptOpen s _ (report _ code p piped open') k = k
Move-KeptOpen s _ (keep_quiet _ code p piped shut) k = k
Move-KeptOpen s _ (send_exit _ code p open' there linked) k = k
Move-KeptOpen s _ (exit_fails _ code l p open' there fails) k = k
Move-KeptOpen s _ (leave _ open') k = k
Move-KeptOpen s _ (close_channel _ shut open') k = k
Move-KeptOpen s _ (hang_up _ there) k = k

Moves-KeptOpen : (s : Traffic) → Moves started s → KeptOpen s
unfolding started
Moves-KeptOpen s (stay _) = λ h. refl
Moves-KeptOpen s (go_on _ t _ run move) = Move-KeptOpen t s move (Moves-KeptOpen t run)

-- However the goroutines take turns, every chunk that was written to the standard output is, as
-- often as it was written, among the messages that the connector sent on the connection or those
-- that it could not send, with a reader, in the pipe, given up by a reader, or discarded with the
-- pipe: none is sent twice and nothing else is sent.
pub output_accounted : (s : Traffic) → Moves started s → (x : Str) → tally x s ≡ count x s.written
unfolding started held
output_accounted s (stay _) x = omega (arith, count-nil x)
output_accounted s (go_on _ t _ run move) x =
    Move-Balanced x t s move (Moves-KeptOpen t run) (output_accounted t run x)
