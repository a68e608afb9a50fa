-- ===== src/Qiniu/Workers/Progress.antt =====
-- That the goroutines of deleteObjects come to an end, unless errors leave a full channel behind.
use kubernetes_csi_driver.Base.{
  ℕ, zero, suc, ◌+◌, ◌*◌, ◌≤◌, ◌<◌, ◌≡◌, ◌≢◌, refl, ◌⊎◌, inl, inr, Bool, true, false, List, [], ◌∷◌,
  ◌++◌, length, length-append, arith, ap, sym, ◌∙◌, Bool-cases, ltb, ltb→lt,
}
use kubernetes_csi_driver.Text.{Str}
use kubernetes_csi_driver.Qiniu.Objects.{is_full}
use kubernetes_csi_driver.Qiniu.Workers.{
  Producer, collecting, sending, closed, Pool, worker_count, start, after_send, Step, take_name,
  fill_batch, send_rest, close_channel, send_batch, take_batch, request_done, request_failed, leave,
  cancel, cancel_worker, cancel_producer, Steps, stay, go_on, IsOver,
}
use kubernetes_csi_driver.Qiniu.Workers.Completion.{
  start-IsClean, Steps-IsClean, members, length-one_less, Steps-members,
}

-- How many steps a part of the pool may still cause.
unfoldable pub weight : Producer → ℕ
weight (collecting []) = 1
weight (collecting (n ∷ c)) = 4
weight (sending b false) = 4
weight (sending b true) = 3
weight closed = 0

unfoldable pub flag_weight : Bool → ℕ
flag_weight true = 0
flag_weight false = 1

abbrev pub measure : Pool → ℕ
measure s =
    4 * length s.unread
    + weight s.producer
    + 2 * length s.queue
    + s.idle
    + 2 * length s.busy
    + flag_weight s.cancelled

weight_collecting : (c : List Str) → (1 ≤ weight (collecting c)) × (weight (collecting c) ≤ 4)
unfolding weight
weight_collecting [] = (omega arith, omega arith)
weight_collecting (n ∷ c) = (omega arith, omega arith)

weight_sending :
    (b : List Str) (last : Bool) → weight (after_send last) + 3 ≤ weight (sending b last)
unfolding weight after_send
weight_sending b true = omega arith
weight_sending b false = omega arith

Step-measure : (s t : Pool) → Step s t → measure t < measure s
unfolding weight flag_weight
Step-measure s _ (take_name _ c n ns p u small) =
    let holds : weight s.producer ≡ weight (collecting c) = ap weight p in
    let reads : length s.unread ≡ suc (length ns) = ap length u in
    omega (arith, holds, reads, (weight_collecting c).0, (weight_collecting (c ++ (n ∷ []))).1)
Step-measure s _ (fill_batch _ c n ns p u full) =
    let holds : weight s.producer ≡ weight (collecting c) = ap weight p in
    let reads : length s.unread ≡ suc (length ns) = ap length u in
    omega (arith, holds, reads, (weight_collecting c).0)
Step-measure s _ (send_rest _ n c p u) =
    let holds : weight s.producer ≡ 4 = ap weight p in omega (arith, holds)
Step-measure s _ (close_channel _ p u) =
    let holds : weight s.producer ≡ 1 = ap weight p in omega (arith, holds)
Step-measure s _ (send_batch _ b last p room) =
    let holds : weight s.producer ≡ weight (sending b last) = ap weight p in
    omega (arith, holds, weight_sending b last, length-append s.queue (b ∷ []))
Step-measure s _ (take_batch _ b bs k q i) =
    let queue : length s.queue ≡ suc (length bs) = ap length q in omega (arith, queue, i)
Step-measure s _ (request_done _ before b behind busy) =
    let working : length s.busy ≡ length (before ++ (b ∷ behind)) = ap length busy in
    omega (arith, working, length-one_less before b behind)
Step-measure s _ (request_failed _ before b behind busy) =
    let working : length s.busy ≡ length (before ++ (b ∷ behind)) = ap length busy in
    omega (arith, working, length-one_less before b behind)
Step-measure s _ (leave _ k p q i) = omega (arith, i)
Step-measure s _ (cancel _ c) =
    let flag : flag_weight s.cancelled ≡ 1 = ap flag_weight c in omega (arith, flag)
Step-measure s _ (cancel_worker _ k c i) = omega (arith, i)
Step-measure s _ (cancel_producer _ c cancelled p) =
    let holds : weight s.producer ≡ weight (collecting c) = ap weight p in
    omega (arith, holds, (weight_collecting c).0)

unfoldable pub steps_taken : {s t : Pool} → Steps s t → ℕ
steps_taken (stay s) = 0
steps_taken (go_on s t u run step) = suc (steps_taken run)

Steps-measure : (s t : Pool) (run : Steps s t) → steps_taken run + measure t ≤ measure s
unfolding steps_taken
Steps-measure s _ (stay _) = omega arith
Steps-measure s _ (go_on _ t u run step) =
    omega (arith, Steps-measure s t run, Step-measure t u step)

-- The goroutines of deleteObjects take at most four steps for each name of the listing and twelve
-- more, in whatever order, with errors and cancellation or without.
pub deletion_bounded :
    (names : List Str) (s : Pool) (run : Steps (start names) s)
    → steps_taken run ≤ 4 * length names + 12
unfolding start weight flag_weight
deletion_bounded names s run = omega (arith, Steps-measure (start names) s run)

-- Every worker has left with batches in a channel that is full, and the producer sends.
pub record IsStuck (s : Pool) : Type 0 where
  pub all_gone : s.gone ≡ worker_count
  pub batch : List Str
  pub last : Bool
  pub still_sending : s.producer ≡ sending batch last
  pub no_room : worker_count ≤ length s.queue

abbrev pub GoesOn : Pool → Type 0
GoesOn s = (t : Pool) × Step s t

sending_open : (b : List Str) (last : Bool) → sending b last ≢ closed
sending_open b last h = ground arith

sending_waits : (b : List Str) (last : Bool) (c : List Str) → sending b last ≢ collecting c
sending_waits b last c h = ground arith

collecting-GoesOn :
    (s : Pool) (c unread : List Str) → s.producer ≡ collecting c → s.unread ≡ unread → GoesOn s
collecting-GoesOn s [] [] p u = (_, close_channel s p u)
collecting-GoesOn s (n ∷ c) [] p u = (_, send_rest s n c p u)
collecting-GoesOn s c (n ∷ ns) p u = elim (Bool-cases (is_full (c ++ (n ∷ [])))) [
  | inl full ↦ (_, fill_batch s c n ns p u full)
  | inr small ↦ (_, take_name s c n ns p u small)
]

-- The channel has room.
producer-GoesOn :
    (s : Pool) (q : Producer)
    → s.producer ≡ q
    → length s.queue < worker_count
    → (s.producer ≡ closed) ⊎ GoesOn s
producer-GoesOn s (collecting c) p room = inr (collecting-GoesOn s c s.unread p refl)
producer-GoesOn s (sending b last) p room = inr (_, send_batch s b last p room)
producer-GoesOn s closed p room = inl p

idle-GoesOn :
    (s : Pool) (k : ℕ) (queue : List (List Str)) → s.queue ≡ queue → s.idle ≡ suc k → GoesOn s
idle-GoesOn s k (b ∷ bs) q i = (_, take_batch s b bs k q i)
idle-GoesOn s k [] q i =
    let empty : length s.queue ≡ 0 = ap length q in
    elim (producer-GoesOn s s.producer refl (omega (arith, empty))) [
      | inl p ↦ (_, leave s k p q i)
      | inr on ↦ on
    ]

-- No worker is left.
last_steps :
    (s : Pool) (q : Producer)
    → s.producer ≡ q
    → s.idle ≡ 0
    → s.busy ≡ []
    → s.gone ≡ worker_count
    → IsOver s ⊎ (GoesOn s ⊎ IsStuck s)
last_steps s (collecting c) p i b g = inr (inl (collecting-GoesOn s c s.unread p refl))
last_steps s (sending batch last) p i b g = elim (Bool-cases (ltb (length s.queue) worker_count)) [
  | inl room ↦ inr (inl (_, send_batch s batch last p (ltb→lt _ _ room)))
  | inr none ↦ inr (
      inr (record {
        all_gone = g;
        batch = batch;
        last = last;
        still_sending = p;
        no_room = ground (arith, none);
      }))
]
last_steps s closed p i b g = inl (record { producer_closed = p; none_idle = i; none_busy = b })

-- Whether a pool goes on, by its workers.
workers-GoesOn :
    (s : Pool) (idle : ℕ) (busy : List (List Str))
    → s.idle ≡ idle
    → s.busy ≡ busy
    → members s ≡ worker_count
    → IsOver s ⊎ (GoesOn s ⊎ IsStuck s)
unfolding members
workers-GoesOn s idle (b ∷ bs) i w h = inr (inl (_, request_done s [] b bs w))
workers-GoesOn s (suc k) [] i w h = inr (inl (idle-GoesOn s k s.queue refl i))
workers-GoesOn s zero [] i w h =
    let none : length s.busy ≡ 0 = ap length w in
    last_steps s s.producer refl i w (omega (arith, h, i, none))

-- As long as no error was met, the goroutines of deleteObjects have all ended or one of them can go
-- on: the producer is never left alone with a channel that is full.
pub deletion_progresses :
    (names : List Str) (s : Pool)
    → Steps (start names) s
    → s.errors ≡ 0
    → IsOver s ⊎ ((t : Pool) × Step s t)
unfolding start members
deletion_progresses names s run fine =
    elim (workers-GoesOn s s.idle s.busy refl refl (Steps-members (start names) s run)) [
      | inl over ↦ inl over
      | inr (inl on) ↦ inr on
      | inr (inr stuck) ↦
          let clean = Steps-IsClean (start names) s run (start-IsClean names) in
          let shut = (clean.all_taken 9 fine stuck.all_gone).0 in
          absurd (sending_open stuck.batch stuck.last (sym stuck.still_sending ∙ shut))
    ]

-- When all workers have left with errors and the channel is full, deleteObjects never returns: it is
-- not over, and no goroutine can take a step but to note that the context has ended.
pub deletion-IsStuck :
    (s t : Pool)
    → IsStuck s
    → members s ≡ worker_count
    → Step s t
    → IsStuck t × (s.cancelled ≡ false) × (t.cancelled ≡ true)
unfolding members
deletion-IsStuck s _ stuck h (take_name _ c n ns p u small) =
    absurd (sending_waits stuck.batch stuck.last c (sym stuck.still_sending ∙ p))
deletion-IsStuck s _ stuck h (fill_batch _ c n ns p u full) =
    absurd (sending_waits stuck.batch stuck.last c (sym stuck.still_sending ∙ p))
deletion-IsStuck s _ stuck h (send_rest _ n c p u) =
    absurd (sending_waits stuck.batch stuck.last (n ∷ c) (sym stuck.still_sending ∙ p))
deletion-IsStuck s _ stuck h (close_channel _ p u) =
    absurd (sending_waits stuck.batch stuck.last [] (sym stuck.still_sending ∙ p))
deletion-IsStuck s _ stuck h (send_batch _ b last p room) =
    absurd (omega (arith, room, stuck.no_room))
deletion-IsStuck s _ stuck h (take_batch _ b bs k q i) =
    absurd (omega (arith, h, stuck.all_gone, i))
deletion-IsStuck s _ stuck h (request_done _ before b behind busy) =
    let working : length s.busy ≡ length (before ++ (b ∷ behind)) = ap length busy in
    absurd (omega (arith, h, stuck.all_gone, working, length-one_less before b behind))
deletion-IsStuck s _ stuck h (request_failed _ before b behind busy) =
    let working : length s.busy ≡ length (before ++ (b ∷ behind)) = ap length busy in
    absurd (omega (arith, h, stuck.all_gone, working, length-one_less before b behind))
deletion-IsStuck s _ stuck h (leave _ k p q i) = absurd (omega (arith, h, stuck.all_gone, i))
deletion-IsStuck s _ stuck h (cancel _ c) = (
  record {
    all_gone = stuck.all_gone;
    batch = stuck.batch;
    last = stuck.last;
    still_sending = stuck.still_sending;
    no_room = stuck.no_room;
  },
  c,
  refl,
)
deletion-IsStuck s _ stuck h (cancel_worker _ k c i) = absurd (omega (arith, h, stuck.all_gone, i))
deletion-IsStuck s _ stuck h (cancel_producer _ c cancelled p) =
    absurd (sending_waits stuck.batch stuck.last c (sym stuck.still_sending ∙ p))
