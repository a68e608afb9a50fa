-- ===== src/Qiniu/Workers/Deadlock.antt =====
-- About runs of the goroutines of deleteObjects in qiniu/kodo.go in which requests fail.
use kubernetes_csi_driver.Base.{
  ℕ, suc, ◌+◌, ◌≡◌, ◌≤◌, ◌<◌, refl, true, false, List, [], ◌∷◌, ◌++◌, length, length-append, All,
  arith, sym,
}
use mathlib.Core.Path.{subst}
use mathlib.Core.List.{append_assoc, append-nil}
use kubernetes_csi_driver.Text.{Str}
use kubernetes_csi_driver.Qiniu.Objects.{is_full}
use kubernetes_csi_driver.Qiniu.Batches.{flatten}
use kubernetes_csi_driver.Qiniu.Workers.{
  Producer, collecting, sending, Pool, start, after_send, take_name, fill_batch, send_batch,
  take_batch, request_failed, Steps, stay, go_on,
}
use kubernetes_csi_driver.Qiniu.Workers.Progress.{IsStuck}

-- The pool while requests fail: so many workers are idle and have left, and these batches wait.
abbrev failing : ℕ → ℕ → List (List Str) → List Str → List Str → Producer → Pool
failing idle gone queue unread lost producer = record {
  unread = unread;
  producer = producer;
  queue = queue;
  idle = idle;
  busy = [];
  gone = gone;
  requested = [];
  lost = lost;
  errors = gone;
  cancelled = false;
}

full_at : (c : List Str) → length c ≡ 100 → is_full c ≡ true
unfolding is_full
full_at c h = ground (arith, h)

not_full_at : (c : List Str) → length c < 100 → is_full c ≡ false
unfolding is_full
not_full_at c h = ground (arith, h)

-- The producer reads the rest of a batch.
read_batch :
    (origin s : Pool) (c b rest : List Str) (n : Str)
    → length c + suc (length b) ≡ 100
    → s.producer ≡ collecting c
    → s.unread ≡ (n ∷ b) ++ rest
    → Steps origin s
    → Steps origin (record s { unread = rest; producer = sending (c ++ (n ∷ b)) false })
read_batch origin s c [] rest n size p u run = go_on origin s _ run (
    fill_batch s c n rest p u
      (full_at (c ++ (n ∷ [])) (omega (arith, size, length-append c (n ∷ [])))))
read_batch origin s c (m ∷ b) rest n size p u run =
    let small = not_full_at (c ++ (n ∷ [])) (omega (arith, size, length-append c (n ∷ []))) in
    subst (λ q. Steps origin (record s { unread = rest; producer = sending q false }))
      (append_assoc c (n ∷ []) (m ∷ b))
      (read_batch origin
        (record s { unread = (m ∷ b) ++ rest; producer = collecting (c ++ (n ∷ [])) })
        (c ++ (n ∷ [])) b rest m (omega (arith, size, length-append c (n ∷ []))) refl refl
        (go_on origin s _ run (take_name s c n ((m ∷ b) ++ rest) p u small)))

-- A batch as the producer makes it.
abbrev pub IsFullBatch : List Str → Type 0
IsFullBatch b = length b ≡ 100

read_full :
    (origin : Pool) (idle gone : ℕ) (queue : List (List Str)) (b rest lost : List Str)
    → IsFullBatch b
    → Steps origin (failing idle gone queue (b ++ rest) lost (collecting []))
    → Steps origin (failing idle gone queue rest lost (sending b false))
read_full origin idle gone queue [] rest lost size run = absurd (omega (arith, size))
read_full origin idle gone queue (n ∷ b) rest lost size run =
    read_batch origin (failing idle gone queue ((n ∷ b) ++ rest) lost (collecting [])) [] b rest n
      (omega (arith, size)) refl refl run

-- The producer puts a batch into the channel.
queue_batch :
    (origin : Pool) (idle gone : ℕ) (queue : List (List Str)) (b rest lost : List Str)
    → IsFullBatch b
    → length queue < 10
    → Steps origin (failing idle gone queue (b ++ rest) lost (collecting []))
    → Steps origin (failing idle gone (queue ++ (b ∷ [])) rest lost (collecting []))
unfolding after_send
queue_batch origin idle gone queue b rest lost size room run =
    let read = failing idle gone queue rest lost (sending b false) in
    go_on origin read _ (read_full origin idle gone queue b rest lost size run)
      (send_batch read b false refl (omega (arith, room)))

-- A worker takes a batch that is full, and its request fails.
lose_batch :
    (origin : Pool) (idle gone : ℕ) (b rest lost : List Str)
    → IsFullBatch b
    → Steps origin (failing (suc idle) gone [] (b ++ rest) lost (collecting []))
    → Steps origin (failing idle (suc gone) [] rest (b ++ lost) (collecting []))
lose_batch origin idle gone b rest lost size run =
    let sent = failing (suc idle) gone (b ∷ []) rest lost (collecting []) in
    let taken = record sent { queue = []; idle = idle; busy = b ∷ [] } in
    go_on origin taken _
      (go_on origin sent taken
        (queue_batch origin (suc idle) gone [] b rest lost size (omega arith) run)
        (take_batch sent b [] idle refl refl))
      (request_failed taken [] b [] refl)

-- One worker after the other fails.
lose_batches :
    (origin : Pool) (gone : ℕ) (bs : List (List Str)) (rest lost : List Str)
    → All IsFullBatch bs
    → Steps origin (failing (length bs) gone [] (flatten bs ++ rest) lost (collecting []))
    → (final : List Str) × Steps origin (failing 0 (length bs + gone) [] rest final (collecting []))
lose_batches origin gone [] rest lost _ run =
    (lost, subst (λ k. Steps origin (failing 0 k [] rest lost (collecting []))) (omega arith) run)
lose_batches origin gone (b ∷ bs) rest lost (full, all_full) run =
    let one = lose_batch origin (length bs) gone b (flatten bs ++ rest) lost full (
      subst (λ u. Steps origin (failing (suc (length bs)) gone [] u lost (collecting [])))
        (append_assoc b (flatten bs) rest) run) in
    let (final, others) = lose_batches origin (suc gone) bs rest (b ++ lost) all_full one in
    (
      final,
      subst (λ k. Steps origin (failing 0 k [] rest final (collecting []))) (omega arith) others,
    )

-- The channel fills up.
queue_batches :
    (origin : Pool) (gone : ℕ) (queue bs : List (List Str)) (rest lost : List Str)
    → All IsFullBatch bs
    → length queue + length bs ≤ 10
    → Steps origin (failing 0 gone queue (flatten bs ++ rest) lost (collecting []))
    → Steps origin (failing 0 gone (queue ++ bs) rest lost (collecting []))
queue_batches origin gone queue [] rest lost _ room run =
    subst (λ q. Steps origin (failing 0 gone q rest lost (collecting []))) (sym (append-nil queue))
      run
queue_batches origin gone queue (b ∷ bs) rest lost (full, all_full) room run =
    let one =
      queue_batch origin 0 gone queue b (flatten bs ++ rest) lost full (omega (arith, room)) (
        subst (λ u. Steps origin (failing 0 gone queue u lost (collecting [])))
          (append_assoc b (flatten bs) rest) run) in
    subst (λ q. Steps origin (failing 0 gone q rest lost (collecting [])))
      (append_assoc queue (b ∷ []) bs)
      (queue_batches origin gone (queue ++ (b ∷ [])) bs rest lost all_full
        (omega (arith, room, length-append queue (b ∷ []))) one)

-- When at least 21 full batches are listed, the goroutines can come to a state in which all workers
-- have left with errors, the channel is full and the producer sends.
pub deletion_deadlocks :
    (failed waiting : List (List Str)) (b rest : List Str)
    → All IsFullBatch failed
    → All IsFullBatch waiting
    → IsFullBatch b
    → length failed ≡ 10
    → length waiting ≡ 10
    → (s : Pool) × Steps (start (flatten failed ++ (flatten waiting ++ (b ++ rest)))) s × IsStuck s
unfolding start
deletion_deadlocks failed waiting b rest all_failed all_waiting size ten_failed ten_waiting =
    let left = flatten waiting ++ (b ++ rest) in
    let origin = start (flatten failed ++ left) in
    let (lost, deserted) = lose_batches origin 0 failed left [] all_failed (
      subst (λ k. Steps origin (failing k 0 [] (flatten failed ++ left) [] (collecting [])))
        (sym ten_failed) (stay origin)) in
    let full =
      queue_batches origin (length failed + 0) [] waiting (b ++ rest) lost all_waiting
        (omega (arith, ten_waiting)) deserted in
    (
      failing 0 (length failed + 0) waiting rest lost (sending b false),
      read_full origin 0 (length failed + 0) waiting b rest lost size full,
      record {
        all_gone = omega (arith, ten_failed);
        batch = b;
        last = false;
        still_sending = refl;
        no_room = omega (arith, ten_waiting);
      },
    )
