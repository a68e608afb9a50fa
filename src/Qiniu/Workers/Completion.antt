-- ===== src/Qiniu/Workers/Completion.antt =====
-- What deleteObjects has done when it returns without an error.
use kubernetes_csi_driver.Base.{
  ℕ, suc, ◌+◌, ◌≡◌, refl, Bool, true, false, List, [], ◌∷◌, ◌++◌, length, length-append, arith, ap,
  ◌∙◌,
}
use kubernetes_csi_driver.Text.{Str, count}
use kubernetes_csi_driver.Qiniu.Workers.{
  sending, closed, Pool, start, after_send, Step, take_name, fill_batch, send_rest, close_channel,
  send_batch, take_batch, request_done, request_failed, leave, cancel, cancel_worker,
  cancel_producer, Steps, stay, go_on, IsOver, fails_with,
}
use kubernetes_csi_driver.Qiniu.Workers.Tally.{total, held, tally, Step-tally}

-- While there is no error, nothing is given up, the channel is closed only after the last name was
-- read, and a worker leaves only when the channel is closed and empty.
pub record IsClean (s : Pool) : Type 0 where
  pub nothing_lost : s.errors ≡ 0 → s.lost ≡ []
  pub all_read : s.errors ≡ 0 → s.producer ≡ closed → s.unread ≡ []
  pub all_taken : (k : ℕ) → s.errors ≡ 0 → s.gone ≡ suc k → (s.producer ≡ closed) × (s.queue ≡ [])
  pub last_read : (b : List Str) → s.errors ≡ 0 → s.producer ≡ sending b true → s.unread ≡ []

after_send_open : (last : Bool) (b : List Str) → after_send last ≡ sending b true → ⊥
unfolding after_send
after_send_open true b h = ground arith
after_send_open false b h = ground arith

read_before :
    (s : Pool) (b : List Str) (last : Bool)
    → s.producer ≡ sending b last
    → IsClean s
    → s.errors ≡ 0
    → after_send last ≡ closed
    → s.unread ≡ []
unfolding after_send
read_before s b true p h e q = h.last_read b e p
read_before s b false p h e q = absurd (ground arith)

Step-IsClean : (s t : Pool) → Step s t → IsClean s → IsClean t
unfolding held
Step-IsClean s _ (take_name _ c n ns p u small) h = record {
  nothing_lost = h.nothing_lost;
  all_read = λ e q. absurd (ground arith);
  all_taken = λ k e g. let old = h.all_taken k e g in absurd (ground arith);
  last_read = λ b e q. absurd (ground arith);
}
Step-IsClean s _ (fill_batch _ c n ns p u full) h = record {
  nothing_lost = h.nothing_lost;
  all_read = λ e q. absurd (ground arith);
  all_taken = λ k e g. let old = h.all_taken k e g in absurd (ground arith);
  last_read = λ b e q. absurd (ground arith);
}
Step-IsClean s _ (send_rest _ n c p u) h = record {
  nothing_lost = h.nothing_lost;
  all_read = λ e q. absurd (ground arith);
  all_taken = λ k e g. let old = h.all_taken k e g in absurd (ground arith);
  last_read = λ b e q. u;
}
Step-IsClean s _ (close_channel _ p u) h = record {
  nothing_lost = h.nothing_lost;
  all_read = λ e q. u;
  all_taken = λ k e g. let old = h.all_taken k e g in absurd (ground arith);
  last_read = λ b e q. absurd (ground arith);
}
Step-IsClean s _ (send_batch _ b last p room) h = record {
  nothing_lost = h.nothing_lost;
  all_read = λ e q. read_before s b last p h e q;
  all_taken = λ k e g. let old = h.all_taken k e g in absurd (ground arith);
  last_read = λ b2 e q. absurd (after_send_open last b2 q);
}
Step-IsClean s _ (take_batch _ b bs k q i) h = record {
  nothing_lost = h.nothing_lost;
  all_read = h.all_read;
  all_taken = λ k2 e g. let old = h.all_taken k2 e g in absurd (ground arith);
  last_read = h.last_read;
}
Step-IsClean s _ (request_done _ before b behind busy) h = record {
  nothing_lost = h.nothing_lost;
  all_read = h.all_read;
  all_taken = h.all_taken;
  last_read = h.last_read;
}
Step-IsClean s _ (request_failed _ before b behind busy) h = record {
  nothing_lost = λ e. absurd (ground arith);
  all_read = λ e q. absurd (ground arith);
  all_taken = λ k2 e g. absurd (ground arith);
  last_read = λ b2 e q. absurd (ground arith);
}
Step-IsClean s _ (leave _ k p q i) h = record {
  nothing_lost = h.nothing_lost;
  all_read = h.all_read;
  all_taken = λ k2 e g. (p, q);
  last_read = h.last_read;
}
Step-IsClean s _ (cancel _ c) h = record {
  nothing_lost = h.nothing_lost;
  all_read = h.all_read;
  all_taken = h.all_taken;
  last_read = h.last_read;
}
Step-IsClean s _ (cancel_worker _ k c i) h = record {
  nothing_lost = λ e. absurd (ground arith);
  all_read = λ e q. absurd (ground arith);
  all_taken = λ k2 e g. absurd (ground arith);
  last_read = λ b2 e q. absurd (ground arith);
}
Step-IsClean s _ (cancel_producer _ c cancelled p) h = record {
  nothing_lost = λ e. absurd (ground arith);
  all_read = λ e q. absurd (ground arith);
  all_taken = λ k2 e g. absurd (ground arith);
  last_read = λ b2 e q. absurd (ground arith);
}

pub start-IsClean : (names : List Str) → IsClean (start names)
unfolding start
start-IsClean names = record {
  nothing_lost = λ e. refl;
  all_read = λ e q. absurd (ground arith);
  all_taken = λ k e g. absurd (ground arith);
  last_read = λ b e q. absurd (ground arith);
}

pub Steps-IsClean : (s t : Pool) → Steps s t → IsClean s → IsClean t
Steps-IsClean s _ (stay _) h = h
Steps-IsClean s _ (go_on _ t u run step) h = Step-IsClean t u step (Steps-IsClean s t run h)

Steps-tally : (x : Str) (s t : Pool) → Steps s t → tally x t ≡ tally x s
Steps-tally x s _ (stay _) = refl
Steps-tally x s _ (go_on _ t u run step) = Step-tally x t u step ∙ Steps-tally x s t run

-- The workers of a pool.
unfoldable pub members : Pool → ℕ
members s = s.idle + length s.busy + s.gone

pub length-one_less :
    (before : List (List Str)) (b : List Str) (behind : List (List Str))
    → length (before ++ (b ∷ behind)) ≡ suc (length (before ++ behind))
length-one_less before b behind =
    omega (arith, length-append before (b ∷ behind), length-append before behind)

Step-members : (s t : Pool) → Step s t → members t ≡ members s
unfolding members
Step-members s _ (take_name _ c n ns p u small) = refl
Step-members s _ (fill_batch _ c n ns p u full) = refl
Step-members s _ (send_rest _ n c p u) = refl
Step-members s _ (close_channel _ p u) = refl
Step-members s _ (send_batch _ b last p room) = refl
Step-members s _ (take_batch _ b bs k q i) = omega (arith, i)
Step-members s _ (request_done _ before b behind busy) =
    let working : length s.busy ≡ length (before ++ (b ∷ behind)) = ap length busy in
    omega (arith, working, length-one_less before b behind)
Step-members s _ (request_failed _ before b behind busy) =
    let working : length s.busy ≡ length (before ++ (b ∷ behind)) = ap length busy in
    omega (arith, working, length-one_less before b behind)
Step-members s _ (leave _ k p q i) = omega (arith, i)
Step-members s _ (cancel _ c) = refl
Step-members s _ (cancel_worker _ k c i) = omega (arith, i)
Step-members s _ (cancel_producer _ c cancelled p) = refl

pub Steps-members : (s t : Pool) → Steps s t → members t ≡ members s
Steps-members s _ (stay _) = refl
Steps-members s _ (go_on _ t u run step) = Step-members t u step ∙ Steps-members s t run

no_errors : (s : Pool) → fails_with s ≡ false → s.errors ≡ 0
unfolding fails_with
no_errors s h = ground arith

-- If deleteObjects returns without an error, however its goroutines took turns, every name of the
-- listing is in the batches whose requests succeeded, exactly as often as it was listed.
pub deletion_complete :
    (names : List Str) (s : Pool)
    → Steps (start names) s
    → IsOver s
    → fails_with s ≡ false
    → (x : Str) → total x s.requested ≡ count x names
unfolding start count held members fails_with
deletion_complete names s run over fine x =
    let clean = Steps-IsClean (start names) s run (start-IsClean names) in
    let quiet = no_errors s fine in
    let none_working : length s.busy ≡ 0 = ap length over.none_busy in
    let all_gone : s.gone ≡ suc 9 =
      omega (arith, Steps-members (start names) s run, over.none_idle, none_working) in
    let no_queue : total x s.queue ≡ 0 = ap (total x) (clean.all_taken 9 quiet all_gone).1 in
    let no_unread : count x s.unread ≡ 0 =
      ap (count x) (clean.all_read quiet over.producer_closed) in
    let no_busy : total x s.busy ≡ 0 = ap (total x) over.none_busy in
    let no_lost : count x s.lost ≡ 0 = ap (count x) (clean.nothing_lost quiet) in
    let no_held : count x (held s.producer) ≡ 0 = ap (λ q. count x (held q)) over.producer_closed in
    omega (arith, Steps-tally x (start names) s run, no_queue, no_unread, no_busy, no_lost, no_held)
