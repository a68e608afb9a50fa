-- ===== src/Qiniu/Workers/Tally.antt =====
-- What the goroutines of deleteObjects hold together.
use kubernetes_csi_driver.Base.{
  ℕ, ◌+◌, ◌≡◌, refl, Bool, true, false, List, [], ◌∷◌, ◌++◌, arith, ap,
}
use kubernetes_csi_driver.Text.{Str, count, count-append}
use kubernetes_csi_driver.Qiniu.Batches.{flatten}
use kubernetes_csi_driver.Qiniu.Workers.{
  Producer, collecting, sending, closed, Pool, after_send, Step, take_name, fill_batch, send_rest,
  close_channel, send_batch, take_batch, request_done, request_failed, leave, cancel, cancel_worker,
  cancel_producer,
}

abbrev pub total : Str → List (List Str) → ℕ
total x bs = count x (flatten bs)

total-append : (x : Str) (bs cs : List (List Str)) → total x (bs ++ cs) ≡ total x bs + total x cs
unfolding count
total-append x [] cs = omega arith
total-append x (b ∷ bs) cs = omega (
  arith,
  count-append x b (flatten (bs ++ cs)),
  count-append x b (flatten bs),
  total-append x bs cs,
)

-- The names that the producer holds.
unfoldable pub held : Producer → List Str
held (collecting c) = c
held (sending b last) = b
held closed = []

abbrev pub tally : Str → Pool → ℕ
tally x s =
    count x s.unread
    + count x (held s.producer)
    + total x s.queue
    + total x s.busy
    + total x s.requested
    + count x s.lost

after_send_holds : (x : Str) (last : Bool) → count x (held (after_send last)) ≡ 0
unfolding count held after_send
after_send_holds x true = refl
after_send_holds x false = refl

-- No step loses a name or handles it twice.
pub Step-tally : (x : Str) (s t : Pool) → Step s t → tally x t ≡ tally x s
unfolding held count
Step-tally x s _ (take_name _ c n ns p u small) =
    let holds : count x (held s.producer) ≡ count x c = ap (λ q. count x (held q)) p in
    let reads : count x s.unread ≡ count x (n ∷ ns) = ap (count x) u in
    omega (arith, holds, reads, count-append x c (n ∷ []), count-append x (n ∷ []) ns)
Step-tally x s _ (fill_batch _ c n ns p u full) =
    let holds : count x (held s.producer) ≡ count x c = ap (λ q. count x (held q)) p in
    let reads : count x s.unread ≡ count x (n ∷ ns) = ap (count x) u in
    omega (arith, holds, reads, count-append x c (n ∷ []), count-append x (n ∷ []) ns)
Step-tally x s _ (send_rest _ n c p u) = rw p refl
Step-tally x s _ (close_channel _ p u) = rw p refl
Step-tally x s _ (send_batch _ b last p room) =
    let holds : count x (held s.producer) ≡ count x b = ap (λ q. count x (held q)) p in
    omega
      (arith, holds, after_send_holds x last, total-append x s.queue (b ∷ []), count-append x b [])
Step-tally x s _ (take_batch _ b bs k q i) =
    let queue : total x s.queue ≡ total x (b ∷ bs) = ap (total x) q in
    omega (arith, queue, count-append x b (flatten bs), count-append x b (flatten s.busy))
Step-tally x s _ (request_done _ before b behind busy) =
    let working : total x s.busy ≡ total x (before ++ (b ∷ behind)) = ap (total x) busy in
    omega (
      arith,
      working,
      total-append x before (b ∷ behind),
      total-append x before behind,
      count-append x b (flatten behind),
      count-append x b (flatten s.requested),
    )
Step-tally x s _ (request_failed _ before b behind busy) =
    let working : total x s.busy ≡ total x (before ++ (b ∷ behind)) = ap (total x) busy in
    omega (
      arith,
      working,
      total-append x before (b ∷ behind),
      total-append x before behind,
      count-append x b (flatten behind),
      count-append x b s.lost,
    )
Step-tally x s _ (leave _ k p q i) = refl
Step-tally x s _ (cancel _ c) = refl
Step-tally x s _ (cancel_worker _ k c i) = refl
Step-tally x s _ (cancel_producer _ c cancelled p) =
    let holds : count x (held s.producer) ≡ count x c = ap (λ q. count x (held q)) p in
    omega (arith, holds, count-append x (c ++ s.unread) s.lost, count-append x c s.unread)
