-- ===== src/Qiniu/Workers.antt =====
-- The goroutines of deleteObjects in qiniu/kodo.go: a producer that collects names into batches, a
-- channel of batches, and ten workers that send them, as a step relation.
pub mod Tally
pub mod Completion
pub mod Progress
pub mod Deadlock
use kubernetes_csi_driver.Base.{
  ℕ, zero, suc, ◌+◌, ◌<◌, ◌≡◌, Bool, true, false, List, [], ◌∷◌, ◌++◌, length, if◌then◌else◌,
}
use kubernetes_csi_driver.Text.{Str}
use kubernetes_csi_driver.Qiniu.Objects.{is_full}

-- The producer: it waits for a name, or it sends a batch, which may be the last one; or it has
-- closed the channel and is gone.
pub data Producer : Type 0 where
  collecting : List Str → Producer
  sending : List Str → Bool → Producer
  closed : Producer

-- Workers are counted, since they do not differ. The names that the listing has still to give are
-- `unread`; those of `lost` were given up with an error.
pub record Pool : Type 0 where
  pub unread : List Str
  pub producer : Producer
  pub queue : List (List Str)
  pub idle : ℕ
  pub busy : List (List Str)
  pub gone : ℕ
  pub requested : List (List Str)
  pub lost : List Str
  pub errors : ℕ
  pub cancelled : Bool

-- `WORKER_COUNT`, which is also the capacity of the channel of batches.
abbrev pub worker_count : ℕ
worker_count = 10

unfoldable pub start : List Str → Pool
start names = record {
  unread = names;
  producer = collecting [];
  queue = [];
  idle = worker_count;
  busy = [];
  gone = 0;
  requested = [];
  lost = [];
  errors = 0;
  cancelled = false;
}

unfoldable pub after_send : Bool → Producer
after_send true = closed
after_send false = collecting []

pub data Step : Pool → Pool → Type 0 where
  -- The producer takes a name, and goes on or has a batch.
  take_name :
      (s : Pool) (c : List Str) (n : Str) (ns : List Str)
      → s.producer ≡ collecting c
      → s.unread ≡ n ∷ ns
      → is_full (c ++ (n ∷ [])) ≡ false
      → Step s (record s { unread = ns; producer = collecting (c ++ (n ∷ [])) })
  fill_batch :
      (s : Pool) (c : List Str) (n : Str) (ns : List Str)
      → s.producer ≡ collecting c
      → s.unread ≡ n ∷ ns
      → is_full (c ++ (n ∷ [])) ≡ true
      → Step s (record s { unread = ns; producer = sending (c ++ (n ∷ [])) false })
  -- The listing has ended, with names that wait or without.
  send_rest :
      (s : Pool) (n : Str) (c : List Str)
      → s.producer ≡ collecting (n ∷ c)
      → s.unread ≡ []
      → Step s (record s { producer = sending (n ∷ c) true })
  close_channel :
      (s : Pool)
      → s.producer ≡ collecting []
      → s.unread ≡ []
      → Step s (record s { producer = closed })
  -- The channel has room.
  send_batch :
      (s : Pool) (b : List Str) (last : Bool)
      → s.producer ≡ sending b last
      → length s.queue < worker_count
      → Step s (record s { producer = after_send last; queue = s.queue ++ (b ∷ []) })
  -- A worker takes a batch, and the request for it succeeds or fails.
  take_batch :
      (s : Pool) (b : List Str) (bs : List (List Str)) (k : ℕ)
      → s.queue ≡ b ∷ bs
      → s.idle ≡ suc k
      → Step s (record s { queue = bs; idle = k; busy = b ∷ s.busy })
  request_done :
      (s : Pool) (before : List (List Str)) (b : List Str) (behind : List (List Str))
      → s.busy ≡ before ++ (b ∷ behind)
      → Step s
          (record s { idle = suc s.idle; busy = before ++ behind; requested = b ∷ s.requested })
  request_failed :
      (s : Pool) (before : List (List Str)) (b : List Str) (behind : List (List Str))
      → s.busy ≡ before ++ (b ∷ behind)
      → Step s (record s {
        busy = before ++ behind;
        gone = suc s.gone;
        lost = b ++ s.lost;
        errors = suc s.errors;
      })
  -- The channel is closed and empty.
  leave :
      (s : Pool) (k : ℕ)
      → s.producer ≡ closed
      → s.queue ≡ []
      → s.idle ≡ suc k
      → Step s (record s { idle = k; gone = suc s.gone })
  -- The context of the request ends, which an idle worker and the collecting producer notice.
  cancel : (s : Pool) → s.cancelled ≡ false → Step s (record s { cancelled = true })
  cancel_worker :
      (s : Pool) (k : ℕ)
      → s.cancelled ≡ true
      → s.idle ≡ suc k
      → Step s (record s { idle = k; gone = suc s.gone; errors = suc s.errors })
  cancel_producer :
      (s : Pool) (c : List Str)
      → s.cancelled ≡ true
      → s.producer ≡ collecting c
      → Step s (record s {
        unread = [];
        producer = closed;
        lost = (c ++ s.unread) ++ s.lost;
        errors = suc s.errors;
      })

pub data Steps : Pool → Pool → Type 0 where
  stay : (s : Pool) → Steps s s
  go_on : (s t u : Pool) → Steps s t → Step t u → Steps s u

-- `wg.Wait` returns.
pub record IsOver (s : Pool) : Type 0 where
  pub producer_closed : s.producer ≡ closed
  pub none_idle : s.idle ≡ 0
  pub none_busy : s.busy ≡ []

-- The `select` at the end: whether an error is returned.
unfoldable pub fails_with : Pool → Bool
fails_with s = elim s.errors [ zero ↦ false | suc n ↦ true ]
