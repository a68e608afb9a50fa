-- ===== src/Tests/Workers.antt =====
-- Runs of the goroutines that delete objects.
use mathlib.Core.Path.{subst}
use kubernetes_csi_driver.Base.{
  ℕ, zero, suc, ◌+◌, ◌*◌, ◌≤◌, ◌≡◌, ◌⊎◌, refl, true, false, List, [], ◌∷◌, ◌++◌, length, All, none,
  some, Result, ok, arith,
}
use kubernetes_csi_driver.Text.{Str, lit, is_blank, count}
use kubernetes_csi_driver.Qiniu.{is_full}
use kubernetes_csi_driver.Qiniu.Workers.{
  collecting, sending, Pool, worker_count, start, after_send, Step, take_name, send_rest,
  send_batch, take_batch, request_done, leave, cancel, Steps, stay, go_on, IsOver, fails_with,
}
use kubernetes_csi_driver.Qiniu.Workers.Tally.{total}
use kubernetes_csi_driver.Qiniu.Workers.Completion.{members}
use kubernetes_csi_driver.Qiniu.Batches.{flatten}
use kubernetes_csi_driver.Qiniu.Workers.Deadlock.{IsFullBatch, deletion_deadlocks}
use kubernetes_csi_driver.Qiniu.{Line, list_objects, decode_lines, last_marker, object_names, keep}
use kubernetes_csi_driver.Qiniu.Listing.{Serves}
use kubernetes_csi_driver.Qiniu.Cleaning.{delete_objects, clean_objects, clean_objects_complete}
use kubernetes_csi_driver.Qiniu.Workers.Progress.{
  IsStuck, deletion_bounded, deletion_progresses, deletion-IsStuck, steps_taken,
}

-- One object, whose request succeeds.
abbrev names : List Str
names = lit "a" ∷ []

abbrev collected : Pool
collected = record (start names) { unread = []; producer = collecting names }

abbrev ready : Pool
ready = record collected { producer = sending names true }

abbrev sent : Pool
sent = record collected { producer = after_send true; queue = names ∷ [] }

abbrev taken : Pool
taken = record sent { queue = []; idle = 9; busy = names ∷ [] }

-- After the request, when some workers have left.
abbrev done : ℕ → ℕ → Pool
done idle gone = record taken { idle = idle; busy = []; gone = gone; requested = names ∷ [] }

requested_run : Steps (start names) (done 10 0)
unfolding start after_send is_full
requested_run =
    go_on _ taken (done 10 0)
      (go_on _ sent taken
        (go_on _ ready sent
          (go_on _ collected ready
            (go_on _ (start names) collected (stay _)
              (take_name (start names) [] (lit "a") [] refl refl refl))
            (send_rest collected (lit "a") [] refl refl))
          (send_batch ready names true refl (omega arith)))
        (take_batch sent names [] 9 refl refl))
      (request_done taken [] names [] refl)

one_leaves : (k g : ℕ) → Step (done (suc k) g) (done k (suc g))
unfolding start after_send
one_leaves k g = leave (done (suc k) g) k refl refl refl

-- The workers leave one after the other.
all_leave : (k g : ℕ) → Steps (start names) (done k g) → Steps (start names) (done 0 (k + g))
all_leave zero g run = subst (λ n. Steps (start names) (done 0 n)) (omega arith) run
all_leave (suc k) g run =
    subst (λ n. Steps (start names) (done 0 n)) (omega arith)
      (all_leave k (suc g) (go_on _ (done (suc k) g) (done k (suc g)) run (one_leaves k g)))

whole_run : Steps (start names) (done 0 10)
whole_run = all_leave 10 0 requested_run

over : IsOver (done 0 10)
unfolding after_send
over = record { producer_closed = refl; none_idle = refl; none_busy = refl }

no_error : fails_with (done 0 10) ≡ false
unfolding start fails_with
no_error = refl

no_errors : (done 0 10).errors ≡ 0
unfolding start
no_errors = refl

deletion_progresses_example : IsOver (done 0 10) ⊎ ((t : Pool) × Step (done 0 10) t)
deletion_progresses_example = deletion_progresses names (done 0 10) whole_run no_errors

deletion_bounded_example : steps_taken whole_run ≤ 4 * length names + 12
deletion_bounded_example = deletion_bounded names (done 0 10) whole_run

-- Ten workers have left with errors, ten batches wait, and the producer has one more.
abbrev waiting : List (List Str)
waiting = names ∷ names ∷ names ∷ names ∷ names ∷ names ∷ names ∷ names ∷ names ∷ names ∷ []

abbrev deserted : Pool
deserted = record {
  unread = [];
  producer = sending names true;
  queue = waiting;
  idle = 0;
  busy = [];
  gone = 10;
  requested = [];
  lost = [];
  errors = 10;
  cancelled = false;
}

deserted-IsStuck : IsStuck deserted
deserted-IsStuck = record {
  all_gone = refl;
  batch = names;
  last = true;
  still_sending = refl;
  no_room = omega arith;
}

ten_deserted : members deserted ≡ worker_count
unfolding members
ten_deserted = refl

deletion-IsStuck_example :
    IsStuck (record deserted { cancelled = true }) × (false ≡ false) × (true ≡ true)
deletion-IsStuck_example =
    deletion-IsStuck deserted (record deserted { cancelled = true }) deserted-IsStuck ten_deserted
      (cancel deserted refl)

-- The bucket with this one object, on one page.
abbrev send_page : Str → Result Str (List Line)
send_page m = ok (record { marker = some []; key = some (lit "a") } ∷ [])

page_listed : list_objects send_page 1 [] ≡ some (names, none)
unfolding list_objects is_blank last_marker decode_lines object_names keep
page_listed = refl

cleaned : clean_objects {E = Str} (ok tt) (delete_objects (ok tt) [] (done 0 10)) none ≡ ok tt
unfolding clean_objects delete_objects start fails_with
cleaned = refl

clean_objects_complete_example :
    ((n : ℕ) × Serves send_page [] names n)
    × ((x : Str) → total x (done 0 10).requested ≡ count x names)
clean_objects_complete_example =
    clean_objects_complete send_page (ok tt) (ok tt) [] 1 names none (done 0 10) page_listed
      whole_run over cleaned

-- A bucket of 2100 objects, whose first ten requests fail.
abbrev copies {ℓ} : {A : Type ℓ} → ℕ → A → List A
copies zero x = []
copies (suc n) x = x ∷ copies n x

abbrev hundred : List Str
hundred = copies 100 (lit "a")

hundred-IsFullBatch : IsFullBatch hundred
hundred-IsFullBatch = refl

copies_fill : (n : ℕ) → All IsFullBatch (copies n hundred)
copies_fill zero = tt
copies_fill (suc n) = (hundred-IsFullBatch, copies_fill n)

deletion_deadlocks_example :
    (s : Pool) × Steps
      (start (flatten (copies 10 hundred) ++ (flatten (copies 10 hundred) ++ (hundred ++ []))))
      s
    × IsStuck s
deletion_deadlocks_example =
    deletion_deadlocks (copies 10 hundred) (copies 10 hundred) hundred [] (copies_fill 10)
      (copies_fill 10) hundred-IsFullBatch refl refl
