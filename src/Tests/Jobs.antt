-- ===== src/Tests/Jobs.antt =====
-- Runs of the job queue.
use agentback.Base.{
  ℕ, ◌≤◌, ◌≡◌, refl, ◌⊎◌, String, true, false, none, some, List, [], ◌∷◌, ◌==◌, if◌then◌else◌,
  arith, Result, ok, err,
}
use agentback.Base.Map.{lookup, insert, erase}
use agentback.Jobs.Store.{
  waiting, active, completed, failed, fixed, omitted, flag, EnqueueOptions, StoredJob, Store, fresh,
  enqueue, get, with_member, put_cell,
}
use agentback.Jobs.Queue.{
  own, reason, returned, rejected, Attempt, WorkerOptions, Queue, idle, cancel,
}
use agentback.Jobs.Worker.{Move, enqueues, pumps, ends, elapses, settles, step, run}
use agentback.Jobs.Worker.Count.{count}
use agentback.Jobs.Worker.Invariant.{is_running, is_of}
use agentback.Jobs.Worker.Runs.{run-concurrency, run-attempts, run-final, run-abandoned}
use agentback.Jobs.Worker.Cancelled.{run-cancelled}
use agentback.Jobs.Enqueued.{get-enqueue}

abbrev parse : ℕ → Result ℕ ℕ
parse n = if n == 99 then err 0 else ok n

abbrev job_number : ℕ → String
job_number n = if n == 1 then "job_1" else "job_2"

-- One attempt at a time, of at most 50 ms.
abbrev worker : WorkerOptions
worker = record { name = "mail"; concurrency = some 1; timeout_ms = some 50 }

abbrev two_attempts : EnqueueOptions
two_attempts = record {
  job_id = none;
  delay_ms = none;
  attempts = some 2;
  backoff = some (fixed 10);
  remove_on_complete = omitted;
  remove_on_fail = flag true;
  meta = none;
}

abbrev idle_queue : Queue ℕ
idle_queue = idle

abbrev stored : StoredJob ℕ
stored = record {
  id = "job_1";
  queue = "mail";
  raw = 7;
  attempt = 0;
  state = waiting;
  available_at = 0;
  enqueued_at = 0;
  started_at = none;
  opts = two_attempts;
}

-- Two jobs, of which the first runs.
abbrev started : List (Move ℕ)
started =
    enqueues 0 "mail" 7 two_attempts ∷ enqueues 0 "mail" 8 two_attempts ∷ pumps 0 ∷ pumps 0 ∷ []

run-concurrency_example :
    (count is_running
        (run parse job_number worker idle_queue started).attempts
        (run parse job_number worker idle_queue started).next
      ≡ (run parse job_number worker idle_queue started).active)
    × ((run parse job_number worker idle_queue started).active ≤ 1)
run-concurrency_example = run-concurrency parse job_number worker started

-- The only attempt throws, and the job waits for another.
abbrev retried : List (Move ℕ)
retried = enqueues 0 "mail" 7 two_attempts ∷ pumps 0 ∷ ends 0 (rejected (own 5)) ∷ settles 3 0 ∷ []

run-attempts_example :
    (count
        (is_of 0)
        (run parse job_number worker idle_queue retried).attempts
        (run parse job_number worker idle_queue retried).next
      ≡ 1)
    × (count
          (is_of 0)
          (run parse job_number worker idle_queue retried).attempts
          (run parse job_number worker idle_queue retried).next
        ≤ 2)
unfolding run lookup insert erase
run-attempts_example =
    run-attempts parse job_number worker retried 0
      (record stored { attempt = 1; available_at = 13; started_at = some 0 }) refl

-- The deadline of the attempt passes, and then it goes on.
abbrev abandoned : List (Move ℕ)
abandoned = enqueues 0 "mail" 7 two_attempts ∷ pumps 0 ∷ elapses 50 0 ∷ []

abbrev abandoned_attempt : Attempt
abandoned_attempt = record {
  job = 0;
  id = "job_1";
  deadline = some 50;
  race = some (rejected (reason 0));
  over = false;
}

abbrev running : StoredJob ℕ
running = record stored { state = active; started_at = some 0 }

abbrev later : List (Move ℕ)
later = settles 50 0 ∷ pumps 60 ∷ []

run-abandoned_example :
    let s = run parse job_number worker idle_queue abandoned in
    let t = run parse job_number worker s later in
    let failed_job = record running { attempt = 1; state = failed } in
    (count (is_of 0) t.attempts t.next ≡ count (is_of 0) s.attempts s.next)
    × (((t.attempts 0 ≡ some abandoned_attempt) × (t.store.cells 0 ≡ some running))
        ⊎ (t.store.cells 0 ≡ some failed_job))
    × ((step parse job_number worker t (settles 9 0)).store.cells 0 ≡ some failed_job)
unfolding run lookup insert erase
run-abandoned_example =
    run-abandoned parse job_number worker 0 0 abandoned_attempt running refl abandoned later 9 refl
      refl (omega arith) refl

abbrev finished : List (Move ℕ)
finished = enqueues 0 "mail" 7 two_attempts ∷ pumps 0 ∷ ends 0 returned ∷ settles 3 0 ∷ []

run-final_example :
    (run parse job_number worker
        (run parse job_number worker idle_queue finished)
        later).store.cells
      0
    ≡ some (record stored { state = completed; started_at = some 0 })
unfolding run lookup insert erase
run-final_example =
    run-final parse job_number worker 0 (record stored { state = completed; started_at = some 0 })
      refl finished later refl

abbrev waits : List (Move ℕ)
waits = enqueues 0 "mail" 7 two_attempts ∷ []

run-cancelled_example :
    ((cancel "mail" "job_1" (run parse job_number worker idle_queue waits)).0 ≡ true)
    × (count
          (is_of 0)
          (run parse job_number worker
            (cancel "mail" "job_1" (run parse job_number worker idle_queue waits)).1
            later).attempts
          (run parse job_number worker
            (cancel "mail" "job_1" (run parse job_number worker idle_queue waits)).1
            later).next
        ≡ count
            (is_of 0)
            (run parse job_number worker idle_queue waits).attempts
            (run parse job_number worker idle_queue waits).next)
unfolding run lookup insert erase
run-cancelled_example =
    run-cancelled parse job_number worker waits later "job_1" 0 stored refl refl refl refl

abbrev named : EnqueueOptions
named = record two_attempts { job_id = some "daily" }

abbrev after_enqueue : Store ℕ
after_enqueue = record {
  counter = 0;
  jobs = ("mail", 0 ∷ []) ∷ [];
  by_id = ("daily", 0) ∷ [];
  seen_job_ids = with_member "daily" (λ id. false);
  paused = λ name. false;
  cells = put_cell (λ r. none) 0 (record stored { id = "daily"; opts = named });
  next = 1;
}

get-enqueue_example :
    (get "mail" "daily" after_enqueue
      ≡ some (record { id = "daily"; state = waiting; payload = 7; attempt = 0; meta = [] }))
    × ((given : String)
        → some "daily" ≡ some given
        → (later' : ℕ) (payload' raw' : ℕ) → parse payload' ≡ ok raw'
        → enqueue parse job_number later' "mail" payload' named after_enqueue
          ≡ ok (given, after_enqueue))
unfolding enqueue lookup insert
get-enqueue_example =
    get-enqueue parse job_number 0 "mail" 7 7 named fresh refl refl "daily" after_enqueue refl
