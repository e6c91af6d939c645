-- ===== src/Jobs/Worker.antt =====
-- The loop of `process` and `close`, packages/messaging/src/in-memory/in-memory-job-queue.ts, and every
-- order in which the worker, its handlers, its timers and the callers of the queue may move.
pub mod Count
pub mod Invariant
pub mod Rule
pub mod Steps
pub mod Moves
pub mod Runs
pub mod Cancelled
use agentback.Base.{
  ℕ, suc, String, Bool, true, false, not, ◌&&◌, Option, none, some, List, [], ◌∷◌, ltb, leb, find,
  if◌then◌else◌, Result, ok, err,
}
use agentback.Base.Map.{insert}
use agentback.Jobs.Store.{
  JobState, active, EnqueueOptions, StoredJob, Store, put_cell, list, enqueue, is_pending, or_one,
}
use agentback.Jobs.Admin.{drain, pause, resume, discard_stalled}
use agentback.Jobs.Queue.{
  Thrown, own, Ended, returned, rejected, Attempt, WorkerOptions, Queue, due_at, end_race, elapse,
  cancel, write, finish, settle,
}

-- What happens next. The first number of a move is the clock, where the code reads it.
pub data Move (A : Type 0) : Type 0 where
  enqueues : ℕ → String → A → EnqueueOptions → Move A
  cancels : String → String → Move A
  pumps : ℕ → Move A
  ends : ℕ → Ended → Move A
  elapses settles : ℕ → ℕ → Move A
  closes : Move A
  drains pauses resumes : String → Move A
  discards : ℕ → String → ℕ → Bool → Move A

-- `opts.concurrency ?? 1`
abbrev pub concurrency : WorkerOptions → ℕ
concurrency w = or_one w.concurrency

module _ {A : Type 0} (w : WorkerOptions) where
  -- The attempt that `runOne` starts.
  abbrev pub attempt_of : ℕ → ℕ → StoredJob A → Attempt
  attempt_of now r job = record {
    job = r;
    id = job.id;
    deadline = due_at now w.timeout_ms;
    race = none;
    over = false;
  }

  abbrev pub opened : ℕ → ℕ → StoredJob A → Queue A → Queue A
  opened now r job s = record s {
    store = write r (record job { started_at = some now; state = active }) s.store;
    attempts = put_cell s.attempts s.next (attempt_of now r job);
    active = suc s.active;
    next = suc s.next;
  }

-- `schema.parse` and the print of the counter are parameters.
module _ {A E : Type 0} (parse : A → Result E A) (job_number : ℕ → String) (w : WorkerOptions) where
  abbrev pub enter : ℕ → ℕ → StoredJob A → Queue A → Result E A → Queue A
  enter now r job s (ok data') = record (opened w now r job s) {
    live = insert job.id s.next s.live;
  }
  enter now r job s (err e) =
      finish w.name now s.next (attempt_of w now r job) (rejected (own 0)) (opened w now r job s)

  -- runOne, up to the handler's first `await`. What `schema.parse` throws is caught like an error of
  -- the handler, before `deadlines.run`.
  unfoldable pub run_one : ℕ → ℕ → StoredJob A → Queue A → Queue A
  unfolding finish
  run_one now r job s = enter now r job s (parse job.raw)

  abbrev pub ready_job : ℕ → Option (StoredJob A) → Bool
  ready_job now none = false
  ready_job now (some job) = is_pending job.state && leb job.available_at now

  abbrev pub is_ready : ℕ → Store A → ℕ → Bool
  is_ready now store r = not (store.paused w.name) && ready_job now (store.cells r)

  abbrev pub run_cell : ℕ → ℕ → Option (StoredJob A) → Queue A → Queue A
  run_cell now r none s = s
  run_cell now r (some job) s = run_one now r job s

  abbrev pub run_found : ℕ → Option ℕ → Queue A → Queue A
  run_found now none s = s
  run_found now (some r) s =
      if ltb s.active (concurrency w) then run_cell now r (s.store.cells r) s else s

  -- One round of the loop in `pump`.
  unfoldable pub pump : ℕ → Queue A → Queue A
  unfolding run_one
  pump now s =
      if s.closed then s else run_found now (find (is_ready now s.store) (list s.store w.name)) s

  -- A payload that `schema.parse` refuses is not stored.
  abbrev pub enqueued : Queue A → Result E (String × Store A) → Queue A
  enqueued s (ok (id, store)) = record s { store = store }
  enqueued s (err e) = s

  unfoldable pub step : Queue A → Move A → Queue A
  unfolding enqueue cancel pump end_race elapse settle drain pause resume discard_stalled
  step s (enqueues now name payload opts) =
      enqueued s (enqueue parse job_number now name payload opts s.store)
  step s (cancels name id) = (cancel name id s).1
  step s (pumps now) = pump now s
  step s (ends c e) = end_race c e s
  step s (elapses now c) = elapse now c s
  step s (settles now c) = settle w.name now c s
  step s closes = record s { closed = true }
  step s (drains name) = record s { store = drain name s.store }
  step s (pauses name) = record s { store = pause name s.store }
  step s (resumes name) = record s { store = resume name s.store }
  step s (discards now name secs dry_run) = record s {
    store = (discard_stalled now name secs dry_run s.store).1;
  }

  unfoldable pub run : Queue A → List (Move A) → Queue A
  unfolding step
  run s [] = s
  run s (move ∷ moves) = run (step s move) moves
