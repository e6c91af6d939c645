-- ===== src/Jobs/Queue.antt =====
-- `InMemoryJobQueue` with one `process` call, packages/messaging/src/in-memory/in-memory-job-queue.ts,
-- and packages/messaging/src/job-deadlines.ts. Every `await` is a point where other moves come in
-- between. An attempt stands for one run of `runOne`, with its abort controller; it is kept when it
-- is over.
use agentback.Base.{
  ℕ, suc, ◌+◌, ◌-◌, ◌*◌, ◌^◌, String, Bool, true, false, not, ◌&&◌, Option, none, some, [], ltb,
  leb, str_eq, if◌then◌else◌,
}
use agentback.Base.Map.{Map, lookup, erase}
use agentback.Jobs.Store.{
  JobState, waiting, completed, failed, Backoff, fixed, exponential, Removal, omitted, by_policy,
  flag, EnqueueOptions, StoredJob, Store, fresh, put_cell, remove, is_pending, or_one, cell_at,
}

-- backoffDelay
unfoldable pub backoff_delay : Option Backoff → ℕ → ℕ
backoff_delay none attempt = 0
backoff_delay (some (fixed delay)) attempt = delay
backoff_delay (some (exponential delay)) attempt = delay * 2 ^ (attempt - 1)

-- What a handler throws: an error of its own, or a reason that `JobDeadlines` aborted a signal with;
-- the reasons are numbered as they are issued.
pub data Thrown : Type 0 where
  own reason : ℕ → Thrown

pub data Ended : Type 0 where
  returned : Ended
  rejected : Thrown → Ended

-- `race` is how the race of the handler and the abort ended, if it did.
pub record Attempt : Type 0 where
  pub job : ℕ
  pub id : String
  pub deadline : Option ℕ
  pub race : Option Ended
  pub over : Bool

pub record WorkerOptions : Type 0 where
  pub name : String  -- the queue's
  pub concurrency : Option ℕ
  pub timeout_ms : Option ℕ

-- The store, `JobDeadlines` (`live`, and how many reasons are in `issued`), and the variables of
-- `process`.
pub record Queue (A : Type 0) : Type 0 where
  pub store : Store A
  pub live : Map ℕ
  pub issued : ℕ
  pub attempts : ℕ → Option Attempt
  pub next : ℕ  -- the number of the next attempt
  pub active : ℕ
  pub closed : Bool

abbrev pub idle : {A : Type 0} → Queue A
idle = record {
  store = fresh;
  live = [];
  issued = 0;
  attempts = λ c. none;
  next = 0;
  active = 0;
  closed = false;
}

-- isAbandonment
abbrev pub is_abandonment : ℕ → Thrown → Bool
is_abandonment issued (own n) = false
is_abandonment issued (reason n) = ltb n issued

abbrev pub due_at : ℕ → Option ℕ → Option ℕ
due_at now none = none
due_at now (some timeout) = some (now + timeout)

abbrev removes : Removal → Bool
removes omitted = false
removes by_policy = false
removes (flag b) = b

-- The first result of a race stays.
abbrev pub first_end : Ended → Option Ended → Option Ended
first_end e none = some e
first_end e (some earlier) = some earlier

abbrev is_due : ℕ → Option ℕ → Bool
is_due now none = false
is_due now (some due) = leb due now

-- Whether `runOne` removes a job that it left in this state.
abbrev drops : EnqueueOptions → JobState → Bool
drops opts completed = removes opts.remove_on_complete
drops opts failed = removes opts.remove_on_fail
drops opts _ = false

module _ {A : Type 0} where
  abbrev ended : Queue A → ℕ → Ended → Option Attempt → Queue A
  ended s c e none = s
  ended s c e (some a) =
      if a.over
      then s
      else record s { attempts = put_cell s.attempts c (record a { race = first_end e a.race }) }

  -- The handler of an attempt settles, or its signal rejects the race.
  unfoldable pub end_race : ℕ → Ended → Queue A → Queue A
  end_race c e s = ended s c e (s.attempts c)

  -- abandon, of `JobDeadlines`
  unfoldable pub abandon : ℕ → Queue A → Queue A
  unfolding end_race
  abandon c s = end_race c (rejected (reason s.issued)) (record s { issued = suc s.issued })

  abbrev elapse_over : ℕ → ℕ → Queue A → Option Attempt → Queue A
  elapse_over now c s none = s
  elapse_over now c s (some a) = if not a.over && is_due now a.deadline then abandon c s else s

  -- The timer of an attempt, which `clearTimeout` stops when the attempt is over.
  unfoldable pub elapse : ℕ → ℕ → Queue A → Queue A
  unfolding abandon
  elapse now c s = elapse_over now c s (s.attempts c)

  abbrev abort_over : Option ℕ → Queue A → Bool × Queue A
  abort_over none s = (false, s)
  abort_over (some c) s = (true, abandon c s)

  -- abort, of `JobDeadlines`
  unfoldable pub abort : String → Queue A → Bool × Queue A
  unfolding abandon
  abort id s = abort_over (lookup id s.live) s

  abbrev pub cancel_over : String → String → Queue A → Option (StoredJob A) → Bool × Queue A
  cancel_over name id s none = (false, s)
  cancel_over name id s (some job) =
      if not (str_eq job.queue name)
      then (false, s)
      else (if is_pending job.state
          then (true, record s { store = remove name id s.store })
          else abort id s)

  -- cancel
  unfoldable pub cancel : String → String → Queue A → Bool × Queue A
  unfolding abort
  cancel name id s = cancel_over name id s (cell_at s.store (lookup id s.store.by_id))

  -- The `try` of `runOne`, from what `deadlines.run` gave, and its `catch`: the job that it leaves.
  unfoldable pub conclude : ℕ → ℕ → Ended → StoredJob A → StoredJob A
  unfolding backoff_delay
  conclude now issued returned job = record job { state = completed }
  conclude now issued (rejected e) job =
      let attempt = suc job.attempt in
      if not (is_abandonment issued e) && ltb attempt (or_one job.opts.attempts)
      then record job {
        attempt = attempt;
        available_at = now + backoff_delay job.opts.backoff attempt;
        state = waiting;
      }
      else record job { attempt = attempt; state = failed }

  abbrev pub write : ℕ → StoredJob A → Store A → Store A
  write r job s = record s { cells = put_cell s.cells r job }

  abbrev pub write_back : String → ℕ → StoredJob A → Store A → Store A
  write_back name r job s =
      let s' = write r job s in if drops job.opts job.state then remove name job.id s' else s'

  abbrev conclude_over : String → ℕ → ℕ → Ended → Store A → ℕ → Option (StoredJob A) → Store A
  conclude_over name now issued e s r none = s
  conclude_over name now issued e s r (some job) = write_back name r (conclude now issued e job) s

  -- The rest of `runOne`, with its `finally`.
  unfoldable pub finish : String → ℕ → ℕ → Attempt → Ended → Queue A → Queue A
  unfolding conclude
  finish name now c a e s = record s {
    store = conclude_over name now s.issued e s.store a.job (s.store.cells a.job);
    attempts = put_cell s.attempts c (record a { over = true });
    active = s.active - 1;
  }

  abbrev pub settle_race : String → ℕ → ℕ → Attempt → Option Ended → Queue A → Queue A
  settle_race name now c a none s = s
  settle_race name now c a (some e) s =
      if a.over then s else finish name now c a e (record s { live = erase a.id s.live })

  abbrev pub settle_over : String → ℕ → ℕ → Option Attempt → Queue A → Queue A
  settle_over name now c none s = s
  settle_over name now c (some a) s = settle_race name now c a a.race s

  -- An attempt whose race is over goes on: the `finally` of `deadlines.run`, then `runOne`.
  unfoldable pub settle : String → ℕ → ℕ → Queue A → Queue A
  unfolding finish
  settle name now c s = settle_over name now c (s.attempts c) s
