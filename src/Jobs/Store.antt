-- ===== src/Jobs/Store.antt =====
-- packages/messaging/src/in-memory/in-memory-store.ts and `enqueue`, `get` of in-memory-job-queue.ts.
-- A stored job is an object that the queue's list, `byId` and a running attempt share: `cells` holds
-- the objects by number, and everything else holds their numbers. The two sets are their tests.
use agentback.Base.{
  ℕ, suc, ◌+◌, String, Bool, true, false, not, ◌&&◌, ◌||◌, Option, none, some, List, [], ◌∷◌, ◌++◌,
  ◌==◌, str_eq, select, if◌then◌else◌, Result, ok, err,
}
use agentback.Base.Map.{Map, lookup, insert, erase}

pub data JobState : Type 0 where
  waiting delayed active completed failed : JobState

pub data Backoff : Type 0 where
  fixed exponential : ℕ → Backoff

-- `removeOnComplete` and `removeOnFail`: left out, a boolean, or the object form.
pub data Removal : Type 0 where
  omitted by_policy : Removal
  flag : Bool → Removal

pub record EnqueueOptions : Type 0 where
  pub job_id : Option String
  pub delay_ms : Option ℕ
  pub attempts : Option ℕ
  pub backoff : Option Backoff
  pub remove_on_complete : Removal
  pub remove_on_fail : Removal
  pub meta : Option (Map String)

pub record StoredJob (A : Type 0) : Type 0 where
  pub id : String
  pub queue : String
  pub raw : A
  pub attempt : ℕ
  pub state : JobState
  pub available_at : ℕ
  pub enqueued_at : ℕ
  pub started_at : Option ℕ
  pub opts : EnqueueOptions

pub record Store (A : Type 0) : Type 0 where
  pub counter : ℕ
  pub jobs : Map (List ℕ)
  pub by_id : Map ℕ
  pub seen_job_ids : String → Bool
  pub paused : String → Bool
  pub cells : ℕ → Option (StoredJob A)
  pub next : ℕ  -- the number of the next object

abbrev pub fresh : {A : Type 0} → Store A
fresh = record {
  counter = 0;
  jobs = [];
  by_id = [];
  seen_job_ids = λ id. false;
  paused = λ name. false;
  cells = λ r. none;
  next = 0;
}

abbrev pub put_cell : {V : Type 0} → (ℕ → Option V) → ℕ → V → ℕ → Option V
put_cell cells r v i = if r == i then some v else cells i

abbrev pub with_member : String → (String → Bool) → String → Bool
with_member id members asked = str_eq id asked || members asked

abbrev pub without_member : String → (String → Bool) → String → Bool
without_member id members asked = not (str_eq id asked) && members asked

abbrev pub or_empty : {V : Type 0} → Option (List V) → List V
or_empty none = []
or_empty (some xs) = xs

abbrev pub or_zero : Option ℕ → ℕ
or_zero none = 0
or_zero (some n) = n

abbrev pub or_one : Option ℕ → ℕ
or_one none = 1
or_one (some n) = n

abbrev pub is_pending : JobState → Bool
is_pending waiting = true
is_pending delayed = true
is_pending active = false
is_pending completed = false
is_pending failed = false

-- `opts.jobId`, where it is truthy.
abbrev pub dedup_key : Option String → Option String
dedup_key none = none
dedup_key (some id) = if str_eq id "" then none else some id

-- `opts.delayMs ? 'delayed' : 'waiting'`
abbrev pub first_state : ℕ → JobState
first_state delay = if delay == 0 then waiting else delayed

abbrev pub note_seen : Option String → (String → Bool) → String → Bool
note_seen none seen = seen
note_seen (some id) seen = with_member id seen

module _ {A : Type 0} where
  -- list; the empty list that it leaves for a name without one is not kept.
  abbrev pub list : Store A → String → List ℕ
  list s name = or_empty (lookup name s.jobs)

  abbrev pub differs : String → Option (StoredJob A) → Bool
  differs id none = true
  differs id (some job) = not (str_eq job.id id)

  abbrev pub keep_others : Store A → String → String → Option (List ℕ) → Map (List ℕ)
  keep_others s name id none = s.jobs
  keep_others s name id (some refs) = insert name (select (λ r. differs id (s.cells r)) refs) s.jobs

  -- remove
  unfoldable pub remove : String → String → Store A → Store A
  remove name id s = record s {
    jobs = keep_others s name id (lookup name s.jobs);
    by_id = erase id s.by_id;
    seen_job_ids = without_member id s.seen_job_ids;
  }

  abbrev pub is_seen : Store A → Option String → Bool
  is_seen s none = false
  is_seen s (some id) = s.seen_job_ids id

  abbrev pub push_job : ℕ → String → String → A → EnqueueOptions → Store A → Store A
  push_job now name id raw opts s = record s {
    jobs = insert name (list s name ++ s.next ∷ []) s.jobs;
    by_id = insert id s.next s.by_id;
    cells = put_cell s.cells s.next record {
      id = id;
      queue = name;
      raw = raw;
      attempt = 0;
      state = first_state (or_zero opts.delay_ms);
      available_at = now + or_zero opts.delay_ms;
      enqueued_at = now;
      started_at = none;
      opts = opts;
    };
    next = suc s.next;
  }

-- What `schema.parse` gives, and the id that a counter is printed as, are parameters.
module _ {A E : Type 0} (parse : A → Result E A) (job_number : ℕ → String) where
  abbrev pub name_job : String → ℕ → A → EnqueueOptions → Store A → Option String → String × Store A
  name_job name now raw opts s (some id) =
      let s' = record s { seen_job_ids = note_seen (dedup_key (some id)) s.seen_job_ids } in
      (id, push_job now name id raw opts s')
  name_job name now raw opts s none =
      let n = suc s.counter in
      let s' = record s { counter = n } in
      (job_number n, push_job now name (job_number n) raw opts s')

  abbrev pub seen_or_pushed : Option String → String × Store A → Store A → String × Store A
  seen_or_pushed none pushed s = pushed
  seen_or_pushed (some id) pushed s = if s.seen_job_ids id then (id, s) else pushed

  -- enqueue: the id of the job, which the reference that it returns holds, and the store.
  unfoldable pub enqueue : ℕ → String → A → EnqueueOptions → Store A → Result E (String × Store A)
  enqueue now name payload opts s = elim (parse payload) [
    | err e ↦ err e
    | ok raw ↦
        ok (seen_or_pushed (dedup_key opts.job_id) (name_job name now raw opts s opts.job_id) s)
  ]

pub record JobInfo (A : Type 0) : Type 0 where
  pub id : String
  pub state : JobState
  pub payload : A
  pub attempt : ℕ
  pub meta : Map String

abbrev pub or_no_meta : Option (Map String) → Map String
or_no_meta none = []
or_no_meta (some meta) = meta

module _ {A : Type 0} where
  abbrev pub cell_at : Store A → Option ℕ → Option (StoredJob A)
  cell_at s none = none
  cell_at s (some r) = s.cells r

  abbrev pub info_of : String → Option (StoredJob A) → Option (JobInfo A)
  info_of name none = none
  info_of name (some job) =
      if str_eq job.queue name
      then some (record {
        id = job.id;
        state = job.state;
        payload = job.raw;
        attempt = job.attempt;
        meta = or_no_meta job.opts.meta;
      })
      else none

  -- get
  unfoldable pub get : String → String → Store A → Option (JobInfo A)
  get name id s = info_of name (cell_at s (lookup id s.by_id))
