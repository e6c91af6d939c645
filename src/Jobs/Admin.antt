-- ===== src/Jobs/Admin.antt =====
-- packages/messaging/src/in-memory/in-memory-queue-admin.ts
use agentback.Base.{
  ℕ, ◌+◌, ◌*◌, String, Bool, true, false, ◌&&◌, Option, none, some, List, [], ◌∷◌, length, ltb,
  select, if◌then◌else◌,
}
use agentback.Jobs.Store.{
  JobState, waiting, delayed, active, completed, failed, StoredJob, Store, list, remove, is_pending,
  with_member, without_member,
}

pub record QueueStats : Type 0 where
  pub waiting : ℕ
  pub active : ℕ
  pub delayed : ℕ
  pub completed : ℕ
  pub failed : ℕ

-- `===` on states.
abbrev pub same_state : JobState → JobState → Bool
same_state waiting waiting = true
same_state delayed delayed = true
same_state active active = true
same_state completed completed = true
same_state failed failed = true
same_state _ _ = false

abbrev over_cell : {A : Type 0} → (StoredJob A → Bool) → Option (StoredJob A) → Bool
over_cell p none = false
over_cell p (some job) = p job

abbrev started_before : ℕ → ℕ → Option ℕ → Bool
started_before now age none = false
started_before now age (some started) = ltb (started + age) now

module _ {A : Type 0} where
  abbrev pub in_state : Store A → JobState → ℕ → Bool
  in_state s state r = over_cell (λ job. same_state job.state state) (s.cells r)

  -- `count` of stats
  abbrev pub count_state : Store A → String → JobState → ℕ
  count_state s name state = length (select (in_state s state) (list s name))

  -- stats
  unfoldable pub stats : String → Store A → QueueStats
  stats name s = record {
    waiting = count_state s name waiting;
    active = count_state s name active;
    delayed = count_state s name delayed;
    completed = count_state s name completed;
    failed = count_state s name failed;
  }

  abbrev pub drain_cell : String → Option (StoredJob A) → Store A → Store A
  drain_cell name none s = s
  drain_cell name (some job) s = if is_pending job.state then remove name job.id s else s

  unfoldable pub drain_each : String → List ℕ → Store A → Store A
  drain_each name [] s = s
  drain_each name (r ∷ refs) s = drain_each name refs (drain_cell name (s.cells r) s)

  -- drain
  unfoldable pub drain : String → Store A → Store A
  unfolding drain_each
  drain name s = drain_each name (list s name) s

  -- pause
  unfoldable pub pause : String → Store A → Store A
  pause name s = record s { paused = with_member name s.paused }

  -- resume
  unfoldable pub resume : String → Store A → Store A
  resume name s = record s { paused = without_member name s.paused }

  abbrev pub is_stalled : ℕ → ℕ → Store A → ℕ → Bool
  is_stalled now age s r =
      over_cell (λ job. same_state job.state active && started_before now age job.started_at)
        (s.cells r)

  abbrev pub remove_cell : String → Option (StoredJob A) → Store A → Store A
  remove_cell name none s = s
  remove_cell name (some job) s = remove name job.id s

  unfoldable pub remove_each : String → List ℕ → Store A → Store A
  remove_each name [] s = s
  remove_each name (r ∷ refs) s = remove_each name refs (remove_cell name (s.cells r) s)

  -- discardStalled: `j.startedAt < now - olderThanSecs * 1000`.
  unfoldable pub discard_stalled : ℕ → String → ℕ → Bool → Store A → ℕ × Store A
  unfolding remove_each
  discard_stalled now name older_than_secs dry_run s =
      let stalled = select (is_stalled now (older_than_secs * 1000) s) (list s name) in
      (length stalled, if dry_run then s else remove_each name stalled s)
