-- ===== src/Jobs/Worker/Invariant.antt =====
-- What holds of the jobs and the attempts of a queue, whatever happens to it.
use agentback.Base.{
  ℕ, suc, ◌+◌, ◌-◌, ◌≤◌, ◌<◌, ◌≡◌, ◌≢◌, Bool, true, false, not, Option, none, some, ◌==◌, max,
  arith, Option-cases, inl, inr,
}
use agentback.Jobs.Store.{
  JobState, waiting, delayed, active, completed, failed, StoredJob, put_cell, is_pending, or_one,
}
use agentback.Jobs.Queue.{Ended, returned, rejected, Attempt, conclude}
use agentback.Jobs.Worker.Count.{bit, count, count-put_cell, count-put_cell_next}

abbrev pub is_running : Option Attempt → Bool
is_running none = false
is_running (some a) = not a.over

abbrev pub is_of : ℕ → Option Attempt → Bool
is_of r none = false
is_of r (some a) = a.job == r

-- The states of a job that an attempt is in or has ended well.
abbrev pub is_entered : JobState → Bool
is_entered waiting = false
is_entered delayed = false
is_entered active = true
is_entered completed = true
is_entered failed = false

-- How often a job may be started: `attempts ?? 1`, but a job is started once in any case.
abbrev pub budget : {A : Type 0} → StoredJob A → ℕ
budget job = max 1 (or_one job.opts.attempts)

pub record Inv {A : Type 0} (cells : ℕ → Option (StoredJob A)) (born : ℕ)
    (attempts : ℕ → Option Attempt) (next running : ℕ) : Type 0 where
  pub cell_bound : (r : ℕ) (job : StoredJob A) → cells r ≡ some job → r < born
  pub attempt_bound : (c : ℕ) (a : Attempt) → attempts c ≡ some a → c < next
  pub counted : count is_running attempts next ≡ running
  pub there : (c : ℕ) (a : Attempt) → attempts c ≡ some a → cells a.job ≢ none
  pub held :
      (c : ℕ) (a : Attempt) (job : StoredJob A)
      → attempts c ≡ some a
      → a.over ≡ false
      → cells a.job ≡ some job
      → job.state ≡ active
  pub unique :
      (c d : ℕ) (a b : Attempt)
      → attempts c ≡ some a
      → attempts d ≡ some b
      → a.over ≡ false
      → b.over ≡ false
      → a.job ≡ b.job
      → c ≡ d
  pub spare :
      (r : ℕ) (job : StoredJob A)
      → cells r ≡ some job
      → is_pending job.state ≡ true
      → job.attempt < budget job
  pub spare_active :
      (r : ℕ) (job : StoredJob A)
      → cells r ≡ some job
      → job.state ≡ active
      → job.attempt < budget job
  pub within :
      (r : ℕ) (job : StoredJob A)
      → cells r ≡ some job
      → job.attempt + bit (is_entered job.state) ≤ budget job
  pub ran :
      (r : ℕ) (job : StoredJob A)
      → cells r ≡ some job
      → count (is_of r) attempts next ≡ job.attempt + bit (is_entered job.state)
  pub unborn : (r : ℕ) → born ≤ r → count (is_of r) attempts next ≡ 0

-- How an attempt leaves the job that it ran.
pub record Left {A : Type 0} (old job : StoredJob A) : Type 0 where
  pub pending : is_pending job.state ≡ true → job.attempt < budget job
  pub left : job.state ≢ active
  pub used : job.attempt + bit (is_entered job.state) ≡ suc old.attempt
  pub opts : job.opts ≡ old.opts

pub conclude-Left :
    {A : Type 0} (now issued : ℕ) (e : Ended) (job : StoredJob A)
    → Left job (conclude now issued e job)
unfolding conclude
conclude-Left now issued returned job = ground arith
conclude-Left now issued (rejected e) job = ground arith

module _ {A : Type 0} (cells : ℕ → Option (StoredJob A)) (born : ℕ) (attempts : ℕ → Option Attempt)
    (next running : ℕ) (v : Inv cells born attempts next running) where
  -- A job is stored.
  pub new_cell-Inv :
      (job : StoredJob A)
      → job.attempt ≡ 0
      → is_pending job.state ≡ true
      → is_entered job.state ≡ false
      → Inv (put_cell cells born job) (suc born) attempts next running
  new_cell-Inv job fresh pending idle = record {
    cell_bound = λ r j h. ground (arith, v.cell_bound r j);
    attempt_bound = v.attempt_bound;
    counted = v.counted;
    there = λ c a h. ground (arith, v.there c a);
    held = λ c a j h o e. elim (Option-cases (cells a.job)) [
      | inl q ↦ absurd (v.there c a h q)
      | inr (i, q) ↦ ground (arith, v.cell_bound a.job i, v.held c a j)
    ];
    unique = v.unique;
    spare = λ r j h p. ground (arith, v.spare r j);
    spare_active = λ r j h p. ground (arith, v.spare_active r j);
    within = λ r j h. ground (arith, v.within r j);
    ran = λ r j h. ground (arith, v.ran r j, v.unborn born);
    unborn = λ r h. v.unborn r (omega arith);
  }

  -- The race of an attempt ends.
  pub ended-Inv :
      (c : ℕ) (a b : Attempt)
      → attempts c ≡ some a
      → b.job ≡ a.job
      → b.over ≡ a.over
      → Inv cells born (put_cell attempts c b) next running
  ended-Inv c a b h job over = record {
    cell_bound = v.cell_bound;
    attempt_bound = λ d e k. ground (arith, v.attempt_bound d e, v.attempt_bound c a);
    counted =
        ground (arith, v.counted, count-put_cell is_running attempts next c b, v.attempt_bound c a);
    there = λ d e k. ground (arith, v.there d e, v.there c a);
    held = λ d e j k o p. ground (arith, v.held d e j, v.held c a j);
    unique =
        λ d e x y p q o o' s. ground (arith, v.unique d e x y, v.unique c e a y, v.unique d c x a);
    spare = v.spare;
    spare_active = v.spare_active;
    within = v.within;
    ran = λ r j k.
        ground (arith, v.ran r j, count-put_cell (is_of r) attempts next c b, v.attempt_bound c a);
    unborn = λ r k.
        ground (arith, v.unborn r, count-put_cell (is_of r) attempts next c b, v.attempt_bound c a);
  }

  -- A job that waits is started.
  pub started-Inv :
      (r : ℕ) (old job : StoredJob A) (a : Attempt)
      → cells r ≡ some old
      → is_pending old.state ≡ true
      → job.state ≡ active
      → job.attempt ≡ old.attempt
      → job.opts ≡ old.opts
      → a.job ≡ r
      → a.over ≡ false
      → Inv (put_cell cells r job) born (put_cell attempts next a) (suc next) (suc running)
  started-Inv r old job a h pending state attempt opts at over = record {
    cell_bound = λ i j k. ground (arith, v.cell_bound i j, v.cell_bound r old);
    attempt_bound = λ c b k. ground (arith, v.attempt_bound c b);
    counted = ground (arith, v.counted, count-put_cell_next is_running attempts next a);
    there = λ c b k. ground (arith, v.there c b);
    held = λ c b j k o p. ground (arith, v.held c b j, v.held c b old);
    unique = λ c d x y p q o o' s. ground (
      arith,
      v.unique c d x y,
      v.held c x old,
      v.held d y old,
      v.attempt_bound c x,
      v.attempt_bound d y,
    );
    spare = λ i j k p. ground (arith, v.spare i j, v.spare r old);
    spare_active = λ i j k p. ground (arith, v.spare_active i j, v.spare r old);
    within = λ i j k. ground (arith, v.within i j, v.spare r old);
    ran = λ i j k.
        ground (arith, v.ran i j, v.ran r old, count-put_cell_next (is_of i) attempts next a);
    unborn = λ i k.
        ground
          (arith, v.unborn i, v.cell_bound r old, count-put_cell_next (is_of i) attempts next a);
  }

  -- An attempt is over, and leaves its job in another state.
  pub over-Inv :
      (c : ℕ) (a b : Attempt) (old job : StoredJob A)
      → attempts c ≡ some a
      → a.over ≡ false
      → b.job ≡ a.job
      → b.over ≡ true
      → cells a.job ≡ some old
      → Left old job
      → Inv (put_cell cells a.job job) born (put_cell attempts c b) next (running - 1)
  over-Inv c a b old job h o at over k l = record {
    cell_bound = λ i j q. ground (arith, v.cell_bound i j, v.cell_bound a.job old);
    attempt_bound = λ d e q. ground (arith, v.attempt_bound d e, v.attempt_bound c a);
    counted =
        ground (arith, v.counted, count-put_cell is_running attempts next c b, v.attempt_bound c a);
    there = λ d e q. ground (arith, v.there d e);
    held = λ d e j q n p. ground (arith, v.held d e j, v.unique c d a e);
    unique = λ d e x y p q n n' s. ground (arith, v.unique d e x y);
    spare = λ i j q p. ground (arith, v.spare i j, l.pending, l.opts);
    spare_active = λ i j q p. ground (arith, v.spare_active i j, l.left);
    within = λ i j q.
        ground (arith, v.within i j, v.spare_active a.job old, v.held c a old, l.used, l.opts);
    ran = λ i j q. ground (
      arith,
      v.ran i j,
      v.ran a.job old,
      v.held c a old,
      l.used,
      count-put_cell (is_of i) attempts next c b,
      v.attempt_bound c a,
    );
    unborn = λ i q.
        ground (arith, v.unborn i, count-put_cell (is_of i) attempts next c b, v.attempt_bound c a);
  }
