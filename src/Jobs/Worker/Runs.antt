-- ===== src/Jobs/Worker/Runs.antt =====
-- Whatever the order of the moves, the worker stays within its limit and a job within its attempts,
-- what is abandoned is not tried again, and what is final stays as it is.
use agentback.Base.{
  ℕ, suc, ◌+◌, ◌≤◌, ◌<◌, ◌≡◌, refl, String, Bool, true, false, Option, none, some, sym, subst, ap,
  ◌∙◌, List, [], ◌∷◌, ◌⊎◌, inl, inr, lt→ltb, arith, max, Result,
}
use agentback.Jobs.Store.{JobState, completed, failed, StoredJob, or_one}
use agentback.Jobs.Queue.{
  Ended, rejected, reason, Attempt, WorkerOptions, Queue, idle, conclude, settle_race, settle_over,
  settle, finish,
}
use agentback.Jobs.Worker.{Move, settles, step, run, concurrency}
use agentback.Jobs.Worker.Count.{count, bit}
use agentback.Jobs.Worker.Invariant.{is_running, is_of, is_entered}
use agentback.Jobs.Worker.Rule.{Valid, Both, idle-Valid, Stable}
use agentback.Jobs.Worker.Moves.{run-P}

module _ {A E : Type 0} (parse : A → Result E A) (job_number : ℕ → String) (w : WorkerOptions) where
  trivially : Stable {A = A} (concurrency w) w (λ s. Unit {0})
  trivially = record {
    kept = λ s store k q. tt;
    lived = λ s live q. tt;
    issued = λ s q. tt;
    shut = λ s q. tt;
    stored = λ now name id raw opts s v q. tt;
    ended = λ c a e s h v q. tt;
    started = λ now r job s h p l v q. tt;
    over = λ now c a e job s h o r k v q. tt;
  }

  pub run-Valid :
      (moves : List (Move A)) → Valid (concurrency w) (run parse job_number w idle moves)
  run-Valid moves = (run-P parse job_number w (λ s. Unit) trivially idle moves (idle-Valid _, tt)).0

  -- Whatever happens in whatever order, the attempts that are running are as many as the worker
  -- counts, and never more than its concurrency.
  pub run-concurrency :
      (moves : List (Move A))
      → let s = run parse job_number w idle moves in
        (count is_running s.attempts s.next ≡ s.active) × (s.active ≤ concurrency w)
  run-concurrency moves = ((run-Valid moves).0.counted, (run-Valid moves).1)

  -- Whatever happens in whatever order, a job has been run as often as its record says: once for each
  -- attempt that failed, and once more if it is active or completed. That is at most `attempts` times,
  -- where an absent option and zero mean one attempt.
  pub run-attempts :
      (moves : List (Move A)) (r : ℕ) (job : StoredJob A)
      → (run parse job_number w idle moves).store.cells r ≡ some job
      → let s = run parse job_number w idle moves in
        (count (is_of r) s.attempts s.next ≡ job.attempt + bit (is_entered job.state))
        × (count (is_of r) s.attempts s.next ≤ max 1 (or_one job.opts.attempts))
  run-attempts moves r job h =
      let v = (run-Valid moves).0 in (v.ran r job h, omega (arith, v.ran r job h, v.within r job h))

  abbrev is_final : JobState → Bool
  is_final completed = true
  is_final failed = true
  is_final _ = false

  module _ (r : ℕ) (job : StoredJob A) (final : is_final job.state ≡ true) where
    abbrev Rests : Queue A → Type 0
    Rests s = s.store.cells r ≡ some job

    rests : Stable (concurrency w) w Rests
    rests = record {
      kept = λ s store k q. rw k.cells q;
      lived = λ s live q. q;
      issued = λ s q. q;
      shut = λ s q. q;
      stored = λ now name id raw opts s v q. ground (arith, v.0.cell_bound r job);
      ended = λ c a e s h v q. q;
      started = λ now i old s h p l v q. ground arith;
      over = λ now c a e old s h o x k v q. ground (arith, v.0.held c a old);
    }

    -- Once a job is completed or failed, its record stays as it is, whatever happens later.
    pub run-final :
        (moves later : List (Move A))
        → (run parse job_number w idle moves).store.cells r ≡ some job
        → (run parse job_number w (run parse job_number w idle moves) later).store.cells r
          ≡ some job
    run-final moves later h =
        (run-P parse job_number w Rests rests (run parse job_number w idle moves) later
          (run-Valid moves, h)).1

  module _ (c n : ℕ) (a : Attempt) (job : StoredJob A)
      (race : a.race ≡ some (rejected (reason n))) where
    abbrev given_up : StoredJob A
    given_up = record job { attempt = suc job.attempt; state = failed }

    concluded :
        (now issued : ℕ) (e : Ended)
        → n < issued
        → e ≡ rejected (reason n)
        → conclude now issued e job ≡ given_up
    unfolding conclude
    concluded now issued e h p = rw p (rw (lt→ltb n issued h))

    -- Either the attempt has not gone on yet, or its job has failed.
    abbrev Doomed : Queue A → Type 0
    Doomed s =
        (n < s.issued)
        × (((s.attempts c ≡ some a) × (a.over ≡ false) × (s.store.cells a.job ≡ some job))
            ⊎ (s.store.cells a.job ≡ some given_up))

    doomed : Stable (concurrency w) w Doomed
    doomed = record {
      kept = λ s store k q. rw k.cells q;
      lived = λ s live q. q;
      issued = λ s q. (omega (arith, q.0), q.1);
      shut = λ s q. q;
      stored = λ now name id raw opts s v q.
          ground (arith, v.0.cell_bound a.job job, v.0.cell_bound a.job given_up);
      ended = λ d b e s h v q. ground arith;
      started = λ now i old s h p l v q. ground (arith, v.0.attempt_bound c a, v.0.held c a old);
      over = λ now d b e old s h o x k v q.
          ground (
            arith,
            v.0.unique d c b a,
            v.0.held c a old,
            v.0.held d b old,
            concluded now s.issued e,
          );
    }

    standing :
        (s : Queue A)
        → ((s.attempts c ≡ some a) × (a.over ≡ false) × (s.store.cells a.job ≡ some job))
          ⊎ (s.store.cells a.job ≡ some given_up)
        → ((s.attempts c ≡ some a) × (s.store.cells a.job ≡ some job))
          ⊎ (s.store.cells a.job ≡ some given_up)
    standing s (inl (at, open', k)) = inl (at, k)
    standing s (inr g) = inr g

    race_over :
        (now : ℕ) (s : Queue A) (o : Option Ended)
        → o ≡ some (rejected (reason n))
        → a.over ≡ false
        → (settle_race w.name now c a o s).attempts c ≡ some (record a { over = true })
    unfolding finish
    race_over now s none p q = absurd (ground arith)
    race_over now s (some e) p q = rw q (ground arith)

    -- An attempt that goes on is over.
    settled_over :
        (now : ℕ) (s : Queue A)
        → s.attempts c ≡ some a
        → a.over ≡ false
        → (settle w.name now c s).attempts c ≡ some (record a { over = true })
    unfolding settle
    settled_over now s at open' =
        subst (λ o. (settle_over w.name now c o s).attempts c ≡ some (record a { over = true }))
          (sym at) (race_over now s a.race race open')

    is_over : Option Attempt → Bool
    is_over none = false
    is_over (some b) = b.over

    going_on :
        (now : ℕ) (s : Queue A)
        → Both (concurrency w) Doomed s
        → (step parse job_number w s (settles now c)).store.cells a.job ≡ some given_up
    unfolding run step is_over
    going_on now s (v, (issued, inr g)) =
        (run-P parse job_number w (Rests a.job given_up refl) (rests a.job given_up refl) s
          (settles now c ∷ []) (v, g)).1
    going_on now s (v, (issued, inl (at, open', k))) =
        elim (run-P parse job_number w Doomed doomed s (settles now c ∷ [])
          (v, (issued, inl (at, open', k)))).1.1 [
            | inr g ↦ g
            | inl (still, _, _) ↦
                absurd
                  (let over = ap is_over (sym still ∙ settled_over now s at open') in ground arith)
          ]

    -- After an attempt has been abandoned, that is, the deadline or a cancellation ended it first, its job
    -- is not run again, whatever happens later: as long as the attempt has not gone on its record
    -- stays as it is; when the attempt goes on, at any time, the record says that the job failed.
    pub run-abandoned :
        (moves later : List (Move A)) (now : ℕ)
        → (run parse job_number w idle moves).attempts c ≡ some a
        → a.over ≡ false
        → n < (run parse job_number w idle moves).issued
        → (run parse job_number w idle moves).store.cells a.job ≡ some job
        → let s = run parse job_number w idle moves in
          let t = run parse job_number w s later in
          (count (is_of a.job) t.attempts t.next ≡ count (is_of a.job) s.attempts s.next)
          × (((t.attempts c ≡ some a) × (t.store.cells a.job ≡ some job))
              ⊎ (t.store.cells a.job ≡ some given_up))
          × ((step parse job_number w t (settles now c)).store.cells a.job ≡ some given_up)
    run-abandoned moves later now at open' issued k =
        let s = run parse job_number w idle moves in
        let v = run-Valid moves in
        let end' =
          run-P parse job_number w Doomed doomed s later (v, (issued, inl (at, open', k))) in
        let t = run parse job_number w s later in
        (
          ground (
            arith,
            v.0.held c a job,
            v.0.ran a.job job,
            end'.0.0.ran a.job job,
            end'.0.0.ran a.job given_up,
            end'.1,
          ),
          standing t end'.1.1,
          going_on now t end',
        )
