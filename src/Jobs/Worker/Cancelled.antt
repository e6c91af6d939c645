-- ===== src/Jobs/Worker/Cancelled.antt =====
-- A job that was cancelled before it started is not run.
use agentback.Base.{
  ℕ, ◌<◌, ◌≡◌, refl, String, true, false, ◌||◌, some, List, [], ◌∷◌, ◌++◌, ◌==◌, eq_iff, eq_refl,
  arith, Result,
}
use agentback.Base.Map.{lookup, lookup-insert}
use agentback.Jobs.Store.{StoredJob, is_pending, list, remove}
use agentback.Jobs.Queue.{
  Ended, returned, rejected, WorkerOptions, Queue, idle, conclude, first_end, cancel,
}
use agentback.Jobs.Worker.{Move, attempt_of, run, concurrency}
use agentback.Jobs.Worker.Count.{count, count-put_cell, count-put_cell_next}
use agentback.Jobs.Worker.Invariant.{is_of}
use agentback.Jobs.Worker.Rule.{idle-Valid, Stable, lists}
use agentback.Jobs.Drained.{keep_others_unlists}
use agentback.Jobs.Worker.Moves.{run-P}
use agentback.Jobs.Worker.Runs.{run-Valid}

conclude-id :
    {A : Type 0} (now issued : ℕ) (e : Ended) (job : StoredJob A)
    → (conclude now issued e job).id ≡ job.id
unfolding conclude
conclude-id now issued returned job = refl
conclude-id now issued (rejected e) job = ground arith

lists-snoc : (r q : ℕ) (refs : List ℕ) → lists r (refs ++ q ∷ []) ≡ (lists r refs || q == r)
lists-snoc r q [] = ground arith
lists-snoc r q (i ∷ refs) = ground (arith, lists-snoc r q refs)

-- The index names objects by their ids.
pub record Indexed {A : Type 0} (s : Queue A) : Type 0 where
  pub bound : (id : String) (r : ℕ) → lookup id s.store.by_id ≡ some r → r < s.store.next
  pub named :
      (id : String) (r : ℕ) (job : StoredJob A)
      → lookup id s.store.by_id ≡ some r
      → s.store.cells r ≡ some job
      → job.id ≡ id

idle-Indexed : {A : Type 0} → Indexed {A = A} idle
unfolding lookup
idle-Indexed = grind arith

module _ {A : Type 0} (s : Queue A) (id : String) (r : ℕ) (job : StoredJob A)
    (k : s.store.cells r ≡ some job) where
  cancel_pending :
      (name : String)
      → lookup id s.store.by_id ≡ some r
      → job.queue ≡ name
      → is_pending job.state ≡ true
      → cancel name id s ≡ (true, record s { store = remove name id s.store })
  unfolding cancel
  cancel_pending name at here pending = rw (at, k) (rw here (rw (eq_refl name) (rw pending refl)))

module _ {A E : Type 0} (parse : A → Result E A) (job_number : ℕ → String) (w : WorkerOptions) where
  indexed : Stable {A = A} (concurrency w) w Indexed
  indexed = record {
    kept = λ s store k q. record {
      bound = λ id r h. rw k.next (q.bound id r (k.by_id id r h));
      named = λ id r job h g. q.named id r job (k.by_id id r h) (rw (← k.cells) g);
    };
    lived = λ s live q. record { bound = q.bound; named = q.named };
    issued = λ s q. record { bound = q.bound; named = q.named };
    shut = λ s q. record { bound = q.bound; named = q.named };
    stored = λ now name id raw opts s v q. record {
      bound = λ i r h. ground (arith, q.bound i r, lookup-insert id i s.store.next s.store.by_id);
      named = λ i r job h g. ground (
        arith,
        q.bound i r,
        q.named i r job,
        lookup-insert id i s.store.next s.store.by_id,
        eq_iff id i,
      );
    };
    ended = λ c a e s h v q. record { bound = q.bound; named = q.named };
    started = λ now i old s h p l v q. record {
      bound = q.bound;
      named = λ id r job k g. ground (arith, q.named id r job, q.named id r old);
    };
    over = λ now c a e old s h o x k v q. record {
      bound = q.bound;
      named = λ id r job y g.
          ground (arith, q.named id r job, q.named id r old, conclude-id now s.issued e old);
    };
  }

  run-Indexed : (moves : List (Move A)) → Indexed (run parse job_number w idle moves)
  run-Indexed moves =
      (run-P parse job_number w Indexed indexed idle moves (idle-Valid _, idle-Indexed)).1

  module _ (r runs : ℕ) where
    abbrev Unlisted : Queue A → Type 0
    Unlisted s =
        (r < s.store.next)
        × (lists r (list s.store w.name) ≡ false)
        × (count (is_of r) s.attempts s.next ≡ runs)

    unlisted : Stable (concurrency w) w Unlisted
    unlisted = record {
      kept = λ s store k q. (rw k.next q.0, ground (arith, k.listed w.name r, q.1), q.2);
      lived = λ s live q. q;
      issued = λ s q. q;
      shut = λ s q. q;
      stored = λ now name id raw opts s v q. (
        omega (arith, q.0),
        ground (
          arith,
          q.0,
          q.1,
          lookup-insert name w.name (list s.store name ++ s.store.next ∷ []) s.store.jobs,
          eq_iff name w.name,
          lists-snoc r s.store.next (list s.store name),
        ),
        q.2,
      );
      ended = λ c a e s h v q. (
        q.0,
        q.1,
        ground (
          arith,
          q.2,
          v.0.attempt_bound c a,
          count-put_cell (is_of r) s.attempts s.next c (record a { race = first_end e a.race }),
        ),
      );
      started = λ now i old s h p l v q. (
        q.0,
        q.1,
        ground (
          arith,
          q.1,
          q.2,
          count-put_cell_next (is_of r) s.attempts s.next (attempt_of w now i old),
        ),
      );
      over = λ now c a e old s h o x k v q. (
        q.0,
        q.1,
        ground (
          arith,
          q.2,
          v.0.attempt_bound c a,
          count-put_cell (is_of r) s.attempts s.next c (record a { over = true }),
        ),
      );
    }

  -- Cancelling a job that waits says so, and the job is not run from then on, whatever happens later.
  pub run-cancelled :
      (moves later : List (Move A)) (id : String) (r : ℕ) (job : StoredJob A)
      → lookup id (run parse job_number w idle moves).store.by_id ≡ some r
      → (run parse job_number w idle moves).store.cells r ≡ some job
      → job.queue ≡ w.name
      → is_pending job.state ≡ true
      → let s = run parse job_number w idle moves in
        let t = run parse job_number w (cancel w.name id s).1 later in
        ((cancel w.name id s).0 ≡ true)
        × (count (is_of r) t.attempts t.next ≡ count (is_of r) s.attempts s.next)
  unfolding remove
  run-cancelled moves later id r job at k here pending =
      let s = run parse job_number w idle moves in
      let indexed' = run-Indexed moves in
      let runs = count (is_of r) s.attempts s.next in
      let unlists =
        keep_others_unlists s.store id r job k w.name (lookup w.name s.store.jobs) refl
          (indexed'.named id r job at k) in
      rw (cancel_pending s id r job k w.name at here pending) (
        refl,
        (run-P parse job_number w (Unlisted r runs) (unlisted r runs)
            (record s { store = remove w.name id s.store }) later
            (run-Valid parse job_number w moves, (indexed'.bound id r at, unlists, refl))).1.2,
      )
