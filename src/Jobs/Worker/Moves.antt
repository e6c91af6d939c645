-- ===== src/Jobs/Worker/Moves.antt =====
-- The rule for runs of the queue: the invariant and a stable property hold after any moves.
use agentback.Base.{
  ℕ, suc, ◌*◌, ◌<◌, ◌≡◌, refl, String, Bool, true, false, Option, none, some, List, [], ◌∷◌, ltb,
  find, find_passes, select, arith, ltb→lt, Option-cases, Result-cases, inl, inr, if_rule, Result,
}
use agentback.Jobs.Store.{
  active, EnqueueOptions, StoredJob, Store, list, enqueue, is_pending, dedup_key, name_job,
  note_seen, seen_or_pushed,
}
use agentback.Jobs.Admin.{drain, is_stalled, pause, resume, discard_stalled}
use agentback.Jobs.Queue.{rejected, own, WorkerOptions, Queue}
use agentback.Jobs.Worker.{
  Move, enqueues, cancels, pumps, ends, elapses, settles, closes, drains, pauses, resumes, discards,
  attempt_of, opened, run_one, is_ready, run_found, enqueued, pump, step, run, concurrency,
}
use agentback.Jobs.Worker.Invariant.{started-Inv}
use agentback.Jobs.Worker.Rule.{Kept, lists, drain_each-Kept, remove_each-Kept, Stable, Both}
use agentback.Jobs.Worker.Steps.{
  store-P, ended-P, elapse-P, cancel-P, finish-P, settle-P, push_job-P,
}

find_listed : (p : ℕ → Bool) (refs : List ℕ) (r : ℕ) → find p refs ≡ some r → lists r refs ≡ true
find_listed p [] r h = absurd (ground arith)
find_listed p (q ∷ refs) r h = ground (arith, find_listed p refs r)

same_lists :
    {A : Type 0} (s t : Store A)
    → s.cells ≡ t.cells
    → s.next ≡ t.next
    → s.jobs ≡ t.jobs
    → s.by_id ≡ t.by_id
    → Kept s t
same_lists s t p q r e = record {
  cells = p;
  next = q;
  listed = λ name i h. rw (← r) h;
  by_id = λ id i h. rw (← e) h;
}

module _ {A E : Type 0} (parse : A → Result E A) (job_number : ℕ → String) (w : WorkerOptions)
    (Q : Queue A → Type 0) (st : Stable (concurrency w) w Q) where
  abbrev P : Queue A → Type 0
  P = Both (concurrency w) Q

  name_job-P :
      (now : ℕ) (name : String) (raw : A) (opts : EnqueueOptions) (s : Queue A) (id : Option String)
      → P s
      → P (record s { store = (name_job parse job_number name now raw opts s.store id).1 })
  name_job-P now name raw opts s none p =
      let t = record s.store { counter = suc s.store.counter } in
      push_job-P w Q st now name (job_number (suc s.store.counter)) raw opts
        (record s { store = t }) (store-P w Q st s t (same_lists t s.store refl refl refl refl) p)
  name_job-P now name raw opts s (some id) p =
      let t = record s.store {
        seen_job_ids = note_seen (dedup_key (some id)) s.store.seen_job_ids;
      } in
      push_job-P w Q st now name id raw opts (record s { store = t })
        (store-P w Q st s t (same_lists t s.store refl refl refl refl) p)

  seen_or_pushed-P :
      (s : Queue A) (key : Option String) (pushed : String × Store A)
      → P s
      → P (record s { store = pushed.1 })
      → P (record s { store = (seen_or_pushed parse job_number key pushed s.store).1 })
  seen_or_pushed-P s none pushed p p' = p'
  seen_or_pushed-P s (some id) pushed p p' =
      if_rule {A = String × Store A} (λ o. P (record s { store = o.1 })) (s.store.seen_job_ids id)
        (id, s.store) pushed (λ _. p) (λ _. p')

  enqueue-P :
      (now : ℕ) (name : String) (payload : A) (opts : EnqueueOptions) (s : Queue A)
      → P s
      → P (enqueued parse job_number w s (enqueue parse job_number now name payload opts s.store))
  unfolding enqueue
  enqueue-P now name payload opts s p = elim (Result-cases (parse payload)) [
    | inl (raw, q) ↦
        rw (enqueued, q)
          (seen_or_pushed-P s (dedup_key opts.job_id)
            (name_job parse job_number name now raw opts s.store opts.job_id) p
            (name_job-P now name raw opts s opts.job_id p))
    | inr (e, q) ↦ rw (enqueued, q) p
  ]

  run_one-P :
      (now r : ℕ) (job : StoredJob A) (s : Queue A)
      → s.store.cells r ≡ some job
      → is_pending job.state ≡ true
      → lists r (list s.store w.name) ≡ true
      → s.active < concurrency w
      → P s
      → P (run_one parse job_number w now r job s)
  unfolding run_one
  run_one-P now r job s h pending listed l p = elim (Result-cases (parse job.raw)) [
    | inl (data', q) ↦ rw q (start.0, st.lived (opened w now r job s) _ start.1)
    | inr (e, q) ↦ rw q (
        finish-P w Q st w.name now s.next (attempt_of w now r job) (rejected (own 0))
          (opened w now r job s) (ground arith) refl refl start)
  ]
    where
      start : P (opened w now r job s)
      start = (
        (
          started-Inv _ _ _ _ _ p.0.0 r job (record job { started_at = some now; state = active })
              (attempt_of w now r job) h pending refl refl refl refl refl,
          omega (arith, l),
        ),
        st.started now r job s h pending listed p.0 p.1,
      )

  run_found-P :
      (now : ℕ) (found : Option ℕ) (s : Queue A)
      → ((r : ℕ)
          → found ≡ some r
          → (is_ready parse job_number w now s.store r ≡ true)
            × (lists r (list s.store w.name) ≡ true))
      → P s
      → P (run_found parse job_number w now found s)
  run_found-P now none s ready p = p
  run_found-P now (some r) s ready p = elim (Option-cases (s.store.cells r)) [
    | inl q ↦ rw q (if_rule P (ltb s.active (concurrency w)) s s (λ _. p) (λ _. p))
    | inr (job, q) ↦ rw q (
        if_rule P (ltb s.active (concurrency w)) (run_one parse job_number w now r job s) s
          (λ l.
            run_one-P now r job s q (ground (arith, (ready r refl).0)) (ready r refl).1
              (ltb→lt _ _ l) p)
          (λ _. p))
  ]

  pump-P : (now : ℕ) (s : Queue A) → P s → P (pump parse job_number w now s)
  unfolding pump
  pump-P now s p =
      let ready = is_ready parse job_number w now s.store in
      let refs = list s.store w.name in
      if_rule P s.closed s (run_found parse job_number w now (find ready refs) s) (λ _. p)
        (λ _.
          run_found-P now (find ready refs) s
            (λ r q. (find_passes ready refs q, find_listed ready refs r q)) p)

  pub step-P : (s : Queue A) (move : Move A) → P s → P (step parse job_number w s move)
  unfolding step drain pause resume discard_stalled
  step-P s (enqueues now name payload opts) p = enqueue-P now name payload opts s p
  step-P s (cancels name id) p = cancel-P w Q st name id s p
  step-P s (pumps now) p = pump-P now s p
  step-P s (ends c e) p = ended-P w Q st c e s p
  step-P s (elapses now c) p = elapse-P w Q st now c s p
  step-P s (settles now c) p = settle-P w Q st w.name now c s p
  step-P s closes p = (p.0, st.shut s p.1)
  step-P s (drains name) p = store-P w Q st s _ (drain_each-Kept name (list s.store name) s.store) p
  step-P s (pauses name) p = store-P w Q st s _ (same_lists _ s.store refl refl refl refl) p
  step-P s (resumes name) p = store-P w Q st s _ (same_lists _ s.store refl refl refl refl) p
  step-P s (discards now name secs true) p = p
  step-P s (discards now name secs false) p =
      let stalled = select (is_stalled now (secs * 1000) s.store) (list s.store name) in
      store-P w Q st s _ (remove_each-Kept name stalled s.store) p

  pub run-P : (s : Queue A) (moves : List (Move A)) → P s → P (run parse job_number w s moves)
  unfolding run
  run-P s [] p = p
  run-P s (move ∷ moves) p = run-P (step parse job_number w s move) moves (step-P s move p)
