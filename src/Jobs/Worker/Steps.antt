-- ===== src/Jobs/Worker/Steps.antt =====
-- Every move of the queue keeps the invariant, and any stable property with it.
use agentback.Base.{
  ℕ, suc, ◌-◌, ◌≡◌, refl, String, Bool, true, false, not, Option, none, some, str_eq, ap,
  if◌then◌else◌, arith, Option-cases, inl, inr, if_rule,
}
use agentback.Base.Map.{lookup, erase}
use agentback.Jobs.Store.{
  EnqueueOptions, StoredJob, Store, put_cell, remove, is_pending, cell_at, push_job,
}
use agentback.Jobs.Queue.{
  Ended, rejected, reason, Attempt, WorkerOptions, Queue, end_race, abandon, abort, elapse, cancel,
  cancel_over, conclude, finish, settle, settle_race, first_end, write, write_back,
}
use agentback.Jobs.Worker.{concurrency}
use agentback.Jobs.Worker.Invariant.{new_cell-Inv, ended-Inv, over-Inv, conclude-Left}
use agentback.Jobs.Worker.Rule.{Kept, remove-Kept, left_by, Stable, Both}

module _ {A : Type 0} (w : WorkerOptions) (Q : Queue A → Type 0)
    (st : Stable (concurrency w) w Q) where
  abbrev P : Queue A → Type 0
  P = Both (concurrency w) Q

  pub store-P :
      (s : Queue A) (store : Store A) → Kept store s.store → P s → P (record s { store = store })
  store-P s store k p = (rw (k.cells, k.next) p.0, st.kept s store k p.1)

  pub ended-P : (c : ℕ) (e : Ended) (s : Queue A) → P s → P (end_race c e s)
  unfolding end_race
  ended-P c e s p = elim (Option-cases (s.attempts c)) [
    | inl q ↦ rw q p
    | inr (a, q) ↦ rw q (
        if_rule P a.over s
          (record s { attempts = put_cell s.attempts c (record a { race = first_end e a.race }) })
          (λ _. p)
          (λ _. (
            (
              ended-Inv _ _ _ _ _ p.0.0 c a (record a { race = first_end e a.race }) q refl refl,
              p.0.1,
            ),
            st.ended c a e s q p.0 p.1,
          )))
  ]

  abandon-P : (c : ℕ) (s : Queue A) → P s → P (abandon c s)
  unfolding abandon
  abandon-P c s p =
      ended-P c (rejected (reason s.issued)) (record s { issued = suc s.issued })
        (p.0, st.issued s p.1)

  pub elapse-P : (now c : ℕ) (s : Queue A) → P s → P (elapse now c s)
  unfolding elapse
  elapse-P now c s p = elim (Option-cases (s.attempts c)) [
    | inl q ↦ rw q p
    | inr (a, q) ↦ rw q (if_rule P _ (abandon c s) s (λ _. abandon-P c s p) (λ _. p))
  ]

  abort-P : (id : String) (s : Queue A) → P s → P (abort id s).1
  unfolding abort
  abort-P id s p = elim (Option-cases (lookup id s.live)) [
    | inl q ↦ rw q p
    | inr (c, q) ↦ rw q (abandon-P c s p)
  ]

  cancel_tests-P :
      (name id : String) (s : Queue A) (here pending : Bool)
      → P s
      → P
          (if not here
            then (false, s)
            else (if pending
                then (true, record s { store = remove name id s.store })
                else abort id s)).1
  cancel_tests-P name id s false pending p = p
  cancel_tests-P name id s true true p =
      store-P s (remove name id s.store) (remove-Kept name id s.store) p
  cancel_tests-P name id s true false p = abort-P id s p

  pub cancel_over-P :
      (name id : String) (s : Queue A) (job : Option (StoredJob A))
      → P s
      → P (cancel_over name id s job).1
  cancel_over-P name id s none p = p
  cancel_over-P name id s (some job) p =
      cancel_tests-P name id s (str_eq job.queue name) (is_pending job.state) p

  pub cancel-P : (name id : String) (s : Queue A) → P s → P (cancel name id s).1
  unfolding cancel
  cancel-P name id s p = cancel_over-P name id s (cell_at s.store (lookup id s.store.by_id)) p

  left_by-P :
      (now c : ℕ) (a : Attempt) (e : Ended) (job : StoredJob A) (s : Queue A)
      → s.attempts c ≡ some a
      → a.over ≡ false
      → first_end e a.race ≡ some e
      → s.store.cells a.job ≡ some job
      → P s
      → P (left_by now c a e job s)
  left_by-P now c a e job s h o r k p = (
    (
      over-Inv _ _ _ _ _ p.0.0 c a (record a { over = true }) job (conclude now s.issued e job) h o
          refl refl k (conclude-Left now s.issued e job),
      omega (arith, p.0.1),
    ),
    st.over now c a e job s h o r k p.0 p.1,
  )

  write_back-P :
      (name : String) (r : ℕ) (job : StoredJob A) (s : Queue A)
      → P (record s { store = write r job s.store })
      → P (record s { store = write_back name r job s.store })
  write_back-P name r job s p =
      if_rule {A = Store A} (λ t. P (record s { store = t })) _
        (remove name job.id (write r job s.store)) (write r job s.store)
        (λ _.
          store-P (record s { store = write r job s.store }) _
            (remove-Kept name job.id (write r job s.store)) p)
        (λ _. p)

  pub finish-P :
      (name : String) (now c : ℕ) (a : Attempt) (e : Ended) (s : Queue A)
      → s.attempts c ≡ some a
      → a.over ≡ false
      → first_end e a.race ≡ some e
      → P s
      → P (finish name now c a e s)
  unfolding finish
  finish-P name now c a e s h o r p = elim (Option-cases (s.store.cells a.job)) [
    | inl q ↦ absurd (p.0.0.there c a h q)
    | inr (job, q) ↦ rw q (
        write_back-P name a.job (conclude now s.issued e job)
          (record s {
            attempts = put_cell s.attempts c (record a { over = true });
            active = s.active - 1;
          })
          (left_by-P now c a e job s h o r q p))
  ]

  settle_race-P :
      (name : String) (now c : ℕ) (a : Attempt) (race : Option Ended) (s : Queue A)
      → s.attempts c ≡ some a
      → a.race ≡ race
      → P s
      → P (settle_race name now c a race s)
  settle_race-P name now c a none s h r p = p
  settle_race-P name now c a (some e) s h r p =
      let s' = record s { live = erase a.id s.live } in
      if_rule P a.over s (finish name now c a e s') (λ _. p)
        (λ o.
          finish-P name now c a e s' h o (ap (first_end e) r)
            (p.0, st.lived s (erase a.id s.live) p.1))

  pub settle-P : (name : String) (now c : ℕ) (s : Queue A) → P s → P (settle name now c s)
  unfolding settle
  settle-P name now c s p = elim (Option-cases (s.attempts c)) [
    | inl q ↦ rw q p
    | inr (a, q) ↦ rw q (settle_race-P name now c a a.race s q refl p)
  ]

  -- The `stored` changes come after a change of the counter or of the ids that were seen.
  pub push_job-P :
      (now : ℕ) (name id : String) (raw : A) (opts : EnqueueOptions) (s : Queue A)
      → P s
      → P (record s { store = push_job now name id raw opts s.store })
  push_job-P now name id raw opts s p = (
    (new_cell-Inv _ _ _ _ _ p.0.0 _ refl (ground arith) (ground arith), p.0.1),
    st.stored now name id raw opts s p.0 p.1,
  )
