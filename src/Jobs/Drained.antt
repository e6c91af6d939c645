-- ===== src/Jobs/Drained.antt =====
-- What draining a queue leaves.
use agentback.Base.{
  ℕ, ◌≡◌, refl, String, Bool, true, false, Option, none, some, List, [], ◌∷◌, ◌==◌, select, length,
  eq_iff, arith, Option-cases, Bool-cases, inl, inr, ==_iff, subst, sym, eq_refl,
}
use agentback.Base.Map.{lookup, lookup-insert}
use agentback.Jobs.Store.{
  JobState, waiting, delayed, StoredJob, Store, list, remove, is_pending, differs, or_empty,
  keep_others,
}
use agentback.Jobs.Admin.{drain, drain_cell, drain_each, stats, in_state, same_state}
use agentback.Jobs.Worker.Rule.{lists, drain_each-Kept, drain_cell-Kept}

-- Dropping what has an id drops every number of an object with that id.
pub select_others :
    {A : Type 0} (id : String) (cells : ℕ → Option (StoredJob A)) (r : ℕ) (job : StoredJob A)
    → cells r ≡ some job
    → job.id ≡ id
    → (refs : List ℕ) → lists r (select (λ q. differs id (cells q)) refs) ≡ false
select_others id cells r job h e [] = refl
select_others id cells r job h e (q ∷ refs) =
    ground (arith, select_others id cells r job h e refs, eq_iff job.id id)

module _ {A : Type 0} (s : Store A) (id : String) (r : ℕ) (job : StoredJob A)
    (k : s.cells r ≡ some job) where
  pub keep_others_unlists :
      (name : String) (refs : Option (List ℕ))
      → lookup name s.jobs ≡ refs
      → job.id ≡ id
      → lists r (or_empty (lookup name (keep_others s name id refs))) ≡ false
  keep_others_unlists name none e named = rw e refl
  keep_others_unlists name (some refs) e named = ground (
    arith,
    lookup-insert name name (select (λ q. differs id (s.cells q)) refs) s.jobs,
    eq_refl name,
    select_others id s.cells r job k named refs,
  )

same_state_apart :
    (a b : JobState) → is_pending a ≡ false → is_pending b ≡ true → same_state a b ≡ false
same_state_apart a b p q = ground arith

select_none :
    (test : ℕ → Bool) (refs : List ℕ)
    → ((r : ℕ) → lists r refs ≡ true → test r ≡ false)
    → length (select test refs) ≡ 0
select_none test [] h = refl
select_none test (r ∷ refs) h =
    let here = h r (ground arith) in
    let later = select_none test refs (λ q k. h q (ground arith)) in ground arith

module _ {A : Type 0} where
  -- Whether a listed job is pending, or is not there.
  abbrev pending_cell : Option (StoredJob A) → Bool
  pending_cell none = false
  pending_cell (some job) = is_pending job.state

  drain_job_unlists :
      (name : String) (r : ℕ) (s : Store A) (job : StoredJob A)
      → s.cells r ≡ some job
      → is_pending job.state ≡ true
      → lists r (list (drain_cell name (some job) s) name) ≡ false
  unfolding remove
  drain_job_unlists name r s job k p =
      rw p (keep_others_unlists s job.id r job k name (lookup name s.jobs) refl refl)

  drain_cell_unlists :
      (name : String) (r : ℕ) (s : Store A) (job : StoredJob A)
      → s.cells r ≡ some job
      → is_pending job.state ≡ true
      → lists r (list (drain_cell name (s.cells r) s) name) ≡ false
  drain_cell_unlists name r s job k p =
      subst (λ c. lists r (list (drain_cell name c s) name) ≡ false) (sym k)
        (drain_job_unlists name r s job k p)

  drain_each_unlists :
      (name : String) (r : ℕ) (refs : List ℕ) (s : Store A) (job : StoredJob A)
      → lists r refs ≡ true
      → s.cells r ≡ some job
      → is_pending job.state ≡ true
      → lists r (list (drain_each name refs s) name) ≡ false
  unfolding drain_each
  drain_each_unlists name r [] s job h k p = absurd (ground arith)
  drain_each_unlists name r (q ∷ refs) s job h k p =
      let t = drain_cell name (s.cells q) s in
      elim (Bool-cases (q == r)) [
        | inl e ↦ ground (
          arith,
          (drain_each-Kept name refs t).listed name r,
          drain_cell_unlists name q s job,
          (==_iff q r).0 e,
        )
        | inr e ↦
            drain_each_unlists name r refs t job (ground arith)
              (rw (drain_cell-Kept name (s.cells q) s).cells k) p
      ]

  -- A listed job that is left after a drain is not pending.
  drained :
      (name : String) (s : Store A) (state : JobState)
      → is_pending state ≡ true
      → (r : ℕ) → lists r (list (drain name s) name) ≡ true
      → in_state (drain name s) state r ≡ false
  unfolding drain
  drained name s state p r h =
      let k = drain_each-Kept name (list s name) s in
      elim (Option-cases ((drain name s).cells r)) [
        | inl q ↦ rw q refl
        | inr (job, q) ↦ rw q (elim (Bool-cases (is_pending job.state)) [
          | inl e ↦ absurd (
              ground (
                arith,
                drain_each_unlists name r (list s name) s job,
                k.listed name r,
                rw k.cells at q,
              ))
          | inr e ↦ same_state_apart job.state state e p
        ])
      ]

  -- After a drain no job of the queue waits or is delayed, and every object is as it was.
  pub stats-drain :
      (name : String) (s : Store A)
      → ((stats name (drain name s)).waiting ≡ 0)
        × ((stats name (drain name s)).delayed ≡ 0)
        × ((drain name s).cells ≡ s.cells)
  unfolding stats drain
  stats-drain name s = (
    select_none (in_state (drain name s) waiting) (list (drain name s) name)
        (drained name s waiting refl),
    select_none (in_state (drain name s) delayed) (list (drain name s) name)
        (drained name s delayed refl),
    (drain_each-Kept name (list s name) s).cells,
  )
