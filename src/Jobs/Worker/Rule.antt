-- ===== src/Jobs/Worker/Rule.antt =====
-- A rule for properties of the queue: what survives the few ways in which its state changes survives
-- every move (Jobs/Worker/Steps).
use agentback.Base.{
  ℕ, suc, ◌-◌, ◌≤◌, ◌≡◌, refl, ◌∙◌, String, Bool, true, false, Option, none, some, List, [], ◌∷◌,
  arith, select, any, eq_iff, ◌==◌, if_rule,
}
use agentback.Base.Map.{Map, lookup, lookup-insert, lookup-erase}
use agentback.Jobs.Store.{
  EnqueueOptions, StoredJob, Store, put_cell, list, remove, is_pending, push_job, or_empty, differs,
  keep_others,
}
use agentback.Jobs.Admin.{drain_cell, remove_cell, drain_each, remove_each}
use agentback.Jobs.Queue.{Ended, Attempt, WorkerOptions, Queue, idle, first_end, conclude, write}
use agentback.Jobs.Worker.{opened}
use agentback.Jobs.Worker.Count.{count}
use agentback.Jobs.Worker.Invariant.{Inv}

abbrev pub lists : ℕ → List ℕ → Bool
lists r refs = any (λ q. q == r) refs

-- The same objects, and lists and an index that are no larger.
pub record Kept {A : Type 0} (s t : Store A) : Type 0 where
  pub cells : s.cells ≡ t.cells
  pub next : s.next ≡ t.next
  pub listed : (name : String) (r : ℕ) → lists r (list s name) ≡ true → lists r (list t name) ≡ true
  pub by_id : (id : String) (r : ℕ) → lookup id s.by_id ≡ some r → lookup id t.by_id ≡ some r

pub kept : {A : Type 0} (s : Store A) → Kept s s
kept s = record { cells = refl; next = refl; listed = λ name r h. h; by_id = λ id r h. h }

then-Kept : {A : Type 0} (s t u : Store A) → Kept s t → Kept t u → Kept s u
then-Kept s t u p q = record {
  cells = p.cells ∙ q.cells;
  next = p.next ∙ q.next;
  listed = λ name r h. q.listed name r (p.listed name r h);
  by_id = λ id r h. q.by_id id r (p.by_id id r h);
}

lists-select :
    (r : ℕ) (test : ℕ → Bool) (refs : List ℕ)
    → lists r (select test refs) ≡ true
    → lists r refs ≡ true
lists-select r test [] h = h
lists-select r test (q ∷ refs) h = ground (arith, lists-select r test refs)

module _ {A : Type 0} where
  keep_others-listed :
      (s : Store A) (name id : String) (refs : Option (List ℕ))
      → lookup name s.jobs ≡ refs
      → (other : String) (r : ℕ)
      → lists r (or_empty (lookup other (keep_others s name id refs))) ≡ true
      → lists r (list s other) ≡ true
  keep_others-listed s name id none e other r h = h
  keep_others-listed s name id (some refs) e other r h = ground (
    arith,
    lookup-insert name other (select (λ q. differs id (s.cells q)) refs) s.jobs,
    eq_iff name other,
    lists-select r (λ q. differs id (s.cells q)) refs,
  )

  pub remove-Kept : (name id : String) (s : Store A) → Kept (remove name id s) s
  unfolding remove
  remove-Kept name id s = record {
    cells = refl;
    next = refl;
    listed = keep_others-listed s name id (lookup name s.jobs) refl;
    by_id = λ asked r h. ground (arith, lookup-erase id asked s.by_id);
  }

  pub drain_cell-Kept :
      (name : String) (cell : Option (StoredJob A)) (s : Store A) → Kept (drain_cell name cell s) s
  drain_cell-Kept name none s = kept s
  drain_cell-Kept name (some job) s =
      if_rule (λ t. Kept t s) (is_pending job.state) (remove name job.id s) s
        (λ _. remove-Kept name job.id s) (λ _. kept s)

  remove_cell-Kept :
      (name : String) (cell : Option (StoredJob A)) (s : Store A) → Kept (remove_cell name cell s) s
  remove_cell-Kept name none s = kept s
  remove_cell-Kept name (some job) s = remove-Kept name job.id s

  pub drain_each-Kept :
      (name : String) (refs : List ℕ) (s : Store A) → Kept (drain_each name refs s) s
  unfolding drain_each
  drain_each-Kept name [] s = kept s
  drain_each-Kept name (r ∷ refs) s =
      let t = drain_cell name (s.cells r) s in
      then-Kept (drain_each name refs t) t s (drain_each-Kept name refs t)
        (drain_cell-Kept name (s.cells r) s)

  pub remove_each-Kept :
      (name : String) (refs : List ℕ) (s : Store A) → Kept (remove_each name refs s) s
  unfolding remove_each
  remove_each-Kept name [] s = kept s
  remove_each-Kept name (r ∷ refs) s =
      let t = remove_cell name (s.cells r) s in
      then-Kept (remove_each name refs t) t s (remove_each-Kept name refs t)
        (remove_cell-Kept name (s.cells r) s)

abbrev pub Valid : {A : Type 0} → ℕ → Queue A → Type 0
Valid limit s = Inv s.store.cells s.store.next s.attempts s.next s.active × (s.active ≤ limit)

pub idle-Valid : {A : Type 0} (limit : ℕ) → Valid {A = A} limit idle
unfolding count
idle-Valid limit = (grind arith, omega arith)

-- What an attempt leaves behind it.
abbrev pub left_by : {A : Type 0} → ℕ → ℕ → Attempt → Ended → StoredJob A → Queue A → Queue A
left_by now c a e job s = record s {
  store = write a.job (conclude now s.issued e job) s.store;
  attempts = put_cell s.attempts c (record a { over = true });
  active = s.active - 1;
}

-- A property that survives each change of the state.
pub record Stable {A : Type 0} (limit : ℕ) (w : WorkerOptions) (Q : Queue A → Type 0) : Type 0 where
  pub kept :
      (s : Queue A) (store : Store A) → Kept store s.store → Q s → Q (record s { store = store })
  pub lived : (s : Queue A) (live : Map ℕ) → Q s → Q (record s { live = live })
  pub issued : (s : Queue A) → Q s → Q (record s { issued = suc s.issued })
  pub shut : (s : Queue A) → Q s → Q (record s { closed = true })
  pub stored :
      (now : ℕ) (name id : String) (raw : A) (opts : EnqueueOptions) (s : Queue A)
      → Valid limit s
      → Q s
      → Q (record s { store = push_job now name id raw opts s.store })
  pub ended :
      (c : ℕ) (a : Attempt) (e : Ended) (s : Queue A)
      → s.attempts c ≡ some a
      → Valid limit s
      → Q s
      → Q (record s { attempts = put_cell s.attempts c (record a { race = first_end e a.race }) })
  pub started :
      (now r : ℕ) (job : StoredJob A) (s : Queue A)
      → s.store.cells r ≡ some job
      → is_pending job.state ≡ true
      → lists r (list s.store w.name) ≡ true
      → Valid limit s
      → Q s
      → Q (opened w now r job s)
  pub over :
      (now c : ℕ) (a : Attempt) (e : Ended) (job : StoredJob A) (s : Queue A)
      → s.attempts c ≡ some a
      → a.over ≡ false
      → first_end e a.race ≡ some e
      → s.store.cells a.job ≡ some job
      → Valid limit s
      → Q s
      → Q (left_by now c a e job s)

-- The invariant together with a stable property.
abbrev pub Both : {A : Type 0} → ℕ → (Queue A → Type 0) → Queue A → Type 0
Both limit Q s = Valid limit s × Q s
