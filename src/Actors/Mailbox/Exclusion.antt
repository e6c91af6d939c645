-- ===== src/Actors/Mailbox/Exclusion.antt =====
-- Turns of one identity hold their seat one at a time, in the order of arrival.
use agentback.Base.{
  ℕ, ◌≤◌, ◌<◌, ◌≡◌, ◌≢◌, refl, String, true, Option, none, some, List, [], ◌∷◌, arith, eq_iff, inl,
  inr, if_rule, Option-cases,
}
use agentback.Base.Map.{lookup, lookup-insert, lookup-erase}
use agentback.Actors.Mailbox.{
  Ticket, Mailbox, Move, arrives, acquires, releases, empty, update, drop_tail, is_free, arrive,
  acquire, release, step,
}

pub record Inv (m : Mailbox) : Type 0 where
  pub bound : (i : ℕ) (t : Ticket) → m.tickets i ≡ some t → i < m.next
  pub tail_bound : (key : String) (p : ℕ) → lookup key m.tails ≡ some p → p < m.next
  pub wait_bound : (n p : ℕ) (s : Ticket) → m.tickets n ≡ some s → s.previous ≡ some p → p < n
  pub tail_there : (key : String) (p : ℕ) → lookup key m.tails ≡ some p → m.tickets p ≢ none
  pub wait_there :
      (n p : ℕ) (s : Ticket) → m.tickets n ≡ some s → s.previous ≡ some p → m.tickets p ≢ none
  pub tail_none :
      (i : ℕ) (t : Ticket) → m.tickets i ≡ some t → lookup t.key m.tails ≡ none → t.released ≡ true
  pub tail_some :
      (i p : ℕ) (t : Ticket) → m.tickets i ≡ some t → lookup t.key m.tails ≡ some p → i ≤ p
  pub tail_key :
      (key : String) (p : ℕ) (t : Ticket)
      → lookup key m.tails ≡ some p
      → m.tickets p ≡ some t
      → t.key ≡ key
  pub wait_none :
      (n i : ℕ) (s t : Ticket)
      → m.tickets n ≡ some s
      → s.previous ≡ none
      → m.tickets i ≡ some t
      → t.key ≡ s.key
      → i < n
      → t.released ≡ true
  pub wait_some :
      (n i p : ℕ) (s t : Ticket)
      → m.tickets n ≡ some s
      → s.previous ≡ some p
      → m.tickets i ≡ some t
      → t.key ≡ s.key
      → i < n
      → i ≤ p
  pub wait_key :
      (n p : ℕ) (s t : Ticket)
      → m.tickets n ≡ some s
      → s.previous ≡ some p
      → m.tickets p ≡ some t
      → t.key ≡ s.key
  pub ordered :
      (n i : ℕ) (s t : Ticket)
      → m.tickets n ≡ some s
      → s.acquired ≡ true
      → m.tickets i ≡ some t
      → t.key ≡ s.key
      → i < n
      → t.released ≡ true
  pub after : (i : ℕ) (t : Ticket) → m.tickets i ≡ some t → t.released ≡ true → t.acquired ≡ true

pub empty-Inv : Inv empty
unfolding lookup
empty-Inv = grind arith

module _ (m : Mailbox) (v : Inv m) where
  arrive-Inv : (key : String) → Inv (arrive m key)
  unfolding arrive
  arrive-Inv key = record {
    bound = λ i t h. ground (arith, v.bound i t);
    tail_bound = λ k p h. ground (arith, v.tail_bound k p, lookup-insert key k m.next m.tails);
    wait_bound = λ n p s h k. ground (arith, v.wait_bound n p s, v.tail_bound key p);
    tail_there = λ k p h e. ground (arith, v.tail_there k p, lookup-insert key k m.next m.tails);
    wait_there = λ n p s h k e. ground (arith, v.wait_there n p s, v.tail_there key p);
    tail_none = λ i t h k.
        ground (arith, v.tail_none i t, lookup-insert key t.key m.next m.tails, eq_iff key t.key);
    tail_some = λ i p t h k. ground (
      arith,
      v.tail_some i p t,
      v.bound i t,
      lookup-insert key t.key m.next m.tails,
      eq_iff key t.key,
    );
    tail_key = λ k p t h g. ground (
      arith,
      v.tail_key k p t,
      v.tail_bound k p,
      lookup-insert key k m.next m.tails,
      eq_iff key k,
    );
    wait_none =
        λ n i s t hn p hi e b. ground (arith, v.wait_none n i s t, v.tail_none i t, v.bound n s);
    wait_some = λ n i p s t hn pr hi e b.
        ground (arith, v.wait_some n i p s t, v.tail_some i p t, v.bound n s);
    wait_key = λ n p s t hn pr hi. ground (
      arith,
      v.wait_key n p s t,
      v.tail_key key p t,
      v.bound n s,
      v.wait_bound n p s,
      v.tail_bound key p,
    );
    ordered = λ n i s t hn a hi e b. ground (arith, v.ordered n i s t, v.bound n s);
    after = λ i t h r. ground (arith, v.after i t);
  }

  module _ (n : ℕ) (s : Ticket) (at : m.tickets n ≡ some s) where
    free_previous :
        (i : ℕ) (t : Ticket) (previous : Option ℕ)
        → s.previous ≡ previous
        → is_free m previous ≡ true
        → m.tickets i ≡ some t
        → t.key ≡ s.key
        → i < n
        → t.released ≡ true
    free_previous i t none e free hi k b = v.wait_none n i s t at e hi k b
    free_previous i t (some p) e free hi k b = elim (Option-cases (m.tickets p)) [
      | inl q ↦ absurd (ground arith)
      | inr (u, q) ↦
          ground (arith, v.wait_some n i p s t, v.wait_key n p s u, v.after p u, v.ordered p i u t)
    ]

    acquired-Inv :
        is_free m s.previous ≡ true
        → Inv (record m { tickets = update m.tickets n (record s { acquired = true }) })
    acquired-Inv free = record {
      bound = λ i t h. ground (arith, v.bound i t, v.bound n s);
      tail_bound = v.tail_bound;
      tail_there = λ k p h e. ground (arith, v.tail_there k p);
      wait_there = λ j p t h k e. ground (arith, v.wait_there j p t, v.wait_there n p s);
      wait_bound = λ j p t h k. ground (arith, v.wait_bound j p t, v.wait_bound n p s);
      tail_none = λ i t h k. ground (arith, v.tail_none i t, v.tail_none n s);
      tail_some = λ i p t h k. ground (arith, v.tail_some i p t, v.tail_some n p s);
      tail_key = λ k p t h g. ground (arith, v.tail_key k p t, v.tail_key k p s);
      wait_none = λ j i x t hj p hi e b.
          ground (arith, v.wait_none j i x t, v.wait_none n i s t, v.wait_none j n x s);
      wait_some = λ j i p x t hj pr hi e b.
          ground (arith, v.wait_some j i p x t, v.wait_some n i p s t, v.wait_some j n p x s);
      wait_key = λ j p x t hj pr hi.
          ground (arith, v.wait_key j p x t, v.wait_key n p s t, v.wait_key j n x s);
      ordered = λ j i x t hj a hi e b.
          ground (arith, v.ordered j i x t, v.ordered j n x s, free_previous i t s.previous);
      after = λ i t h r. ground (arith, v.after i t, v.after n s);
    }

    -- Once a turn that holds the seat is over, so are all before it.
    module _ (held : s.acquired ≡ true) where
      below_released :
          (i : ℕ) (t : Ticket) → m.tickets i ≡ some t → t.key ≡ s.key → i < n → t.released ≡ true
      below_released i t hi k b = v.ordered n i s t at held hi k b

      released-Inv : Inv (record m {
        tails = drop_tail m.tails s.key n (lookup s.key m.tails);
        tickets = update m.tickets n (record s { released = true });
      })
      released-Inv = record {
        bound = λ i t h. ground (arith, v.bound i t, v.bound n s);
        tail_bound = λ k p h. ground (arith, v.tail_bound k p, lookup-erase s.key k m.tails);
        tail_there = λ k p h e. ground (arith, v.tail_there k p, lookup-erase s.key k m.tails);
        wait_there = λ j p t h k e. ground (arith, v.wait_there j p t, v.wait_there n p s);
        wait_bound = λ j p t h k. ground (arith, v.wait_bound j p t, v.wait_bound n p s);
        tail_none = λ i t h k. ground (
          arith,
          v.tail_none i t,
          v.tail_some i n t,
          below_released i t,
          lookup-erase s.key t.key m.tails,
          eq_iff s.key t.key,
        );
        tail_some = λ i p t h k.
            ground (arith, v.tail_some i p t, v.tail_some n p s, lookup-erase s.key t.key m.tails);
        tail_key = λ k p t h g.
            ground (arith, v.tail_key k p t, v.tail_key k p s, lookup-erase s.key k m.tails);
        wait_none = λ j i x t hj p hi e b.
            ground (arith, v.wait_none j i x t, v.wait_none n i s t, v.wait_none j n x s);
        wait_some = λ j i p x t hj pr hi e b.
            ground (arith, v.wait_some j i p x t, v.wait_some n i p s t, v.wait_some j n p x s);
        wait_key = λ j p x t hj pr hi.
            ground (arith, v.wait_key j p x t, v.wait_key n p s t, v.wait_key j n x s);
        ordered = λ j i x t hj a hi e b.
            ground (arith, v.ordered j i x t, v.ordered j n x s, v.ordered n i s t);
        after = λ i t h r. ground (arith, v.after i t);
      }

  acquire-Inv : (n : ℕ) → Inv (acquire m n)
  unfolding acquire
  acquire-Inv n = elim (Option-cases (m.tickets n)) [
    | inl p ↦ rw p v
    | inr (s, p) ↦ rw p (if_rule Inv (is_free m s.previous) _ _ (acquired-Inv n s p) (λ _. v))
  ]

  release-Inv : (n : ℕ) → Inv (release m n)
  unfolding release
  release-Inv n = elim (Option-cases (m.tickets n)) [
    | inl p ↦ rw p v
    | inr (s, p) ↦ rw p (if_rule Inv s.acquired _ _ (released-Inv n s p) (λ _. v))
  ]

pub step-Inv : (m : Mailbox) (move : Move) → Inv m → Inv (step m move)
unfolding step
step-Inv m (arrives key) v = arrive-Inv m v key
step-Inv m (acquires n) v = acquire-Inv m v n
step-Inv m (releases n) v = release-Inv m v n

unfoldable pub run : Mailbox → List Move → Mailbox
run m [] = m
run m (move ∷ moves) = run (step m move) moves

run-Inv : (m : Mailbox) (moves : List Move) → Inv m → Inv (run m moves)
unfolding run
run-Inv m [] v = v
run-Inv m (move ∷ moves) v = run-Inv (step m move) moves (step-Inv m move v)

-- Whatever order turns arrive, go on and end in, of two turns of one identity that both hold or held
-- the seat, the one that arrived first has released it.
pub run-exclusive :
    (moves : List Move) (n i : ℕ) (s t : Ticket)
    → (run empty moves).tickets n ≡ some s
    → (run empty moves).tickets i ≡ some t
    → t.key ≡ s.key
    → s.acquired ≡ true
    → i < n
    → t.released ≡ true
run-exclusive moves n i s t hn hi k a b =
    (run-Inv empty moves empty-Inv).ordered n i s t hn a hi k b

-- A waiting turn is let in as soon as every earlier turn of its identity has released the seat: no
-- order of events wedges a mailbox.
pub run-lets_in :
    (moves : List Move) (n : ℕ) (s : Ticket)
    → (run empty moves).tickets n ≡ some s
    → ((i : ℕ) (t : Ticket)
        → (run empty moves).tickets i ≡ some t
        → t.key ≡ s.key
        → i < n
        → t.released ≡ true)
    → (acquire (run empty moves) n).tickets n ≡ some (record s { acquired = true })
unfolding acquire
run-lets_in moves n s hn all = ground (arith, free s.previous refl)
  where
    m : Mailbox
    m = run empty moves

    v : Inv m
    v = run-Inv empty moves empty-Inv

    free : (previous : Option ℕ) → s.previous ≡ previous → is_free m previous ≡ true
    free none e = refl
    free (some p) e = elim (Option-cases (m.tickets p)) [
      | inl q ↦ absurd (v.wait_there n p s hn e q)
      | inr (u, q) ↦ rw q (all p u q (v.wait_key n p s u hn e q) (v.wait_bound n p s hn e))
    ]
