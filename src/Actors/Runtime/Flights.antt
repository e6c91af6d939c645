-- ===== src/Actors/Runtime/Flights.antt =====
-- What the steps of a turn do to the calls in flight.
use agentback.Base.{
  ℕ, ◌<◌, ◌==◌, ◌≡◌, ◌≢◌, refl, sym, ap, ◌∙◌, subst, true, Option, none, some, ◌>>=◌, arith,
  if_rule, Bool-cases, Option-cases, Result, ok, err, Result-cases, ◌⊎◌, inl, inr,
}
use agentback.Base.Map.{Map, lookup}
use agentback.Actors.Json.{Value}
use agentback.Actors.Mailbox.{Mailbox, is_acquired, acquire, release}
use agentback.Actors.Types.{ActorError, ActorTurn}
use agentback.Actors.Identity.{actor_key}
use agentback.Actors.Store.{StoredActor, replay}
use agentback.Actors.Runtime.{
  Flight, Phase, queued, initialising, loaded, receiving, done, System, Step, enters, initialises,
  dispatches, completes, finish, finish_over, enter, initialise, dispatch, complete, expire,
  attempt, put_flight, begin, take_seat, in_phase,
}

pub acquire-next : (m : Mailbox) (i : ℕ) → (acquire m i).next ≡ m.next
unfolding acquire
acquire-next m i = ground arith

pub release-next : (m : Mailbox) (i : ℕ) → (release m i).next ≡ m.next
unfolding release
release-next m i = ground arith

-- A call that has its answer has ended or has been abandoned, and a waiting one has no answer.
pub record Good (f : Flight) : Type 0 where
  pub settled :
      (r : Result ActorError Value)
      → f.answer ≡ some r
      → (f.turn_guard.expired ≡ true) ⊎ (f.phase ≡ done)
  pub waiting : f.phase ≡ queued → f.answer ≡ none

-- An answer that was given stays.
abbrev pub Keeps : Flight → Flight → Type 0
Keeps f g = (r : Result ActorError Value) → f.answer ≡ some r → g.answer ≡ some r

pub record AllGood (s : System) : Type 0 where
  pub good : (i : ℕ) (f : Flight) → s.flights i ≡ some f → Good f
  pub bound : (i : ℕ) (f : Flight) → s.flights i ≡ some f → i < s.mailbox.next

-- What a step makes of the flights of a good state.
pub record Turned (s t : System) : Type 0 where
  pub good : AllGood t
  pub keeps :
      (i : ℕ) (f : Flight)
      → s.flights i ≡ some f
      → (g : Flight) × (t.flights i ≡ some g) × Keeps f g

pub Turned-refl : (s : System) → AllGood s → Turned s s
Turned-refl s v = record { good = v; keeps = λ i f h. (f, h, λ r e. e) }

pub Turned-trans : (s t u : System) → Turned s t → Turned t u → Turned s u
Turned-trans s t u h k = record {
  good = k.good;
  keeps = λ i f p.
      let (g, q, a) = h.keeps i f p in let (j, r, b) = k.keeps i g q in (j, r, λ x e. b x (a x e));
}

-- A step that writes the flight of one turn.
module _ (s t : System) (v : AllGood s) (i : ℕ) (f : Flight) (at : s.flights i ≡ some f) where
  pub put-Turned :
      t.mailbox.next ≡ s.mailbox.next
      → (g : Flight) → ((j : ℕ) → t.flights j ≡ put_flight s.flights i g j)
      → Good g
      → Keeps f g
      → Turned s t
  put-Turned e g p good keeps = record {
    good = record {
      good = λ j x h. elim (Bool-cases (i == j)) [
        | inl b ↦ let same : g ≡ x = ground (arith, p j) in subst Good same good
        | inr b ↦ v.good j x (ground (arith, p j))
      ];
      bound = λ j x h. ground (arith, p j, v.bound j x, v.bound i f);
    };
    keeps = λ j x h. elim (Bool-cases (i == j)) [
      | inl b ↦
          let same : f ≡ x = ground arith in
          (g, ground (arith, p j), λ r k. keeps r (subst (λ y. y.answer ≡ some r) (sym same) k))
      | inr b ↦ (x, ground (arith, p j), λ r k. k)
    ];
  }

  module _ (actors : Map StoredActor) where
    finish_over-Turned :
        (r : Result ActorError Value) (earlier : Option (Result ActorError Value))
        → f.answer ≡ earlier
        → t ≡ finish_over (record s { actors = actors }) i f r earlier
        → Turned s t
    finish_over-Turned r none p e =
        put-Turned (ap (λ x. x.mailbox.next) e ∙ release-next s.mailbox i)
          (record f { phase = done; answer = some r }) (λ j. ap (λ x. x.flights j) e)
          (record { settled = λ x h. inr refl; waiting = λ h. absurd (ground arith) })
          (λ x h. absurd (ground arith))
    finish_over-Turned r (some earlier) p e =
        put-Turned (ap (λ x. x.mailbox.next) e) (record f { phase = done })
          (λ j. ap (λ x. x.flights j) e)
          (record { settled = λ x h. inr refl; waiting = λ h. absurd (ground arith) }) (λ x h. h)

    finish-Turned :
        (r : Result ActorError Value) → t ≡ finish (record s { actors = actors }) i f r → Turned s t
    unfolding finish
    finish-Turned r e = finish_over-Turned r f.answer refl e

  -- A turn that goes on to a phase in which it is waited for.
  pub move-Turned :
      (phase : Phase)
      → phase ≢ queued
      → f.phase ≢ queued
      → f.phase ≢ done
      → t.mailbox.next ≡ s.mailbox.next
      → ((j : ℕ) → t.flights j ≡ put_flight s.flights i (record f { phase = phase }) j)
      → Turned s t
  move-Turned phase n k d e p =
      put-Turned e (record f { phase = phase }) p
        (record {
          settled = λ r h. inl (ground (arith, (v.good i f at).settled r h));
          waiting = λ h. absurd (n h);
        })
        (λ r h. h)

module _ (s : System) (v : AllGood s) (i : ℕ) (f : Flight) (at : s.flights i ≡ some f) where
  pub enter-Turned : (now : ℕ) → f.phase ≡ queued → Turned s (enter s i now f)
  unfolding enter
  enter-Turned now q =
      let free : f.answer ≡ none = (v.good i f at).waiting q in
      let g = begin now (lookup (actor_key f.actor) s.actors) f in
      if_rule (Turned s) (is_acquired ((acquire s.mailbox i).tickets i))
        (take_seat s i now f (acquire s.mailbox i)) s
        (λ a.
          put-Turned s (take_seat s i now f (acquire s.mailbox i)) v i f at
            (acquire-next s.mailbox i) g (λ j. refl)
            (record { settled = λ r h. absurd (ground arith); waiting = λ h. free }) (λ r h. h))
        (λ a. Turned-refl s v)

  pub initialise-Turned :
      (initial : Result ActorError Value)
      → f.phase ≡ initialising
      → Turned s (initialise s i f initial)
  unfolding initialise
  initialise-Turned initial q = elim (Result-cases (initial >>= f.definition.parse_state)) [
    | inr (e, p) ↦ rw p (finish-Turned s _ v i f at s.actors (err e) refl)
    | inl (state, p) ↦ rw p (
        move-Turned s _ v i f at loaded (ground arith) (ground arith) (ground arith) refl
          (λ j. refl))
  ]

  pub dispatch-Turned : f.phase ≡ loaded → Turned s (dispatch s i f)
  unfolding dispatch
  dispatch-Turned l = elim (Option-cases (lookup (actor_key f.actor) s.actors)) [
    | inl p ↦ rw p (Turned-refl s v)
    | inr (stored, p) ↦ elim (Option-cases (replay stored f.request_id f.fingerprint)) [
      | inl q ↦ rw p (
          rw q (
            move-Turned s _ v i f at receiving (ground arith) (ground arith) (ground arith) refl
              (λ j. refl)))
      | inr (r, q) ↦ rw p (rw q (finish-Turned s _ v i f at s.actors r refl))
    ]
  ]

  pub complete-Turned :
      (now : ℕ) (received : Result ActorError ActorTurn) → Turned s (complete s i now f received)
  unfolding complete
  complete-Turned now received = elim (Option-cases (lookup (actor_key f.actor) s.actors)) [
    | inl p ↦ rw p (Turned-refl s v)
    | inr (stored, p) ↦ elim (Result-cases (attempt s now f stored received)) [
      | inr (e, q) ↦ rw p (rw q (finish-Turned s _ v i f at s.actors (err e) refl))
      | inl (c, q) ↦ rw p (rw q (finish-Turned s _ v i f at _ (ok c.result) refl))
    ]
  ]

  pub expire-Turned : f.answer ≡ none → f.phase ≢ queued → Turned s (expire s i f)
  unfolding expire
  expire-Turned n q =
      put-Turned s _ v i f at (release-next s.mailbox i) _ (λ j. refl)
        (record { settled = λ r h. inl refl; waiting = λ h. absurd (q h) })
        (λ r h. absurd (ground arith))

  pub in_phase-Turned :
      (e : Step) (phase : Phase) → f.phase ≡ phase → Turned s (in_phase s i e f phase)
  in_phase-Turned (enters _ now) queued q = enter-Turned now q
  in_phase-Turned (initialises _ r) initialising q = initialise-Turned r q
  in_phase-Turned (dispatches _) loaded q = dispatch-Turned q
  in_phase-Turned (completes _ now r) receiving q = complete-Turned now r
  in_phase-Turned _ _ q = Turned-refl s v
