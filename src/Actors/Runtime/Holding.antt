-- ===== src/Actors/Runtime/Holding.antt =====
-- The ticket that each call of the runtime holds.
use agentback.Base.{
  ℕ, ◌==◌, ◌≡◌, refl, sym, ap, ◌∙◌, subst, String, Bool, true, false, ◌||◌, Option, none, some,
  ◌>>=◌, arith, if_rule, Bool-cases, Option-cases, Result, ok, err, Result-cases, inl, inr,
}
use agentback.Base.Map.{Map, lookup}
use agentback.Actors.Json.{Value}
use agentback.Actors.Mailbox.{
  Mailbox, Ticket, arrive, is_acquired, acquire, release, arrives, acquires, releases,
}
use agentback.Actors.Mailbox
use agentback.Actors.Mailbox.Exclusion.{Inv, step-Inv}
use agentback.Actors.Types.{ActorError, ActorTurn}
use agentback.Actors.Identity.{actor_key}
use agentback.Actors.Store.{StoredActor, replay}
use agentback.Actors.Runtime.{
  Flight, Phase, queued, initialising, loaded, receiving, done, System, Step, enters, initialises,
  dispatches, completes, settle, finish, finish_over, enter, initialise, dispatch, complete, expire,
  attempt, put_flight, begin, take_seat, in_phase, can_expire,
}

-- A turn that runs and has no answer yet.
abbrev pub is_live : Flight → Bool
is_live f = can_expire f.phase f.answer

abbrev pub is_queued : Phase → Bool
is_queued queued = true
is_queued _ = false

pub answered_dead :
    (phase : Phase) (r : Result ActorError Value) → can_expire phase (some r) ≡ false
answered_dead phase r = grind arith

-- The ticket of a call: its identity's, held while the turn is live, and not given back before.
pub record Holds (m : Mailbox) (i : ℕ) (f : Flight) : Type 0 where
  pub ticket : Ticket
  pub at : m.tickets i ≡ some ticket
  pub key : ticket.key ≡ actor_key f.actor
  pub seated : is_live f ≡ true → ticket.acquired ≡ true
  pub kept : (is_live f || is_queued f.phase) ≡ true → ticket.released ≡ false

pub record AllHold (s : System) : Type 0 where
  pub inv : Inv s.mailbox
  pub holds : (i : ℕ) (f : Flight) → s.flights i ≡ some f → Holds s.mailbox i f

pub Holds-same :
    (m n : Mailbox) (i : ℕ) (f : Flight) → n.tickets i ≡ m.tickets i → Holds m i f → Holds n i f
Holds-same m n i f e h = record {
  ticket = h.ticket;
  at = e ∙ h.at;
  key = h.key;
  seated = h.seated;
  kept = h.kept;
}

-- A step that writes the flight and the ticket of one turn.
pub put-AllHold :
    (s t : System) (i : ℕ) (g : Flight)
    → AllHold s
    → Inv t.mailbox
    → ((j : ℕ) → (i == j) ≡ false → t.mailbox.tickets j ≡ s.mailbox.tickets j)
    → ((j : ℕ) → t.flights j ≡ put_flight s.flights i g j)
    → Holds t.mailbox i g
    → AllHold t
put-AllHold s t i g v inv apart put own = record {
  inv = inv;
  holds = λ j f h. elim (Bool-cases (i == j)) [
    | inl b ↦
        let same : g ≡ f = ground (arith, put j) in
        let here : i ≡ j = ground arith in
        subst (λ k. Holds t.mailbox k f) here (subst (Holds t.mailbox i) same own)
    | inr b ↦ Holds-same s.mailbox t.mailbox j f (apart j b) (v.holds j f (ground (arith, put j)))
  ];
}

pub release-apart :
    (m : Mailbox) (i j : ℕ) → (i == j) ≡ false → (release m i).tickets j ≡ m.tickets j
unfolding release
release-apart m i j h = ground arith

pub acquire-apart :
    (m : Mailbox) (i j : ℕ) → (i == j) ≡ false → (acquire m i).tickets j ≡ m.tickets j
unfolding acquire
acquire-apart m i j h = ground arith

pub release-own :
    (m : Mailbox) (i : ℕ) (t : Ticket)
    → m.tickets i ≡ some t
    → (u : Ticket) × ((release m i).tickets i ≡ some u) × (u.key ≡ t.key)
unfolding release
release-own m i t h = elim (Bool-cases t.acquired) [
  | inl a ↦ (record t { released = true }, ground arith, refl)
  | inr a ↦ (t, ground arith, refl)
]

pub acquire-own :
    (m : Mailbox) (i : ℕ) (t : Ticket)
    → m.tickets i ≡ some t
    → (u : Ticket) × ((acquire m i).tickets i ≡ some u)
      × (u.key ≡ t.key)
      × (u.released ≡ t.released)
unfolding acquire
acquire-own m i t h = elim (Bool-cases (Mailbox.is_free m t.previous)) [
  | inl a ↦ (record t { acquired = true }, ground arith, refl, refl)
  | inr a ↦ (t, ground arith, refl, refl)
]

pub release-Inv : (m : Mailbox) (i : ℕ) → Inv m → Inv (release m i)
unfolding Mailbox.step
release-Inv m i v = step-Inv m (releases i) v

pub acquire-Inv : (m : Mailbox) (i : ℕ) → Inv m → Inv (acquire m i)
unfolding Mailbox.step
acquire-Inv m i v = step-Inv m (acquires i) v

pub arrive-Inv : (m : Mailbox) (key : String) → Inv m → Inv (arrive m key)
unfolding Mailbox.step
arrive-Inv m key v = step-Inv m (arrives key) v

module _ (s : System) (v : AllHold s) (i : ℕ) (f : Flight) (at : s.flights i ≡ some f)
    (actors : Map StoredActor) where
  -- The flight changes, and the mailbox does not.
  pub move-AllHold :
      (t : System) (g : Flight)
      → t.mailbox ≡ s.mailbox
      → ((j : ℕ) → t.flights j ≡ put_flight s.flights i g j)
      → g.actor ≡ f.actor
      → (is_live g ≡ true → is_live f ≡ true)
      → is_queued g.phase ≡ false
      → AllHold t
  move-AllHold t g e put a live q =
      let h = v.holds i f at in
      put-AllHold s t i g v (subst Inv (sym e) v.inv) (λ j b. ap (λ m. m.tickets j) e) put
        (record {
          ticket = h.ticket;
          at = ap (λ m. m.tickets i) e ∙ h.at;
          key = h.key ∙ ap actor_key (sym a);
          seated = λ l. h.seated (live l);
          kept = λ l. h.kept (ground (arith, live));
        })

  -- The race is over.
  pub settle-AllHold :
      (g : Flight) (r : Result ActorError Value)
      → g.actor ≡ f.actor
      → is_queued g.phase ≡ false
      → AllHold (settle (record s { actors = actors }) i g r)
  settle-AllHold g r a q =
      let h = v.holds i f at in
      let (u, p, k) = release-own s.mailbox i h.ticket h.at in
      put-AllHold s (settle (record s { actors = actors }) i g r) i (record g { answer = some r }) v
        (release-Inv s.mailbox i v.inv) (λ j b. release-apart s.mailbox i j b) (λ j. refl)
        (record {
          ticket = u;
          at = p;
          key = k ∙ h.key ∙ ap actor_key (sym a);
          seated = λ l. (let d = answered_dead g.phase r in absurd (ground arith));
          kept = λ l. (let d = answered_dead g.phase r in absurd (ground arith));
        })

  pub finish_over-AllHold :
      (r : Result ActorError Value) (earlier : Option (Result ActorError Value))
      → AllHold (finish_over (record s { actors = actors }) i f r earlier)
  finish_over-AllHold r none = settle-AllHold (record f { phase = done }) r refl refl
  finish_over-AllHold r (some earlier) =
      move-AllHold _ (record f { phase = done }) refl (λ j. refl) refl (λ l. absurd (ground arith))
        refl

  pub finish-AllHold :
      (r : Result ActorError Value) → AllHold (finish (record s { actors = actors }) i f r)
  unfolding finish
  finish-AllHold r = finish_over-AllHold r f.answer

-- A running turn goes on: it is as live as it was.
pub live_phase :
    (phase next : Phase) (answer : Option (Result ActorError Value))
    → (phase ≡ initialising)
    → (next ≡ loaded)
    → can_expire next answer ≡ true
    → can_expire phase answer ≡ true
live_phase phase next answer p q h = grind arith

pub live_phase_receiving :
    (phase next : Phase) (answer : Option (Result ActorError Value))
    → (phase ≡ loaded)
    → (next ≡ receiving)
    → can_expire next answer ≡ true
    → can_expire phase answer ≡ true
live_phase_receiving phase next answer p q h = grind arith

pub live_not_queued : (f : Flight) → is_live f ≡ true → is_queued f.phase ≡ false
live_not_queued f h = grind arith

module _ (s : System) (v : AllHold s) (i : ℕ) (f : Flight) (at : s.flights i ≡ some f) where
  pub enter-AllHold : (now : ℕ) → f.phase ≡ queued → AllHold (enter s i now f)
  unfolding enter
  enter-AllHold now q =
      let h = v.holds i f at in
      let g = begin now (lookup (actor_key f.actor) s.actors) f in
      let (u, p, k, r) = acquire-own s.mailbox i h.ticket h.at in
      if_rule AllHold (is_acquired ((acquire s.mailbox i).tickets i))
        (take_seat s i now f (acquire s.mailbox i)) s
        (λ a.
          put-AllHold s (take_seat s i now f (acquire s.mailbox i)) i g v
            (acquire-Inv s.mailbox i v.inv) (λ j b. acquire-apart s.mailbox i j b) (λ j. refl)
            (record {
              ticket = u;
              at = p;
              key = k ∙ h.key;
              seated = λ l. ground arith;
              kept = λ l. r ∙ h.kept (ground arith);
            }))
        (λ a. v)

  pub initialise-AllHold :
      (initial : Result ActorError Value)
      → f.phase ≡ initialising
      → AllHold (initialise s i f initial)
  unfolding initialise
  initialise-AllHold initial q = elim (Result-cases (initial >>= f.definition.parse_state)) [
    | inr (e, p) ↦ rw p (finish-AllHold s v i f at s.actors (err e))
    | inl (state, p) ↦ rw p (
        move-AllHold s v i f at s.actors _ (record f { phase = loaded }) refl (λ j. refl) refl
          (live_phase f.phase loaded f.answer q refl) refl)
  ]

  pub dispatch-AllHold : f.phase ≡ loaded → AllHold (dispatch s i f)
  unfolding dispatch
  dispatch-AllHold l = elim (Option-cases (lookup (actor_key f.actor) s.actors)) [
    | inl p ↦ rw p v
    | inr (stored, p) ↦ elim (Option-cases (replay stored f.request_id f.fingerprint)) [
      | inl q ↦ rw p (
          rw q (
            move-AllHold s v i f at s.actors _ (record f { phase = receiving }) refl (λ j. refl)
              refl (live_phase_receiving f.phase receiving f.answer l refl) refl))
      | inr (r, q) ↦ rw p (rw q (finish-AllHold s v i f at s.actors r))
    ]
  ]

  pub complete-AllHold :
      (now : ℕ) (received : Result ActorError ActorTurn) → AllHold (complete s i now f received)
  unfolding complete
  complete-AllHold now received = elim (Option-cases (lookup (actor_key f.actor) s.actors)) [
    | inl p ↦ rw p v
    | inr (stored, p) ↦ elim (Result-cases (attempt s now f stored received)) [
      | inr (e, q) ↦ rw p (rw q (finish-AllHold s v i f at s.actors (err e)))
      | inl (c, q) ↦ rw p (rw q (finish-AllHold s v i f at _ (ok c.result)))
    ]
  ]

  pub expire-AllHold : is_live f ≡ true → AllHold (expire s i f)
  unfolding expire
  expire-AllHold l =
      settle-AllHold s v i f at s.actors
        (record f { turn_guard = record f.turn_guard { expired = true } }) _ refl
        (live_not_queued f l)

  pub in_phase-AllHold :
      (e : Step) (phase : Phase) → f.phase ≡ phase → AllHold (in_phase s i e f phase)
  in_phase-AllHold (enters _ now) queued q = enter-AllHold now q
  in_phase-AllHold (initialises _ r) initialising q = initialise-AllHold r q
  in_phase-AllHold (dispatches _) loaded q = dispatch-AllHold q
  in_phase-AllHold (completes _ now r) receiving q = complete-AllHold now r
  in_phase-AllHold _ _ q = v
