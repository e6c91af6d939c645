-- ===== src/Actors/Runtime/Turns.antt =====
-- The answers of the runtime's calls over any schedule.
use agentback.Base.{
  ℕ, ◌+◌, ◌==◌, ◌≡◌, ◌≢◌, refl, sym, subst, String, true, Option, none, some, List, [], ◌∷◌, str_eq,
  arith, if_rule, Bool-cases, Option-cases, Result, ok, err, Result-cases, inl, inr,
}
use agentback.Base.Map.{Map, lookup}
use agentback.Actors.Json.{Value}
use agentback.Actors.Mailbox.{Mailbox, arrive}
use agentback.Actors.Types.{ActorId, ActorError, Definition, ActorTurn}
use agentback.Actors.Fingerprint.{actor_command_fingerprint}
use agentback.Actors.Identity.{actor_key}
use agentback.Actors.Store.{StoredActor, Commit}
use agentback.Actors.Store.Journal.{commit-late}
use agentback.Actors.Runtime.{
  Platform, Flight, Phase, queued, receiving, System, Step, registers, invokes, enters, initialises,
  dispatches, completes, expires, boot, finish, finish_over, complete, register, invoke, or_stay,
  same_definition, step, run, attempt, put_flight, in_phase, on_turn, on_timer, can_expire,
}
use agentback.Actors.Runtime.Flights.{
  Good, AllGood, Turned, Turned-refl, Turned-trans, expire-Turned, in_phase-Turned,
}

can_expire_lem :
    (phase : Phase) (answer : Option (Result ActorError Value))
    → can_expire phase answer ≡ true
    → (answer ≡ none) × (phase ≢ queued)
can_expire_lem phase answer h = grind arith

module _ (s : System) (v : AllGood s) where
  turn-Turned : (i : ℕ) (e : Step) → Turned s (on_turn s i e (s.flights i))
  turn-Turned i e = elim (Option-cases (s.flights i)) [
    | inl p ↦ rw p (Turned-refl s v)
    | inr (f, p) ↦ rw p (in_phase-Turned s v i f p e f.phase refl)
  ]

  timer-Turned : (i : ℕ) → Turned s (on_timer s i (s.flights i))
  timer-Turned i = elim (Option-cases (s.flights i)) [
    | inl p ↦ rw p (Turned-refl s v)
    | inr (f, p) ↦ rw p (
        if_rule (Turned s) (can_expire f.phase f.answer) _ s
          (λ a. let (n, q) = can_expire_lem f.phase f.answer a in expire-Turned s v i f p n q)
          (λ a. Turned-refl s v))
  ]

register-Turned : (s : System) → AllGood s → (d : Definition) → Turned s (or_stay s (register s d))
unfolding register
register-Turned s v d = elim (Option-cases (lookup d.name s.definitions)) [
  | inl p ↦ rw p (Turned_same s v _)
  | inr (e, p) ↦ rw p (
      if_rule (λ r. Turned s (or_stay s r)) (e.identity == d.identity) _ _ (λ a. Turned_same s v _)
        (λ a. Turned-refl s v))
]
  where
    Turned_same :
        (s : System)
        → AllGood s
        → (definitions : Map Definition) → Turned s (record s { definitions = definitions })
    Turned_same s v definitions = record {
      good = record { good = v.good; bound = v.bound };
      keeps = λ i f h. (f, h, λ r e. e);
    }

-- A call that is let into the mailbox.
arrived-Turned :
    (s : System) (v : AllGood s) (f : Flight) (m : Mailbox)
    → f.answer ≡ none
    → m.next ≡ s.mailbox.next + 1
    → Turned s (record s { mailbox = m; flights = put_flight s.flights s.mailbox.next f })
arrived-Turned s v f m n e = record {
  good = record {
    good = λ j x h. elim (Bool-cases (s.mailbox.next == j)) [
      | inl b ↦
          let same : f ≡ x = ground arith in
          subst Good same (record { settled = λ r a. absurd (ground arith); waiting = λ a. n })
      | inr b ↦ v.good j x (ground arith)
    ];
    bound = λ j x h. ground (arith, v.bound j x);
  };
  keeps = λ j x h. (x, ground (arith, v.bound j x), λ r a. a);
}

invoke-Turned :
    (p : Platform) (s : System) (v : AllGood s) (d : Definition) (actor : ActorId) (command : Value)
    (request_id : String)
    → Turned s (or_stay s (invoke p s d actor command request_id))
unfolding invoke arrive
invoke-Turned p s v d actor command request_id =
    elim (Bool-cases (same_definition d (lookup d.name s.definitions))) [
      | inr a ↦ rw a (Turned-refl s v)
      | inl a ↦ elim (Result-cases (d.parse_command command)) [
        | inr (e, b) ↦ rw a (rw b (Turned-refl s v))
        | inl (parsed, b) ↦
            elim (Result-cases (actor_command_fingerprint p.locale_le p.stringify parsed)) [
              | inr (e, c) ↦ rw a (rw b (rw c (Turned-refl s v)))
              | inl (fingerprint, c) ↦ elim (Bool-cases (str_eq (p.trim request_id) "")) [
                | inl h ↦ rw a (rw b (rw c (rw h (Turned-refl s v))))
                | inr h ↦ rw a (rw b (rw c (rw h (arrived-Turned s v _ _ refl refl))))
              ]
            ]
      ]
    ]

step-Turned : (p : Platform) (s : System) → AllGood s → (e : Step) → Turned s (step p s e)
unfolding step
step-Turned p s v (registers d) = register-Turned s v d
step-Turned p s v (invokes d actor command request_id) =
    invoke-Turned p s v d actor command request_id
step-Turned p s v (enters i now) = turn-Turned s v i (enters i now)
step-Turned p s v (initialises i r) = turn-Turned s v i (initialises i r)
step-Turned p s v (dispatches i) = turn-Turned s v i (dispatches i)
step-Turned p s v (completes i now r) = turn-Turned s v i (completes i now r)
step-Turned p s v (expires i) = timer-Turned s v i

run-Turned : (p : Platform) (s : System) → AllGood s → (es : List Step) → Turned s (run p s es)
unfolding run
run-Turned p s v [] = Turned-refl s v
run-Turned p s v (e ∷ es) =
    let t = step-Turned p s v e in
    Turned-trans s (step p s e) _ t (run-Turned p (step p s e) t.good es)

boot-AllGood : (p : Platform) (limit : ℕ) (es : List Step) → AllGood (run p (boot limit) es)
boot-AllGood p limit es =
    (run-Turned p (boot limit)
      (record { good = λ i f h. absurd (ground arith); bound = λ i f h. absurd (ground arith) })
      es).good

module _ (s : System) (i now : ℕ) (f : Flight) (r : Result ActorError Value)
    (answered : f.answer ≡ some r) (expired : f.turn_guard.expired ≡ true) where
  finish-answered : (e : Result ActorError Value) → (finish s i f e).actors ≡ s.actors
  unfolding finish
  finish-answered e = subst (λ a. (finish_over s i f e a).actors ≡ s.actors) (sym answered) refl

  attempt-abandoned :
      (stored : StoredActor) (received : Result ActorError ActorTurn) (c : Commit)
      → attempt s now f stored received ≢ ok c
  attempt-abandoned stored (err e) c h = ground arith
  attempt-abandoned stored (ok turn) c h =
      commit-late s.dedup_limit f.definition f.actor f.request_id f.fingerprint f.turn_guard now
        stored turn (ground arith) c h

  complete-abandoned :
      (received : Result ActorError ActorTurn) → (complete s i now f received).actors ≡ s.actors
  unfolding complete
  complete-abandoned received = elim (Option-cases (lookup (actor_key f.actor) s.actors)) [
    | inl p ↦ rw p refl
    | inr (stored, p) ↦ elim (Result-cases (attempt s now f stored received)) [
      | inr (e, q) ↦ rw p (rw q (finish-answered (err e)))
      | inl (c, q) ↦ absurd (attempt-abandoned stored received c q)
    ]
  ]

  -- Only a turn that waits for `receive` has one that ends.
  completes-in_phase :
      (received : Result ActorError ActorTurn) (phase : Phase)
      → (in_phase s i (completes i now received) f phase).actors ≡ s.actors
  completes-in_phase received receiving = complete-abandoned received
  completes-in_phase received _ = refl

module _ (p : Platform) (limit : ℕ) (es : List Step) (i : ℕ) (f : Flight)
    (r : Result ActorError Value) where
  -- After any schedule from a fresh runtime, when `receive` ends in a turn whose caller has an
  -- answer already, no identity's state, journal or dedup map changes.
  pub completes-abandoned :
      (run p (boot limit) es).flights i ≡ some f
      → f.answer ≡ some r
      → (now : ℕ) (received : Result ActorError ActorTurn)
      → (step p (run p (boot limit) es) (completes i now received)).actors
        ≡ (run p (boot limit) es).actors
  unfolding step
  completes-abandoned at h now received =
      let s = run p (boot limit) es in
      rw at (elim (((boot-AllGood p limit es).good i f at).settled r h) [
        | inl e ↦ completes-in_phase s i now f r h e received f.phase
        | inr d ↦ ground arith
      ])
