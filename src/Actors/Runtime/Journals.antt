-- ===== src/Actors/Runtime/Journals.antt =====
-- The journals of the runtime over any schedule.
use agentback.Base.{
  ◌==◌, ◌>>=◌, ℕ, ◌≡◌, refl, ap, ◌∙◌, subst, String, true, Option, none, some, List, [], ◌∷◌, ◌++◌,
  str_eq, arith, if_rule, Bool-cases, Option-cases, Result, ok, err, Result-cases, inl, inr,
}
use agentback.Base.Map.{Map, lookup, insert}
use agentback.Actors.Json.{Value}
use agentback.Actors.Types.{
  ActorId, ActorError, Definition, ActorTurn, CommittedActorEvent, is_own_turn_timeout,
}
use agentback.Actors.Fingerprint.{actor_command_fingerprint}
use agentback.Actors.Identity.{actor_key}
use agentback.Actors.Store.{StoredActor, fresh, Commit, record_timed_out, replay}
use agentback.Actors.Store.Journal.{
  fresh-IsJournal, commit-IsJournal, commit-Committed, record_timed_out-IsJournal,
}
use agentback.Actors.Runtime.{
  deadline_ms_of, Platform, Flight, Phase, queued, initialising, loaded, receiving, done, enters,
  initialises, dispatches, completes, registers, invokes, expires, on_turn, on_timer, can_expire,
  in_phase, same_definition, System, Step, boot, settle, finish, finish_over, journal_timeout,
  enter, initialise, dispatch, complete, expire, register, invoke, or_stay, step, run, attempt,
}
use agentback.Actors.Runtime.Growth.{
  AllJournals, Extends, Advances, Advances-refl, Advances-trans, replace-Advances, create-Advances,
}

-- A step of the runtime keeps the limit and advances the journals.
record Goes (s t : System) : Type 0 where
  limit : t.dedup_limit ≡ s.dedup_limit
  journals : Advances s.dedup_limit s.actors t.actors

Goes-refl : (s : System) → Goes s s
Goes-refl s = record { limit = refl; journals = Advances-refl s.dedup_limit s.actors }

Goes-trans : (s t u : System) → Goes s t → Goes t u → Goes s u
Goes-trans s t u h k = record {
  limit = k.limit ∙ h.limit;
  journals =
      Advances-trans s.dedup_limit s.actors t.actors u.actors h.journals
        (subst (λ n. Advances n t.actors u.actors) h.limit k.journals);
}

record_timed_out-events :
    (actor : ActorId) (request_id : String) (deadline_ms : ℕ) (s : StoredActor)
    → (more : List CommittedActorEvent) × ((record_timed_out actor request_id deadline_ms s).events
        ≡ s.events ++ more)
unfolding record_timed_out
record_timed_out-events actor request_id deadline_ms s = (_, refl)

journal_timeout-Advances :
    (limit : ℕ) (f : Flight) (r : Result ActorError Value) (actors : Map StoredActor)
    → Advances limit actors (journal_timeout f r actors)
journal_timeout-Advances limit f (ok v) actors = Advances-refl limit actors
journal_timeout-Advances limit f (err e) actors =
    if_rule (Advances limit actors) (is_own_turn_timeout e f.actor f.request_id) _ actors
      (λ own. elim (Option-cases (lookup (actor_key f.actor) actors)) [
        | inl p ↦ rw p (Advances-refl limit actors)
        | inr (old, p) ↦
            let (more, same) =
              record_timed_out-events f.actor f.request_id (deadline_ms_of e) old in
            rw p (
              replace-Advances limit actors (actor_key f.actor) _ old p more same
                (record_timed_out-IsJournal limit f.actor f.request_id (deadline_ms_of e) old))
      ])
      (λ other. Advances-refl limit actors)

settle-Goes :
    (s : System) (i : ℕ) (f : Flight) (r : Result ActorError Value) → Goes s (settle s i f r)
settle-Goes s i f r = record {
  limit = refl;
  journals = journal_timeout-Advances s.dedup_limit f r s.actors;
}

finish_over-Goes :
    (s : System) (i : ℕ) (f : Flight) (r : Result ActorError Value)
    (earlier : Option (Result ActorError Value))
    → Goes s (finish_over s i f r earlier)
finish_over-Goes s i f r none = settle-Goes s i (record f { phase = done }) r
finish_over-Goes s i f r (some earlier) = record {
  limit = refl;
  journals = Advances-refl s.dedup_limit s.actors;
}

finish-Goes :
    (s : System) (i : ℕ) (f : Flight) (r : Result ActorError Value) → Goes s (finish s i f r)
unfolding finish
finish-Goes s i f r = finish_over-Goes s i f r f.answer

enter-Goes : (s : System) (i now : ℕ) (f : Flight) → Goes s (enter s i now f)
unfolding enter
enter-Goes s i now f =
    if_rule (Goes s) _ _ s
      (λ a. record { limit = refl; journals = Advances-refl s.dedup_limit s.actors })
      (λ a. Goes-refl s)

initialise-Goes :
    (s : System) (i : ℕ) (f : Flight) (initial : Result ActorError Value)
    → Goes s (initialise s i f initial)
unfolding initialise
initialise-Goes s i f initial = elim (Result-cases (initial >>= f.definition.parse_state)) [
  | inr (e, p) ↦ rw p (finish-Goes s i f (err e))
  | inl (state, p) ↦ elim (Option-cases (lookup (actor_key f.actor) s.actors)) [
    | inl q ↦ rw p (
        rw q (record {
          limit = refl;
          journals =
              create-Advances s.dedup_limit s.actors (actor_key f.actor) (fresh state) q
                (fresh-IsJournal s.dedup_limit state);
        }))
    | inr (raced, q) ↦
        rw p (rw q (record { limit = refl; journals = Advances-refl s.dedup_limit s.actors }))
  ]
]

dispatch-Goes : (s : System) (i : ℕ) (f : Flight) → Goes s (dispatch s i f)
unfolding dispatch
dispatch-Goes s i f = elim (Option-cases (lookup (actor_key f.actor) s.actors)) [
  | inl p ↦ rw p (Goes-refl s)
  | inr (stored, p) ↦ elim (Option-cases (replay stored f.request_id f.fingerprint)) [
    | inl q ↦ rw p (rw q (record { limit = refl; journals = Advances-refl s.dedup_limit s.actors }))
    | inr (r, q) ↦ rw p (rw q (finish-Goes s i f r))
  ]
]

module _ (s : System) (i now : ℕ) (f : Flight) where
  attempt-Goes :
      (stored : StoredActor) (received : Result ActorError ActorTurn) (c : Commit)
      → lookup (actor_key f.actor) s.actors ≡ some stored
      → attempt s now f stored received ≡ ok c
      → Goes s (record s { actors = insert (actor_key f.actor) c.stored s.actors })
  attempt-Goes stored (err e) c p h = absurd (ground arith)
  attempt-Goes stored (ok turn) c p h =
      let k =
        commit-Committed s.dedup_limit f.definition f.actor f.request_id f.fingerprint f.turn_guard
          now stored turn c h in
      record {
        limit = refl;
        journals =
            replace-Advances s.dedup_limit s.actors (actor_key f.actor) c.stored stored p _
              (ap (λ x. x.stored.events) k.written)
              (commit-IsJournal s.dedup_limit f.definition f.actor f.request_id f.fingerprint
                f.turn_guard now stored turn c h);
      }

  complete-Goes : (received : Result ActorError ActorTurn) → Goes s (complete s i now f received)
  unfolding complete
  complete-Goes received = elim (Option-cases (lookup (actor_key f.actor) s.actors)) [
    | inl p ↦ rw p (Goes-refl s)
    | inr (stored, p) ↦ elim (Result-cases (attempt s now f stored received)) [
      | inr (e, q) ↦ rw p (rw q (finish-Goes s i f (err e)))
      | inl (c, q) ↦ rw p (
          rw q (
            Goes-trans s _ _ (attempt-Goes stored received c p q)
              (finish-Goes _ i f (ok c.result))))
    ]
  ]

expire-Goes : (s : System) (i : ℕ) (f : Flight) → Goes s (expire s i f)
unfolding expire
expire-Goes s i f =
    settle-Goes s i (record f { turn_guard = record f.turn_guard { expired = true } }) _

register-Goes : (s : System) (d : Definition) → Goes s (or_stay s (register s d))
unfolding register
register-Goes s d = elim (Option-cases (lookup d.name s.definitions)) [
  | inl p ↦ rw p (record { limit = refl; journals = Advances-refl s.dedup_limit s.actors })
  | inr (e, p) ↦ rw p (
      if_rule (λ r. Goes s (or_stay s r)) (e.identity == d.identity) _ _
        (λ a. record { limit = refl; journals = Advances-refl s.dedup_limit s.actors })
        (λ a. Goes-refl s))
]

invoke-Goes :
    (p : Platform) (s : System) (d : Definition) (actor : ActorId) (command : Value)
    (request_id : String)
    → Goes s (or_stay s (invoke p s d actor command request_id))
unfolding invoke
invoke-Goes p s d actor command request_id =
    elim (Bool-cases (same_definition d (lookup d.name s.definitions))) [
      | inr a ↦ rw a (Goes-refl s)
      | inl a ↦ elim (Result-cases (d.parse_command command)) [
        | inr (e, b) ↦ rw a (rw b (Goes-refl s))
        | inl (parsed, b) ↦
            elim (Result-cases (actor_command_fingerprint p.locale_le p.stringify parsed)) [
              | inr (e, c) ↦ rw a (rw b (rw c (Goes-refl s)))
              | inl (fingerprint, c) ↦ elim (Bool-cases (str_eq (p.trim request_id) "")) [
                | inl h ↦ rw a (rw b (rw c (rw h (Goes-refl s))))
                | inr h ↦ rw a (
                    rw b (
                      rw c (
                        rw h (record {
                          limit = refl;
                          journals = Advances-refl s.dedup_limit s.actors;
                        }))))
              ]
            ]
      ]
    ]

in_phase-Goes :
    (s : System) (i : ℕ) (e : Step) (f : Flight) (phase : Phase) → Goes s (in_phase s i e f phase)
in_phase-Goes s i (enters _ now) f queued = enter-Goes s i now f
in_phase-Goes s i (initialises _ r) f initialising = initialise-Goes s i f r
in_phase-Goes s i (dispatches _) f loaded = dispatch-Goes s i f
in_phase-Goes s i (completes _ now r) f receiving = complete-Goes s i now f r
in_phase-Goes s i _ f _ = Goes-refl s

turn-Goes : (s : System) (i : ℕ) (e : Step) (flight : Option Flight) → Goes s (on_turn s i e flight)
turn-Goes s i e none = Goes-refl s
turn-Goes s i e (some f) = in_phase-Goes s i e f f.phase

timer-Goes : (s : System) (i : ℕ) (flight : Option Flight) → Goes s (on_timer s i flight)
timer-Goes s i none = Goes-refl s
timer-Goes s i (some f) =
    if_rule (Goes s) (can_expire f.phase f.answer) _ s (λ a. expire-Goes s i f) (λ a. Goes-refl s)

step-Goes : (p : Platform) (s : System) (e : Step) → Goes s (step p s e)
unfolding step
step-Goes p s (registers d) = register-Goes s d
step-Goes p s (invokes d actor command request_id) = invoke-Goes p s d actor command request_id
step-Goes p s (enters i now) = turn-Goes s i (enters i now) (s.flights i)
step-Goes p s (initialises i r) = turn-Goes s i (initialises i r) (s.flights i)
step-Goes p s (dispatches i) = turn-Goes s i (dispatches i) (s.flights i)
step-Goes p s (completes i now r) = turn-Goes s i (completes i now r) (s.flights i)
step-Goes p s (expires i) = timer-Goes s i (s.flights i)

run-Goes : (p : Platform) (s : System) (es : List Step) → Goes s (run p s es)
unfolding run
run-Goes p s [] = Goes-refl s
run-Goes p s (e ∷ es) = Goes-trans s (step p s e) _ (step-Goes p s e) (run-Goes p (step p s e) es)

-- Over any schedule of registrations, calls, suspended turns and timers, from any state of the
-- runtime, no journal entry is lost, changed or moved: what an identity's journal held stands at
-- the front of what it holds afterwards.
pub run-Extends :
    (p : Platform) (s : System) (es : List Step) → Extends s.actors (run p s es).actors
run-Extends p s es = (run-Goes p s es).journals.extends

-- Over any schedule from a fresh runtime, the journal of every identity is numbered from 0 without
-- a gap, the next number is its length, and the dedup map holds no more results than the limit.
pub boot-AllJournals :
    (p : Platform) (limit : ℕ) (es : List Step) → AllJournals limit (run p (boot limit) es).actors
unfolding lookup
boot-AllJournals p limit es = (run-Goes p (boot limit) es).journals.keeps nothing
  where
    nothing : AllJournals limit []
    nothing key s h = absurd (ground arith)
