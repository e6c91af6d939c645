-- ===== src/Actors/Runtime/Seats.antt =====
-- The seats of the runtime: which turns run at the same time.
use agentback.Base.{
  ℕ, ◌<◌, ◌==◌, ◌≡◌, ◌≢◌, refl, sym, ◌∙◌, String, true, false, none, some, List, [], ◌∷◌, str_eq,
  arith, if_rule, Bool-cases, Option-cases, Result-cases, inl, inr,
}
use agentback.Base.Map.{lookup}
use agentback.Actors.Json.{Value}
use agentback.Actors.Mailbox.{arrive}
use agentback.Actors.Mailbox.Exclusion.{empty-Inv}
use agentback.Actors.Types.{ActorId, Definition}
use agentback.Actors.Fingerprint.{actor_command_fingerprint}
use agentback.Actors.Identity.{actor_key}
use agentback.Actors.Runtime.{
  Platform, Flight, queued, System, Step, registers, invokes, enters, initialises, dispatches,
  completes, expires, boot, register, invoke, or_stay, same_definition, step, run, on_turn,
  on_timer, can_expire,
}
use agentback.Actors.Runtime.Holding.{
  is_live, AllHold, put-AllHold, arrive-Inv, expire-AllHold, in_phase-AllHold,
}

register-AllHold : (s : System) → AllHold s → (d : Definition) → AllHold (or_stay s (register s d))
unfolding register
register-AllHold s v d = elim (Option-cases (lookup d.name s.definitions)) [
  | inl p ↦ rw p (record { inv = v.inv; holds = v.holds })
  | inr (e, p) ↦ rw p (
      if_rule (λ r. AllHold (or_stay s r)) (e.identity == d.identity) _ _
        (λ a. record { inv = v.inv; holds = v.holds }) (λ a. v))
]

invoke-AllHold :
    (p : Platform) (s : System) (v : AllHold s) (d : Definition) (actor : ActorId) (command : Value)
    (request_id : String)
    → AllHold (or_stay s (invoke p s d actor command request_id))
unfolding invoke arrive
invoke-AllHold p s v d actor command request_id =
    elim (Bool-cases (same_definition d (lookup d.name s.definitions))) [
      | inr a ↦ rw a v
      | inl a ↦ elim (Result-cases (d.parse_command command)) [
        | inr (e, b) ↦ rw a (rw b v)
        | inl (parsed, b) ↦
            elim (Result-cases (actor_command_fingerprint p.locale_le p.stringify parsed)) [
              | inr (e, c) ↦ rw a (rw b (rw c v))
              | inl (fingerprint, c) ↦ elim (Bool-cases (str_eq (p.trim request_id) "")) [
                | inl h ↦ rw a (rw b (rw c (rw h v)))
                | inr h ↦
                    let f : Flight = record {
                      definition = d;
                      actor = actor;
                      request_id = request_id;
                      fingerprint = fingerprint;
                      phase = queued;
                      turn_guard = record { expired = false; started_at = 0 };
                      answer = none;
                    } in
                    rw a (
                      rw b (
                        rw c (
                          rw h (
                            put-AllHold s _ s.mailbox.next f v
                              (arrive-Inv s.mailbox (actor_key actor) v.inv) (λ j e. ground arith)
                              (λ j. refl)
                              (record {
                                ticket = record {
                                  key = actor_key actor;
                                  previous = lookup (actor_key actor) s.mailbox.tails;
                                  acquired = false;
                                  released = false;
                                };
                                at = ground arith;
                                key = refl;
                                seated = λ l. absurd (ground arith);
                                kept = λ l. refl;
                              })))))
              ]
            ]
      ]
    ]

turn-AllHold : (s : System) → AllHold s → (i : ℕ) (e : Step) → AllHold (on_turn s i e (s.flights i))
turn-AllHold s v i e = elim (Option-cases (s.flights i)) [
  | inl p ↦ rw p v
  | inr (f, p) ↦ rw p (in_phase-AllHold s v i f p e f.phase refl)
]

timer-AllHold : (s : System) → AllHold s → (i : ℕ) → AllHold (on_timer s i (s.flights i))
timer-AllHold s v i = elim (Option-cases (s.flights i)) [
  | inl p ↦ rw p v
  | inr (f, p) ↦
      rw p (
        if_rule AllHold (can_expire f.phase f.answer) _ s (λ l. expire-AllHold s v i f p l)
          (λ l. v))
]

step-AllHold : (p : Platform) (s : System) → AllHold s → (e : Step) → AllHold (step p s e)
unfolding step
step-AllHold p s v (registers d) = register-AllHold s v d
step-AllHold p s v (invokes d actor command request_id) =
    invoke-AllHold p s v d actor command request_id
step-AllHold p s v (enters i now) = turn-AllHold s v i (enters i now)
step-AllHold p s v (initialises i r) = turn-AllHold s v i (initialises i r)
step-AllHold p s v (dispatches i) = turn-AllHold s v i (dispatches i)
step-AllHold p s v (completes i now r) = turn-AllHold s v i (completes i now r)
step-AllHold p s v (expires i) = timer-AllHold s v i

run-AllHold : (p : Platform) (s : System) → AllHold s → (es : List Step) → AllHold (run p s es)
unfolding run
run-AllHold p s v [] = v
run-AllHold p s v (e ∷ es) = run-AllHold p (step p s e) (step-AllHold p s v e) es

-- At no time of any schedule from a fresh runtime do two turns of one identity both run without
-- having an answer: their addresses have different keys.
pub run-one_turn :
    (p : Platform) (limit : ℕ) (es : List Step) (i j : ℕ) (f g : Flight)
    → (run p (boot limit) es).flights i ≡ some f
    → (run p (boot limit) es).flights j ≡ some g
    → is_live f ≡ true
    → is_live g ≡ true
    → i < j
    → actor_key f.actor ≢ actor_key g.actor
run-one_turn p limit es i j f g hf hg lf lg b e =
    let v =
      run-AllHold p (boot limit)
        (record { inv = empty-Inv; holds = λ k x h. absurd (ground arith) }) es in
    let a = v.holds i f hf in
    let c = v.holds j g hg in
    let over : a.ticket.released ≡ true =
      v.inv.ordered j i c.ticket a.ticket c.at (c.seated lg) a.at (a.key ∙ e ∙ sym c.key) b in
    let kept : a.ticket.released ≡ false = a.kept (ground arith) in ground arith
