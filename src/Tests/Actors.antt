-- ===== src/Tests/Actors.antt =====
-- Runs of the actor runtime.
use agentback.Base.{
  ℕ, String, ◌≢◌, zero, suc, ◌-◌, ◌<◌, ◌≡◌, refl, ◌↔◌, true, false, none, some, List, [], ◌∷◌, ◌++◌,
  arith, All, str_eq, if◌then◌else◌, Result, ok, err,
}
use agentback.Base.Map.{lookup, insert, erase}
use agentback.Actors.Json.{
  Value, null, number, array, nil, assert_json_value, assert_json_portable_events,
}
use agentback.Actors.Json.Portable.{IsPortable, assert_json_portable_events_iff}
use agentback.Actors.Types.{
  ActorId, ActorError, request_id_reused, Definition, ActorTurn, TurnGuard, turn_timeout,
  actor_event,
}
use agentback.Actors.Identity.{actor_key}
use agentback.Actors.Fingerprint.{actor_command_fingerprint}
use agentback.Actors.Store.{Commit, commit, replay, fresh}
use agentback.Actors.Store.Replay.{drop, entry, results-commit, replay-commit}
use agentback.Actors.Mailbox
use agentback.Actors.Mailbox.{Ticket, arrives, acquires, releases}
use agentback.Actors.Mailbox.Exclusion.{run-exclusive, run-lets_in}
use agentback.Actors.Mailbox.Exclusion
use agentback.Actors.Runtime.{
  Platform, Flight, receiving, initialising, boot, Step, registers, invokes, enters, initialises,
  dispatches, completes, expires, register, invoke, enter, initialise, dispatch, expire, step, run,
}
use agentback.Actors.Runtime.Seats.{run-one_turn}
use agentback.Actors.Runtime.Growth.{AllJournals, Extends}
use agentback.Actors.Runtime.Journals.{boot-AllJournals, run-Extends}
use agentback.Actors.Runtime.Turns.{completes-abandoned}

-- Two turns of one identity: the first is over, and the second has the seat.
abbrev moves : List Mailbox.Move
moves = arrives "a" ∷ arrives "a" ∷ acquires 0 ∷ acquires 1 ∷ releases 0 ∷ acquires 1 ∷ []

abbrev first_ticket : Ticket
first_ticket = record { key = "a"; previous = none; acquired = true; released = true }

abbrev second_ticket : Ticket
second_ticket = record { key = "a"; previous = some 0; acquired = true; released = false }

run-exclusive_example : first_ticket.released ≡ true
unfolding Exclusion.run Mailbox.step lookup insert erase
run-exclusive_example =
    run-exclusive moves 1 0 second_ticket first_ticket refl refl refl refl (omega arith)

-- The identity of a counter, and a definition whose schemas accept everything.
abbrev counter : ActorId
counter = record { type = "counter"; id = "1" }

abbrev accepts : Value → Result ActorError Value
accepts v = ok v

abbrev definition : Definition
definition = record {
  identity = 1;
  name = "counter";
  deadline_ms = 50;
  parse_state = accepts;
  parse_command = accepts;
  parse_result = accepts;
}

abbrev turn : ActorTurn
turn = record { state = number 1; result = number 1; events = number 7 ∷ []; seat_key_id = none }

abbrev platform : Platform
platform = record { locale_le = λ a b. true; stringify = λ v. "1"; trim = λ s. s }

abbrev live_guard : TurnGuard
live_guard = record { expired = false; started_at = 10 }

abbrev committed : Commit
committed = record {
  stored = record {
    state = number 1;
    seq = 1;
    events =
        record {
          actor = counter;
          seq = 0;
          request_id = "r1";
          seat_key_id = "";
          event = actor_event (number 7);
        }
        ∷ [];
    results = ("r1", record { command_fingerprint = "f"; result = number 1 }) ∷ [];
  };
  result = number 1;
  delivered =
      record {
        actor = counter;
        seq = 0;
        request_id = "r1";
        seat_key_id = "";
        event = actor_event (number 7);
      }
      ∷ [];
}

results-commit_example :
    committed.stored.results ≡ drop (suc 0 - 2) ([] ++ ("r1", entry "f" (number 1)) ∷ [])
unfolding commit assert_json_portable_events assert_json_value insert lookup
results-commit_example =
    results-commit 2 definition counter "r1" "f" live_guard 20 (fresh null) turn committed refl refl

replay-commit_example :
    replay committed.stored "r1" "g"
    ≡ some (if str_eq "f" "g" then ok (number 1) else err request_id_reused)
unfolding commit assert_json_portable_events assert_json_value insert lookup
replay-commit_example =
    replay-commit 2 definition counter "r1" "f" live_guard 20 (fresh null) turn committed refl refl
      (omega arith) "g"

assert_json_portable_events_iff_example :
    (assert_json_portable_events (number 1 ∷ array nil ∷ []) ≡ none)
    ↔ All IsPortable (number 1 ∷ array nil ∷ [])
assert_json_portable_events_iff_example =
    assert_json_portable_events_iff (number 1 ∷ array nil ∷ [])

-- A turn that misses its deadline while `receive` runs.
abbrev schedule : List Step
schedule =
    registers definition
    ∷ invokes definition counter null "r1"
    ∷ enters 0 10
    ∷ initialises 0 (ok null)
    ∷ dispatches 0
    ∷ expires 0
    ∷ []

abbrev abandoned : Flight
abandoned = record {
  definition = definition;
  actor = counter;
  request_id = "r1";
  fingerprint = "1";
  phase = receiving;
  turn_guard = record { expired = true; started_at = 10 };
  answer = some (err (turn_timeout counter "r1" 50));
}

boot-AllJournals_example : AllJournals 2 (run platform (boot 2) schedule).actors
boot-AllJournals_example = boot-AllJournals platform 2 schedule

run-Extends_example :
    Extends
      (run platform (boot 2) schedule).actors
      (run platform (run platform (boot 2) schedule) (completes 0 90 (ok turn) ∷ [])).actors
run-Extends_example =
    run-Extends platform (run platform (boot 2) schedule) (completes 0 90 (ok turn) ∷ [])

abandoned_at : (run platform (boot 2) schedule).flights 0 ≡ some abandoned
unfolding run step invoke lookup register insert actor_command_fingerprint enter Mailbox.acquire
    Mailbox.arrive initialise dispatch actor_key replay expire
abandoned_at = refl

completes-abandoned_example :
    (step platform (run platform (boot 2) schedule) (completes 0 90 (ok turn))).actors
    ≡ (run platform (boot 2) schedule).actors
completes-abandoned_example =
    completes-abandoned platform 2 schedule 0 abandoned (err (turn_timeout counter "r1" 50))
      abandoned_at refl 90 (ok turn)

-- The first turn is over, and the second has not been let in yet.
abbrev waiting_moves : List Mailbox.Move
waiting_moves = arrives "a" ∷ arrives "a" ∷ acquires 0 ∷ releases 0 ∷ []

abbrev waiting_ticket : Ticket
waiting_ticket = record { key = "a"; previous = some 0; acquired = false; released = false }

earlier_released :
    (i : ℕ) (t : Ticket)
    → (Exclusion.run Mailbox.empty waiting_moves).tickets i ≡ some t
    → t.key ≡ "a"
    → i < 1
    → t.released ≡ true
unfolding Exclusion.run Mailbox.step lookup insert erase
earlier_released zero t h k b = ground arith
earlier_released (suc i) t h k b = absurd (omega arith)

run-lets_in_example :
    (Mailbox.acquire (Exclusion.run Mailbox.empty waiting_moves) 1).tickets 1
    ≡ some (record { key = "a"; previous = some 0; acquired = true; released = false })
unfolding Exclusion.run Mailbox.step lookup insert erase
run-lets_in_example = run-lets_in waiting_moves 1 waiting_ticket refl earlier_released

-- Two identities, whose turns run at the same time.
abbrev second : ActorId
second = record { type = "counter"; id = "2" }

abbrev two_turns : List Step
two_turns =
    registers definition
    ∷ invokes definition counter null "r1"
    ∷ invokes definition second null "r2"
    ∷ enters 0 10
    ∷ enters 1 11
    ∷ []

abbrev running : ActorId → String → ℕ → Flight
running actor request_id now = record {
  definition = definition;
  actor = actor;
  request_id = request_id;
  fingerprint = "1";
  phase = initialising;
  turn_guard = record { expired = false; started_at = now };
  answer = none;
}

run-one_turn_example : actor_key counter ≢ actor_key second
unfolding run step invoke lookup register insert actor_command_fingerprint enter Mailbox.acquire
    Mailbox.arrive actor_key
run-one_turn_example =
    run-one_turn platform 2 two_turns 0 1 (running counter "r1" 10) (running second "r2" 11) refl
      refl refl refl (omega arith)
