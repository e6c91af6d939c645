-- ===== src/Actors/Store.antt =====
-- The stored record of one identity in packages/actors/src/event-sourced-runtime.ts: the dedup map,
-- the one commit point of a turn, and the record of a turn that missed its deadline. A stored value
-- is never shared, so structuredClone is the identity here.
pub mod Journal
pub mod Replay
use agentback.Base.{
  ℕ, zero, suc, ◌+◌, ◌-◌, String, Bool, true, false, ◌||◌, Option, none, some, List, [], ◌∷◌, ◌++◌,
  length, ltb, str_eq, if◌then◌else◌, Result, ok, err, ◌>>=◌, ◌>>◌,
}
use agentback.Base.Map.{Map, lookup, insert}
use agentback.Actors.Json.{Value, NonJson, assert_json_portable_events}
use agentback.Actors.Types.{
  ActorId, ActorError, request_id_reused, not_json, turn_timeout, Definition, ActorTurn,
  JournalEvent, actor_event, turn_timeout_event, CommittedActorEvent, TurnGuard,
  turn_deadline_passed,
}

pub record CommittedResult : Type 0 where
  pub command_fingerprint : String
  pub result : Value

pub record StoredActor : Type 0 where
  pub state : Value
  pub seq : ℕ
  pub events : List CommittedActorEvent
  pub results : Map CommittedResult

abbrev pub fresh : Value → StoredActor
fresh state = record { state = state; seq = 0; events = []; results = [] }

-- The check of the dedup map: the committed answer, or the refusal of a reused request id.
abbrev pub answer_of : String → CommittedResult → Result ActorError Value
answer_of fingerprint c =
    if str_eq c.command_fingerprint fingerprint then ok c.result else err request_id_reused

unfoldable pub replay : StoredActor → String → String → Option (Result ActorError Value)
replay stored request_id fingerprint = elim (lookup request_id stored.results) [
  | none ↦ none
  | some c ↦ some (answer_of fingerprint c)
]

-- `while (results.size > dedupLimit)` drops the oldest entry, which is the first.
unfoldable pub evict : ℕ → Map CommittedResult → Map CommittedResult
evict limit [] = []
evict limit (oldest ∷ results) =
    let rest = evict limit results in
    if ltb limit (length (oldest ∷ results)) then rest else oldest ∷ results

abbrev pub seat_key : Option String → String
seat_key none = ""
seat_key (some id) = id

-- The events of one turn, numbered from `seq` on.
unfoldable pub number_events : ActorId → String → String → ℕ → List Value → List CommittedActorEvent
number_events actor request_id seat_key_id seq [] = []
number_events actor request_id seat_key_id seq (event ∷ events) =
    record {
      actor = actor;
      seq = seq;
      request_id = request_id;
      seat_key_id = seat_key_id;
      event = actor_event event;
    }
    ∷ number_events actor request_id seat_key_id (suc seq) events

-- What a commit leaves: the new record, the answer, and the events to deliver.
pub record Commit : Type 0 where
  pub stored : StoredActor
  pub result : Value
  pub delivered : List CommittedActorEvent

abbrev require_json : Option NonJson → Result ActorError (Unit {0})
require_json none = ok tt
require_json (some e) = err (not_json e)

abbrev pub write : ℕ → ActorId → String → String → StoredActor → ActorTurn → Value → Value → Commit
write limit actor request_id fingerprint stored turn state result =
    let delivered =
      number_events actor request_id (seat_key turn.seat_key_id) stored.seq turn.events in
    let entry : CommittedResult = record { command_fingerprint = fingerprint; result = result } in
    let results = insert request_id entry stored.results in
    record {
      stored = record {
        state = state;
        seq = stored.seq + length turn.events;
        events = stored.events ++ delivered;
        results = evict limit results;
      };
      result = result;
      delivered = delivered;
    }

-- What follows `receive` in a turn: validation, the deadline check, and the commit.
unfoldable pub commit :
    ℕ
    → Definition
    → ActorId
    → String
    → String
    → TurnGuard
    → ℕ
    → StoredActor
    → ActorTurn
    → Result ActorError Commit
unfolding evict number_events turn_deadline_passed
commit limit definition actor request_id fingerprint guard now stored turn = do
  state ← definition.parse_state turn.state
  result ← definition.parse_result turn.result
  require_json (assert_json_portable_events turn.events)
  if guard.expired || turn_deadline_passed now guard.started_at definition.deadline_ms
      then err (turn_timeout actor request_id definition.deadline_ms)
      else ok (write limit actor request_id fingerprint stored turn state result)

-- The stored part of recordTimedOutTurn: a journal entry of its own, and nothing else.
unfoldable pub record_timed_out : ActorId → String → ℕ → StoredActor → StoredActor
record_timed_out actor request_id deadline_ms stored = record stored {
  seq = stored.seq + 1;
  events =
      stored.events
      ++ record {
        actor = actor;
        seq = stored.seq;
        request_id = request_id;
        seat_key_id = "";
        event = turn_timeout_event deadline_ms;
      }
        ∷ [];
}
