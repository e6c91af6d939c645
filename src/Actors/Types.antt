-- ===== src/Actors/Types.antt =====
-- packages/actors/src/types.ts and deadlines.ts: identities, definitions, what a turn returns, the
-- committed events, and how a call fails.
use agentback.Base.{ℕ, ◌+◌, String, Bool, false, ◌&&◌, Option, List, ltb, str_eq, Result}
use agentback.Actors.Json.{Value, NonJson}

pub record ActorId : Type 0 where
  pub type : String
  pub id : String

pub data ActorError : Type 0 where
  already_registered not_registered empty_request_id : ActorError
  request_id_reused command_not_finite command_not_json : ActorError
  invalid : ActorError  -- a schema refused a command, a state or a result
  handler_failed : ℕ → ActorError  -- what `receive` or `initialState` threw
  not_json : NonJson → ActorError
  turn_timeout : ActorId → String → ℕ → ActorError  -- actor, requestId, deadlineMs

-- An actor definition. `identity` tells two definition objects apart; the schemas are functions
-- into what they return or throw. How `receive` and `initialState` end is given by the steps.
pub record Definition : Type 0 where
  pub identity : ℕ
  pub name : String
  pub deadline_ms : ℕ
  pub parse_state : Value → Result ActorError Value
  pub parse_command : Value → Result ActorError Value
  pub parse_result : Value → Result ActorError Value

-- ActorTurn, with the key that `receive` stamped on its context.
pub record ActorTurn : Type 0 where
  pub state : Value
  pub result : Value
  pub events : List Value
  pub seat_key_id : Option String

pub data JournalEvent : Type 0 where
  actor_event : Value → JournalEvent
  turn_timeout_event : ℕ → JournalEvent  -- turnTimeoutEvent(deadlineMs)

pub record CommittedActorEvent : Type 0 where
  pub actor : ActorId
  pub seq : ℕ
  pub request_id : String
  pub seat_key_id : String
  pub event : JournalEvent

pub record TurnGuard : Type 0 where
  pub expired : Bool
  pub started_at : ℕ

-- `Date.now() - startedAt > deadlineMs`, with the subtraction moved over.
unfoldable pub turn_deadline_passed : ℕ → ℕ → ℕ → Bool
turn_deadline_passed now started_at deadline_ms = ltb (started_at + deadline_ms) now

unfoldable pub is_own_turn_timeout : ActorError → ActorId → String → Bool
is_own_turn_timeout (turn_timeout owner owner_request deadline_ms) actor request_id =
    str_eq owner.type actor.type && str_eq owner.id actor.id && str_eq owner_request request_id
is_own_turn_timeout _ actor request_id = false
