-- ===== src/Actors/Runtime.antt =====
-- packages/actors/src/event-sourced-runtime.ts: the runtime as a state that steps change. A step is
-- what runs between two suspensions of a turn: `register` and `invoke`, then for each turn its entry
-- to the seat, the end of `initialState`, the dedup check, the end of `receive`, and the timer. Any
-- sequence of steps is a schedule; a step that a turn is not ready for changes nothing.
pub mod Growth
pub mod Journals
pub mod Holding
pub mod Seats
pub mod Flights
pub mod Turns
use agentback.Base.{
  ℕ, ◌+◌, String, Bool, true, false, Option, none, some, List, [], ◌∷◌, ◌==◌, str_eq, if◌then◌else◌,
  Result, ok, err, ◌>>=◌, ◌>>◌, guard, not,
}
use agentback.Base.Map.{Map, lookup, insert}
use agentback.Actors.Json.{Value}
use agentback.Actors.Types.{
  ActorId, ActorError, already_registered, not_registered, empty_request_id, turn_timeout,
  Definition, ActorTurn, TurnGuard, is_own_turn_timeout,
}
use agentback.Actors.Identity.{actor_key}
use agentback.Actors.Fingerprint.{actor_command_fingerprint}
use agentback.Actors.Store.{StoredActor, fresh, replay, Commit, commit, record_timed_out}
use agentback.Actors.Mailbox.{Mailbox, Ticket}
use agentback.Actors.Mailbox

-- What JavaScript and its library do for the runtime.
pub record Platform : Type 0 where
  pub locale_le : String → String → Bool
  pub stringify : Value → String
  pub trim : String → String

-- Where a turn is suspended.
pub data Phase : Type 0 where
  queued initialising loaded receiving done : Phase

-- One call of `invoke` that got as far as the mailbox. `answer` is what its caller gets.
pub record Flight : Type 0 where
  pub definition : Definition
  pub actor : ActorId
  pub request_id : String
  pub fingerprint : String
  pub phase : Phase
  pub turn_guard : TurnGuard
  pub answer : Option (Result ActorError Value)

pub record System : Type 0 where
  pub dedup_limit : ℕ
  pub definitions : Map Definition
  pub actors : Map StoredActor
  pub mailbox : Mailbox
  pub flights : ℕ → Option Flight  -- by ticket number

abbrev pub boot : ℕ → System
boot dedup_limit = record {
  dedup_limit = dedup_limit;
  definitions = [];
  actors = [];
  mailbox = Mailbox.empty;
  flights = λ i. none;
}

abbrev pub same_definition : Definition → Option Definition → Bool
same_definition d none = false
same_definition d (some e) = e.identity == d.identity

-- register: a name is taken by one definition object.
abbrev pub register_over : System → Definition → Option Definition → Result ActorError System
register_over s d none = ok (record s { definitions = insert d.name d s.definitions })
register_over s d (some e) =
    if e.identity == d.identity
    then ok (record s { definitions = insert d.name d s.definitions })
    else err already_registered

unfoldable pub register : System → Definition → Result ActorError System
register s d = register_over s d (lookup d.name s.definitions)

abbrev pub put_flight : (ℕ → Option Flight) → ℕ → Flight → ℕ → Option Flight
put_flight flights i f j = if i == j then some f else flights j

-- What `invoke` does before it waits: the checks on the call, and the place in the mailbox.
unfoldable pub invoke :
    Platform → System → Definition → ActorId → Value → String → Result ActorError System
invoke p s d actor command request_id = do
  guard (same_definition d (lookup d.name s.definitions)) not_registered
  parsed ← d.parse_command command
  fingerprint ← actor_command_fingerprint p.locale_le p.stringify parsed
  guard (not (str_eq (p.trim request_id) "")) empty_request_id
  ok (record s {
    mailbox = Mailbox.arrive s.mailbox (actor_key actor);
    flights = put_flight s.flights s.mailbox.next (record {
      definition = d;
      actor = actor;
      request_id = request_id;
      fingerprint = fingerprint;
      phase = queued;
      turn_guard = record { expired = false; started_at = 0 };
      answer = none;
    });
  })

-- error.deadlineMs; other errors are not asked for it.
abbrev pub deadline_ms_of : ActorError → ℕ
deadline_ms_of (turn_timeout actor request_id deadline_ms) = deadline_ms
deadline_ms_of _ = 0

-- recordTimedOutTurn, for a failure that is the turn's own timeout: the error names this actor and
-- this request.
abbrev journal_timeout_at :
    ActorError → String → Flight → Map StoredActor → Option StoredActor → Map StoredActor
journal_timeout_at e key f actors none = actors
journal_timeout_at e key f actors (some stored) =
    insert key (record_timed_out f.actor f.request_id (deadline_ms_of e) stored) actors

abbrev pub journal_timeout : Flight → Result ActorError Value → Map StoredActor → Map StoredActor
journal_timeout f (ok v) actors = actors
journal_timeout f (err e) actors =
    if is_own_turn_timeout e f.actor f.request_id
    then journal_timeout_at e (actor_key f.actor) f actors (lookup (actor_key f.actor) actors)
    else actors

-- The race of a turn against its deadline is over: its caller has an answer, and the seat is free.
abbrev pub settle : System → ℕ → Flight → Result ActorError Value → System
settle s i f r = record s {
  actors = journal_timeout f r s.actors;
  mailbox = Mailbox.release s.mailbox i;
  flights = put_flight s.flights i (record f { answer = some r });
}

-- The turn's work is over. If the deadline came first, nobody reads how it ended.
abbrev pub finish_over :
    System → ℕ → Flight → Result ActorError Value → Option (Result ActorError Value) → System
finish_over s i f r none = settle s i (record f { phase = done }) r
finish_over s i f r (some earlier) = record s {
  flights = put_flight s.flights i (record f { phase = done });
}

unfoldable pub finish : System → ℕ → Flight → Result ActorError Value → System
finish s i f r = finish_over s i f r f.answer

abbrev pub move_to : System → ℕ → Flight → Phase → System
move_to s i f phase = record s { flights = put_flight s.flights i (record f { phase = phase }) }

abbrev load_phase : Option StoredActor → Phase
load_phase none = initialising
load_phase (some stored) = loaded

-- The guard of a turn that begins.
abbrev pub begin : ℕ → Option StoredActor → Flight → Flight
begin now stored f = record f {
  phase = load_phase stored;
  turn_guard = record { expired = false; started_at = now };
}

abbrev pub take_seat : System → ℕ → ℕ → Flight → Mailbox → System
take_seat s i now f m = record s {
  mailbox = m;
  flights = put_flight s.flights i (begin now (lookup (actor_key f.actor) s.actors) f);
}

-- After `await previous`: the guard is stamped and `load` begins.
unfoldable pub enter : System → ℕ → ℕ → Flight → System
enter s i now f =
    let m = Mailbox.acquire s.mailbox i in
    if Mailbox.is_acquired (m.tickets i) then take_seat s i now f m else s

-- The rest of `load`: the first writer wins.
abbrev pub publish : Map StoredActor → String → Value → Option StoredActor → Map StoredActor
publish actors key state none = insert key (fresh state) actors
publish actors key state (some raced) = actors

abbrev initialise_with : System → ℕ → Flight → Result ActorError Value → System
initialise_with s i f (err e) = finish s i f (err e)
initialise_with s i f (ok state) =
    let key = actor_key f.actor in
    move_to (record s { actors = publish s.actors key state (lookup key s.actors) }) i f loaded

-- `initial` is how `initialState` ended.
unfoldable pub initialise : System → ℕ → Flight → Result ActorError Value → System
initialise s i f initial = initialise_with s i f (initial >>= f.definition.parse_state)

abbrev dispatch_with : System → ℕ → Flight → Option (Result ActorError Value) → System
dispatch_with s i f none = move_to s i f receiving
dispatch_with s i f (some r) = finish s i f r

abbrev dispatch_at : System → ℕ → Flight → Option StoredActor → System
dispatch_at s i f none = s
dispatch_at s i f (some stored) = dispatch_with s i f (replay stored f.request_id f.fingerprint)

-- The dedup check, up to the call of `receive`.
unfoldable pub dispatch : System → ℕ → Flight → System
dispatch s i f = dispatch_at s i f (lookup (actor_key f.actor) s.actors)

abbrev complete_with : System → ℕ → Flight → Result ActorError Commit → System
complete_with s i f (err e) = finish s i f (err e)
complete_with s i f (ok c) =
    finish (record s { actors = insert (actor_key f.actor) c.stored s.actors }) i f (ok c.result)

abbrev pub attempt :
    System → ℕ → Flight → StoredActor → Result ActorError ActorTurn → Result ActorError Commit
attempt s now f stored (err e) = err e
attempt s now f stored (ok turn) =
    commit s.dedup_limit f.definition f.actor f.request_id f.fingerprint f.turn_guard now stored
      turn

abbrev complete_at :
    System → ℕ → ℕ → Flight → Result ActorError ActorTurn → Option StoredActor → System
complete_at s i now f received none = s
complete_at s i now f received (some stored) = complete_with s i f (attempt s now f stored received)

-- `received` is how `receive` ended.
unfoldable pub complete : System → ℕ → ℕ → Flight → Result ActorError ActorTurn → System
complete s i now f received = complete_at s i now f received (lookup (actor_key f.actor) s.actors)

-- The timer of a turn that nobody has an answer of yet.
unfoldable pub expire : System → ℕ → Flight → System
expire s i f =
    settle s i (record f { turn_guard = record f.turn_guard { expired = true } })
      (err (turn_timeout f.actor f.request_id f.definition.deadline_ms))

pub data Step : Type 0 where
  registers : Definition → Step
  invokes : Definition → ActorId → Value → String → Step
  enters : ℕ → ℕ → Step
  initialises : ℕ → Result ActorError Value → Step
  dispatches : ℕ → Step
  completes : ℕ → ℕ → Result ActorError ActorTurn → Step
  expires : ℕ → Step

-- A call that throws at once changes nothing.
abbrev pub or_stay : System → Result ActorError System → System
or_stay s (ok t) = t
or_stay s (err e) = s

-- The steps of a turn by the phase that it is suspended in.
abbrev pub in_phase : System → ℕ → Step → Flight → Phase → System
in_phase s i (enters _ now) f queued = enter s i now f
in_phase s i (initialises _ r) f initialising = initialise s i f r
in_phase s i (dispatches _) f loaded = dispatch s i f
in_phase s i (completes _ now r) f receiving = complete s i now f r
in_phase s i _ f _ = s

abbrev pub on_turn : System → ℕ → Step → Option Flight → System
on_turn s i e none = s
on_turn s i e (some f) = in_phase s i e f f.phase

-- The timer runs from the entry to the seat until the race is over.
abbrev pub can_expire : Phase → Option (Result ActorError Value) → Bool
can_expire initialising none = true
can_expire loaded none = true
can_expire receiving none = true
can_expire _ _ = false

abbrev pub on_timer : System → ℕ → Option Flight → System
on_timer s i none = s
on_timer s i (some f) = if can_expire f.phase f.answer then expire s i f else s

unfoldable pub step : Platform → System → Step → System
step p s (registers d) = or_stay s (register s d)
step p s (invokes d actor command request_id) = or_stay s (invoke p s d actor command request_id)
step p s (enters i now) = on_turn s i (enters i now) (s.flights i)
step p s (initialises i r) = on_turn s i (initialises i r) (s.flights i)
step p s (dispatches i) = on_turn s i (dispatches i) (s.flights i)
step p s (completes i now r) = on_turn s i (completes i now r) (s.flights i)
step p s (expires i) = on_timer s i (s.flights i)

unfoldable pub run : Platform → System → List Step → System
run p s [] = s
run p s (e ∷ es) = run p (step p s e) es
