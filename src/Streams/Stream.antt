-- ===== src/Streams/Stream.antt =====
-- `ResumableStream` of packages/rest/src/resumable-streams.ts: a ring of framed events, the attached
-- sink, and the timer of the window. A sink is a number. What a stream does to others is kept in
-- its state: `written` (every `write`, in order, with the sink and the frame's number), `closed`
-- (the sinks that it closed) and `aborted` (the reason given to the handler's signal). `maxEvents`
-- is at least 1: with 0, `frames[0]!` of the empty ring throws in the source.
pub mod Frames
pub mod Ring
pub mod Sinks
pub mod Delivery
pub mod Window
use agentback.Base.{
  ℕ, suc, ◌+◌, String, Bool, true, false, not, ◌&&◌, ◌||◌, Option, none, some, List, [], ◌∷◌, ◌++◌,
  ◌==◌, length, ltb, leb, if◌then◌else◌,
}

pub record Frame : Type 0 where
  pub seq : ℕ
  pub text : String

pub record Write : Type 0 where
  pub sink : ℕ
  pub frame : Frame

pub data Reason : Type 0 where
  resume_window_closed cancelled : Reason

pub record Stream : Type 0 where
  pub seq : ℕ
  pub frames : List Frame
  pub oldest_seq : ℕ  -- of the oldest frame that is still there
  pub sink : Option ℕ
  pub sink_full : Bool
  pub waiting : Bool  -- the pump waits for a full sink
  pub grace_timer : Bool
  pub done : Bool
  pub disposed : Bool
  pub max_events : ℕ
  pub written : List Write
  pub closed : List ℕ
  pub aborted : Option Reason

abbrev pub open_stream : ℕ → Stream
open_stream max_events = record {
  seq = 0;
  frames = [];
  oldest_seq = 1;
  sink = none;
  sink_full = false;
  waiting = false;
  grace_timer = false;
  done = false;
  disposed = false;
  max_events = max_events;
  written = [];
  closed = [];
  aborted = none;
}

abbrev pub drop_first : List Frame → List Frame
drop_first [] = []
drop_first (f ∷ frames) = frames

abbrev pub first_seq : ℕ → List Frame → ℕ
first_seq oldest [] = oldest
first_seq oldest (f ∷ frames) = f.seq

-- `frames.push`, and `frames.shift` where the ring is over its cap.
unfoldable pub buffer : Stream → Frame → Stream
buffer s f =
    let frames = s.frames ++ f ∷ [] in
    if ltb s.max_events (length frames)
    then record s {
      frames = drop_first frames;
      oldest_seq = first_seq s.oldest_seq (drop_first frames);
    }
    else record s { frames = frames }

-- What a transport answers to a write, given what it was sent before.
abbrev pub Transport : Type 0
Transport = List Write → Write → Bool

module _ (takes : Transport) where
  -- `sink.write`, with the flag that a full sink sets.
  abbrev pub write : Stream → ℕ → Frame → Stream
  write s sink f =
      let w : Write = record { sink = sink; frame = f } in
      record s { written = s.written ++ w ∷ []; sink_full = s.sink_full || not (takes s.written w) }

  abbrev pub write_attached : Stream → Frame → Option ℕ → Stream
  write_attached s f none = s
  write_attached s f (some sink) = write s sink f

  -- push: frame, buffer and, if a sink is attached, write.
  unfoldable pub push : Stream → String → Stream
  unfolding buffer
  push s text =
      let f : Frame = record { seq = suc s.seq; text = text } in
      write_attached (buffer (record s { seq = suc s.seq }) f) f s.sink

  -- The replay of what a client missed.
  unfoldable pub replay : Stream → ℕ → ℕ → List Frame → Stream
  replay s sink after_seq [] = s
  replay s sink after_seq (f ∷ frames) =
      replay (if ltb after_seq f.seq then write s sink f else s) sink after_seq frames

abbrev pub wait_for : Stream → Option ℕ → Stream
wait_for s none = s
wait_for s (some sink) = if s.sink_full then record s { sink_full = false; waiting = true } else s

-- whileSinkFull, up to the wait.
unfoldable pub while_sink_full : Stream → Stream
while_sink_full s = wait_for s s.sink

abbrev close_sink : List ℕ → Option ℕ → List ℕ
close_sink closed none = closed
close_sink closed (some sink) = closed ++ sink ∷ []

-- dispose
unfoldable pub dispose : Stream → Reason → Stream
dispose s reason = if s.disposed then s else record s {
  disposed = true;
  grace_timer = false;
  sink = none;
  waiting = false;
  closed = close_sink s.closed s.sink;
  aborted = if s.done then s.aborted else some reason;
}

-- canResume
unfoldable pub can_resume : Stream → ℕ → Bool
can_resume s after_seq = not s.disposed && leb s.oldest_seq (after_seq + 1)

abbrev pub is_sink : Option ℕ → ℕ → Bool
is_sink none sink = false
is_sink (some attached) sink = attached == sink

-- detach: nothing for a sink that is no longer the attached one.
unfoldable pub detach : Stream → ℕ → Stream
detach s sink =
    if is_sink s.sink sink
    then (let left = record s { sink = none; sink_full = false; waiting = false } in
        if s.disposed then left else record left { grace_timer = true })
    else s

abbrev pub finish_attached : Stream → Option ℕ → Stream
finish_attached s none = s
finish_attached s (some sink) = dispose s resume_window_closed

-- The end of `pump`, its `finally`.
unfoldable pub finish : Stream → Stream
finish s = finish_attached (record s { done = true }) s.sink

module _ (takes : Transport) where
  abbrev pub replay_from : Stream → ℕ → Option ℕ → Stream
  replay_from s sink none = s
  replay_from s sink (some after_seq) = replay takes s sink after_seq s.frames

  -- `gone` is whether the connection is aborted already.
  abbrev pub settle_attached : Stream → ℕ → Bool → Stream
  settle_attached s sink gone =
      if s.done then dispose s resume_window_closed else (if gone then detach s sink else s)

  -- attach
  unfoldable pub attach : Stream → ℕ → Bool → Option ℕ → Stream
  unfolding dispose detach replay
  attach s sink gone after_seq =
      settle_attached
        (replay_from
          (record s { grace_timer = false; sink = some sink; sink_full = false; waiting = false })
          sink after_seq)
        sink gone

-- What can happen to a stream. `drains` is a full sink that takes more, `closes_window` the timer,
-- and `stops` the end of the server.
pub data Event : Type 0 where
  emits : String → Event
  finishes waits drains closes_window stops : Event
  attaches : ℕ → Bool → Option ℕ → Event
  detaches : ℕ → Event

-- A pump that has ended or that waits emits nothing, and a caller attaches a connection that
-- `canResume` has let through.
module _ (takes : Transport) where
  abbrev pub may_attach : Stream → Option ℕ → Bool
  may_attach s none = not s.disposed
  may_attach s (some after_seq) = can_resume s after_seq

  unfoldable pub step : Stream → Event → Stream
  unfolding push while_sink_full dispose detach finish attach can_resume
  step s (emits text) = if s.done || s.waiting then s else push takes s text
  step s finishes = if s.done || s.waiting then s else finish s
  step s waits = if s.done || s.waiting then s else while_sink_full s
  step s drains = record s { waiting = false }
  step s closes_window = if s.grace_timer then dispose s resume_window_closed else s
  step s stops = dispose s cancelled
  step s (attaches sink gone after_seq) =
      if may_attach s after_seq then attach takes s sink gone after_seq else s
  step s (detaches sink) = detach s sink

  unfoldable pub run : Stream → List Event → Stream
  run s [] = s
  run s (e ∷ es) = run (step s e) es
