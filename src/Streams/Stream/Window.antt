-- ===== src/Streams/Stream/Window.antt =====
-- What becomes of a stream that a connection has been attached to.
use agentback.Base.{
  ℕ, ◌≡◌, Bool, true, false, not, ◌==◌, Bool-cases, inl, inr, refl, ◌||◌, Option, none, some, List,
  [], ◌∷◌, String, arith, if_rule, ltb, if◌then◌else◌,
}
use agentback.Streams.Stream.{
  Frame, Stream, Reason, resume_window_closed, cancelled, Transport, write, buffer, push, replay,
  replay_from, while_sink_full, dispose, detach, finish, attach, may_attach, Event, emits, finishes,
  waits, drains, closes_window, stops, attaches, detaches, step, run,
}

-- Which connections are still there: one that came before it had aborted, and has not left since.
abbrev pub Here : Type 0
Here = ℕ → Bool

abbrev pub noted : Here → ℕ → Bool → Here
noted here sink b = λ k. if k == sink then b else here k

-- It is attached to a connection that is still there.
abbrev pub is_watched : Here → Option ℕ → Bool
is_watched here none = false
is_watched here (some sink) = here sink

-- It is over, or someone who is there reads it, or the timer of its window runs.
abbrev pub Bounded : Here → Stream → Type 0
Bounded here s = (s.disposed || is_watched here s.sink || s.grace_timer) ≡ true

module _ (here : Here) where
  dispose-Bounded : (s : Stream) (reason : Reason) → Bounded here (dispose s reason)
  unfolding dispose
  dispose-Bounded s reason = ground arith

  while_sink_full-Bounded : (s : Stream) → Bounded here s → Bounded here (while_sink_full s)
  unfolding while_sink_full
  while_sink_full-Bounded s v = ground arith

  finish-Bounded : (s : Stream) → Bounded here s → Bounded here (finish s)
  unfolding finish
  finish-Bounded s v =
      ground (arith, dispose-Bounded (record s { done = true }) resume_window_closed)

  push-Bounded :
      (takes : Transport) (s : Stream) (text : String)
      → Bounded here s
      → Bounded here (push takes s text)
  unfolding push buffer
  push-Bounded takes s text v = ground arith

  replay-Bounded :
      (takes : Transport) (sink after_seq : ℕ) (frames : List Frame) (s : Stream)
      → Bounded here s
      → Bounded here (replay takes s sink after_seq frames)
  unfolding replay
  replay-Bounded takes sink after_seq [] s v = v
  replay-Bounded takes sink after_seq (f ∷ frames) s v =
      replay-Bounded takes sink after_seq frames
        (if ltb after_seq f.seq then write takes s sink f else s)
        (if_rule (Bounded here) (ltb after_seq f.seq) (write takes s sink f) s (λ h. v) (λ h. v))

-- A connection that leaves is not there any more.
detach-Bounded :
    (here : Here) (s : Stream) (sink : ℕ)
    → Bounded here s
    → Bounded (noted here sink false) (detach s sink)
unfolding detach
detach-Bounded here s sink v = by_sink s.sink refl
  where
    by_sink : (o : Option ℕ) → s.sink ≡ o → Bounded (noted here sink false) (detach s sink)
    by_sink none p = ground arith
    by_sink (some k) p = ground arith

Bounded-same :
    (here here' : Here) (s : Stream)
    → ((k : ℕ) → here k ≡ here' k)
    → Bounded here s
    → Bounded here' s
Bounded-same here here' s same v = by_sink s.sink refl
  where
    by_sink : (o : Option ℕ) → s.sink ≡ o → Bounded here' s
    by_sink none p = ground arith
    by_sink (some k) p = ground (arith, same k)

module _ (takes : Transport) (here : Here) (s : Stream) (sink : ℕ) (after_seq : Option ℕ) where
  abbrev attached : Stream
  attached = record s { grace_timer = false; sink = some sink; sink_full = false; waiting = false }

  abbrev replayed : Stream
  replayed = replay_from takes attached sink after_seq

  watched : Bounded (noted here sink true) attached
  watched = ground arith

  replayed-Bounded :
      (position : Option ℕ)
      → Bounded (noted here sink true) (replay_from takes attached sink position)
  replayed-Bounded none = watched
  replayed-Bounded (some n) =
      replay-Bounded (noted here sink true) takes sink n s.frames attached watched

  -- A connection is attached, which is there unless it is `gone` already.
  attach-Bounded :
      (gone : Bool) → Bounded (noted here sink (not gone)) (attach takes s sink gone after_seq)
  unfolding attach
  attach-Bounded true =
      if_rule (Bounded (noted here sink false)) replayed.done
        (dispose replayed resume_window_closed) (detach replayed sink)
        (λ a. dispose-Bounded (noted here sink false) replayed resume_window_closed)
        (λ a.
          Bounded-same (noted (noted here sink true) sink false) (noted here sink false)
            (detach replayed sink) (λ k. ground arith)
            (detach-Bounded (noted here sink true) replayed sink (replayed-Bounded after_seq)))
  attach-Bounded false =
      if_rule (Bounded (noted here sink true)) replayed.done (dispose replayed resume_window_closed)
        replayed (λ a. dispose-Bounded (noted here sink true) replayed resume_window_closed)
        (λ a. replayed-Bounded after_seq)

module _ (takes : Transport) where
  -- What an event says of the connections.
  abbrev pub note_event : Here → Stream → Event → Here
  note_event here s (attaches sink gone after_seq) =
      if may_attach takes s after_seq then noted here sink (not gone) else here
  note_event here s (detaches sink) = noted here sink false
  note_event here s _ = here

  unfoldable pub follow : Here → Stream → List Event → Here
  unfolding step
  follow here s [] = here
  follow here s (e ∷ es) = follow (note_event here s e) (step takes s e) es

  step-Bounded :
      (here : Here) (s : Stream) (e : Event)
      → Bounded here s
      → Bounded (note_event here s e) (step takes s e)
  unfolding step
  step-Bounded here s (emits text) v =
      if_rule (Bounded here) (s.done || s.waiting) s (push takes s text) (λ h. v)
        (λ h. push-Bounded here takes s text v)
  step-Bounded here s finishes v =
      if_rule (Bounded here) (s.done || s.waiting) s (finish s) (λ h. v)
        (λ h. finish-Bounded here s v)
  step-Bounded here s waits v =
      if_rule (Bounded here) (s.done || s.waiting) s (while_sink_full s) (λ h. v)
        (λ h. while_sink_full-Bounded here s v)
  step-Bounded here s drains v = v
  step-Bounded here s closes_window v =
      if_rule (Bounded here) s.grace_timer (dispose s resume_window_closed) s
        (λ h. dispose-Bounded here s resume_window_closed) (λ h. v)
  step-Bounded here s stops v = dispose-Bounded here s cancelled
  step-Bounded here s (attaches sink gone after_seq) v =
      elim (Bool-cases (may_attach takes s after_seq)) [
        | inl p ↦ rw p (attach-Bounded takes here s sink after_seq gone)
        | inr p ↦ rw p v
      ]
  step-Bounded here s (detaches sink) v = detach-Bounded here s sink v

  run-Bounded :
      (here : Here) (s : Stream) (es : List Event)
      → Bounded here s
      → Bounded (follow here s es) (run takes s es)
  unfolding run follow
  run-Bounded here s [] v = v
  run-Bounded here s (e ∷ es) v =
      run-Bounded (note_event here s e) (step takes s e) es (step-Bounded here s e v)

  -- Once a connection has been attached to a stream, even one that was gone already, the stream is at
  -- every later time disposed, attached to a connection that is still there, or on the timer that
  -- disposes it. A connection is there if it was not gone when it was attached and has not left.
  pub run-attach-Bounded :
      (s : Stream) (sink : ℕ) (gone : Bool) (after_seq : Option ℕ) (es : List Event)
      → let t = attach takes s sink gone after_seq in
        Bounded (follow (noted (λ k. false) sink (not gone)) t es) (run takes t es)
  run-attach-Bounded s sink gone after_seq es =
      let t = attach takes s sink gone after_seq in
      run-Bounded (noted (λ k. false) sink (not gone)) t es
        (attach-Bounded takes (λ k. false) s sink after_seq gone)
