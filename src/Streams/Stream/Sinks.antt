-- ===== src/Streams/Stream/Sinks.antt =====
-- What one sink is sent by an operation of a resumable stream.
use agentback.Base.{
  ℕ, suc, ◌+◌, ◌≡◌, refl, sym, ◌∙◌, ap, String, Bool, true, false, Option, none, some, List, [],
  ◌∷◌, ◌++◌, ◌==◌, length, length-append, ltb, arith, if_rule, if◌then◌else◌, map, Bool-cases, inl,
  inr,
}
use mathlib.Core.List.{append-nil}
use agentback.Streams.Stream.{
  Frame, Write, Stream, Reason, resume_window_closed, buffer, Transport, write, write_attached,
  push, replay, settle_attached, wait_for, finish_attached, while_sink_full, dispose, is_sink,
  detach, finish, Event, attaches,
}
use agentback.Streams.Stream.Frames.{Consecutive, Consecutive-append}

-- The frames that a sink was sent.
abbrev pub received : ℕ → List Write → List Frame
received sink [] = []
received sink (w ∷ ws) =
    let rest = received sink ws in if w.sink == sink then w.frame ∷ rest else rest

pub received-append :
    (sink : ℕ) (vs ws : List Write)
    → received sink (vs ++ ws) ≡ received sink vs ++ received sink ws
received-append sink [] ws = refl
received-append sink (v ∷ vs) ws = ground (arith, received-append sink vs ws)

pub received-own :
    (sink : ℕ) (fs : List Frame)
    → received sink (map (λ f. record { sink = sink; frame = f }) fs) ≡ fs
received-own sink [] = refl
received-own sink (f ∷ fs) = ground (arith, received-own sink fs)

pub received-other :
    (sink other : ℕ) (fs : List Frame)
    → (other == sink) ≡ false
    → received sink (map (λ f. record { sink = other; frame = f }) fs) ≡ []
received-other sink other [] h = refl
received-other sink other (f ∷ fs) h = ground (arith, received-other sink other fs)

-- Whether an event attaches the sink.
abbrev pub attaches_sink : ℕ → Event → Bool
attaches_sink sink (attaches other gone after_seq) = other == sink
attaches_sink sink _ = false

-- What a sink was sent since position `from` is without a gap, and complete as long as it is attached.
pub record Delivered (from sink : ℕ) (s : Stream) : Type 0 where
  pub gapless : Consecutive (suc from) (received sink s.written)
  pub complete : s.sink ≡ some sink → from + length (received sink s.written) ≡ s.seq

module _ (from sink : ℕ) (takes : Transport) (s : Stream) (v : Delivered from sink s) where
  -- Nothing is written, and a sink that was not attached is not attached.
  pub quiet-Delivered :
      (t : Stream)
      → t.written ≡ s.written
      → t.seq ≡ s.seq
      → (t.sink ≡ some sink → s.sink ≡ some sink)
      → Delivered from sink t
  quiet-Delivered t w q k = record {
    gapless = rw w v.gapless;
    complete = λ h. rw w (v.complete (k h) ∙ sym q);
  }

  pub dispose-Delivered : (reason : Reason) → Delivered from sink (dispose s reason)
  unfolding dispose
  dispose-Delivered reason =
      if_rule (Delivered from sink) s.disposed s _ (λ h. v)
        (λ h. quiet-Delivered _ refl refl (λ k. absurd (ground arith)))

  pub while_sink_full-Delivered : Delivered from sink (while_sink_full s)
  unfolding while_sink_full
  while_sink_full-Delivered = waited s.sink
    where
      waited : (attached : Option ℕ) → Delivered from sink (wait_for s attached)
      waited none = v
      waited (some k) =
          if_rule (Delivered from sink) s.sink_full _ s (λ h. quiet-Delivered _ refl refl (λ e. e))
            (λ h. v)

  pub detach-Delivered : (other : ℕ) → Delivered from sink (detach s other)
  unfolding detach
  detach-Delivered other =
      if_rule (Delivered from sink) (is_sink s.sink other) _ s
        (λ h.
          if_rule (Delivered from sink) s.disposed _ _
            (λ k. quiet-Delivered _ refl refl (λ e. absurd (ground arith)))
            (λ k. quiet-Delivered _ refl refl (λ e. absurd (ground arith))))
        (λ h. v)

module _ (from sink : ℕ) (takes : Transport) (s : Stream) (v : Delivered from sink s) where
  pub finish-Delivered : Delivered from sink (finish s)
  unfolding finish
  finish-Delivered = finished s.sink
    where
      ended : Delivered from sink (record s { done = true })
      ended = quiet-Delivered from sink takes s v _ refl refl (λ e. e)

      finished :
          (attached : Option ℕ)
          → Delivered from sink (finish_attached (record s { done = true }) attached)
      finished none = ended
      finished (some k) = dispose-Delivered from sink takes _ ended resume_window_closed

  pub settle_attached-Delivered :
      (other : ℕ) (gone : Bool) → Delivered from sink (settle_attached takes s other gone)
  settle_attached-Delivered other gone =
      if_rule (Delivered from sink) s.done (dispose s resume_window_closed) _
        (λ a. dispose-Delivered from sink takes s v resume_window_closed)
        (λ a.
          if_rule (Delivered from sink) gone (detach s other) s
            (λ b. detach-Delivered from sink takes s v other) (λ b. v))

pub sink-replay :
    (takes : Transport) (sink after_seq : ℕ) (frames : List Frame) (s : Stream)
    → ((replay takes s sink after_seq frames).sink ≡ s.sink)
      × ((replay takes s sink after_seq frames).seq ≡ s.seq)
unfolding replay
sink-replay takes sink after_seq [] s = (refl, refl)
sink-replay takes sink after_seq (f ∷ frames) s =
    if_rule
      (λ t.
        ((replay takes t sink after_seq frames).sink ≡ s.sink)
        × ((replay takes t sink after_seq frames).seq ≡ s.seq))
      (ltb after_seq f.seq) (write takes s sink f) s
      (λ h. sink-replay takes sink after_seq frames (write takes s sink f))
      (λ h. sink-replay takes sink after_seq frames s)

pub buffer-keeps :
    (s : Stream) (f : Frame)
    → ((buffer s f).written ≡ s.written) × ((buffer s f).sink ≡ s.sink) × ((buffer s f).seq ≡ s.seq)
unfolding buffer
buffer-keeps s f =
    if_rule {A = Stream} (λ t. (t.written ≡ s.written) × (t.sink ≡ s.sink) × (t.seq ≡ s.seq))
      (ltb s.max_events (length (s.frames ++ f ∷ []))) _ _ (λ h. (refl, refl, refl))
      (λ h. (refl, refl, refl))

abbrev pub sent : Option ℕ → Frame → List Write
sent none f = []
sent (some sink) f = record { sink = sink; frame = f } ∷ []

pub write_attached-sent :
    (takes : Transport) (s : Stream) (f : Frame) (sink : Option ℕ)
    → ((write_attached takes s f sink).written ≡ s.written ++ sent sink f)
      × ((write_attached takes s f sink).sink ≡ s.sink)
      × ((write_attached takes s f sink).seq ≡ s.seq)
write_attached-sent takes s f none = (sym (append-nil s.written), refl, refl)
write_attached-sent takes s f (some sink) = (refl, refl, refl)

pub push-sent :
    (takes : Transport) (s : Stream) (text : String)
    → ((push takes s text).written
        ≡ s.written ++ sent s.sink (record { seq = suc s.seq; text = text }))
      × ((push takes s text).sink ≡ s.sink)
      × ((push takes s text).seq ≡ suc s.seq)
unfolding push
push-sent takes s text =
    let f : Frame = record { seq = suc s.seq; text = text } in
    let t : Stream = record s { seq = suc s.seq } in
    let b = buffer-keeps t f in
    let w = write_attached-sent takes (buffer t f) f s.sink in
    (w.0 ∙ ap (λ ws. ws ++ sent s.sink f) b.0, w.1 ∙ b.1, w.2 ∙ b.2)

-- One frame more, sent to whoever is attached.
pub sent-grows :
    (from sink seq : ℕ) (fs : List Frame) (attached : Option ℕ) (f : Frame)
    → f.seq ≡ suc seq
    → Consecutive (suc from) fs
    → (attached ≡ some sink → from + length fs ≡ seq)
    → Consecutive (suc from) (fs ++ received sink (sent attached f))
      × (attached ≡ some sink → from + length (fs ++ received sink (sent attached f)) ≡ suc seq)
sent-grows from sink seq fs none f e h k = (rw (append-nil fs) h, λ a. absurd (ground arith))
sent-grows from sink seq fs (some other) f e h k = elim (Bool-cases (other == sink)) [
  | inl b ↦
      let n : from + length fs ≡ seq = k (ground arith) in
      rw b (
        Consecutive-append (suc from) fs (f ∷ []) h (ground arith),
        λ a. omega (arith, length-append fs (f ∷ [])),
      )
  | inr b ↦ rw b (rw (append-nil fs) (h, λ a. absurd (ground arith)))
]
