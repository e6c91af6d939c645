-- ===== src/Streams/Stream/Ring.antt =====
-- What the ring of a resumable stream holds.
use agentback.Base.{
  ℕ, suc, ◌≤◌, ◌≡◌, refl, sym, ◌∙◌, subst, String, Bool, true, false, ◌||◌, Option, none, some,
  List, [], ◌∷◌, ◌++◌, length, ltb, arith, if_rule,
}
use agentback.Streams.Stream.{
  Frame, Reason, resume_window_closed, cancelled, Stream, open_stream, buffer, Transport,
  write_attached, push, replay_from, while_sink_full, dispose, detach, finish, attach, Event, emits,
  finishes, waits, drains, closes_window, stops, attaches, detaches, step, run, may_attach,
  settle_attached,
}
use agentback.Streams.Stream.Frames.{IsRing, Ring, buffer-IsRing, SameRing, replay-SameRing}

pub Ring-same : (limit : ℕ) (s t : Stream) → SameRing s t → Ring limit s → Ring limit t
Ring-same limit s t (a, b, c, d) v = rw a (rw b (rw c (rw d v)))

SameRing-trans : (s t u : Stream) → SameRing s t → SameRing t u → SameRing s u
SameRing-trans s t u (a, b, c, d) (e, f, g, h) = (e ∙ a, f ∙ b, g ∙ c, h ∙ d)

write_attached-SameRing :
    (takes : Transport) (s : Stream) (f : Frame) (sink : Option ℕ)
    → SameRing s (write_attached takes s f sink)
write_attached-SameRing takes s f none = (refl, refl, refl, refl)
write_attached-SameRing takes s f (some sink) = (refl, refl, refl, refl)

buffer-limit :
    (s : Stream) (f : Frame) → ((buffer s f).max_events ≡ s.max_events) × ((buffer s f).seq ≡ s.seq)
unfolding buffer
buffer-limit s f =
    if_rule {A = Stream} (λ t. (t.max_events ≡ s.max_events) × (t.seq ≡ s.seq))
      (ltb s.max_events (length (s.frames ++ f ∷ []))) _ _ (λ h. (refl, refl)) (λ h. (refl, refl))

push-Ring :
    (takes : Transport) (limit : ℕ) (s : Stream) (text : String)
    → Ring limit s
    → Ring limit (push takes s text)
unfolding push
push-Ring takes limit s text v =
    let f : Frame = record { seq = suc s.seq; text = text } in
    let t : Stream = record s { seq = suc s.seq } in
    let (a, b) = buffer-limit t f in
    let k : IsRing s.max_events (suc s.seq) (buffer t f).oldest_seq (buffer t f).frames =
      buffer-IsRing t s.seq f refl (ground (arith, v.0))
        (subst (λ n. IsRing n s.seq s.oldest_seq s.frames) (sym v.0) v.2) in
    Ring-same limit (buffer t f) (write_attached takes (buffer t f) f s.sink)
      (write_attached-SameRing takes (buffer t f) f s.sink)
      (rw b (
        a ∙ v.0,
        v.1,
        subst (λ n. IsRing n (suc s.seq) (buffer t f).oldest_seq (buffer t f).frames) v.0 k,
      ))

dispose-SameRing : (s : Stream) (reason : Reason) → SameRing s (dispose s reason)
unfolding dispose
dispose-SameRing s reason =
    if_rule (SameRing s) s.disposed s _ (λ h. (refl, refl, refl, refl))
      (λ h. (refl, refl, refl, refl))

while_sink_full-SameRing : (s : Stream) → SameRing s (while_sink_full s)
unfolding while_sink_full
while_sink_full-SameRing s = ground arith

detach-SameRing : (s : Stream) (sink : ℕ) → SameRing s (detach s sink)
unfolding detach
detach-SameRing s sink = ground arith

finish-SameRing : (s : Stream) → SameRing s (finish s)
unfolding finish
finish-SameRing s = ground (arith, dispose-SameRing (record s { done = true }) resume_window_closed)

settle_attached-SameRing :
    (takes : Transport) (t : Stream) (sink : ℕ) (gone : Bool)
    → SameRing t (settle_attached takes t sink gone)
settle_attached-SameRing takes t sink gone =
    if_rule (SameRing t) t.done (dispose t resume_window_closed) _
      (λ a. dispose-SameRing t resume_window_closed)
      (λ a.
        if_rule (SameRing t) gone (detach t sink) t (λ b. detach-SameRing t sink)
          (λ b. (refl, refl, refl, refl)))

attach-SameRing :
    (takes : Transport) (s : Stream) (sink : ℕ) (gone : Bool) (after_seq : Option ℕ)
    → SameRing s (attach takes s sink gone after_seq)
unfolding attach
attach-SameRing takes s sink gone after_seq =
    SameRing-trans s (replay_from takes attached sink after_seq)
      (settle_attached takes (replay_from takes attached sink after_seq) sink gone)
      (replayed after_seq)
      (settle_attached-SameRing takes (replay_from takes attached sink after_seq) sink gone)
  where
    attached : Stream
    attached = record s {
      grace_timer = false;
      sink = some sink;
      sink_full = false;
      waiting = false;
    }

    replayed : (position : Option ℕ) → SameRing s (replay_from takes attached sink position)
    replayed none = (refl, refl, refl, refl)
    replayed (some n) = replay-SameRing takes sink n s.frames attached

pub step-Ring :
    (takes : Transport) (limit : ℕ) (s : Stream) (e : Event)
    → Ring limit s
    → Ring limit (step takes s e)
unfolding step
step-Ring takes limit s (emits text) v =
    if_rule (Ring limit) (s.done || s.waiting) s _ (λ h. v) (λ h. push-Ring takes limit s text v)
step-Ring takes limit s finishes v =
    if_rule (Ring limit) (s.done || s.waiting) s _ (λ h. v)
      (λ h. Ring-same limit s (finish s) (finish-SameRing s) v)
step-Ring takes limit s waits v =
    if_rule (Ring limit) (s.done || s.waiting) s _ (λ h. v)
      (λ h. Ring-same limit s (while_sink_full s) (while_sink_full-SameRing s) v)
step-Ring takes limit s drains v = v
step-Ring takes limit s closes_window v =
    if_rule (Ring limit) s.grace_timer _ s
      (λ h.
        Ring-same limit s (dispose s resume_window_closed) (dispose-SameRing s resume_window_closed)
          v)
      (λ h. v)
step-Ring takes limit s stops v =
    Ring-same limit s (dispose s cancelled) (dispose-SameRing s cancelled) v
step-Ring takes limit s (attaches sink gone after_seq) v =
    if_rule (Ring limit) (may_attach takes s after_seq) _ s
      (λ h.
        Ring-same limit s (attach takes s sink gone after_seq)
          (attach-SameRing takes s sink gone after_seq) v)
      (λ h. v)
step-Ring takes limit s (detaches sink) v =
    Ring-same limit s (detach s sink) (detach-SameRing s sink) v

pub run-Ring :
    (takes : Transport) (limit : ℕ) (s : Stream) (es : List Event)
    → Ring limit s
    → Ring limit (run takes s es)
unfolding run
run-Ring takes limit s [] v = v
run-Ring takes limit s (e ∷ es) v =
    run-Ring takes limit (step takes s e) es (step-Ring takes limit s e v)

-- Whatever happens to a stream, its ring holds the newest frames: at most `maxEvents` of them,
-- numbered without a gap from `oldestSeq` to the number of the last frame.
pub run-IsRing :
    (takes : Transport) (max_events : ℕ) (es : List Event)
    → 1 ≤ max_events
    → let s = run takes (open_stream max_events) es in IsRing max_events s.seq s.oldest_seq s.frames
run-IsRing takes max_events es one = (run-Ring takes max_events (open_stream max_events) es fresh).2
  where
    fresh : Ring max_events (open_stream max_events)
    fresh = (
      refl,
      one,
      record { consecutive = tt; newest = refl; bounded = omega arith; positive = omega arith },
    )
