-- ===== src/Streams/Stream/Delivery.antt =====
-- What a connection of a resumable stream is sent.
use agentback.Base.{
  ℕ, suc, ◌+◌, ◌≤◌, ◌≡◌, refl, sym, ◌∙◌, ap, String, Bool, true, false, ◌||◌, Option, none, some,
  List, [], ◌∷◌, ◌++◌, ◌==◌, length, arith, if_rule, any, map,
}
use mathlib.Core.List.{append-nil}
use agentback.Streams.Stream.{
  Frame, Stream, resume_window_closed, cancelled, open_stream, Transport, push, replay, replay_from,
  while_sink_full, dispose, can_resume, finish, attach, may_attach, Event, emits, finishes, waits,
  drains, closes_window, stops, attaches, detaches, step, run,
}
use agentback.Streams.Stream.Frames.{
  Consecutive, IsRing, missed, missed-Consecutive, written-replay,
}
use agentback.Streams.Stream.Ring.{run-IsRing}
use agentback.Streams.Stream.Sinks.{
  received, received-append, received-own, received-other, attaches_sink, Delivered,
  quiet-Delivered, dispose-Delivered, while_sink_full-Delivered, detach-Delivered, finish-Delivered,
  settle_attached-Delivered, sink-replay, sent, push-sent, sent-grows,
}

module _ (from sink : ℕ) (takes : Transport) (s : Stream) (v : Delivered from sink s) where
  push-Delivered : (text : String) → Delivered from sink (push takes s text)
  push-Delivered text =
      let f : Frame = record { seq = suc s.seq; text = text } in
      let (w, k, q) = push-sent takes s text in
      let (g, c) =
        sent-grows from sink s.seq (received sink s.written) s.sink f refl v.gapless v.complete in
      let all : received sink (push takes s text).written
          ≡ received sink s.written ++ received sink (sent s.sink f) =
        ap (received sink) w ∙ received-append sink s.written (sent s.sink f) in
      record { gapless = rw all g; complete = λ h. rw all (c (sym k ∙ h) ∙ sym q) }

  -- Another connection attaches.
  attach-Delivered :
      (other : ℕ) (gone : Bool) (after_seq : Option ℕ)
      → (other == sink) ≡ false
      → Delivered from sink (attach takes s other gone after_seq)
  unfolding attach
  attach-Delivered other gone after_seq n =
      settle_attached-Delivered from sink takes (replay_from takes attached other after_seq)
        (replayed after_seq) other gone
    where
      attached : Stream
      attached = record s {
        grace_timer = false;
        sink = some other;
        sink_full = false;
        waiting = false;
      }

      replayed :
          (position : Option ℕ) → Delivered from sink (replay_from takes attached other position)
      replayed none = quiet-Delivered from sink takes s v _ refl refl (λ h. absurd (ground arith))
      replayed (some a) =
          let same : received sink (replay takes attached other a s.frames).written
              ≡ received sink s.written =
            ap (received sink) (written-replay takes other a s.frames attached)
            ∙ received-append sink s.written _
            ∙ ap (λ fs. received sink s.written ++ fs)
                (received-other sink other (missed a s.frames) n)
            ∙ append-nil (received sink s.written) in
          let k = sink-replay takes other a s.frames attached in
          record { gapless = rw same v.gapless; complete = λ h. absurd (ground arith) }

  step-Delivered : (e : Event) → attaches_sink sink e ≡ false → Delivered from sink (step takes s e)
  unfolding step
  step-Delivered (emits text) n =
      if_rule (Delivered from sink) (s.done || s.waiting) s (push takes s text) (λ h. v)
        (λ h. push-Delivered text)
  step-Delivered finishes n =
      if_rule (Delivered from sink) (s.done || s.waiting) s (finish s) (λ h. v)
        (λ h. finish-Delivered from sink takes s v)
  step-Delivered waits n =
      if_rule (Delivered from sink) (s.done || s.waiting) s (while_sink_full s) (λ h. v)
        (λ h. while_sink_full-Delivered from sink takes s v)
  step-Delivered drains n = quiet-Delivered from sink takes s v _ refl refl (λ e. e)
  step-Delivered closes_window n =
      if_rule (Delivered from sink) s.grace_timer (dispose s resume_window_closed) s
        (λ h. dispose-Delivered from sink takes s v resume_window_closed) (λ h. v)
  step-Delivered stops n = dispose-Delivered from sink takes s v cancelled
  step-Delivered (attaches other gone after_seq) n =
      if_rule (Delivered from sink) (may_attach takes s after_seq)
        (attach takes s other gone after_seq) s (λ h. attach-Delivered other gone after_seq n)
        (λ h. v)
  step-Delivered (detaches other) n = detach-Delivered from sink takes s v other

run-Delivered :
    (from sink : ℕ) (takes : Transport) (s : Stream) (es : List Event)
    → Delivered from sink s
    → any (attaches_sink sink) es ≡ false
    → Delivered from sink (run takes s es)
unfolding run
run-Delivered from sink takes s [] v n = v
run-Delivered from sink takes s (e ∷ es) v n =
    run-Delivered from sink takes (step takes s e) es
      (step-Delivered from sink takes s v e (ground arith)) (ground arith)

-- A connection that the ring can serve.
resumed-Delivered :
    (takes : Transport) (limit : ℕ) (s : Stream) (sink from : ℕ) (gone : Bool)
    → IsRing limit s.seq s.oldest_seq s.frames
    → can_resume s from ≡ true
    → from ≤ s.seq
    → received sink s.written ≡ []
    → Delivered from sink (attach takes s sink gone (some from))
unfolding attach can_resume
resumed-Delivered takes limit s sink from gone ring can le new =
    settle_attached-Delivered from sink takes (replay takes attached sink from s.frames) replayed
      sink gone
  where
    attached : Stream
    attached = record s {
      grace_timer = false;
      sink = some sink;
      sink_full = false;
      waiting = false;
    }

    replayed : Delivered from sink (replay takes attached sink from s.frames)
    replayed =
        let (gapless, complete) =
          missed-Consecutive s.oldest_seq from s.frames ring.consecutive (ground arith)
            (omega (arith, ring.newest)) in
        let all : received sink (replay takes attached sink from s.frames).written
            ≡ missed from s.frames =
          ap (received sink) (written-replay takes sink from s.frames attached)
          ∙ received-append sink s.written _
          ∙ ap
              (λ fs.
                fs
                ++ received sink
                    (map (λ f. record { sink = sink; frame = f }) (missed from s.frames)))
              new
          ∙ received-own sink (missed from s.frames) in
        let q = (sink-replay takes sink from s.frames attached).1 in
        record {
          gapless = rw all gapless;
          complete = λ h. rw all (omega (arith, complete, ring.newest, q));
        }

-- The history of a stream up to a reconnect, the reconnect, and what follows it.
module _ (takes : Transport) (max_events : ℕ) (before after : List Event) (sink from : ℕ)
    (gone : Bool) where
  abbrev pub before_attach : Stream
  before_attach = run takes (open_stream max_events) before

  -- A new connection that `canResume` lets rejoin after event `from`, which is not past the last
  -- event, is sent the events `from + 1`, `from + 2` and so on, each once and in order, from its
  -- replay to its end and whatever else happens but its being attached again. While it is attached,
  -- they go up to the last event emitted. The ring keeps at least one event.
  pub run-resumes :
      1 ≤ max_events
      → can_resume before_attach from ≡ true
      → from ≤ before_attach.seq
      → received sink before_attach.written ≡ []
      → any (attaches_sink sink) after ≡ false
      → let s = run takes (attach takes before_attach sink gone (some from)) after in
        Consecutive (suc from) (received sink s.written)
        × (s.sink ≡ some sink → from + length (received sink s.written) ≡ s.seq)
  run-resumes one can le new others =
      let v =
        run-Delivered from sink takes (attach takes before_attach sink gone (some from)) after
          (resumed-Delivered takes max_events before_attach sink from gone
            (run-IsRing takes max_events before one) can le new)
          others in
      (v.gapless, v.complete)
