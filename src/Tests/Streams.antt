-- ===== src/Tests/Streams.antt =====
-- Runs of a resumable stream.
use agentback.Base.{◌+◌, ◌≡◌, refl, not, true, false, none, some, List, [], ◌∷◌, arith, length}
use agentback.Streams.Stream.{
  Transport, open_stream, can_resume, attach, Event, emits, attaches, detaches, run, step,
}
use agentback.Streams.Stream.Frames.{Consecutive}
use agentback.Streams.Stream.Window.{Bounded, noted, follow, run-attach-Bounded}
use agentback.Streams.Stream.Sinks.{received}
use agentback.Streams.Stream.Delivery.{run-resumes}

abbrev takes_all : Transport
takes_all ws w = true

-- A reader leaves after two events, and misses the third and the fourth.
abbrev before : List Event
before = attaches 0 false none ∷ emits "a" ∷ emits "b" ∷ detaches 0 ∷ emits "c" ∷ emits "d" ∷ []

run-resumes_example :
    let s =
      run takes_all
        (attach takes_all (run takes_all (open_stream 3) before) 1 false (some 2))
        (emits "e" ∷ []) in
    Consecutive 3 (received 1 s.written)
    × (s.sink ≡ some 1 → 2 + length (received 1 s.written) ≡ s.seq)
unfolding run step can_resume
run-resumes_example =
    run-resumes takes_all 3 before (emits "e" ∷ []) 1 2 false (omega arith) refl (omega arith) refl
      refl

run-attach-Bounded_example :
    let s = attach takes_all (open_stream 3) 0 true none in
    let es = emits "a" ∷ attaches 1 false (some 0) ∷ detaches 1 ∷ [] in
    Bounded (follow takes_all (noted (λ k. false) 0 (not true)) s es) (run takes_all s es)
run-attach-Bounded_example =
    run-attach-Bounded takes_all (open_stream 3) 0 true none
      (emits "a" ∷ attaches 1 false (some 0) ∷ detaches 1 ∷ [])
