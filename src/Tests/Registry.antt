-- ===== src/Tests/Registry.antt =====
-- A registry of resumable streams, with two requests.
use agentback.Base.{◌≡◌, refl, true, false, none, some, List, [], ◌∷◌, ◌++◌, err}
use agentback.Base.Map.{lookup}
use agentback.Streams.Stream.{Transport, emits, closes_window, detaches, attaches}
use agentback.Streams.Registry.{
  StreamScope, Move, reserves, creates, releases, advances, new_registry, run, resume,
  resume_refused,
}
use agentback.Streams.Registry.Cap.{Capped, run-Capped}
use agentback.Streams.Registry.Ownership.{Answered, run-owned}

abbrev takes_all : Transport
takes_all ws w = true

abbrev chat : StreamScope
chat = record { ctor = 1; method_name = "chat"; owner = some "ann" }

abbrev other_user : StreamScope
other_user = record { ctor = 1; method_name = "chat"; owner = some "bob" }

-- One request gets its stream, which emits once; the cap refuses the other one.
abbrev one_stream : List Move
one_stream =
    reserves
    ∷ reserves
    ∷ creates 0 "s" chat 8
    ∷ advances "s" (attaches 0 false none)
    ∷ advances "s" (emits "a")
    ∷ advances "s" (detaches 0)
    ∷ releases 0
    ∷ []

refused :
    (resume (run takes_all (new_registry 1) one_stream) (some ("s", 1)) other_user)
    ≡ err resume_refused
unfolding resume run
refused = refl

-- The window closes, and the slot is free for the next stream.
freed :
    (run takes_all (new_registry 1) (one_stream ++ advances "s" closes_window ∷ [])).streams ≡ []
unfolding run
freed = refl

run-Capped_example : Capped 1 (run takes_all (new_registry 1) one_stream)
run-Capped_example = run-Capped takes_all 1 one_stream

run-owned_example :
    let r = run takes_all (new_registry 1) one_stream in
    Answered "s" chat other_user (lookup "s" r.streams) 1 (resume r (some ("s", 1)) other_user)
run-owned_example =
    run-owned "s" chat takes_all 1 one_stream (tt, (tt, ((λ _. refl), (tt, (tt, (tt, (tt, tt)))))))
      1 other_user
