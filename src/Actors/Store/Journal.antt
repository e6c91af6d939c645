-- ===== src/Actors/Store/Journal.antt =====
-- The journal of an identity: numbered without a gap, only appended to, with a bounded dedup map.
use agentback.Base.{
  ℕ, suc, ◌+◌, ◌≤◌, ◌≡◌, ◌≢◌, refl, sym, subst, String, true, false, ◌||◌, none, List, [], ◌∷◌,
  ◌++◌, length, length-append, arith, Result-cases, ok, inl, inr,
}
use agentback.Base.Map.{Map}
use agentback.Actors.Json.{Value, assert_json_portable_events}
use agentback.Actors.Types.{
  ActorId, Definition, ActorTurn, CommittedActorEvent, TurnGuard, turn_deadline_passed,
}
use agentback.Actors.Store.{
  CommittedResult, StoredActor, fresh, seat_key, evict, number_events, Commit, write, commit,
  record_timed_out,
}

-- The entries of a journal are numbered from `n` on.
abbrev pub Numbered : ℕ → List CommittedActorEvent → Type 0
Numbered n [] = Unit
Numbered n (e ∷ es) = (e.seq ≡ n) × Numbered (suc n) es

pub record IsJournal (limit : ℕ) (s : StoredActor) : Type 0 where
  pub numbered : Numbered 0 s.events
  pub counted : s.seq ≡ length s.events
  pub bounded : length s.results ≤ limit

Numbered-append :
    (n : ℕ) (xs ys : List CommittedActorEvent)
    → Numbered n xs
    → Numbered (n + length xs) ys
    → Numbered n (xs ++ ys)
Numbered-append n [] ys h k = let e : n + 0 ≡ n = omega arith in rw e at k
Numbered-append n (x ∷ xs) ys h k =
    let e : n + suc (length xs) ≡ suc n + length xs = omega arith in
    (h.0, Numbered-append (suc n) xs ys h.1 (rw e at k))

number_events-Numbered :
    (actor : ActorId) (request_id seat : String) (n : ℕ) (events : List Value)
    → Numbered n (number_events actor request_id seat n events)
unfolding number_events
number_events-Numbered actor request_id seat n [] = tt
number_events-Numbered actor request_id seat n (e ∷ es) =
    (refl, number_events-Numbered actor request_id seat (suc n) es)

length-number_events :
    (actor : ActorId) (request_id seat : String) (n : ℕ) (events : List Value)
    → length (number_events actor request_id seat n events) ≡ length events
unfolding number_events
length-number_events actor request_id seat n [] = refl
length-number_events actor request_id seat n (e ∷ es) =
    omega (arith, length-number_events actor request_id seat (suc n) es)

length-evict-le : (limit : ℕ) (m : Map CommittedResult) → length (evict limit m) ≤ limit
unfolding evict
length-evict-le limit [] = omega arith
length-evict-le limit (e ∷ m) = ground (arith, length-evict-le limit m)

pub fresh-IsJournal : (limit : ℕ) (state : Value) → IsJournal limit (fresh state)
fresh-IsJournal limit state = ground arith

write-IsJournal :
    (limit : ℕ) (actor : ActorId) (request_id fingerprint : String) (s : StoredActor)
    (turn : ActorTurn) (state result : Value)
    → IsJournal limit s
    → IsJournal limit (write limit actor request_id fingerprint s turn state result).stored
write-IsJournal limit actor request_id fingerprint s turn state result v = record {
  numbered =
      let at : 0 + length s.events ≡ s.seq = omega arith in
      Numbered-append 0 s.events _ v.numbered
        (rw at (number_events-Numbered actor request_id _ s.seq turn.events));
  counted = omega (
    arith,
    length-append s.events
        (number_events actor request_id (seat_key turn.seat_key_id) s.seq turn.events),
    length-number_events actor request_id (seat_key turn.seat_key_id) s.seq turn.events,
  );
  bounded = length-evict-le limit _;
}

-- A turn that commits was within its deadline, passed the schemas and the JSON check, and left
-- exactly what `write` leaves.
pub record Committed (limit : ℕ) (d : Definition) (actor : ActorId)
    (request_id fingerprint : String) (g : TurnGuard) (now : ℕ) (s : StoredActor) (turn : ActorTurn)
    (c : Commit) : Type 0 where
  pub state : Value
  pub result : Value
  pub live : g.expired ≡ false
  pub in_time : turn_deadline_passed now g.started_at d.deadline_ms ≡ false
  pub state_valid : d.parse_state turn.state ≡ ok state
  pub result_valid : d.parse_result turn.result ≡ ok result
  pub portable : assert_json_portable_events turn.events ≡ none
  pub written : c ≡ write limit actor request_id fingerprint s turn state result

module _ (limit : ℕ) (d : Definition) (actor : ActorId) (request_id fingerprint : String)
    (g : TurnGuard) (now : ℕ) (s : StoredActor) (turn : ActorTurn) where
  pub commit-Committed :
      (c : Commit)
      → commit limit d actor request_id fingerprint g now s turn ≡ ok c
      → Committed limit d actor request_id fingerprint g now s turn c
  unfolding commit
  commit-Committed c h = elim (Result-cases (d.parse_state turn.state)) [
    | inr (e, p) ↦ absurd (ground arith)
    | inl (state, p) ↦ elim (Result-cases (d.parse_result turn.result)) [
      | inr (e, q) ↦ absurd (ground arith)
      | inl (result, q) ↦ record {
        state = state;
        result = result;
        live = ground arith;
        in_time = ground arith;
        state_valid = p;
        result_valid = q;
        portable = ground arith;
        written = ground arith;
      }
    ]
  ]

  -- A turn that commits keeps the journal well formed.
  pub commit-IsJournal :
      (c : Commit)
      → commit limit d actor request_id fingerprint g now s turn ≡ ok c
      → IsJournal limit s
      → IsJournal limit c.stored
  commit-IsJournal c h v =
      let k = commit-Committed c h in
      subst (λ x. IsJournal limit x.stored) (sym k.written)
        (write-IsJournal limit actor request_id fingerprint s turn k.state k.result v)

  -- An abandoned turn, or one that finds its deadline passed, commits nothing.
  pub commit-late :
      (g.expired || turn_deadline_passed now g.started_at d.deadline_ms) ≡ true
      → (c : Commit) → commit limit d actor request_id fingerprint g now s turn ≢ ok c
  commit-late late c h = let k = commit-Committed c h in ground (arith, k)

pub record_timed_out-IsJournal :
    (limit : ℕ) (actor : ActorId) (request_id : String) (deadline_ms : ℕ) (s : StoredActor)
    → IsJournal limit s
    → IsJournal limit (record_timed_out actor request_id deadline_ms s)
unfolding record_timed_out
record_timed_out-IsJournal limit actor request_id deadline_ms s v = record {
  numbered = Numbered-append 0 s.events _ v.numbered (ground arith);
  counted = omega (arith, length-append {0} s.events);
  bounded = v.bounded;
}
