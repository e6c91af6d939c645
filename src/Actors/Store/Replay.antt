-- ===== src/Actors/Store/Replay.antt =====
-- Idempotent retries: a committed request is answered from the dedup map, which keeps the newest
-- `dedupLimit` requests.
use agentback.Base.{
  ℕ, zero, suc, ◌-◌, ◌<◌, ◌≡◌, refl, ap, ◌∙◌, String, none, some, List, [], ◌∷◌, ◌++◌, length,
  length-append, arith, ltb, str_eq, eq_refl, Bool-cases, ok, err, inl, inr, if◌then◌else◌,
}
use agentback.Base.Map.{Map, lookup, insert}
use agentback.Actors.Json.{Value}
use agentback.Actors.Types.{ActorId, request_id_reused, Definition, ActorTurn, TurnGuard}
use agentback.Actors.Store.{CommittedResult, StoredActor, replay, evict, Commit, commit}
use agentback.Actors.Store.Journal.{commit-Committed}

module _ {ℓ} {A : Type ℓ} where
  abbrev pub drop : ℕ → List A → List A
  drop zero xs = xs
  drop (suc n) [] = []
  drop (suc n) (x ∷ xs) = drop n xs

-- Eviction drops the oldest entries until the limit is met: first in, first out.
evict-drop : (limit : ℕ) (m : Map CommittedResult) → evict limit m ≡ drop (length m - limit) m
unfolding evict
evict-drop limit [] = ground arith
evict-drop limit (e ∷ m) = elim (Bool-cases (ltb limit (suc (length m)))) [
  | inl p ↦
      let more : suc (length m) - limit ≡ suc (length m - limit) = ground arith in
      rw (p, more) (evict-drop limit m)
  | inr p ↦ let fits : suc (length m) - limit ≡ 0 = ground arith in rw (p, fits)
]

insert_new :
    (k : String) (e : CommittedResult) (m : Map CommittedResult)
    → lookup k m ≡ none
    → insert k e m ≡ m ++ (k, e) ∷ []
unfolding insert lookup
insert_new k e [] h = refl
insert_new k e ((j, f) ∷ m) h = ground (arith, insert_new k e m)

lookup-snoc :
    (k : String) (e : CommittedResult) (m : Map CommittedResult)
    → lookup k m ≡ none
    → lookup k (m ++ (k, e) ∷ []) ≡ some e
unfolding lookup
lookup-snoc k e [] h = ground (arith, eq_refl k)
lookup-snoc k e ((j, f) ∷ m) h = ground (arith, lookup-snoc k e m)

lookup-evict_newest :
    (limit : ℕ) (k : String) (e : CommittedResult) (m : Map CommittedResult)
    → 0 < limit
    → lookup k m ≡ none
    → lookup k (evict limit (m ++ (k, e) ∷ [])) ≡ some e
unfolding evict lookup
lookup-evict_newest limit k e [] b h = ground (arith, eq_refl k)
lookup-evict_newest limit k e ((j, f) ∷ m) b h =
    ground (arith, lookup-evict_newest limit k e m b, lookup-snoc k e m)

-- The entry that a commit adds.
abbrev pub entry : String → Value → CommittedResult
entry fingerprint result = record { command_fingerprint = fingerprint; result = result }

module _ (limit : ℕ) (d : Definition) (actor : ActorId) (request_id fingerprint : String)
    (g : TurnGuard) (now : ℕ) (s : StoredActor) (turn : ActorTurn) (c : Commit)
    (done : commit limit d actor request_id fingerprint g now s turn ≡ ok c)
    (first : lookup request_id s.results ≡ none) where
  results-evict :
      c.stored.results ≡ evict limit (s.results ++ (request_id, entry fingerprint c.result) ∷ [])
  results-evict =
      let k = commit-Committed limit d actor request_id fingerprint g now s turn c done in
      ground (
        arith,
        k,
        insert_new request_id (record { command_fingerprint = fingerprint; result = k.result })
            s.results first,
      )

  -- After a turn that was the first with its request id, the dedup map holds the newest `limit` of
  -- the entries that it held before and the turn's own, which is the last.
  pub results-commit :
      c.stored.results
      ≡ drop
          (suc (length s.results) - limit)
          (s.results ++ (request_id, entry fingerprint c.result) ∷ [])
  results-commit =
      let size : length (s.results ++ (request_id, entry fingerprint c.result) ∷ [])
          ≡ suc (length s.results) =
        omega (arith, length-append s.results ((request_id, entry fingerprint c.result) ∷ [])) in
      results-evict
      ∙ evict-drop limit (s.results ++ (request_id, entry fingerprint c.result) ∷ [])
      ∙ ap (λ n. drop (n - limit) (s.results ++ (request_id, entry fingerprint c.result) ∷ [])) size

  -- With a limit of at least one, a retry of a request that was committed under a new request id
  -- is, right after the commit, answered with the committed result if its command's fingerprint is
  -- the same and refused otherwise.
  pub replay-commit :
      0 < limit
      → (other : String)
      → replay c.stored request_id other
        ≡ some (if str_eq fingerprint other then ok c.result else err request_id_reused)
  unfolding replay
  replay-commit b other = ground (
    arith,
    results-evict,
    lookup-evict_newest limit request_id (entry fingerprint c.result) s.results b first,
  )
