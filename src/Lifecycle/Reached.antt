-- ===== src/Lifecycle/Reached.antt =====
-- A notification of `stop` that no observer refuses reaches all of them.
use agentback.Base.{
  ℕ, ◌≡◌, ◌≢◌, refl, String, Bool, true, false, ◌&&◌, ◌||◌, ◌⊎◌, List, [], ◌∷◌, ◌++◌, any, str_eq,
  eq_iff, ap, ◌∙◌, arith, ok, Bool-cases, inl, inr,
}
use agentback.Lifecycle.Groups.{member}
use agentback.Lifecycle.Notify.{
  Event, stop, Handler, absent, returns, throws, Notices, Outcome, World, done, follow, invoke,
  notify_serially, start_one, notify_all, failure_of, failures, notify_observers,
}

abbrev is_stop : Event → Bool
is_stop stop = true
is_stop _ = false

-- Whether an observer's `stop` is among the calls.
abbrev pub was_stopped : String → List (String × Event) → Bool
was_stopped k calls = any (λ c. str_eq c.0 k && is_stop c.1) calls

pub any-append :
    {A : Type 0} (p : A → Bool) (xs ys : List A) → any p (xs ++ ys) ≡ (any p xs || any p ys)
any-append p [] ys = refl
any-append p (x ∷ xs) ys = ground (arith, any-append p xs ys)

-- A notification of `stop` that no observer refuses reaches each of them.
pub record Reached (world : World) (keys : List String) (n : Notices) (o : Outcome) : Type 0 where
  pub ended : o.result ≡ ok tt
  pub reached :
      (k : String)
      → member k keys ≡ true
      → world.handler k stop ≡ returns
      → was_stopped k o.notices.calls ≡ true
  pub kept : (k : String) → was_stopped k n.calls ≡ true → was_stopped k o.notices.calls ≡ true

module _ (world : World) (quiet : (key : String) (e : ℕ) → world.handler key stop ≢ throws e) where
  start_one-stopped :
      (key k : String) (h : Handler) (n : Notices)
      → (was_stopped k n.calls ≡ true) ⊎ ((str_eq key k ≡ true) × (h ≡ returns))
      → was_stopped k (start_one world key stop h n).calls ≡ true
  start_one-stopped key k absent n h = ground arith
  start_one-stopped key k returns n h = ground (
    arith,
    any-append (λ (c : String × Event). str_eq c.0 k && is_stop c.1) n.calls ((key, stop) ∷ []),
  )
  start_one-stopped key k (throws e) n h = ground (
    arith,
    any-append (λ (c : String × Event). str_eq c.0 k && is_stop c.1) n.calls ((key, stop) ∷ []),
  )

  -- One observer more, and then the others.
  Reached-next :
      (key : String) (keys : List String) (n : Notices) (o : Outcome)
      → Reached world keys (start_one world key stop (world.handler key stop) n) o
      → Reached world (key ∷ keys) n o
  Reached-next key keys n o r = record {
    ended = r.ended;
    reached = λ k h g. elim (Bool-cases (str_eq key k)) [
      | inl e ↦ r.kept k (
          start_one-stopped key k (world.handler key stop) n
            (inr (e, ap (λ i. world.handler i stop) ((eq_iff key k).0 e) ∙ g)))
      | inr e ↦ r.reached k (ground arith) g
    ];
    kept = λ k h. r.kept k (start_one-stopped key k (world.handler key stop) n (inl h));
  }

  notify_all-Reached :
      (keys : List String) (n : Notices)
      → Reached world keys n (done (notify_all world keys stop n))
  unfolding notify_all
  notify_all-Reached [] n = record {
    ended = refl;
    reached = λ k h g. absurd (ground arith);
    kept = λ k h. h;
  }
  notify_all-Reached (key ∷ keys) n = Reached-next key keys n _ (notify_all-Reached keys _)

  quiet_step :
      (key : String) (h : Handler) (n : Notices) (k : Notices → Outcome)
      → ((e : ℕ) → h ≢ throws e)
      → follow (invoke world key stop h n) k ≡ k (start_one world key stop h n)
  quiet_step key absent n k q = refl
  quiet_step key returns n k q = refl
  quiet_step key (throws e) n k q = absurd (q e refl)

  notify_serially-Reached :
      (keys : List String) (n : Notices) → Reached world keys n (notify_serially world keys stop n)
  unfolding notify_serially
  notify_serially-Reached [] n = record {
    ended = refl;
    reached = λ k h g. absurd (ground arith);
    kept = λ k h. h;
  }
  notify_serially-Reached (key ∷ keys) n =
      rw (quiet_step key (world.handler key stop) n (notify_serially world keys stop) (quiet key))
        (Reached-next key keys n _ (notify_serially-Reached keys _))

  failure_of_quiet :
      (h : Handler) (rest : List ℕ) → ((e : ℕ) → h ≢ throws e) → failure_of world h rest ≡ rest
  failure_of_quiet absent rest q = refl
  failure_of_quiet returns rest q = refl
  failure_of_quiet (throws e) rest q = absurd (q e refl)

  failures_none : (keys : List String) → failures world keys stop ≡ []
  unfolding failures
  failures_none [] = refl
  failures_none (key ∷ keys) =
      failure_of_quiet (world.handler key stop) (failures world keys stop) (quiet key)
      ∙ failures_none keys

  pub notify_observers-Reached :
      (parallel settle : Bool) (keys : List String) (n : Notices)
      → Reached world keys n (notify_observers world parallel settle keys stop n)
  unfolding notify_observers
  notify_observers-Reached true settle keys n = rw (failures_none keys) (notify_all-Reached keys n)
  notify_observers-Reached false settle keys n = notify_serially-Reached keys n
