-- ===== src/Streams/Stream/Frames.antt =====
-- The frames of a ring: how they are numbered, and which of them a replay writes.
use agentback.Base.{
  ℕ, suc, ◌+◌, ◌≤◌, ◌<◌, ◌≡◌, refl, sym, ◌∙◌, subst, Bool, true, false, List, [], ◌∷◌, ◌++◌,
  if◌then◌else◌, length, length-append, ltb, arith, if_rule, select, map, Bool-cases, inl, inr,
}
use mathlib.Core.List.{append-nil, append_assoc}
use agentback.Streams.Stream.{
  Frame, Stream, drop_first, first_seq, buffer, Transport, write, replay,
}

-- Frames that are numbered from `n` on.
abbrev pub Consecutive : ℕ → List Frame → Type 0
Consecutive n [] = Unit
Consecutive n (f ∷ fs) = (f.seq ≡ n) × Consecutive (suc n) fs

pub Consecutive-append :
    (n : ℕ) (fs gs : List Frame)
    → Consecutive n fs
    → Consecutive (n + length fs) gs
    → Consecutive n (fs ++ gs)
Consecutive-append n [] gs h k = let e : n + 0 ≡ n = omega arith in rw e at k
Consecutive-append n (f ∷ fs) gs h k =
    let e : n + suc (length fs) ≡ suc n + length fs = omega arith in
    (h.0, Consecutive-append (suc n) fs gs h.1 (rw e at k))

-- The newest frames, as many as the cap allows, without a gap.
pub record IsRing (max_events seq oldest : ℕ) (frames : List Frame) : Type 0 where
  pub consecutive : Consecutive oldest frames
  pub newest : oldest + length frames ≡ suc seq
  pub bounded : length frames ≤ max_events
  pub positive : 1 ≤ oldest

abbrev pub Ring : ℕ → Stream → Type 0
Ring limit s = (s.max_events ≡ limit) × (1 ≤ limit) × IsRing limit s.seq s.oldest_seq s.frames

pub drop_first-IsRing :
    (max_events seq oldest : ℕ) (frames : List Frame)
    → 1 ≤ max_events
    → IsRing (suc max_events) seq oldest frames
    → max_events < length frames
    → IsRing max_events seq (first_seq oldest (drop_first frames)) (drop_first frames)
drop_first-IsRing max_events seq oldest [] one v h = absurd (omega arith)
drop_first-IsRing max_events seq oldest (f ∷ []) one v h = absurd (omega arith)
drop_first-IsRing max_events seq oldest (f ∷ g ∷ frames) one v h =
    let e : g.seq ≡ suc oldest = v.consecutive.1.0 in
    record {
      consecutive = (refl, rw e v.consecutive.1.1);
      newest = omega (arith, v.newest);
      bounded = omega (arith, v.bounded);
      positive = omega arith;
    }

pub buffer-IsRing :
    (s : Stream) (n : ℕ) (f : Frame)
    → f.seq ≡ suc n
    → 1 ≤ s.max_events
    → IsRing s.max_events n s.oldest_seq s.frames
    → IsRing s.max_events (suc n) (buffer s f).oldest_seq (buffer s f).frames
unfolding buffer
buffer-IsRing s n f e one v =
    if_rule {A = Stream} (λ t. IsRing s.max_events (suc n) t.oldest_seq t.frames)
      (ltb s.max_events (length (s.frames ++ f ∷ []))) _ _
      (λ h.
        drop_first-IsRing s.max_events (suc n) s.oldest_seq (s.frames ++ f ∷ []) one longer
          (ground arith))
      (λ h. record {
        consecutive = longer.consecutive;
        newest = longer.newest;
        bounded = ground arith;
        positive = longer.positive;
      })
  where
    longer : IsRing (suc s.max_events) (suc n) s.oldest_seq (s.frames ++ f ∷ [])
    longer = record {
      consecutive =
          Consecutive-append s.oldest_seq s.frames (f ∷ []) v.consecutive
            (ground (arith, v.newest));
      newest = omega (arith, v.newest, length-append s.frames (f ∷ []));
      bounded = omega (arith, v.bounded, length-append s.frames (f ∷ []));
      positive = v.positive;
    }

-- Writing to a sink leaves the ring as it is.
abbrev pub SameRing : Stream → Stream → Type 0
SameRing s t =
    (t.max_events ≡ s.max_events)
    × (t.seq ≡ s.seq)
    × (t.oldest_seq ≡ s.oldest_seq)
    × (t.frames ≡ s.frames)

pub replay-SameRing :
    (takes : Transport) (sink after_seq : ℕ) (frames : List Frame) (s : Stream)
    → SameRing s (replay takes s sink after_seq frames)
unfolding replay
replay-SameRing takes sink after_seq [] s = (refl, refl, refl, refl)
replay-SameRing takes sink after_seq (f ∷ frames) s =
    if_rule (λ t. SameRing s (replay takes t sink after_seq frames)) (ltb after_seq f.seq)
      (write takes s sink f) s
      (λ h. replay-SameRing takes sink after_seq frames (write takes s sink f))
      (λ h. replay-SameRing takes sink after_seq frames s)

abbrev pub missed : ℕ → List Frame → List Frame
missed after_seq frames = select (λ f. ltb after_seq f.seq) frames

-- What `replay` writes to the sink, and nothing else.
pub written-replay :
    (takes : Transport) (sink after_seq : ℕ) (frames : List Frame) (s : Stream)
    → (replay takes s sink after_seq frames).written
      ≡ s.written ++ map (λ f. record { sink = sink; frame = f }) (missed after_seq frames)
unfolding replay
written-replay takes sink after_seq [] s = sym (append-nil s.written)
written-replay takes sink after_seq (f ∷ frames) s =
    by_test (ltb after_seq f.seq)
      (written-replay takes sink after_seq frames (write takes s sink f)
        ∙ append_assoc s.written _ _)
      (written-replay takes sink after_seq frames s)
  where
    Writes : Stream → List Frame → Type 0
    Writes t fs =
        (replay takes t sink after_seq frames).written
        ≡ s.written ++ map (λ g. record { sink = sink; frame = g }) fs

    by_test :
        (b : Bool)
        → Writes (write takes s sink f) (f ∷ missed after_seq frames)
        → Writes s (missed after_seq frames)
        → Writes
            (if b then write takes s sink f else s)
            (if b then f ∷ missed after_seq frames else missed after_seq frames)
    by_test true h k = h
    by_test false h k = k

pub missed-all :
    (n after_seq : ℕ) (frames : List Frame)
    → Consecutive n frames
    → after_seq < n
    → missed after_seq frames ≡ frames
missed-all n after_seq [] h lt = refl
missed-all n after_seq (f ∷ frames) h lt = ground (arith, missed-all (suc n) after_seq frames)

-- The frames after a position that the ring holds are those from the next number on.
pub missed-Consecutive :
    (oldest after_seq : ℕ) (frames : List Frame)
    → Consecutive oldest frames
    → oldest ≤ suc after_seq
    → after_seq < oldest + length frames
    → Consecutive (suc after_seq) (missed after_seq frames)
      × (suc after_seq + length (missed after_seq frames) ≡ oldest + length frames)
missed-Consecutive oldest after_seq [] h le lt = (tt, omega arith)
missed-Consecutive oldest after_seq (f ∷ frames) h le lt = elim (Bool-cases (ltb after_seq f.seq)) [
  | inl b ↦
      let e : oldest ≡ suc after_seq = ground arith in
      let k : missed after_seq (f ∷ frames) ≡ f ∷ frames =
        missed-all oldest after_seq (f ∷ frames) h (omega arith) in
      rw k (subst (λ n. Consecutive n (f ∷ frames)) e h, omega arith)
  | inr b ↦
      let (k, e) =
        missed-Consecutive (suc oldest) after_seq frames h.1 (ground arith) (omega arith) in
      rw b (k, omega arith)
]
