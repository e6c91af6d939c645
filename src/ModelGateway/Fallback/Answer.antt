-- ===== src/ModelGateway/Fallback/Answer.antt =====
-- Which model's answer a caller gets.
use agentback.Base.{
  ℕ, zero, suc, ◌+◌, ◌<◌, ◌≡◌, refl, sym, subst, ◌⊎◌, inl, inr, Bool, true, false, none, some, List,
  [], ◌∷◌, arith, length, get_elem?, Bool-cases, Result, ok, err,
}
use agentback.ModelGateway.Errors.{ModelError}
use agentback.ModelGateway.Fallback.{Run, fails_over, try_from, run}

module _ {A : Type 0} (should : ModelError → Bool) (cancelled : ℕ → Bool) where
  -- Model number `at` of the list ended the run: it answered, it failed in a way that is not passed
  -- on, or it was the last. `base` is the number of the list's first model.
  abbrev pub EndedBy : ℕ → List (Result ModelError A) → ℕ → Result ModelError A → Type 0
  EndedBy base models at result =
      (get_elem? models at ≡ some result)
      × ((e : ModelError)
          → result ≡ err e
          → (fails_over should cancelled (base + at) e ≡ false) ⊎ (suc at ≡ length models))

  -- Every model before it failed in a way that is passed on.
  abbrev pub PassedOn : ℕ → List (Result ModelError A) → ℕ → Type 0
  PassedOn base models at =
      (j : ℕ)
      → j < at
      → (e : ModelError) × (get_elem? models j ≡ some (err e))
        × (fails_over should cancelled (base + j) e ≡ true)

  cons-PassedOn :
      (base at : ℕ) (e : ModelError) (models : List (Result ModelError A))
      → fails_over should cancelled base e ≡ true
      → PassedOn (suc base) models at
      → PassedOn base (err e ∷ models) (suc at)
  cons-PassedOn base at e models h ih zero p =
      let here : base + 0 ≡ base = omega arith in (e, refl, rw here h)
  cons-PassedOn base at e models h ih (suc j) p =
      let here : base + suc j ≡ suc base + j = omega arith in rw here (ih j (omega arith))

  -- The loop's verdict, for a list that starts with the failure it goes on from.
  abbrev Verdict : ℕ → List (Result ModelError A) → Run A → Type 0
  Verdict base models r = EndedBy base models r.tried r.result × PassedOn base models r.tried

  cons-Verdict :
      (i : ℕ) (last : ModelError) (others : List (Result ModelError A)) (r : Run A)
      → fails_over should cancelled i last ≡ true
      → Verdict (suc i) others r
      → Verdict i (err last ∷ others) (record r { tried = r.tried + 1 })
  cons-Verdict i last others r h ((got, why), passed) =
      let one : r.tried + 1 ≡ suc r.tried = omega arith in
      let there : i + suc r.tried ≡ suc i + r.tried = omega arith in
      subst (λ k. EndedBy i (err last ∷ others) k r.result × PassedOn i (err last ∷ others) k)
        (sym one)
        (
          (got, λ e p. rw there (ground (arith, why e p))),
          cons-PassedOn i r.tried last others h passed,
        )

  try_from-Verdict :
      (i : ℕ) (last : ModelError) (others : List (Result ModelError A))
      → fails_over should cancelled i last ≡ true
      → Verdict i (err last ∷ others) (try_from should cancelled i last others)
  unfolding try_from
  try_from-Verdict i last [] h = ((refl, λ e p. inr refl), λ j p. elim p [ ])
  try_from-Verdict i last (ok a ∷ others) h = (
    (refl, λ e p. absurd (ground arith)),
    cons-PassedOn i 0 last (ok a ∷ others) h (λ j p. elim p [ ]),
  )
  try_from-Verdict i last (err e ∷ others) h =
      elim (Bool-cases (fails_over should cancelled (suc i) e)) [
        | inl p ↦ rw p (
            cons-Verdict i last (err e ∷ others) (try_from should cancelled (suc i) e others) h
              (try_from-Verdict (suc i) e others p))
        | inr p ↦ rw p (
          (refl, λ e' q. inl (let there : i + 1 ≡ suc i = omega arith in rw there (ground arith))),
          cons-PassedOn i 0 last (err e ∷ others) h (λ j p. elim p [ ]),
        )
      ]

  served-try_from :
      (i : ℕ) (last : ModelError) (others : List (Result ModelError A)) {a : A}
      → (try_from should cancelled i last others).result ≡ ok a
      → (k : ℕ) × ((try_from should cancelled i last others).tried ≡ suc k)
        × ((try_from should cancelled i last others).served ≡ some (i + k))
  unfolding try_from
  served-try_from i last [] h = absurd (ground arith)
  served-try_from i last (ok b ∷ others) h =
      let here : i + 0 ≡ i = omega arith in (0, refl, rw here refl)
  served-try_from i last (err e ∷ others) {a} h =
      elim (Bool-cases (fails_over should cancelled (suc i) e)) [
        | inl p ↦
            let (k, t, v) = served-try_from (suc i) e others {a = a} (ground arith) in
            let there : i + suc k ≡ suc i + k = omega arith in
            (suc k, ground arith, rw there (ground arith))
        | inr p ↦ absurd (ground arith)
      ]

  -- The run ends as the model numbered by the calls of secondaries ended (0 is the primary). Every
  -- model before that one failed in a way that is passed on, and that one answered, failed in a way
  -- that is not, or was the last of all.
  pub run-Verdict :
      (primary : Result ModelError A) (secondaries : List (Result ModelError A))
      → let r = run should cancelled primary secondaries in
        EndedBy 0 (primary ∷ secondaries) r.tried r.result
        × PassedOn 0 (primary ∷ secondaries) r.tried
  unfolding run
  run-Verdict (ok a) secondaries = ((refl, λ e p. absurd (ground arith)), λ j p. elim p [ ])
  run-Verdict (err e) secondaries = elim (Bool-cases (fails_over should cancelled 0 e)) [
    | inl p ↦ rw p (try_from-Verdict 0 e secondaries p)
    | inr p ↦ rw p ((refl, λ e' q. inl (ground arith)), λ j b. elim b [ ])
  ]

  -- An answer that a secondary gave is credited to that secondary.
  pub served-run :
      (primary : Result ModelError A) (secondaries : List (Result ModelError A)) (a : A)
      → (run should cancelled primary secondaries).result ≡ ok a
      → let r = run should cancelled primary secondaries in
        ((r.tried ≡ 0) × (r.served ≡ none) × (primary ≡ ok a))
        ⊎ ((k : ℕ) × (r.tried ≡ suc k)
            × (r.served ≡ some k)
            × (get_elem? secondaries k ≡ some (ok a)))
  unfolding run
  served-run (ok b) secondaries a h = inl (refl, refl, ground arith)
  served-run (err e) secondaries a h = elim (Bool-cases (fails_over should cancelled 0 e)) [
    | inl p ↦
        let same : (try_from should cancelled 0 e secondaries).result ≡ ok a = ground arith in
        let (k, t, v) = served-try_from 0 e secondaries {a = a} same in
        let got = (try_from-Verdict 0 e secondaries p).0.0 in
        inr (k, ground arith, rw (p, v) (ground arith), rw (t, same) at got)
    | inr p ↦ absurd (ground arith)
  ]
