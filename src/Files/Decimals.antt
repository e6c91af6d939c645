-- ===== src/Files/Decimals.antt =====
-- Decimal numerals as lists of character codes, and reading what is printed.
use agentback.Base.{
  ℕ, zero, suc, ◌+◌, ◌-◌, ◌*◌, ◌/◌, ◌%◌, ◌<◌, ◌≡◌, refl, ap, ◌∙◌, Bool, true, false, ◌&&◌, Option,
  none, some, List, [], ◌∷◌, all, ltb, leb, if◌then◌else◌, arith, Bool-cases, ◌⊎◌, inl, inr,
}

abbrev pub is_digit : ℕ → Bool
is_digit c = leb 48 c && leb c 57

-- The value of digits behind the ones read.
unfoldable pub number_from : ℕ → List ℕ → ℕ
number_from n [] = n
number_from n (c ∷ cs) = number_from (n * 10 + (c - 48)) cs

abbrev pub is_empty : List ℕ → Bool
is_empty [] = true
is_empty (c ∷ cs) = false

-- decimal: /^\d+$/, and `Number` of what matches.
unfoldable pub decimal : List ℕ → Option ℕ
unfolding number_from
decimal [] = none
decimal (c ∷ cs) = if all is_digit (c ∷ cs) then some (number_from 0 (c ∷ cs)) else none

-- `${n}`; the fuel is more than the number of digits.
unfoldable pub digits_from : ℕ → ℕ → List ℕ → List ℕ
digits_from zero n rest = rest
digits_from (suc fuel) n rest =
    let more = digits_from fuel (n / 10) ((48 + n % 10) ∷ rest) in
    if ltb n 10 then (48 + n) ∷ rest else more

unfoldable pub digits : ℕ → List ℕ
unfolding digits_from
digits n = digits_from (suc n) n []

number_from-digits_from :
    (fuel n : ℕ) (rest : List ℕ)
    → n < fuel
    → number_from 0 (digits_from fuel n rest) ≡ number_from n rest
unfolding number_from digits_from
number_from-digits_from zero n rest h = absurd (omega arith)
number_from-digits_from (suc fuel) n rest h = elim (Bool-cases (ltb n 10)) [
  | inl small ↦ rw small (ap (λ m. number_from m rest) (omega arith))
  | inr large ↦ rw large (
      number_from-digits_from fuel (n / 10) ((48 + n % 10) ∷ rest) (ground arith)
      ∙ ap (λ m. number_from m rest) (omega arith))
]

pub all-digits_from :
    (fuel n : ℕ) (rest : List ℕ)
    → all is_digit rest ≡ true
    → all is_digit (digits_from fuel n rest) ≡ true
unfolding digits_from
all-digits_from zero n rest h = h
all-digits_from (suc fuel) n rest h = elim (Bool-cases (ltb n 10)) [
  | inl small ↦ rw small (ground arith)
  | inr large ↦ rw large (all-digits_from fuel (n / 10) ((48 + n % 10) ∷ rest) (ground arith))
]

pub all-digits : (n : ℕ) → all is_digit (digits n) ≡ true
unfolding digits
all-digits n = all-digits_from (suc n) n [] refl

is_empty-digits_from :
    (fuel n : ℕ) (rest : List ℕ)
    → (0 < fuel) ⊎ (is_empty rest ≡ false)
    → is_empty (digits_from fuel n rest) ≡ false
unfolding digits_from
is_empty-digits_from zero n rest h = ground arith
is_empty-digits_from (suc fuel) n rest h = elim (Bool-cases (ltb n 10)) [
  | inl small ↦ rw small refl
  | inr large ↦ rw large (is_empty-digits_from fuel (n / 10) ((48 + n % 10) ∷ rest) (inr refl))
]

pub is_empty-digits : (n : ℕ) → is_empty (digits n) ≡ false
unfolding digits
is_empty-digits n = is_empty-digits_from (suc n) n [] (inl (omega arith))

decimal_of :
    (s : List ℕ) → is_empty s ≡ false → all is_digit s ≡ true → decimal s ≡ some (number_from 0 s)
unfolding decimal
decimal_of [] e h = absurd (ground arith)
decimal_of (c ∷ cs) e h = rw h refl

-- A printed number is read again.
pub decimal-digits : (n : ℕ) → decimal (digits n) ≡ some n
unfolding digits number_from
decimal-digits n =
    decimal_of (digits n) (is_empty-digits n) (all-digits n)
    ∙ ap some (number_from-digits_from (suc n) n [] (omega arith))
