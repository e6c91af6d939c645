-- ===== src/Files/RoundTrip.antt =====
-- The range that a client prints is the one that the server reads.
use agentback.Base.{
  ℕ, ◌≤◌, ◌<◌, ◌≡◌, refl, ap, Bool, true, false, ◌&&◌, ◌||◌, some, List, [], ◌∷◌, ◌++◌, all, any,
  ◌==◌, ltb, leb, arith, Option-cases, inl, inr,
}
use agentback.Files.Decimals.{
  digits, is_empty, is_digit, all-digits, is_empty-digits, decimal-digits,
}
use agentback.Files.Ranges.{
  range, bytes_prefix, matched, split_at_dash, parts_of, value_of, parse_range_header, is_line_end,
}

-- The value of the header `bytes=start-end`.
abbrev pub print_range : ℕ → ℕ → List ℕ
print_range start end' = bytes_prefix ++ digits start ++ 45 ∷ digits end'

-- A character that `trim` leaves where it is.
abbrev pub is_visible : ℕ → Bool
is_visible c = ltb 32 c && ltb c 127

visible_digits : (s : List ℕ) → all is_digit s ≡ true → all is_visible s ≡ true
visible_digits [] h = refl
visible_digits (c ∷ s) h = ground (arith, visible_digits s)

all-append : (p : ℕ → Bool) (xs ys : List ℕ) → all p (xs ++ ys) ≡ (all p xs && all p ys)
all-append p [] ys = refl
all-append p (x ∷ xs) ys = ground (arith, all-append p xs ys)

any-append : (p : ℕ → Bool) (xs ys : List ℕ) → any p (xs ++ ys) ≡ (any p xs || any p ys)
any-append p [] ys = refl
any-append p (x ∷ xs) ys = ground (arith, any-append p xs ys)

-- Digits are neither commas nor ends of lines.
no_digit :
    (p : ℕ → Bool)
    → ((c : ℕ) → is_digit c ≡ true → p c ≡ false)
    → (s : List ℕ) → all is_digit s ≡ true
    → any p s ≡ false
no_digit p apart [] h = refl
no_digit p apart (c ∷ s) h = ground (arith, no_digit p apart s, apart c)

split_at_dash_digits :
    (s t : List ℕ) → all is_digit s ≡ true → split_at_dash (s ++ 45 ∷ t) ≡ some (s, t)
unfolding split_at_dash
split_at_dash_digits [] t h = elim (Option-cases (split_at_dash t)) [
  | inl p ↦ rw p refl
  | inr (x, p) ↦ rw p refl
]
split_at_dash_digits (c ∷ s) t h = rw (split_at_dash_digits s t (ground arith)) (ground arith)

is_empty-append : (s t : List ℕ) → is_empty s ≡ false → is_empty (s ++ t) ≡ false
is_empty-append [] t h = absurd (ground arith)
is_empty-append (c ∷ s) t h = refl

module _ (trim : List ℕ → List ℕ) (visible : (s : List ℕ) → all is_visible s ≡ true → trim s ≡ s)
    (start end' size : ℕ) (ordered : start ≤ end') (within : end' < size) where
  parts : parts_of size (digits start) (digits end') ≡ range start end'
  parts =
      let some_bytes : (size == 0) ≡ false = ground arith in
      let inside : leb size start ≡ false = ground arith in
      let forward : ltb end' start ≡ false = ground arith in
      rw some_bytes (
        rw (is_empty-digits start, decimal-digits start)
          (rw inside (
            rw (is_empty-digits end', decimal-digits end')
              (rw forward (ap (range start) (ground arith))))))

  abbrev text : List ℕ
  text = digits start ++ 45 ∷ digits end'

  all_visible : all is_visible (print_range start end') ≡ true
  all_visible =
      let first = visible_digits (digits start) (all-digits start) in
      let second = visible_digits (digits end') (all-digits end') in
      ground (arith, all-append is_visible (digits start) (45 ∷ digits end'), first, second)

  free_of :
      (p : ℕ → Bool)
      → ((c : ℕ) → is_digit c ≡ true → p c ≡ false)
      → p 45 ≡ false
      → any p text ≡ false
  free_of p apart dash =
      let first = no_digit p apart (digits start) (all-digits start) in
      let second = no_digit p apart (digits end') (all-digits end') in
      ground (arith, any-append p (digits start) (45 ∷ digits end'), first, second, dash)

  value : value_of trim size (matched (some text)) ≡ range start end'
  value = rw (is_empty-append (digits start) (45 ∷ digits end') (is_empty-digits start)) (
      rw (free_of is_line_end (λ c h. ground arith) refl) (
        rw (free_of (λ c. c == 44) (λ c h. ground arith) refl) (
          rw (split_at_dash_digits (digits start) (digits end') (all-digits start)) (
            rw (visible (digits start) (visible_digits (digits start) (all-digits start))) (
              rw (visible (digits end') (visible_digits (digits end') (all-digits end'))) parts)))))

  -- Where `trim` leaves visible characters alone: a range that lies within the object, printed as a
  -- header, is the one that is read.
  pub parse_range_header-print_range :
      parse_range_header trim (print_range start end') size ≡ range start end'
  unfolding parse_range_header
  parse_range_header-print_range = rw (visible (print_range start end') all_visible) value
