-- ===== src/Files/Reading.antt =====
-- What is read of an object lies within it, and a range that a client prints is the one that it gets.
use agentback.Base.{
  ℕ, ◌-◌, ◌≤◌, ◌<◌, ◌≡◌, refl, Bool, false, not, ◌||◌, Option, none, some, List, [], any, ◌==◌, ltb,
  leb, min, if◌then◌else◌, arith, Bool-cases, inl, inr, if_rule,
}
use agentback.Files.Decimals.{decimal, is_empty}
use agentback.Files.Ranges.{
  Parsed, whole, unsatisfiable, range, bytes_prefix, after_prefix, matched, split_at_dash, last_of,
  from_start, suffix_of, parts_of, dashed, value_of, parse_range_header, Body, nothing, everything,
  slice, FileResponse, respond, respond_to, serve_file,
}

-- A range that lies within an object of a size.
abbrev pub InRange : ℕ → Parsed → Type 0
InRange size whole = Unit {0}
InRange size unsatisfiable = Unit {0}
InRange size (range start end') = (start ≤ end') × (end' < size)

-- What is read from the store, and what the response says of it.
abbrev pub Reads : ℕ → Body → FileResponse → Type 0
Reads total nothing r = (r.status ≡ 416) × (r.content_range ≡ some (none, total))
Reads total everything r = (r.status ≡ 200) × (r.content_range ≡ none)
Reads total (slice start end') r =
    (start ≤ end')
    × (end' < total)
    × (r.status ≡ 206)
    × (r.content_range ≡ some (some (start, end'), total))

abbrev pub Served : ℕ → FileResponse → Type 0
Served total r = Reads total r.body r

last_of-InRange :
    (size start : ℕ) (e : Option ℕ) → start < size → InRange size (last_of size start e)
last_of-InRange size start none h = tt
last_of-InRange size start (some e) h =
    if_rule (InRange size) (ltb e start) whole (range start (min e (size - 1))) (λ _. tt)
      (λ p. ground arith)

from_start-InRange :
    (size : ℕ) (end_text : List ℕ) (s : Option ℕ) → InRange size (from_start size end_text s)
from_start-InRange size end_text none = tt
from_start-InRange size end_text (some start) =
    if_rule (InRange size) (leb size start) unsatisfiable
      (if is_empty end_text then range start (size - 1) else last_of size start (decimal end_text))
      (λ _. tt)
      (λ p.
        if_rule (InRange size) (is_empty end_text) (range start (size - 1))
          (last_of size start (decimal end_text)) (λ _. ground arith)
          (λ _. last_of-InRange size start (decimal end_text) (ground arith)))

suffix_of-InRange : (size : ℕ) (s : Option ℕ) → 0 < size → InRange size (suffix_of size s)
suffix_of-InRange size none h = tt
suffix_of-InRange size (some n) h =
    if_rule (InRange size) (n == 0) whole (range (size - n) (size - 1)) (λ _. tt)
      (λ p. ground arith)

parts_of-InRange : (size : ℕ) (a b : List ℕ) → InRange size (parts_of size a b)
parts_of-InRange size a b =
    if_rule (InRange size) (size == 0) unsatisfiable _ (λ _. tt)
      (λ p.
        if_rule (InRange size) (is_empty a) (suffix_of size (decimal b))
          (from_start size b (decimal a)) (λ _. suffix_of-InRange size (decimal b) (ground arith))
          (λ _. from_start-InRange size b (decimal a)))

module _ (trim : List ℕ → List ℕ) where
  dashed-InRange :
      (size : ℕ) (parts : Option (List ℕ × List ℕ)) → InRange size (dashed trim size parts)
  dashed-InRange size none = tt
  dashed-InRange size (some (a, b)) = parts_of-InRange size (trim a) (trim b)

  value_of-InRange : (size : ℕ) (value : Option (List ℕ)) → InRange size (value_of trim size value)
  value_of-InRange size none = tt
  value_of-InRange size (some s) =
      if_rule (InRange size) (any (λ c. c == 44) s) whole (dashed trim size (split_at_dash s))
        (λ _. tt) (λ _. dashed-InRange size (split_at_dash s))

  parse_range_header-InRange :
      (header : List ℕ) (size : ℕ) → InRange size (parse_range_header trim header size)
  unfolding parse_range_header
  parse_range_header-InRange header size =
      if_rule (InRange size) (is_empty header) whole
        (value_of trim size (matched (after_prefix bytes_prefix (trim header)))) (λ _. tt)
        (λ _. value_of-InRange size (matched (after_prefix bytes_prefix (trim header))))

  respond-Served : (total : ℕ) (p : Parsed) → InRange total p → Served total (respond total p)
  respond-Served total whole h = (refl, refl)
  respond-Served total unsatisfiable h = (refl, refl)
  respond-Served total (range start end') h = (h.0, h.1, refl, refl)

  respond_to-Served :
      (supports : Bool) (total : ℕ) (header : List ℕ)
      → Served total (respond_to trim supports total header)
        × (supports ≡ false
            → ((respond_to trim supports total header).body ≡ everything)
              × ((respond_to trim supports total header).accepts_ranges ≡ false))
  respond_to-Served supports total header = elim (Bool-cases (is_empty header || not supports)) [
    | inl p ↦ rw p ((refl, refl), λ none'. (refl, none'))
    | inr p ↦ rw p (
      respond-Served total (parse_range_header trim header total)
          (parse_range_header-InRange header total),
      λ none'. absurd (ground arith),
    )
  ]

  -- Whatever the `Range` header, a response of status 206 reads a part that lies within the object and
  -- names it in `Content-Range`; one of status 416 reads nothing; any other is the whole object with
  -- status 200. A store without ranges serves the whole object and announces none.
  pub serve_file-Served :
      (supports : Bool) (total : ℕ) (header : Option (List ℕ))
      → Served total (serve_file trim supports total header)
        × (supports ≡ false
            → ((serve_file trim supports total header).body ≡ everything)
              × ((serve_file trim supports total header).accepts_ranges ≡ false))
  unfolding serve_file
  serve_file-Served supports total none = respond_to-Served supports total []
  serve_file-Served supports total (some header) = respond_to-Served supports total header
