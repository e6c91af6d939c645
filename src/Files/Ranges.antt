-- ===== src/Files/Ranges.antt =====
-- `parseRangeHeader` and `serveFile`, packages/rest/src/file-response.ts. Text is a list of character
-- codes, and `trim` is a parameter.
use agentback.Base.{
  ℕ, ◌-◌, Bool, true, not, ◌||◌, Option, none, some, List, [], ◌∷◌, any, ◌==◌, ltb, leb, min,
  if◌then◌else◌,
}
use agentback.Files.Decimals.{decimal, is_empty}

-- `ByteRange`, `'unsatisfiable'` or `null`
pub data Parsed : Type 0 where
  whole unsatisfiable : Parsed
  range : ℕ → ℕ → Parsed

-- "bytes="
abbrev pub bytes_prefix : List ℕ
bytes_prefix = 98 ∷ 121 ∷ 116 ∷ 101 ∷ 115 ∷ 61 ∷ []

-- What follows a prefix.
unfoldable pub after_prefix : List ℕ → List ℕ → Option (List ℕ)
after_prefix [] s = some s
after_prefix (p ∷ ps) [] = none
after_prefix (p ∷ ps) (c ∷ s) = let rest = after_prefix ps s in if p == c then rest else none

-- What `.` does not match.
abbrev pub is_line_end : ℕ → Bool
is_line_end c = c == 10 || c == 13 || c == 8232 || c == 8233

abbrev pub matched : Option (List ℕ) → Option (List ℕ)
matched none = none
matched (some s) = if is_empty s || any is_line_end s then none else some s

-- The parts before and after the first `-`.
unfoldable pub split_at_dash : List ℕ → Option (List ℕ × List ℕ)
split_at_dash [] = none
split_at_dash (c ∷ s) = elim (split_at_dash s) [
  | none ↦ if c == 45 then some ([], s) else none
  | some (before, after) ↦ if c == 45 then some ([], s) else some (c ∷ before, after)
]

abbrev pub last_of : ℕ → ℕ → Option ℕ → Parsed
last_of size start none = whole
last_of size start (some e) = if ltb e start then whole else range start (min e (size - 1))

abbrev pub from_start : ℕ → List ℕ → Option ℕ → Parsed
from_start size end_text none = whole
from_start size end_text (some start) =
    if leb size start
    then unsatisfiable
    else (if is_empty end_text
        then range start (size - 1)
        else last_of size start (decimal end_text))

-- Subtraction stops at 0, as `Math.max(0, size - suffix)`.
abbrev pub suffix_of : ℕ → Option ℕ → Parsed
suffix_of size none = whole
suffix_of size (some suffix) = if suffix == 0 then whole else range (size - suffix) (size - 1)

abbrev pub parts_of : ℕ → List ℕ → List ℕ → Parsed
parts_of size start_text end_text =
    if size == 0
    then unsatisfiable
    else (if is_empty start_text
        then suffix_of size (decimal end_text)
        else from_start size end_text (decimal start_text))

module _ (trim : List ℕ → List ℕ) where
  abbrev pub dashed : ℕ → Option (List ℕ × List ℕ) → Parsed
  dashed size none = whole
  dashed size (some (before, after)) = parts_of size (trim before) (trim after)

  abbrev pub value_of : ℕ → Option (List ℕ) → Parsed
  value_of size none = whole
  value_of size (some s) = if any (λ c. c == 44) s then whole else dashed size (split_at_dash s)

  -- parseRangeHeader, of a header that is there
  unfoldable pub parse_range_header : List ℕ → ℕ → Parsed
  unfolding decimal after_prefix split_at_dash
  parse_range_header header size =
      if is_empty header
      then whole
      else value_of size (matched (after_prefix bytes_prefix (trim header)))

-- The response, by its status, the bytes that are read from the store, and `Content-Range`. A status
-- that the code leaves out is 200, the one `FileResponseInit` documents. The type, name and length that
-- are passed on from the store are left out.
pub data Body : Type 0 where
  nothing everything : Body
  slice : ℕ → ℕ → Body

pub record FileResponse : Type 0 where
  pub status : ℕ
  pub body : Body
  pub accepts_ranges : Bool
  pub content_range : Option (Option (ℕ × ℕ) × ℕ)

abbrev pub respond : ℕ → Parsed → FileResponse
respond total unsatisfiable = record {
  status = 416;
  body = nothing;
  accepts_ranges = true;
  content_range = some (none, total);
}
respond total whole = record {
  status = 200;
  body = everything;
  accepts_ranges = true;
  content_range = none;
}
respond total (range start end') = record {
  status = 206;
  body = slice start end';
  accepts_ranges = true;
  content_range = some (some (start, end'), total);
}

abbrev pub respond_to : (List ℕ → List ℕ) → Bool → ℕ → List ℕ → FileResponse
respond_to trim supports_range total header =
    if is_empty header || not supports_range
    then record {
      status = 200;
      body = everything;
      accepts_ranges = supports_range;
      content_range = none;
    }
    else respond total (parse_range_header trim header total)

-- serveFile, of an object of the store; a header that is not there is empty.
unfoldable pub serve_file : (List ℕ → List ℕ) → Bool → ℕ → Option (List ℕ) → FileResponse
unfolding parse_range_header
serve_file trim supports_range total none = respond_to trim supports_range total []
serve_file trim supports_range total (some header) = respond_to trim supports_range total header
