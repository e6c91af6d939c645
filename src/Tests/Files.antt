-- ===== src/Tests/Files.antt =====
-- Requests for a part of a file.
use agentback.Base.{ℕ, ◌≡◌, refl, true, false, some, List, [], ◌∷◌, arith}
use agentback.Files.Decimals.{digits}
use agentback.Files.Ranges.{range, everything, parse_range_header, serve_file}
use agentback.Files.Reading.{Served, serve_file-Served}
use agentback.Files.RoundTrip.{print_range, parse_range_header-print_range}

abbrev no_trim : List ℕ → List ℕ
no_trim s = s

-- "bytes=2-4", of ten bytes
abbrev some_bytes : List ℕ
some_bytes = 98 ∷ 121 ∷ 116 ∷ 101 ∷ 115 ∷ 61 ∷ 50 ∷ 45 ∷ 52 ∷ []

printed : print_range 2 4 ≡ some_bytes
unfolding digits
printed = refl

-- The last byte.
suffix : parse_range_header no_trim (98 ∷ 121 ∷ 116 ∷ 101 ∷ 115 ∷ 61 ∷ 45 ∷ 49 ∷ []) 10 ≡ range 9 9
unfolding parse_range_header
suffix = refl

serve_file-Served_example :
    Served 10 (serve_file no_trim true 10 (some some_bytes))
    × (true ≡ false
        → ((serve_file no_trim true 10 (some some_bytes)).body ≡ everything)
          × ((serve_file no_trim true 10 (some some_bytes)).accepts_ranges ≡ false))
serve_file-Served_example = serve_file-Served no_trim true 10 (some some_bytes)

parse_range_header-print_range_example :
    parse_range_header no_trim (print_range 2 14) 20 ≡ range 2 14
parse_range_header-print_range_example =
    parse_range_header-print_range no_trim (λ s h. refl) 2 14 20 (omega arith) (omega arith)
