-- ===== src/Jobs/Worker/Count.antt =====
-- Counting the attempts of a queue that pass a test.
use agentback.Base.{ℕ, zero, suc, ◌+◌, ◌≤◌, ◌<◌, ◌≡◌, refl, Bool, true, false, Option, some, arith}
use agentback.Jobs.Store.{put_cell}

abbrev pub bit : Bool → ℕ
bit true = 1
bit false = 0

module _ {V : Type 0} (test : Option V → Bool) where
  -- How many of the first objects pass.
  unfoldable pub count : (ℕ → Option V) → ℕ → ℕ
  count cells zero = 0
  count cells (suc n) = bit (test (cells n)) + count cells n

  -- Writing an object beyond the first ones changes no count of them.
  pub count-put_cell_beyond :
      (cells : ℕ → Option V) (n c : ℕ) (v : V)
      → n ≤ c
      → count (put_cell cells c v) n ≡ count cells n
  unfolding count
  count-put_cell_beyond cells zero c v h = refl
  count-put_cell_beyond cells (suc n) c v h = ground (arith, count-put_cell_beyond cells n c v)

  -- Writing one of them trades what it counted for what it counts.
  pub count-put_cell :
      (cells : ℕ → Option V) (n c : ℕ) (v : V)
      → c < n
      → count (put_cell cells c v) n + bit (test (cells c)) ≡ count cells n + bit (test (some v))
  unfolding count
  count-put_cell cells zero c v h = absurd (omega arith)
  count-put_cell cells (suc n) c v h =
      ground (arith, count-put_cell cells n c v, count-put_cell_beyond cells n c v)

  -- A new object at the end.
  pub count-put_cell_next :
      (cells : ℕ → Option V) (n : ℕ) (v : V)
      → count (put_cell cells n v) (suc n) ≡ bit (test (some v)) + count cells n
  unfolding count
  count-put_cell_next cells n v = ground (arith, count-put_cell_beyond cells n n v)
