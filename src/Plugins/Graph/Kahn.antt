-- ===== src/Plugins/Graph/Kahn.antt =====
-- Kahn's algorithm as the plugin graph runs it.
use agentback.Base.{
  ℕ, zero, suc, ◌≤◌, ◌<◌, ◌≡◌, refl, subst, String, Bool, true, false, not, ◌||◌, none, some, List,
  [], ◌∷◌, any, select, length, str_eq, if◌then◌else◌, eq_iff, eq_refl, arith, if_rule,
  Option-cases, All, All-select, inl, inr,
}
use agentback.Base.Map.{Map, lookup, erase, has, lookup-erase, length-erase-le}
use agentback.Plugins.Graph.{PluginInfo, Entry, is_ready, first_of, next_of, kahn}

-- Whether a plugin of that name is among those mounted.
abbrev pub mounted : String → List Entry → Bool
mounted name entries = any (λ e. str_eq e.0 name) entries

pub has-erase :
    (k j : String) (m : Map PluginInfo)
    → has j (erase k m) ≡ (if str_eq k j then false else has j m)
unfolding has
has-erase k j m = ground (arith, lookup-erase k j m)

has_entries :
    (m n : Map PluginInfo)
    → ((k : String) → has k m ≡ true → has k n ≡ true)
    → All (λ e. has e.0 n ≡ true) m
unfolding has lookup
has_entries [] n h = tt
has_entries ((k, p) ∷ m) n h =
    (h k (ground (arith, eq_refl k)), has_entries m n (λ j g. h j (ground (arith, eq_iff k j))))

length-erase-lt : (k : String) (m : Map PluginInfo) → has k m ≡ true → length (erase k m) < length m
unfolding has lookup erase
length-erase-lt k [] h = absurd (ground arith)
length-erase-lt k ((j, p) ∷ m) h = ground (arith, length-erase-lt k m, length-erase-le k m)

selected-All : {A : Type 0} (p : A → Bool) (xs : List A) → All (λ x. p x ≡ true) (select p xs)
selected-All p [] = tt
selected-All p (x ∷ xs) = ground (arith, selected-All p xs)

none_selected :
    {A : Type 0} (p : A → Bool) (xs : List A)
    → select (λ x. not (p x)) xs ≡ []
    → All (λ x. p x ≡ true) xs
none_selected p [] h = tt
none_selected p (x ∷ xs) h = ground (arith, none_selected p xs)

All-both :
    {A : Type 0} (P Q : A → Type 0) (xs : List A) → All P xs → All Q xs → All (λ x. P x × Q x) xs
All-both P Q [] h k = tt
All-both P Q (x ∷ xs) h k = ((h.0, k.0), All-both P Q xs h.1 k.1)

module _ (waits_for : PluginInfo → List String) (precedes : String → String → Bool) where
  first_of-All :
      (P : Entry → Type 0) (e : Entry) (es : List Entry)
      → P e
      → All P es
      → P (first_of waits_for precedes e es)
  first_of-All P e [] h k = h
  first_of-All P e (d ∷ ds) h k =
      first_of-All P (if precedes d.0 e.0 then d else e) ds
        (if_rule P (precedes d.0 e.0) d e (λ b. k.0) (λ b. h)) k.1

  pub next_of-All :
      (P : Entry → Type 0) (es : List Entry) (e : Entry)
      → next_of waits_for precedes es ≡ some e
      → All P es
      → P e
  next_of-All P [] e h k = absurd (ground arith)
  next_of-All P (d ∷ ds) e h k =
      let same : first_of waits_for precedes d ds ≡ e = ground arith in
      subst P same (first_of-All P d ds k.0 k.1)

  -- What is mounted next is one of the remaining plugins, and waits for none of them.
  pub next-ready :
      (remaining : Map PluginInfo) (e : Entry)
      → next_of waits_for precedes (select (is_ready waits_for precedes remaining) remaining)
        ≡ some e
      → (is_ready waits_for precedes remaining e ≡ true) × (has e.0 remaining ≡ true)
  next-ready remaining e h =
      next_of-All
        (λ x. (is_ready waits_for precedes remaining x ≡ true) × (has x.0 remaining ≡ true)) _ e h
        (All-both _ _ (select (is_ready waits_for precedes remaining) remaining)
          (selected-All _ remaining)
          (All-select (λ x. has x.0 remaining ≡ true) _ remaining
            (has_entries remaining remaining (λ k g. g))))

  pub kahn-none :
      (fuel : ℕ) (remaining : Map PluginInfo)
      → next_of waits_for precedes (select (is_ready waits_for precedes remaining) remaining) ≡ none
      → kahn waits_for precedes (suc fuel) remaining ≡ ([], remaining)
  unfolding kahn
  kahn-none fuel remaining h = ground arith

  pub kahn-some :
      (fuel : ℕ) (remaining : Map PluginInfo) (e : Entry)
      → next_of waits_for precedes (select (is_ready waits_for precedes remaining) remaining)
        ≡ some e
      → kahn waits_for precedes (suc fuel) remaining ≡ (
        e ∷ (kahn waits_for precedes fuel (erase e.0 remaining)).0,
        (kahn waits_for precedes fuel (erase e.0 remaining)).1,
      )
  unfolding kahn
  kahn-some fuel remaining e h = ground arith

  -- A plugin mounted or left over was there, a plugin that was there is mounted or left over, and
  -- none is both or is mounted twice.
  pub kahn-keeps :
      (fuel : ℕ) (remaining : Map PluginInfo) (name : String)
      → has name remaining ≡ (
          mounted name (kahn waits_for precedes fuel remaining).0
          || has name (kahn waits_for precedes fuel remaining).1)
  unfolding kahn
  kahn-keeps zero remaining name = refl
  kahn-keeps (suc fuel) remaining name =
      elim (Option-cases
        (next_of waits_for precedes (select (is_ready waits_for precedes remaining) remaining))) [
          | inl p ↦ rw (kahn-none fuel remaining p) refl
          | inr (e, p) ↦ rw (kahn-some fuel remaining e p) (
              ground (
                arith,
                kahn-keeps fuel (erase e.0 remaining) name,
                has-erase e.0 name remaining,
                next-ready remaining e,
                eq_iff e.0 name,
              ))
        ]

  next_of-none : (es : List Entry) → next_of waits_for precedes es ≡ none → es ≡ []
  next_of-none [] h = refl
  next_of-none (e ∷ es) h = absurd (ground arith)

  remaining_blocked :
      (remaining : Map PluginInfo)
      → next_of waits_for precedes (select (is_ready waits_for precedes remaining) remaining) ≡ none
      → All (λ e. any (λ d. has d remaining) (waits_for e.1) ≡ true) remaining
  unfolding is_ready
  remaining_blocked remaining h = none_selected _ remaining (next_of-none _ h)

  -- With fuel for every plugin, each plugin that the loop leaves over waits for one left over.
  pub kahn-stuck :
      (fuel : ℕ) (remaining : Map PluginInfo)
      → length remaining ≤ fuel
      → let left = (kahn waits_for precedes fuel remaining).1 in
        All (λ e. any (λ d. has d left) (waits_for e.1) ≡ true) left
  unfolding kahn is_ready
  kahn-stuck zero [] h = tt
  kahn-stuck zero (e ∷ m) h = absurd (omega arith)
  kahn-stuck (suc fuel) remaining h =
      elim (Option-cases
        (next_of waits_for precedes (select (is_ready waits_for precedes remaining) remaining))) [
          | inl p ↦ rw (kahn-none fuel remaining p) (remaining_blocked remaining p)
          | inr (e, p) ↦
              let r = next-ready remaining e p in
              rw (kahn-some fuel remaining e p) (
                kahn-stuck fuel (erase e.0 remaining)
                  (omega (arith, length-erase-lt e.0 remaining r.1)))
        ]
