-- ===== src/Streams/Registry/Cap.antt =====
-- The cap on live streams, and the slots that requests hold.
use agentback.Base.{
  ℕ, zero, suc, ◌+◌, ◌≤◌, ◌≡◌, refl, String, Option, none, some, List, [], ◌∷◌, ◌++◌, length,
  get_elem?, set, arith, if_rule,
}
use agentback.Base.Map.{Map, lookup, insert, erase, length-insert-le, length-erase-le}
use agentback.Streams.Stream.{Transport, open_stream, Event, stops, step}
use agentback.Streams.Registry.{
  StreamScope, Live, Slot, claimed, opened, released, Registry, new_registry, reserve, release_held,
  release, create_in, create, advance_found, advance, dispose_each, Move, reserves, creates,
  releases, advances, stops_all, or_full, move, run,
}

-- Slots that are held, and those among them that have no stream yet.
abbrev pub held : Slot → ℕ
held claimed = 1
held opened = 1
held released = 0

abbrev pub waiting : Slot → ℕ
waiting claimed = 1
waiting opened = 0
waiting released = 0

unfoldable pub count : (Slot → ℕ) → List Slot → ℕ
count weight [] = 0
count weight (s ∷ slots) = weight s + count weight slots

count-snoc :
    (weight : Slot → ℕ) (slots : List Slot) (s : Slot)
    → count weight (slots ++ s ∷ []) ≡ count weight slots + weight s
unfolding count
count-snoc weight [] s = omega arith
count-snoc weight (t ∷ slots) s = omega (arith, count-snoc weight slots s)

-- Writing a slot trades what it counted for what it counts.
count-set :
    (weight : Slot → ℕ) (slots : List Slot) (i : ℕ) (s t : Slot)
    → get_elem? slots i ≡ some s
    → count weight (set slots i t) + weight s ≡ count weight slots + weight t
unfolding count
count-set weight [] i s t h = absurd (ground arith)
count-set weight (u ∷ slots) zero s t h = ground arith
count-set weight (u ∷ slots) (suc i) s t h = omega (arith, count-set weight slots i s t h)

waiting_held : (slots : List Slot) → count waiting slots ≤ count held slots
unfolding count
waiting_held [] = omega arith
waiting_held (claimed ∷ slots) = omega (arith, waiting_held slots)
waiting_held (opened ∷ slots) = omega (arith, waiting_held slots)
waiting_held (released ∷ slots) = omega (arith, waiting_held slots)

-- Slots without a stream leave room for one, and the counter is the number of held slots.
abbrev pub Capped : ℕ → Registry → Type 0
Capped max_streams r =
    (r.max_live_streams ≡ max_streams)
    × (length r.streams + count waiting r.slots ≤ max_streams)
    × (r.reserved ≡ count held r.slots)

reserve-Capped :
    (max_streams : ℕ) (r : Registry)
    → Capped max_streams r
    → Capped max_streams (or_full r (reserve r))
unfolding reserve
reserve-Capped max_streams r (same, room, held_slots) =
    let fewer = waiting_held r.slots in
    let more = count-snoc waiting r.slots claimed in
    let more_held = count-snoc held r.slots claimed in ground (arith, fewer, more, more_held)

release_held-Capped :
    (max_streams : ℕ) (r : Registry) (i : ℕ) (s : Option Slot)
    → get_elem? r.slots i ≡ s
    → Capped max_streams r
    → Capped max_streams (release_held r i s)
release_held-Capped max_streams r i none h v = v
release_held-Capped max_streams r i (some released) h v = v
release_held-Capped max_streams r i (some claimed) h (same, room, held_slots) =
    let fewer = count-set waiting r.slots i claimed released h in
    let fewer_held = count-set held r.slots i claimed released h in
    (same, omega (arith, fewer), omega (arith, fewer_held))
release_held-Capped max_streams r i (some opened) h (same, room, held_slots) =
    let fewer = count-set waiting r.slots i opened released h in
    let fewer_held = count-set held r.slots i opened released h in
    (same, omega (arith, fewer), omega (arith, fewer_held))

create_in-Capped :
    (max_streams : ℕ) (r : Registry) (i : ℕ) (id : String) (scope : StreamScope) (max_events : ℕ)
    (s : Option Slot)
    → get_elem? r.slots i ≡ s
    → Capped max_streams r
    → Capped max_streams (create_in r i id scope max_events s)
unfolding create
create_in-Capped max_streams r i id scope max_events none h v = v
create_in-Capped max_streams r i id scope max_events (some released) h v = v
create_in-Capped max_streams r i id scope max_events (some opened) h v = v
create_in-Capped max_streams r i id scope max_events (some claimed) h (same, room, held_slots) =
    let fewer = count-set waiting r.slots i claimed opened h in
    let as_many = count-set held r.slots i claimed opened h in
    let live : Live = record { scope = scope; stream = open_stream max_events } in
    let grown = length-insert-le id live r.streams in
    (same, omega (arith, fewer, grown), omega (arith, as_many))

length-insert_present :
    (k : String) (v : Live) (m : Map Live) {w : Live}
    → lookup k m ≡ some w
    → length (insert k v m) ≡ length m
unfolding lookup insert
length-insert_present k v [] h = absurd (ground arith)
length-insert_present k v ((j, u) ∷ m) {w = w} h =
    ground (arith, length-insert_present k v m {w = w})

-- What happens to a stream never adds one.
module _ (takes : Transport) where
  advance_found-le :
      (e : Event) (id : String) (streams : Map Live) (found : Option Live)
      → lookup id streams ≡ found
      → length (advance_found takes e id streams found) ≤ length streams
  advance_found-le e id streams none h = omega arith
  advance_found-le e id streams (some live) h =
      let s = step takes live.stream e in
      let next : Live = record { scope = live.scope; stream = s } in
      if_rule (λ m. length m ≤ length streams) s.disposed (erase id streams)
        (insert id next streams) (λ _. length-erase-le id streams)
        (λ _. omega (arith, length-insert_present id next streams h))

  advance-le :
      (e : Event) (id : String) (streams : Map Live)
      → length (advance takes e id streams) ≤ length streams
  unfolding advance
  advance-le e id streams = advance_found-le e id streams (lookup id streams) refl

  dispose_each-le :
      (entries streams : Map Live) → length (dispose_each takes entries streams) ≤ length streams
  unfolding dispose_each
  dispose_each-le [] streams = omega arith
  dispose_each-le ((id, live) ∷ entries) streams =
      let one = advance-le stops id streams in
      let others = dispose_each-le entries (advance takes stops id streams) in
      omega (arith, one, others)

  move-Capped :
      (max_streams : ℕ) (r : Registry) (m : Move)
      → Capped max_streams r
      → Capped max_streams (move takes r m)
  unfolding move create release
  move-Capped max_streams r reserves v = reserve-Capped max_streams r v
  move-Capped max_streams r (creates i id scope max_events) v =
      create_in-Capped max_streams r i id scope max_events (get_elem? r.slots i) refl v
  move-Capped max_streams r (releases i) v =
      release_held-Capped max_streams r i (get_elem? r.slots i) refl v
  move-Capped max_streams r (advances id e) (same, room, held_slots) =
      (same, omega (arith, advance-le e id r.streams), held_slots)
  move-Capped max_streams r stops_all (same, room, held_slots) =
      (same, omega (arith, dispose_each-le r.streams r.streams), held_slots)

  run_from-Capped :
      (max_streams : ℕ) (moves : List Move) (r : Registry)
      → Capped max_streams r
      → Capped max_streams (run takes r moves)
  unfolding run
  run_from-Capped max_streams [] r v = v
  run_from-Capped max_streams (m ∷ moves) r v =
      run_from-Capped max_streams moves (move takes r m) (move-Capped max_streams r m v)

  -- However requests reserve, create and release, and whatever happens to the streams, a new registry
  -- never has more live streams, together with the held slots that have no stream yet, than its cap;
  -- and its counter of reserved slots is the number of slots that are held.
  pub run-Capped :
      (max_streams : ℕ) (moves : List Move)
      → Capped max_streams (run takes (new_registry max_streams) moves)
  unfolding count
  run-Capped max_streams moves =
      run_from-Capped max_streams moves (new_registry max_streams) (refl, omega arith, refl)
