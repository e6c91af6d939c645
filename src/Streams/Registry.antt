-- ===== src/Streams/Registry.antt =====
-- `ResumableStreamRegistry` of packages/rest/src/resumable-streams.ts, and how `invokeRoute` of
-- packages/rest/src/rest.server.ts uses it: a request reserves a slot, may create one stream while it
-- holds the slot, and releases it. A slot is the closure that `reserve` returns, by its place.
pub mod Cap
pub mod Ownership
use agentback.Base.{
  ℕ, ◌+◌, ◌-◌, String, Bool, true, false, not, ◌&&◌, Option, none, some, List, [], ◌∷◌, ◌++◌, ◌==◌,
  str_eq, length, get_elem?, set, leb, if◌then◌else◌, Result, ok, err,
}
use agentback.Base.Map.{Map, lookup, insert, erase}
use agentback.Streams.Stream.{Transport, Stream, open_stream, can_resume, Event, stops, step}

-- Who may rejoin a stream: the controller, by a number, its method, and the principal.
pub record StreamScope : Type 0 where
  pub ctor : ℕ
  pub method_name : String
  pub owner : Option String

pub record Live : Type 0 where
  pub scope : StreamScope
  pub stream : Stream

-- `claimed` has no stream yet, `opened` has its stream, and `released` is no longer held.
pub data Slot : Type 0 where
  claimed opened released : Slot

pub record Registry : Type 0 where
  pub streams : Map Live
  pub reserved : ℕ
  pub slots : List Slot
  pub max_live_streams : ℕ

abbrev pub new_registry : ℕ → Registry
new_registry max_live_streams = record {
  streams = [];
  reserved = 0;
  slots = [];
  max_live_streams = max_live_streams;
}

-- reserve; `none` is a registry that is full.
unfoldable pub reserve : Registry → Option Registry
reserve r =
    if leb r.max_live_streams (length r.streams + r.reserved)
    then none
    else some (record r { reserved = r.reserved + 1; slots = r.slots ++ claimed ∷ [] })

abbrev pub release_held : Registry → ℕ → Option Slot → Registry
release_held r i none = r
release_held r i (some released) = r
release_held r i (some claimed) = record r {
  reserved = r.reserved - 1;
  slots = set r.slots i released;
}
release_held r i (some opened) = record r {
  reserved = r.reserved - 1;
  slots = set r.slots i released;
}

-- What `reserve` returned; a second call does nothing.
unfoldable pub release : Registry → ℕ → Registry
release r i = release_held r i (get_elem? r.slots i)

-- create, under the id that `randomUUID` gave
unfoldable pub create : Registry → String → StreamScope → ℕ → Registry
unfolding insert
create r id scope max_events = record r {
  streams = insert id (record { scope = scope; stream = open_stream max_events }) r.streams;
}

-- A request creates its stream while it holds its slot.
abbrev pub create_in : Registry → ℕ → String → StreamScope → ℕ → Option Slot → Registry
create_in r i id scope max_events (some claimed) = record (create r id scope max_events) {
  slots = set r.slots i opened;
}
create_in r i id scope max_events _ = r

-- A stream that has been disposed of is taken out.
abbrev pub keep : String → StreamScope → Stream → Map Live → Map Live
keep id scope s streams =
    if s.disposed
    then erase id streams
    else insert id (record { scope = scope; stream = s }) streams

abbrev pub advance_found : Transport → Event → String → Map Live → Option Live → Map Live
advance_found takes e id streams none = streams
advance_found takes e id streams (some live) = keep id live.scope (step takes live.stream e) streams

-- What happens to the stream of an id.
unfoldable pub advance : Transport → Event → String → Map Live → Map Live
unfolding step lookup insert erase
advance takes e id streams = advance_found takes e id streams (lookup id streams)

-- disposeAll, over the streams that are there when it starts
unfoldable pub dispose_each : Transport → Map Live → Map Live → Map Live
unfolding advance
dispose_each takes [] streams = streams
dispose_each takes ((id, live) ∷ entries) streams =
    dispose_each takes entries (advance takes stops id streams)

abbrev pub same_owner : Option String → Option String → Bool
same_owner none none = true
same_owner (some a) (some b) = str_eq a b
same_owner _ _ = false

abbrev pub same_scope : StreamScope → StreamScope → Bool
same_scope a b =
    a.ctor == b.ctor && str_eq a.method_name b.method_name && same_owner a.owner b.owner

pub data Refused : Type 0 where
  resume_refused : Refused

abbrev pub rejoin : Option Live → ℕ → StreamScope → Result Refused (Option (Live × ℕ))
rejoin none seq scope = err resume_refused
rejoin (some live) seq scope =
    if can_resume live.stream seq && same_scope live.scope scope
    then ok (some (live, seq))
    else err resume_refused

-- resume, of what `parseEventId` gave.
unfoldable pub resume :
    Registry → Option (String × ℕ) → StreamScope → Result Refused (Option (Live × ℕ))
unfolding lookup can_resume
resume r none scope = ok none
resume r (some (id, seq)) scope = rejoin (lookup id r.streams) seq scope

pub data Move : Type 0 where
  reserves : Move
  creates : ℕ → String → StreamScope → ℕ → Move
  releases : ℕ → Move
  advances : String → Event → Move
  stops_all : Move

abbrev pub or_full : Registry → Option Registry → Registry
or_full r none = r
or_full r (some s) = s

module _ (takes : Transport) where
  unfoldable pub move : Registry → Move → Registry
  unfolding reserve create release advance dispose_each
  move r reserves = or_full r (reserve r)
  move r (creates i id scope max_events) = create_in r i id scope max_events (get_elem? r.slots i)
  move r (releases i) = release r i
  move r (advances id e) = record r { streams = advance takes e id r.streams }
  move r stops_all = record r { streams = dispose_each takes r.streams r.streams }

  unfoldable pub run : Registry → List Move → Registry
  unfolding move
  run r [] = r
  run r (m ∷ ms) = run (move r m) ms
