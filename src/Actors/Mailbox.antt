-- ===== src/Actors/Mailbox.antt =====
-- The mailbox of `EventSourcedActorRuntime.serialize`, packages/actors/src/event-sourced-runtime.ts:
-- one promise per turn, and `tails`, which holds the last one of each identity. A ticket stands for
-- the promise `current` of one turn; tickets are numbered in the order of arrival.
pub mod Exclusion
use agentback.Base.{ℕ, ◌+◌, String, Bool, true, false, Option, none, some, [], ◌==◌, if◌then◌else◌}
use agentback.Base.Map.{Map, lookup, insert, erase}

pub record Ticket : Type 0 where
  pub key : String
  pub previous : Option ℕ
  pub acquired : Bool  -- `await previous` is over
  pub released : Bool

pub record Mailbox : Type 0 where
  pub tails : Map ℕ
  pub tickets : ℕ → Option Ticket
  pub next : ℕ  -- the number of the next ticket

abbrev pub empty : Mailbox
empty = record { tails = []; tickets = λ i. none; next = 0 }

abbrev pub update : (ℕ → Option Ticket) → ℕ → Ticket → ℕ → Option Ticket
update tickets i t j = if i == j then some t else tickets j

-- Up to `await previous`.
unfoldable pub arrive : Mailbox → String → Mailbox
arrive m key = record {
  tails = insert key m.next m.tails;
  tickets =
      update m.tickets m.next
        (record { key = key; previous = lookup key m.tails; acquired = false; released = false });
  next = m.next + 1;
}

abbrev pub is_released : Option Ticket → Bool
is_released none = false
is_released (some t) = t.released

-- Whether the promise that a ticket awaits has been resolved.
abbrev pub is_free : Mailbox → Option ℕ → Bool
is_free m none = true
is_free m (some p) = is_released (m.tickets p)

abbrev pub is_acquired : Option Ticket → Bool
is_acquired none = false
is_acquired (some t) = t.acquired

abbrev acquire_ticket : Mailbox → ℕ → Option Ticket → Mailbox
acquire_ticket m i none = m
acquire_ticket m i (some t) =
    if is_free m t.previous
    then record m { tickets = update m.tickets i (record t { acquired = true }) }
    else m

-- The turn goes on, if what it awaits allows it.
unfoldable pub acquire : Mailbox → ℕ → Mailbox
acquire m i = acquire_ticket m i (m.tickets i)

-- `if (this.tails.get(key) === current) this.tails.delete(key)`
abbrev pub drop_tail : Map ℕ → String → ℕ → Option ℕ → Map ℕ
drop_tail tails key i none = tails
drop_tail tails key i (some j) = if j == i then erase key tails else tails

abbrev release_ticket : Mailbox → ℕ → Option Ticket → Mailbox
release_ticket m i none = m
release_ticket m i (some t) =
    if t.acquired
    then record m {
      tails = drop_tail m.tails t.key i (lookup t.key m.tails);
      tickets = update m.tickets i (record t { released = true });
    }
    else m

-- The `finally` of a turn that has run.
unfoldable pub release : Mailbox → ℕ → Mailbox
release m i = release_ticket m i (m.tickets i)

pub data Move : Type 0 where
  arrives : String → Move
  acquires releases : ℕ → Move

unfoldable pub step : Mailbox → Move → Mailbox
unfolding arrive acquire release
step m (arrives key) = arrive m key
step m (acquires i) = acquire m i
step m (releases i) = release m i
