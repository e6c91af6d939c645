-- ===== src/ModelGateway/Accounting/Stream.antt =====
-- The tap on a streamed answer: however the stream ends, and however often, it is settled once.
use agentback.Base.{
  ◌≡◌, refl, subst, String, Bool, true, false, not, ◌&&◌, ◌||◌, Option, none, some, List, [], ◌∷◌,
  arith, any, if◌then◌else◌,
}
use agentback.ModelGateway.Accounting.{
  ModelUsage, Chain, Part, finish, error, text, StreamEnd, flush, cancel, Status, succeeded, failed,
  event, Tap, opened, total_tokens, spend, transform, settle_once, end_stream,
}

pub transform_all : Tap → List Part → Tap
transform_all t [] = t
transform_all t (p ∷ ps) = transform_all (transform t p) ps

pub end_all : String → Tap → List StreamEnd → Tap
end_all served t [] = t
end_all served t (e ∷ es) = end_all served (end_stream served t e) es

-- What the stream said, read off its parts: the last usage that a `finish` carried.
abbrev pub last_usage : Option ModelUsage → List Part → Option ModelUsage
last_usage u [] = u
last_usage u (finish (some v) ∷ ps) = last_usage (some v) ps
last_usage u (finish none ∷ ps) = last_usage u ps
last_usage u (error ∷ ps) = last_usage u ps
last_usage u (text ∷ ps) = last_usage u ps

abbrev pub is_finish : Part → Bool
is_finish (finish u) = true
is_finish _ = false

abbrev pub is_error : Part → Bool
is_error error = true
is_error _ = false

-- A stream succeeded if it was read to its end, which had a `finish` and no error.
abbrev pub status_of : StreamEnd → List Part → Status
status_of flush ps = if any is_finish ps && not (any is_error ps) then succeeded else failed
status_of cancel ps = failed

abbrev Read : Tap → List Part → Tap → Type 0
Read t ps u =
    (u.usage ≡ last_usage t.usage ps)
    × (u.finished ≡ (t.finished || any is_finish ps))
    × (u.errored ≡ (t.errored || any is_error ps))
    × (u.settled ≡ t.settled)
    × (u.scope ≡ t.scope)
    × (u.events ≡ t.events)

transform_all-Read : (t : Tap) (ps : List Part) → Read t ps (transform_all t ps)
unfolding transform_all transform
transform_all-Read t [] = ground arith
transform_all-Read t (finish none ∷ ps) =
    ground (arith, transform_all-Read (transform t (finish none)) ps)
transform_all-Read t (finish (some u) ∷ ps) =
    ground (arith, transform_all-Read (transform t (finish (some u))) ps)
transform_all-Read t (error ∷ ps) = ground (arith, transform_all-Read (transform t error) ps)
transform_all-Read t (text ∷ ps) = ground (arith, transform_all-Read (transform t text) ps)

end_all-settled :
    (served : String) (t : Tap) (es : List StreamEnd) → t.settled ≡ true → end_all served t es ≡ t
unfolding end_all end_stream settle_once
end_all-settled served t [] h = refl
end_all-settled served t (flush ∷ es) h = ground (arith, end_all-settled served t es h)
end_all-settled served t (cancel ∷ es) h = ground (arith, end_all-settled served t es h)

settled_once :
    (scope : Chain) (served : String) (ps : List Part) (st : Status) (es : List StreamEnd)
    → let t = end_all served (settle_once served (transform_all (opened scope) ps) st) es in
      (t.scope ≡ spend (total_tokens (last_usage none ps)) scope)
      × (t.events ≡ event (last_usage none ps) served st ∷ [])
unfolding settle_once
settled_once scope served ps st es =
    let t = transform_all (opened scope) ps in
    let r = transform_all-Read (opened scope) ps in
    ground (arith, r, end_all-settled served (settle_once served t st) es (ground (arith, r)))

-- Whatever parts the stream had and however it was ended, also more than once, its usage is charged
-- to the scopes once and the meter is told of it once, with the status of the first end.
pub end_all-once :
    (scope : Chain) (served : String) (ps : List Part) (e : StreamEnd) (es : List StreamEnd)
    → let t = end_all served (transform_all (opened scope) ps) (e ∷ es) in
      (t.scope ≡ spend (total_tokens (last_usage none ps)) scope)
      × (t.events ≡ event (last_usage none ps) served (status_of e ps) ∷ [])
unfolding end_all end_stream
end_all-once scope served ps flush es =
    let t = transform_all (opened scope) ps in
    let st = if t.finished && not t.errored then succeeded else failed in
    let r = transform_all-Read (opened scope) ps in
    let same : st ≡ status_of flush ps = ground (arith, r) in
    let u = end_all served (settle_once served t st) es in
    subst
      (λ k.
        (u.scope ≡ spend (total_tokens (last_usage none ps)) scope)
        × (u.events ≡ event (last_usage none ps) served k ∷ []))
      same (settled_once scope served ps st es)
end_all-once scope served ps cancel es = settled_once scope served ps failed es
