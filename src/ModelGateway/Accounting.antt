-- ===== src/ModelGateway/Accounting.antt =====
-- packages/model-gateway/src/accounting.ts and scope.ts: token budgets along the chain of ambient
-- scopes, and the usage event of each call. A chain lists a scope before its parent.
-- `wrap_generate` is a call that no other one overlaps; Accounting/Parallel lets calls overlap.
pub mod Budget
pub mod Parallel
pub mod Stream
use agentback.Base.{
  ℕ, ◌+◌, String, Bool, true, false, not, ◌&&◌, Option, none, some, List, [], ◌∷◌, ◌++◌, map, leb,
  if◌then◌else◌, Result, ok, err,
}
use agentback.ModelGateway.Errors.{ModelError, token_budget_exceeded}

pub record ModelScope : Type 0 where
  pub token_budget : Option ℕ
  pub tokens_spent : ℕ
  pub refused : Option ModelError

-- `undefined` outside a scope is the empty chain.
abbrev pub Chain : Type 0
Chain = List ModelScope

pub record ModelUsage : Type 0 where
  pub input_tokens : Option ℕ  -- inputTokens?.total
  pub output_tokens : Option ℕ  -- outputTokens?.total

abbrev pub or_zero : Option ℕ → ℕ
or_zero none = 0
or_zero (some n) = n

-- types.ts, totalTokens
unfoldable pub total_tokens : Option ModelUsage → ℕ
total_tokens none = 0
total_tokens (some u) = or_zero u.input_tokens + or_zero u.output_tokens

pub data Status : Type 0 where
  succeeded failed : Status

pub record UsageEvent : Type 0 where
  pub units : ℕ
  pub status : Status
  pub model : String

abbrev over_budget : ModelScope → Option ℕ → Option ModelError
over_budget s none = none
over_budget s (some budget) =
    if leb budget s.tokens_spent then some (token_budget_exceeded s.tokens_spent budget) else none

abbrev first : {A : Type 0} → Option A → Option A → Option A
first (some a) later = some a
first none later = later

-- `preflight` walks the chain: the error of the first scope whose budget is used up.
unfoldable pub preflight : Chain → Option ModelError
preflight [] = none
preflight (s ∷ parents) = first (over_budget s s.token_budget) (preflight parents)

-- `scope!.refused = err`
abbrev pub refuse : Chain → ModelError → Chain
refuse [] e = []
refuse (s ∷ parents) e = record s { refused = some e } ∷ parents

-- The loop of `settle` over the chain.
unfoldable pub spend : ℕ → Chain → Chain
spend tokens [] = []
spend tokens (s ∷ parents) =
    record s { tokens_spent = s.tokens_spent + tokens } ∷ spend tokens parents

abbrev pub event : Option ModelUsage → String → Status → UsageEvent
event usage label status = record { units = total_tokens usage; status = status; model = label }

-- A generated result: its usage, and the label that the fallback credited, if it did.
pub record Generated : Type 0 where
  pub usage : Option ModelUsage
  pub served : Option String

pub record Outcome : Type 0 where
  pub scope : Chain
  pub events : List UsageEvent  -- as handed to the meter
  pub result : Result ModelError Generated

abbrev or_label : String → Option String → String
or_label label none = label
or_label label (some served) = served

abbrev pub settle : Chain → String → Result ModelError Generated → Outcome
settle scope label (ok g) = record {
  scope = spend (total_tokens g.usage) scope;
  events = event g.usage (or_label label g.served) succeeded ∷ [];
  result = ok g;
}
settle scope label (err e) = record {
  scope = spend (total_tokens none) scope;
  events = event none label failed ∷ [];
  result = err e;
}

abbrev admitted : Chain → String → Result ModelError Generated → Option ModelError → Outcome
admitted scope label call none = settle scope label call
admitted scope label call (some e) = record { scope = refuse scope e; events = []; result = err e }

-- wrapGenerate: `call` is how doGenerate would end.
unfoldable pub wrap_generate : Chain → String → Result ModelError Generated → Outcome
unfolding preflight spend
wrap_generate scope label call = admitted scope label call (preflight scope)

-- The parts of a model's stream that the tap reads.
pub data Part : Type 0 where
  finish : Option ModelUsage → Part
  error text : Part

-- How the consumer ends it: to the end (`flush`), or by walking away (`cancel`), also after either.
pub data StreamEnd : Type 0 where
  flush cancel : StreamEnd

pub record Tap : Type 0 where
  pub usage : Option ModelUsage
  pub finished : Bool
  pub errored : Bool
  pub settled : Bool
  pub scope : Chain
  pub events : List UsageEvent

abbrev pub opened : Chain → Tap
opened scope = record {
  usage = none;
  finished = false;
  errored = false;
  settled = false;
  scope = scope;
  events = [];
}

abbrev keep_usage : Option ModelUsage → Option ModelUsage → Option ModelUsage
keep_usage (some u) old = some u
keep_usage none old = old

-- `transform`
unfoldable pub transform : Tap → Part → Tap
transform t (finish u) = record t { finished = true; usage = keep_usage u t.usage }
transform t error = record t { errored = true }
transform t text = t

-- The inner `finish(status)`.
unfoldable pub settle_once : String → Tap → Status → Tap
settle_once served t status = if t.settled then t else record t {
  settled = true;
  scope = spend (total_tokens t.usage) t.scope;
  events = t.events ++ event t.usage served status ∷ [];
}

unfoldable pub end_stream : String → Tap → StreamEnd → Tap
unfolding settle_once
end_stream served t flush =
    settle_once served t (if t.finished && not t.errored then succeeded else failed)
end_stream served t cancel = settle_once served t failed
