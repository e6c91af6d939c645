-- ===== src/Lib.antt =====
-- A verification library of AgentBack: models of the parts of its packages that hold the logic of
-- agents, actors, streams and access, with the theorems that make them correct.
--
-- Parts, and the files that model them. Paths are from the root of the repository.
--
-- * packages/model-gateway, the policies around a call of a language model (ModelGateway/).
--   breaker.ts is ModelGateway/Breaker: `CircuitBreaker` is `Breaker`, its methods `state`,
--   `assert_closed`, `record_success`, `record_neutral` and `record_failure`, and the `guard` of
--   `breakerPolicy`. retry.ts is ModelGateway/Retry: `is_retryable`, `retry_after_ms` and `run`.
--   fallback.ts is ModelGateway/Fallback. accounting.ts and scope.ts are ModelGateway/Accounting:
--   `preflight`, `wrap_generate`, and the tap of `wrapStream` as `transform` and `end_stream`.
--   Accounting/Parallel lets the calls of one scope overlap: a call starts, and ends later.
--   How a call ends is an argument. A policy wraps the next one; each is modelled on its own.
-- * packages/actors, stateful entities with one turn at a time (Actors/). The runtime of
--   event-sourced-runtime.ts is the system of Actors/Runtime, whose steps are what runs between two
--   suspensions of a turn: `invoke`, `enter`, `initialise`, `dispatch`, `complete`, and `expire` for
--   the timer of deadlines.ts. It keeps the mailbox of `serialize` (Actors/Mailbox: a ticket is the
--   promise of one turn) and one stored record per identity (Actors/Store: the dedup map, the commit
--   and the journal). Actors/Json is the JSON check of in-memory-runtime.ts, Actors/Fingerprint its
--   command fingerprint, Actors/Identity the checks and the key of an address.
-- * packages/rest/src/resumable-streams.ts, `ResumableStream` (Streams/Stream): the ring of frames,
--   `push`, `attach`, `detach`, `dispose`, and the pump as events of a schedule; and
--   `ResumableStreamRegistry` (Streams/Registry): `reserve` with its `release`, `create`, `resume` and
--   `disposeAll`, with every order of requests and of what happens to their streams; that a request
--   creates one stream, while it holds its slot, is `create_in`, from rest.server.ts. It contains the
--   streams and steps them with `Streams.Stream.step`.
-- * packages/rest/src/file-response.ts (Files/): `parse_range_header` and `serve_file` are Files/Ranges,
--   on lists of character codes, with the numerals of Files/Decimals.
-- * packages/plugin/src/graph.ts, `sortByGraph` (Plugins/Graph).
-- * packages/authorization/src/resolver.ts, `defaultRoleVoter` and `runAuthorization` (Authorization).
-- * packages/mcp/src/events, `grantTtl` of subscriptions.ts and the store of in-memory-store.ts
--   (Subscriptions).
--
-- * packages/messaging/src/in-memory and job-deadlines.ts, the job queue of one process (Jobs/). The
--   store that queue and admin share is Jobs/Store (`enqueue`, `get`, `remove`), the admin Jobs/Admin
--   (`stats`, `drain`, `pause`, `resume`, `discard_stalled`). Jobs/Queue has `cancel`, `JobDeadlines`
--   (`abort`, `abandon`, `elapse`, `is_abandonment`) and the end of `runOne` (`conclude`, `finish`,
--   `settle`); Jobs/Worker its start (`run_one`), a round of `pump`, and the moves of a schedule.
--   Jobs/Worker/Rule is the rule by which a property of the queue survives every move.
-- * packages/context/src, how a binding is resolved (Injection/): resolution-session.ts is
--   Injection/Session, the scopes of context.ts and binding.ts are Injection/Scopes, resolver.ts and
--   `getValueOrPromise` are Injection/Resolver, `getValue` with its cache is Injection/Values.
-- * packages/core/src/lifecycle-registry.ts, with packages/context/src/binding-sorter.ts (Lifecycle/):
--   the groups of observers and their order are Lifecycle/Groups, `notifyGroups` and what is built on
--   it (`notify`, `stop_observers`, `start_observers`, `init_observers`) Lifecycle/Notify.
--
-- The actor runtime, the queue and the streams are step relations of their own; the registry of
-- observers resolves its observers through the container, which stands in Lifecycle/Notify as the
-- function `resolved` of a `World`.
--
-- Base holds what these share: lists and Boolean tests over native numbers, JavaScript's `Map` with
-- string keys as an association list in insertion order, and the result of a call that can fail.
-- Tests holds runs at concrete inputs.
--
-- Conventions. A thrown error is a value of `Result`. A promise that is waited for ends a step, so a
-- list of steps is a schedule, and a theorem over all lists of steps is one over all interleavings
-- of the suspended turns. Times are natural numbers of milliseconds and are arguments. Where the
-- source subtracts times, the model compares sums, or subtracts where the difference is positive.
--
-- Bounds and fuel. The attempts of a retry are counted down from `attempts`. The loop of the plugin
-- graph runs on fuel, the number of plugins that remain: each round mounts one, so at the end no
-- plugin that remains is ready. `getValue` runs on fuel, one for each level of nested resolutions: a
-- level puts one more binding on the stack, so the number of bindings and one more are enough. The
-- other loops are structural. A resumable stream keeps at
-- least one frame: with a cap of 0 the source throws on the empty ring.
--
-- Parameters. Schemas, handlers, providers, the transport of a stream, voters, `trim`,
-- observers, constructors and factories of the container, the order of strings,
-- `localeCompare`, `JSON.stringify`, `Number` (in whole milliseconds), `Date.parse`, the jitter and the clock are arguments or
-- fields of an environment.
--
-- Not modelled: the delivery of actor events to subscribers; the text of a stream's event id
-- (`parseEventId`); the durable actor runtimes; the repeat and the priority of a job, which its
-- adapter does not act on; in the container, values that are promises, events, views, interceptors
-- and method injection; metering, the event bus, the servers and the other packages.
-- Error texts are left out where only their kind matters.
pub mod Base
pub mod ModelGateway
pub mod Actors
pub mod Streams
pub mod Plugins
pub mod Authorization
pub mod Subscriptions
pub mod Jobs
pub mod Injection
pub mod Lifecycle
pub mod Files
pub mod Tests
