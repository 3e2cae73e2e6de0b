-- ===== src/Lib.antt =====
-- The multi-agent ad optimizer: agents propose changes to advertising campaigns, a critic withholds
-- the proposals that cannot stand together, people approve or reject the rest, and what was approved
-- goes to the ad networks through one guarded tool layer. Paths below are under
-- backend/src/adoptimizer.
--
-- Parts and files:
--
-- Domain (Domain, Domain/Enums, Domain/Access) is domain/enums.py. An enumeration is a data type with
-- the members of the source and a function for the texts that the program stores.
--
-- Security (Security, Security/Separation, Security/Tokens) is core/security.py: the permission matrix
-- and `TokenService`. Signing a token and checking a signature are calls of the JWT library: they are
-- fields of the record `Jwt`, and what the library promises is a hypothesis.
--
-- Tools is tools/spec.py (Tools/Spec, with the `register` of tools/registry.py) and tools/executor.py
-- (Tools/Executor, Tools/Call). The object `ToolExecutor` is the record `Executor`; `call` takes the
-- executor and the world and returns the result with the next ones. The stages of `ToolExecutor.call`
-- are `call`, `charge`, `replay`, `validate` and `run_handler`, each ending in `finish`, the program's
-- `_finish`. Argument models and handlers are fields of a tool: functions that the theorems take as
-- they come. Tools/Finish, Tools/Interlock, Tools/Advance, Tools/Accounting, Tools/Kept and
-- Tools/Idempotency hold the proofs.
--
-- Critic is agents/critic.py: proposals and their ranking (Critic/Proposal), findings with the data of
-- their texts (Critic/Finding), Python's sets and sorting (Critic/Sets), the passes (Critic/Rules) and
-- `CriticAgent.run` (Critic/Review). A mutable set of suppressed ids is passed along. Floats are any
-- type with the operations of the record `Number`; nothing is assumed of their order, which leaves
-- room for rounding and NaN. The other files hold the proofs.
--
-- Actions is services/actions.py: the rows (Actions/Records), a monad over the session and the world
-- whose exceptions keep what was changed before them (Actions/Monad), `_push` (Actions/Push), `_apply`
-- and its branches (Actions/Apply), the public methods (Actions/Service). A row that is changed is
-- written back under its id, as the session's identity map does. The ad clients, the adapter registry,
-- the clock, `float(text)` and rounding are fields of `Env`. Actions/Frame, Actions/Gate,
-- Actions/Trail, Actions/Vouched, Actions/Once and Actions/Bulk hold the proofs. The service calls the
-- tool layer through `call`, with no agent and with a key made of the action's id.
--
-- Orchestrator is orchestrator/state.py and orchestrator/graph.py. The state's channels are a record
-- (Orchestrator/State), an agent's answer a record of options that `apply_update` merges with the
-- reducers of the schema. Orchestrator/Graph has the two executors: `invoke_sequential`, the loop of
-- `_invoke_sequential`, and `invoke_graph`, the walk along the edges that `_compile` gives to
-- LangGraph. The agents and the cancellation check are functions of the state and the world that the
-- theorems take as they come, with the hypothesis that the optimize agent alone counts iterations; the
-- critic's answer is `critic_update`. Orchestrator/Survivors, Orchestrator/Counting and
-- Orchestrator/Executors hold the proofs. The texts in a summary, its usage figures and its checks of
-- preflights are left out.
--
-- Budget is domain/budget.py. The arrays of `allocate` are a list of slots (Budget/Slots), the greedy
-- fill is Budget/Fill, `_apply_holds` and `allocate` up to the greedy plan are Budget/Holds, and its
-- end, the adoption of a solver's plan and the rounding to cents, is Budget/Rounded. Amounts are exact
-- whole numbers, in units in which both bounds of a budget are whole; the score of a campaign is given,
-- and so is what the solver answers. The texts of the reasons are left out. Budget/Bounds,
-- Budget/Conserve, Budget/Sums, Budget/Plan and Budget/Optimal hold the other proofs.
--
-- Auth is services/auth.py and repositories/users.py: the rows (Auth/Records), the repositories
-- (Auth/Repository), the password policy (Auth/Password), `AuthService` (Auth/Service). A method reads
-- and writes the two tables and may raise; what it wrote before stays, as the route commits after a
-- failed sign-in. Password hashing, token signing and `str.lower` are parameters, and a call is given
-- what it draws: the instant and fresh ids, which the tables may refuse. Auth/Moves has the sequences
-- of calls and what it takes for all of them to keep a statement; Auth/Sessions, Auth/Kept,
-- Auth/Rotation, Auth/Rows, Auth/Admins, Auth/Lockout, Auth/Locked and Auth/SignOut hold the proofs.
--
-- Scheduling is services/scheduling.py and repositories/scheduling.py: the missed-run policy
-- (Scheduling/Plan), watermarks and leases (Scheduling/Leases) and the ticks (Scheduling/Tick). The
-- ingest of a window is a function that the theorems take as it comes; it hands back the tables where
-- it raises too, and `_unit` rolls them back. What the release of a lease writes is never lost. The two statements of a claim are one step, which the database's row lock and the
-- primary key make of them. Scheduling/Exclusion and Scheduling/Outcomes hold the proofs. The status
-- listing and the endless loop around a pass are left out.
--
-- Limits is the rate limiter of core/middleware.py: Limits/Window has `allow` and the pruning of stale
-- windows, Limits/Bound the proofs.
--
-- Caching is `InMemoryCache` of infra/cache.py: Caching/Store has its operations, Caching/Forgets
-- compares it with a map that neither expires nor evicts, Caching/Size bounds it through every method
-- that writes its store. The Redis client is left out.
--
-- Ingest is services/ingest.py with the queries of repositories/campaigns.py and
-- repositories/ingest.py that it makes: the rows (Ingest/Records), the queries and `upsert_daily`
-- (Ingest/Tables), the checks of a record and `_resolve_campaign` (Ingest/Attribution), `_attribute`
-- and `_reject_duplicate_slots` (Ingest/Placing), `ingest` (Ingest/Books, Ingest/Batch), and `targets`
-- and `pull` with the registry of feeds (Ingest/Source). A table is the list of its rows; an exception
-- comes without tables, as the caller rolls back. Floats, the printing of dates and numbers, the
-- drawing of ids and what a feed answers are parameters. Ingest/Scheduled hands `pull` to the
-- scheduler of Scheduling as its ingest; Ingest/Accounts, Ingest/Upsert, Ingest/Written,
-- Ingest/Duplicates, Ingest/Disposed, Ingest/Report, Ingest/Again, Ingest/Resolved, Ingest/Unanimous
-- and Ingest/Addressed hold the proofs. The rounding of fractional counts and the counters of
-- Prometheus are left out.
--
-- Llm is llm/gateway.py with llm/ledger.py: Llm/Records has its data, Llm/Gateway `complete` with the
-- budget guard, the cache, the retries, the fallback to the mock model, the ledger and the tallies per
-- run. The provider is a function of the world, the mock model one of the request, the cache a state
-- with two operations; the attempts are a recursion on the number that is left. Llm/Attempts,
-- Llm/Capped and Llm/Spending hold the proofs. The waits between attempts, the semaphore, metrics and
-- structured output are left out.
--
-- Events is orchestrator/events.py: Events/Bus has the operations of `EventBus`, the two halves of
-- `publish` apart, since other tasks may run while the sink is awaited, and `stream` as a function of
-- what its waits come back with. Events/Order, Events/Runs (any interleaving, as a list of operations)
-- and Events/Queues hold the proofs. The sink and the times of events are left out.
--
-- Prelude holds what all parts share: Boolean tests, lists measured by native numbers, Python's
-- dictionaries as association lists in insertion order, texts. Files named Examples apply the theorems
-- to concrete data.
--
-- Bounds and fuel: loops are recursions on lists or on the program's own number of rounds. The walk
-- along the graph takes the recursion limit that the program passes. Integers are Python's, hence
-- unbounded; clock readings are natural numbers. The greedy fill stops at a remainder `epsilon`, which
-- the theorems take as it comes; the program's is 1e-9.
--
-- Not modelled: HTTP routes, the database (a write fails here only where a key or an email is taken),
-- LLM providers, the ad adapters, the warehouse, the numeric rules of domain other than the budget's,
-- the service that keeps the rows of runs, and the agents other than the critic.
pub mod Prelude
pub mod Domain
pub mod Tools
pub mod Critic
pub mod Security
pub mod Actions
pub mod Orchestrator
pub mod Budget
pub mod Auth
pub mod Scheduling
pub mod Limits
pub mod Caching
pub mod Ingest
pub mod Llm
pub mod Events
