-- ===== src/Lib.antt =====
-- fastcoder: an agent that takes a story (a request for a change of software) through analysis,
-- planning, coding, review, tests, deployment and verification. The library models the core that
-- decides what happens to a story, what is kept of it on disk, the choice of a model and the circuit
-- breakers of the model providers, the order of the tasks of a plan, the graph of imports, the
-- recovery from errors, the memory, the policy of the quality gates, and the rate limiter of the API.
--
-- The parts and their files (paths from the repository's root):
--
--   Base                shared names, Boolean tests, lists and dictionaries. A Python dict is an
--                       association list in insertion order (Base/Dict): `get`, `put`, `remove`.
--   Story               src/fastcoder/types/: the story, its iterations and their reports.
--   Json                the values that json writes and reads, with datetimes written as texts.
--   StateMachine        src/fastcoder/orchestrator/state_machine.py. `transition` and `rollback`
--                       return the machine, the story and what was raised. Diagram has the
--                       transitions as a relation, History the recorded history, Completion how a
--                       story comes to `done`, Rollback the rollbacks.
--   Retry               src/fastcoder/orchestrator/retry_policy.py: attempts and breakers for each
--                       story and stage. Attempts, Breaker and Backoff are about what is recorded,
--                       when the breaker opens, and how long a retry waits.
--   Approval            src/fastcoder/orchestrator/approval_gate.py: the gates a story waits at.
--                       Decisions has the operations as a list, and the last decision on a gate as
--                       the abstract view; Checks is about repeated checks and what is stored.
--   Convergence         src/fastcoder/orchestrator/convergence_detector.py. Oscillation, Trends and
--                       Meaning read the verdict off the iterations themselves.
--   Circuit             src/fastcoder/llm/circuit_breaker.py. States is about any sequence of calls,
--                       Recovery about opening and healing, Registry about all the providers.
--   Wal                 src/fastcoder/orchestrator/wal.py: the write-ahead log. A file is its lines and
--                       what follows the last line feed. Entries has the entries as lines and the laws
--                       of json and datetime (`IsCodec`); Grouping, Recovery, Truncation and Damage are
--                       about the entries of each story, what is recovered, what a truncation keeps,
--                       and damaged lines, which Lines describes. The values of an object are
--                       texts.
--   RateLimiter         src/fastcoder/api/rate_limiter.py: a bucket of tokens for each client. Buckets,
--                       Cleanup, Soundness, Storing and Steps say what the operations do to what a
--                       client may still use, and Bound is about any sequence of calls.
--   Checkpoint          src/fastcoder/orchestrator/checkpoint.py: a directory of one file for each story.
--                       Storing is about any sequence of saves and deletions, Cleaning about the cleanup.
--   GateTimeout         src/fastcoder/orchestrator/gate_timeout.py: the deadlines of the gates. Deadlines
--                       has the calls as a list, and the last call on a gate as the abstract view.
--   Router              src/fastcoder/llm/router.py: the model for a request. Calls has the cost and the
--                       fallback, Complete the completion; Candidates and Selection are about the choice
--                       of a model, Configured and Fallback about what a fallback returns, Failure about
--                       the completion.
--   Errors              src/fastcoder/errors/classifier.py, and in Recovery src/fastcoder/errors/recovery.py.
--                       Escalation is about the fixes that are remembered and the attempts that escalate.
--   Quality             src/fastcoder/quality/__init__.py: the policy of the quality gates. Templates has
--                       the policies that are built in, Policy is about what their evaluation says.
--   Memory              src/fastcoder/memory/__init__.py: what is remembered, in tiers. Ranking is about
--                       the sort, Storing about what is evicted, Bound about any sequence of operations.
--   Codebase            src/fastcoder/codebase/dependency_graph.py: the files and their imports. Impact has
--                       the search for impacted files and Impact/Loop and Impact/Reachable its meaning,
--                       Cycles the search for cycles and Cycles/Acyclic, Meet, Search and Visit its meaning,
--                       and Backward is about the backward references.
--   Planner             src/fastcoder/planner/__init__.py: the topological sort of the tasks, and in Fallback
--                       the plan that is made without a model. Counts, Start, Order, Round and Loop lead to
--                       Sorting, which says what the sort returns.
--   Orchestrator        src/fastcoder/orchestrator/__init__.py. `World` is the story with the state
--                       machine, the retry policy and the gates; a method is an action of `M`, which
--                       changes the world and returns or raises. Stages, Delivery and Lifecycle hold
--                       the methods (`_run_analysis` is `run_analysis`, and so on). Keeps, Outcomes and
--                       Ends are rules for reasoning about them; Failure, Coding, Budget, Deployment
--                       and Scans are about the workflow, the coding loop, the cost budget, the
--                       approval of a deployment, and the scans.
--
-- The orchestrator calls the other parts: each move of a story is `StateMachine.transition`, each
-- round of the coding loop asks `Convergence.check`, failed tests ask `Retry.should_retry` and are
-- recorded by `Retry.record_attempt`, and a deployment asks `Approval.check_gate`. The router asks and
-- tells the breakers of `Circuit.Registry`; the timeouts are kept by the keys of `Approval`; a
-- checkpoint is taken of a `Story`, with its state written as the log writes it. What is not code of
-- these files is an argument: the components that the orchestrator is given (`Context`), what the
-- callbacks of the state machine do (`Behaviour`), what the model providers and the runners of the
-- quality gates answer, the imports that are found in a file, json and the like (`Codec`), regular
-- expressions (`Texts`), and the clock. Hypotheses on them are `KeepsState` (a component leaves the
-- story's state and identity to the orchestrator), `KeepsStory` (so does a callback) and `IsCodec` of
-- Wal and of Checkpoint (what is written can be read, where a datetime inside of a checkpoint is read
-- as its text). The tasks of a plan have distinct ids and the files that `build` finds distinct paths
-- (`AreDistinct`), and the providers of a configuration distinct names (`AreNamedApart`), where a
-- theorem says so. Whether pydantic lets an iteration take a field that it does not declare is the
-- field `stores_results` of `Context`.
--
-- Numbers: times are whole microseconds, costs whole micro-dollars, scores whole millionths, backoffs
-- whole seconds and confidences hundredths, where the code has floats; a token of the rate limiter is
-- 60 000 000 parts, so that its refill is exact. The coding loop recurs on the rounds that are left,
-- `max_iterations` less the iterations that the story has, which is how often the code's loop can run.
-- Three loops have fuel: the search for impacted files as much as there are changed files and entries
-- `imported_by`, since it takes each of them at most once; the search for cycles as much as there are
-- files, which bounds its depth, since each is entered once; and the topological sort as much as there
-- are tasks, since each is queued at most once. That this is enough is proved with what they return.
--
-- Not modelled: logs and the texts of messages, asynchrony within one story (each `await` is a call),
-- the orders of stories that are processed at once, Python's limit on the depth of a recursion,
-- changes that a listener of the events makes to the story, failures of reads and writes, the prompts
-- and the answers of the models, the query and consolidation of the memory, the summaries of
-- checkpoints, and the parts that are not named above: the agents, the model providers, the tools, the
-- rest of the code index, the HTTP API and authentication.
pub mod Base
pub mod Story
pub mod Json
pub mod StateMachine
pub mod Retry
pub mod Errors
pub mod Quality
pub mod Memory
pub mod Circuit
pub mod Router
pub mod Codebase
pub mod Planner
pub mod Convergence
pub mod Approval
pub mod GateTimeout
pub mod Orchestrator
pub mod Wal
pub mod Checkpoint
pub mod RateLimiter
