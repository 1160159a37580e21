-- ===== src/Lib.antt =====
-- A verification library for the agent tooling repository: the governance core of Codex Conductor
-- (codex-conductor/src/conductor), the run controller of the collaboration harness
-- (agent-harness/src/agent_harness), and the planning and execution of tool installations by Toolbelt
-- (toolbelt/src/toolbelt).
--
-- The parts of the program, and how they meet
--   A hook of Codex or Claude asks before a model spawns a subagent. `_persist` of
--   hooks/pre_tool_use.py asks `evaluate_policy` of policy.py for a preview, builds a request of it,
--   and hands the request to `Store.decide_and_reserve` of store.py, which asks the policy again
--   inside its transaction. Later hooks report starts, stops and costs to `record_lifecycle`. The
--   harness is separate: its controller admits children of its participants, and records every
--   change as an event, of which `reconstruct_run` rebuilds a run that stopped. Toolbelt is separate too:
--   `recommend` of policy.py judges the tools of a catalog by the evidence in a repository,
--   `build_plan_v2` of planner.py makes a plan of the recommendations, bound to what it was made from,
--   and `Executor.apply` of executor.py carries the plan out as a transaction that the StateStore of
--   state.py records, rolls it back when something fails, and `Executor.recover` rolls back one that was
--   interrupted.
--
-- The files
--   Prelude: names of the libraries, and list searches that stand for SQL and comprehensions.
--   Conductor/Schemas: the contracts of schemas.py.
--   Conductor/Policy: evaluate_policy of policy.py, with an early return as `decided` and an
--     exception as `raised`. Outcome, Inputs and Routing hold its parts; Ladder, Ensures,
--     Admission, Placing, Authority and Approval the lemmas on them; Safety and Snapshot the
--     theorems.
--   Conductor/Lifecycle: _transition and _state_for_orphan of store.py, as functions of a
--     reservation's state, recoverability and reason.
--   Conductor/Store: the tables of migrations.py as a record of lists (Tables), and the methods of
--     store.Store that write them: create_run, heartbeat_run (Runs), _expire_reservations and
--     _snapshot (Snapshots), decide_and_reserve and reserve (Reservations), record_lifecycle
--     (Events), link_correlation (Correlations), resolve_recovery, delete_run, expire_stale
--     (Maintenance). Caps, Slots, Steps, Costs, Leases and Recovery hold theorems. A method is a function from the clock, the new ids, its arguments
--     and the tables to a result with the new tables; an error has no tables, for a transaction
--     that raises is rolled back. SQLite runs the write transactions one after the other, so that
--     the steps of any number of processes are a sequence of calls (Steps).
--   Conductor/Accounting: normalize_lifecycle_events of accounting.py, with what a hook says in Payload,
--     and the token counts and prices (pricing.py) in Usage. SHA-256, the time of a hook and what its
--     transcript holds are given.
--   Conductor/Hook: _persist. What _derived_id hashes is a field of its argument.
--   Harness/Models, Log, Controller, Receipts: models.py, store.py, spawn_child and the first events
--     of run of controller.py, and reconstruct_run of receipts.py. The child adapter factory is a
--     parameter. A call of spawn_child does not await between its checks and its changes.
--   Toolbelt/Schemas, Errors: the models of schemas.py and the exceptions of errors.py.
--   Toolbelt/Policy: recommend of policy.py.
--   Toolbelt/Planner: the catalog contracts of planner.py; Plans holds building and validation, the
--     others theorems: Contracts and Making for the actions, Binding, Building and Unchanged for plans.
--     What reads the repository, JSON and SHA-256 are fields of Planner.Host; of SHA-256 only that it
--     has no collision between the values at hand is ever assumed, where a theorem says so.
--   Toolbelt/State: StateStore of state.py over lists of rows; Lifecycle and History hold theorems.
--   Toolbelt/Declaration: the declaration file, of state.py and executor.py.
--   Toolbelt/Executor: apply (Apply), _preflight (Preflight), _rollback (Rollback) and recover (Recover)
--     of executor.py as statements on a session of the tables, the files and the local variables. A
--     statement ends with or without an exception and keeps the session as it is then. A command is a
--     field of Executor.Host that may do anything but touch Toolbelt's own files; how it ends depends on
--     all commands before it, and it may be interrupted. An injected fault may strike any checkpoint.
--     The other children hold the theorems: Frames and Trying, Undoing, Settling for the states,
--     Extending and Completing for the commands, Recovering for recover.
--
-- Numbers and fuel
--   Dollars are whole numbers of picodollars, fractions of trillionths and times of microseconds,
--   where the source has floats: rounding is not modelled. The tolerance of the budget, 1e-12, is
--   one picodollar. Two loops run on fuel: the digits of an ordinal n, of which there are at most
--   n + 1, and the walk to the root of a participant's parents, whose ids get shorter, on the
--   length of the id.
--
-- Not modelled
--   Message texts, connections, files, migrations, reports, installation and diagnosis; JSON, whose
--   events have a typed payload here; asyncio tasks, emissions and queues of the harness; of the
--   toolbelt the scanner, the command line, processes and pipes, redaction, the lock and what reads
--   the file system; failures of SQLite itself; the programs in other languages.
mod Prelude
pub mod Conductor
pub mod Harness
pub mod Toolbelt
