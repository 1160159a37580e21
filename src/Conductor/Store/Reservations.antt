-- ===== src/Conductor/Store/Reservations.antt =====
-- Requests and decisions: `ReservationRequest`, `decide_and_reserve` and `reserve` of
-- codex-conductor/src/conductor/store.py.
pub mod Inversion
pub mod Idempotent
pub mod Caps
use agent_tooling.Conductor.Store.Snapshots.{active_by_tier, expire_reservations, snapshot}
use agent_tooling.Conductor.Store.Runs.{create_run, heartbeat_run, lease_is, run_is}
use agent_tooling.Prelude.{
  codes, ℕ, ◌+◌, String, Bool, true, false, not, ◌&&◌, ◌||◌, Option, none, some, List, [], ◌∷◌, ltb,
  leb, eqb, if◌then◌else◌, ◌==◌, opt_is, is_some, any, find, count_where, sum_where, update_where,
  length,
}
use agent_tooling.Conductor.Schemas.{
  Provider, OperatingMode, OperationName, ReservationState, approved, started, stopped, expired,
  Usd, Time, ReservationSnapshot, effort_index,
}
use agent_tooling.Conductor.Policy.Outcome.{
  Rule, stale_generation, run_lease_expired, duplicate_correlation, duplicate_reservation,
  concurrency_cap, budget_cap, allow, DecisionSpec,
}
use agent_tooling.Conductor.Policy.{tolerance}
use agent_tooling.Conductor.Store.Result.{
  Result, ok, value_error, state_error, integrity_error, ◌>>=◌, ◌>>◌, raise_if, or_raise,
}
use agent_tooling.Conductor.Store.Tables.{
  RunRow, LeaseRow, OperationRow, ReservationRow, DecisionRow, CostRow, Tables, seconds,
  is_identifier,
}

-- `ReservationRequest`
pub record ReservationRequest : Type 0 where
  pub run_id : String
  pub task_id : String
  pub correlation_id : Option String
  pub idempotency_key : String
  pub operation : OperationName
  pub tier : String
  pub model : String
  pub estimated_usd : Usd
  pub ttl_seconds : ℕ
  pub generation : ℕ
  pub mode : OperatingMode
  pub reasoning_effort : Option String

abbrev every_some : (String → Bool) → Option String → Bool
every_some p none = true
every_some p (some x) = p x

-- `__post_init__`: false where it raises ValueError.
unfoldable pub is_request : ReservationRequest → Bool
is_request q =
    is_identifier q.run_id
    && is_identifier q.task_id
    && is_identifier q.idempotency_key
    && is_identifier q.tier
    && every_some is_identifier q.correlation_id
    && leb 1 (length (codes q.model))
    && leb (length (codes q.model)) 256
    && leb 1 q.ttl_seconds
    && leb 1 q.generation
    && every_some (λ e. is_some (effort_index e)) q.reasoning_effort

-- The three values of `_new_id` in a call.
pub record FreshIds : Type 0 where
  pub operation_id : String
  pub reservation_id : String
  pub decision_id : String

abbrev pub has_key : String → String → DecisionRow → Bool
has_key run_id key d = d.run_id == run_id && d.idempotency_key == key

abbrev pub operation_has_key : String → String → OperationRow → Bool
operation_has_key run_id key o = o.run_id == run_id && o.idempotency_key == key

abbrev pub has_task : String → String → ReservationRow → Bool
has_task run_id task_id r = r.run_id == run_id && r.task_id == task_id

abbrev pub has_correlation : String → String → ReservationRow → Bool
has_correlation run_id c r = r.run_id == run_id && opt_is r.correlation_id c

abbrev pub has_any_correlation : String → Option String → ReservationRow → Bool
has_any_correlation run_id none r = false
has_any_correlation run_id (some c) r = has_correlation run_id c r

abbrev lease_active : Option LeaseRow → Time → Bool
lease_active none now = false
lease_active (some l) now = ltb now l.expires_at

abbrev pub denied : Rule → DecisionSpec
denied rule = record {
  allowed = false;
  rule = rule;
  selected_model = none;
  savings_eligible = false;
  reserve = true;
}

-- The checks of the store before the evaluator is asked.
unfoldable pub specify :
    Time
    → ReservationRequest
    → (ReservationSnapshot → DecisionSpec)
    → RunRow
    → Tables
    → DecisionSpec
unfolding snapshot
specify now q evaluator run s =
    if not (eqb run.generation q.generation)
    then denied stale_generation
    else if not (lease_active (find (lease_is q.run_id) s.leases) now)
    then denied run_lease_expired
    else if any (has_any_correlation q.run_id q.correlation_id) s.reservations
    then denied duplicate_correlation
    else if any (has_task q.run_id q.task_id) s.reservations
    then denied duplicate_reservation
    else evaluator (snapshot q.run_id s)

-- The UNIQUE constraints of `reservations`.
abbrev pub clashes : ReservationRow → ReservationRow → Bool
clashes new r =
    r.reservation_id == new.reservation_id
    || has_task new.run_id new.task_id r
    || has_any_correlation new.run_id new.correlation_id r

unfoldable pub insert_reservation : ReservationRow → Tables → Result Tables
insert_reservation row s = do
  raise_if (any (clashes row) s.reservations) integrity_error
  ok (record s { reservations = row ∷ s.reservations })

-- The row that an approval inserts.
abbrev pub approved_row : Time → ReservationRequest → FreshIds → ReservationRow
approved_row now q ids = record {
  reservation_id = ids.reservation_id;
  run_id = q.run_id;
  task_id = q.task_id;
  correlation_id = q.correlation_id;
  operation = q.operation;
  tier = some q.tier;
  model = some q.model;
  reasoning_effort = q.reasoning_effort;
  estimated_usd = q.estimated_usd;
  state = approved;
  recoverable = false;
  recovery_reason = none;
  created_at = now;
  updated_at = now;
  expires_at = now + seconds q.ttl_seconds;
}

abbrev pub operation_row : Time → ReservationRequest → FreshIds → OperationRow
operation_row now q ids = record {
  operation_id = ids.operation_id;
  run_id = q.run_id;
  idempotency_key = q.idempotency_key;
  operation = q.operation;
  correlation_id = q.correlation_id;
  created_at = now;
}

abbrev pub decision_row : Time → ReservationRequest → FreshIds → DecisionSpec → DecisionRow
decision_row now q ids spec = record {
  decision_id = ids.decision_id;
  run_id = q.run_id;
  operation_id = ids.operation_id;
  idempotency_key = q.idempotency_key;
  reservation_id = if spec.allowed && spec.reserve then some ids.reservation_id else none;
  allowed = spec.allowed;
  rule = spec.rule;
  mode = q.mode;
  operation = q.operation;
  selected_model = spec.selected_model;
  reservation_estimate_usd = q.estimated_usd;
  savings_eligible = spec.savings_eligible;
  created_at = now;
}

unfoldable pub insert_operation : OperationRow → Tables → Result Tables
insert_operation row s = do
  raise_if
      (any (λ o. o.operation_id == row.operation_id) s.operations
        || any (operation_has_key row.run_id row.idempotency_key) s.operations)
      integrity_error
  ok (record s { operations = row ∷ s.operations })

unfoldable pub insert_decision : DecisionRow → Tables → Result Tables
insert_decision row s = do
  raise_if
      (any (λ d. d.decision_id == row.decision_id) s.decisions
        || any (has_key row.run_id row.idempotency_key) s.decisions)
      integrity_error
  ok (record s { decisions = row ∷ s.decisions })

-- From the decision on: the reservation, if it is approved, and the decision row.
unfoldable pub record_decision :
    Time → FreshIds → ReservationRequest → DecisionSpec → Tables → Result (DecisionRow × Tables)
unfolding insert_reservation insert_decision
record_decision now ids q spec s = do
  s1 ←
      (if spec.allowed && spec.reserve then insert_reservation (approved_row now q ids) s else ok s)
  s2 ← insert_decision (decision_row now q ids spec) s1
  ok (decision_row now q ids spec, s2)

-- The run is known: the operation row, and the decision.
unfoldable pub decide_in_run :
    Time
    → FreshIds
    → ReservationRequest
    → (ReservationSnapshot → DecisionSpec)
    → RunRow
    → Tables
    → Result (DecisionRow × Tables)
unfolding specify insert_operation record_decision
decide_in_run now ids q evaluator run s = do
  s1 ← insert_operation (operation_row now q ids) s
  record_decision now ids q (specify now q evaluator run s1) s1

-- The rest of `decide_and_reserve`, for a key without a decision.
unfoldable pub decide_new :
    Time
    → FreshIds
    → ReservationRequest
    → (ReservationSnapshot → DecisionSpec)
    → Tables
    → Result (DecisionRow × Tables)
unfolding decide_in_run
decide_new now ids q evaluator s = do
  run ← or_raise (find (run_is q.run_id) s.runs) state_error
  decide_in_run now ids q evaluator run s

-- An existing decision is returned, and any other request is decided.
unfoldable pub decision_for :
    Option DecisionRow
    → Time
    → FreshIds
    → ReservationRequest
    → (ReservationSnapshot → DecisionSpec)
    → Tables
    → Result (DecisionRow × Tables)
unfolding decide_new
decision_for (some existing) now ids q evaluator s = ok (existing, s)
decision_for none now ids q evaluator s = decide_new now ids q evaluator s

-- `decide_and_reserve`
unfoldable pub decide_and_reserve :
    Time
    → FreshIds
    → ReservationRequest
    → (ReservationSnapshot → DecisionSpec)
    → Tables
    → Result (DecisionRow × Tables)
unfolding decision_for expire_reservations
decide_and_reserve now ids q evaluator s =
    let s0 = expire_reservations now s in
    decision_for (find (has_key q.run_id q.idempotency_key) s0.decisions) now ids q evaluator s0

-- The evaluator of `reserve`.
unfoldable pub cap_evaluator : ReservationRequest → ℕ → Usd → ReservationSnapshot → DecisionSpec
cap_evaluator q concurrency budget shot =
    if leb concurrency (shot.active_by_tier q.tier)
    then denied concurrency_cap
    else if ltb (budget + tolerance) (shot.spent_usd + shot.reserved_usd + q.estimated_usd)
    then denied budget_cap
    else record {
      allowed = true;
      rule = allow;
      selected_model = none;
      savings_eligible = false;
      reserve = true;
    }

-- `reserve`
unfoldable pub reserve :
    Time → FreshIds → ReservationRequest → ℕ → Usd → Tables → Result (DecisionRow × Tables)
unfolding decide_and_reserve cap_evaluator
reserve now ids q concurrency budget s =
    decide_and_reserve now ids q (cap_evaluator q concurrency budget) s
