-- ===== src/Conductor/Store/Tests.antt =====
-- A run with one lease, one reservation and the events of one subagent.
use agent_tooling.Prelude.{
  ℕ, ◌+◌, ◌≡◌, ◌≢◌, refl, ◌≤◌, String, true, false, none, some, [], ◌∷◌, arith,
}
use agent_tooling.Conductor.Schemas.{codex, routing, spawn, cost, Usd}
use agent_tooling.Conductor.Policy.Outcome.{DecisionSpec, allow}
use agent_tooling.Conductor.Store.Result.{ok}
use agent_tooling.Conductor.Store.Tables.{
  seconds, RunRow, LeaseRow, ReservationRow, DecisionRow, LifecycleEvent, Tables, empty,
  is_identifier,
}
use agent_tooling.Conductor.Store.Reservations.{
  ReservationRequest, FreshIds, approved_row, operation_row, decision_row, specify,
  insert_reservation, insert_operation, insert_decision, record_decision, decide_in_run, decide_new,
  decision_for, decide_and_reserve, cap_evaluator,
}
use agent_tooling.Conductor.Store.Snapshots.{
  expire_rows, expire_reservations, snapshot, active_by_tier,
}
use agent_tooling.Conductor.Store.Reservations.Caps.{
  active, committed, IsWithin, reserve_all, reserve_all-IsWithin,
}
use agent_tooling.Conductor.Store.Reservations.Idempotent.{decide_and_reserve_idem}
use agent_tooling.Conductor.Store.Steps.{
  decided, Reaches, done, then, cap_evaluator-Respects, slots_within_caps,
}
use agent_tooling.Conductor.Store.Events.{
  record_lifecycle, record_event, record_new, advance_reservation, advance_found, advance_row,
  record_usage, record_cost, add_cost, reservation_in_transaction,
}
use agent_tooling.Conductor.Store.Events.Semantics.{at_time}
use agent_tooling.Conductor.Store.Events.Delivery.{record_lifecycle_idem}
use agent_tooling.Conductor.Store.Maintenance.{is_candidate, total_cost_usd, delete_run, cascade}
use agent_tooling.Conductor.Store.Costs.{
  HasEvents, record_lifecycle_cost, record_lifecycle-HasEvents,
}
use agent_tooling.Conductor.Store.Runs.{heartbeat_run}
use agent_tooling.Conductor.Store.Leases.{renews, leased_run_kept}
use agent_tooling.Conductor.Store.Recovery.{
  gc_candidate_deletable, delete_run_isolates, IsForgotten,
}

abbrev pub one_lease : LeaseRow
one_lease = record { run_id = "run-1"; owner_id = "hook"; heartbeat_at = 0; expires_at = 1000 }

abbrev pub first_run : RunRow
first_run = record {
  run_id = "run-1";
  provider = codex;
  generation = 1;
  mode = routing;
  created_at = 0;
  heartbeat_at = 0;
}

abbrev pub one_run : Tables
one_run = record empty { runs = first_run ∷ []; leases = one_lease ∷ [] }

abbrev pub small_request : ReservationRequest
small_request = record {
  run_id = "run-1";
  task_id = "task-1";
  correlation_id = some "call-1";
  idempotency_key = "call-1";
  operation = spawn;
  tier = "small";
  model = "gpt-small";
  estimated_usd = 10;
  ttl_seconds = 60;
  generation = 1;
  mode = routing;
  reasoning_effort = some "medium";
}

abbrev pub three_ids : FreshIds
three_ids = record { operation_id = "op-1"; reservation_id = "res-1"; decision_id = "dec-1" }

abbrev two_slots : String → ℕ
two_slots tier = 2

abbrev thousand : String → Usd
thousand run_id = 1000

abbrev approval : DecisionSpec
approval = record {
  allowed = true;
  rule = allow;
  selected_model = none;
  savings_eligible = false;
  reserve = true;
}

abbrev first_decision : DecisionRow
first_decision = decision_row 5 small_request three_ids approval

abbrev one_reservation : Tables
one_reservation = record one_run {
  operations = operation_row 5 small_request three_ids ∷ [];
  reservations = approved_row 5 small_request three_ids ∷ [];
  decisions = first_decision ∷ [];
}

first_reserve_runs :
    decide_and_reserve 5 three_ids small_request (cap_evaluator small_request 2 1000) one_run
    ≡ ok (first_decision, one_reservation)
unfolding decide_and_reserve expire_reservations expire_rows decision_for decide_new decide_in_run
    insert_operation record_decision specify snapshot active_by_tier cap_evaluator
    insert_reservation insert_decision
first_reserve_runs = refl

one_run-IsWithin : IsWithin two_slots thousand one_run
one_run-IsWithin = record { slots = λ run_id tier. omega arith; dollars = λ run_id. omega arith }

reserve_all-IsWithin_example : IsWithin two_slots thousand (
    reserve_all two_slots thousand
      (record { now = 5; ids = three_ids; request = small_request } ∷ [])
      one_run)
reserve_all-IsWithin_example =
    reserve_all-IsWithin two_slots thousand
      (record { now = 5; ids = three_ids; request = small_request } ∷ []) one_run one_run-IsWithin

decide_and_reserve_idem_example :
    decide_and_reserve 9
      (record { operation_id = "op-2"; reservation_id = "res-2"; decision_id = "dec-2" })
      (record small_request { tier = "frontier" })
      (λ shot. approval)
      one_reservation
    ≡ ok (first_decision, expire_reservations 9 one_reservation)
decide_and_reserve_idem_example =
    decide_and_reserve_idem 5 9 three_ids
      (record { operation_id = "op-2"; reservation_id = "res-2"; decision_id = "dec-2" })
      small_request (record small_request { tier = "frontier" })
      (cap_evaluator small_request 2 1000) (λ shot. approval) one_run first_decision one_reservation
      first_reserve_runs refl refl

slots_within_caps_example : active "run-1" "small" one_reservation ≤ 2
slots_within_caps_example = slots_within_caps two_slots "run-1" "small" reserving (omega arith)
  where
    reserving : Reaches two_slots one_run one_reservation
    reserving =
        then
          (decided 5 three_ids small_request (cap_evaluator small_request 2 1000) first_decision
            (cap_evaluator-Respects two_slots small_request 1000) first_reserve_runs)
          done

-- The cost of the subagent, which comes before its start and its stop.
abbrev first_cost : LifecycleEvent
first_cost = record {
  event_id = "ev-1";
  provider = codex;
  run_id = "run-1";
  correlation_id = "call-1";
  kind = cost;
  occurred_at = 7;
  status = none;
  usage = none;
  cost_usd = some 12;
  estimated = some true;
}

abbrev costed_row : ReservationRow
costed_row = advance_row 7 cost (approved_row 5 small_request three_ids)

abbrev one_cost : Tables
one_cost = record one_reservation {
  reservations = costed_row ∷ [];
  lifecycle_events = first_cost ∷ [];
  costs =
      record {
        run_id = "run-1";
        event_id = "ev-1";
        correlation_id = "call-1";
        usd = 12;
        estimated = true;
        created_at = 7;
      }
      ∷ [];
}

first_cost_runs : record_lifecycle 7 "res-9" first_cost one_reservation ≡ ok (costed_row, one_cost)
unfolding record_lifecycle record_event record_new advance_reservation advance_found record_usage
    record_cost add_cost reservation_in_transaction advance_row
first_cost_runs = refl

no_costs-HasEvents : HasEvents one_reservation
no_costs-HasEvents = record { recorded = λ run_id event_id. refl }

record_lifecycle_idem_example :
    record_lifecycle 8 "res-10" (at_time 99 first_cost) one_cost ≡ ok (costed_row, one_cost)
record_lifecycle_idem_example =
    record_lifecycle_idem 7 8 "res-9" "res-10" first_cost 99 one_reservation costed_row one_cost
      first_cost_runs

record_lifecycle_cost_example :
    total_cost_usd "run-1" one_cost ≡ total_cost_usd "run-1" one_reservation + 12
record_lifecycle_cost_example =
    record_lifecycle_cost 7 "res-9" first_cost one_reservation costed_row one_cost
      no_costs-HasEvents first_cost_runs

record_lifecycle-HasEvents_example : HasEvents one_cost
record_lifecycle-HasEvents_example =
    record_lifecycle-HasEvents 7 "res-9" first_cost one_reservation costed_row one_cost
      no_costs-HasEvents first_cost_runs

abbrev renewed : Tables
renewed = record one_cost {
  leases = record one_lease { heartbeat_at = 900; expires_at = 900 + seconds 5 } ∷ [];
  runs = record first_run { heartbeat_at = 900 } ∷ [];
}

heartbeat_runs : heartbeat_run 900 "run-1" 5 one_cost ≡ ok renewed
unfolding heartbeat_run
heartbeat_runs = refl

leased_run_kept_example :
    ((u : Tables) → delete_run 1500 "run-1" renewed ≢ ok u)
    × ((r : RunRow) → r.run_id ≡ "run-1" → is_candidate 1500 1400 renewed.leases r ≡ false)
leased_run_kept_example =
    leased_run_kept 900 1500 1400 "run-1" 5 one_cost renewed (renews heartbeat_runs) (omega arith)

delete_run_isolates_example :
    IsForgotten "run-1" (cascade "run-1" one_cost)
    × ((active "run-2" "small" (cascade "run-1" one_cost) ≡ active "run-2" "small" one_cost)
        × (committed "run-2" (cascade "run-1" one_cost) ≡ committed "run-2" one_cost))
unfolding delete_run is_identifier
delete_run_isolates_example =
    delete_run_isolates 2000 "run-1" one_cost (cascade "run-1" one_cost) "run-2" "small" refl refl

gc_candidate_deletable_example : delete_run 2000 "run-1" one_cost ≡ ok (cascade "run-1" one_cost)
unfolding is_candidate is_identifier
gc_candidate_deletable_example = gc_candidate_deletable 2000 1500 first_run one_cost refl refl refl
