-- ===== src/Conductor/Store/Events.antt =====
-- `record_lifecycle` of codex-conductor/src/conductor/store.py: what the hooks report of a running
-- subagent.
pub mod Semantics
pub mod Delivery
use agent_tooling.Prelude.{
  ℕ, ◌+◌, String, Bool, true, false, not, ◌&&◌, ◌||◌, Option, none, some, List, [], ◌∷◌, leb, eqb,
  if◌then◌else◌, ◌==◌, any, find, select, update_where,
}
use agent_tooling.Conductor.Schemas.{LifecycleKind, start, stop, cost, cancel, fail, spawn, Time}
use agent_tooling.Conductor.Lifecycle.{Standing, transition, state_for_orphan}
use agent_tooling.Conductor.Policy.Inputs.{same_provider}
use agent_tooling.Conductor.Store.Result.{
  Result, ok, value_error, state_error, ◌>>=◌, ◌>>◌, raise_if, or_raise,
}
use agent_tooling.Conductor.Store.Tables.{
  ReservationRow, RawUsage, LifecycleEvent, UsageRow, CostRow, AliasRow, Tables, seconds,
  is_identifier,
}
use agent_tooling.Conductor.Store.Reservations.{has_correlation, insert_reservation}
use agent_tooling.Conductor.Store.Runs.{run_is}

abbrev pub same_kind : LifecycleKind → LifecycleKind → Bool
same_kind start start = true
same_kind stop stop = true
same_kind cost cost = true
same_kind cancel cancel = true
same_kind fail fail = true
same_kind _ _ = false

abbrev pub same_bool : Bool → Bool → Bool
same_bool true b = b
same_bool false b = not b

abbrev pub same_option {ℓ} : {A : Type ℓ} → (A → A → Bool) → Option A → Option A → Bool
same_option eq none none = true
same_option eq (some a) (some b) = eq a b
same_option eq none (some b) = false
same_option eq (some a) none = false

-- Two usages that differ at most in `occurred_at`.
unfoldable pub same_usage : RawUsage → RawUsage → Bool
same_usage a b =
    a.source_event_id == b.source_event_id
    && same_provider a.provider b.provider
    && a.parser_version == b.parser_version
    && a.model == b.model
    && eqb a.input_tokens b.input_tokens
    && eqb a.cache_read_tokens b.cache_read_tokens
    && eqb a.cache_write_tokens b.cache_write_tokens
    && eqb a.output_tokens b.output_tokens
    && eqb a.reasoning_tokens b.reasoning_tokens
    && same_bool a.measured b.measured

-- `_lifecycle_semantics(a) == _lifecycle_semantics(b)`: all but the times of the event and its usage.
unfoldable pub same_semantics : LifecycleEvent → LifecycleEvent → Bool
unfolding same_usage
same_semantics a b =
    a.event_id == b.event_id
    && same_provider a.provider b.provider
    && a.run_id == b.run_id
    && a.correlation_id == b.correlation_id
    && same_kind a.kind b.kind
    && same_option ◌==◌ a.status b.status
    && same_option same_usage a.usage b.usage
    && same_option eqb a.cost_usd b.cost_usd
    && same_option same_bool a.estimated b.estimated

abbrev pub event_is : String → String → LifecycleEvent → Bool
event_is run_id event_id e = e.run_id == run_id && e.event_id == event_id

abbrev pub reservation_is : String → ReservationRow → Bool
reservation_is id r = r.reservation_id == id

-- `_reservation_in_transaction`
unfoldable pub reservation_in_transaction : String → String → Tables → Result ReservationRow
reservation_in_transaction run_id c s =
    or_raise (find (has_correlation run_id c) s.reservations) state_error

-- `f"{event.kind.value} before reservation"`
abbrev pub orphan_reason : LifecycleKind → String
orphan_reason start = "start before reservation"
orphan_reason stop = "stop before reservation"
orphan_reason cost = "cost before reservation"
orphan_reason cancel = "cancel before reservation"
orphan_reason fail = "fail before reservation"

-- The reservation of an event that came before any reservation.
abbrev pub orphan_row : Time → String → LifecycleEvent → ReservationRow
orphan_row now id e = record {
  reservation_id = id;
  run_id = e.run_id;
  task_id = e.correlation_id;
  correlation_id = some e.correlation_id;
  operation = spawn;
  tier = none;
  model = none;
  reasoning_effort = none;
  estimated_usd = 0;
  state = state_for_orphan e.kind;
  recoverable = true;
  recovery_reason = some (orphan_reason e.kind);
  created_at = now;
  updated_at = now;
  expires_at = now + seconds 300;
}

abbrev with_standing : Time → Standing → ReservationRow → ReservationRow
with_standing now (state, recoverable, reason) r = record r {
  state = state;
  recoverable = recoverable;
  recovery_reason = reason;
  updated_at = now;
}

-- The UPDATE of an event that finds its reservation.
unfoldable pub advance_row : Time → LifecycleKind → ReservationRow → ReservationRow
advance_row now k r = with_standing now (transition k r.state r.recoverable r.recovery_reason) r

unfoldable pub advance_found :
    Option ReservationRow → Time → String → LifecycleEvent → Tables → Result Tables
unfolding advance_row insert_reservation
advance_found none now id e s = insert_reservation (orphan_row now id e) s
advance_found (some row) now id e s = ok (record s {
  reservations =
      update_where (reservation_is row.reservation_id) (advance_row now e.kind) s.reservations;
})

unfoldable pub advance_reservation : Time → String → LifecycleEvent → Tables → Result Tables
unfolding advance_found
advance_reservation now id e s =
    advance_found (find (has_correlation e.run_id e.correlation_id) s.reservations) now id e s

abbrev usage_clashes : String → RawUsage → UsageRow → Bool
usage_clashes run_id u row =
    row.run_id == run_id
    && row.usage.source_event_id == u.source_event_id
    && row.usage.parser_version == u.parser_version

-- `INSERT OR IGNORE INTO raw_usage`, if the event has a usage.
unfoldable pub record_usage : String → Option RawUsage → Tables → Tables
record_usage run_id none s = s
record_usage run_id (some u) s =
    if any (usage_clashes run_id u) s.raw_usage
    then s
    else record s { raw_usage = record { run_id = run_id; usage = u } ∷ s.raw_usage }

abbrev is_true : Option Bool → Bool
is_true none = false
is_true (some b) = b

abbrev pub cost_is : String → String → CostRow → Bool
cost_is run_id event_id c = c.run_id == run_id && c.event_id == event_id

unfoldable pub add_cost : Time → LifecycleEvent → ℕ → Tables → Tables
add_cost now e usd s = if any (cost_is e.run_id e.event_id) s.costs then s else record s {
  costs =
      record {
        run_id = e.run_id;
        event_id = e.event_id;
        correlation_id = e.correlation_id;
        usd = usd;
        estimated = is_true e.estimated;
        created_at = now;
      }
      ∷ s.costs;
}

-- `INSERT OR IGNORE INTO costs`, if the event has a cost.
unfoldable pub record_cost : Time → LifecycleEvent → Option ℕ → Tables → Tables
unfolding add_cost
record_cost now e none s = s
record_cost now e (some usd) s = add_cost now e usd s

-- The rest of `record_lifecycle`, for an event id that is new in its run.
unfoldable pub record_new :
    Time → String → LifecycleEvent → Tables → Result (ReservationRow × Tables)
unfolding advance_reservation record_usage record_cost reservation_in_transaction
record_new now id e s = do
  s1 ← advance_reservation now id e (record s { lifecycle_events = e ∷ s.lifecycle_events })
  let s2 = record_cost now e e.cost_usd (record_usage e.run_id e.usage s1)
  row ← reservation_in_transaction e.run_id e.correlation_id s2
  ok (row, s2)

-- The rest of `record_lifecycle`, for an event id that the run has already.
unfoldable pub record_again :
    LifecycleEvent → LifecycleEvent → Tables → Result (ReservationRow × Tables)
record_again existing e s = do
  raise_if (not (same_semantics existing e)) state_error
  row ← reservation_in_transaction e.run_id e.correlation_id s
  ok (row, s)

unfoldable pub record_event :
    Option LifecycleEvent
    → Time
    → String
    → LifecycleEvent
    → Tables
    → Result (ReservationRow × Tables)
unfolding record_new record_again same_semantics
record_event none now id e s = record_new now id e s
record_event (some existing) now id e s = record_again existing e s

-- `record_lifecycle`
unfoldable pub record_lifecycle :
    Time → String → LifecycleEvent → Tables → Result (ReservationRow × Tables)
unfolding record_event
record_lifecycle now id e s = do
  raise_if (not (any (run_is e.run_id) s.runs)) state_error
  record_event (find (event_is e.run_id e.event_id) s.lifecycle_events) now id e s
