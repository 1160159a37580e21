-- ===== src/Conductor/Store/Maintenance.antt =====
-- Recovery, garbage collection and the counts of codex-conductor/src/conductor/store.py, and the plan
-- of codex-conductor/src/conductor/gc.py.
use agent_tooling.Prelude.{
  ℕ, String, Bool, true, false, not, ◌&&◌, ◌||◌, Option, none, some, List, leb, ltb, eqb, ◌==◌, any,
  find, select, count_where, sum_where, update_where,
}
use agent_tooling.Conductor.Schemas.{ReservationState, cancelled, expired, failed, Time, Usd}
use agent_tooling.Conductor.Store.Result.{
  Result, ok, value_error, state_error, ◌>>=◌, ◌>>◌, raise_if,
}
use agent_tooling.Conductor.Store.Tables.{RunRow, LeaseRow, ReservationRow, Tables, is_identifier}
use agent_tooling.Conductor.Store.Snapshots.{cost_of, is_approved, is_started, expire_reservations}
use agent_tooling.Conductor.Store.Runs.{run_is, lease_is}
use agent_tooling.Conductor.Store.Correlations.{reservation}

-- `outcome in {"cancelled", "failed", "expired"}`
abbrev pub is_outcome : ReservationState → Bool
is_outcome cancelled = true
is_outcome failed = true
is_outcome expired = true
is_outcome _ = false

abbrev pub recoverable_is : String → ReservationRow → Bool
recoverable_is id r = r.reservation_id == id && r.recoverable

abbrev pub resolve_row : Time → ReservationState → ReservationRow → ReservationRow
resolve_row now outcome r = record r {
  state = outcome;
  recoverable = false;
  recovery_reason = none;
  updated_at = now;
}

-- `resolve_recovery`: two transactions and a read between them, by one process.
unfoldable pub resolve_recovery :
    Time → String → String → ReservationState → Tables → Result (ReservationRow × Tables)
unfolding reservation
resolve_recovery now key run_id outcome s = do
  raise_if (not (is_outcome outcome)) value_error
  row ← reservation key run_id s
  raise_if (not (eqb (count_where (recoverable_is row.reservation_id) s.reservations) 1))
      state_error
  let s1 = record s {
    reservations =
        update_where (recoverable_is row.reservation_id) (resolve_row now outcome) s.reservations;
  }
  resolved ← reservation row.reservation_id run_id s1
  ok (resolved, s1)

abbrev pub lease_live : Option LeaseRow → Time → Bool
lease_live none now = false
lease_live (some l) now = ltb now l.expires_at

-- `DELETE FROM runs` with its ON DELETE CASCADE: every row of the run goes.
unfoldable pub cascade : String → Tables → Tables
cascade run_id s = record {
  runs = select (λ r. not (r.run_id == run_id)) s.runs;
  leases = select (λ l. not (l.run_id == run_id)) s.leases;
  operations = select (λ o. not (o.run_id == run_id)) s.operations;
  reservations = select (λ r. not (r.run_id == run_id)) s.reservations;
  decisions = select (λ d. not (d.run_id == run_id)) s.decisions;
  lifecycle_events = select (λ e. not (e.run_id == run_id)) s.lifecycle_events;
  raw_usage = select (λ u. not (u.run_id == run_id)) s.raw_usage;
  costs = select (λ c. not (c.run_id == run_id)) s.costs;
  correlation_aliases = select (λ a. not (a.run_id == run_id)) s.correlation_aliases;
}

-- `delete_run`
unfoldable pub delete_run : Time → String → Tables → Result Tables
unfolding cascade
delete_run now run_id s = do
  raise_if (not (is_identifier run_id)) value_error
  raise_if (lease_live (find (lease_is run_id) s.leases) now) state_error
  raise_if (not (any (run_is run_id) s.runs)) state_error
  ok (cascade run_id s)

-- The rows that `_expire_reservations` changes.
abbrev lapses : Time → ReservationRow → Bool
lapses now r =
    leb r.expires_at now && (is_approved r.state || (is_started r.state && not r.recoverable))

-- `expire_stale`: the number of changed rows, and the tables.
unfoldable pub expire_stale : Time → Tables → ℕ × Tables
unfolding expire_reservations
expire_stale now s = (count_where (lapses now) s.reservations, expire_reservations now s)

-- The rows that `gc_candidates` selects; its order is not modelled, `plan_gc` makes a set of it.
unfoldable pub is_candidate : Time → Time → List LeaseRow → RunRow → Bool
is_candidate now older_than leases r =
    ltb r.heartbeat_at older_than
    && not (any (λ l. l.run_id == r.run_id && ltb now l.expires_at) leases)

unfoldable pub total_cost_usd : String → Tables → Usd
total_cost_usd run_id s = sum_where (cost_of run_id) (λ c. c.usd) s.costs
