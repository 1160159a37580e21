-- ===== src/Conductor/Store/Snapshots.antt =====
-- What expires and what a snapshot counts: `_expire_reservations` and `_snapshot` of
-- codex-conductor/src/conductor/store.py.
use agent_tooling.Prelude.{
  ℕ, String, Bool, true, false, not, ◌&&◌, Option, none, some, List, [], ◌∷◌, leb, eqb,
  if◌then◌else◌, ◌==◌, opt_is, count_where, sum_where,
}
use agent_tooling.Conductor.Schemas.{
  ReservationState, approved, started, stopped, expired, Time, ReservationSnapshot,
}
use agent_tooling.Conductor.Store.Tables.{ReservationRow, CostRow, Tables}

abbrev pub is_approved : ReservationState → Bool
is_approved approved = true
is_approved _ = false

abbrev pub is_started : ReservationState → Bool
is_started started = true
is_started _ = false

-- `_CONCURRENCY_STATES`
abbrev pub holds_slot : ReservationState → Bool
holds_slot approved = true
holds_slot started = true
holds_slot _ = false

-- `_RESERVED_STATES`
abbrev pub holds_budget : ReservationState → Bool
holds_budget approved = true
holds_budget started = true
holds_budget stopped = true
holds_budget _ = false

abbrev pub lapse_approved : Time → ReservationRow → ReservationRow
lapse_approved now r =
    if is_approved r.state && leb r.expires_at now
    then record r { state = expired; updated_at = now; recoverable = false; recovery_reason = none }
    else r

abbrev pub flag_started : Time → ReservationRow → ReservationRow
flag_started now r =
    if is_started r.state && leb r.expires_at now && not r.recoverable
    then record r {
      recoverable = true;
      recovery_reason = some "started reservation exceeded TTL";
      updated_at = now;
    }
    else r

-- `_expire_reservations`: the two updates, in order.
unfoldable pub expire_rows : Time → List ReservationRow → List ReservationRow
expire_rows now [] = []
expire_rows now (r ∷ rs) = flag_started now (lapse_approved now r) ∷ expire_rows now rs

unfoldable pub expire_reservations : Time → Tables → Tables
expire_reservations now s = record s { reservations = expire_rows now s.reservations }

abbrev pub is_null : Option String → Bool
is_null none = true
is_null (some x) = false

-- The rows of a run that hold a slot of the tier; a NULL tier is `none`.
abbrev pub active_in : String → String → ReservationRow → Bool
active_in run_id tier r = r.run_id == run_id && holds_slot r.state && opt_is r.tier tier

abbrev pub active_untiered : String → ReservationRow → Bool
active_untiered run_id r = r.run_id == run_id && holds_slot r.state && is_null r.tier

abbrev pub reserved_in : String → ReservationRow → Bool
reserved_in run_id r = r.run_id == run_id && holds_budget r.state

abbrev pub cost_of : String → CostRow → Bool
cost_of run_id c = c.run_id == run_id

-- `active_by_tier`: the key of a NULL tier is `str(None)`, which a tier of that name replaces.
unfoldable pub active_by_tier : String → List ReservationRow → String → ℕ
active_by_tier run_id rows tier =
    let own = count_where (active_in run_id tier) rows in
    if tier == "None" && eqb own 0 then count_where (active_untiered run_id) rows else own

-- `_snapshot`
unfoldable pub snapshot : String → Tables → ReservationSnapshot
unfolding active_by_tier
snapshot run_id s = record {
  active_by_tier = active_by_tier run_id s.reservations;
  reserved_usd = sum_where (reserved_in run_id) (λ r. r.estimated_usd) s.reservations;
  spent_usd = sum_where (cost_of run_id) (λ c. c.usd) s.costs;
}
