-- ===== src/Conductor/Store/Steps.antt =====
-- The database of codex-conductor/src/conductor/store.py as the processes of a machine drive it: each
-- step is a transaction that commits, and the steps of all processes come in any order.
use agent_tooling.Prelude.{ℕ, ◌≤◌, ◌<◌, ◌≡◌, String, true, not, ◌&&◌, arith, inl, inr, ◌⊎◌}
use agent_tooling.Conductor.Schemas.{
  Provider, OperatingMode, ReservationState, Time, Usd, ReservationSnapshot,
}
use agent_tooling.Conductor.Policy.Outcome.{DecisionSpec}
use agent_tooling.Conductor.Store.Result.{ok}
use agent_tooling.Conductor.Store.Tables.{
  RunRow, ReservationRow, LifecycleEvent, DecisionRow, Tables,
}
use agent_tooling.Conductor.Store.Reservations.{
  decide_and_reserve, cap_evaluator, FreshIds, ReservationRequest, specify,
}
use agent_tooling.Conductor.Store.Snapshots.{expire_reservations, snapshot}
use agent_tooling.Conductor.Store.Runs.{create_run, heartbeat_run}
use agent_tooling.Conductor.Store.Reservations.Caps.{
  active, active_expire, active-le-snapshot, specify-approved, approved_slot,
}
use agent_tooling.Conductor.Store.Reservations.Inversion.{
  Decided, with_reservation, without_reservation, decide_and_reserve-eq-ok,
}
use agent_tooling.Conductor.Store.Events.{record_lifecycle}
use agent_tooling.Conductor.Store.Correlations.{link_correlation}
use agent_tooling.Conductor.Store.Maintenance.{delete_run, resolve_recovery, expire_stale, cascade}
use agent_tooling.Conductor.Store.Slots.{
  record_lifecycle-active, resolve_recovery-active, link_correlation-reservations, cascade-active,
}

-- The evaluator reserves only where the tier of the request has a slot left.
pub record Respects (caps : String → ℕ) (q : ReservationRequest)
    (evaluator : ReservationSnapshot → DecisionSpec) : Type 0 where
  pub leaves_slot :
      (shot : ReservationSnapshot)
      → (not ((evaluator shot).allowed && (evaluator shot).reserve) ≡ true)
        ⊎ (shot.active_by_tier q.tier < caps q.tier)

-- One transaction of the store that commits.
pub data Step (caps : String → ℕ) : Tables → Tables → Type 0 where
  created :
      (now : Time) (run_id : String) (provider : Provider) (generation : ℕ) (mode : OperatingMode)
      (lease_seconds : ℕ) (owner_id : String) {s t : Tables}
      → create_run now run_id provider generation mode lease_seconds owner_id s ≡ ok t
      → Step caps s t
  beaten :
      (now : Time) (run_id : String) (lease_seconds : ℕ) {s t : Tables}
      → heartbeat_run now run_id lease_seconds s ≡ ok t
      → Step caps s t
  decided :
      (now : Time) (ids : FreshIds) (q : ReservationRequest)
      (evaluator : ReservationSnapshot → DecisionSpec) (d : DecisionRow) {s t : Tables}
      → Respects caps q evaluator
      → decide_and_reserve now ids q evaluator s ≡ ok (d, t)
      → Step caps s t
  recorded :
      (now : Time) (id : String) (e : LifecycleEvent) (r : ReservationRow) {s t : Tables}
      → record_lifecycle now id e s ≡ ok (r, t)
      → Step caps s t
  linked :
      (now : Time) (run_id c alias event_id : String) (r : ReservationRow) {s t : Tables}
      → link_correlation now run_id c alias event_id s ≡ ok (r, t)
      → Step caps s t
  resolved :
      (now : Time) (key run_id : String) (outcome : ReservationState) (r : ReservationRow)
      {s t : Tables}
      → resolve_recovery now key run_id outcome s ≡ ok (r, t)
      → Step caps s t
  lapsed : (now : Time) {s : Tables} → Step caps s ((expire_stale now s).1)
  deleted :
      (now : Time) (run_id : String) {s t : Tables} → delete_run now run_id s ≡ ok t → Step caps s t

-- Any number of transactions.
pub data Reaches (caps : String → ℕ) : Tables → Tables → Type 0 where
  done : {s : Tables} → Reaches caps s s
  then : {s t u : Tables} → Step caps s t → Reaches caps t u → Reaches caps s u

create_run-active :
    (a tier : String) (now : Time) (run_id : String) (provider : Provider) (generation : ℕ)
    (mode : OperatingMode) (lease_seconds : ℕ) (owner_id : String) (s t : Tables)
    → create_run now run_id provider generation mode lease_seconds owner_id s ≡ ok t
    → active a tier t ≤ active a tier s
unfolding create_run
create_run-active a tier now run_id provider generation mode lease_seconds owner_id s t h =
    ground arith

heartbeat_run-active :
    (a tier : String) (now : Time) (run_id : String) (lease_seconds : ℕ) (s t : Tables)
    → heartbeat_run now run_id lease_seconds s ≡ ok t
    → active a tier t ≤ active a tier s
unfolding heartbeat_run
heartbeat_run-active a tier now run_id lease_seconds s t h = ground arith

delete_run-active :
    (a tier : String) (now : Time) (run_id : String) (s t : Tables)
    → delete_run now run_id s ≡ ok t
    → active a tier t ≤ active a tier s
unfolding delete_run
delete_run-active a tier now run_id s t h =
    let same : t ≡ cascade run_id s = ground arith in rw same (cascade-active a tier run_id s)

expire_stale-active :
    (a tier : String) (now : Time) (s : Tables)
    → active a tier (expire_reservations now s) ≤ active a tier s
unfolding expire_reservations
expire_stale-active a tier now s = active_expire a tier now s.reservations

module _ (caps : String → ℕ) where
  written-active :
      (a tier : String) (now : Time) (ids : FreshIds) (q : ReservationRequest)
      (evaluator : ReservationSnapshot → DecisionSpec) (run : RunRow) (s : Tables) {t : Tables}
      → Respects caps q evaluator
      → Decided now ids q (specify now q evaluator run s) s t
      → active a tier s ≤ caps tier
      → active a tier t ≤ caps tier
  written-active a tier now ids q evaluator run s fits (with_reservation t go free e) below =
      let asked = specify-approved now q evaluator run s go in
      let room : active q.run_id q.tier s < caps q.tier =
        elim (fits.leaves_slot (snapshot q.run_id s)) [
          | inl no_reserve ↦ absurd (ground (arith, asked, go))
          | inr left ↦ omega (arith, active-le-snapshot q.run_id q.tier s, left)
        ] in
      rw e (approved_slot caps now ids q s a tier room below)
  written-active a tier now ids q evaluator run s fits (without_reservation t stop e) below =
      rw e below

  decide_and_reserve-active :
      (a tier : String) (now : Time) (ids : FreshIds) (q : ReservationRequest)
      (evaluator : ReservationSnapshot → DecisionSpec) (s : Tables) {d : DecisionRow} {t : Tables}
      → Respects caps q evaluator
      → decide_and_reserve now ids q evaluator s ≡ ok (d, t)
      → active a tier s ≤ caps tier
      → active a tier t ≤ caps tier
  decide_and_reserve-active a tier now ids q evaluator s fits h below =
      let lower : active a tier (expire_reservations now s) ≤ caps tier =
        omega (arith, expire_stale-active a tier now s, below) in
      elim (decide_and_reserve-eq-ok now ids q evaluator s h) [
        | inl (found, e) ↦ rw e lower
        | inr (run, fresh, known, e, w) ↦
            written-active a tier now ids q evaluator run (expire_reservations now s) fits w lower
      ]

  step-active :
      (a tier : String) {s t : Tables}
      → Step caps s t
      → active a tier s ≤ caps tier
      → active a tier t ≤ caps tier
  unfolding expire_stale
  step-active a tier {s} {t} (created now run_id provider generation mode n owner_id h) below =
      omega (
        arith,
        create_run-active a tier now run_id provider generation mode n owner_id s t h,
        below,
      )
  step-active a tier {s} {t} (beaten now run_id n h) below =
      omega (arith, heartbeat_run-active a tier now run_id n s t h, below)
  step-active a tier {s} {t} (decided now ids q evaluator d fits h) below =
      decide_and_reserve-active a tier now ids q evaluator s fits h below
  step-active a tier {s} {t} (recorded now id e r h) below =
      omega (arith, record_lifecycle-active a tier now id e s {r = r} {s' = t} h, below)
  step-active a tier {s} {t} (linked now run_id c alias event_id r h) below =
      rw (link_correlation-reservations now run_id c alias event_id s {r = r} {s' = t} h) below
  step-active a tier {s} {t} (resolved now key run_id outcome r h) below =
      omega
        (arith, resolve_recovery-active a tier now key run_id outcome s {r = r} {s' = t} h, below)
  step-active a tier {s} (lapsed now) below = omega (arith, expire_stale-active a tier now s, below)
  step-active a tier {s} {t} (deleted now run_id h) below =
      omega (arith, delete_run-active a tier now run_id s t h, below)

-- Whatever transactions commit, of whatever processes and in whatever order, a tier of a run that
-- has at most as many subagents as the cap of the tier allows stays within that cap, if each
-- evaluator that is asked reserves only where the snapshot has a slot of the tier left.
pub slots_within_caps :
    (caps : String → ℕ) (run_id tier : String) {s t : Tables}
    → Reaches caps s t
    → active run_id tier s ≤ caps tier
    → active run_id tier t ≤ caps tier
slots_within_caps caps run_id tier done below = below
slots_within_caps caps run_id tier (then step rest) below =
    slots_within_caps caps run_id tier rest (step-active caps run_id tier step below)

-- The evaluator of `reserve` is such an evaluator.
pub cap_evaluator-Respects :
    (caps : String → ℕ) (q : ReservationRequest) (budget : Usd)
    → Respects caps q (cap_evaluator q (caps q.tier) budget)
unfolding cap_evaluator
cap_evaluator-Respects caps q budget = record { leaves_slot = λ shot. ground arith }
