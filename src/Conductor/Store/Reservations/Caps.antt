-- ===== src/Conductor/Store/Reservations/Caps.antt =====
-- No sequence of reservations passes the concurrency caps of the tiers or the budget of a run.
use agent_tooling.Prelude.{
  ℕ, ◌+◌, ◌≤◌, ◌<◌, ◌≡◌, refl, String, true, ◌&&◌, List, [], ◌∷◌, arith, count_where, sum_where,
  ◌==◌, eq_iff, Bool-cases, inl, inr,
}
use agent_tooling.Conductor.Schemas.{Time, Usd, ReservationSnapshot}
use agent_tooling.Conductor.Policy.Outcome.{DecisionSpec}
use agent_tooling.Conductor.Policy.{tolerance}
use agent_tooling.Conductor.Store.Result.{Result, ok, raises}
use agent_tooling.Conductor.Store.Tables.{RunRow, ReservationRow, DecisionRow, Tables}
use agent_tooling.Conductor.Store.Reservations.{
  ReservationRequest, FreshIds, approved_row, specify, cap_evaluator, reserve,
}
use agent_tooling.Conductor.Store.Snapshots.{
  active_in, reserved_in, cost_of, expire_rows, expire_reservations, snapshot,
}
use agent_tooling.Conductor.Store.Reservations.Inversion.{
  Decided, with_reservation, without_reservation, decide_and_reserve-eq-ok,
}

-- The reservations of a run that hold a slot of the tier.
abbrev pub active : String → String → Tables → ℕ
active run_id tier s = count_where (active_in run_id tier) s.reservations

-- What a run has spent and what it has reserved.
abbrev pub committed : String → Tables → Usd
committed run_id s =
    sum_where (cost_of run_id) (λ c. c.usd) s.costs
    + sum_where (reserved_in run_id) (λ r. r.estimated_usd) s.reservations

pub active_expire :
    (run_id tier : String) (now : Time) (rows : List ReservationRow)
    → count_where (active_in run_id tier) (expire_rows now rows)
      ≤ count_where (active_in run_id tier) rows
unfolding expire_rows
active_expire run_id tier now [] = omega arith
active_expire run_id tier now (r ∷ rs) = ground (arith, active_expire run_id tier now rs)

pub reserved_expire :
    (run_id : String) (now : Time) (rows : List ReservationRow)
    → sum_where (reserved_in run_id) (λ r. r.estimated_usd) (expire_rows now rows)
      ≤ sum_where (reserved_in run_id) (λ r. r.estimated_usd) rows
unfolding expire_rows
reserved_expire run_id now [] = omega arith
reserved_expire run_id now (r ∷ rs) = ground (arith, reserved_expire run_id now rs)

-- What the snapshot counts is no less than what holds a slot.
pub active-le-snapshot :
    (run_id tier : String) (s : Tables)
    → active run_id tier s ≤ (snapshot run_id s).active_by_tier tier
unfolding snapshot
active-le-snapshot run_id tier s = ground arith

-- The store asks the evaluator before it approves.
pub specify-approved :
    (now : Time) (q : ReservationRequest) (evaluator : ReservationSnapshot → DecisionSpec)
    (run : RunRow) (s : Tables)
    → ((specify now q evaluator run s).allowed && (specify now q evaluator run s).reserve) ≡ true
    → specify now q evaluator run s ≡ evaluator (snapshot q.run_id s)
unfolding specify
specify-approved now q evaluator run s h = ground arith

pub cap_evaluator-approved :
    (q : ReservationRequest) (cap : ℕ) (budget : Usd) (shot : ReservationSnapshot)
    → (cap_evaluator q cap budget shot).allowed ≡ true
    → (shot.active_by_tier q.tier < cap)
      × (shot.spent_usd + shot.reserved_usd + q.estimated_usd ≤ budget + tolerance)
unfolding cap_evaluator
cap_evaluator-approved q cap budget shot h = ground arith

pub approved_slot :
    (caps : String → ℕ) (now : Time) (ids : FreshIds) (q : ReservationRequest) (s : Tables)
    (run_id tier : String)
    → active q.run_id q.tier s < caps q.tier
    → active run_id tier s ≤ caps tier
    → count_where (active_in run_id tier) (approved_row now q ids ∷ s.reservations) ≤ caps tier
approved_slot caps now ids q s run_id tier room fits =
    elim (Bool-cases (q.run_id == run_id && q.tier == tier)) [
      | inl same ↦
          let r : q.run_id ≡ run_id = (eq_iff q.run_id run_id).0 (ground arith) in
          let t : q.tier ≡ tier = (eq_iff q.tier tier).0 (ground arith) in
          let here : active run_id tier s < caps tier = rw (← r, ← t) room in ground arith
      | inr other ↦ ground arith
    ]

pub committed_fits :
    (q : ReservationRequest) (s : Tables) {bound : ℕ}
    → (snapshot q.run_id s).spent_usd + (snapshot q.run_id s).reserved_usd + q.estimated_usd ≤ bound
    → committed q.run_id s + q.estimated_usd ≤ bound
unfolding snapshot
committed_fits q s h = h

pub approved_dollars :
    (budget : String → Usd) (now : Time) (ids : FreshIds) (q : ReservationRequest) (s : Tables)
    (run_id : String)
    → committed q.run_id s + q.estimated_usd ≤ budget q.run_id + tolerance
    → committed run_id s ≤ budget run_id + tolerance
    → sum_where (cost_of run_id) (λ c. c.usd) s.costs
        + sum_where
            (reserved_in run_id)
            (λ r. r.estimated_usd)
            (approved_row now q ids ∷ s.reservations)
      ≤ budget run_id + tolerance
approved_dollars budget now ids q s run_id room fits = elim (Bool-cases (q.run_id == run_id)) [
  | inl same ↦
      let r : q.run_id ≡ run_id = (eq_iff q.run_id run_id).0 same in
      let here : committed run_id s + q.estimated_usd ≤ budget run_id + tolerance = rw (← r) room in
      ground arith
  | inr other ↦ ground arith
]

-- The caps: one for each tier, and a budget for each run.
pub record IsWithin (caps : String → ℕ) (budget : String → Usd) (s : Tables) : Type 0 where
  pub slots : (run_id tier : String) → active run_id tier s ≤ caps tier
  pub dollars : (run_id : String) → committed run_id s ≤ budget run_id + tolerance

module _ (caps : String → ℕ) (budget : String → Usd) where
  expire-IsWithin :
      (now : Time) {s : Tables}
      → IsWithin caps budget s
      → IsWithin caps budget (expire_reservations now s)
  unfolding expire_reservations
  expire-IsWithin now {s} h = record {
    slots = λ run_id tier.
        omega (arith, active_expire run_id tier now s.reservations, h.slots run_id tier);
    dollars = λ run_id. omega (arith, reserved_expire run_id now s.reservations, h.dollars run_id);
  }

  -- A row that passed the evaluator fits.
  approved-IsWithin :
      (now : Time) (ids : FreshIds) (q : ReservationRequest) (run : RunRow) (s : Tables)
      {s' : Tables}
      → IsWithin caps budget s
      → Decided now ids q
          (specify now q (cap_evaluator q (caps q.tier) (budget q.run_id)) run s)
          s
          s'
      → IsWithin caps budget s'
  approved-IsWithin now ids q run s h (with_reservation s' go free e) =
      let evaluator : ReservationSnapshot → DecisionSpec =
        cap_evaluator q (caps q.tier) (budget q.run_id) in
      let asked = specify-approved now q evaluator run s go in
      let fits =
        cap_evaluator-approved q (caps q.tier) (budget q.run_id) (snapshot q.run_id s)
          (ground (arith, asked)) in
      let slot : active q.run_id q.tier s < caps q.tier =
        omega (arith, active-le-snapshot q.run_id q.tier s, fits.0) in
      let dollars : committed q.run_id s + q.estimated_usd ≤ budget q.run_id + tolerance =
        committed_fits q s fits.1 in
      rw e (record {
        slots =
            λ run_id tier. approved_slot caps now ids q s run_id tier slot (h.slots run_id tier);
        dollars = λ run_id. approved_dollars budget now ids q s run_id dollars (h.dollars run_id);
      })
  approved-IsWithin now ids q run s h (without_reservation s' stop e) =
      rw e (record { slots = h.slots; dollars = h.dollars })

  reserve-IsWithin :
      (now : Time) (ids : FreshIds) (q : ReservationRequest) (s : Tables) {d : DecisionRow}
      {s' : Tables}
      → IsWithin caps budget s
      → reserve now ids q (caps q.tier) (budget q.run_id) s ≡ ok (d, s')
      → IsWithin caps budget s'
  unfolding reserve
  reserve-IsWithin now ids q s h r =
      let evaluator : ReservationSnapshot → DecisionSpec =
        cap_evaluator q (caps q.tier) (budget q.run_id) in
      elim (decide_and_reserve-eq-ok now ids q evaluator s r) [
        | inl (found, e) ↦ rw e (expire-IsWithin now h)
        | inr (run, fresh, known, e, w) ↦
            approved-IsWithin now ids q run (expire_reservations now s) (expire-IsWithin now h) w
      ]

-- One call of `reserve`, of some process at some time, with the values of its `_new_id`.
pub record Attempt : Type 0 where
  pub now : Time
  pub ids : FreshIds
  pub request : ReservationRequest

abbrev kept : Result (DecisionRow × Tables) → Tables → Tables
kept (ok (d, s')) s = s'
kept (raises e) s = s

-- The transactions of any number of processes, one after the other; one that raises is rolled back.
unfoldable pub reserve_all : (String → ℕ) → (String → Usd) → List Attempt → Tables → Tables
reserve_all caps budget [] s = s
reserve_all caps budget (a ∷ rest) s =
    reserve_all caps budget rest
      (kept (reserve a.now a.ids a.request (caps a.request.tier) (budget a.request.run_id) s) s)

kept-IsWithin :
    (caps : String → ℕ) (budget : String → Usd) (r : Result (DecisionRow × Tables)) (s : Tables)
    → ((d : DecisionRow) (s' : Tables) → r ≡ ok (d, s') → IsWithin caps budget s')
    → IsWithin caps budget s
    → IsWithin caps budget (kept r s)
kept-IsWithin caps budget (ok (d, s')) s step h = step d s' refl
kept-IsWithin caps budget (raises e) s step h = h

-- If the reservations that hold a slot fit the caps of their tiers in every run, and what each run
-- has spent and reserved fits its budget up to the tolerance, then both still hold after any sequence
-- of `reserve` calls, by any processes, at any times and for any runs, whether each was approved,
-- denied, repeated or raised.
pub reserve_all-IsWithin :
    (caps : String → ℕ) (budget : String → Usd) (attempts : List Attempt) (s : Tables)
    → IsWithin caps budget s
    → IsWithin caps budget (reserve_all caps budget attempts s)
unfolding reserve_all
reserve_all-IsWithin caps budget [] s h = h
reserve_all-IsWithin caps budget (a ∷ rest) s h = reserve_all-IsWithin caps budget rest _ (
    kept-IsWithin caps budget
      (reserve a.now a.ids a.request (caps a.request.tier) (budget a.request.run_id) s) s
      (λ d s' e. reserve-IsWithin caps budget a.now a.ids a.request s h e) h)
