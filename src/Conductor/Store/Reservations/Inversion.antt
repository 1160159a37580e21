-- ===== src/Conductor/Store/Reservations/Inversion.antt =====
-- What a `decide_and_reserve` that returned has done to the tables.
use agent_tooling.Prelude.{
  ◌≡◌, refl, true, false, ◌&&◌, Option, none, some, ◌∷◌, arith, any, find, Bool-cases, inl, inr,
  ◌⊎◌,
}
use agent_tooling.Conductor.Schemas.{Time, ReservationSnapshot}
use agent_tooling.Conductor.Policy.Outcome.{DecisionSpec}
use agent_tooling.Conductor.Store.Result.{ok, state_error, or_raise, >>=-eq-ok, or_raise-eq-ok}
use agent_tooling.Conductor.Store.Tables.{RunRow, OperationRow, DecisionRow, Tables}
use agent_tooling.Conductor.Store.Reservations.{
  ReservationRequest, FreshIds, has_key, clashes, approved_row, operation_row, decision_row,
  record_decision, decide_in_run, insert_operation, specify, decide_new, decision_for,
  decide_and_reserve,
}
use agent_tooling.Conductor.Store.Snapshots.{expire_reservations}
use agent_tooling.Conductor.Store.Runs.{run_is}

-- The tables after a new decision, with the reservation if it was approved.
pub data Decided (now : Time) (ids : FreshIds) (q : ReservationRequest) (spec : DecisionSpec)
    (s : Tables) : Tables → Type 0 where
  with_reservation :
      (s' : Tables)
      → (spec.allowed && spec.reserve) ≡ true
      → any (clashes (approved_row now q ids)) s.reservations ≡ false
      → s' ≡ record s {
        operations = operation_row now q ids ∷ s.operations;
        reservations = approved_row now q ids ∷ s.reservations;
        decisions = decision_row now q ids spec ∷ s.decisions;
      }
      → Decided now ids q spec s s'
  without_reservation :
      (s' : Tables)
      → (spec.allowed && spec.reserve) ≡ false
      → s' ≡ record s {
        operations = operation_row now q ids ∷ s.operations;
        decisions = decision_row now q ids spec ∷ s.decisions;
      }
      → Decided now ids q spec s s'

record_decision-with :
    (now : Time) (ids : FreshIds) (q : ReservationRequest) (spec : DecisionSpec) (s : Tables)
    {d : DecisionRow} {s' : Tables}
    → (spec.allowed && spec.reserve) ≡ true
    → record_decision now ids q spec s ≡ ok (d, s')
    → (any (clashes (approved_row now q ids)) s.reservations ≡ false)
      × (d ≡ decision_row now q ids spec)
      × (s' ≡ record s {
        reservations = approved_row now q ids ∷ s.reservations;
        decisions = decision_row now q ids spec ∷ s.decisions;
      })
unfolding record_decision
record_decision-with now ids q spec s go h = ground arith

record_decision-without :
    (now : Time) (ids : FreshIds) (q : ReservationRequest) (spec : DecisionSpec) (s : Tables)
    {d : DecisionRow} {s' : Tables}
    → (spec.allowed && spec.reserve) ≡ false
    → record_decision now ids q spec s ≡ ok (d, s')
    → (d ≡ decision_row now q ids spec)
      × (s' ≡ record s { decisions = decision_row now q ids spec ∷ s.decisions })
unfolding record_decision
record_decision-without now ids q spec s stop h = ground arith

insert_operation-eq-ok :
    (row : OperationRow) (s : Tables) {t : Tables}
    → insert_operation row s ≡ ok t
    → t ≡ record s { operations = row ∷ s.operations }
unfolding insert_operation
insert_operation-eq-ok row s h = ground arith

decided :
    (now : Time) (ids : FreshIds) (q : ReservationRequest) (spec : DecisionSpec) (s : Tables)
    {d : DecisionRow} {s' : Tables}
    → record_decision now ids q spec
        (record s { operations = operation_row now q ids ∷ s.operations })
      ≡ ok (d, s')
    → (d ≡ decision_row now q ids spec) × Decided now ids q spec s s'
decided now ids q spec s {d} {s'} h = elim (Bool-cases (spec.allowed && spec.reserve)) [
  | inl go ↦
      let (free, e, e') = record_decision-with now ids q spec _ go h in
      (e, with_reservation s' go free e')
  | inr stop ↦
      let (e, e') = record_decision-without now ids q spec _ stop h in
      (e, without_reservation s' stop e')
]

pub decide_in_run-eq-ok :
    (now : Time) (ids : FreshIds) (q : ReservationRequest)
    (evaluator : ReservationSnapshot → DecisionSpec) (run : RunRow) (s : Tables) {d : DecisionRow}
    {s' : Tables}
    → decide_in_run now ids q evaluator run s ≡ ok (d, s')
    → (d ≡ decision_row now q ids (specify now q evaluator run s))
      × Decided now ids q (specify now q evaluator run s) s s'
decide_in_run-eq-ok now ids q evaluator run s {d} {s'} h =
    let t : Tables = record s { operations = operation_row now q ids ∷ s.operations } in
    let (s1, e1, h1) =
      >>=-eq-ok (insert_operation (operation_row now q ids) s)
        (λ s1. record_decision now ids q (specify now q evaluator run s1) s1) {v = (d, s')}
        (unfold decide_in_run in h) in
    let e : s1 ≡ t = insert_operation-eq-ok (operation_row now q ids) s e1 in
    let h2 : record_decision now ids q (specify now q evaluator run t) t ≡ ok (d, s') =
      rw e at h1 in
    decided now ids q (specify now q evaluator run s) s (unfold specify in h2)

-- A new decision is the row that its specification gives, and the tables are those that it makes.
pub decide_new-eq-ok :
    (now : Time) (ids : FreshIds) (q : ReservationRequest)
    (evaluator : ReservationSnapshot → DecisionSpec) (s : Tables) {d : DecisionRow} {s' : Tables}
    → decide_new now ids q evaluator s ≡ ok (d, s')
    → (run : RunRow) × (find (run_is q.run_id) s.runs ≡ some run)
      × (d ≡ decision_row now q ids (specify now q evaluator run s))
      × Decided now ids q (specify now q evaluator run s) s s'
decide_new-eq-ok now ids q evaluator s {d} {s'} h =
    let (run, found, h1) =
      >>=-eq-ok (or_raise (find (run_is q.run_id) s.runs) state_error)
        (λ run. decide_in_run now ids q evaluator run s) {v = (d, s')} (unfold decide_new in h) in
    let (e, w) = decide_in_run-eq-ok now ids q evaluator run s h1 in
    (run, or_raise-eq-ok _ state_error found, e, w)

-- A call that returned found the decision, or made it.
pub decision_for-eq-ok :
    (o : Option DecisionRow) (now : Time) (ids : FreshIds) (q : ReservationRequest)
    (evaluator : ReservationSnapshot → DecisionSpec) (s : Tables) {d : DecisionRow} {s' : Tables}
    → decision_for o now ids q evaluator s ≡ ok (d, s')
    → ((o ≡ some d) × (s' ≡ s))
      ⊎ ((run : RunRow) × (o ≡ none)
          × (find (run_is q.run_id) s.runs ≡ some run)
          × (d ≡ decision_row now q ids (specify now q evaluator run s))
          × Decided now ids q (specify now q evaluator run s) s s')
unfolding decision_for
decision_for-eq-ok (some x) now ids q evaluator s h = inl (ground arith, ground arith)
decision_for-eq-ok none now ids q evaluator s h =
    let (run, found, e, w) = decide_new-eq-ok now ids q evaluator s h in
    inr (run, refl, found, e, w)

pub decide_and_reserve-eq-ok :
    (now : Time) (ids : FreshIds) (q : ReservationRequest)
    (evaluator : ReservationSnapshot → DecisionSpec) (s : Tables) {d : DecisionRow} {s' : Tables}
    → decide_and_reserve now ids q evaluator s ≡ ok (d, s')
    → let s0 = expire_reservations now s in
      ((find (has_key q.run_id q.idempotency_key) s0.decisions ≡ some d) × (s' ≡ s0))
      ⊎ ((run : RunRow) × (find (has_key q.run_id q.idempotency_key) s0.decisions ≡ none)
          × (find (run_is q.run_id) s0.runs ≡ some run)
          × (d ≡ decision_row now q ids (specify now q evaluator run s0))
          × Decided now ids q (specify now q evaluator run s0) s0 s')
decide_and_reserve-eq-ok now ids q evaluator s {d} {s'} h =
    let s0 : Tables = expire_reservations now s in
    decision_for-eq-ok (find (has_key q.run_id q.idempotency_key) s0.decisions) now ids q evaluator
      s0 {d = d} {s' = s'} (unfold decide_and_reserve in h)
