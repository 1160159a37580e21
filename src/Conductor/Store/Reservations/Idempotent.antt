-- ===== src/Conductor/Store/Reservations/Idempotent.antt =====
-- A request that is sent again gets the decision that it had.
use agent_tooling.Prelude.{◌≡◌, sym, ap, ◌∙◌, some, List, ◌∷◌, arith, find, eq_refl, inl, inr}
use agent_tooling.Conductor.Schemas.{Time, ReservationSnapshot}
use agent_tooling.Conductor.Policy.Outcome.{DecisionSpec}
use agent_tooling.Conductor.Store.Result.{ok}
use agent_tooling.Conductor.Store.Tables.{DecisionRow, Tables}
use agent_tooling.Conductor.Store.Reservations.{
  ReservationRequest, FreshIds, has_key, decision_row, decision_for, decide_and_reserve,
}
use agent_tooling.Conductor.Store.Snapshots.{expire_reservations}
use agent_tooling.Conductor.Store.Reservations.Inversion.{
  Decided, with_reservation, without_reservation, decide_and_reserve-eq-ok,
}

key_found :
    (now : Time) (ids : FreshIds) (q : ReservationRequest) (spec : DecisionSpec)
    (rows : List DecisionRow)
    → find (has_key q.run_id q.idempotency_key) (decision_row now q ids spec ∷ rows)
      ≡ some (decision_row now q ids spec)
key_found now ids q spec rows = ground (arith, eq_refl q.run_id, eq_refl q.idempotency_key)

Decided-found :
    {now : Time} {ids : FreshIds} {q : ReservationRequest} {spec : DecisionSpec} {s s' : Tables}
    → Decided now ids q spec s s'
    → find (has_key q.run_id q.idempotency_key) s'.decisions ≡ some (decision_row now q ids spec)
Decided-found {now} {ids} {q} {spec} {s} (with_reservation s' go free e) =
    rw e (key_found now ids q spec s.decisions)
Decided-found {now} {ids} {q} {spec} {s} (without_reservation s' stop e) =
    rw e (key_found now ids q spec s.decisions)

found_again :
    (now : Time) (ids : FreshIds) (q : ReservationRequest)
    (evaluator : ReservationSnapshot → DecisionSpec) (s : Tables) {d : DecisionRow} {s' : Tables}
    → decide_and_reserve now ids q evaluator s ≡ ok (d, s')
    → find (has_key q.run_id q.idempotency_key) s'.decisions ≡ some d
found_again now ids q evaluator s h = elim (decide_and_reserve-eq-ok now ids q evaluator s h) [
  | inl (found, e) ↦ rw e found
  | inr (run, fresh, known, e, w) ↦ Decided-found w ∙ ap some (sym e)
]

-- A request under the run and the idempotency key of a request that was decided, whatever else it
-- asks, whoever evaluates it and however much later it comes, gets that decision, and changes the
-- tables only by the expiry that every request makes.
pub decide_and_reserve_idem :
    (now later : Time) (ids ids' : FreshIds) (q q' : ReservationRequest)
    (evaluator evaluator' : ReservationSnapshot → DecisionSpec) (s : Tables) (d : DecisionRow)
    (s' : Tables)
    → decide_and_reserve now ids q evaluator s ≡ ok (d, s')
    → q'.run_id ≡ q.run_id
    → q'.idempotency_key ≡ q.idempotency_key
    → decide_and_reserve later ids' q' evaluator' s' ≡ ok (d, expire_reservations later s')
decide_and_reserve_idem now later ids ids' q q' evaluator evaluator' s d s' h same_run same_key =
    let found : find (has_key q'.run_id q'.idempotency_key) s'.decisions ≡ some d =
      rw (same_run, same_key) (found_again now ids q evaluator s h) in
    unfold decide_and_reserve in rw (found, decision_for)
