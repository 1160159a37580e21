-- ===== src/Conductor/Store/Slots.antt =====
-- The slots of a tier under every operation of codex-conductor/src/conductor/store.py that writes, in
-- any order: what one transaction does to the number of subagents that hold a slot.
use agent_tooling.Prelude.{
  ℕ, ◌≤◌, ◌≡◌, ap, ◌∙◌, String, Bool, true, not, Option, none, some, List, [], ◌∷◌, arith, any,
  find, select, count_where, update_where, eqb, ◌==◌,
}
use agent_tooling.Conductor.Schemas.{ReservationState, LifecycleKind, Time}
use agent_tooling.Conductor.Lifecycle.{transition}
use agent_tooling.Conductor.Store.Result.{
  Result, ok, state_error, value_error, ◌>>=◌, ◌>>◌, raise_if, raise_if-eq-ok, >>=-eq-ok,
}
use agent_tooling.Conductor.Store.Tables.{ReservationRow, LifecycleEvent, RawUsage, Tables}
use agent_tooling.Conductor.Store.Reservations.{has_correlation, insert_reservation}
use agent_tooling.Conductor.Store.Snapshots.{active_in}
use agent_tooling.Conductor.Store.Runs.{run_is}
use agent_tooling.Conductor.Store.Reservations.Caps.{active}
use agent_tooling.Conductor.Store.Events.{
  advance_row, advance_found, advance_reservation, record_usage, record_cost, event_is,
  record_event, record_lifecycle, reservation_is,
}
use agent_tooling.Conductor.Store.Correlations.{link_correlation, link_source, reservation}
use agent_tooling.Conductor.Store.Events.Delivery.{record_new-eq-ok, record_again-eq-ok}
use agent_tooling.Conductor.Store.Maintenance.{
  cascade, resolve_recovery, recoverable_is, resolve_row, is_outcome,
}

-- A slot that a row holds after an event was held before it.
advance_row-active :
    (run_id tier : String) (now : Time) (k : LifecycleKind) (r : ReservationRow)
    → active_in run_id tier (advance_row now k r) ≡ true
    → active_in run_id tier r ≡ true
unfolding advance_row transition
advance_row-active run_id tier now k r h = ground arith

count_where-update :
    {A : Type 0} (p q : A → Bool) (f : A → A)
    → ((a : A) → p (f a) ≡ true → p a ≡ true)
    → (xs : List A) → count_where p (update_where q f xs) ≤ count_where p xs
count_where-update p q f back [] = omega arith
count_where-update p q f back (x ∷ xs) =
    let fx = back x in ground (arith, count_where-update p q f back xs, fx)

count_where-select :
    {A : Type 0} (p q : A → Bool) (xs : List A) → count_where p (select q xs) ≤ count_where p xs
count_where-select p q [] = omega arith
count_where-select p q (x ∷ xs) = ground (arith, count_where-select p q xs)

resolve_row-active :
    (run_id tier : String) (now : Time) (outcome : ReservationState) (r : ReservationRow)
    → is_outcome outcome ≡ true
    → active_in run_id tier (resolve_row now outcome r) ≡ true
    → active_in run_id tier r ≡ true
resolve_row-active run_id tier now outcome r end h = ground arith

advance_found-active :
    (run_id tier : String) (o : Option ReservationRow) (now : Time) (id : String)
    (e : LifecycleEvent) (s t : Tables)
    → advance_found o now id e s ≡ ok t
    → active run_id tier t ≤ active run_id tier s
unfolding advance_found insert_reservation
advance_found-active run_id tier none now id e s t h = ground arith
advance_found-active run_id tier (some row) now id e s t h =
    let fewer =
      count_where-update (active_in run_id tier) (reservation_is row.reservation_id)
        (advance_row now e.kind) (advance_row-active run_id tier now e.kind) s.reservations in
    let new : t.reservations
        ≡ update_where (reservation_is row.reservation_id) (advance_row now e.kind) s.reservations =
      ground arith in
    rw new fewer

record_usage-reservations :
    (run_id : String) (u : Option RawUsage) (s : Tables)
    → (record_usage run_id u s).reservations ≡ s.reservations
unfolding record_usage
record_usage-reservations run_id u s = ground arith

record_cost-reservations :
    (now : Time) (e : LifecycleEvent) (usd : Option ℕ) (s : Tables)
    → (record_cost now e usd s).reservations ≡ s.reservations
unfolding record_cost
record_cost-reservations now e usd s = ground arith

record_event-active :
    (run_id tier : String) (o : Option LifecycleEvent) (now : Time) (id : String)
    (e : LifecycleEvent) (s : Tables) {r : ReservationRow} {s' : Tables}
    → record_event o now id e s ≡ ok (r, s')
    → active run_id tier s' ≤ active run_id tier s
record_event-active run_id tier none now id e s {r} {s'} h =
    let t : Tables = record s { lifecycle_events = e ∷ s.lifecycle_events } in
    let (s1, advanced, after, row) =
      record_new-eq-ok now id e s {r = r} {s' = s'} (unfold record_event in h) in
    let s2 : Tables = record_usage e.run_id e.usage s1 in
    let fewer : active run_id tier s1 ≤ active run_id tier s =
      advance_found-active run_id tier
        (find (has_correlation e.run_id e.correlation_id) t.reservations) now id e t s1
        (unfold advance_reservation in advanced) in
    let same : s'.reservations ≡ s1.reservations =
      ap (λ (x : Tables). x.reservations) after
      ∙ record_cost-reservations now e e.cost_usd s2
      ∙ record_usage-reservations e.run_id e.usage s1 in
    rw same fewer
record_event-active run_id tier (some x) now id e s {r} {s'} h =
    let (_, _, kept) = record_again-eq-ok x e s {r = r} {s' = s'} (unfold record_event in h) in
    rw kept (omega arith)

-- No lifecycle event adds a subagent to a tier.
pub record_lifecycle-active :
    (run_id tier : String) (now : Time) (id : String) (e : LifecycleEvent) (s : Tables)
    {r : ReservationRow} {s' : Tables}
    → record_lifecycle now id e s ≡ ok (r, s')
    → active run_id tier s' ≤ active run_id tier s
record_lifecycle-active run_id tier now id e s {r} {s'} h =
    let o : Option LifecycleEvent = find (event_is e.run_id e.event_id) s.lifecycle_events in
    let (_, h1) =
      raise_if-eq-ok (not (any (run_is e.run_id) s.runs)) state_error (record_event o now id e s)
        {v = (r, s')} (unfold record_lifecycle in h) in
    record_event-active run_id tier o now id e s h1

-- Nor does a resolved recovery.
pub resolve_recovery-active :
    (run_id tier : String) (now : Time) (key run : String) (outcome : ReservationState) (s : Tables)
    {r : ReservationRow} {s' : Tables}
    → resolve_recovery now key run outcome s ≡ ok (r, s')
    → active run_id tier s' ≤ active run_id tier s
resolve_recovery-active run_id tier now key run outcome s {r} {s'} h =
    let after : ReservationRow → Tables = λ row. record s {
      reservations =
          update_where (recoverable_is row.reservation_id) (resolve_row now outcome) s.reservations;
    } in
    let finish : Tables → ReservationRow → Result (ReservationRow × Tables) =
      λ s1 resolved. ok (resolved, s1) in
    let write : ReservationRow → Result (ReservationRow × Tables) =
      λ row. reservation row.reservation_id run (after row) >>= finish (after row) in
    let one : ReservationRow → Bool =
      λ row. not (eqb (count_where (recoverable_is row.reservation_id) s.reservations) 1) in
    let rest : ReservationRow → Result (ReservationRow × Tables) =
      λ row. raise_if (one row) state_error >> write row in
    let (outcome_ok, h1) =
      raise_if-eq-ok (not (is_outcome outcome)) value_error (reservation key run s >>= rest)
        {v = (r, s')} (unfold resolve_recovery in h) in
    let (row, _, h2) = >>=-eq-ok (reservation key run s) rest {v = (r, s')} h1 in
    let (_, h3) = raise_if-eq-ok (one row) state_error (write row) {v = (r, s')} h2 in
    let (resolved, _, h4) =
      >>=-eq-ok (reservation row.reservation_id run (after row)) (finish (after row)) {v = (r, s')}
        h3 in
    let same : s' ≡ after row = ground arith in
    rw same (
      count_where-update (active_in run_id tier) (recoverable_is row.reservation_id)
        (resolve_row now outcome) (λ x. resolve_row-active run_id tier now outcome x (ground arith))
        s.reservations)

link_source-reservations :
    (now : Time) (run_id alias event_id : String) (source : ReservationRow) (s : Tables)
    {r : ReservationRow} {s' : Tables}
    → link_source now run_id alias event_id source s ≡ ok (r, s')
    → s'.reservations ≡ s.reservations
unfolding link_source
link_source-reservations now run_id alias event_id source s h = ground arith

pub link_correlation-reservations :
    (now : Time) (run_id c alias event_id : String) (s : Tables) {r : ReservationRow} {s' : Tables}
    → link_correlation now run_id c alias event_id s ≡ ok (r, s')
    → s'.reservations ≡ s.reservations
unfolding link_correlation
link_correlation-reservations now run_id c alias event_id s {r} {s'} h =
    let rest : ReservationRow → Result (ReservationRow × Tables) =
      λ source. link_source now run_id alias event_id source s in
    let (_, h1) = raise_if-eq-ok _ value_error (reservation c run_id s >>= rest) {v = (r, s')} h in
    let (source, _, h2) = >>=-eq-ok (reservation c run_id s) rest {v = (r, s')} h1 in
    link_source-reservations now run_id alias event_id source s h2

pub cascade-active :
    (run_id tier run : String) (s : Tables)
    → active run_id tier (cascade run s) ≤ active run_id tier s
unfolding cascade
cascade-active run_id tier run s =
    count_where-select (active_in run_id tier) (λ r. not (r.run_id == run)) s.reservations
