-- ===== src/Conductor/Store/Events/Delivery.antt =====
-- A lifecycle event that is delivered again changes nothing, and its cost is counted once.
use agent_tooling.Prelude.{
  ℕ, ◌≡◌, refl, ap, ◌∙◌, String, true, not, Option, none, some, List, ◌∷◌, arith, any, find,
  eq_refl,
}
use agent_tooling.Conductor.Schemas.{Time}
use agent_tooling.Conductor.Store.Result.{Result, ok, state_error, ◌>>=◌, >>=-eq-ok, raise_if-eq-ok}
use agent_tooling.Conductor.Store.Tables.{ReservationRow, RawUsage, LifecycleEvent, Tables}
use agent_tooling.Conductor.Store.Reservations.{has_correlation}
use agent_tooling.Conductor.Store.Runs.{run_is}
use agent_tooling.Conductor.Store.Events.{
  same_semantics, event_is, reservation_in_transaction, advance_found, advance_reservation,
  record_usage, record_cost, record_new, record_again, record_event, record_lifecycle,
}
use agent_tooling.Conductor.Store.Events.Semantics.{
  at_time, same_semantics_refl, same_semantics-at_time,
}

pub advance_found-keeps :
    (o : Option ReservationRow) (now : Time) (id : String) (e : LifecycleEvent) (s t : Tables)
    → advance_found o now id e s ≡ ok t
    → (t.runs ≡ s.runs) × (t.lifecycle_events ≡ s.lifecycle_events) × (t.costs ≡ s.costs)
unfolding advance_found
advance_found-keeps none now id e s t h = ground arith
advance_found-keeps (some r) now id e s t h = ground arith

pub record_usage-keeps :
    (run_id : String) (u : Option RawUsage) (s : Tables)
    → ((record_usage run_id u s).runs ≡ s.runs)
      × ((record_usage run_id u s).lifecycle_events ≡ s.lifecycle_events)
      × ((record_usage run_id u s).costs ≡ s.costs)
unfolding record_usage
record_usage-keeps run_id u s = ground arith

pub record_cost-keeps :
    (now : Time) (e : LifecycleEvent) (usd : Option ℕ) (s : Tables)
    → ((record_cost now e usd s).runs ≡ s.runs)
      × ((record_cost now e usd s).lifecycle_events ≡ s.lifecycle_events)
unfolding record_cost
record_cost-keeps now e usd s = ground arith

-- A new event that was recorded.
pub record_new-eq-ok :
    (now : Time) (id : String) (e : LifecycleEvent) (s : Tables) {r : ReservationRow} {s' : Tables}
    → record_new now id e s ≡ ok (r, s')
    → (s1 : Tables) × (advance_reservation now id e
          (record s { lifecycle_events = e ∷ s.lifecycle_events })
        ≡ ok s1)
      × (s' ≡ record_cost now e e.cost_usd (record_usage e.run_id e.usage s1))
      × (reservation_in_transaction e.run_id e.correlation_id s' ≡ ok r)
record_new-eq-ok now id e s {r} {s'} h =
    let t : Tables = record s { lifecycle_events = e ∷ s.lifecycle_events } in
    let after : Tables → Tables =
      λ s1. record_cost now e e.cost_usd (record_usage e.run_id e.usage s1) in
    let read : Tables → ReservationRow → Result (ReservationRow × Tables) =
      λ s1 row. ok (row, after s1) in
    let rest : Tables → Result (ReservationRow × Tables) =
      λ s1. reservation_in_transaction e.run_id e.correlation_id (after s1) >>= read s1 in
    let (s1, e1, h1) =
      >>=-eq-ok (advance_reservation now id e t) rest {v = (r, s')} (unfold record_new in h) in
    let (row, e2, h2) =
      >>=-eq-ok (reservation_in_transaction e.run_id e.correlation_id (after s1)) (read s1)
        {v = (r, s')} h1 in
    let same : s' ≡ after s1 = ground arith in
    let same_row : row ≡ r = ground arith in (s1, e1, same, rw (same, ← same_row) e2)

pub record_again-eq-ok :
    (x e : LifecycleEvent) (s : Tables) {r : ReservationRow} {s' : Tables}
    → record_again x e s ≡ ok (r, s')
    → (same_semantics x e ≡ true)
      × (reservation_in_transaction e.run_id e.correlation_id s ≡ ok r)
      × (s' ≡ s)
record_again-eq-ok x e s {r} {s'} h =
    let read : ReservationRow → Result (ReservationRow × Tables) = λ row. ok (row, s) in
    let rest : Result (ReservationRow × Tables) =
      reservation_in_transaction e.run_id e.correlation_id s >>= read in
    let (same, h1) =
      raise_if-eq-ok (not (same_semantics x e)) state_error rest {v = (r, s')}
        (unfold record_again in h) in
    let (row, e2, h2) =
      >>=-eq-ok (reservation_in_transaction e.run_id e.correlation_id s) read {v = (r, s')} h1 in
    let same_row : row ≡ r = ground arith in (ground arith, rw (← same_row) e2, ground arith)

-- The tables know the event.
record IsKnown (e : LifecycleEvent) (r : ReservationRow) (s : Tables) : Type 0 where
  in_run : any (run_is e.run_id) s.runs ≡ true
  stored : LifecycleEvent
  found : find (event_is e.run_id e.event_id) s.lifecycle_events ≡ some stored
  same : same_semantics stored e ≡ true
  row : reservation_in_transaction e.run_id e.correlation_id s ≡ ok r

event_found :
    (e : LifecycleEvent) (es : List LifecycleEvent)
    → find (event_is e.run_id e.event_id) (e ∷ es) ≡ some e
event_found e es = ground (arith, eq_refl e.run_id, eq_refl e.event_id)

record_event-IsKnown :
    (o : Option LifecycleEvent) (now : Time) (id : String) (e : LifecycleEvent) (s : Tables)
    {r : ReservationRow} {s' : Tables}
    → any (run_is e.run_id) s.runs ≡ true
    → find (event_is e.run_id e.event_id) s.lifecycle_events ≡ o
    → record_event o now id e s ≡ ok (r, s')
    → IsKnown e r s'
record_event-IsKnown none now id e s {r} {s'} in_run at_o h =
    let t : Tables = record s { lifecycle_events = e ∷ s.lifecycle_events } in
    let (s1, advanced, after, row) =
      record_new-eq-ok now id e s {r = r} {s' = s'} (unfold record_event in h) in
    let s2 : Tables = record_usage e.run_id e.usage s1 in
    let (runs1, events1, _) =
      advance_found-keeps (find (has_correlation e.run_id e.correlation_id) t.reservations) now id e
        t s1 (unfold advance_reservation in advanced) in
    let (runs2, events2, _) = record_usage-keeps e.run_id e.usage s1 in
    let (runs3, events3) = record_cost-keeps now e e.cost_usd s2 in
    let runs : s'.runs ≡ s.runs = ap (λ (x : Tables). x.runs) after ∙ runs3 ∙ runs2 ∙ runs1 in
    let events : s'.lifecycle_events ≡ e ∷ s.lifecycle_events =
      ap (λ (x : Tables). x.lifecycle_events) after ∙ events3 ∙ events2 ∙ events1 in
    record {
      in_run = rw runs in_run;
      stored = e;
      found = rw events (event_found e s.lifecycle_events);
      same = same_semantics_refl e;
      row = row;
    }
record_event-IsKnown (some x) now id e s {r} {s'} in_run at_o h =
    let (same, row, kept) = record_again-eq-ok x e s {r = r} {s' = s'} (unfold record_event in h) in
    rw kept (record { in_run = in_run; stored = x; found = at_o; same = same; row = row })

record_again-known :
    (x e : LifecycleEvent) (r : ReservationRow) (s : Tables)
    → same_semantics x e ≡ true
    → reservation_in_transaction e.run_id e.correlation_id s ≡ ok r
    → record_again x e s ≡ ok (r, s)
unfolding record_again
record_again-known x e r s same row = rw (same, row)

IsKnown-again :
    (later : Time) (id : String) (t : Time) (e : LifecycleEvent) (r : ReservationRow) (s : Tables)
    → IsKnown e r s
    → record_lifecycle later id (at_time t e) s ≡ ok (r, s)
IsKnown-again later id t e r s known =
    let same : same_semantics known.stored (at_time t e) ≡ true =
      same_semantics-at_time t known.stored e ∙ known.same in
    let back : record_again known.stored (at_time t e) s ≡ ok (r, s) =
      record_again-known known.stored (at_time t e) r s same known.row in
    let event : record_event (some known.stored) later id (at_time t e) s ≡ ok (r, s) =
      unfold record_event in back in
    unfold record_lifecycle in rw (known.in_run, known.found) event

-- A lifecycle event that was recorded can be delivered again, at any time and with another
-- timestamp: it returns the same reservation and changes nothing in the tables.
pub record_lifecycle_idem :
    (now later : Time) (id id' : String) (e : LifecycleEvent) (t : Time) (s : Tables)
    (r : ReservationRow) (s' : Tables)
    → record_lifecycle now id e s ≡ ok (r, s')
    → record_lifecycle later id' (at_time t e) s' ≡ ok (r, s')
record_lifecycle_idem now later id id' e t s r s' h =
    let rest : Result (ReservationRow × Tables) =
      record_event (find (event_is e.run_id e.event_id) s.lifecycle_events) now id e s in
    let (known_run, h1) =
      raise_if-eq-ok (not (any (run_is e.run_id) s.runs)) state_error rest {v = (r, s')}
        (unfold record_lifecycle in h) in
    let known : IsKnown e r s' =
      record_event-IsKnown (find (event_is e.run_id e.event_id) s.lifecycle_events) now id e s
        (ground arith) refl h1 in
    IsKnown-again later id' t e r s' known
