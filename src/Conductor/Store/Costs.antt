-- ===== src/Conductor/Store/Costs.antt =====
-- What `record_lifecycle` of codex-conductor/src/conductor/store.py adds to the cost of a run.
use agent_tooling.Prelude.{
  ◌+◌, ◌≡◌, refl, ap, ◌∙◌, String, Bool, true, false, not, ◌&&◌, Option, none, some, List, [], ◌∷◌,
  arith, any, find, eq_refl, if◌then◌else◌,
}
use agent_tooling.Conductor.Schemas.{Time, Usd}
use agent_tooling.Conductor.Store.Result.{Result, ok, state_error, raise_if-eq-ok}
use agent_tooling.Conductor.Store.Tables.{ReservationRow, LifecycleEvent, Tables}
use agent_tooling.Conductor.Store.Reservations.{has_correlation}
use agent_tooling.Conductor.Store.Runs.{run_is}
use agent_tooling.Conductor.Store.Events.{
  event_is, cost_is, advance_reservation, record_usage, record_cost, record_event, record_lifecycle,
}
use agent_tooling.Conductor.Store.Events.Delivery.{
  advance_found-keeps, record_usage-keeps, record_cost-keeps, record_new-eq-ok, record_again-eq-ok,
}
use agent_tooling.Conductor.Store.Maintenance.{total_cost_usd}

-- Every cost row stands for a lifecycle event that was recorded.
pub record HasEvents (s : Tables) : Type 0 where
  pub recorded :
      (run_id event_id : String)
      → (any (cost_is run_id event_id) s.costs
          && not (any (event_is run_id event_id) s.lifecycle_events))
        ≡ false

no_cost :
    {s : Tables}
    → HasEvents s
    → (run_id event_id : String) → any (event_is run_id event_id) s.lifecycle_events ≡ false
    → any (cost_is run_id event_id) s.costs ≡ false
no_cost costs run_id event_id new =
    let law = costs.recorded run_id event_id in ground (arith, new, law)

abbrev cost_or_zero : Option Usd → Usd
cost_or_zero none = 0
cost_or_zero (some usd) = usd

-- The cost that a delivery of the event adds to its run.
abbrev pub added : LifecycleEvent → Tables → Usd
added e s =
    if any (event_is e.run_id e.event_id) s.lifecycle_events then 0 else cost_or_zero e.cost_usd

record_cost-total :
    (now : Time) (e : LifecycleEvent) (usd : Option Usd) (s : Tables)
    → any (cost_is e.run_id e.event_id) s.costs ≡ false
    → total_cost_usd e.run_id (record_cost now e usd s)
      ≡ total_cost_usd e.run_id s + cost_or_zero usd
unfolding record_cost total_cost_usd
record_cost-total now e usd s fresh = ground (arith, eq_refl e.run_id)

find-any : {A : Type 0} (p : A → Bool) (xs : List A) → find p xs ≡ none → any p xs ≡ false
find-any p [] h = refl
find-any p (x ∷ xs) h = ground (arith, find-any p xs)

find-any-some :
    {A : Type 0} (p : A → Bool) (xs : List A) (a : A) → find p xs ≡ some a → any p xs ≡ true
find-any-some p [] a h = absurd (ground arith)
find-any-some p (x ∷ xs) a h = ground (arith, find-any-some p xs a)

record_event-total :
    (o : Option LifecycleEvent) (now : Time) (id : String) (e : LifecycleEvent) (s : Tables)
    {r : ReservationRow} {s' : Tables}
    → HasEvents s
    → find (event_is e.run_id e.event_id) s.lifecycle_events ≡ o
    → record_event o now id e s ≡ ok (r, s')
    → total_cost_usd e.run_id s' ≡ total_cost_usd e.run_id s + added e s
record_event-total none now id e s {r} {s'} costs at_o h =
    let t : Tables = record s { lifecycle_events = e ∷ s.lifecycle_events } in
    let (s1, advanced, after, row) =
      record_new-eq-ok now id e s {r = r} {s' = s'} (unfold record_event in h) in
    let s2 : Tables = record_usage e.run_id e.usage s1 in
    let (_, _, costs1) =
      advance_found-keeps (find (has_correlation e.run_id e.correlation_id) t.reservations) now id e
        t s1 (unfold advance_reservation in advanced) in
    let (_, _, costs2) = record_usage-keeps e.run_id e.usage s1 in
    let same : s2.costs ≡ s.costs = costs2 ∙ costs1 in
    let new : any (event_is e.run_id e.event_id) s.lifecycle_events ≡ false =
      find-any (event_is e.run_id e.event_id) s.lifecycle_events at_o in
    let free : any (cost_is e.run_id e.event_id) s2.costs ≡ false =
      rw same (no_cost costs e.run_id e.event_id new) in
    let total : total_cost_usd e.run_id s2 ≡ total_cost_usd e.run_id s =
      unfold total_cost_usd in rw same in
    rw (after, new)
      (record_cost-total now e e.cost_usd s2 free ∙ ap (λ n. n + cost_or_zero e.cost_usd) total)
record_event-total (some x) now id e s {r} {s'} costs at_o h =
    let (_, _, kept) = record_again-eq-ok x e s {r = r} {s' = s'} (unfold record_event in h) in
    let old : any (event_is e.run_id e.event_id) s.lifecycle_events ≡ true =
      find-any-some (event_is e.run_id e.event_id) s.lifecycle_events x at_o in
    rw (kept, old) (omega arith)

-- Where every cost row stands for a recorded event, a delivery that is accepted adds the cost of its
-- event to the run if the event is new there, and nothing if the run has the event already.
pub record_lifecycle_cost :
    (now : Time) (id : String) (e : LifecycleEvent) (s : Tables) (r : ReservationRow) (s' : Tables)
    → HasEvents s
    → record_lifecycle now id e s ≡ ok (r, s')
    → total_cost_usd e.run_id s' ≡ total_cost_usd e.run_id s + added e s
record_lifecycle_cost now id e s r s' costs h =
    let rest : Result (ReservationRow × Tables) =
      record_event (find (event_is e.run_id e.event_id) s.lifecycle_events) now id e s in
    let (known_run, h1) =
      raise_if-eq-ok (not (any (run_is e.run_id) s.runs)) state_error rest {v = (r, s')}
        (unfold record_lifecycle in h) in
    record_event-total _ now id e s costs refl h1

-- A cost that is recorded with its event stands for a recorded event.
record_cost-recorded :
    (now : Time) (e : LifecycleEvent) (usd : Option Usd) (s : Tables) (es : List LifecycleEvent)
    (run_id event_id : String)
    → (any (cost_is run_id event_id) s.costs && not (any (event_is run_id event_id) es)) ≡ false
    → (any (cost_is run_id event_id) (record_cost now e usd s).costs
        && not (any (event_is run_id event_id) (e ∷ es)))
      ≡ false
unfolding record_cost
record_cost-recorded now e usd s es run_id event_id h = ground arith

record_event-HasEvents :
    (o : Option LifecycleEvent) (now : Time) (id : String) (e : LifecycleEvent) (s : Tables)
    {r : ReservationRow} {s' : Tables}
    → HasEvents s
    → record_event o now id e s ≡ ok (r, s')
    → HasEvents s'
record_event-HasEvents none now id e s {r} {s'} costs h =
    let t : Tables = record s { lifecycle_events = e ∷ s.lifecycle_events } in
    let (s1, advanced, after, row) =
      record_new-eq-ok now id e s {r = r} {s' = s'} (unfold record_event in h) in
    let s2 : Tables = record_usage e.run_id e.usage s1 in
    let (_, events1, costs1) =
      advance_found-keeps (find (has_correlation e.run_id e.correlation_id) t.reservations) now id e
        t s1 (unfold advance_reservation in advanced) in
    let (_, events2, costs2) = record_usage-keeps e.run_id e.usage s1 in
    let (_, events3) = record_cost-keeps now e e.cost_usd s2 in
    let events : s'.lifecycle_events ≡ e ∷ s.lifecycle_events =
      ap (λ (x : Tables). x.lifecycle_events) after ∙ events3 ∙ events2 ∙ events1 in
    let same : s2.costs ≡ s.costs = costs2 ∙ costs1 in
    let all : s'.costs ≡ (record_cost now e e.cost_usd s2).costs =
      ap (λ (x : Tables). x.costs) after in
    record {
      recorded = λ run_id event_id.
          rw (events, all)
            (record_cost-recorded now e e.cost_usd s2 s.lifecycle_events run_id event_id
              (rw same (costs.recorded run_id event_id)));
    }
record_event-HasEvents (some x) now id e s {r} {s'} costs h =
    let (_, _, kept) = record_again-eq-ok x e s {r = r} {s' = s'} (unfold record_event in h) in
    rw kept costs

-- Where every cost row stands for a recorded event, every cost row still does after a delivery that
-- is accepted.
pub record_lifecycle-HasEvents :
    (now : Time) (id : String) (e : LifecycleEvent) (s : Tables) (r : ReservationRow) (s' : Tables)
    → HasEvents s
    → record_lifecycle now id e s ≡ ok (r, s')
    → HasEvents s'
record_lifecycle-HasEvents now id e s r s' costs h =
    let rest : Result (ReservationRow × Tables) =
      record_event (find (event_is e.run_id e.event_id) s.lifecycle_events) now id e s in
    let (known_run, h1) =
      raise_if-eq-ok (not (any (run_is e.run_id) s.runs)) state_error rest {v = (r, s')}
        (unfold record_lifecycle in h) in
    record_event-HasEvents (find (event_is e.run_id e.event_id) s.lifecycle_events) now id e s costs
      h1
