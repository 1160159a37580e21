-- ===== src/Conductor/Lifecycle.antt =====
-- `_transition` and `_state_for_orphan` of codex-conductor/src/conductor/store.py: what a lifecycle
-- event of a subagent does to its reservation.
pub mod Convergence
mod Tests
use agent_tooling.Prelude.{String, Bool, true, false, Option, none, some, List, [], ◌∷◌}
use agent_tooling.Conductor.Schemas.{
  ReservationState, approved, started, stopped, costed, cancelled, expired, failed, LifecycleKind,
  start, stop, cost, cancel, fail,
}

-- state, recoverable, recovery_reason
abbrev pub Standing : Type 0
Standing = ReservationState × Bool × Option String

on_start : ReservationState → Bool → Option String → Standing
on_start approved r why = (started, false, none)
on_start stopped r why = (stopped, false, none)
on_start costed r why = (costed, false, none)
on_start s r why = (s, r, why)

on_stop : ReservationState → Bool → Option String → Standing
on_stop approved r why = (stopped, true, some "stop before start")
on_stop started r why = (stopped, false, none)
on_stop costed r why = (costed, false, none)
on_stop s r why = (s, r, why)

on_cost : ReservationState → Bool → Option String → Standing
on_cost stopped r why = (costed, r, why)
on_cost approved r why = (costed, true, some "cost before stop")
on_cost started r why = (costed, true, some "cost before stop")
on_cost s r why = (s, r, why)

-- `_transition`
unfoldable pub transition : LifecycleKind → ReservationState → Bool → Option String → Standing
unfolding on_start on_stop on_cost
transition start s r why = on_start s r why
transition stop s r why = on_stop s r why
transition cost s r why = on_cost s r why
transition cancel s r why = (cancelled, false, none)
transition fail s r why = (failed, false, none)

-- `_state_for_orphan`
unfoldable pub state_for_orphan : LifecycleKind → ReservationState
state_for_orphan start = started
state_for_orphan stop = stopped
state_for_orphan cost = costed
state_for_orphan cancel = cancelled
state_for_orphan fail = failed

-- The events of one reservation, in the order in which their hooks reach the store.
unfoldable pub follow : Standing → List LifecycleKind → Standing
unfolding transition
follow standing [] = standing
follow (s, r, why) (k ∷ ks) = follow (transition k s r why) ks

-- What the insert of an approved reservation writes.
abbrev pub fresh : Standing
fresh = (approved, false, none)
