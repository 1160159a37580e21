-- ===== src/Conductor/Lifecycle/Convergence.antt =====
-- The hooks of one subagent come in any order and more than once. These are the proofs that the
-- reservation ends in the same standing all the same.
use agent_tooling.Prelude.{
  ◌≡◌, refl, String, Bool, true, false, ◌||◌, Option, none, some, List, [], ◌∷◌, any, every, arith,
}
use agent_tooling.Conductor.Schemas.{
  ReservationState, approved, started, stopped, costed, cancelled, expired, failed, LifecycleKind,
  start, stop, cost, cancel, fail,
}
use agent_tooling.Conductor.Lifecycle.{Standing, transition, follow, fresh, state_for_orphan}

abbrev pub is_start : LifecycleKind → Bool
is_start start = true
is_start _ = false

abbrev pub is_stop : LifecycleKind → Bool
is_stop stop = true
is_stop _ = false

abbrev pub is_cost : LifecycleKind → Bool
is_cost cost = true
is_cost _ = false

-- An event of a subagent that was neither cancelled nor failed.
abbrev pub is_normal : LifecycleKind → Bool
is_normal start = true
is_normal stop = true
is_normal cost = true
is_normal _ = false

-- What the events seen so far (a start, a stop, a cost) make of a reservation.
abbrev Seen : Bool → Bool → Bool → Standing → Type 0
Seen false false false v = v ≡ (approved, false, none)
Seen true false false v = v.0 ≡ started
Seen false true false v = v.0 ≡ stopped
Seen true true false v = v ≡ (stopped, false, none)
Seen true true true v = v ≡ (costed, false, none)
Seen a b true v = v.0 ≡ costed

Seen-transition :
    (a b c : Bool) (s : ReservationState) (r : Bool) (why : Option String) (k : LifecycleKind)
    → is_normal k ≡ true
    → Seen a b c (s, r, why)
    → Seen (a || is_start k) (b || is_stop k) (c || is_cost k) (transition k s r why)
unfolding transition
Seen-transition a b c s r why start n h = ground arith
Seen-transition a b c s r why stop n h = ground arith
Seen-transition a b c s r why cost n h = ground arith
Seen-transition a b c s r why cancel n h = ground arith
Seen-transition a b c s r why fail n h = ground arith

Seen-follow :
    (a b c : Bool) (s : ReservationState) (r : Bool) (why : Option String) (ks : List LifecycleKind)
    → every is_normal ks ≡ true
    → (a || any is_start ks) ≡ true
    → (b || any is_stop ks) ≡ true
    → (c || any is_cost ks) ≡ true
    → Seen a b c (s, r, why)
    → follow (s, r, why) ks ≡ (costed, false, none)
unfolding follow
Seen-follow a b c s r why [] n ha hb hc h = ground arith
Seen-follow a b c s r why (k ∷ ks) n ha hb hc h =
    let (s', r', why') = transition k s r why in
    Seen-follow (a || is_start k) (b || is_stop k) (c || is_cost k) s' r' why' ks (ground arith)
      (ground arith) (ground arith) (ground arith)
      (Seen-transition a b c s r why k (ground arith) h)

-- Whatever the order of the events of a reservation that was approved, and however often each of
-- them is repeated: if none is a cancellation or a failure, and there is a start, a stop and a cost
-- among them, then the reservation ends costed and not recoverable.
pub follow_converges :
    (ks : List LifecycleKind)
    → every is_normal ks ≡ true
    → any is_start ks ≡ true
    → any is_stop ks ≡ true
    → any is_cost ks ≡ true
    → follow fresh ks ≡ (costed, false, none)
follow_converges ks n ha hb hc =
    Seen-follow false false false approved false none ks n ha hb hc refl

Seen-orphan :
    (k : LifecycleKind) (why : String)
    → is_normal k ≡ true
    → Seen (is_start k) (is_stop k) (is_cost k) (state_for_orphan k, true, some why)
unfolding state_for_orphan
Seen-orphan start why n = refl
Seen-orphan stop why n = refl
Seen-orphan cost why n = refl
Seen-orphan cancel why n = ground arith
Seen-orphan fail why n = ground arith

-- A reservation that an event `k` without an approved reservation created is costed and no longer
-- recoverable once a start, a stop and a cost have come, `k` included, in any order and however often,
-- if there was no cancellation or failure.
pub follow_converges_orphan :
    (k : LifecycleKind) (why : String) (ks : List LifecycleKind)
    → every is_normal (k ∷ ks) ≡ true
    → any is_start (k ∷ ks) ≡ true
    → any is_stop (k ∷ ks) ≡ true
    → any is_cost (k ∷ ks) ≡ true
    → follow (state_for_orphan k, true, some why) ks ≡ (costed, false, none)
follow_converges_orphan k why ks n ha hb hc =
    Seen-follow (is_start k) (is_stop k) (is_cost k) (state_for_orphan k) true (some why) ks
      (ground arith) ha hb hc (Seen-orphan k why (ground arith))

-- A state that a normal event leaves alone.
abbrev pub is_final : ReservationState → Bool
is_final cancelled = true
is_final expired = true
is_final failed = true
is_final _ = false

-- Starts, stops and costs that come after a cancellation, a failure or an expiry change nothing,
-- however many they are.
pub follow_final :
    (ks : List LifecycleKind) (s : ReservationState) (r : Bool) (why : Option String)
    → every is_normal ks ≡ true
    → is_final s ≡ true
    → follow (s, r, why) ks ≡ (s, r, why)
unfolding follow transition
follow_final [] s r why n h = refl
follow_final (k ∷ ks) s r why n h = ground (arith, follow_final ks s r why)
