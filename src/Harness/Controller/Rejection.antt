-- ===== src/Harness/Controller/Rejection.antt =====
-- What a rejected `spawn_child` call leaves behind.
use agent_tooling.Prelude.{
  ◌≡◌, ◌≢◌, sym, ap, String, ◌&&◌, Option, none, some, arith, Bool-cases, inl, inr,
}
use agent_tooling.Harness.Models.{
  Participant, ChildRequest, Reason, spawn_requested, spawn_rejected, is_path, is_child_request,
}
use agent_tooling.Harness.Controller.{
  World, Factory, Check, passes, raises, rejects, spawn_check, publish, Outcome, rejected,
  admit_child, conclude, spawn_child,
}

admit_child-not-rejected :
    (factory : Option Factory) (parent_id : String) (request : ChildRequest)
    (parent : Option Participant) (w w' : World) (why : Reason)
    → admit_child factory parent_id request parent w ≢ (rejected why, w')
unfolding admit_child
admit_child-not-rejected factory parent_id request none w w' why h = ground arith
admit_child-not-rejected factory parent_id request (some parent) w w' why h = ground arith

why_of : Outcome → Option Reason
why_of (rejected why) = some why
why_of _ = none

conclude-rejected :
    (check : Check) (factory : Option Factory) (parent_id : String) (request : ChildRequest)
    (w w' : World) (why : Reason)
    → conclude check factory parent_id request w ≡ (rejected why, w')
    → (check ≡ rejects why) × (w' ≡ publish "runtime" (spawn_rejected parent_id request.role why) w)
unfolding conclude why_of
conclude-rejected raises factory parent_id request w w' why h = absurd (ground arith)
conclude-rejected (rejects other) factory parent_id request w w' why h =
    let same : other ≡ why = ground arith in
    let left : publish "runtime" (spawn_rejected parent_id request.role other) w ≡ w' =
      ap (λ (x : Outcome × World). x.1) h in
    (ap rejects same, rw (← same) (sym left))
conclude-rejected passes factory parent_id request w w' why h =
    absurd (admit_child-not-rejected factory parent_id request _ w w' why h)

-- A call that is rejected leaves the controller as it was: the roster, the contexts, the counts of
-- children and the tokens left. It leaves two more events, the request and its rejection, and the
-- reason is that of the first check that fails.
pub spawn_rejected_unchanged :
    (factory : Option Factory) (parent_id : String) (request : ChildRequest) (w w' : World)
    (why : Reason)
    → spawn_child factory parent_id request w ≡ (rejected why, w')
    → (spawn_check factory parent_id request w.state ≡ rejects why)
      × (w'.state ≡ w.state)
      × (w'
          ≡ publish "runtime"
              (spawn_rejected parent_id request.role why)
              (publish parent_id (spawn_requested parent_id request) w))
unfolding spawn_child
spawn_rejected_unchanged factory parent_id request w w' why h =
    elim (Bool-cases (is_child_request request && is_path w.state.run_id && is_path parent_id)) [
      | inl valid ↦
          (let (at_check, after) =
              conclude-rejected (spawn_check factory parent_id request w.state) factory parent_id
                request (publish parent_id (spawn_requested parent_id request) w) w' why
                (rw valid at h) in
            (at_check, ap (λ (x : World). x.state) after, after))
      | inr invalid ↦ absurd (ground (arith, h, invalid))
    ]
