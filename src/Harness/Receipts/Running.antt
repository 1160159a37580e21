-- ===== src/Harness/Receipts/Running.antt =====
-- The first events of `RunController.run` of agent-harness/src/agent_harness/controller.py, and the log
-- of a run that they open.
use agent_tooling.Prelude.{
  ℕ, ◌+◌, ◌≡◌, refl, ap, ◌∙◌, String, Bool, true, false, ◌&&◌, Option, none, some, List, [], ◌∷◌,
  ◌++◌, if◌then◌else◌, Bool-cases, inl, inr,
}
use agent_tooling.Harness.Models.{
  Participant, ChildRequest, Body, run_started, participant_joined, Event, participant_admitted,
  participant_degraded, spawn_requested, spawn_rejected, is_child_request, is_path, is_participant,
}
use agent_tooling.Harness.Log.{numbered, append, replay, replay-append}
use agent_tooling.Harness.Controller.{
  Controller, World, Factory, publish, Check, passes, raises, rejects, spawn_check, conclude,
  admit_child, enroll, equip, spawn_child, child_count, child_of,
}
use agent_tooling.Harness.Controller.Admission.{spawn_all}
use agent_tooling.Harness.Receipts.Budget.{Appended, nothing, one_more}

-- The first events of `RunController.run`: `run.started`, and a `participant.joined` for each adapter.
unfoldable pub join_all : List Participant → World → World
join_all [] w = w
join_all (p ∷ ps) w = join_all ps (publish "runtime" (participant_joined p) w)

unfoldable pub open_run : Controller → String → List Participant → World
unfolding join_all
open_run c goal roster = join_all roster (
    publish "user" (run_started goal c.capacity c.total_token_budget)
      (record { state = c; log = [] }))

-- The run of a controller, from its first event on.
pub record IsRunOf (c : Controller) (goal : String) (w : World) : Type 0 where
  pub run_id : w.state.run_id ≡ c.run_id
  pub capacity : w.state.capacity ≡ c.capacity
  pub total : w.state.total_token_budget ≡ c.total_token_budget
  pub appended : Appended w.log
  pub first : Event
  pub later : List Event
  pub events : replay c.run_id w.log ≡ first ∷ later
  pub opened : first.body ≡ run_started goal c.capacity c.total_token_budget

module _ (c : Controller) (goal : String) where
  publish-IsRunOf :
      (actor : String) (body : Body) (w : World)
      → IsRunOf c goal w
      → IsRunOf c goal (publish actor body w)
  publish-IsRunOf actor body w h =
      let e : Event = record {
        run_id = w.state.run_id;
        sequence = 1;
        actor = actor;
        body = body;
      } in
      let longer : replay c.run_id (append e w.log)
          ≡ replay c.run_id w.log ++ (numbered e w.log ∷ []) =
        rw (← h.run_id) (replay-append e w.log) in
      record {
        run_id = h.run_id;
        capacity = h.capacity;
        total = h.total;
        appended = one_more e h.appended;
        first = h.first;
        later = h.later ++ (numbered e w.log ∷ []);
        events = longer ∙ ap (λ xs. xs ++ (numbered e w.log ∷ [])) h.events;
        opened = h.opened;
      }

  either-IsRunOf :
      (test : Bool) {v w : World}
      → IsRunOf c goal v
      → IsRunOf c goal w
      → IsRunOf c goal (if test then v else w)
  either-IsRunOf true hv hw = hv
  either-IsRunOf false hv hw = hw

  equip-IsRunOf :
      (factory : Option Factory) (child : Participant) (request : ChildRequest) (w : World)
      → IsRunOf c goal w
      → IsRunOf c goal (equip factory child request w)
  unfolding equip
  equip-IsRunOf factory child request w h =
      either-IsRunOf _
        (record {
          run_id = h.run_id;
          capacity = h.capacity;
          total = h.total;
          appended = h.appended;
          first = h.first;
          later = h.later;
          events = h.events;
          opened = h.opened;
        })
        (publish-IsRunOf "runtime" (participant_degraded child.participant_id) w h)

  enrolled-IsRunOf :
      (child : Participant) (parent_id : String) (n : ℕ) (request : ChildRequest) (w : World)
      → IsRunOf c goal w
      → IsRunOf c goal (record w { state = enroll child parent_id n request w.state })
  unfolding enroll
  enrolled-IsRunOf child parent_id n request w h = record {
    run_id = h.run_id;
    capacity = h.capacity;
    total = h.total;
    appended = h.appended;
    first = h.first;
    later = h.later;
    events = h.events;
    opened = h.opened;
  }

  admit_child-IsRunOf :
      (factory : Option Factory) (parent_id : String) (request : ChildRequest)
      (parent : Option Participant) (w : World)
      → IsRunOf c goal w
      → IsRunOf c goal (admit_child factory parent_id request parent w).1
  unfolding admit_child
  admit_child-IsRunOf factory parent_id request none w h = h
  admit_child-IsRunOf factory parent_id request (some parent) w h =
      let n : ℕ = child_count parent_id w.state.children_per_parent + 1 in
      let child : Participant = child_of parent_id request.role n parent in
      elim (Bool-cases (is_participant child)) [
        | inl valid ↦ rw valid (
            equip-IsRunOf factory child request _ (
              publish-IsRunOf "runtime" (participant_admitted child request) _
                (enrolled-IsRunOf child parent_id n request w h)))
        | inr invalid ↦ rw invalid h
      ]

  conclude-IsRunOf :
      (check : Check) (factory : Option Factory) (parent_id : String) (request : ChildRequest)
      (w : World)
      → IsRunOf c goal w
      → IsRunOf c goal (conclude check factory parent_id request w).1
  unfolding conclude
  conclude-IsRunOf raises factory parent_id request w h = h
  conclude-IsRunOf (rejects why) factory parent_id request w h =
      publish-IsRunOf "runtime" (spawn_rejected parent_id request.role why) w h
  conclude-IsRunOf passes factory parent_id request w h =
      admit_child-IsRunOf factory parent_id request _ w h

  spawn_child-IsRunOf :
      (factory : Option Factory) (parent_id : String) (request : ChildRequest) (w : World)
      → IsRunOf c goal w
      → IsRunOf c goal (spawn_child factory parent_id request w).1
  unfolding spawn_child
  spawn_child-IsRunOf factory parent_id request w h =
      elim (Bool-cases (is_child_request request && is_path w.state.run_id && is_path parent_id)) [
        | inl valid ↦ rw valid (
            conclude-IsRunOf (spawn_check factory parent_id request w.state) factory parent_id
              request _ (publish-IsRunOf parent_id (spawn_requested parent_id request) w h))
        | inr invalid ↦ rw invalid h
      ]

  pub spawn_all-IsRunOf :
      (factory : Option Factory) (calls : List (String × ChildRequest)) (w : World)
      → IsRunOf c goal w
      → IsRunOf c goal (spawn_all factory calls w)
  unfolding spawn_all
  spawn_all-IsRunOf factory [] w h = h
  spawn_all-IsRunOf factory (call ∷ calls) w h =
      spawn_all-IsRunOf factory calls _ (spawn_child-IsRunOf factory call.0 call.1 w h)

  join_all-IsRunOf :
      (roster : List Participant) (w : World)
      → IsRunOf c goal w
      → IsRunOf c goal (join_all roster w)
  unfolding join_all
  join_all-IsRunOf [] w h = h
  join_all-IsRunOf (p ∷ ps) w h =
      join_all-IsRunOf ps _ (publish-IsRunOf "runtime" (participant_joined p) w h)

  pub open_run-IsRunOf : (roster : List Participant) → IsRunOf c goal (open_run c goal roster)
  unfolding open_run replay append
  open_run-IsRunOf roster =
      let e : Event = record {
        run_id = c.run_id;
        sequence = 1;
        actor = "user";
        body = run_started goal c.capacity c.total_token_budget;
      } in
      join_all-IsRunOf roster _ (record {
        run_id = refl;
        capacity = refl;
        total = refl;
        appended = one_more e nothing;
        first = numbered e [];
        later = [];
        events = replay-append e [];
        opened = refl;
      })
