-- ===== src/Harness/Tests.antt =====
-- A run of the harness with one lead that asks for two children.
use agent_tooling.Prelude.{
  ℕ, ◌+◌, ◌≡◌, refl, String, true, Option, none, some, List, [], ◌∷◌, ◌++◌, arith,
}
use agent_tooling.Harness.Models.{
  Participant, CapacityPolicy, is_capacity, ChildRequest, is_child_request, is_path, is_participant,
  token_budget_exceeded, spawn_requested, spawn_rejected, run_completed,
}
use agent_tooling.Harness.Log.{append, numbered, replay, replay-append}
use agent_tooling.Harness.Controller.{
  Controller, World, Factory, rejects, publish, depth_from, spawn_depth, spawn_check, spawn_child,
  child_id,
}
use agent_tooling.Harness.Controller.Admission.{IsAdmissible, spawn_all, spawn_all-IsAdmissible}
use agent_tooling.Harness.Controller.Depth.{spawn_depth_total}
use agent_tooling.Harness.Controller.Rejection.{spawn_rejected_unchanged}
use agent_tooling.Harness.Receipts.{ReconstructedRun, reconstruct_run}
use agent_tooling.Harness.Receipts.Running.{open_run}
use agent_tooling.Harness.Receipts.Resume.{resumed_budget}

abbrev lead : Participant
lead = record {
  participant_id = "lead";
  adapter = "fake";
  model = "m";
  roles = "lead" ∷ [];
  context_limit = 1000;
  parent_id = none;
}

abbrev limits : CapacityPolicy
limits = record {
  max_participants = 4;
  max_dynamic_children = 2;
  max_children_per_parent = 2;
  max_spawn_depth = 1;
  max_simultaneous_speakers = 1;
}

abbrev fresh_controller : Controller
fresh_controller = record {
  run_id = "run-1";
  capacity = limits;
  total_token_budget = 100;
  remaining_token_budget = 100;
  participants = lead ∷ [];
  adapters = "lead" ∷ [];
  contexts = ("lead", []) ∷ [];
  children_per_parent = [];
  dynamic_children = 0;
}

abbrev every_child : Option Factory
every_child = some (λ p r. true)

abbrev sixty_tokens : ChildRequest
sixty_tokens = record { role = "dev"; objective = "write a test"; context = []; token_budget = 60 }

abbrev two_calls : List (String × ChildRequest)
two_calls = ("lead", sixty_tokens) ∷ ("lead", sixty_tokens) ∷ []

abbrev start_world : World
start_world = record { state = fresh_controller; log = [] }

one_child : World
unfolding spawn_child
one_child = (spawn_child every_child "lead" sixty_tokens start_world).1

start_world-IsAdmissible : IsAdmissible start_world
start_world-IsAdmissible = record {
  roster = omega arith;
  children = omega arith;
  per_parent = refl;
  balance = refl;
}

-- The first child leaves 40 tokens.
tokens_left : one_child.state.remaining_token_budget ≡ 40
unfolding spawn_child one_child is_child_request is_path depth_from is_participant
tokens_left = refl

first_child_id : child_id "lead" "dev" 12 ≡ "lead/dev-12"
unfolding child_id
first_child_id = refl

spawn_all-IsAdmissible_example : IsAdmissible (spawn_all every_child two_calls start_world)
spawn_all-IsAdmissible_example =
    spawn_all-IsAdmissible every_child two_calls start_world start_world-IsAdmissible

spawn_rejected_unchanged_example :
    (spawn_check every_child "lead" sixty_tokens one_child.state ≡ rejects token_budget_exceeded)
    × ((spawn_child every_child "lead" sixty_tokens one_child).1.state ≡ one_child.state)
    × ((spawn_child every_child "lead" sixty_tokens one_child).1
        ≡ publish "runtime"
            (spawn_rejected "lead" "dev" token_budget_exceeded)
            (publish "lead" (spawn_requested "lead" sixty_tokens) one_child))
unfolding spawn_child one_child is_child_request is_path depth_from is_participant
spawn_rejected_unchanged_example =
    spawn_rejected_unchanged every_child "lead" sixty_tokens one_child
      (spawn_child every_child "lead" sixty_tokens one_child).1 token_budget_exceeded refl

replay-append_example :
    replay "run-1" (
      append
        (record { run_id = "run-1"; sequence = 1; actor = "runtime"; body = run_completed })
        one_child.log)
    ≡ replay "run-1" one_child.log
      ++ (numbered
            (record { run_id = "run-1"; sequence = 1; actor = "runtime"; body = run_completed })
            one_child.log
          ∷ [])
replay-append_example =
    replay-append
      (record { run_id = "run-1"; sequence = 1; actor = "runtime"; body = run_completed })
      one_child.log

limits-IsCapacity : is_capacity limits ≡ true
unfolding is_capacity
limits-IsCapacity = refl

resumed_budget_example :
    let w = spawn_all every_child two_calls (open_run fresh_controller "ship" (lead ∷ [])) in
    (r : ReconstructedRun) × (reconstruct_run (replay "run-1" w.log) ≡ some r)
    × (w.state.remaining_token_budget + r.scanned.consumed_token_budget ≡ 100)
    × (r.capacity ≡ limits)
    × (r.total_token_budget ≡ 100)
resumed_budget_example =
    resumed_budget every_child fresh_controller "ship" (lead ∷ []) two_calls limits-IsCapacity
      start_world-IsAdmissible

abbrev nested_roster : List Participant
nested_roster = record lead { participant_id = "lead/dev-1"; parent_id = some "lead" } ∷ lead ∷ []

spawn_depth_total_example : (d : ℕ) × (spawn_depth nested_roster "lead/dev-1" ≡ some d)
spawn_depth_total_example =
    spawn_depth_total nested_roster "lead/dev-1"
      (record lead { participant_id = "lead/dev-1"; parent_id = some "lead" }) refl refl
