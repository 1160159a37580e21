-- ===== src/Harness/Controller.antt =====
-- `RunController.spawn_child` of agent-harness/src/agent_harness/controller.py. Between its checks and
-- its changes of the state there is no `await`, so that one call is one step. `_child_tasks` and the
-- emissions of the participants are not modelled; an adapter is known by its participant's id.
pub mod Admission
pub mod Rejection
pub mod Depth
use Prim.Native.String.{◌++◌}
use Prim.Native.Nat.{◌/◌, ◌%◌}
use agent_tooling.Prelude.{
  decimal, codes, ℕ, zero, suc, ◌+◌, ◌-◌, String, Bool, true, false, not, ◌&&◌, ◌||◌, Option, none,
  some, List, [], ◌∷◌, leb, ltb, eqb, if◌then◌else◌, ◌==◌, any, find, contains, update_where,
  length, get_elem?,
}
use agent_tooling.Harness.Models.{
  Participant, CapacityPolicy, ChildRequest, Reason, unknown_parent, participants_exceeded,
  dynamic_children_exceeded, children_per_parent_exceeded, depth_exceeded, token_budget_exceeded,
  factory_unavailable, Body, spawn_requested, spawn_rejected, participant_admitted,
  participant_degraded, Event, is_path, is_participant, is_child_request,
}
use agent_tooling.Harness.Log.{append}

pub record Controller : Type 0 where
  pub run_id : String
  pub capacity : CapacityPolicy
  pub total_token_budget : ℕ
  pub remaining_token_budget : ℕ
  pub participants : List Participant
  pub adapters : List String
  pub contexts : List (String × List String)
  pub children_per_parent : List (String × ℕ)
  pub dynamic_children : ℕ

-- The controller and the table of its room's store.
pub record World : Type 0 where
  pub state : Controller
  pub log : List Event

-- `_child_adapter_factory`, a parameter of the controller: false where it raises.
abbrev pub Factory : Type 0
Factory = Participant → ChildRequest → Bool

-- `f"{parent_id}/{role}-{ordinal}"`
unfoldable pub child_id : String → String → ℕ → String
unfolding decimal
child_id parent_id role ordinal = parent_id ++ "/" ++ role ++ "-" ++ decimal (suc ordinal) ordinal

abbrev pub named : String → Participant → Bool
named id p = p.participant_id == id

-- Where a participant's `parent_id` leads.
pub data Lookup : Type 0 where
  root missing : Lookup
  found : Participant → Lookup

abbrev lookup : Option Participant → Lookup
lookup none = missing
lookup (some p) = found p

abbrev pub parent_of : List Participant → Option String → Lookup
parent_of ps none = root
parent_of ps (some id) = lookup (find (named id) ps)

abbrev pub suc_option : Option ℕ → Option ℕ
suc_option none = none
suc_option (some n) = some (suc n)

-- The loop of `_spawn_depth`, on fuel; `none` where a parent is missing.
unfoldable pub depth_from : ℕ → List Participant → Lookup → Option ℕ
depth_from fuel ps root = some 0
depth_from fuel ps missing = none
depth_from zero ps (found p) = none
depth_from (suc fuel) ps (found p) = suc_option (depth_from fuel ps (parent_of ps p.parent_id))

abbrev depth_of : List Participant → Option Participant → Option ℕ
depth_of ps none = none
depth_of ps (some p) = depth_from (length (codes p.participant_id)) ps (parent_of ps p.parent_id)

-- `_spawn_depth`; the id of a parent is shorter than its child's, so the length of the id is enough.
unfoldable pub spawn_depth : List Participant → String → Option ℕ
spawn_depth ps id = depth_of ps (find (named id) ps)

-- What the checks of `spawn_child` come to.
pub data Check : Type 0 where
  passes raises : Check
  rejects : Reason → Check

abbrev pub reject_if : Bool → Reason → Check → Check
reject_if true why rest = rejects why
reject_if false why rest = rest

abbrev reject_depth : Option ℕ → ℕ → Check → Check
reject_depth none limit rest = raises
reject_depth (some d) limit rest = reject_if (ltb limit (d + 1)) depth_exceeded rest

abbrev is_id : String → String × ℕ → Bool
is_id id entry = entry.0 == id

abbrev count_of : Option (String × ℕ) → ℕ
count_of none = 0
count_of (some entry) = entry.1

-- `self._children_per_parent.get(parent_id, 0)`
abbrev pub child_count : String → List (String × ℕ) → ℕ
child_count id counts = count_of (find (is_id id) counts)

abbrev has_factory : Option Factory → Bool
has_factory none = false
has_factory (some f) = true

-- The checks of `spawn_child`, in their order.
unfoldable pub spawn_check : Option Factory → String → ChildRequest → Controller → Check
unfolding spawn_depth
spawn_check factory parent_id request c =
    reject_if (not (contains parent_id c.adapters)) unknown_parent (
      reject_if (leb c.capacity.max_participants (length c.participants)) participants_exceeded (
        reject_if (leb c.capacity.max_dynamic_children c.dynamic_children) dynamic_children_exceeded
          (reject_if
            (leb c.capacity.max_children_per_parent (child_count parent_id c.children_per_parent))
            children_per_parent_exceeded
            (reject_depth (spawn_depth c.participants parent_id) c.capacity.max_spawn_depth (
              reject_if (ltb c.remaining_token_budget request.token_budget) token_budget_exceeded
                (reject_if (not (has_factory factory)) factory_unavailable passes))))))

-- `d[key] = value`
abbrev pub put {ℓ} : {A : Type ℓ} → (A → Bool) → A → List A → List A
put is_key a xs = if any is_key xs then update_where is_key (λ _. a) xs else a ∷ xs

abbrev pub publish : String → Body → World → World
publish actor body w = record w {
  log = append (record { run_id = w.state.run_id; sequence = 1; actor = actor; body = body }) w.log;
}

-- What a call comes to: a child, a RuntimeError with the reason, or another exception.
pub data Outcome : Type 0 where
  admitted : Participant → Outcome
  rejected : Reason → Outcome
  raised : Outcome

abbrev pub child_of : String → String → ℕ → Participant → Participant
child_of parent_id role ordinal parent = record {
  participant_id = child_id parent_id role ordinal;
  adapter = parent.adapter;
  model = parent.model;
  roles = role ∷ [];
  context_limit = parent.context_limit;
  parent_id = some parent_id;
}

-- The changes of the state for a child that is admitted.
unfoldable pub enroll : Participant → String → ℕ → ChildRequest → Controller → Controller
enroll child parent_id ordinal request c = record c {
  participants = put (named child.participant_id) child c.participants;
  contexts =
      put (λ (entry : String × List String). entry.0 == child.participant_id)
        (child.participant_id, request.context) c.contexts;
  children_per_parent = put (is_id parent_id) (parent_id, ordinal) c.children_per_parent;
  dynamic_children = c.dynamic_children + 1;
  remaining_token_budget = c.remaining_token_budget - request.token_budget;
}

abbrev builds : Option Factory → Participant → ChildRequest → Bool
builds none child request = false
builds (some f) child request = f child request

-- The adapter of an admitted child, or its `participant.degraded`.
unfoldable pub equip : Option Factory → Participant → ChildRequest → World → World
equip factory child request w =
    if builds factory child request
    then record w { state = record w.state { adapters = child.participant_id ∷ w.state.adapters } }
    else publish "runtime" (participant_degraded child.participant_id) w

-- From the child's `Participant` on.
unfoldable pub admit_child :
    Option Factory → String → ChildRequest → Option Participant → World → Outcome × World
unfolding enroll equip child_id
admit_child factory parent_id request none w = (raised, w)
admit_child factory parent_id request (some parent) w =
    let ordinal = child_count parent_id w.state.children_per_parent + 1 in
    let child = child_of parent_id request.role ordinal parent in
    if is_participant child
    then (
      admitted child,
      equip factory child request (
          publish "runtime" (participant_admitted child request)
            (record w { state = enroll child parent_id ordinal request w.state })),
    )
    else (raised, w)

unfoldable pub conclude : Check → Option Factory → String → ChildRequest → World → Outcome × World
unfolding admit_child
conclude raises factory parent_id request w = (raised, w)
conclude (rejects why) factory parent_id request w =
    (rejected why, publish "runtime" (spawn_rejected parent_id request.role why) w)
conclude passes factory parent_id request w =
    admit_child factory parent_id request (find (named parent_id) w.state.participants) w

-- `spawn_child`
unfoldable pub spawn_child : Option Factory → String → ChildRequest → World → Outcome × World
unfolding conclude spawn_check
spawn_child factory parent_id request w =
    if is_child_request request && is_path w.state.run_id && is_path parent_id
    then conclude (spawn_check factory parent_id request w.state) factory parent_id request
        (publish parent_id (spawn_requested parent_id request) w)
    else (raised, w)
