-- ===== src/Harness/Controller/Admission.antt =====
-- The capacity and the token budget under any sequence of `spawn_child` calls.
use agent_tooling.Prelude.{
  ℕ, suc, ◌+◌, ◌≤◌, ◌<◌, ◌≡◌, refl, ap, String, Bool, true, false, ◌&&◌, Option, none, some, List,
  [], ◌∷◌, arith, leb, every, length, update_where, contains, if◌then◌else◌, eq_refl, Bool-cases,
  inl, inr,
}
use agent_tooling.Harness.Models.{
  Participant, ChildRequest, Body, participant_admitted, spawn_requested, spawn_rejected,
  participant_degraded, Event, is_path, is_participant, is_child_request,
}
use agent_tooling.Harness.Log.{append, of_run}
use agent_tooling.Harness.Controller.{
  Controller, World, Factory, Check, passes, raises, rejects, spawn_check, child_count, put,
  publish, child_of, enroll, equip, admit_child, conclude, spawn_child, named,
}

abbrev pub budget_of : Body → ℕ
budget_of (participant_admitted child request) = request.token_budget
budget_of _ = 0

-- The token budgets of the children that the run has admitted, by its events.
abbrev pub admitted_budget : String → List Event → ℕ
admitted_budget run_id [] = 0
admitted_budget run_id (e ∷ log) =
    (if of_run run_id e then budget_of e.body else 0) + admitted_budget run_id log

abbrev below : ℕ → String × ℕ → Bool
below limit entry = leb entry.1 limit

-- The limits of the capacity policy hold, and the tokens that are left and those of the admitted
-- children make up the total.
pub record IsAdmissible (w : World) : Type 0 where
  pub roster : length w.state.participants ≤ w.state.capacity.max_participants
  pub children : w.state.dynamic_children ≤ w.state.capacity.max_dynamic_children
  pub per_parent :
      every (below w.state.capacity.max_children_per_parent) w.state.children_per_parent ≡ true
  pub balance :
      w.state.remaining_token_budget + admitted_budget w.state.run_id w.log
      ≡ w.state.total_token_budget

length-update_where :
    {A : Type 0} (p : A → Bool) (f : A → A) (xs : List A) → length (update_where p f xs) ≡ length xs
length-update_where p f [] = refl
length-update_where p f (x ∷ xs) = ap suc (length-update_where p f xs)

length-put :
    {A : Type 0} (p : A → Bool) (a : A) (xs : List A) → length (put p a xs) ≤ suc (length xs)
length-put p a xs = ground (arith, length-update_where p (λ _. a) xs)

every-update_where :
    {A : Type 0} (q p : A → Bool) (a : A) (xs : List A)
    → q a ≡ true
    → every q xs ≡ true
    → every q (update_where p (λ _. a) xs) ≡ true
every-update_where q p a [] qa h = refl
every-update_where q p a (x ∷ xs) qa h = ground (arith, every-update_where q p a xs)

every-put :
    {A : Type 0} (q p : A → Bool) (a : A) (xs : List A)
    → q a ≡ true
    → every q xs ≡ true
    → every q (put p a xs) ≡ true
every-put q p a xs qa h = ground (arith, every-update_where q p a xs qa h)

-- An event that admits nobody changes no limit and no budget.
pub publish-IsAdmissible :
    (actor : String) (body : Body) (w : World)
    → budget_of body ≡ 0
    → IsAdmissible w
    → IsAdmissible (publish actor body w)
unfolding append
publish-IsAdmissible actor body w free h = record {
  roster = h.roster;
  children = h.children;
  per_parent = h.per_parent;
  balance = ground (arith, h.balance);
}

either-IsAdmissible :
    (test : Bool) {v w : World}
    → IsAdmissible v
    → IsAdmissible w
    → IsAdmissible (if test then v else w)
either-IsAdmissible true hv hw = hv
either-IsAdmissible false hv hw = hw

equip-IsAdmissible :
    (factory : Option Factory) (child : Participant) (request : ChildRequest) (w : World)
    → IsAdmissible w
    → IsAdmissible (equip factory child request w)
unfolding equip
equip-IsAdmissible factory child request w h =
    either-IsAdmissible _
      (record {
        roster = h.roster;
        children = h.children;
        per_parent = h.per_parent;
        balance = h.balance;
      })
      (publish-IsAdmissible "runtime" (participant_degraded child.participant_id) w refl h)

-- What the checks leave room for.
pub record HasRoom (parent_id : String) (request : ChildRequest) (c : Controller) : Type 0 where
  pub has_adapter : contains parent_id c.adapters ≡ true
  pub participants : length c.participants < c.capacity.max_participants
  pub children : c.dynamic_children < c.capacity.max_dynamic_children
  pub of_parent : child_count parent_id c.children_per_parent < c.capacity.max_children_per_parent
  pub tokens : request.token_budget ≤ c.remaining_token_budget

spawn_check-HasRoom :
    (factory : Option Factory) (parent_id : String) (request : ChildRequest) (c : Controller)
    → spawn_check factory parent_id request c ≡ passes
    → HasRoom parent_id request c
unfolding spawn_check
spawn_check-HasRoom factory parent_id request c h = record {
  has_adapter = ground arith;
  participants = ground arith;
  children = ground arith;
  of_parent = ground arith;
  tokens = ground arith;
}

-- A child that is admitted takes its room and its tokens.
enrolled-IsAdmissible :
    (child : Participant) (parent_id : String) (request : ChildRequest) (w : World)
    → HasRoom parent_id request w.state
    → IsAdmissible w
    → IsAdmissible (
        publish "runtime" (participant_admitted child request) (record w {
          state =
              enroll child parent_id
                (child_count parent_id w.state.children_per_parent + 1)
                request
                w.state;
        }))
unfolding append enroll
enrolled-IsAdmissible child parent_id request w room h = record {
  roster = omega (
    arith,
    length-put (named child.participant_id) child w.state.participants,
    room.participants,
  );
  children = omega (arith, room.children);
  per_parent =
      every-put (below w.state.capacity.max_children_per_parent) _ _ w.state.children_per_parent
        (ground (arith, room.of_parent)) h.per_parent;
  balance = ground (arith, h.balance, room.tokens, eq_refl w.state.run_id);
}

admit_child-IsAdmissible :
    (factory : Option Factory) (parent_id : String) (request : ChildRequest)
    (parent : Option Participant) (w : World)
    → HasRoom parent_id request w.state
    → IsAdmissible w
    → IsAdmissible (admit_child factory parent_id request parent w).1
unfolding admit_child
admit_child-IsAdmissible factory parent_id request none w room h = h
admit_child-IsAdmissible factory parent_id request (some parent) w room h =
    let ordinal : ℕ = child_count parent_id w.state.children_per_parent + 1 in
    let child : Participant = child_of parent_id request.role ordinal parent in
    elim (Bool-cases (is_participant child)) [
      | inl valid ↦ rw valid (
          equip-IsAdmissible factory child request _
            (enrolled-IsAdmissible child parent_id request w room h))
      | inr invalid ↦ rw invalid h
    ]

conclude-IsAdmissible :
    (check : Check) (factory : Option Factory) (parent_id : String) (request : ChildRequest)
    (w : World)
    → spawn_check factory parent_id request w.state ≡ check
    → IsAdmissible w
    → IsAdmissible (conclude check factory parent_id request w).1
unfolding conclude
conclude-IsAdmissible raises factory parent_id request w at_check h = h
conclude-IsAdmissible (rejects why) factory parent_id request w at_check h =
    publish-IsAdmissible "runtime" (spawn_rejected parent_id request.role why) w refl h
conclude-IsAdmissible passes factory parent_id request w at_check h =
    admit_child-IsAdmissible factory parent_id request _ w
      (spawn_check-HasRoom factory parent_id request w.state at_check) h

pub spawn_child-IsAdmissible :
    (factory : Option Factory) (parent_id : String) (request : ChildRequest) (w : World)
    → IsAdmissible w
    → IsAdmissible (spawn_child factory parent_id request w).1
unfolding spawn_child
spawn_child-IsAdmissible factory parent_id request w h =
    let asked : World = publish parent_id (spawn_requested parent_id request) w in
    let asked_fits : IsAdmissible asked =
      publish-IsAdmissible parent_id (spawn_requested parent_id request) w refl h in
    elim (Bool-cases (is_child_request request && is_path w.state.run_id && is_path parent_id)) [
      | inl valid ↦ rw valid (
          conclude-IsAdmissible (spawn_check factory parent_id request w.state) factory parent_id
            request asked refl asked_fits)
      | inr invalid ↦ rw invalid h
    ]

-- The calls of a run: the parent and the request of each.
unfoldable pub spawn_all : Option Factory → List (String × ChildRequest) → World → World
unfolding spawn_child
spawn_all factory [] w = w
spawn_all factory (call ∷ calls) w = spawn_all factory calls (spawn_child factory call.0 call.1 w).1

-- After any sequence of `spawn_child` calls, by any participants, whether each was admitted, rejected
-- or raised, the roster, the dynamic children and the children of each parent are within the capacity
-- policy, and the tokens left and those of the admitted children make up the run's total, if all this
-- held before.
pub spawn_all-IsAdmissible :
    (factory : Option Factory) (calls : List (String × ChildRequest)) (w : World)
    → IsAdmissible w
    → IsAdmissible (spawn_all factory calls w)
unfolding spawn_all
spawn_all-IsAdmissible factory [] w h = h
spawn_all-IsAdmissible factory (call ∷ calls) w h =
    spawn_all-IsAdmissible factory calls _ (spawn_child-IsAdmissible factory call.0 call.1 w h)
