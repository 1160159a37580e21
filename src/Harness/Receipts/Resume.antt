-- ===== src/Harness/Receipts/Resume.antt =====
-- What `reconstruct_run` finds of a run whose controller stopped at any point.
use agent_tooling.Prelude.{
  ◌+◌, ◌≡◌, refl, sym, ap, subst, ◌∙◌, String, true, Option, some, List, [], ◌∷◌, arith, eq_iff,
}
use agent_tooling.Harness.Models.{
  is_capacity, Participant, ChildRequest, Body, run_started, participant_joined, Event,
}
use agent_tooling.Harness.Log.{replay}
use agent_tooling.Harness.Controller.{Controller, World, Factory}
use agent_tooling.Harness.Controller.Admission.{
  admitted_budget, IsAdmissible, spawn_all, spawn_all-IsAdmissible, publish-IsAdmissible,
}
use agent_tooling.Harness.Receipts.{
  Scan, scan, ReconstructedRun, start_scan, reconstruct_from, reconstruct_run,
}
use agent_tooling.Harness.Receipts.Budget.{ascends, replay-ascends, scan-consumed, replay-budget}
use agent_tooling.Harness.Receipts.Running.{
  join_all, open_run, IsRunOf, spawn_all-IsRunOf, open_run-IsRunOf,
}

module _ (c : Controller) (goal : String) where
  from_body :
      (body : Body) (run_id : String) (events : List Event) (r : Scan)
      → body ≡ run_started goal c.capacity c.total_token_budget
      → is_capacity c.capacity ≡ true
      → scan run_id events start_scan ≡ some r
      → reconstruct_from body run_id events
        ≡ some (record {
          run_id = run_id;
          scanned = r;
          capacity = c.capacity;
          total_token_budget = c.total_token_budget;
        })
  unfolding reconstruct_from
  from_body body run_id events r opened valid at_r = rw (opened, valid, at_r) refl

  from_first :
      (run_id : String) (first : Event) (later : List Event) (r : Scan)
      → first.body ≡ run_started goal c.capacity c.total_token_budget
      → first.run_id ≡ run_id
      → is_capacity c.capacity ≡ true
      → scan run_id (first ∷ later) start_scan ≡ some r
      → reconstruct_run (first ∷ later)
        ≡ some (record {
          run_id = first.run_id;
          scanned = r;
          capacity = c.capacity;
          total_token_budget = c.total_token_budget;
        })
  unfolding reconstruct_run
  from_first run_id first later r opened own valid at_r =
      from_body first.body first.run_id (first ∷ later) r opened valid
        (subst (λ id. scan id (first ∷ later) start_scan ≡ some r) (sym own) at_r)

  reconstructed :
      (w : World)
      → is_capacity c.capacity ≡ true
      → IsRunOf c goal w
      → (r : ReconstructedRun) × (reconstruct_run (replay c.run_id w.log) ≡ some r)
        × (r.scanned.consumed_token_budget ≡ admitted_budget c.run_id w.log)
        × (r.capacity ≡ c.capacity)
        × (r.total_token_budget ≡ c.total_token_budget)
  reconstructed w valid h =
      let up = replay-ascends c.run_id w.log h.appended in
      let (r, at_r, consumed) = scan-consumed c.run_id (replay c.run_id w.log) start_scan up in
      let firsts : ascends c.run_id 0 (h.first ∷ h.later) ≡ true =
        subst (λ es. ascends c.run_id 0 es ≡ true) h.events up in
      let own : h.first.run_id ≡ c.run_id = (eq_iff h.first.run_id c.run_id).0 (ground arith) in
      let whole =
        from_first c.run_id h.first h.later r h.opened own valid
          (subst (λ es. scan c.run_id es start_scan ≡ some r) h.events at_r) in
      (
        record {
          run_id = h.first.run_id;
          scanned = r;
          capacity = c.capacity;
          total_token_budget = c.total_token_budget;
        },
        ap reconstruct_run h.events ∙ whole,
        omega (arith, consumed, replay-budget c.run_id w.log),
        refl,
        refl,
      )

join_all-IsAdmissible :
    (roster : List Participant) (w : World) → IsAdmissible w → IsAdmissible (join_all roster w)
unfolding join_all
join_all-IsAdmissible [] w h = h
join_all-IsAdmissible (p ∷ ps) w h =
    join_all-IsAdmissible ps _ (publish-IsAdmissible "runtime" (participant_joined p) w refl h)

open_run-IsAdmissible :
    (c : Controller) (goal : String) (roster : List Participant)
    → IsAdmissible (record { state = c; log = [] })
    → IsAdmissible (open_run c goal roster)
unfolding open_run
open_run-IsAdmissible c goal roster h =
    join_all-IsAdmissible roster _
      (publish-IsAdmissible "user" (run_started goal c.capacity c.total_token_budget) _ refl h)

-- A run that starts within its capacity policy and is stopped after any sequence of `spawn_child`
-- calls can be resumed: `reconstruct_run` accepts the replay of its events, finds the capacity and
-- the total token budget of the run, and finds consumed exactly the tokens that its controller no
-- longer had left.
pub resumed_budget :
    (factory : Option Factory) (c : Controller) (goal : String) (roster : List Participant)
    (calls : List (String × ChildRequest))
    → is_capacity c.capacity ≡ true
    → IsAdmissible (record { state = c; log = [] })
    → let w = spawn_all factory calls (open_run c goal roster) in
      (r : ReconstructedRun) × (reconstruct_run (replay c.run_id w.log) ≡ some r)
      × (w.state.remaining_token_budget + r.scanned.consumed_token_budget ≡ c.total_token_budget)
      × (r.capacity ≡ c.capacity)
      × (r.total_token_budget ≡ c.total_token_budget)
resumed_budget factory c goal roster calls valid h =
    let w : World = spawn_all factory calls (open_run c goal roster) in
    let running : IsRunOf c goal w =
      spawn_all-IsRunOf c goal factory calls _ (open_run-IsRunOf c goal roster) in
    let within : IsAdmissible w =
      spawn_all-IsAdmissible factory calls _ (open_run-IsAdmissible c goal roster h) in
    let (r, at_r, consumed, capacity, total) = reconstructed c goal w valid running in
    let balance : w.state.remaining_token_budget + admitted_budget c.run_id w.log
        ≡ c.total_token_budget =
      (let same = ap (λ id. admitted_budget id w.log) running.run_id in
        omega (arith, within.balance, same, running.total)) in
    (r, at_r, rw consumed balance, capacity, total)
