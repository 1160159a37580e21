-- ===== src/Harness/Receipts/Budget.antt =====
-- A resumed run starts from the token budget that the run before left.
use agent_tooling.Prelude.{
  ℕ, ◌+◌, ◌<◌, ◌≡◌, refl, String, Bool, true, false, ◌&&◌, some, List, [], ◌∷◌, ◌++◌, arith, leb,
  ltb, ◌==◌, eq_refl, eq_iff, Bool-cases, inl, inr,
}
use agent_tooling.Harness.Models.{Body, Event}
use agent_tooling.Harness.Log.{
  max_sequence, numbered, append, insert, replay, replay-append, replay_others, up_to, replay-up_to,
}
use agent_tooling.Harness.Controller.Admission.{budget_of, admitted_budget}
use agent_tooling.Harness.Receipts.{Scan, absorb, scan}

-- A table that `append` has filled.
pub data Appended : List Event → Type 0 where
  nothing : Appended []
  one_more : {log : List Event} (e : Event) → Appended log → Appended (append e log)

-- The events are of the run, and their sequences ascend from above a number.
abbrev pub ascends : String → ℕ → List Event → Bool
ascends run_id low [] = true
ascends run_id low (e ∷ es) =
    e.run_id == run_id && ltb low e.sequence && ascends run_id e.sequence es

ascends-append :
    (run_id : String) (low m : ℕ) (es : List Event) (e : Event)
    → ascends run_id low es ≡ true
    → up_to m es ≡ true
    → (e.run_id == run_id) ≡ true
    → m < e.sequence
    → low < e.sequence
    → ascends run_id low (es ++ (e ∷ [])) ≡ true
ascends-append run_id low m [] e h u own above over = ground arith
ascends-append run_id low m (x ∷ xs) e h u own above over =
    ground (arith, ascends-append run_id x.sequence m xs e)

pub replay-ascends :
    (run_id : String) (log : List Event)
    → Appended log
    → ascends run_id 0 (replay run_id log) ≡ true
unfolding replay
replay-ascends run_id [] nothing = refl
replay-ascends run_id log (one_more {log = before} e built) =
    let ih = replay-ascends run_id before built in
    elim (Bool-cases (e.run_id == run_id)) [
      | inr other ↦ rw (replay_others e before run_id other) ih
      | inl own ↦
          (let same : e.run_id ≡ run_id = (eq_iff e.run_id run_id).0 own in
            let top : up_to (max_sequence e.run_id before) (replay e.run_id before) ≡ true =
              replay-up_to e.run_id before in
            let last : ascends e.run_id 0 (replay e.run_id before ++ (numbered e before ∷ []))
                ≡ true =
              ascends-append e.run_id 0 (max_sequence e.run_id before) (replay e.run_id before)
                (numbered e before) (rw same ih) top (eq_refl e.run_id) (omega arith)
                (omega arith) in
            rw (← same, replay-append e before) last)
    ]

absorb-consumed :
    (actor : String) (body : Body) (s : Scan)
    → (absorb actor body s).consumed_token_budget ≡ s.consumed_token_budget + budget_of body
unfolding absorb
absorb-consumed actor body s = ground arith

absorb-previous :
    (actor : String) (body : Body) (s : Scan)
    → (absorb actor body s).previous_sequence ≡ s.previous_sequence
unfolding absorb
absorb-previous actor body s = ground arith

-- The scan of ascending events of one run comes to its end, with the budgets that they admit.
pub scan-consumed :
    (run_id : String) (es : List Event) (s : Scan)
    → ascends run_id s.previous_sequence es ≡ true
    → (r : Scan) × (scan run_id es s ≡ some r)
      × (r.consumed_token_budget ≡ s.consumed_token_budget + admitted_budget run_id es)
unfolding scan
scan-consumed run_id [] s h = (s, refl, omega arith)
scan-consumed run_id (e ∷ es) s h =
    let next : Scan = absorb e.actor e.body (record s { previous_sequence = e.sequence }) in
    let at_next : next.previous_sequence ≡ e.sequence = absorb-previous e.actor e.body _ in
    let (r, at_r, total) = scan-consumed run_id es next (rw at_next (ground arith)) in
    let here = absorb-consumed e.actor e.body (record s { previous_sequence = e.sequence }) in
    let own : (e.run_id == run_id) ≡ true = ground arith in
    let later : leb e.sequence s.previous_sequence ≡ false = ground arith in
    (r, rw (own, later) at_r, rw own (omega (arith, total, here)))

insert-budget :
    (run_id : String) (e : Event) (es : List Event)
    → admitted_budget run_id (insert e es) ≡ admitted_budget run_id (e ∷ es)
insert-budget run_id e [] = refl
insert-budget run_id e (x ∷ xs) = ground (arith, insert-budget run_id e xs)

pub replay-budget :
    (run_id : String) (log : List Event)
    → admitted_budget run_id (replay run_id log) ≡ admitted_budget run_id log
unfolding replay
replay-budget run_id [] = refl
replay-budget run_id (e ∷ log) =
    ground (arith, replay-budget run_id log, insert-budget run_id e (replay run_id log))
