-- ===== src/Toolbelt/Executor/Completing.antt =====
-- Which commands ran when `Executor.apply` of toolbelt/src/toolbelt/executor.py returns in success.
use agent_tooling.Prelude.{
  ℕ, ◌+◌, ◌≡◌, refl, subst, String, Bool, true, false, not, Option, none, some, List, [], ◌∷◌, ◌++◌,
  ◌⊎◌, inl, inr, map, every, Bool-cases, if◌then◌else◌,
}
use agent_tooling.Toolbelt.Errors.{
  Fault, interrupt, validation, stale_plan, apply_failed, verification, drift, value_error,
  key_error, integrity_error, os_error, Check, raise_when, Attempt, returned, raised,
}
use agent_tooling.Toolbelt.Schemas.{
  TransactionState, succeeded, rolled_back, rollback_failed, ActionStep, Action, CommandResult,
  Declaration,
}
use agent_tooling.Toolbelt.State.{Phase, Tables}
use agent_tooling.Toolbelt.Executor.{
  Ran, exited, not_started, stopped, Host, Session, resume, ◌▸◌, require, assign, on_store, stored,
  use_value, with_started, start, run_step, result_of,
}
use agent_tooling.Toolbelt.Executor.Rollback.{is_success, record_result}
use agent_tooling.Toolbelt.Executor.Apply.{
  run_recorded, run_all, complete, apply_actions, verify_actions, record_declaration_backup,
  write_declaration, install_tools, verify_tools, carry_out, check_and_carry_out, attempt, Order,
  Ending, concluded, escaped, after_rollback, conclude, run_transaction, apply,
}
use agent_tooling.Toolbelt.Executor.Extending.{
  Extends, Runs, Quiet, Quiet-resume, Runs-then, Quiet-Runs, Quiet-then, Quiet-nothing,
  Quiet-require, Quiet-on_store, Quiet-assign, Quiet-use_value, Quiet-checkpoint, Runs-last,
  Runs-unless,
}

-- The arguments of the commands of the actions, in their order.
unfoldable pub step_argvs : (Action → List ActionStep) → List Action → List (List String)
step_argvs steps [] = []
step_argvs steps (a ∷ actions) = map ActionStep.argv (steps a) ++ step_argvs steps actions

abbrev unless_dry : Order → List (List String) → List (List String)
unless_dry o argvs = if o.approved.dry_run then [] else argvs

-- What `apply` should run: the steps of every action and then the verifications of every action, and
-- nothing in a dry run.
abbrev pub planned_argvs : Order → List (List String)
planned_argvs o =
    unless_dry o (step_argvs Action.steps o.plan.actions)
    ++ unless_dry o (step_argvs Action.verify_steps o.plan.actions)

-- A result that is recorded and then checked.
checked_Extends :
    (fault : Fault) (r : CommandResult) (s : Session) (m : Attempt Tables)
    → Extends (r.argv ∷ []) s.commands (
        resume
          (stored m (record s { commands = s.commands ++ (r ∷ []) }))
          (require (raise_when (not (is_success r)) fault none)))
unfolding require
checked_Extends fault r s (raised error) = tt
checked_Extends fault r s (returned t) = elim (Bool-cases (is_success r)) [
  | inl e ↦ rw e (r ∷ [], refl, refl, rw e refl)
  | inr e ↦ rw e tt
]

recorded_Extends :
    (id : String) (a : Action) (phase : Phase) (fault : Fault) (r : CommandResult) (s : Session)
    → Extends
        (r.argv ∷ [])
        s.commands
        ((record_result id a phase r ▸ require (raise_when (not (is_success r)) fault none)) s)
unfolding ◌▸◌ assign on_store
recorded_Extends id a phase fault r s = checked_Extends fault r s _

module _ (host : Host) (id : String) where
  result_Extends :
      (a : Action) (phase : Phase) (fault : Fault) (step : ActionStep) (ran : Ran) (s : Session)
      → Extends (step.argv ∷ []) s.commands (
          use_value
            (result_of host step ran)
            (λ r. record_result id a phase r ▸ require (raise_when (not (is_success r)) fault none))
            s)
  unfolding use_value require
  result_Extends a phase fault step (exited code timed_out) s =
      recorded_Extends id a phase fault
        (record { argv = step.argv; returncode = code; timed_out = timed_out }) s
  result_Extends a phase fault step not_started s = tt
  result_Extends a phase fault step stopped s = tt

  run_recorded-Runs :
      (a : Action) (phase : Phase) (fault : Fault) (step : ActionStep)
      → Runs (step.argv ∷ []) (run_recorded host id a phase fault step)
  unfolding run_recorded run_step start
  run_recorded-Runs a phase fault step =
      Runs-then (Quiet-Runs (Quiet-require _))
        (record { runs = λ s. result_Extends a phase fault step _ (with_started host step s) })

  run_all-Runs :
      (a : Action) (phase : Phase) (fault : Fault) (steps : List ActionStep)
      → Runs (map ActionStep.argv steps) (run_all host id a phase fault steps)
  unfolding run_all
  run_all-Runs a phase fault [] = Quiet-Runs Quiet-nothing
  run_all-Runs a phase fault (step ∷ steps) =
      Runs-then (run_recorded-Runs a phase fault step) (run_all-Runs a phase fault steps)

  complete-Quiet : (a : Action) (steps : List ActionStep) → Quiet (complete host id a steps)
  complete-Quiet a [] = Quiet-nothing
  complete-Quiet a (step ∷ steps) = Quiet-assign _ (λ s. refl)

  apply_actions-Runs :
      (sequence : ℕ) (actions : List Action)
      → Runs (step_argvs Action.steps actions) (apply_actions host id sequence actions)
  unfolding apply_actions step_argvs
  apply_actions-Runs sequence [] = Quiet-Runs Quiet-nothing
  apply_actions-Runs sequence (a ∷ actions) = Runs-then (Quiet-Runs (Quiet-on_store _)) (
      Runs-then (run_all-Runs a _ _ a.steps) (
        Runs-then (Quiet-Runs (complete-Quiet a a.steps)) (
          Runs-then (Quiet-Runs (Quiet-on_store _)) (
            Runs-then (Quiet-Runs (Quiet-checkpoint host))
              (apply_actions-Runs (sequence + 1) actions)))))

  verify_actions-Runs :
      (sequence : ℕ) (actions : List Action)
      → Runs (step_argvs Action.verify_steps actions) (verify_actions host id sequence actions)
  unfolding verify_actions step_argvs
  verify_actions-Runs sequence [] = Quiet-Runs Quiet-nothing
  verify_actions-Runs sequence (a ∷ actions) =
      Runs-then (run_all-Runs a _ _ a.verify_steps)
        (Runs-then (Quiet-Runs (Quiet-on_store _)) (verify_actions-Runs (sequence + 1) actions))

  record_declaration_backup-Quiet :
      (before : Option String) → Quiet (record_declaration_backup host id before)
  unfolding record_declaration_backup
  record_declaration_backup-Quiet none = Quiet-on_store _
  record_declaration_backup-Quiet (some content) =
      Quiet-then (Quiet-require _) (Quiet-then (Quiet-assign _ (λ s. refl)) (Quiet-on_store _))

  write_declaration-Quiet : (d : Declaration) → Quiet (write_declaration host id d)
  unfolding write_declaration
  write_declaration-Quiet d = Quiet-then (Quiet-require _) (Quiet-assign _ (λ s. refl))

  module _ (o : Order) where
    install_tools-Runs :
        Runs (unless_dry o (step_argvs Action.steps o.plan.actions)) (install_tools host id o)
    unfolding install_tools
    install_tools-Runs = Runs-unless o.approved.dry_run (apply_actions-Runs 1 o.plan.actions)

    verify_tools-Runs :
        (before : Option String) (existing : Option Declaration)
        → Runs
            (unless_dry o (step_argvs Action.verify_steps o.plan.actions))
            (verify_tools host id o before existing)
    unfolding verify_tools
    verify_tools-Runs before existing = Runs-unless o.approved.dry_run (
        Runs-last (verify_actions-Runs 1 o.plan.actions) (
          Quiet-then (Quiet-checkpoint host) (
            Quiet-then (Quiet-checkpoint host) (
              Quiet-then (record_declaration_backup-Quiet before)
                (Quiet-then (Quiet-use_value _ write_declaration-Quiet) (Quiet-checkpoint host))))))

    carry_out-Runs :
        (before : Option String) (existing : Option Declaration)
        → Runs (planned_argvs o) (carry_out host id o before existing)
    unfolding carry_out
    carry_out-Runs before existing = Runs-then (Quiet-Runs (Quiet-checkpoint host)) (
        Runs-then (Quiet-Runs (Quiet-on_store _)) (
          Runs-then (Quiet-Runs (Quiet-checkpoint host)) (
            Runs-then install_tools-Runs (
              Runs-then (Quiet-Runs (Quiet-on_store _)) (
                Runs-then (Quiet-Runs (Quiet-checkpoint host))
                  (Runs-last (verify_tools-Runs before existing) (Quiet-on_store _)))))))

    use_value-Extends :
        (m : Attempt (Option Declaration)) (before : Option String) (s : Session)
        → Extends (planned_argvs o) s.commands (use_value m (carry_out host id o before) s)
    unfolding use_value require
    use_value-Extends (returned existing) before s = (carry_out-Runs before existing).runs s
    use_value-Extends (raised fault) before s = tt

    attempt-Runs : (before : Option String) → Runs (planned_argvs o) (attempt host id o before)
    unfolding attempt check_and_carry_out
    attempt-Runs before = Runs-then (Quiet-Runs (Quiet-on_store _)) (
        Runs-then (Quiet-Runs (Quiet-require _))
          (record { runs = λ s. use_value-Extends _ before s }))

abbrev is_succeeded : TransactionState → Bool
is_succeeded succeeded = true
is_succeeded _ = false

-- A call that returns in success ran the commands of its plan.
abbrev pub Completed : Order → Ending × Session → Type 0
Completed o (concluded r, u) =
    (is_succeeded r.state ≡ false)
    ⊎ ((map CommandResult.argv r.commands ≡ planned_argvs o) × (every is_success r.commands ≡ true))
Completed o (escaped fault, u) = Unit

end_unsuccessful : (b : Bool) → is_succeeded (if b then rollback_failed else rolled_back) ≡ false
end_unsuccessful true = refl
end_unsuccessful false = refl

module _ (host : Host) (o : Order) where
  after_rollback-Completed :
      (error : Fault) (r : Check × Session) → Completed o (after_rollback host o.fresh_id o error r)
  after_rollback-Completed error (none, u) = inl (end_unsuccessful u.failed)
  after_rollback-Completed error (some fault, u) = tt

  conclude-Completed :
      (before : Option String) (r : Check × Session)
      → Extends (planned_argvs o) [] r
      → Completed o (conclude host o.fresh_id o before r)
  conclude-Completed before (none, u) (rs, e, m, ok) = inr (rw e m, rw e ok)
  conclude-Completed before (some interrupt, u) h = tt
  conclude-Completed before (some validation, u) h = after_rollback-Completed validation _
  conclude-Completed before (some stale_plan, u) h = after_rollback-Completed stale_plan _
  conclude-Completed before (some apply_failed, u) h = after_rollback-Completed apply_failed _
  conclude-Completed before (some verification, u) h = after_rollback-Completed verification _
  conclude-Completed before (some drift, u) h = after_rollback-Completed drift _
  conclude-Completed before (some value_error, u) h = after_rollback-Completed value_error _
  conclude-Completed before (some key_error, u) h = after_rollback-Completed key_error _
  conclude-Completed before (some integrity_error, u) h = after_rollback-Completed integrity_error _
  conclude-Completed before (some os_error, u) h = after_rollback-Completed os_error _

  started-Completed :
      (before : Option String) (r : Check × Session)
      → r.1.commands ≡ []
      → Completed o (run_transaction host o r)
  started-Completed before (some fault, s) e = tt
  started-Completed before (none, s) e = conclude-Completed s.declaration _ (
      subst (λ c. Extends (planned_argvs o) c (attempt host o.fresh_id o s.declaration s)) e
        ((attempt-Runs host o.fresh_id o s.declaration).runs s))

  -- If `apply` returns in success, then the results that it returns are those of the steps of every
  -- action of the plan followed by the verifications of every action, in the order of the plan, and
  -- each of them exited with 0 before its timeout; of a dry run there are none.
  pub apply-Completed : (s : Session) → Completed o (apply host o s)
  unfolding apply ◌▸◌ require
  apply-Completed s =
      started-Completed s.declaration _ (Quiet-resume _ _ [] refl (Quiet-on_store _))
