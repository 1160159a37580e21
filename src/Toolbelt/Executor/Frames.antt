-- ===== src/Toolbelt/Executor/Frames.antt =====
-- What the statements of toolbelt/src/toolbelt/executor.py leave alone: the state of the transaction,
-- the declaration, and whether it was written. The predicate is any one on those three.
use agent_tooling.Prelude.{ℕ, ◌≡◌, refl, ◌+◌, String, Bool, Option, none, some, List, [], ◌∷◌}
use agent_tooling.Toolbelt.Errors.{
  validation, stale_plan, apply_failed, verification, drift, value_error, key_error,
  integrity_error, os_error, Fault, interrupt, Check, Attempt, returned, raised, after,
}
use agent_tooling.Toolbelt.Schemas.{TransactionState, ActionStep, Action, CommandResult}
use agent_tooling.Toolbelt.State.{
  ActionState, Phase, ActionRow, Tables, record_action, record_command, record_backup,
}
use agent_tooling.Toolbelt.State.History.{state_of}
use agent_tooling.Toolbelt.Executor.{
  Host, Session, Statement, resume, ◌▸◌, nothing, assign, start, started, with_started, require,
  use_value, stored, on_store, checkpoint, run_step,
}
use agent_tooling.Toolbelt.Executor.Rollback.{
  caught, catching, record_result, undo_step, note_undone, undo_steps, record_undone, undo_action,
  undo_actions,
}
use agent_tooling.Toolbelt.Executor.Apply.{
  run_recorded, run_all, complete, apply_actions, verify_actions, record_declaration_backup,
}

-- Statements that keep a predicate of the session, however they end.
pub record Stays (P : Session → Type 0) (f : Statement) : Type 0 where
  pub keeps : (s : Session) → P s → P (f s).1

module _ {P : Session → Type 0} where
  Stays-resume :
      (r : Check × Session) (rest : Statement) → P r.1 → Stays P rest → P (resume r rest).1
  Stays-resume (none, s) rest h k = k.keeps s h
  Stays-resume (some fault, s) rest h k = h

  pub Stays-nothing : Stays P nothing
  unfolding nothing
  Stays-nothing = record { keeps = λ s p. p }

  pub Stays-require : (check : Check) → Stays P (require check)
  unfolding require
  Stays-require check = record { keeps = λ s p. p }

  pub Stays-assign : (f : Session → Session) → ((s : Session) → P s → P (f s)) → Stays P (assign f)
  unfolding assign
  Stays-assign f h = record { keeps = h }

  pub Stays-then : {f g : Statement} → Stays P f → Stays P g → Stays P (f ▸ g)
  unfolding ◌▸◌
  Stays-then {f} {g} h k = record { keeps = λ s p. Stays-resume (f s) g (h.keeps s p) k }

  pub Stays-use_value :
      {A : Type 0} (m : Attempt A) {rest : A → Statement}
      → ((a : A) → Stays P (rest a))
      → Stays P (use_value m rest)
  unfolding use_value require
  Stays-use_value (returned a) k = k a
  Stays-use_value (raised fault) k = record { keeps = λ s p. p }

  Stays-caught :
      (note : Session → Session) (r : Check × Session)
      → ((s : Session) → P s → P (note s))
      → P r.1
      → P (caught note r).1
  Stays-caught note (none, s) h p = p
  Stays-caught note (some interrupt, s) h p = p
  Stays-caught note (some validation, s) h p = h s p
  Stays-caught note (some stale_plan, s) h p = h s p
  Stays-caught note (some apply_failed, s) h p = h s p
  Stays-caught note (some verification, s) h p = h s p
  Stays-caught note (some drift, s) h p = h s p
  Stays-caught note (some value_error, s) h p = h s p
  Stays-caught note (some key_error, s) h p = h s p
  Stays-caught note (some integrity_error, s) h p = h s p
  Stays-caught note (some os_error, s) h p = h s p

  pub Stays-catching :
      (note : Session → Session) {f : Statement}
      → ((s : Session) → P s → P (note s))
      → Stays P f
      → Stays P (catching note f)
  unfolding catching
  Stays-catching note {f} h k = record { keeps = λ s p. Stays-caught note (f s) h (k.keeps s p) }

-- How two statements end, from how the second one ends, where the first keeps a predicate.
module _ (P : Session → Type 0) (Q : Check × Session → Type 0) where
  outcome-resume :
      (r : Check × Session) (rest : Statement)
      → P r.1
      → ((fault : Fault) (s : Session) → P s → Q (some fault, s))
      → ((s : Session) → P s → Q (rest s))
      → Q (resume r rest)
  outcome-resume (none, s) rest p h k = k s p
  outcome-resume (some fault, s) rest p h k = h fault s p

  -- How a statement under `except Exception` ends.
  pub outcome-caught :
      (note : Session → Session) (r : Check × Session)
      → ((s : Session) → r ≡ (none, s) → Q (none, s))
      → P r.1
      → ((s : Session) → P s → Q (some interrupt, s))
      → ((s : Session) → P s → Q (none, note s))
      → Q (caught note r)
  outcome-caught note (none, s) q p cut noted = q s refl
  outcome-caught note (some interrupt, s) q p cut noted = cut s p
  outcome-caught note (some validation, s) q p cut noted = noted s p
  outcome-caught note (some stale_plan, s) q p cut noted = noted s p
  outcome-caught note (some apply_failed, s) q p cut noted = noted s p
  outcome-caught note (some verification, s) q p cut noted = noted s p
  outcome-caught note (some drift, s) q p cut noted = noted s p
  outcome-caught note (some value_error, s) q p cut noted = noted s p
  outcome-caught note (some key_error, s) q p cut noted = noted s p
  outcome-caught note (some integrity_error, s) q p cut noted = noted s p
  outcome-caught note (some os_error, s) q p cut noted = noted s p

  pub outcome-then :
      (f g : Statement)
      → Stays P f
      → ((fault : Fault) (s : Session) → P s → Q (some fault, s))
      → ((s : Session) → P s → Q (g s))
      → (s : Session) → P s
      → Q ((f ▸ g) s)
  unfolding ◌▸◌
  outcome-then f g stays h k s p = outcome-resume (f s) g (stays.keeps s p) h k

module _ (id : String) (Φ : Option TransactionState → Option String → Bool → Type 0) where
  abbrev pub Holds : Session → Type 0
  Holds s = Φ (state_of id s.tables) s.declaration s.declaration_written

  -- A call of the store that checks and then changes another table.
  Stays-stored :
      (c : Check) (t : Tables) (s : Session)
      → Holds s
      → Holds (record s { tables = t })
      → Holds (stored (after c (returned t)) s).1
  Stays-stored none t s p q = q
  Stays-stored (some fault) t s p q = p

  pub record_action-Stays :
      (a : Action) (sequence : ℕ) (state : ActionState)
      → Stays Holds (on_store (record_action id a sequence state))
  unfolding record_action on_store
  record_action-Stays a sequence state = record { keeps = λ s p. Stays-stored _ _ s p p }

  pub record_command-Stays :
      (action_id : String) (phase : Phase) (r : CommandResult)
      → Stays Holds (on_store (record_command id action_id phase r))
  unfolding record_command on_store
  record_command-Stays action_id phase r = record { keeps = λ s p. Stays-stored _ _ s p p }

  pub record_backup-Stays :
      (path backup_path sha256 : String)
      → Stays Holds (on_store (record_backup id path backup_path sha256))
  unfolding record_backup on_store
  record_backup-Stays path backup_path sha256 = record { keeps = λ s p. Stays-stored _ _ s p p }

  module _ (host : Host) where
    pub checkpoint-Stays : Stays Holds (checkpoint host)
    unfolding checkpoint
    checkpoint-Stays = record { keeps = λ s p. p }

    pub run_step-Stays :
        (step : ActionStep) (rest : CommandResult → Statement)
        → ((r : CommandResult) → Stays Holds (rest r))
        → Stays Holds (run_step host step rest)
    unfolding run_step start
    run_step-Stays step rest k = Stays-then (Stays-require _) (record {
      keeps = λ s p.
          (Stays-use_value {P = Holds} (started host step s) k).keeps (with_started host step s) p;
    })

    record_result-Stays :
        (a : Action) (phase : Phase) (r : CommandResult) → Stays Holds (record_result id a phase r)
    record_result-Stays a phase r =
        Stays-then (Stays-assign _ (λ s p. p)) (record_command-Stays a.id phase r)

    run_all-Stays :
        (a : Action) (phase : Phase) (fault : Fault) (steps : List ActionStep)
        → Stays Holds (run_all host id a phase fault steps)
    unfolding run_all run_recorded
    run_all-Stays a phase fault [] = Stays-nothing
    run_all-Stays a phase fault (step ∷ steps) =
        Stays-then
          (run_step-Stays step _ λ r. Stays-then (record_result-Stays a phase r) (Stays-require _))
          (run_all-Stays a phase fault steps)

    complete-Stays : (a : Action) (steps : List ActionStep) → Stays Holds (complete host id a steps)
    complete-Stays a [] = Stays-nothing
    complete-Stays a (step ∷ steps) = Stays-assign _ (λ s p. p)

    pub apply_actions-Stays :
        (sequence : ℕ) (actions : List Action)
        → Stays Holds (apply_actions host id sequence actions)
    unfolding apply_actions
    apply_actions-Stays sequence [] = Stays-nothing
    apply_actions-Stays sequence (a ∷ actions) = Stays-then (record_action-Stays a sequence _) (
        Stays-then (run_all-Stays a _ _ a.steps) (
          Stays-then (complete-Stays a a.steps) (
            Stays-then (record_action-Stays a sequence _)
              (Stays-then checkpoint-Stays (apply_actions-Stays (sequence + 1) actions)))))

    pub verify_actions-Stays :
        (sequence : ℕ) (actions : List Action)
        → Stays Holds (verify_actions host id sequence actions)
    unfolding verify_actions
    verify_actions-Stays sequence [] = Stays-nothing
    verify_actions-Stays sequence (a ∷ actions) = Stays-then (run_all-Stays a _ _ a.verify_steps) (
        Stays-then (record_action-Stays a sequence _) (verify_actions-Stays (sequence + 1) actions))

    pub record_declaration_backup-Stays :
        (before : Option String) → Stays Holds (record_declaration_backup host id before)
    unfolding record_declaration_backup
    record_declaration_backup-Stays none = record_backup-Stays _ _ _
    record_declaration_backup-Stays (some content) =
        Stays-then (Stays-require _)
          (Stays-then (Stays-assign _ (λ s p. p)) (record_backup-Stays _ _ _))

    undo_steps-Stays :
        (a : Action) (steps : List ActionStep) → Stays Holds (undo_steps host id a steps)
    unfolding undo_steps undo_step
    undo_steps-Stays a [] = Stays-nothing
    undo_steps-Stays a (step ∷ steps) = Stays-then (undo_steps-Stays a steps) (
        Stays-catching _ (λ s p. p)
          (run_step-Stays step _
            λ r. Stays-then (record_result-Stays a _ r) (Stays-assign _ (λ s p. p))))

    record_undone-Stays :
        (a : Action) (row : Option ActionRow) → Stays Holds (record_undone host id a row)
    record_undone-Stays a none = Stays-require _
    record_undone-Stays a (some row) = record {
      keeps = λ s p. (record_action-Stays a row.sequence _).keeps s p;
    }

    note_undone-Stays : (a : Action) → Stays Holds (note_undone host id a)
    unfolding note_undone
    note_undone-Stays a = record { keeps = λ s p. (record_undone-Stays a _).keeps s p }

    pub undo_actions-Stays : (actions : List Action) → Stays Holds (undo_actions host id actions)
    unfolding undo_actions undo_action
    undo_actions-Stays [] = Stays-nothing
    undo_actions-Stays (a ∷ actions) = Stays-then (undo_actions-Stays actions) (
        Stays-then (Stays-assign _ (λ s p. p)) (
          Stays-then (undo_steps-Stays a a.rollback_steps) (
            Stays-then (Stays-assign _ (λ s p. p))
              (Stays-catching _ (λ s p. p) (note_undone-Stays a)))))
