-- ===== src/Toolbelt/Executor/Undoing.antt =====
-- How `_rollback` of toolbelt/src/toolbelt/executor.py ends.
use agent_tooling.Prelude.{
  ◌≡◌, refl, ◌∙◌, String, Bool, true, false, Option, none, some, List, ◌⊎◌, inl, inr, arith,
  Bool-cases,
}
use agent_tooling.Toolbelt.Errors.{Fault, Check}
use agent_tooling.Toolbelt.Schemas.{
  TransactionState, planned, preflight, applying, verifying, succeeded, rolling_back, rolled_back,
  rollback_failed, interrupted, Action,
}
use agent_tooling.Toolbelt.State.{
  Tables, set_transaction_state, is_transition, is_terminal, mark_backup_restored,
}
use agent_tooling.Toolbelt.State.History.{state_of, state_of-found, set_transaction_state_runs}
use agent_tooling.Toolbelt.Executor.{
  Host, Session, Statement, resume, ◌▸◌, nothing, assign, on_store, require,
}
use agent_tooling.Toolbelt.Executor.Rollback.{
  lock_file, caught, catching, note_failed, enter_from, transition_to_rollback, undo_actions,
  restore_if, end_state, set_end_state, rollback,
}
use agent_tooling.Toolbelt.Executor.Frames.{Holds, undo_actions-Stays, outcome-then, outcome-caught}

module _ (id : String) where
  abbrev with_tables : Session → Tables → Session
  with_tables s t = record s { tables = t }

  -- A transition of the session's transaction returns.
  set_runs :
      (s : Session) (x y : TransactionState) (error : Option Fault)
      → state_of id s.tables ≡ some x
      → is_transition x y ≡ true
      → (t : Tables) × (on_store (set_transaction_state id y error) s ≡ (none, with_tables s t))
        × (state_of id t ≡ some y)
  unfolding on_store
  set_runs s x y error at allowed =
      let (t, ran, now) = set_transaction_state_runs id x y error s.tables at allowed in
      (t, rw ran refl, now)

  -- A transaction that is not terminal can be rolled back from its state.
  abbrev Entered : Session → Check × Session → Type 0
  Entered s r = (t : Tables) × (r ≡ (none, with_tables s t)) × (state_of id t ≡ some rolling_back)

  enter_from_runs :
      (s : Session) (x : TransactionState)
      → state_of id s.tables ≡ some x
      → is_terminal x ≡ false
      → Entered s (enter_from id x s)
  unfolding nothing ◌▸◌
  enter_from_runs s planned at unfinished =
      let (t, ran, now) = set_runs s planned interrupted none at refl in
      let (u, ran', now') = set_runs (with_tables s t) interrupted rolling_back none now refl in
      (u, rw ran ran', now')
  enter_from_runs s preflight at unfinished = set_runs s preflight rolling_back none at refl
  enter_from_runs s applying at unfinished = set_runs s applying rolling_back none at refl
  enter_from_runs s verifying at unfinished = set_runs s verifying rolling_back none at refl
  enter_from_runs s interrupted at unfinished = set_runs s interrupted rolling_back none at refl
  enter_from_runs s rolling_back at unfinished = (s.tables, refl, at)
  enter_from_runs s succeeded at unfinished = absurd (ground arith)
  enter_from_runs s rolled_back at unfinished = absurd (ground arith)
  enter_from_runs s rollback_failed at unfinished = absurd (ground arith)

  transition_to_rollback_runs :
      (s : Session) (x : TransactionState)
      → state_of id s.tables ≡ some x
      → is_terminal x ≡ false
      → Entered s (transition_to_rollback id s)
  unfolding transition_to_rollback
  transition_to_rollback_runs s x at unfinished =
      let (r, found, same) = state_of-found id s.tables x at in
      rw (found, same) (enter_from_runs s x at unfinished)

module _ (host : Host) (id : String) (before : Option String) where
  -- Rolling back, with the declaration as it was when the rollback began.
  abbrev Rolling : Option String → Option TransactionState → Option String → Bool → Type 0
  Rolling d0 state declaration written = (state ≡ some rolling_back) × (declaration ≡ d0)

  -- The rollback ran to its end, where the transaction has the state that the flag tells, and the
  -- declaration from before is back unless the flag tells of a failure; or an interrupt cut it short,
  -- and the transaction is still rolling back.
  abbrev pub Undone : Check × Session → Type 0
  Undone (none, s) =
      (state_of id s.tables ≡ some (end_state host id s))
      × ((s.failed ≡ true) ⊎ (s.declaration ≡ before))
  Undone (some fault, s) = state_of id s.tables ≡ some rolling_back

  abbrev IsRestored : Session → Type 0
  IsRestored s =
      (state_of id s.tables ≡ some rolling_back) × ((s.failed ≡ true) ⊎ (s.declaration ≡ before))

  is_end : (s : Session) → is_transition rolling_back (end_state host id s) ≡ true
  is_end s = elim (Bool-cases s.failed) [ inl e ↦ rw e refl | inr e ↦ rw e refl ]

  end-Undone :
      (s : Session) → IsRestored s → Undone (catching note_failed (set_end_state host id) s)
  unfolding catching set_end_state
  end-Undone s (at, back) =
      let (t, ran, now) = set_runs id s rolling_back (end_state host id s) none at (is_end s) in
      rw ran (now, back)

  -- The declaration is restored, or the flag tells that it is not.
  abbrev Restored : Check × Session → Type 0
  Restored (none, s) = IsRestored s
  Restored (some fault, s) = state_of id s.tables ≡ some rolling_back

  abbrev IsRolling : Session → Type 0
  IsRolling s = state_of id s.tables ≡ some rolling_back

  -- The body of the `try` that restores the declaration.
  abbrev restored_by : Check → Statement
  restored_by owned =
      (require owned ▸ assign (λ s. record s { declaration = before }))
      ▸ assign (λ s. record s { tables = mark_backup_restored id lock_file s.tables })

  restored_by-Restored :
      (owned : Check) (s : Session)
      → IsRolling s
      → Restored (caught note_failed (restored_by owned s))
  unfolding require assign ◌▸◌ mark_backup_restored
  restored_by-Restored none s at = (at, inr refl)
  restored_by-Restored (some fault) s at =
      outcome-caught IsRolling Restored note_failed (some fault, s)
        (λ t e. absurd (ground (arith, e))) at (λ t p. p) (λ t p. (p, inl refl))

  restore_if-Restored :
      (d0 : Option String) (written : Bool)
      → (d0 ≡ before) ⊎ (written ≡ true)
      → (s : Session) → Holds id (Rolling d0) s
      → Restored (restore_if host id written before s)
  unfolding catching nothing
  restore_if-Restored d0 true safe s (at, same) = restored_by-Restored (host.owned lock_file) s at
  restore_if-Restored d0 false (inl e) s (at, same) = (at, inr (same ∙ e))
  restore_if-Restored d0 false (inr e) s (at, same) = absurd (ground arith)

  end-after :
      (r : Check × Session)
      → Restored r
      → Undone (resume r (catching note_failed (set_end_state host id)))
  end-after (none, s) h = end-Undone s h
  end-after (some fault, s) h = h

  abbrev undo_rest : List Action → Bool → Statement
  undo_rest completed written =
      undo_actions host id completed
      ▸ restore_if host id written before
      ▸ catching note_failed (set_end_state host id)

  restore_then_end :
      (d0 : Option String) (written : Bool)
      → (d0 ≡ before) ⊎ (written ≡ true)
      → (s : Session) → Holds id (Rolling d0) s
      → Undone
          ((restore_if host id written before ▸ catching note_failed (set_end_state host id)) s)
  unfolding ◌▸◌
  restore_then_end d0 written safe s p = end-after _ (restore_if-Restored d0 written safe s p)

  undo_rest-Undone :
      (d0 : Option String) (completed : List Action) (written : Bool)
      → (d0 ≡ before) ⊎ (written ≡ true)
      → (s : Session) → Holds id (Rolling d0) s
      → Undone (undo_rest completed written s)
  undo_rest-Undone d0 completed written safe =
      outcome-then (Holds id (Rolling d0)) Undone (undo_actions host id completed) _
        (undo_actions-Stays id (Rolling d0) host completed) (λ fault s p. p.0)
        (restore_then_end d0 written safe)

  -- However a transaction that is not terminal is rolled back, the rollback ends as `Undone` says, if
  -- the declaration is still the one from before or its restoration is asked for.
  pub rollback-Undone :
      (completed : List Action) (written : Bool) (s : Session) (x : TransactionState)
      → state_of id s.tables ≡ some x
      → is_terminal x ≡ false
      → (s.declaration ≡ before) ⊎ (written ≡ true)
      → Undone (rollback host id completed before written s)
  unfolding rollback assign ◌▸◌ catching
  rollback-Undone completed written s x at unfinished safe =
      let (t, ran, now) =
        transition_to_rollback_runs id (record s { failed = false }) x at unfinished in
      rw ran (
        undo_rest-Undone s.declaration completed written safe
          (record s { failed = false; tables = t }) (now, refl))
