-- ===== src/Toolbelt/Executor/Recovering.antt =====
-- How `Executor.recover` of toolbelt/src/toolbelt/executor.py leaves the transaction.
use agent_tooling.Prelude.{
  ◌≡◌, refl, ap, String, Bool, true, false, Option, none, some, List, ◌++◌, [], ◌∷◌, ◌⊎◌, inl, inr,
  Bool-cases, Option-cases,
}
use agent_tooling.Toolbelt.Errors.{Check, Attempt, returned, raised}
use agent_tooling.Toolbelt.Schemas.{TransactionState, rolling_back, Action}
use agent_tooling.Toolbelt.State.{
  Tables, TransactionRow, is_terminal, get_transaction, record_recovery,
}
use agent_tooling.Toolbelt.State.History.{state_in, state_of, state_of-found}
use agent_tooling.Toolbelt.Executor.{Host, Session, on_store}
use agent_tooling.Toolbelt.Executor.Rollback.{end_state, rollback}
use agent_tooling.Toolbelt.Executor.Apply.{Ending, concluded, escaped, opened}
use agent_tooling.Toolbelt.Executor.Undoing.{Undone, rollback-Undone}
use agent_tooling.Toolbelt.Executor.Settling.{end_terminal}
use agent_tooling.Toolbelt.Executor.Recover.{recovered, finish, roll_back_to, recover_row, recover}

module _ (host : Host) (id : String) where
  -- The transaction of a recovery that returned is stored in the state that was returned, which is
  -- terminal, and a second recovery returns that state, runs nothing and changes nothing. One that
  -- raised changed nothing, or left the transaction in a state that is not terminal.
  abbrev pub Recovered : Session → Ending × Session → Type 0
  Recovered s (concluded r, u) =
      (state_of id u.tables ≡ some r.state)
      × (is_terminal r.state ≡ true)
      × (recover host id u ≡ (concluded (recovered host id r.state), u))
  Recovered s (escaped fault, u) =
      (u ≡ s) ⊎ ((x : TransactionState) × (state_of id u.tables ≡ some x) × (is_terminal x ≡ false))

  -- A transaction in a terminal state is left as it is.
  recover_terminal :
      (s : Session) (x : TransactionState)
      → state_of id s.tables ≡ some x
      → is_terminal x ≡ true
      → recover host id s ≡ (concluded (recovered host id x), s)
  unfolding recover
  recover_terminal s x at done =
      let (r, found, same) = state_of-found id s.tables x at in rw (found, same, done) refl

  record_recovery_runs :
      (x status : TransactionState) (t : Tables)
      → state_of id t ≡ some x
      → record_recovery id status t
        ≡ returned (record t {
          recovery_records =
              t.recovery_records ++ (record { transaction_id = id; status = status } ∷ []);
        })
  unfolding record_recovery
  record_recovery_runs x status t at =
      let (r, found, same) = state_of-found id t x at in rw found refl

  finish-Recovered :
      (s : Session) (before : Option String) (r : Check × Session)
      → Undone host id before r
      → Recovered s (finish host id r)
  unfolding on_store
  finish-Recovered s before (some fault, u) at = inr (rolling_back, at, refl)
  finish-Recovered s before (none, u) (at, back) =
      rw (record_recovery_runs (end_state host id u) (end_state host id u) u.tables at) (
        at,
        end_terminal u.failed,
        recover_terminal _ (end_state host id u) at (end_terminal u.failed),
      )

  -- Without a backup there is nothing to restore, and the content is not looked at.
  rolled_Recovered :
      (before : Option String) (has_backup : Bool) (actions : List Action) (s : Session)
      (x : TransactionState)
      → state_of id s.tables ≡ some x
      → is_terminal x ≡ false
      → Recovered s (finish host id (rollback host id actions before has_backup (opened host s)))
  unfolding rollback
  rolled_Recovered before true actions s x at unfinished =
      finish-Recovered s before _
        (rollback-Undone host id before actions true (opened host s) x at unfinished (inr refl))
  rolled_Recovered before false actions s x at unfinished = finish-Recovered s s.declaration _ (
      rollback-Undone host id s.declaration actions false (opened host s) x at unfinished
        (inl refl))

  -- The clause for a transaction that is not terminal, from the backup that was read.
  roll_back_to-Recovered :
      (m : Attempt (Option String)) (s : Session) (x : TransactionState)
      → state_of id s.tables ≡ some x
      → is_terminal x ≡ false
      → Recovered s (roll_back_to host id m s)
  roll_back_to-Recovered (raised fault) s x at unfinished = inl refl
  roll_back_to-Recovered (returned before) s x at unfinished =
      rolled_Recovered before _ _ s x at unfinished

  recover_row-Recovered :
      (s : Session) (r : TransactionRow)
      → get_transaction id s.tables ≡ some r
      → Recovered s (recover_row host id (some r) s)
  recover_row-Recovered s r found = elim (Bool-cases (is_terminal r.state)) [
    | inl e ↦ let at = ap state_in found in rw e (at, e, recover_terminal s r.state at e)
    | inr e ↦ rw e (roll_back_to-Recovered _ s r.state (ap state_in found) e)
  ]

  -- A recovery that returns leaves the transaction stored in the state that it returns, which is
  -- terminal, and after it a second recovery returns that state, runs nothing and changes nothing. A
  -- recovery that raises changed nothing, or left the transaction in a state that is not terminal.
  pub recover-Recovered : (s : Session) → Recovered s (recover host id s)
  unfolding recover
  recover-Recovered s = elim (Option-cases (get_transaction id s.tables)) [
    | inl e ↦ rw e (inl refl)
    | inr (r, e) ↦ rw e (recover_row-Recovered s r e)
  ]
