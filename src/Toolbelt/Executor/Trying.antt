-- ===== src/Toolbelt/Executor/Trying.antt =====
-- How the body of the `try` of `Executor.apply` in toolbelt/src/toolbelt/executor.py ends.
use agent_tooling.Prelude.{◌≡◌, refl, String, Bool, true, false, Option, none, some, ◌⊎◌, inl, inr}
use agent_tooling.Toolbelt.Errors.{Check, Attempt, returned, raised, Attempt-cases}
use agent_tooling.Toolbelt.Schemas.{
  TransactionState, planned, preflight, applying, verifying, succeeded, Declaration,
}
use agent_tooling.Toolbelt.State.{set_transaction_state}
use agent_tooling.Toolbelt.State.History.{state_of, state_of-set}
use agent_tooling.Toolbelt.Executor.{Host, Session, Statement, ◌▸◌, on_store, require, use_value}
use agent_tooling.Toolbelt.Executor.Apply.{
  Order, write_declaration, install_tools, verify_tools, carry_out, check_and_carry_out, attempt,
  unless,
}
use agent_tooling.Toolbelt.Executor.Frames.{
  Stays, Stays-nothing, Stays-require, Stays-assign, Stays-then, Stays-use_value, Holds,
  checkpoint-Stays, apply_actions-Stays, verify_actions-Stays, record_declaration_backup-Stays,
  outcome-then,
}

-- The states of a transaction that `apply` is carrying out.
abbrev pub is_live : TransactionState → Bool
is_live planned = true
is_live preflight = true
is_live applying = true
is_live verifying = true
is_live _ = false

module _ (host : Host) (id : String) (o : Order) (before : Option String) where
  -- The transaction is under way, and the declaration is the one from before unless it was written.
  abbrev pub Live : Option TransactionState → Option String → Bool → Type 0
  Live state declaration written =
      (x : TransactionState) × (state ≡ some x)
      × (is_live x ≡ true)
      × ((declaration ≡ before) ⊎ (written ≡ true))

  abbrev IsUnderWay : Session → Type 0
  IsUnderWay = Holds id Live

  -- The `try` ended in success, or with an exception while the transaction was under way.
  abbrev pub Tried : Check × Session → Type 0
  Tried (none, s) = state_of id s.tables ≡ some succeeded
  Tried (some fault, s) = IsUnderWay s

  set_live-Stays :
      (x : TransactionState)
      → is_live x ≡ true
      → Stays IsUnderWay (on_store (set_transaction_state id x none))
  unfolding on_store
  set_live-Stays x h = record {
    keeps = λ s p. elim (Attempt-cases (set_transaction_state id x none s.tables)) [
      | inl (u, e) ↦ rw e (x, state_of-set id x none s.tables u e, h, p.3)
      | inr (fault, e) ↦ rw e p
    ];
  }

  write_declaration-Stays : (d : Declaration) → Stays IsUnderWay (write_declaration host id d)
  unfolding write_declaration
  write_declaration-Stays d =
      Stays-then (Stays-require _) (Stays-assign _ (λ s p. (p.0, p.1, p.2, inr refl)))

  unless-Stays : (dry : Bool) (f : Statement) → Stays IsUnderWay f → Stays IsUnderWay (unless dry f)
  unless-Stays true f h = Stays-nothing
  unless-Stays false f h = h

  install_tools-Stays : Stays IsUnderWay (install_tools host id o)
  unfolding install_tools
  install_tools-Stays = unless-Stays _ _ (apply_actions-Stays id Live host 1 o.plan.actions)

  verify_tools-Stays :
      (existing : Option Declaration) → Stays IsUnderWay (verify_tools host id o before existing)
  unfolding verify_tools
  verify_tools-Stays existing = unless-Stays _ _ (
      Stays-then (verify_actions-Stays id Live host 1 o.plan.actions) (
        Stays-then (checkpoint-Stays id Live host) (
          Stays-then (checkpoint-Stays id Live host) (
            Stays-then (record_declaration_backup-Stays id Live host before) (
              Stays-then (Stays-use_value _ write_declaration-Stays)
                (checkpoint-Stays id Live host))))))

  succeed-Tried :
      (s : Session) → IsUnderWay s → Tried (on_store (set_transaction_state id succeeded none) s)
  unfolding on_store
  succeed-Tried s p = elim (Attempt-cases (set_transaction_state id succeeded none s.tables)) [
    | inl (u, e) ↦ rw e (state_of-set id succeeded none s.tables u e)
    | inr (fault, e) ↦ rw e p
  ]

  abbrev step :
      (f g : Statement)
      → Stays IsUnderWay f
      → ((s : Session) → IsUnderWay s → Tried (g s))
      → (s : Session) → IsUnderWay s
      → Tried ((f ▸ g) s)
  step f g h k = outcome-then IsUnderWay Tried f g h (λ fault s p. p) k

  carry_out-Tried :
      (existing : Option Declaration) (s : Session)
      → IsUnderWay s
      → Tried (carry_out host id o before existing s)
  unfolding carry_out
  carry_out-Tried existing = step _ _ (checkpoint-Stays id Live host) (
      step _ _ (set_live-Stays applying refl) (
        step _ _ (checkpoint-Stays id Live host) (
          step _ _ install_tools-Stays (
            step _ _ (set_live-Stays verifying refl) (
              step _ _ (checkpoint-Stays id Live host)
                (step _ _ (verify_tools-Stays existing) succeed-Tried))))))

  use_value-Tried :
      (m : Attempt (Option Declaration)) (s : Session)
      → IsUnderWay s
      → Tried (use_value m (carry_out host id o before) s)
  unfolding use_value require
  use_value-Tried (returned existing) s p = carry_out-Tried existing s p
  use_value-Tried (raised fault) s p = p

  check_and_carry_out-Tried :
      (s : Session) → IsUnderWay s → Tried (check_and_carry_out host id o before s)
  unfolding check_and_carry_out
  check_and_carry_out-Tried s p = use_value-Tried _ s p

  pub attempt-Tried : (s : Session) → IsUnderWay s → Tried (attempt host id o before s)
  unfolding attempt
  attempt-Tried =
      step _ _ (set_live-Stays preflight refl)
        (step _ _ (Stays-require _) check_and_carry_out-Tried)
