-- ===== src/Toolbelt/Executor/Settling.antt =====
-- How a call of `Executor.apply` in toolbelt/src/toolbelt/executor.py leaves its transaction and the
-- declaration, whatever the commands do.
use agent_tooling.Prelude.{
  ◌≡◌, refl, String, Bool, true, false, none, some, ◌⊎◌, inl, inr, arith, if◌then◌else◌,
}
use agent_tooling.Toolbelt.Errors.{
  Fault, interrupt, validation, stale_plan, apply_failed, verification, drift, value_error,
  key_error, integrity_error, os_error, Check, Attempt, returned, raised,
}
use agent_tooling.Toolbelt.Schemas.{
  TransactionState, planned, preflight, applying, verifying, succeeded, rolling_back, rolled_back,
  rollback_failed, interrupted,
}
use agent_tooling.Toolbelt.State.{Tables, is_terminal, is_transition, begin_transaction}
use agent_tooling.Toolbelt.State.History.{state_of, set_transaction_state_runs, state_of-begin}
use agent_tooling.Toolbelt.Executor.{Host, Session, stored, ◌▸◌, require, on_store}
use agent_tooling.Toolbelt.Executor.Rollback.{rollback}
use agent_tooling.Toolbelt.Executor.Apply.{
  Ending, concluded, escaped, Order, conclude, opened, apply, after_rollback, run_transaction,
}
use agent_tooling.Toolbelt.Executor.Frames.{Holds}
use agent_tooling.Toolbelt.Executor.Trying.{is_live, Live, Tried, attempt-Tried}
use agent_tooling.Toolbelt.Executor.Undoing.{Undone, rollback-Undone}

abbrev is_rolled_back : TransactionState → Bool
is_rolled_back rolled_back = true
is_rolled_back _ = false

-- A call that returns leaves the transaction in the state that it returns, a terminal one, and the
-- declaration as it was if that state is `rolled_back`. A call that raises leaves everything as it
-- was, or a transaction that is not terminal.
abbrev pub Settled : String → Session → Ending × Session → Type 0
Settled id s (concluded r, u) =
    (r.transaction_id ≡ id)
    × (state_of id u.tables ≡ some r.state)
    × (is_terminal r.state ≡ true)
    × ((is_rolled_back r.state ≡ false) ⊎ (u.declaration ≡ s.declaration))
Settled id s (escaped fault, u) =
    ((u.tables ≡ s.tables) × (u.declaration ≡ s.declaration))
    ⊎ ((x : TransactionState) × (state_of id u.tables ≡ some x) × (is_terminal x ≡ false))

live_unfinished : (x : TransactionState) → is_live x ≡ true → is_terminal x ≡ false
live_unfinished planned h = refl
live_unfinished preflight h = refl
live_unfinished applying h = refl
live_unfinished verifying h = refl
live_unfinished succeeded h = absurd (ground arith)
live_unfinished rolling_back h = absurd (ground arith)
live_unfinished rolled_back h = absurd (ground arith)
live_unfinished rollback_failed h = absurd (ground arith)
live_unfinished interrupted h = absurd (ground arith)

live_interrupted : (x : TransactionState) → is_live x ≡ true → is_transition x interrupted ≡ true
live_interrupted planned h = refl
live_interrupted preflight h = refl
live_interrupted applying h = refl
live_interrupted verifying h = refl
live_interrupted succeeded h = absurd (ground arith)
live_interrupted rolling_back h = absurd (ground arith)
live_interrupted rolled_back h = absurd (ground arith)
live_interrupted rollback_failed h = absurd (ground arith)
live_interrupted interrupted h = absurd (ground arith)

pub end_terminal : (b : Bool) → is_terminal (if b then rollback_failed else rolled_back) ≡ true
end_terminal true = refl
end_terminal false = refl

end_back :
    {P : Type 0} (b : Bool)
    → (b ≡ true) ⊎ P
    → (is_rolled_back (if b then rollback_failed else rolled_back) ≡ false) ⊎ P
end_back true back = inl refl
end_back false (inl e) = absurd (ground arith)
end_back false (inr p) = inr p

module _ (host : Host) (id : String) (o : Order) (s : Session) where
  after_rollback-Settled :
      (error : Fault) (r : Check × Session)
      → Undone host id s.declaration r
      → Settled id s (after_rollback host id o error r)
  after_rollback-Settled error (none, u) (at, back) =
      (refl, at, end_terminal u.failed, end_back u.failed back)
  after_rollback-Settled error (some fault, u) at = inr (rolling_back, at, refl)

  -- The clause `except Exception`.
  failed-Settled :
      (fault : Fault) (u : Session)
      → Holds id (Live host id o s.declaration) u
      → Settled id s (
          after_rollback host id o fault
            (rollback host id u.completed s.declaration u.declaration_written u))
  failed-Settled fault u (x, at, live, safe) = after_rollback-Settled fault _ (
      rollback-Undone host id s.declaration u.completed u.declaration_written u x at
        (live_unfinished x live) safe)

  -- The clause `except BaseException`.
  interrupted-Settled :
      (u : Session)
      → Holds id (Live host id o s.declaration) u
      → Settled id s (conclude host id o s.declaration (some interrupt, u))
  unfolding on_store
  interrupted-Settled u (x, at, live, safe) =
      let (t, ran, now) =
        set_transaction_state_runs id x interrupted (some interrupt) u.tables at
          (live_interrupted x live) in
      rw ran (inr (interrupted, now, refl))

  conclude-Settled :
      (r : Check × Session)
      → Tried host id o s.declaration r
      → Settled id s (conclude host id o s.declaration r)
  conclude-Settled (none, u) h = (refl, h, refl, inl refl)
  conclude-Settled (some interrupt, u) h = interrupted-Settled u h
  conclude-Settled (some validation, u) h = failed-Settled validation u h
  conclude-Settled (some stale_plan, u) h = failed-Settled stale_plan u h
  conclude-Settled (some apply_failed, u) h = failed-Settled apply_failed u h
  conclude-Settled (some verification, u) h = failed-Settled verification u h
  conclude-Settled (some drift, u) h = failed-Settled drift u h
  conclude-Settled (some value_error, u) h = failed-Settled value_error u h
  conclude-Settled (some key_error, u) h = failed-Settled key_error u h
  conclude-Settled (some integrity_error, u) h = failed-Settled integrity_error u h
  conclude-Settled (some os_error, u) h = failed-Settled os_error u h

module _ (host : Host) (o : Order) (s : Session) where
  begun-Settled :
      (m : Attempt Tables)
      → begin_transaction o.plan.plan_id o.plan.repository.identity o.fresh_id s.tables ≡ m
      → Settled o.fresh_id s (run_transaction host o (stored m (opened host s)))
  begun-Settled (raised fault) e = inl (refl, refl)
  begun-Settled (returned t) e = conclude-Settled host o.fresh_id o s _ (
      attempt-Tried host o.fresh_id o s.declaration (record (opened host s) { tables = t })
        (
          planned,
          state_of-begin o.plan.plan_id o.plan.repository.identity o.fresh_id s.tables t e,
          refl,
          inl refl,
        ))

  checked-Settled :
      (size : Check)
      → Settled o.fresh_id s (
          run_transaction host o (
            (require size
                ▸ on_store (begin_transaction o.plan.plan_id o.plan.repository.identity o.fresh_id))
              (opened host s)))
  unfolding require ◌▸◌ on_store
  checked-Settled (some fault) = inl (refl, refl)
  checked-Settled none = begun-Settled _ refl

  -- Whatever the commands do and wherever a fault is injected: if `apply` returns a result, the
  -- transaction of its id is stored in the result's state, which is terminal, and if that is
  -- `rolled_back`, the declaration is as it was before the call. If an exception escapes, the tables
  -- and the declaration are as they were, or the transaction is stored in a state that is not
  -- terminal, from which it can be recovered.
  pub apply-Settled : Settled o.fresh_id s (apply host o s)
  unfolding apply
  apply-Settled = checked-Settled _
