-- ===== src/Toolbelt/State/Lifecycle.antt =====
-- The states of a transaction of toolbelt/src/toolbelt/state.py as a step relation.
use agent_tooling.Prelude.{◌≡◌, refl, true, false, arith}
use agent_tooling.Toolbelt.Schemas.{
  TransactionState, planned, preflight, applying, verifying, succeeded, rolling_back, rolled_back,
  rollback_failed, interrupted,
}
use agent_tooling.Toolbelt.State.{is_transition, is_terminal}

-- Where the transitions of the table lead.
pub data Reach (s : TransactionState) : TransactionState → Type 0 where
  here : Reach s s
  next : {t u : TransactionState} → Reach s t → is_transition t u ≡ true → Reach s u

pub Reach-trans : {s t u : TransactionState} → Reach s t → Reach t u → Reach s u
Reach-trans before here = before
Reach-trans before (next after e) = next (Reach-trans before after) e

-- No transition leaves a terminal state.
terminal_stays : (s t : TransactionState) → is_terminal s ≡ true → is_transition s t ≡ false
terminal_stays succeeded t h = refl
terminal_stays rolled_back t h = refl
terminal_stays rollback_failed t h = refl
terminal_stays planned t h = absurd (ground arith)
terminal_stays preflight t h = absurd (ground arith)
terminal_stays applying t h = absurd (ground arith)
terminal_stays verifying t h = absurd (ground arith)
terminal_stays rolling_back t h = absurd (ground arith)
terminal_stays interrupted t h = absurd (ground arith)

-- From a terminal state only that state is reached.
pub Reach-terminal : {s t : TransactionState} → Reach s t → is_terminal s ≡ true → s ≡ t
Reach-terminal here h = refl
Reach-terminal {s} (next {t} {u} before e) h =
    let same : s ≡ t = Reach-terminal before h in absurd (ground (arith, terminal_stays s u h))

rolling_back_reachable : (s : TransactionState) → is_terminal s ≡ false → Reach s rolling_back
rolling_back_reachable planned h = next {t = interrupted} (next here refl) refl
rolling_back_reachable preflight h = next here refl
rolling_back_reachable applying h = next here refl
rolling_back_reachable verifying h = next here refl
rolling_back_reachable rolling_back h = here
rolling_back_reachable interrupted h = next here refl
rolling_back_reachable succeeded h = absurd (ground arith)
rolling_back_reachable rolled_back h = absurd (ground arith)
rolling_back_reachable rollback_failed h = absurd (ground arith)

-- From every state that is not terminal the transitions lead to each of the two ends of a rollback,
-- so that no unfinished transaction is stuck.
pub reaches_terminal :
    (s : TransactionState) → is_terminal s ≡ false → Reach s rolled_back × Reach s rollback_failed
reaches_terminal s h =
    (next (rolling_back_reachable s h) refl, next (rolling_back_reachable s h) refl)
