-- ===== src/Toolbelt/State/History.antt =====
-- Whatever calls of the store of toolbelt/src/toolbelt/state.py are made, the state of a transaction
-- moves along the table of transitions.
use agent_tooling.Prelude.{
  ℕ, ◌≡◌, refl, sym, ap, subst, ◌∙◌, String, true, false, Option, none, some, List, [], ◌∷◌, ◌++◌,
  arith, find-found, find-append, find-append-none, is_some, eq_refl, find-update_where, Bool-cases,
  Option-cases, inl, inr, eq_iff, update_where,
}
use agent_tooling.Toolbelt.Errors.{
  integrity_error, value_error, raise_when, Fault, Check, Attempt, returned, raised, Attempt-cases,
  after, after-returned, raise_when-none,
}
use agent_tooling.Toolbelt.Schemas.{TransactionState, planned, Action, CommandResult}
use agent_tooling.Toolbelt.State.{
  ActionState, Phase, TransactionRow, Tables, is_transition, is_terminal, is_transaction,
  get_transaction, check_begin, is_malformed, begun, begin_transaction, with_state,
  set_transaction_state, record_action, record_command, record_recovery, record_backup,
  mark_backup_restored,
}
use agent_tooling.Toolbelt.State.Lifecycle.{Reach, here, next, Reach-trans, Reach-terminal}

-- The calls that write, with their arguments.
pub data Call : Type 0 where
  begin : String → String → String → Call
  set_state : String → TransactionState → Option Fault → Call
  action : String → Action → ℕ → ActionState → Call
  command : String → String → Phase → CommandResult → Call
  recovery : String → TransactionState → Call
  backup : String → String → String → String → Call
  mark_restored : String → String → Call

abbrev perform : Call → Tables → Attempt Tables
perform (begin plan_id identity id) t = begin_transaction plan_id identity id t
perform (set_state id destination error) t = set_transaction_state id destination error t
perform (action id a sequence state) t = record_action id a sequence state t
perform (command id action_id phase result) t = record_command id action_id phase result t
perform (recovery id status) t = record_recovery id status t
perform (backup id path backup_path sha256) t = record_backup id path backup_path sha256 t
perform (mark_restored id path) t = returned (mark_backup_restored id path t)

-- `transaction()`: a call that raises is rolled back.
abbrev committed : Attempt Tables → Tables → Tables
committed (returned t') t = t'
committed (raised fault) t = t

unfoldable pub perform_all : List Call → Tables → Tables
perform_all [] t = t
perform_all (c ∷ calls) t = perform_all calls (committed (perform c t) t)

abbrev pub state_in : Option TransactionRow → Option TransactionState
state_in none = none
state_in (some r) = some r.state

abbrev pub state_of : String → Tables → Option TransactionState
state_of id t = state_in (get_transaction id t)

pub state_of-found :
    (id : String) (t : Tables) (s : TransactionState)
    → state_of id t ≡ some s
    → (r : TransactionRow) × (get_transaction id t ≡ some r) × (r.state ≡ s)
state_of-found id t s h = elim (Option-cases (get_transaction id t)) [
  | inl e ↦ absurd (ground (arith, rw e at h))
  | inr (r, e) ↦ (r, e, ground (arith, rw e at h))
]

-- The state after a call is the state before or the next one of a transition.
abbrev Moves : TransactionState → Option TransactionState → Type 0
Moves s after = (u : TransactionState) × (after ≡ some u) × Reach s u

abbrev pub with_transactions : List TransactionRow → Tables → Tables
with_transactions rows t = record t { transactions = rows }

-- A change of state that returned was a transition from the state of the row.
pub set_transaction_state-returned :
    (id : String) (destination : TransactionState) (error : Option Fault) (t u : Tables)
    → set_transaction_state id destination error t ≡ returned u
    → (r : TransactionRow) × (get_transaction id t ≡ some r)
      × (is_transition r.state destination ≡ true)
      × (with_transactions
            (update_where (is_transaction id) (with_state destination error) t.transactions)
            t
          ≡ u)
unfolding set_transaction_state
set_transaction_state-returned id destination error t u done =
    elim (Option-cases (get_transaction id t)) [
      | inl e ↦ absurd (ground (arith, rw e at done))
      | inr (r, e) ↦
          let done = rw e at done in
          elim (Bool-cases (is_transition r.state destination)) [
            | inl f ↦ (r, e, f, ground (arith, rw f at done))
            | inr f ↦ absurd (ground (arith, rw f at done))
          ]
    ]

-- The state after a change of state that returned.
pub state_of-set :
    (id : String) (destination : TransactionState) (error : Option Fault) (t u : Tables)
    → set_transaction_state id destination error t ≡ returned u
    → state_of id u ≡ some destination
state_of-set id destination error t u done =
    let (r, found, allowed, built) = set_transaction_state-returned id destination error t u done in
    let moved =
      find-update_where (is_transaction id) (is_transaction id) (with_state destination error)
        (λ x. refl) t.transactions r found in
    subst (λ v. state_of id v ≡ some destination) built
      (ap state_in (rw (find-found (is_transaction id) t.transactions r found) at moved))

changed_to : (c : Check) (v u : Tables) → after c (returned v) ≡ returned u → v ≡ u
changed_to none v u h = ground arith
changed_to (some fault) v u h = absurd (ground arith)

set_transaction_state_ok :
    (id : String) (destination : TransactionState) (error : Option Fault) (t : Tables)
    (r : TransactionRow)
    → get_transaction id t ≡ some r
    → is_transition r.state destination ≡ true
    → set_transaction_state id destination error t
      ≡ returned (
          with_transactions
            (update_where (is_transaction id) (with_state destination error) t.transactions)
            t)
unfolding set_transaction_state
set_transaction_state_ok id destination error t r found allowed = rw (found, allowed) refl

-- A transition from the state that a transaction has returns.
pub set_transaction_state_runs :
    (id : String) (x destination : TransactionState) (error : Option Fault) (t : Tables)
    → state_of id t ≡ some x
    → is_transition x destination ≡ true
    → (u : Tables) × (set_transaction_state id destination error t ≡ returned u)
      × (state_of id u ≡ some destination)
set_transaction_state_runs id x destination error t h allowed =
    let (r, found, at) = state_of-found id t x h in
    let ran =
      set_transaction_state_ok id destination error t r found
        (subst (λ y. is_transition y destination ≡ true) (sym at) allowed) in
    (_, ran, state_of-set id destination error t _ ran)

absent : (o : Option TransactionRow) → is_some o ≡ false → o ≡ none
absent none h = refl
absent (some r) h = absurd (ground arith)

check_begin-none :
    (plan_id identity id : String) (t : Tables)
    → check_begin plan_id identity id t ≡ none
    → get_transaction id t ≡ none
check_begin-none plan_id identity id t h =
    let (formed, h1) =
      raise_when-none (is_malformed plan_id identity id) value_error
        (raise_when (is_some (get_transaction id t)) integrity_error none) h in
    let (fresh, h2) = raise_when-none (is_some (get_transaction id t)) integrity_error none h1 in
    absent (get_transaction id t) fresh

-- A transaction that begins is planned.
pub state_of-begin :
    (plan_id identity id : String) (t u : Tables)
    → begin_transaction plan_id identity id t ≡ returned u
    → state_of id u ≡ some planned
unfolding begin_transaction
state_of-begin plan_id identity id t u done =
    let rows = t.transactions ++ (begun plan_id identity id ∷ []) in
    let (checked, built) =
      after-returned (check_begin plan_id identity id t) (returned (with_transactions rows t))
        done in
    subst (λ v. state_of id v ≡ some planned)
      (changed_to (check_begin plan_id identity id t) (with_transactions rows t) u done)
      (ap state_in (
        find-append-none (is_transaction id) t.transactions (begun plan_id identity id)
          (check_begin-none plan_id identity id t checked) (eq_refl id)))

same_transaction :
    (id other : String) (r : TransactionRow)
    → is_transaction id r ≡ true
    → is_transaction other r ≡ true
    → other ≡ id
same_transaction id other r h h' =
    sym ((eq_iff r.transaction_id other).0 h') ∙ (eq_iff r.transaction_id id).0 h

some_eq : {x y : TransactionState} → some x ≡ some y → x ≡ y
some_eq h = ground arith

set_transaction_state-Moves :
    (id other : String) (destination : TransactionState) (error : Option Fault) (t u : Tables)
    (s : TransactionState)
    → state_of id t ≡ some s
    → set_transaction_state other destination error t ≡ returned u
    → Moves s (state_of id u)
set_transaction_state-Moves id other destination error t u s h done =
    let (r, found, at) = state_of-found id t s h in
    let (r', found', allowed, built) =
      set_transaction_state-returned other destination error t u done in
    let moved =
      find-update_where (is_transaction id) (is_transaction other) (with_state destination error)
        (λ x. refl) t.transactions r found in
    elim (Bool-cases (is_transaction other r)) [
      | inl e ↦
          let same =
            same_transaction id other r (find-found (is_transaction id) t.transactions r found) e in
          (
            destination,
            subst (λ v. state_of id v ≡ some destination) built (ap state_in (rw e at moved)),
            next here (
                subst (λ x. is_transition x destination ≡ true)
                  (some_eq (sym (ap state_in found') ∙ ap (λ x. state_of x t) same ∙ h)) allowed),
          )
      | inr e ↦ (
        s,
        subst (λ v. state_of id v ≡ some s) built (ap state_in (rw e at moved) ∙ ap some at),
        here,
      )
    ]

-- A call that leaves the state of the transaction as it is.
kept :
    (id : String) (v u : Tables) (s : TransactionState)
    → state_of id v ≡ some s
    → v ≡ u
    → Moves s (state_of id u)
kept id v u s h same = (s, subst (λ x. state_of id x ≡ some s) same h, here)

perform-Moves :
    (id : String) (c : Call) (t u : Tables) (s : TransactionState)
    → state_of id t ≡ some s
    → perform c t ≡ returned u
    → Moves s (state_of id u)
unfolding begin_transaction record_action record_command record_recovery record_backup
    mark_backup_restored
perform-Moves id (begin plan_id identity fresh) t u s h done =
    let (r, found, at) = state_of-found id t s h in
    kept id _ u s
      (ap state_in (find-append (is_transaction id) t.transactions _ r found) ∙ ap some at)
      (changed_to _ _ u done)
perform-Moves id (set_state other destination error) t u s h done =
    set_transaction_state-Moves id other destination error t u s h done
perform-Moves id (action other a sequence state) t u s h done =
    kept id _ u s h (changed_to _ _ u done)
perform-Moves id (command other action_id phase result) t u s h done =
    kept id _ u s h (changed_to _ _ u done)
perform-Moves id (recovery other status) t u s h done = kept id _ u s h (changed_to _ _ u done)
perform-Moves id (backup other path backup_path sha256) t u s h done =
    kept id _ u s h (changed_to _ _ u done)
perform-Moves id (mark_restored other path) t u s h done =
    kept id (mark_backup_restored other path t) u s h (ground (arith, done))

committed-Moves :
    (id : String) (c : Call) (t : Tables) (s : TransactionState)
    → state_of id t ≡ some s
    → Moves s (state_of id (committed (perform c t) t))
committed-Moves id c t s h = elim (Attempt-cases (perform c t)) [
  | inl (u, e) ↦ rw e (perform-Moves id c t u s h e)
  | inr (fault, e) ↦ rw e (s, h, here)
]

-- Whatever calls are made, in whatever order, with those that raise rolled back: a transaction that
-- has a state keeps one, and the transitions of the table lead to it from the state before.
pub perform_all-Moves :
    (id : String) (calls : List Call) (t : Tables) (s : TransactionState)
    → state_of id t ≡ some s
    → (u : TransactionState) × (state_of id (perform_all calls t) ≡ some u) × Reach s u
unfolding perform_all
perform_all-Moves id [] t s h = (s, h, here)
perform_all-Moves id (c ∷ calls) t s h =
    let (u, now, before) = committed-Moves id c t s h in
    let (v, later, more) = perform_all-Moves id calls (committed (perform c t) t) u now in
    (v, later, Reach-trans before more)

-- Whatever calls are made, a transaction in a terminal state stays in that state.
pub perform_all-terminal :
    (id : String) (calls : List Call) (t : Tables) (s : TransactionState)
    → is_terminal s ≡ true
    → state_of id t ≡ some s
    → state_of id (perform_all calls t) ≡ some s
perform_all-terminal id calls t s h e =
    let (u, later, reached) = perform_all-Moves id calls t s e in
    later ∙ ap some (sym (Reach-terminal reached h))
