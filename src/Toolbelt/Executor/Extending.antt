-- ===== src/Toolbelt/Executor/Extending.antt =====
-- Which results the statements of toolbelt/src/toolbelt/executor.py append to `commands`.
use mathlib.Core.List.{append-nil, append_assoc, map-append}
use agent_tooling.Prelude.{
  ◌≡◌, refl, subst, ◌∙◌, String, Bool, true, false, none, some, List, [], ◌∷◌, ◌++◌, map, every,
  arith, if◌then◌else◌,
}
use agent_tooling.Toolbelt.Errors.{Check, Attempt, returned, raised}
use agent_tooling.Toolbelt.Schemas.{CommandResult}
use agent_tooling.Toolbelt.State.{Tables}
use agent_tooling.Toolbelt.Executor.{
  Host, Session, Statement, resume, ◌▸◌, nothing, require, assign, on_store, stored, use_value,
  checkpoint,
}
use agent_tooling.Toolbelt.Executor.Rollback.{is_success}
use agent_tooling.Toolbelt.Executor.Apply.{unless}

every-append :
    (p : CommandResult → Bool) (xs ys : List CommandResult)
    → every p xs ≡ true
    → every p ys ≡ true
    → every p (xs ++ ys) ≡ true
every-append p [] ys h k = k
every-append p (x ∷ xs) ys h k = ground (arith, every-append p xs ys (ground arith) k)

-- If the statements end without an exception, the results that they append are successes of commands
-- with these arguments, in this order.
abbrev pub Extends : List (List String) → List CommandResult → Check × Session → Type 0
Extends argvs before (none, s) =
    (rs : List CommandResult) × (s.commands ≡ before ++ rs)
    × (map CommandResult.argv rs ≡ argvs)
    × (every is_success rs ≡ true)
Extends argvs before (some fault, s) = Unit

pub record Runs (argvs : List (List String)) (f : Statement) : Type 0 where
  pub runs : (s : Session) → Extends argvs s.commands (f s)

-- Statements that append no result.
pub record Quiet (f : Statement) : Type 0 where
  pub quiet : (s : Session) → (f s).1.commands ≡ s.commands

Extends-widen :
    (us vs : List (List String)) (before middle rs : List CommandResult) (r : Check × Session)
    → middle ≡ before ++ rs
    → map CommandResult.argv rs ≡ us
    → every is_success rs ≡ true
    → Extends vs middle r
    → Extends (us ++ vs) before r
Extends-widen us vs before middle rs (some fault, s) e m ok h = tt
Extends-widen us vs before middle rs (none, s) e m ok (qs, e', m', ok') = (
  rs ++ qs,
  rw (e', e) (append_assoc before rs qs),
  rw (map-append, m, m') refl,
  every-append is_success rs qs ok ok',
)

Extends-resume :
    (us vs : List (List String)) (before : List CommandResult) (r : Check × Session) (g : Statement)
    → Extends us before r
    → Runs vs g
    → Extends (us ++ vs) before (resume r g)
Extends-resume us vs before (some fault, s) g h k = tt
Extends-resume us vs before (none, s) g (rs, e, m, ok) k =
    Extends-widen us vs before s.commands rs (g s) e m ok (k.runs s)

pub Runs-then :
    {us vs : List (List String)} {f g : Statement} → Runs us f → Runs vs g → Runs (us ++ vs) (f ▸ g)
unfolding ◌▸◌
Runs-then {us} {vs} {f} {g} h k = record {
  runs = λ s. Extends-resume us vs s.commands (f s) g (h.runs s) k;
}

Extends-quiet :
    (before : List CommandResult) (r : Check × Session)
    → r.1.commands ≡ before
    → Extends [] before r
Extends-quiet before (some fault, s) e = tt
Extends-quiet before (none, s) e = ([], rw (e, append-nil) refl, refl, refl)

pub Quiet-Runs : {f : Statement} → Quiet f → Runs [] f
Quiet-Runs {f} h = record { runs = λ s. Extends-quiet s.commands (f s) (h.quiet s) }

pub Quiet-resume :
    (r : Check × Session) (g : Statement) (before : List CommandResult)
    → r.1.commands ≡ before
    → Quiet g
    → (resume r g).1.commands ≡ before
Quiet-resume (none, s) g before e k = k.quiet s ∙ e
Quiet-resume (some fault, s) g before e k = e

pub Quiet-then : {f g : Statement} → Quiet f → Quiet g → Quiet (f ▸ g)
unfolding ◌▸◌
Quiet-then {f} {g} h k = record { quiet = λ s. Quiet-resume (f s) g s.commands (h.quiet s) k }

pub Quiet-nothing : Quiet nothing
unfolding nothing
Quiet-nothing = record { quiet = λ s. refl }

pub Quiet-require : (check : Check) → Quiet (require check)
unfolding require
Quiet-require check = record { quiet = λ s. refl }

pub Quiet-stored : (m : Attempt Tables) (s : Session) → (stored m s).1.commands ≡ s.commands
Quiet-stored (returned t) s = refl
Quiet-stored (raised fault) s = refl

pub Quiet-on_store : (f : Tables → Attempt Tables) → Quiet (on_store f)
unfolding on_store
Quiet-on_store f = record { quiet = λ s. Quiet-stored (f s.tables) s }

pub Quiet-assign :
    (f : Session → Session) → ((s : Session) → (f s).commands ≡ s.commands) → Quiet (assign f)
unfolding assign
Quiet-assign f h = record { quiet = h }

pub Quiet-use_value :
    {A : Type 0} (m : Attempt A) {rest : A → Statement}
    → ((a : A) → Quiet (rest a))
    → Quiet (use_value m rest)
unfolding use_value
Quiet-use_value (returned a) k = k a
Quiet-use_value (raised fault) k = Quiet-require _

pub Quiet-checkpoint : (host : Host) → Quiet (checkpoint host)
unfolding checkpoint
Quiet-checkpoint host = record { quiet = λ s. refl }

pub Runs-last : {us : List (List String)} {f g : Statement} → Runs us f → Quiet g → Runs us (f ▸ g)
Runs-last {us} {f} {g} h k =
    subst (λ vs. Runs vs (f ▸ g)) (append-nil us) (Runs-then h (Quiet-Runs k))

pub Runs-unless :
    {us : List (List String)} (dry : Bool) {f : Statement}
    → Runs us f
    → Runs (if dry then [] else us) (unless dry f)
Runs-unless true h = Quiet-Runs Quiet-nothing
Runs-unless false h = h
