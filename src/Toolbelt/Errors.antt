-- ===== src/Toolbelt/Errors.antt =====
-- The exceptions of toolbelt/src/toolbelt/errors.py that the modelled code raises, and a call that
-- returns or raises.
use agent_tooling.Prelude.{◌≡◌, refl, ◌⊎◌, inl, inr, Bool, true, false, Option, none, some, arith}

-- `value_error`, `key_error` and `integrity_error` are ValueError, KeyError (or StopIteration, where a
-- row is missing) and sqlite3.IntegrityError, `os_error`
-- an OSError, `interrupt` an exception that is no Exception, such as KeyboardInterrupt.
pub data Fault : Type 0 where
  validation stale_plan apply_failed verification drift : Fault
  value_error key_error integrity_error os_error interrupt : Fault

-- A check: the exception that it raises, if it raises one.
abbrev pub Check : Type 0
Check = Option Fault

-- `if test: raise fault`, before the rest of the checks.
abbrev pub raise_when : Bool → Fault → Check → Check
raise_when true fault rest = some fault
raise_when false fault rest = rest

-- A call that checks, before the rest of the checks.
abbrev pub and_then : Check → Check → Check
and_then (some fault) rest = some fault
and_then none rest = rest

pub raise_when-none :
    (test : Bool) (fault : Fault) (rest : Check)
    → raise_when test fault rest ≡ none
    → (test ≡ false) × (rest ≡ none)
raise_when-none true fault rest h = absurd (ground arith)
raise_when-none false fault rest h = (refl, h)

pub and_then-none :
    (first rest : Check) → and_then first rest ≡ none → (first ≡ none) × (rest ≡ none)
and_then-none (some fault) rest h = absurd (ground arith)
and_then-none none rest h = (refl, h)

pub data Attempt {ℓ} (A : Type ℓ) : Type ℓ where
  returned : A → Attempt A
  raised : Fault → Attempt A

pub Attempt-cases {ℓ} :
    {A : Type ℓ} (m : Attempt A)
    → ((a : A) × (m ≡ returned a)) ⊎ ((fault : Fault) × (m ≡ raised fault))
Attempt-cases (returned a) = inl (a, refl)
Attempt-cases (raised fault) = inr (fault, refl)

module _ {ℓ κ} {A : Type ℓ} {B : Type κ} where
  -- The statements after a call.
  abbrev pub with_value : Attempt A → (A → Attempt B) → Attempt B
  with_value (returned a) f = f a
  with_value (raised fault) f = raised fault

  pub with_value-returned :
      (m : Attempt A) (f : A → Attempt B) {b : B}
      → with_value m f ≡ returned b
      → (a : A) × (m ≡ returned a) × (f a ≡ returned b)
  with_value-returned (returned a) f h = (a, refl, h)
  with_value-returned (raised fault) f h = absurd (ground arith)

module _ {ℓ} {A : Type ℓ} where
  -- The statements after a check.
  abbrev pub after : Check → Attempt A → Attempt A
  after none rest = rest
  after (some fault) rest = raised fault

  pub after-returned :
      (c : Check) (rest : Attempt A) {a : A}
      → after c rest ≡ returned a
      → (c ≡ none) × (rest ≡ returned a)
  after-returned none rest h = (refl, h)
  after-returned (some fault) rest h = absurd (ground arith)

  -- The check that uses the value of a call.
  abbrev pub check_value : Attempt A → (A → Check) → Check
  check_value (returned a) f = f a
  check_value (raised fault) f = some fault

  pub check_value-none :
      (m : Attempt A) (f : A → Check)
      → check_value m f ≡ none
      → (a : A) × (m ≡ returned a) × (f a ≡ none)
  check_value-none (returned a) f h = (a, refl, h)
  check_value-none (raised fault) f h = absurd (ground arith)
