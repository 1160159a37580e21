-- ===== src/Conductor/Store/Result.antt =====
-- The errors of codex-conductor/src/conductor/store.py. A transaction that raises is rolled back, so
-- an error carries no state: the tables are those from before the call.
use agent_tooling.Prelude.{◌≡◌, refl, Bool, true, false, Option, none, some, arith}

-- `ValueError`, `StateError`, and `sqlite3.IntegrityError` for a violated UNIQUE constraint.
pub data StoreError : Type 0 where
  value_error state_error integrity_error : StoreError

-- What a transaction returns, or the exception that ends it.
pub data Result {ℓ} (Value : Type ℓ) : Type ℓ where
  ok : Value → Result Value
  raises : StoreError → Result Value

-- `if test: raise error`
abbrev pub raise_if : Bool → StoreError → Result (Unit {0})
raise_if false error = ok tt
raise_if true error = raises error

-- `if row is None: raise error`
abbrev pub or_raise {ℓ} : {Row : Type ℓ} → Option Row → StoreError → Result Row
or_raise (some row) error = ok row
or_raise none error = raises error

module _ {ℓ κ} {Row : Type ℓ} {Value : Type κ} where
  infixl 5 ◌>>=◌
  -- The statements after one that reads a row.
  abbrev pub ◌>>=◌ : Result Row → (Row → Result Value) → Result Value
  raises error >>= rest = raises error
  ok row >>= rest = rest row

  -- A call that returned has read its row.
  pub >>=-eq-ok :
      (read : Result Row) (rest : Row → Result Value) {v : Value}
      → (read >>= rest) ≡ ok v
      → (row : Row) × (read ≡ ok row) × (rest row ≡ ok v)
  >>=-eq-ok (raises error) rest returned = absurd (ground arith)
  >>=-eq-ok (ok row) rest returned = (row, refl, returned)

module _ {κ} {Value : Type κ} where
  infixl 5 ◌>>◌
  abbrev pub ◌>>◌ : Result (Unit {0}) → Result Value → Result Value
  check >> rest = check >>= λ passed. rest

  -- A call that returned has passed its check.
  pub raise_if-eq-ok :
      (test : Bool) (error : StoreError) (rest : Result Value) {v : Value}
      → (raise_if test error >> rest) ≡ ok v
      → (test ≡ false) × (rest ≡ ok v)
  raise_if-eq-ok true error rest returned = absurd (ground arith)
  raise_if-eq-ok false error rest returned = (refl, returned)

pub or_raise-eq-ok {ℓ} :
    {Row : Type ℓ} (found : Option Row) (error : StoreError) {row : Row}
    → or_raise found error ≡ ok row
    → found ≡ some row
or_raise-eq-ok (some row) error returned = ground arith
or_raise-eq-ok none error returned = absurd (ground arith)
