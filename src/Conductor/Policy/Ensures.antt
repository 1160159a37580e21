-- ===== src/Conductor/Policy/Ensures.antt =====
-- What a part of `evaluate_policy` leaves: a part that returns early reserves nothing, one that goes
-- on has a postcondition, and none raises.
use agent_tooling.Prelude.{
  ◌≡◌, refl, sym, subst, Bool, true, false, Option, none, some, arith, if◌then◌else◌,
}
use agent_tooling.Conductor.Policy.Outcome.{
  Rule, PolicyEvaluation, result, Extras, defaults, Verdict, proceed, decided, ◌>>=◌, ◌>>◌, deny_if,
  deny_with, or_deny, or_raise,
}

-- An inductive family, so that `search` finds the postcondition.
pub data Ensures {ℓ} {A : Type ℓ} (P : A → Type 0) : Verdict A → Type ℓ where
  proceeds : (a : A) → P a → Ensures P (proceed a)
  decides :
      (e : PolicyEvaluation)
      → e.reserve ≡ false
      → e.spec.reserve ≡ e.reserve
      → Ensures P (decided e)

module _ {ℓ κ} {A : Type ℓ} {B : Type κ} {P : A → Type 0} {Q : B → Type 0} where
  pub Ensures-bind :
      {m : Verdict A} {f : A → Verdict B}
      → Ensures P m
      → ((a : A) → P a → Ensures Q (f a))
      → Ensures Q (m >>= f)
  Ensures-bind (proceeds a p) k = k a p
  Ensures-bind (decides e r q) k = decides e r q

module _ {ℓ} {A : Type ℓ} {P Q : A → Type 0} where
  pub Ensures-weaken : {m : Verdict A} → Ensures P m → ((a : A) → P a → Q a) → Ensures Q m
  Ensures-weaken (proceeds a p) k = proceeds a (k a p)
  Ensures-weaken (decides e r q) k = decides e r q

module _ {ℓ} {A : Type ℓ} {P : A → Type 0} where
  pub Ensures-deny_with : (rule : Rule) (x : Extras) → Ensures P (deny_with rule x)
  unfolding result
  Ensures-deny_with rule x = decides (result false rule x) (ground arith) refl

  pub Ensures-return :
      (allowed : Bool) (rule : Rule) → Ensures P (decided (result allowed rule defaults))
  unfolding result
  Ensures-return allowed rule = decides (result allowed rule defaults) refl refl

  pub Ensures-or_deny_last :
      (o : Option A) (rule : Rule) → ((a : A) → o ≡ some a → P a) → Ensures P (or_deny o rule)
  unfolding or_deny
  Ensures-or_deny_last none rule h = Ensures-deny_with rule _
  Ensures-or_deny_last (some a) rule h = proceeds a (h a refl)

  pub Ensures-or_raise : (o : Option A) (a : A) → o ≡ some a → P a → Ensures P (or_raise o)
  unfolding or_raise
  Ensures-or_raise none a e p = absurd (ground arith)
  Ensures-or_raise (some b) a e p = proceeds b (let h : b ≡ a = cc in subst P (sym h) p)

  pub Ensures-if :
      (b : Bool) {m n : Verdict A}
      → (b ≡ true → Ensures P m)
      → (b ≡ false → Ensures P n)
      → Ensures P (if b then m else n)
  Ensures-if true h k = h refl
  Ensures-if false h k = k refl

-- The same before the rest of a block.
module _ {ℓ κ} {A : Type ℓ} {B : Type κ} {Q : B → Type 0} where
  pub Ensures-or_raise_then :
      (o : Option A) (f : A → Verdict B) (a : A)
      → o ≡ some a
      → Ensures Q (f a)
      → Ensures Q (or_raise o >>= f)
  unfolding or_raise
  Ensures-or_raise_then none f a e h = absurd (ground arith)
  Ensures-or_raise_then (some b) f a e h =
      let here : b ≡ a = cc in subst (λ x. Ensures Q (f x)) (sym here) h

-- A step that may return early, and the rest of the block.
module _ {ℓ κ} {A : Type ℓ} {B : Type κ} {Q : B → Type 0} where
  pub Ensures-or_deny :
      (o : Option A) (rule : Rule) {f : A → Verdict B}
      → ((a : A) → o ≡ some a → Ensures Q (f a))
      → Ensures Q (or_deny o rule >>= f)
  unfolding or_deny
  Ensures-or_deny none rule h = Ensures-deny_with rule _
  Ensures-or_deny (some a) rule h = h a refl

module _ {ℓ} {B : Type ℓ} {Q : B → Type 0} where
  pub Ensures-deny_if :
      (test : Bool) (rule : Rule) (x : Extras) {k : Verdict B}
      → (test ≡ false → Ensures Q k)
      → Ensures Q (deny_if test rule x >> k)
  unfolding deny_if
  Ensures-deny_if true rule x h = Ensures-deny_with rule x
  Ensures-deny_if false rule x h = h refl

pub Ensures-deny_last :
    {P : Unit {0} → Type 0} (test : Bool) (rule : Rule) (x : Extras)
    → (test ≡ false → P tt)
    → Ensures P (deny_if test rule x)
unfolding deny_if
Ensures-deny_last true rule x h = Ensures-deny_with rule x
Ensures-deny_last false rule x h = proceeds tt (h refl)
