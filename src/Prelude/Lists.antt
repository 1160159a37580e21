-- ===== src/Prelude/Lists.antt =====
-- Lists measured and indexed by native numbers, under the library's names, and Boolean searches.
use Prim.Native.Nat.{ℕ, zero, suc, ◌+◌, ◌<◌}
use Prim.Native.String.{String}
use mathlib.Core.Path.{◌≡◌, refl}
use mathlib.Core.Logic.{inl, inr}
use mathlib.Core.Bool.{Bool, true, false, ◌||◌, ◌&&◌}
use mathlib.Core.List.{List, [], ◌∷◌, ◌++◌}
use mathlib.Core.Option.{Option, none, some}
use native.Mathlib.Omega.{arith}
use text.Mathlib.Text.{◌==◌}
use agent_tooling.Prelude.Tests.{if◌then◌else◌, eqb, Bool-cases, Option-cases}

module _ {ℓ} {A : Type ℓ} where
  abbrev pub length : List A → ℕ
  length [] = 0
  length (x ∷ xs) = suc (length xs)

  abbrev pub get_elem? : List A → ℕ → Option A
  get_elem? [] i = none
  get_elem? (x ∷ xs) zero = some x
  get_elem? (x ∷ xs) (suc i) = get_elem? xs i

  -- `any(p(x) for x in xs)`
  abbrev pub any : (A → Bool) → List A → Bool
  any p [] = false
  any p (x ∷ xs) = p x || any p xs

  abbrev pub every : (A → Bool) → List A → Bool
  every p [] = true
  every p (x ∷ xs) = p x && every p xs

  -- The first element that passes the test.
  abbrev pub find : (A → Bool) → List A → Option A
  find p [] = none
  find p (x ∷ xs) = if p x then some x else find p xs

  abbrev or_found : Option A → Bool → A → Option A
  or_found (some later) b x = some later
  or_found none b x = if b then some x else none

  -- The last element that passes the test: what a dictionary keeps of those with one key.
  abbrev pub find_last : (A → Bool) → List A → Option A
  find_last p [] = none
  find_last p (x ∷ xs) = or_found (find_last p xs) (p x) x

  -- `[x for x in xs if p(x)]`
  abbrev pub select : (A → Bool) → List A → List A
  select p [] = []
  select p (x ∷ xs) = let rest = select p xs in if p x then x ∷ rest else rest

  -- `SELECT COUNT(*) ... WHERE p`
  abbrev pub count_where : (A → Bool) → List A → ℕ
  count_where p [] = 0
  count_where p (x ∷ xs) = (if p x then 1 else 0) + count_where p xs

  -- `SELECT COALESCE(SUM(f), 0) ... WHERE p`
  abbrev pub sum_where : (A → Bool) → (A → ℕ) → List A → ℕ
  sum_where p f [] = 0
  sum_where p f (x ∷ xs) = (if p x then f x else 0) + sum_where p f xs

  -- `UPDATE ... SET f WHERE p`
  abbrev pub update_where : (A → Bool) → (A → A) → List A → List A
  update_where p f [] = []
  update_where p f (x ∷ xs) = (if p x then f x else x) ∷ update_where p f xs

-- `x in xs`
abbrev pub contains : String → List String → Bool
contains x [] = false
contains x (y ∷ ys) = y == x || contains x ys

abbrev pub contains_ℕ : ℕ → List ℕ → Bool
contains_ℕ x [] = false
contains_ℕ x (y ∷ ys) = eqb y x || contains_ℕ x ys

-- `xs.index(x)`, which raises ValueError where it is `none` here.
abbrev pub index_of : String → List String → Option ℕ
index_of x [] = none
index_of x (y ∷ ys) =
    let rest = index_of x ys in
    if y == x then some 0 else (elim rest [ none ↦ none | some i ↦ some (suc i) ])

module _ {ℓ} {A : Type ℓ} where
  pub get_elem?-found : (xs : List A) (i : ℕ) → i < length xs → (x : A) × (get_elem? xs i ≡ some x)
  get_elem?-found [] i h = absurd (omega arith)
  get_elem?-found (x ∷ xs) zero h = (x, refl)
  get_elem?-found (x ∷ xs) (suc i) h = get_elem?-found xs i (omega arith)

  pub every-get_elem? :
      (p : A → Bool) (xs : List A) (i : ℕ) (x : A)
      → every p xs ≡ true
      → get_elem? xs i ≡ some x
      → p x ≡ true
  every-get_elem? p [] i x h e = absurd (ground arith)
  every-get_elem? p (y ∷ ys) zero x h e = ground arith
  every-get_elem? p (y ∷ ys) (suc i) x h e = every-get_elem? p ys i x (ground arith) e

pub index_of-lt-length :
    (x : String) (ys : List String) (i : ℕ) → index_of x ys ≡ some i → i < length ys
index_of-lt-length x [] i h = ground arith
index_of-lt-length x (y ∷ ys) i h = elim (Option-cases (index_of x ys)) [
  | inl e ↦ ground arith
  | inr (j, e) ↦ ground (arith, index_of-lt-length x ys j e)
]

pub every_mono {ℓ} :
    {A : Type ℓ} (p q : A → Bool) (xs : List A)
    → ((x : A) → p x ≡ true → q x ≡ true)
    → every p xs ≡ true
    → every q xs ≡ true
every_mono p q [] imp h = refl
every_mono p q (x ∷ xs) imp h =
    ground (arith, imp x (ground arith), every_mono p q xs imp (ground arith))

-- What was found passes the test.
pub find_last-found {ℓ} :
    {A : Type ℓ} (p : A → Bool) (xs : List A) (x : A) → find_last p xs ≡ some x → p x ≡ true
find_last-found p [] x h = absurd (ground arith)
find_last-found p (y ∷ ys) x h = elim (Option-cases (find_last p ys)) [
  | inl e ↦ ground arith
  | inr (z, e) ↦ ground (arith, find_last-found p ys x)
]

module _ {ℓ} {A : Type ℓ} (p : A → Bool) where
  pub find-found : (xs : List A) (x : A) → find p xs ≡ some x → p x ≡ true
  find-found [] x h = absurd (ground arith)
  find-found (y ∷ xs) x h = elim (Bool-cases (p y)) [
    | inl e ↦ ground arith
    | inr e ↦ find-found xs x (rw e at h)
  ]

  -- A row that was found is found before the rows that are added.
  pub find-append : (xs ys : List A) (x : A) → find p xs ≡ some x → find p (xs ++ ys) ≡ some x
  find-append [] ys x h = absurd (ground arith)
  find-append (y ∷ xs) ys x h = elim (Bool-cases (p y)) [
    | inl e ↦ rw e (rw e at h)
    | inr e ↦ rw e (find-append xs ys x (rw e at h))
  ]

  -- A row that is added is found if there was none.
  pub find-append-none :
      (xs : List A) (x : A) → find p xs ≡ none → p x ≡ true → find p (xs ++ (x ∷ [])) ≡ some x
  find-append-none [] x h e = rw e refl
  find-append-none (y ∷ xs) x h e = elim (Bool-cases (p y)) [
    | inl f ↦ absurd (ground (arith, rw f at h))
    | inr f ↦ rw f (find-append-none xs x (rw f at h) e)
  ]

  -- An update that keeps the key of the search changes the row that is found.
  module _ (q : A → Bool) (f : A → A) (same : (x : A) → p (f x) ≡ p x) where
    pub find-update_where :
        (xs : List A) (x : A)
        → find p xs ≡ some x
        → find p (update_where q f xs) ≡ some (if q x then f x else x)
    find-update_where [] x h = absurd (ground arith)
    find-update_where (y ∷ xs) x h = elim (Bool-cases (q y)) [
      | inl e ↦ ground (arith, same y, find-update_where xs x)
      | inr e ↦ ground (arith, find-update_where xs x)
    ]
