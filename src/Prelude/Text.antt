-- ===== src/Prelude/Text.antt =====
-- Texts as code points and their order, and Python's stable `sorted` with a key.
use Prim.Native.Char.{code}
use Prim.Native.Nat.{ℕ, zero, suc, ◌/◌, ◌%◌}
use Prim.Native.String.{String, ◌++◌}
use mathlib.Core.Path.{◌≡◌, refl}
use mathlib.Core.Logic.{inl, inr}
use mathlib.Core.Bool.{Bool, true, false, ◌||◌, ◌&&◌}
use mathlib.Core.Option.{Option, none, some}
use mathlib.Core.List.{List, [], ◌∷◌}
use native.Mathlib.Omega.{arith}
use agent_tooling.Prelude.Tests.{if◌then◌else◌, ltb, eqb, Bool-cases}
use agent_tooling.Prelude.Lists.{any, every, get_elem?}

abbrev pub codes : String → List ℕ
codes String.[] = []
codes (String.◌∷◌ c s) = code c ∷ codes s

unfoldable pub codes_leb : List ℕ → List ℕ → Bool
codes_leb [] ys = true
codes_leb (x ∷ xs) [] = false
codes_leb (x ∷ xs) (y ∷ ys) = ltb x y || eqb x y && codes_leb xs ys

-- `a <= b` on texts.
abbrev pub text_leb : String → String → Bool
text_leb a b = codes_leb (codes a) (codes b)

codes_leb_total : (xs ys : List ℕ) → codes_leb xs ys ≡ false → codes_leb ys xs ≡ true
unfolding codes_leb
codes_leb_total [] ys h = absurd (ground arith)
codes_leb_total (x ∷ xs) [] h = refl
codes_leb_total (x ∷ xs) (y ∷ ys) h = ground (arith, codes_leb_total xs ys)

abbrev digits : List String
digits = "0" ∷ "1" ∷ "2" ∷ "3" ∷ "4" ∷ "5" ∷ "6" ∷ "7" ∷ "8" ∷ "9" ∷ []

abbrev or_empty : Option String → String
or_empty none = ""
or_empty (some s) = s

-- `str(n)`, on fuel: a number has at most as many digits as one more than its value.
unfoldable pub decimal : ℕ → ℕ → String
decimal zero n = ""
decimal (suc fuel) n =
    let rest = decimal fuel (n / 10) in
    let digit = or_empty (get_elem? digits (n % 10)) in if ltb n 10 then digit else rest ++ digit

module _ {ℓ} {A : Type ℓ} (key : A → String) where
  unfoldable pub insert_by : A → List A → List A
  insert_by x [] = x ∷ []
  insert_by x (y ∷ ys) =
      let later = insert_by x ys in if text_leb (key x) (key y) then x ∷ y ∷ ys else y ∷ later

  -- `sorted(xs, key=key)`
  unfoldable pub sort_by : List A → List A
  sort_by [] = []
  sort_by (x ∷ xs) = insert_by x (sort_by xs)

  -- Each key is at most the next one.
  abbrev pub in_order : List A → Bool
  in_order [] = true
  in_order (x ∷ []) = true
  in_order (x ∷ y ∷ ys) = text_leb (key x) (key y) && in_order (y ∷ ys)

  in_order-insert_by : (x : A) (ys : List A) → in_order ys ≡ true → in_order (insert_by x ys) ≡ true
  unfolding insert_by
  in_order-insert_by x [] h = refl
  in_order-insert_by x (y ∷ []) h = ground (arith, codes_leb_total (codes (key x)) (codes (key y)))
  in_order-insert_by x (y ∷ z ∷ zs) h = elim (Bool-cases (text_leb (key x) (key y))) [
    | inl e ↦ ground arith
    | inr e ↦
        let rest = in_order-insert_by x (z ∷ zs) (ground arith) in
        elim (Bool-cases (text_leb (key x) (key z))) [
          | inl f ↦ ground (arith, codes_leb_total (codes (key x)) (codes (key y)), rest)
          | inr f ↦ ground (arith, rest)
        ]
  ]

  -- `sorted` returns a list in the order of its key.
  pub in_order-sort_by : (xs : List A) → in_order (sort_by xs) ≡ true
  unfolding sort_by
  in_order-sort_by [] = refl
  in_order-sort_by (x ∷ xs) = in_order-insert_by x (sort_by xs) (in_order-sort_by xs)

  module _ (p : A → Bool) where
    any-insert_by : (x : A) (ys : List A) → any p (insert_by x ys) ≡ (p x || any p ys)
    unfolding insert_by
    any-insert_by x [] = refl
    any-insert_by x (y ∷ ys) = ground (arith, any-insert_by x ys)

    pub any-sort_by : (xs : List A) → any p (sort_by xs) ≡ any p xs
    unfolding sort_by
    any-sort_by [] = refl
    any-sort_by (x ∷ xs) = ground (arith, any-insert_by x (sort_by xs), any-sort_by xs)

    every-insert_by : (x : A) (ys : List A) → every p (insert_by x ys) ≡ (p x && every p ys)
    unfolding insert_by
    every-insert_by x [] = refl
    every-insert_by x (y ∷ ys) = ground (arith, every-insert_by x ys)

    pub every-sort_by : (xs : List A) → every p (sort_by xs) ≡ every p xs
    unfolding sort_by
    every-sort_by [] = refl
    every-sort_by (x ∷ xs) = ground (arith, every-insert_by x (sort_by xs), every-sort_by xs)
