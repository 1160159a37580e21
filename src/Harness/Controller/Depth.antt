-- ===== src/Harness/Controller/Depth.antt =====
-- The fuel of `_spawn_depth` and of the digits of an ordinal is enough.
use Prim.Native.Nat.{◌/◌}
use agent_tooling.Prelude.{
  decimal, codes, ℕ, zero, suc, ◌<◌, ◌≤◌, ◌≡◌, refl, ap, subst, String, Bool, true, false, ◌&&◌,
  Option, none, some, List, [], ◌∷◌, arith, ltb, find, length, Bool-cases, Option-cases, inl, inr,
}
use agent_tooling.Harness.Models.{Participant}
use agent_tooling.Harness.Controller.{
  Lookup, root, missing, found, parent_of, named, suc_option, depth_from, spawn_depth,
}

abbrev id_length : Participant → ℕ
id_length p = length (codes p.participant_id)

abbrev is_shorter : Lookup → ℕ → Bool
is_shorter root n = true
is_shorter missing n = false
is_shorter (found q) n = ltb (id_length q) n

-- Each parent is on the roster, under an id that is shorter than the child's.
abbrev pub is_nested : List Participant → List Participant → Bool
is_nested ps [] = true
is_nested ps (q ∷ qs) = is_shorter (parent_of ps q.parent_id) (id_length q) && is_nested ps qs

nested_at :
    (ps qs : List Participant) (id : String) (p : Participant)
    → is_nested ps qs ≡ true
    → find (named id) qs ≡ some p
    → is_shorter (parent_of ps p.parent_id) (id_length p) ≡ true
nested_at ps [] id p h e = absurd (ground arith)
nested_at ps (q ∷ qs) id p h e = elim (Bool-cases (named id q)) [
  | inl here ↦
      (let own : is_shorter (parent_of ps q.parent_id) (id_length q) ≡ true = ground (arith, h) in
        let same : q ≡ p = ground (arith, e, here) in
        subst (λ (x : Participant). is_shorter (parent_of ps x.parent_id) (id_length x) ≡ true) same
          own)
  | inr later ↦ nested_at ps qs id p (ground (arith, h)) (ground (arith, e, later))
]

-- The walk ends at a root.
depth_from-total :
    (ps : List Participant) (fuel : ℕ) (at : Option String) (n : ℕ)
    → is_nested ps ps ≡ true
    → n ≤ fuel
    → is_shorter (parent_of ps at) n ≡ true
    → (d : ℕ) × (depth_from fuel ps (parent_of ps at) ≡ some d)
unfolding depth_from
depth_from-total ps fuel none n h le short = (0, refl)
depth_from-total ps zero (some id) n h le short = elim (Option-cases (find (named id) ps)) [
  | inl absent ↦ absurd (ground (arith, short, absent))
  | inr (p, e) ↦
      absurd (let less : id_length p < n = ground (arith, short, e) in omega (arith, less, le))
]
depth_from-total ps (suc fuel) (some id) n h le short = elim (Option-cases (find (named id) ps)) [
  | inl absent ↦ absurd (ground (arith, short, absent))
  | inr (p, e) ↦
      (let less : id_length p < n = ground (arith, short, e) in
        let (d, at_d) =
          depth_from-total ps fuel p.parent_id (id_length p) h (omega (arith, less, le))
            (nested_at ps ps id p h e) in
        (suc d, rw e (ap suc_option at_d)))
]

-- On a roster where each parent stands under a shorter id than its child, `_spawn_depth` returns for
-- every participant of the roster: the fuel of its model is enough and no parent is missing.
pub spawn_depth_total :
    (ps : List Participant) (id : String) (p : Participant)
    → is_nested ps ps ≡ true
    → find (named id) ps ≡ some p
    → (d : ℕ) × (spawn_depth ps id ≡ some d)
unfolding spawn_depth
spawn_depth_total ps id p h e =
    let (d, at_d) =
      depth_from-total ps (id_length p) p.parent_id (id_length p) h (omega arith)
        (nested_at ps ps id p h e) in
    (d, rw e at_d)

-- More fuel than the number prints the same digits.
decimal_fuel_enough : (f g n : ℕ) → n < f → n < g → decimal f n ≡ decimal g n
unfolding decimal
decimal_fuel_enough zero g n hf hg = absurd (omega (arith, hf))
decimal_fuel_enough (suc f) zero n hf hg = absurd (omega (arith, hg))
decimal_fuel_enough (suc f) (suc g) n hf hg = elim (Bool-cases (ltb n 10)) [
  | inl small ↦ rw small refl
  | inr large ↦
      (let less : n / 10 < n = ground (arith, large) in
        let rest : decimal f (n / 10) ≡ decimal g (n / 10) =
          decimal_fuel_enough f g (n / 10) (omega (arith, less, hf)) (omega (arith, less, hg)) in
        rw (large, rest) refl)
]
