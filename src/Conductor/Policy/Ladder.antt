-- ===== src/Conductor/Policy/Ladder.antt =====
-- The searches over the tiers find what they look for.
use agent_tooling.Prelude.{
  ℕ, suc, ◌+◌, ◌-◌, ◌≤◌, ◌<◌, ◌≡◌, refl, String, true, inl, inr, Bool-cases, Option-cases, some,
  List, [], ◌∷◌, get_elem?, get_elem?-found, contains_ℕ, contains, length, arith, ◌==◌, eq_iff,
}
use agent_tooling.Conductor.Schemas.{TierConfig, ConductorConfig, index_from, tier_index_for_model}
use agent_tooling.Conductor.Policy.Inputs.{
  frontier_from, frontier_index, owner_from, best_enabled, target_tier_index,
}

-- `t` is the tier at index `i`, counted from `base`.
pub record IsAt (base i : ℕ) (ts : List TierConfig) (t : TierConfig) : Type 0 where
  pub above : base ≤ i
  pub at : get_elem? ts (i - base) ≡ some t

IsAt-next :
    {base i : ℕ} {ts : List TierConfig} {t : TierConfig} (u : TierConfig)
    → IsAt (base + 1) i ts t
    → IsAt base i (u ∷ ts) t
IsAt-next {base} {i} u h =
    let e : i - base ≡ suc (i - (base + 1)) = omega (arith, h.above) in
    record { above = omega (arith, h.above); at = rw e h.at }

IsAt-here : (base i : ℕ) (ts : List TierConfig) (t : TierConfig) → base ≡ i → IsAt base i (t ∷ ts) t
IsAt-here base i ts t e =
    let z : i - base ≡ 0 = omega arith in record { above = omega arith; at = rw z refl }

index_from-IsAt :
    (base : ℕ) (m : String) (ts : List TierConfig) {i : ℕ}
    → index_from base m ts ≡ some i
    → (t : TierConfig) × IsAt base i ts t × (t.model ≡ m)
unfolding index_from
index_from-IsAt base m [] h = absurd (ground arith)
index_from-IsAt base m (t ∷ ts) {i} h = elim (Bool-cases (t.model == m)) [
  | inl e ↦ (t, IsAt-here base i ts t (ground arith), (eq_iff t.model m).0 e)
  | inr e ↦
      let (u, w, q) = index_from-IsAt (base + 1) m ts {i = i} (ground arith) in
      (u, IsAt-next t w, q)
]

frontier_from-IsAt :
    (base : ℕ) (ts : List TierConfig) (enabled : List ℕ) {i : ℕ}
    → frontier_from base ts enabled ≡ some i
    → (t : TierConfig) × IsAt base i ts t × (t.name ≡ "frontier") × (contains_ℕ i enabled ≡ true)
unfolding frontier_from
frontier_from-IsAt base [] enabled h = absurd (ground arith)
frontier_from-IsAt base (t ∷ ts) enabled {i} h = elim (Bool-cases (t.name == "frontier")) [
  | inl e ↦ (t, IsAt-here base i ts t (ground arith), (eq_iff t.name "frontier").0 e, ground arith)
  | inr e ↦
      let (u, w, q, on) = frontier_from-IsAt (base + 1) ts enabled {i = i} (ground arith) in
      (u, IsAt-next t w, q, on)
]

owner_from-IsAt :
    (base : ℕ) (task : String) (ts : List TierConfig) {i : ℕ}
    → owner_from base task ts ≡ some i
    → (t : TierConfig) × IsAt base i ts t × (contains task t.task_classes ≡ true)
unfolding owner_from
owner_from-IsAt base task [] h = absurd (ground arith)
owner_from-IsAt base task (t ∷ ts) {i} h = elim (Bool-cases (contains task t.task_classes)) [
  | inl e ↦ (t, IsAt-here base i ts t (ground arith), e)
  | inr e ↦
      let (u, w, q) = owner_from-IsAt (base + 1) task ts {i = i} (ground arith) in
      (u, IsAt-next t w, q)
]

-- The tier that a lookup of the configuration returns an index of.
pub tier_index_for_model-found :
    (c : ConductorConfig) (m : String) (i : ℕ)
    → tier_index_for_model c m ≡ some i
    → (t : TierConfig) × (get_elem? c.tiers i ≡ some t) × (t.model ≡ m)
unfolding tier_index_for_model
tier_index_for_model-found c m i h =
    let (t, w, q) = index_from-IsAt 0 m c.tiers {i = i} h in
    let z : i - 0 ≡ i = omega arith in (t, rw z at w.at, q)

pub frontier_index-found :
    (c : ConductorConfig) (enabled : List ℕ) (i : ℕ)
    → frontier_index c enabled ≡ some i
    → (t : TierConfig) × (get_elem? c.tiers i ≡ some t)
      × (t.name ≡ "frontier")
      × (contains_ℕ i enabled ≡ true)
unfolding frontier_index
frontier_index-found c enabled i h =
    let (t, w, q, on) = frontier_from-IsAt 0 c.tiers enabled {i = i} h in
    let z : i - 0 ≡ i = omega arith in (t, rw z at w.at, q, on)

-- The best enabled tier is in range, enabled, and no weaker than the owner.
pub best_enabled-found :
    (size owner : ℕ) (enabled : List ℕ) (i : ℕ)
    → best_enabled size owner enabled ≡ some i
    → (i < size) × (i ≤ owner) × (contains_ℕ i enabled ≡ true)
unfolding best_enabled
best_enabled-found size owner [] i h = ground arith
best_enabled-found size owner (j ∷ js) i h = elim (Option-cases (best_enabled size owner js)) [
  | inl e ↦ ground arith
  | inr (k, e) ↦ ground (arith, best_enabled-found size owner js k e)
]

-- `_target_tier_index` returns an enabled index of the ladder.
pub target_tier_index-found :
    (c : ConductorConfig) (enabled : List ℕ) (task : String) (i : ℕ)
    → target_tier_index c enabled task ≡ some i
    → (t : TierConfig) × (get_elem? c.tiers i ≡ some t) × (contains_ℕ i enabled ≡ true)
unfolding target_tier_index
target_tier_index-found c enabled task i h = elim (Option-cases (owner_from 0 task c.tiers)) [
  | inl e ↦ absurd (ground arith)
  | inr (owner, e) ↦
      let (small, low, on) =
        best_enabled-found (length c.tiers) owner enabled i (rw (e, target_tier_index) at h) in
      let (t, found) = get_elem?-found c.tiers i small in (t, found, on)
]
