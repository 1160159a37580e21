-- ===== src/Conductor/Schemas.antt =====
-- The contracts of codex-conductor/src/conductor/schemas.py that the policy and the store read.
-- An amount in US dollars is a whole number of picodollars (1e-12 USD), a fraction a whole number
-- of trillionths, and a time a whole number of microseconds.
use agent_tooling.Prelude.{
  ℕ, zero, ◌+◌, String, Bool, false, Option, none, some, List, [], ◌∷◌, ◌==◌, index_of, leb,
  if◌then◌else◌,
}

pub data Provider : Type 0 where
  codex claude : Provider

pub data OperatingMode : Type 0 where
  routing admission observe unsupported : OperatingMode

pub data OperationName : Type 0 where
  spawn assign followup message other : OperationName

pub data ReservationState : Type 0 where
  approved started stopped costed cancelled expired failed : ReservationState

pub data LifecycleKind : Type 0 where
  start stop cost cancel fail : LifecycleKind

abbrev pub Usd : Type 0
Usd = ℕ

abbrev pub Time : Type 0
Time = ℕ

abbrev pub reasoning_efforts : List String
reasoning_efforts = "low" ∷ "medium" ∷ "high" ∷ "xhigh" ∷ "max" ∷ "ultra" ∷ []

-- `REASONING_EFFORTS.index(effort)`; `none` where Python raises ValueError.
unfoldable pub effort_index : String → Option ℕ
effort_index effort = index_of effort reasoning_efforts

pub record BudgetConfig : Type 0 where
  pub run_usd_cap : Usd
  pub warn_at_fraction : ℕ
  pub enforce : Bool

-- The fields of `PolicyConfig` that the policy reads.
pub record PolicyConfig : Type 0 where
  pub max_depth : ℕ
  pub require_strictly_cheaper : Bool

-- The fields of `TierConfig` but its `pricing`.
-- Rates in microdollars for a million tokens, which are picodollars for a token.
pub record Pricing : Type 0 where
  pub input_rate : ℕ
  pub cache_read_rate : ℕ
  pub cache_write_rate : ℕ
  pub output_rate : ℕ

pub record TierConfig : Type 0 where
  pub name : String
  pub model : String
  pub generation_rank : Option ℕ
  pub capability_rank : Option ℕ
  pub reasoning_effort : String
  pub pricing : Pricing
  pub relative_cost_weight : ℕ
  pub est_task_usd : Usd
  pub max_concurrent : ℕ
  pub may_spawn : Bool
  pub task_classes : List String

pub record ConductorConfig : Type 0 where
  pub budget : BudgetConfig
  pub policy : PolicyConfig
  pub tiers : List TierConfig

abbrev or_weight : Option ℕ → ℕ → ℕ
or_weight none w = w
or_weight (some zero) w = w
or_weight (some r) w = r

-- `self.capability_rank or self.relative_cost_weight`
unfoldable pub effective_capability_rank : TierConfig → ℕ
effective_capability_rank t = or_weight t.capability_rank t.relative_cost_weight

abbrev index_le : Option ℕ → Option ℕ → Bool
index_le none o = false
index_le (some i) none = false
index_le (some i) (some j) = leb i j

-- A ValueError of `index` is caught and makes the answer False.
unfoldable pub supports_effort : TierConfig → String → Bool
supports_effort t effort = index_le (effort_index effort) (effort_index t.reasoning_effort)

-- `enumerate(tiers)` from index `i` on, to the first tier of the model.
unfoldable pub index_from : ℕ → String → List TierConfig → Option ℕ
index_from i m [] = none
index_from i m (t ∷ ts) =
    let rest = index_from (i + 1) m ts in if t.model == m then some i else rest

unfoldable pub tier_index_for_model : ConductorConfig → String → Option ℕ
unfolding index_from
tier_index_for_model c m = index_from 0 m c.tiers

-- The fields of `TaskEnvelopeV2` that the policy reads.
pub record TaskEnvelope : Type 0 where
  pub task_class : String
  pub risk_triggers : List String
  pub new_task : Bool

-- A value of the payload: `text` is a `str`, `other_value` any other JSON value.
pub data PayloadValue : Type 0 where
  text : String → PayloadValue
  other_value : PayloadValue

pub record NormalizedOperation : Type 0 where
  pub provider : Provider
  pub operation : OperationName
  pub payload : String → Option PayloadValue
  pub envelope : Option TaskEnvelope
  pub is_new_work : Bool

-- The fields of `RunContext` that the policy reads.
pub record RunContext : Type 0 where
  pub provider : Provider
  pub mode : OperatingMode

-- `ReservationSnapshot` of store.py. The counts are read by `active_by_tier.get(name, 0)`.
pub record ReservationSnapshot : Type 0 where
  pub active_by_tier : String → ℕ
  pub reserved_usd : Usd
  pub spent_usd : Usd
