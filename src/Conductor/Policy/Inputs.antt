-- ===== src/Conductor/Policy/Inputs.antt =====
-- The arguments of `evaluate_policy` and the lookups that it makes in them: `_requested_model`,
-- `_requested_effort`, `_frontier_index`, `_target_tier_index`.
use Prim.Native.Nat.{max}
use agent_tooling.Prelude.{
  ℕ, ◌+◌, String, Bool, true, false, not, ◌&&◌, ◌||◌, Option, none, some, List, [], ◌∷◌, ltb, leb,
  if◌then◌else◌, ◌==◌, contains, contains_ℕ, length,
}
use agent_tooling.Conductor.Schemas.{
  OperationName, other, OperatingMode, routing, admission, Provider, codex, claude, PayloadValue,
  text, TierConfig, ConductorConfig, TaskEnvelope, NormalizedOperation, RunContext,
  ReservationSnapshot,
}

-- A Python `int` that may be negative: `negative n` is -(n + 1).
pub data Depth : Type 0 where
  depth : ℕ → Depth
  negative : ℕ → Depth

pub record Call : Type 0 where
  pub operation : NormalizedOperation
  pub run : RunContext
  pub config : ConductorConfig
  pub enabled_tiers : List ℕ
  pub snapshot : ReservationSnapshot
  pub caller_model : String
  pub caller_depth : Depth
  pub caller_effort : String

-- `operation.operation in _GOVERNED_OPERATIONS`
abbrev pub is_governed : OperationName → Bool
is_governed other = false
is_governed _ = true

abbrev pub same_provider : Provider → Provider → Bool
same_provider codex codex = true
same_provider claude claude = true
same_provider _ _ = false

abbrev pub is_codex : Provider → Bool
is_codex codex = true
is_codex claude = false

abbrev pub is_routing : OperatingMode → Bool
is_routing routing = true
is_routing _ = false

abbrev pub is_admission : OperatingMode → Bool
is_admission admission = true
is_admission _ = false

-- `isinstance(value, str) and value`
abbrev nonempty_text : Option PayloadValue → Option String
nonempty_text (some (text s)) = if s == "" then none else some s
nonempty_text _ = none

abbrev or_else : Option String → Option String → Option String
or_else (some s) rest = some s
or_else none rest = rest

-- The loops of `_requested_model` and `_requested_effort`.
unfoldable pub requested_text : List String → (String → Option PayloadValue) → Option String
requested_text [] payload = none
requested_text (name ∷ names) payload =
    or_else (nonempty_text (payload name)) (requested_text names payload)

unfoldable pub requested_model : NormalizedOperation → Option String
unfolding requested_text
requested_model o = requested_text ("model" ∷ "model_slug" ∷ "requested_model" ∷ []) o.payload

unfoldable pub requested_effort : NormalizedOperation → Option String
unfolding requested_text
requested_effort o = requested_text ("reasoning_effort" ∷ "model_reasoning_effort" ∷ []) o.payload

abbrev is_text : Option PayloadValue → String → Bool
is_text (some (text s)) t = s == t
is_text _ t = false

-- `operation.payload.get("fork_turns") == "all"`
unfoldable pub forks_all : NormalizedOperation → Bool
forks_all o = is_text (o.payload "fork_turns") "all"

abbrev is_empty : List String → Bool
is_empty [] = true
is_empty (x ∷ xs) = false

-- `forced_frontier`
unfoldable pub forced_frontier : TaskEnvelope → Bool
forced_frontier e = e.task_class == "high_risk" || not (is_empty e.risk_triggers)

unfoldable pub frontier_from : ℕ → List TierConfig → List ℕ → Option ℕ
frontier_from i [] enabled = none
frontier_from i (t ∷ ts) enabled =
    let rest = frontier_from (i + 1) ts enabled in
    if t.name == "frontier" then (if contains_ℕ i enabled then some i else none) else rest

-- `_frontier_index`
unfoldable pub frontier_index : ConductorConfig → List ℕ → Option ℕ
unfolding frontier_from
frontier_index c enabled = frontier_from 0 c.tiers enabled

unfoldable pub owner_from : ℕ → String → List TierConfig → Option ℕ
owner_from i task [] = none
owner_from i task (t ∷ ts) =
    let rest = owner_from (i + 1) task ts in if contains task t.task_classes then some i else rest

abbrev max_option : ℕ → Option ℕ → ℕ
max_option i none = i
max_option i (some j) = max i j

-- `max` of the enabled indexes in `range(size)` that are at most `owner`.
unfoldable pub best_enabled : ℕ → ℕ → List ℕ → Option ℕ
best_enabled size owner [] = none
best_enabled size owner (i ∷ is) =
    let rest = best_enabled size owner is in
    if ltb i size && leb i owner then some (max_option i rest) else rest

-- `_target_tier_index`
unfoldable pub target_tier_index : ConductorConfig → List ℕ → String → Option ℕ
unfolding owner_from best_enabled
target_tier_index c enabled task = elim (owner_from 0 task c.tiers) [
  | none ↦ none
  | some owner ↦ best_enabled (length c.tiers) owner enabled
]
