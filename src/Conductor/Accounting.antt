-- ===== src/Conductor/Accounting.antt =====
-- What the lifecycle hooks report: codex-conductor/src/conductor/accounting.py, pricing.py and
-- identifiers.py. The time of a hook, what its transcript holds and SHA-256 are given; the lengths of
-- texts are not checked.
pub mod Usage
pub mod Payload
pub mod Prices
pub mod Hooks
mod Tests
use Prim.Native.String.{◌++◌ as ◌<>◌}
use agent_tooling.Prelude.{
  ◌^◌, ℕ, ◌+◌, ◌-◌, ◌*◌, String, Bool, true, false, not, ◌&&◌, ◌||◌, Option, none, some, List, [],
  ◌∷◌, ltb, leb, contains, is_some, codes, if◌then◌else◌, ◌==◌, eqb, map,
}
use agent_tooling.Conductor.Schemas.{
  Provider, claude, codex, Pricing, TierConfig, ConductorConfig, Usd, Time, LifecycleKind, start,
  stop, cost, cancel, fail, PayloadValue, text, other_value,
}
use agent_tooling.Conductor.Hook.{tier_for_model}
use agent_tooling.Conductor.Store.Result.{Result, ok, raises, value_error, ◌>>=◌, ◌>>◌, raise_if}
use agent_tooling.Conductor.Store.Tables.{RawUsage, LifecycleEvent, is_identifier}
use agent_tooling.Conductor.Accounting.Usage.{
  Counts, Transcript, of_claude, of_codex, UsageFields, usage_fields, raw_usage_cost,
  tier_pricing_available,
}
use agent_tooling.Conductor.Accounting.Payload.{
  LifecycleHook, nonempty, or_next, kind_text, or_parsed, is_start_event, is_terminal_event,
  terminal_kind, closing_kind, HookIds, hook_ids,
}

-- The upper bound of `NonNegativeInt`, 2 ^ 63 - 1.
abbrev is_count : ℕ → Bool
is_count n = ltb n (2 ^ 63)

abbrev is_usage : RawUsage → Bool
is_usage u =
    is_count u.input_tokens
    && is_count u.cache_read_tokens
    && is_count u.cache_write_tokens
    && is_count u.output_tokens
    && is_count u.reasoning_tokens

-- `RawUsage(...)`, which refuses counts above the bound.
abbrev validated : Option RawUsage → Result (Option RawUsage)
validated none = ok none
validated (some u) = if is_usage u then ok (some u) else raises value_error

module _ (sha256 : String → String) where
  -- `derived_identifier`, by `bounded_identifier`
  unfoldable pub derived_identifier : String → String → String
  derived_identifier prefix value =
      let whole = prefix <> ("-" <> value) in
      if is_identifier whole then whole else prefix <> ("-" <> sha256 whole)

  abbrev fields_of_codex : ℕ → ℕ → ℕ → ℕ → UsageFields
  fields_of_codex input cached output reasoning = record {
    input = input;
    cache_read = cached;
    cache_write = 0;
    output = output;
    reasoning = reasoning;
  }

  -- The model and the counts that `_raw_usage` finds, if it finds any.
  abbrev from_transcript :
      Provider → Option String → Option Transcript → Result (Option (Option String × UsageFields))
  from_transcript claude model (some (of_claude parsed counts)) = do
    values ← usage_fields claude counts
    ok (some (some (or_parsed model parsed), values))
  from_transcript codex model (some (of_codex input cached output reasoning)) =
      ok (some (model, fields_of_codex input cached output reasoning))
  from_transcript p model t = ok none

  abbrev find_usage :
      Provider
      → Option String
      → LifecycleHook
      → Option Counts
      → Result (Option (Option String × UsageFields))
  find_usage p model h (some counts) = do values ← usage_fields p counts; ok (some (model, values))
  find_usage p model h none = from_transcript p model h.transcript

  abbrev build_usage :
      Provider → String → Time → Option (Option String × UsageFields) → Option RawUsage
  build_usage p correlation at (some (some model, v)) = some (record {
    source_event_id = derived_identifier "usage" correlation;
    provider = p;
    parser_version = "conductor-usage-v1";
    model = model;
    input_tokens = v.input;
    cache_read_tokens = v.cache_read;
    cache_write_tokens = v.cache_write;
    output_tokens = v.output;
    reasoning_tokens = v.reasoning;
    measured = true;
    occurred_at = at;
  })
  build_usage p correlation at _ = none

  -- `_raw_usage`
  unfoldable pub raw_usage :
      Provider → LifecycleHook → Option String → String → Time → Result (Option RawUsage)
  raw_usage p h model correlation at = do
    found ← find_usage p model h h.usage
    validated (build_usage p correlation at found)

  abbrev price : RawUsage → Option TierConfig → Usd → Usd × Bool
  price u none estimate = (estimate, true)
  price u (some t) estimate =
      if tier_pricing_available t.pricing
      then (raw_usage_cost u t.pricing, false)
      else (estimate, true)

  abbrev cost_of_usage : ConductorConfig → Usd → Option RawUsage → Usd × Bool
  cost_of_usage config estimate none = (estimate, true)
  cost_of_usage config estimate (some u) = price u (tier_for_model config u.model) estimate

  abbrev event_of : Provider → HookIds → String → LifecycleKind → Option String → LifecycleEvent
  event_of p ids prefix kind status = record {
    event_id = derived_identifier prefix ids.correlation;
    provider = p;
    run_id = ids.run;
    correlation_id = ids.correlation;
    kind = kind;
    occurred_at = ids.at;
    status = status;
    usage = none;
    cost_usd = none;
    estimated = none;
  }

  abbrev cost_event : LifecycleEvent → Option RawUsage → Usd × Bool → LifecycleEvent
  cost_event base usage (amount, estimated) = record base {
    usage = usage;
    cost_usd = some amount;
    estimated = some estimated;
  }

  abbrev or_given : Option String → String → Option String
  or_given (some s) d = some s
  or_given none d = some d

  -- The two events of a terminal hook, once its usage is read.
  unfoldable pub closing_events :
      Provider
      → LifecycleHook
      → ConductorConfig
      → Usd
      → HookIds
      → Option RawUsage
      → List LifecycleEvent
  closing_events p h config estimate ids usage =
      event_of p ids "terminal" (closing_kind h)
        (or_given (nonempty (h.field "status")) (kind_text (closing_kind h)))
      ∷ cost_event (event_of p ids "cost" cost (some "costed")) usage
          (cost_of_usage config estimate usage)
      ∷ []

  unfoldable pub terminal_events :
      Provider
      → LifecycleHook
      → ConductorConfig
      → Option String
      → Usd
      → HookIds
      → Result (List LifecycleEvent)
  terminal_events p h config model estimate ids =
      raw_usage p h (or_next (nonempty (h.field "model")) model) ids.correlation ids.at >>= λ usage.
      ok (closing_events p h config estimate ids usage)

  abbrev start_event : Provider → LifecycleHook → HookIds → LifecycleEvent
  start_event p h ids =
      event_of p ids "start" start (or_given (nonempty (h.field "status")) "running")

  -- The events under these ids; the schema of an event refuses ids that are no identifiers.
  unfoldable pub events_under :
      Provider
      → LifecycleHook
      → ConductorConfig
      → Option String
      → Usd
      → HookIds
      → Result (List LifecycleEvent)
  events_under p h config model estimate ids =
      if not (is_start_event h.event_name) && not (is_terminal_event h.event_name)
        || not (is_identifier ids.run)
        || not (is_identifier ids.correlation)
      then raises value_error
      else if is_start_event h.event_name
      then ok (start_event p h ids ∷ [])
      else terminal_events p h config model estimate ids

  -- `normalize_lifecycle_events`
  unfoldable pub normalize_lifecycle_events :
      Provider
      → LifecycleHook
      → ConductorConfig
      → Option String
      → Usd
      → Result (List LifecycleEvent)
  normalize_lifecycle_events p h config model estimate =
      hook_ids h >>= events_under p h config model estimate
