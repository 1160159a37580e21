-- ===== src/Conductor/Accounting/Tests.antt =====
-- A subagent of Claude that starts and stops, with the counts of its tokens.
use agent_tooling.Prelude.{
  ◌+◌, ◌*◌, ◌≤◌, ◌≡◌, refl, arith, String, Option, none, some, List, [], ◌∷◌, every, ◌==◌,
  if◌then◌else◌, true, false,
}
use agent_tooling.Conductor.Schemas.{
  Pricing, PayloadValue, text, claude, LifecycleKind, start, stop, cost, costed,
  tier_index_for_model,
}
use agent_tooling.Conductor.Policy.Tests.{two_tiers}
use agent_tooling.Conductor.Hook.{tier_for_model}
use agent_tooling.Conductor.Store.Result.{ok}
use agent_tooling.Conductor.Store.Tables.{RawUsage, LifecycleEvent, is_identifier}
use agent_tooling.Conductor.Lifecycle.{follow, fresh}
use agent_tooling.Conductor.Accounting.Usage.{
  Counts, count, usage_fields, collect_fields, raw_usage_cost,
}
use agent_tooling.Conductor.Accounting.Payload.{LifecycleHook, first_text, hook_ids, terminal_kind}
use agent_tooling.Conductor.Accounting.{
  derived_identifier, raw_usage, closing_events, terminal_events, events_under,
  normalize_lifecycle_events,
}
use agent_tooling.Conductor.Accounting.Prices.{IsRatedWithin, usage_cost_between}
use agent_tooling.Conductor.Accounting.Hooks.{HookReport, is_ordinary, report_all, hooks_converge}

abbrev fields : String → Option PayloadValue
fields key =
    if key == "session_id"
    then some (text "run-1")
    else if key == "agent_id"
    then some (text "agent-1")
    else none

abbrev counts : Counts
counts key =
    if key == "input_tokens"
    then some (count 10)
    else if key == "cache_read_tokens"
    then some (count 50)
    else if key == "output_tokens"
    then some (count 7)
    else none

abbrev hook_named : String → LifecycleHook
hook_named name = record {
  field = fields;
  event_name = name;
  time = some 5;
  usage = some counts;
  transcript = none;
}

abbrev hashed : String → String
hashed s = "0"

abbrev used : RawUsage
used = record {
  source_event_id = "usage-agent-1";
  provider = claude;
  parser_version = "conductor-usage-v1";
  model = "gpt-small";
  input_tokens = 60;
  cache_read_tokens = 50;
  cache_write_tokens = 0;
  output_tokens = 7;
  reasoning_tokens = 0;
  measured = true;
  occurred_at = 5;
}

abbrev prices : Pricing
prices = record { input_rate = 3; cache_read_rate = 1; cache_write_rate = 4; output_rate = 15 }

reads_used :
    raw_usage hashed claude (hook_named "SubagentStop") (some "gpt-small") "agent-1" 5
    ≡ ok (some used)
unfolding raw_usage usage_fields collect_fields derived_identifier is_identifier
reads_used = refl

prices-IsRatedWithin : IsRatedWithin prices 1 15
prices-IsRatedWithin = record {
  input = (omega arith, omega arith);
  cache_read = (omega arith, omega arith);
  cache_write = (omega arith, omega arith);
  output = (omega arith, omega arith);
}

usage_cost_between_example :
    ((60 + 7) * 1 ≤ raw_usage_cost used prices) × (raw_usage_cost used prices ≤ (60 + 7) * 15)
usage_cost_between_example =
    usage_cost_between hashed claude (hook_named "SubagentStop") (some "gpt-small") "agent-1" 5
      counts used prices 1 15 refl reads_used prices-IsRatedWithin

abbrev reported : String → HookReport
reported name = record {
  provider = claude;
  hook = hook_named name;
  config = two_tiers;
  model = some "gpt-small";
  estimate = 10;
}

abbrev backwards : List HookReport
backwards = reported "SubagentStop" ∷ reported "SubagentStart" ∷ []

abbrev event : String → LifecycleKind → String → LifecycleEvent
event id kind status = record {
  event_id = id;
  provider = claude;
  run_id = "run-1";
  correlation_id = "agent-1";
  kind = kind;
  occurred_at = 5;
  status = some status;
  usage = none;
  cost_usd = none;
  estimated = none;
}

abbrev events : List LifecycleEvent
events =
    event "terminal-agent-1" stop "stop"
    ∷ record (event "cost-agent-1" cost "costed") {
      usage = some used;
      cost_usd = some 88;
      estimated = some false;
    }
    ∷ event "start-agent-1" start "running"
    ∷ []

ordinary : every is_ordinary backwards ≡ true
unfolding terminal_kind
ordinary = refl

reports : report_all hashed backwards ≡ ok events
unfolding report_all normalize_lifecycle_events events_under terminal_events closing_events hook_ids
    first_text terminal_kind raw_usage raw_usage_cost usage_fields collect_fields derived_identifier
    is_identifier tier_for_model tier_index_for_model
reports = refl

hooks_converge_example : follow fresh (stop ∷ cost ∷ start ∷ []) ≡ (costed, false, none)
hooks_converge_example = hooks_converge hashed backwards events reports ordinary refl refl
