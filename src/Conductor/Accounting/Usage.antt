-- ===== src/Conductor/Accounting/Usage.antt =====
-- Token counts and their price: `_usage_fields` of codex-conductor/src/conductor/accounting.py and
-- `raw_usage_cost_usd` of pricing.py.
use agent_tooling.Prelude.{
  ℕ, ◌+◌, ◌-◌, ◌*◌, String, Bool, ◌&&◌, Option, none, some, ltb, if◌then◌else◌,
}
use agent_tooling.Conductor.Schemas.{Provider, claude, codex, Pricing, Usd}
use agent_tooling.Conductor.Store.Result.{Result, ok, raises, value_error, ◌>>=◌}
use agent_tooling.Conductor.Store.Tables.{RawUsage}

-- A value of a usage: a count that `_nonnegative_int` returns, or a value that it refuses.
pub data TokenValue : Type 0 where
  count : ℕ → TokenValue
  no_count : TokenValue

abbrev pub Counts : Type 0
Counts = String → Option TokenValue

-- What `claude_transcript_usage` or `latest_usage` found in the transcript: a model and counts, or
-- the input, cached input, output and reasoning tokens.
pub data Transcript : Type 0 where
  of_claude : String → Counts → Transcript
  of_codex : ℕ → ℕ → ℕ → ℕ → Transcript

-- `_usage_fields`
pub record UsageFields : Type 0 where
  pub input : ℕ
  pub cache_read : ℕ
  pub cache_write : ℕ
  pub output : ℕ
  pub reasoning : ℕ

-- `_nonnegative_int`
abbrev nonnegative_int : TokenValue → Result ℕ
nonnegative_int (count n) = ok n
nonnegative_int no_count = raises value_error

abbrev or_default : Option TokenValue → TokenValue → TokenValue
or_default (some v) d = v
or_default none d = d

abbrev max : ℕ → ℕ → ℕ
max a b = if ltb a b then b else a

-- Claude reports uncached input separately; Codex reports total input.
abbrev pub total_input : Provider → ℕ → ℕ → ℕ → ℕ
total_input claude base read write = base + read + write
total_input codex base read write = max base (read + write)

-- The fields of the counts that were read: cache read, cache write, input, output and reasoning.
unfoldable pub collect_fields :
    Provider → Result ℕ → Result ℕ → Result ℕ → Result ℕ → Result ℕ → Result UsageFields
collect_fields p read_or write_or base_or output_or reasoning_or = do
  read ← read_or
  write ← write_or
  base ← base_or
  output ← output_or
  reasoning ← reasoning_or
  ok (record {
    input = total_input p base read write;
    cache_read = read;
    cache_write = write;
    output = output;
    reasoning = reasoning;
  })

unfoldable pub usage_fields : Provider → Counts → Result UsageFields
usage_fields p raw =
    collect_fields p
      (nonnegative_int (
        or_default (raw "cache_read_tokens") (
          or_default (raw "cached_input_tokens")
            (or_default (raw "cache_read_input_tokens") (count 0)))))
      (nonnegative_int (
        or_default (raw "cache_write_tokens")
          (or_default (raw "cache_creation_input_tokens") (count 0))))
      (nonnegative_int (or_default (raw "input_tokens") (count 0)))
      (nonnegative_int (or_default (raw "output_tokens") (count 0)))
      (nonnegative_int (
        or_default (raw "reasoning_tokens") (or_default (raw "reasoning_output_tokens") (count 0))))

-- `raw_usage_cost_usd`; the subtraction stops at 0, as `max(..., 0)` does.
unfoldable pub raw_usage_cost : RawUsage → Pricing → Usd
raw_usage_cost u p =
    (u.input_tokens - u.cache_read_tokens - u.cache_write_tokens) * p.input_rate
    + u.cache_read_tokens * p.cache_read_rate
    + u.cache_write_tokens * p.cache_write_rate
    + u.output_tokens * p.output_rate

-- `tier_pricing_available`
abbrev pub tier_pricing_available : Pricing → Bool
tier_pricing_available p =
    ltb 0 p.input_rate && ltb 0 p.cache_read_rate && ltb 0 p.cache_write_rate && ltb 0 p.output_rate
