-- ===== src/Conductor/Accounting/Prices.antt =====
-- What the tokens of a usage cost: proofs on codex-conductor/src/conductor/accounting.py and
-- pricing.py.
use native.Mathlib.Nat.{mul-le-mul_left}
use agent_tooling.Prelude.{
  Bool-cases, inl, inr, ℕ, ◌+◌, ◌-◌, ◌*◌, ◌≤◌, ◌≡◌, refl, subst, String, Option, none, some, arith,
}
use agent_tooling.Conductor.Schemas.{Provider, claude, codex, Pricing, Usd, Time}
use agent_tooling.Conductor.Store.Result.{Result, ok, raises, ◌>>=◌}
use agent_tooling.Conductor.Store.Tables.{RawUsage}
use agent_tooling.Conductor.Accounting.{validated, is_usage, raw_usage, build_usage, find_usage}
use agent_tooling.Conductor.Accounting.Payload.{LifecycleHook}
use agent_tooling.Conductor.Accounting.Usage.{
  Counts, UsageFields, usage_fields, raw_usage_cost, total_input, collect_fields,
}

-- The cached tokens are part of the input that is counted.
cached_within_input :
    (p : Provider) (base read write : ℕ) → read + write ≤ total_input p base read write
cached_within_input claude base read write = omega arith
cached_within_input codex base read write = ground arith

ok_injective : (a b : UsageFields) → ok a ≡ ok b → a ≡ b
ok_injective a b h = cc

collect_fields_cached :
    (p : Provider) (read write base output reasoning : Result ℕ) (v : UsageFields)
    → collect_fields p read write base output reasoning ≡ ok v
    → v.cache_read + v.cache_write ≤ v.input
unfolding collect_fields
collect_fields_cached p (ok read) (ok write) (ok base) (ok output) (ok reasoning) v h =
    subst (λ v. v.cache_read + v.cache_write ≤ v.input) (ok_injective _ v h)
      (cached_within_input p base read write)
collect_fields_cached p (raises e) write base output reasoning v h = absurd (ground arith)
collect_fields_cached p (ok read) (raises e) base output reasoning v h = absurd (ground arith)
collect_fields_cached p (ok read) (ok write) (raises e) output reasoning v h = absurd (ground arith)
collect_fields_cached p (ok read) (ok write) (ok base) (raises e) reasoning v h =
    absurd (ground arith)
collect_fields_cached p (ok read) (ok write) (ok base) (ok output) (raises e) v h =
    absurd (ground arith)

usage_fields_cached :
    (p : Provider) (raw : Counts) (v : UsageFields)
    → usage_fields p raw ≡ ok v
    → v.cache_read + v.cache_write ≤ v.input
unfolding usage_fields
usage_fields_cached p raw v h = collect_fields_cached p _ _ _ _ _ v h

some_injective : (a b : RawUsage) → some a ≡ some b → a ≡ b
some_injective a b h = cc

validated_same :
    (built : Option RawUsage) (u : RawUsage) → validated built ≡ ok (some u) → built ≡ some u
validated_same none u h = absurd (ground arith)
validated_same (some a) u h = elim (Bool-cases (is_usage a)) [
  | inl e ↦ ground (arith, rw e at h)
  | inr e ↦ absurd (ground (arith, rw e at h))
]

build_usage_cached :
    (sha256 : String → String) (p : Provider) (model : Option String) (correlation : String)
    (at : Time) (read : Result UsageFields) (u : RawUsage)
    → ((v : UsageFields) → read ≡ ok v → v.cache_read + v.cache_write ≤ v.input)
    → ((read >>= λ v. ok (some (model, v))) >>= λ found.
        validated (build_usage sha256 p correlation at found))
      ≡ ok (some u)
    → u.cache_read_tokens + u.cache_write_tokens ≤ u.input_tokens
build_usage_cached sha256 p (some model) correlation at (ok v) u c h =
    subst (λ u. u.cache_read_tokens + u.cache_write_tokens ≤ u.input_tokens)
      (some_injective _ u
        (validated_same (build_usage sha256 p correlation at (some (some model, v))) u h))
      (c v refl)
build_usage_cached sha256 p none correlation at (ok v) u c h = absurd (ground arith)
build_usage_cached sha256 p model correlation at (raises e) u c h = absurd (ground arith)

raw_usage_cached :
    (sha256 : String → String) (p : Provider) (h : LifecycleHook) (model : Option String)
    (correlation : String) (at : Time) (counts : Counts) (u : RawUsage)
    → h.usage ≡ some counts
    → raw_usage sha256 p h model correlation at ≡ ok (some u)
    → u.cache_read_tokens + u.cache_write_tokens ≤ u.input_tokens
unfolding raw_usage
raw_usage_cached sha256 p h model correlation at counts u given returned =
    build_usage_cached sha256 p model correlation at (usage_fields p counts) u
      (usage_fields_cached p counts)
      (subst
        (λ usage.
          (find_usage sha256 p model h usage >>= λ found.
          validated (build_usage sha256 p correlation at found))
          ≡ ok (some u))
        given returned)

-- One kind of tokens at a rate between two rates.
rated : (a x lo hi : ℕ) → (lo ≤ x) × (x ≤ hi) → (a * lo ≤ a * x) × (a * x ≤ a * hi)
rated a x lo hi (l, h) = (mul-le-mul_left a l, mul-le-mul_left a h)

-- Rates of the four kinds of tokens that lie between two rates.
pub record IsRatedWithin (p : Pricing) (lo hi : Usd) : Type 0 where
  pub input : (lo ≤ p.input_rate) × (p.input_rate ≤ hi)
  pub cache_read : (lo ≤ p.cache_read_rate) × (p.cache_read_rate ≤ hi)
  pub cache_write : (lo ≤ p.cache_write_rate) × (p.cache_write_rate ≤ hi)
  pub output : (lo ≤ p.output_rate) × (p.output_rate ≤ hi)

weighted_bounds :
    (a b c d x y z w lo hi : ℕ)
    → (a * lo ≤ a * x) × (a * x ≤ a * hi)
    → (b * lo ≤ b * y) × (b * y ≤ b * hi)
    → (c * lo ≤ c * z) × (c * z ≤ c * hi)
    → (d * lo ≤ d * w) × (d * w ≤ d * hi)
    → ((a + b + c + d) * lo ≤ a * x + b * y + c * z + d * w)
      × (a * x + b * y + c * z + d * w ≤ (a + b + c + d) * hi)
weighted_bounds a b c d x y z w lo hi (h1, h2) (h3, h4) (h5, h6) (h7, h8) =
    (omega arith, omega arith)

-- Where the counts come with the hook, the price of the usage lies between what all its tokens, input
-- and output, cost at the lower and at the upper of two rates that the four prices lie between.
pub usage_cost_between :
    (sha256 : String → String) (p : Provider) (h : LifecycleHook) (model : Option String)
    (correlation : String) (at : Time) (counts : Counts) (u : RawUsage) (prices : Pricing)
    (lo hi : Usd)
    → h.usage ≡ some counts
    → raw_usage sha256 p h model correlation at ≡ ok (some u)
    → IsRatedWithin prices lo hi
    → ((u.input_tokens + u.output_tokens) * lo ≤ raw_usage_cost u prices)
      × (raw_usage_cost u prices ≤ (u.input_tokens + u.output_tokens) * hi)
unfolding raw_usage_cost
usage_cost_between sha256 p h model correlation at counts u prices lo hi given returned rates =
    let cached = raw_usage_cached sha256 p h model correlation at counts u given returned in
    let uncached = u.input_tokens - u.cache_read_tokens - u.cache_write_tokens in
    let whole : uncached + u.cache_read_tokens + u.cache_write_tokens ≡ u.input_tokens =
      omega arith in
    subst
      (λ tokens.
        ((tokens + u.output_tokens) * lo ≤ raw_usage_cost u prices)
        × (raw_usage_cost u prices ≤ (tokens + u.output_tokens) * hi))
      whole
      (weighted_bounds uncached u.cache_read_tokens u.cache_write_tokens u.output_tokens
        prices.input_rate prices.cache_read_rate prices.cache_write_rate prices.output_rate lo hi
        (rated _ _ lo hi rates.input) (rated _ _ lo hi rates.cache_read)
        (rated _ _ lo hi rates.cache_write) (rated _ _ lo hi rates.output))
