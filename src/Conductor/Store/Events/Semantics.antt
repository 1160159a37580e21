-- ===== src/Conductor/Store/Events/Semantics.antt =====
-- The comparison of two deliveries of an event: it is reflexive, and does not see their times.
use agent_tooling.Prelude.{
  ℕ, ◌≡◌, refl, Bool, true, false, Option, none, some, arith, ◌==◌, eq_refl, eqb,
}
use agent_tooling.Conductor.Schemas.{LifecycleKind, start, stop, cost, cancel, fail, Time}
use agent_tooling.Conductor.Policy.Inputs.{same_provider}
use agent_tooling.Conductor.Schemas.{Provider, codex, claude}
use agent_tooling.Conductor.Store.Tables.{RawUsage, LifecycleEvent}
use agent_tooling.Conductor.Store.Events.{
  same_kind, same_bool, same_option, same_usage, same_semantics,
}

same_provider_refl : (p : Provider) → same_provider p p ≡ true
same_provider_refl codex = refl
same_provider_refl claude = refl

eqb_refl : (n : ℕ) → eqb n n ≡ true
eqb_refl n = ground arith

same_usage_refl : (u : RawUsage) → same_usage u u ≡ true
unfolding same_usage
same_usage_refl u = ground (
  arith,
  eq_refl u.source_event_id,
  same_provider_refl u.provider,
  eq_refl u.parser_version,
  eq_refl u.model,
)

same_kind_refl : (k : LifecycleKind) → same_kind k k ≡ true
same_kind_refl start = refl
same_kind_refl stop = refl
same_kind_refl cost = refl
same_kind_refl cancel = refl
same_kind_refl fail = refl

same_bool_refl : (b : Bool) → same_bool b b ≡ true
same_bool_refl true = refl
same_bool_refl false = refl

same_option_refl :
    {A : Type 0} (eq : A → A → Bool)
    → ((a : A) → eq a a ≡ true)
    → (o : Option A) → same_option eq o o ≡ true
same_option_refl eq h none = refl
same_option_refl eq h (some a) = h a

pub same_semantics_refl : (e : LifecycleEvent) → same_semantics e e ≡ true
unfolding same_semantics
same_semantics_refl e = ground (
  arith,
  eq_refl e.event_id,
  same_provider_refl e.provider,
  eq_refl e.run_id,
  eq_refl e.correlation_id,
  same_kind_refl e.kind,
  same_option_refl ◌==◌ eq_refl e.status,
  same_option_refl same_usage same_usage_refl e.usage,
  same_option_refl eqb eqb_refl e.cost_usd,
  same_option_refl same_bool same_bool_refl e.estimated,
)

-- The same event with another time is the same to the store.
abbrev pub at_time : Time → LifecycleEvent → LifecycleEvent
at_time t e = record e { occurred_at = t }

pub same_semantics-at_time :
    (t : Time) (x e : LifecycleEvent) → same_semantics x (at_time t e) ≡ same_semantics x e
unfolding same_semantics
same_semantics-at_time t x e = refl
