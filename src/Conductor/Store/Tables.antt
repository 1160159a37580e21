-- ===== src/Conductor/Store/Tables.antt =====
-- The tables of codex-conductor/src/conductor/migrations.py, a list of rows for each, the newest row
-- first, and the texts that the store admits as identifiers. Columns that no modelled operation
-- reads (`payload_json` but for lifecycle events, `message`) are left out.
use agent_tooling.Prelude.{
  ℕ, ◌*◌, String, Bool, false, ◌&&◌, ◌||◌, Option, List, [], ◌∷◌, leb, eqb, every, length, codes,
}
use agent_tooling.Conductor.Schemas.{
  Provider, OperatingMode, OperationName, ReservationState, LifecycleKind, Usd, Time,
}
use agent_tooling.Conductor.Policy.Outcome.{Rule}

pub record RunRow : Type 0 where
  pub run_id : String
  pub provider : Provider
  pub generation : ℕ
  pub mode : OperatingMode
  pub created_at : Time
  pub heartbeat_at : Time

pub record LeaseRow : Type 0 where
  pub run_id : String
  pub owner_id : String
  pub heartbeat_at : Time
  pub expires_at : Time

pub record OperationRow : Type 0 where
  pub operation_id : String
  pub run_id : String
  pub idempotency_key : String
  pub operation : OperationName
  pub correlation_id : Option String
  pub created_at : Time

pub record ReservationRow : Type 0 where
  pub reservation_id : String
  pub run_id : String
  pub task_id : String
  pub correlation_id : Option String
  pub operation : OperationName
  pub tier : Option String
  pub model : Option String
  pub reasoning_effort : Option String
  pub estimated_usd : Usd
  pub state : ReservationState
  pub recoverable : Bool
  pub recovery_reason : Option String
  pub created_at : Time
  pub updated_at : Time
  pub expires_at : Time

pub record DecisionRow : Type 0 where
  pub decision_id : String
  pub run_id : String
  pub operation_id : String
  pub idempotency_key : String
  pub reservation_id : Option String
  pub allowed : Bool
  pub rule : Rule
  pub mode : OperatingMode
  pub operation : OperationName
  pub selected_model : Option String
  pub reservation_estimate_usd : Usd
  pub savings_eligible : Bool
  pub created_at : Time

-- `RawUsage`
pub record RawUsage : Type 0 where
  pub source_event_id : String
  pub provider : Provider
  pub parser_version : String
  pub model : String
  pub input_tokens : ℕ
  pub cache_read_tokens : ℕ
  pub cache_write_tokens : ℕ
  pub output_tokens : ℕ
  pub reasoning_tokens : ℕ
  pub measured : Bool
  pub occurred_at : Time

-- `LifecycleEvent`
pub record LifecycleEvent : Type 0 where
  pub event_id : String
  pub provider : Provider
  pub run_id : String
  pub correlation_id : String
  pub kind : LifecycleKind
  pub occurred_at : Time
  pub status : Option String
  pub usage : Option RawUsage
  pub cost_usd : Option Usd
  pub estimated : Option Bool

pub record UsageRow : Type 0 where
  pub run_id : String
  pub usage : RawUsage

pub record CostRow : Type 0 where
  pub run_id : String
  pub event_id : String
  pub correlation_id : String
  pub usd : Usd
  pub estimated : Bool
  pub created_at : Time

pub record AliasRow : Type 0 where
  pub run_id : String
  pub alias : String
  pub reservation_id : String
  pub source_event_id : String
  pub created_at : Time

-- The database.
pub record Tables : Type 0 where
  pub runs : List RunRow
  pub leases : List LeaseRow
  pub operations : List OperationRow
  pub reservations : List ReservationRow
  pub decisions : List DecisionRow
  pub lifecycle_events : List LifecycleEvent
  pub raw_usage : List UsageRow
  pub costs : List CostRow
  pub correlation_aliases : List AliasRow

abbrev pub empty : Tables
empty = record {
  runs = [];
  leases = [];
  operations = [];
  reservations = [];
  decisions = [];
  lifecycle_events = [];
  raw_usage = [];
  costs = [];
  correlation_aliases = [];
}

-- A duration of whole seconds.
abbrev pub seconds : ℕ → Time
seconds n = n * 1000000

abbrev between : ℕ → ℕ → ℕ → Bool
between lo hi c = leb lo c && leb c hi

abbrev pub is_alnum : ℕ → Bool
is_alnum c = between b'A' b'Z' c || between b'a' b'z' c || between b'0' b'9' c

abbrev is_identifier_char : ℕ → Bool
is_identifier_char c = is_alnum c || eqb c b'.' || eqb c b'_' || eqb c b'-'

abbrev matches_identifier : List ℕ → Bool
matches_identifier [] = false
matches_identifier (c ∷ cs) = is_alnum c && every is_identifier_char cs && leb (length cs) 127

-- `_IDENTIFIER.fullmatch(value)`
unfoldable pub is_identifier : String → Bool
is_identifier s = matches_identifier (codes s)
