-- ===== src/Harness/Models.antt =====
-- The contracts of agent-harness/src/agent_harness/models.py. The payload of an event is typed by its
-- kind, where the source has a JSON mapping with the same keys; the time of an event is left out.
use agent_tooling.Prelude.{
  codes, ℕ, String, Bool, false, not, ◌&&◌, ◌||◌, Option, List, [], ◌∷◌, eqb, leb, any, every,
  length, if◌then◌else◌,
}
use agent_tooling.Conductor.Store.Tables.{is_alnum}

abbrev is_path_char : ℕ → Bool
is_path_char c = is_alnum c || eqb c b'.' || eqb c b'_' || eqb c b'/' || eqb c b'-'

abbrev matches_path : List ℕ → Bool
matches_path [] = false
matches_path (c ∷ cs) = is_alnum c && every is_path_char cs && leb (length cs) 255

abbrev onto_first : ℕ → List (List ℕ) → List (List ℕ)
onto_first c [] = (c ∷ []) ∷ []
onto_first c (xs ∷ rest) = (c ∷ xs) ∷ rest

-- `value.split("/")`
abbrev pub split_slash : List ℕ → List (List ℕ)
split_slash [] = [] ∷ []
split_slash (c ∷ cs) =
    let rest = split_slash cs in if eqb c b'/' then [] ∷ rest else onto_first c rest

-- `== ".."`
abbrev is_dotdot : List ℕ → Bool
is_dotdot (a ∷ b ∷ []) = eqb a b'.' && eqb b b'.'
is_dotdot _ = false

-- `_identifier`: false where it raises.
unfoldable pub is_path : String → Bool
is_path s = matches_path (codes s) && not (any is_dotdot (split_slash (codes s)))

pub record Participant : Type 0 where
  pub participant_id : String
  pub adapter : String
  pub model : String
  pub roles : List String
  pub context_limit : ℕ
  pub parent_id : Option String

-- `Participant.__post_init__`
unfoldable pub is_participant : Participant → Bool
is_participant p = is_path p.participant_id && not (eqb p.context_limit 0)

-- `CapacityPolicy`
pub record CapacityPolicy : Type 0 where
  pub max_participants : ℕ
  pub max_dynamic_children : ℕ
  pub max_children_per_parent : ℕ
  pub max_spawn_depth : ℕ
  pub max_simultaneous_speakers : ℕ

-- `CapacityPolicy.__post_init__`
unfoldable pub is_capacity : CapacityPolicy → Bool
is_capacity c = not (eqb c.max_participants 0) && not (eqb c.max_simultaneous_speakers 0)

-- `ChildRequest`. A budget that is not positive is 0.
pub record ChildRequest : Type 0 where
  pub role : String
  pub objective : String
  pub context : List String
  pub token_budget : ℕ

abbrev is_space : ℕ → Bool
is_space c =
    eqb c 32
    || (leb 9 c && leb c 13)
    || (leb 28 c && leb c 31)
    || eqb c 133
    || eqb c 160
    || eqb c 5760
    || (leb 8192 c && leb c 8202)
    || (leb 8232 c && leb c 8233)
    || eqb c 8239
    || eqb c 8287
    || eqb c 12288

-- `ChildRequest.__post_init__`; `strip` removes the characters for which `str.isspace` holds.
unfoldable pub is_child_request : ChildRequest → Bool
is_child_request r =
    is_path r.role && any (λ c. not (is_space c)) (codes r.objective) && not (eqb r.token_budget 0)

-- The reasons that `spawn_child` rejects a request for.
pub data Reason : Type 0 where
  unknown_parent participants_exceeded dynamic_children_exceeded : Reason
  children_per_parent_exceeded depth_exceeded token_budget_exceeded factory_unavailable : Reason

-- The kind of an event, with its payload.
pub data Body : Type 0 where
  run_started : String → CapacityPolicy → ℕ → Body
  run_resumed : String → Body
  run_completed run_failed run_aborted : Body
  participant_joined : Participant → Body
  spawn_requested : String → ChildRequest → Body
  spawn_rejected : String → String → Reason → Body
  participant_admitted : Participant → ChildRequest → Body
  participant_degraded : String → Body
  message_started message_delta message_completed message_interrupted : String → Body
  interrupt_requested : String → Body
  interrupt_applied : String → Bool → Body

pub record Event : Type 0 where
  pub run_id : String
  pub sequence : ℕ
  pub actor : String
  pub body : Body
