-- ===== src/Harness/Receipts.antt =====
-- `reconstruct_run` of agent-harness/src/agent_harness/receipts.py: what a resumed
-- run knows of the run before. An error is `none`.
pub mod Budget
pub mod Running
pub mod Resume
use agent_tooling.Prelude.{
  ℕ, ◌+◌, String, Bool, true, false, not, ◌&&◌, ◌||◌, Option, none, some, List, [], ◌∷◌, leb, eqb,
  any, update_where, if◌then◌else◌, ◌==◌,
}
use agent_tooling.Harness.Models.{
  CapacityPolicy, is_capacity, Participant, Body, run_started, run_resumed, run_completed,
  run_failed, run_aborted, participant_joined, spawn_requested, spawn_rejected,
  participant_admitted, participant_degraded, message_started, message_delta, message_completed,
  message_interrupted, interrupt_requested, interrupt_applied, Event,
}
use agent_tooling.Harness.Controller.{put}

pub data ParticipantState : Type 0 where
  active terminal : ParticipantState

-- `ReconstructedParticipant`
pub record ReconstructedParticipant : Type 0 where
  pub participant : Participant
  pub context : List String
  pub token_budget : ℕ

-- The variables of the loop.
pub record Scan : Type 0 where
  pub states : List (String × ParticipantState)
  pub participants : List ReconstructedParticipant
  pub consumed_token_budget : ℕ
  pub is_terminal : Bool
  pub previous_sequence : ℕ

abbrev is_state_of : String → String × ParticipantState → Bool
is_state_of id entry = entry.0 == id

abbrev mark : String → ParticipantState → Scan → Scan
mark id st s = record s { states = put (is_state_of id) (id, st) s.states }

abbrev is_snapshot_of : String → ReconstructedParticipant → Bool
is_snapshot_of id r = r.participant.participant_id == id

-- A participant that joins or is admitted, with its `_participant_snapshot`.
abbrev enter : ReconstructedParticipant → Scan → Scan
enter r s =
    if eqb r.participant.context_limit 0
    then mark r.participant.participant_id active s
    else record (mark r.participant.participant_id active s) {
      participants = put (is_snapshot_of r.participant.participant_id) r s.participants;
    }

-- `if event.actor in states`
abbrev mark_known : String → ParticipantState → Scan → Scan
mark_known id st s = if any (is_state_of id) s.states then mark id st s else s

-- What the kind of an event does to the scan.
unfoldable pub absorb : String → Body → Scan → Scan
absorb actor run_completed s = record s { is_terminal = true }
absorb actor run_failed s = record s { is_terminal = true }
absorb actor run_aborted s = record s { is_terminal = true }
absorb actor (participant_joined p) s =
    enter (record { participant = p; context = []; token_budget = 0 }) s
absorb actor (participant_admitted p request) s =
    record (enter
      (record { participant = p; context = request.context; token_budget = request.token_budget })
      s) { consumed_token_budget = s.consumed_token_budget + request.token_budget }
absorb actor (message_started m) s = mark_known actor active s
absorb actor (message_delta m) s = mark_known actor active s
absorb actor (message_completed m) s = mark_known actor terminal s
absorb actor (message_interrupted m) s = mark_known actor terminal s
absorb actor (participant_degraded id) s = mark_known id terminal s
absorb actor _ s = s

-- The loop over the events of a run.
unfoldable pub scan : String → List Event → Scan → Option Scan
unfolding absorb
scan run_id [] s = some s
scan run_id (e ∷ es) s =
    let rest =
      scan run_id es (absorb e.actor e.body (record s { previous_sequence = e.sequence })) in
    if not (e.run_id == run_id) || leb e.sequence s.previous_sequence then none else rest

pub record ReconstructedRun : Type 0 where
  pub run_id : String
  pub scanned : Scan
  pub capacity : CapacityPolicy
  pub total_token_budget : ℕ

abbrev pub start_scan : Scan
start_scan = record {
  states = [];
  participants = [];
  consumed_token_budget = 0;
  is_terminal = false;
  previous_sequence = 0;
}

abbrev pub rebuilt : String → CapacityPolicy → ℕ → Option Scan → Option ReconstructedRun
rebuilt run_id capacity total none = none
rebuilt run_id capacity total (some s) =
    some (record { run_id = run_id; scanned = s; capacity = capacity; total_token_budget = total })

unfoldable pub reconstruct_from : Body → String → List Event → Option ReconstructedRun
unfolding scan
reconstruct_from (run_started goal capacity total) run_id events =
    if is_capacity capacity
    then rebuilt run_id capacity total (scan run_id events start_scan)
    else none
reconstruct_from _ run_id events = none

-- `reconstruct_run`. Its `last_sequence` is the `previous_sequence` of the scan.
unfoldable pub reconstruct_run : List Event → Option ReconstructedRun
unfolding reconstruct_from
reconstruct_run [] = none
reconstruct_run (e ∷ es) = reconstruct_from e.body e.run_id (e ∷ es)
