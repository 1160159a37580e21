-- ===== src/Conductor/Accounting/Payload.antt =====
-- What a lifecycle hook says: the ids, the time and the kind of its end, in
-- codex-conductor/src/conductor/accounting.py.
use agent_tooling.Prelude.{
  ℕ, ◌+◌, String, Bool, true, false, ◌&&◌, ◌||◌, Option, none, some, List, [], ◌∷◌, leb, contains,
  codes, if◌then◌else◌, ◌==◌, eqb, map,
}
use agent_tooling.Conductor.Schemas.{
  Time, LifecycleKind, start, stop, cost, cancel, fail, PayloadValue, text,
}
use agent_tooling.Conductor.Store.Result.{Result, ok, raises, value_error, ◌>>=◌}
use agent_tooling.Conductor.Accounting.Usage.{Counts, Transcript}

-- A hook's payload: its texts, the event's name as `normalize_lifecycle_events` takes it, the time
-- (`none` where `_timestamp` raises), the `usage` if it is a dictionary, and its transcript.
pub record LifecycleHook : Type 0 where
  pub field : String → Option PayloadValue
  pub event_name : String
  pub time : Option Time
  pub usage : Option Counts
  pub transcript : Option Transcript

-- `_optional_string`, and the item that `_required_identifier` looks for.
abbrev pub nonempty : Option PayloadValue → Option String
nonempty (some (text s)) = if s == "" then none else some s
nonempty _ = none

abbrev pub or_next : Option String → Option String → Option String
or_next (some s) rest = some s
or_next none rest = rest

-- `next(item for name in names if ...)`
unfoldable pub first_text : List String → LifecycleHook → Option String
first_text [] h = none
first_text (name ∷ names) h = or_next (nonempty (h.field name)) (first_text names h)

abbrev or_missing {ℓ} : {A : Type ℓ} → Option A → Result A
or_missing none = raises value_error
or_missing (some a) = ok a

abbrev lower_code : ℕ → ℕ
lower_code c = if leb b'A' c && leb c b'Z' then c + 32 else c

abbrev same_codes : List ℕ → List ℕ → Bool
same_codes [] [] = true
same_codes (a ∷ cs) (b ∷ bs) = eqb a b && same_codes cs bs
same_codes _ _ = false

-- `lower()` as far as comparing with these words tells.
abbrev is_word : String → String → Bool
is_word word s = same_codes (codes word) (map lower_code (codes s))

-- Whether an event is one of `SubagentStop`, `SubagentFailure` and `SubagentCancel`, in both spellings.
abbrev is_stop_event : String → Bool
is_stop_event name = contains name ("SubagentStop" ∷ "subagent_stop" ∷ [])

abbrev is_fail_event : String → Bool
is_fail_event name = contains name ("SubagentFailure" ∷ "subagent_failure" ∷ [])

abbrev is_cancel_event : String → Bool
is_cancel_event name = contains name ("SubagentCancel" ∷ "subagent_cancel" ∷ [])

abbrev pub is_start_event : String → Bool
is_start_event name = contains name ("SubagentStart" ∷ "subagent_start" ∷ [])

abbrev pub is_terminal_event : String → Bool
is_terminal_event name = is_stop_event name || is_fail_event name || is_cancel_event name

abbrev status_is : String → Option String → Bool
status_is word none = false
status_is word (some s) = is_word word s

-- `_terminal_kind` of an event that is terminal: of those names only two hold "fail", and two "cancel".
unfoldable pub terminal_kind : String → Option String → LifecycleKind
terminal_kind name status =
    if is_fail_event name || status_is "failed" status || status_is "error" status
    then fail
    else if is_cancel_event name || status_is "cancelled" status || status_is "canceled" status
    then cancel
    else stop

abbrev pub kind_text : LifecycleKind → String
kind_text start = "start"
kind_text stop = "stop"
kind_text cost = "cost"
kind_text cancel = "cancel"
kind_text fail = "fail"

-- `model or parsed_model`
abbrev pub or_parsed : Option String → String → String
or_parsed (some m) parsed = m
or_parsed none parsed = parsed

abbrev pub closing_kind : LifecycleHook → LifecycleKind
closing_kind h = terminal_kind h.event_name (nonempty (h.field "status"))

-- The run, the correlation and the time of a hook.
pub record HookIds : Type 0 where
  pub run : String
  pub correlation : String
  pub at : Time

-- `_required_identifier` of the two ids, and the time.
unfoldable pub hook_ids : LifecycleHook → Result HookIds
hook_ids h = do
  run ← or_missing (first_text ("root_thread_id" ∷ "run_id" ∷ "session_id" ∷ []) h)
  correlation ← or_missing (
      first_text
        ("correlation_id" ∷ "tool_call_id" ∷ "lifecycle_id" ∷ "task_id" ∷ "thread_id" ∷ "agent_id"
          ∷ [])
        h)
  at ← or_missing h.time
  ok (record { run = run; correlation = correlation; at = at })
