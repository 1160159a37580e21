-- ===== src/Conductor/Accounting/Hooks.antt =====
-- What a sequence of lifecycle hooks does to a reservation: proofs on
-- codex-conductor/src/conductor/accounting.py and store.py.
use agent_tooling.Prelude.{
  ◌≡◌, refl, ap, subst, String, Bool, true, false, not, ◌||◌, Option, none, List, [], ◌∷◌, ◌++◌,
  map, any, every, arith, if◌then◌else◌,
}
use agent_tooling.Conductor.Schemas.{
  Provider, ConductorConfig, Usd, LifecycleKind, start, cost, costed,
}
use agent_tooling.Conductor.Store.Result.{Result, ok, raises, ◌>>=◌, >>=-eq-ok}
use agent_tooling.Conductor.Store.Tables.{RawUsage, LifecycleEvent}
use agent_tooling.Conductor.Lifecycle.{follow, fresh}
use agent_tooling.Conductor.Lifecycle.Convergence.{
  is_start, is_stop, is_cost, is_normal, follow_converges,
}
use agent_tooling.Conductor.Accounting.Payload.{
  nonempty, or_next, LifecycleHook, is_start_event, closing_kind, hook_ids, HookIds,
}
use agent_tooling.Conductor.Accounting.{
  raw_usage, closing_events, terminal_events, events_under, normalize_lifecycle_events,
}

-- A call of `normalize_lifecycle_events`.
pub record HookReport : Type 0 where
  pub provider : Provider
  pub hook : LifecycleHook
  pub config : ConductorConfig
  pub model : Option String
  pub estimate : Usd

-- A hook is a start, or a stop that neither failed nor was cancelled.
abbrev pub is_start_hook : HookReport → Bool
is_start_hook r = is_start_event r.hook.event_name

abbrev pub is_end_hook : HookReport → Bool
is_end_hook r = not (is_start_event r.hook.event_name)

abbrev pub is_ordinary : HookReport → Bool
is_ordinary r = is_start_event r.hook.event_name || is_stop (closing_kind r.hook)

-- The kinds of the events of a hook.
abbrev hook_kinds : LifecycleHook → List LifecycleKind
hook_kinds h = if is_start_event h.event_name then start ∷ [] else closing_kind h ∷ cost ∷ []

abbrev all_kinds : List HookReport → List LifecycleKind
all_kinds [] = []
all_kinds (r ∷ rs) = hook_kinds r.hook ++ all_kinds rs

map-append :
    (xs ys : List LifecycleEvent)
    → map (λ e. e.kind) (xs ++ ys) ≡ map (λ e. e.kind) xs ++ map (λ e. e.kind) ys
map-append [] ys = refl
map-append (x ∷ xs) ys = ap (λ ks. x.kind ∷ ks) (map-append xs ys)

returned_kinds :
    (read : Result (Option RawUsage)) (close : Option RawUsage → List LifecycleEvent)
    (ks : List LifecycleKind) (es : List LifecycleEvent)
    → ((usage : Option RawUsage) → map (λ e. e.kind) (close usage) ≡ ks)
    → (read >>= λ usage. ok (close usage)) ≡ ok es
    → map (λ e. e.kind) es ≡ ks
returned_kinds (ok usage) close ks es kinds returned =
    let same : close usage ≡ es = cc in subst (λ es. map (λ e. e.kind) es ≡ ks) same (kinds usage)
returned_kinds (raises error) close ks es kinds returned = absurd (ground arith)

appended_kinds :
    (first rest : Result (List LifecycleEvent)) (ks ls : List LifecycleKind)
    (es : List LifecycleEvent)
    → ((xs : List LifecycleEvent) → first ≡ ok xs → map (λ e. e.kind) xs ≡ ks)
    → ((ys : List LifecycleEvent) → rest ≡ ok ys → map (λ e. e.kind) ys ≡ ls)
    → (first >>= λ xs. rest >>= λ ys. ok (xs ++ ys)) ≡ ok es
    → map (λ e. e.kind) es ≡ ks ++ ls
appended_kinds (ok xs) (ok ys) ks ls es first_kinds rest_kinds returned =
    let same : xs ++ ys ≡ es = cc in
    let one = first_kinds xs refl in
    let two = rest_kinds ys refl in let both = map-append xs ys in rw (← same, both, one, two) refl
appended_kinds (raises error) rest ks ls es first_kinds rest_kinds returned = absurd (ground arith)
appended_kinds (ok xs) (raises error) ks ls es first_kinds rest_kinds returned =
    absurd (ground arith)

module _ (sha256 : String → String) where
  -- The events of some hooks, one after the other; a hook that is refused ends them.
  unfoldable pub report_all : List HookReport → Result (List LifecycleEvent)
  report_all [] = ok []
  report_all (r ∷ rs) =
      normalize_lifecycle_events sha256 r.provider r.hook r.config r.model r.estimate >>= λ es.
      report_all rs >>= λ rest. ok (es ++ rest)

  terminal_kinds :
      (p : Provider) (h : LifecycleHook) (config : ConductorConfig) (model : Option String)
      (estimate : Usd) (ids : HookIds) (es : List LifecycleEvent)
      → terminal_events sha256 p h config model estimate ids ≡ ok es
      → map (λ e. e.kind) es ≡ closing_kind h ∷ cost ∷ []
  unfolding terminal_events closing_events
  terminal_kinds p h config model estimate ids es returned =
      returned_kinds
        (raw_usage sha256 p h (or_next (nonempty (h.field "model")) model) ids.correlation ids.at)
        (closing_events sha256 p h config estimate ids) _ es (λ usage. refl) returned

  under_kinds :
      (p : Provider) (h : LifecycleHook) (config : ConductorConfig) (model : Option String)
      (estimate : Usd) (ids : HookIds) (es : List LifecycleEvent)
      → events_under sha256 p h config model estimate ids ≡ ok es
      → map (λ e. e.kind) es ≡ hook_kinds h
  unfolding events_under
  under_kinds p h config model estimate ids es returned =
      ground (arith, terminal_kinds p h config model estimate ids es)

  normalize_kinds :
      (p : Provider) (h : LifecycleHook) (config : ConductorConfig) (model : Option String)
      (estimate : Usd) (es : List LifecycleEvent)
      → normalize_lifecycle_events sha256 p h config model estimate ≡ ok es
      → map (λ e. e.kind) es ≡ hook_kinds h
  unfolding normalize_lifecycle_events
  normalize_kinds p h config model estimate es returned =
      let (ids, _, under) =
        >>=-eq-ok (hook_ids h) (events_under sha256 p h config model estimate) returned in
      under_kinds p h config model estimate ids es under

  report_kinds :
      (rs : List HookReport) (es : List LifecycleEvent)
      → report_all rs ≡ ok es
      → map (λ e. e.kind) es ≡ all_kinds rs
  unfolding report_all
  report_kinds [] es returned = ground arith
  report_kinds (r ∷ rs) es returned =
      appended_kinds
        (normalize_lifecycle_events sha256 r.provider r.hook r.config r.model r.estimate)
        (report_all rs) (hook_kinds r.hook) (all_kinds rs) es
        (normalize_kinds r.provider r.hook r.config r.model r.estimate) (report_kinds rs) returned

-- Normal hooks make normal events.
normal_kinds :
    (rs : List HookReport) → every is_ordinary rs ≡ true → every is_normal (all_kinds rs) ≡ true
normal_kinds [] h = refl
normal_kinds (r ∷ rs) h = ground (arith, normal_kinds rs)

started_kinds :
    (rs : List HookReport) → any is_start_hook rs ≡ true → any is_start (all_kinds rs) ≡ true
started_kinds [] h = absurd (ground arith)
started_kinds (r ∷ rs) h = ground (arith, started_kinds rs)

stopped_kinds :
    (rs : List HookReport)
    → every is_ordinary rs ≡ true
    → any is_end_hook rs ≡ true
    → (any is_stop (all_kinds rs) ≡ true) × (any is_cost (all_kinds rs) ≡ true)
stopped_kinds [] n h = absurd (ground arith)
stopped_kinds (r ∷ rs) n h = ground (arith, stopped_kinds rs)

-- Whatever the order of the lifecycle hooks of a task whose reservation was approved, and however
-- often each of them is repeated: if none of them is refused, none reports a failure or a
-- cancellation, and a start and an end are among them, then the reservation ends costed and not
-- recoverable.
pub hooks_converge :
    (sha256 : String → String) (rs : List HookReport) (es : List LifecycleEvent)
    → report_all sha256 rs ≡ ok es
    → every is_ordinary rs ≡ true
    → any is_start_hook rs ≡ true
    → any is_end_hook rs ≡ true
    → follow fresh (map (λ e. e.kind) es) ≡ (costed, false, none)
hooks_converge sha256 rs es returned n hs he =
    let (stopped, costs) = stopped_kinds rs n he in
    rw (report_kinds sha256 rs es returned)
      (follow_converges (all_kinds rs) (normal_kinds rs n) (started_kinds rs hs) stopped costs)
