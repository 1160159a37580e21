-- ===== src/Conductor/Store/Correlations.antt =====
-- `reservation` and `link_correlation` of codex-conductor/src/conductor/store.py: the names of a
-- reservation.
use agent_tooling.Prelude.{
  String, Bool, false, not, ◌&&◌, ◌||◌, Option, none, some, List, [], ◌∷◌, leb, if◌then◌else◌, ◌==◌,
  any, find, select,
}
use agent_tooling.Conductor.Schemas.{Time}
use agent_tooling.Conductor.Store.Result.{
  Result, ok, value_error, state_error, ◌>>=◌, ◌>>◌, raise_if, or_raise,
}
use agent_tooling.Conductor.Store.Tables.{ReservationRow, AliasRow, Tables, is_identifier}

abbrev pub alias_is : String → String → AliasRow → Bool
alias_is run_id alias a = a.run_id == run_id && a.alias == alias

abbrev pub alias_names : String → String → AliasRow → Bool
alias_names id key a = a.reservation_id == id && a.alias == key

-- A reservation that the key names: by id, task, correlation or alias.
unfoldable pub is_named : String → List AliasRow → ReservationRow → Bool
is_named key aliases r =
    r.reservation_id == key
    || r.task_id == key
    || (elim r.correlation_id [ none ↦ false | some c ↦ c == key ])
    || any (alias_names r.reservation_id key) aliases

abbrev pub newer : ReservationRow → Option ReservationRow → ReservationRow
newer r none = r
newer r (some other) = if leb other.created_at r.created_at then r else other

-- `ORDER BY created_at DESC LIMIT 1`, the newer insert first where the times are equal.
unfoldable pub latest : List ReservationRow → Option ReservationRow
latest [] = none
latest (r ∷ rs) = some (newer r (latest rs))

-- `reservation`, within a run.
unfoldable pub reservation : String → String → Tables → Result ReservationRow
unfolding is_named latest
reservation key run_id s =
    or_raise
      (latest
        (select (λ r. r.run_id == run_id && is_named key s.correlation_aliases r) s.reservations))
      state_error

abbrev pub event_alias_is : String → String → AliasRow → Bool
event_alias_is run_id event_id a = a.run_id == run_id && a.source_event_id == event_id

-- The rest of `link_correlation`, from the source reservation on.
unfoldable pub link_source :
    Time → String → String → String → ReservationRow → Tables → Result (ReservationRow × Tables)
link_source now run_id alias event_id source s =
    elim (find (alias_is run_id alias) s.correlation_aliases) [
      | some a ↦ (do
        raise_if (not (a.reservation_id == source.reservation_id)) state_error
        ok (source, s))
      | none ↦ elim (find (event_alias_is run_id event_id) s.correlation_aliases) [
        | some a ↦ (do
          raise_if (not (a.alias == alias) || not (a.reservation_id == source.reservation_id))
              state_error
          ok (source, s))
        | none ↦ ok (
          source,
          record s {
            correlation_aliases =
                record {
                  run_id = run_id;
                  alias = alias;
                  reservation_id = source.reservation_id;
                  source_event_id = event_id;
                  created_at = now;
                }
                ∷ s.correlation_aliases;
          },
        )
      ]
    ]

-- `link_correlation`
unfoldable pub link_correlation :
    Time → String → String → String → String → Tables → Result (ReservationRow × Tables)
unfolding link_source reservation
link_correlation now run_id source_correlation alias event_id s = do
  raise_if
      (not (
        is_identifier run_id
        && is_identifier source_correlation
        && is_identifier alias
        && is_identifier event_id))
      value_error
  source ← reservation source_correlation run_id s
  link_source now run_id alias event_id source s
