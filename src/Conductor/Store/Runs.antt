-- ===== src/Conductor/Store/Runs.antt =====
-- Runs and their leases: `create_run` and `heartbeat_run` of codex-conductor/src/conductor/store.py.
use agent_tooling.Prelude.{
  ℕ, ◌+◌, String, Bool, not, List, ◌∷◌, ltb, eqb, if◌then◌else◌, ◌==◌, any, count_where,
  update_where,
}
use agent_tooling.Conductor.Schemas.{Provider, OperatingMode, Time}
use agent_tooling.Conductor.Store.Result.{Result, ok, value_error, state_error, ◌>>◌, raise_if}
use agent_tooling.Conductor.Store.Tables.{RunRow, LeaseRow, Tables, seconds, is_identifier}

abbrev pub run_is : String → RunRow → Bool
run_is run_id r = r.run_id == run_id

abbrev pub lease_is : String → LeaseRow → Bool
lease_is run_id l = l.run_id == run_id

-- `INSERT ... ON CONFLICT(run_id) DO UPDATE` on `runs`; `created_at` stays.
abbrev pub upsert_run : RunRow → List RunRow → List RunRow
upsert_run row runs =
    if any (run_is row.run_id) runs
    then update_where (run_is row.run_id) (λ r. record row { created_at = r.created_at }) runs
    else row ∷ runs

abbrev pub upsert_lease : LeaseRow → List LeaseRow → List LeaseRow
upsert_lease row leases =
    if any (lease_is row.run_id) leases
    then update_where (lease_is row.run_id) (λ _. row) leases
    else row ∷ leases

-- `create_run`, given the owner that it would default to the id of the process.
unfoldable pub create_run :
    Time → String → Provider → ℕ → OperatingMode → ℕ → String → Tables → Result Tables
create_run now run_id provider generation mode lease_seconds owner_id s = do
  raise_if (not (is_identifier run_id)) value_error
  raise_if (ltb lease_seconds 1) value_error
  ok (record s {
    runs =
        upsert_run
          (record {
            run_id = run_id;
            provider = provider;
            generation = generation;
            mode = mode;
            created_at = now;
            heartbeat_at = now;
          })
          s.runs;
    leases =
        upsert_lease
          (record {
            run_id = run_id;
            owner_id = owner_id;
            heartbeat_at = now;
            expires_at = now + seconds lease_seconds;
          })
          s.leases;
  })

-- `heartbeat_run`
unfoldable pub heartbeat_run : Time → String → ℕ → Tables → Result Tables
heartbeat_run now run_id lease_seconds s = do
  raise_if (not (eqb (count_where (lease_is run_id) s.leases) 1)) state_error
  ok (record s {
    leases =
        update_where (lease_is run_id)
          (λ l. record l { heartbeat_at = now; expires_at = now + seconds lease_seconds }) s.leases;
    runs = update_where (run_is run_id) (λ r. record r { heartbeat_at = now }) s.runs;
  })
