-- ===== src/Conductor/Store/Leases.antt =====
-- A run that a process has leased is kept: proofs on `create_run`, `heartbeat_run`, `delete_run` and
-- `gc_candidates` of codex-conductor/src/conductor/store.py.
use agent_tooling.Prelude.{
  ℕ, ◌+◌, ◌≡◌, refl, subst, ◌≢◌, ◌<◌, String, true, false, ◌&&◌, List, [], ◌∷◌, arith, any, find,
  count_where, update_where, ltb, eqb, Bool-cases, inl, inr, ◌==◌, eq_refl,
}
use agent_tooling.Conductor.Schemas.{Time, Provider, OperatingMode}
use agent_tooling.Conductor.Store.Result.{ok}
use agent_tooling.Conductor.Store.Tables.{LeaseRow, Tables, RunRow, seconds}
use agent_tooling.Conductor.Store.Runs.{lease_is, upsert_lease, create_run, heartbeat_run}
use agent_tooling.Conductor.Store.Maintenance.{delete_run, is_candidate, lease_live}

-- The calls that lease a run for some seconds from a time on.
pub data Leases (now : Time) (run_id : String) (lease_seconds : ℕ) (s t : Tables) : Type 0 where
  creates :
      (provider : Provider) (generation : ℕ) (mode : OperatingMode) (owner_id : String)
      → create_run now run_id provider generation mode lease_seconds owner_id s ≡ ok t
      → Leases now run_id lease_seconds s t
  renews : heartbeat_run now run_id lease_seconds s ≡ ok t → Leases now run_id lease_seconds s t

-- The lease of a run that is read has not expired at a time, and some lease of it has not.
record IsHeld (run_id : String) (now : Time) (leases : List LeaseRow) : Type 0 where
  found : lease_live (find (lease_is run_id) leases) now ≡ true
  some_live : any (λ (l : LeaseRow). l.run_id == run_id && ltb now l.expires_at) leases ≡ true

module _ (run_id : String) (later : Time) (f : LeaseRow → LeaseRow)
    (same : (l : LeaseRow) → (l.run_id == run_id) ≡ true → ((f l).run_id == run_id) ≡ true)
    (live : (l : LeaseRow) → ltb later (f l).expires_at ≡ true) where
  updated_live :
      (ls : List LeaseRow)
      → any (lease_is run_id) ls ≡ true
      → lease_live (find (lease_is run_id) (update_where (lease_is run_id) f ls)) later ≡ true
  updated_live [] h = absurd (ground arith)
  updated_live (l ∷ ls) h = ground (arith, same l, live l, updated_live ls)

  updated_some :
      (ls : List LeaseRow)
      → any (lease_is run_id) ls ≡ true
      → any
          (λ (l : LeaseRow). l.run_id == run_id && ltb later l.expires_at)
          (update_where (lease_is run_id) f ls)
        ≡ true
  updated_some [] h = absurd (ground arith)
  updated_some (l ∷ ls) h = ground (arith, same l, live l, updated_some ls)

  updated-IsHeld :
      (ls : List LeaseRow)
      → any (lease_is run_id) ls ≡ true
      → IsHeld run_id later (update_where (lease_is run_id) f ls)
  updated-IsHeld ls h = record { found = updated_live ls h; some_live = updated_some ls h }

counted_any :
    (run_id : String) (ls : List LeaseRow)
    → eqb (count_where (lease_is run_id) ls) 1 ≡ true
    → any (lease_is run_id) ls ≡ true
counted_any run_id [] h = absurd (ground arith)
counted_any run_id (l ∷ ls) h = ground (arith, counted_any run_id ls)

upsert_lease-IsHeld :
    (later : Time) (row : LeaseRow) (ls : List LeaseRow)
    → ltb later row.expires_at ≡ true
    → IsHeld row.run_id later (upsert_lease row ls)
upsert_lease-IsHeld later row ls live = elim (Bool-cases (any (lease_is row.run_id) ls)) [
  | inl e ↦
      rw e (updated-IsHeld row.run_id later (λ _. row) (λ l _. eq_refl row.run_id) (λ l. live) ls e)
  | inr e ↦ rw e (record {
    found = rw (eq_refl row.run_id) live;
    some_live = rw (eq_refl row.run_id, live) refl;
  })
]

Leases-IsHeld :
    (now later : Time) (run_id : String) (lease_seconds : ℕ) (s t : Tables)
    → Leases now run_id lease_seconds s t
    → later < now + seconds lease_seconds
    → IsHeld run_id later t.leases
unfolding create_run heartbeat_run
Leases-IsHeld now later run_id lease_seconds s t (creates provider generation mode owner_id h)
      before =
    let row : LeaseRow = record {
      run_id = run_id;
      owner_id = owner_id;
      heartbeat_at = now;
      expires_at = now + seconds lease_seconds;
    } in
    let same : upsert_lease row s.leases ≡ t.leases = ground arith in
    subst (IsHeld run_id later) same (upsert_lease-IsHeld later row s.leases (ground arith))
Leases-IsHeld now later run_id lease_seconds s t (renews h) before =
    let renewed : LeaseRow → LeaseRow =
      λ l. record l { heartbeat_at = now; expires_at = now + seconds lease_seconds } in
    let same : update_where (lease_is run_id) renewed s.leases ≡ t.leases = ground arith in
    subst (IsHeld run_id later) same (
      updated-IsHeld run_id later renewed (λ l h. h) (λ l. ground arith) s.leases
        (counted_any run_id s.leases (ground arith)))

-- A run that `create_run` or `heartbeat_run` has leased for some seconds cannot be deleted while they
-- last: as the tables are then, `delete_run` does not succeed, and `gc_candidates` selects no row of the
-- run, whatever the age that it asks for.
pub leased_run_kept :
    (now later older_than : Time) (run_id : String) (lease_seconds : ℕ) (s t : Tables)
    → Leases now run_id lease_seconds s t
    → later < now + seconds lease_seconds
    → ((u : Tables) → delete_run later run_id t ≢ ok u)
      × ((r : RunRow) → r.run_id ≡ run_id → is_candidate later older_than t.leases r ≡ false)
unfolding delete_run is_candidate
leased_run_kept now later older_than run_id lease_seconds s t leased before =
    let held = Leases-IsHeld now later run_id lease_seconds s t leased before in
    (λ u h. ground (arith, held.found), λ r e. rw e (ground (arith, held.some_live)))
