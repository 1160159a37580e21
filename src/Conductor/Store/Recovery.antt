-- ===== src/Conductor/Store/Recovery.antt =====
-- Recovery and deletion: what they refuse, what they change and what they leave alone.
use agent_tooling.Prelude.{
  ℕ, ◌≡◌, refl, String, Bool, true, false, not, ◌&&◌, List, [], ◌∷◌, arith, any, find, select,
  count_where, sum_where, ltb, ◌==◌, eq_iff,
}
use agent_tooling.Conductor.Schemas.{Time}
use agent_tooling.Conductor.Store.Result.{ok}
use agent_tooling.Conductor.Store.Tables.{
  LeaseRow, ReservationRow, CostRow, Tables, RunRow, is_identifier,
}
use agent_tooling.Conductor.Store.Snapshots.{cost_of, active_in, reserved_in}
use agent_tooling.Conductor.Store.Runs.{run_is, lease_is}
use agent_tooling.Conductor.Store.Reservations.Caps.{active, committed}
use agent_tooling.Conductor.Store.Maintenance.{cascade, delete_run, is_candidate, lease_live}

any-select-not :
    {A : Type 0} (p : A → Bool) (xs : List A) → any p (select (λ x. not (p x)) xs) ≡ false
any-select-not p [] = refl
any-select-not p (x ∷ xs) = ground (arith, any-select-not p xs)

-- No row of the run is left in any table.
pub record IsForgotten (run_id : String) (t : Tables) : Type 0 where
  pub runs : any (λ r. r.run_id == run_id) t.runs ≡ false
  pub leases : any (λ l. l.run_id == run_id) t.leases ≡ false
  pub operations : any (λ o. o.run_id == run_id) t.operations ≡ false
  pub reservations : any (λ r. r.run_id == run_id) t.reservations ≡ false
  pub decisions : any (λ d. d.run_id == run_id) t.decisions ≡ false
  pub lifecycle_events : any (λ e. e.run_id == run_id) t.lifecycle_events ≡ false
  pub raw_usage : any (λ u. u.run_id == run_id) t.raw_usage ≡ false
  pub costs : any (λ c. c.run_id == run_id) t.costs ≡ false
  pub correlation_aliases : any (λ a. a.run_id == run_id) t.correlation_aliases ≡ false

delete_run-eq-ok :
    (now : Time) (run_id : String) (s t : Tables)
    → delete_run now run_id s ≡ ok t
    → t ≡ cascade run_id s
unfolding delete_run
delete_run-eq-ok now run_id s t h = ground arith

cascade-IsForgotten : (run_id : String) (s : Tables) → IsForgotten run_id (cascade run_id s)
unfolding cascade
cascade-IsForgotten run_id s = record {
  runs = any-select-not (λ r. r.run_id == run_id) s.runs;
  leases = any-select-not (λ l. l.run_id == run_id) s.leases;
  operations = any-select-not (λ o. o.run_id == run_id) s.operations;
  reservations = any-select-not (λ r. r.run_id == run_id) s.reservations;
  decisions = any-select-not (λ d. d.run_id == run_id) s.decisions;
  lifecycle_events = any-select-not (λ e. e.run_id == run_id) s.lifecycle_events;
  raw_usage = any-select-not (λ u. u.run_id == run_id) s.raw_usage;
  costs = any-select-not (λ c. c.run_id == run_id) s.costs;
  correlation_aliases = any-select-not (λ a. a.run_id == run_id) s.correlation_aliases;
}

-- A row of another run is kept.
other_run : (a b c : String) → (a == b) ≡ false → (c == a) ≡ true → (c == b) ≡ false
other_run a b c different same = let equal : c ≡ a = (eq_iff c a).0 same in rw equal different

count_where-select-kept :
    {A : Type 0} (p q : A → Bool)
    → ((x : A) → p x ≡ true → q x ≡ true)
    → (xs : List A) → count_where p (select q xs) ≡ count_where p xs
count_where-select-kept p q keep [] = refl
count_where-select-kept p q keep (x ∷ xs) =
    let kx = keep x in ground (arith, count_where-select-kept p q keep xs, kx)

sum_where-select-kept :
    {A : Type 0} (p q : A → Bool) (f : A → ℕ)
    → ((x : A) → p x ≡ true → q x ≡ true)
    → (xs : List A) → sum_where p f (select q xs) ≡ sum_where p f xs
sum_where-select-kept p q f keep [] = refl
sum_where-select-kept p q f keep (x ∷ xs) =
    let kx = keep x in ground (arith, sum_where-select-kept p q f keep xs, kx)

cascade-others :
    (run_id other tier : String) (s : Tables)
    → (other == run_id) ≡ false
    → (active other tier (cascade run_id s) ≡ active other tier s)
      × (committed other (cascade run_id s) ≡ committed other s)
unfolding cascade
cascade-others run_id other tier s different =
    let slots : active other tier (cascade run_id s) ≡ active other tier s =
      count_where-select-kept (active_in other tier) (λ r. not (r.run_id == run_id))
        (λ r h. let away = other_run other run_id r.run_id different (ground arith) in ground arith)
        s.reservations in
    let spent =
      sum_where-select-kept (cost_of other) (λ c. not (c.run_id == run_id)) (λ (c : CostRow). c.usd)
        (λ c h. let away = other_run other run_id c.run_id different h in ground arith) s.costs in
    let held =
      sum_where-select-kept (reserved_in other) (λ r. not (r.run_id == run_id))
        (λ (r : ReservationRow). r.estimated_usd)
        (λ r h. let away = other_run other run_id r.run_id different (ground arith) in ground arith)
        s.reservations in
    (slots, ground (arith, spent, held))

-- A run that is deleted leaves no row in any table, and any other run keeps the slots that it
-- holds in each tier and the money that it has spent and reserved.
pub delete_run_isolates :
    (now : Time) (run_id : String) (s t : Tables) (other tier : String)
    → delete_run now run_id s ≡ ok t
    → (other == run_id) ≡ false
    → IsForgotten run_id t
      × ((active other tier t ≡ active other tier s) × (committed other t ≡ committed other s))
delete_run_isolates now run_id s t other tier h different =
    let same : t ≡ cascade run_id s = delete_run-eq-ok now run_id s t h in
    rw same (cascade-IsForgotten run_id s, cascade-others run_id other tier s different)

no_live_lease :
    (run_id : String) (now : Time) (leases : List LeaseRow)
    → any (λ (l : LeaseRow). l.run_id == run_id && ltb now l.expires_at) leases ≡ false
    → lease_live (find (lease_is run_id) leases) now ≡ false
no_live_lease run_id now [] h = refl
no_live_lease run_id now (l ∷ ls) h = ground (arith, no_live_lease run_id now ls)

-- A run of the table that `gc_candidates` selects is one that `delete_run` accepts at that time: it is
-- deleted with its rows, if its id is an identifier.
pub gc_candidate_deletable :
    (now older_than : Time) (r : RunRow) (s : Tables)
    → is_candidate now older_than s.leases r ≡ true
    → any (run_is r.run_id) s.runs ≡ true
    → is_identifier r.run_id ≡ true
    → delete_run now r.run_id s ≡ ok (cascade r.run_id s)
unfolding delete_run is_candidate
gc_candidate_deletable now older_than r s chosen known valid =
    let free = no_live_lease r.run_id now s.leases (ground (arith, chosen)) in
    rw (valid, free, known) refl
