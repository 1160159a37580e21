-- ===== src/Harness/Log.antt =====
-- `EventStore` of agent-harness/src/agent_harness/store.py: the `events` table, the newest row first.
use agent_tooling.Prelude.{
  ℕ, ◌+◌, ◌≤◌, ◌≡◌, refl, ap, String, Bool, true, false, List, [], ◌∷◌, ◌++◌, arith, leb, every,
  ◌==◌, eq_refl, if◌then◌else◌, Bool-cases, inl, inr,
}
use agent_tooling.Harness.Models.{Event}

abbrev pub of_run : String → Event → Bool
of_run run_id e = e.run_id == run_id

abbrev higher : ℕ → ℕ → ℕ
higher a b = if leb a b then b else a

-- `COALESCE(MAX(sequence), 0)` of a run
abbrev pub max_sequence : String → List Event → ℕ
max_sequence run_id [] = 0
max_sequence run_id (e ∷ es) =
    let rest = max_sequence run_id es in if of_run run_id e then higher e.sequence rest else rest

-- `replace(event, sequence=...)`
abbrev pub numbered : Event → List Event → Event
numbered e log = record e { sequence = max_sequence e.run_id log + 1 }

-- `EventStore.append`
unfoldable pub append : Event → List Event → List Event
append e log = numbered e log ∷ log

-- `ORDER BY sequence`
abbrev pub insert : Event → List Event → List Event
insert e [] = e ∷ []
insert e (x ∷ xs) = if leb x.sequence e.sequence then x ∷ insert e xs else e ∷ x ∷ xs

-- `EventStore.replay`
unfoldable pub replay : String → List Event → List Event
replay run_id [] = []
replay run_id (e ∷ log) =
    let rest = replay run_id log in if of_run run_id e then insert e rest else rest

abbrev pub up_to : ℕ → List Event → Bool
up_to m xs = every (λ (x : Event). leb x.sequence m) xs

up_to-insert :
    (m : ℕ) (e : Event) (xs : List Event)
    → leb e.sequence m ≡ true
    → up_to m xs ≡ true
    → up_to m (insert e xs) ≡ true
up_to-insert m e [] he h = ground arith
up_to-insert m e (x ∷ xs) he h = ground (arith, up_to-insert m e xs)

up_to-weaken : (m n : ℕ) (xs : List Event) → m ≤ n → up_to m xs ≡ true → up_to n xs ≡ true
up_to-weaken m n [] le h = refl
up_to-weaken m n (x ∷ xs) le h = ground (arith, up_to-weaken m n xs)

pub replay-up_to :
    (run_id : String) (log : List Event)
    → up_to (max_sequence run_id log) (replay run_id log) ≡ true
unfolding replay
replay-up_to run_id [] = refl
replay-up_to run_id (e ∷ log) =
    let ih = replay-up_to run_id log in
    let m : ℕ = max_sequence run_id log in
    let top : ℕ = higher e.sequence m in
    let wide : up_to top (replay run_id log) ≡ true =
      up_to-weaken m top (replay run_id log) (ground arith) ih in
    let put : up_to top (insert e (replay run_id log)) ≡ true =
      up_to-insert top e (replay run_id log) (ground arith) wide in
    elim (Bool-cases (of_run run_id e)) [ inl yes_run ↦ rw yes_run put | inr no_run ↦ rw no_run ih ]

insert-last :
    (e : Event) (xs : List Event) → up_to e.sequence xs ≡ true → insert e xs ≡ xs ++ (e ∷ [])
insert-last e [] h = refl
insert-last e (x ∷ xs) h =
    let here : leb x.sequence e.sequence ≡ true = ground arith in
    rw here (ap (λ ys. x ∷ ys) (insert-last e xs (ground arith)))

-- Whatever the table holds, an event that is appended is replayed last in its run, with the next
-- sequence number, and the events before it are replayed as they were.
pub replay-append :
    (e : Event) (log : List Event)
    → replay e.run_id (append e log) ≡ replay e.run_id log ++ (numbered e log ∷ [])
unfolding replay append
replay-append e log =
    let m : ℕ = max_sequence e.run_id log in
    let low : up_to (m + 1) (replay e.run_id log) ≡ true =
      up_to-weaken m (m + 1) (replay e.run_id log) (omega arith) (replay-up_to e.run_id log) in
    rw (eq_refl e.run_id) (insert-last (numbered e log) (replay e.run_id log) low)

-- No other run sees it.
pub replay_others :
    (e : Event) (log : List Event) (run_id : String)
    → (e.run_id == run_id) ≡ false
    → replay run_id (append e log) ≡ replay run_id log
unfolding replay append
replay_others e log run_id other = rw other refl
