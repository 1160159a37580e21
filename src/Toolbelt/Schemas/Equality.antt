-- ===== src/Toolbelt/Schemas/Equality.antt =====
-- `==` on the values that toolbelt compares, and that it decides equality.
use agent_tooling.Prelude.{
  ℕ, ◌≡◌, refl, ap, String, Bool, true, false, ◌&&◌, Option, none, some, List, [], ◌∷◌, arith, eqb,
  get_elem?, ◌==◌, eq_iff, eq_refl,
}
use agent_tooling.Toolbelt.Schemas.{
  Permission, network, filesystem_read, filesystem_write, process_spawn, browser_control,
  shell_exec, credentials_read, no_permission, InstallScope, project, user, repo_committed,
  ActionStep,
}

module _ {ℓ} {A : Type ℓ} (same : A → A → Bool) where
  abbrev pub same_list : List A → List A → Bool
  same_list [] [] = true
  same_list [] (y ∷ ys) = false
  same_list (x ∷ xs) [] = false
  same_list (x ∷ xs) (y ∷ ys) = same x y && same_list xs ys

  abbrev pub same_option : Option A → Option A → Bool
  same_option none none = true
  same_option none (some y) = false
  same_option (some x) none = false
  same_option (some x) (some y) = same x y

  module _ (same_refl : (x : A) → same x x ≡ true) where
    pub same_list_refl : (xs : List A) → same_list xs xs ≡ true
    same_list_refl [] = refl
    same_list_refl (x ∷ xs) = rw (same_refl x) (same_list_refl xs)

    pub same_option_refl : (o : Option A) → same_option o o ≡ true
    same_option_refl none = refl
    same_option_refl (some x) = same_refl x

  module _ (same_eq : (x y : A) → same x y ≡ true → x ≡ y) where
    pub same_list_eq : (xs ys : List A) → same_list xs ys ≡ true → xs ≡ ys
    same_list_eq [] [] h = refl
    same_list_eq [] (y ∷ ys) h = absurd (ground arith)
    same_list_eq (x ∷ xs) [] h = absurd (ground arith)
    same_list_eq (x ∷ xs) (y ∷ ys) h =
        ground (arith, same_eq x y (ground arith), same_list_eq xs ys (ground arith))

    pub same_option_eq : (o p : Option A) → same_option o p ≡ true → o ≡ p
    same_option_eq none none h = refl
    same_option_eq none (some y) h = absurd (ground arith)
    same_option_eq (some x) none h = absurd (ground arith)
    same_option_eq (some x) (some y) h = ap some (same_eq x y h)

abbrev permission_code : Permission → ℕ
permission_code network = 0
permission_code filesystem_read = 1
permission_code filesystem_write = 2
permission_code process_spawn = 3
permission_code browser_control = 4
permission_code shell_exec = 5
permission_code credentials_read = 6
permission_code no_permission = 7

abbrev all_permissions : List Permission
all_permissions =
    network ∷ filesystem_read ∷ filesystem_write ∷ process_spawn ∷ browser_control ∷ shell_exec
    ∷ credentials_read ∷ no_permission ∷ []

abbrev permission_at : ℕ → Option Permission
permission_at = get_elem? all_permissions

abbrev pub same_permission : Permission → Permission → Bool
same_permission p q = eqb (permission_code p) (permission_code q)

abbrev pub same_scope : InstallScope → InstallScope → Bool
same_scope project project = true
same_scope user user = true
same_scope repo_committed repo_committed = true
same_scope _ _ = false

abbrev same_bool : Bool → Bool → Bool
same_bool true b = b
same_bool false true = false
same_bool false false = true

abbrev pub same_step : ActionStep → ActionStep → Bool
same_step s t =
    same_list (λ a b. a == b) s.argv t.argv
    && same_option (λ a b. a == b) s.cwd t.cwd
    && eqb s.timeout t.timeout
    && same_bool s.requires_network t.requires_network
    && same_bool s.requires_elevation t.requires_elevation

permission_at_code : (p : Permission) → permission_at (permission_code p) ≡ some p
permission_at_code network = refl
permission_at_code filesystem_read = refl
permission_at_code filesystem_write = refl
permission_at_code process_spawn = refl
permission_at_code browser_control = refl
permission_at_code shell_exec = refl
permission_at_code credentials_read = refl
permission_at_code no_permission = refl

codes_agree :
    (p q : Permission) → same_permission p q ≡ true → permission_code p ≡ permission_code q
codes_agree p q h = ground arith

same_permission_eq : (p q : Permission) → same_permission p q ≡ true → p ≡ q
same_permission_eq p q h =
    ground (arith, permission_at_code p, permission_at_code q, ap permission_at (codes_agree p q h))

same_permission_refl : (p : Permission) → same_permission p p ≡ true
same_permission_refl p = ground arith

pub same_scope_eq : (p q : InstallScope) → same_scope p q ≡ true → p ≡ q
same_scope_eq project project h = refl
same_scope_eq user user h = refl
same_scope_eq repo_committed repo_committed h = refl
same_scope_eq project user h = absurd (ground arith)
same_scope_eq project repo_committed h = absurd (ground arith)
same_scope_eq user project h = absurd (ground arith)
same_scope_eq user repo_committed h = absurd (ground arith)
same_scope_eq repo_committed project h = absurd (ground arith)
same_scope_eq repo_committed user h = absurd (ground arith)

pub same_scope_refl : (p : InstallScope) → same_scope p p ≡ true
same_scope_refl project = refl
same_scope_refl user = refl
same_scope_refl repo_committed = refl

abbrev pub same_permissions : List Permission → List Permission → Bool
same_permissions = same_list same_permission

abbrev pub same_texts : List String → List String → Bool
same_texts = same_list (λ a b. a == b)

abbrev pub same_steps : List ActionStep → List ActionStep → Bool
same_steps = same_list same_step

pub same_permissions_eq : (ps qs : List Permission) → same_permissions ps qs ≡ true → ps ≡ qs
same_permissions_eq = same_list_eq same_permission same_permission_eq

pub same_permissions_refl : (ps : List Permission) → same_permissions ps ps ≡ true
same_permissions_refl = same_list_refl same_permission same_permission_refl

pub same_texts_eq : (xs ys : List String) → same_texts xs ys ≡ true → xs ≡ ys
same_texts_eq = same_list_eq (λ a b. a == b) (λ a b. (eq_iff a b).0)

pub same_texts_refl : (xs : List String) → same_texts xs xs ≡ true
same_texts_refl = same_list_refl (λ a b. a == b) eq_refl

same_bool_refl : (b : Bool) → same_bool b b ≡ true
same_bool_refl true = refl
same_bool_refl false = refl

same_bool_eq : (a b : Bool) → same_bool a b ≡ true → a ≡ b
same_bool_eq true true h = refl
same_bool_eq true false h = absurd (ground arith)
same_bool_eq false true h = absurd (ground arith)
same_bool_eq false false h = refl

same_step_refl : (s : ActionStep) → same_step s s ≡ true
same_step_refl s =
    rw (same_texts_refl s.argv, same_option_refl (λ a b. a == b) eq_refl s.cwd)
      (ground (arith, same_bool_refl s.requires_network, same_bool_refl s.requires_elevation))

same_step_eq : (s t : ActionStep) → same_step s t ≡ true → s ≡ t
same_step_eq s t h = ground (
  arith,
  same_texts_eq s.argv t.argv (ground arith),
  same_option_eq (λ a b. a == b) (λ a b. (eq_iff a b).0) s.cwd t.cwd (ground arith),
  same_bool_eq s.requires_network t.requires_network (ground arith),
  same_bool_eq s.requires_elevation t.requires_elevation (ground arith),
)

pub same_steps_refl : (ss : List ActionStep) → same_steps ss ss ≡ true
same_steps_refl = same_list_refl same_step same_step_refl

pub same_steps_eq : (ss ts : List ActionStep) → same_steps ss ts ≡ true → ss ≡ ts
same_steps_eq = same_list_eq same_step same_step_eq
