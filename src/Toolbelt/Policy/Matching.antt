-- ===== src/Toolbelt/Policy/Matching.antt =====
-- How toolbelt/src/toolbelt/policy.py finds the evidence that a tool of the catalog asks for.
use Prim.Native.String.{◌++◌}
use agent_tooling.Prelude.{
  ◌≡◌, refl, String, Bool, true, false, not, ◌&&◌, Option, none, some, List, [], ◌∷◌, arith, any,
  find_last, if◌then◌else◌, ◌==◌, text_leb, Option-cases, inl, inr,
}
use agent_tooling.Toolbelt.Schemas.{Evidence, EvidenceStrength, weak}

-- `f"{item.type}:{item.key}"`
abbrev pub match_key : Evidence → String
match_key item = item.kind ++ ":" ++ item.key

-- `by_match_key.get(key)`: the last item of a key is the one that the dictionary keeps.
unfoldable pub evidence_at : String → List Evidence → Option Evidence
evidence_at key = find_last (λ item. match_key item == key)

abbrev take_if : (EvidenceStrength → Bool) → Option Evidence → List Evidence → List Evidence
take_if admits none rest = rest
take_if admits (some item) rest = if admits item.strength then item ∷ rest else rest

-- `_matched`
unfoldable pub matched : List String → List Evidence → (EvidenceStrength → Bool) → List Evidence
matched [] items admits = []
matched (key ∷ keys) items admits =
    take_if admits (evidence_at key items) (matched keys items admits)

abbrev pub is_weak : EvidenceStrength → Bool
is_weak weak = true
is_weak _ = false

abbrev pub is_strong : EvidenceStrength → Bool
is_strong s = not (is_weak s)

abbrev pub is_any : EvidenceStrength → Bool
is_any s = true

-- `(item.type, item.key, item.source, item.detail)`
abbrev pub identity : Evidence → List String
identity item = item.kind ∷ item.key ∷ item.source ∷ item.detail ∷ []

abbrev same_identity : List String → List String → Bool
same_identity [] [] = true
same_identity (a ∷ cs) (b ∷ bs) = a == b && same_identity cs bs
same_identity _ _ = false

-- `<=` on tuples of texts.
abbrev pub identity_leb : List String → List String → Bool
identity_leb [] bs = true
identity_leb (a ∷ cs) [] = false
identity_leb (a ∷ cs) (b ∷ bs) = if a == b then identity_leb cs bs else text_leb a b

-- An assignment to `matched_by_key`, whose keys are kept in their order.
unfoldable pub assign : Evidence → List Evidence → List Evidence
assign item [] = item ∷ []
assign item (other ∷ others) =
    let later = assign item others in
    if same_identity (identity item) (identity other)
    then item ∷ others
    else if identity_leb (identity item) (identity other)
    then item ∷ other ∷ others
    else other ∷ later

-- `tuple(matched_by_key[key] for key in sorted(matched_by_key))`
unfoldable pub in_key_order : List Evidence → List Evidence → List Evidence
in_key_order sorted [] = sorted
in_key_order sorted (item ∷ items) = in_key_order (assign item sorted) items

abbrev pub is_nil {ℓ} : {A : Type ℓ} → List A → Bool
is_nil [] = true
is_nil (x ∷ xs) = false

abbrev pub has_strength : (EvidenceStrength → Bool) → Option Evidence → Bool
has_strength admits none = false
has_strength admits (some item) = admits item.strength

-- Some evidence was matched just where the inventory has an admitted item for one of the keys.
pub matched_nonempty :
    (keys : List String) (items : List Evidence) (admits : EvidenceStrength → Bool)
    → is_nil (matched keys items admits)
      ≡ not (any (λ key. has_strength admits (evidence_at key items)) keys)
unfolding matched
matched_nonempty [] items admits = refl
matched_nonempty (key ∷ keys) items admits = elim (Option-cases (evidence_at key items)) [
  | inl e ↦ rw e (matched_nonempty keys items admits)
  | inr (item, e) ↦ rw e (ground (arith, matched_nonempty keys items admits))
]
