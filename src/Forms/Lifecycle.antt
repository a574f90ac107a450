-- ===== src/Forms/Lifecycle.antt =====
-- One active version of a form type (src/omniclaw/db/repository.py, `set_form_type_lifecycle`).
use omni_claw.Prelude.{
  ◌≤◌, String, ◌≡◌, refl, ap, ◌∙◌, true, false, Option, none, some, List, [], ◌∷◌, map, inl, inr,
  arith, length, first_where, where_true, update_first, Bool-cases, some_inj,
}
use omni_claw.Result.{done}
use omni_claw.Forms.Types.{
  active, FormTypeDefinition, FormTypes, is_version, is_active_of, get_form_type_definition, demote,
  set_state, set_form_type_lifecycle,
}

-- The unique constraint: no version stands twice under a key.
abbrev pub UniqueVersions : FormTypes → Type 0
UniqueVersions table = (k v : String) → length (where_true (is_version k v) table) ≤ 1

pub demote-is_version :
    (k v j w : String) (d : FormTypeDefinition) → is_version j w (demote k v d) ≡ is_version j w d
demote-is_version k v j w d = ground arith

-- Of the rows with the version, the first is active now; of those before it none is.
demoted-is_active_of :
    (k v : String) (d : FormTypeDefinition)
    → is_version k v d ≡ false
    → is_active_of k (demote k v d) ≡ false
demoted-is_active_of k v d h = ground arith

none_active :
    (k v : String) (table : FormTypes)
    → where_true (is_version k v) table ≡ []
    → where_true (is_active_of k) (map (demote k v) table) ≡ []
none_active k v [] h = refl
none_active k v (d ∷ table) h = elim (Bool-cases (is_version k v d)) [
  | inl e ↦ let f : d ∷ where_true (is_version k v) table ≡ [] = rw (e) at h in cc
  | inr e ↦ rw (demoted-is_active_of k v d e) (none_active k v table (rw (e) at h))
]

demote_same : (k v : String) (d : FormTypeDefinition) → is_version k v d ≡ true → demote k v d ≡ d
demote_same k v d h = ground arith

now_active :
    (k v : String) (errors : Option (List String)) (d : FormTypeDefinition)
    → is_version k v d ≡ true
    → is_active_of k (set_state active errors d) ≡ true
now_active k v errors d h = ground arith

no_more :
    (k v : String) (d : FormTypeDefinition) (table : FormTypes)
    → is_version k v d ≡ true
    → length (where_true (is_version k v) (d ∷ table)) ≤ 1
    → where_true (is_version k v) table ≡ []
no_more k v d table e h = is_nil (where_true (is_version k v) table) (rw (e) at h)
  where
    is_nil : (rest : FormTypes) → length (d ∷ rest) ≤ 1 → rest ≡ []
    is_nil [] le = refl
    is_nil (x ∷ rest) le = absurd (omega arith)

activated :
    (k v : String) (errors : Option (List String)) (d : FormTypeDefinition) (table : FormTypes)
    → length (where_true (is_version k v) table) ≤ 1
    → first_where (is_version k v) table ≡ some d
    → where_true
        (is_active_of k)
        (update_first (is_version k v) (set_state active errors) (map (demote k v) table))
      ≡ set_state active errors d ∷ []
activated k v errors d [] h e = cc
activated k v errors d (x ∷ table) h e = elim (Bool-cases (is_version k v x)) [
  | inl own ↦
      let same : some x ≡ some d = rw (own) at e in
      rw (demote_same k v x own, own, now_active k v errors x own)
        (ap (λ (t : FormTypes). set_state active errors x ∷ t)
            (none_active k v table (no_more k v x table own h))
          ∙ ap (λ y. set_state active errors y ∷ []) (some_inj same))
  | inr other ↦
      rw (demote-is_version k v k v x, other, demoted-is_active_of k v x other)
        (activated k v errors d table (rw (other) at h) (rw (other) at e))
]

first_of_rows :
    (k : String) (table : FormTypes) (d : FormTypeDefinition)
    → where_true (is_active_of k) table ≡ d ∷ []
    → get_form_type_definition k none true table ≡ some d
unfolding get_form_type_definition
first_of_rows k [] d h = cc
first_of_rows k (x ∷ table) d h = elim (Bool-cases (is_active_of k x)) [
  | inl e ↦
      let same : x ∷ where_true (is_active_of k) table ≡ d ∷ [] = rw (e) at h in
      rw (e) (ap some (head_inj same))
  | inr e ↦ rw (e) (first_of_rows k table d (rw (e) at h))
]
  where
    head_inj : {a b : FormTypeDefinition} {r t : FormTypes} → a ∷ r ≡ b ∷ t → a ≡ b
    head_inj e = cc

-- Activating a version that is there, with the others deactivated, succeeds; then this version is the
-- one active row of its type, and it is what a new form of the type is made from.
pub set_form_type_lifecycle-active :
    (k v : String) (errors : Option (List String)) (table : FormTypes) (d : FormTypeDefinition)
    → UniqueVersions table
    → first_where (is_version k v) table ≡ some d
    → let (result, table') = set_form_type_lifecycle k v active errors true table in
      let now = set_state active errors d in
      (result ≡ done now)
      × (where_true (is_active_of k) table' ≡ now ∷ [])
      × (get_form_type_definition k none true table' ≡ some now)
unfolding set_form_type_lifecycle
set_form_type_lifecycle-active k v errors table d unique found =
    let rows = activated k v errors d table (unique k v) found in
    rw (found, set_form_type_lifecycle) (refl, rows, first_of_rows k _ _ rows)
