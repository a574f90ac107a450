-- ===== src/Forms/Registry.antt =====
-- No version of a form type stands twice (src/omniclaw/db/repository.py, the writers of `form_types`).
use omni_claw.Prelude.{
  ℕ, suc, ◌≤◌, String, ◌≡◌, refl, ap, sym, subst, Bool, true, false, ◌&&◌, Option, none, List, [],
  ◌∷◌, ◌++◌, map, inl, inr, arith, eq_iff, length, length-append, first_where, where_true,
  where_true-append, where_true-none, update_first, Option-cases, Bool-cases, if◌then◌else◌,
}
use omni_claw.Forms.Json.{Members}
use omni_claw.Forms.Types.{
  FormTypeLifecycle, is_active, FormTypeDefinition, FormTypes, is_version, demote, set_state,
  remove_first, upsert_form_type_definition, set_form_type_lifecycle, delete_form_type_definition,
}
use omni_claw.Forms.Lifecycle.{UniqueVersions, demote-is_version}

-- A call of one of the methods that write the table.
pub data RegistryCall : Type 0 where
  upsert :
      String
      → String
      → FormTypeLifecycle
      → Members
      → Members
      → Option String
      → Option (List String)
      → RegistryCall
  set_lifecycle : String → String → FormTypeLifecycle → Option (List String) → Bool → RegistryCall
  delete : String → String → RegistryCall

abbrev pub call_registry : RegistryCall → FormTypes → FormTypes
call_registry (upsert k v s g m d e) table = (upsert_form_type_definition k v s g m d e table).1
call_registry (set_lifecycle k v s e others) table =
    (set_form_type_lifecycle k v s e others table).1
call_registry (delete k v) table = (delete_form_type_definition k v table).1

abbrev count : String → String → FormTypes → ℕ
count k v table = length (where_true (is_version k v) table)

abbrev KeepsVersion : (FormTypeDefinition → FormTypeDefinition) → Type 0
KeepsVersion f = (k v : String) (d : FormTypeDefinition) → is_version k v (f d) ≡ is_version k v d

count-update_first :
    (p : FormTypeDefinition → Bool) (f : FormTypeDefinition → FormTypeDefinition)
    → KeepsVersion f
    → (k v : String) (table : FormTypes) → count k v (update_first p f table) ≡ count k v table
count-update_first p f keeps k v [] = refl
count-update_first p f keeps k v (d ∷ table) = elim (Bool-cases (p d)) [
  | inl e ↦ elim (Bool-cases (is_version k v d)) [
    | inl own ↦ rw (e, keeps k v d, own) refl
    | inr foreign ↦ rw (e, keeps k v d, foreign) refl
  ]
  | inr e ↦ elim (Bool-cases (is_version k v d)) [
    | inl own ↦ rw (e, own) (ap (λ n. suc n) (count-update_first p f keeps k v table))
    | inr foreign ↦ rw (e, foreign) (count-update_first p f keeps k v table)
  ]
]

count-map :
    (f : FormTypeDefinition → FormTypeDefinition)
    → KeepsVersion f
    → (k v : String) (table : FormTypes) → count k v (map f table) ≡ count k v table
count-map f keeps k v [] = refl
count-map f keeps k v (d ∷ table) = elim (Bool-cases (is_version k v d)) [
  | inl own ↦ rw (keeps k v d, own) (ap (λ n. suc n) (count-map f keeps k v table))
  | inr foreign ↦ rw (keeps k v d, foreign) (count-map f keeps k v table)
]

count-remove_first :
    (p : FormTypeDefinition → Bool) (k v : String) (table : FormTypes)
    → count k v (remove_first p table) ≤ count k v table
count-remove_first p k v [] = omega arith
count-remove_first p k v (d ∷ table) = elim (Bool-cases (p d)) [
  | inl e ↦ elim (Bool-cases (is_version k v d)) [
    | inl own ↦ rw (e, own) (omega arith)
    | inr foreign ↦ rw (e, foreign) (omega arith)
  ]
  | inr e ↦ elim (Bool-cases (is_version k v d)) [
    | inl own ↦ rw (e, own) (omega (arith, count-remove_first p k v table))
    | inr foreign ↦ rw (e, foreign) (count-remove_first p k v table)
  ]
]

abbrev AtMostOne : String → String → FormTypes → Type 0
AtMostOne k v table = count k v table ≤ 1

-- A new version joins the table.
count-append :
    (d : FormTypeDefinition) (table : FormTypes)
    → first_where (is_version d.type_key d.version) table ≡ none
    → (j w : String) → AtMostOne j w table
    → AtMostOne j w (table ++ (d ∷ []))
count-append d table missing j w h =
    rw (where_true-append, length-append)
      (ground (
        arith,
        eq_iff d.type_key j,
        eq_iff d.version w,
        where_true-none (is_version d.type_key d.version) table missing,
      ))

upsert-AtMostOne :
    (k v : String) (s : FormTypeLifecycle) (g m : Members) (d : Option String)
    (e : Option (List String)) (table : FormTypes) (j w : String)
    → AtMostOne j w table
    → AtMostOne j w (upsert_form_type_definition k v s g m d e table).1
unfolding upsert_form_type_definition
upsert-AtMostOne k v s g m d e table j w h =
    elim (Option-cases (first_where (is_version k v) table)) [
      | inl missing ↦
          let row : FormTypeDefinition = record {
            type_key = k;
            version = v;
            lifecycle_state = s;
            description = d;
            workflow_graph = g;
            stage_metadata = m;
            validation_errors = e;
          } in
          let shape : (upsert_form_type_definition k v s g m d e table).1 ≡ table ++ (row ∷ []) =
            rw (missing, upsert_form_type_definition) refl in
          subst (AtMostOne j w) (sym shape) (count-append row table missing j w h)
      | inr (x, found) ↦
          let write : FormTypeDefinition → FormTypeDefinition = λ r. record r {
            lifecycle_state = s;
            description = d;
            workflow_graph = g;
            stage_metadata = m;
            validation_errors = e;
          } in
          let shape : (upsert_form_type_definition k v s g m d e table).1
              ≡ update_first (is_version k v) write table =
            rw (found, upsert_form_type_definition) refl in
          subst (AtMostOne j w) (sym shape)
            (omega (arith, h, count-update_first (is_version k v) write (λ a b c. refl) j w table))
    ]

set_lifecycle-AtMostOne :
    (k v : String) (s : FormTypeLifecycle) (e : Option (List String)) (others : Bool)
    (table : FormTypes) (j w : String)
    → AtMostOne j w table
    → AtMostOne j w (set_form_type_lifecycle k v s e others table).1
unfolding set_form_type_lifecycle
set_lifecycle-AtMostOne k v s e others table j w h =
    elim (Option-cases (first_where (is_version k v) table)) [
      | inl missing ↦
          let shape : (set_form_type_lifecycle k v s e others table).1 ≡ table =
            rw (missing, set_form_type_lifecycle) refl in
          subst (AtMostOne j w) (sym shape) h
      | inr (x, found) ↦
          let demoted = if others && is_active s then map (demote k v) table else table in
          let shape : (set_form_type_lifecycle k v s e others table).1
              ≡ update_first (is_version k v) (set_state s e) demoted =
            rw (found, set_form_type_lifecycle) refl in
          subst (AtMostOne j w) (sym shape) (
            omega (
              arith,
              h,
              count-update_first (is_version k v) (set_state s e) (λ a b c. refl) j w demoted,
              same_count (others && is_active s),
            ))
    ]
  where
    same_count :
        (b : Bool) → count j w (if b then map (demote k v) table else table) ≡ count j w table
    same_count true = count-map (demote k v) (demote-is_version k v) j w table
    same_count false = refl

delete-AtMostOne :
    (k v : String) (table : FormTypes) (j w : String)
    → AtMostOne j w table
    → AtMostOne j w (delete_form_type_definition k v table).1
unfolding delete_form_type_definition
delete-AtMostOne k v table j w h = elim (Option-cases (first_where (is_version k v) table)) [
  | inl missing ↦
      let shape : (delete_form_type_definition k v table).1 ≡ table =
        rw (missing, delete_form_type_definition) refl in
      subst (AtMostOne j w) (sym shape) h
  | inr (x, found) ↦
      let shape : (delete_form_type_definition k v table).1 ≡ remove_first (is_version k v) table =
        rw (found, delete_form_type_definition) refl in
      subst (AtMostOne j w) (sym shape)
        (omega (arith, h, count-remove_first (is_version k v) j w table))
]

-- Whatever is written to the registry, and whether it succeeds or not, no version of a form type
-- stands twice if none did before.
pub call_registry-UniqueVersions :
    (call : RegistryCall) (table : FormTypes)
    → UniqueVersions table
    → UniqueVersions (call_registry call table)
call_registry-UniqueVersions (upsert k v s g m d e) table h j w =
    upsert-AtMostOne k v s g m d e table j w (h j w)
call_registry-UniqueVersions (set_lifecycle k v s e others) table h j w =
    set_lifecycle-AtMostOne k v s e others table j w (h j w)
call_registry-UniqueVersions (delete k v) table h j w = delete-AtMostOne k v table j w (h j w)
