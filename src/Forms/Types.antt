-- ===== src/Forms/Types.antt =====
-- The table `form_types`: the versions of each type of form, and their lifecycle
-- (src/omniclaw/db/repository.py).
use omni_claw.Prelude.{
  String, str_append, Bool, true, false, ◌&&◌, not, Option, none, some, List, [], ◌∷◌, ◌++◌, map,
  str_eq, first_where, update_first, if◌then◌else◌,
}
use omni_claw.Result.{Result, raise, done, value_error}
use omni_claw.Forms.Json.{Members}

pub data FormTypeLifecycle : Type 0 where
  draft validated active deprecated : FormTypeLifecycle

abbrev pub is_active : FormTypeLifecycle → Bool
is_active active = true
is_active _ = false

-- The JSON columns are kept decoded.
pub record FormTypeDefinition : Type 0 where
  pub type_key : String
  pub version : String
  pub lifecycle_state : FormTypeLifecycle
  pub description : Option String
  pub workflow_graph : Members
  pub stage_metadata : Members
  pub validation_errors : Option (List String)

abbrev pub FormTypes : Type 0
FormTypes = List FormTypeDefinition

abbrev pub of_key : String → FormTypeDefinition → Bool
of_key type_key d = str_eq d.type_key type_key

abbrev pub is_version : String → String → FormTypeDefinition → Bool
is_version type_key version d = of_key type_key d && str_eq d.version version

abbrev pub is_active_of : String → FormTypeDefinition → Bool
is_active_of type_key d = of_key type_key d && is_active d.lifecycle_state

unfoldable pub upsert_form_type_definition :
    String
    → String
    → FormTypeLifecycle
    → Members
    → Members
    → Option String
    → Option (List String)
    → FormTypes
    → FormTypeDefinition × FormTypes
upsert_form_type_definition type_key version state graph stages description errors table =
    let write : FormTypeDefinition → FormTypeDefinition = λ d. record d {
      lifecycle_state = state;
      description = description;
      workflow_graph = graph;
      stage_metadata = stages;
      validation_errors = errors;
    } in
    elim (first_where (is_version type_key version) table) [
      | none ↦
          let d : FormTypeDefinition = record {
            type_key = type_key;
            version = version;
            lifecycle_state = state;
            description = description;
            workflow_graph = graph;
            stage_metadata = stages;
            validation_errors = errors;
          } in
          (d, table ++ (d ∷ []))
      | some d ↦ (write d, update_first (is_version type_key version) write table)
    ]

-- The filters of `get_form_type_definition`.
abbrev of_version : Option String → FormTypeDefinition → Bool
of_version none d = true
of_version (some version) d = str_eq d.version version

abbrev passes_active : Bool → FormTypeDefinition → Bool
passes_active true d = is_active d.lifecycle_state
passes_active false d = true

unfoldable pub get_form_type_definition :
    String → Option String → Bool → FormTypes → Option FormTypeDefinition
get_form_type_definition type_key version active_only table =
    first_where (λ d. of_key type_key d && (of_version version d && passes_active active_only d))
      table

-- The other active versions of the type go back to `VALIDATED`.
abbrev pub demote : String → String → FormTypeDefinition → FormTypeDefinition
demote type_key version d =
    if of_key type_key d && (not (str_eq d.version version) && is_active d.lifecycle_state)
    then record d { lifecycle_state = validated }
    else d

abbrev pub set_state :
    FormTypeLifecycle → Option (List String) → FormTypeDefinition → FormTypeDefinition
set_state state errors d = record d { lifecycle_state = state; validation_errors = errors }

abbrev not_found : String → String → String
not_found type_key version =
    str_append "form type '"
      (str_append type_key (str_append "' version '" (str_append version "' not found")))

unfoldable pub set_form_type_lifecycle :
    String
    → String
    → FormTypeLifecycle
    → Option (List String)
    → Bool
    → FormTypes
    → Result FormTypeDefinition × FormTypes
set_form_type_lifecycle type_key version state errors deactivate_others table =
    elim (first_where (is_version type_key version) table) [
      | none ↦ (raise (value_error (not_found type_key version)), table)
      | some d ↦
          let others =
            if deactivate_others && is_active state
            then map (demote type_key version) table
            else table in
          (
            done (set_state state errors d),
            update_first (is_version type_key version) (set_state state errors) others,
          )
    ]

abbrev pub remove_first : (FormTypeDefinition → Bool) → FormTypes → FormTypes
remove_first p [] = []
remove_first p (d ∷ table) = let rest = remove_first p table in if p d then table else d ∷ rest

unfoldable pub delete_form_type_definition : String → String → FormTypes → Bool × FormTypes
delete_form_type_definition type_key version table =
    elim (first_where (is_version type_key version) table) [
      | none ↦ (false, table)
      | some d ↦ (true, remove_first (is_version type_key version) table)
    ]
