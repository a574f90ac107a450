-- ===== src/Forms/Builtin.antt =====
-- The form type of messages, which is made from a file of the company where the table lacks it
-- (src/omniclaw/db/repository.py, `ensure_builtin_message_form_type`). The decoded file is an
-- argument, `none` where there is none.
use omni_claw.Prelude.{
  String, str_append, true, false, Option, none, some, is_empty, strip, if◌then◌else◌,
}
use omni_claw.Result.{Result, raise, done, value_error}
use omni_claw.Forms.Json.{Json, null, text, object, Members, no_members, field}
use omni_claw.Forms.Types.{
  FormTypes, FormTypeDefinition, active, get_form_type_definition, upsert_form_type_definition,
}
use omni_claw.Forms.Routes.{str_of}

abbrev no_active : String
no_active = "message form type exists but has no ACTIVE version; activate one via /v1/forms/actions"

abbrev pub no_workflow : String → String
no_workflow path =
    str_append "message form type is missing and no workspace workflow exists at '"
      (str_append path "'; publish and activate a message workflow")

abbrev graph_in : Json → Members → Members
graph_in (object graph) bundle = graph
graph_in _ bundle = bundle

abbrev members_or_none : Json → Members
members_or_none (object m) = m
members_or_none _ = no_members

abbrev version_in : (Json → String) → Json → String
version_in repr null = "1.0.0"
version_in repr v = let s = strip (str_of repr v) in if is_empty s then "1.0.0" else s

-- The description as it stands, unless it is blank.
abbrev description_in : Json → Option String
description_in (text s) = if is_empty (strip s) then none else some s
description_in _ = none

unfoldable pub ensure_builtin_message_form_type :
    (Json → String) → String → Option Members → FormTypes → Result FormTypeDefinition × FormTypes
ensure_builtin_message_form_type repr path bundle types =
    elim (get_form_type_definition "message" none true types) [
      | some d ↦ (done d, types)
      | none ↦ elim (get_form_type_definition "message" none false types) [
        | some d ↦ (raise (value_error no_active), types)
        | none ↦ elim bundle [
          | none ↦ (raise (value_error (no_workflow path)), types)
          | some p ↦
              let (d, types') =
                upsert_form_type_definition "message" (version_in repr (field "version" p)) active
                  (graph_in (field "workflow_graph" p) p)
                  (members_or_none (field "stage_metadata" p))
                  (description_in (field "description" p)) none types in
              (done d, types')
        ]
      ]
    ]
