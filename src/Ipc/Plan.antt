-- ===== src/Ipc/Plan.antt =====
-- The checks of a form file before anything is written (src/omniclaw/ipc/service.py,
-- `_process_source_file` up to the target of the next stage).
use omni_claw.Prelude.{
  String, str_append, Bool, ◌&&◌, ◌||◌, not, Option, none, some, List, [], ◌∷◌, ◌++◌, str_eq,
  is_truthy, or_else,
}
use omni_claw.Org.Nodes.{Node}
use omni_claw.Forms.Json.{Json, null, object, get_member, field}
use omni_claw.Forms.Types.{FormTypeDefinition}
use omni_claw.Forms.Ledger.{FormLedger, Ledger}
use omni_claw.Ipc.Outcome.{Outcome, Checked, refused, accepted, ◌>>=◌, unless, or_refuse}
use omni_claw.Ipc.Frontmatter.{Fields}
use omni_claw.Ipc.Stages.{
  StageGraph, filled, frontmatter_decision, load_stage_graph, current_stage, decisions_of, stripped,
  required_skill_name, is_terminal_stage, stage_target_is_none,
}
use omni_claw.Ipc.Targets.{
  Target, in_quotes, resolve_existing_form, resolve_initiator_node_id, is_allowed_initiator,
  resolve_target_node,
}
use omni_claw.Ipc.Files.{FilePath, Store, exists, safe_relative_path, show_path}

-- What `_undelivered` is told.
pub record Failure : Type 0 where
  pub reason : String
  pub form_type : Option String
  pub form_id : Option String
  pub target : Option String
  pub stage : Option String
  pub decision : Option String
  pub next_stage : Option String

-- A reason, with what the frontmatter says.
abbrev pub early : Option String → Fields → String → Failure
early form_type fields reason = record {
  reason = reason;
  form_type = form_type;
  form_id = filled "form_id" fields;
  target = filled "target" fields;
  stage = filled "stage" fields;
  decision = frontmatter_decision fields;
  next_stage = none;
}

abbrev pub noted {κ} : {V : Type κ} → (String → Failure) → Checked V → Outcome Failure V
noted tell (refused why) = refused (tell why)
noted tell (accepted v) = accepted v

-- The stage of the file, the decision, and the stage to which it leads.
pub record Choice : Type 0 where
  pub stage : String
  pub decision : String
  pub next_stage : String
  pub next : Json

abbrev at_stage : String → Fields → String → String → Failure
at_stage form_type fields stage reason = record (early (some form_type) fields reason) {
  stage = some stage;
}

abbrev undefined_stage : String → String → String → String
undefined_stage before stage form_type =
    in_quotes before stage (in_quotes "' is not defined for form type '" form_type "'")

abbrev no_decision : String → String → String → String
no_decision decision stage form_type =
    in_quotes "no decision '" decision
      (in_quotes "' defined from stage '" stage (in_quotes "' for form type '" form_type "'"))

-- The stages and the decision between them.
unfoldable pub choose_stage : String → Fields → StageGraph → Outcome Failure Choice
choose_stage form_type fields graph =
    let stage = current_stage fields graph in
    let told = at_stage form_type fields stage in
    or_refuse (told (undefined_stage "stage '" stage form_type)) (get_member stage graph.stages)
    >>= λ payload.
        (or_refuse (told "frontmatter decision is required for queued forms")
            (frontmatter_decision fields)
          >>= λ decision.
              (or_refuse (told (no_decision decision stage form_type))
                  (stripped (field decision (decisions_of payload)))
                >>= λ next_stage.
                    (or_refuse
                        (record (told (undefined_stage "next stage '" next_stage form_type)) {
                          next_stage = some next_stage;
                        })
                        (get_member next_stage graph.stages)
                      >>= λ next. accepted (record {
                        stage = stage;
                        decision = decision;
                        next_stage = next_stage;
                        next = next;
                      }))))

-- A reason, once the next stage is known.
abbrev pub at_choice : String → Fields → Choice → String → Failure
at_choice form_type fields choice reason = record {
  reason = reason;
  form_type = some form_type;
  form_id = filled "form_id" fields;
  target = filled "target" fields;
  stage = some choice.stage;
  decision = some choice.decision;
  next_stage = some choice.next_stage;
}

abbrev needs_skill : Json → Bool
needs_skill next = not (is_terminal_stage next) || not (stage_target_is_none next)

abbrev skill_missing : String → String
skill_missing next_stage =
    in_quotes "stage '" next_stage
      "' requires required_skill (non-terminal stage or terminal stage with holder target)"

-- `_resolve_master_skill_dir`, as a test: the forms of the company stand below the first path.
unfoldable pub resolve_master_skill_dir : FilePath → String → String → Store → Checked (Unit {0})
resolve_master_skill_dir forms_root form_type skill store = elim (safe_relative_path skill) [
  | refused why ↦ refused (in_quotes "required_skill '" skill (str_append "' is invalid: " why))
  | accepted relative ↦
      let file = forms_root ++ (form_type ∷ "skills" ∷ []) ++ relative ++ ("SKILL.md" ∷ []) in
      unless (not (exists file store))
        (in_quotes "required skill '" skill (str_append "' missing at " (show_path file)))
        (accepted tt)
]

-- The skill that the next stage asks for.
unfoldable pub check_skill : FilePath → String → Store → Choice → Checked (Option String)
check_skill forms_root form_type store choice = elim (required_skill_name choice.next) [
  | none ↦ unless (needs_skill choice.next) (skill_missing choice.next_stage) (accepted none)
  | some skill ↦
      resolve_master_skill_dir forms_root form_type skill store >>= λ _. accepted (some skill)
]

abbrev stale : Choice → FormLedger → String
stale choice form =
    in_quotes "stale form stage: file stage '" choice.stage
      (in_quotes "' does not match ledger stage '" form.current_status "'")

abbrev held_by_other : FormLedger → Node → String
held_by_other form sender =
    in_quotes "form holder mismatch: current holder is '" (or_else form.current_holder_node "")
      (in_quotes "', actor is '" sender.id "'")

abbrev pub is_held_by_other : FormLedger → Node → Bool
is_held_by_other form sender =
    is_truthy form.current_holder_node
    && not (str_eq (or_else form.current_holder_node "") sender.id)

abbrev not_at_start : StageGraph → Choice → String
not_at_start graph choice =
    in_quotes "new forms must begin at start stage '" graph.start_stage
      (in_quotes "', got '" choice.stage "'")

-- May this node send the form on, or start it? The tests on the form of the ledger, or on a new one.
unfoldable pub check_form :
    (String → Failure)
    → Node
    → StageGraph
    → Choice
    → List Node
    → Option FormLedger
    → Outcome Failure (Unit {0})
check_form told sender graph choice nodes (some form) =
    let known : String → Failure = λ why. record (told why) { form_id = some form.form_id } in
    unless (not (str_eq form.current_status choice.stage)) (known (stale choice form))
      (unless (is_held_by_other form sender) (known (held_by_other form sender)) (accepted tt))
check_form told sender graph choice nodes none =
    unless (not (str_eq choice.stage graph.start_stage)) (told (not_at_start graph choice))
      (noted told (is_allowed_initiator sender graph.initiator_allowlist nodes))

-- `next_stage_payload.get("target")`
abbrev pub target_of : Json → Json
target_of (object stage) = field "target" stage
target_of _ = null

pub record Route : Type 0 where
  pub form_type : String
  pub definition : FormTypeDefinition
  pub graph : StageGraph
  pub choice : Choice
  pub skill : Option String
  pub existing : Option FormLedger
  pub initiator : String
  pub target : Target

-- The checks behind the choice, in their order.
unfoldable pub check_route :
    FilePath
    → Node
    → List Node
    → Ledger
    → Store
    → String
    → Fields
    → FormTypeDefinition
    → StageGraph
    → Choice
    → Outcome Failure Route
check_route forms_root sender nodes ledger store form_type fields definition graph choice =
    let told = at_choice form_type fields choice in
    noted told (check_skill forms_root form_type store choice) >>= λ skill.
    (noted told (resolve_existing_form fields ledger) >>= λ existing.
    (check_form told sender graph choice nodes existing >>= λ _.
    (noted told (resolve_initiator_node_id sender fields existing nodes) >>= λ initiator.
    (noted told (resolve_target_node (target_of choice.next) fields initiator nodes) >>= λ target.
    accepted (record {
      form_type = form_type;
      definition = definition;
      graph = graph;
      choice = choice;
      skill = skill;
      existing = existing;
      initiator = initiator;
      target = target;
    })))))

unfoldable pub plan_route :
    FilePath
    → Node
    → List Node
    → Ledger
    → Store
    → String
    → Fields
    → FormTypeDefinition
    → Outcome Failure Route
plan_route forms_root sender nodes ledger store form_type fields definition =
    noted (early (some form_type) fields) (load_stage_graph definition.workflow_graph) >>= λ graph.
    (choose_stage form_type fields graph >>= λ choice.
    check_route forms_root sender nodes ledger store form_type fields definition graph choice)
