-- ===== src/Tests/Workflows.antt =====
-- Examples for the validation of workflows.
use omni_claw.Prelude.{String, true, some, List, [], ◌∷◌, ◌≡◌, refl, str_eq}
use omni_claw.Forms.Json.{text, boolean, object, Members, no_members, member, field, get_member}
use omni_claw.Forms.Graph.{stage_decisions}
use omni_claw.Forms.StageChecks.{has_stage, start_value}
use omni_claw.Forms.Validation.{validate_stage_graph_definition}
use omni_claw.Forms.Search.{Reaches}
use omni_claw.Forms.Reachable.{validate_stage_graph_definition-Reaches}
use omni_claw.Forms.Decided.{NamesStage, validate_stage_graph_definition-NamesStage}
use omni_claw.Tests.Data.{nodes}

abbrev decisions : Members
decisions = member "send" (text "review") (member "drop" (text "done") no_members)

abbrev draft : Members
draft =
    member "target" (text "{{initiator}}")
      (member "required_skill" (text "drafting") (member "decisions" (object decisions) no_members))

abbrev review : Members
review = member "target" (text "Cem") (
    member "required_skill" (text "reviewing")
      (member "decisions" (object (member "back" (text "draft") no_members)) no_members))

abbrev stages : Members
stages = member "draft" (object draft) (
    member "review" (object review)
      (member "done" (object (member "is_terminal" (boolean true) no_members)) no_members))

abbrev graph : Members
graph = member "end_stage" (text "done") (member "stages" (object stages) no_members)

clean : validate_stage_graph_definition (λ v. "") (λ s. s) (λ s. true) nodes "memo" graph ≡ []
unfolding validate_stage_graph_definition omni_claw.Forms.Validation.local_errors get_member
    omni_claw.Forms.StageChecks.named_stage omni_claw.Forms.StageChecks.first_stage_name
    omni_claw.Prelude.strip omni_claw.Forms.StageChecks.check_stages
    omni_claw.Forms.StageChecks.check_decisions stage_decisions
    omni_claw.Forms.StageChecks.target_errors omni_claw.Forms.Ids.lower
    omni_claw.Forms.StageChecks.skill_errors omni_claw.Org.References.lookup_error
    omni_claw.Org.References.resolve_unique_node_reference omni_claw.Forms.Validation.reach
    omni_claw.Forms.Validation.mark_next omni_claw.Forms.Validation.validate_initiator_allowlist
    omni_claw.Forms.Graph.name_before_braces omni_claw.Forms.Validation.missing_skills
    omni_claw.Forms.Validation.required_skills omni_claw.Org.Nodes.list_nodes_by_name
clean = refl

validate_stage_graph_definition-Reaches_example :
    (start : String) × (start_value (field "start_stage" graph) stages ≡ text start)
    × (has_stage start stages ≡ true)
    × Reaches stages start "review"
unfolding get_member
validate_stage_graph_definition-Reaches_example =
    validate_stage_graph_definition-Reaches (λ v. "") (λ s. s) (λ s. true) nodes "memo" graph stages
      "review" (object review) clean refl refl

validate_stage_graph_definition-NamesStage_example : NamesStage stages (text "review")
unfolding get_member stage_decisions
validate_stage_graph_definition-NamesStage_example =
    validate_stage_graph_definition-NamesStage (λ v. "") (λ s. s) (λ s. true) nodes "memo" graph
      stages draft decisions "draft" "send" (text "review") clean refl refl refl refl
