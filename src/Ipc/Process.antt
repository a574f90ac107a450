-- ===== src/Ipc/Process.antt =====
-- One queued file, from its text to its routed copies (src/omniclaw/ipc/service.py,
-- `_process_source_file`). The wake-up of the agent behind a delivery is left out: it changes none of
-- what is kept here.
use omni_claw.Prelude.{String, str_append, Option, none, some, if◌then◌else◌}
use omni_claw.Result.{Result, raise, done}
use omni_claw.Org.Nodes.{Node}
use omni_claw.Forms.Ledger.{FormLedger, Ledger}
use omni_claw.Forms.Workflow.{transition_form}
use omni_claw.Ipc.Outcome.{Outcome, told, thrown, refused, accepted}
use omni_claw.Ipc.Frontmatter.{parse_frontmatter, render_frontmatter}
use omni_claw.Ipc.Stages.{resolve_form_type}
use omni_claw.Ipc.Files.{FilePath, Store, read_file}
use omni_claw.Ipc.Plan.{Failure, Route, early, plan_route}
use omni_claw.Ipc.Undelivered.{Item, undelivered_item, name_of}
use omni_claw.Ipc.Hints.{routed_fields}
use omni_claw.Ipc.Delivery.{
  Copies, resolve_archive_copy_path, place_copies, write_copies, rollback_routing_files,
}
use omni_claw.Ipc.Routing.{
  Company, World, Stop, exception, no_fuel, Moment, detail, at_target,
  resolve_active_form_definition, check_distribution, ensure_form,
}
use omni_claw.Ipc.Request.{Letter, routing_request, at_form, holder_of, routed_item}

-- What comes of a file: its report and what stands then.
abbrev pub Run : Type 0
Run = Outcome Stop (Item × World)

module _ (company : Company) where
  abbrev pub give_up : Node → FilePath → Failure → World → Item × World
  give_up sender source failure world =
      let (item, store) = undelivered_item company.router sender source failure world.store in
      (item, record world { store = store })

  abbrev fail_form : Letter → Route → String → String → World → Item × World
  fail_form letter route form_id reason world =
      give_up letter.sender letter.source (at_form letter route form_id reason) world

  -- After the transition: the report, or the files taken back.
  unfoldable pub finish_route :
      Letter → Route → String → Copies → World → Result FormLedger × Ledger → Item × World
  finish_route letter route form_id copies world (done form, ledger) = (
    routed_item letter route form_id copies (holder_of form company.router.nodes),
    record world { ledger = ledger },
  )
  finish_route letter route form_id copies world (raise e, ledger) =
      fail_form letter route form_id
        (str_append "transition_form failed after filesystem route: " (detail e))
        (record world {
          ledger = ledger;
          store = rollback_routing_files company.router copies letter.source world.store;
        })

  abbrev pub routed_content : Letter → Route → String → String
  routed_content letter route form_id =
      render_frontmatter
        (routed_fields letter.sender route form_id letter.fields company.router.nodes) letter.body

  -- The writes, then the transition.
  unfoldable pub send_copies : Letter → Route → String → Copies → Moment → World → Item × World
  send_copies letter route form_id copies moment world =
      let (error, store) =
        write_copies company.router copies (routed_content letter route form_id) letter.source
          world.store in
      let world' = record world { store = store } in
      elim error [
        | some words ↦
            fail_form letter route form_id (str_append "filesystem routing failure: " words) world'
        | none ↦ finish_route letter route form_id copies world' (
            transition_form company.repr (routing_request letter route form_id copies moment.at)
              company.router.nodes world.types world.ledger)
      ]

  -- The form is known: the places of the copies.
  unfoldable pub deliver : Letter → Route → String → Moment → World → Run
  deliver letter route form_id moment world =
      let name = name_of letter.source in
      let (places, store) =
        place_copies company.router letter.workspace route.target.node name world.store in
      let world' = record world { store = store } in
      elim places [
        | refused (told why) ↦ accepted (fail_form letter route form_id why world')
        | refused (thrown words) ↦ refused (exception words world')
        | accepted (archive, delivery) ↦ accepted (
            send_copies letter route form_id
              (record {
                delivery = delivery;
                archive = archive;
                backup =
                    resolve_archive_copy_path company.form_archive_root route.form_type form_id
                      moment.stamp route.choice.next_stage name store;
              })
              moment world')
      ]

  -- The form is sought, or created, and its file delivered.
  unfoldable pub follow_form : Letter → Route → Moment → World → Run
  follow_form letter route moment world =
      elim (ensure_form company letter.sender route letter.fields (name_of letter.source) moment.at
        world.types world.ledger) [
          | none ↦ refused no_fuel
          | some (refused failure, ledger) ↦
              accepted
                (give_up letter.sender letter.source failure (record world { ledger = ledger }))
          | some (accepted form_id, ledger) ↦
              deliver letter route form_id moment (record world { ledger = ledger })
        ]

  -- The checks have passed: the skills, the form, the delivery.
  unfoldable pub follow_route : Letter → Route → Moment → World → Run
  follow_route letter route moment world =
      let (checked, store) = check_distribution company route world.store in
      let world' = record world { store = store } in
      elim checked [
        | refused (told why) ↦
            accepted (
              give_up letter.sender letter.source (at_target company letter.fields route why)
                world')
        | refused (thrown words) ↦ refused (exception words world')
        | accepted _ ↦ follow_form letter route moment world'
      ]

  abbrev no_form_type : String
  no_form_type = "frontmatter form_type is required (or legacy type: MESSAGE)"

  abbrev unknown_type : String → String
  unknown_type form_type = str_append "active form type '" (str_append form_type "' not found")

  -- The frontmatter has been read.
  unfoldable pub route_letter : Letter → Moment → World → Run
  route_letter letter moment world = elim (resolve_form_type letter.fields) [
    | none ↦
        accepted (give_up letter.sender letter.source (early none letter.fields no_form_type) world)
    | some form_type ↦
        let (definition, types) = resolve_active_form_definition company form_type world.types in
        let world' = record world { types = types } in
        elim definition [
          | none ↦ accepted (
              give_up letter.sender letter.source
                (early (some form_type) letter.fields (unknown_type form_type)) world')
          | some d ↦
              elim (plan_route company.forms_root letter.sender company.router.nodes world.ledger
                world.store form_type letter.fields d) [
                  | refused failure ↦ accepted (give_up letter.sender letter.source failure world')
                  | accepted route ↦ follow_route letter route moment world'
                ]
        ]
  ]

  abbrev pub unread : String → Failure
  unread reason = record {
    reason = reason;
    form_type = none;
    form_id = none;
    target = none;
    stage = none;
    decision = none;
    next_stage = none;
  }

  -- `source_path.read_text`
  abbrev pub readable : FilePath → Store → Option String
  readable path store = if company.router.disk.unreadable path then none else read_file path store

  -- `_process_source_file`, of a file that is there; one that is no UTF-8 breaks the scan off.
  unfoldable pub process_source_file : Node → FilePath → FilePath → Moment → World → Run
  process_source_file sender workspace source moment world =
      let words = company.router.disk.words source in
      let inner : String → Run = λ content. elim (parse_frontmatter content) [
        | refused why ↦ accepted (give_up sender source (unread why) world)
        | accepted (fields, body) ↦
            route_letter
              (record {
                sender = sender;
                workspace = workspace;
                source = source;
                fields = fields;
                body = body;
              })
              moment world
      ] in
      elim (readable source world.store) [
        | none ↦
            accepted
              (give_up sender source (unread (str_append "unable to read form file: " words)) world)
        | some content ↦
            let read = inner content in
            if company.router.disk.undecodable source then refused (exception words world) else read
      ]
