-- ===== src/Ipc/Untouched.antt =====
-- Processing a queued file, and the files beside it (src/omniclaw/ipc/service.py,
-- `_process_source_file`).
use omni_claw.Prelude.{
  ℕ, String, true, false, Option, none, some, List, [], ◌∷◌, ◌≡◌, refl, sym, ap, subst, ◌∙◌, inl,
  inr, Option-cases, Bool-cases, is_some,
}
use omni_claw.Result.{Result, raise, done, Result-cases}
use omni_claw.Forms.Json.{Json}
use omni_claw.Org.Nodes.{Node}
use omni_claw.Forms.Types.{FormTypes, FormTypeDefinition}
use omni_claw.Forms.Ledger.{FormLedger, Ledger, NewForm, create_form_instance}
use omni_claw.Forms.Creation.{CreateRequest, plan_form, create_form}
use omni_claw.Forms.Created.{InUse, create_form_instance-none}
use omni_claw.Ipc.Outcome.{Outcome, Halt, told, thrown, refused, accepted, Outcome-cases}
use omni_claw.Ipc.Frontmatter.{parse_frontmatter}
use omni_claw.Ipc.Stages.{resolve_form_type}
use omni_claw.Ipc.Files.{FilePath, Store, same_path, read_file}
use omni_claw.Ipc.Plan.{Failure, Route, plan_route}
use omni_claw.Ipc.Undelivered.{name_of}
use omni_claw.Ipc.Delivery.{place_copies}
use omni_claw.Ipc.Routing.{
  Company, World, exception, no_fuel, Moment, create_request, check_distribution,
  distribute_stage_skill, resolve_skill_distribution_nodes, ensure_form,
  resolve_active_form_definition,
}
use omni_claw.Ipc.Request.{Letter}
use omni_claw.Ipc.Process.{
  Run, give_up, deliver, follow_form, follow_route, route_letter, process_source_file, readable,
}
use omni_claw.Ipc.Kept.{Keeps}
use omni_claw.Ipc.Unharmed.{undelivered_item-Keeps}
use omni_claw.Ipc.Placed.{Placed, place_copies-Placed, Free-files, Keeps-files}
use omni_claw.Ipc.Sent.{send_copies-Keeps, archive_copy-Free}

-- A search for a form id that has tried as many candidates as it may: they are all in use.
abbrev pub IsStuck : Company → Type 0
IsStuck company = (n : NewForm) × (ledger : Ledger) × InUse company.fuel n ledger

-- The files as a run leaves them, by its report or by an exception; without either, the search for a
-- form id is stuck.
abbrev pub Ends : Company → (Store → Type 0) → Run → Type 0
Ends company Q (accepted (item, world)) = Q world.store
Ends company Q (refused (exception words world)) = Q world.store
Ends company Q (refused no_fuel) = IsStuck company

pub create_form-none :
    (fuel : ℕ) (repr : Json → String) (request : CreateRequest) (nodes : List Node)
    (types : FormTypes) (ledger : Ledger)
    → create_form fuel repr request nodes types ledger ≡ none
    → (n : NewForm) × InUse fuel n ledger
unfolding create_form
create_form-none fuel repr request nodes types ledger h =
    elim (Result-cases (plan_form repr request nodes types)) [
      | inl (x, refuses) ↦
          let g : ◌≡◌ {A = Option (Result FormLedger × Ledger)} (some (raise x, ledger)) none =
            rw (refuses, create_form) at h in
          cc
      | inr (n, planned) ↦ elim (Option-cases (create_form_instance fuel n ledger)) [
        | inl stopped ↦ (n, create_form_instance-none fuel n ledger stopped)
        | inr ((f, ledger'), made) ↦
            let g : ◌≡◌ {A = Option (Result FormLedger × Ledger)} (some (done f, ledger')) none =
              rw (planned, made, create_form) at h in
            cc
      ]
    ]

module _ (company : Company) (source : FilePath) (Q : Store → Type 0)
    (spared : (n : Node) (s : Store) → Q s → Q (company.sync_node_skills n s).1)
    (stable : (s t : Store) → Keeps source s t → Q s → Q t) where
  give_up-Ends :
      (sender : Node) (failure : Failure) (world : World)
      → Q world.store
      → Ends company Q (accepted (give_up company sender source failure world))
  give_up-Ends sender failure world q =
      stable _ _ (undelivered_item-Keeps company.router sender source failure world.store) q

  distribute_stage_skill-spares :
      (nodes : List Node) (s : Store) → Q s → Q (distribute_stage_skill company nodes s).1
  unfolding distribute_stage_skill
  distribute_stage_skill-spares [] s q = q
  distribute_stage_skill-spares (n ∷ nodes) s q =
      elim (Outcome-cases (company.sync_node_skills n s).0) [
        | inl (halt, stopped) ↦ rw (stopped, distribute_stage_skill) (spared n s q)
        | inr (u, synced) ↦
            rw (synced, distribute_stage_skill)
              (distribute_stage_skill-spares nodes (company.sync_node_skills n s).1 (spared n s q))
      ]

  check_distribution-spares :
      (route : Route) (s : Store) → Q s → Q (check_distribution company route s).1
  unfolding check_distribution
  check_distribution-spares route s q = elim (Option-cases route.skill) [
    | inl unskilled ↦ rw (unskilled, check_distribution) q
    | inr (skill, required) ↦
        rw (required, check_distribution)
          (distribute_stage_skill-spares
            (resolve_skill_distribution_nodes company route.target.mode route.target.node) s q)
  ]

  module _ (letter : Letter) (here : letter.source ≡ source) (moment : Moment) where
    given-Ends :
        (failure : Failure) (world : World)
        → Q world.store
        → Ends company Q (accepted (give_up company letter.sender letter.source failure world))
    given-Ends failure world q =
        subst (λ p. Ends company Q (accepted (give_up company letter.sender p failure world)))
          (sym here) (give_up-Ends letter.sender failure world q)

    stable_here : (s t : Store) → Keeps letter.source s t → Q s → Q t
    stable_here s t keeps = stable s t (subst (λ p. Keeps p s t) here keeps)

    deliver-Ends :
        (route : Route) (form_id : String) (world : World)
        → Q world.store
        → Ends company Q (deliver company letter route form_id moment world)
    unfolding deliver
    deliver-Ends route form_id world q = placed r.0 refl
      where
        r : Outcome Halt (FilePath × Option FilePath) × Store
        r =
            place_copies company.router letter.workspace route.target.node (name_of letter.source)
              world.store

        are_free : Placed letter.source world.store r
        are_free =
            place_copies-Placed company.router letter.source letter.workspace route.target.node
              (name_of letter.source) world.store

        made : Q r.1
        made = stable_here world.store r.1 (Keeps-files letter.source _ _ are_free.same) q

        placed :
            (o : Outcome Halt (FilePath × Option FilePath))
            → r.0 ≡ o
            → Ends company Q (deliver company letter route form_id moment world)
        placed (refused (told why)) e =
            rw (e, deliver) (given-Ends _ (record world { store = r.1 }) made)
        placed (refused (thrown words)) e = rw (e, deliver) made
        placed (accepted (archive, delivery)) e =
            let (free_archive, free_delivery) = are_free.free archive delivery e in
            let keeps = Keeps-files letter.source world.store r.1 are_free.same in
            rw (e, deliver)
              (stable_here world.store _
                (send_copies-Keeps company letter route moment form_id _
                  (record world { store = r.1 }) world.store
                  (record {
                    delivery = free_delivery;
                    archive = free_archive;
                    backup = Free-files letter.source r.1 world.store _ are_free.same (
                        archive_copy-Free company letter route moment form_id moment.stamp
                          (name_of letter.source) r.1);
                  })
                  keeps)
                q)

    follow_form-Ends :
        (route : Route) (world : World)
        → Q world.store
        → Ends company Q (follow_form company letter route moment world)
    unfolding follow_form ensure_form
    follow_form-Ends route world q = ensured o refl
      where
        o : Option (Outcome Failure String × Ledger)
        o =
            ensure_form company letter.sender route letter.fields (name_of letter.source) moment.at
              world.types world.ledger

        stuck : o ≡ none → IsStuck company
        stuck e = elim (Option-cases route.existing) [
          | inr (form, known) ↦
              let g : ◌≡◌ {A = Option (Outcome Failure String × Ledger)}
                  (some (accepted form.form_id, world.ledger)) none =
                rw (known, ensure_form) at e in
              cc
          | inl new ↦
              elim (Option-cases (
                create_form company.fuel company.repr
                  (create_request company letter.sender route (name_of letter.source) moment.at)
                  company.router.nodes world.types world.ledger)) [
                    | inl stopped ↦
                        let (n, used) = create_form-none _ _ _ _ _ _ stopped in
                        (n, world.ledger, used)
                    | inr (r, created) ↦
                        let g : is_some o ≡ true = rw (new, created, ensure_form) refl in
                        let k : false ≡ true = ap is_some (sym e) ∙ g in cc
                  ]
        ]

        ensured :
            (p : Option (Outcome Failure String × Ledger))
            → o ≡ p
            → Ends company Q (follow_form company letter route moment world)
        ensured none e = rw (e, follow_form) (stuck e)
        ensured (some (refused failure, ledger)) e =
            rw (e, follow_form) (given-Ends failure (record world { ledger = ledger }) q)
        ensured (some (accepted form_id, ledger)) e =
            rw (e, follow_form) (deliver-Ends route form_id (record world { ledger = ledger }) q)

    follow_route-Ends :
        (route : Route) (world : World)
        → Q world.store
        → Ends company Q (follow_route company letter route moment world)
    unfolding follow_route
    follow_route-Ends route world q = checked r.0 refl
      where
        r : Outcome Halt (Unit {0}) × Store
        r = check_distribution company route world.store

        kept : Q r.1
        kept = check_distribution-spares route world.store q

        checked :
            (o : Outcome Halt (Unit {0}))
            → r.0 ≡ o
            → Ends company Q (follow_route company letter route moment world)
        checked (refused (told why)) e =
            rw (e, follow_route) (given-Ends _ (record world { store = r.1 }) kept)
        checked (refused (thrown words)) e = rw (e, follow_route) kept
        checked (accepted u) e =
            rw (e, follow_route) (follow_form-Ends route (record world { store = r.1 }) kept)

    planned-Ends :
        (form_type : String) (d : FormTypeDefinition) (world : World)
        → resolve_form_type letter.fields ≡ some form_type
        → (resolve_active_form_definition company form_type world.types).0 ≡ some d
        → Q world.store
        → Ends company Q (route_letter company letter moment world)
    unfolding route_letter
    planned-Ends form_type d world is_type found q =
        elim (Outcome-cases (
          plan_route company.forms_root letter.sender company.router.nodes world.ledger world.store
            form_type letter.fields d)) [
              | inl (failure, stopped) ↦
                  rw (is_type, found, stopped, route_letter)
                    (given-Ends failure (known form_type) q)
              | inr (route, ok) ↦
                  rw (is_type, found, ok, route_letter)
                    (follow_route-Ends route (known form_type) q)
            ]
      where
        known : String → World
        known form_type = record world {
          types = (resolve_active_form_definition company form_type world.types).1;
        }

    route_letter-Ends :
        (world : World) → Q world.store → Ends company Q (route_letter company letter moment world)
    unfolding route_letter
    route_letter-Ends world q = elim (Option-cases (resolve_form_type letter.fields)) [
      | inl untyped ↦ rw (untyped, route_letter) (given-Ends _ world q)
      | inr (form_type, is_type) ↦
          elim (Option-cases (resolve_active_form_definition company form_type world.types).0) [
            | inl undefined ↦
                rw (is_type, undefined, route_letter)
                  (given-Ends _
                    (record world {
                      types = (resolve_active_form_definition company form_type world.types).1;
                    })
                    q)
            | inr (d, found) ↦ planned-Ends form_type d world is_type found q
          ]
    ]

  pub process_source_file-Ends :
      (sender : Node) (workspace : FilePath) (moment : Moment) (world : World)
      → Q world.store
      → Ends company Q (process_source_file company sender workspace source moment world)
  unfolding process_source_file
  process_source_file-Ends sender workspace moment world q =
      elim (Option-cases (readable company source world.store)) [
        | inl unreadable ↦ rw (unreadable, process_source_file) (give_up-Ends sender _ world q)
        | inr (content, read) ↦ elim (Bool-cases (company.router.disk.undecodable source)) [
          | inl garbled ↦ rw (read, garbled, process_source_file) q
          | inr text ↦ elim (Outcome-cases (parse_frontmatter content)) [
            | inl (why, stopped) ↦
                rw (read, text, stopped, process_source_file) (give_up-Ends sender _ world q)
            | inr ((fields, body), ok) ↦
                rw (read, text, ok, process_source_file)
                  (route_letter-Ends
                    (record {
                      sender = sender;
                      workspace = workspace;
                      source = source;
                      fields = fields;
                      body = body;
                    })
                    refl moment world q)
          ]
        ]
      ]

pub process_source_file-Keeps :
    (company : Company) (sender : Node) (workspace source : FilePath) (moment : Moment)
    (world : World) (p : FilePath) (content : String)
    → ((n : Node) (s : Store)
        → read_file p s ≡ some content
        → read_file p (company.sync_node_skills n s).1 ≡ some content)
    → same_path p source ≡ false
    → read_file p world.store ≡ some content
    → Ends company
        (λ s. read_file p s ≡ some content)
        (process_source_file company sender workspace source moment world)
process_source_file-Keeps company sender workspace source moment world p content spared apart
      there =
    process_source_file-Ends company source (λ s. read_file p s ≡ some content) spared
      (λ s t keeps q. keeps p content apart q) sender workspace moment world there
