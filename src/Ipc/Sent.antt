-- ===== src/Ipc/Sent.antt =====
-- The copies of a routed file, once their places are chosen, and the files beside them
-- (src/omniclaw/ipc/service.py, `_process_source_file` from the writes to the report).
use omni_claw.Prelude.{String, inl, inr, Option-cases}
use omni_claw.Result.{Result, raise, done}
use omni_claw.Forms.Ledger.{FormLedger, Ledger}
use omni_claw.Ipc.Files.{Store}
use omni_claw.Ipc.Plan.{Route}
use omni_claw.Ipc.Delivery.{Copies, write_copies, resolve_archive_copy_path}
use omni_claw.Ipc.Routing.{Company, World, Moment}
use omni_claw.Ipc.Request.{Letter}
use omni_claw.Ipc.Process.{finish_route, send_copies, routed_content}
use omni_claw.Ipc.Kept.{Keeps, Keeps-trans, Free, resolve_unique_path-Free}
use omni_claw.Ipc.Unharmed.{
  undelivered_item-Keeps, FreeCopies, write_copies-Keeps, rollback_routing_files-Keeps,
}

module _ (company : Company) (letter : Letter) (route : Route) (moment : Moment) where
  finish_route-Keeps :
      (form_id : String) (copies : Copies) (before : Store) (world : World)
      (r : Result FormLedger × Ledger)
      → FreeCopies letter.source before copies
      → Keeps letter.source before world.store
      → Keeps letter.source before
          (finish_route company letter route form_id copies world r).1.store
  unfolding finish_route
  finish_route-Keeps form_id copies before world (done form, ledger) free keeps = keeps
  finish_route-Keeps form_id copies before world (raise e, ledger) free keeps =
      Keeps-trans letter.source before _ _
        (rollback_routing_files-Keeps company.router letter.source before copies world.store free
          keeps)
        (undelivered_item-Keeps company.router letter.sender letter.source _ _)

  pub send_copies-Keeps :
      (form_id : String) (copies : Copies) (world : World) (before : Store)
      → FreeCopies letter.source before copies
      → Keeps letter.source before world.store
      → Keeps letter.source before
          (send_copies company letter route form_id copies moment world).1.store
  unfolding send_copies
  send_copies-Keeps form_id copies world before free keeps =
      let r =
        write_copies company.router copies (routed_content company letter route form_id)
          letter.source world.store in
      let wrote : Keeps letter.source before r.1 =
        write_copies-Keeps company.router letter.source before copies
          (routed_content company letter route form_id) world.store free keeps in
      elim (Option-cases r.0) [
        | inl whole ↦
            rw (whole, send_copies)
              (finish_route-Keeps form_id copies before (record world { store = r.1 }) _ free wrote)
        | inr (words, broken) ↦
            rw (broken, send_copies)
              (Keeps-trans letter.source before r.1 _ wrote
                (undelivered_item-Keeps company.router letter.sender letter.source _ r.1))
      ]

  pub archive_copy-Free :
      (form_id stamp name : String) (s : Store)
      → Free letter.source s (
          resolve_archive_copy_path company.form_archive_root route.form_type form_id stamp
            route.choice.next_stage name s)
  unfolding resolve_archive_copy_path
  archive_copy-Free form_id stamp name s = resolve_unique_path-Free letter.source s _ _
