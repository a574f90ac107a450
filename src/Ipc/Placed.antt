-- ===== src/Ipc/Placed.antt =====
-- The places that are chosen for the copies are free (src/omniclaw/ipc/service.py,
-- `_process_source_file` from the archive folder to the path of the delivery).
use omni_claw.Prelude.{
  String, Option, none, some, List, ◌≡◌, refl, sym, ap, subst, ◌∙◌, inl, inr, Bool-cases,
  Option-cases, some_inj, any_where, first_where,
}
use omni_claw.Org.Nodes.{Node}
use omni_claw.Ipc.Outcome.{Outcome, Halt, refused, accepted, ◌>>=◌, accepted_inj}
use omni_claw.Ipc.Files.{
  FilePath, File, Store, at_path, make_dir, resolve_workspace_root, resolve_within_workspace,
}
use omni_claw.Ipc.Undelivered.{Router}
use omni_claw.Ipc.Delivery.{place_in, place_delivery, place_copies}
use omni_claw.Ipc.Kept.{Keeps, Free, read_file-first_where, resolve_unique_path-Free_made}

-- What the places of the copies are.
pub record Placed (source : FilePath) (before : Store)
    (r : Outcome Halt (FilePath × Option FilePath) × Store) : Type 0 where
  pub same : r.1.files ≡ before.files
  pub free :
      (archive : FilePath) (delivery : Option FilePath)
      → r.0 ≡ accepted (archive, delivery)
      → Free source before archive × ((p : FilePath) → delivery ≡ some p → Free source before p)

record PlacedDelivery (source : FilePath) (before : Store)
    (r : Outcome Halt (Option FilePath) × Store) : Type 0 where
  same : r.1.files ≡ before.files
  free : (p : FilePath) → r.0 ≡ accepted (some p) → Free source before p

made-files : (dir : FilePath) (s : Store) → (make_dir dir s).files ≡ s.files
unfolding make_dir
made-files dir s = refl

pub Free-files :
    (source : FilePath) (a b : Store) (p : FilePath)
    → a.files ≡ b.files
    → Free source a p
    → Free source b p
Free-files source a b p same (inl free) =
    inl (ap (λ (fs : List File). any_where (at_path p) fs) (sym same) ∙ free)
Free-files source a b p same (inr e) = inr e

pub Keeps-files : (source : FilePath) (a b : Store) → b.files ≡ a.files → Keeps source a b
Keeps-files source a b same p content apart there =
    read_file-first_where p b a (ap (λ (fs : List File). first_where (at_path p) fs) same) ∙ there

module _ (router : Router) (source : FilePath) where
  place_delivery-Placed :
      (target : Option Node) (name : String) (s : Store)
      → PlacedDelivery source s (place_delivery router target name s)
  unfolding place_delivery
  place_delivery-Placed none name s = record {
    same = refl;
    free = λ p e. let k : none ≡ some p = accepted_inj e in cc;
  }
  place_delivery-Placed (some n) name s = elim (Option-cases (resolve_workspace_root n s)) [
    | inl homeless ↦ rw (homeless, place_delivery) (record { same = refl; free = λ p e. cc })
    | inr (workspace, home) ↦
        elim (Option-cases (resolve_within_workspace workspace router.inbox_new_rel)) [
          | inl outside ↦
              rw (home, outside, place_delivery) (record { same = refl; free = λ p e. cc })
          | inr (inbox, inside) ↦ elim (Bool-cases (router.disk.unmakeable inbox)) [
            | inl never ↦
                rw (home, inside, never, place_delivery) (record { same = refl; free = λ p e. cc })
            | inr made ↦
                rw (home, inside, made, place_delivery)
                  (record {
                    same = made-files inbox s;
                    free = λ p e.
                        subst (Free source s) (some_inj (accepted_inj e))
                          (resolve_unique_path-Free_made source s inbox inbox name);
                  })
          ]
        ]
  ]

  pub place_copies-Placed :
      (workspace : FilePath) (target : Option Node) (name : String) (s : Store)
      → Placed source s (place_copies router workspace target name s)
  unfolding place_copies
  place_copies-Placed workspace target name s =
      elim (Option-cases (resolve_within_workspace workspace router.archive_rel)) [
        | inl outside ↦ rw (outside, place_copies) (record { same = refl; free = λ a d e. cc })
        | inr (dir, inside) ↦ elim (Bool-cases (router.disk.unmakeable dir)) [
          | inl never ↦
              rw (inside, never, place_copies) (record { same = refl; free = λ a d e. cc })
          | inr made ↦
              rw (inside, made, place_copies)
                (both dir (place_delivery router target name (make_dir dir s))
                  (place_delivery-Placed target name (make_dir dir s)))
        ]
      ]
    where
      both :
          (dir : FilePath) (r : Outcome Halt (Option FilePath) × Store)
          → PlacedDelivery source (make_dir dir s) r
          → Placed source s (r.0 >>= (λ d. accepted ((place_in dir name s).0, d)), r.1)
      both dir (refused why, t) placed = record {
        same = placed.same ∙ made-files dir s;
        free = λ a d e. cc;
      }
      both dir (accepted o, t) placed = record {
        same = placed.same ∙ made-files dir s;
        free = λ a d e.
            let parts = accepted_inj e in
            (
              subst (Free source s) (ap (λ (x : FilePath × Option FilePath). x.0) parts)
                  (resolve_unique_path-Free_made source s dir dir name),
              λ p there. Free-files source (make_dir dir s) s p (made-files dir s) (
                  placed.free p
                    (ap accepted (ap (λ (x : FilePath × Option FilePath). x.1) parts ∙ there))),
            );
      }
