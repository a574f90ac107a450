-- ===== src/Ipc/Tally.antt =====
-- The numbers that a scan reports (src/omniclaw/ipc/service.py, `_scan_forms`).
use omni_claw.Prelude.{
  ℕ, suc, ◌+◌, ◌≤◌, ◌<◌, String, if◌then◌else◌, Option, none, some, List, [], ◌∷◌, ◌++◌, ◌≡◌, refl,
  leb, length, length-append, arith, inl, inr, Bool-cases, leb-false→lt,
}
use omni_claw.Org.Nodes.{Node, list_nodes_with_workspaces}
use omni_claw.Ipc.Files.{FilePath, is_file, is_dir}
use omni_claw.Ipc.Undelivered.{Item, Status, routed, undelivered}
use omni_claw.Ipc.Outcome.{refused, accepted, ◌>>=◌}
use omni_claw.Ipc.Process.{Run}
use omni_claw.Ipc.Untouched.{IsStuck, Ends, process_source_file-Ends}
use omni_claw.Ipc.Routing.{Company, World, exception, no_fuel, Moment}
use omni_claw.Ipc.Scan.{
  Claim, claimed, busy, broken, Scan, Scanned, count_routed, count_undelivered, report,
  report_found, skip, is_form_file, scan_claimed, scan_name, scan_names, scan_queue, scan_queues,
  scan_workspace, scan_senders, scan_forms,
}

-- How many of the reports say that a file was routed, or that it was not.
abbrev pub routed_items : List Item → ℕ
routed_items [] = 0
routed_items (i ∷ items) = count_routed i.status (routed_items items)

abbrev pub undelivered_items : List Item → ℕ
undelivered_items [] = 0
undelivered_items (i ∷ items) = count_undelivered i.status (undelivered_items items)

pub record IsTallied (limit : ℕ) (s : Scan) : Type 0 where
  pub scanned_items : s.scanned ≡ length s.items
  pub routed_all : s.routed_count ≡ routed_items s.items
  pub undelivered_all : s.undelivered_count ≡ undelivered_items s.items
  pub every : s.routed_count + s.undelivered_count ≡ s.scanned
  pub within : s.scanned ≤ limit

routed_items-concat :
    (items : List Item) (i : Item)
    → routed_items (items ++ (i ∷ [])) ≡ count_routed i.status (routed_items items)
routed_items-concat [] i = refl
routed_items-concat (j ∷ items) i = swap j.status i.status (routed_items-concat items i)
  where
    swap :
        (s t : Status)
        → routed_items (items ++ (i ∷ [])) ≡ count_routed t (routed_items items)
        → count_routed s (routed_items (items ++ (i ∷ [])))
          ≡ count_routed t (count_routed s (routed_items items))
    swap routed routed h = omega (arith, h)
    swap routed undelivered h = omega (arith, h)
    swap undelivered routed h = h
    swap undelivered undelivered h = h

undelivered_items-concat :
    (items : List Item) (i : Item)
    → undelivered_items (items ++ (i ∷ [])) ≡ count_undelivered i.status (undelivered_items items)
undelivered_items-concat [] i = refl
undelivered_items-concat (j ∷ items) i = swap j.status i.status (undelivered_items-concat items i)
  where
    swap :
        (s t : Status)
        → undelivered_items (items ++ (i ∷ [])) ≡ count_undelivered t (undelivered_items items)
        → count_undelivered s (undelivered_items (items ++ (i ∷ [])))
          ≡ count_undelivered t (count_undelivered s (undelivered_items items))
    swap routed routed h = h
    swap routed undelivered h = h
    swap undelivered routed h = omega (arith, h)
    swap undelivered undelivered h = omega (arith, h)

counted : (t : Status) (a b n : ℕ) → a + b ≡ n → count_routed t a + count_undelivered t b ≡ suc n
counted routed a b n h = omega (arith, h)
counted undelivered a b n h = omega (arith, h)

report-IsTallied :
    (limit : ℕ) (r : Item × World) (s : Scan)
    → s.scanned < limit
    → IsTallied limit s
    → IsTallied limit (report r s)
report-IsTallied limit (i, w) s room h = record {
  scanned_items = omega (arith, h.scanned_items, length-append s.items (i ∷ []));
  routed_all = rw (routed_items-concat s.items i, h.routed_all) refl;
  undelivered_all = rw (undelivered_items-concat s.items i, h.undelivered_all) refl;
  every = counted i.status s.routed_count s.undelivered_count s.scanned h.every;
  within = omega arith;
}

skip-IsTallied : (limit : ℕ) (s : Scan) → IsTallied limit s → IsTallied limit (skip s)
skip-IsTallied limit s h = record {
  scanned_items = h.scanned_items;
  routed_all = h.routed_all;
  undelivered_all = h.undelivered_all;
  every = h.every;
  within = h.within;
}

-- Where a scan is returned, its numbers are right; without an exception or a result, a search for a
-- form id is stuck.
abbrev pub Tallies : Company → ℕ → Scanned → Type 0
Tallies company limit (accepted s) = IsTallied limit s
Tallies company limit (refused (exception words world)) = Unit {0}
Tallies company limit (refused no_fuel) = IsStuck company

-- The loops go on with a scan that has room, and stop at one that has none.
step-Tallies :
    (company : Company) (limit : ℕ) (s : Scan) (next : Scanned) (rest : Scan → Scanned)
    → IsTallied limit s
    → (s.scanned < limit → Tallies company limit next)
    → ((s' : Scan) → IsTallied limit s' → Tallies company limit (rest s'))
    → Tallies company limit (if leb limit s.scanned then accepted s else (next >>= rest))
step-Tallies company limit s next rest h go keep = elim (Bool-cases (leb limit s.scanned)) [
  | inl full ↦ rw full h
  | inr room ↦ rw room (onward next (go (leb-false→lt limit s.scanned room)))
]
  where
    onward : (o : Scanned) → Tallies company limit o → Tallies company limit (o >>= rest)
    onward (refused (exception words world)) t = tt
    onward (refused no_fuel) t = t
    onward (accepted s') t = keep s' t

report_found-Tallies :
    (company : Company) (limit : ℕ) (o : Run) (s : Scan)
    → s.scanned < limit
    → IsTallied limit s
    → Ends company (λ store. Unit {0}) o
    → Tallies company limit (report_found o s)
report_found-Tallies company limit (refused (exception words world)) s room h ends = tt
report_found-Tallies company limit (refused no_fuel) s room h ends = ends
report_found-Tallies company limit (accepted r) s room h ends = report-IsTallied limit r s room h

module _ (company : Company) (claims : FilePath → Claim) (clock : ℕ → Moment) (limit : ℕ) where
  scan_claimed-Tallies :
      (claim : Claim) (sender : Node) (workspace source : FilePath) (s : Scan)
      → s.scanned < limit
      → IsTallied limit s
      → Tallies company limit
          (scan_claimed company claims clock limit claim sender workspace source s)
  unfolding scan_claimed
  scan_claimed-Tallies busy sender workspace source s room h = skip-IsTallied limit s h
  scan_claimed-Tallies (broken words) sender workspace source s room h =
      report-IsTallied limit _ s room h
  scan_claimed-Tallies claimed sender workspace source s room h =
      report_found-Tallies company limit _ s room h (
        process_source_file-Ends company source (λ store. Unit {0}) (λ n store q. tt)
          (λ a b keeps q. tt) sender workspace (clock s.scanned) s.world tt)

  scan_name-Tallies :
      (sender : Node) (workspace dir : FilePath) (name : String) (s : Scan)
      → s.scanned < limit
      → IsTallied limit s
      → Tallies company limit (scan_name company claims clock limit sender workspace dir name s)
  scan_name-Tallies sender workspace dir name s room h =
      elim (Bool-cases (is_file (dir ++ (name ∷ [])) s.world.store)) [
        | inr gone ↦ rw gone h
        | inl there ↦ elim (Bool-cases (is_form_file name)) [
          | inl form ↦
              rw (there, form)
                (scan_claimed-Tallies (claims (dir ++ (name ∷ []))) sender workspace
                  (dir ++ (name ∷ [])) s room h)
          | inr other ↦ rw (there, other) (skip-IsTallied limit s h)
        ]
      ]

  scan_names-Tallies :
      (sender : Node) (workspace dir : FilePath) (names : List String) (s : Scan)
      → IsTallied limit s
      → Tallies company limit (scan_names company claims clock limit sender workspace dir names s)
  unfolding scan_names
  scan_names-Tallies sender workspace dir [] s h = h
  scan_names-Tallies sender workspace dir (name ∷ names) s h =
      step-Tallies company limit s _ _ h
        (λ room. scan_name-Tallies sender workspace dir name s room h)
        (scan_names-Tallies sender workspace dir names)

  scan_queue-Tallies :
      (sender : Node) (workspace : FilePath) (queue : Option FilePath) (s : Scan)
      → IsTallied limit s
      → Tallies company limit (scan_queue company claims clock limit sender workspace queue s)
  scan_queue-Tallies sender workspace none s h = h
  scan_queue-Tallies sender workspace (some dir) s h =
      elim (Bool-cases (is_dir dir s.world.store)) [
        | inl there ↦ rw there (scan_names-Tallies sender workspace dir _ s h)
        | inr missing ↦ rw missing h
      ]

  scan_queues-Tallies :
      (sender : Node) (workspace : FilePath) (queues : List String) (s : Scan)
      → IsTallied limit s
      → Tallies company limit (scan_queues company claims clock limit sender workspace queues s)
  unfolding scan_queues
  scan_queues-Tallies sender workspace [] s h = h
  scan_queues-Tallies sender workspace (queue ∷ queues) s h =
      step-Tallies company limit s _ _ h (λ room. scan_queue-Tallies sender workspace _ s h)
        (scan_queues-Tallies sender workspace queues)

  scan_workspace-Tallies :
      (sender : Node) (workspace : Option FilePath) (s : Scan)
      → IsTallied limit s
      → Tallies company limit (scan_workspace company claims clock limit sender workspace s)
  scan_workspace-Tallies sender none s h = h
  scan_workspace-Tallies sender (some workspace) s h =
      scan_queues-Tallies sender workspace company.router.queue_paths s h

  scan_senders-Tallies :
      (senders : List Node) (s : Scan)
      → IsTallied limit s
      → Tallies company limit (scan_senders company claims clock limit senders s)
  unfolding scan_senders
  scan_senders-Tallies [] s h = h
  scan_senders-Tallies (sender ∷ senders) s h =
      step-Tallies company limit s _ _ h (λ room. scan_workspace-Tallies sender _ s h)
        (scan_senders-Tallies senders)

  pub scan_forms-IsTallied :
      (world : World) → Tallies company limit (scan_forms company claims clock limit world)
  unfolding scan_forms
  scan_forms-IsTallied world =
      scan_senders-Tallies (list_nodes_with_workspaces company.router.nodes) _ start
    where
      start : IsTallied limit (record {
        scanned = 0;
        routed_count = 0;
        undelivered_count = 0;
        skipped = 0;
        items = [];
        world = world;
      })
      start = record {
        scanned_items = refl;
        routed_all = refl;
        undelivered_all = refl;
        every = refl;
        within = omega arith;
      }
