-- ===== src/Ipc/Scan.antt =====
-- The scan of the queues (src/omniclaw/ipc/service.py, `_scan_forms`, `_try_claim_source_file`). The
-- synchronisation of the instructions that goes before it is left out.
use omni_claw.Prelude.{
  ℕ, suc, String, str_append, Bool, ◌||◌, not, Option, none, some, List, [], ◌∷◌, ◌++◌, leb, str_eq,
  sorted, if◌then◌else◌,
}
use omni_claw.Org.Nodes.{Node, list_nodes_with_workspaces}
use omni_claw.Forms.Ids.{lower}
use omni_claw.Ipc.Files.{
  FilePath, File, is_file, is_dir, drop_last, same_path, resolve_workspace_root,
  resolve_within_workspace, stem_suffix,
}
use omni_claw.Ipc.Undelivered.{Item, Status, routed, undelivered, name_of}
use omni_claw.Ipc.Outcome.{Outcome, accepted, ◌>>=◌}
use omni_claw.Ipc.Routing.{Company, World, Stop, Moment}
use omni_claw.Ipc.Process.{Run, process_source_file, give_up, unread}

-- What the lock on a file answers: it is taken, another process has it or the file is gone, or an
-- error of the operating system.
pub data Claim : Type 0 where
  claimed busy : Claim
  broken : String → Claim

-- The counters and the reports so far.
pub record Scan : Type 0 where
  pub scanned : ℕ
  pub routed_count : ℕ
  pub undelivered_count : ℕ
  pub skipped : ℕ
  pub items : List Item
  pub world : World

abbrev pub count_routed : Status → ℕ → ℕ
count_routed routed n = suc n
count_routed undelivered n = n

abbrev pub count_undelivered : Status → ℕ → ℕ
count_undelivered routed n = n
count_undelivered undelivered n = suc n

-- A report is added.
abbrev pub report : Item × World → Scan → Scan
report (i, w) s = record {
  scanned = suc s.scanned;
  routed_count = count_routed i.status s.routed_count;
  undelivered_count = count_undelivered i.status s.undelivered_count;
  skipped = s.skipped;
  items = s.items ++ (i ∷ []);
  world = w;
}

abbrev pub skip : Scan → Scan
skip s = record s { skipped = suc s.skipped }

-- `source_path.suffix.lower() in {".md", ".markdown"}`
unfoldable pub is_form_file : String → Bool
unfolding lower stem_suffix
is_form_file name =
    let suffix = lower (stem_suffix name).1 in str_eq suffix ".md" || str_eq suffix ".markdown"

-- The names of the files of a folder.
unfoldable pub names_in : FilePath → List File → List String
names_in dir [] = []
names_in dir (f ∷ files) =
    let rest = names_in dir files in
    if same_path (drop_last f.path) dir then name_of f.path ∷ rest else rest

-- A scan that goes on, or why it does not.
abbrev pub Scanned : Type 0
Scanned = Outcome Stop Scan

abbrev pub report_found : Run → Scan → Scanned
report_found run s = run >>= λ r. accepted (report r s)

abbrev pub no_claim : String → String
no_claim words = str_append "unable to claim queued form file: " words

module _ (company : Company) (claims : FilePath → Claim) (clock : ℕ → Moment) (limit : ℕ) where
  -- A form file that is there: the claim, and what comes of it.
  unfoldable pub scan_claimed : Claim → Node → FilePath → FilePath → Scan → Scanned
  scan_claimed busy sender workspace source s = accepted (skip s)
  scan_claimed (broken words) sender workspace source s =
      accepted (report (give_up company sender source (unread company (no_claim words)) s.world) s)
  scan_claimed claimed sender workspace source s =
      report_found (process_source_file company sender workspace source (clock s.scanned) s.world) s

  abbrev pub is_full : Scan → Bool
  is_full s = leb limit s.scanned

  abbrev pub scan_name : Node → FilePath → FilePath → String → Scan → Scanned
  scan_name sender workspace dir name s =
      let source = dir ++ (name ∷ []) in
      let taken = scan_claimed (claims source) sender workspace source s in
      if not (is_file source s.world.store)
      then accepted s
      else if is_form_file name
      then taken
      else accepted (skip s)

  -- The files of one queue; `break` at the limit leaves the rest alone.
  unfoldable pub scan_names : Node → FilePath → FilePath → List String → Scan → Scanned
  scan_names sender workspace dir [] s = accepted s
  scan_names sender workspace dir (name ∷ names) s =
      let next = scan_name sender workspace dir name s in
      let rest : Scan → Scanned = λ s'. scan_names sender workspace dir names s' in
      if is_full s then accepted s else (next >>= rest)

  abbrev pub scan_queue : Node → FilePath → Option FilePath → Scan → Scanned
  scan_queue sender workspace none s = accepted s
  scan_queue sender workspace (some dir) s =
      let found = scan_names sender workspace dir (sorted (names_in dir s.world.store.files)) s in
      if is_dir dir s.world.store then found else accepted s

  unfoldable pub scan_queues : Node → FilePath → List String → Scan → Scanned
  scan_queues sender workspace [] s = accepted s
  scan_queues sender workspace (queue ∷ queues) s =
      let next = scan_queue sender workspace (resolve_within_workspace workspace queue) s in
      let rest : Scan → Scanned = λ s'. scan_queues sender workspace queues s' in
      if is_full s then accepted s else (next >>= rest)

  abbrev pub scan_workspace : Node → Option FilePath → Scan → Scanned
  scan_workspace sender none s = accepted s
  scan_workspace sender (some workspace) s =
      scan_queues sender workspace company.router.queue_paths s

  unfoldable pub scan_senders : List Node → Scan → Scanned
  scan_senders [] s = accepted s
  scan_senders (sender ∷ senders) s =
      let next = scan_workspace sender (resolve_workspace_root sender s.world.store) s in
      let rest : Scan → Scanned = λ s'. scan_senders senders s' in
      if is_full s then accepted s else (next >>= rest)

  -- `_scan_forms`
  unfoldable pub scan_forms : World → Scanned
  scan_forms world = scan_senders (list_nodes_with_workspaces company.router.nodes) (record {
    scanned = 0;
    routed_count = 0;
    undelivered_count = 0;
    skipped = 0;
    items = [];
    world = world;
  })
