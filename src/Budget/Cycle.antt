-- ===== src/Budget/Cycle.antt =====
-- The daily budget cycle (src/omniclaw/budgets/engine.py) with its table `budget_cycles`
-- (src/omniclaw/db/repository.py). Instants are microseconds since the epoch and dates are days since
-- the epoch. The gateway of the language models is a parameter: what it answers to one new cap.
use omni_claw.Prelude.{
  ℕ, suc, ◌/◌, ◌%◌, String, Bool, true, false, ◌&&◌, Option, none, some, List, [], ◌∷◌, ◌++◌, ◌==◌,
  ltb, or_else, is_some, is_truthy, first_where, update_first, length, strip, if◌then◌else◌,
}
use omni_claw.Result.{Result, done, raise, http}
use omni_claw.Org.Nodes.{Node}
use omni_claw.Org.References.{Lookup, resolve_unique_node_reference, lookup_error}
use omni_claw.Retry.Policy.{parse_clock, of_clock, day}
use omni_claw.Budget.Table.{Budget, Budgets, get_budget}
use omni_claw.Budget.Tree.{Company, BudgetSnapshot, Snapshots, is_metered, build_snapshot_tree}

-- A row of `budget_cycles`.
pub record BudgetCycle : Type 0 where
  pub cycle_date : ℕ
  pub company_budget_usd : ℕ
  pub root_allocator_node_id : Option String
  pub executed_at : ℕ

abbrev pub on_date : ℕ → BudgetCycle → Bool
on_date date c = c.cycle_date == date

unfoldable pub get_budget_cycle : ℕ → List BudgetCycle → Option BudgetCycle
get_budget_cycle date cycles = first_where (on_date date) cycles

unfoldable pub upsert_budget_cycle :
    ℕ → ℕ → Option String → ℕ → List BudgetCycle → BudgetCycle × List BudgetCycle
upsert_budget_cycle date company_budget root executed_at cycles =
    let write : BudgetCycle → BudgetCycle = λ c. record c {
      company_budget_usd = company_budget;
      root_allocator_node_id = root;
      executed_at = executed_at;
    } in
    elim (get_budget_cycle date cycles) [
      | none ↦
          let c : BudgetCycle = record {
            cycle_date = date;
            company_budget_usd = company_budget;
            root_allocator_node_id = root;
            executed_at = executed_at;
          } in
          (c, cycles ++ (c ∷ []))
      | some c ↦ (write c, update_first (on_date date) write cycles)
    ]

-- The section `budgeting` of the company's settings, each value as far as it is there.
pub record RawBudgeting : Type 0 where
  pub daily_company_budget_usd : Option ℕ
  pub root_allocator_node : Option String
  pub reset_time_utc : Option String

pub record CompanyBudgetConfig : Type 0 where
  pub daily_company_budget_usd : ℕ
  pub root_allocator_node : String
  pub reset_time_utc : String

abbrev complete : Option ℕ → Option String → Option String → Result CompanyBudgetConfig
complete (some daily) (some root) (some reset) = done (record {
  daily_company_budget_usd = daily;
  root_allocator_node = strip root;
  reset_time_utc = strip reset;
})
complete _ _ _ = raise (http 503 "Company budgeting config is incomplete")

unfoldable pub load_company_budget_config : Option RawBudgeting → Result CompanyBudgetConfig
load_company_budget_config none = raise (http 503 "Company budgeting config is missing")
load_company_budget_config (some r) =
    complete r.daily_company_budget_usd r.root_allocator_node r.reset_time_utc

abbrev found_root : Lookup → Option String → Result Node
found_root (Lookup.found n) error = done n
found_root _ error = raise (http 404 (or_else error "root allocator node not found"))

unfoldable pub resolve_root_allocator : CompanyBudgetConfig → List Node → Result Node
resolve_root_allocator config nodes =
    let lookup = resolve_unique_node_reference config.root_allocator_node nodes in
    found_root lookup (lookup_error config.root_allocator_node lookup)

unfoldable pub parse_reset_time : String → Result (ℕ × ℕ)
parse_reset_time raw_value = elim (parse_clock raw_value) [
  | none ↦ raise (http 503 "Invalid reset_time_utc in company config")
  | some clock ↦ done clock
]

-- What the engine reads and writes.
pub record Engine : Type 0 where
  pub settings : Option RawBudgeting
  pub company : Company
  pub budgets : Budgets
  pub cycles : List BudgetCycle

-- `none` in the result is Python's `None`: no cycle is due.
unfoldable pub due_cycle_date : ℕ → Engine → Result (Option ℕ)
due_cycle_date now engine = elim (load_company_budget_config engine.settings) [
  | raise e ↦ raise e
  | done config ↦ elim (parse_reset_time config.reset_time_utc) [
    | raise e ↦ raise e
    | done reset_time ↦
        if ltb (now % day) (of_clock reset_time)
        then done none
        else if is_some (get_budget_cycle (now / day) engine.cycles)
        then done none
        else done (some (now / day))
  ]
]

-- `update_user_budget(user_id, max_budget)`: nothing, or the text of the exception.
abbrev pub Client : Type 0
Client = String → ℕ → Option String

pub record CapSyncResult : Type 0 where
  pub synced_count : ℕ
  pub errors : List (String × String)

abbrev pub has_key : Option Budget → Bool
has_key none = false
has_key (some b) = is_truthy b.virtual_api_key

abbrev pub gets_cap : BudgetSnapshot → Budgets → Bool
gets_cap s budgets = is_metered s.budget_mode && has_key (get_budget s.node.id budgets)

abbrev count_answer : String → Option String → CapSyncResult → CapSyncResult
count_answer name none rest = record rest { synced_count = suc rest.synced_count }
count_answer name (some error) rest = record rest { errors = (name, error) ∷ rest.errors }

-- The loop over the snapshots, and the calls it makes: each a user and a cap.
unfoldable pub sync_caps : Client → Budgets → Snapshots → CapSyncResult × List (String × ℕ)
sync_caps client budgets [] = (record { synced_count = 0; errors = [] }, [])
sync_caps client budgets ((k, s) ∷ snapshots) =
    let (result, calls) = sync_caps client budgets snapshots in
    if gets_cap s budgets
    then (
      count_answer s.node.name (client s.node.name s.available_budget_usd) result,
      (s.node.name, s.available_budget_usd) ∷ calls,
    )
    else (result, calls)

unfoldable pub sync_metered_caps :
    Option Client → Budgets → Snapshots → CapSyncResult × List (String × ℕ)
sync_metered_caps none budgets snapshots = (record { synced_count = 0; errors = [] }, [])
sync_metered_caps (some client) budgets snapshots = sync_caps client budgets snapshots

pub record CycleReport : Type 0 where
  pub already_ran : Bool
  pub cycle : BudgetCycle
  pub synced_caps : ℕ
  pub sync_errors : List (String × String)
  pub snapshot_count : ℕ

-- The snapshots of the whole company from the root, and the engine after them.
unfoldable pub company_snapshots :
    ℕ → Bool → Bool → CompanyBudgetConfig → Node → Engine → Option (Snapshots × Engine)
company_snapshots fuel reset_cycle force_root_free config root engine =
    elim (build_snapshot_tree fuel engine.company reset_cycle force_root_free root
      config.daily_company_budget_usd none none engine.budgets) [
        | none ↦ none
        | some (snapshots, budgets) ↦ some (snapshots, record engine { budgets = budgets })
      ]

-- `existing_cycle is not None and not force`: the tree is built again without a reset.
unfoldable pub already_ran_report :
    ℕ → CompanyBudgetConfig → Node → BudgetCycle → Engine → Option (Result CycleReport × Engine)
already_ran_report fuel config root existing engine =
    elim (company_snapshots fuel false false config root engine) [
      | none ↦ none
      | some (snapshots, engine') ↦ some (
        done (record {
          already_ran = true;
          cycle = existing;
          synced_caps = 0;
          sync_errors = [];
          snapshot_count = length snapshots;
        }),
        engine',
      )
    ]

unfoldable pub new_cycle_report :
    ℕ
    → Option Client
    → ℕ
    → ℕ
    → CompanyBudgetConfig
    → Node
    → Engine
    → Option (Result CycleReport × Engine)
new_cycle_report fuel client date now config root engine =
    elim (company_snapshots fuel true true config root engine) [
      | none ↦ none
      | some (snapshots, engine') ↦
          let (cycle, cycles) =
            upsert_budget_cycle date config.daily_company_budget_usd (some root.id) now
              engine'.cycles in
          let (sync, _) = sync_metered_caps client engine'.budgets snapshots in
          some (
            done (record {
              already_ran = false;
              cycle = cycle;
              synced_caps = sync.synced_count;
              sync_errors = sync.errors;
              snapshot_count = length snapshots;
            }),
            record engine' { cycles = cycles },
          )
    ]

-- What happens depends on whether the date has its cycle.
unfoldable pub run_for_date :
    ℕ
    → Option Client
    → ℕ
    → ℕ
    → Bool
    → CompanyBudgetConfig
    → Node
    → Engine
    → Option (Result CycleReport × Engine)
run_for_date fuel client date now force config root engine =
    elim (get_budget_cycle date engine.cycles) [
      | none ↦ new_cycle_report fuel client date now config root engine
      | some existing ↦
          let again = already_ran_report fuel config root existing engine in
          let anew = new_cycle_report fuel client date now config root engine in
          if force then anew else again
    ]

-- `none`: the walk over the hierarchy ran out of fuel.
unfoldable pub run_budget_cycle :
    ℕ → Option Client → ℕ → ℕ → Bool → Engine → Option (Result CycleReport × Engine)
run_budget_cycle fuel client date now force engine =
    elim (load_company_budget_config engine.settings) [
      | raise e ↦ some (raise e, engine)
      | done config ↦ elim (resolve_root_allocator config engine.company.nodes) [
        | raise e ↦ some (raise e, engine)
        | done root ↦ run_for_date fuel client date now force config root engine
      ]
    ]

-- `recalculate_company_budget`
unfoldable pub recalculate_company_budget :
    ℕ → Option Client → Bool → Engine → Option (Result (Snapshots × CapSyncResult) × Engine)
recalculate_company_budget fuel client force_root_free engine =
    elim (load_company_budget_config engine.settings) [
      | raise e ↦ some (raise e, engine)
      | done config ↦ elim (resolve_root_allocator config engine.company.nodes) [
        | raise e ↦ some (raise e, engine)
        | done root ↦ elim (company_snapshots fuel false force_root_free config root engine) [
          | none ↦ none
          | some (snapshots, engine') ↦
              some
                (done (snapshots, (sync_metered_caps client engine'.budgets snapshots).0), engine')
        ]
      ]
    ]
