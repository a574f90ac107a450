-- ===== src/Budget/Daily.antt =====
-- A cycle a day (src/omniclaw/budgets/engine.py, `run_budget_cycle` and `due_cycle_date`).
use omni_claw.Prelude.{
  ℕ, ◌/◌, ◌%◌, String, ◌≡◌, ◌≢◌, refl, sym, ap, subst, ◌∙◌, Bool, true, false, Option, none, some,
  List, inl, inr, arith, ◌==◌, ltb, is_some, Option-cases, Bool-cases, first_of_two,
  first_where-append, first_where-update_first, first_where-update_other, some_inj,
}
use omni_claw.Result.{Result, done, raise, Result-cases}
use omni_claw.Org.Nodes.{Node}
use omni_claw.Retry.Policy.{of_clock, day}
use omni_claw.Budget.Tree.{Snapshots, build_snapshot_tree}
use omni_claw.Budget.Cycle.{
  BudgetCycle, on_date, get_budget_cycle, upsert_budget_cycle, CompanyBudgetConfig,
  load_company_budget_config, resolve_root_allocator, parse_reset_time, Engine, due_cycle_date,
  Client, CycleReport, company_snapshots, already_ran_report, new_cycle_report, run_budget_cycle,
  run_for_date,
}

other_date : (d e k : ℕ) → d ≢ e → (k == e) ≡ true → (k == d) ≡ false
other_date d e k ne h = ground arith

first_of_none : (o : Option BudgetCycle) → first_of_two o none ≡ o
first_of_none none = refl
first_of_none (some b) = refl

module _ (date company : ℕ) (root : Option String) (at : ℕ) (cycles : List BudgetCycle) where
  cycle_recorded :
      is_some (get_budget_cycle date (upsert_budget_cycle date company root at cycles).1) ≡ true
  unfolding upsert_budget_cycle get_budget_cycle
  cycle_recorded = elim (Option-cases (get_budget_cycle date cycles)) [
    | inl missing ↦
        rw (missing, upsert_budget_cycle) (rw (first_where-append, missing) (ground arith))
    | inr (c, found) ↦
        rw (found, upsert_budget_cycle)
          (ap is_some (first_where-update_first (on_date date) _ (λ x e. e) cycles c found))
  ]

  other_cycles :
      (d : ℕ)
      → d ≢ date
      → get_budget_cycle d (upsert_budget_cycle date company root at cycles).1
        ≡ get_budget_cycle d cycles
  unfolding upsert_budget_cycle get_budget_cycle
  other_cycles d ne = elim (Option-cases (get_budget_cycle date cycles)) [
    | inl missing ↦
        rw (missing, upsert_budget_cycle)
          (rw (first_where-append, other_date d date date ne (ground arith))
            (first_of_none (get_budget_cycle d cycles)))
    | inr (c, found) ↦
        rw (found, upsert_budget_cycle)
          (first_where-update_other (on_date date) (on_date d) _
            (λ x e. other_date d date x.cycle_date ne e)
            (λ x e. other_date d date x.cycle_date ne e) cycles)
  ]

-- The cycle of the date is there, and the cycles of the other dates are as before.
abbrev Recorded : ℕ → Engine → Engine → Type 0
Recorded date engine engine' =
    (is_some (get_budget_cycle date engine'.cycles) ≡ true)
    × ((d : ℕ) → d ≢ date → get_budget_cycle d engine'.cycles ≡ get_budget_cycle d engine.cycles)

snapshots-cycles :
    (fuel : ℕ) (reset force : Bool) (config : CompanyBudgetConfig) (root : Node) (engine : Engine)
    (d : Snapshots) (engine' : Engine)
    → company_snapshots fuel reset force config root engine ≡ some (d, engine')
    → engine'.cycles ≡ engine.cycles
unfolding company_snapshots
snapshots-cycles fuel reset force config root engine d engine' e =
    elim (Option-cases (
      build_snapshot_tree fuel engine.company reset force root config.daily_company_budget_usd none
        none engine.budgets)) [
          | inl stopped ↦
              let f : ◌≡◌ {A = Option (Snapshots × Engine)} none (some (d, engine')) =
                rw (stopped, company_snapshots) at e in
              cc
          | inr ((d', b), returned) ↦
              let f : ◌≡◌ {A = Option (Snapshots × Engine)}
                  (some (d', record engine { budgets = b })) (some (d, engine')) =
                rw (returned, company_snapshots) at e in
              ap (λ (t : Snapshots × Engine). t.1.cycles) (sym (some_inj f))
        ]

module _ (fuel : ℕ) (client : Option Client) (date now : ℕ) (config : CompanyBudgetConfig)
    (root : Node) (engine : Engine) (report : CycleReport) (engine' : Engine) where
  new_cycle-Recorded :
      new_cycle_report fuel client date now config root engine ≡ some (done report, engine')
      → Recorded date engine engine'
  unfolding new_cycle_report
  new_cycle-Recorded e = elim (Option-cases (company_snapshots fuel true true config root engine)) [
    | inl stopped ↦
        let f : ◌≡◌ {A = Option (Result CycleReport × Engine)} none (some (done report, engine')) =
          rw (stopped, new_cycle_report) at e in
        cc
    | inr ((d, middle), returned) ↦
        let f = some_inj (rw (returned, new_cycle_report) at e) in
        let g : (upsert_budget_cycle date config.daily_company_budget_usd (some root.id) now
              middle.cycles).1
            ≡ engine'.cycles =
          ap (λ (t : Result CycleReport × Engine). t.1.cycles) f in
        let same = snapshots-cycles fuel true true config root engine d middle returned in
        (
          subst (λ t. is_some (get_budget_cycle date t) ≡ true) g
              (cycle_recorded date config.daily_company_budget_usd (some root.id) now
                middle.cycles),
          λ k ne.
              subst (λ t. get_budget_cycle k t ≡ get_budget_cycle k engine.cycles) g
                (other_cycles date config.daily_company_budget_usd (some root.id) now middle.cycles
                    k ne
                  ∙ ap (get_budget_cycle k) same),
        )
  ]

  already_ran-Recorded :
      (existing : BudgetCycle)
      → get_budget_cycle date engine.cycles ≡ some existing
      → already_ran_report fuel config root existing engine ≡ some (done report, engine')
      → Recorded date engine engine'
  unfolding already_ran_report
  already_ran-Recorded existing found e =
      elim (Option-cases (company_snapshots fuel false false config root engine)) [
        | inl stopped ↦
            let f : ◌≡◌ {A = Option (Result CycleReport × Engine)} none
                (some (done report, engine')) =
              rw (stopped, already_ran_report) at e in
            cc
        | inr ((d, middle), returned) ↦
            let f = some_inj (rw (returned, already_ran_report) at e) in
            let g : middle.cycles ≡ engine'.cycles =
              ap (λ (t : Result CycleReport × Engine). t.1.cycles) f in
            let same =
              sym g ∙ snapshots-cycles fuel false false config root engine d middle returned in
            (
              ap (λ t. is_some (get_budget_cycle date t)) same ∙ ap is_some found,
              λ k ne. ap (get_budget_cycle k) same,
            )
      ]

module _ (fuel : ℕ) (client : Option Client) (date now : ℕ) (force : Bool) (engine : Engine)
    (report : CycleReport) (engine' : Engine) where
  ran :
      run_budget_cycle fuel client date now force engine ≡ some (done report, engine')
      → Recorded date engine engine'
  unfolding run_budget_cycle run_for_date
  ran e = elim (Result-cases (load_company_budget_config engine.settings)) [
    | inl (x, failed) ↦
        let f : ◌≡◌ {A = Option (Result CycleReport × Engine)} (some (raise x, engine))
            (some (done report, engine')) =
          rw (failed, run_budget_cycle) at e in
        cc
    | inr (config, loaded) ↦
        elim (Result-cases (resolve_root_allocator config engine.company.nodes)) [
          | inl (x, failed) ↦
              let f : ◌≡◌ {A = Option (Result CycleReport × Engine)} (some (raise x, engine))
                  (some (done report, engine')) =
                rw (loaded, failed, run_budget_cycle) at e in
              cc
          | inr (root, resolved) ↦ elim (Option-cases (get_budget_cycle date engine.cycles)) [
            | inl missing ↦
                new_cycle-Recorded fuel client date now config root engine report engine'
                  (rw (loaded, resolved, missing, run_budget_cycle, run_for_date) at e)
            | inr (existing, found) ↦ elim (Bool-cases force) [
              | inl forced ↦
                  new_cycle-Recorded fuel client date now config root engine report engine'
                    (rw (loaded, resolved, found, forced, run_budget_cycle, run_for_date) at e)
              | inr unforced ↦
                  already_ran-Recorded fuel client date now config root engine report engine'
                    existing found
                    (rw (loaded, resolved, found, unforced, run_budget_cycle, run_for_date) at e)
            ]
          ]
        ]
  ]

-- On a date that has its cycle none is due.
not_due :
    (t : ℕ) (engine : Engine) (d : ℕ)
    → is_some (get_budget_cycle (t / day) engine.cycles) ≡ true
    → due_cycle_date t engine ≢ done (some d)
unfolding due_cycle_date
not_due t engine d there e = elim (Result-cases (load_company_budget_config engine.settings)) [
  | inl (x, failed) ↦
      let f : ◌≡◌ {A = Result (Option ℕ)} (raise x) (done (some d)) =
        rw (failed, due_cycle_date) at e in
      cc
  | inr (config, loaded) ↦ elim (Result-cases (parse_reset_time config.reset_time_utc)) [
    | inl (x, failed) ↦
        let f : ◌≡◌ {A = Result (Option ℕ)} (raise x) (done (some d)) =
          rw (loaded, failed, due_cycle_date) at e in
        cc
    | inr (clock, parsed) ↦ elim (Bool-cases (ltb (t % day) (of_clock clock))) [
      | inl early ↦
          let f : ◌≡◌ {A = Result (Option ℕ)} (done none) (done (some d)) =
            rw (loaded, parsed, early, due_cycle_date) at e in
          cc
      | inr late ↦
          let f : ◌≡◌ {A = Result (Option ℕ)} (done none) (done (some d)) =
            rw (loaded, parsed, late, there, due_cycle_date) at e in
          cc
    ]
  ]
]

-- A run that returns a report, forced or not, leaves a cycle on record for its date and the cycle
-- of any other date as it was, and at no time of its date is a cycle due any more.
pub run_budget_cycle_once :
    (fuel : ℕ) (client : Option Client) (date now : ℕ) (force : Bool) (engine : Engine)
    (report : CycleReport) (engine' : Engine) (other t d : ℕ)
    → run_budget_cycle fuel client date now force engine ≡ some (done report, engine')
    → other ≢ date
    → t / day ≡ date
    → (is_some (get_budget_cycle date engine'.cycles) ≡ true)
      × (get_budget_cycle other engine'.cycles ≡ get_budget_cycle other engine.cycles)
      × (due_cycle_date t engine' ≢ done (some d))
run_budget_cycle_once fuel client date now force engine report engine' other t d e ne same =
    let (there, others) = ran fuel client date now force engine report engine' e in
    (
      there,
      others other ne,
      not_due t engine' d
          (subst (λ k. is_some (get_budget_cycle k engine'.cycles) ≡ true) (sym same) there),
    )
