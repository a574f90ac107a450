-- ===== src/Org/Managers.antt =====
-- Every node has at most one manager, and linking changes nobody else's.
use omni_claw.Prelude.{
  ◌≤◌, String, ◌≡◌, refl, ◌≢◌, ap, ◌∙◌, Option, none, some, List, ◌⊎◌, inl, inr, arith, eq_iff,
  eq_refl, length, where_true, first_where, Option-cases, length-append, where_true-none,
  where_true-append, first_where-append, Bool-cases, str_eq,
}
use mathlib.Core.Option
use omni_claw.Result.{Result, done, raise}
use omni_claw.Org.Links.{Link, has_child, link_manager}

-- The manager that the table records for a node.
abbrev pub manager_of : String → List Link → Option String
manager_of c links = Option.map (λ (l : Link). l.parent_node_id) (first_where (has_child c) links)

abbrev pub links_of : String → List Link → List Link
links_of c links = where_true (has_child c) links

abbrev pub OneManager : List Link → Type 0
OneManager links = (c : String) → length (links_of c links) ≤ 1

-- A successful or refused `link_manager` leaves every node with at most one manager.
pub link_manager-OneManager :
    (p c : String) (links : List Link) → OneManager links → OneManager (link_manager p c links).1
unfolding link_manager
link_manager-OneManager p c links one j = elim (Option-cases (first_where (has_child c) links)) [
  | inr (l, found) ↦ rw (found, link_manager) (one j)
  | inl missing ↦
      rw (missing, link_manager)
        (rw (where_true-append, length-append)
          (ground (arith, one j, eq_iff c j, where_true-none (has_child c) links missing)))
]

-- What a call did to the table: accepted, the node had no manager or this one, it has this one now,
-- and another node's manager is as before; refused, the node has some other manager, and the table is
-- as it was.
abbrev pub Linked : String → String → String → List Link → Result Link × List Link → Type 0
Linked p c j links (done l, links') =
    ((manager_of c links ≡ none) ⊎ (manager_of c links ≡ some p))
    × (manager_of c links' ≡ some p)
    × (manager_of j links' ≡ manager_of j links)
Linked p c j links (raise e, links') =
    (m : String) × (manager_of c links ≡ some m) × (m ≢ p) × (links' ≡ links)

-- A call of `link_manager` is accepted just when the node has no manager or has this one already; then
-- the node's manager is the one named and any other node's manager is as before. Otherwise the node
-- has some other manager, and the table is as it was.
pub link_manager_lem :
    (p c j : String) (links : List Link) → j ≢ c → Linked p c j links (link_manager p c links)
unfolding link_manager
link_manager_lem p c j links ne = elim (Option-cases (first_where (has_child c) links)) [
  | inl missing ↦
      rw (missing, link_manager)
        (
          inl (ap (Option.map (λ (l : Link). l.parent_node_id)) missing),
          rw (first_where-append, missing) (ground (arith, eq_refl c)),
          rw first_where-append (ground (arith, eq_iff c j)),
        )
  | inr (l, found) ↦ elim (Bool-cases (str_eq l.parent_node_id p)) [
    | inl same ↦
        rw (found, same, link_manager)
          (
            inr (
                ap (Option.map (λ (m : Link). m.parent_node_id)) found
                ∙ ap some (ground (arith, eq_iff l.parent_node_id p))),
            rw found (ground (arith, eq_iff l.parent_node_id p)),
            refl,
          )
    | inr other ↦
        rw (found, other, link_manager)
          (
            l.parent_node_id,
            ap (Option.map (λ (m : Link). m.parent_node_id)) found,
            ground (arith, eq_iff l.parent_node_id p),
            refl,
          )
  ]
]
