-- ===== src/Org/Links.antt =====
-- The table `hierarchy`: one row for each pair of a manager and a direct report, with the methods
-- that make and read it (src/omniclaw/db/repository.py).
use omni_claw.Prelude.{
  String, Bool, ◌&&◌, ◌||◌, Option, none, some, List, [], ◌∷◌, ◌++◌, str_eq, where_true,
  first_where, any_where, if◌then◌else◌,
}
use omni_claw.Result.{Result, done, raise, value_error}
use omni_claw.Org.Nodes.{Node, NodeType, of_type, has_id}

-- `relationship_type` has one value, MANAGES, and is left out.
pub record Link : Type 0 where
  pub parent_node_id : String
  pub child_node_id : String

abbrev pub has_child : String → Link → Bool
has_child child_node_id l = str_eq l.child_node_id child_node_id

abbrev pub is_link : String → String → Link → Bool
is_link parent_node_id child_node_id l =
    str_eq l.parent_node_id parent_node_id && str_eq l.child_node_id child_node_id

-- `_link_manager_internal`, which `link_manager` and `link_manager_if_missing` both call.
unfoldable pub link_manager : String → String → List Link → Result Link × List Link
link_manager parent_node_id child_node_id links =
    elim (first_where (has_child child_node_id) links) [
      | some existing ↦ (
        if str_eq existing.parent_node_id parent_node_id
            then done existing
            else raise (value_error "child node already has a manager"),
        links,
      )
      | none ↦
          let link : Link = record {
            parent_node_id = parent_node_id;
            child_node_id = child_node_id;
          } in
          (done link, links ++ (link ∷ []))
    ]

unfoldable pub list_children : String → List Link → List Link
list_children parent_node_id links = where_true (λ l. str_eq l.parent_node_id parent_node_id) links

unfoldable pub list_child_nodes : String → Option NodeType → List Node → List Link → List Node
list_child_nodes parent_node_id node_type nodes links =
    where_true (λ n. any_where (is_link parent_node_id n.id) links && of_type node_type n) nodes

-- The first row for the child whose manager is in the table of nodes.
unfoldable pub get_manager_node : String → List Node → List Link → Option Node
get_manager_node child_node_id nodes [] = none
get_manager_node child_node_id nodes (l ∷ links) =
    let rest = get_manager_node child_node_id nodes links in
    if has_child child_node_id l
    then elim (first_where (has_id l.parent_node_id) nodes) [ none ↦ rest | some n ↦ some n ]
    else rest

unfoldable pub has_direct_management_link : String → String → List Link → Bool
has_direct_management_link sender_node_id target_node_id links =
    any_where
      (λ l. is_link sender_node_id target_node_id l || is_link target_node_id sender_node_id l)
      links
