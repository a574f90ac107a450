-- ===== src/Forms/Edges.antt =====
-- What a chosen edge and a resolved holder say (src/omniclaw/forms/service.py, `_resolve_edge` and
-- `_resolve_next_holder`).
use omni_claw.Prelude.{
  String, ◌≡◌, refl, ap, subst, true, Option, none, some, List, [], ◌∷◌, is_some,
}
use omni_claw.Result.{done, bind_done, require_done, done_inj}
use omni_claw.Org.Nodes.{Node, get_node}
use omni_claw.Forms.Json.{Json, null, boolean, number, text, array, object, Items, Members}
use omni_claw.Forms.Ledger.{FormLedger}
use omni_claw.Forms.Routes.{
  candidates, the_candidate, edge_among, require_node, check_resolved, resolve_next_holder,
}

the_candidate_lem :
    (from : String) (d s : Option String) (es : List Json) (e : Json)
    → the_candidate from d s es ≡ done e
    → es ≡ e ∷ []
the_candidate_lem from d s [] e h = cc
the_candidate_lem from d s (x ∷ []) e h = ap (λ (y : Json). y ∷ []) (done_inj h)
the_candidate_lem from d s (x ∷ y ∷ r) e h = cc

pub edge_among_lem :
    (from : String) (d s : Option String) (v e : Json)
    → edge_among from d s v ≡ done e
    → (edges : Items) × (v ≡ array edges) × (candidates from d s edges ≡ e ∷ [])
edge_among_lem from d s (array edges) e h =
    (edges, refl, the_candidate_lem from d s (candidates from d s edges) e h)
edge_among_lem from d s null e h = cc
edge_among_lem from d s (boolean b) e h = cc
edge_among_lem from d s (number n) e h = cc
edge_among_lem from d s (text t) e h = cc
edge_among_lem from d s (object m) e h = cc

-- Nobody, or a node of the table.
abbrev pub IsKnown : List Node → Option String → Type 0
IsKnown nodes none = Unit {0}
IsKnown nodes (some id) = (n : Node) × (get_node (some id) none none nodes ≡ done (some n))

known :
    (nodes : List Node) (id : String) → require_node id nodes ≡ done tt → IsKnown nodes (some id)
unfolding require_node
known nodes id h =
    let (found, got, rest) = bind_done (get_node (some id) none none nodes) _ tt h in
    let (there, _) = require_done (is_some found) _ _ tt rest in is_there found got there
  where
    is_there :
        (found : Option Node)
        → get_node (some id) none none nodes ≡ done found
        → is_some found ≡ true
        → IsKnown nodes (some id)
    is_there none got there = cc
    is_there (some n) got there = (n, got)

check_resolved-IsKnown :
    (nodes : List Node) (holder h : Option String)
    → check_resolved nodes holder ≡ done h
    → IsKnown nodes h
check_resolved-IsKnown nodes none h e = subst (IsKnown nodes) (done_inj e) tt
check_resolved-IsKnown nodes (some id) h e =
    let (u, ok, rest) = bind_done (require_node id nodes) _ h e in
    subst (IsKnown nodes) (done_inj rest) (known nodes id ok)

pub resolve_next_holder-IsKnown :
    (repr : Json → String) (form : FormLedger) (e : Json) (actor : Option String)
    (context : Members) (nodes : List Node) (h : Option String)
    → resolve_next_holder repr form e actor context nodes ≡ done h
    → IsKnown nodes h
unfolding resolve_next_holder
resolve_next_holder-IsKnown repr form e actor context nodes h r =
    let (holder, got, checked) = bind_done _ (check_resolved nodes) h r in
    check_resolved-IsKnown nodes holder h checked
