-- ===== src/Tests/Org.antt =====
-- Examples for the company's nodes and links.
use omni_claw.Prelude.{String, ◌≢◌, ◌≡◌, refl, false, some, [], All, arith, str_eq, eq_iff}
use omni_claw.Org.Links.{link_manager}
use omni_claw.Org.Managers.{OneManager, Linked, link_manager-OneManager, link_manager_lem}
use omni_claw.Org.Consistency.{IsConsistent, start, record_call, record_call-IsConsistent}
use omni_claw.Tests.Data.{links, nodes}

ne : (a b : String) → str_eq a b ≡ false → a ≢ b
ne a b h = ground (arith, eq_iff a b)

one_of_none : OneManager []
one_of_none c = omega arith

link_manager-OneManager_example : OneManager (link_manager "b" "a" []).1
link_manager-OneManager_example = link_manager-OneManager "b" "a" [] one_of_none

link_manager_lem_example : Linked "c" "a" "z" links (link_manager "c" "a" links)
link_manager_lem_example = link_manager_lem "c" "a" "z" links (ne "z" "a" refl)

record_call-IsConsistent_example :
    All IsConsistent (record_call (start "a" (some 17) "127.0.0.1" 8080) 5 nodes)
record_call-IsConsistent_example =
    record_call-IsConsistent (start "a" (some 17) "127.0.0.1" 8080) 5 nodes
      (refl, (refl, (refl, tt)))
