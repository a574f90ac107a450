-- ===== src/Ipc/Contexts.antt =====
-- What the context of the transition holds (src/omniclaw/ipc/service.py, the dictionary that
-- `_process_source_file` gives to `transition_form`).
use omni_claw.Prelude.{
  String, Option, none, some, [], ◌∷◌, ◌≡◌, refl, sym, subst, inl, inr, str_eq, Bool-cases,
  Option-cases, eq_iff, dict_get, dict_put, dict_update,
}
use omni_claw.Org.Nodes.{Node}
use omni_claw.Forms.Json.{text, field, get_member}
use omni_claw.Ipc.Frontmatter.{Fields}
use omni_claw.Ipc.Targets.{set_default, routing_context, Target}
use omni_claw.Ipc.Request.{to_members}

pub field-to_members :
    (k v : String) (d : Fields) → dict_get k d ≡ some v → field k (to_members d) ≡ text v
unfolding get_member
field-to_members k v [] h = cc
field-to_members k v ((j, w) ∷ d) h = elim (Bool-cases (str_eq j k)) [
  | inl same ↦ let e : some w ≡ some v = rw same at h in rw same (cc)
  | inr other ↦ rw other (field-to_members k v d (rw other at h))
]

pub dict_get-dict_put : (k v : String) (d : Fields) → dict_get k (dict_put k v d) ≡ some v
dict_get-dict_put k v [] = rw ((eq_iff k k).1 refl) refl
dict_get-dict_put k v ((j, w) ∷ d) = elim (Bool-cases (str_eq j k)) [
  | inl same ↦ rw (same, same) refl
  | inr other ↦ rw (other, other) (dict_get-dict_put k v d)
]

-- What is there stays when an absent key is put.
put-kept :
    (k j v w : String) (d : Fields)
    → dict_get k d ≡ some v
    → dict_get j d ≡ none
    → dict_get k (dict_put j w d) ≡ some v
put-kept k j v w [] h absent = cc
put-kept k j v w ((i, x) ∷ d) h absent = elim (Bool-cases (str_eq i j)) [
  | inl same ↦ let e : some x ≡ none = rw same at absent in cc
  | inr other ↦ elim (Bool-cases (str_eq i k)) [
    | inl own ↦ rw (other, own) (rw own at h)
    | inr apart ↦ rw (other, apart) (put-kept k j v w d (rw apart at h) (rw other at absent))
  ]
]

pub set_default-kept :
    (k j v : String) (n : Option Node) (d : Fields)
    → dict_get k d ≡ some v
    → dict_get k (set_default j n d) ≡ some v
set_default-kept k j v none d h = h
set_default-kept k j v (some n) d h = elim (Option-cases (dict_get j d)) [
  | inl absent ↦ rw (absent, set_default) (put-kept k j v n.id d h absent)
  | inr (x, there) ↦ rw (there, set_default) h
]

-- The one value that the target adds is there.
pub routing_context-lem :
    (initiator key v : String) (target : Target)
    → target.context ≡ (key, v) ∷ []
    → field key (to_members (routing_context initiator target)) ≡ text v
unfolding routing_context
routing_context-lem initiator key v target has = field-to_members key v _ (
    set_default-kept key "target_node_id" v target.node
      (dict_update (("initiator_node_id", initiator) ∷ []) target.context)
      (subst
        (λ (c : Fields).
          dict_get key (dict_update (("initiator_node_id", initiator) ∷ []) c) ≡ some v)
        (sym has) (dict_get-dict_put key v (("initiator_node_id", initiator) ∷ []))))
