-- ===== src/Org/References.antt =====
-- A node named by its id or by its name (src/omniclaw/db/repository.py,
-- `resolve_unique_node_reference` and `_looks_like_uuid`).
use omni_claw.Prelude.{
  ℕ, zero, suc, String, code, Bool, false, ◌&&◌, ◌||◌, Option, none, some, List, [], ◌∷◌, leb, ◌==◌,
  if◌then◌else◌, is_digit, is_empty, strip, decimal, str_append, length, first_where,
}
use omni_claw.Org.Nodes.{Node, has_id, list_nodes_by_name}

abbrev is_hex : ℕ → Bool
is_hex c = is_digit c || (leb b'a' c && leb c b'f' || leb b'A' c && leb c b'F')

-- `n` hexadecimal digits, and what the continuation asks of the rest.
unfoldable pub hex_run : ℕ → (String → Bool) → String → Bool
hex_run zero after s = after s
hex_run (suc n) after String.[] = false
hex_run (suc n) after (String.◌∷◌ c s) = is_hex (code c) && hex_run n after s

abbrev dash_then : (String → Bool) → String → Bool
dash_then after String.[] = false
dash_then after (String.◌∷◌ c s) = code c == b'-' && after s

-- `[0-9a-fA-F]{8}-[0-9a-fA-F]{4}-…{4}-…{4}-…{12}`, the whole text.
unfoldable pub looks_like_uuid : String → Bool
unfolding hex_run
looks_like_uuid raw =
    hex_run 8
      (dash_then (
        hex_run 4
          (dash_then (hex_run 4 (dash_then (hex_run 4 (dash_then (hex_run 12 is_empty))))))))
      raw

pub data Lookup : Type 0 where
  found : Node → Lookup
  empty_reference : Lookup
  id_not_found : Lookup
  name_not_found : Lookup
  name_not_unique : ℕ → Lookup

-- How many matches there are decides.
abbrev pub unique : List Node → Lookup
unique [] = name_not_found
unique (n ∷ []) = found n
unique (n ∷ m ∷ r) = name_not_unique (suc (suc (length r)))

abbrev pub by_id : Option Node → Lookup
by_id none = id_not_found
by_id (some n) = found n

unfoldable pub resolve_unique_node_reference : String → List Node → Lookup
unfolding strip looks_like_uuid list_nodes_by_name
resolve_unique_node_reference value nodes =
    let raw = strip value in
    if is_empty raw
    then empty_reference
    else if looks_like_uuid raw
    then by_id (first_where (has_id raw) nodes)
    else unique (list_nodes_by_name raw nodes)

abbrev in_quotes : String → String → String → String
in_quotes before raw after = str_append before (str_append raw after)

-- The text that comes with the absent node.
unfoldable pub lookup_error : String → Lookup → Option String
unfolding strip decimal
lookup_error value (found n) = none
lookup_error value empty_reference = some "node reference is empty"
lookup_error value id_not_found = some (in_quotes "node id '" (strip value) "' not found")
lookup_error value name_not_found = some (in_quotes "node name '" (strip value) "' not found")
lookup_error value (name_not_unique count) = some (
    in_quotes "node name '" (strip value)
      (in_quotes "' is not unique (" (decimal count) " matches)"))
