-- ===== src/Forms/Json.antt =====
-- A value of JSON, as the workflow graphs and the payloads of forms hold it.
use omni_claw.Prelude.{
  String, Bool, true, false, ◌||◌, not, Option, none, some, str_eq, is_empty, strip, if◌then◌else◌,
}

-- A number is kept as its text. Members stand in the order of Python's dictionaries.
mutual
  pub data Json : Type 0 where
    null : Json
    boolean : Bool → Json
    number : String → Json
    text : String → Json
    array : Items → Json
    object : Members → Json

  pub data Items : Type 0 where
    no_items : Items
    item : Json → Items → Items

  pub data Members : Type 0 where
    no_members : Members
    member : String → Json → Members → Members

-- `value.get(key)`: a key stands once in a dictionary.
unfoldable pub get_member : String → Members → Option Json
get_member key no_members = none
get_member key (member k v m) = let rest = get_member key m in if str_eq k key then some v else rest

-- `value.get(key)` where an absent member counts as `None`.
abbrev pub or_null : Option Json → Json
or_null none = null
or_null (some v) = v

abbrev pub field : String → Members → Json
field key m = or_null (get_member key m)

-- `isinstance(value, str) and value.strip()`
abbrev pub filled_text : Json → Option String
filled_text (text s) = if is_empty (strip s) then none else some s
filled_text _ = none

abbrev pub is_text_of : String → Json → Bool
is_text_of s (text t) = str_eq t s
is_text_of s _ = false

abbrev pub as_object : Json → Option Members
as_object (object m) = some m
as_object _ = none

-- Truth of a value.
abbrev pub is_true : Json → Bool
is_true null = false
is_true (boolean b) = b
is_true (number s) = not (str_eq s "0" || str_eq s "0.0")
is_true (text s) = not (is_empty s)
is_true (array no_items) = false
is_true (array (item v r)) = true
is_true (object no_members) = false
is_true (object (member k v r)) = true
