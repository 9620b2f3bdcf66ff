-- ===== src/Outputs.antt =====
-- streaming/runner.py, the output filter of Streamer, and ops/runs.py, the output that a state snapshot of
-- the graph stands for. A snapshot belongs to LangGraph; its values and interrupts are kept as the JSON
-- that `serialize_value` gives for them.
pub mod Keys
pub mod Allowed
use skeino.Base.{
  ℕ, zero, suc, Bool, true, false, ◌&&◌, ◌||◌, Option, none, some, List, [], ◌∷◌, ◌++◌, String,
  if◌then◌else◌, str_eq, not, is_empty,
}
use mathlib.Core.List.{reverse}
use skeino.Json.{ℤ, pos, negsuc, Json, Items, Fields}
use skeino.Text.{Text, codes, text_elem, starts_with}

pub record Snapshot : Type 0 where
  pub values : Json
  pub interrupts : List Json
  pub task_interrupts : List (List Json)

unfoldable pub from_tasks : List (List Json) → List Json
from_tasks [] = []
from_tasks (interrupts ∷ tasks) = interrupts ++ from_tasks tasks

unfoldable pub pending_interrupts : Snapshot → List Json
unfolding from_tasks
pending_interrupts snapshot =
    if is_empty snapshot.interrupts
    then from_tasks snapshot.task_interrupts
    else snapshot.interrupts

-- Python's truth of a JSON value.
unfoldable pub truthy : Json → Bool
truthy Json.null = false
truthy (Json.bool b) = b
truthy (Json.int (pos zero)) = false
truthy (Json.int (pos (suc n))) = true
truthy (Json.int (negsuc n)) = true
truthy (Json.float text) = not (str_eq text "0.0" || str_eq text "-0.0")
truthy (Json.str text) = not (str_eq text "")
truthy (Json.arr Items.nil) = false
truthy (Json.arr (Items.cons item items)) = true
truthy (Json.obj Fields.end) = false
truthy (Json.obj (Fields.field key value fields)) = true

-- dict.get and a dict's assignment
unfoldable pub field_of : Fields → String → Option Json
field_of Fields.end key = none
field_of (Fields.field k value fields) key =
    if str_eq k key then some value else field_of fields key

unfoldable pub with_field : Fields → String → Json → Fields
with_field Fields.end key value = Fields.field key value Fields.end
with_field (Fields.field k v fields) key value =
    if str_eq k key
    then Fields.field k value fields
    else Fields.field k v (with_field fields key value)

unfoldable pub items_of : List Json → Items
items_of [] = Items.nil
items_of (value ∷ values) = Items.cons value (items_of values)

unfoldable pub is_truthy : Option Json → Bool
unfolding truthy
is_truthy none = false
is_truthy (some value) = truthy value

-- _INTERRUPT_CHANNEL
abbrev pub interrupt_channel : String
interrupt_channel = "__interrupt__"

-- The end of `_output_with_interrupts`, for interrupts that are pending.
unfoldable pub carry_interrupts : List Json → Json → Json
unfolding field_of is_truthy with_field items_of
carry_interrupts interrupts (Json.obj fields) =
    if is_truthy (field_of fields interrupt_channel)
    then Json.obj fields
    else Json.obj (with_field fields interrupt_channel (Json.arr (items_of interrupts)))
carry_interrupts interrupts Json.null = Json.null
carry_interrupts interrupts (Json.bool b) = Json.bool b
carry_interrupts interrupts (Json.int n) = Json.int n
carry_interrupts interrupts (Json.float text) = Json.float text
carry_interrupts interrupts (Json.str text) = Json.str text
carry_interrupts interrupts (Json.arr items) = Json.arr items

unfoldable pub output_with_interrupts : Snapshot → Json
unfolding pending_interrupts carry_interrupts
output_with_interrupts snapshot =
    let interrupts = pending_interrupts snapshot in
    if is_empty interrupts then snapshot.values else carry_interrupts interrupts snapshot.values

unfoldable pub ends_with : Text → Text → Bool
unfolding starts_with
ends_with text suffix = starts_with (reverse text) (reverse suffix)

-- A reserved channel: `__...__`.
unfoldable pub is_reserved : String → Bool
unfolding starts_with ends_with
is_reserved key = starts_with (codes key) (codes "__") && ends_with (codes key) (codes "__")

-- `output_keys` is the graph's allow-set, or None.
unfoldable pub is_allowed : Option (List Text) → String → Bool
unfolding is_reserved text_elem
is_allowed output_keys key =
    if is_reserved key
    then true
    else elim output_keys [ none ↦ true | some keys ↦ text_elem (codes key) keys ]

unfoldable pub keep_allowed : Option (List Text) → Fields → Fields
unfolding is_allowed
keep_allowed output_keys Fields.end = Fields.end
keep_allowed output_keys (Fields.field key value fields) =
    if is_allowed output_keys key
    then Fields.field key value (keep_allowed output_keys fields)
    else keep_allowed output_keys fields

unfoldable pub filter_values : Option (List Text) → Fields → Fields
unfolding keep_allowed
filter_values none fields = fields
filter_values (some keys) fields = keep_allowed (some keys) fields

-- One node's delta.
unfoldable pub filter_update : List Text → String → Json → Json
unfolding is_reserved keep_allowed
filter_update keys node (Json.obj update) =
    if is_reserved node then Json.obj update else Json.obj (keep_allowed (some keys) update)
filter_update keys node Json.null = Json.null
filter_update keys node (Json.bool b) = Json.bool b
filter_update keys node (Json.int n) = Json.int n
filter_update keys node (Json.float text) = Json.float text
filter_update keys node (Json.str text) = Json.str text
filter_update keys node (Json.arr items) = Json.arr items

unfoldable pub filter_nodes : List Text → Fields → Fields
unfolding filter_update
filter_nodes keys Fields.end = Fields.end
filter_nodes keys (Fields.field node update fields) =
    Fields.field node (filter_update keys node update) (filter_nodes keys fields)

unfoldable pub filter_updates : Option (List Text) → Fields → Fields
unfolding filter_nodes
filter_updates none fields = fields
filter_updates (some keys) fields = filter_nodes keys fields
