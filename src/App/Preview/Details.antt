-- ===== src/App/Preview/Details.antt =====
-- hermes_vps_app/status_presentation.py: `_node_details`, what a row shows of its action.
use Prim.Native.Char.{code}
use hermes_vps.Prelude.{
  Bool, true, String, Option, none, some, List, [], ◌∷◌, ◌++◌, ◌==◌, if◌then◌else◌, is_some,
}
use hermes_vps.Value
use hermes_vps.Value.{Value, bool, str, list, dict, nil, item, Items, Fields, end, field}
use hermes_vps.Text.{◌<>◌, strip, is_space}
use hermes_vps.Core.Actions.{ActionDescriptor}

abbrev add_word : String → List String → List String
add_word word words = if word == "" then words else word ∷ words

-- `str.split()`, after the characters of a word
unfoldable pub split_from : String → String → List String
split_from word String.[] = add_word word []
split_from word (String.◌∷◌ c s) =
    let done = split_from "" s in
    let more = split_from (word <> String.◌∷◌ c "") s in
    if is_space (code c) then add_word word done else more

abbrev items : List String → Items
items [] = nil
items (s ∷ l) = item (str s) (items l)

-- The command, or the words of the label.
source_command : Option Value → String → Fields
unfolding split_from strip
source_command (some (Value.bool b)) label = field "source_command" (bool b) end
source_command (some (Value.int n)) label = field "source_command" (Value.int n) end
source_command (some (str s)) label = field "source_command" (str s) end
source_command (some (list l)) label = field "source_command" (list l) end
source_command (some (dict d)) label = field "source_command" (dict d) end
source_command _ label =
    if strip label == ""
    then end
    else field "source_command" (list (items (split_from "" label))) end

copy_key : String → Option Value → Fields → Fields
unfolding Value.put
copy_key key none details = details
copy_key key (some v) details = Value.put key v details

unfoldable pub copy_keys : List String → Fields → Fields → Fields
unfolding copy_key Value.get
copy_keys [] output details = details
copy_keys (key ∷ more) output details =
    copy_keys more output (copy_key key (Value.get key output) details)

add_output : Option Value → Fields → Fields
unfolding copy_keys
add_output (some (dict output)) details =
    copy_keys ("stdout_tail" ∷ "stderr_tail" ∷ "truncated" ∷ "tail_bytes" ∷ []) output details
add_output _ details = details

stripped_hint : Option String → List String
unfolding strip
stripped_hint none = []
stripped_hint (some hint) = add_word (strip hint) []

scope_hint : Option String → List String
scope_hint none = []
scope_hint (some scope) = ("Repair or rerun scope: " <> scope <> ".") ∷ []

default_hints : Bool → List String → List String
default_hints true [] =
    "If this node fails, inspect the bounded output tails, repair inputs, and rerun the failed node."
    ∷ []
default_hints _ hints = hints

add_hints : List String → Fields → Fields
unfolding Value.put
add_hints [] details = details
add_hints (h ∷ hints) details = Value.put "remediation_hints" (list (items (h ∷ hints))) details

non_empty : Fields → Option Fields
non_empty end = none
non_empty (field k v d) = some (field k v d)

-- `_node_details`
unfoldable pub node_details : ActionDescriptor → Fields → Option String → Option Fields
unfolding source_command add_output stripped_hint scope_hint default_hints add_hints non_empty
    Value.get
node_details a result scope =
    let command = source_command (Value.get "command" result) a.label in
    let details = add_output (Value.get "output" result) command in
    let hints = stripped_hint a.repair_hint ++ scope_hint scope in
    non_empty
      (add_hints (default_hints (is_some (Value.get "source_command" details)) hints) details)
