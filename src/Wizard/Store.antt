-- ===== src/Wizard/Store.antt =====
-- scripts/configure_services.py: `EnvStore`, the staged editor of `.env`, and the line reader and
-- writer of scripts/configure_logic.py. The text of a file, and what is read of it, is the list of
-- its lines, as `text.split("\n")` gives them: the empty text is one empty line.
pub mod Lines
pub mod Returns
pub mod View
pub mod Refinement
use Prim.Native.Char.{code}
use hermes_vps.Prelude.{
  ℕ, ◌≡◌, refl, Bool, true, false, not, ◌&&◌, String, Option, none, some, List, [], ◌∷◌, ◌++◌, ◌==◌,
  nat_eq, if◌then◌else◌, is_some,
}
use hermes_vps.Prelude.Dict.{Dict, lookup, insert}
use hermes_vps.Prelude.Flow.{Result, ok, raise}
use hermes_vps.Text.{◌<>◌}
use hermes_vps.Core.Interfaces.{Exception}

-- The two one-character texts are the same.
abbrev same_char : Prim.Native.Char.Char → Prim.Native.Char.Char → Bool
same_char c d = String.◌∷◌ c "" == String.◌∷◌ d ""

-- What follows a prefix.
unfoldable pub after_prefix : String → String → Option String
after_prefix String.[] s = some s
after_prefix (String.◌∷◌ c p) String.[] = none
after_prefix (String.◌∷◌ c p) (String.◌∷◌ d s) =
    let rest = after_prefix p s in if same_char c d then rest else none

after_equals : Option String → Option String
unfolding after_prefix
after_equals none = none
after_equals (some rest) = after_prefix "=" rest

-- The group of `^KEY=(.*)$` in a line.
unfoldable pub value_of_line : String → String → Option String
unfolding after_prefix after_equals
value_of_line key line = after_equals (after_prefix key line)

value_or : Option String → String → String
value_or none later = later
value_or (some value) later = value

-- The lines that a line of a file is read as, since a carriage return ends a line too; before a
-- newline (`ended`) the two are one end.
unfoldable pub split_returns : Bool → String → List String
split_returns ended String.[] = "" ∷ []
split_returns ended (String.◌∷◌ c s) = elim (split_returns ended s) [
  | [] ↦ []
  | line ∷ lines ↦
      if nat_eq (code c) 13
      then if ended && s == "" then line ∷ lines else "" ∷ line ∷ lines
      else String.◌∷◌ c line ∷ lines
]

-- `read_text()` with its universal newlines: the lines of the text that is read of a file, from the
-- lines that were written to it.
unfoldable pub read_text : List String → List String
unfolding split_returns
read_text [] = []
read_text (line ∷ []) = split_returns false line
read_text (line ∷ next ∷ lines) = split_returns true line ++ read_text (next ∷ lines)

-- `re.search` in the text that was read, and the group of its match or the empty text
unfoldable pub search_value : String → List String → String
unfolding value_of_line value_or
search_value key [] = ""
search_value key (line ∷ lines) = value_or (value_of_line key line) (search_value key lines)

-- `get_env_value`
unfoldable pub get_env_value : String → List String → String
unfolding read_text search_value
get_env_value key file = search_value key (read_text file)

-- pattern.search(content)
unfoldable pub has_line : String → List String → Bool
unfolding value_of_line
has_line key [] = false
has_line key (line ∷ lines) =
    let later = has_line key lines in if is_some (value_of_line key line) then true else later

-- text.split("\n")
unfoldable pub split_lines : String → List String
split_lines String.[] = "" ∷ []
split_lines (String.◌∷◌ c s) = elim (split_lines s) [
  | [] ↦ []
  | line ∷ lines ↦ if nat_eq (code c) 10 then "" ∷ line ∷ lines else String.◌∷◌ c line ∷ lines
]

-- pattern.sub(text, content, count=1), with the lines of the text
unfoldable pub replace_line : String → List String → List String → List String
unfolding value_of_line
replace_line key new [] = []
replace_line key new (line ∷ lines) =
    let later = replace_line key new lines in
    if is_some (value_of_line key line) then new ++ lines else line ∷ later

-- The lines of a text that may lack its last newline, without the empty line after it.
unfoldable pub closed : List String → List String
closed [] = []
closed (line ∷ []) = if line == "" then [] else line ∷ []
closed (line ∷ next ∷ lines) = line ∷ closed (next ∷ lines)

put_expanded : String → List String → Option String → Option (List String)
unfolding split_lines replace_line
put_expanded key content none = none
put_expanded key content (some text) = some (replace_line key (split_lines text) content)

abbrev bind_content :
    Option (List String) → (List String → Option (List String)) → Option (List String)
bind_content none again = none
bind_content (some content) again = again content

-- `expand` is the text that a replacement template of `re` stands for, or nothing where `re` refuses
-- the template.
module _ (expand : String → Option String) where
  -- `_upsert_env_line`, as in `set_env_value`
  unfoldable pub upsert_env_line : List String → String → String → Option (List String)
  unfolding has_line put_expanded closed split_lines
  upsert_env_line content key value =
      let line = key <> "=" <> value in
      if has_line key content
      then put_expanded key content (expand line)
      else some (closed content ++ (split_lines line ++ ("" ∷ [])))

  -- The loop of `flush`.
  unfoldable pub upsert_all : Dict String → List String → Option (List String)
  unfolding upsert_env_line
  upsert_all [] content = some content
  upsert_all ((key, value) ∷ staged) content =
      bind_content (upsert_env_line content key value) λ after. upsert_all staged after

pub record EnvStore : Type 0 where
  pub file : List String
  pub staged : Dict String

abbrev or_file : Option String → String → String
or_file none value = value
or_file (some staged) value = staged

-- `get`
unfoldable pub get : EnvStore → String → String
unfolding lookup get_env_value
get store key = or_file (lookup key store.staged) (get_env_value key store.file)

-- The staged value, or none, decides what a value is compared with.
set_with : Option String → String → String → EnvStore → EnvStore
unfolding insert get_env_value
set_with (some old) key value store =
    if old == value then store else record store { staged = insert key value store.staged }
set_with none key value store =
    if get_env_value key store.file == value
    then store
    else record store { staged = insert key value store.staged }

-- `set`
unfoldable pub set : String → String → EnvStore → EnvStore
unfolding set_with lookup
set key value store = set_with (lookup key store.staged) key value store

-- What a failed flush raises: `re.error`, or what writing the file raised.
pub data FlushError : Type 0 where
  bad_template : FlushError
  not_written : Exception → FlushError

-- The new text is written beside the file and put in its place, or an exception is raised and the
-- file is as it was.
commit :
    Option Exception → Option (List String) → EnvStore → Result FlushError (Unit {0}) × EnvStore
commit failure none store = (raise bad_template, store)
commit (some exc) (some content) store = (raise (not_written exc), store)
commit none (some content) store = (ok tt, record { file = content; staged = [] })

flush_with :
    Dict String
    → (String → Option String)
    → Option Exception
    → EnvStore
    → Result FlushError (Unit {0}) × EnvStore
unfolding upsert_all commit read_text
flush_with [] expand failure store = (ok tt, store)
flush_with (entry ∷ staged) expand failure store =
    commit failure (upsert_all expand (entry ∷ staged) (read_text store.file)) store

-- `flush`; `failure` is what writing the file raises, if it does.
unfoldable pub flush :
    (String → Option String) → Option Exception → EnvStore → Result FlushError (Unit {0}) × EnvStore
unfolding flush_with
flush expand failure store = flush_with store.staged expand failure store
