-- ===== src/Core/Actions/Outcome.antt =====
-- Redaction and the action result schema: `redact_text`, `sanitize_for_schema`,
-- `bounded_output_tail` and `normalize_action_result`.
use Prim.Native.String.{len, slice}
use hermes_vps.Prelude.{
  ℕ, zero, suc, ◌-◌, Bool, true, false, ◌||◌, String, Option, none, some, List, [], ◌∷◌, ◌==◌, elem,
  if◌then◌else◌, leb, is_some,
}
use hermes_vps.Prelude.Flow.{Result, ok, raise, and_then}
use hermes_vps.Value
use hermes_vps.Value.{
  ℤ, pos, Value, Items, Fields, null, bool, int, str, list, dict, nil, item, end, field, truthy,
  or_null,
}
use hermes_vps.Text.{◌<>◌}
use hermes_vps.Core.Interfaces.{Exception, value_error}
use hermes_vps.Core.Actions.Policy.{is_text}

-- The compiled patterns, in the order in which `redact_text` applies them.
pub data SecretPattern : Type 0 where
  secret_assignment secret_json_field : SecretPattern
  host_override_token destroy_token telegram_token google_token super_secret : SecretPattern

-- What the interpreter supplies: `sub p text` is `re`'s substitution of the pattern's matches by
-- its replacement, `repr` is `str()` of a value that is no text, and `parse_int` is `int()` of a
-- text, where it is a number.
pub record Runtime : Type 0 where
  pub sub : SecretPattern → String → String
  pub repr : Value → String
  pub parse_int : String → Option ℤ

abbrev pub action_result_schema : String
action_result_schema = "hermes.action_result.v1"

abbrev pub redaction_marker : String
redaction_marker = "***"

abbrev pub output_tail_bytes : ℕ
output_tail_bytes = 4096

-- U+FFFD for each byte of a character that the cut went through.
unfoldable pub replacements : ℕ → String
replacements zero = ""
replacements (suc n) = "�" <> replacements n

-- The last `limit` bytes of the UTF-8 of a longer text, decoded with errors="replace".
unfoldable pub decode_tail : ℕ → String → String
unfolding replacements
decode_tail limit s =
    let whole = slice s (len s - limit) (len s) in replacements (limit - len whole) <> whole

-- The keys of `raw` that do not go into the details.
abbrev pub reserved_keys : List String
reserved_keys =
    "kind" ∷ "ok" ∷ "redactions_applied" ∷ "runner_mode" ∷ "exit_code" ∷ "command" ∷ "stdout"
    ∷ "stderr" ∷ "output_truncated" ∷ "schema" ∷ []

unfoldable pub extra_details : Fields → Fields
unfolding elem
extra_details end = end
extra_details (field k v d) =
    let rest = extra_details d in if elem k reserved_keys then rest else field k v rest

-- x or y
abbrev pub or_else : Value → Value → Value
or_else x y = if truthy x then x else y

abbrev is_present : String → Fields → Bool
is_present k d = is_some (Value.get k d)

module _ (rt : Runtime) where
  unfoldable pub redact_text : String → String
  redact_text s =
      let s1 = rt.sub secret_assignment s in
      let s2 = rt.sub secret_json_field s1 in
      let s3 = rt.sub host_override_token s2 in
      let s4 = rt.sub destroy_token s3 in
      let s5 = rt.sub telegram_token s4 in let s6 = rt.sub google_token s5 in rt.sub super_secret s6

  -- str(x)
  abbrev pub text_of : Value → String
  text_of (str s) = s
  text_of v = rt.repr v

  unfoldable mutual
    pub sanitize_for_schema : Value → Value
    sanitize_for_schema (str s) = str (redact_text s)
    sanitize_for_schema (dict d) = dict (sanitize_fields d)
    sanitize_for_schema (list l) = list (sanitize_items l)
    sanitize_for_schema v = v

    pub sanitize_items : Items → Items
    sanitize_items nil = nil
    sanitize_items (item v l) = item (sanitize_for_schema v) (sanitize_items l)

    pub sanitize_fields : Fields → Fields
    sanitize_fields end = end
    sanitize_fields (field k v d) = field k (sanitize_for_schema v) (sanitize_fields d)

  unfoldable pub bounded_output_tail : String → ℕ → String × Bool
  unfolding redact_text decode_tail
  bounded_output_tail text limit =
      let redacted = redact_text text in
      if leb (len redacted) limit then (redacted, false) else (decode_tail limit redacted, true)

  unfoldable pub text_items : Items → Items
  text_items nil = nil
  text_items (item v l) = item (str (text_of v)) (text_items l)

  abbrev command_value : Value → Value
  command_value (list l) = sanitize_for_schema (list (text_items l))
  command_value v = sanitize_for_schema (str (text_of v))

  -- int(x), of a value that is true or 0
  abbrev int_of : Value → Result Exception ℤ
  int_of (int n) = ok n
  int_of (bool true) = ok (pos 1)
  int_of (bool false) = ok (pos 0)
  int_of (str s) = elim (rt.parse_int s) [ some n ↦ ok n | none ↦ raise bad_int ]
    where
      bad_int : Exception
      bad_int = record {
        class = value_error;
        args = [];
        text = "invalid literal for int()";
        selection = none;
      }
  int_of v =
      raise (record { class = value_error; args = []; text = "int() argument"; selection = none })

  with_mode : Fields → Fields → Fields
  with_mode raw d = elim (or_null (Value.get "runner_mode" raw)) [
    | null ↦ d
    | v ↦ Value.put "runner_mode" (str (text_of v)) d
  ]

  with_exit_code : Fields → Fields → Result Exception Fields
  with_exit_code raw d =
      if is_present "exit_code" raw
      then and_then (int_of (or_else (or_null (Value.get "exit_code" raw)) (int (pos 0))))
          (λ n. ok (Value.put "exit_code" (int n) d))
      else ok d

  with_command : Fields → Fields → Fields
  with_command raw d =
      if is_present "command" raw
      then Value.put "command" (command_value (or_null (Value.get "command" raw))) d
      else d

  -- bounded_output_tail(str(raw.get(key) or ""))
  tail_of : String → Fields → String × Bool
  unfolding bounded_output_tail
  tail_of key raw =
      bounded_output_tail (text_of (or_else (or_null (Value.get key raw)) (str "")))
        output_tail_bytes

  output_fields : Fields → Fields
  unfolding tail_of
  output_fields raw =
      let (stdout_tail, stdout_truncated) = tail_of "stdout" raw in
      let (stderr_tail, stderr_truncated) = tail_of "stderr" raw in
      field "stdout_tail" (str stdout_tail) (
        field "stderr_tail" (str stderr_tail) (
          field "truncated"
            (bool (
              truthy (Value.get_or "output_truncated" (bool false) raw)
              || stdout_truncated
              || stderr_truncated))
            (field "tail_bytes" (int (pos output_tail_bytes)) end)))

  with_output : String → Fields → Fields → Fields
  unfolding output_fields
  with_output kind raw d =
      if kind == "command" || is_present "stdout" raw || is_present "stderr" raw
      then Value.put "output" (dict (output_fields raw)) (Value.put "kind" (str "command") d)
      else d

  with_details : Fields → Fields → Fields
  with_details raw d = elim (extra_details raw) [
    | end ↦ d
    | field k v rest ↦
        let safe = sanitize_fields (field k v rest) in
        Value.update (Value.put "details" (dict safe) d) safe
  ]

  normal_base : String → Fields → Fields
  normal_base kind raw = field "schema" (str action_result_schema) (
      field "kind" (str kind) (
        field "ok" (bool (truthy (Value.get_or "ok" (bool true) raw))) (
          field "redactions"
            (dict (
              field "applied" (bool (truthy (Value.get_or "redactions_applied" (bool true) raw)))
                (field "marker" (str redaction_marker) end)))
            end)))

  -- With the default of `default_kind`.
  unfoldable pub normalize_action_result : Fields → Result Exception Fields
  unfolding with_mode with_exit_code with_command with_output with_details normal_base
      sanitize_fields extra_details Value.get Value.put Value.update Value.get_or
  normalize_action_result raw =
      if is_text action_result_schema (or_null (Value.get "schema" raw))
      then ok (sanitize_fields raw)
      else let kind = text_of (or_else (or_null (Value.get "kind" raw)) (str "preflight")) in
        and_then (with_exit_code raw (with_mode raw (normal_base kind raw)))
          (λ d. ok (with_details raw (with_output kind raw (with_command raw d))))
