-- ===== src/App/Shim.antt =====
-- hermes_vps_app/just_shim.py: the arguments that a `just` recipe hands to the command line.
use hermes_vps.Prelude.{Bool, String, Option, none, some, List, [], ◌∷◌, ◌++◌, ◌==◌, if◌then◌else◌}
use hermes_vps.Text.{◌<>◌, strip}
use hermes_vps.Wizard.Store.{after_prefix}

abbrev or_whole : String → Option String → String
or_whole text none = text
or_whole text (some rest) = strip rest

-- `_clean_assignment`
unfoldable pub clean_assignment : String → String → String
unfolding strip after_prefix
clean_assignment value name =
    let stripped = strip value in or_whole stripped (after_prefix (name <> "=") stripped)

abbrev text_or_none : String → Option String
text_or_none text = if text == "" then none else some text

-- `_provider_from_just`
unfoldable pub provider_from_just : String → String → Option String
unfolding strip clean_assignment
provider_from_just provider provider_arg =
    let arg_value =
      if strip provider_arg == "" then "" else clean_assignment provider_arg "PROVIDER" in
    if arg_value == "" then text_or_none (strip provider) else some arg_value

-- `_destroy_confirmed`
unfoldable pub destroy_confirmed : String → Bool
unfolding clean_assignment
destroy_confirmed confirm = clean_assignment confirm "CONFIRM" == "YES"

abbrev provider_words : Option String → List String
provider_words none = []
provider_words (some provider) = "--provider" ∷ provider ∷ []

abbrev approval_words : Option String → List String
approval_words none = []
approval_words (some provider) = "--approve-destructive" ∷ ("DESTROY:" <> provider) ∷ []

abbrev cli_words : String → String → Option String → List String
cli_words workflow repo_root provider =
    (workflow ∷ "--repo-root" ∷ repo_root ∷ []) ++ provider_words provider

-- `main`: the arguments for `cli.main`, or nothing where it prints a refusal and returns 1.
unfoldable pub cli_arguments : String → String → String → String → String → Option (List String)
unfolding provider_from_just destroy_confirmed
cli_arguments workflow repo_root provider_raw provider_arg confirm =
    let provider = provider_from_just provider_raw provider_arg in
    let words = cli_words workflow repo_root provider in
    if workflow == "destroy"
    then (if destroy_confirmed confirm then some (words ++ approval_words provider) else none)
    else some words
