-- ===== src/Wizard/Samples.antt =====
-- The wizard's theorems at work on small wizards.
use hermes_vps.Prelude.{
  ◌↔◌, some, Option, none, ◌≡◌, refl, true, false, String, List, [], ◌∷◌, ◌++◌, arith, elem, ◌⊎◌,
}
use hermes_vps.Prelude.Flow.{ok, raise}
use hermes_vps.Value.{pos}
use hermes_vps.Prelude.Dict.{keys}
use hermes_vps.Wizard.Store.{EnvStore, get, flush, get_env_value}
use hermes_vps.Wizard.Store.Lines.{Lacks}
use hermes_vps.Wizard.Store.Refinement.{
  IsStore, Change, put, write, changed, changed_map, changed-get, flush-written,
}
use hermes_vps.Wizard.Flow.{
  new, advance, advance_times, fresh, created, advanced, IsInRange, Reachable-IsInRange, Finishes,
  advance_times-finished,
}
use hermes_vps.Text.{◌<>◌}
use hermes_vps.Wizard.State.{WizardState, validate_hermes}
use hermes_vps.Wizard.State.Pinned.{IsPinned, validate_hermes_iff}
use hermes_vps.Wizard.Task.{new_task, begin, is_current, steps, begins, cancels, is_current-steps}
use hermes_vps.Wizard.Registry.{register, Registered, register_lem}
use hermes_vps.Wizard.Seed.{
  no_options, choose_seed, rotate_to_seed, StartsWith, rotate_to_seed_lem, choose_seed_lem,
  IsChoice,
}

abbrev regions : List String
regions = "fsn1" ∷ "nbg1" ∷ "hel1" ∷ []

fresh_three : new (pos 3) (pos 0) ≡ ok (fresh 3)
unfolding new
fresh_three = refl

Reachable-IsInRange_example : IsInRange (advance (fresh 3)).1
Reachable-IsInRange_example =
    Reachable-IsInRange (advance (fresh 3)).1
      (advanced (fresh 3) (created (pos 3) (pos 0) (fresh 3) fresh_three))

advance_times-finished_example : Finishes 3 2 (advance (advance_times 2 (fresh 3)))
advance_times-finished_example = advance_times-finished 3 2 (omega arith)

is_current-steps_example :
    is_current (begin new_task).0 (steps (begins ∷ cancels ∷ []) (begin new_task).1) ≡ false
is_current-steps_example = is_current-steps new_task (begins ∷ cancels ∷ [])

register_lem_example :
    Registered
      (λ s. s)
      "server"
      (("cloud", "cloud") ∷ [])
      (register (λ s. s) "server" (("cloud", "cloud") ∷ []))
register_lem_example = register_lem (λ s. s) "server" (("cloud", "cloud") ∷ [])

rotate_to_seed_lem_example :
    (front : List String) × (behind : List String) × (regions ≡ front ++ behind)
    × (rotate_to_seed regions "nbg1" ≡ behind ++ front)
    × (elem "nbg1" regions ≡ true → StartsWith "nbg1" (rotate_to_seed regions "nbg1"))
rotate_to_seed_lem_example = rotate_to_seed_lem regions "nbg1"

choose_seed_lem_example :
    ((regions ≡ []) × (choose_seed regions "hel1" "fsn1" ≡ raise no_options))
    ⊎ ((s : String) × (choose_seed regions "hel1" "fsn1" ≡ ok s) × IsChoice regions "hel1" "fsn1" s)
choose_seed_lem_example = choose_seed_lem regions "hel1" "fsn1"

-- A file with two lines, the first ended by a carriage return and a newline, and one staged value.
abbrev small_store : EnvStore
small_store = record { file = "A=1\r" ∷ "B=2" ∷ "" ∷ []; staged = ("B", "3") ∷ [] }

abbrev as_it_is : String → Option String
as_it_is text = some text

small_store-IsStore : IsStore as_it_is small_store
unfolding elem keys
small_store-IsStore = ((refl, tt), ((refl, refl, refl, refl), tt))

abbrev small_changes : List Change
small_changes = put "A" "4" ∷ write none ∷ put "C" "5" ∷ []

changed-get_example :
    get (changed as_it_is small_changes small_store) "A"
    ≡ changed_map small_changes (get small_store) "A"
changed-get_example =
    changed-get as_it_is small_changes small_store small_store-IsStore
      ((refl, refl, refl, refl), (tt, ((refl, refl, refl, refl), tt))) "A" refl

flush-written_example :
    ((flush as_it_is none small_store).0 ≡ ok tt)
    × ((flush as_it_is none small_store).1.staged ≡ [])
    × ((j : String)
        → Lacks 61 j
        → get_env_value j (flush as_it_is none small_store).1.file ≡ get small_store j)
flush-written_example = flush-written as_it_is small_store small_store-IsStore

abbrev small_state : WizardState
small_state = record {
  provider = "hetzner";
  provider_token_replace = false;
  provider_token_input = "";
  server_image = "debian-13";
  location = "fsn1";
  server_type = "cx22";
  hostname = "vps";
  admin_username = "admin";
  admin_group = "sshusers";
  ssh_private_key_path = "/keys/id";
  hermes_agent_version = "0.10.0";
  hermes_agent_release_tag = "";
  hermes_provider = "nous";
  hermes_model = "hermes-4";
  hermes_auth_method = "oauth";
  telegram_bot_token_replace = false;
  telegram_bot_token_input = "";
  telegram_allowlist_ids = "5";
  add_ssh_alias = true;
  original_values = [];
}

validate_hermes_iff_example :
    (((validate_hermes small_state).0 ≡ []) ↔ IsPinned small_state)
    × (IsPinned small_state
        → (validate_hermes small_state).1.hermes_agent_release_tag ≡ "v" <> "0.10.0")
validate_hermes_iff_example = validate_hermes_iff small_state
