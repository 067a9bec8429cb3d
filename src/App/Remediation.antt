-- ===== src/App/Remediation.antt =====
-- hermes_vps_app/cloud_remediation.py: what to check and install when a live lookup fails.
use hermes_vps.Prelude.{String, Option, none, some, List, [], ◌∷◌, ◌++◌, ◌==◌, if◌then◌else◌}
use hermes_vps.Prelude.Flow.{Result, ok, raise}
use hermes_vps.Text.{◌<>◌, join}
use hermes_vps.App.Config.{CloudProvider, hetzner, linode}

pub data FailureReason : Type 0 where
  missing_binary missing_token token_invalid token_insufficient_scope : FailureReason
  auth_unknown metadata_unavailable : FailureReason

pub data PredicateType : Type 0 where
  exit_code_eq json_path_exists stdout_regex : PredicateType

pub data CheckKind : Type 0 where
  binary_present token_present auth_probe metadata_probe : CheckKind

pub record OutcomePredicate : Type 0 where
  pub predicate : PredicateType
  pub value : String

pub record RemediationCheck : Type 0 where
  pub kind : CheckKind
  pub command : List String
  pub expected : OutcomePredicate
  pub note : Option String

pub record CloudRemediationPayload : Type 0 where
  pub provider : CloudProvider
  pub reason : FailureReason
  pub summary : String
  pub checks : List RemediationCheck
  pub install_hints : List String
  pub docs_url : Option String

-- The three patterns of `_sanitize_detail`.
pub data DetailPattern : Type 0 where
  token_detail authorization_detail secret_key : DetailPattern

-- `_sanitize_detail`; `sub p text` is `re.sub` of the pattern by its replacement.
abbrev pub sanitize_detail : (DetailPattern → String → String) → Option String → Option String
sanitize_detail sub none = none
sanitize_detail sub (some detail) =
    if detail == ""
    then none
    else some (sub secret_key (sub authorization_detail (sub token_detail detail)))

abbrev exits_with_zero : OutcomePredicate
exits_with_zero = record { predicate = exit_code_eq; value = "0" }

abbrev has_path : String → OutcomePredicate
has_path path = record { predicate = json_path_exists; value = path }

abbrev check_of : CheckKind → List String → OutcomePredicate → Option String → RemediationCheck
check_of kind command expected note = record {
  kind = kind;
  command = command;
  expected = expected;
  note = note;
}

abbrev hetzner_checks : List RemediationCheck
hetzner_checks =
    check_of binary_present ("hcloud" ∷ "version" ∷ []) exits_with_zero none
    ∷ check_of token_present ("bash" ∷ "-lc" ∷ "test -n \"${HCLOUD_TOKEN:-}\"" ∷ []) exits_with_zero
        (some "Token-safe presence check only; never echo token.")
    ∷ check_of auth_probe ("hcloud" ∷ "server" ∷ "list" ∷ "-o" ∷ "json" ∷ []) exits_with_zero none
    ∷ check_of metadata_probe ("hcloud" ∷ "location" ∷ "list" ∷ "-o" ∷ "json" ∷ [])
        (has_path "$[0].name") none
    ∷ []

abbrev linode_checks : List RemediationCheck
linode_checks =
    check_of binary_present ("linode-cli" ∷ "--version" ∷ []) exits_with_zero none
    ∷ check_of token_present ("bash" ∷ "-lc" ∷ "test -n \"${LINODE_TOKEN:-}\"" ∷ []) exits_with_zero
        (some "Token-safe presence check only; never echo token.")
    ∷ check_of auth_probe
        ("linode-cli" ∷ "profile" ∷ "view" ∷ "--json" ∷ "--no-defaults" ∷ "--suppress-warnings"
          ∷ [])
        (has_path "$[0].email") none
    ∷ check_of metadata_probe
        ("linode-cli" ∷ "regions" ∷ "list" ∷ "--json" ∷ "--no-defaults" ∷ "--suppress-warnings"
          ∷ [])
        (has_path "$[0].id") none
    ∷ []

abbrev hetzner_summary : FailureReason → String
hetzner_summary missing_binary = "Live cloud lookup blocked: hcloud binary not found."
hetzner_summary missing_token = "Live cloud lookup blocked: HCLOUD_TOKEN is missing."
hetzner_summary token_invalid = "Hetzner authentication failed: token appears invalid."
hetzner_summary token_insufficient_scope =
    "Hetzner authentication failed: token appears to lack required read scope."
hetzner_summary auth_unknown = "Hetzner authentication failed with inconclusive diagnostics."
hetzner_summary metadata_unavailable =
    "Hetzner metadata lookup failed (locations/server types unavailable)."

abbrev linode_summary : FailureReason → String
linode_summary missing_binary = "Live cloud lookup blocked: linode-cli binary not found."
linode_summary missing_token = "Live cloud lookup blocked: LINODE_TOKEN is missing."
linode_summary token_invalid = "Linode authentication failed: token appears invalid."
linode_summary token_insufficient_scope =
    "Linode authentication failed: token appears to lack required read scope."
linode_summary auth_unknown = "Linode authentication failed with inconclusive diagnostics."
linode_summary metadata_unavailable =
    "Linode metadata lookup failed (regions/instance types unavailable)."

abbrev with_detail : String → Option String → String
with_detail summary none = summary
with_detail summary (some detail) =
    if detail == "" then summary else summary <> " Detail: " <> detail

-- `_hetzner`
unfoldable pub hetzner_payload : FailureReason → Option String → CloudRemediationPayload
hetzner_payload reason detail = record {
  provider = hetzner;
  reason = reason;
  summary = with_detail (hetzner_summary reason) detail;
  checks = hetzner_checks;
  install_hints =
      "Install hcloud CLI in the active toolchain."
      ∷ "Set HCLOUD_TOKEN with a token that can read server/location/server-type metadata." ∷ [];
  docs_url = some "https://github.com/hetznercloud/cli";
}

-- `_linode`
unfoldable pub linode_payload : FailureReason → Option String → CloudRemediationPayload
linode_payload reason detail = record {
  provider = linode;
  reason = reason;
  summary = with_detail (linode_summary reason) detail;
  checks = linode_checks;
  install_hints =
      "Install linode-cli in the active toolchain."
      ∷ "Set LINODE_TOKEN with a token that can read profile/regions/instance types." ∷ [];
  docs_url = some "https://www.linode.com/docs/products/tools/cli/guides/install/";
}

-- `remediation_for`, raising the text of a ValueError
unfoldable pub remediation_for :
    (DetailPattern → String → String)
    → String
    → FailureReason
    → Option String
    → Result String CloudRemediationPayload
unfolding hetzner_payload linode_payload
remediation_for sub provider reason detail =
    if provider == "hetzner"
    then ok (hetzner_payload reason (sanitize_detail sub detail))
    else if provider == "linode"
    then ok (linode_payload reason (sanitize_detail sub detail))
    else raise ("Unsupported provider for cloud remediation: " <> provider)

abbrev provider_text : CloudProvider → String
provider_text hetzner = "hetzner"
provider_text linode = "linode"

abbrev reason_text : FailureReason → String
reason_text missing_binary = "missing_binary"
reason_text missing_token = "missing_token"
reason_text token_invalid = "token_invalid"
reason_text token_insufficient_scope = "token_insufficient_scope"
reason_text auth_unknown = "auth_unknown"
reason_text metadata_unavailable = "metadata_unavailable"

abbrev kind_text : CheckKind → String
kind_text binary_present = "binary_present"
kind_text token_present = "token_present"
kind_text auth_probe = "auth_probe"
kind_text metadata_probe = "metadata_probe"

abbrev predicate_text : PredicateType → String
predicate_text exit_code_eq = "exit_code_eq"
predicate_text json_path_exists = "json_path_exists"
predicate_text stdout_regex = "stdout_regex"

abbrev line_if : String → Option String → List String
line_if prefix none = []
line_if prefix (some text) = if text == "" then [] else (prefix <> text) ∷ []

abbrev check_lines : List RemediationCheck → List String
check_lines [] = []
check_lines (c ∷ checks) =
    (("- [" <> kind_text c.kind <> "] " <> join " " c.command)
      ∷ ("  expect: " <> predicate_text c.expected.predicate <> "=" <> c.expected.value)
      ∷ line_if "  note: " c.note)
    ++ check_lines checks

abbrev hint_lines : List String → List String
hint_lines [] = []
hint_lines (hint ∷ hints) = ("- " <> hint) ∷ hint_lines hints

-- The title of a section that has lines.
abbrev titled : String → List String → List String
titled title [] = []
titled title (line ∷ lines) = title ∷ line ∷ lines

unfoldable pub render_remediation : CloudRemediationPayload → String
unfolding join
render_remediation payload = join "\n" (
    (("Provider: " <> provider_text payload.provider)
      ∷ ("Reason: " <> reason_text payload.reason)
      ∷ payload.summary
      ∷ [])
    ++ titled "Checks:" (check_lines payload.checks)
    ++ titled "Install hints:" (hint_lines payload.install_hints)
    ++ line_if "Docs: " payload.docs_url)
