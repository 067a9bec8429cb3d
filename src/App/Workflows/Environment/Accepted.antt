-- ===== src/App/Workflows/Environment/Accepted.antt =====
-- What each accepted value of the environment has.
use hermes_vps.Prelude.{
  ℕ, ◌≤◌, ◌≡◌, refl, ◌∙◌, sym, ◌↔◌, ◌≢◌, Bool, true, false, not, String, List, [], ◌∷◌, ◌==◌, arith,
  eq_iff, ltb, nat_eq, ◌||◌, all, any, elem, length, ◌⊎◌, if◌then◌else◌, inl, inr,
}
use hermes_vps.Prelude.Flow.{ok, raise, and_then, and_then-ok, ok-inj}
use hermes_vps.Text.{codes}
use hermes_vps.Text.Regex.{Within, fullmatch, fullmatch-all, plus-all, is_digit, digits}
use hermes_vps.App.Workflows.Environment.{
  Os, Checked, EnvironmentError, require, oauth_providers, allowlist_pattern, check_allowlist,
  check_credentials, auth_path, is_quoting, is_alphanumeric, version_pattern, check_version,
  int_of_digits, in_range, number_from, parse_bootstrap_port, validate_allowed_tcp_ports,
}

require-ok : (b : Bool) (text : String) {u : Unit {0}} → require b text ≡ ok u → b ≡ true
require-ok true text e = refl
require-ok false text e = absurd (cc)

-- A chain that starts with a test and returns has passed the test.
pub require-then :
    {A : Type 0} (b : Bool) (text : String) (f : Unit {0} → Checked A) {x : A}
    → and_then (require b text) f ≡ ok x
    → (b ≡ true) × (f tt ≡ ok x)
require-then true text f e = (refl, e)
require-then false text f e = absurd (cc)

digits-all : (cs : List ℕ) → fullmatch digits cs ≡ true → (1 ≤ length cs) × (all is_digit cs ≡ true)
unfolding fullmatch
digits-all [] h = absurd (cc)
digits-all (c ∷ cs) h = (omega arith, sym (plus-all is_digit c cs) ∙ h)

all-digits : (cs : List ℕ) → 1 ≤ length cs → all is_digit cs ≡ true → fullmatch digits cs ≡ true
all-digits [] l h = absurd (omega arith)
all-digits (c ∷ cs) l h = plus-all is_digit c cs ∙ h

int_of_digits-ok :
    (cs : List ℕ) {n : ℕ} → int_of_digits cs ≡ ok n → (length cs ≤ 4300) × (number_from 0 cs ≡ n)
int_of_digits-ok cs {n} e = go (ltb 4300 (length cs)) refl e
  where
    go :
        (b : Bool)
        → ltb 4300 (length cs) ≡ b
        → ◌≡◌ {A = Checked ℕ}
            (if b then raise EnvironmentError.too_many_digits else ok (number_from 0 cs))
            (ok n)
        → (length cs ≤ 4300) × (number_from 0 cs ≡ n)
    go true t h = absurd (cc)
    go false t h = (ground arith, ok-inj h)

-- A number that `parse_bootstrap_port` may return for the characters.
abbrev pub IsPort : List ℕ → ℕ → Type 0
IsPort cs port =
    (1 ≤ length cs)
    × (length cs ≤ 4300)
    × (all is_digit cs ≡ true)
    × (number_from 0 cs ≡ port)
    × (1 ≤ port)
    × (port ≤ 65535)

-- A text is accepted as the SSH port exactly when it is a decimal numeral, of 4300 digits at most,
-- for a number from 1 to 65535; that number is the port.
pub parse_bootstrap_port_iff :
    (raw : String) (port : ℕ) → (parse_bootstrap_port raw ≡ ok port) ↔ IsPort (codes raw) port
unfolding parse_bootstrap_port
parse_bootstrap_port_iff raw port = (
  λ e.
      let (numeric, e1) =
        require-then (fullmatch digits (codes raw)) "BOOTSTRAP_SSH_PORT must be numeric" _ e in
      let (n, read, e2) = and_then-ok (int_of_digits (codes raw)) _ e1 in
      let (inside, e3) =
        require-then (in_range n) "BOOTSTRAP_SSH_PORT must be between 1 and 65535" _ e2 in
      let (some_digits, all_digits) = digits-all (codes raw) numeric in
      let (bounded, value) = int_of_digits-ok (codes raw) read in
      let same : n ≡ port = ok-inj e3 in
      (some_digits, bounded, all_digits, value ∙ same, ground arith, ground arith),
  λ (some_digits, bounded, all_digits, value, low, high).
      let numeric = all-digits (codes raw) some_digits all_digits in
      let short : ltb 4300 (length (codes raw)) ≡ false = ground arith in
      let inside : in_range port ≡ true = ground arith in rw (numeric, short, value, inside) refl,
)

-- A text that a double-quoted part of a single-quoted shell script holds as it is.
abbrev pub IsPlain : String → Type 0
IsPlain text = all (λ c. not (is_quoting c)) (codes text) ≡ true

not-any : (p : ℕ → Bool) (cs : List ℕ) → not (any p cs) ≡ true → all (λ c. not (p c)) cs ≡ true
not-any p [] h = refl
not-any p (c ∷ cs) h = ground (arith, not-any p cs)

pub validate_allowed_tcp_ports-IsPlain :
    (raw : String) {u : Unit {0}} → validate_allowed_tcp_ports raw ≡ ok u → IsPlain raw
unfolding validate_allowed_tcp_ports
validate_allowed_tcp_ports-IsPlain raw e =
    let (plain, e1) =
      require-then (not (any is_quoting (codes raw)))
        "TF_VAR_allowed_tcp_ports contains unsupported characters" _ e in
    not-any is_quoting (codes raw) plain

abbrev plain_char : ℕ → Bool
plain_char c = not (is_quoting c)

alphanumeric-plain : (c : ℕ) → is_alphanumeric c ≡ true → plain_char c ≡ true
alphanumeric-plain c h = ground arith

digit-plain : (c : ℕ) → is_digit c ≡ true → plain_char c ≡ true
digit-plain c h = ground arith

dot-plain : (c : ℕ) → nat_eq 46 c ≡ true → plain_char c ≡ true
dot-plain c h = ground arith

mark-plain : (c : ℕ) → (nat_eq c 46 || nat_eq c 45) ≡ true → plain_char c ≡ true
mark-plain c h = ground arith

version-Within : Within plain_char version_pattern
version-Within = (
  (digit-plain, digit-plain),
  (
    dot-plain,
    (
      (digit-plain, digit-plain),
      (
        dot-plain,
        ((digit-plain, digit-plain), (mark-plain, (alphanumeric-plain, alphanumeric-plain))),
      ),
    ),
  ),
)

pub given-ne : (text : String) → not (text == "") ≡ true → text ≢ ""
given-ne text h = λ same. ground (arith, eq_iff text "")

pub check_version-IsPlain :
    (version : String) {u : Unit {0}}
    → check_version version ≡ ok u
    → (version ≢ "") × IsPlain version
unfolding check_version
check_version-IsPlain version {u} e =
    let (given, e1) = require-then (not (version == "")) "HERMES_AGENT_VERSION must be set" _ e in
    (
      given-ne version given,
      fullmatch-all plain_char version_pattern (codes version) version-Within (
          require-ok (fullmatch version_pattern (codes version))
            "HERMES_AGENT_VERSION must be a pinned semantic version" e1),
    )

-- [0-9,-]
abbrev pub is_list_char : ℕ → Bool
is_list_char c = is_digit c || nat_eq c 44 || nat_eq c 45

digit-list : (c : ℕ) → is_digit c ≡ true → is_list_char c ≡ true
digit-list c h = ground arith

minus-list : (c : ℕ) → nat_eq 45 c ≡ true → is_list_char c ≡ true
minus-list c h = ground arith

comma-list : (c : ℕ) → nat_eq 44 c ≡ true → is_list_char c ≡ true
comma-list c h = ground arith

allowlist-Within : Within is_list_char allowlist_pattern
allowlist-Within = (
  ((minus-list, tt), (digit-list, digit-list)),
  (comma-list, ((minus-list, tt), (digit-list, digit-list))),
)

pub check_allowlist-all :
    (ids : String) {u : Unit {0}}
    → check_allowlist ids ≡ ok u
    → (ids ≢ "") × (all is_list_char (codes ids) ≡ true)
unfolding check_allowlist
check_allowlist-all ids e =
    let (given, e1) = require-then (not (ids == "")) "TELEGRAM_ALLOWLIST_IDS must be set" _ e in
    (
      given-ne ids given,
      fullmatch-all is_list_char allowlist_pattern (codes ids) allowlist-Within (
          require-ok (fullmatch allowlist_pattern (codes ids))
            "TELEGRAM_ALLOWLIST_IDS must be comma-separated integers" e1),
    )

-- The provider is an OAuth provider with its artifact, or there is an API key.
abbrev pub HasCredentials : Os → String → String → String → Type 0
HasCredentials os repo_root hermes_provider api_key =
    ((elem hermes_provider oauth_providers ≡ true) × (os.is_file (auth_path repo_root) ≡ true))
    ⊎ (api_key ≢ "")

or-cases : (a b : Bool) → (a || b) ≡ true → (a ≡ true) ⊎ (b ≡ true)
or-cases true b h = inl refl
or-cases false b h = inr h

pub check_credentials-HasCredentials :
    (os : Os) (repo_root hermes_provider api_key : String) {u : Unit {0}}
    → check_credentials os repo_root hermes_provider api_key ≡ ok u
    → HasCredentials os repo_root hermes_provider api_key
unfolding check_credentials
check_credentials-HasCredentials os repo_root hermes_provider api_key {u} e =
    go (elem hermes_provider oauth_providers) refl e
  where
    go :
        (b : Bool)
        → elem hermes_provider oauth_providers ≡ b
        → (if b
            then require
                (os.is_file (auth_path repo_root) || not (api_key == ""))
                "OAuth provider selected but no auth artifact found"
            else require (not (api_key == "")) "HERMES_API_KEY must be set")
          ≡ ok u
        → HasCredentials os repo_root hermes_provider api_key
    go true oauth h =
        elim (or-cases (os.is_file (auth_path repo_root)) (not (api_key == "")) (
          require-ok (os.is_file (auth_path repo_root) || not (api_key == ""))
            "OAuth provider selected but no auth artifact found" h)) [
              | inl found ↦ inl (oauth, found)
              | inr given ↦ inr (given-ne api_key given)
            ]
    go false oauth h =
        inr (given-ne api_key (require-ok (not (api_key == "")) "HERMES_API_KEY must be set" h))
