-- ===== src/App/Shell/Session.antt =====
-- The host override session over a launch.
use mathlib.Core.Path.{subst}
use hermes_vps.Prelude.{
  ◌≡◌, refl, ◌≢◌, Bool, true, false, String, Option, none, some, List, [], ◌∷◌, ◌==◌, eq_iff, arith,
  if◌then◌else◌,
}
use hermes_vps.Text.{strip}
use hermes_vps.App.Startup.{PanelStartupState}
use hermes_vps.App.Shell.{
  InitialPanel, HostOverrideSession, ControlPanelShell, new_shell, refused, approved, answer_of,
  session_of, no_reason, request_host_override,
}

-- A call of `request_host_override`: whether to enable it, and the reason.
abbrev pub Request : Type 0
Request = Bool × String

-- The shells of a launch: a new one, and one after any number of requests, the latest first.
pub data Reachable : ControlPanelShell → List Request → Type 0 where
  launched :
      (state : Option PanelStartupState) (panel : InitialPanel)
      → Reachable (new_shell state panel) []
  requested :
      (shell : ControlPanelShell) (enable : Bool) (reason : String) (requests : List Request)
      → Reachable shell requests
      → Reachable (request_host_override enable reason shell).1 ((enable, reason) ∷ requests)

-- A session that the latest request asked for, with its reason, which is not blank.
abbrev pub HasReason : List Request → HostOverrideSession → Type 0
HasReason [] s = ⊥
HasReason ((enable, reason) ∷ requests) s =
    (enable ≡ true) × (s.override_reason ≡ strip reason) × (strip reason ≢ "")

abbrev IsAudited : List Request → Option HostOverrideSession → Type 0
IsAudited requests none = Unit
IsAudited requests (some s) = HasReason requests s

answer_of-IsAudited :
    (enable : Bool) (reason : String) (requests : List Request)
    → IsAudited ((enable, reason) ∷ requests) (session_of (answer_of enable (strip reason)))
unfolding answer_of
answer_of-IsAudited false reason requests = tt
answer_of-IsAudited true reason requests = go (strip reason == "") refl
  where
    go :
        (b : Bool)
        → (strip reason == "") ≡ b
        → IsAudited ((true, reason) ∷ requests) (
            session_of (
              if b
              then refused no_reason
              else approved (record { override_reason = strip reason })))
    go true blank = tt
    go false given = (refl, refl, λ same. ground (arith, eq_iff (strip reason) ""))

session-IsAudited :
    (shell : ControlPanelShell) (requests : List Request)
    → Reachable shell requests
    → IsAudited requests shell.session
unfolding request_host_override
session-IsAudited shell requests (launched state panel) = tt
session-IsAudited shell requests (requested before enable reason earlier r) =
    answer_of-IsAudited enable reason earlier

audited-HasReason :
    (requests : List Request) (o : Option HostOverrideSession) {s : HostOverrideSession}
    → IsAudited requests o
    → o ≡ some s
    → HasReason requests s
audited-HasReason requests none h e = absurd (cc)
audited-HasReason requests (some t) h e = subst (IsAudited requests) e h

-- After any requests of a launch, a host override session is one that the latest of them asked
-- for: it enabled the override, and its reason, stripped, is the session's and is not blank.
-- Before the first request there is none.
pub Reachable-HasReason :
    (shell : ControlPanelShell) (requests : List Request) (s : HostOverrideSession)
    → Reachable shell requests
    → shell.session ≡ some s
    → HasReason requests s
Reachable-HasReason shell requests s r e =
    audited-HasReason requests shell.session (session-IsAudited shell requests r) e
