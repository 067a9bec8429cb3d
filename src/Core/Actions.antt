-- ===== src/Core/Actions.antt =====
-- hermes_control_core/actions.py: actions, their runtime states, and graphs of them.
pub mod Validate
pub mod Cycles
pub mod Policy
pub mod Ranks
pub mod Validity
pub mod Ready
pub mod Frontier
pub mod Outcome
use hermes_vps.Prelude.{ℕ, ◌≡◌, Bool, true, false, String, Option, List, max}
use hermes_vps.Prelude.Dict.{Dict}
use hermes_vps.Value.{ℤ, pos, negsuc, Fields}
use hermes_vps.Core.Interfaces.{SideEffectLevel}

pub data ActionStatus : Type 0 where
  pending ready running succeeded failed skipped blocked cancelled : ActionStatus

pub data RetryPolicyKind : Type 0 where
  none fixed backoff : RetryPolicyKind

pub record RetryPolicy : Type 0 where
  pub kind : RetryPolicyKind
  pub max_attempts : ℤ
  pub delay_seconds : ℕ

pub record ActionDescriptor : Type 0 where
  pub action_id : String
  pub label : String
  pub deps : List String
  pub side_effect_level : SideEffectLevel
  pub timeout_s : Option ℕ
  pub allow_failure : Bool
  pub retry_policy : RetryPolicy
  pub preconditions : List String
  pub rollback_hint : Option String
  pub repair_hint : Option String
  pub metadata : Fields

pub record ActionRuntimeState : Type 0 where
  pub action_id : String
  pub status : ActionStatus
  pub attempts : ℕ
  pub started_at : Option ℕ
  pub finished_at : Option ℕ
  pub last_error : Option String
  pub result : Option Fields

pub record ActionEvent : Type 0 where
  pub action_id : String
  pub status : ActionStatus
  pub at : ℕ
  pub message : String
  pub details : Fields
  pub action_label : Option String
  pub runner_mode : Option String
  pub redactions_applied : Bool

pub record ActionGraph : Type 0 where
  pub name : String
  pub actions : Dict ActionDescriptor
  pub policy_gate_enabled : Bool

-- status in {SUCCEEDED, FAILED, SKIPPED, CANCELLED}
abbrev pub is_terminal : ActionStatus → Bool
is_terminal ActionStatus.succeeded = true
is_terminal ActionStatus.failed = true
is_terminal ActionStatus.skipped = true
is_terminal ActionStatus.cancelled = true
is_terminal _ = false

-- status in {PENDING, READY}
abbrev pub is_open : ActionStatus → Bool
is_open pending = true
is_open ready = true
is_open _ = false

-- max(1, n)
abbrev pub at_least_one : ℤ → ℕ
at_least_one (pos n) = max 1 n
at_least_one (negsuc n) = 1
