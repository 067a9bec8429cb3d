-- ===== src/Core/Actions/Policy/Guard.antt =====
-- What the policy gate promises of the actions that it lets through.
use hermes_vps.Prelude.{
  ◌≡◌, refl, Bool, true, false, not, ◌&&◌, String, Option, none, some, eq_iff, arith, All, All-map,
  if◌then◌else◌, is_some,
}
use hermes_vps.Prelude.Flow.{Result, ok, raise, and_then, check_all-All}
use hermes_vps.Value
use hermes_vps.Value.{Value, Fields, null, bool, int, str, list, dict, is_true, or_null}
use hermes_vps.Core.Interfaces.{SideEffectLevel, low, high, destructive}
use hermes_vps.Core.Actions.{ActionDescriptor, ActionGraph}
use hermes_vps.Core.Actions.Policy.{
  PolicyError, level_name, is_text, is_destructive, changes_state, check_level, check_timeout,
  check_fields, check_policy_value, check_policy, validate_policy_gate, validate, validate_parts,
}

-- What the gate promises of one action: a destructive one carries an approval requirement, and
-- if it runs commands it has a time limit that its policy calls bounded.
pub record Guarded (a : ActionDescriptor) : Type 0 where
  pub policy : Fields
  pub declared : Value.get "policy" a.metadata ≡ some (dict policy)
  pub level : Value.get "side_effect_level" policy ≡ some (str (level_name a.side_effect_level))
  pub approval :
      a.side_effect_level ≡ destructive
      → is_true (or_null (Value.get "approval_required" policy)) ≡ true
  pub timeout :
      a.side_effect_level ≡ destructive
      → is_true (or_null (Value.get "command_backed" policy)) ≡ true
      → (is_some a.timeout_s ≡ true)
        × (is_text "bounded" (or_null (Value.get "timeout" policy)) ≡ true)

or_null-dict :
    (o : Option Value) (policy : Fields) → or_null o ≡ dict policy → o ≡ some (dict policy)
or_null-dict none policy e = cc
or_null-dict (some v) policy e = cc

check_level-str :
    (a : ActionDescriptor) (v : Value)
    → check_level a v ≡ ok tt
    → v ≡ str (level_name a.side_effect_level)
unfolding check_level
check_level-str a (str s) e = ground (arith, eq_iff s (level_name a.side_effect_level))
check_level-str a null e = cc
check_level-str a (bool b) e = cc
check_level-str a (int n) e = cc
check_level-str a (list vs) e = cc
check_level-str a (dict d) e = cc

or_null-str : (o : Option Value) (s : String) → or_null o ≡ str s → o ≡ some (str s)
or_null-str none s e = cc
or_null-str (some v) s e = cc

check_timeout-bounded :
    (a : ActionDescriptor) (policy : Fields)
    → check_timeout a policy ≡ ok tt
    → is_destructive a.side_effect_level ≡ true
    → (is_some a.timeout_s ≡ true)
      × (is_text "bounded" (or_null (Value.get "timeout" policy)) ≡ true)
unfolding check_timeout
check_timeout-bounded a policy e d = ground arith

destructive_tests :
    (k : SideEffectLevel) (approved backed : Bool) (x : PolicyError)
    (t : Result PolicyError (Unit {0}))
    → (if is_destructive k && not approved
        then raise x
        else if backed && changes_state k
        then t
        else ok tt)
      ≡ ok tt
    → k ≡ destructive
    → (approved ≡ true) × (backed ≡ true → t ≡ ok tt)
destructive_tests destructive true true x t e d = (refl, λ b. e)
destructive_tests destructive true false x t e d = (refl, λ b. cc)
destructive_tests destructive false backed x t e d = cc
destructive_tests SideEffectLevel.none approved backed x t e d = cc
destructive_tests low approved backed x t e d = cc
destructive_tests high approved backed x t e d = cc

check_fields-Guarded :
    (a : ActionDescriptor) (policy : Fields)
    → Value.get "policy" a.metadata ≡ some (dict policy)
    → check_fields a policy ≡ ok tt
    → Guarded a
unfolding check_fields
check_fields-Guarded a policy declared e =
    go (check_level a (or_null (Value.get "side_effect_level" policy))) refl e
  where
    backed : Bool
    backed = is_true (or_null (Value.get "command_backed" policy))

    approved : Bool
    approved = is_true (or_null (Value.get "approval_required" policy))

    go :
        (r : Result PolicyError (Unit {0}))
        → check_level a (or_null (Value.get "side_effect_level" policy)) ≡ r
        → and_then r (λ _.
          if is_destructive a.side_effect_level && not approved
          then raise (PolicyError.missing_approval a.action_id)
          else if backed && changes_state a.side_effect_level
          then check_timeout a policy
          else ok tt)
          ≡ ok tt
        → Guarded a
    go (raise x) p e = cc
    go (ok tt) p e = record {
      policy = policy;
      declared = declared;
      level =
          or_null-str (Value.get "side_effect_level" policy) (level_name a.side_effect_level)
            (check_level-str a _ p);
      approval = λ d. (destructive_tests a.side_effect_level approved backed _ _ e d).0;
      timeout = λ d b.
          check_timeout-bounded a policy
            ((destructive_tests a.side_effect_level approved backed _ _ e d).1 b) (rw d refl);
    }

check_policy-Guarded : (a : ActionDescriptor) → check_policy a ≡ ok tt → Guarded a
unfolding check_policy
check_policy-Guarded a e = go (or_null (Value.get "policy" a.metadata)) refl e
  where
    go :
        (v : Value)
        → or_null (Value.get "policy" a.metadata) ≡ v
        → check_policy_value a v ≡ ok tt
        → Guarded a
    go (dict policy) p e = check_fields-Guarded a policy (or_null-dict _ policy p) e
    go null p e = cc
    go (bool b) p e = cc
    go (int n) p e = cc
    go (str s) p e = cc
    go (list vs) p e = cc

-- A graph that validation accepts with its policy gate enabled: each action's metadata holds a
-- policy that names the action's own side effect level, a destructive action's policy requires
-- approval, and a destructive action that runs commands has a time limit that its policy calls
-- bounded.
pub validate-Guarded :
    (g : ActionGraph)
    → g.policy_gate_enabled ≡ true
    → validate g ≡ ok tt
    → All (λ s. Guarded s.1) g.actions
unfolding validate_policy_gate
validate-Guarded g enabled h =
    All-map (λ s. check_policy s.1 ≡ ok tt) (λ s. Guarded s.1) g.actions
      (λ s. check_policy-Guarded s.1)
      (check_all-All (λ s. check_policy s.1) g.actions ((validate_parts g h).1 enabled))
