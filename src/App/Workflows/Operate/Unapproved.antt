-- ===== src/App/Workflows/Operate/Unapproved.antt =====
-- A destroy without its token: what it may do before it is denied.
use hermes_vps.Prelude.{
  ◌≡◌, refl, ap, ◌∙◌, Bool, true, false, String, Option, none, some, List, [], ◌∷◌, ◌==◌, elem,
  eq_refl,
}
use hermes_vps.Prelude.Flow.{Result, ok, raise, Holds, continue, ◌>>=◌, ◌>>◌}
use hermes_vps.Value.{Value, Fields, dict, end}
use hermes_vps.Core.Session.{SessionAuditLog}
use hermes_vps.Core.Engine.{RunOutcome}
use hermes_vps.Core.Engine.Execute.{Ambient}
use hermes_vps.App.Workflows.Environment.{
  InitSelection, resolve_provider, validate_init_environment, validate_bootstrap_environment,
}
use hermes_vps.App.Workflows.Environment.Selection.{validate_init_environment-ok}
use hermes_vps.App.Workflows.Operate.{
  Operator, Order, Stop, environment, exception, Op, error_as, put_context, read_time, in_world,
  checked,
}
use hermes_vps.App.Workflows.Operate.Destroy.{
  DestroyPreview, output_request, output_names, is_approved, read_outputs, build_destroy_preview,
  preview_fields, record_approval, record_in_log, log_approval, decide, approve_destroy,
  before_destroy, preview_with,
}
use hermes_vps.App.Workflows.Operate.Start.{
  bootstrap_config, start_context, set_context, run_graph, prepare, run_operational_graph,
  bootstrapping,
}

-- What reading OpenTofu outputs and the clock does not change of a world.
pub record KeptByReads {W : Type 0} (P : W → Type 0) (o : Operator W) (repo_root : String)
    : Type 0 where
  pub run :
      (provider name : String) (w : W)
      → P w
      → P (o.effects.run (output_request repo_root provider name) w).1
  pub now : (w : W) → P w → P (o.now w).1

module _ {W : Type 0} (P : W → Type 0) where
  -- The code keeps `P`, and what it returns has `Q`.
  record Stays {A : Type 0} (Q : A → Type 0) (m : Op W A) : Type 0 where
    run : (amb : Ambient W) → P amb.world → P (m amb).1.world × Holds Q (λ _. Unit {0}) (m amb).0

  bind-go :
      {A B : Type 0} (Q : A → Type 0) (R : B → Type 0) (f : A → Op W B)
      (r : Result Stop A × Ambient W)
      → P r.1.world × Holds Q (λ _. Unit {0}) r.0
      → ((a : A) → Q a → Stays R (f a))
      → P (continue r.0 f r.1).1.world × Holds R (λ _. Unit {0}) (continue r.0 f r.1).0
  bind-go Q R f (ok a, s) h k = (k a h.1).run s h.0
  bind-go Q R f (raise e, s) h k = (h.0, tt)

  Stays-bind :
      {A B : Type 0} (Q : A → Type 0) (R : B → Type 0) (m : Op W A) (f : A → Op W B)
      → Stays Q m
      → ((a : A) → Q a → Stays R (f a))
      → Stays R (m >>= f)
  Stays-bind Q R m f h k = record { run = λ amb p. bind-go Q R f (m amb) (h.run amb p) k }

  Stays-then :
      {A B : Type 0} (R : B → Type 0) (m : Op W A) (n : Op W B)
      → Stays (λ _. Unit {0}) m
      → Stays R n
      → Stays R (m >> n)
  Stays-then R m n h k = Stays-bind (λ _. Unit {0}) R m (λ _. n) h (λ a _. k)

  error_as-When :
      {A E : Type 0} (Q : A → Type 0) (g : E → Stop) (r : Result E A)
      → ((a : A) → r ≡ ok a → Q a)
      → Holds Q (λ _. Unit {0}) (error_as g r)
  error_as-When Q g (ok a) h = h a refl
  error_as-When Q g (raise e) h = tt

  stop-of :
      {A : Type 0} (r : Result Stop A)
      → Holds (λ _. ⊥) (λ _. Unit {0}) r
      → (stop : Stop) × (r ≡ raise stop)
  stop-of (ok a) h = absurd h
  stop-of (raise e) h = (e, refl)

  error_as-Holds :
      {A E : Type 0} (g : E → Stop) (r : Result E A)
      → Holds (λ _. Unit {0}) (λ _. Unit {0}) (error_as g r)
  error_as-Holds g (ok a) = tt
  error_as-Holds g (raise e) = tt

module _ {W : Type 0} (P : W → Type 0) (o : Operator W) (order : Order)
    (keeps : KeptByReads P o order.repo_root) where
  Free : {A : Type 0} → Op W A → Type 0
  Free m = Stays P (λ _. Unit {0}) m

  read_outputs-Stays :
      (provider : String) (names : List String) (outputs : Fields)
      → Stays P (λ _. Unit {0}) (read_outputs o order.repo_root provider names outputs)
  unfolding read_outputs in_world
  read_outputs-Stays provider [] outputs = record { run = λ amb p. (p, tt) }
  read_outputs-Stays provider (name ∷ names) outputs =
      Stays-bind P (λ _. Unit {0}) (λ _. Unit {0}) _ _
        (record {
          run = λ amb p. (
            keeps.run provider name amb.world p,
            error_as-Holds P exception
                (o.effects.run (output_request order.repo_root provider name) amb.world).0,
          );
        })
        λ r _. read_outputs-Stays provider names _

  build_destroy_preview-Stays :
      (provider tf_dir : String)
      → Stays P
          (λ p. p.provider ≡ provider)
          (build_destroy_preview o order.repo_root provider tf_dir)
  unfolding build_destroy_preview preview_with
  build_destroy_preview-Stays provider tf_dir = record {
    run = λ amb p.
        (Stays-bind P (λ _. Unit {0}) (λ d. d.provider ≡ provider)
            (read_outputs o order.repo_root provider output_names end) _
            (read_outputs-Stays provider output_names end)
            λ outputs _. record { run = λ s q. (q, refl) }).run
          amb p;
  }

  record_approval-Stays :
      (d : DestroyPreview) (approved : Bool) (log : Option SessionAuditLog)
      → Stays P (λ _. Unit {0}) (record_approval o order d approved log)
  unfolding record_approval read_time log_approval
  record_approval-Stays d approved none = record { run = λ amb p. (p, tt) }
  record_approval-Stays d approved (some log) = record {
    run = λ amb p. (keeps.now _ (keeps.now _ p), tt);
  }

  record_in_log-Stays :
      (d : DestroyPreview) (approved : Bool)
      → Stays P (λ _. Unit {0}) (record_in_log o order d approved)
  unfolding record_in_log
  record_in_log-Stays d approved = record {
    run = λ amb p. (record_approval-Stays d approved amb.audit_log).run amb p;
  }

  put_context-Stays : (key : String) (v : Value) → Stays P (λ _. Unit {0}) (put_context o key v)
  unfolding put_context
  put_context-Stays key v = record { run = λ amb p. (p, tt) }

  set_context-Stays : (context : Fields) → Stays P (λ _. Unit {0}) (set_context o context)
  unfolding set_context
  set_context-Stays context = record { run = λ amb p. (p, tt) }

  decide-Stays : (d : DestroyPreview) → Stays P (λ _. ⊥) (decide o d false)
  unfolding decide
  decide-Stays d = record { run = λ amb p. (p, tt) }

  approve_destroy-Stays :
      (d : DestroyPreview)
      → is_approved order.approve_destructive d.provider ≡ false
      → Stays P (λ _. ⊥) (approve_destroy o order d)
  unfolding approve_destroy
  approve_destroy-Stays d denied = rw denied (
      Stays-then P (λ _. ⊥) (put_context o "destroy_preview" (dict (preview_fields o d)))
        (record_in_log o order d false >> decide o d false)
        (put_context-Stays "destroy_preview" (dict (preview_fields o d)))
        (Stays-then P (λ _. ⊥) (record_in_log o order d false) (decide o d false)
          (record_in_log-Stays d false) (decide-Stays d)))

  before_destroy-Stays :
      (selection : InitSelection)
      → is_approved order.approve_destructive selection.provider ≡ false
      → Stays P (λ _. ⊥) (before_destroy o true order selection)
  unfolding before_destroy
  before_destroy-Stays selection denied =
      Stays-bind P (λ d. d.provider ≡ selection.provider) (λ _. ⊥) _ (approve_destroy o order)
        (build_destroy_preview-Stays selection.provider selection.tf_dir)
        λ d same. approve_destroy-Stays d (ap (is_approved order.approve_destructive) same ∙ denied)

  bootstrap_config-Stays :
      (b : Bool) (provider : String) → Stays P (λ _. Unit {0}) (bootstrap_config o b order provider)
  unfolding bootstrap_config checked
  bootstrap_config-Stays false provider = record { run = λ amb p. (p, tt) }
  bootstrap_config-Stays true provider =
      Stays-bind P (λ _. Unit {0}) (λ _. Unit {0}) _ _
        (record {
          run = λ amb p. (
            p,
            error_as-Holds P environment
                (validate_bootstrap_environment (o.os amb.world) order.repo_root provider),
          );
        })
        λ config _. record { run = λ amb p. (p, tt) }

  prepare-Stays :
      (selection : InitSelection)
      → order.action ≡ "destroy"
      → is_approved order.approve_destructive selection.provider ≡ false
      → Stays P (λ _. ⊥) (prepare o order selection)
  unfolding prepare set_context
  prepare-Stays selection destroys denied =
      let is_destroy : (order.action == "destroy") ≡ true = rw destroys (eq_refl "destroy") in
      rw is_destroy (
        Stays-then P (λ _. ⊥) (set_context o (start_context o order selection)) _
          (set_context-Stays (start_context o order selection))
          (Stays-bind P (λ _. Unit {0}) (λ _. ⊥)
            (bootstrap_config o (elem order.action bootstrapping) order selection.provider) _
            (bootstrap_config-Stays (elem order.action bootstrapping) selection.provider)
            λ config _.
              Stays-bind P (λ _. ⊥) (λ _. ⊥) (before_destroy o true order selection)
                (λ _. run_graph o order config) (before_destroy-Stays selection denied)
                λ _ no. absurd no))

  after_provider : String → Op W RunOutcome
  after_provider provider =
      checked o (λ os. validate_init_environment os order.repo_root provider) >>= prepare o order

  after_provider-Stays :
      (provider : String)
      → order.action ≡ "destroy"
      → is_approved order.approve_destructive provider ≡ false
      → Stays P (λ _. ⊥) (after_provider provider)
  unfolding after_provider checked
  after_provider-Stays provider destroys denied =
      Stays-bind P (λ selection. selection.provider ≡ provider) (λ _. ⊥)
        (checked o (λ os. validate_init_environment os order.repo_root provider)) (prepare o order)
        (record {
          run = λ amb p. (
            p,
            error_as-When P (λ selection. selection.provider ≡ provider) environment
                (validate_init_environment (o.os amb.world) order.repo_root provider)
                λ selection valid.
                  ap (λ i. i.provider)
                    (validate_init_environment-ok (o.os amb.world) order.repo_root provider
                      valid).3,
          );
        })
        λ selection same.
          prepare-Stays selection destroys
            (ap (is_approved order.approve_destructive) same ∙ denied)

module _ {W : Type 0} where
  -- A run of destroy without the exact token `DESTROY:<provider>` of the provider that it resolves
  -- raises. The world keeps every property that the reads of OpenTofu outputs and of the clock keep:
  -- there is no backup, and the engine does not run.
  pub run_operational_graph-unapproved :
      (P : W → Type 0) (o : Operator W) (order : Order) (amb : Ambient W)
      → KeptByReads P o order.repo_root
      → order.action ≡ "destroy"
      → ((provider : String)
          → resolve_provider (o.os amb.world) order.provider_override ≡ ok provider
          → is_approved order.approve_destructive provider ≡ false)
      → P amb.world
      → P (run_operational_graph o order amb).1.world
        × ((stop : Stop) × ((run_operational_graph o order amb).0 ≡ raise stop))
  unfolding run_operational_graph checked after_provider
  run_operational_graph-unapproved P o order amb keeps destroys denied p =
      let resolved = resolve_provider (o.os amb.world) order.provider_override in
      let (kept, stopped) =
        bind-go P (λ provider. is_approved order.approve_destructive provider ≡ false) (λ _. ⊥)
          (after_provider P o order keeps) (error_as environment resolved, amb)
          (
            p,
            error_as-When P (λ provider. is_approved order.approve_destructive provider ≡ false)
                environment resolved denied,
          )
          (λ provider no. after_provider-Stays P o order keeps provider destroys no) in
      (kept, stop-of P (run_operational_graph o order amb).0 stopped)
