-- ===== src/Lib.antt =====
-- Verification of hermes-vps: the control core that runs graphs of actions, the operator
-- application on top of it, and the core of the configure wizard.
--
-- The program. An operator's command builds an action graph and hands it to the engine
-- (hermes_control_core/engine.py), which validates the graph, passes the host override gate, and
-- runs the ready actions round by round until nothing is left, or an action has failed. Actions run
-- their commands through the runner that the factory (hermes_control_core/runner.py) detected and
-- locked. The application (hermes_vps_app/) decides at launch whether workflows may run, shows the
-- project's state, edits `.env` through drafts, and turns exceptions into exit codes. The wizard
-- (scripts/) navigates steps, tells stale replies from current ones, and keeps its answers in `.env`
-- through a staged store.
--
-- The files.
--   Prelude, Prelude/*    lists and dicts over the native numbers, Boolean tests, code that may
--                         raise (`Result`), and code that keeps its changes when it raises (`Flow`)
--   Value, Text           values of untyped dicts, and the methods of Python's str; Regex below Text is
--                         `re.fullmatch` by derivatives
--   Core/Interfaces       hermes_control_core/interfaces.py: modes, requests, results, exceptions
--   Core/Session          hermes_control_core/session.py: the audit log
--   Core/Actions          hermes_control_core/actions.py: the records; below it Validate is
--                         `_validate_graph`, Policy is `_validate_policy_gate`, Ready is
--                         `initial_runtime_states` and `ready_actions`, Outcome is
--                         `normalize_action_result`; Cycles, Ranks, Validity, Guard and Frontier
--                         hold the proofs
--   Core/Engine           hermes_control_core/engine.py: `Engine.run`; Execute below it is
--                         `_execute_one`; Entries, Loop, Outcomes, Runs and Gates hold the proofs
--   Core/Runner           hermes_control_core/runner.py: `RunnerFactory`, with Lock for
--                         its proofs; Run below it is `SubprocessRunner.run` and
--                         `DockerNixRunner.run`, with Child for its proofs
--   Wizard/*              scripts/configure_flow.py (Flow), scripts/configure_async.py (Task),
--                         scripts/wizard_framework/registry.py (Registry), and the choice and
--                         rotation of options of scripts/configure_logic.py (Seed)
--   Wizard/Store          `EnvStore` of scripts/configure_services.py, with the line reader and writer
--                         of scripts/configure_logic.py; Lines, Returns, View and Refinement
--                         hold the proofs
--   Wizard/State          scripts/configure_state.py and the patterns of scripts/configure_logic.py;
--                         Pinned holds the proofs
--   App/Config            hermes_vps_app/config_model.py; Changes, Patches and Review hold the
--                         proofs
--   App/Startup           hermes_vps_app/panel_startup.py; Verdicts holds the proofs
--   App/Errors            hermes_vps_app/error_taxonomy.py; Codes and Runs hold the proofs
--   App/Snapshot          hermes_vps_app/operator_snapshot.py; Action holds the proofs
--   App/Workflows         hermes_vps_app/operational.py: the graphs; below it Environment is
--                         `validate_bootstrap_environment`, Handler (with Remote and Dispatch) is
--                         `OperationalActionHandler`, Operate (with Destroy and Start) is
--                         `run_operational_graph`, Monitoring is `run_monitoring_graph`; Graphs,
--                         Accepted, Selection, Results, Artifact, Exits, Unapproved and Warnings hold
--                         the proofs
--   App/Preview           hermes_vps_app/status_presentation.py: the preview of a graph and the
--                         progress counts; Status is `presentation_from_engine_result` and
--                         Details its `_node_details`; Order, Rows, Progress, Sorting and
--                         Summary hold the proofs
--   App/Remediation       hermes_vps_app/cloud_remediation.py
--   App/Telegram          hermes_vps_app/telegram_gateway.py
--   App/Shim              hermes_vps_app/just_shim.py
--   App/Shell             hermes_vps_app/panel_shell.py; Session holds the proofs
--   Samples               (in Core, Wizard, App, App/Workflows and App/Preview) concrete graphs,
--                         engines and projects
--
-- The correspondence. A dict is the list of its items in the order of insertion, an object that
-- methods change is a record that is passed on, and a raise is a result. A text file is
-- the list of its lines; `read_text()` takes carriage returns for ends of lines. `Engine.run` works on an
-- `Ambient`: the action context, the audit log and a world of any type, which the action handler,
-- the event sink and the clock read and change. The engine's states are the dict of runtime states.
-- What the interpreter and the machine answer (the substitutions of compiled patterns, str() and
-- int(), the file system, `docker info`, PATH) are parameters. Times are numbers; a rounded
-- duration, which the source has as a float, is a parameter's value.
--
-- Fuel. The depth-first search of `_validate_graph` gets one level for each action and one more,
-- since an open path never repeats an action; the loop of `Engine.run` gets one turn for each
-- action and one more, since each turn resolves an action; the order of a preview gets one turn for
-- each action, since each turn orders one. None of them runs out.
--
-- Not modelled. The Textual screens and the terminal wizard, HTTP, sockets and child processes, the
-- rendering of presentations to dicts and lines, the presentation of a monitoring payload, the panel's
-- configuration flow and dashboard, and the wizard's services that call cloud providers. What they do
-- beside calling the parts above is input and output.
pub mod Prelude
pub mod Value
pub mod Text
pub mod Core
pub mod Wizard
pub mod App
