-- ===== src/App/Preview/Samples.antt =====
-- The presentation of a failed run.
use mathlib.Core.List.{Perm}
use hermes_vps.Prelude.{map, ℕ, ◌≡◌, refl, ◌-◌, All}
use hermes_vps.Prelude.Dict.{lookup}
use hermes_vps.Prelude.Flow.{ok}
use hermes_vps.Value.{Value, int, pos}
use hermes_vps.Core.Samples.{plain_runtime, sample_graph}
use hermes_vps.App.Samples.{late_run}
use hermes_vps.App.Preview.Status.{StatusPresentation, presentation_from_engine_result}
use hermes_vps.App.Preview.Sorting.{IsAscending}
use hermes_vps.App.Preview.Summary.{
  of_row, of_state, IsOf, Summarises, presentation_from_engine_result-Summarises,
}

abbrev whole_seconds : ℕ → ℕ → Value
whole_seconds start finish = int (pos (finish - start))

late_run-IsOf : All (IsOf sample_graph) late_run.states
unfolding lookup
late_run-IsOf = (refl, (refl, tt))

presentation_from_engine_result-Summarises_example :
    (p : StatusPresentation) × (presentation_from_engine_result plain_runtime whole_seconds
        "destroy" sample_graph late_run
      ≡ ok p)
    × Perm (map of_row p.actions) (map of_state late_run.states)
    × IsAscending (map of_row p.actions)
    × Summarises p
presentation_from_engine_result-Summarises_example =
    presentation_from_engine_result-Summarises plain_runtime whole_seconds "destroy" sample_graph
      late_run late_run-IsOf
