-- ===== src/Simulation/Samples.antt =====
-- The simulation of a workflow that is then run to its end.
use tmis.Prelude.{◌≡◌, refl, true, false, none, [], nat_eq, string_eq, key_eq}
use tmis.Prelude.Dict.{get}
use tmis.Prelude.Sort.{sort}
use tmis.Prelude.Python.{ok}
use tmis.Condition.{evaluate}
use tmis.Execution.Schemas.{completed, cancelled}
use tmis.Execution.Samples.{here, intake, idle, partner, got, done_run, started_ok}
use tmis.Simulation.{SimulationReport, simulate}
use tmis.Simulation.Prediction.{Foretells, simulate-start}

abbrev report : SimulationReport
report =
    got
      (record {
        workflow_id = "";
        would_complete = false;
        steps = [];
        workflow_condition_failure = none;
      })
      (simulate here.py here.room [] partner intake)

reported_ok : simulate here.py here.room [] partner intake ≡ ok report
unfolding simulate evaluate get sort
reported_ok = refl

simulate-start_example :
    (report.would_complete ≡ false → done_run.status ≡ cancelled)
    × (report.would_complete ≡ true
        → done_run.status ≡ completed
        → Foretells report.steps done_run.step_results)
simulate-start_example =
    simulate-start here [] partner intake report "e1" "span" idle done_run reported_ok started_ok
