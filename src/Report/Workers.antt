-- ===== src/Report/Workers.antt =====
-- The exporter's goroutines (report_exporter.go): one per output, each of which exports and then
-- sends a status over a channel that has room for one status per output. They run in any order, so
-- a run is a sequence of steps of any of them. `name` is the loop's own variable in each goroutine,
-- as in Go since 1.22.
pub mod Order
pub mod Completions
use diki_operator.Common.{String, ℕ, suc, ◌<◌, ◌≡◌, List, [], ◌∷◌, ◌++◌, length}
use diki_operator.Common.Errors.{Result, ok, err}
use diki_operator.Api.Scan.{OutputStatus, output_status_completed, output_status_failed}
use diki_operator.Cluster.{Client, World}
use diki_operator.Report.Summary.{DikiReport}
use diki_operator.Report.Outputs.{
  ConfigMapExporter, Library, Details, export_error, new_export_error, to_raw_extension,
  export_config_map,
}

module _ (L : Library) where
  -- What a goroutine reports of a call of `Export`.
  unfoldable pub output_status : String → Result Details → OutputStatus
  output_status name (err e) = record {
    output_name = name;
    phase = output_status_failed;
    details = to_raw_extension L (export_error (new_export_error e));
  }
  output_status name (ok details) = record {
    output_name = name;
    phase = output_status_completed;
    details = to_raw_extension L details;
  }

-- The goroutines that have yet to export, the statuses of those that have yet to send, and what is
-- in the channel.
pub record Pool (C : Client) : Type 0 where
  pub world : World C
  pub waiting : List (String × ConfigMapExporter)
  pub sending : List OutputStatus
  pub channel : List OutputStatus

module _ (C : Client) where
  unfoldable pub start_workers : List (String × ConfigMapExporter) → World C → Pool C
  start_workers outputs w = record { world = w; waiting = outputs; sending = []; channel = [] }

  -- `wg.Wait()` returns.
  unfoldable pub IsFinished : Pool C → Type 0
  IsFinished p = (p.waiting ≡ []) × (p.sending ≡ [])

  -- The goroutine that sends `status` is done.
  unfoldable pub send_status :
      Pool C → List OutputStatus → OutputStatus → List OutputStatus → Pool C
  send_status p before status after = record p {
    sending = before ++ after;
    channel = p.channel ++ (status ∷ []);
  }

  module _ (L : Library) (report : DikiReport) where
    -- The goroutine of `output` calls `Export`.
    unfoldable pub export_output :
        Pool C
        → List (String × ConfigMapExporter)
        → String × ConfigMapExporter
        → List (String × ConfigMapExporter)
        → Pool C
    export_output p before (name, exporter) after =
        let (r, w) = export_config_map L C exporter report p.world in
        record p {
          world = w;
          waiting = before ++ after;
          sending = output_status L name r ∷ p.sending;
        }

    -- A step of one goroutine, which waits to send as long as the channel is full.
    pub data WorkerStep (capacity : ℕ) : Pool C → Pool C → Type 0 where
      export :
          {p : Pool C} (before after : List (String × ConfigMapExporter))
          (output : String × ConfigMapExporter)
          → p.waiting ≡ before ++ (output ∷ after)
          → WorkerStep capacity p (export_output p before output after)
      send :
          {p : Pool C} (before after : List OutputStatus) (status : OutputStatus)
          → p.sending ≡ before ++ (status ∷ after)
          → length p.channel < capacity
          → WorkerStep capacity p (send_status p before status after)

    -- A run of this many steps.
    pub data WorkerRun (capacity : ℕ) : ℕ → Pool C → Pool C → Type 0 where
      rest : {p : Pool C} → WorkerRun capacity 0 p p
      next :
          {n : ℕ} {p q r : Pool C}
          → WorkerStep capacity p q
          → WorkerRun capacity n q r
          → WorkerRun capacity (suc n) p r
