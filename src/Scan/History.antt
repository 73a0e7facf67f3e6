-- ===== src/Scan/History.antt =====
-- The state machine that the writes of one `Reconcile` of a ComplianceScan follow.
pub mod Run
use diki_operator.Common.{◌≡◌, ◌∙◌, Bool, true, false, Option, none, some}
use diki_operator.Common.{List, [], ◌∷◌, ◌++◌, arith}
use mathlib.Core.List.{append_assoc}
use diki_operator.Common.Errors.{Error}
use diki_operator.Api.Meta.{ConfigMap}
use diki_operator.Api.Scan.{ComplianceScan}
use diki_operator.Cluster.{Client, World, Write}
use diki_operator.Scan.Statuses.{IsRunning, IsCompleted, IsFailed}

-- Where a reconciliation stands: `failing` is where only the status Failed may follow, and `lost`
-- is where that status was not acknowledged.
pub data Stage : Type 0 where
  start running deployed completed failing failed lost : Stage

-- A write, with its acknowledgement, as a step of the scan.
pub data Step : Stage → Write × Bool → Stage → Type 0 where
  run : {s : ComplianceScan} → IsRunning s → Step start (Write.patch_scan s, true) running
  not_run : {s : ComplianceScan} → IsRunning s → Step start (Write.patch_scan s, false) failing
  deploy : {m : ConfigMap} → Step running (Write.create_config_map m, true) deployed
  not_deployed : {m : ConfigMap} → Step running (Write.create_config_map m, false) failing
  -- The configuration could not be built, so that nothing was created.
  give_up :
      {s : ComplianceScan} (e : Error)
      → IsFailed e s
      → Step running (Write.patch_scan s, true) failed
  lose_up :
      {s : ComplianceScan} (e : Error)
      → IsFailed e s
      → Step running (Write.patch_scan s, false) lost
  complete :
      {s : ComplianceScan} → IsCompleted s → Step deployed (Write.patch_scan s, true) completed
  not_completed :
      {s : ComplianceScan} → IsCompleted s → Step deployed (Write.patch_scan s, false) failing
  fail :
      {s : ComplianceScan} (e : Error)
      → IsFailed e s
      → Step failing (Write.patch_scan s, true) failed
  lose :
      {s : ComplianceScan} (e : Error)
      → IsFailed e s
      → Step failing (Write.patch_scan s, false) lost

pub data Steps : Stage → List (Write × Bool) → Stage → Type 0 where
  done : {a : Stage} → Steps a [] a
  step :
      {a b c : Stage} {w : Write × Bool} {ws : List (Write × Bool)}
      → Step a w b
      → Steps b ws c
      → Steps a (w ∷ ws) c

-- How a reconciliation may end, and with which error: only a lost failure is returned.
pub data Ends : Stage → Option Error → Type 0 where
  ends_completed : Ends completed none
  ends_failed : Ends failed none
  ends_lost : {e : Error} → Ends lost (some e)

module _ (C : Client) where
  -- From a stage, the call added these writes and came to an end.
  pub record Follows (a : Stage) (w : World C) (outcome : Option Error × World C) : Type 0 where
    pub writes : List (Write × Bool)
    pub added : (outcome.1).writes ≡ w.writes ++ writes
    pub stage : Stage
    pub steps : Steps a writes stage
    pub ends : Ends stage outcome.0

  pub Follows-Step :
      {a b : Stage} {x : Write × Bool} (w w' : World C) {outcome : Option Error × World C}
      → w'.writes ≡ w.writes ++ (x ∷ [])
      → Step a x b
      → Follows b w' outcome
      → Follows a w outcome
  Follows-Step {x} w w' sent st f = record {
    writes = x ∷ f.writes;
    added = f.added ∙ rw sent (append_assoc w.writes (x ∷ []) f.writes);
    stage = f.stage;
    steps = Steps.step st f.steps;
    ends = f.ends;
  }

  pub Follows-last :
      {a b : Stage} {x : Write × Bool} (w : World C) {outcome : Option Error × World C}
      → (outcome.1).writes ≡ w.writes ++ (x ∷ [])
      → Step a x b
      → Ends b outcome.0
      → Follows a w outcome
  Follows-last {b} {x} w sent st e = record {
    writes = x ∷ [];
    added = sent;
    stage = b;
    steps = Steps.step st Steps.done;
    ends = e;
  }
