-- ===== src/Lib.antt =====
-- diki-operator: a Kubernetes operator that runs compliance scans of the tool diki.
--
-- The program. A ComplianceScan names rulesets, with options in ConfigMaps. The admission webhook
-- lets a scan in if its references resolve, and never lets its spec change. The reconciler of
-- ComplianceScans sets a new scan to Running, writes the configuration of diki into a ConfigMap and
-- sets the scan to Completed, or to Failed with the error. The reconciler of
-- ScheduledComplianceScans creates such scans by a cron schedule, one at a time, refers to the
-- active one and deletes old ones. The report exporter, a program of its own, writes a report of
-- diki to its outputs and the summaries of the report to the scan's status. They meet in the API
-- server alone: each reads and writes objects there.
--
-- The model.
--   Common       lists, maps, errors, integers and decimal numbers
--   Api          the resources and the configuration: pkg/apis/diki/v1alpha1/types_*.go,
--                pkg/apis/reportexporter/v1alpha1/types.go, pkg/apis/config/v1alpha1/types.go
--   Cluster      the API server as the code sees it, a parameter: a state with reads and writes
--                that may each fail; `World` has in addition the writes that were sent
--   Conditions   pkg/apis/diki/v1alpha1/helper: `Build` (`build`), `UpdateConditions`
--   Scan         internal/reconciler/compliancescan: `Reconcile` (`reconcile`, with `start_scan`,
--                `run_scan` and `complete_scan` for what follows each patch), `handleFailedScan`,
--                `getLabels`, `deployDikiConfigMap` (`collect_rulesets` is its loop); History has
--                the state machine that one call follows
--   Webhook      internal/webhook/compliancescan/handler.go: `Handle` (`handle`)
--   Schedule     internal/reconciler/scheduledcompliancescan: `Reconcile` (`reconcile`, with
--                `handle_children`, `run_schedule`, `create_child` and `finish` for its later
--                parts), `childScanName`, `cleanupOldScans`, `setActiveScan`, `deployComplianceScan`;
--                Single puts both reconcilers and the rest of the world into one system of steps
--   Report       internal/component/reportexporter: the summaries (Summary), the outputs (Outputs),
--                the goroutines (Workers) and `Export` (Export)
--   Config       pkg/apis/config/v1alpha1: defaults.go (Defaults) and validation (Validation)
--   Command      cmd/diki-operator/app: the options (`complete`, `validate_options`), the manager's
--                options and set-up (`run`) and the command (`execute`); the add.go files of the
--                controllers and of the webhook (Registration; Scan/Events has the way from an event
--                to `Reconcile`); cmd/report-exporter/app (Exporter)
--   Scheme       the register.go files of pkg/apis, pkg/apis/diki/install and the registrations of the
--                generated files (`register_conversions`)
--   DeepCopy     pkg/apis/diki/v1alpha1/zz_generated.deepcopy.go: `DeepCopyInto` and `DeepCopy` of
--                each type, named after it, over a memory of cells; Config has those of
--                pkg/apis/config/v1alpha1/zz_generated.deepcopy.go; Patch has `UpdateConditions` as it
--                writes to a slice, next to the copy that a patch is computed from
--   Internal     pkg/apis/diki, the internal version of the resources, and the conversions of
--                pkg/apis/diki/v1alpha1/zz_generated.conversion.go
--   Tests        runs over objects in memory (Cluster/Memory), and every theorem at concrete data
--
-- How it is modelled. Outside DeepCopy, a method that changes an object returns the new object, and
-- one that calls the API server takes and returns a `World`; a panic is a result of its own. Loops
-- are structural recursion, so that no fuel is needed. The goroutines of the exporter are a
-- relation of steps that any of them may take. A time is a number of nanoseconds since Go's zero
-- time, a clock's reading is an argument, and the counters of the exporter are 32-bit patterns that
-- wrap around. Names of objects are texts whose characters are single bytes, as Kubernetes asks of
-- them, so that the slicing of a name counts characters.
--
-- In DeepCopy a memory only grows, a copied struct is stored when it is complete, and `append`
-- makes a new array.
--
-- Not modelled: flags and logging, the image vector (a YAML file and a library that reads it), and
-- the deep copies of the other packages (that of pkg/apis/diki is the file of v1alpha1 but for its
-- package name). Code of other modules is a parameter: the API client, controller-runtime, the
-- scheme, the decoders, the diki packages, the cron library, JSON, YAML, gzip, the sort of slices,
-- the deep copies of apimachinery and Kubernetes' own checks. Where a theorem needs a law of such
-- code, the law is a named hypothesis, and the tests have an instance of it. Where several calls
-- make up one reconciliation, what others do in between is part of the calls' effects on the
-- server's state. That a read from the manager's cache is up to date is never assumed of the client;
-- a theorem that needs it has it as a hypothesis on the steps it is about. The queue that calls
-- `Reconcile` once more after an error is not modelled.
pub mod Common
pub mod Api
pub mod Conditions
pub mod Cluster
pub mod Scan
pub mod Webhook
pub mod Schedule
pub mod Report
pub mod Config
pub mod Scheme
pub mod Command
pub mod DeepCopy
pub mod Internal
mod Tests
