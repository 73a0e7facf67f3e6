-- ===== src/Command/Registration.antt =====
-- What the controllers and the webhook register: internal/reconciler/compliancescan/add.go,
-- internal/reconciler/scheduledcompliancescan/add.go and internal/webhook/compliancescan/add.go.
use diki_operator.Common.{ℕ, String, ◌*◌, Bool, true, false, List, [], ◌∷◌}
use diki_operator.Api.Config.{minute}

-- The events of controller-runtime, with the name of their object.
pub data Event : Type 0 where
  create_event update_event delete_event generic_event : String → Event

-- `Reconciler.Predicate` of ComplianceScans
unfoldable pub predicate : Event → Bool
predicate (create_event name) = true
predicate (update_event name) = false
predicate (delete_event name) = false
predicate (generic_event name) = false

-- A builder without predicates lets every event through.
unfoldable pub every_event : Event → Bool
every_event e = true

-- `controller.Options`, with the arguments of its rate limiter: times in nanoseconds.
pub record ControllerOptions : Type 0 where
  pub max_concurrent_reconciles : ℕ
  pub base_delay : ℕ
  pub max_delay : ℕ
  pub limit : ℕ
  pub burst : ℕ
  pub reconciliation_timeout : ℕ

abbrev pub second : ℕ
second = 1000000000

-- What is given to `builder.ControllerManagedBy(mgr)`.
pub record Controller : Type 0 where
  pub name : String
  pub watches : String
  pub owns : List String
  pub predicates : Event → Bool
  pub options : ControllerOptions

-- `SetupWithManager` of the ComplianceScan reconciler
unfoldable pub compliance_scan_controller : Controller
compliance_scan_controller = record {
  name = "compliancescan";
  watches = "ComplianceScan";
  owns = [];
  predicates = predicate;
  options = record {
    max_concurrent_reconciles = 5;
    base_delay = 5 * second;
    max_delay = 2 * minute;
    limit = 10;
    burst = 100;
    reconciliation_timeout = 10 * minute;
  };
}

-- `SetupWithManager` of the ScheduledComplianceScan reconciler
unfoldable pub scheduled_compliance_scan_controller : Controller
scheduled_compliance_scan_controller = record {
  name = "scheduledcompliancescan";
  watches = "ScheduledComplianceScan";
  owns = "ComplianceScan" ∷ [];
  predicates = every_event;
  options = record {
    max_concurrent_reconciles = 1;
    base_delay = 5 * second;
    max_delay = 2 * minute;
    limit = 10;
    burst = 100;
    reconciliation_timeout = 5 * minute;
  };
}

abbrev pub webhook_path : String
webhook_path = "/webhooks/compliancescan"
