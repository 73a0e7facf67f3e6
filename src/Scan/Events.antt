-- ===== src/Scan/Events.antt =====
-- From an event of the API server to `Reconcile`: the predicate of the controller
-- (internal/reconciler/compliancescan/add.go) lets an event through or drops it.
-- One call of `Reconcile` is modelled for an event; the queue of controller-runtime, which calls it
-- once more after an error, is not.
use diki_operator.Common.{
  String, ◌≡◌, ◌≢◌, refl, inl, inr, Option, none, arith, ◌==◌, eq_iff, if◌then◌else◌, Bool-cases,
}
use diki_operator.Common.Errors.{Error, Result-cases, ok}
use diki_operator.Api.Scan.{ComplianceScan}
use diki_operator.Api.Config.{ComplianceScanConfig}
use diki_operator.Cluster.{Client, World}
use diki_operator.Scan.DikiConfig.{Diki}
use diki_operator.Scan.Reconcile.{ClockReadings, reconcile}
use diki_operator.Command.Registration.{
  Event, create_event, update_event, delete_event, generic_event, predicate,
}

-- The object of an event, for which a request is queued.
abbrev pub request_name : Event → String
request_name (create_event name) = name
request_name (update_event name) = name
request_name (delete_event name) = name
request_name (generic_event name) = name

module _ (C : Client) (D : Diki) (config : ComplianceScanConfig) (times : ClockReadings) where
  unfoldable pub deliver : Event → World C → Option Error × World C
  deliver e w = if predicate e then reconcile C D config times (request_name e) w else (none, w)

  reconcile-new :
      (name : String) (w : World C)
      → (reconcile C D config times name w).1.writes ≢ w.writes
      → (scan : ComplianceScan) × (C.get_scan w.state name ≡ ok scan) × (scan.status.phase ≡ "")
  unfolding reconcile
  reconcile-new name w h = elim (Result-cases (C.get_scan w.state name)) [
    | inr (e, eq) ↦ absurd (h (rw (reconcile, eq) (ground arith)))
    | inl (scan, eq) ↦ elim (Bool-cases (scan.status.phase == "")) [
      | inl new ↦ (scan, eq, (eq_iff scan.status.phase "").0 new)
      | inr old ↦ absurd (h (rw (reconcile, eq, old) refl))
    ]
  ]

  -- If an event makes the controller write, then it is the creation of an object, and that object is
  -- read as a scan whose phase is empty: no update, deletion or repeated creation of a scan that was
  -- taken up writes anything.
  pub deliver-new :
      (e : Event) (w : World C)
      → (deliver e w).1.writes ≢ w.writes
      → (name : String) × (scan : ComplianceScan) × (e ≡ create_event name)
        × (C.get_scan w.state name ≡ ok scan)
        × (scan.status.phase ≡ "")
  unfolding deliver predicate
  deliver-new (create_event name) w h =
      let (scan, read, new) = reconcile-new name w h in (name, scan, refl, read, new)
  deliver-new (update_event name) w h = absurd (h refl)
  deliver-new (delete_event name) w h = absurd (h refl)
  deliver-new (generic_event name) w h = absurd (h refl)
