-- ===== src/Tests/Single.antt =====
-- A run of both reconcilers over objects in memory, where a patch and a deletion find their scan
-- among the children by its name.
use diki_operator.Common.{
  suc, String, ◌≤◌, ◌≡◌, refl, sym, ap, ◌∙◌, ◌⊎◌, inl, inr, true, not, none, List, [], ◌∷◌, ◌++◌,
  arith, keep, ◌==◌, eq_iff, if◌then◌else◌, Bool-cases,
}
use diki_operator.Common.Errors.{Result, ok, err, plain, ok-injective}
use diki_operator.Api.Meta.{ConfigMap}
use diki_operator.Api.Scan.{ComplianceScan, ComplianceScanStatus, compliance_scan_completed}
use diki_operator.Api.Scheduled.{ScheduledComplianceScan}
use diki_operator.Cluster.{Client, World}
use diki_operator.Cluster.Memory.{Objects, memory}
use diki_operator.Scan.Reconcile.{ClockReadings, reconcile as reconcile_scan}
use diki_operator.Schedule.Cleanup.Insertion.{insertion_sort}
use diki_operator.Schedule.Children.{child_selector}
use diki_operator.Schedule.Reconcile.{reconcile}
use diki_operator.Schedule.Single.{
  KeepsScans, ReadsCurrent, AllUnfinished, finished, active_count, unfinished,
}
use diki_operator.Schedule.Single.Steps.{
  Reach, AllCurrent, IsCurrent, here, next, schedule, scan, Reach-active_count,
}
use diki_operator.Tests.Data.{scan_in, parent, objects, every_hundred, diki, scan_config}

find_child : String → List ComplianceScan → Result ComplianceScan
find_child name [] = err (plain "no such scan")
find_child name (x ∷ xs) = if x.meta.name == name then ok x else find_child name xs

update_child : String → ComplianceScanStatus → List ComplianceScan → List ComplianceScan
update_child name status [] = []
update_child name status (x ∷ xs) =
    (if x.meta.name == name then record x { status = status } else x) ∷ update_child name status xs

abbrev remove_child : String → List ComplianceScan → List ComplianceScan
remove_child name = keep (λ x. not (x.meta.name == name))

-- The name and the UID of the parent never change.
abbrev family : Client
family = record memory {
  get_scan = λ s name. find_child name s.children;
  get_scheduled = λ s name. ok (record s.parent { meta = parent.meta });
  patch_scan = λ s base sent.
      (ok sent, record s { children = update_child base.meta.name sent.status s.children });
  delete_scan = λ s old. (none, record s { children = remove_child old.meta.name s.children });
}

unfinished-append :
    (xs : List ComplianceScan) (x : ComplianceScan)
    → unfinished (xs ++ (x ∷ [])) ≤ suc (unfinished xs)
unfinished-append [] x = ground arith
unfinished-append (y ∷ xs) x = ground (arith, unfinished-append xs x)

unfinished-remove_child :
    (name : String) (xs : List ComplianceScan) → unfinished (remove_child name xs) ≤ unfinished xs
unfinished-remove_child name [] = omega arith
unfinished-remove_child name (x ∷ xs) = ground (arith, unfinished-remove_child name xs)

update_child_finished :
    (name : String) (sent : ComplianceScan) (xs : List ComplianceScan)
    → finished sent ≡ true
    → unfinished (update_child name sent.status xs) ≤ unfinished xs
unfolding update_child
update_child_finished name sent [] h = omega arith
update_child_finished name sent (x ∷ xs) h =
    let rest = update_child_finished name sent xs h in
    elim (Bool-cases (x.meta.name == name)) [
      | inl same ↦ rw (same, update_child, h) (ground (arith, rest))
      | inr other ↦ rw (other, update_child) (ground (arith, rest))
    ]

update_child_unfinished :
    (name : String) (status : ComplianceScanStatus) (xs : List ComplianceScan)
    → AllUnfinished name xs
    → unfinished (update_child name status xs) ≤ unfinished xs
unfolding update_child
update_child_unfinished name status [] h = omega arith
update_child_unfinished name status (x ∷ xs) (new, all) =
    let rest = update_child_unfinished name status xs all in
    elim (Bool-cases (x.meta.name == name)) [
      | inl same ↦
          let open_phase = new ((eq_iff x.meta.name name).0 same) in
          rw (same, update_child, open_phase) (ground (arith, rest))
      | inr other ↦ rw (other, update_child) (ground (arith, rest))
    ]

created_bound :
    (s : Objects) (new : ComplianceScan)
    → unfinished (family.create_scan s new).1.children ≤ suc (unfinished s.children)
created_bound s new = ground (arith, unfinished-append s.children new)

patched_bound :
    (s : Objects) (base sent : ScheduledComplianceScan)
    → unfinished (family.patch_scheduled s base sent).1.children ≤ unfinished s.children
patched_bound s base sent = ground arith

config_map_bound :
    (s : Objects) (m : ConfigMap)
    → unfinished (family.create_config_map s m).1.children ≤ unfinished s.children
config_map_bound s m = ground arith

patched_scan_bound :
    (s : Objects) (base sent : ComplianceScan)
    → (finished sent ≡ true) ⊎ AllUnfinished base.meta.name s.children
    → unfinished (family.patch_scan s base sent).1.children ≤ unfinished s.children
patched_scan_bound s base sent (inl done) =
    update_child_finished base.meta.name sent s.children done
patched_scan_bound s base sent (inr all) =
    update_child_unfinished base.meta.name sent.status s.children all

abbrev keeps : KeepsScans family (child_selector parent)
keeps = record {
  scans = λ s. s.children;
  created = created_bound;
  deleted = λ s old. unfinished-remove_child old.meta.name s.children;
  patched = patched_bound;
  created_config_map = config_map_bound;
  patched_scan = patched_scan_bound;
}

abbrev fresh : ComplianceScan
fresh = scan_in "nightly-3" 30 ""

abbrev old_one : ComplianceScan
old_one = scan_in "nightly-1" 10 compliance_scan_completed

-- A child that was just created, and one that is Completed.
abbrev start : World family
start = record { state = record objects { children = fresh ∷ old_one ∷ [] }; writes = [] }

abbrev times : ClockReadings
times = record { running = 201; completed = 202; failed = 203 }

-- The new child is reconciled, and is completed; then the parent is, which creates the next child and
-- deletes the oldest one.
abbrev scanned : World family
scanned = (reconcile_scan family diki scan_config times "nightly-3" start).1

abbrev scheduled : World family
scheduled = (reconcile family every_hundred insertion_sort 300 "nightly" scanned).1

fresh-ReadsCurrent : ReadsCurrent keeps start.state "nightly-3"
unfolding find_child
fresh-ReadsCurrent found h =
    let same : fresh ≡ found = ok-injective h in
    (
      λ p. ap (λ x. x.status.phase) same,
      (
        λ p.
            absurd (
              ground (arith, eq_iff "nightly-1" "nightly-3", p ∙ sym (ap (λ x. x.meta.name) same))),
        tt,
      ),
    )

abbrev both : Reach keeps every_hundred insertion_sort diki start.state scheduled.state
both = next (next here (scan scan_config times "nightly-3" start refl refl)) (
    schedule 300 "nightly" scanned refl (λ p read. ap child_selector (sym (ok-injective read)))
      refl)

both-AllCurrent : AllCurrent keeps every_hundred insertion_sort diki both
unfolding AllCurrent IsCurrent
both-AllCurrent = ((tt, fresh-ReadsCurrent), λ found h. sym (ok-injective h))

Reach-active_count_example : active_count keeps scheduled.state ≤ 1
Reach-active_count_example =
    Reach-active_count keeps every_hundred insertion_sort diki (omega arith) both both-AllCurrent
