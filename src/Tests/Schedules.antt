-- ===== src/Tests/Schedules.antt =====
-- ScheduledComplianceScans: what is created, followed, waited for and cleaned up.
use diki_operator.Common.{String, ◌<>◌, ◌*◌, ◌+◌, ◌≤◌, ◌≡◌, ◌≢◌, ◌↔◌, ◌⊎◌, refl, Bool, true, false}
use diki_operator.Common.{
  Option, none, some, List, [], ◌∷◌, ◌==◌, arith, All, Bool-cases, ◌&&◌, eq_iff, inl, inr,
}
use mathlib.Core.Path.{subst}
use mathlib.Core.List.{Memᴰ}
use diki_operator.Common.Int.{ℤ, pos, negsuc}
use diki_operator.Common.Decimal.{count, take_text}
use diki_operator.Common.Errors.{ok-injective}
use diki_operator.Api.Meta.{Time}
use diki_operator.Api.Scan.{
  ComplianceScan, compliance_scan_completed, compliance_scan_failed, compliance_scan_running,
}
use diki_operator.Api.Scheduled.{ScheduledComplianceScan}
use diki_operator.Cluster.{World}
use diki_operator.Cluster.Memory.{memory, admits, admits_parent}
use diki_operator.Schedule.ChildName.{
  child_scan_name, suffix, format_unix, seconds, dns1035_label_max_length,
}
use diki_operator.Schedule.ChildName.Bounds.{
  child_scan_name_total, child_scan_name-injective, child_scan_name_collision, TenDigits,
}
use diki_operator.Schedule.Cleanup.{cleanup_old_scans}
use diki_operator.Schedule.Cleanup.Insertion.{insertion_sort}
use diki_operator.Schedule.Cleanup.Kept.{
  Cleaned, Sent, cleanup_old_scans-Cleaned, cleanup_old_scans_negative,
}
use diki_operator.Schedule.Children.{categorize, no_children, child_scan, child_selector}
use diki_operator.Schedule.Children.Sorted.{IsFinished, IsUnfinished, categorize_lem}
use diki_operator.Schedule.Children.Selected.{matches_labels, child_selector-child_scan}
use diki_operator.Schedule.Reconcile.{
  requeue_after, panicked, parse_cron_schedule, run_schedule, reconcile,
}
use diki_operator.Schedule.Reconcile.Creations.{creates}
use diki_operator.Schedule.Reconcile.Due.{
  run_schedule_never_next, reconcile-creates_le, reconcile_busy,
}
use diki_operator.Schedule.Reconcile.Active.{
  IsLimit, HasLimits, ServesLimits, run_schedule_waits, reconcile-ne-panicked,
}
use diki_operator.Schedule.Reconcile.Follow.{Repaired, reconcile_follows}
use diki_operator.Schedule.Reconcile.Idle.{IsDue, reconcile_idle}
use diki_operator.Tests.Data.{scan_in, parent, objects, world, every_hundred}

abbrev first_done : ComplianceScan
first_done = scan_in "nightly-1" 20 compliance_scan_completed

abbrev second_done : ComplianceScan
second_done = scan_in "nightly-2" 10 compliance_scan_completed

abbrev lost : ComplianceScan
lost = scan_in "nightly-3" 30 compliance_scan_failed

abbrev busy : ComplianceScan
busy = scan_in "nightly-4" 40 compliance_scan_running

abbrev all_scans : List ComplianceScan
all_scans = first_done ∷ second_done ∷ lost ∷ busy ∷ []

-- The last run was at 10, so the schedule is due at 110.
abbrev done_world : World memory
done_world = record { state = record objects { children = first_done ∷ lost ∷ [] }; writes = [] }

reconcile_idle_example :
    (IsDue every_hundred (some 100) parent 110
      × (creates (reconcile memory every_hundred insertion_sort 110 "nightly" done_world).1.writes
          ≡ creates [] + 1))
    ⊎ ((¬ (IsDue every_hundred (some 100) parent 110))
        × (creates (reconcile memory every_hundred insertion_sort 110 "nightly" done_world).1.writes
            ≡ creates []))
reconcile_idle_example =
    reconcile_idle memory every_hundred insertion_sort 110 "nightly" done_world (some 100)
      (omega arith) refl refl (inl refl, (inr refl, tt)) refl refl

abbrev never_parent : ScheduledComplianceScan
never_parent = record parent { spec = record parent.spec { schedule = "never" } }

run_schedule_never_next_example :
    creates
      (run_schedule memory every_hundred insertion_sort 11 never_parent no_children world).1.writes
    ≡ creates [] + 1
run_schedule_never_next_example =
    run_schedule_never_next memory every_hundred insertion_sort 11 never_parent no_children world
      none 10 (omega arith) (unfold parse_cron_schedule in refl) refl refl

reconcile-creates_le_example :
    creates (reconcile memory every_hundred insertion_sort 200 "nightly" world).1.writes
    ≤ creates [] + 1
reconcile-creates_le_example =
    reconcile-creates_le memory every_hundred insertion_sort 200 "nightly" world (omega arith)

abbrev busy_world : World memory
busy_world = record { state = record objects { children = all_scans }; writes = [] }

busy-IsUnfinished : IsUnfinished busy
busy-IsUnfinished = (
  λ p. ground (arith, eq_iff compliance_scan_running compliance_scan_completed),
  λ p. ground (arith, eq_iff compliance_scan_running compliance_scan_failed),
)

reconcile_busy_example :
    creates (reconcile memory every_hundred insertion_sort 200 "nightly" busy_world).1.writes
    ≡ creates []
reconcile_busy_example =
    reconcile_busy memory every_hundred insertion_sort 200 "nightly" busy_world busy refl refl
      (Memᴰ.tail (Memᴰ.tail (Memᴰ.tail (Memᴰ.head refl)))) busy-IsUnfinished

reconcile_follows_example :
    ((parent.status.active ≢ none)
      × ((reconcile memory every_hundred insertion_sort 200 "nightly" busy_world).1.writes ≡ [])
      × ((reconcile memory every_hundred insertion_sort 200 "nightly" busy_world).0
          ≡ requeue_after (60 * 1000000000)))
    ⊎ ((parent.status.active ≡ none)
        × Repaired parent all_scans busy_world
            (reconcile memory every_hundred insertion_sort 200 "nightly" busy_world))
reconcile_follows_example =
    reconcile_follows memory every_hundred insertion_sort 200 "nightly" busy_world busy refl refl
      (Memᴰ.tail (Memᴰ.tail (Memᴰ.tail (Memᴰ.head refl)))) busy-IsUnfinished

run_schedule_waits_example :
    (run_schedule memory every_hundred insertion_sort 50 parent no_children world).0
    ≡ requeue_after 60
run_schedule_waits_example =
    run_schedule_waits memory every_hundred insertion_sort 50 parent no_children world (some 100) 10
      (unfold parse_cron_schedule in refl) refl (omega arith) (omega arith)
      (record { successful = tt; failed = tt })

admits-IsLimit : (limit : Option ℤ) → admits limit ≡ true → IsLimit limit
admits-IsLimit none h = tt
admits-IsLimit (some (pos n)) h = tt
admits-IsLimit (some (negsuc n)) h = ground arith

&&-true : (a b : Bool) → (a && b) ≡ true → (a ≡ true) × (b ≡ true)
&&-true a b h = ground arith

admits_parent-HasLimits : (p : ScheduledComplianceScan) → admits_parent p ≡ true → HasLimits p
admits_parent-HasLimits p h = record {
  successful = admits-IsLimit _ (&&-true _ _ h).0;
  failed = admits-IsLimit _ (&&-true _ _ h).1;
}

memory-ServesLimits : ServesLimits memory every_hundred insertion_sort 200
memory-ServesLimits = record {
  read = λ s name p h. elim (Bool-cases (name == s.parent.meta.name && admits_parent s.parent)) [
    | inl served ↦
        subst HasLimits (ok-injective (rw served at h))
          (admits_parent-HasLimits s.parent (&&-true _ _ served).1)
    | inr refused ↦ absurd (ground (arith, h, refused))
  ];
  answered = λ s base sent p h. elim (Bool-cases (admits_parent sent)) [
    | inl served ↦ elim (Bool-cases s.read_only) [
      | inl closed ↦ absurd (ground (arith, h, served, closed))
      | inr open_store ↦
          subst HasLimits (ok-injective (rw (served, open_store) at h))
            (admits_parent-HasLimits sent served)
    ]
    | inr refused ↦ absurd (ground (arith, h, refused))
  ];
}

reconcile-ne-panicked_example :
    (reconcile memory every_hundred insertion_sort 200 "nightly" world).0 ≢ panicked
reconcile-ne-panicked_example =
    reconcile-ne-panicked memory every_hundred insertion_sort 200 memory-ServesLimits (omega arith)
      "nightly" world

cleanup_old_scans-Cleaned_example :
    Cleaned memory all_scans 1 world
      (cleanup_old_scans memory insertion_sort all_scans (pos 1) world)
cleanup_old_scans-Cleaned_example =
    cleanup_old_scans-Cleaned memory insertion_sort all_scans world 1

cleanup_old_scans_negative_example :
    ((cleanup_old_scans memory insertion_sort (first_done ∷ second_done ∷ []) (negsuc 0) world).0
      ≡ false)
    × Sent memory
        (second_done ∷ first_done ∷ [])
        world
        (cleanup_old_scans memory insertion_sort (first_done ∷ second_done ∷ []) (negsuc 0) world).1
cleanup_old_scans_negative_example =
    cleanup_old_scans_negative memory insertion_sort (first_done ∷ second_done ∷ []) world 0

categorize_lem_example :
    ((categorize all_scans no_children).successful ≡ first_done ∷ second_done ∷ [])
    × ((categorize all_scans no_children).failed ≡ lost ∷ [])
    × (((categorize all_scans no_children).active ≡ none) ↔ All IsFinished all_scans)
categorize_lem_example = categorize_lem all_scans

child_selector-child_scan_example :
    (matches_labels (child_selector parent) (child_scan parent "nightly-9").meta.labels ≡ true)
    ↔ ((parent.meta.name ≡ parent.meta.name) × (parent.meta.uid ≡ parent.meta.uid))
child_selector-child_scan_example = child_selector-child_scan parent parent "nightly-9"

-- The first and the second second of 2026, with the nanoseconds of the first.
abbrev new_year : Time
new_year = 63902822400 * 1000000000

new_year-TenDigits : TenDigits new_year
new_year-TenDigits = (omega arith, omega arith)

child_scan_name_total_example :
    (name : String) × (child_scan_name "nightly" new_year ≡ some name)
    × (count name ≤ dns1035_label_max_length)
child_scan_name_total_example = child_scan_name_total "nightly" new_year (omega arith)

child_scan_name-injective_example : seconds new_year ≡ seconds (new_year + 7)
child_scan_name-injective_example =
    child_scan_name-injective "nightly" new_year (new_year + 7) new_year-TenDigits
      (omega arith, omega arith) (unfold child_scan_name suffix format_unix in refl)

abbrev long_name : String
long_name = "a-schedule-whose-name-is-longer-than-all-of-fifty-two"

child_scan_name_collision_example :
    child_scan_name (long_name <> "-a") new_year ≡ child_scan_name (long_name <> "-b") new_year
unfolding take_text
child_scan_name_collision_example =
    child_scan_name_collision (long_name <> "-a") (long_name <> "-b") new_year new_year-TenDigits
      (omega arith) (omega arith) refl
