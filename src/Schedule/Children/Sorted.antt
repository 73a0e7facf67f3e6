-- ===== src/Schedule/Children/Sorted.antt =====
-- How the loop over the listed children sorts them by their phase.
use mathlib.Core.Path.{subst}
use mathlib.Core.List.{Memᴰ, append_assoc, append-nil}
use diki_operator.Common.{◌≡◌, refl, sym, ◌∙◌, ◌≢◌, ◌↔◌, ◌⊎◌, inl, inr, false}
use diki_operator.Common.{
  none, some, List, [], ◌∷◌, ◌++◌, ◌==◌, eq_iff, arith, keep, All, Bool-cases,
}
use diki_operator.Api.Scan.{
  ComplianceScan, ComplianceScanPhase, compliance_scan_completed, compliance_scan_failed,
}
use diki_operator.Schedule.Children.{Children, no_children, categorize, categorize_scan}

abbrev pub IsUnfinished : ComplianceScan → Type 0
IsUnfinished scan =
    (scan.status.phase ≢ compliance_scan_completed) × (scan.status.phase ≢ compliance_scan_failed)

abbrev pub IsFinished : ComplianceScan → Type 0
IsFinished scan =
    (scan.status.phase ≡ compliance_scan_completed) ⊎ (scan.status.phase ≡ compliance_scan_failed)

-- The active child after one more scan.
categorize_scan-active :
    (c : Children) (scan : ComplianceScan)
    → IsUnfinished scan
    → (categorize_scan c scan).active ≡ some scan
unfolding categorize_scan
categorize_scan-active c scan h = ground (
  arith,
  eq_iff scan.status.phase compliance_scan_completed,
  eq_iff scan.status.phase compliance_scan_failed,
)

categorize_scan_keeps :
    (c : Children) (scan a : ComplianceScan)
    → c.active ≡ some a
    → (b : ComplianceScan) × ((categorize_scan c scan).active ≡ some b)
unfolding categorize_scan
categorize_scan_keeps c scan a h =
    elim (Bool-cases (scan.status.phase == compliance_scan_completed)) [
      | inl done ↦ (a, rw done h)
      | inr open_phase ↦ elim (Bool-cases (scan.status.phase == compliance_scan_failed)) [
        | inl lost ↦ (a, rw (open_phase, lost) h)
        | inr running ↦ (scan, rw (open_phase, running))
      ]
    ]

categorize_keeps :
    (scans : List ComplianceScan) (c : Children) (a : ComplianceScan)
    → c.active ≡ some a
    → (b : ComplianceScan) × ((categorize scans c).active ≡ some b)
unfolding categorize
categorize_keeps [] c a h = (a, h)
categorize_keeps (scan ∷ scans) c a h =
    let (b, eq) = categorize_scan_keeps c scan a h in
    categorize_keeps scans (categorize_scan c scan) b eq

-- An unfinished scan in the list makes some scan the active one.
pub categorize_unfinished :
    (scans : List ComplianceScan) (c : Children) (scan : ComplianceScan)
    → Memᴰ scan scans
    → IsUnfinished scan
    → (b : ComplianceScan) × ((categorize scans c).active ≡ some b)
unfolding categorize
categorize_unfinished [] c scan m h = elim m [ ]
categorize_unfinished (x ∷ scans) c scan (Memᴰ.head e) h =
    categorize_keeps scans (categorize_scan c x) x
      (categorize_scan-active c x (subst (λ s. IsUnfinished s) e h))
categorize_unfinished (x ∷ scans) c scan (Memᴰ.tail m) h =
    categorize_unfinished scans (categorize_scan c x) scan m h

-- The active child is an unfinished scan of the list, or it was there before.
pub categorize-active :
    (scans : List ComplianceScan) (c : Children) (a : ComplianceScan)
    → (categorize scans c).active ≡ some a
    → (c.active ≡ some a) ⊎ (Memᴰ a scans × IsUnfinished a)
unfolding categorize
categorize-active [] c a h = inl h
categorize-active (scan ∷ scans) c a h =
    elim (categorize-active scans (categorize_scan c scan) a h) [
      | inr (member, unfinished) ↦ inr (Memᴰ.tail member, unfinished)
      | inl kept ↦ elim (Bool-cases (scan.status.phase == compliance_scan_completed)) [
        | inl done ↦ inl (rw done at kept)
        | inr open_phase ↦ elim (Bool-cases (scan.status.phase == compliance_scan_failed)) [
          | inl lost ↦ inl (rw (open_phase, lost) at kept)
          | inr running ↦
              let same : scan ≡ a = ground (arith, rw (open_phase, running) at kept) in
              let unfinished : IsUnfinished scan = (
                ground (arith, open_phase, eq_iff scan.status.phase compliance_scan_completed),
                ground (arith, running, eq_iff scan.status.phase compliance_scan_failed),
              ) in
              inr (Memᴰ.head (sym same), subst (λ s. IsUnfinished s) same unfinished)
        ]
      ]
    ]

-- The scans of a phase, in their order.
abbrev pub in_phase : ComplianceScanPhase → List ComplianceScan → List ComplianceScan
in_phase phase = keep (λ scan. scan.status.phase == phase)

categorize_successful :
    (scans : List ComplianceScan) (c : Children)
    → (categorize scans c).successful ≡ c.successful ++ in_phase compliance_scan_completed scans
unfolding categorize
categorize_successful [] c = sym (append-nil c.successful)
categorize_successful (scan ∷ scans) c =
    elim (Bool-cases (scan.status.phase == compliance_scan_completed)) [
      | inl done ↦
          categorize_successful scans (categorize_scan c scan)
          ∙ rw done
              (append_assoc c.successful (scan ∷ []) (in_phase compliance_scan_completed scans))
      | inr other ↦ categorize_successful scans (categorize_scan c scan) ∙ rw other (ground arith)
    ]

categorize_failed :
    (scans : List ComplianceScan) (c : Children)
    → (categorize scans c).failed ≡ c.failed ++ in_phase compliance_scan_failed scans
unfolding categorize
categorize_failed [] c = sym (append-nil c.failed)
categorize_failed (scan ∷ scans) c =
    elim (Bool-cases (scan.status.phase == compliance_scan_completed)) [
      | inl done ↦
          let not_lost : (scan.status.phase == compliance_scan_failed) ≡ false = ground (
            arith,
            eq_iff scan.status.phase compliance_scan_completed,
            eq_iff scan.status.phase compliance_scan_failed,
            eq_iff compliance_scan_completed compliance_scan_failed,
          ) in
          categorize_failed scans (categorize_scan c scan) ∙ rw (done, not_lost) (ground arith)
      | inr other ↦ elim (Bool-cases (scan.status.phase == compliance_scan_failed)) [
        | inl lost ↦
            categorize_failed scans (categorize_scan c scan)
            ∙ rw (other, lost)
                (append_assoc c.failed (scan ∷ []) (in_phase compliance_scan_failed scans))
        | inr running ↦
            categorize_failed scans (categorize_scan c scan) ∙ rw (other, running) (ground arith)
      ]
    ]

categorize_idle :
    (scans : List ComplianceScan) (c : Children)
    → All IsFinished scans
    → (categorize scans c).active ≡ c.active
unfolding categorize
categorize_idle [] c h = refl
categorize_idle (scan ∷ scans) c h =
    categorize_idle scans (categorize_scan c scan) h.1
    ∙ ground (
      arith,
      h.0,
      eq_iff scan.status.phase compliance_scan_completed,
      eq_iff scan.status.phase compliance_scan_failed,
    )

all-IsFinished :
    (scans : List ComplianceScan)
    → ((scan : ComplianceScan) → Memᴰ scan scans → ¬ (IsUnfinished scan))
    → All IsFinished scans
all-IsFinished [] h = tt
all-IsFinished (x ∷ scans) h = (
  elim (Bool-cases (x.status.phase == compliance_scan_completed)) [
    | inl done ↦ inl ((eq_iff _ _).0 done)
    | inr other ↦ elim (Bool-cases (x.status.phase == compliance_scan_failed)) [
      | inl lost ↦ inr ((eq_iff _ _).0 lost)
      | inr running ↦ absurd (
          h x (Memᴰ.head refl) (
            ground (arith, eq_iff x.status.phase compliance_scan_completed),
            ground (arith, eq_iff x.status.phase compliance_scan_failed),
          ))
    ]
  ],
  all-IsFinished scans (λ scan m. h scan (Memᴰ.tail m)),
)

-- The loop gives the Completed scans and the Failed scans, each in the order of the list, and no
-- active scan exactly when all scans are Completed or Failed.
pub categorize_lem :
    (scans : List ComplianceScan)
    → ((categorize scans no_children).successful ≡ in_phase compliance_scan_completed scans)
      × ((categorize scans no_children).failed ≡ in_phase compliance_scan_failed scans)
      × (((categorize scans no_children).active ≡ none) ↔ All IsFinished scans)
categorize_lem scans = (
  categorize_successful scans no_children,
  categorize_failed scans no_children,
  (
    λ idle. all-IsFinished scans λ scan member unfinished.
        let (b, active) = categorize_unfinished scans no_children scan member unfinished in
        ground (arith, idle, active),
    λ all. categorize_idle scans no_children all,
  ),
)
