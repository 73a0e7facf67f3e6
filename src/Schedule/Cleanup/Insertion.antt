-- ===== src/Schedule/Cleanup/Insertion.antt =====
-- An insertion sort meets the laws of `slices.SortFunc`.
use mathlib.Core.List.{Perm}
use mathlib.Core.List.Perm
use diki_operator.Common.{List, [], ◌∷◌, All, arith, leb, if◌then◌else◌, Bool-cases}
use diki_operator.Common.{inl, inr}
use diki_operator.Api.Scan.{ComplianceScan}
use diki_operator.Schedule.Cleanup.{NotAfter, IsSorted, SortFunc}

abbrev insert_scan : ComplianceScan → List ComplianceScan → List ComplianceScan
insert_scan x [] = x ∷ []
insert_scan x (y ∷ ys) =
    if leb x.meta.creation_timestamp y.meta.creation_timestamp
    then x ∷ y ∷ ys
    else y ∷ insert_scan x ys

abbrev sort_scans : List ComplianceScan → List ComplianceScan
sort_scans [] = []
sort_scans (x ∷ xs) = insert_scan x (sort_scans xs)

insert_scan-perm :
    (x : ComplianceScan) (ys : List ComplianceScan) → Perm (insert_scan x ys) (x ∷ ys)
insert_scan-perm x [] = Perm.rfl
insert_scan-perm x (y ∷ ys) =
    elim (Bool-cases (leb x.meta.creation_timestamp y.meta.creation_timestamp)) [
      | inl before ↦ rw before Perm.rfl
      | inr after ↦ rw after (Perm.trans (Perm.cons y (insert_scan-perm x ys)) (Perm.swap x y ys))
    ]

All-insert_scan :
    (y x : ComplianceScan) (ys : List ComplianceScan)
    → NotAfter y x
    → All (NotAfter y) ys
    → All (NotAfter y) (insert_scan x ys)
All-insert_scan y x [] h k = (h, tt)
All-insert_scan y x (z ∷ ys) h k =
    elim (Bool-cases (leb x.meta.creation_timestamp z.meta.creation_timestamp)) [
      | inl before ↦ rw before ((h, k))
      | inr after ↦ rw after ((k.0, All-insert_scan y x ys h k.1))
    ]

All-before :
    (x y : ComplianceScan) (ys : List ComplianceScan)
    → NotAfter x y
    → All (NotAfter y) ys
    → All (NotAfter x) ys
All-before x y [] h k = tt
All-before x y (z ∷ ys) h k = (omega (arith, h, k.0), All-before x y ys h k.1)

insert_scan-IsSorted :
    (x : ComplianceScan) (ys : List ComplianceScan) → IsSorted ys → IsSorted (insert_scan x ys)
insert_scan-IsSorted x [] s = (tt, tt)
insert_scan-IsSorted x (y ∷ ys) s =
    elim (Bool-cases (leb x.meta.creation_timestamp y.meta.creation_timestamp)) [
      | inl before ↦
          let le : NotAfter x y = ground arith in rw before (((le, All-before x y ys le s.0), s))
      | inr after ↦
          rw after ((All-insert_scan y x ys (ground arith) s.0, insert_scan-IsSorted x ys s.1))
    ]

pub sort_scans-perm : (xs : List ComplianceScan) → Perm (sort_scans xs) xs
sort_scans-perm [] = Perm.rfl
sort_scans-perm (x ∷ xs) =
    Perm.trans (insert_scan-perm x (sort_scans xs)) (Perm.cons x (sort_scans-perm xs))

pub sort_scans-IsSorted : (xs : List ComplianceScan) → IsSorted (sort_scans xs)
sort_scans-IsSorted [] = tt
sort_scans-IsSorted (x ∷ xs) = insert_scan-IsSorted x (sort_scans xs) (sort_scans-IsSorted xs)

abbrev pub insertion_sort : SortFunc
insertion_sort = record {
  sort = sort_scans;
  sort-perm = sort_scans-perm;
  sort-IsSorted = sort_scans-IsSorted;
}
