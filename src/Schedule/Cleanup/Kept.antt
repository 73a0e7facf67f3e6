-- ===== src/Schedule/Cleanup/Kept.antt =====
-- What a clean-up deletes and what it leaves.
use mathlib.Core.List.{Perm, append-nil, append_assoc}
use mathlib.Core.Path.{subst}
use diki_operator.Common.{ℕ, zero, suc, ◌+◌, ◌-◌, ◌≤◌, ◌<◌, ◌≡◌, refl, sym, ◌∙◌, ap}
use diki_operator.Common.{Bool, true, false, List, [], ◌∷◌, ◌++◌, All, length, take, drop, arith}
use diki_operator.Common.{take-append-drop, length-drop}
use diki_operator.Common.Perms.{length-perm}
use diki_operator.Common.Int.{pos, negsuc}
use diki_operator.Api.Scan.{ComplianceScan}
use diki_operator.Cluster.{Client, World, Write, send_delete_scan, deleted}
use diki_operator.Schedule.Cleanup.{NotAfter, IsSorted, SortFunc, delete_loop, cleanup_old_scans}

-- The writes are the deletions of these scans, one for each and in this order, acknowledged or not.
pub data Deletes : List ComplianceScan → List (Write × Bool) → Type 0 where
  no_more : Deletes [] []
  one_more :
      {x : ComplianceScan} {acknowledged : Bool} {xs : List ComplianceScan}
      {ws : List (Write × Bool)}
      → Deletes xs ws
      → Deletes (x ∷ xs) ((Write.delete_scan x, acknowledged) ∷ ws)

module _ (C : Client) where
  -- The loop sent these deletions.
  pub record Sent (scans : List ComplianceScan) (w w' : World C) : Type 0 where
    pub writes : List (Write × Bool)
    pub added : w'.writes ≡ w.writes ++ writes
    pub deletes : Deletes scans writes

  Sent-cons :
      (x : ComplianceScan) (xs : List ComplianceScan) (w w' : World C)
      → Sent xs (send_delete_scan C x w).1 w'
      → Sent (x ∷ xs) w w'
  Sent-cons x xs w w' sent = record {
    writes = (Write.delete_scan x, deleted C (C.delete_scan w.state x).0) ∷ sent.writes;
    added =
        sent.added
        ∙ append_assoc w.writes ((Write.delete_scan x, deleted C (C.delete_scan w.state x).0) ∷ [])
            sent.writes;
    deletes = one_more sent.deletes;
  }

  delete_loop-Sent :
      (n : ℕ) (scans : List ComplianceScan) (w : World C)
      → Sent (take n scans) w (delete_loop C n scans w).1
  unfolding delete_loop
  delete_loop-Sent zero scans w = record {
    writes = [];
    added = sym (append-nil _);
    deletes = no_more;
  }
  delete_loop-Sent (suc n) [] w = record {
    writes = [];
    added = sym (append-nil _);
    deletes = no_more;
  }
  delete_loop-Sent (suc n) (x ∷ scans) w =
      Sent-cons x (take n scans) w _ (delete_loop-Sent n scans (send_delete_scan C x w).1)

  delete_loop_in_range :
      (n : ℕ) (scans : List ComplianceScan) (w : World C)
      → n ≤ length scans
      → (delete_loop C n scans w).0 ≡ true
  unfolding delete_loop
  delete_loop_in_range zero scans w h = refl
  delete_loop_in_range (suc n) [] w h = absurd (omega arith)
  delete_loop_in_range (suc n) (x ∷ scans) w h =
      delete_loop_in_range n scans (send_delete_scan C x w).1 (omega arith)

  delete_loop_out_of_range :
      (n : ℕ) (scans : List ComplianceScan) (w : World C)
      → length scans < n
      → (delete_loop C n scans w).0 ≡ false
  unfolding delete_loop
  delete_loop_out_of_range zero scans w h = absurd (omega arith)
  delete_loop_out_of_range (suc n) [] w h = refl
  delete_loop_out_of_range (suc n) (x ∷ scans) w h =
      delete_loop_out_of_range n scans (send_delete_scan C x w).1 (omega arith)

All-drop :
    (x : ComplianceScan) (n : ℕ) (xs : List ComplianceScan)
    → All (NotAfter x) xs
    → All (NotAfter x) (drop n xs)
All-drop x zero xs h = h
All-drop x (suc n) [] h = h
All-drop x (suc n) (y ∷ xs) h = All-drop x n xs h.1

-- In a sorted list what is taken was created no later than what is dropped.
older_first :
    (n : ℕ) (xs : List ComplianceScan)
    → IsSorted xs
    → All (λ d. All (NotAfter d) (drop n xs)) (take n xs)
older_first zero xs s = tt
older_first (suc n) [] s = tt
older_first (suc n) (x ∷ xs) s = (All-drop x n xs s.0, older_first n xs s.1)

length-take_le : (n : ℕ) (xs : List ComplianceScan) → n ≤ length xs → length (take n xs) ≡ n
length-take_le zero xs h = refl
length-take_le (suc n) [] h = absurd (omega arith)
length-take_le (suc n) (x ∷ xs) h = ap suc (length-take_le n xs (omega arith))

-- A clean-up of `scans` to `limit` ended with no panic. It tried to delete `deleted_scans`, each
-- once, and `kept` are the others; no more are deleted than the limit asks, and none that was
-- created after one that is kept.
pub record Cleaned (C : Client) (scans : List ComplianceScan) (limit : ℕ) (w : World C)
    (outcome : Bool × World C) : Type 0 where
  pub deleted_scans : List ComplianceScan
  pub kept : List ComplianceScan
  pub finished : outcome.0 ≡ true
  pub sent : Sent C deleted_scans w outcome.1
  pub splits : Perm (deleted_scans ++ kept) scans
  pub count_deleted : length deleted_scans ≡ length scans - limit
  pub within_limit : length kept ≤ limit
  pub older : All (λ d. All (NotAfter d) kept) deleted_scans

module _ (C : Client) (S : SortFunc) (scans : List ComplianceScan) (w : World C) where
  -- With a limit that is not negative, a clean-up ends without a panic and tries to delete, one by
  -- one, exactly the scans in excess of the limit; they and the kept ones make up the given scans,
  -- at most `limit` are kept, and no deleted scan was created after a kept one.
  pub cleanup_old_scans-Cleaned :
      (limit : ℕ) → Cleaned C scans limit w (cleanup_old_scans C S scans (pos limit) w)
  unfolding cleanup_old_scans
  cleanup_old_scans-Cleaned limit =
      let n : ℕ = length scans - limit in
      let sorted : List ComplianceScan = S.sort scans in
      let same : length sorted ≡ length scans = length-perm (S.sort-perm scans) in
      record {
        deleted_scans = take n sorted;
        kept = drop n sorted;
        finished = delete_loop_in_range C n sorted w (omega arith);
        sent = delete_loop-Sent C n sorted w;
        splits = rw (take-append-drop n sorted) (S.sort-perm scans);
        count_deleted = length-take_le n sorted (omega arith);
        within_limit = omega (arith, length-drop n sorted);
        older = older_first n sorted (S.sort-IsSorted scans);
      }

  take_all : (n : ℕ) (xs : List ComplianceScan) → length xs ≤ n → take n xs ≡ xs
  take_all zero [] h = refl
  take_all zero (x ∷ xs) h = absurd (omega arith)
  take_all (suc n) [] h = refl
  take_all (suc n) (x ∷ xs) h = ap (◌∷◌ x) (take_all n xs (omega arith))

  -- With a negative limit a clean-up panics, after it has tried to delete every scan.
  pub cleanup_old_scans_negative :
      (limit : ℕ)
      → ((cleanup_old_scans C S scans (negsuc limit) w).0 ≡ false)
        × Sent C (S.sort scans) w (cleanup_old_scans C S scans (negsuc limit) w).1
  unfolding cleanup_old_scans
  cleanup_old_scans_negative limit =
      let n : ℕ = length scans + suc limit in
      let same : length (S.sort scans) ≡ length scans = length-perm (S.sort-perm scans) in
      (
        delete_loop_out_of_range C n (S.sort scans) w (omega arith),
        subst (λ xs. Sent C xs w (delete_loop C n (S.sort scans) w).1)
            (take_all n (S.sort scans) (omega arith)) (delete_loop-Sent C n (S.sort scans) w),
      )
