-- ===== src/Schedule/Reconcile/Creations.antt =====
-- How many creations of scans the parts of a reconciliation send.
use diki_operator.Common.{ℕ, zero, suc, ◌+◌, ◌^◌, ◌<◌, ◌≡◌, refl, ◌∙◌, inl, inr}
use diki_operator.Common.{Bool, some, List, [], ◌∷◌, ◌++◌, arith}
use diki_operator.Common.{length}
use diki_operator.Common.Int.{ℤ}
use diki_operator.Common.Errors.{wrap, Result, Result-cases}
use diki_operator.Api.Meta.{Time}
use diki_operator.Api.Scan.{ComplianceScan}
use diki_operator.Api.Scheduled.{ScheduledComplianceScan}
use diki_operator.Cluster.{Client, World, Write, acknowledged, send_delete_scan}
use diki_operator.Schedule.ChildName.{seconds}
use diki_operator.Schedule.ChildName.Bounds.{child_scan_name_total}
use diki_operator.Schedule.Cleanup.{SortFunc, excess, delete_loop, cleanup_old_scans}
use diki_operator.Schedule.Children.{Children, child_scan, set_active_scan, deploy_compliance_scan}
use diki_operator.Schedule.Reconcile.{Cron, finish, create_child, limit_or_zero}

-- How many creations of scans were sent.
unfoldable pub creates : List (Write × Bool) → ℕ
creates [] = 0
creates ((Write.create_scan scan, b) ∷ ws) = suc (creates ws)
creates ((Write.patch_scan scan, b) ∷ ws) = creates ws
creates ((Write.patch_scheduled scan, b) ∷ ws) = creates ws
creates ((Write.create_config_map m, b) ∷ ws) = creates ws
creates ((Write.delete_scan scan, b) ∷ ws) = creates ws

pub creates-append : (xs ys : List (Write × Bool)) → creates (xs ++ ys) ≡ creates xs + creates ys
unfolding creates
creates-append [] ys = omega arith
creates-append ((Write.create_scan scan, b) ∷ ws) ys = omega (arith, creates-append ws ys)
creates-append ((Write.patch_scan scan, b) ∷ ws) ys = creates-append ws ys
creates-append ((Write.patch_scheduled scan, b) ∷ ws) ys = creates-append ws ys
creates-append ((Write.create_config_map m, b) ∷ ws) ys = creates-append ws ys
creates-append ((Write.delete_scan scan, b) ∷ ws) ys = creates-append ws ys

module _ (C : Client) where
  pub delete_loop-creates :
      (n : ℕ) (scans : List ComplianceScan) (w : World C)
      → creates (delete_loop C n scans w).1.writes ≡ creates w.writes
  unfolding delete_loop creates
  delete_loop-creates zero scans w = refl
  delete_loop-creates (suc n) [] w = refl
  delete_loop-creates (suc n) (x ∷ scans) w =
      delete_loop-creates n scans (send_delete_scan C x w).1
      ∙ omega (arith, creates-append w.writes (_ ∷ []))

module _ (C : Client) (K : Cron) (S : SortFunc) (now : Time) where
  pub cleanup-creates :
      (scans : List ComplianceScan) (limit : ℤ) (w : World C)
      → creates (cleanup_old_scans C S scans limit w).1.writes ≡ creates w.writes
  unfolding cleanup_old_scans
  cleanup-creates scans limit w =
      delete_loop-creates C (excess (length scans) limit) (S.sort scans) w

  pub finish-creates :
      (expr : K.Schedule) (parent : ScheduledComplianceScan) (children : Children) (w : World C)
      → creates (finish C K S now expr parent children w).1.writes ≡ creates w.writes
  unfolding finish
  finish-creates expr parent children w =
      let (done, w1) =
        cleanup_old_scans C S children.successful
          (limit_or_zero parent.spec.successful_scans_history_limit) w in
      let first =
        cleanup-creates children.successful
          (limit_or_zero parent.spec.successful_scans_history_limit) w in
      let second =
        cleanup-creates children.failed (limit_or_zero parent.spec.failed_scans_history_limit) w1 in
      ground (arith, first, second)

  pub set_active_scan-creates :
      (parent : ScheduledComplianceScan) (scan : ComplianceScan) (t : Time) (w : World C)
      → creates (set_active_scan C parent scan t w).1.writes ≡ creates w.writes
  unfolding set_active_scan creates
  set_active_scan-creates parent scan t w = omega (arith, creates-append w.writes (_ ∷ []))

  pub deploy_compliance_scan_sent :
      (parent : ScheduledComplianceScan) (w : World C)
      → seconds now < 10 ^ 19
      → (r : Result ComplianceScan) × (w1 : World C) × (deploy_compliance_scan C parent now w
          ≡ some (r, w1))
        × (creates w1.writes ≡ creates w.writes + 1)
  deploy_compliance_scan_sent parent w h =
      let (name, named, short) = child_scan_name_total parent.meta.name now h in
      let (r, s) = C.create_scan w.state (child_scan parent name) in
      (
        wrap "failed to create ComplianceScan" r,
        record {
          state = s;
          writes = w.writes ++ ((Write.create_scan (child_scan parent name), acknowledged r) ∷ []);
        },
        unfold deploy_compliance_scan in rw (named, deploy_compliance_scan),
        unfold creates in
            omega (
              arith,
              creates-append w.writes
                  ((Write.create_scan (child_scan parent name), acknowledged r) ∷ []),
            ),
      )

  pub create_child-creates :
      (expr : K.Schedule) (parent : ScheduledComplianceScan) (children : Children) (w : World C)
      → seconds now < 10 ^ 19
      → creates (create_child C K S now expr parent children w).1.writes ≡ creates w.writes + 1
  unfolding create_child
  create_child-creates expr parent children w h =
      let (r, w1, sent, counted) = deploy_compliance_scan_sent parent w h in
      elim (Result-cases r) [
        | inr (e, eq) ↦ rw (sent, create_child, eq) counted
        | inl (child, eq) ↦
            let active = set_active_scan-creates parent child now w1 in
            elim (Result-cases (set_active_scan C parent child now w1).0) [
              | inr (e, eq2) ↦ rw (sent, create_child, eq, eq2) (active ∙ counted)
              | inl (parent', eq2) ↦
                  rw (sent, create_child, eq, eq2)
                    (finish-creates expr parent' children (set_active_scan C parent child now w1).1
                      ∙ active
                      ∙ counted)
            ]
      ]
