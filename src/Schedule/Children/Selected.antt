-- ===== src/Schedule/Children/Selected.antt =====
-- The child that is created is one that its parent, and no other parent, lists.
use diki_operator.Common.{String, ◌≡◌, ◌↔◌, Bool, true, false, ◌&&◌, Option, none, some}
use diki_operator.Common.{[], ◌∷◌, ◌==◌, eq_iff, arith}
use diki_operator.Common.Maps.{lookup}
use diki_operator.Api.Meta.{Labels}
use diki_operator.Api.Scheduled.{ScheduledComplianceScan}
use diki_operator.Schedule.Children.{child_selector, child_scan}

abbrev has_label : Option String → String → Bool
has_label none v = false
has_label (some u) v = u == v

-- `client.MatchingLabels`: every label of the selector stands among the labels.
unfoldable pub matches_labels : Labels → Labels → Bool
matches_labels [] labels = true
matches_labels ((k, v) ∷ selector) labels =
    has_label (lookup k labels) v && matches_labels selector labels

-- A scan that is created for one parent is selected by the labels of another exactly when both have
-- one name and one UID.
pub child_selector-child_scan :
    (parent q : ScheduledComplianceScan) (name : String)
    → (matches_labels (child_selector q) (child_scan parent name).meta.labels ≡ true)
      ↔ ((parent.meta.name ≡ q.meta.name) × (parent.meta.uid ≡ q.meta.uid))
unfolding matches_labels child_scan lookup
child_selector-child_scan parent q name =
    ground (arith, eq_iff parent.meta.name q.meta.name, eq_iff parent.meta.uid q.meta.uid)
