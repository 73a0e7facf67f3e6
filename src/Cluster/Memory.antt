-- ===== src/Cluster/Memory.antt =====
-- A client over objects in memory, for tests and for the examples of the theorems: a read of
-- another name fails, and writes fail where `read_only` says so. Like the CRD it admits no parent
-- with a negative history limit.
use diki_operator.Common.{
  String, ◌<>◌, Bool, true, ◌&&◌, Option, none, some, List, [], ◌∷◌, ◌++◌, ◌==◌,
}
use diki_operator.Common.{not, if◌then◌else◌}
use diki_operator.Common.Int.{ℤ, is_negative}
use diki_operator.Common.Maps.{lookup}
use diki_operator.Common.Errors.{Error, api, Reason, Result, ok, err}
use diki_operator.Api.Meta.{ConfigMap}
use diki_operator.Api.Scan.{ComplianceScan}
use diki_operator.Api.Scheduled.{ScheduledComplianceScan}
use diki_operator.Cluster.{Client}

pub record Objects : Type 0 where
  pub scan : ComplianceScan
  pub parent : ScheduledComplianceScan
  -- Under "namespace/name".
  pub config_maps : List (String × ConfigMap)
  pub children : List ComplianceScan
  pub read_only : Bool

abbrev pub admits : Option ℤ → Bool
admits none = true
admits (some limit) = not (is_negative limit)

abbrev pub admits_parent : ScheduledComplianceScan → Bool
admits_parent p =
    admits p.spec.successful_scans_history_limit && admits p.spec.failed_scans_history_limit

abbrev refusal : Error
refusal = api Reason.other "read only"

abbrev missing : Error
missing = api Reason.not_found "no such object"

abbrev answer_to {ℓ} : {A : Type ℓ} → Objects → A → Result A
answer_to s a = if s.read_only then err refusal else ok a

-- A write that fails leaves the objects as they are.
abbrev stored : Objects → Objects → Objects
stored s s' = if s.read_only then s else s'

abbrev pub memory : Client
memory = record {
  State = Objects;
  get_scan = λ s name. if name == s.scan.meta.name then ok s.scan else err missing;
  get_scheduled = λ s name.
      if name == s.parent.meta.name && admits_parent s.parent then ok s.parent else err missing;
  get_config_map = λ s namespace name. elim (lookup (namespace <> ("/" <> name)) s.config_maps) [
    | none ↦ err missing
    | some m ↦ ok m
  ];
  list_scans = λ s labels. ok s.children;
  patch_scan = λ s base scan. (answer_to s scan, stored s (record s { scan = scan }));
  patch_scheduled = λ s base parent.
      if admits_parent parent
      then (answer_to s parent, stored s (record s { parent = parent }))
      else (err refusal, s);
  create_config_map = λ s m. (
    answer_to s m,
    stored s (record s {
      config_maps = s.config_maps ++ ((m.meta.namespace <> ("/" <> m.meta.name), m) ∷ []);
    }),
  );
  create_scan =
      λ s scan. (answer_to s scan, stored s (record s { children = s.children ++ (scan ∷ []) }));
  delete_scan = λ s scan. (if s.read_only then some refusal else none, s);
}
