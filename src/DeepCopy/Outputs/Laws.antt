-- ===== src/DeepCopy/Outputs/Laws.antt =====
-- What a ReportOutput and its parts reads as in a memory, and that its copies are deep copies.
use diki_operator.Api.ReportOutput.{Output, ReportOutputSpec, ReportOutput, ReportOutputList}
use diki_operator.DeepCopy.Fresh.{Reading, IsDeepCopy}
use diki_operator.DeepCopy.Pointers.{
  Itself, PointsTo, Elements, assign-IsDeepCopy, copy_pointer-IsDeepCopy, copy_slice-IsDeepCopy,
  one, two,
}
use diki_operator.DeepCopy.Layout.{
  Foreign, StoredOutput, StoredReportOutputSpec, StoredReportOutput, StoredReportOutputList,
}
use diki_operator.DeepCopy.Cells.{Cell}
use diki_operator.DeepCopy.Cells.Objects.{at_output_config_map}
use diki_operator.DeepCopy.Cells.Slices.{at_report_outputs}
use diki_operator.DeepCopy.Machinery.{Machinery, IsMachinery}
use diki_operator.DeepCopy.Outputs.{
  deep_copy_into_output, deep_copy_into_report_output_spec, deep_copy_into_report_output,
  deep_copy_into_report_output_list,
}

module _ {F : Foreign} {K : Machinery F} (L : IsMachinery K) where
  abbrev pub OutputReads : Reading (Cell F) (StoredOutput F) Output
  OutputReads m a v = PointsTo at_output_config_map Itself m a.config_map v.config_map

  pub deep_copy_into_output-IsDeepCopy : IsDeepCopy OutputReads (deep_copy_into_output K)
  unfolding deep_copy_into_output
  deep_copy_into_output-IsDeepCopy = record {
    stable = λ m later a v keeps r.
        (copy_pointer-IsDeepCopy assign-IsDeepCopy at_output_config_map).stable m later a.config_map
          v.config_map keeps r;
    copies = λ m a v r.
        one (copy_pointer-IsDeepCopy assign-IsDeepCopy at_output_config_map) _ r
          (λ later b0 e0. e0);
  }

  abbrev pub ReportOutputSpecReads : Reading (Cell F) (StoredReportOutputSpec F) ReportOutputSpec
  ReportOutputSpecReads m a v = OutputReads m a.output v.output

  pub deep_copy_into_report_output_spec-IsDeepCopy :
      IsDeepCopy ReportOutputSpecReads (deep_copy_into_report_output_spec K)
  unfolding deep_copy_into_report_output_spec
  deep_copy_into_report_output_spec-IsDeepCopy = record {
    stable = λ m later a v keeps r.
        deep_copy_into_output-IsDeepCopy.stable m later a.output v.output keeps r;
    copies = λ m a v r. one deep_copy_into_output-IsDeepCopy _ r (λ later b0 e0. e0);
  }

  abbrev pub ReportOutputReads : Reading (Cell F) (StoredReportOutput F) ReportOutput
  ReportOutputReads m a v =
      L.ObjectMetaReads m a.meta v.meta × ReportOutputSpecReads m a.spec v.spec

  pub deep_copy_into_report_output-IsDeepCopy :
      IsDeepCopy ReportOutputReads (deep_copy_into_report_output K)
  unfolding deep_copy_into_report_output
  deep_copy_into_report_output-IsDeepCopy = record {
    stable = λ m later a v keeps r. (
      L.object_meta-IsDeepCopy.stable m later a.meta v.meta keeps r.0,
      deep_copy_into_report_output_spec-IsDeepCopy.stable m later a.spec v.spec keeps r.1,
    );
    copies = λ m a v r.
        two L.object_meta-IsDeepCopy deep_copy_into_report_output_spec-IsDeepCopy _ r.0 r.1
          (λ later b0 b1 e0 e1. (e0, e1));
  }

  abbrev pub ReportOutputListReads : Reading (Cell F) (StoredReportOutputList F) ReportOutputList
  ReportOutputListReads m a v =
      L.ListMetaReads m a.list_meta v.list_meta
      × Elements at_report_outputs ReportOutputReads m a.items v.items

  pub deep_copy_into_report_output_list-IsDeepCopy :
      IsDeepCopy ReportOutputListReads (deep_copy_into_report_output_list K)
  unfolding deep_copy_into_report_output_list
  deep_copy_into_report_output_list-IsDeepCopy = record {
    stable = λ m later a v keeps r. (
      L.list_meta-IsDeepCopy.stable m later a.list_meta v.list_meta keeps r.0,
      (copy_slice-IsDeepCopy deep_copy_into_report_output-IsDeepCopy at_report_outputs).stable m
          later a.items v.items keeps r.1,
    );
    copies = λ m a v r.
        two L.list_meta-IsDeepCopy
          (copy_slice-IsDeepCopy deep_copy_into_report_output-IsDeepCopy at_report_outputs) _ r.0
          r.1 (λ later b0 b1 e0 e1. (e0, e1));
  }
