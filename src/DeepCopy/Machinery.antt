-- ===== src/DeepCopy/Machinery.antt =====
-- The deep copies of k8s.io/apimachinery that the generated ones call: parameters, with the law
-- that they are deep copies.
use diki_operator.Api.Meta.{Time, ListMeta, ObjectMeta, RawExtension}
use diki_operator.DeepCopy.Memory.{Run}
use diki_operator.DeepCopy.Layout.{Foreign}
use diki_operator.DeepCopy.Cells.{Cell}
use diki_operator.DeepCopy.Fresh.{Reading, IsDeepCopy}
use diki_operator.DeepCopy.Pointers.{Itself}

pub record Machinery (F : Foreign) : Type 0 where
  pub deep_copy_object_meta : F.Meta → Run (Cell F) F.Meta
  pub deep_copy_list_meta : F.ListMetaAt → Run (Cell F) F.ListMetaAt
  pub deep_copy_raw_extension : F.Raw → Run (Cell F) F.Raw
  pub deep_copy_time : Time → Run (Cell F) Time

pub record IsMachinery {F : Foreign} (K : Machinery F) : Type 1 where
  pub ObjectMetaReads : Reading (Cell F) F.Meta ObjectMeta
  pub ListMetaReads : Reading (Cell F) F.ListMetaAt ListMeta
  pub RawExtensionReads : Reading (Cell F) F.Raw RawExtension
  pub object_meta-IsDeepCopy : IsDeepCopy ObjectMetaReads K.deep_copy_object_meta
  pub list_meta-IsDeepCopy : IsDeepCopy ListMetaReads K.deep_copy_list_meta
  pub raw_extension-IsDeepCopy : IsDeepCopy RawExtensionReads K.deep_copy_raw_extension
  pub time-IsDeepCopy : IsDeepCopy {A = Time} Itself K.deep_copy_time
