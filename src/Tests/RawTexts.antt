-- ===== src/Tests/RawTexts.antt =====
-- Deep copies of apimachinery, where a raw extension points to a text.
use diki_operator.Common.{String}
use diki_operator.Api.Meta.{ObjectMeta, ListMeta, RawExtension}
use diki_operator.DeepCopy.Memory.{Pointer, assign, copy_pointer}
use diki_operator.DeepCopy.Pointers.{Itself, PointsTo, assign-IsDeepCopy, copy_pointer-IsDeepCopy}
use diki_operator.DeepCopy.Fresh.{Reading, IsDeepCopy}
use diki_operator.DeepCopy.Layout.{Foreign}
use diki_operator.DeepCopy.Cells.{Cell}
use diki_operator.DeepCopy.Cells.Structs.{at_block}
use diki_operator.DeepCopy.Machinery.{Machinery, IsMachinery}

abbrev pub foreign : Foreign
foreign = record { Block = String; Meta = ObjectMeta; ListMetaAt = ListMeta; Raw = Pointer }

abbrev pub machinery : Machinery foreign
machinery = record {
  deep_copy_object_meta = assign;
  deep_copy_list_meta = assign;
  deep_copy_raw_extension = copy_pointer at_block assign;
  deep_copy_time = assign;
}

abbrev pub RawReads : Reading (Cell foreign) Pointer RawExtension
RawReads m p v = PointsTo at_block Itself m p v.raw

pub raw-IsDeepCopy : IsDeepCopy {V = RawExtension} RawReads (copy_pointer at_block assign)
raw-IsDeepCopy = record {
  stable = λ m later a v. pointer.stable m later a v.raw;
  copies = λ m a v. pointer.copies m a v.raw;
}
  where
    pointer :
        IsDeepCopy {C = Cell foreign}
          (PointsTo {A = String} at_block Itself)
          (copy_pointer at_block assign)
    pointer = copy_pointer-IsDeepCopy assign-IsDeepCopy at_block

abbrev pub lawful : IsMachinery machinery
lawful = record {
  ObjectMetaReads = Itself;
  ListMetaReads = Itself;
  RawExtensionReads = RawReads;
  object_meta-IsDeepCopy = assign-IsDeepCopy;
  list_meta-IsDeepCopy = assign-IsDeepCopy;
  raw_extension-IsDeepCopy = raw-IsDeepCopy;
  time-IsDeepCopy = assign-IsDeepCopy;
}
