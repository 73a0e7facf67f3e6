-- ===== src/Api/Meta.antt =====
-- The Kubernetes types that the operator's own types are built on, with the fields that the
-- program reads or writes. A time is the number of nanoseconds since Go's zero time (so 0 is the
-- zero `metav1.Time`), an absent pointer is `none`, and a nil slice or map is `[]`.
use diki_operator.Common.{ℕ, String, Bool, List, Option}

abbrev pub Time : Type 0
Time = ℕ

abbrev pub zero_time : Time
zero_time = 0

abbrev pub Labels : Type 0
Labels = List (String × String)

pub record OwnerReference : Type 0 where
  pub api_version : String
  pub kind : String
  pub name : String
  pub uid : String
  pub controller : Option Bool
  pub block_owner_deletion : Option Bool

pub record ObjectMeta : Type 0 where
  pub name : String
  pub generate_name : String
  pub namespace : String
  pub uid : String
  pub labels : Labels
  pub owner_references : List OwnerReference
  pub creation_timestamp : Time

-- `metav1.ListMeta`
pub record ListMeta : Type 0 where
  pub resource_version : String
  pub continue : String

-- `corev1.ObjectReference`
pub record ObjectReference : Type 0 where
  pub api_version : String
  pub kind : String
  pub name : String
  pub uid : String

-- `corev1.ConfigMap`; the bytes of `binary_data` are kept as a text.
pub record ConfigMap : Type 0 where
  pub meta : ObjectMeta
  pub values : List (String × String)
  pub binary_data : List (String × String)

-- `runtime.RawExtension`
pub record RawExtension : Type 0 where
  pub raw : Option String

-- The metadata of an object literal that sets none of it.
abbrev pub no_meta : ObjectMeta
no_meta = record {
  name = "";
  generate_name = "";
  namespace = "";
  uid = "";
  labels = List.[];
  owner_references = List.[];
  creation_timestamp = zero_time;
}
