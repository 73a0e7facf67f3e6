-- ===== src/Tests/Schemes.antt =====
-- The installation at a scheme that keeps what it recognizes as Boolean functions.
use diki_operator.Common.{String, ◌≡◌, refl, Bool, true, false, ◌&&◌, ◌||◌, arith, ◌==◌, eq_refl}
use diki_operator.Common.Errors.{Result, ok, ok-injective}
use diki_operator.Scheme.{
  GroupVersion, Registry, install, add_v1alpha1, add_internal, add_to_scheme, add_v1alpha1_types,
  add_internal_types, register_no_defaults, register_conversions, register_all,
}
use diki_operator.Scheme.Known.{Extends, IsRegistry, Recognizes, Converts}
use diki_operator.Scheme.Installed.{
  external_version, internal_version, resource_kinds, resource_types, install-Recognizes,
}
use mathlib.Core.Path.{subst}

record Tables : Type 0 where
  known : GroupVersion → String → Bool
  conversions : GroupVersion → GroupVersion → String → Bool

abbrev same : GroupVersion → GroupVersion → Bool
same a b = (a.group == b.group) && (a.version == b.version)

abbrev tables : Registry
tables = record {
  Scheme = Tables;
  recognizes = λ s. s.known;
  converts = λ s. s.conversions;
  add_known_type =
      λ gv kind s. record s { known = λ g k. (same gv g && (kind == k)) || s.known g k };
  add_to_group_version = λ gv s. s;
  set_version_priority = λ gv s. ok s;
  add_type_defaulting = λ gv kind s. s;
  add_generated_conversion = λ from to n s. ok (record s {
    conversions = λ f t k. (same from f && (same to t && (n == k))) || s.conversions f t k;
  });
}

same_refl : (gv : GroupVersion) → same gv gv ≡ true
same_refl gv = ground (arith, eq_refl gv.group, eq_refl gv.version)

or_true : (a b : Bool) → b ≡ true → (a || b) ≡ true
or_true a b h = ground arith

unchanged : (s t : Tables) → ◌≡◌ {A = Result Tables} (ok s) (ok t) → Extends tables s t
unchanged s t h =
    subst (λ u. Extends tables s u) (ok-injective h)
      (record { recognized = λ gv kind k. k; converted = λ from to n k. k })

tables-IsRegistry : IsRegistry tables
tables-IsRegistry = record {
  added = λ gv kind s. ground (arith, same_refl gv, eq_refl kind);
  adding = λ gv kind s. record {
    recognized = λ g k h. or_true _ (s.known g k) h;
    converted = λ from to n h. h;
  };
  grouping = λ gv s. record { recognized = λ g k h. h; converted = λ from to n h. h };
  prioritizing = λ gv s t h. unchanged s t h;
  convertible_by = λ from to n s t h.
      subst (λ (u : Tables). u.conversions from to n ≡ true) (ok-injective h)
        (ground (arith, same_refl from, same_refl to, eq_refl n));
  converting = λ from to n s t h.
      subst (λ u. Extends tables s u) (ok-injective h)
        (record {
          recognized = λ g k k'. k';
          converted = λ f t' k k'. or_true _ (s.conversions f t' k) k';
        });
}

abbrev empty : Tables
empty = record { known = λ gv kind. false; conversions = λ from to n. false }

installed : (t : Tables) × (install tables empty ≡ ok t)
unfolding install add_v1alpha1 add_internal add_to_scheme add_v1alpha1_types add_internal_types
    register_no_defaults register_conversions register_all
installed = (_, refl)

install-Recognizes_example :
    Extends tables empty installed.0
    × Recognizes tables installed.0 external_version resource_kinds
    × Recognizes tables installed.0 internal_version resource_kinds
    × Converts tables installed.0 resource_types
install-Recognizes_example =
    install-Recognizes tables tables-IsRegistry empty installed.0 installed.1
