-- ===== src/Internal/Convert/Maps.antt =====
-- To convert every element there and back.
use mathlib.Core.Option
use diki_operator.Common.{List, [], ◌∷◌, Option, none, some, map, ◌≡◌, refl, ap}

module _ {ℓ κ} {A : Type ℓ} {B : Type κ} (g : B → A) (f : A → B)
    (back : (a : A) → g (f a) ≡ a) where
  pub map-map_id : (xs : List A) → map g (map f xs) ≡ xs
  map-map_id [] = refl
  map-map_id (x ∷ xs) = λ i. back x i ∷ map-map_id xs i

  pub option_map-option_map_id : (o : Option A) → Option.map g (Option.map f o) ≡ o
  option_map-option_map_id none = refl
  option_map-option_map_id (some a) = ap some (back a)
