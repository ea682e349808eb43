-- ===== src/Prelude/Maps.antt =====
-- JavaScript's `Map` with texts as keys, in insertion order.
use mathlib.Core.Bool.{Bool, true, false}
use mathlib.Core.Path.{◌≡◌, refl, sym, ap, ◌∙◌}
use mathlib.Core.Logic.{inl, inr}
use mathlib.Core.List.{List, [], ◌∷◌}
use mathlib.Core.Option.{Option, none, some}
use Prim.Native.String.{String}
use text.Mathlib.Text.{◌==◌ as str_eq}
use ari_os.Prelude.Tests.{Bool-cases, if◌then◌else◌}
use ari_os.Prelude.Texts.{str_eq-true, str_eq_comm}

module _ {V : Type 0} where
  unfoldable pub map_get : String → List (String × V) → Option V
  map_get key [] = none
  map_get key ((k, v) ∷ rest) = if str_eq k key then some v else map_get key rest

  unfoldable pub map_set : String → V → List (String × V) → List (String × V)
  map_set key value [] = (key, value) ∷ []
  map_set key value ((k, v) ∷ rest) =
      let others = map_set key value rest in
      if str_eq k key then (k, value) ∷ rest else (k, v) ∷ others

set_here :
    {V : Type 0} (at_x is_key : Bool) (v w : V) (rest : Option V)
    → at_x ≡ is_key
    → (if at_x then some v else rest) ≡ (if is_key then some v else if at_x then some w else rest)
set_here true is_key v w rest h = rw (sym h) refl
set_here false is_key v w rest h = rw (sym h) refl

set_there :
    {V : Type 0} (at_x is_key : Bool) (v w : V) (rest after : Option V)
    → (at_x ≡ true → is_key ≡ false)
    → after ≡ (if is_key then some v else rest)
    → (if at_x then some w else after) ≡ (if is_key then some v else if at_x then some w else rest)
set_there true is_key v w rest after h k = rw (h refl) refl
set_there false is_key v w rest after h k = k

pub map_get-set :
    {V : Type 0} (key x : String) (v : V) (m : List (String × V))
    → map_get x (map_set key v m) ≡ (if str_eq x key then some v else map_get x m)
unfolding map_get map_set
map_get-set key x v [] = rw (str_eq_comm key x) refl
map_get-set key x v ((k, w) ∷ m) = elim (Bool-cases (str_eq k key)) [
  | inl e ↦ rw e (
      set_here (str_eq k x) (str_eq x key) v w (map_get x m)
        (ap (λ y. str_eq y x) (str_eq-true k key e) ∙ str_eq_comm key x))
  | inr e ↦ rw e (
      set_there (str_eq k x) (str_eq x key) v w (map_get x m) (map_get x (map_set key v m))
        (λ h. ap (λ y. str_eq y key) (sym (str_eq-true k x h)) ∙ e) (map_get-set key x v m))
]
