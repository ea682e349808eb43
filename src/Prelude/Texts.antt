-- ===== src/Prelude/Texts.antt =====
-- The test for equality of two texts, and equality.
use mathlib.Core.Bool.{true, false, false≢true}
use mathlib.Core.Path.{◌≡◌, sym, ◌∙◌}
use mathlib.Core.Logic.{inl, inr}
use Prim.Native.String.{String}
use text.Mathlib.Text.{◌==◌ as str_eq}
use text.Mathlib.TextEquality.{eq_iff as str_eq_iff}
use ari_os.Prelude.Tests.{Bool-cases}

pub str_eq-true : (a b : String) → str_eq a b ≡ true → a ≡ b
str_eq-true a b h = (str_eq_iff a b).0 h

pub str_eq-false_sym : (a b : String) → str_eq a b ≡ false → str_eq b a ≡ false
str_eq-false_sym a b h = elim (Bool-cases (str_eq b a)) [
  | inl e ↦ absurd (false≢true (sym h ∙ (str_eq_iff a b).1 (sym ((str_eq_iff b a).0 e))))
  | inr e ↦ e
]

pub str_eq_comm : (a b : String) → str_eq a b ≡ str_eq b a
str_eq_comm a b = elim (Bool-cases (str_eq b a)) [
  | inl e ↦ rw e ((str_eq_iff a b).1 (sym ((str_eq_iff b a).0 e)))
  | inr e ↦ rw e (str_eq-false_sym b a e)
]
