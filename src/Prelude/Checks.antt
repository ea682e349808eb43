-- ===== src/Prelude/Checks.antt =====
-- The checks of an evaluator, each with the reason that it gives when its condition holds: all of the
-- reasons, or the first.
use mathlib.Core.Path.{◌≡◌, refl}
use mathlib.Core.Logic.{◌↔◌}
use mathlib.Core.Bool.{Bool, true, false}
use mathlib.Core.List.{List, [], ◌∷◌, ◌++◌}
use mathlib.Core.Option.{Option, none, some}
use ari_os.Prelude.Tests.{if◌then◌else◌}
use ari_os.Prelude.Lists.{All}

module _ {R : Type 0} where
  unfoldable pub reasons : List (Bool × R) → List R
  reasons [] = []
  reasons ((bad, reason) ∷ checks) = if bad then reason ∷ reasons checks else reasons checks

  unfoldable pub is_empty : List R → Bool
  is_empty [] = true
  is_empty (r ∷ rs) = false

  -- No condition of a list of checks holds.
  abbrev pub Clean : List (Bool × R) → Type 0
  Clean = All (λ c. c.0 ≡ false)

  reasons-push :
      (bad : Bool) (reason : R) (checks : List (Bool × R))
      → (reasons ((bad, reason) ∷ checks) ≡ []) ↔ ((bad ≡ false) × (reasons checks ≡ []))
  unfolding reasons
  reasons-push true reason checks = (λ h. absurd (cc), λ h. absurd (cc h.0))
  reasons-push false reason checks = (λ h. (refl, h), λ h. h.1)

  pub reasons_iff : (checks : List (Bool × R)) → (reasons checks ≡ []) ↔ Clean checks
  reasons_iff [] = (λ h. tt, λ h. unfold reasons in refl)
  reasons_iff ((bad, reason) ∷ checks) = (
    λ h. let (a, b) = (reasons-push bad reason checks).0 h in (a, (reasons_iff checks).0 b),
    λ h. (reasons-push bad reason checks).1 (h.0, (reasons_iff checks).1 h.1),
  )

  unfoldable pub first_reason : List (Bool × R) → Option R
  first_reason [] = none
  first_reason ((bad, reason) ∷ checks) = if bad then some reason else first_reason checks

  first_reason-push :
      (bad : Bool) (reason : R) (checks : List (Bool × R))
      → (first_reason ((bad, reason) ∷ checks) ≡ none)
        ↔ ((bad ≡ false) × (first_reason checks ≡ none))
  unfolding first_reason
  first_reason-push true reason checks = (λ h. absurd (cc), λ h. absurd (cc h.0))
  first_reason-push false reason checks = (λ h. (refl, h), λ h. h.1)

  pub first_reason_iff : (checks : List (Bool × R)) → (first_reason checks ≡ none) ↔ Clean checks
  first_reason_iff [] = (λ h. tt, λ h. unfold first_reason in refl)
  first_reason_iff ((bad, reason) ∷ checks) = (
    λ h.
        let (a, b) = (first_reason-push bad reason checks).0 h in
        (a, (first_reason_iff checks).0 b),
    λ h. (first_reason-push bad reason checks).1 (h.0, (first_reason_iff checks).1 h.1),
  )

  pub Clean-append : (xs ys : List (Bool × R)) → Clean (xs ++ ys) → Clean xs × Clean ys
  Clean-append [] ys h = (tt, h)
  Clean-append (x ∷ xs) ys h = let (a, b) = Clean-append xs ys h.1 in ((h.0, a), b)

  pub Clean-parts :
      (ps qs rs ss us : List (Bool × R))
      → Clean (ps ++ (qs ++ (rs ++ (ss ++ us))))
      → Clean ps × (Clean qs × (Clean rs × (Clean ss × Clean us)))
  Clean-parts ps qs rs ss us h =
      let (a, ha) = Clean-append ps (qs ++ (rs ++ (ss ++ us))) h in
      let (b, hb) = Clean-append qs (rs ++ (ss ++ us)) ha in
      let (c, hc) = Clean-append rs (ss ++ us) hb in
      let (d, e) = Clean-append ss us hc in (a, (b, (c, (d, e))))
