-- ===== src/Kernel/Gateway/Once.antt =====
-- A sequence of gateway calls under one idempotency key (`#live` of src/kernel/trade-gateway.ts).
use ari_os.Prelude.{
  ℕ, suc, ◌+◌, ◌≤◌, String, true, List, [], ◌∷◌, ◌≡◌, refl, inl, inr, arith, Bool-cases, str_eq,
  str_eq_iff, if◌then◌else◌,
}
use ari_os.Kernel.Store.Rows.{KernelStore}
use ari_os.Kernel.Store.Trades.{has_claim}
use ari_os.Kernel.Gateway.Run.{Ports, Effect, signs, broadcasts}
use ari_os.Kernel.Gateway.Prepare.{Request}
use ari_os.Kernel.Gateway.Live.{live}
use ari_os.Kernel.Gateway.Idempotency.{live_used}
use ari_os.Kernel.Gateway.Trace.{live_effects_in_order}
use ari_os.Kernel.Gateway.Claims.{live-claims}

abbrev pub signed_count : List Effect → ℕ
signed_count [] = 0
signed_count (signs tx ∷ effects) = suc (signed_count effects)
signed_count (broadcasts signed s ∷ effects) = signed_count effects

abbrev pub broadcast_count : List Effect → ℕ
broadcast_count [] = 0
broadcast_count (signs tx ∷ effects) = broadcast_count effects
broadcast_count (broadcasts signed s ∷ effects) = suc (broadcast_count effects)

-- Live calls one after the other on one store, each with its own ports and request; what those under
-- one key count up to.
abbrev pub total : (List Effect → ℕ) → String → List (Ports × Request) → KernelStore → ℕ
total count key [] s = 0
total count key ((ports, q) ∷ calls) s =
    (if str_eq q.opts.idempotency_key key then count (live ports q s).1.effects else 0)
    + total count key calls (live ports q s).1.store

effects-used :
    (ports : Ports) (q : Request) (s : KernelStore) (key : String)
    → str_eq q.opts.idempotency_key key ≡ true
    → has_claim key s.claims ≡ true
    → (live ports q s).1.effects ≡ []
effects-used ports q s key e h = rw (live_used ports q s (rw ((str_eq_iff _ key).0 e) h)) refl

stays_claimed :
    (ports : Ports) (q : Request) (s : KernelStore) (key : String)
    → has_claim key s.claims ≡ true
    → has_claim key (live ports q s).1.store.claims ≡ true
stays_claimed ports q s key h = rw (live-claims ports q s key, h)

is_claimed :
    (ports : Ports) (q : Request) (s : KernelStore) (key : String)
    → str_eq q.opts.idempotency_key key ≡ true
    → has_claim key (live ports q s).1.store.claims ≡ true
is_claimed ports q s key e = rw (live-claims ports q s key, e) (ground arith)

module _ (count : List Effect → ℕ) (none_counted : count [] ≡ 0)
    (bounded : (ports : Ports) (q : Request) (s : KernelStore)
      → count (live ports q s).1.effects ≤ 1) where
  total-used :
      (key : String) (calls : List (Ports × Request)) (s : KernelStore)
      → has_claim key s.claims ≡ true
      → total count key calls s ≡ 0
  total-used key [] s h = refl
  total-used key ((ports, q) ∷ calls) s h = elim (Bool-cases (str_eq q.opts.idempotency_key key)) [
    | inl e ↦
        rw (e, effects-used ports q s key e h, none_counted)
          (omega
            (arith, total-used key calls (live ports q s).1.store (stays_claimed ports q s key h)))
    | inr e ↦ rw e (
        omega
          (arith, total-used key calls (live ports q s).1.store (stays_claimed ports q s key h)))
  ]

  total-once :
      (key : String) (calls : List (Ports × Request)) (s : KernelStore)
      → total count key calls s ≤ 1
  total-once key [] s = omega arith
  total-once key ((ports, q) ∷ calls) s = elim (Bool-cases (str_eq q.opts.idempotency_key key)) [
    | inl e ↦ rw e (
        omega (
          arith,
          bounded ports q s,
          total-used key calls (live ports q s).1.store (is_claimed ports q s key e),
        ))
    | inr e ↦ rw e (omega (arith, total-once key calls (live ports q s).1.store))
  ]

signed_count-live :
    (ports : Ports) (q : Request) (s : KernelStore) → signed_count (live ports q s).1.effects ≤ 1
signed_count-live ports q s = elim (live_effects_in_order ports q s) [
  | inl e ↦ rw e (omega arith)
  | inr (inl h) ↦ rw h.1 (omega arith)
  | inr (inr (signed, t, cleared, e, rest, on_disk)) ↦ rw e (omega arith)
]

broadcast_count-live :
    (ports : Ports) (q : Request) (s : KernelStore) → broadcast_count (live ports q s).1.effects ≤ 1
broadcast_count-live ports q s = elim (live_effects_in_order ports q s) [
  | inl e ↦ rw e (omega arith)
  | inr (inl h) ↦ rw h.1 (omega arith)
  | inr (inr (signed, t, cleared, e, rest, on_disk)) ↦ rw e (omega arith)
]

-- However many live calls run one after the other on a store, each with whatever ports, intents and
-- trade identifiers, those under one idempotency key sign at most one transaction in all, and
-- broadcast at most once in all.
pub live_at_most_once :
    (key : String) (calls : List (Ports × Request)) (s : KernelStore)
    → (total signed_count key calls s ≤ 1) × (total broadcast_count key calls s ≤ 1)
live_at_most_once key calls s = (
  total-once signed_count refl signed_count-live key calls s,
  total-once broadcast_count refl broadcast_count-live key calls s,
)
