-- ===== src/Kernel/Gateway/Triple.antt =====
-- Reasoning about steps: what holds before, after a return, and after a throw.
use ari_os.Prelude.{◌++◌, [], ◌∷◌, Result, ok, err, ◌≡◌, refl}
use ari_os.Kernel.Contracts.{Failure}
use ari_os.Kernel.Store.Rows.{KernelStore}
use ari_os.Kernel.Gateway.Run.{Progress, Effect, Step, continue, ◌>>=◌, pure, lift, update, emit}

-- `Q a` after a return of `a`, `E e` after a throw of `e`.
abbrev pub Onto {ℓ} :
    {A : Type 0}
    → (A → Progress → Type ℓ)
    → (Failure → Progress → Type ℓ)
    → Result Failure A
    → Progress
    → Type ℓ
Onto Q E (ok a) p = Q a p
Onto Q E (err e) p = E e p

pub record Triple {ℓ} {A : Type 0} (P : Progress → Type ℓ) (m : Step A) (Q : A → Progress → Type ℓ)
    (E : Failure → Progress → Type ℓ) : Type ℓ where
  pub run : (p : Progress) → P p → Onto Q E (m p).0 (m p).1

module _ {ℓ} {A B : Type 0} {P : Progress → Type ℓ} {E : Failure → Progress → Type ℓ} where
  pub Triple-bind :
      (Q : A → Progress → Type ℓ) {R : B → Progress → Type ℓ} (m : Step A) (f : A → Step B)
      → Triple P m Q E
      → ((a : A) → Triple (Q a) (f a) R E)
      → Triple P (m >>= f) R E
  unfolding ◌>>=◌
  Triple-bind Q {R} m f hm hf = record { run = λ p h. go (m p).0 (m p).1 (hm.run p h) }
    where
      go :
          (r : Result Failure A) (p : Progress)
          → Onto Q E r p
          → Onto R E (continue r f p).0 (continue r f p).1
      go (ok a) p h = (hf a).run p h
      go (err e) p h = h

-- A step that keeps a predicate, whether it returns or throws.
abbrev pub Keeps {ℓ} : {A : Type 0} → (Progress → Type ℓ) → Step A → Type ℓ
Keeps P m = Triple P m (λ _. P) (λ _. P)

module _ {ℓ} {A B : Type 0} {P : Progress → Type ℓ} where
  pub Keeps-bind :
      (m : Step A) (f : A → Step B) → Keeps P m → ((a : A) → Keeps P (f a)) → Keeps P (m >>= f)
  Keeps-bind m f hm hf = Triple-bind (λ _. P) m f hm hf

module _ {ℓ} {A : Type 0} {P : Progress → Type ℓ} where
  pub Keeps-pure : (a : A) → Keeps P (pure a)
  unfolding pure
  Keeps-pure a = record { run = λ p h. h }

  pub Keeps-lift : (r : Result Failure A) → Keeps P (lift r)
  unfolding lift
  Keeps-lift (ok a) = record { run = λ p h. h }
  Keeps-lift (err e) = record { run = λ p h. h }

  -- After a return, what was lifted is known.
  pub Triple-lift : (r : Result Failure A) → Triple P (lift r) (λ a p. P p × (r ≡ ok a)) (λ _. P)
  unfolding lift
  Triple-lift (ok a) = record { run = λ p h. (h, refl) }
  Triple-lift (err e) = record { run = λ p h. h }

module _ {ℓ} {P : Progress → Type ℓ} where
  pub Keeps-update :
      (f : KernelStore → KernelStore)
      → ((p : Progress) → P p → P (record p { store = f p.store }))
      → Keeps P (update f)
  unfolding update
  Keeps-update f h = record { run = h }

  pub Keeps-emit :
      (e : Effect)
      → ((p : Progress) → P p → P (record p { effects = p.effects ++ e ∷ [] }))
      → Keeps P (emit e)
  unfolding emit
  Keeps-emit e h = record { run = h }

module _ {ℓ} {A : Type 0} {P : Progress → Type ℓ} {Q R : A → Progress → Type ℓ}
    {E F : Failure → Progress → Type ℓ} where
  pub Triple-weaken :
      (m : Step A)
      → Triple P m Q E
      → ((a : A) (p : Progress) → Q a p → R a p)
      → ((e : Failure) (p : Progress) → E e p → F e p)
      → Triple P m R F
  Triple-weaken m h hq he = record { run = λ p u. go (m p).0 (m p).1 (h.run p u) }
    where
      go : (r : Result Failure A) (p : Progress) → Onto Q E r p → Onto R F r p
      go (ok a) p h = hq a p h
      go (err e) p h = he e p h

-- A fact that no step can change may be used outside the triple.
pub Triple-assume {ℓ} :
    {A : Type 0} {F : Type ℓ} {P : Progress → Type ℓ} {Q : A → Progress → Type ℓ}
    {E : Failure → Progress → Type ℓ} (m : Step A)
    → (F → Triple P m Q E)
    → Triple (λ p. P p × F) m Q E
Triple-assume m h = record { run = λ p u. (h u.1).run p u.0 }
