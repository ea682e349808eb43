-- ===== src/Rebalance/Window.antt =====
-- The history counts the rebalances of the trailing window (src/pools/rebalance/ledger.ts).
use ari_os.Prelude.Maps.{map_get-set, map_get}
use ari_os.Prelude.{
  ℕ, ◌+◌, ◌≤◌, max, String, true, false, List, [], ◌∷◌, ◌++◌, All, length, Option, none, some, ◌≡◌,
  refl, sym, ap, ◌∙◌, arith, Bool-cases, inl, inr, ltb, if◌then◌else◌,
}
use mathlib.Core.Path.{subst}
use text.Mathlib.TextPositions.{eq_refl}
use ari_os.Rebalance.{
  RebalanceLedger, prune, times_of, or_empty, record_at, history_of, history_from, history,
  new_ledger,
}

-- No time is before an earlier one of the list.
pub data Sorted : List ℕ → Type 0 where
  nothing : Sorted []
  next : (at : ℕ) (times : List ℕ) → All (λ t. at ≤ t) times → Sorted times → Sorted (at ∷ times)

-- The times that are within the window.
unfoldable pub in_window : ℕ → ℕ → List ℕ → List ℕ
in_window window now [] = []
in_window window now (at ∷ times) =
    let rest = in_window window now times in if ltb (at + window) now then rest else at ∷ rest

All-kept :
    (window now at : ℕ) (times : List ℕ)
    → ltb (at + window) now ≡ false
    → All (λ t. at ≤ t) times
    → in_window window now times ≡ times
unfolding in_window
All-kept window now at [] h a = refl
All-kept window now at (t ∷ times) h (b, a) = ground (arith, All-kept window now at times h a)

-- In a sorted list pruning from the front keeps what is in the window.
pub prune-Sorted :
    (window now : ℕ) (times : List ℕ)
    → Sorted times
    → prune window now times ≡ in_window window now times
unfolding prune in_window
prune-Sorted window now _ nothing = refl
prune-Sorted window now _ (next at times a s) = elim (Bool-cases (ltb (at + window) now)) [
  | inl e ↦ rw e (prune-Sorted window now times s)
  | inr e ↦ rw e (sym (ap (λ xs. at ∷ xs) (All-kept window now at times e a)))
]

later_out :
    (window now later at : ℕ)
    → ltb (at + window) now ≡ true
    → now ≤ later
    → ltb (at + window) later ≡ true
later_out window now later at e h = ground arith

-- Times that an earlier moment dropped are outside a later window.
in_window-later :
    (window now later : ℕ) (times more : List ℕ)
    → now ≤ later
    → in_window window later (in_window window now times ++ more)
      ≡ in_window window later (times ++ more)
unfolding in_window
in_window-later window now later [] more h = refl
in_window-later window now later (at ∷ times) more h = elim (Bool-cases (ltb (at + window) now)) [
  | inl e ↦
      rw e (rw (later_out window now later at e h) (in_window-later window now later times more h))
  | inr e ↦ rw e (rw (in_window-later window now later times more h) refl)
]

All-in_window :
    (least window now : ℕ) (times more : List ℕ)
    → All (λ t. least ≤ t) (times ++ more)
    → All (λ t. least ≤ t) (in_window window now times ++ more)
unfolding in_window
All-in_window least window now [] more a = a
All-in_window least window now (at ∷ times) more (b, a) =
    elim (Bool-cases (ltb (at + window) now)) [
      | inl e ↦ rw e (All-in_window least window now times more a)
      | inr e ↦ rw e (b, All-in_window least window now times more a)
    ]

Sorted-tail :
    (at : ℕ) (times : List ℕ) → Sorted (at ∷ times) → All (λ t. at ≤ t) times × Sorted times
Sorted-tail _ _ (next at times a s) = (a, s)

in_window-Sorted :
    (window now : ℕ) (times more : List ℕ)
    → Sorted (times ++ more)
    → Sorted (in_window window now times ++ more)
unfolding in_window
in_window-Sorted window now [] more s = s
in_window-Sorted window now (at ∷ times) more s =
    let (a, t) = Sorted-tail at (times ++ more) s in
    elim (Bool-cases (ltb (at + window) now)) [
      | inl e ↦ rw e (in_window-Sorted window now times more t)
      | inr e ↦ rw e (
          next at _ (All-in_window at window now times more a)
            (in_window-Sorted window now times more t))
    ]

-- The rebalances of a position, one after the other.
unfoldable pub records : String → List ℕ → RebalanceLedger → RebalanceLedger
unfolding record_at
records position [] l = l
records position (at ∷ times) l = records position times (record_at position at l)

times_of-record_at :
    (position : String) (at : ℕ) (l : RebalanceLedger)
    → times_of position (record_at position at l)
      ≡ prune l.window_ms at (times_of position l ++ at ∷ [])
unfolding times_of record_at
times_of-record_at position at l =
    ap or_empty (
      map_get-set position position (prune l.window_ms at (times_of position l ++ at ∷ []))
        l.by_position)
    ∙ rw (eq_refl position) refl

push_assoc : (xs ys : List ℕ) (a : ℕ) → (xs ++ a ∷ []) ++ ys ≡ xs ++ a ∷ ys
push_assoc [] ys a = refl
push_assoc (x ∷ xs) ys a = ap (λ zs. x ∷ zs) (push_assoc xs ys a)

append_nil : (xs : List ℕ) → xs ++ [] ≡ xs
append_nil [] = refl
append_nil (x ∷ xs) = ap (λ zs. x ∷ zs) (append_nil xs)

All-front : (least : ℕ) (xs ys : List ℕ) → All (λ t. least ≤ t) (xs ++ ys) → All (λ t. least ≤ t) xs
All-front least [] ys a = tt
All-front least (x ∷ xs) ys (b, a) = (b, All-front least xs ys a)

Sorted-back : (xs ys : List ℕ) → Sorted (xs ++ ys) → Sorted ys
Sorted-back [] ys s = s
Sorted-back (x ∷ xs) ys s = Sorted-back xs ys (Sorted-tail x (xs ++ ys) s).1

Sorted-front : (xs ys : List ℕ) → Sorted (xs ++ ys) → Sorted xs
Sorted-front [] ys s = nothing
Sorted-front (x ∷ xs) ys s =
    let (a, t) = Sorted-tail x (xs ++ ys) s in
    next x xs (All-front x xs ys a) (Sorted-front xs ys t)

-- After the rebalances of a position its times are, for every later window, all of them.
All-zero : (times : List ℕ) → All (λ t. 0 ≤ t) times
All-zero [] = tt
All-zero (at ∷ times) = (omega arith, All-zero times)

times_of-records :
    (position : String) (done times : List ℕ) (before now : ℕ) (l : RebalanceLedger)
    → Sorted (done ++ times)
    → All (λ t. before ≤ t) times
    → All (λ t. t ≤ now) times
    → before ≤ now
    → times_of position l ≡ in_window l.window_ms before done
    → prune l.window_ms now (times_of position (records position times l))
      ≡ in_window l.window_ms now (done ++ times)
unfolding records record_at
times_of-records position done [] before now l s b a h e =
    ap (prune l.window_ms now) (e ∙ sym (append_nil (in_window l.window_ms before done)))
    ∙ prune-Sorted l.window_ms now (in_window l.window_ms before done ++ [])
        (in_window-Sorted l.window_ms before done [] s)
    ∙ in_window-later l.window_ms before now done [] h
times_of-records position done (at ∷ times) before now l s (b, bs) (a, rest) h e =
    let w = l.window_ms in
    let all = subst Sorted (sym (push_assoc done times at)) s in
    let one = Sorted-front (done ++ at ∷ []) times all in
    times_of-records position (done ++ at ∷ []) times at now (record_at position at l) all
      (Sorted-tail at times (Sorted-back done (at ∷ times) s)).0 rest a
      (times_of-record_at position at l
        ∙ ap (λ kept. prune w at (kept ++ at ∷ [])) e
        ∙ prune-Sorted w at (in_window w before done ++ at ∷ [])
            (in_window-Sorted w before done (at ∷ []) one)
        ∙ in_window-later w before at done (at ∷ []) b)
    ∙ ap (in_window w now) (push_assoc done times at)

count-history_of : (times : List ℕ) → (history_of times).count_in_window ≡ length times
unfolding history_of
count-history_of [] = refl
count-history_of (at ∷ times) = refl

count-history_from :
    (position : String) (now : ℕ) (o : Option (List ℕ)) (l : RebalanceLedger)
    → (history_from position now o l).0.count_in_window
      ≡ length (prune l.window_ms now (or_empty o))
unfolding history_from prune
count-history_from position now none l = refl
count-history_from position now (some []) l = refl
count-history_from position now (some (at ∷ times)) l =
    count-history_of (prune l.window_ms now (at ∷ times))

window-records :
    (position : String) (times : List ℕ) (l : RebalanceLedger)
    → (records position times l).window_ms ≡ l.window_ms
unfolding records record_at
window-records position [] l = refl
window-records position (at ∷ times) l = window-records position times (record_at position at l)

-- When the rebalances of a position are recorded in the order of their times, its history at a moment not
-- before any of them counts exactly those within the trailing window.
pub count-history :
    (window_ms : ℕ) (position : String) (times : List ℕ) (now : ℕ)
    → Sorted times
    → All (λ t. t ≤ now) times
    → (history position now (records position times (new_ledger window_ms))).0.count_in_window
      ≡ length (in_window (max 1 window_ms) now times)
unfolding history new_ledger times_of map_get
count-history window_ms position times now s a =
    let l = new_ledger window_ms in
    count-history_from position now _ (records position times l)
    ∙ ap (λ w. length (prune w now (times_of position (records position times l))))
        (window-records position times l)
    ∙ ap length (
        times_of-records position [] times 0 now l s (All-zero times) a (omega arith)
          (unfold in_window in refl))
