-- ===== src/Bins/Shares.antt =====
-- The split of an amount over bins (`distributeAmount` of src/pools/meteora/bins.ts).
use mathlib.Core.Path.{subst}
use ari_os.Prelude.{
  ℕ, zero, suc, ◌+◌, ◌*◌, ◌/◌, ◌%◌, ◌≤◌, ◌<◌, List, [], ◌∷◌, map, ok, ◌≡◌, refl, sym, ap, inl, inr,
  arith, length, All, ltb, ltb→lt, Bool-cases,
}
use ari_os.Prelude.Int.{pos}
use ari_os.Prelude.Division.{le_of_mul}
use ari_os.Bins.{
  sum, Remainder, shares, remainders, goes_before, insert, sorted, add_one, hand_out, apportion,
  distribute_amount,
}

-- The remainders of the shares add up to what the shares leave.
unfoldable sum_rem : List Remainder → ℕ
sum_rem [] = 0
sum_rem (r ∷ rs) = r.rem + sum_rem rs

div_mod : (n d : ℕ) → 0 < d → n / d * d + n % d ≡ n
div_mod n d h = grind arith

mod-lt : (n d : ℕ) → 0 < d → n % d < d
mod-lt n d h = grind arith

shares-remainders :
    (total d i : ℕ) (ws : List ℕ)
    → 0 < d
    → sum (shares total d ws) * d + sum_rem (remainders total d i ws) ≡ total * sum ws
unfolding sum shares remainders sum_rem
shares-remainders total d i [] h = grind arith
shares-remainders total d i (w ∷ ws) h =
    grind (arith, shares-remainders total d (i + 1) ws h, div_mod (total * w) d h)

remainders-lt :
    (total d i : ℕ) (ws : List ℕ)
    → 0 < d
    → sum_rem (remainders total d i ws) + length ws ≤ length ws * d
unfolding remainders sum_rem
remainders-lt total d i [] h = omega arith
remainders-lt total d i (w ∷ ws) h =
    grind (arith, remainders-lt total d (i + 1) ws h, mod-lt (total * w) d h)

length-shares : (total d : ℕ) (ws : List ℕ) → length (shares total d ws) ≡ length ws
unfolding shares
length-shares total d [] = refl
length-shares total d (w ∷ ws) = ap suc (length-shares total d ws)

-- The places of a list of remainders are places of a list of that length.
abbrev Placed : ℕ → List Remainder → Type 0
Placed n = All (λ r. r.place < n)

remainders-Placed :
    (total d i n : ℕ) (ws : List ℕ) → i + length ws ≤ n → Placed n (remainders total d i ws)
unfolding remainders
remainders-Placed total d i n [] h = tt
remainders-Placed total d i n (w ∷ ws) h =
    (omega (arith, h), remainders-Placed total d (i + 1) n ws (omega (arith, h)))

insert-Placed :
    (n : ℕ) (x : Remainder) (ys : List Remainder)
    → x.place < n
    → Placed n ys
    → Placed n (insert x ys)
unfolding insert
insert-Placed n x [] p h = (p, tt)
insert-Placed n x (y ∷ ys) p h = elim (Bool-cases (goes_before x y)) [
  | inl e ↦ rw e (p, h)
  | inr e ↦ rw e (h.0, insert-Placed n x ys p h.1)
]

sorted-Placed : (n : ℕ) (xs : List Remainder) → Placed n xs → Placed n (sorted xs)
unfolding sorted
sorted-Placed n [] h = tt
sorted-Placed n (x ∷ xs) h = insert-Placed n x (sorted xs) h.0 (sorted-Placed n xs h.1)

length-insert : (x : Remainder) (ys : List Remainder) → length (insert x ys) ≡ suc (length ys)
unfolding insert
length-insert x [] = refl
length-insert x (y ∷ ys) = ground (arith, length-insert x ys)

length-sorted : (xs : List Remainder) → length (sorted xs) ≡ length xs
unfolding sorted
length-sorted [] = refl
length-sorted (x ∷ xs) = omega (arith, length-insert x (sorted xs), length-sorted xs)

length-remainders : (total d i : ℕ) (ws : List ℕ) → length (remainders total d i ws) ≡ length ws
unfolding remainders
length-remainders total d i [] = refl
length-remainders total d i (w ∷ ws) = ap suc (length-remainders total d (i + 1) ws)

sum-add_one : (i : ℕ) (xs : List ℕ) → i < length xs → sum (add_one i xs) ≡ sum xs + 1
unfolding sum add_one
sum-add_one i [] h = omega (arith, h)
sum-add_one zero (x ∷ xs) h = omega arith
sum-add_one (suc i) (x ∷ xs) h = omega (arith, sum-add_one i xs (omega (arith, h)))

length-add_one : (i : ℕ) (xs : List ℕ) → length (add_one i xs) ≡ length xs
unfolding add_one
length-add_one i [] = refl
length-add_one zero (x ∷ xs) = refl
length-add_one (suc i) (x ∷ xs) = ap suc (length-add_one i xs)

-- The second list has as many entries, each at least that of the first.
abbrev pub AtLeast : List ℕ → List ℕ → Type 0
AtLeast [] [] = Unit
AtLeast [] (y ∷ ys) = ⊥
AtLeast (x ∷ xs) [] = ⊥
AtLeast (x ∷ xs) (y ∷ ys) = (x ≤ y) × AtLeast xs ys

same-AtLeast : (xs : List ℕ) → AtLeast xs xs
same-AtLeast [] = tt
same-AtLeast (x ∷ xs) = (omega arith, same-AtLeast xs)

add_one-AtLeast : (i : ℕ) (xs ys : List ℕ) → AtLeast xs ys → AtLeast xs (add_one i ys)
unfolding add_one
add_one-AtLeast i [] [] h = tt
add_one-AtLeast i [] (y ∷ ys) h = absurd h
add_one-AtLeast i (x ∷ xs) [] h = absurd h
add_one-AtLeast zero (x ∷ xs) (y ∷ ys) h = (omega (arith, h.0), h.1)
add_one-AtLeast (suc i) (x ∷ xs) (y ∷ ys) h = (h.0, add_one-AtLeast i xs ys h.1)

hand_out-AtLeast :
    (total assigned : ℕ) (rs : List Remainder) (xs out : List ℕ)
    → AtLeast xs out
    → AtLeast xs (hand_out total assigned rs out)
unfolding hand_out
hand_out-AtLeast total assigned [] xs out h = h
hand_out-AtLeast total assigned (r ∷ rs) xs out h = elim (Bool-cases (ltb assigned total)) [
  | inl e ↦ rw e (
      hand_out-AtLeast total (assigned + 1) rs xs (add_one r.place out)
        (add_one-AtLeast r.place xs out h))
  | inr e ↦ rw e h
]

-- With enough places to hand out to, the total is reached.
sum-hand_out :
    (total : ℕ) (rs : List Remainder) (out : List ℕ)
    → sum out ≤ total
    → total ≤ sum out + length rs
    → Placed (length out) rs
    → sum (hand_out total (sum out) rs out) ≡ total
unfolding hand_out
sum-hand_out total [] out a b p = omega (arith, a, b)
sum-hand_out total (r ∷ rs) out a b p = elim (Bool-cases (ltb (sum out) total)) [
  | inl e ↦
      rw (e, ← sum-add_one r.place out p.0)
        (sum-hand_out total rs (add_one r.place out)
          (omega (arith, ltb→lt (sum out) total e, sum-add_one r.place out p.0))
          (omega (arith, b, sum-add_one r.place out p.0))
          (subst (λ n. Placed n rs) (sym (length-add_one r.place out)) p.1))
  | inr e ↦ rw e (ground arith)
]

-- What the shares leave of the total is less than the number of bins.
short_by :
    (total : ℕ) (ws : List ℕ)
    → 0 < sum ws
    → (sum (shares total (sum ws) ws) ≤ total)
      × (total ≤ sum (shares total (sum ws) ws) + length ws)
short_by total ws h =
    let d = shares-remainders total (sum ws) 0 ws h in
    let r = remainders-lt total (sum ws) 0 ws h in
    (
      le_of_mul (sum (shares total (sum ws) ws)) total (sum ws) h (omega (arith, d)),
      le_of_mul total (sum (shares total (sum ws) ws) + length ws) (sum ws) h (grind (arith, d, r)),
    )

sum-apportion : (total : ℕ) (ws : List ℕ) → 0 < sum ws → sum (apportion total ws) ≡ total
unfolding apportion
sum-apportion total ws h =
    sum-hand_out total (sorted (remainders total (sum ws) 0 ws)) (shares total (sum ws) ws)
      (short_by total ws h).0
      (omega (
        arith,
        (short_by total ws h).1,
        length-sorted (remainders total (sum ws) 0 ws),
        length-remainders total (sum ws) 0 ws,
      ))
      (sorted-Placed (length (shares total (sum ws) ws)) (remainders total (sum ws) 0 ws) (
        remainders-Placed total (sum ws) 0 (length (shares total (sum ws) ws)) ws
          (omega (arith, length-shares total (sum ws) ws))))

sum-zeros : (ws : List ℕ) → sum (map (λ v. 0) ws) ≡ 0
unfolding sum
sum-zeros [] = refl
sum-zeros (w ∷ ws) = omega (arith, sum-zeros ws)

zeros-AtLeast : (d : ℕ) (ws : List ℕ) → AtLeast (shares 0 d ws) (map (λ v. 0) ws)
unfolding shares
zeros-AtLeast d [] = tt
zeros-AtLeast d (w ∷ ws) = (grind arith, zeros-AtLeast d ws)

-- An amount is split over bins whose weights are not all zero, and the split adds up to exactly that
-- amount: nothing is lost and nothing is made. Each bin gets at least its share rounded down, and the
-- units beyond those shares are at most as many as the bins.
pub distribute_exact :
    (total : ℕ) (ws : List ℕ)
    → 0 < sum ws
    → (out : List ℕ) × (distribute_amount (pos total) ws ≡ ok out)
      × (sum out ≡ total)
      × AtLeast (shares total (sum ws) ws) out
      × (total ≤ sum (shares total (sum ws) ws) + length ws)
unfolding distribute_amount
distribute_exact total [] h = absurd (unfold sum in omega (arith, h))
distribute_exact zero (w ∷ ws) h = (
  map (λ v. 0) (w ∷ ws),
  refl,
  sum-zeros (w ∷ ws),
  zeros-AtLeast (sum (w ∷ ws)) (w ∷ ws),
  omega arith,
)
distribute_exact (suc n) (w ∷ ws) h = (
  apportion (suc n) (w ∷ ws),
  ground arith,
  sum-apportion (suc n) (w ∷ ws) h,
  (unfold apportion in
      hand_out-AtLeast (suc n) (sum (shares (suc n) (sum (w ∷ ws)) (w ∷ ws)))
        (sorted (remainders (suc n) (sum (w ∷ ws)) 0 (w ∷ ws)))
        (shares (suc n) (sum (w ∷ ws)) (w ∷ ws)) (shares (suc n) (sum (w ∷ ws)) (w ∷ ws))
        (same-AtLeast (shares (suc n) (sum (w ∷ ws)) (w ∷ ws)))),
  (short_by (suc n) (w ∷ ws) h).1,
)
