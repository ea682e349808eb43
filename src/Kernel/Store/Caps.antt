-- ===== src/Kernel/Store/Caps.antt =====
-- What a reservation promises about the spend caps (`reserve` of src/kernel/store.ts).
use ari_os.Prelude.{String, true, false, List, [], ◌∷◌, ◌++◌, ◌≡◌, refl, Bool-cases, inl, inr}
use ari_os.Prelude.Int.{ℤ, ◌+ℤ◌, ◌≤ℤ◌, ◌<ℤ◌, ltb_ℤ, le_of_not_ltb, lt_of_ltb}
use ari_os.Kernel.Store.Rows.{SpendRow, KernelStore, hour_ms, day_ms}
use ari_os.Kernel.Store.Spends.{
  sum_active, has_spend, reserved_row, ReserveArgs, reserve, insert_spend, ReserveDenyReason,
  per_trade, per_hour, per_day, ReserveOutcome, granted, denied, conflict,
}
use ari_os.Kernel.Store.Sums.{sum_active-reserve}

-- With the new row, the spend of its bucket is within each cap, and no other row has its key.
abbrev pub WithinCaps : String → ReserveArgs → List SpendRow → Type 0
WithinCaps id args rows =
    let after = rows ++ reserved_row id args ∷ [] in
    (args.amount ≤ℤ args.caps.per_trade)
    × (sum_active args.bucket args.now hour_ms after ≤ℤ args.caps.per_hour)
    × (sum_active args.bucket args.now day_ms after ≤ℤ args.caps.per_day)
    × (has_spend id rows ≡ false)

-- The reason of a denial: the first cap that the request would pass, by the amount alone or with the
-- spend of the window, and the caps before it are kept.
abbrev pub Passes : ReserveArgs → KernelStore → ReserveDenyReason → ℤ → ℤ → Type 0
Passes args s per_trade cap would = (cap ≡ args.caps.per_trade) × (would ≡ args.amount)
Passes args s per_hour cap would =
    (cap ≡ args.caps.per_hour)
    × (would ≡ sum_active args.bucket args.now hour_ms s.spends +ℤ args.amount)
    × (args.amount ≤ℤ args.caps.per_trade)
Passes args s per_day cap would =
    (cap ≡ args.caps.per_day)
    × (would ≡ sum_active args.bucket args.now day_ms s.spends +ℤ args.amount)
    × (args.amount ≤ℤ args.caps.per_trade)
    × (sum_active args.bucket args.now hour_ms s.spends +ℤ args.amount ≤ℤ args.caps.per_hour)

-- What each outcome says of the store before and after. A grant adds one row, and the spend of its
-- bucket is then within each cap. A denial names the first cap that the request would pass, with what
-- it would come to. Neither a denial nor a conflict writes; a conflict has a row of the key.
abbrev pub MeetsCaps : String → ReserveArgs → KernelStore → ReserveOutcome → KernelStore → Type 0
MeetsCaps id args s (granted rid hour day) t =
    (rid ≡ id)
    × (t ≡ record s { spends = s.spends ++ reserved_row id args ∷ [] })
    × WithinCaps id args s.spends
MeetsCaps id args s (denied reason cap would) t =
    (t ≡ s) × Passes args s reason cap would × (cap <ℤ would)
MeetsCaps id args s conflict t = (t ≡ s) × (has_spend id s.spends ≡ true)

insert_spend-MeetsCaps :
    (id : String) (args : ReserveArgs) (s : KernelStore)
    → args.amount ≤ℤ args.caps.per_trade
    → sum_active args.bucket args.now hour_ms s.spends +ℤ args.amount ≤ℤ args.caps.per_hour
    → sum_active args.bucket args.now day_ms s.spends +ℤ args.amount ≤ℤ args.caps.per_day
    → (hour day : ℤ)
    → MeetsCaps id args s (insert_spend id args hour day s).0 (insert_spend id args hour day s).1
unfolding insert_spend
insert_spend-MeetsCaps id args s t h d hour day = elim (Bool-cases (has_spend id s.spends)) [
  | inl e ↦ rw e (refl, e)
  | inr e ↦ rw e (
    refl,
    refl,
    (
      t,
      rw (sum_active-reserve id args hour_ms s.spends) h,
      rw (sum_active-reserve id args day_ms s.spends) d,
      e,
    ),
  )
]

-- Whatever the tables hold, a reservation has one of three outcomes: a grant adds one row and stays
-- within each cap; a denial names the first cap that the request passes and the sum that passes it, and
-- writes nothing; a conflict has a row with the key and writes nothing.
pub reserve-MeetsCaps :
    (id : String) (args : ReserveArgs) (s : KernelStore)
    → MeetsCaps id args s (reserve id args s).0 (reserve id args s).1
unfolding reserve
reserve-MeetsCaps id args s = elim (Bool-cases (ltb_ℤ args.caps.per_trade args.amount)) [
  | inl e ↦ rw e (refl, (refl, refl), lt_of_ltb args.caps.per_trade args.amount e)
  | inr t ↦ rw t (elim (Bool-cases (ltb_ℤ args.caps.per_hour used_hour)) [
    | inl e ↦ rw e (
      refl,
      (refl, refl, le_of_not_ltb args.caps.per_trade args.amount t),
      lt_of_ltb args.caps.per_hour used_hour e,
    )
    | inr h ↦ rw h (elim (Bool-cases (ltb_ℤ args.caps.per_day used_day)) [
      | inl e ↦ rw e (
        refl,
        (
          refl,
          refl,
          le_of_not_ltb args.caps.per_trade args.amount t,
          le_of_not_ltb args.caps.per_hour used_hour h,
        ),
        lt_of_ltb args.caps.per_day used_day e,
      )
      | inr d ↦ rw d (
          insert_spend-MeetsCaps id args s (le_of_not_ltb args.caps.per_trade args.amount t)
            (le_of_not_ltb args.caps.per_hour used_hour h)
            (le_of_not_ltb args.caps.per_day used_day d)
            (sum_active args.bucket args.now hour_ms s.spends)
            (sum_active args.bucket args.now day_ms s.spends))
    ])
  ])
]
  where
    used_hour : ℤ
    used_hour = sum_active args.bucket args.now hour_ms s.spends +ℤ args.amount

    used_day : ℤ
    used_day = sum_active args.bucket args.now day_ms s.spends +ℤ args.amount
