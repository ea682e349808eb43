-- ===== src/Kernel/Store/Spends.antt =====
-- Spend windows and reservations (src/kernel/store.ts). A time window is compared on the side that
-- does not subtract: `created_at >= now - w` is `now <= created_at + w`.
use ari_os.Prelude.{
  ℕ, ◌+◌, String, Bool, true, false, ◌&&◌, ◌||◌, List, [], ◌∷◌, ◌++◌, str_eq, leb, map,
  if◌then◌else◌,
}
use ari_os.Prelude.Int.{ℤ, pos, ltb_ℤ, ◌+ℤ◌}
use ari_os.Kernel.Contracts.{SpendCaps}
use ari_os.Kernel.Money.{QuoteBucket, sol, usdc}
use ari_os.Kernel.Store.Rows.{
  hour_ms, day_ms, SpendState, reserved, consumed, released, SpendRow, KernelStore,
}

unfoldable pub is_active : SpendState → Bool
is_active reserved = true
is_active consumed = true
is_active released = false

unfoldable pub same_bucket : QuoteBucket → QuoteBucket → Bool
same_bucket sol sol = true
same_bucket usdc usdc = true
same_bucket _ _ = false

-- A row of the window query: of the bucket, active, and not older than the window.
unfoldable pub in_window : QuoteBucket → ℕ → ℕ → SpendRow → Bool
in_window bucket now window row =
    same_bucket row.bucket bucket && is_active row.state && leb now (row.created_at + window)

unfoldable pub sum_active : QuoteBucket → ℕ → ℕ → List SpendRow → ℤ
sum_active bucket now window [] = pos 0
sum_active bucket now window (row ∷ rows) =
    (if in_window bucket now window row then row.amount else pos 0)
    +ℤ sum_active bucket now window rows

pub record Usage : Type 0 where
  pub hour : ℤ
  pub day : ℤ

unfoldable pub usage : QuoteBucket → ℕ → KernelStore → Usage
usage bucket now s = record {
  hour = sum_active bucket now hour_ms s.spends;
  day = sum_active bucket now day_ms s.spends;
}

pub record ReserveArgs : Type 0 where
  pub bucket : QuoteBucket
  pub amount : ℤ
  pub caps : SpendCaps
  pub trade_id : String
  pub now : ℕ

pub data ReserveDenyReason : Type 0 where
  per_trade per_hour per_day : ReserveDenyReason

-- `conflict`: the row is not inserted, since a row has that primary key; the statement throws.
pub data ReserveOutcome : Type 0 where
  granted : String → ℤ → ℤ → ReserveOutcome
  denied : ReserveDenyReason → ℤ → ℤ → ReserveOutcome
  conflict : ReserveOutcome

unfoldable pub has_spend : String → List SpendRow → Bool
has_spend id [] = false
has_spend id (row ∷ rows) = str_eq row.id id || has_spend id rows

unfoldable pub reserved_row : String → ReserveArgs → SpendRow
reserved_row id args = record {
  id = id;
  trade_id = args.trade_id;
  bucket = args.bucket;
  amount = args.amount;
  state = reserved;
  created_at = args.now;
}

unfoldable pub insert_spend :
    String → ReserveArgs → ℤ → ℤ → KernelStore → ReserveOutcome × KernelStore
unfolding reserved_row
insert_spend id args used_hour used_day s = if has_spend id s.spends then (conflict, s) else (
  granted id used_hour used_day,
  record s { spends = s.spends ++ reserved_row id args ∷ [] },
)

-- The window sums and the insert are one transaction.
unfoldable pub reserve : String → ReserveArgs → KernelStore → ReserveOutcome × KernelStore
unfolding insert_spend
reserve id args s =
    let used_hour = sum_active args.bucket args.now hour_ms s.spends in
    let used_day = sum_active args.bucket args.now day_ms s.spends in
    if ltb_ℤ args.caps.per_trade args.amount
    then (denied per_trade args.caps.per_trade args.amount, s)
    else if ltb_ℤ args.caps.per_hour (used_hour +ℤ args.amount)
    then (denied per_hour args.caps.per_hour (used_hour +ℤ args.amount), s)
    else if ltb_ℤ args.caps.per_day (used_day +ℤ args.amount)
    then (denied per_day args.caps.per_day (used_day +ℤ args.amount), s)
    else insert_spend id args used_hour used_day s

unfoldable pub is_reserved : SpendState → Bool
is_reserved reserved = true
is_reserved _ = false

unfoldable pub release_row : String → SpendRow → SpendRow
release_row id row =
    if str_eq row.id id && is_reserved row.state then record row { state = released } else row

unfoldable pub release_reservation : String → KernelStore → KernelStore
release_reservation id s = record s { spends = map (release_row id) s.spends }

unfoldable pub consume_row : String → SpendRow → SpendRow
consume_row id row = if str_eq row.id id then record row { state = consumed } else row

unfoldable pub consume_reservation : String → KernelStore → KernelStore
consume_reservation id s = record s { spends = map (consume_row id) s.spends }
