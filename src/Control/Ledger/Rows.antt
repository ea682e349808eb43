-- ===== src/Control/Ledger/Rows.antt =====
-- The table of reservations, in insertion order (`ReservationLedger` of
-- src/execution/control/index.ts). An integer that does not fit 64 bits makes the driver's bind throw:
-- the inserts check it, and the time of a read, a commit and a reconciliation is taken to fit.
use ari_os.Prelude.{
  ℕ, ◌+◌, String, Bool, true, false, not, ◌&&◌, ◌||◌, List, [], ◌∷◌, ◌++◌, map, Option, none, some,
  str_eq, ◌==◌, if◌then◌else◌,
}
use ari_os.Prelude.Int.{ℤ, pos, negsuc, ltb_ℤ, leb_ℤ, ◌+ℤ◌}

pub record LedgerEntry : Type 0 where
  pub id : String
  pub at : ℤ
  pub asset : String
  pub strategy : String
  pub amount : ℤ

pub data EntryState : Type 0 where
  reserved committed : EntryState

-- A row; its last four columns may be NULL.
pub record Reservation : Type 0 where
  pub entry : LedgerEntry
  pub state : EntryState
  pub expires_at : ℤ
  pub quote_denomination : Option String
  pub quote_decimals : Option ℤ
  pub quote_value : Option ℤ
  pub valuation_evidence : Option String

pub data LedgerStatus : Type 0 where
  ok discrepancy : LedgerStatus

pub record Ledger : Type 0 where
  pub rows : List Reservation
  pub status : LedgerStatus

-- What a ledger is opened with.
pub record LedgerOptions : Type 0 where
  pub ttl : ℤ
  pub aggregate_quote : Option (String × ℤ)

unfoldable pub is_reserved : EntryState → Bool
is_reserved reserved = true
is_reserved committed = false

unfoldable pub has_id : String → List Reservation → Bool
has_id id [] = false
has_id id (r ∷ rs) = str_eq r.entry.id id || has_id id rs

unfoldable pub has_expired : ℤ → Reservation → Bool
unfolding is_reserved
has_expired now r = is_reserved r.state && leb_ℤ r.expires_at now

unfoldable pub unexpired : ℤ → List Reservation → List Reservation
unfolding has_expired
unexpired now [] = []
unexpired now (r ∷ rs) = if has_expired now r then unexpired now rs else r ∷ unexpired now rs

unfoldable pub expire : ℤ → Ledger → Ledger
unfolding unexpired
expire now l = record l { rows = unexpired now l.rows }

unfoldable pub sum_where : (LedgerEntry → Bool) → List Reservation → ℤ
sum_where p [] = pos 0
sum_where p (r ∷ rs) = (if p r.entry then r.entry.amount else pos 0) +ℤ sum_where p rs

-- `e.at > now - w && e.at <= now && p(e)`.
unfoldable pub in_window : ℤ → ℤ → (LedgerEntry → Bool) → LedgerEntry → Bool
in_window now w p e = ltb_ℤ now (e.at +ℤ w) && leb_ℤ e.at now && p e

unfoldable pub usage : ℤ → ℤ → (LedgerEntry → Bool) → Ledger → ℤ
unfolding expire sum_where in_window
usage now w p l = sum_where (in_window now w p) (expire now l).rows

unfoldable pub is_asset : String → LedgerEntry → Bool
is_asset asset e = str_eq e.asset asset

unfoldable pub plain_row : LedgerOptions → LedgerEntry → Reservation
plain_row o e = record {
  entry = e;
  state = reserved;
  expires_at = e.at +ℤ o.ttl;
  quote_denomination = none;
  quote_decimals = none;
  quote_value = none;
  valuation_evidence = none;
}

-- The greatest integer that SQLite holds.
abbrev pub int64_max : ℤ
int64_max = pos 0x7fff_ffff_ffff_ffff

-- An integer that SQLite can hold.
unfoldable pub is_bindable : ℤ → Bool
is_bindable n = leb_ℤ (negsuc 0x7fff_ffff_ffff_ffff) n && leb_ℤ n int64_max

abbrev pub is_bindable_value : Option ℤ → Bool
is_bindable_value none = true
is_bindable_value (some n) = is_bindable n

unfoldable pub is_row_bindable : Reservation → Bool
unfolding is_bindable
is_row_bindable r =
    is_bindable r.entry.at
    && is_bindable r.entry.amount
    && is_bindable r.expires_at
    && is_bindable_value r.quote_value

-- INSERT: `none` when a row has the primary key or an integer does not bind, and the statement throws.
unfoldable pub insert_row : Reservation → Ledger → Option Ledger
unfolding has_id is_row_bindable
insert_row r l =
    if has_id r.entry.id l.rows || not (is_row_bindable r)
    then none
    else some (record l { rows = l.rows ++ r ∷ [] })

unfoldable pub inserted : Ledger → Option Ledger → Bool × Ledger
inserted before none = (false, before)
inserted before (some after) = (true, after)

-- `!e.id || e.at < 0n || e.amount <= 0n`.
unfoldable pub is_malformed : LedgerEntry → Bool
is_malformed e = str_eq e.id "" || ltb_ℤ e.at (pos 0) || leb_ℤ e.amount (pos 0)

unfoldable pub reserve : LedgerOptions → LedgerEntry → Ledger → Bool × Ledger
unfolding is_malformed insert_row inserted plain_row
reserve o e l = if is_malformed e then (false, l) else inserted l (insert_row (plain_row o e) l)

unfoldable pub is_released : String → Reservation → Bool
unfolding is_reserved
is_released id r = str_eq r.entry.id id && is_reserved r.state

unfoldable pub without : String → List Reservation → List Reservation
unfolding is_released
without id [] = []
without id (r ∷ rs) = if is_released id r then without id rs else r ∷ without id rs

unfoldable pub count_released : String → List Reservation → ℕ
unfolding is_released
count_released id [] = 0
count_released id (r ∷ rs) = (if is_released id r then 1 else 0) + count_released id rs

-- The number of changed rows as the driver gives it: a `number`, or a `bigint`.
pub data Changes : Type 0 where
  as_number as_bigint : ℕ → Changes

-- `changes === 1n`: a `number` is never equal to a `bigint`.
unfoldable pub is_one_n : Changes → Bool
is_one_n (as_number n) = false
is_one_n (as_bigint n) = n == 1

-- `changes` is what the driver reports for a number of changed rows.
unfoldable pub release : (ℕ → Changes) → String → Ledger → Bool × Ledger
unfolding without count_released is_one_n
release changes id l =
    (is_one_n (changes (count_released id l.rows)), record l { rows = without id l.rows })

unfoldable pub commit_row : String → ℤ → Reservation → Reservation
unfolding is_released
commit_row id at r =
    if is_released id r
    then record r { entry = record r.entry { at = at }; state = committed; expires_at = at }
    else r

unfoldable pub has_committed : String → List Reservation → Bool
unfolding is_reserved
has_committed id [] = false
has_committed id (r ∷ rs) =
    (str_eq r.entry.id id && not (is_reserved r.state)) || has_committed id rs

-- `at` is the ledger's clock.
unfoldable pub commit : (ℕ → Changes) → String → ℤ → Ledger → Bool × Ledger
unfolding is_one_n count_released commit_row has_committed
commit changes id at l =
    let after = record l { rows = map (commit_row id at) l.rows } in
    (is_one_n (changes (count_released id l.rows)) || has_committed id after.rows, after)
