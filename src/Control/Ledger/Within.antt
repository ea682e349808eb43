-- ===== src/Control/Ledger/Within.antt =====
-- A reservation within limits (`reserveWithin` of src/execution/control/index.ts).
use ari_os.Prelude.{
  String, Bool, true, false, not, ◌&&◌, ◌||◌, List, [], ◌∷◌, Option, none, some, str_eq,
  if◌then◌else◌,
}
use ari_os.Prelude.Int.{ℤ, pos, ltb_ℤ, leb_ℤ, eq_ℤ, ◌+ℤ◌}
use ari_os.Prelude.Number.{Number, integer_of}
use ari_os.Control.Ledger.Rows.{
  LedgerEntry, Reservation, Ledger, LedgerOptions, expire, sum_where, is_asset, plain_row,
  insert_row, inserted, is_malformed, is_bindable,
}

pub record QuoteLimit : Type 0 where
  pub denomination : String
  pub decimals : Number
  pub max : ℤ
  pub value : ℤ
  pub evidence : String

pub data Aggregate : Type 0 where
  unlimited : Aggregate
  units : ℤ → Aggregate
  quoted : QuoteLimit → Aggregate

pub record WithinLimits : Type 0 where
  pub per_asset : ℤ
  pub aggregate : Aggregate

-- The decimals of a quote, when they are a whole number from 0 to 30.
unfoldable pub checked_decimals : Option ℤ → Option ℤ
checked_decimals none = none
checked_decimals (some n) = if ltb_ℤ n (pos 0) || ltb_ℤ (pos 30) n then none else some n

unfoldable pub is_quoted_in : String → ℤ → Option (String × ℤ) → Bool
is_quoted_in denomination decimals none = true
is_quoted_in denomination decimals (some (d, k)) = str_eq denomination d && eq_ℤ decimals k

unfoldable pub is_some_text : String → Option String → Bool
is_some_text t none = false
is_some_text t (some u) = str_eq u t

unfoldable pub is_some_ℤ : ℤ → Option ℤ → Bool
is_some_ℤ n none = false
is_some_ℤ n (some m) = eq_ℤ m n

unfoldable pub is_known : Option ℤ → Bool
is_known none = false
is_known (some n) = true

unfoldable pub is_evidence : Option String → Bool
is_evidence none = false
is_evidence (some t) = not (str_eq t "")

-- A row is valued in the denomination of the quote, with evidence.
unfoldable pub is_valued : String → ℤ → Reservation → Bool
unfolding is_some_text is_some_ℤ is_known is_evidence
is_valued denomination decimals r =
    is_known r.quote_value
    && is_evidence r.valuation_evidence
    && is_some_text denomination r.quote_denomination
    && is_some_ℤ decimals r.quote_decimals

unfoldable pub all_valued : String → ℤ → List Reservation → Bool
unfolding is_valued
all_valued denomination decimals [] = true
all_valued denomination decimals (r ∷ rs) =
    is_valued denomination decimals r && all_valued denomination decimals rs

abbrev pub value_or_zero : Option ℤ → ℤ
value_or_zero none = pos 0
value_or_zero (some n) = n

unfoldable pub sum_values : List Reservation → ℤ
sum_values [] = pos 0
sum_values (r ∷ rs) = value_or_zero r.quote_value +ℤ sum_values rs

-- The insert of the transaction: a throw rolls the expiry back too.
unfoldable pub reserve_plain : LedgerOptions → LedgerEntry → Ledger → Ledger → Bool × Ledger
unfolding insert_row inserted plain_row
reserve_plain o e before l = inserted before (insert_row (plain_row o e) l)

unfoldable pub valued_row : LedgerOptions → LedgerEntry → QuoteLimit → ℤ → Reservation
unfolding plain_row
valued_row o e q decimals = record (plain_row o e) {
  quote_denomination = some q.denomination;
  quote_decimals = some decimals;
  quote_value = some q.value;
  valuation_evidence = some q.evidence;
}

unfoldable pub reserve_quoted :
    LedgerOptions → LedgerEntry → QuoteLimit → ℤ → Ledger → Ledger → Bool × Ledger
unfolding insert_row inserted valued_row all_valued sum_values
reserve_quoted o e q decimals before l =
    if not (all_valued q.denomination decimals l.rows)
    then (false, l)
    else if ltb_ℤ q.max (sum_values l.rows +ℤ q.value)
    then (false, l)
    else inserted before (insert_row (valued_row o e q decimals) l)

-- The transaction of `reserveWithin`, after the expiry: `before` is what a throw restores.
unfoldable pub reserve_units :
    LedgerOptions → LedgerEntry → ℤ → Aggregate → Ledger → Ledger → Bool × Ledger
unfolding sum_where is_asset reserve_plain
reserve_units o e asset (units max) before l =
    if ltb_ℤ max (asset +ℤ e.amount) then (false, l) else reserve_plain o e before l
reserve_units o e asset aggregate before l = reserve_plain o e before l

unfoldable pub is_within_asset : LedgerEntry → ℤ → Ledger → Bool
unfolding sum_where is_asset
is_within_asset e per_asset l = leb_ℤ (sum_where (is_asset e.asset) l.rows +ℤ e.amount) per_asset

unfoldable pub is_malformed_quote : QuoteLimit → Bool
is_malformed_quote q =
    str_eq q.denomination "" || ltb_ℤ q.max (pos 0) || leb_ℤ q.value (pos 0) || str_eq q.evidence ""

unfoldable pub reserve_checked :
    LedgerOptions → LedgerEntry → ℤ → QuoteLimit → Option ℤ → Ledger → Bool × Ledger
unfolding is_malformed_quote is_quoted_in is_within_asset reserve_quoted expire
reserve_checked o e per_asset q none l = (false, l)
reserve_checked o e per_asset q (some decimals) l =
    if is_malformed_quote q || not (is_quoted_in q.denomination decimals o.aggregate_quote)
    then (false, l)
    else if is_within_asset e per_asset (expire e.at l)
    then reserve_quoted o e q decimals l (expire e.at l)
    else (false, expire e.at l)

unfoldable pub reserve_as : LedgerOptions → LedgerEntry → ℤ → Aggregate → Ledger → Bool × Ledger
unfolding reserve_checked checked_decimals integer_of is_within_asset reserve_units expire sum_where
    is_asset
reserve_as o e per_asset (quoted q) l =
    reserve_checked o e per_asset q (checked_decimals (integer_of q.decimals)) l
reserve_as o e per_asset aggregate l =
    if is_within_asset e per_asset (expire e.at l)
    then reserve_units o e (sum_where (is_asset e.asset) (expire e.at l).rows) aggregate l
        (expire e.at l)
    else (false, expire e.at l)

-- An `at` that does not bind makes the expiry throw, which rolls back and answers false as well.
unfoldable pub reserve_within : LedgerOptions → LedgerEntry → WithinLimits → Ledger → Bool × Ledger
unfolding is_malformed is_bindable reserve_as
reserve_within o e limits l =
    if is_malformed e || ltb_ℤ limits.per_asset (pos 0) || not (is_bindable e.at)
    then (false, l)
    else reserve_as o e limits.per_asset limits.aggregate l
