-- ===== src/Kernel/Store/TradeRows.antt =====
-- Which trade row an identifier finds after an insert and after an update.
use text.Mathlib.TextPositions.{eq_refl}
use ari_os.Prelude.{String, false, List, [], ◌∷◌, ◌++◌, map, Option, some, ◌≡◌, arith}
use ari_os.Kernel.Store.Rows.{TradeRow}
use ari_os.Kernel.Store.Trades.{trade_by_id, has_trade, NewTradeRow, new_trade, update_row}

pub trade_by_id-insert :
    (row : NewTradeRow) (held : Option String) (ts : List TradeRow)
    → has_trade row ts ≡ false
    → trade_by_id row.id (ts ++ new_trade row held ∷ []) ≡ some (new_trade row held)
unfolding trade_by_id has_trade new_trade
trade_by_id-insert row held [] h = rw (eq_refl row.id)
trade_by_id-insert row held (t ∷ ts) h = ground (arith, trade_by_id-insert row held ts)

-- An update that leaves the identifier alone changes the row that it names.
pub trade_by_id-update :
    (id : String) (change : TradeRow → TradeRow) (ts : List TradeRow) (row : TradeRow)
    → ((t : TradeRow) → (change t).id ≡ t.id)
    → trade_by_id id ts ≡ some row
    → trade_by_id id (map (update_row id change) ts) ≡ some (change row)
unfolding trade_by_id update_row
trade_by_id-update id change [] row keeps h = cc
trade_by_id-update id change (t ∷ ts) row keeps h =
    ground (arith, keeps t, trade_by_id-update id change ts row keeps)
