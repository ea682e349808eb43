-- ===== src/Kernel/Store/Trades.antt =====
-- Idempotency claims and trade rows (src/kernel/store.ts).
use ari_os.Prelude.{
  ℕ, String, Bool, true, false, ◌||◌, List, [], ◌∷◌, ◌++◌, Option, none, some, str_eq, map,
  if◌then◌else◌,
}
use ari_os.Prelude.Int.{ℤ}
use ari_os.Kernel.Contracts.{TradeState, ErrorCode}
use ari_os.Kernel.Store.Rows.{TradeRow, ClaimRow, KernelStore}

unfoldable pub has_claim : String → List ClaimRow → Bool
has_claim key [] = false
has_claim key (row ∷ rows) = str_eq row.key key || has_claim key rows

-- INSERT OR IGNORE: the Boolean says whether a row was inserted.
unfoldable pub claim_idempotency : String → String → ℕ → KernelStore → Bool × KernelStore
claim_idempotency key trade_id now s = if has_claim key s.claims then (false, s) else (
  true,
  record s {
    claims = s.claims ++ record { key = key; trade_id = trade_id; created_at = now } ∷ [];
  },
)

unfoldable pub trade_by_key : String → List TradeRow → Option TradeRow
trade_by_key key [] = none
trade_by_key key (row ∷ rows) =
    if str_eq row.idempotency_key key then some row else trade_by_key key rows

unfoldable pub trade_by_id : String → List TradeRow → Option TradeRow
trade_by_id id [] = none
trade_by_id id (row ∷ rows) = if str_eq row.id id then some row else trade_by_id id rows

pub record NewTradeRow : Type 0 where
  pub id : String
  pub idempotency_key : String
  pub input_mint : String
  pub output_mint : String
  pub input_amount : ℤ
  pub last_valid_block_height : ℕ
  pub now : ℕ

-- A row with the primary key or the idempotency key of the new one.
unfoldable pub has_trade : NewTradeRow → List TradeRow → Bool
has_trade row [] = false
has_trade row (t ∷ ts) =
    str_eq t.id row.id || str_eq t.idempotency_key row.idempotency_key || has_trade row ts

unfoldable pub new_trade : NewTradeRow → Option String → TradeRow
new_trade row reservation_id = record {
  id = row.id;
  idempotency_key = row.idempotency_key;
  state = TradeState.reserved;
  signature = none;
  input_mint = row.input_mint;
  output_mint = row.output_mint;
  input_amount = row.input_amount;
  last_valid_block_height = row.last_valid_block_height;
  signed_wire = none;
  error = none;
  reservation_id = reservation_id;
  created_at = row.now;
  updated_at = row.now;
}

-- `none`: a key is taken, and the statement throws.
unfoldable pub insert_trade : NewTradeRow → Option String → KernelStore → Option KernelStore
unfolding new_trade
insert_trade row reservation_id s =
    if has_trade row s.trades
    then none
    else some (record s { trades = s.trades ++ new_trade row reservation_id ∷ [] })

-- UPDATE trades SET … WHERE id = ?
unfoldable pub update_row : String → (TradeRow → TradeRow) → TradeRow → TradeRow
update_row id change row = if str_eq row.id id then change row else row

unfoldable pub update_trade : String → (TradeRow → TradeRow) → KernelStore → KernelStore
update_trade id change s = record s { trades = map (update_row id change) s.trades }

unfoldable pub persist_signed : String → String → String → ℕ → KernelStore → KernelStore
unfolding update_trade
persist_signed id wire signature now =
    update_trade id
      λ row. record row { signed_wire = some wire; signature = some signature; updated_at = now }

unfoldable pub set_state : String → TradeState → ℕ → KernelStore → KernelStore
unfolding update_trade
set_state id state now = update_trade id λ row. record row { state = state; updated_at = now }

unfoldable pub set_signature : String → String → ℕ → KernelStore → KernelStore
unfolding update_trade
set_signature id signature now =
    update_trade id λ row. record row { signature = some signature; updated_at = now }

unfoldable pub fail : String → TradeState → ErrorCode → ℕ → KernelStore → KernelStore
unfolding update_trade
fail id state error now =
    update_trade id λ row. record row { state = state; error = some error; updated_at = now }

unfoldable pub is_sent : TradeState → Bool
is_sent TradeState.sent = true
is_sent _ = false

unfoldable pub sent_rows : List TradeRow → List TradeRow
sent_rows [] = []
sent_rows (row ∷ rows) = if is_sent row.state then row ∷ sent_rows rows else sent_rows rows

unfoldable pub pending_sent : KernelStore → List TradeRow
unfolding sent_rows
pending_sent s = sent_rows s.trades
