-- ===== src/Kernel/Store/Rows.antt =====
-- The tables of the kernel store, and its journal (src/kernel/store.ts).
use ari_os.Prelude.{ℕ, String, Bool, List, [], ◌∷◌, ◌++◌, Option, str_eq, if◌then◌else◌}
use ari_os.Prelude.Int.{ℤ}
use ari_os.Kernel.Contracts.{TradeState, GuardCode, ErrorCode}
use ari_os.Kernel.Money.{QuoteBucket}

abbrev pub hour_ms : ℕ
hour_ms = 3_600_000

abbrev pub day_ms : ℕ
day_ms = 86_400_000

pub data SpendState : Type 0 where
  reserved consumed released : SpendState

pub record SpendRow : Type 0 where
  pub id : String
  pub trade_id : String
  pub bucket : QuoteBucket
  pub amount : ℤ
  pub state : SpendState
  pub created_at : ℕ

pub record TradeRow : Type 0 where
  pub id : String
  pub idempotency_key : String
  pub state : TradeState
  pub signature : Option String
  pub input_mint : String
  pub output_mint : String
  pub input_amount : ℤ
  pub last_valid_block_height : ℕ
  pub signed_wire : Option String
  pub error : Option ErrorCode
  pub reservation_id : Option String
  pub created_at : ℕ
  pub updated_at : ℕ

pub record ClaimRow : Type 0 where
  pub key : String
  pub trade_id : String
  pub created_at : ℕ

pub data JournalEvent : Type 0 where
  intent_received : String → ℕ → String → String → String → JournalEvent
  guard_rejected : String → ℕ → GuardCode → JournalEvent
  trade_reserved : String → ℕ → Option QuoteBucket → ℤ → JournalEvent
  trade_simulated : String → ℕ → Bool → JournalEvent
  trade_signed : String → ℕ → String → JournalEvent
  trade_sent : String → ℕ → String → JournalEvent
  trade_confirmed : String → ℕ → String → ℤ → ℤ → ℤ → Option ℤ → JournalEvent
  trade_failed : String → ℕ → GuardCode → JournalEvent

pub record KernelStore : Type 0 where
  pub trades : List TradeRow
  pub spends : List SpendRow
  pub claims : List ClaimRow
  pub journal : List JournalEvent

abbrev pub empty_store : KernelStore
empty_store = record { trades = []; spends = []; claims = []; journal = [] }

unfoldable pub append_journal : JournalEvent → KernelStore → KernelStore
append_journal event s = record s { journal = s.journal ++ event ∷ [] }

unfoldable pub event_trade : JournalEvent → String
event_trade (intent_received id at key source summary) = id
event_trade (guard_rejected id at code) = id
event_trade (trade_reserved id at bucket amount) = id
event_trade (trade_simulated id at done) = id
event_trade (trade_signed id at signature) = id
event_trade (trade_sent id at signature) = id
event_trade (trade_confirmed id at signature spent got bps delta) = id
event_trade (trade_failed id at code) = id

-- The events of one trade, oldest first.
unfoldable pub events_of : String → List JournalEvent → List JournalEvent
unfolding event_trade
events_of id [] = []
events_of id (event ∷ events) =
    if str_eq (event_trade event) id then event ∷ events_of id events else events_of id events

unfoldable pub read_journal : String → KernelStore → List JournalEvent
unfolding events_of
read_journal id s = events_of id s.journal
