-- ===== src/Kernel/Contracts.antt =====
-- The data that crosses the kernel's ports (src/kernel/contracts.ts, src/kernel/errors.ts).
-- A `number` that the operator's configuration sets to a whole number of basis points is an integer.
use ari_os.Prelude.{ℕ, String, Bool, true, false, List, Option, if◌then◌else◌}
use ari_os.Prelude.Int.{ℤ}
use ari_os.Prelude.Number.{Number}

pub data GuardCode : Type 0 where
  execution_disabled kill_switch invalid_intent mint_not_pinned mint_denied : GuardCode
  token2022_unsupported cap_exceeded insufficient_balance slippage_exceeded : GuardCode
  priority_fee_exceeded priority_fee_invalid simulation_failed min_out_mismatch : GuardCode
  duplicate_intent broadcast_failed confirm_timeout settle_shortfall : GuardCode
  settle_unverifiable settle_unverified : GuardCode

-- What is thrown: a `GuardError` with its code, or any other error. Messages are not modelled.
pub data Failure : Type 0 where
  guard_error : GuardCode → Failure
  other_error : Failure

pub data TradeState : Type 0 where
  reserved sent confirmed expired errored rejected : TradeState

-- The `kind` of an intent is a string at run time, so it may be none of the declared ones.
pub data IntentKind : Type 0 where
  swap perp_open perp_increase perp_reduce perp_close lp_open lp_add lp_remove lp_close : IntentKind
  lp_claim lp_rebalance curve_buy curve_sell : IntentKind
  unsupported : String → IntentKind

unfoldable pub is_intent_kind : IntentKind → Bool
is_intent_kind (unsupported kind) = false
is_intent_kind _ = true

unfoldable pub is_perp_intent_kind : IntentKind → Bool
is_perp_intent_kind perp_open = true
is_perp_intent_kind perp_increase = true
is_perp_intent_kind perp_reduce = true
is_perp_intent_kind perp_close = true
is_perp_intent_kind _ = false

unfoldable pub posts_zero_collateral : IntentKind → Bool
posts_zero_collateral perp_reduce = true
posts_zero_collateral perp_close = true
posts_zero_collateral _ = false

pub data SettleMode : Type 0 where
  token_delta venue_position : SettleMode

unfoldable pub settle_mode_for : IntentKind → SettleMode
unfolding is_perp_intent_kind
settle_mode_for kind = if is_perp_intent_kind kind then venue_position else token_delta

pub data LandMode : Type 0 where
  jupiter_ultra self_rpc : LandMode

pub data MintProvenance : Type 0 where
  user watchlist untrusted : MintProvenance

pub record SpendCaps : Type 0 where
  pub per_trade : ℤ
  pub per_hour : ℤ
  pub per_day : ℤ

pub record PolicyConfig : Type 0 where
  pub execution_enabled : Bool
  pub kill_switch : Bool
  pub max_slippage_bps : ℤ
  pub caps_sol : SpendCaps
  pub caps_usdc : SpendCaps
  pub mint_allowlist : Option (List String)
  pub mint_denylist : List String
  pub allow_token2022 : Bool
  pub priority_fee_max_lamports : ℤ
  pub priority_fee_max_bps : ℤ

pub record TokenAmount : Type 0 where
  pub mint : String
  pub amount : ℤ

pub record QuoteSummary : Type 0 where
  pub out_amount : ℤ
  pub min_out_amount : ℤ
  pub slippage_bps : Number

pub data Side : Type 0 where
  long short : Side

pub record PerpSettleLeg : Type 0 where
  pub venue : String
  pub market : String
  pub account_sub_id : ℕ
  pub side : Side
  pub expected_base_amount : ℤ
  pub min_base_amount : ℤ

-- The fields that the kernel reads. The rest is for display.
pub record TradeIntent : Type 0 where
  pub kind : IntentKind
  pub source : String
  pub input : TokenAmount
  pub output_mint : String
  pub input_provenance : MintProvenance
  pub output_provenance : MintProvenance
  pub unsigned_tx_base64 : String
  pub last_valid_block_height : ℕ
  pub land_mode : LandMode
  pub land_handle : Option String
  pub priority_fee_lamports : Number
  pub quote : QuoteSummary
  pub perp : Option PerpSettleLeg
  pub summary : String

pub record SignedTx : Type 0 where
  pub wire_base64 : String
  pub signature : String

pub record PerpPositionRef : Type 0 where
  pub venue : String
  pub market : String
  pub owner : String
  pub sub_account_id : ℕ

pub data ConfirmStatus : Type 0 where
  confirmed expired failed : ConfirmStatus

pub record ExecuteOptions : Type 0 where
  pub idempotency_key : String
  pub dry_run : Bool
  pub confirmed_by_user : Bool

pub record FillReport : Type 0 where
  pub input_delta : ℤ
  pub output_delta : ℤ
  pub effective_slippage_bps : ℤ
  pub position_delta : Option ℤ

-- The code of an error that is reported: a guard's, "INTERNAL", or one of the reconciler's.
pub data ErrorCode : Type 0 where
  guard_code : GuardCode → ErrorCode
  internal : ErrorCode
  reconcile_no_signature : ErrorCode
  reconcile : ConfirmStatus → ErrorCode

pub record ExecuteResult : Type 0 where
  pub trade_id : String
  pub state : TradeState
  pub signature : Option String
  pub simulated : Bool
  pub fill : Option FillReport
  pub error : Option ErrorCode
