-- ===== src/Protocol/Frames.antt =====
-- app/frontend/src/protocol/messages.ts: the typed frames in both directions. Every `number` of a
-- frame has passed the integer test of the narrowing point, so it is an integer; -1 marks NA.
use low_latency_matching_eng.Prelude.{ℤ, negsuc, List, String, Bool, true, false}

pub data Side : Type 0 where
  buy sell : Side

pub data TimeInForce : Type 0 where
  gtc ioc fok : TimeInForce

pub data OrdType : Type 0 where
  limit peg_mid : OrdType

pub data ExecType : Type 0 where
  order_accepted order_filled order_partially_filled : ExecType
  order_cancelled order_rejected order_expired : ExecType

-- `[price, qty]`
pub record Level : Type 0 where
  pub price : ℤ
  pub qty : ℤ

pub record BookFrame : Type 0 where
  pub best_bid : ℤ
  pub best_ask : ℤ
  pub bids : List Level
  pub asks : List Level
  pub timestamp : ℤ

pub record ExecFrame : Type 0 where
  pub exec_type : ExecType
  pub order_id : ℤ
  pub trade_id : ℤ
  pub price : ℤ
  pub filled_quantity : ℤ
  pub remaining_quantity : ℤ
  pub aggressor_order_id : ℤ
  pub passive_order_id : ℤ
  pub timestamp : ℤ

-- `direction` is the one literal "INBOUND", so it is no field.
pub record FixFrame : Type 0 where
  pub raw : String
  pub seq_num : ℤ
  pub timestamp : ℤ

pub data ServerFrame : Type 0 where
  book : BookFrame → ServerFrame
  exec : ExecFrame → ServerFrame
  fix : FixFrame → ServerFrame

-- `symbol` is the one literal `SYMBOL`, so it is no field.
pub record NewOrderFrame : Type 0 where
  pub cl_ord_id : ℤ
  pub side : Side
  pub ord_type : OrdType
  pub tif : TimeInForce
  pub price : ℤ
  pub qty : ℤ
  pub max_floor : ℤ

pub record CancelOrderFrame : Type 0 where
  pub cl_ord_id : ℤ
  pub orig_cl_ord_id : ℤ

pub data ClientFrame : Type 0 where
  new : NewOrderFrame → ClientFrame
  cancel : CancelOrderFrame → ClientFrame

pub record OrderIntent : Type 0 where
  pub side : Side
  pub ord_type : OrdType
  pub tif : TimeInForce
  pub price_px : ℤ
  pub qty : ℤ
  pub display_qty : ℤ

abbrev pub na : ℤ
na = negsuc 0

-- The two execution types that are a trade.
abbrev pub is_fill_type : ExecType → Bool
is_fill_type order_filled = true
is_fill_type order_partially_filled = true
is_fill_type _ = false

abbrev pub is_fill : ExecFrame → Bool
is_fill frame = is_fill_type frame.exec_type
