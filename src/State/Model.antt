-- ===== src/State/Model.antt =====
-- app/frontend/src/state/reducer.ts: the state of the terminal and the actions on it.
use low_latency_matching_eng.Prelude.{ℕ, ℤ, pos, negsuc, List, [], Option, Bool}
use low_latency_matching_eng.Protocol.Frames.{
  Side, Level, ExecFrame, FixFrame, ServerFrame, ClientFrame,
}
use low_latency_matching_eng.State.Orders.{MyOrder}

abbrev pub tape_cap : ℕ
tape_cap = 200

abbrev pub inspector_cap : ℕ
inspector_cap = 500

abbrev pub session_open_unset : ℤ
session_open_unset = negsuc 0

pub data ConnectionStatus : Type 0 where
  connecting open_ reconnecting : ConnectionStatus

pub record BookState : Type 0 where
  pub best_bid : ℤ
  pub best_ask : ℤ
  pub bids : List Level
  pub asks : List Level
  pub timestamp : ℤ

pub record TapeEntry : Type 0 where
  pub trade_id : ℤ
  pub price_px : ℤ
  pub quantity : ℤ
  pub aggressor_order_id : ℤ
  pub passive_order_id : ℤ
  pub timestamp : ℤ
  pub mine : Bool
  pub aggressor_side : Option Side

pub data InspectorEntry : Type 0 where
  fix_entry : FixFrame → InspectorEntry
  exec_entry : ExecFrame → InspectorEntry

pub record AppState : Type 0 where
  pub connection : ConnectionStatus
  pub book : BookState
  pub tape : List TapeEntry
  pub my_orders : List MyOrder
  pub session_volume : ℤ
  pub session_open_px : ℤ
  pub session_high_px : ℤ
  pub session_low_px : ℤ
  pub session_trade_count : ℕ
  pub msg_seq_num : ℕ
  pub last_frame_nanos : ℤ
  pub inspector_log : List InspectorEntry

abbrev pub empty_book : BookState
empty_book = record {
  best_bid = negsuc 0;
  best_ask = negsuc 0;
  bids = [];
  asks = [];
  timestamp = pos 0;
}

abbrev pub initial_state : AppState
initial_state = record {
  connection = connecting;
  book = empty_book;
  tape = [];
  my_orders = [];
  session_volume = pos 0;
  session_open_px = session_open_unset;
  session_high_px = session_open_unset;
  session_low_px = session_open_unset;
  session_trade_count = 0;
  msg_seq_num = 0;
  last_frame_nanos = pos 0;
  inspector_log = [];
}

pub data Action : Type 0 where
  connection : ConnectionStatus → Action
  frame : ServerFrame → Action
  sent : ClientFrame → Option ℤ → Action
