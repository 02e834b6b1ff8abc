-- ===== src/App/Terminal/Screen.antt =====
-- App.tsx, TradingPage.tsx, PriceChartPage.tsx and Navbar.tsx: what the terminal shows.
use low_latency_matching_eng.Prelude.{
  ℕ, ℤ, List, [], ◌∷◌, Option, none, Bool, true, false, not, Text, codes,
}
use low_latency_matching_eng.State.Model.{AppState}
use low_latency_matching_eng.Protocol.Frames.{ExecFrame}
use low_latency_matching_eng.Inspector.Panel.{InspectorView, inspector_view}
use low_latency_matching_eng.Views.{SessionStatsInput}
use low_latency_matching_eng.Views.Header.{HeaderInput, last_px_of}
use low_latency_matching_eng.Views.Header.Strip.{Metric, HeaderView, header_view, session_stats}
use low_latency_matching_eng.Views.Ladder.{DepthLadderView, depth_ladder}
use low_latency_matching_eng.Views.Plot.Curve.{DepthCurveView, depth_curve}
use low_latency_matching_eng.Views.Plot.Prices.{PriceChartView, price_chart}
use low_latency_matching_eng.Views.Tables.{TapeView, trade_tape, OrderRow, open_orders}
use low_latency_matching_eng.Ticket.{TicketState, CancelTicketState}
use low_latency_matching_eng.Ticket.Controls.{TicketProps}
use low_latency_matching_eng.App.Terminal.{
  is_connected, is_trading, ticket_props, Page, trading_page, chart_page, no_page, Terminal,
  state_of,
}

-- A link of the navigation: its text, its path, and whether it is the active one.
pub record NavLink : Type 0 where
  pub text : Text
  pub path : Text
  pub is_active : Bool

abbrev nav_links : Page → List NavLink
nav_links page =
    record { text = codes "Trading"; path = codes "/trading"; is_active = is_trading page }
    ∷ record { text = codes "Price Chart"; path = codes "/chart"; is_active = is_chart page }
    ∷ []
  where
    is_chart : Page → Bool
    is_chart chart_page = true
    is_chart _ = false

-- The order ticket: its props, its state, and `clOrdIdPreview`.
pub record EntryView : Type 0 where
  pub props : TicketProps
  pub ticket : TicketState
  pub cl_ord_id_preview : ℤ

abbrev entry_view : Terminal → EntryView
entry_view t = record {
  props = ticket_props (state_of t);
  ticket = t.ticket;
  cl_ord_id_preview = t.preview;
}

pub record TradingView : Type 0 where
  pub stale : Bool
  pub ladder : DepthLadderView
  pub curve : Option DepthCurveView
  pub tape : TapeView
  pub entry : EntryView
  pub orders : List OrderRow
  pub cancel_ticket : CancelTicketState
  pub cancel_disabled : Bool
  pub inspector : Option InspectorView

pub record ChartView : Type 0 where
  pub chart : Option PriceChartView
  pub stats : List Metric
  pub entry : EntryView

pub data Body : Type 0 where
  trading : TradingView → Body
  chart : ChartView → Body
  nothing : Body

pub record Screen : Type 0 where
  pub header : HeaderView
  pub links : List NavLink
  pub body : Body

abbrev header_input : AppState → HeaderInput
header_input state = record {
  book = state.book;
  tape = state.tape;
  orders = state.my_orders;
  session_volume = state.session_volume;
  session_open_px = state.session_open_px;
  last_frame_nanos = state.last_frame_nanos;
}

abbrev stats_input : AppState → SessionStatsInput
stats_input state = record {
  tape = state.tape;
  session_high_px = state.session_high_px;
  session_low_px = state.session_low_px;
  session_trade_count = state.session_trade_count;
}

-- The local time in milliseconds of a timestamp.
module _ (local_ms : ℕ → ℕ) where
  unfoldable pub header_of : Terminal → HeaderView
  header_of t =
      let state = state_of t in
      header_view local_ms (header_input state) state.connection t.ignition.state.open_px

-- The local time in milliseconds of a timestamp, and `JSON.stringify(entry, null, 2)`.
module _ (local_ms : ℕ → ℕ) (json_text : ExecFrame → Text) where
  unfoldable pub trading_view : Terminal → TradingView
  trading_view t =
      let state = state_of t in
      let disabled = not (is_connected state.connection) in
      record {
        stale = disabled;
        ladder = depth_ladder t.depth state.book (last_px_of state.tape);
        curve = depth_curve state.book none;
        tape = trade_tape local_ms t.tape_ui state.tape;
        entry = entry_view t;
        orders = open_orders local_ms state.my_orders;
        cancel_ticket = t.cancel_ticket;
        cancel_disabled = disabled;
        inspector = inspector_view local_ms json_text t.inspector state.inspector_log;
      }

  unfoldable pub chart_view : Terminal → ChartView
  chart_view t =
      let state = state_of t in
      record {
        chart = price_chart local_ms state.tape state.session_open_px t.ignition.state.open_px;
        stats = session_stats (stats_input state);
        entry = entry_view t;
      }

  body_of : Page → Terminal → Body
  body_of trading_page t = trading (trading_view t)
  body_of chart_page t = chart (chart_view t)
  body_of no_page t = nothing

  -- The header and the navigation are above the routes, and the body is that of the route.
  unfoldable pub screen : Terminal → Screen
  unfolding body_of
  screen t = record {
    header = header_of local_ms t;
    links = nav_links t.page;
    body = body_of t.page t;
  }
