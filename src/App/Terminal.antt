-- ===== src/App/Terminal.antt =====
-- app/frontend/src/App.tsx with pages/TradingPage.tsx, pages/PriceChartPage.tsx and components/Navbar.tsx: the
-- whole terminal. The two hooks are above the routes; the page of the route has the order ticket, and
-- that of /trading also the depth curve, the table, the cancel ticket and the inspector.
pub mod Pages
pub mod Submits
pub mod Cancels
pub mod Screen
pub mod Browse
use low_latency_matching_eng.Prelude.{
  ℕ, ℤ, pos, List, [], ◌∷◌, ◌++◌, Option, none, some, Bool, true, false, not, String, All, Any, ◌≡◌,
  ◌≢◌, ◌⊎◌, inl, inr, refl, ap, sym, subst, ◌∙◌, some-inj, none≢some, if◌then◌else◌,
}
use low_latency_matching_eng.Protocol.Value.{Value}
use low_latency_matching_eng.Protocol.Frames.{OrderIntent}
use low_latency_matching_eng.Protocol.Encode.Builders.{IsPositiveSafe}
use low_latency_matching_eng.Protocol.Encode.{peek}
use low_latency_matching_eng.App.Rendered.{shown_preview}
use low_latency_matching_eng.State.Model.{
  ConnectionStatus, open_, connecting, reconnecting, AppState,
}
use low_latency_matching_eng.State.Orders.{MyOrder, has_id, is_cancellable}
use low_latency_matching_eng.State.Socket.{Event, shown_state}
use low_latency_matching_eng.State.Socket.Rows.{IsDelivery}
use low_latency_matching_eng.Market.{IgnitionHook, ignition_mount, IgnitionEvent, ignition_step}
use low_latency_matching_eng.Inspector.{InspectorPanel, initial_inspector, PanelEvent, panel_step}
use low_latency_matching_eng.Views.Tables.{TapeUi, initial_tape_ui, TapeClick, tape_click}
use low_latency_matching_eng.Views.Ladder.{default_depth, select_depth}
use low_latency_matching_eng.Ticket.{TicketState, CancelTicketState}
use low_latency_matching_eng.Ticket.Submit.{IsSound}
use low_latency_matching_eng.Ticket.Controls.{
  TicketProps, TicketControl, TicketEvent, acted, set_price, ticket_step, empty_ticket,
  CancelControl, cancel_ticket_step,
}
use low_latency_matching_eng.Ticket.Controls.Intents.{step-IsSound}
use low_latency_matching_eng.App.{
  App, Outcome, returned, thrown, handle_submit, handle_cancel, PageEvent, delivered, submitted,
  cancelled, page_step, page_run,
}
use low_latency_matching_eng.App.Fresh.{IsPageEvent, mounted}

abbrev pub is_connected : ConnectionStatus → Bool
is_connected open_ = true
is_connected _ = false

-- The props that a page hands to the order ticket.
unfoldable pub ticket_props : AppState → TicketProps
ticket_props state = record {
  disabled = not (is_connected state.connection);
  best_bid_px = state.book.best_bid;
  best_ask_px = state.book.best_ask;
}

-- The page that is mounted. The index redirects to /trading; a path without a route renders nothing
-- below the navigation.
pub data Page : Type 0 where
  trading_page chart_page no_page : Page

pub record Terminal : Type 0 where
  pub app : App
  pub ignition : IgnitionHook
  pub page : Page
  pub inspector : InspectorPanel
  pub tape_ui : TapeUi
  pub depth : ℕ
  pub ticket : TicketState
  pub cancel_ticket : CancelTicketState
  pub preview : ℤ

abbrev pub empty_cancel_ticket : CancelTicketState
empty_cancel_ticket = record { id_input = []; error = none }

abbrev pub closed_inspector : InspectorPanel
closed_inspector = record { is_open = false; ui = initial_inspector }

abbrev pub new_terminal : ℕ → Terminal
new_terminal seed = record {
  app = mounted seed;
  ignition = ignition_mount;
  page = trading_page;
  inspector = closed_inspector;
  tape_ui = initial_tape_ui;
  depth = default_depth;
  ticket = empty_ticket;
  cancel_ticket = empty_cancel_ticket;
  preview = peek (mounted seed).gen;
}

abbrev pub same_page : Page → Page → Bool
same_page trading_page trading_page = true
same_page chart_page chart_page = true
same_page no_page no_page = true
same_page _ _ = false

-- Another page is mounted afresh: its tickets are empty, the inspector is closed, and the controls of the
-- tape and the ladder are as at first. A link to the page that is there leaves it.
unfoldable pub navigate : Page → Terminal → Terminal
navigate page t =
    let fresh = record t {
      page = page;
      inspector = closed_inspector;
      tape_ui = initial_tape_ui;
      depth = default_depth;
      ticket = empty_ticket;
      cancel_ticket = empty_cancel_ticket;
    } in
    if same_page t.page page then t else fresh

-- Both pages render the order ticket.
abbrev pub has_ticket : Page → Bool
has_ticket no_page = false
has_ticket _ = true

abbrev pub is_trading : Page → Bool
is_trading trading_page = true
is_trading _ = false

-- What happens to the terminal: a delivery by the browser to either hook, a navigation, an action at a
-- control of either ticket, of the inspector, of the tape or of the ladder, a click in the depth curve,
-- or a click on the Cancel button of a row. The last two arguments of an action are what `send` reads:
-- whether the socket is open, and the clock.
pub data TerminalEvent : Type 0 where
  arrived : Event → TerminalEvent
  ignition_arrived : IgnitionEvent → TerminalEvent
  navigated : Page → TerminalEvent
  inspector_acted : PanelEvent → TerminalEvent
  tape_clicked : TapeClick → TerminalEvent
  depth_selected : ℕ → TerminalEvent
  ticket_acted : TicketControl → Bool → ℕ → TerminalEvent
  price_selected : ℤ → TerminalEvent
  cancel_acted : CancelControl → Bool → ℕ → TerminalEvent
  row_cancelled : MyOrder → Bool → ℕ → TerminalEvent

-- `onSubmit` and `onCancel`, called with what a ticket emits, if anything.
submit_emitted : App → Option OrderIntent → Bool → ℕ → App
submit_emitted app none ready now = app
submit_emitted app (some i) ready now = (handle_submit app i ready now).0

cancel_emitted : App → Option ℤ → Bool → ℕ → App
cancel_emitted app none ready now = app
cancel_emitted app (some id) ready now = (handle_cancel app id ready now).0

-- A ticket sets its error to null, calls `onSubmit` or `onCancel`, and clears its inputs; an exception
-- of the call leaves the inputs as they are.
abbrev cleared {ℓ} : {A : Type ℓ} → A → A → Outcome → A
cleared uncleared next (returned written) = next
cleared uncleared next (thrown label) = uncleared

ticket_left : Terminal → TicketState → Option OrderIntent → Bool → ℕ → TicketState
ticket_left t next none ready now = next
ticket_left t next (some i) ready now =
    cleared (record t.ticket { error = none }) next (handle_submit t.app i ready now).1

cancel_ticket_left : Terminal → CancelTicketState → Option ℤ → Bool → ℕ → CancelTicketState
cancel_ticket_left t next none ready now = next
cancel_ticket_left t next (some id) ready now =
    cleared (record t.cancel_ticket { error = none }) next (handle_cancel t.app id ready now).1

after_ticket : Terminal → TicketState × Option OrderIntent → Bool → ℕ → Terminal
unfolding submit_emitted ticket_left
after_ticket t (next, emitted) ready now = record t {
  app = submit_emitted t.app emitted ready now;
  ticket = ticket_left t next emitted ready now;
}

after_cancel : Terminal → CancelTicketState × Option ℤ → Bool → ℕ → Terminal
unfolding cancel_emitted cancel_ticket_left
after_cancel t (next, emitted) ready now = record t {
  app = cancel_emitted t.app emitted ready now;
  cancel_ticket = cancel_ticket_left t next emitted ready now;
}

-- The id of a row, if the row has the button.
abbrev pub row_cancel : MyOrder → Option ℤ
row_cancel o = if is_cancellable o.status then some o.cl_ord_id else none

abbrev pub state_of : Terminal → AppState
state_of t = shown_state t.app.hook

module _ (json_parse : String → Option Value) where
  -- What an event does, but for the preview.
  unfoldable pub terminal_acted : Terminal → TerminalEvent → Terminal
  unfolding after_ticket after_cancel navigate
  terminal_acted t (arrived e) = record t { app = page_step json_parse t.app (delivered e) }
  terminal_acted t (ignition_arrived e) = record t { ignition = ignition_step t.ignition e }
  terminal_acted t (navigated page) = navigate page t
  terminal_acted t (inspector_acted e) =
      if is_trading t.page then record t { inspector = panel_step t.inspector e } else t
  terminal_acted t (tape_clicked c) =
      if is_trading t.page then record t { tape_ui = tape_click t.tape_ui c } else t
  terminal_acted t (depth_selected n) =
      if is_trading t.page then record t { depth = select_depth t.depth n } else t
  terminal_acted t (ticket_acted c ready now) =
      let next =
        after_ticket t (ticket_step t.ticket (acted (ticket_props (state_of t)) c)) ready now in
      if has_ticket t.page then next else t
  terminal_acted t (price_selected px) =
      if is_trading t.page then record t { ticket = (ticket_step t.ticket (set_price px)).0 } else t
  terminal_acted t (cancel_acted c ready now) =
      let disabled = not (is_connected (state_of t).connection) in
      let next = after_cancel t (cancel_ticket_step disabled t.cancel_ticket c) ready now in
      if is_trading t.page then next else t
  terminal_acted t (row_cancelled o ready now) =
      let next = record t { app = cancel_emitted t.app (row_cancel o) ready now } in
      if is_trading t.page then next else t

  unfoldable pub terminal_step : Terminal → TerminalEvent → Terminal
  terminal_step t e =
      let next = terminal_acted t e in
      record next { preview = shown_preview t.preview t.app next.app t.ignition next.ignition }

  unfoldable pub terminal_run : Terminal → List TerminalEvent → Terminal
  terminal_run t [] = t
  terminal_run t (e ∷ rest) = terminal_run (terminal_step t e) rest
