-- ===== src/Inspector.antt =====
-- app/frontend/src/components/FixInspector.tsx: the inspector of the message log, as functions of the log
-- and of its two states, the filter and the selected key.
mod Tests
pub mod Keys
pub mod Selection
pub mod Labels
pub mod Panel
use low_latency_matching_eng.Prelude.{
  ℕ, suc, ◌==◌, ℤ, pos, negsuc, List, [], ◌∷◌, ◌++◌, map, Option, none, some, Bool, true, false,
  Text, codes, text_eq, find?, if◌then◌else◌,
}
use low_latency_matching_eng.Protocol.Frames.{
  ExecType, order_accepted, order_filled, order_partially_filled, order_cancelled, order_rejected,
  order_expired, ExecFrame, FixFrame,
}
use low_latency_matching_eng.Protocol.Fix.{FixTagRow, soh, parse_fix_tags, row_value, fix_msg_type}
use low_latency_matching_eng.Format.Digits.{number_text}
use low_latency_matching_eng.Format.{decimal, format_clock_nanos, ms}
use low_latency_matching_eng.State.Model.{InspectorEntry, fix_entry, exec_entry}

pub data InspectorFilter : Type 0 where
  all_entries new_orders cancels execs : InspectorFilter

-- `msgType === name`, for a message type that may be `undefined`
abbrev pub type_is : Text → Option Text → Bool
type_is name none = false
type_is name (some t) = text_eq t name

unfoldable pub matches_filter : InspectorEntry → InspectorFilter → Bool
matches_filter e all_entries = true
matches_filter (exec_entry f) execs = true
matches_filter (fix_entry f) execs = false
matches_filter (exec_entry f) _ = false
matches_filter (fix_entry f) new_orders = type_is (codes "D") (fix_msg_type (codes f.raw))
matches_filter (fix_entry f) cancels = type_is (codes "F") (fix_msg_type (codes f.raw))

abbrev visible_char : ℕ → ℕ
visible_char c = if c == soh then b'|' else c

unfoldable pub with_visible_soh : Text → Text
with_visible_soh raw = map visible_char raw

-- `String(n)` of a number below 10^21, as a template prints it too
unfoldable pub signed : ℤ → Text
signed (pos n) = number_text n
signed (negsuc n) = b'-' ∷ number_text (suc n)

unfoldable pub entry_key : InspectorEntry → Text
entry_key (fix_entry f) = codes "fix-" ++ signed f.seq_num ++ b'-' ∷ signed f.timestamp
entry_key (exec_entry f) = codes "exec-" ++ signed f.trade_id ++ b'-' ∷ signed f.timestamp

abbrev pub exec_type_text : ExecType → Text
exec_type_text order_accepted = codes "ORDER_ACCEPTED"
exec_type_text order_filled = codes "ORDER_FILLED"
exec_type_text order_partially_filled = codes "ORDER_PARTIALLY_FILLED"
exec_type_text order_cancelled = codes "ORDER_CANCELLED"
exec_type_text order_rejected = codes "ORDER_REJECTED"
exec_type_text order_expired = codes "ORDER_EXPIRED"

-- `entries.filter((e) => matchesFilter(e, filter))`
unfoldable pub filtered : InspectorFilter → List InspectorEntry → List InspectorEntry
filtered f [] = []
filtered f (e ∷ rest) = let kept = filtered f rest in if matches_filter e f then e ∷ kept else kept

pub record InspectorState : Type 0 where
  pub filter : InspectorFilter
  pub selected_key : Option Text

abbrev pub initial_inspector : InspectorState
initial_inspector = record { filter = all_entries; selected_key = none }

abbrev pub head_of : List InspectorEntry → Option InspectorEntry
head_of [] = none
head_of (e ∷ rest) = some e

abbrev pub has_key : Text → InspectorEntry → Bool
has_key key e = text_eq (entry_key e) key

-- `visible.find(…)`, where no key equals `null`
abbrev pub find_key : Option Text → List InspectorEntry → Option InspectorEntry
find_key none visible = none
find_key (some key) visible = find? (has_key key) visible

abbrev pub or_newest : Option InspectorEntry → List InspectorEntry → Option InspectorEntry
or_newest none visible = head_of visible
or_newest (some e) visible = some e

unfoldable pub selected : InspectorState → List InspectorEntry → Option InspectorEntry
selected st entries =
    let visible = filtered st.filter entries in or_newest (find_key st.selected_key visible) visible

pub data InspectorEvent : Type 0 where
  filter_clicked : InspectorFilter → InspectorEvent
  row_clicked : InspectorEntry → InspectorEvent

unfoldable pub inspector_step : InspectorState → InspectorEvent → InspectorState
inspector_step st (filter_clicked f) = record st { filter = f }
inspector_step st (row_clicked e) = record st { selected_key = some (entry_key e) }

-- The panel with the `open` flag of the page: the toolbar opens it; the close button, a click on the
-- backdrop and the Escape key close it; its rows and filters can be clicked only while it is open. The
-- filter and the selection outlast a close.
pub record InspectorPanel : Type 0 where
  pub is_open : Bool
  pub ui : InspectorState

pub data PanelEvent : Type 0 where
  toolbar_clicked close_clicked backdrop_clicked : PanelEvent
  key_down : Text → PanelEvent
  inside : InspectorEvent → PanelEvent

close_if_escape : Text → InspectorPanel → InspectorPanel
close_if_escape key panel =
    if text_eq key (codes "Escape") then record panel { is_open = false } else panel

unfoldable pub panel_step : InspectorPanel → PanelEvent → InspectorPanel
unfolding close_if_escape
panel_step panel toolbar_clicked = record panel { is_open = true }
panel_step panel close_clicked = record panel { is_open = false }
panel_step panel backdrop_clicked = record panel { is_open = false }
panel_step panel (key_down key) = if panel.is_open then close_if_escape key panel else panel
panel_step panel (inside e) =
    if panel.is_open then record panel { ui = inspector_step panel.ui e } else panel

pub data Direction : Type 0 where
  inbound outbound : Direction

pub record InspectorRow : Type 0 where
  pub is_selected : Bool
  pub direction : Direction
  pub label : Text
  pub time : Text

-- The label of a FIX row by its message type.
unfoldable pub fix_label : Option Text → Text
fix_label msg_type =
    if type_is (codes "D") msg_type
    then codes "NEW"
    else if type_is (codes "F") msg_type
    then codes "CANCEL"
    else codes "FIX"

unfoldable pub row_label : InspectorEntry → Text
row_label (fix_entry f) = fix_label (fix_msg_type (codes f.raw))
row_label (exec_entry f) = exec_type_text f.exec_type

abbrev row_direction : InspectorEntry → Direction
row_direction (fix_entry f) = inbound
row_direction (exec_entry f) = outbound

abbrev time_of : InspectorEntry → ℤ
time_of (fix_entry f) = f.timestamp
time_of (exec_entry f) = f.timestamp

abbrev same_key : Option InspectorEntry → InspectorEntry → Bool
same_key none e = false
same_key (some s) e = text_eq (entry_key s) (entry_key e)

-- The detail of a FIX entry: the packet with its separators made visible, its rows, and the two values
-- that are shown verbatim, if the packet has them.
pub record FixDetail : Type 0 where
  pub seq_num : ℤ
  pub raw : Text
  pub rows : List FixTagRow
  pub body_length : Option Text
  pub checksum : Option Text

abbrev pub value_at : Text → List FixTagRow → Option Text
value_at tag rows = row_value (find? (λ row. text_eq row.tag tag) rows)

unfoldable pub fix_detail : FixFrame → FixDetail
fix_detail f =
    let rows = parse_fix_tags (codes f.raw) in
    record {
      seq_num = f.seq_num;
      raw = with_visible_soh (codes f.raw);
      rows = rows;
      body_length = value_at (codes "9") rows;
      checksum = value_at (codes "10") rows;
    }

-- The rows of an EXEC entry, in the order of EXEC_FIELD_LABELS.
unfoldable pub exec_detail : ExecFrame → List (Text × Text)
exec_detail f =
    (codes "execType", exec_type_text f.exec_type)
    ∷ (codes "orderId", signed f.order_id)
    ∷ (codes "tradeId", signed f.trade_id)
    ∷ (codes "price", signed f.price)
    ∷ (codes "filledQuantity", signed f.filled_quantity)
    ∷ (codes "remainingQuantity", signed f.remaining_quantity)
    ∷ (codes "aggressorOrderId", signed f.aggressor_order_id)
    ∷ (codes "passiveOrderId", signed f.passive_order_id)
    ∷ (codes "timestamp", signed f.timestamp)
    ∷ []

-- The local time in milliseconds of a timestamp, and `JSON.stringify(entry, null, 2)`.
module _ (local_ms : ℕ → ℕ) (json_text : ExecFrame → Text) where
  unfoldable pub inspector_rows : InspectorState → List InspectorEntry → List InspectorRow
  inspector_rows st entries =
      map
        (λ e. record {
          is_selected = same_key (selected st entries) e;
          direction = row_direction e;
          label = row_label e;
          time = format_clock_nanos local_ms (time_of e) ms;
        })
        (filtered st.filter entries)

  unfoldable pub copy_payload : InspectorEntry → Text
  copy_payload (fix_entry f) = codes f.raw
  copy_payload (exec_entry f) = json_text f

  abbrev payload_of : Option InspectorEntry → Option Text
  payload_of none = none
  payload_of (some e) = some (copy_payload e)

  -- What a click on "Copy packet" writes to the clipboard.
  unfoldable pub handle_copy : InspectorState → List InspectorEntry → Option Text
  handle_copy st entries = payload_of (selected st entries)
