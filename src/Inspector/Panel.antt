-- ===== src/Inspector/Panel.antt =====
-- FixInspector.tsx: what the open inspector shows.
use low_latency_matching_eng.Prelude.{
  ℕ, List, [], ◌∷◌, map, Option, none, some, Bool, true, false, Text, codes, if◌then◌else◌,
}
use low_latency_matching_eng.Protocol.Frames.{ExecFrame}
use low_latency_matching_eng.State.Model.{InspectorEntry, fix_entry, exec_entry}
use low_latency_matching_eng.Inspector.{
  InspectorFilter, all_entries, new_orders, cancels, execs, InspectorPanel, InspectorRow,
  inspector_rows, selected, FixDetail, fix_detail, exec_detail,
}

-- A button of the filter: its text, and whether it is the active one.
pub record FilterButton : Type 0 where
  pub text : Text
  pub is_active : Bool

abbrev same_filter : InspectorFilter → InspectorFilter → Bool
same_filter all_entries all_entries = true
same_filter new_orders new_orders = true
same_filter cancels cancels = true
same_filter execs execs = true
same_filter _ _ = false

abbrev filter_text : InspectorFilter → Text
filter_text all_entries = codes "ALL"
filter_text new_orders = codes "NEW"
filter_text cancels = codes "CANCEL"
filter_text execs = codes "EXEC"

unfoldable pub filter_buttons : InspectorFilter → List FilterButton
filter_buttons filter =
    map (λ f. record { text = filter_text f; is_active = same_filter filter f })
      (all_entries ∷ new_orders ∷ cancels ∷ execs ∷ [])

-- The right half: a hint without a selection, and otherwise the detail with the copy button. The last
-- field of an EXEC detail is its JSON text.
pub data Detail : Type 0 where
  select_message : Detail
  fix_packet : FixDetail → Detail
  exec_report : List (Text × Text) → Text → Detail

pub record InspectorView : Type 0 where
  pub filters : List FilterButton
  pub rows : List InspectorRow
  pub detail : Detail

module _ (local_ms : ℕ → ℕ) (json_text : ExecFrame → Text) where
  unfoldable pub detail_of : Option InspectorEntry → Detail
  detail_of none = select_message
  detail_of (some (fix_entry f)) = fix_packet (fix_detail f)
  detail_of (some (exec_entry f)) = exec_report (exec_detail f) (json_text f)

  -- A closed inspector renders nothing.
  unfoldable pub inspector_view : InspectorPanel → List InspectorEntry → Option InspectorView
  inspector_view panel entries =
      if panel.is_open
      then some (record {
        filters = filter_buttons panel.ui.filter;
        rows = inspector_rows local_ms json_text panel.ui entries;
        detail = detail_of (selected panel.ui entries);
      })
      else none
