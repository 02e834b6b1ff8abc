-- ===== src/Inspector/Tests.antt =====
-- FixInspector.tsx on a small log.
use low_latency_matching_eng.Prelude.{
  ℕ, ℤ, pos, negsuc, List, [], ◌∷◌, All, none, some, Text, codes, find?, true, ◌≡◌, ◌≢◌, ◌↔◌, inl,
  inr, refl,
}
use low_latency_matching_eng.Protocol.Frames.{ExecFrame, order_accepted}
use low_latency_matching_eng.Protocol.Fix.{
  fix_msg_type, parse_fix_tags, non_empty, split, cut_at_eq,
}
use low_latency_matching_eng.Format.{decimal}
use low_latency_matching_eng.State.Model.{InspectorEntry, fix_entry, exec_entry}
use low_latency_matching_eng.Inspector.{
  all_entries, new_orders, execs, matches_filter, signed, entry_key, filtered, initial_inspector,
  has_key, selected, row_clicked, filter_clicked, panel_step, toolbar_clicked, key_down, inside,
  inspector_step, copy_payload, handle_copy,
}
use low_latency_matching_eng.Double.{to_double, round_even}
use low_latency_matching_eng.Format.Digits.{number_text, shortest, shortest_at}
use low_latency_matching_eng.Inspector.Keys.{HasSameIdentity, entry_key_iff}
use low_latency_matching_eng.Inspector.Selection.{IsIn, row_clicked-selected}

-- A report that an order was accepted: it has no trade.
abbrev accepted : ℤ → InspectorEntry
accepted id = exec_entry (record {
  exec_type = order_accepted;
  order_id = id;
  trade_id = negsuc 0;
  price = pos 1502500;
  filled_quantity = pos 0;
  remaining_quantity = pos 10;
  aggressor_order_id = negsuc 0;
  passive_order_id = negsuc 0;
  timestamp = pos 1000;
})

abbrev packet_in : InspectorEntry
packet_in = fix_entry (record { raw = "35=D"; seq_num = pos 7; timestamp = pos 900 })

abbrev log : List InspectorEntry
log = accepted (pos 41) ∷ packet_in ∷ []

-- A time in nanoseconds is beyond 2^53, and has the shortest digits that read back.
nanos_text : signed (pos 1700000000123456768) ≡ codes "1700000000123456800"
unfolding signed number_text shortest shortest_at decimal to_double round_even
nanos_text = refl

key_text : entry_key packet_in ≡ codes "fix-7-900"
unfolding entry_key signed number_text shortest shortest_at decimal to_double round_even
key_text = refl

first_shown : selected initial_inspector log ≡ some (accepted (pos 41))
unfolding selected filtered matches_filter
first_shown = refl

new_only : filtered new_orders log ≡ packet_in ∷ []
unfolding filtered matches_filter fix_msg_type parse_fix_tags non_empty split cut_at_eq
new_only = refl

-- The filter is still on after Escape and a new opening.
reopened :
    panel_step
      (panel_step
        (panel_step
          (record { is_open = true; ui = initial_inspector })
          (inside (filter_clicked execs)))
        (key_down (codes "Escape")))
      toolbar_clicked
    ≡ record { is_open = true; ui = record { filter = execs; selected_key = none } }
unfolding panel_step inspector_step
reopened = refl

entry_key_iff_example :
    (entry_key (accepted (pos 41)) ≡ entry_key (accepted (pos 42)))
    ↔ HasSameIdentity (accepted (pos 41)) (accepted (pos 42))
entry_key_iff_example = entry_key_iff (accepted (pos 41)) (accepted (pos 42))

local_time : ℕ → ℕ
local_time t = t

as_json : ExecFrame → Text
as_json f = codes "{}"

all_shown : filtered all_entries log ≡ log
unfolding filtered matches_filter
all_shown = refl

only_one : All (λ x. HasSameIdentity x packet_in → x ≡ packet_in) (filtered all_entries log)
unfolding filtered matches_filter
only_one = (λ h. absurd h, (λ h. refl, tt))

packet_shown : IsIn packet_in (filtered all_entries log)
unfolding filtered matches_filter
packet_shown = inr (inl refl)

row_clicked-selected_example :
    (selected (inspector_step initial_inspector (row_clicked packet_in)) log ≡ some packet_in)
    × (handle_copy local_time as_json (inspector_step initial_inspector (row_clicked packet_in)) log
        ≡ some (copy_payload local_time as_json packet_in))
row_clicked-selected_example =
    row_clicked-selected local_time as_json initial_inspector log packet_in packet_shown only_one

packet_hit : find? (has_key (entry_key packet_in)) (filtered all_entries log) ≡ some packet_in
unfolding filtered matches_filter entry_key signed number_text shortest shortest_at decimal
    to_double round_even
packet_hit = refl

other_key : entry_key (accepted (pos 42)) ≢ entry_key packet_in
other_key h = absurd ((entry_key_iff (accepted (pos 42)) packet_in).0 h)
