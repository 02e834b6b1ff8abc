-- ===== src/State/Reducer/Marks.antt =====
-- reducer.ts: the own-trade mark of the tape, and the caps.
use low_latency_matching_eng.Prelude.{
  List, [], ◌∷◌, ◌≤◌, ◌≡◌, All, All-take, length, length-take, Bool-cases, inl, inr, arith,
}
use low_latency_matching_eng.Protocol.Frames.{ExecFrame, book, exec, fix, is_fill}
use low_latency_matching_eng.State.Orders.Sides.{is_some, aggressor_side-knows}
use low_latency_matching_eng.State.Model.{
  tape_cap, inspector_cap, TapeEntry, fix_entry, exec_entry, AppState, Action, connection, frame,
  sent,
}
use low_latency_matching_eng.State.Reducer.{apply_print, print_entry, same_status, reducer, run}

-- The print shows a side exactly if it is marked as an own trade.
abbrev pub IsMarked : TapeEntry → Type 0
IsMarked e = is_some e.aggressor_side ≡ e.mine

print_entry-IsMarked : (s : AppState) (f : ExecFrame) → IsMarked (print_entry s f)
unfolding print_entry
print_entry-IsMarked s f = aggressor_side-knows s.my_orders f.aggressor_order_id f.passive_order_id

-- The invariant of the capped lists.
pub record IsBounded (s : AppState) : Type 0 where
  pub tape_bound : length s.tape ≤ tape_cap
  pub log_bound : length s.inspector_log ≤ inspector_cap
  pub marked : All IsMarked s.tape

apply_print-bounded :
    (s : AppState) (f : ExecFrame)
    → IsBounded s
    → length (apply_print s f).tape ≤ tape_cap × All IsMarked (apply_print s f).tape
unfolding apply_print
apply_print-bounded s f b = (
  omega (arith, length-take {0} tape_cap (print_entry s f ∷ s.tape)),
  (print_entry-IsMarked s f, All-take IsMarked 199 s.tape b.marked),
)

exec-bounded :
    (s : AppState) (f : ExecFrame)
    → IsBounded s
    → (length (reducer s (frame (exec f))).tape ≤ tape_cap)
      × All IsMarked (reducer s (frame (exec f))).tape
unfolding reducer
exec-bounded s f b = elim (Bool-cases (is_fill f)) [
  | inl e ↦ rw e (apply_print-bounded s f b)
  | inr e ↦ rw e (b.tape_bound, b.marked)
]

reducer-IsBounded : (s : AppState) (a : Action) → IsBounded s → IsBounded (reducer s a)
unfolding reducer
reducer-IsBounded s (frame (book f)) b = record {
  tape_bound = b.tape_bound;
  log_bound = b.log_bound;
  marked = b.marked;
}
reducer-IsBounded s (frame (exec f)) b = record {
  tape_bound = (exec-bounded s f b).0;
  log_bound = omega (arith, length-take {0} inspector_cap (exec_entry f ∷ s.inspector_log));
  marked = (exec-bounded s f b).1;
}
reducer-IsBounded s (frame (fix f)) b = record {
  tape_bound = b.tape_bound;
  log_bound = omega (arith, length-take {0} inspector_cap (fix_entry f ∷ s.inspector_log));
  marked = b.marked;
}
reducer-IsBounded s (connection c) b = elim (Bool-cases (same_status c s.connection)) [
  | inl e ↦ rw e b
  | inr e ↦ rw e (record { tape_bound = b.tape_bound; log_bound = b.log_bound; marked = b.marked })
]
reducer-IsBounded s (sent f n) b = record {
  tape_bound = b.tape_bound;
  log_bound = b.log_bound;
  marked = b.marked;
}

-- Under any dispatches from a state in which this holds, such as the initial one: the tape has at most
-- 200 prints and the inspector log at most 500 entries, and a print shows an aggressor side exactly
-- if it is marked as a trade of this client.
run-IsBounded : (s : AppState) (acts : List Action) → IsBounded s → IsBounded (run s acts)
unfolding run
run-IsBounded s [] b = b
run-IsBounded s (a ∷ rest) b = run-IsBounded (reducer s a) rest (reducer-IsBounded s a b)
