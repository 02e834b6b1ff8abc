-- ===== src/Views/Stats.antt =====
-- sessionStats.ts: the statistics panel over a whole session.
use low_latency_matching_eng.Prelude.{
  ◌+◌, pos, List, [], ◌∷◌, length, map, take, rev_onto, Text, ◌≡◌, refl, ap, ◌∙◌, arith,
}
use low_latency_matching_eng.Protocol.Frames.{ExecFrame}
use low_latency_matching_eng.Protocol.Value.{whole}
use low_latency_matching_eng.Format.{empty_price, format_price, format_qty}
use low_latency_matching_eng.State.Model.{tape_cap, TapeEntry, AppState, initial_state, Action}
use low_latency_matching_eng.State.Reducer.{run}
use low_latency_matching_eng.State.Reducer.History.{
  Trade, trade_of, trade_of_frame, fills, tape_lem,
}
use low_latency_matching_eng.State.Reducer.Session.{session_counts}
use low_latency_matching_eng.Views.{
  SessionStatsModel, build_session_stats, last_price_text, last_size_text,
}

-- The panel reads four slices of the state.
abbrev pub stats_of : AppState → SessionStatsModel
stats_of s = build_session_stats (record {
  tape = s.tape;
  session_high_px = s.session_high_px;
  session_low_px = s.session_low_px;
  session_trade_count = s.session_trade_count;
})

-- The price and the size of the first trade of a list, or the dash.
abbrev pub price_text : List Trade → Text
price_text [] = empty_price
price_text (t ∷ rest) = format_price (whole t.price_px)

abbrev pub size_text : List Trade → Text
size_text [] = empty_price
size_text (t ∷ rest) = format_qty t.quantity

last_price-tape : (tape : List TapeEntry) → last_price_text tape ≡ price_text (map trade_of tape)
last_price-tape [] = refl
last_price-tape (e ∷ rest) = refl

last_size-tape : (tape : List TapeEntry) → last_size_text tape ≡ size_text (map trade_of tape)
last_size-tape [] = refl
last_size-tape (e ∷ rest) = refl

price-take : (ts : List Trade) → price_text (take tape_cap ts) ≡ price_text ts
price-take [] = refl
price-take (t ∷ rest) = refl

size-take : (ts : List Trade) → size_text (take tape_cap ts) ≡ size_text ts
size-take [] = refl
size-take (t ∷ rest) = refl

length-rev_onto : (xs ys : List ExecFrame) → length (rev_onto xs ys) ≡ length xs + length ys
length-rev_onto [] ys = omega arith
length-rev_onto (x ∷ xs) ys = omega (arith, length-rev_onto xs (x ∷ ys))

-- From the initial state, after any dispatches: the panel shows the number of all fills, and the price
-- and the size of the newest fill, or the dash for both before the first one.
session_stats_lem :
    (acts : List Action)
    → ((stats_of (run initial_state acts)).trades ≡ format_qty (pos (length (fills acts))))
      × ((stats_of (run initial_state acts)).last_price
          ≡ price_text (rev_onto (map trade_of_frame (fills acts)) []))
      × ((stats_of (run initial_state acts)).last_size
          ≡ size_text (rev_onto (map trade_of_frame (fills acts)) []))
unfolding build_session_stats
session_stats_lem acts =
    let newest = rev_onto (map trade_of_frame (fills acts)) [] in
    (
      ap (λ n. format_qty (pos n))
          ((session_counts acts).1 ∙ omega (arith, length-rev_onto (fills acts) [])),
      last_price-tape (run initial_state acts).tape
          ∙ ap price_text (tape_lem acts)
          ∙ price-take newest,
      last_size-tape (run initial_state acts).tape
          ∙ ap size_text (tape_lem acts)
          ∙ size-take newest,
    )
