-- ===== src/Protocol/Tests.antt =====
-- messages.ts, encode.ts and fix.ts on concrete values.
use low_latency_matching_eng.Prelude.{
  pos, negsuc, List, [], ◌∷◌, map, Option, none, some, String, codes, ◌≡◌, ◌↔◌, refl, All, arith,
}
use low_latency_matching_eng.Protocol.Value.{
  Value, number, string, object, Members, member, fractional, get,
}
use low_latency_matching_eng.Protocol.Frames.{
  sell, gtc, peg_mid, BookFrame, book, NewOrderFrame, CancelOrderFrame, OrderIntent, na,
}
use low_latency_matching_eng.Protocol.Narrow.{parse_server_frame, narrow, int}
use low_latency_matching_eng.Protocol.Narrow.Conforms.{
  ConformsTo, published, parse_server_frame_iff,
}
use low_latency_matching_eng.Protocol.Fix.{tag_name, inherited, parse_fix_tags}
use low_latency_matching_eng.Protocol.Fix.RoundTrip.{
  Field, IsWellFormed, packet, row_of, parse_fix_tags-packet,
}

abbrev top_of_book : BookFrame
top_of_book = record {
  best_bid = pos 1502500;
  best_ask = negsuc 0;
  bids = record { price = pos 1502500; qty = pos 6 } ∷ [];
  asks = [];
  timestamp = pos 1500;
}

-- A parser that reads every text as the published book.
abbrev book_json : String → Option Value
book_json s = some (object (published (book top_of_book)))

-- The same book with a price that is no integer.
abbrev bad_json : String → Option Value
bad_json s = some (
    object (
      member "type" (string "BOOK")
        (member "bestBid" (number (fractional (pos 3005001) 1)) (published (book top_of_book)))))

refused_fraction : parse_server_frame bad_json "frame" ≡ none
unfolding parse_server_frame narrow get int
refused_fraction = refl

parse_server_frame_iff_example :
    (parse_server_frame book_json "frame" ≡ some (book top_of_book))
    ↔ ((ms : Members) × (book_json "frame" ≡ some (object ms)) × ConformsTo ms (book top_of_book))
parse_server_frame_iff_example = parse_server_frame_iff book_json "frame" (book top_of_book)

abbrev pegged : OrderIntent
pegged = record {
  side = sell;
  ord_type = peg_mid;
  tif = gtc;
  price_px = na;
  qty = pos 20;
  display_qty = pos 0;
}

abbrev pegged_frame : NewOrderFrame
pegged_frame = record {
  cl_ord_id = pos 41;
  side = sell;
  ord_type = peg_mid;
  tif = gtc;
  price = na;
  qty = pos 20;
  max_floor = pos 0;
}

abbrev cancel_41 : CancelOrderFrame
cancel_41 = record { cl_ord_id = pos 42; orig_cl_ord_id = pos 41 }

-- Two fields, the second with an "=" in its value.
abbrev two_fields : List Field
two_fields =
    record { tag = codes "35"; value = codes "D" }
    ∷ record { tag = codes "58"; value = codes "a=b" }
    ∷ []

two_fields-IsWellFormed : All IsWellFormed two_fields
two_fields-IsWellFormed = (
  record {
    tag_no_eq = (omega arith, (omega arith, tt));
    tag_no_soh = (omega arith, (omega arith, tt));
    value_no_soh = (omega arith, tt);
  },
  (
    record {
      tag_no_eq = (omega arith, (omega arith, tt));
      tag_no_soh = (omega arith, (omega arith, tt));
      value_no_soh = (omega arith, (omega arith, (omega arith, tt)));
    },
    tt,
  ),
)

parse_fix_tags-packet_example : parse_fix_tags (packet two_fields) ≡ map row_of two_fields
parse_fix_tags-packet_example = parse_fix_tags-packet two_fields two_fields-IsWellFormed

-- A tag that every object inherits is read from the prototype.
inherited_name : tag_name (codes "constructor") ≡ inherited
unfolding tag_name
inherited_name = refl
