-- ===== src/Protocol/Encode/Serialize.antt =====
-- encode.ts, `serializeClientFrame`: the text of a frame on the wire.
use low_latency_matching_eng.Prelude.{
  ℤ, pos, String, Option, some, Bool, if◌then◌else◌, ◌≡◌, refl, ap, ◌∙◌,
}
use low_latency_matching_eng.Protocol.Narrow.{is_text}
use mathlib.Core.Option.{map as map_option}
use low_latency_matching_eng.Protocol.Value.{
  Value, number, string, object, Members, end, member, get, whole,
}
use low_latency_matching_eng.Protocol.Frames.{
  Side, buy, sell, TimeInForce, gtc, ioc, fok, OrdType, limit, peg_mid, NewOrderFrame, ClientFrame,
  new, cancel,
}

abbrev side_text : Side → String
side_text buy = "BUY"
side_text sell = "SELL"

abbrev tif_text : TimeInForce → String
tif_text gtc = "GTC"
tif_text ioc = "IOC"
tif_text fok = "FOK"

abbrev ord_type_text : OrdType → String
ord_type_text limit = "LIMIT"
ord_type_text peg_mid = "PEG_MID"

abbrev whole_member : String → ℤ → Members → Members
whole_member key n ms = member key (number (whole n)) ms

-- The object literals of `newOrderFrame` and `cancelOrderFrame`, in the order of their keys.
abbrev pub client_members : ClientFrame → Members
client_members (new f) = member "type" (string "NEW") (
    whole_member "clOrdId" f.cl_ord_id (
      member "side" (string (side_text f.side)) (
        member "ordType" (string (ord_type_text f.ord_type)) (
          member "tif" (string (tif_text f.tif)) (
            whole_member "price" f.price (
              whole_member "qty" f.qty
                (whole_member "maxFloor" f.max_floor (member "symbol" (string "ASML") end))))))))
client_members (cancel f) =
    member "type" (string "CANCEL")
      (whole_member "clOrdId" f.cl_ord_id (whole_member "origClOrdId" f.orig_cl_ord_id end))

-- The frame whose members these are.
abbrev whole_of : Value → ℤ
whole_of (number (whole n)) = n
whole_of _ = pos 0

abbrev int_at : String → Members → ℤ
int_at key ms = whole_of (get key ms)

abbrev says : String → String → Members → Bool
says key literal ms = is_text literal (get key ms)

unfoldable frame_of : Members → ClientFrame
frame_of ms =
    if says "type" "NEW" ms
    then new (record {
      cl_ord_id = int_at "clOrdId" ms;
      side = if says "side" "BUY" ms then buy else sell;
      ord_type = if says "ordType" "LIMIT" ms then limit else peg_mid;
      tif = if says "tif" "GTC" ms then gtc else if says "tif" "IOC" ms then ioc else fok;
      price = int_at "price" ms;
      qty = int_at "qty" ms;
      max_floor = int_at "maxFloor" ms;
    })
    else cancel
        (record { cl_ord_id = int_at "clOrdId" ms; orig_cl_ord_id = int_at "origClOrdId" ms })

abbrev filled : NewOrderFrame → Side → OrdType → TimeInForce → NewOrderFrame
filled f s o t = record {
  cl_ord_id = f.cl_ord_id;
  side = s;
  ord_type = o;
  tif = t;
  price = f.price;
  qty = f.qty;
  max_floor = f.max_floor;
}

frame_of-filled :
    (f : NewOrderFrame) (s : Side) (o : OrdType) (t : TimeInForce)
    → frame_of (client_members (new (filled f s o t))) ≡ new (filled f s o t)
unfolding frame_of is_text get
frame_of-filled f buy limit gtc = refl
frame_of-filled f buy limit ioc = refl
frame_of-filled f buy limit fok = refl
frame_of-filled f buy peg_mid gtc = refl
frame_of-filled f buy peg_mid ioc = refl
frame_of-filled f buy peg_mid fok = refl
frame_of-filled f sell limit gtc = refl
frame_of-filled f sell limit ioc = refl
frame_of-filled f sell limit fok = refl
frame_of-filled f sell peg_mid gtc = refl
frame_of-filled f sell peg_mid ioc = refl
frame_of-filled f sell peg_mid fok = refl

frame_of-client_members : (f : ClientFrame) → frame_of (client_members f) ≡ f
unfolding frame_of is_text get
frame_of-client_members (new f) = frame_of-filled f f.side f.ord_type f.tif
frame_of-client_members (cancel f) = refl

unfoldable members_of : Value → Members
members_of (object ms) = ms
members_of _ = end

-- JSON.stringify is a parameter.
module _ (json_stringify : Value → String) where
  unfoldable serialize_client_frame : ClientFrame → String
  serialize_client_frame frame = json_stringify (object (client_members frame))

  -- With a parser that reads back what JSON.stringify writes, a frame can be read back from its text.
  serialize_client_frame_lem :
      (json_parse : String → Option Value)
      → ((v : Value) → json_parse (json_stringify v) ≡ some v)
      → (f : ClientFrame)
      → map_option (λ v. frame_of (members_of v)) (json_parse (serialize_client_frame f)) ≡ some f
  unfolding serialize_client_frame members_of
  serialize_client_frame_lem json_parse reads f =
      ap (map_option (λ v. frame_of (members_of v))) (reads (object (client_members f)))
      ∙ ap some (frame_of-client_members f)
