-- ===== src/Views/Header.antt =====
-- app/frontend/src/components/Header.tsx: every field of the header as a function of the state.
pub mod Spread
pub mod Change
pub mod Strip
use low_latency_matching_eng.Prelude.{
  ℕ, ◌+◌, ◌*◌, ◌/◌, ◌%◌, ◌==◌, ℤ, pos, negsuc, ◌+ℤ◌, ◌-ℤ◌, ◌*ℤ◌, leb_ℤ, ltb_ℤ, pos_part, neg_part,
  List, [], ◌∷◌, ◌++◌, Bool, true, false, not, Text, codes, text_eq, ◌&&◌, ◌||◌, if◌then◌else◌,
}
use low_latency_matching_eng.Double.{Signed, to_double, signed_quotient, signed_times}
use low_latency_matching_eng.Protocol.Value.{whole}
use low_latency_matching_eng.Format.{
  empty_price, decimal, pad_start, strip_zeros, format_price, format_qty, midpoint_label,
  signed_to_fixed_2, ms, format_clock_nanos,
}
use low_latency_matching_eng.State.Model.{BookState, TapeEntry, AppState}
use low_latency_matching_eng.State.Orders.{MyOrder}
use low_latency_matching_eng.Ticket.{tick_px}
use low_latency_matching_eng.Views.Panels.{session_filled_qty, session_working_qty}

pub data ChangeDirection : Type 0 where
  up down flat nothing : ChangeDirection

pub record HeaderModel : Type 0 where
  pub last : Text
  pub change_abs : Text
  pub change_pct : Text
  pub change_dir : ChangeDirection
  pub best_bid : Text
  pub best_ask : Text
  pub mid : Text
  pub spread_ticks : Text
  pub spread_bps : Text
  pub volume : Text
  pub filled_qty : Text
  pub remaining_qty : Text
  pub last_frame : Text

pub record HeaderInput : Type 0 where
  pub book : BookState
  pub tape : List TapeEntry
  pub orders : List MyOrder
  pub session_volume : ℤ
  pub session_open_px : ℤ
  pub last_frame_nanos : ℤ

abbrev pub two_sided : ℤ → ℤ → Bool
two_sided best_bid best_ask = ltb_ℤ (pos 0) best_bid && ltb_ℤ (pos 0) best_ask

-- `String(n / 100)`, below 10^15, where the shortest text of the quotient is the exact decimal one.
hundredth_text : ℕ → Text
hundredth_text n =
    if n % 100 == 0
    then decimal (n / 100)
    else decimal (n / 100) ++ b'.' ∷ strip_zeros (pad_start 2 (decimal (n % 100)))

abbrev pub minus_if : Bool → Text → Text
minus_if negative s = if negative then b'-' ∷ s else s

abbrev pub magnitude : ℤ → ℕ
magnitude a = pos_part a + neg_part a

unfoldable pub spread_ticks_label : ℤ → ℤ → Text
unfolding hundredth_text
spread_ticks_label best_bid best_ask =
    if not (two_sided best_bid best_ask)
    then empty_price
    else minus_if (ltb_ℤ (best_ask -ℤ best_bid) (pos 0))
        (hundredth_text (magnitude (best_ask -ℤ best_bid)))

-- A difference times 20000 as a double.
abbrev pub scaled : ℤ → ℤ
scaled (pos n) = pos (to_double (20000 * n))
scaled (negsuc n) = pos 0 -ℤ pos (to_double (20000 * (n + 1)))

unfoldable pub bps_of : ℤ → ℤ → Signed
bps_of best_bid best_ask =
    signed_quotient (scaled (best_ask -ℤ best_bid)) (to_double (magnitude (best_ask +ℤ best_bid)))

unfoldable pub spread_bps_label : ℤ → ℤ → Text
unfolding bps_of
spread_bps_label best_bid best_ask =
    if not (two_sided best_bid best_ask)
    then empty_price
    else signed_to_fixed_2 (bps_of best_bid best_ask)

pub record ChangeParts : Type 0 where
  pub abs : Text
  pub pct : Text
  pub dir : ChangeDirection

abbrev pub direction_of : ℤ → ChangeDirection
direction_of (pos n) = if n == 0 then flat else up
direction_of (negsuc n) = down

abbrev pub sign_of : ChangeDirection → Text
sign_of up = codes "+"
sign_of down = codes "-"
sign_of _ = []

abbrev pub plus_of : ChangeDirection → Text
plus_of up = codes "+"
plus_of _ = []

abbrev pub change_parts : ℤ → ℕ → ChangeParts
change_parts delta_px open_px = record {
  abs = sign_of (direction_of delta_px) ++ format_price (whole (pos (magnitude delta_px)));
  pct =
      plus_of (direction_of delta_px)
      ++ signed_to_fixed_2 (signed_times (signed_quotient delta_px open_px) 100)
      ++ codes "%";
  dir = direction_of delta_px;
}

unfoldable pub change_label : ℤ → ℤ → ChangeParts
change_label last_px session_open_px =
    if leb_ℤ last_px (pos 0) || leb_ℤ session_open_px (pos 0)
    then record { abs = empty_price; pct = empty_price; dir = nothing }
    else change_parts (last_px -ℤ session_open_px) (pos_part session_open_px)

abbrev pub last_px_of : List TapeEntry → ℤ
last_px_of [] = negsuc 0
last_px_of (entry ∷ rest) = entry.price_px

-- `withUnit`
unfoldable pub with_unit : Text → Text → Text
with_unit value unit = if text_eq value empty_price then value else value ++ unit

module _ (local_ms : ℕ → ℕ) where
  unfoldable pub derive_header : HeaderInput → HeaderModel
  derive_header input =
      let last_px = last_px_of input.tape in
      let change = change_label last_px input.session_open_px in
      record {
        last = format_price (whole last_px);
        change_abs = change.abs;
        change_pct = change.pct;
        change_dir = change.dir;
        best_bid = format_price (whole input.book.best_bid);
        best_ask = format_price (whole input.book.best_ask);
        mid = midpoint_label input.book.best_bid input.book.best_ask;
        spread_ticks = spread_ticks_label input.book.best_bid input.book.best_ask;
        spread_bps = spread_bps_label input.book.best_bid input.book.best_ask;
        volume = format_qty input.session_volume;
        filled_qty = format_qty (session_filled_qty input.orders);
        remaining_qty = format_qty (session_working_qty input.orders);
        last_frame = format_clock_nanos local_ms input.last_frame_nanos ms;
      }
