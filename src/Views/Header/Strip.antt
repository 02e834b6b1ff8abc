-- ===== src/Views/Header/Strip.antt =====
-- Header.tsx, SessionStats.tsx and Navbar.tsx: the labelled values as they are rendered.
use low_latency_matching_eng.Prelude.{ℕ, ℤ, negsuc, List, [], ◌∷◌, Option, none, some, Text, codes}
use low_latency_matching_eng.Protocol.Value.{whole}
use low_latency_matching_eng.Format.{format_price}
use low_latency_matching_eng.State.Model.{ConnectionStatus}
use low_latency_matching_eng.Views.{SessionStatsInput, build_session_stats}
use low_latency_matching_eng.Views.Header.{
  ChangeDirection, up, down, HeaderModel, HeaderInput, derive_header, with_unit,
}
use low_latency_matching_eng.Views.Tables.{BadgeView, badge_view}

-- A label with its value and, if it has one, the value below.
pub record Metric : Type 0 where
  pub label : Text
  pub value : Text
  pub sub : Option Text

abbrev plain : Text → Text → Metric
plain label value = record { label = label; value = value; sub = none }

abbrev pub change_class : ChangeDirection → Text
change_class up = codes " header__value--up"
change_class down = codes " header__value--down"
change_class _ = []

-- `openPx ?? -1`
abbrev or_sentinel : Option ℤ → ℤ
or_sentinel none = negsuc 0
or_sentinel (some px) = px

abbrev metrics : HeaderModel → Option ℤ → List Metric
metrics m open_px =
    plain (codes "Last") m.last
    ∷ record { label = codes "Chg"; value = m.change_abs; sub = some m.change_pct }
    ∷ plain (codes "Open") (format_price (whole (or_sentinel open_px)))
    ∷ plain (codes "Bid") m.best_bid
    ∷ plain (codes "Ask") m.best_ask
    ∷ plain (codes "Mid") m.mid
    ∷ record {
      label = codes "Spread";
      value = with_unit m.spread_ticks (codes "¢");
      sub = some (with_unit m.spread_bps (codes " bps"));
    }
    ∷ plain (codes "Volume") m.volume
    ∷ plain (codes "Filled") m.filled_qty
    ∷ plain (codes "Rem") m.remaining_qty
    ∷ plain (codes "Last frame") m.last_frame
    ∷ []

pub record HeaderView : Type 0 where
  pub change_class : Text
  pub metrics : List Metric
  pub badge : BadgeView

module _ (local_ms : ℕ → ℕ) where
  unfoldable pub header_view : HeaderInput → ConnectionStatus → Option ℤ → HeaderView
  header_view input connection open_px =
      let m = derive_header local_ms input in
      record {
        change_class = change_class m.change_dir;
        metrics = metrics m open_px;
        badge = badge_view connection;
      }

unfoldable pub session_stats : SessionStatsInput → List Metric
session_stats input =
    let m = build_session_stats input in
    plain (codes "High") m.high
    ∷ plain (codes "Low") m.low
    ∷ plain (codes "Trades") m.trades
    ∷ record { label = codes "Last trade"; value = m.last_price; sub = some m.last_size }
    ∷ []
