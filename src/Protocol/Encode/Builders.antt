-- ===== src/Protocol/Encode/Builders.antt =====
-- encode.ts: which orders the frame builders let through.
use low_latency_matching_eng.Prelude.{ℤ, pos, ◌<ℤ◌, ◌≤ℤ◌, ◌≡◌, ◌↔◌, ◌⊎◌, arith}
use low_latency_matching_eng.Protocol.Frames.{
  OrdType, limit, peg_mid, NewOrderFrame, CancelOrderFrame, OrderIntent, na,
}
use low_latency_matching_eng.Protocol.Encode.{ok, max_safe, new_order_frame, cancel_order_frame}

-- A positive integer that a double holds exactly.
abbrev pub IsPositiveSafe : ℤ → Type 0
IsPositiveSafe n = (pos 0 <ℤ n) × (n ≤ℤ pos max_safe)

-- What the builder demands of an intent, and what it sends as the price.
abbrev pub IsSendable : ℤ → OrderIntent → Type 0
IsSendable cl_ord_id intent =
    IsPositiveSafe cl_ord_id
    × ((intent.ord_type ≡ peg_mid) ⊎ IsPositiveSafe intent.price_px)
    × IsPositiveSafe intent.qty

abbrev pub sent_price : OrdType → ℤ → ℤ
sent_price peg_mid price_px = na
sent_price limit price_px = price_px

-- An intent becomes a frame exactly if it is sendable, and the frame then carries the id, the fields
-- of the intent, and the NA price for a peg.
pub new_order_frame_iff :
    (cl_ord_id : ℤ) (intent : OrderIntent) (f : NewOrderFrame)
    → (new_order_frame cl_ord_id intent ≡ ok f) ↔ (
        IsSendable cl_ord_id intent
        × (f ≡ record {
          cl_ord_id = cl_ord_id;
          side = intent.side;
          ord_type = intent.ord_type;
          tif = intent.tif;
          price = sent_price intent.ord_type intent.price_px;
          qty = intent.qty;
          max_floor = intent.display_qty;
        }))
unfolding new_order_frame
new_order_frame_iff cl_ord_id intent f = (λ h. ground arith, λ c. ground arith)

-- A cancel request is built exactly if both ids are positive safe integers, and it carries them.
pub cancel_order_frame_iff :
    (cl_ord_id orig : ℤ) (f : CancelOrderFrame)
    → (cancel_order_frame cl_ord_id orig ≡ ok f) ↔ (
        IsPositiveSafe cl_ord_id
        × IsPositiveSafe orig
        × (f ≡ record { cl_ord_id = cl_ord_id; orig_cl_ord_id = orig }))
unfolding cancel_order_frame
cancel_order_frame_iff cl_ord_id orig f = (λ h. ground arith, λ c. ground arith)
