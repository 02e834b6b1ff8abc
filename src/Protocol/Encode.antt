-- ===== src/Protocol/Encode.antt =====
-- app/frontend/src/protocol/encode.ts: builders of the outbound frames, and the source of ClOrdIDs.
-- A thrown RangeError is a result that names the offending field.
pub mod Ids
pub mod Builders
pub mod Serialize
use low_latency_matching_eng.Prelude.{
  ℕ, ◌-◌, ◌^◌, ℤ, pos, neg_part, ◌+ℤ◌, String, Bool, true, false, not, ltb, leb, leb_ℤ, pos_part,
  ◌&&◌, ◌||◌, if◌then◌else◌,
}
use low_latency_matching_eng.Protocol.Frames.{
  OrdType, limit, peg_mid, NewOrderFrame, CancelOrderFrame, ClientFrame, OrderIntent, na,
}

pub data Checked {ℓ} (A : Type ℓ) : Type ℓ where
  ok : A → Checked A
  range_error : String → Checked A

infixl 5 ◌>>=◌ ◌>>◌
abbrev pub ◌>>=◌ {ℓ κ} : {A : Type ℓ} {B : Type κ} → Checked A → (A → Checked B) → Checked B
ok a >>= k = k a
range_error label >>= k = range_error label

abbrev pub ◌>>◌ {ℓ} : {B : Type ℓ} → Checked (Unit {0}) → Checked B → Checked B
m >> k = m >>= λ _. k

-- `Number.MAX_SAFE_INTEGER`
abbrev pub max_safe : ℕ
max_safe = 2 ^ 53 - 1

-- `Number.isSafeInteger`, of an integer
abbrev pub is_safe_integer : ℤ → Bool
is_safe_integer n = leb (pos_part n) max_safe && leb (neg_part n) max_safe

unfoldable pub require_positive_int : ℤ → String → Checked (Unit {0})
require_positive_int value label =
    if not (is_safe_integer value) || leb_ℤ value (pos 0) then range_error label else ok tt

-- The generator is its captured variable `next`.
pub record ClOrdIdGenerator : Type 0 where
  pub next : ℤ

unfoldable pub create_cl_ord_id_generator : ℤ → Checked ClOrdIdGenerator
unfolding require_positive_int
create_cl_ord_id_generator seed = do
  require_positive_int seed "clOrdId seed"
  ok (record { next = seed })

-- A call of the generator: the id, and the generator after `next++`.
unfoldable pub next_cl_ord_id : ClOrdIdGenerator → Checked (ℤ × ClOrdIdGenerator)
next_cl_ord_id gen =
    if not (is_safe_integer gen.next)
    then range_error "clOrdId"
    else ok (gen.next, record { next = gen.next +ℤ pos 1 })

unfoldable pub peek : ClOrdIdGenerator → ℤ
peek gen = gen.next

abbrev is_peg : OrdType → Bool
is_peg peg_mid = true
is_peg limit = false

unfoldable pub new_order_frame : ℤ → OrderIntent → Checked NewOrderFrame
unfolding require_positive_int
new_order_frame cl_ord_id intent = do
  require_positive_int cl_ord_id "clOrdId"
  if is_peg intent.ord_type then ok tt else require_positive_int intent.price_px "pricePx"
  require_positive_int intent.qty "qty"
  ok (record {
    cl_ord_id = cl_ord_id;
    side = intent.side;
    ord_type = intent.ord_type;
    tif = intent.tif;
    price = if is_peg intent.ord_type then na else intent.price_px;
    qty = intent.qty;
    max_floor = intent.display_qty;
  })

unfoldable pub cancel_order_frame : ℤ → ℤ → Checked CancelOrderFrame
unfolding require_positive_int
cancel_order_frame cl_ord_id orig_cl_ord_id = do
  require_positive_int cl_ord_id "clOrdId"
  require_positive_int orig_cl_ord_id "origClOrdId"
  ok (record { cl_ord_id = cl_ord_id; orig_cl_ord_id = orig_cl_ord_id })
