-- ===== src/Protocol/Value.antt =====
-- The values that `JSON.parse` returns, as app/frontend/src/protocol/messages.ts reads them.
use text.Mathlib.Text.{◌==◌ as str_eq}
use low_latency_matching_eng.Prelude.{ℕ, ℤ, String, Bool, if◌then◌else◌}

-- A number that `Number.isInteger` accepts, a fraction p / 2^k that is no integer, or an infinity.
-- Every finite double is one of the first two.
pub data Number : Type 0 where
  whole : ℤ → Number
  fractional : ℤ → ℕ → Number
  infinite : Number

-- A read of a member that is not there gives `undefined`.
mutual
  pub data Value : Type 0 where
    undefined null : Value
    boolean : Bool → Value
    number : Number → Value
    string : String → Value
    array : Items → Value
    object : Members → Value

  pub data Items : Type 0 where
    nil : Items
    item : Value → Items → Items

  pub data Members : Type 0 where
    end : Members
    member : String → Value → Members → Members

-- `parsed.key`; a parsed object has no key twice.
unfoldable pub get : String → Members → Value
get key end = undefined
get key (member k v ms) = if str_eq k key then v else get key ms
