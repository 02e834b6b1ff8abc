-- ===== src/Market.antt =====
-- app/frontend/src/market/ignition.ts and alpacaClient.ts, app/frontend/src/state/useIgnitionPrice.ts: the
-- opening reference price, from the answer of an external service to the state of the hook.
mod Tests
pub mod Open
pub mod Phases
use low_latency_matching_eng.Prelude.{
  ℕ, zero, suc, ◌-◌, ◌==◌, ltb, ℤ, pos, negsuc, List, [], ◌∷◌, ◌++◌, Option, none, some, Bool, true,
  false, not, String, Text, if◌then◌else◌,
}
use low_latency_matching_eng.Double.{Double}
use low_latency_matching_eng.Protocol.Value.{
  Number, whole, fractional, infinite, Value, undefined, number, object, get,
}
use low_latency_matching_eng.Format.{to_fixed_2, parse_price}

-- `value?.key`
abbrev pub read : String → Value → Value
read key (object ms) = get key ms
read key _ = undefined

-- The numbers that pass the test of `parseIgnitionOpen`: finite and greater than zero.
abbrev pub positive : Number → Option Double
positive (whole (pos n)) = if n == 0 then none else some (record { m = n; k = 0 })
positive (fractional (pos p) k) = if p == 0 then none else some (record { m = p; k = k })
positive _ = none

abbrev pub positive_value : Value → Option Double
positive_value (number n) = positive n
positive_value _ = none

pub price_of : Option Double → Option ℤ
price_of none = none
price_of (some o) = parse_price (to_fixed_2 o)

unfoldable pub parse_ignition_open : Value → Option ℤ
unfolding price_of
parse_ignition_open snapshot = price_of (positive_value (read "o" (read "dailyBar" snapshot)))

-- How a `fetch` ends: a rejection, or a response with its `ok` and what its `json()` yields, if it does
-- not reject.
pub data Fetched : Type 0 where
  rejected : Fetched
  response : Bool → Option Value → Fetched

body_open : Option Value → Option ℤ
body_open none = none
body_open (some body) = parse_ignition_open body

unfoldable pub fetch_ignition_open : Fetched → Option ℤ
unfolding body_open
fetch_ignition_open rejected = none
fetch_ignition_open (response is_ok body) = if not is_ok then none else body_open body

pub data IgnitionStatus : Type 0 where
  loading ready unavailable : IgnitionStatus

pub record IgnitionState : Type 0 where
  pub open_px : Option ℤ
  pub status : IgnitionStatus

-- The variables of the effect, and the state. `fetching` is the `retriesLeft` of the attempt whose
-- fetch is under way, `timer` that of the attempt that a pending timer starts; `fetches` counts the
-- fetches so far.
pub record IgnitionHook : Type 0 where
  pub disposed : Bool
  pub fetching : Option ℕ
  pub timer : Option ℕ
  pub fetches : ℕ
  pub state : IgnitionState

-- `attempt(retriesLeft)`, up to its `await`
abbrev pub attempt : ℕ → IgnitionHook → IgnitionHook
attempt retries_left h = record h { fetching = some retries_left; fetches = suc h.fetches }

abbrev pub ignition_mount : IgnitionHook
ignition_mount = attempt 1 (record {
  disposed = false;
  fetching = none;
  timer = none;
  fetches = 0;
  state = record { open_px = none; status = loading };
})

-- `attempt` behind its `await`.
settle : ℕ → Option ℤ → IgnitionHook → IgnitionHook
settle retries_left (some px) h = record h { state = record { open_px = some px; status = ready } }
settle retries_left none h =
    if ltb 0 retries_left
    then record h { timer = some (retries_left - 1) }
    else record h { state = record { open_px = none; status = unavailable } }

arrived : Option ℕ → Option ℤ → IgnitionHook → IgnitionHook
unfolding settle
arrived none px h = h
arrived (some retries_left) px h =
    let awaited = record h { fetching = none } in
    if h.disposed then awaited else settle retries_left px awaited

fired : Option ℕ → IgnitionHook → IgnitionHook
fired none h = h
fired (some retries_left) h = attempt retries_left (record h { timer = none })

pub data IgnitionEvent : Type 0 where
  fetched : Fetched → IgnitionEvent
  retry_due torn_down : IgnitionEvent

-- The clean-up also aborts the fetch under way, which then arrives as a rejection.
unfoldable pub ignition_step : IgnitionHook → IgnitionEvent → IgnitionHook
unfolding arrived fired
ignition_step h (fetched answer) = arrived h.fetching (fetch_ignition_open answer) h
ignition_step h retry_due = fired h.timer h
ignition_step h torn_down = record h { disposed = true; timer = none }

unfoldable pub ignition_run : IgnitionHook → List IgnitionEvent → IgnitionHook
ignition_run h [] = h
ignition_run h (e ∷ rest) = ignition_run (ignition_step h e) rest
