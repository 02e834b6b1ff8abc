-- ===== src/Market/Tests.antt =====
-- ignition.ts and useIgnitionPrice.ts on concrete values.
use low_latency_matching_eng.Prelude.{
  ◌≤◌, pos, negsuc, ◌↔◌, List, [], ◌∷◌, ◌++◌, none, some, true, ◌≡◌, ◌≢◌, refl,
}
use low_latency_matching_eng.Double.{hundredths}
use low_latency_matching_eng.Protocol.Value.{
  whole, fractional, Value, number, object, end, member, get,
}
use low_latency_matching_eng.Format.{to_fixed_2, parse_price, decimal}
use low_latency_matching_eng.Market.{
  parse_ignition_open, rejected, response, fetch_ignition_open, loading, ignition_mount,
  ignition_step, IgnitionEvent, fetched, retry_due, ignition_run,
}
use low_latency_matching_eng.Market.Open.{IsOpenOf, parse_ignition_open_iff}
use low_latency_matching_eng.Market.Phases.{
  first_fetch, hook_of, phase_after, last_round, ignition_run-phase, ignition_run-ends,
}

-- `{"dailyBar": {"o": 150.251953125}}`
abbrev snapshot : Value
snapshot =
    object (member "dailyBar" (object (member "o" (number (fractional (pos 153858) 10)) end)) end)

rounded : parse_ignition_open snapshot ≡ some (pos 1502500)
unfolding parse_ignition_open get parse_price to_fixed_2 decimal hundredths
rounded = refl

too_small :
    parse_ignition_open
      (object (member "dailyBar" (object (member "o" (number (fractional (pos 1) 8)) end)) end))
    ≡ none
unfolding parse_ignition_open get parse_price to_fixed_2 decimal hundredths
too_small = refl

abbrev answered : List IgnitionEvent
answered = fetched rejected ∷ retry_due ∷ fetched (response true (some snapshot)) ∷ []

retried : (ignition_run ignition_mount answered).state.open_px ≡ some (pos 1502500)
unfolding ignition_run ignition_step fetch_ignition_open parse_ignition_open get parse_price
    to_fixed_2 decimal hundredths
retried = refl

-- A number below zero is no price.
negative :
    parse_ignition_open
      (object (member "dailyBar" (object (member "o" (number (whole (negsuc 149))) end)) end))
    ≡ none
unfolding parse_ignition_open get
negative = refl

parse_ignition_open_iff_example :
    parse_ignition_open snapshot ≡ some (pos 1502500) ↔ IsOpenOf snapshot (pos 1502500)
parse_ignition_open_iff_example = parse_ignition_open_iff snapshot (pos 1502500)

ignition_run-phase_example :
    ignition_run ignition_mount answered ≡ hook_of (phase_after first_fetch answered)
ignition_run-phase_example = ignition_run-phase answered (tt, (tt, (tt, tt)))

ignition_run-ends_example :
    ((ignition_run ignition_mount ([] ++ last_round rejected rejected)).state.status ≢ loading)
    × ((ignition_run ignition_mount ([] ++ last_round rejected rejected)).fetches ≤ 2)
ignition_run-ends_example = ignition_run-ends [] rejected rejected tt
