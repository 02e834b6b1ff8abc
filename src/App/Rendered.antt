-- ===== src/App/Rendered.antt =====
-- app/frontend/src/App.tsx: when App renders, and with it reads the id that the next order will have.
use low_latency_matching_eng.Prelude.{
  ℕ, suc, ◌==◌, ◌&&◌, ℤ, List, [], ◌∷◌, Bool, true, false, not, ◌≡◌, refl, if◌then◌else◌, arith,
}
use low_latency_matching_eng.Protocol.Encode.{peek}
use low_latency_matching_eng.State.Model.{
  ConnectionStatus, connecting, open_, reconnecting, AppState, initial_state, Action, connection,
}
use low_latency_matching_eng.State.Reducer.{reducer}
use low_latency_matching_eng.Market.{IgnitionHook, IgnitionStatus, loading, ready, unavailable}
use low_latency_matching_eng.App.{App}

abbrev same_connection : ConnectionStatus → ConnectionStatus → Bool
same_connection connecting connecting = true
same_connection open_ open_ = true
same_connection reconnecting reconnecting = true
same_connection _ _ = false

-- Whether an action changes the state: a CONNECTION with the status that is there returns the same
-- object, after which React keeps what is rendered.
abbrev is_change : AppState → Action → Bool
is_change s (connection c) = not (same_connection c s.connection)
is_change s _ = true

-- How often the dispatched actions have rendered App.
abbrev renders : AppState → List Action → ℕ
renders s [] = 0
renders s (a ∷ rest) =
    let later = renders (reducer s a) rest in if is_change s a then suc later else later

abbrev same_status : IgnitionStatus → IgnitionStatus → Bool
same_status loading loading = true
same_status ready ready = true
same_status unavailable unavailable = true
same_status _ _ = false

-- `clOrdIdPreview` is read when App renders: when the state of one of its two hooks has changed.
abbrev pub shown_preview : ℤ → App → App → IgnitionHook → IgnitionHook → ℤ
shown_preview preview app app' ignition ignition' =
    if renders initial_state app.hook.dispatched == renders initial_state app'.hook.dispatched
      && same_status ignition.state.status ignition'.state.status
    then preview
    else peek app'.gen

same_status_refl : (s : IgnitionStatus) → same_status s s ≡ true
same_status_refl loading = refl
same_status_refl ready = refl
same_status_refl unavailable = refl

-- Nothing is read anew while both hooks are as they were.
pub shown_preview_same :
    (preview : ℤ) (app : App) (ignition : IgnitionHook)
    → shown_preview preview app app ignition ignition ≡ preview
shown_preview_same preview app ignition =
    rw (eq_self (renders initial_state app.hook.dispatched), same_status_refl ignition.state.status)
      refl
  where
    eq_self : (n : ℕ) → (n == n) ≡ true
    eq_self n = ground arith
