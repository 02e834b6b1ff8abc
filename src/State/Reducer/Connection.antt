-- ===== src/State/Reducer/Connection.antt =====
-- reducer.ts: the connection status, and one dispatch more.
use low_latency_matching_eng.Prelude.{List, [], ◌∷◌, ◌++◌, ◌≡◌, refl, true, arith}
use low_latency_matching_eng.Protocol.Frames.{book, exec, fix}
use low_latency_matching_eng.State.Model.{
  ConnectionStatus, AppState, Action, connection, frame, sent,
}
use low_latency_matching_eng.State.Reducer.{same_status, reducer, run}

abbrev pub status_after : ConnectionStatus → Action → ConnectionStatus
status_after c (connection d) = d
status_after c _ = c

same_status_sound : (c d : ConnectionStatus) → same_status c d ≡ true → d ≡ c
same_status_sound c d h = ground arith

pub reducer-connection :
    (s : AppState) (a : Action) → (reducer s a).connection ≡ status_after s.connection a
unfolding reducer
reducer-connection s (frame (book f)) = refl
reducer-connection s (frame (exec f)) = ground arith
reducer-connection s (frame (fix f)) = refl
reducer-connection s (connection c) = ground (arith, same_status_sound c s.connection)
reducer-connection s (sent f n) = refl

pub run-snoc :
    (s : AppState) (acts : List Action) (a : Action)
    → run s (acts ++ a ∷ []) ≡ reducer (run s acts) a
unfolding run
run-snoc s [] a = refl
run-snoc s (b ∷ rest) a = run-snoc (reducer s b) rest a
