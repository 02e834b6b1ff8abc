-- ===== src/Market/Phases.antt =====
-- useIgnitionPrice.ts: the hook as a machine of five phases.
use low_latency_matching_eng.Prelude.{
  ℕ, ◌≤◌, ℤ, List, [], ◌∷◌, ◌++◌, Option, none, some, true, false, All, ◌≡◌, ◌≢◌, refl, sym, ap,
  subst, ◌∙◌, arith,
}
use low_latency_matching_eng.Market.{
  IgnitionStatus, loading, ready, unavailable, IgnitionState, IgnitionHook, ignition_mount, settle,
  arrived, fired, Fetched, fetch_ignition_open, IgnitionEvent, fetched, retry_due, torn_down,
  ignition_step, ignition_run,
}

-- The first fetch, the wait for the retry, the second fetch, and the two ends, a price after so many
-- fetches or none.
pub data Phase : Type 0 where
  first_fetch waiting second_fetch : Phase
  has_price : ℕ → ℤ → Phase
  has_none : Phase

abbrev pub after_answer : Phase → ℕ → Option ℤ → Phase
after_answer otherwise n none = otherwise
after_answer otherwise n (some px) = has_price n px

-- The diagram: an answer ends a fetch, with a price or with what comes next, and the timer starts the
-- second fetch. Nothing else changes the phase.
abbrev pub next_phase : Phase → IgnitionEvent → Phase
next_phase first_fetch (fetched answer) = after_answer waiting 1 (fetch_ignition_open answer)
next_phase second_fetch (fetched answer) = after_answer has_none 2 (fetch_ignition_open answer)
next_phase waiting retry_due = second_fetch
next_phase p _ = p

abbrev pub phase_after : Phase → List IgnitionEvent → Phase
phase_after p [] = p
phase_after p (e ∷ rest) = phase_after (next_phase p e) rest

abbrev mounted_hook : Option ℕ → Option ℕ → ℕ → Option ℤ → IgnitionStatus → IgnitionHook
mounted_hook fetching timer fetches px status = record {
  disposed = false;
  fetching = fetching;
  timer = timer;
  fetches = fetches;
  state = record { open_px = px; status = status };
}

-- The hook of a phase.
abbrev pub hook_of : Phase → IgnitionHook
hook_of first_fetch = mounted_hook (some 1) none 1 none loading
hook_of waiting = mounted_hook none (some 0) 1 none loading
hook_of second_fetch = mounted_hook (some 0) none 2 none loading
hook_of (has_price n px) = mounted_hook none none n (some px) ready
hook_of has_none = mounted_hook none none 2 none unavailable

-- The page has not left.
abbrev pub IsMountedEvent : IgnitionEvent → Type 0
IsMountedEvent torn_down = ⊥
IsMountedEvent _ = Unit

first_answer :
    (px : Option ℤ)
    → arrived (some 1) px (hook_of first_fetch) ≡ hook_of (after_answer waiting 1 px)
unfolding arrived settle
first_answer none = refl
first_answer (some px) = refl

second_answer :
    (px : Option ℤ)
    → arrived (some 0) px (hook_of second_fetch) ≡ hook_of (after_answer has_none 2 px)
unfolding arrived settle
second_answer none = refl
second_answer (some px) = refl

step-refines :
    (p : Phase) (e : IgnitionEvent)
    → IsMountedEvent e
    → ignition_step (hook_of p) e ≡ hook_of (next_phase p e)
unfolding ignition_step arrived fired
step-refines first_fetch (fetched answer) h = first_answer (fetch_ignition_open answer)
step-refines second_fetch (fetched answer) h = second_answer (fetch_ignition_open answer)
step-refines waiting (fetched answer) h = refl
step-refines (has_price n px) (fetched answer) h = refl
step-refines has_none (fetched answer) h = refl
step-refines first_fetch retry_due h = refl
step-refines second_fetch retry_due h = refl
step-refines waiting retry_due h = refl
step-refines (has_price n px) retry_due h = refl
step-refines has_none retry_due h = refl
step-refines p torn_down h = absurd h

run-refines :
    (p : Phase) (es : List IgnitionEvent)
    → All IsMountedEvent es
    → ignition_run (hook_of p) es ≡ hook_of (phase_after p es)
unfolding ignition_run
run-refines p [] h = refl
run-refines p (e ∷ rest) (d, h) =
    ap (λ k. ignition_run k rest) (step-refines p e d) ∙ run-refines (next_phase p e) rest h

-- While the page is mounted, in every order of answers and timers, the hook is that of the phase that the
-- diagram gives.
pub ignition_run-phase :
    (es : List IgnitionEvent)
    → All IsMountedEvent es
    → ignition_run ignition_mount es ≡ hook_of (phase_after first_fetch es)
ignition_run-phase es h = run-refines first_fetch es h

-- At most two fetches.
IsFrugal : Phase → Type 0
IsFrugal p = (hook_of p).fetches ≤ 2

answer-IsFrugal :
    (q : Phase) (n : ℕ) (px : Option ℤ) → IsFrugal q → n ≤ 2 → IsFrugal (after_answer q n px)
unfolding IsFrugal
answer-IsFrugal q n none h k = h
answer-IsFrugal q n (some px) h k = k

next-IsFrugal : (p : Phase) (e : IgnitionEvent) → IsFrugal p → IsFrugal (next_phase p e)
unfolding IsFrugal
next-IsFrugal first_fetch (fetched a) h =
    answer-IsFrugal waiting 1 (fetch_ignition_open a) (omega arith) (omega arith)
next-IsFrugal second_fetch (fetched a) h =
    answer-IsFrugal has_none 2 (fetch_ignition_open a) (omega arith) (omega arith)
next-IsFrugal waiting (fetched a) h = h
next-IsFrugal (has_price n px) (fetched a) h = h
next-IsFrugal has_none (fetched a) h = h
next-IsFrugal first_fetch retry_due h = h
next-IsFrugal second_fetch retry_due h = h
next-IsFrugal waiting retry_due h = omega arith
next-IsFrugal (has_price n px) retry_due h = h
next-IsFrugal has_none retry_due h = h
next-IsFrugal first_fetch torn_down h = h
next-IsFrugal second_fetch torn_down h = h
next-IsFrugal waiting torn_down h = h
next-IsFrugal (has_price n px) torn_down h = h
next-IsFrugal has_none torn_down h = h

after-IsFrugal : (p : Phase) (es : List IgnitionEvent) → IsFrugal p → IsFrugal (phase_after p es)
after-IsFrugal p [] h = h
after-IsFrugal p (e ∷ rest) h = after-IsFrugal (next_phase p e) rest (next-IsFrugal p e h)

IsSettled : Phase → Type 0
IsSettled p = (hook_of p).state.status ≢ loading

second-IsSettled : (px : Option ℤ) → IsSettled (after_answer has_none 2 px)
unfolding IsSettled
second-IsSettled none = cc
second-IsSettled (some px) = cc

abbrev pub last_round : Fetched → Fetched → List IgnitionEvent
last_round a b = fetched a ∷ retry_due ∷ fetched b ∷ []

first-IsSettled :
    (px : Option ℤ) (b : Fetched)
    → IsSettled (phase_after (after_answer waiting 1 px) (retry_due ∷ fetched b ∷ []))
unfolding IsSettled
first-IsSettled none b = second-IsSettled (fetch_ignition_open b)
first-IsSettled (some px) b = cc

round-IsSettled : (p : Phase) (a b : Fetched) → IsSettled (phase_after p (last_round a b))
unfolding IsSettled
round-IsSettled first_fetch a b = first-IsSettled (fetch_ignition_open a) b
round-IsSettled waiting a b = second-IsSettled (fetch_ignition_open b)
round-IsSettled second_fetch a b = second_only (fetch_ignition_open a)
  where
    second_only :
        (px : Option ℤ)
        → IsSettled (phase_after (after_answer has_none 2 px) (retry_due ∷ fetched b ∷ []))
    second_only none = cc
    second_only (some px) = cc
round-IsSettled (has_price n px) a b = cc
round-IsSettled has_none a b = cc

phase_after-append :
    (p : Phase) (es fs : List IgnitionEvent)
    → phase_after p (es ++ fs) ≡ phase_after (phase_after p es) fs
phase_after-append p [] fs = refl
phase_after-append p (e ∷ rest) fs = phase_after-append (next_phase p e) rest fs

All-join :
    (es fs : List IgnitionEvent)
    → All IsMountedEvent es
    → All IsMountedEvent fs
    → All IsMountedEvent (es ++ fs)
All-join [] fs h k = k
All-join (e ∷ rest) fs (d, h) k = (d, All-join rest fs h k)

-- On a mounted page, whatever has happened, two answers with the retry between them leave the hook no
-- longer loading; and there have been two fetches at most.
pub ignition_run-ends :
    (es : List IgnitionEvent) (a b : Fetched)
    → All IsMountedEvent es
    → ((ignition_run ignition_mount (es ++ last_round a b)).state.status ≢ loading)
      × ((ignition_run ignition_mount (es ++ last_round a b)).fetches ≤ 2)
unfolding IsSettled IsFrugal
ignition_run-ends es a b h =
    let final = es ++ last_round a b in
    let at = ignition_run-phase final (All-join es (last_round a b) h (tt, (tt, (tt, tt)))) in
    (
      subst (λ k. k.state.status ≢ loading) (sym at)
          (subst IsSettled (sym (phase_after-append first_fetch es (last_round a b)))
            (round-IsSettled (phase_after first_fetch es) a b)),
      subst (λ k. k.fetches ≤ 2) (sym at) (after-IsFrugal first_fetch final (omega arith)),
    )

abbrev gone_hook : Option ℕ → ℕ → IgnitionState → IgnitionHook
gone_hook fetching fetches state = record {
  disposed = true;
  fetching = fetching;
  timer = none;
  fetches = fetches;
  state = state;
}

IsGone : ℕ → IgnitionState → IgnitionHook → Type 0
IsGone n s h = (h.state ≡ s) × (h.fetches ≡ n)

ignition_run-IsGone :
    (f : Option ℕ) (n : ℕ) (s : IgnitionState) (es : List IgnitionEvent)
    → IsGone n s (ignition_run (gone_hook f n s) es)
unfolding IsGone ignition_run ignition_step arrived fired
ignition_run-IsGone f n s [] = (refl, refl)
ignition_run-IsGone none n s (fetched a ∷ rest) = ignition_run-IsGone none n s rest
ignition_run-IsGone (some k) n s (fetched a ∷ rest) = ignition_run-IsGone none n s rest
ignition_run-IsGone f n s (retry_due ∷ rest) = ignition_run-IsGone f n s rest
ignition_run-IsGone f n s (torn_down ∷ rest) = ignition_run-IsGone f n s rest

-- Once the page has left, in whatever condition the hook is, no answer and no timer changes the state,
-- and nothing more is fetched.
torn_down-quiet :
    (h : IgnitionHook) (es : List IgnitionEvent)
    → ((ignition_run (ignition_step h torn_down) es).state ≡ h.state)
      × ((ignition_run (ignition_step h torn_down) es).fetches ≡ h.fetches)
unfolding IsGone ignition_step
torn_down-quiet h es = ignition_run-IsGone h.fetching h.fetches h.state es
