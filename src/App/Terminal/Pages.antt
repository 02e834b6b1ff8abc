-- ===== src/App/Terminal/Pages.antt =====
-- TradingPage.tsx: what a terminal does, as the events of a page.
use low_latency_matching_eng.Prelude.{
  ℕ, ℤ, List, [], ◌∷◌, ◌++◌, Option, none, some, Bool, true, false, Bool-cases, inl, inr, not,
  if◌then◌else◌, String, All, ◌≡◌, refl, ap, sym, ◌∙◌,
}
use low_latency_matching_eng.Protocol.Value.{Value}
use low_latency_matching_eng.Protocol.Frames.{OrderIntent}
use low_latency_matching_eng.State.Socket.Rows.{IsDelivery}
use low_latency_matching_eng.Inspector.{panel_step}
use low_latency_matching_eng.Views.Tables.{tape_click}
use low_latency_matching_eng.Views.Ladder.{select_depth}
use low_latency_matching_eng.Ticket.Submit.{IsSound}
use low_latency_matching_eng.Ticket.Controls.{acted, set_price, ticket_step, cancel_ticket_step}
use low_latency_matching_eng.Ticket.Controls.Intents.{step-IsSound}
use low_latency_matching_eng.App.{
  App, PageEvent, delivered, submitted, cancelled, page_step, page_run,
}
use low_latency_matching_eng.App.Fresh.{mounted}
use low_latency_matching_eng.App.Terminal.{
  terminal_acted, is_connected, ticket_props, has_ticket, is_trading, Page, same_page, navigate,
  Terminal, new_terminal, TerminalEvent, arrived, ignition_arrived, navigated, inspector_acted,
  tape_clicked, depth_selected, ticket_acted, price_selected, cancel_acted, row_cancelled,
  submit_emitted, cancel_emitted, after_ticket, after_cancel, row_cancel, state_of, terminal_step,
  terminal_run,
}

-- A page event with a sound intent, if it has one.
abbrev pub IsSoundEvent : PageEvent → Type 0
IsSoundEvent (delivered e) = IsDelivery e
IsSoundEvent (submitted i ready now) = IsSound i
IsSoundEvent (cancelled id ready now) = Unit

-- The hook's `send` is called by the callbacks only.
abbrev pub IsTerminalEvent : TerminalEvent → Type 0
IsTerminalEvent (arrived e) = IsDelivery e
IsTerminalEvent _ = Unit

All-both :
    (P : PageEvent → Type 0) (xs ys : List PageEvent) → All P xs → All P ys → All P (xs ++ ys)
All-both P [] ys h k = k
All-both P (x ∷ xs) ys (a, h) k = (a, All-both P xs ys h k)

module _ (json_parse : String → Option Value) where
  -- The app after some page events, each with a sound intent.
  IsPageOf : App → App → Type 0
  IsPageOf from to =
      (pes : List PageEvent) × All IsSoundEvent pes × (to ≡ page_run json_parse from pes)

  nothing : (app : App) → IsPageOf app app
  unfolding IsPageOf page_run
  nothing app = ([], tt, refl)

  one : (app : App) (e : PageEvent) → IsSoundEvent e → IsPageOf app (page_step json_parse app e)
  unfolding IsPageOf page_run
  one app e h = (e ∷ [], (h, tt), refl)

  submit-IsPageOf :
      (app : App) (o : Option OrderIntent) (ready : Bool) (now : ℕ)
      → ((i : OrderIntent) → o ≡ some i → IsSound i)
      → IsPageOf app (submit_emitted app o ready now)
  unfolding submit_emitted page_step
  submit-IsPageOf app none ready now f = nothing app
  submit-IsPageOf app (some i) ready now f = one app (submitted i ready now) (f i refl)

  cancel-IsPageOf :
      (app : App) (o : Option ℤ) (ready : Bool) (now : ℕ)
      → IsPageOf app (cancel_emitted app o ready now)
  unfolding cancel_emitted page_step
  cancel-IsPageOf app none ready now = nothing app
  cancel-IsPageOf app (some id) ready now = one app (cancelled id ready now) tt

  -- An action of a page that may not be mounted.
  guarded :
      (t : Terminal) (on_page : Bool) (next : Terminal)
      → IsPageOf t.app next.app
      → IsPageOf t.app (if on_page then next else t).app
  guarded t true next h = h
  guarded t false next h = nothing t.app

  navigated-IsPageOf : (t : Terminal) (page : Page) → IsPageOf t.app (navigate page t).app
  unfolding navigate
  navigated-IsPageOf t page = elim (Bool-cases (same_page t.page page)) [
    | inl y ↦ rw y (nothing t.app)
    | inr n ↦ rw n (nothing t.app)
  ]

  step-IsPageOf :
      (t : Terminal) (e : TerminalEvent)
      → IsTerminalEvent e
      → IsPageOf t.app (terminal_step json_parse t e).app
  unfolding terminal_step terminal_acted after_ticket after_cancel
  step-IsPageOf t (arrived e) h = one t.app (delivered e) h
  step-IsPageOf t (ignition_arrived e) h = nothing t.app
  step-IsPageOf t (navigated page) h = navigated-IsPageOf t page
  step-IsPageOf t (inspector_acted e) h =
      guarded t (is_trading t.page) (record t { inspector = panel_step t.inspector e })
        (nothing t.app)
  step-IsPageOf t (tape_clicked c) h =
      guarded t (is_trading t.page) (record t { tape_ui = tape_click t.tape_ui c }) (nothing t.app)
  step-IsPageOf t (depth_selected n) h =
      guarded t (is_trading t.page) (record t { depth = select_depth t.depth n }) (nothing t.app)
  step-IsPageOf t (ticket_acted c ready now) h =
      let e = acted (ticket_props (state_of t)) c in
      guarded t (has_ticket t.page) (after_ticket t (ticket_step t.ticket e) ready now)
        (submit-IsPageOf t.app (ticket_step t.ticket e).1 ready now (step-IsSound t.ticket e))
  step-IsPageOf t (price_selected px) h =
      guarded t (is_trading t.page) (record t { ticket = (ticket_step t.ticket (set_price px)).0 })
        (nothing t.app)
  step-IsPageOf t (cancel_acted c ready now) h =
      let result =
        cancel_ticket_step (not (is_connected (state_of t).connection)) t.cancel_ticket c in
      guarded t (is_trading t.page) (after_cancel t result ready now)
        (cancel-IsPageOf t.app result.1 ready now)
  step-IsPageOf t (row_cancelled o ready now) h =
      guarded t (is_trading t.page)
        (record t { app = cancel_emitted t.app (row_cancel o) ready now })
        (cancel-IsPageOf t.app (row_cancel o) ready now)

  page_run-append :
      (app : App) (p q : List PageEvent)
      → page_run json_parse app (p ++ q) ≡ page_run json_parse (page_run json_parse app p) q
  unfolding page_run
  page_run-append app [] q = refl
  page_run-append app (e ∷ p) q = page_run-append (page_step json_parse app e) p q

  joined : (a b c : App) → IsPageOf a b → IsPageOf b c → IsPageOf a c
  unfolding IsPageOf
  joined a b c (p, h, e) (q, k, f) = (
    p ++ q,
    All-both IsSoundEvent p q h k,
    f ∙ ap (λ x. page_run json_parse x q) e ∙ sym (page_run-append a p q),
  )

  run-IsPageOf :
      (t : Terminal) (es : List TerminalEvent)
      → All IsTerminalEvent es
      → IsPageOf t.app (terminal_run json_parse t es).app
  unfolding terminal_run
  run-IsPageOf t [] h = nothing t.app
  run-IsPageOf t (e ∷ rest) (d, h) =
      let next = terminal_step json_parse t e in
      joined t.app next.app (terminal_run json_parse next rest).app (step-IsPageOf t e d)
        (run-IsPageOf next rest h)

  -- Whatever is done at the tickets, in the depth curve and in the table, with the props that follow the
  -- connection and the book, and whatever the browser delivers in between: the hook and the id source
  -- are those of a page on which only sound intents were submitted.
  pub terminal_run-page_run :
      (seed : ℕ) (es : List TerminalEvent)
      → All IsTerminalEvent es
      → (pes : List PageEvent) × All IsSoundEvent pes
        × ((terminal_run json_parse (new_terminal seed) es).app
            ≡ page_run json_parse (mounted seed) pes)
  unfolding IsPageOf
  terminal_run-page_run seed es h = run-IsPageOf (new_terminal seed) es h
