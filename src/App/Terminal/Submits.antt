-- ===== src/App/Terminal/Submits.antt =====
-- App.tsx and its two pages: a click on Submit, from the input to the blotter.
use low_latency_matching_eng.Prelude.{
  ℕ, ◌≤◌, ◌<◌, pos, List, Option, some, Bool, true, false, not, String, All, All-map, ◌≡◌, refl, ap,
  sym, subst, ◌∙◌, true≢false,
}
use low_latency_matching_eng.Protocol.Value.{Value}
use low_latency_matching_eng.Protocol.Frames.{OrderIntent}
use low_latency_matching_eng.Protocol.Encode.{max_safe}
use low_latency_matching_eng.State.Model.{ConnectionStatus, open_, connecting, reconnecting}
use low_latency_matching_eng.Ticket.{TicketState, submit}
use low_latency_matching_eng.Ticket.Submit.{submit-IsSound}
use low_latency_matching_eng.Ticket.Controls.{acted, ticket_step, submit_clicked}
use low_latency_matching_eng.Ticket.Controls.Intents.{submit_click}
use low_latency_matching_eng.App.{
  App, handle_submit, PageEvent, delivered, submitted, cancelled, page_run,
}
use low_latency_matching_eng.App.Pending.{IsPending}
use low_latency_matching_eng.App.Fresh.{IsPageEvent, mounted, page_submit-IsPending}
use low_latency_matching_eng.App.Terminal.{
  terminal_acted, is_connected, ticket_props, has_ticket, Terminal, new_terminal, TerminalEvent,
  ticket_acted, submit_emitted, after_ticket, state_of, terminal_step, terminal_run,
}
use low_latency_matching_eng.App.Terminal.Pages.{
  IsSoundEvent, IsTerminalEvent, terminal_run-page_run,
}

connected_open : (c : ConnectionStatus) → not (is_connected c) ≡ false → c ≡ open_
connected_open open_ h = refl
connected_open connecting h = absurd (true≢false h)
connected_open reconnecting h = absurd (true≢false h)

any_page : (e : PageEvent) → IsSoundEvent e → IsPageEvent e
any_page (delivered e) h = h
any_page (submitted i ready now) h = tt
any_page (cancelled id ready now) h = tt

module _ (json_parse : String → Option Value) where
  -- The app of a page, by another name.
  page-IsPending :
      (app : App) (seed : ℕ) (pes : List PageEvent) (disabled : Bool) (st : TicketState)
      (i : OrderIntent) (n ws now : ℕ)
      → app ≡ page_run json_parse (mounted seed) pes
      → All IsSoundEvent pes
      → (submit disabled st).1 ≡ some i
      → app.gen.next ≡ pos n
      → 0 < n
      → n ≤ max_safe
      → app.hook.socket_ref ≡ some ws
      → IsPending app i n now (handle_submit app i true now)
  page-IsPending app seed pes disabled st i n ws now e h emitted at p safe live =
      subst (λ a. IsPending a i n now (handle_submit a i true now)) (sym e)
        (page_submit-IsPending json_parse seed pes disabled st i n ws now (All-map any_page pes h)
          emitted (subst (λ a. a.gen.next ≡ pos n) e at) p safe
          (subst (λ a. a.hook.socket_ref ≡ some ws) e live))

  step_app :
      (t : Terminal) (i : OrderIntent) (ready : Bool) (now : ℕ)
      → has_ticket t.page ≡ true
      → (ticket_step t.ticket (acted (ticket_props (state_of t)) submit_clicked)).1 ≡ some i
      → (terminal_step json_parse t (ticket_acted submit_clicked ready now)).app
        ≡ (handle_submit t.app i ready now).0
  unfolding terminal_step terminal_acted after_ticket submit_emitted
  step_app t i ready now on_page e = rw on_page (ap (λ o. submit_emitted t.app o ready now) e)

  -- A click on Submit on either page, after anything that a terminal can go through, connections lost,
  -- orders sent before and pages left included: if it emits an intent while the hook holds an open
  -- socket and the next id is a positive safe integer, then the page shows OPEN, and the intent is sent
  -- under that id, without a throw, and becomes the PENDING row in front of the blotter, with the whole
  -- quantity left.
  pub terminal_submit-IsPending :
      (seed : ℕ) (es : List TerminalEvent) (t : Terminal) (i : OrderIntent) (n ws now : ℕ)
      → All IsTerminalEvent es
      → t ≡ terminal_run json_parse (new_terminal seed) es
      → has_ticket t.page ≡ true
      → (ticket_step t.ticket (acted (ticket_props (state_of t)) submit_clicked)).1 ≡ some i
      → t.app.gen.next ≡ pos n
      → 0 < n
      → n ≤ max_safe
      → t.app.hook.socket_ref ≡ some ws
      → ((state_of t).connection ≡ open_)
        × IsPending t.app i n now (handle_submit t.app i true now)
        × ((terminal_step json_parse t (ticket_acted submit_clicked true now)).app
            ≡ (handle_submit t.app i true now).0)
  unfolding ticket_props
  terminal_submit-IsPending seed es t i n ws now h run_of on_page e at p safe live =
      let disabled = not (is_connected (state_of t).connection) in
      let emitted = submit_click (ticket_props (state_of t)) t.ticket i e in
      let (pes, sound, page) = terminal_run-page_run json_parse seed es h in
      (
        connected_open (state_of t).connection (submit-IsSound disabled t.ticket i emitted).0,
        page-IsPending t.app seed pes disabled t.ticket i n ws now (ap (λ k. k.app) run_of ∙ page)
            sound emitted at p safe live,
        step_app t i true now on_page e,
      )
