-- ===== src/App/Terminal/Browse.antt =====
-- App.tsx and its two pages: what navigation and the local controls of the pages leave alone.
use low_latency_matching_eng.Prelude.{
  sym, ℕ, List, [], ◌∷◌, Option, none, Bool, true, false, not, Bool-cases, inl, inr, String, Text,
  All, ◌≡◌, refl, ap, ◌∙◌, if◌then◌else◌,
}
use low_latency_matching_eng.Protocol.Value.{Value}
use low_latency_matching_eng.Protocol.Frames.{ExecFrame, OrderIntent}
use low_latency_matching_eng.Views.Tables.{initial_tape_ui}
use low_latency_matching_eng.Views.Ladder.{default_depth}
use low_latency_matching_eng.Ticket.{TicketState, CancelTicketState}
use low_latency_matching_eng.Ticket.Controls.{
  TicketProps, TicketControl, side_clicked, tif_clicked, ord_type_clicked, chip_clicked, nudge_down,
  nudge_up, price_typed, qty_typed, display_typed, preset_clicked, submit_clicked, acted,
  ticket_step, empty_ticket, CancelControl, id_typed, cancel_clicked, cancel_ticket_step,
}
use low_latency_matching_eng.App.Rendered.{shown_preview, shown_preview_same}
use low_latency_matching_eng.App.Terminal.{
  terminal_acted, is_connected, has_ticket, is_trading, ticket_props, Page, no_page, same_page,
  navigate, closed_inspector, empty_cancel_ticket, Terminal, TerminalEvent, arrived,
  ignition_arrived, navigated, inspector_acted, tape_clicked, depth_selected, ticket_acted,
  price_selected, cancel_acted, row_cancelled, submit_emitted, cancel_emitted, after_ticket,
  after_cancel, state_of, terminal_step, terminal_run,
}
use low_latency_matching_eng.App.Terminal.Screen.{header_of, screen}

abbrev IsTyping : TicketControl → Type 0
IsTyping submit_clicked = ⊥
IsTyping _ = Unit

abbrev IsEdit : CancelControl → Type 0
IsEdit cancel_clicked = ⊥
IsEdit (id_typed s) = Unit

-- Navigation, and everything on the pages that neither submits nor cancels.
abbrev pub IsLocal : TerminalEvent → Type 0
IsLocal (arrived e) = ⊥
IsLocal (ignition_arrived e) = ⊥
IsLocal (ticket_acted c ready now) = IsTyping c
IsLocal (cancel_acted c ready now) = IsEdit c
IsLocal (row_cancelled o ready now) = ⊥
IsLocal _ = Unit

-- The hooks, the id source and the id shown are the same.
record IsKept (t u : Terminal) : Type 0 where
  app : u.app ≡ t.app
  ignition : u.ignition ≡ t.ignition
  preview : u.preview ≡ t.preview

same-IsKept : (t : Terminal) → IsKept t t
same-IsKept t = record { app = refl; ignition = refl; preview = refl }

guarded :
    (t : Terminal) (on_page : Bool) (next : Terminal)
    → IsKept t next
    → IsKept t (if on_page then next else t)
guarded t true next h = h
guarded t false next h = same-IsKept t

silent :
    (b : Bool) (st st' : TicketState)
    → (if◌then◌else◌ {A = TicketState × Option OrderIntent} b (st, none) (st', none)).1 ≡ none
silent true st st' = refl
silent false st st' = refl

-- No control but Submit emits an intent.
typed-none :
    (st : TicketState) (props : TicketProps) (c : TicketControl)
    → IsTyping c
    → (ticket_step st (acted props c)).1 ≡ none
unfolding ticket_step
typed-none st props (side_clicked s) h = silent _ st _
typed-none st props (tif_clicked t) h = silent _ st _
typed-none st props (ord_type_clicked t) h = silent _ st _
typed-none st props (chip_clicked chip) h = silent _ st _
typed-none st props nudge_down h = silent _ st _
typed-none st props nudge_up h = silent _ st _
typed-none st props (price_typed s) h = silent _ st _
typed-none st props (qty_typed s) h = silent _ st _
typed-none st props (display_typed s) h = silent _ st _
typed-none st props (preset_clicked n) h = silent _ st _
typed-none st props submit_clicked h = elim h [ ]

edited-none :
    (disabled : Bool) (st : CancelTicketState) (c : CancelControl)
    → IsEdit c
    → (cancel_ticket_step disabled st c).1 ≡ none
unfolding cancel_ticket_step
edited-none true st (id_typed s) h = refl
edited-none false st (id_typed s) h = refl
edited-none disabled st cancel_clicked h = elim h [ ]

navigate-IsKept : (t : Terminal) (page : Page) → IsKept t (navigate page t)
unfolding navigate
navigate-IsKept t page = elim (Bool-cases (same_page t.page page)) [
  | inl y ↦ rw y (same-IsKept t)
  | inr n ↦ rw n (record { app = refl; ignition = refl; preview = refl })
]

-- Another page, as it is mounted over the hooks of a terminal.
abbrev pub page_over : Terminal → Page → Terminal
page_over t page = record {
  app = t.app;
  ignition = t.ignition;
  preview = t.preview;
  page = page;
  inspector = closed_inspector;
  tape_ui = initial_tape_ui;
  depth = default_depth;
  ticket = empty_ticket;
  cancel_ticket = empty_cancel_ticket;
}

over-IsKept : (t u : Terminal) (page : Page) → IsKept t u → page_over u page ≡ page_over t page
over-IsKept t u page k = λ i. record {
  app = k.app i;
  ignition = k.ignition i;
  preview = k.preview i;
  page = page;
  inspector = closed_inspector;
  tape_ui = initial_tape_ui;
  depth = default_depth;
  ticket = empty_ticket;
  cancel_ticket = empty_cancel_ticket;
}

navigate_other :
    (t : Terminal) (page : Page)
    → same_page t.page page ≡ false
    → navigate page t ≡ page_over t page
unfolding navigate
navigate_other t page n = rw n refl

header_over :
    (local_ms : ℕ → ℕ) (t u : Terminal) → IsKept t u → header_of local_ms u ≡ header_of local_ms t
unfolding header_of
header_over local_ms t u k = ap (header_of local_ms) (over-IsKept t u no_page k)

preview-kept :
    (t u : Terminal)
    → IsKept t u
    → shown_preview t.preview t.app u.app t.ignition u.ignition ≡ t.preview
preview-kept t u k =
    (λ i. shown_preview t.preview t.app (k.app i) t.ignition (k.ignition i))
    ∙ shown_preview_same t.preview t.app t.ignition

module _ (json_parse : String → Option Value) where
  acted-IsKept :
      (t : Terminal) (e : TerminalEvent) → IsLocal e → IsKept t (terminal_acted json_parse t e)
  unfolding terminal_acted after_ticket after_cancel submit_emitted cancel_emitted
  acted-IsKept t (arrived e) h = elim h [ ]
  acted-IsKept t (ignition_arrived e) h = elim h [ ]
  acted-IsKept t (navigated page) h = navigate-IsKept t page
  acted-IsKept t (inspector_acted e) h =
      guarded t (is_trading t.page) _ (record { app = refl; ignition = refl; preview = refl })
  acted-IsKept t (tape_clicked c) h =
      guarded t (is_trading t.page) _ (record { app = refl; ignition = refl; preview = refl })
  acted-IsKept t (depth_selected n) h =
      guarded t (is_trading t.page) _ (record { app = refl; ignition = refl; preview = refl })
  acted-IsKept t (ticket_acted c ready now) h = guarded t (has_ticket t.page) _ (record {
    app =
        ap (λ o. submit_emitted t.app o ready now)
          (typed-none t.ticket (ticket_props (state_of t)) c h);
    ignition = refl;
    preview = refl;
  })
  acted-IsKept t (price_selected px) h =
      guarded t (is_trading t.page) _ (record { app = refl; ignition = refl; preview = refl })
  acted-IsKept t (cancel_acted c ready now) h =
      let disabled = not (is_connected (state_of t).connection) in
      guarded t (is_trading t.page) _ (record {
        app = ap (λ o. cancel_emitted t.app o ready now) (edited-none disabled t.cancel_ticket c h);
        ignition = refl;
        preview = refl;
      })
  acted-IsKept t (row_cancelled o ready now) h = elim h [ ]

  step-IsKept :
      (t : Terminal) (e : TerminalEvent) → IsLocal e → IsKept t (terminal_step json_parse t e)
  unfolding terminal_step
  step-IsKept t e h =
      let k = acted-IsKept t e h in
      record {
        app = k.app;
        ignition = k.ignition;
        preview = preview-kept t (terminal_acted json_parse t e) k;
      }

  run-IsKept :
      (t : Terminal) (es : List TerminalEvent)
      → All IsLocal es
      → IsKept t (terminal_run json_parse t es)
  unfolding terminal_run
  run-IsKept t [] h = same-IsKept t
  run-IsKept t (e ∷ rest) (d, h) =
      let here = step-IsKept t e d in
      let later = run-IsKept (terminal_step json_parse t e) rest h in
      record {
        app = later.app ∙ here.app;
        ignition = later.ignition ∙ here.ignition;
        preview = later.preview ∙ here.preview;
      }

  -- A navigation leaves the id that is shown.
  step-navigated :
      (t : Terminal) (page : Page) → terminal_step json_parse t (navigated page) ≡ navigate page t
  unfolding terminal_step terminal_acted
  step-navigated t page =
      let k = navigate-IsKept t page in
      let kept = preview-kept t (navigate page t) k ∙ sym k.preview in
      λ i. record (navigate page t) { preview = kept i }

  -- Any navigation, typing and clicking that neither submits nor cancels, at any time: the header shows
  -- what it showed, nothing is sent and no id is spent, and another page that is navigated to then
  -- shows the same session over empty tickets and fresh controls, whatever was typed before.
  pub terminal_run-screen :
      (local_ms : ℕ → ℕ) (json_text : ExecFrame → Text) (t : Terminal) (es : List TerminalEvent)
      (page : Page)
      → All IsLocal es
      → same_page (terminal_run json_parse t es).page page ≡ false
      → ((terminal_run json_parse t es).app ≡ t.app)
        × (header_of local_ms (terminal_run json_parse t es) ≡ header_of local_ms t)
        × (screen local_ms json_text
              (terminal_step json_parse (terminal_run json_parse t es) (navigated page))
            ≡ screen local_ms json_text (page_over t page))
  terminal_run-screen local_ms json_text t es page h other =
      let kept = run-IsKept t es h in
      let u = terminal_run json_parse t es in
      (
        kept.app,
        header_over local_ms t u kept,
        ap (screen local_ms json_text)
            (step-navigated u page ∙ navigate_other u page other ∙ over-IsKept t u page kept),
      )
