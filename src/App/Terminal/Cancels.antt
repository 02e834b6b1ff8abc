-- ===== src/App/Terminal/Cancels.antt =====
-- TradingPage.tsx with OpenOrders.tsx: a click on the Cancel button of a row.
use low_latency_matching_eng.Prelude.{
  ℕ, suc, ◌≤◌, ◌<◌, ℤ, pos, eqb_ℤ, eqb_ℤ_iff, eqb_ℤ_refl, List, [], ◌∷◌, ◌++◌, Option, some, Bool,
  true, false, Bool-cases, inl, inr, ◌⊎◌, any, ◌||◌, neg_part, pos_part, ◌+◌, dec_lt, dec_le,
  String, All, Any, ◌≡◌, refl, ap, sym, subst, ◌∙◌, true≢false, arith,
}
use low_latency_matching_eng.Protocol.Value.{Value}
use low_latency_matching_eng.Protocol.Frames.{
  NewOrderFrame, CancelOrderFrame, ClientFrame, new, cancel, OrderIntent,
}
use low_latency_matching_eng.Protocol.Encode.{
  Checked, ok, range_error, ◌>>=◌, max_safe, ClOrdIdGenerator, next_cl_ord_id, new_order_frame,
  cancel_order_frame,
}
use low_latency_matching_eng.Protocol.Encode.Ids.{next_lem}
use low_latency_matching_eng.Protocol.Encode.Builders.{
  IsPositiveSafe, new_order_frame_iff, cancel_order_frame_iff,
}
use low_latency_matching_eng.State.Orders.{MyOrder, has_id, is_cancellable}
use low_latency_matching_eng.State.Model.{sent, initial_state}
use low_latency_matching_eng.State.Socket.{Hook, on_send, mount, shown_state}
use low_latency_matching_eng.State.Socket.Rows.{has_row, step_ids, adds, on_send_ids}
use low_latency_matching_eng.State.Reducer.{reducer, run}
use low_latency_matching_eng.State.Reducer.Connection.{run-snoc}
use low_latency_matching_eng.App.{
  App, Outcome, returned, with_id, send_built, build_new, build_cancel, handle_submit,
  handle_cancel, PageEvent, delivered, submitted, cancelled, page_step, page_run,
}
use low_latency_matching_eng.App.Pending.{stamp}
use low_latency_matching_eng.App.Fresh.{mounted, cancel_numbered, ok-inj}
use low_latency_matching_eng.App.Terminal.{
  terminal_acted, is_trading, Terminal, new_terminal, TerminalEvent, row_cancelled, cancel_emitted,
  state_of, terminal_step, terminal_run,
}
use low_latency_matching_eng.App.Terminal.Pages.{
  IsSoundEvent, IsTerminalEvent, terminal_run-page_run,
}

-- The frames of a builder carry no id but positive safe integers.
BringsNot : ℤ → (ℤ → Checked ClientFrame) → Type 0
BringsNot k build = (id : ℤ) (f : ClientFrame) → build id ≡ ok f → adds k f ≡ false

new_brings :
    (i : OrderIntent) (id k : ℤ) (m : Checked NewOrderFrame) (f : ClientFrame)
    → new_order_frame id i ≡ m
    → (m >>= λ g. ok (new g)) ≡ ok f
    → ¬ IsPositiveSafe k
    → adds k f ≡ false
new_brings i id k (range_error label) f e h n = cc
new_brings i id k (ok g) f e h n =
    let (sendable, same) = (new_order_frame_iff id i g).0 e in
    let id_of = ap (λ (x : NewOrderFrame). x.cl_ord_id) same in
    subst (λ x. adds k x ≡ false) (ok-inj h)
      (other g.cl_ord_id (subst IsPositiveSafe (sym id_of) sendable.0))
  where
    other : (j : ℤ) → IsPositiveSafe j → eqb_ℤ j k ≡ false
    other j p = elim (Bool-cases (eqb_ℤ j k)) [
      | inl y ↦ absurd (n (subst IsPositiveSafe ((eqb_ℤ_iff j k).0 y) p))
      | inr apart ↦ apart
    ]

built_absent :
    (k : ℤ) (app : App) (m : Checked ClientFrame) (ready : Bool) (now : ℕ)
    → has_row k app.hook ≡ false
    → ((f : ClientFrame) → m ≡ ok f → adds k f ≡ false)
    → has_row k (send_built app m ready now).0.hook ≡ false
unfolding send_built
built_absent k app (range_error label) ready now h b = h
built_absent k app (ok f) ready now h b = on_send_ids app.hook f ready now k (b f refl) h

with_id_absent :
    (k : ℤ) (app : App) (drawn : Checked (ℤ × ClOrdIdGenerator)) (build : ℤ → Checked ClientFrame)
    (ready : Bool) (now : ℕ)
    → has_row k app.hook ≡ false
    → BringsNot k build
    → has_row k (with_id app drawn build ready now).0.hook ≡ false
unfolding with_id BringsNot
with_id_absent k app (range_error label) build ready now h b = h
with_id_absent k app (ok (id, gen)) build ready now h b =
    built_absent k (record app { gen = gen }) (build id) ready now h (b id)

module _ (json_parse : String → Option Value) (k : ℤ) (unsafe : ¬ IsPositiveSafe k) where
  step_absent :
      (app : App) (e : PageEvent)
      → IsSoundEvent e
      → has_row k app.hook ≡ false
      → has_row k (page_step json_parse app e).hook ≡ false
  unfolding page_step handle_submit handle_cancel BringsNot
  step_absent app (delivered e) d h = step_ids json_parse app.hook e k d ∙ h
  step_absent app (submitted i ready now) d h =
      with_id_absent k app (next_cl_ord_id app.gen) (build_new i) ready now h
        (λ id f e. new_brings i id k (new_order_frame id i) f refl e unsafe)
  step_absent app (cancelled orig ready now) d h =
      with_id_absent k app (next_cl_ord_id app.gen) (build_cancel orig) ready now h
        (λ id f e. cancel_numbered (cancel_order_frame id orig) k f e)

  -- No row of a page has another id.
  run_absent :
      (app : App) (events : List PageEvent)
      → All IsSoundEvent events
      → has_row k app.hook ≡ false
      → has_row k (page_run json_parse app events).hook ≡ false
  unfolding page_run
  run_absent app [] d h = h
  run_absent app (e ∷ rest) (s, d) h =
      run_absent (page_step json_parse app e) rest d (step_absent app e s h)

has_row_of :
    (o : MyOrder) (rows : List MyOrder)
    → Any (λ r. r ≡ o) rows
    → any (has_id o.cl_ord_id) rows ≡ true
has_row_of o [] h = elim h [ ]
has_row_of o (r ∷ rest) (inl e) =
    subst (λ x. has_id o.cl_ord_id x || any (has_id o.cl_ord_id) rest ≡ true) (sym e)
      (ground (arith, eqb_ℤ_refl o.cl_ord_id))
has_row_of o (r ∷ rest) (inr h) = either (has_id o.cl_ord_id r) _ (has_row_of o rest h)
  where
    either : (a b : Bool) → b ≡ true → a || b ≡ true
    either a b h = ground arith

safe_or_not : (k : ℤ) → IsPositiveSafe k ⊎ (¬ IsPositiveSafe k)
safe_or_not k = elim (dec_lt (neg_part k) (pos_part k)) [
  | no n ↦ inr (λ (a, b). n (omega (arith, a)))
  | yes y ↦ elim (dec_le (pos_part k) (max_safe + neg_part k)) [
    | no n ↦ inr (λ (a, b). n (omega (arith, b)))
    | yes z ↦ inl (omega arith, omega arith)
  ]
]

-- The app after a cancel request for `orig` that was written to the socket.
pub record IsCancelSent (before : App) (orig : ℤ) (n now : ℕ) (result : App × Outcome)
    : Type 0 where
  pub answered : result.1 ≡ returned true
  pub dispatched :
      result.0.hook.dispatched
      ≡ before.hook.dispatched
        ++ sent (cancel (record { cl_ord_id = pos n; orig_cl_ord_id = orig })) (some (stamp now))
          ∷ []
  pub rows_kept : (shown_state result.0.hook).my_orders ≡ (shown_state before.hook).my_orders
  pub id_spent : result.0.gen.next ≡ pos (suc n)

-- A cancel request that is written to a live socket.
send_cancel :
    (h : Hook) (ws : ℕ) (f : CancelOrderFrame) (now : ℕ)
    → h.socket_ref ≡ some ws
    → ((on_send h (cancel f) true now).1 ≡ true)
      × ((on_send h (cancel f) true now).0.dispatched
          ≡ h.dispatched ++ sent (cancel f) (some (stamp now)) ∷ [])
      × ((shown_state (on_send h (cancel f) true now).0).my_orders ≡ (shown_state h).my_orders)
unfolding on_send shown_state reducer
send_cancel h ws f now live = rw live (
  refl,
  refl,
  ap (λ s. s.my_orders) (run-snoc initial_state h.dispatched (sent (cancel f) (some (stamp now)))),
)

-- What a request for a positive safe id becomes.
handle_cancel_built :
    (app : App) (orig : ℤ) (n now : ℕ)
    → IsPositiveSafe orig
    → app.gen.next ≡ pos n
    → 0 < n
    → n ≤ max_safe
    → handle_cancel app orig true now
      ≡ send_built
          (record app { gen = record { next = pos (suc n) } })
          (ok (cancel (record { cl_ord_id = pos n; orig_cl_ord_id = orig })))
          true
          now
unfolding handle_cancel with_id
handle_cancel_built app orig n now safe at p le =
    ap (λ drawn. with_id app drawn (build_cancel orig) true now)
      (ap (λ k. next_cl_ord_id (record { next = k })) at ∙ next_lem n le)
    ∙ ap
        (λ built.
          send_built (record app { gen = record { next = pos (suc n) } })
            (built >>= λ f. ok (cancel f)) true now)
        ((cancel_order_frame_iff (pos n) orig
            (record { cl_ord_id = pos n; orig_cl_ord_id = orig })).1
          ((omega arith, omega arith), safe, refl))

sent_cancel :
    (app : App) (orig : ℤ) (n ws now : ℕ)
    → IsPositiveSafe orig
    → app.gen.next ≡ pos n
    → 0 < n
    → n ≤ max_safe
    → app.hook.socket_ref ≡ some ws
    → IsCancelSent app orig n now (handle_cancel app orig true now)
unfolding send_built
sent_cancel app orig n ws now safe at p le live =
    let f : CancelOrderFrame = record { cl_ord_id = pos n; orig_cl_ord_id = orig } in
    let (answer, log, rows) = send_cancel app.hook ws f now live in
    subst (IsCancelSent app orig n now) (sym (handle_cancel_built app orig n now safe at p le))
      (record {
        answered = ap returned answer;
        dispatched = log;
        rows_kept = rows;
        id_spent = refl;
      })

module _ (json_parse : String → Option Value) where
  row-IsPositiveSafe :
      (seed : ℕ) (pes : List PageEvent) (o : MyOrder)
      → All IsSoundEvent pes
      → Any (λ r. r ≡ o) (shown_state (page_run json_parse (mounted seed) pes).hook).my_orders
      → IsPositiveSafe o.cl_ord_id
  unfolding mount shown_state run reducer
  row-IsPositiveSafe seed pes o h inside = elim (safe_or_not o.cl_ord_id) [
    | inl y ↦ y
    | inr n ↦
        let absent = run_absent json_parse o.cl_ord_id n (mounted seed) pes h refl in
        absurd (
          true≢false (
            sym (
              has_row_of o (shown_state (page_run json_parse (mounted seed) pes).hook).my_orders
                inside)
            ∙ absent))
  ]

  step_app :
      (t : Terminal) (o : MyOrder) (ready : Bool) (now : ℕ)
      → is_trading t.page ≡ true
      → is_cancellable o.status ≡ true
      → (terminal_step json_parse t (row_cancelled o ready now)).app
        ≡ (handle_cancel t.app o.cl_ord_id ready now).0
  unfolding terminal_step terminal_acted cancel_emitted
  step_app t o ready now on_page live_row = rw on_page (rw live_row refl)

  -- The Cancel button of a row that the blotter shows, after anything that a terminal can go through,
  -- while the hook holds an open socket and the next id is a positive safe integer: the request for the
  -- row's own id is written under that id, without a throw, the rows stay as they are, and the id is
  -- spent.
  pub row_cancel-IsCancelSent :
      (seed : ℕ) (es : List TerminalEvent) (t : Terminal) (o : MyOrder) (n ws now : ℕ)
      → All IsTerminalEvent es
      → t ≡ terminal_run json_parse (new_terminal seed) es
      → is_trading t.page ≡ true
      → Any (λ r. r ≡ o) (state_of t).my_orders
      → is_cancellable o.status ≡ true
      → t.app.gen.next ≡ pos n
      → 0 < n
      → n ≤ max_safe
      → t.app.hook.socket_ref ≡ some ws
      → IsCancelSent t.app o.cl_ord_id n now (handle_cancel t.app o.cl_ord_id true now)
        × ((terminal_step json_parse t (row_cancelled o true now)).app
            ≡ (handle_cancel t.app o.cl_ord_id true now).0)
  row_cancel-IsCancelSent seed es t o n ws now h run_of on_page inside live_row at p le live =
      let (pes, sound, page) = terminal_run-page_run json_parse seed es h in
      let page_of = ap (λ k. k.app) run_of ∙ page in
      let safe =
        row-IsPositiveSafe seed pes o sound
          (subst (λ a. Any (λ r. r ≡ o) (shown_state a.hook).my_orders) page_of inside) in
      (
        sent_cancel t.app o.cl_ord_id n ws now safe at p le live,
        step_app t o true now on_page live_row,
      )
