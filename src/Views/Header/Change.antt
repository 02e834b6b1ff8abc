-- ===== src/Views/Header/Change.antt =====
-- Header.tsx: the header of a whole session, from its fills.
use low_latency_matching_eng.Prelude.{
  ℕ, ◌-◌, ◌<◌, ℤ, pos, negsuc, ◌-ℤ◌, leb_ℤ, ◌||◌, All, List, [], ◌∷◌, ◌++◌, map, take, rev_onto,
  false, codes, ◌≡◌, refl, ap, sym, subst, subst₂, ◌∙◌, arith,
}
use low_latency_matching_eng.Protocol.Value.{whole}
use low_latency_matching_eng.Format.{format_price, format_qty}
use low_latency_matching_eng.State.Model.{TapeEntry, AppState, Action, initial_state, tape_cap}
use low_latency_matching_eng.State.Reducer.{run}
use low_latency_matching_eng.State.Reducer.Session.{
  last_price, IsPriced, PricesOf, CountsOf, volume_of, session_of, session_prices, session_counts,
}
use low_latency_matching_eng.Protocol.Frames.{ExecFrame}
use low_latency_matching_eng.State.Reducer.History.{
  Trade, trade_of, trade_of_frame, fills, tape_lem,
}
use low_latency_matching_eng.Views.Header.{
  up, down, flat, HeaderModel, HeaderInput, ChangeParts, change_label, change_parts, direction_of,
  last_px_of, sign_of, magnitude, derive_header,
}

-- What the page hands to the header.
abbrev pub input_of : AppState → HeaderInput
input_of s = record {
  book = s.book;
  tape = s.tape;
  orders = s.my_orders;
  session_volume = s.session_volume;
  session_open_px = s.session_open_px;
  last_frame_nanos = s.last_frame_nanos;
}

-- The direction of a change, and the texts that go with it.
abbrev pub IsChange : ℕ → ℕ → ChangeParts → Type 0
IsChange open_px last_px c =
    (open_px < last_px
      → (c.dir ≡ up) × (c.abs ≡ codes "+" ++ format_price (whole (pos (last_px - open_px)))))
    × (last_px < open_px
        → (c.dir ≡ down) × (c.abs ≡ codes "-" ++ format_price (whole (pos (open_px - last_px)))))
    × (last_px ≡ open_px → (c.dir ≡ flat) × (c.abs ≡ format_price (whole (pos 0))))

above : (o l : ℕ) → o < l → pos l -ℤ pos o ≡ pos (l - o)
unfolding ◌-ℤ◌
above o l h = ground arith

below : (o l : ℕ) → l < o → pos l -ℤ pos o ≡ negsuc (o - l - 1)
unfolding ◌-ℤ◌
below o l h = ground arith

equal : (o l : ℕ) → l ≡ o → pos l -ℤ pos o ≡ pos 0
unfolding ◌-ℤ◌
equal o l h = ground arith

known : (o l : ℕ) → 0 < o → 0 < l → (leb_ℤ (pos l) (pos 0) || leb_ℤ (pos o) (pos 0)) ≡ false
known o l p q = ground arith

traded : (o l : ℕ) → 0 < o → 0 < l → change_label (pos l) (pos o) ≡ change_parts (pos l -ℤ pos o) o
unfolding change_label
traded o l p q = rw (known o l p q) refl

upwards : (n : ℕ) → 0 < n → direction_of (pos n) ≡ up
upwards n h = ground arith

same_price : {m n : ℕ} → m ≡ n → format_price (whole (pos m)) ≡ format_price (whole (pos n))
same_price h = ap (λ k. format_price (whole (pos k))) h

rise :
    (o n : ℕ)
    → 0 < n
    → ((change_parts (pos n) o).dir ≡ up)
      × ((change_parts (pos n) o).abs ≡ codes "+" ++ format_price (whole (pos n)))
rise o n h = (
  upwards n h,
  ap (λ d. sign_of d ++ format_price (whole (pos (magnitude (pos n))))) (upwards n h)
      ∙ ap (λ t. codes "+" ++ t) (same_price (omega arith)),
)

change_parts-IsChange : (o l : ℕ) → IsChange o l (change_parts (pos l -ℤ pos o) o)
change_parts-IsChange o l = (
  λ h. rw (above o l h) (rise o (l - o) (omega (arith, h))),
  λ h. rw (below o l h) (refl, ap (λ t. codes "-" ++ t) (same_price (omega (arith, h)))),
  λ h. rw (equal o l h) (refl, refl),
)

price_of_newest : (ts : List Trade) → ℤ
price_of_newest [] = negsuc 0
price_of_newest (t ∷ rest) = t.price_px

last-tape : (tape : List TapeEntry) → last_px_of tape ≡ price_of_newest (map trade_of tape)
unfolding price_of_newest
last-tape [] = refl
last-tape (e ∷ rest) = refl

last-take : (ts : List Trade) → price_of_newest (take tape_cap ts) ≡ price_of_newest ts
unfolding price_of_newest
last-take [] = refl
last-take (t ∷ rest) = refl

map-rev_onto :
    {A B : Type 0} (g : A → B) (xs ys : List A)
    → map g (rev_onto xs ys) ≡ rev_onto (map g xs) (map g ys)
map-rev_onto g [] ys = refl
map-rev_onto g (x ∷ xs) ys = map-rev_onto g xs (x ∷ ys)

last_px-run :
    (acts : List Action) (f : ExecFrame) (rest : List ExecFrame)
    → rev_onto (fills acts) [] ≡ f ∷ rest
    → last_px_of (run initial_state acts).tape ≡ f.price
unfolding price_of_newest
last_px-run acts f rest h =
    last-tape (run initial_state acts).tape
    ∙ ap price_of_newest (tape_lem acts)
    ∙ last-take (rev_onto (map trade_of_frame (fills acts)) [])
    ∙ ap price_of_newest
        (sym (map-rev_onto trade_of_frame (fills acts) []) ∙ ap (map trade_of_frame) h)

open_px-run :
    (acts : List Action) (f : ExecFrame) (rest : List ExecFrame)
    → All IsPriced (fills acts)
    → rev_onto (fills acts) [] ≡ f ∷ rest
    → (run initial_state acts).session_open_px ≡ last_price f rest
open_px-run acts f rest p h =
    (subst (PricesOf (session_of (run initial_state acts))) h (session_prices acts p)).0

-- The change that the header shows.
abbrev pub change_of : HeaderModel → ChangeParts
change_of m = record { abs = m.change_abs; pct = m.change_pct; dir = m.change_dir }

-- After any session whose fills have positive prices, from the first one at `o` to the newest one at
-- `l`: the header shows `l` as the last price, and the change from `o` to `l` with its sign and its
-- direction, even where the first fill has long left the tape; and the volume is that of all fills.
pub header_session :
    (local_ms : ℕ → ℕ) (acts : List Action) (f : ExecFrame) (rest : List ExecFrame) (o l : ℕ)
    → All IsPriced (fills acts)
    → rev_onto (fills acts) [] ≡ f ∷ rest
    → f.price ≡ pos l
    → last_price f rest ≡ pos o
    → 0 < o
    → 0 < l
    → ((derive_header local_ms (input_of (run initial_state acts))).last
        ≡ format_price (whole (pos l)))
      × IsChange o l (change_of (derive_header local_ms (input_of (run initial_state acts))))
      × ((derive_header local_ms (input_of (run initial_state acts))).volume
          ≡ format_qty (volume_of (f ∷ rest)))
unfolding derive_header
header_session local_ms acts f rest o l priced h e_last e_open p q =
    let at_last = last_px-run acts f rest h ∙ e_last in
    let at_open = open_px-run acts f rest priced h ∙ e_open in
    let at_volume =
      (subst (CountsOf (session_of (run initial_state acts))) h (session_counts acts)).0 in
    (
      ap (λ px. format_price (whole px)) at_last,
      subst₂ (λ a b. IsChange o l (change_label a b)) (sym at_last) (sym at_open)
          (subst (IsChange o l) (sym (traded o l p q)) (change_parts-IsChange o l)),
      ap format_qty at_volume,
    )
