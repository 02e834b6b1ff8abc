-- ===== src/Protocol/Narrow/Conforms.antt =====
-- messages.ts, `parseServerFrame`: the contract between JSON values and frames.
use low_latency_matching_eng.Prelude.{
  ℤ, String, Option, some, ◌≡◌, ◌≢◌, ◌↔◌, refl, ap, some-inj, none≢some, subst, ◌∙◌, Bool-cases,
  inl, inr,
}
use low_latency_matching_eng.Protocol.Value.{
  Value, number, string, array, object, Members, end, member, get, whole,
}
use low_latency_matching_eng.Protocol.Frames.{
  BookFrame, ExecFrame, FixFrame, ServerFrame, book, exec, fix,
}
use low_latency_matching_eng.Protocol.Narrow.{
  int, str, levels, exec_type_of, is_text, narrow_book, narrow_exec, narrow_fix, narrow,
  parse_server_frame,
}
use low_latency_matching_eng.Protocol.Narrow.Parts.{
  passed, int_lem, str_lem, str_string, is_text_lem, items_of, levels_lem, levels-items_of,
  exec_type_name, exec_type_of_lem, exec_type_of-name,
}

-- The member holds the integer.
abbrev pub HasInt : Members → String → ℤ → Type 0
HasInt ms key n = get key ms ≡ number (whole n)

pub record BookMembers (ms : Members) (f : BookFrame) : Type 0 where
  pub type_is : get "type" ms ≡ string "BOOK"
  pub best_bid_is : HasInt ms "bestBid" f.best_bid
  pub best_ask_is : HasInt ms "bestAsk" f.best_ask
  pub timestamp_is : HasInt ms "timestamp" f.timestamp
  pub bids_are : get "bids" ms ≡ array (items_of f.bids)
  pub asks_are : get "asks" ms ≡ array (items_of f.asks)

pub record ExecMembers (ms : Members) (f : ExecFrame) : Type 0 where
  pub type_is : get "type" ms ≡ string "EXEC"
  pub exec_type_is : get "execType" ms ≡ string (exec_type_name f.exec_type)
  pub order_id_is : HasInt ms "orderId" f.order_id
  pub trade_id_is : HasInt ms "tradeId" f.trade_id
  pub price_is : HasInt ms "price" f.price
  pub filled_is : HasInt ms "filledQuantity" f.filled_quantity
  pub remaining_is : HasInt ms "remainingQuantity" f.remaining_quantity
  pub aggressor_is : HasInt ms "aggressorOrderId" f.aggressor_order_id
  pub passive_is : HasInt ms "passiveOrderId" f.passive_order_id
  pub timestamp_is : HasInt ms "timestamp" f.timestamp

pub record FixMembers (ms : Members) (f : FixFrame) : Type 0 where
  pub type_is : get "type" ms ≡ string "FIX"
  pub direction_is : get "direction" ms ≡ string "INBOUND"
  pub raw_is : get "raw" ms ≡ string f.raw
  pub raw_some : f.raw ≢ ""
  pub seq_num_is : HasInt ms "seqNum" f.seq_num
  pub timestamp_is : HasInt ms "timestamp" f.timestamp

-- The contract: an object whose named members hold the frame. Other members are free.
abbrev pub ConformsTo : Members → ServerFrame → Type 0
ConformsTo ms (book f) = BookMembers ms f
ConformsTo ms (exec f) = ExecMembers ms f
ConformsTo ms (fix f) = FixMembers ms f

narrow_book_lem :
    (ms : Members) (g : ServerFrame)
    → get "type" ms ≡ string "BOOK"
    → narrow_book ms ≡ some g
    → ConformsTo ms g
unfolding narrow_book
narrow_book_lem ms g t h = passed (int (get "bestBid" ms)) _ h λ bid h1 h.
    passed (int (get "bestAsk" ms)) _ h λ ask h2 h.
      passed (int (get "timestamp" ms)) _ h λ time h3 h.
        passed (levels (get "bids" ms)) _ h λ bids h4 h.
          passed (levels (get "asks" ms)) _ h λ asks h5 h.
            subst (ConformsTo ms) (some-inj h) (record {
              type_is = t;
              best_bid_is = int_lem _ bid h1;
              best_ask_is = int_lem _ ask h2;
              timestamp_is = int_lem _ time h3;
              bids_are = levels_lem _ bids h4;
              asks_are = levels_lem _ asks h5;
            })

narrow_exec_lem :
    (ms : Members) (g : ServerFrame)
    → get "type" ms ≡ string "EXEC"
    → narrow_exec ms ≡ some g
    → ConformsTo ms g
unfolding narrow_exec
narrow_exec_lem ms g t h = passed (exec_type_of (get "execType" ms)) _ h λ e h1 h.
    passed (int (get "orderId" ms)) _ h λ o h2 h. passed (int (get "tradeId" ms)) _ h λ tr h3 h.
      passed (int (get "price" ms)) _ h λ p h4 h.
        passed (int (get "filledQuantity" ms)) _ h λ fq h5 h.
          passed (int (get "remainingQuantity" ms)) _ h λ rq h6 h.
            passed (int (get "aggressorOrderId" ms)) _ h λ ag h7 h.
              passed (int (get "passiveOrderId" ms)) _ h λ pa h8 h.
                passed (int (get "timestamp" ms)) _ h λ ts h9 h.
                  subst (ConformsTo ms) (some-inj h) (record {
                    type_is = t;
                    exec_type_is = exec_type_of_lem _ e h1;
                    order_id_is = int_lem _ o h2;
                    trade_id_is = int_lem _ tr h3;
                    price_is = int_lem _ p h4;
                    filled_is = int_lem _ fq h5;
                    remaining_is = int_lem _ rq h6;
                    aggressor_is = int_lem _ ag h7;
                    passive_is = int_lem _ pa h8;
                    timestamp_is = int_lem _ ts h9;
                  })

narrow_fix_lem :
    (ms : Members) (g : ServerFrame)
    → get "type" ms ≡ string "FIX"
    → narrow_fix ms ≡ some g
    → ConformsTo ms g
unfolding narrow_fix
narrow_fix_lem ms g t h = elim (Bool-cases (is_text "INBOUND" (get "direction" ms))) [
  | inl e ↦ passed (str (get "raw" ms)) _ (rw e at h) λ raw h1 h.
      passed (int (get "seqNum" ms)) _ h λ seq h2 h.
        passed (int (get "timestamp" ms)) _ h λ time h3 h.
          subst (ConformsTo ms) (some-inj h) (record {
            type_is = t;
            direction_is = is_text_lem "INBOUND" _ e;
            raw_is = (str_lem _ raw h1).0;
            raw_some = (str_lem _ raw h1).1;
            seq_num_is = int_lem _ seq h2;
            timestamp_is = int_lem _ time h3;
          })
  | inr e ↦ absurd (none≢some (rw e at h))
]

narrow_sound : (ms : Members) (g : ServerFrame) → narrow (object ms) ≡ some g → ConformsTo ms g
unfolding narrow
narrow_sound ms g h = elim (Bool-cases (is_text "BOOK" (get "type" ms))) [
  | inl e ↦ narrow_book_lem ms g (is_text_lem "BOOK" _ e) (rw e at h)
  | inr e1 ↦ elim (Bool-cases (is_text "EXEC" (get "type" ms))) [
    | inl e ↦ narrow_exec_lem ms g (is_text_lem "EXEC" _ e) (rw (e1, e) at h)
    | inr e2 ↦ elim (Bool-cases (is_text "FIX" (get "type" ms))) [
      | inl e ↦ narrow_fix_lem ms g (is_text_lem "FIX" _ e) (rw (e1, e2, e) at h)
      | inr e3 ↦ absurd (none≢some (rw (e1, e2, e3) at h))
    ]
  ]
]

narrow_complete : (ms : Members) (g : ServerFrame) → ConformsTo ms g → narrow (object ms) ≡ some g
unfolding narrow int
narrow_complete ms (book f) c =
    rw
      (
        c.type_is, c.best_bid_is, c.best_ask_is, c.timestamp_is, c.bids_are, c.asks_are,
        levels-items_of, levels-items_of,
      )
      refl
narrow_complete ms (exec f) c =
    rw
      (
        c.type_is, c.exec_type_is, exec_type_of-name, c.order_id_is, c.trade_id_is, c.price_is,
        c.filled_is, c.remaining_is, c.aggressor_is, c.passive_is, c.timestamp_is,
      )
      refl
narrow_complete ms (fix f) c =
    rw
      (
        c.type_is,
        c.direction_is,
        c.raw_is,
        str_string f.raw c.raw_some,
        c.seq_num_is,
        c.timestamp_is,
      )
      refl

-- What the server sends for a frame: the members that it writes, in its order.
abbrev int_member : String → ℤ → Members → Members
int_member key n ms = member key (number (whole n)) ms

abbrev pub published : ServerFrame → Members
published (book f) = member "type" (string "BOOK") (
    int_member "bestBid" f.best_bid (
      int_member "bestAsk" f.best_ask (
        member "bids" (array (items_of f.bids))
          (member "asks" (array (items_of f.asks)) (int_member "timestamp" f.timestamp end)))))
published (exec f) = member "type" (string "EXEC") (
    member "execType" (string (exec_type_name f.exec_type)) (
      int_member "orderId" f.order_id (
        int_member "tradeId" f.trade_id (
          int_member "price" f.price (
            int_member "filledQuantity" f.filled_quantity (
              int_member "remainingQuantity" f.remaining_quantity (
                int_member "aggressorOrderId" f.aggressor_order_id (
                  int_member "passiveOrderId" f.passive_order_id
                    (int_member "timestamp" f.timestamp end)))))))))
published (fix f) = member "type" (string "FIX") (
    member "direction" (string "INBOUND") (
      member "raw" (string f.raw)
        (int_member "seqNum" f.seq_num (int_member "timestamp" f.timestamp end))))

-- A frame is well formed: a FIX echo has a packet.
abbrev pub HasPacket : ServerFrame → Type 0
HasPacket (fix f) = f.raw ≢ ""
HasPacket _ = Unit

published-ConformsTo : (g : ServerFrame) → HasPacket g → ConformsTo (published g) g
unfolding get
published-ConformsTo (book f) h = record {
  type_is = refl;
  best_bid_is = refl;
  best_ask_is = refl;
  timestamp_is = refl;
  bids_are = refl;
  asks_are = refl;
}
published-ConformsTo (exec f) h = record {
  type_is = refl;
  exec_type_is = refl;
  order_id_is = refl;
  trade_id_is = refl;
  price_is = refl;
  filled_is = refl;
  remaining_is = refl;
  aggressor_is = refl;
  passive_is = refl;
  timestamp_is = refl;
}
published-ConformsTo (fix f) h = record {
  type_is = refl;
  direction_is = refl;
  raw_is = refl;
  raw_some = h;
  seq_num_is = refl;
  timestamp_is = refl;
}

-- The value of an accepted frame is an object.
narrow_object : (v : Value) (g : ServerFrame) → narrow v ≡ some g → (ms : Members) × (v ≡ object ms)
unfolding narrow
narrow_object (object ms) g h = (ms, refl)
narrow_object _ g h = cc

-- For every JSON parser and every text: the text is accepted as a frame exactly if it parses to an
-- object whose members conform to that frame. So nothing else is accepted, no other frame comes
-- out, and members that the frame does not name play no part.
pub parse_server_frame_iff :
    (json_parse : String → Option Value) (raw : String) (g : ServerFrame)
    → (parse_server_frame json_parse raw ≡ some g)
      ↔ ((ms : Members) × (json_parse raw ≡ some (object ms)) × ConformsTo ms g)
unfolding parse_server_frame
parse_server_frame_iff json_parse raw g = (
  λ h. passed (json_parse raw) narrow h λ v parsed narrowed.
      let (ms, is_object) = narrow_object v g narrowed in
      (
        ms,
        parsed ∙ ap some is_object,
        narrow_sound ms g (subst (λ w. narrow w ≡ some g) is_object narrowed),
      ),
  λ c. rw (c.1) (narrow_complete c.0 g c.2),
)

-- Every frame is read back from the object that the server publishes for it, if the parser yields
-- that object and, for a FIX echo, if its packet is not empty.
parse-published :
    (json_parse : String → Option Value) (raw : String) (g : ServerFrame)
    → json_parse raw ≡ some (object (published g))
    → HasPacket g
    → parse_server_frame json_parse raw ≡ some g
parse-published json_parse raw g parsed h =
    (parse_server_frame_iff json_parse raw g).1 (published g, parsed, published-ConformsTo g h)
