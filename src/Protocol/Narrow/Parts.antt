-- ===== src/Protocol/Narrow/Parts.antt =====
-- messages.ts: what each of the small readers accepts.
use text.Mathlib.TextEquality.{eq_iff}
use text.Mathlib.TextPositions.{eq_refl}
use mathlib.Core.Path.{ap₂}
use low_latency_matching_eng.Prelude.{
  subst, some-inj, ℤ, String, List, [], ◌∷◌, Option, none, some, true, ◌≡◌, ◌≢◌, refl, ap, arith,
}
use low_latency_matching_eng.Protocol.Value.{Value, number, string, array, Items, nil, item, whole}
use low_latency_matching_eng.Protocol.Frames.{
  ExecType, order_accepted, order_filled, order_partially_filled, order_cancelled, order_rejected,
  order_expired, Level,
}
use low_latency_matching_eng.Protocol.Narrow.{
  ◌>>=◌, int, str, level, level_items, levels, exec_type_named, exec_type_of, is_text,
}

-- A chain that ends well has passed its first step, with some value.
pub passed {ℓ κ μ} :
    {A : Type ℓ} {B : Type κ} {G : Type μ} (m : Option A) (k : A → Option B) {b : B}
    → (m >>= k) ≡ some b
    → ((a : A) → m ≡ some a → k a ≡ some b → G)
    → G
passed none k h next = cc
passed (some a) k h next = next a refl h

pub int_lem : (v : Value) (n : ℤ) → int v ≡ some n → v ≡ number (whole n)
unfolding int
int_lem (number (whole m)) n h = cc
int_lem _ n h = cc

pub str_lem : (v : Value) (s : String) → str v ≡ some s → (v ≡ string s) × (s ≢ "")
unfolding str
str_lem (string t) s h = ground (arith, eq_iff t "")
str_lem _ s h = cc

pub str_string : (s : String) → s ≢ "" → str (string s) ≡ some s
unfolding str
str_string s h = ground (arith, eq_iff s "")

pub is_text_lem : (literal : String) (v : Value) → is_text literal v ≡ true → v ≡ string literal
unfolding is_text
is_text_lem literal (string s) h = ap string ((eq_iff s literal).0 h)
is_text_lem literal _ h = cc

pub is_text_string : (literal : String) → is_text literal (string literal) ≡ true
unfolding is_text
is_text_string literal = eq_refl literal

-- The array that spells a list of levels.
abbrev pub value_of_level : Level → Value
value_of_level l = array (item (number (whole l.price)) (item (number (whole l.qty)) nil))

abbrev pub items_of : List Level → Items
items_of [] = nil
items_of (l ∷ ls) = item (value_of_level l) (items_of ls)

level_lem : (v : Value) (l : Level) → level v ≡ some l → v ≡ value_of_level l
unfolding level
level_lem (array (item p (item q nil))) l h =
    passed (int p) _ h
      λ price hp h'. passed (int q) _ h' λ qty hq h''. cc (int_lem p price hp, int_lem q qty hq)
level_lem _ l h = cc

level_items_lem : (raws : Items) (ls : List Level) → level_items raws ≡ some ls → raws ≡ items_of ls
unfolding level_items
level_items_lem nil [] h = refl
level_items_lem nil (l ∷ ls) h = cc
level_items_lem (item raw rest) ls h = passed (level raw) _ h λ first hf h'.
    passed (level_items rest) _ h' λ others ho h''.
      subst (λ k. item raw rest ≡ items_of k) (some-inj h'')
        (ap₂ item (level_lem raw first hf) (level_items_lem rest others ho))

pub levels_lem : (v : Value) (ls : List Level) → levels v ≡ some ls → v ≡ array (items_of ls)
unfolding levels
levels_lem (array raws) ls h = ap array (level_items_lem raws ls h)
levels_lem _ ls h = cc

level_items-items_of : (ls : List Level) → level_items (items_of ls) ≡ some ls
unfolding level_items level
level_items-items_of [] = refl
level_items-items_of (l ∷ ls) = rw (level_items-items_of ls) refl

pub levels-items_of : (ls : List Level) → levels (array (items_of ls)) ≡ some ls
unfolding levels
levels-items_of ls = level_items-items_of ls

abbrev pub exec_type_name : ExecType → String
exec_type_name order_accepted = "ORDER_ACCEPTED"
exec_type_name order_filled = "ORDER_FILLED"
exec_type_name order_partially_filled = "ORDER_PARTIALLY_FILLED"
exec_type_name order_cancelled = "ORDER_CANCELLED"
exec_type_name order_rejected = "ORDER_REJECTED"
exec_type_name order_expired = "ORDER_EXPIRED"

exec_type_named_lem :
    (s : String) (t : ExecType) → exec_type_named s ≡ some t → s ≡ exec_type_name t
exec_type_named_lem s t h = ground (
  arith,
  eq_iff s "ORDER_ACCEPTED",
  eq_iff s "ORDER_FILLED",
  eq_iff s "ORDER_PARTIALLY_FILLED",
  eq_iff s "ORDER_CANCELLED",
  eq_iff s "ORDER_REJECTED",
  eq_iff s "ORDER_EXPIRED",
)

pub exec_type_of_lem :
    (v : Value) (t : ExecType) → exec_type_of v ≡ some t → v ≡ string (exec_type_name t)
unfolding exec_type_of
exec_type_of_lem (string s) t h = ap string (exec_type_named_lem s t h)
exec_type_of_lem _ t h = cc

pub exec_type_of-name : (t : ExecType) → exec_type_of (string (exec_type_name t)) ≡ some t
unfolding exec_type_of
exec_type_of-name order_accepted = refl
exec_type_of-name _ = refl
