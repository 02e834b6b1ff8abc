-- ===== src/Protocol/Fix.antt =====
-- app/frontend/src/protocol/fix.ts: a raw SOH-delimited packet as rows of tag, name and value.
-- A text is the list of its characters.
pub mod RoundTrip
use low_latency_matching_eng.Prelude.{
  ℕ, ◌==◌, List, [], ◌∷◌, map, Option, none, some, Bool, true, false, String, Text, codes, find?,
  if◌then◌else◌, text_eq, any,
}

-- `FIX_TAG_NAMES[tag]`: a name of the table, a member that every object inherits, or `undefined`.
pub data TagName : Type 0 where
  named : Text → TagName
  inherited unnamed : TagName

abbrev tag_table : List (Text × Text)
tag_table =
    (codes "8", codes "BeginString")
    ∷ (codes "9", codes "BodyLength")
    ∷ (codes "10", codes "CheckSum")
    ∷ (codes "11", codes "ClOrdID")
    ∷ (codes "18", codes "ExecInst")
    ∷ (codes "35", codes "MsgType")
    ∷ (codes "38", codes "OrderQty")
    ∷ (codes "40", codes "OrdType")
    ∷ (codes "41", codes "OrigClOrdID")
    ∷ (codes "44", codes "Price")
    ∷ (codes "54", codes "Side")
    ∷ (codes "55", codes "Symbol")
    ∷ (codes "59", codes "TimeInForce")
    ∷ (codes "111", codes "MaxFloor")
    ∷ []

-- The members of `Object.prototype`, which the table's literal inherits.
abbrev pub inherited_members : List Text
inherited_members =
    codes "constructor"
    ∷ codes "hasOwnProperty"
    ∷ codes "isPrototypeOf"
    ∷ codes "propertyIsEnumerable"
    ∷ codes "toLocaleString"
    ∷ codes "toString"
    ∷ codes "valueOf"
    ∷ codes "__defineGetter__"
    ∷ codes "__defineSetter__"
    ∷ codes "__lookupGetter__"
    ∷ codes "__lookupSetter__"
    ∷ codes "__proto__"
    ∷ []

lookup_name : Text → List (Text × Text) → Option Text
lookup_name tag [] = none
lookup_name tag ((t, name) ∷ rest) = if text_eq t tag then some name else lookup_name tag rest

abbrev named_as : Text → Option Text → TagName
named_as tag (some name) = named name
named_as tag none = if any (text_eq tag) inherited_members then inherited else unnamed

unfoldable pub tag_name : Text → TagName
unfolding lookup_name
tag_name tag = named_as tag (lookup_name tag tag_table)

pub record FixTagRow : Type 0 where
  pub tag : Text
  pub name : TagName
  pub value : Text

abbrev pub soh : ℕ
soh = 1

abbrev pub push_front : ℕ → List Text → List Text
push_front c [] = (c ∷ []) ∷ []
push_front c (p ∷ ps) = (c ∷ p) ∷ ps

-- `raw.split(sep)`
unfoldable pub split : ℕ → Text → List Text
split sep [] = [] ∷ []
split sep (c ∷ s) = let rest = split sep s in if c == sep then [] ∷ rest else push_front c rest

-- `field.length > 0`, as the `filter` keeps it
unfoldable pub non_empty : List Text → List Text
non_empty [] = []
non_empty ([] ∷ ps) = non_empty ps
non_empty ((c ∷ p) ∷ ps) = (c ∷ p) ∷ non_empty ps

-- The text before the first "=" and the text behind it; `none` where `indexOf` gives -1.
unfoldable pub cut_at_eq : Text → Option (Text × Text)
cut_at_eq [] = none
cut_at_eq (c ∷ s) =
    if c == b'='
    then some ([], s)
    else elim (cut_at_eq s) [ none ↦ none | some (tag, value) ↦ some (c ∷ tag, value) ]

tag_row : Text → FixTagRow
tag_row field = elim (cut_at_eq field) [
  | none ↦ record { tag = field; name = unnamed; value = [] }
  | some (tag, value) ↦ record { tag = tag; name = tag_name tag; value = value }
]

unfoldable pub parse_fix_tags : Text → List FixTagRow
unfolding tag_row
parse_fix_tags raw = map tag_row (non_empty (split soh raw))

-- The `?.value` of the row found.
abbrev pub row_value : Option FixTagRow → Option Text
row_value none = none
row_value (some row) = some row.value

unfoldable pub fix_msg_type : Text → Option Text
fix_msg_type raw = row_value (find? (λ row. text_eq row.tag (codes "35")) (parse_fix_tags raw))
