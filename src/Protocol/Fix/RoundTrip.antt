-- ===== src/Protocol/Fix/RoundTrip.antt =====
-- fix.ts: packets of fields, and their rows.
use mathlib.Core.Path.{ap₂}
use low_latency_matching_eng.Prelude.{
  ℕ, List, [], ◌∷◌, ◌++◌, map, Option, none, some, true, false, Text, codes, text_eq, ◌≡◌, ◌≢◌,
  refl, ap, ◌∙◌, All, find?, arith,
}
use low_latency_matching_eng.Protocol.Fix.{
  FixTagRow, soh, tag_name, split, non_empty, cut_at_eq, tag_row, parse_fix_tags, row_value,
  fix_msg_type,
}

-- A field of a packet.
pub record Field : Type 0 where
  pub tag : Text
  pub value : Text

abbrev pub Lacks : ℕ → Text → Type 0
Lacks c = All (λ d. d ≢ c)

-- The tag holds neither separator, and the value no SOH.
pub record IsWellFormed (f : Field) : Type 0 where
  pub tag_no_eq : Lacks b'=' f.tag
  pub tag_no_soh : Lacks soh f.tag
  pub value_no_soh : Lacks soh f.value

abbrev pub field_text : Field → Text
field_text f = f.tag ++ b'=' ∷ f.value

-- The wire form: each field ends with SOH.
abbrev pub packet : List Field → Text
packet [] = []
packet (f ∷ fs) = field_text f ++ soh ∷ packet fs

abbrev pub row_of : Field → FixTagRow
row_of f = record { tag = f.tag; name = tag_name f.tag; value = f.value }

cut_at_eq-field :
    (tag value : Text) → Lacks b'=' tag → cut_at_eq (tag ++ b'=' ∷ value) ≡ some (tag, value)
unfolding cut_at_eq
cut_at_eq-field [] value h = refl
cut_at_eq-field (c ∷ tag) value (p, h) = ground (arith, cut_at_eq-field tag value h)

split-append : (p rest : Text) → Lacks soh p → split soh (p ++ soh ∷ rest) ≡ p ∷ split soh rest
unfolding split
split-append [] rest h = refl
split-append (c ∷ p) rest (q, h) = ground (arith, split-append p rest h)

Lacks-append : (c : ℕ) (s t : Text) → Lacks c s → Lacks c t → Lacks c (s ++ t)
Lacks-append c [] t h k = k
Lacks-append c (d ∷ s) t (p, h) k = (p, Lacks-append c s t h k)

field_no_soh : (f : Field) → IsWellFormed f → Lacks soh (field_text f)
field_no_soh f w =
    Lacks-append soh f.tag (b'=' ∷ f.value) w.tag_no_soh (omega arith, w.value_no_soh)

split-packet :
    (fs : List Field) → All IsWellFormed fs → split soh (packet fs) ≡ map field_text fs ++ [] ∷ []
unfolding split
split-packet [] h = refl
split-packet (f ∷ fs) (w, h) =
    split-append (field_text f) (packet fs) (field_no_soh f w)
    ∙ ap (λ t. field_text f ∷ t) (split-packet fs h)

-- A field text is never empty.
non_empty-cons :
    (tag value : Text) (ps : List Text)
    → non_empty ((tag ++ b'=' ∷ value) ∷ ps) ≡ (tag ++ b'=' ∷ value) ∷ non_empty ps
unfolding non_empty
non_empty-cons [] value ps = refl
non_empty-cons (c ∷ tag) value ps = refl

tag_row-field : (f : Field) → IsWellFormed f → tag_row (field_text f) ≡ row_of f
unfolding tag_row tag_name
tag_row-field f w = rw (tag_row, cut_at_eq-field f.tag f.value w.tag_no_eq) refl

rows-packet :
    (fs : List Field)
    → All IsWellFormed fs
    → map tag_row (non_empty (map field_text fs ++ [] ∷ [])) ≡ map row_of fs
unfolding tag_row
rows-packet [] h = unfold non_empty in refl
rows-packet (f ∷ fs) (w, h) =
    rw (non_empty-cons f.tag f.value (map field_text fs ++ [] ∷ []))
      (ap₂ ◌∷◌ (tag_row-field f w) (rows-packet fs h))

-- A packet of fields whose tags hold no "=" and no SOH and whose values hold no SOH is read back: one
-- row for each field, in wire order, with its tag and its value verbatim, BodyLength and CheckSum
-- like any other.
pub parse_fix_tags-packet :
    (fs : List Field) → All IsWellFormed fs → parse_fix_tags (packet fs) ≡ map row_of fs
unfolding parse_fix_tags
parse_fix_tags-packet fs h =
    ap (λ ps. map tag_row (non_empty ps)) (split-packet fs h) ∙ rows-packet fs h

-- The value of the first field with tag 35.
abbrev pub msg_type_of : List Field → Option Text
msg_type_of [] = none
msg_type_of (f ∷ fs) = elim (text_eq f.tag (codes "35")) [
  | true ↦ some f.value
  | false ↦ msg_type_of fs
]

find-msg_type :
    (fs : List Field)
    → row_value (find? (λ row. text_eq row.tag (codes "35")) (map row_of fs)) ≡ msg_type_of fs
find-msg_type [] = refl
find-msg_type (f ∷ fs) = ground (arith, find-msg_type fs)

-- The message type of such a packet is the value of its first field with tag 35, if there is one.
fix_msg_type-packet :
    (fs : List Field) → All IsWellFormed fs → fix_msg_type (packet fs) ≡ msg_type_of fs
unfolding fix_msg_type
fix_msg_type-packet fs h =
    ap (λ rows. row_value (find? (λ row. text_eq row.tag (codes "35")) rows))
      (parse_fix_tags-packet fs h)
    ∙ find-msg_type fs
