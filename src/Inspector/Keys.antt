-- ===== src/Inspector/Keys.antt =====
-- FixInspector.tsx, `entryKey`: which entries share a key.
use low_latency_matching_eng.Prelude.{
  ℕ, suc, ℤ, pos, negsuc, [], ◌∷◌, ◌++◌, All, Text, ◌≡◌, ◌≢◌, ◌↔◌, refl, sym, ap, arith,
}
use low_latency_matching_eng.Format.Decimal.{IsDigit}
use low_latency_matching_eng.Format.Digits.{number_text, number_text-digits, number_text-inj}
use low_latency_matching_eng.State.Model.{InspectorEntry, fix_entry, exec_entry}
use low_latency_matching_eng.Inspector.{signed, entry_key}

cons-inj : {a b : ℕ} {s t : Text} → a ∷ s ≡ b ∷ t → (a ≡ b) × (s ≡ t)
cons-inj h = (cc, cc)

-- Digits up to a dash are cut off in one way.
digits_cut :
    (ds es r t : Text)
    → All IsDigit ds
    → All IsDigit es
    → ds ++ b'-' ∷ r ≡ es ++ b'-' ∷ t
    → (ds ≡ es) × (r ≡ t)
digits_cut [] [] r t h k e = (refl, (cons-inj e).1)
digits_cut [] (c ∷ es) r t h (k, ks) e = absurd (omega (arith, (cons-inj e).0))
digits_cut (c ∷ ds) [] r t (h, hs) k e = absurd (omega (arith, (cons-inj e).0))
digits_cut (c ∷ ds) (d ∷ es) r t (h, hs) (k, ks) e =
    let (same, rest) = digits_cut ds es r t hs ks (cons-inj e).1 in
    (cc ((cons-inj e).0, same), rest)

no_dash {ℓ} : {G : Type ℓ} (ds r t : Text) → All IsDigit ds → ds ≢ [] → ds ++ r ≡ b'-' ∷ t → G
no_dash [] r t h n e = absurd (n refl)
no_dash (c ∷ ds) r t (h, hs) n e = absurd (omega (arith, (cons-inj e).0))

number_no_dash {ℓ} : {G : Type ℓ} (n : ℕ) (r t : Text) → number_text n ++ r ≡ b'-' ∷ t → G
number_no_dash n r t e = let (ds, n') = number_text-digits n in no_dash (number_text n) r t ds n' e

-- A signed number up to a dash is cut off in one way.
signed_cut :
    (a b : ℤ) (r t : Text) → signed a ++ b'-' ∷ r ≡ signed b ++ b'-' ∷ t → (a ≡ b) × (r ≡ t)
unfolding signed
signed_cut (pos m) (pos n) r t e =
    let (same, rest) =
      digits_cut (number_text m) (number_text n) r t (number_text-digits m).0
        (number_text-digits n).0 e in
    (ap pos (number_text-inj _ _ same), rest)
signed_cut (pos m) (negsuc n) r t e =
    number_no_dash m (b'-' ∷ r) (number_text (suc n) ++ b'-' ∷ t) e
signed_cut (negsuc m) (pos n) r t e =
    number_no_dash n (b'-' ∷ t) (number_text (suc m) ++ b'-' ∷ r) (sym e)
signed_cut (negsuc m) (negsuc n) r t e =
    let (same, rest) =
      digits_cut (number_text (suc m)) (number_text (suc n)) r t (number_text-digits (suc m)).0
        (number_text-digits (suc n)).0 (cons-inj e).1 in
    (ap negsuc (suc-inj (number_text-inj _ _ same)), rest)
  where
    suc-inj : {i j : ℕ} → suc i ≡ suc j → i ≡ j
    suc-inj h = omega (arith, h)

signed-inj : (a b : ℤ) → signed a ≡ signed b → a ≡ b
signed-inj a b e = (signed_cut a b [] [] (ap (λ s. s ++ b'-' ∷ []) e)).0

-- What a key is made of: the kind of the entry, its number, and its time.
abbrev pub HasSameIdentity : InspectorEntry → InspectorEntry → Type 0
HasSameIdentity (fix_entry f) (fix_entry g) = (f.seq_num ≡ g.seq_num) × (f.timestamp ≡ g.timestamp)
HasSameIdentity (exec_entry f) (exec_entry g) =
    (f.trade_id ≡ g.trade_id) × (f.timestamp ≡ g.timestamp)
HasSameIdentity (fix_entry f) (exec_entry g) = ⊥
HasSameIdentity (exec_entry f) (fix_entry g) = ⊥

numbers_same :
    (a b c d : ℤ) → signed a ++ b'-' ∷ signed c ≡ signed b ++ b'-' ∷ signed d → (a ≡ b) × (c ≡ d)
numbers_same a b c d e =
    let (same, rest) = signed_cut a b (signed c) (signed d) e in (same, signed-inj c d rest)

key_identity : (a b : InspectorEntry) → entry_key a ≡ entry_key b → HasSameIdentity a b
unfolding entry_key
key_identity (fix_entry f) (fix_entry g) e =
    numbers_same f.seq_num g.seq_num f.timestamp g.timestamp
      (cons-inj (cons-inj (cons-inj (cons-inj e).1).1).1).1
key_identity (exec_entry f) (exec_entry g) e =
    numbers_same f.trade_id g.trade_id f.timestamp g.timestamp
      (cons-inj (cons-inj (cons-inj (cons-inj (cons-inj e).1).1).1).1).1
key_identity (fix_entry f) (exec_entry g) e = absurd (omega (arith, (cons-inj e).0))
key_identity (exec_entry f) (fix_entry g) e = absurd (omega (arith, (cons-inj e).0))

identity_key : (a b : InspectorEntry) → HasSameIdentity a b → entry_key a ≡ entry_key b
unfolding entry_key
identity_key (fix_entry f) (fix_entry g) (n, t) = rw (n, t) refl
identity_key (exec_entry f) (exec_entry g) (n, t) = rw (n, t) refl
identity_key (fix_entry f) (exec_entry g) h = absurd h
identity_key (exec_entry f) (fix_entry g) h = absurd h

-- Two entries have one key exactly if they are FIX packets of one sequence number and one time, or
-- EXEC reports of one trade id and one time, whatever else the reports say. So two reports without a
-- trade, which both carry the NA trade id, share their key if they carry the same time.
pub entry_key_iff : (a b : InspectorEntry) → (entry_key a ≡ entry_key b) ↔ HasSameIdentity a b
entry_key_iff a b = (key_identity a b, identity_key a b)
