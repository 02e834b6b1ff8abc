-- ===== src/Protocol/Encode/Ids.antt =====
-- encode.ts: the ids of one generator.
use low_latency_matching_eng.Prelude.{
  ℕ, zero, suc, ◌+◌, ◌≤◌, ◌<◌, ℤ, pos, ◌+ℤ◌, List, [], ◌∷◌, ◌≡◌, ◌∙◌, refl, dec_le, leb,
  if◌then◌else◌, arith,
}
use low_latency_matching_eng.Protocol.Encode.{
  Checked, ok, range_error, ◌>>=◌, max_safe, ClOrdIdGenerator, create_cl_ord_id_generator,
  next_cl_ord_id, peek,
}

-- `n` calls in a row.
unfoldable pub draws : ℕ → ClOrdIdGenerator → Checked (List ℤ × ClOrdIdGenerator)
draws zero gen = ok ([], gen)
draws (suc n) gen = do
  (id, gen') ← next_cl_ord_id gen
  (ids, last) ← draws n gen'
  ok (id ∷ ids, last)

abbrev pub count_up : ℕ → ℕ → List ℤ
count_up first zero = []
count_up first (suc n) = pos first ∷ count_up (suc first) n

one_up : (first : ℕ) → pos first +ℤ pos 1 ≡ pos (suc first)
unfolding ◌+ℤ◌
one_up first = ground arith

pub next_lem :
    (first : ℕ)
    → first ≤ max_safe
    → next_cl_ord_id (record { next = pos first })
      ≡ ok (pos first, record { next = pos (suc first) })
unfolding next_cl_ord_id
next_lem first h = ground (arith, one_up first)

exhausted_lem :
    (first : ℕ)
    → max_safe < first
    → next_cl_ord_id (record { next = pos first }) ≡ range_error "clOrdId"
unfolding next_cl_ord_id
exhausted_lem first h = ground arith

draws_lem :
    (n first : ℕ)
    → first + n ≤ suc max_safe
    → draws n (record { next = pos first })
      ≡ ok (count_up first n, record { next = pos (first + n) })
unfolding draws
draws_lem zero first h = ground arith
draws_lem (suc n) first h =
    rw (next_lem first (omega arith), draws_lem n (suc first) (omega arith)) (ground arith)

draws_exhausted :
    (n first : ℕ)
    → suc max_safe < first + n
    → first ≤ suc max_safe
    → draws n (record { next = pos first }) ≡ range_error "clOrdId"
unfolding draws
draws_exhausted zero first h k = absurd (omega arith)
draws_exhausted (suc n) first h k = elim (dec_le first max_safe) [
  | yes p ↦ rw (next_lem first p, draws_exhausted n (suc first) (omega arith) (omega arith)) refl
  | no p ↦ rw (exhausted_lem first (omega arith)) refl
]

-- The ids are seed, seed + 1, … as long as all of them are safe integers; else a call throws.
abbrev pub ids_from : ℕ → ℕ → Checked (List ℤ × ClOrdIdGenerator)
ids_from seed n =
    if leb (seed + n) (suc max_safe)
    then ok (count_up seed n, record { next = pos (seed + n) })
    else range_error "clOrdId"

draws_from : (n seed : ℕ) → seed ≤ max_safe → draws n (record { next = pos seed }) ≡ ids_from seed n
draws_from n seed h = elim (dec_le (seed + n) (suc max_safe)) [
  | yes p ↦ draws_lem n seed p ∙ ground arith
  | no p ↦ draws_exhausted n seed (omega arith) (omega arith) ∙ ground arith
]

-- For a seed that is a positive safe integer, the generator is created, `peek` shows the seed, and
-- any number of calls yields the ids seed, seed + 1, … in order, each once, as long as they are safe
-- integers; a longer run of calls throws.
generator_lem :
    (seed n : ℕ)
    → 0 < seed
    → seed ≤ max_safe
    → (gen : ClOrdIdGenerator) × (create_cl_ord_id_generator (pos seed) ≡ ok gen)
      × (peek gen ≡ pos seed)
      × (draws n gen ≡ ids_from seed n)
unfolding create_cl_ord_id_generator peek
generator_lem seed n p h = (record { next = pos seed }, ground arith, refl, draws_from n seed h)
