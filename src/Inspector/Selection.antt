-- ===== src/Inspector/Selection.antt =====
-- FixInspector.tsx: the selected entry as the filter, the clicks and the log change.
use low_latency_matching_eng.Prelude.{
  ℕ, List, [], ◌∷◌, ◌++◌, Option, none, some, Bool, true, false, Bool-cases, Text, text_eq_refl,
  text_eq_sound, none≢some, some-inj, find?, find?_hit, find?_miss, Any, All, ◌≡◌, ◌≢◌, ◌⊎◌, inl,
  inr, refl, sym, ap, ◌∙◌, if◌then◌else◌,
}
use low_latency_matching_eng.Protocol.Frames.{ExecFrame}
use low_latency_matching_eng.State.Model.{InspectorEntry}
use low_latency_matching_eng.Inspector.{
  InspectorFilter, matches_filter, entry_key, filtered, InspectorState, head_of, has_key, find_key,
  or_newest, selected, row_clicked, inspector_step, copy_payload, handle_copy,
}
use low_latency_matching_eng.Inspector.Keys.{HasSameIdentity, entry_key_iff}

abbrev pub IsIn : InspectorEntry → List InspectorEntry → Type 0
IsIn e = Any (λ x. x ≡ e)

-- Where only one entry has the key, the search finds it.
find_only :
    (e : InspectorEntry) (xs : List InspectorEntry)
    → IsIn e xs
    → All (λ x. HasSameIdentity x e → x ≡ e) xs
    → find? (has_key (entry_key e)) xs ≡ some e
find_only e [] h only = absurd h
find_only e (x ∷ rest) h (one, only) = elim (Bool-cases (has_key (entry_key e) x)) [
  | inl y ↦
      find?_hit (has_key (entry_key e)) x rest y
      ∙ ap some (one ((entry_key_iff x e).0 (text_eq_sound (entry_key x) (entry_key e) y)))
  | inr n ↦ find?_miss (has_key (entry_key e)) x rest n ∙ find_only e rest (not_here n h) only
]
  where
    not_here : has_key (entry_key e) x ≡ false → (x ≡ e) ⊎ IsIn e rest → IsIn e rest
    not_here n (inl same) =
        absurd (cc (n, ap (has_key (entry_key e)) same, text_eq_refl (entry_key e)))
    not_here n (inr later) = later

-- A click on a row of the list, if no other visible entry is of its kind, its number and its time: the
-- entry of that row is selected, and the copy is its payload, the raw packet or the JSON text.
pub row_clicked-selected :
    (local_ms : ℕ → ℕ) (json_text : ExecFrame → Text) (st : InspectorState)
    (entries : List InspectorEntry) (e : InspectorEntry)
    → IsIn e (filtered st.filter entries)
    → All (λ x. HasSameIdentity x e → x ≡ e) (filtered st.filter entries)
    → (selected (inspector_step st (row_clicked e)) entries ≡ some e)
      × (handle_copy local_ms json_text (inspector_step st (row_clicked e)) entries
          ≡ some (copy_payload local_ms json_text e))
unfolding selected inspector_step handle_copy
row_clicked-selected local_ms json_text st entries e h only =
    let hit = find_only e (filtered st.filter entries) h only in (rw hit refl, rw hit refl)

filtered-append :
    (f : InspectorFilter) (xs ys : List InspectorEntry)
    → filtered f (xs ++ ys) ≡ filtered f xs ++ filtered f ys
unfolding filtered
filtered-append f [] ys = refl
filtered-append f (x ∷ xs) ys =
    rw (filtered-append f xs ys) (kept (matches_filter x f) (filtered f xs) (filtered f ys))
  where
    kept :
        (b : Bool) (p q : List InspectorEntry)
        → (if b then x ∷ (p ++ q) else (p ++ q)) ≡ (if b then x ∷ p else p) ++ q
    kept true p q = refl
    kept false p q = refl

find_skips :
    (key : Text) (f : InspectorFilter) (xs ys : List InspectorEntry)
    → All (λ x. entry_key x ≢ key) xs
    → find? (has_key key) (filtered f xs ++ ys) ≡ find? (has_key key) ys
unfolding filtered
find_skips key f [] ys h = refl
find_skips key f (x ∷ xs) ys (n, h) = kept (matches_filter x f) ∙ find_skips key f xs ys h
  where
    other : has_key key x ≡ false
    other = elim (Bool-cases (has_key key x)) [
      | inl y ↦ absurd (n (text_eq_sound (entry_key x) key y))
      | inr miss ↦ miss
    ]

    kept :
        (b : Bool)
        → find? (has_key key) ((if b then x ∷ filtered f xs else filtered f xs) ++ ys)
          ≡ find? (has_key key) (filtered f xs ++ ys)
    kept true = find?_miss (has_key key) x (filtered f xs ++ ys) other
    kept false = refl

-- While messages arrive, a selection that is in view stays on its entry, if no new message has its key.
selected_stable :
    (filter : InspectorFilter) (key : Text) (newer entries : List InspectorEntry)
    (e : InspectorEntry)
    → find? (has_key key) (filtered filter entries) ≡ some e
    → All (λ x. entry_key x ≢ key) newer
    → selected (record { filter = filter; selected_key = some key }) (newer ++ entries) ≡ some e
unfolding selected
selected_stable filter key newer entries e hit h =
    rw (filtered-append filter newer entries)
      (rw (find_skips key filter newer (filtered filter entries) h) (rw hit refl))

-- What `or_newest` and the search yield is in the list.
found-IsIn :
    (p : InspectorEntry → Bool) (xs : List InspectorEntry) (e : InspectorEntry)
    → find? p xs ≡ some e
    → IsIn e xs
found-IsIn p [] e h = absurd (none≢some h)
found-IsIn p (x ∷ rest) e h = elim (Bool-cases (p x)) [
  | inl y ↦ inl (some-inj (sym (find?_hit p x rest y) ∙ h))
  | inr n ↦ inr (found-IsIn p rest e (sym (find?_miss p x rest n) ∙ h))
]

head-IsIn : (xs : List InspectorEntry) (e : InspectorEntry) → head_of xs ≡ some e → IsIn e xs
head-IsIn [] e h = absurd (none≢some h)
head-IsIn (x ∷ rest) e h = inl (some-inj h)

choice-IsIn :
    (o : Option InspectorEntry) (xs : List InspectorEntry) (e : InspectorEntry)
    → ((x : InspectorEntry) → o ≡ some x → IsIn x xs)
    → or_newest o xs ≡ some e
    → IsIn e xs
choice-IsIn none xs e f h = head-IsIn xs e h
choice-IsIn (some x) xs e f h = f e h

key-IsIn :
    (key : Option Text) (xs : List InspectorEntry) (e : InspectorEntry)
    → find_key key xs ≡ some e
    → IsIn e xs
key-IsIn none xs e h = absurd (none≢some h)
key-IsIn (some key) xs e h = found-IsIn (has_key key) xs e h

filtered-IsIn :
    (f : InspectorFilter) (xs : List InspectorEntry) (e : InspectorEntry)
    → IsIn e (filtered f xs)
    → IsIn e xs × (matches_filter e f ≡ true)
unfolding filtered
filtered-IsIn f [] e h = absurd h
filtered-IsIn f (x ∷ rest) e h = here_or (λ k. filtered-IsIn f rest e k) (matches_filter x f) refl h
  where
    here_or :
        (IsIn e (filtered f rest) → IsIn e rest × (matches_filter e f ≡ true))
        → (b : Bool) → matches_filter x f ≡ b
        → IsIn e (if b then x ∷ filtered f rest else filtered f rest)
        → IsIn e (x ∷ rest) × (matches_filter e f ≡ true)
    here_or later true m (inl same) = (inl same, ap (λ y. matches_filter y f) (sym same) ∙ m)
    here_or later true m (inr k) = let (a, b) = later k in (inr a, b)
    here_or later false m k = let (a, b) = later k in (inr a, b)

nothing_chosen :
    (o : Option InspectorEntry) (xs : List InspectorEntry) → or_newest o xs ≡ none → xs ≡ []
nothing_chosen none [] h = refl
nothing_chosen none (x ∷ rest) h = absurd (none≢some (sym h))
nothing_chosen (some x) xs h = absurd (none≢some (sym h))

-- In every state, whatever was selected before the filter changed: the selected entry is in the log and
-- passes the filter, and there is none only where no entry of the log is visible.
selected_visible :
    (st : InspectorState) (entries : List InspectorEntry)
    → ((e : InspectorEntry)
        → selected st entries ≡ some e
        → IsIn e entries × (matches_filter e st.filter ≡ true))
      × (selected st entries ≡ none → filtered st.filter entries ≡ [])
unfolding selected
selected_visible st entries =
    let visible = filtered st.filter entries in
    let found = find_key st.selected_key visible in
    (
      λ e h.
          filtered-IsIn st.filter entries e
            (choice-IsIn found visible e (key-IsIn st.selected_key visible) h),
      λ h. nothing_chosen found visible h,
    )
