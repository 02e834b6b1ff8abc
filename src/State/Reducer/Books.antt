-- ===== src/State/Reducer/Books.antt =====
-- reducer.ts, rule 1: the book, and the BOOK frames among the other dispatches.
use low_latency_matching_eng.Prelude.{List, [], ◌∷◌, ◌≡◌, refl, sym, ◌∙◌, pos, ap, arith}
use low_latency_matching_eng.Protocol.Frames.{BookFrame, book, exec, fix}
use low_latency_matching_eng.State.Model.{
  BookState, empty_book, AppState, Action, connection, frame, sent,
}
use low_latency_matching_eng.State.Reducer.{book_of, reducer, run}

abbrev pub book_after : BookState → Action → BookState
book_after b (frame (book f)) = book_of f
book_after b _ = b

-- The book that the last BOOK frame of a sequence carries, or the given one.
abbrev pub last_book : BookState → List Action → BookState
last_book b [] = b
last_book b (a ∷ rest) = last_book (book_after b a) rest

pub reducer_book : (s : AppState) (a : Action) → (reducer s a).book ≡ book_after s.book a
unfolding reducer
reducer_book s (frame (book f)) = refl
reducer_book s (frame (exec f)) = ground arith
reducer_book s (frame (fix f)) = refl
reducer_book s (connection c) = ground arith
reducer_book s (sent f t) = refl

-- After any sequence of dispatches the book is the one that the last BOOK frame carries.
run-book : (s : AppState) (acts : List Action) → (run s acts).book ≡ last_book s.book acts
unfolding run
run-book s [] = refl
run-book s (a ∷ rest) = run-book (reducer s a) rest ∙ ap (λ b. last_book b rest) (reducer_book s a)

-- A state with what BOOK frames write taken out.
abbrev pub without_book : AppState → AppState
without_book s = record s { book = empty_book; last_frame_nanos = pos 0 }

reducer-without_book :
    (s : AppState) (a : Action)
    → without_book (reducer s a) ≡ without_book (reducer (without_book s) a)
unfolding reducer
reducer-without_book s (frame (book f)) = refl
reducer-without_book s (frame (exec f)) = ground arith
reducer-without_book s (frame (fix f)) = refl
reducer-without_book s (connection c) = ground arith
reducer-without_book s (sent f n) = refl

-- The rest of the state cannot tell apart two states that differ in what BOOK frames write.
reducer-congr :
    (s t : AppState) (a : Action)
    → without_book s ≡ without_book t
    → without_book (reducer s a) ≡ without_book (reducer t a)
reducer-congr s t a h =
    reducer-without_book s a
    ∙ ap (λ u. without_book (reducer u a)) h
    ∙ sym (reducer-without_book t a)

run-congr :
    (s t : AppState) (acts : List Action)
    → without_book s ≡ without_book t
    → without_book (run s acts) ≡ without_book (run t acts)
unfolding run
run-congr s t [] h = h
run-congr s t (a ∷ rest) h = run-congr (reducer s a) (reducer t a) rest (reducer-congr s t a h)

-- The dispatches of a sequence that are no BOOK frames.
abbrev pub drop_books : List Action → List Action
drop_books [] = []
drop_books (frame (book f) ∷ rest) = drop_books rest
drop_books (a ∷ rest) = a ∷ drop_books rest

book-without_book :
    (s : AppState) (f : BookFrame) → without_book (reducer s (frame (book f))) ≡ without_book s
unfolding reducer
book-without_book s f = refl

-- BOOK frames leave no trace outside the book and the liveness marker.
run-drop_books :
    (s : AppState) (acts : List Action)
    → without_book (run s acts) ≡ without_book (run s (drop_books acts))
unfolding run
run-drop_books s [] = refl
run-drop_books s (frame (book f) ∷ rest) =
    run-congr (reducer s (frame (book f))) s rest (book-without_book s f) ∙ run-drop_books s rest
run-drop_books s (frame (exec f) ∷ rest) = run-drop_books (reducer s (frame (exec f))) rest
run-drop_books s (frame (fix f) ∷ rest) = run-drop_books (reducer s (frame (fix f))) rest
run-drop_books s (connection c ∷ rest) = run-drop_books (reducer s (connection c)) rest
run-drop_books s (sent f n ∷ rest) = run-drop_books (reducer s (sent f n)) rest

-- If two sequences of dispatches from one state carry the same dispatches other than BOOK frames in
-- the same order, and end on the same book, then they end in states that agree in every field but
-- the liveness marker: how the BOOK frames are interleaved with the others does not matter.
pub run_interleaving :
    (s : AppState) (xs ys : List Action)
    → drop_books xs ≡ drop_books ys
    → last_book s.book xs ≡ last_book s.book ys
    → (without_book (run s xs) ≡ without_book (run s ys)) × ((run s xs).book ≡ (run s ys).book)
run_interleaving s xs ys same_rest same_book = (
  run-drop_books s xs ∙ ap (λ l. without_book (run s l)) same_rest ∙ sym (run-drop_books s ys),
  run-book s xs ∙ same_book ∙ sym (run-book s ys),
)
