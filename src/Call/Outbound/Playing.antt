-- ===== src/Call/Outbound/Playing.antt =====
-- What internal/call/outbound.go plays: the audio accepted, in order, silence where there is none.
use mathlib.Core.List.{append_assoc}
use whatsmeow_gateway.Base.{
  ℕ, zero, suc, ◌-◌, ◌≤◌, List, [], ◌∷◌, ◌++◌, true, false, ltb, leb, length, take, drop, ◌≡◌, refl,
  sym, ap, ◌∙◌, arith, ◌⊎◌, inl, inr, Bool-cases, leb→le, ltb→lt, take-append-drop, length-append,
  length-drop,
}
use whatsmeow_gateway.Call.Outbound.{
  Outbound, operator_queue_frames, is_empty, zeros, fill, Reading, read_bytes, read, close,
  write_operator, clear_operator, play_announcement, without_oldest,
}

abbrev pub joined : List (List ℕ) → List ℕ
joined [] = []
joined (f ∷ fs) = f ++ joined fs

-- The audio that has been accepted and not played.
abbrev pub waiting : Outbound → List ℕ
waiting o = o.announcement ++ (o.pending ++ joined o.queue)

-- The queue is bounded, and no operator audio waits behind an announcement.
abbrev pub Tidy : Outbound → Type 0
Tidy o =
    (length o.queue ≤ operator_queue_frames)
    × ((o.announcement ≡ []) ⊎ ((o.queue ≡ []) × (o.pending ≡ [])))

-- The operations of the audio.
pub data Operation : Type 0 where
  reads : ℕ → Operation
  closes : Operation
  writes : List ℕ → Operation
  clears : Operation
  announces : List ℕ → Operation

abbrev pub perform : Operation → Outbound → Outbound
perform (reads n) o = (read n o).1
perform closes o = close o
perform (writes frame) o = (write_operator frame o).1
perform clears o = clear_operator o
perform (announces pcm) o = (play_announcement pcm o).1

length-take_le : (n : ℕ) (xs : List ℕ) → length (take n xs) ≤ n
length-take_le zero xs = omega arith
length-take_le (suc n) [] = omega arith
length-take_le (suc n) (x ∷ xs) = omega (arith, length-take_le n xs)

length-take_full : (n : ℕ) (xs : List ℕ) → n ≤ length xs → length (take n xs) ≡ n
length-take_full zero xs h = omega arith
length-take_full (suc n) [] h = omega (arith, h)
length-take_full (suc n) (x ∷ xs) h = omega (arith, h, length-take_full n xs)

drop-short : (n : ℕ) (xs : List ℕ) → length xs ≤ n → drop n xs ≡ []
drop-short zero [] h = refl
drop-short zero (x ∷ xs) h = absurd (omega (arith, h))
drop-short (suc n) [] h = refl
drop-short (suc n) (x ∷ xs) h = drop-short n xs (omega (arith, h))

-- Whether the buffer of `n` bytes is filled, or the audio runs out.
take-drop_ends : (n : ℕ) (xs : List ℕ) → (length (take n xs) ≡ n) ⊎ (drop n xs ≡ [])
take-drop_ends n xs = elim (Bool-cases (leb n (length xs))) [
  | inl h ↦ inl (length-take_full n xs (leb→le n (length xs) h))
  | inr h ↦ inr (drop-short n xs (ground (arith, h)))
]

-- What one fill takes: a prefix of the audio, of the buffer's length unless the audio runs out.
abbrev Takes : ℕ → List ℕ → List (List ℕ) → List ℕ × List ℕ × List (List ℕ) → Type 0
Takes n pending queue (played, left, frames) =
    (played ++ (left ++ joined frames) ≡ pending ++ joined queue)
    × (length played ≤ n)
    × ((length played ≡ n) ⊎ (left ++ joined frames ≡ []))
    × (length frames ≤ length queue)

fill-Takes :
    (n : ℕ) (pending : List ℕ) (queue : List (List ℕ))
    → Takes n pending queue (fill n pending queue)
fill-Takes n pending [] = (
  sym (append_assoc (take n pending) (drop n pending) [])
      ∙ ap (λ l. l ++ []) (take-append-drop n pending),
  length-take_le n pending,
  elim (take-drop_ends n pending) [ inl h ↦ inl h | inr h ↦ inr (rw h refl) ],
  omega arith,
)
fill-Takes n pending (frame ∷ queue) =
    let (e, short, ends, frames) = fill-Takes (n - length pending) frame queue in
    elim (Bool-cases (ltb (length pending) n)) [
      | inl h ↦ rw h (
        append_assoc pending (fill (n - length pending) frame queue).0 _ ∙ ap (λ l. pending ++ l) e,
        omega (
          arith,
          short,
          ltb→lt (length pending) n h,
          length-append pending (fill (n - length pending) frame queue).0,
        ),
        elim ends [
          | inl g ↦ inl (
              omega (
                arith,
                g,
                ltb→lt (length pending) n h,
                length-append pending (fill (n - length pending) frame queue).0,
              ))
          | inr g ↦ inr g
        ],
        omega (arith, frames),
      )
      | inr h ↦ rw h (
        sym (append_assoc (take n pending) (drop n pending) (frame ++ joined queue))
            ∙ ap (λ l. l ++ (frame ++ joined queue)) (take-append-drop n pending),
        length-take_le n pending,
        inl (length-take_full n pending (ground (arith, h))),
        omega arith,
      )
    ]

empty_nil : (xs : List ℕ) → is_empty xs ≡ true → xs ≡ []
empty_nil [] h = refl
empty_nil (x ∷ xs) h = absurd (cc h)

-- What a read of `n` bytes from `o` gives: the oldest audio that waits, then silence only where
-- nothing more waits.
abbrev pub Plays : ℕ → Outbound → Reading → Outbound → Type 0
Plays n o reading after =
    (played : List ℕ) × (reading
      ≡ read_bytes (played ++ zeros (n - length played)) (ltb 0 (length played)))
    × (waiting o ≡ played ++ waiting after)
    × (length played ≤ n)
    × ((length played ≡ n) ⊎ (waiting after ≡ []))

read_frames :
    (k : ℕ) (o : Outbound)
    → o.closed ≡ false
    → o.announcement ≡ []
    → Plays (suc k) o (read (suc k) o).0 (read (suc k) o).1
unfolding read
read_frames k o going e =
    let (split, short, ends, frames) = fill-Takes (suc k) o.pending o.queue in
    simp (going, e) ((fill (suc k) o.pending o.queue).0, refl, sym split, short, ends)

queued_le :
    (frame : List ℕ) (queue : List (List ℕ))
    → length queue ≤ operator_queue_frames
    → length (without_oldest queue ++ frame ∷ []) ≤ operator_queue_frames
queued_le frame queue bounded = elim (Bool-cases (leb operator_queue_frames (length queue))) [
  | inl h ↦ rw h (
      omega (
        arith,
        bounded,
        length-append (drop 1 queue) (frame ∷ []),
        length-drop 1 queue,
        leb→le operator_queue_frames (length queue) h,
      ))
  | inr h ↦ rw h (ground (arith, h, length-append queue (frame ∷ [])))
]

-- Reading from an open call plays what waits, in order, and nothing is lost or repeated; the rest
-- of the buffer is silence, only where no audio waits. An announcement goes before the operator's
-- frames, which do not wait behind one.
pub read-Plays :
    (n : ℕ) (o : Outbound) → o.closed ≡ false → Tidy o → Plays n o (read n o).0 (read n o).1
unfolding read
read-Plays zero o going tidy = ([], refl, refl, omega arith, inl refl)
read-Plays (suc k) o going (bounded, inl e) = read_frames k o going e
read-Plays (suc k) o going (bounded, inr (e, f)) = elim (Bool-cases (is_empty o.announcement)) [
  | inl h ↦ read_frames k o going (empty_nil o.announcement h)
  | inr h ↦
      rw (going, h)
        (
          take (suc k) o.announcement,
          refl,
          ap (λ l. l ++ (o.pending ++ joined o.queue))
                (sym (take-append-drop (suc k) o.announcement))
              ∙ append_assoc (take (suc k) o.announcement) (drop (suc k) o.announcement)
                  (o.pending ++ joined o.queue),
          length-take_le (suc k) o.announcement,
          elim (take-drop_ends (suc k) o.announcement) [
            | inl g ↦ inl g
            | inr g ↦ inr (simp (g, e, f))
          ],
        )
]

-- Every operation keeps at most fifty frames queued, and none behind an announcement.
pub perform-Tidy : (operation : Operation) (o : Outbound) → Tidy o → Tidy (perform operation o)
unfolding read write_operator play_announcement
perform-Tidy (reads zero) o tidy = tidy
perform-Tidy (reads (suc k)) o tidy = ground (arith, tidy, fill-Takes (suc k) o.pending o.queue)
perform-Tidy closes o tidy = (omega arith, inl refl)
perform-Tidy (writes frame) o tidy =
    ground (arith, tidy, empty_nil o.announcement, queued_le frame o.queue)
perform-Tidy clears o (bounded, e) = (omega arith, inr (refl, refl))
perform-Tidy (announces pcm) o tidy = ground (arith, tidy)
