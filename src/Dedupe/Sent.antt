-- ===== src/Dedupe/Sent.antt =====
-- The ledger of sent messages: one provider id for each message, and sent for good.
use whatsmeow_gateway.Base.{
  ap, ◌∙◌, subst, ◌≢◌, String, ◌≡◌, refl, inl, inr, Bool, true, List, [], ◌∷◌, Option, none, some,
  arith, string_Eq, ==-refl, lookup, lookup-insert, ok, Option-cases,
}
use whatsmeow_gateway.Dedupe.{
  is_sent, Store, SentRow, pending, sent, Answer, clean, refused, begin, mark_sent,
}

-- A use of the ledger, with the database's answers.
pub data Use : Type 0 where
  begins : Answer → Answer → String → String → Use
  marks : Answer → String → Use

abbrev pub apply : Store → Use → Store
apply s (begins inserted selected m p) = (begin s inserted selected m p).0
apply s (marks updated m) = (mark_sent s updated m).0

unfoldable pub run : Store → List Use → Store
run s [] = s
run s (u ∷ us) = run (apply s u) us

abbrev pub row_of : Store → String → Option SentRow
row_of s m = lookup m s.sent_messages

-- How a row may change: it keeps its provider id, and `sent` stays.
abbrev pub Advances : Option SentRow → Option SentRow → Type 0
Advances none after = Unit
Advances (some row) after =
    (next : SentRow) × (after ≡ some next)
    × (next.provider_message_id ≡ row.provider_message_id)
    × (row.status ≡ sent → next.status ≡ sent)

pub Advances-refl : (o : Option SentRow) → Advances o o
Advances-refl none = tt
Advances-refl (some row) = (row, refl, refl, λ h. h)

pub Advances-trans : (a b c : Option SentRow) → Advances a b → Advances b c → Advances a c
Advances-trans none b c h k = tt
Advances-trans (some row) none c h k = cc
Advances-trans (some row) (some next) c h k = (k.0, k.1, ground arith, ground arith)

pub begin-Advances :
    (s : Store) (i q : Answer) (m p k : String)
    → Advances (row_of s k) (row_of (begin s i q m p).0 k)
unfolding begin
begin-Advances s i q m p k = ground (
  arith,
  Advances-refl (row_of s k),
  string_Eq.same_iff m k,
  lookup-insert m k (record { provider_message_id = p; status = pending }) s.sent_messages,
)

pub mark_sent-Advances :
    (s : Store) (a : Answer) (m k : String) → Advances (row_of s k) (row_of (mark_sent s a m).0 k)
unfolding mark_sent
mark_sent-Advances s a m k = elim (Option-cases (row_of s m)) [
  | inl e ↦ ground (arith, Advances-refl (row_of s k))
  | inr (row, e) ↦ ground (
    arith,
    Advances-refl (row_of s k),
    string_Eq.same_iff m k,
    lookup-insert m k (record row { status = sent }) s.sent_messages,
  )
]

run-Advances :
    (s : Store) (us : List Use) (k : String) → Advances (row_of s k) (row_of (run s us) k)
unfolding run
run-Advances s [] k = Advances-refl (row_of s k)
run-Advances s (u ∷ us) k =
    Advances-trans (row_of s k) (row_of (apply s u) k) (row_of (run (apply s u) us) k) (one u)
      (run-Advances (apply s u) us k)
  where
    one : (v : Use) → Advances (row_of s k) (row_of (apply s v) k)
    one (begins i q m p) = begin-Advances s i q m p k
    one (marks a m) = mark_sent-Advances s a m k

pub begin_present :
    (s : Store) (m p : String) (row : SentRow)
    → row_of s m ≡ some row
    → (begin s clean clean m p).1 ≡ ok (is_sent row.status, row.provider_message_id)
unfolding begin
begin_present s m p row e = rw (e, begin)

begin_leaves :
    (s : Store) (m p : String) {dup : Bool} {id : String}
    → (begin s clean clean m p).1 ≡ ok (dup, id)
    → (row : SentRow) × (row_of (begin s clean clean m p).0 m ≡ some row)
      × (row.provider_message_id ≡ id)
unfolding begin
begin_leaves s m p h = elim (Option-cases (row_of s m)) [
  | inl e ↦ (
    record { provider_message_id = p; status = pending },
    ground (
      arith,
      ==-refl m,
      lookup-insert m m (record { provider_message_id = p; status = pending }) s.sent_messages,
    ),
    ground arith,
  )
  | inr (row, e) ↦ (row, ground arith, ground arith)
]

-- If an undisturbed `Begin` answers a provider id for a message, every later undisturbed `Begin` for
-- the message succeeds with that id, whatever ids they propose and whatever the ledger is used for
-- between them, failing statements included.
pub begin_stable :
    (s : Store) (us : List Use) (m p q : String) (dup : Bool) (id : String)
    → (begin s clean clean m p).1 ≡ ok (dup, id)
    → (dup_later : Bool) × ((begin (run (begin s clean clean m p).0 us) clean clean m q).1
        ≡ ok (dup_later, id))
begin_stable s us m p q dup id h =
    let s' = (begin s clean clean m p).0 in
    let (row, e, same) = begin_leaves s m p h in
    let (next, e', kept, _) =
      subst (λ o. Advances o (row_of (run s' us) m)) e (run-Advances s' us m) in
    (
      is_sent next.status,
      begin_present (run s' us) m q next e' ∙ ap (λ i. ok (is_sent next.status, i)) (kept ∙ same),
    )

-- Once `MarkSent` has written its row, answered or not, every later undisturbed `Begin` for the
-- message reports it as sent already, with the provider id that the row had.
pub mark_sent-begin :
    (s : Store) (a : Answer) (us : List Use) (m p : String) (row : SentRow)
    → row_of s m ≡ some row
    → a ≢ refused
    → (begin (run (mark_sent s a m).0 us) clean clean m p).1 ≡ ok (true, row.provider_message_id)
unfolding mark_sent
mark_sent-begin s a us m p row e h =
    let marked = record row { status = sent } in
    let s' = (mark_sent s a m).0 in
    let written : row_of s' m ≡ some marked =
      ground (arith, ==-refl m, lookup-insert m m marked s.sent_messages) in
    let (next, e', kept, still) =
      subst (λ o. Advances o (row_of (run s' us) m)) written (run-Advances s' us m) in
    rw (begin_present (run s' us) m p next e', still refl, kept)
