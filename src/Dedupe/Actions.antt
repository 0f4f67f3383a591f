-- ===== src/Dedupe/Actions.antt =====
-- The ledger of group actions: what each statement leaves in the rows, and how it reads them.
use whatsmeow_gateway.Base.{
  ℕ, ◌+◌, String, ◌≡◌, false, Option, none, some, arith, string_Eq, ==-refl, if◌then◌else◌, lookup,
  lookup-insert, ok, Option-cases, inl, inr, ◌==◌,
}
use whatsmeow_gateway.Dedupe.{
  action_key_Eq, Store, ActionKey, ActionRow, ActionRecord, sent, failed, Answer, clean,
  begin_action, mark_action_done, mark_action_failed, record_action_halt, record_of, pending_action,
}

abbrev pub action_row : Store → ActionKey → Option ActionRow
action_row s k = lookup k s.group_actions

-- The row of a key, or the one that `BeginAction` inserts.
abbrev pub row_or_pending : Option ActionRow → ActionRow
row_or_pending none = pending_action
row_or_pending (some row) = row

-- `BeginAction` never changes a row that is there.
pub begin_action-keeps :
    (s : Store) (a : Answer) (key k : ActionKey) (row : ActionRow)
    → action_row s k ≡ some row
    → action_row (begin_action s a key).0 k ≡ some row
unfolding begin_action
begin_action-keeps s a key k row e =
    ground (arith, action_key_Eq.same_iff key k, lookup-insert key k pending_action s.group_actions)

pub begin_action-reads :
    (s : Store) (a : Answer) (key : ActionKey) {r : ActionRecord}
    → (begin_action s a key).1 ≡ ok r
    → (action_row (begin_action s a key).0 key ≡ some (row_or_pending (action_row s key)))
      × (r ≡ record_of (row_or_pending (action_row s key)))
unfolding begin_action
begin_action-reads s a key h = elim (Option-cases (action_row s key)) [
  | inl e ↦ (
    ground (arith, ==-refl key, lookup-insert key key pending_action s.group_actions),
    ground arith,
  )
  | inr (row, e) ↦ (ground arith, ground arith)
]

pub mark_action_done-row :
    (s : Store) (key k : ActionKey) (removed : Option ℕ) (row : ActionRow)
    → action_row s key ≡ some row
    → action_row (mark_action_done s clean key removed).0 k ≡ (
        if key == k
        then some (record row { status = sent; removed = removed; failure = none })
        else action_row s k)
unfolding mark_action_done
mark_action_done-row s key k removed row e = ground (
  arith,
  lookup-insert key k (record row { status = sent; removed = removed; failure = none })
      s.group_actions,
)

pub mark_action_failed-row :
    (s : Store) (key k : ActionKey) (failure : String) (row : ActionRow)
    → (failure == "") ≡ false
    → action_row s key ≡ some row
    → action_row (mark_action_failed s clean key failure).0 k ≡ (
        if key == k
        then some (record row { status = failed; removed = none; failure = some failure })
        else action_row s k)
unfolding mark_action_failed
mark_action_failed-row s key k failure row n e = ground (
  arith,
  lookup-insert key k (record row { status = failed; removed = none; failure = some failure })
      s.group_actions,
)

-- Whatever the answers, the writes of one action leave the rows of the others alone.
pub mark_action_done-other :
    (s : Store) (a : Answer) (key k : ActionKey) (removed : Option ℕ)
    → (key == k) ≡ false
    → action_row (mark_action_done s a key removed).0 k ≡ action_row s k
unfolding mark_action_done
mark_action_done-other s a key k removed ne = elim (Option-cases (action_row s key)) [
  | inl e ↦ ground arith
  | inr (row, e) ↦ ground (
    arith,
    lookup-insert key k (record row { status = sent; removed = removed; failure = none })
        s.group_actions,
  )
]

pub mark_action_failed-other :
    (s : Store) (a : Answer) (key k : ActionKey) (failure : String)
    → (key == k) ≡ false
    → action_row (mark_action_failed s a key failure).0 k ≡ action_row s k
unfolding mark_action_failed
mark_action_failed-other s a key k failure ne = elim (Option-cases (action_row s key)) [
  | inl e ↦ ground arith
  | inr (row, e) ↦ ground (
    arith,
    lookup-insert key k (record row { status = failed; removed = none; failure = some failure })
        s.group_actions,
  )
]

pub record_action_halt-other :
    (s : Store) (a : Answer) (key k : ActionKey)
    → (key == k) ≡ false
    → action_row (record_action_halt s a key).0 k ≡ action_row s k
unfolding record_action_halt
record_action_halt-other s a key k ne = elim (Option-cases (action_row s key)) [
  | inl e ↦ ground arith
  | inr (row, e) ↦
      ground (arith, lookup-insert key k (record row { halts = row.halts + 1 }) s.group_actions)
]

-- A halt counts one more, and changes nothing of what the row says of the action.
pub record_action_halt-row :
    (s : Store) (key : ActionKey) (row : ActionRow)
    → action_row s key ≡ some row
    → (action_row (record_action_halt s clean key).0 key
        ≡ some (record row { halts = row.halts + 1 }))
      × ((record_action_halt s clean key).1 ≡ ok (row.halts + 1))
unfolding record_action_halt
record_action_halt-row s key row e = (
  ground (
    arith,
    ==-refl key,
    lookup-insert key key (record row { halts = row.halts + 1 }) s.group_actions,
  ),
  ground arith,
)

pub record_action_halt-ok :
    (s : Store) (a : Answer) (key : ActionKey) (row : ActionRow) {n : ℕ}
    → action_row s key ≡ some row
    → (record_action_halt s a key).1 ≡ ok n
    → (action_row (record_action_halt s a key).0 key ≡ some (record row { halts = row.halts + 1 }))
      × (n ≡ row.halts + 1)
unfolding record_action_halt
record_action_halt-ok s a key row e h = (
  ground (
    arith,
    ==-refl key,
    lookup-insert key key (record row { halts = row.halts + 1 }) s.group_actions,
  ),
  ground arith,
)

-- `BeginAction` of an action that has a row changes nothing and reads the row.
pub begin_action-present :
    (s : Store) (key : ActionKey) (row : ActionRow)
    → action_row s key ≡ some row
    → begin_action s clean key ≡ (s, ok (record_of row))
unfolding begin_action
begin_action-present s key row e = rw (e, begin_action)
