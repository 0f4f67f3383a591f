-- ===== src/Dedupe.antt =====
-- internal/dedupe/store.go: the ledger of sent messages and of group actions.
-- The two SQL tables are association lists over their primary keys; `updated_at` is written and
-- never read, and is left out. The database answers each statement in one of three ways: it runs
-- the statement and says so, refuses it, or runs it and loses the answer.
pub mod Actions
pub mod Sent
use whatsmeow_gateway.Base.{
  ℕ, suc, ◌+◌, String, Bool, true, false, ◌&&◌, not, List, ◌∷◌, Option, none, some, ◌==◌,
  if◌then◌else◌, lookup, insert, Result, ok, err, Eq, string_Eq, pair_Eq,
}

-- The `status` column: "pending", "sent" or "failed".
pub data Status : Type 0 where
  pending sent failed : Status

abbrev pub is_sent : Status → Bool
is_sent sent = true
is_sent _ = false

abbrev pub is_failed : Status → Bool
is_failed failed = true
is_failed _ = false

pub record SentRow : Type 0 where
  pub provider_message_id : String
  pub status : Status

pub record ActionRow : Type 0 where
  pub status : Status
  pub removed : Option ℕ
  pub failure : Option String
  pub halts : ℕ

abbrev pub ActionKey : Type 0
ActionKey = String × String

instance abbrev pub action_key_Eq : Eq ActionKey
action_key_Eq = pair_Eq

pub record Store : Type 0 where
  pub sent_messages : List (String × SentRow)
  pub group_actions : List (ActionKey × ActionRow)

pub data Answer : Type 0 where
  clean refused lost : Answer

pub data StoreError : Type 0 where
  database : StoreError
  no_ledger_row : StoreError
  failure_required : StoreError

-- What a statement leaves and what the caller sees of it.
abbrev pub exec {ℓ} :
    {A : Type ℓ} → Answer → Store → Store → Result StoreError A → Store × Result StoreError A
exec clean before after r = (after, r)
exec refused before after r = (before, err database)
exec lost before after r = (after, err database)

abbrev pub set_sent_row : Store → String → SentRow → Store
set_sent_row s m row = record s { sent_messages = insert m row s.sent_messages }

abbrev pub set_action_row : Store → ActionKey → ActionRow → Store
set_action_row s k row = record s { group_actions = insert k row s.group_actions }

-- The read of an existing row, after the insert met a conflict.
abbrev pub read_back : Answer → Store → SentRow → Store × Result StoreError (Bool × String)
read_back clean s row = (s, ok (is_sent row.status, row.provider_message_id))
read_back _ s row = (s, err database)

unfoldable pub begin :
    Store → Answer → Answer → String → String → Store × Result StoreError (Bool × String)
begin s inserted selected message_id provider_id = elim (lookup message_id s.sent_messages) [
  | none ↦
      exec inserted s
        (set_sent_row s message_id (record { provider_message_id = provider_id; status = pending }))
        (ok (false, provider_id))
  | some row ↦ elim inserted [ clean ↦ read_back selected s row | _ ↦ (s, err database) ]
]

unfoldable pub mark_sent : Store → Answer → String → Store × Result StoreError (Unit {0})
mark_sent s updated message_id = elim (lookup message_id s.sent_messages) [
  | none ↦ exec updated s s (err no_ledger_row)
  | some row ↦ exec updated s (set_sent_row s message_id (record row { status = sent })) (ok tt)
]

pub record ActionRecord : Type 0 where
  pub finished : Bool
  pub removed : Option ℕ
  pub failure : String

-- The reading of a row that `BeginAction` makes of what its statement returns.
abbrev pub read_action : Status → Option ℕ → Option String → ActionRecord
read_action status removed none = record {
  finished = is_sent status;
  removed = removed;
  failure = "";
}
read_action status removed (some failure) =
    if is_failed status && not (failure == "")
    then record { finished = true; removed = none; failure = failure }
    else record { finished = is_sent status; removed = removed; failure = "" }

abbrev pub record_of : ActionRow → ActionRecord
record_of row = read_action row.status row.removed row.failure

abbrev pub pending_action : ActionRow
pending_action = record { status = pending; removed = none; failure = none; halts = 0 }

unfoldable pub begin_action : Store → Answer → ActionKey → Store × Result StoreError ActionRecord
begin_action s answer key = elim (lookup key s.group_actions) [
  | none ↦ exec answer s (set_action_row s key pending_action) (ok (record_of pending_action))
  | some row ↦ exec answer s s (ok (record_of row))
]

abbrev pub finish_action :
    Store
    → Answer
    → ActionKey
    → Status
    → Option ℕ
    → Option String
    → Store × Result StoreError (Unit {0})
finish_action s answer key status removed failure = elim (lookup key s.group_actions) [
  | none ↦ exec answer s s (err no_ledger_row)
  | some row ↦
      exec answer s
        (set_action_row s key
          (record row { status = status; removed = removed; failure = failure }))
        (ok tt)
]

unfoldable pub mark_action_done :
    Store → Answer → ActionKey → Option ℕ → Store × Result StoreError (Unit {0})
mark_action_done s answer key removed = finish_action s answer key sent removed none

unfoldable pub mark_action_failed :
    Store → Answer → ActionKey → String → Store × Result StoreError (Unit {0})
mark_action_failed s answer key failure =
    if failure == ""
    then (s, err failure_required)
    else finish_action s answer key failed none (some failure)

unfoldable pub record_action_halt : Store → Answer → ActionKey → Store × Result StoreError ℕ
record_action_halt s answer key = elim (lookup key s.group_actions) [
  | none ↦ exec answer s s (err no_ledger_row)
  | some row ↦
      exec answer s (set_action_row s key (record row { halts = row.halts + 1 }))
        (ok (row.halts + 1))
]
