-- ===== src/History/Registry.antt =====
-- internal/registry/history.go: the record of a channel's history import, one row of the table.
-- The database answers a statement as in the ledger: it runs it, refuses it, or runs it and loses the
-- answer. Times are in seconds.
use whatsmeow_gateway.Base.{
  ℕ, ◌+◌, String, Bool, true, false, not, ◌&&◌, ◌||◌, List, [], ◌∷◌, Option, none, some, ◌==◌,
  string_Eq, if◌then◌else◌, ltb, length, contains, Result, ok, err,
}
use whatsmeow_gateway.Dedupe.{Answer, clean, refused, lost}

pub data ImportError : Type 0 where
  no_history_import canceled store_failed publish_failed source_failed : ImportError
  -- The model's own: the code has no such error.
  out_of_fuel : ImportError

pub record ImportRow : Type 0 where
  pub tenant_id : String
  pub import_id : String
  pub batches : ℕ
  pub skipped_chats : List String
  pub finished : Bool
  pub touched_at : ℕ

abbrev pub history_quiet_period : ℕ
history_quiet_period = 1800

abbrev pub is_live : ℕ → ImportRow → Bool
is_live now row = not row.finished || ltb now (row.touched_at + history_quiet_period)

pub record HistoryImport : Type 0 where
  pub tenant_id : String
  pub import_id : String
  pub batches : ℕ
  pub skipped_chats : ℕ
  pub finished : Bool

abbrev pub import_of : ImportRow → HistoryImport
import_of row = record {
  tenant_id = row.tenant_id;
  import_id = row.import_id;
  batches = row.batches;
  skipped_chats = length row.skipped_chats;
  finished = row.finished;
}

-- `ActiveHistoryImport`, with whether the read succeeds.
abbrev pub found_import : Bool → ℕ → Option ImportRow → Result ImportError (Option HistoryImport)
found_import false now row = err store_failed
found_import true now none = ok none
found_import true now (some row) = ok (if is_live now row then some (import_of row) else none)

abbrev pub Table : Type 0
Table = Option ImportRow

abbrev pub statement {ℓ} :
    {A : Type ℓ} → Answer → Table → Table → Result ImportError A → Table × Result ImportError A
statement clean before after r = (after, r)
statement refused before after r = (before, err store_failed)
statement lost before after r = (after, err store_failed)

-- Whether an update finds its row.
abbrev pub is_updated : ℕ → String → ImportRow → Bool
is_updated now import_id row = row.import_id == import_id && is_live now row

abbrev pub count_row : Answer → ℕ → Table → ImportRow → Bool → Table × Result ImportError ℕ
count_row a now table row false = statement a table table (err no_history_import)
count_row a now table row true =
    statement a table (some (record row { batches = row.batches + 1; touched_at = now }))
      (ok (row.batches + 1))

unfoldable pub count_history_batch : Answer → ℕ → String → Table → Table × Result ImportError ℕ
count_history_batch a now import_id none = statement a none none (err no_history_import)
count_history_batch a now import_id (some row) =
    count_row a now (some row) row (is_updated now import_id row)

-- `SELECT DISTINCT unnest(…)`.
abbrev pub with_chats : List String → List String → List String
with_chats known [] = known
with_chats known (chat ∷ chats) =
    let more = with_chats known chats in if contains chat more then more else chat ∷ more

abbrev pub skip_row :
    Answer → ℕ → List String → Table → ImportRow → Bool → Table × Result ImportError ℕ
skip_row a now chats table row false = statement a table table (err no_history_import)
skip_row a now chats table row true =
    let all = with_chats row.skipped_chats chats in
    statement a table (some (record row { skipped_chats = all; touched_at = now }))
      (ok (length all))

unfoldable pub skip_history_chats :
    Answer → ℕ → String → List String → Table → Table × Result ImportError ℕ
skip_history_chats a now import_id chats none = statement a none none (err no_history_import)
skip_history_chats a now import_id chats (some row) =
    skip_row a now chats (some row) row (is_updated now import_id row)

abbrev pub finish_row :
    Answer → ℕ → Table → ImportRow → Bool → Table × Result ImportError (Unit {0})
finish_row a now table row false = statement a table table (ok tt)
finish_row a now table row true =
    statement a table (some (record row { finished = true; touched_at = now })) (ok tt)

unfoldable pub finish_history_import :
    Answer → ℕ → String → Table → Table × Result ImportError (Unit {0})
finish_history_import a now import_id none = statement a none none (ok tt)
finish_history_import a now import_id (some row) =
    finish_row a now (some row) row (row.import_id == import_id && not row.finished)
