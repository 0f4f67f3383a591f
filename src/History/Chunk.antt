-- ===== src/History/Chunk.antt =====
-- internal/history/importer.go: the publishing of one chunk of an import. Each attempt of a loop takes
-- the next moment, which says what the database, the broker and the context do, and what others have
-- done to the channel's row by then. A loop that retries for ever runs on fuel: `none` is a loop
-- that has not returned yet. What `Translate` gives is an argument.
pub mod Retrying
pub mod Publishing
pub mod Order
pub mod Returning
pub mod Persisting
use whatsmeow_gateway.Base.{
  ℕ, zero, suc, ◌+◌, ◌*◌, String, Bool, true, false, not, ◌&&◌, ◌||◌, List, [], ◌∷◌, ◌++◌, Option,
  none, some, ◌==◌, string_Eq, if◌then◌else◌, leb, nat_eq, length, min, Result, ok, err,
}
use whatsmeow_gateway.Dedupe.{Answer, clean, refused, lost}
use whatsmeow_gateway.History.Batches.{Chat, Message, split}
use whatsmeow_gateway.History.Registry.{
  ImportError, no_history_import, canceled, store_failed, publish_failed, source_failed,
  out_of_fuel, Table, HistoryImport, found_import, count_history_batch, skip_history_chats, finish_history_import,
}

pub record Moment : Type 0 where
  pub now : ℕ
  pub others : Table → Table
  pub reads : Bool
  pub statement : Answer
  pub broker : Answer
  pub is_canceled : Bool
  pub is_canceled_waiting : Bool

pub record HistoryBatch : Type 0 where
  pub tenant_id : String
  pub channel_id : String
  pub import_id : String
  pub chunk_order : ℕ
  pub source_progress : ℕ
  pub batch_index : ℕ
  pub batches_in_chunk : ℕ
  pub chats : List Chat

pub record HistoryDone : Type 0 where
  pub tenant_id : String
  pub channel_id : String
  pub import_id : String
  pub total_batches : ℕ
  pub skipped_chats : ℕ

pub data Outgoing : Type 0 where
  batch : HistoryBatch → Outgoing
  done : HistoryDone → Outgoing

pub record World : Type 0 where
  pub table : Table
  pub published : List Outgoing
  pub clock : ℕ
  pub waits : List ℕ

abbrev pub Run : Type 0 → Type 0
Run A = Option (World × Result ImportError A)

abbrev pub then_run : {A B : Type 0} → Run A → (World → A → Run B) → Run B
then_run none f = none
then_run (some (w, err e)) f = some (w, err e)
then_run (some (w, ok a)) f = f w a

pub record Limits : Type 0 where
  pub max_messages : ℕ
  pub max_bytes : ℕ
  pub batch_pace : ℕ
  pub retry_first : ℕ
  pub retry_max : ℕ

abbrev pub tick : World → World
tick w = record w { clock = w.clock + 1 }

abbrev pub wait : World → ℕ → World
wait w delay = record w { waits = w.waits ++ (delay ∷ []) }

-- `stillActive`, of what the lookup found.
abbrev pub is_import : String → Option HistoryImport → Bool
is_import import_id none = false
is_import import_id (some active) = active.import_id == import_id

abbrev pub still_active :
    Result ImportError (Option HistoryImport) → String → Result ImportError (Unit {0})
still_active (err e) import_id = err e
still_active (ok active) import_id =
    if is_import import_id active then ok tt else err no_history_import

abbrev pub publish : Answer → World → Outgoing → World × Result ImportError (Unit {0})
publish clean w out = (record w { published = w.published ++ (out ∷ []) }, ok tt)
publish refused w out = (w, err publish_failed)
publish lost w out = (record w { published = w.published ++ (out ∷ []) }, err publish_failed)

abbrev pub publish_active :
    Result ImportError (Unit {0})
    → Answer
    → World
    → Outgoing
    → World × Result ImportError (Unit {0})
publish_active (err e) broker w out = (w, err e)
publish_active (ok _) broker w out = publish broker w out

-- The function that the two calls of `retry` are given.
unfoldable pub attempt : Moment → String → Outgoing → World → World × Result ImportError (Unit {0})
attempt m import_id out w =
    let table = m.others w.table in
    publish_active (still_active (found_import m.reads m.now table) import_id) m.broker
      (tick (record w { table = table })) out

abbrev pub is_no_import : ImportError → Bool
is_no_import no_history_import = true
is_no_import _ = false

module _ (env : ℕ → Moment) (limits : Limits) where
  abbrev pub next_delay : ℕ → ℕ
  next_delay delay = min (delay * 2) limits.retry_max

  -- What `retry` makes of an attempt, and of the rest of the loop.
  abbrev pub after_attempt :
      Moment → World × Result ImportError (Unit {0}) → ℕ → Run (Unit {0}) → Run (Unit {0})
  after_attempt m (w, ok _) delay rest = some (w, ok tt)
  after_attempt m (w, err e) delay rest =
      if is_no_import e
      then some (w, err no_history_import)
      else if m.is_canceled_waiting
      then some (wait w delay, err canceled)
      else rest

  unfoldable pub retry : ℕ → ℕ → String → Outgoing → World → Run (Unit {0})
  retry zero delay import_id out w = none
  retry (suc fuel) delay import_id out w =
      let m = env w.clock in
      let tried = attempt m import_id out w in
      let rest = retry fuel (next_delay delay) import_id out (wait tried.0 delay) in
      after_attempt m tried delay rest

  -- What `persist` makes of a write: a result, or `none` when it goes on without one.
  abbrev pub after_write :
      {A : Type 0}
      → Moment
      → World
      → Result ImportError A
      → ℕ
      → Bool
      → World × Result ImportError (Option A)
      → World × Result ImportError (Option A)
  after_write m w (ok a) delay is_last rest = (w, ok (some a))
  after_write m w (err e) delay is_last rest =
      if is_no_import e
      then (w, err no_history_import)
      else if m.is_canceled
      then (w, err canceled)
      else if is_last
      then (w, ok none)
      else if m.is_canceled_waiting
      then (wait w delay, err canceled)
      else rest

  abbrev pub store_attempts : ℕ
  store_attempts = 5

  -- The loop of `persist`, from the attempt with the given number. An exhausted fuel is an error of
  -- its own.
  unfoldable pub persist_from :
      {A : Type 0}
      → ℕ
      → ℕ
      → ℕ
      → (Moment → Table → Table × Result ImportError A)
      → World
      → World × Result ImportError (Option A)
  persist_from zero number delay write w = (w, err out_of_fuel)
  persist_from (suc fuel) number delay write w =
      let m = env w.clock in
      let (table, result) = write m (m.others w.table) in
      let w' = tick (record w { table = table }) in
      let rest = persist_from fuel (number + 1) (next_delay delay) write (wait w' delay) in
      after_write m w' result delay (nat_eq number store_attempts) rest

  abbrev pub persist :
      {A : Type 0}
      → (Moment → Table → Table × Result ImportError A)
      → World
      → World × Result ImportError (Option A)
  persist write w = persist_from store_attempts 1 limits.retry_first write w

  abbrev pub or_else : ℕ → World × Result ImportError (Option ℕ) → World × Result ImportError ℕ
  or_else n (w, err e) = (w, err e)
  or_else n (w, ok none) = (w, ok n)
  or_else n (w, ok (some counted)) = (w, ok counted)

  unfoldable pub count_batch : String → ℕ → World → World × Result ImportError ℕ
  count_batch import_id published w =
      or_else (published + 1) (persist (λ m. count_history_batch m.statement m.now import_id) w)

  unfoldable pub skip_chats : HistoryImport → List String → World → World × Result ImportError ℕ
  skip_chats active [] w = (w, ok active.skipped_chats)
  skip_chats active (chat ∷ chats) w =
      or_else active.skipped_chats
        (persist (λ m. skip_history_chats m.statement m.now active.import_id (chat ∷ chats)) w)

  -- The sleep between two batches, which takes a moment too.
  abbrev pub paced : Bool → World → World × Result ImportError (Unit {0})
  paced true w = (wait (tick w) limits.batch_pace, err canceled)
  paced false w = (wait (tick w) limits.batch_pace, ok tt)

  abbrev pub pace : ℕ → World → World × Result ImportError (Unit {0})
  pace zero w = (w, ok tt)
  pace (suc n) w = paced (env w.clock).is_canceled_waiting w

  -- The loop over the batches, from the one at `n`; `total` is the count of the import's batches.
  unfoldable pub publish_batches : ℕ → String → ℕ → List HistoryBatch → ℕ → World → Run ℕ
  publish_batches fuel import_id n [] total w = some (w, ok total)
  publish_batches fuel import_id n (b ∷ bs) total w = then_run (some (pace n w)) (λ w _.
      then_run (retry fuel limits.retry_first import_id (batch b) w) (λ w _.
        then_run (some (count_batch import_id total w))
          (λ w total. publish_batches fuel import_id (n + 1) bs total w)))

  unfoldable pub finish : ℕ → HistoryImport → String → ℕ → ℕ → World → Run (Unit {0})
  finish fuel active channel_id total skipped w =
      then_run
        (retry fuel limits.retry_first active.import_id
          (done (record {
            tenant_id = active.tenant_id;
            channel_id = channel_id;
            import_id = active.import_id;
            total_batches = total;
            skipped_chats = skipped;
          }))
          w)
        (λ w _.
          then_run
            (some (persist (λ m. finish_history_import m.statement m.now active.import_id) w))
            (λ w _. some (w, ok tt)))

-- What the chunk itself says: its place in the sync, how far the sync is, and its chats.
pub record Chunk : Type 0 where
  pub channel_id : String
  pub chunk_order : ℕ
  pub progress : ℕ
  pub is_importable : Bool
  pub chats_without_phone : List String
  pub chats : List Chat

abbrev pub finishes_import : Chunk → Bool
finishes_import c = c.is_importable && leb 100 c.progress

abbrev pub numbered : HistoryImport → Chunk → ℕ → ℕ → List (List Chat) → List HistoryBatch
numbered active c count n [] = []
numbered active c count n (chats ∷ rest) =
    record {
      tenant_id = active.tenant_id;
      channel_id = c.channel_id;
      import_id = active.import_id;
      chunk_order = c.chunk_order;
      source_progress = c.progress;
      batch_index = n + 1;
      batches_in_chunk = count;
      chats = chats;
    }
    ∷ numbered active c count (n + 1) rest

module _ (provider_message_id : Message → String) (env : ℕ → Moment) (limits : Limits) where
  abbrev pub batches_of : HistoryImport → Chunk → List HistoryBatch
  batches_of active c =
      let batches = (split provider_message_id limits.max_messages limits.max_bytes c.chats).0 in
      numbered active c (length batches) 0 batches

  unfoldable pub publish_chunk : ℕ → HistoryImport → Chunk → World → Run (Unit {0})
  publish_chunk fuel active c w =
      then_run (some (skip_chats env limits active c.chats_without_phone w)) (λ w skipped.
        then_run
          (publish_batches env limits fuel active.import_id 0 (batches_of active c) active.batches
            w)
          (λ w total.
            if active.finished || not (finishes_import c)
            then some (w, ok tt)
            else finish env limits fuel active c.channel_id total skipped w))

  abbrev pub unless_replaced : Run (Unit {0}) → Run (Unit {0})
  unless_replaced none = none
  unless_replaced (some (w, ok _)) = some (w, ok tt)
  unless_replaced (some (w, err e)) = some (w, if is_no_import e then ok tt else err e)

  abbrev pub import_found :
      ℕ → Result ImportError (Option HistoryImport) → Chunk → World → Run (Unit {0})
  import_found fuel (err e) c w = some (w, err e)
  import_found fuel (ok none) c w = some (w, ok tt)
  import_found fuel (ok (some active)) c w = unless_replaced (publish_chunk fuel active c w)

  unfoldable pub import_chunk : ℕ → Chunk → World → Run (Unit {0})
  import_chunk fuel c w =
      let m = env w.clock in
      let table = m.others w.table in
      import_found fuel (found_import m.reads m.now table) c (tick (record w { table = table }))

  -- `Import`: the chunk is downloaded, imported if it is of an importable type, and released.
  abbrev pub release_after : Run (Unit {0}) → Bool → Run (Unit {0})
  release_after none releases = none
  release_after (some (w, err e)) releases = some (w, err e)
  release_after (some (w, ok _)) true = some (w, ok tt)
  release_after (some (w, ok _)) false = some (w, err source_failed)

  unfoldable pub import : ℕ → Bool → Bool → Chunk → World → Run (Unit {0})
  import fuel downloads releases c w =
      if downloads
      then release_after (if c.is_importable then import_chunk fuel c w else some (w, ok tt))
          releases
      else some (w, err source_failed)
