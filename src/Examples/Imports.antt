-- ===== src/Examples/Imports.antt =====
-- Runs of the import of a channel's history.
use whatsmeow_gateway.Base.{
  ℕ, zero, suc, ◌+◌, ◌≤◌, ◌≡◌, refl, List, [], ◌∷◌, ◌++◌, none, some, true, false, arith, string_Eq,
  lookup,
}
use whatsmeow_gateway.Dedupe.{clean, lost}
use whatsmeow_gateway.History.Batches.{Chat}
use whatsmeow_gateway.History.Queue.{Use, accepts, drains, closes, run, new_importer}
use whatsmeow_gateway.History.Queue.Order.{drainers, of_channel, queue_of, run-serves}
use whatsmeow_gateway.History.Registry.{count_history_batch, ImportRow, HistoryImport}
use whatsmeow_gateway.History.Chunk.{Moment, World, Limits, Chunk, publish_chunk, import, persist_from}
use whatsmeow_gateway.History.Chunk.Order.{IsPublished, publish_chunk-ordered}
use whatsmeow_gateway.History.Chunk.Returning.{has_returned, is_calm, import-returns}
use whatsmeow_gateway.History.Chunk.Persisting.{IsBrief, IsOver, persist-IsBrief}

abbrev uses : List Use
uses =
    accepts "a" 1
    ∷ accepts "b" 2
    ∷ drains "a"
    ∷ accepts "a" 3
    ∷ closes
    ∷ drains "a"
    ∷ accepts "a" 4
    ∷ []

run-serves_example :
    let i = run new_importer uses in
    (drainers "a" i.draining ≡ elim (lookup "a" i.queues) [ none ↦ 0 | some _ ↦ 1 ])
    × (of_channel "a" i.accepted ≡ of_channel "a" i.taken ++ queue_of i "a")
run-serves_example = run-serves uses "a"

-- The first moment loses the broker's confirmation and the database's answer; the others are calm.
abbrev moment : Moment
moment = record {
  now = 100;
  others = λ table. table;
  reads = true;
  statement = clean;
  broker = clean;
  is_canceled = false;
  is_canceled_waiting = false;
}

abbrev env : ℕ → Moment
env zero = record moment { broker = lost; statement = lost }
env (suc n) = moment

abbrev limits : Limits
limits = record {
  max_messages = 1;
  max_bytes = 1000;
  batch_pace = 250;
  retry_first = 1;
  retry_max = 30;
}

abbrev chat : Chat
chat = record { phone = "55"; lid = none; profile_name = none; messages = (1 ∷ []) ∷ (2 ∷ []) ∷ [] }

abbrev chunk : Chunk
chunk = record {
  channel_id = "channel";
  chunk_order = 3;
  progress = 100;
  is_importable = true;
  chats_without_phone = [];
  chats = chat ∷ [];
}

abbrev row : ImportRow
row = record {
  tenant_id = "tenant";
  import_id = "import";
  batches = 0;
  skipped_chats = [];
  finished = false;
  touched_at = 90;
}

abbrev world : World
world = record { table = some row; published = []; clock = 0; waits = [] }

abbrev active : HistoryImport
active = record {
  tenant_id = "tenant";
  import_id = "import";
  batches = 0;
  skipped_chats = 0;
  finished = false;
}

publish_chunk-ordered_example :
    IsPublished
      (λ m. "id")
      env
      limits
      active
      chunk
      world
      (publish_chunk (λ m. "id") env limits 5 active chunk world)
publish_chunk-ordered_example = publish_chunk-ordered (λ m. "id") env limits 5 active chunk world

calm_later : (n : ℕ) → 1 ≤ n → is_calm (env n) ≡ true
calm_later zero le = absurd (omega arith)
calm_later (suc n) le = refl

import-returns_example : has_returned (import (λ m. "id") env limits 2 true true chunk world) ≡ true
import-returns_example =
    import-returns (λ m. "id") env limits 2 (λ n. 1) (λ n. omega arith)
      (λ n. calm_later (n + 1) (omega arith)) true true chunk world

persist-IsBrief_example :
    let persisted =
      persist_from env limits 5 1 limits.retry_first
        (λ m. count_history_batch m.statement m.now "import") world in
    IsBrief limits 5 world persisted.0 × IsOver persisted
persist-IsBrief_example =
    persist-IsBrief env limits (λ m. count_history_batch m.statement m.now "import") world 5
      (omega arith)
