-- ===== src/Amqp/Consumer.antt =====
-- `consumeSerially`, `settle`, `runPairSession` and `requeueInOrder` of internal/amqp/consumer.go
-- and group_lanes.go: what becomes of each delivery.
pub mod Settlement
use whatsmeow_gateway.Base.{
  ℕ, List, [], ◌∷◌, ◌++◌, Bool, true, false, Option, none, some, leb, if◌then◌else◌,
}

-- What a handler returns: nil, an error, or one that wraps `ErrRequeue`.
pub data Handled : Type 0 where
  done failed requeue : Handled

-- What the consumer tells the broker of a delivery, by its tag.
pub data Verdict : Type 0 where
  ack : ℕ → Verdict
  -- `Nack(false, false)`: to the dead-letter queue.
  reject : ℕ → Verdict
  -- `Nack(false, true)`: back to the queue.
  give_back : ℕ → Verdict

abbrev pub tag_of : Verdict → ℕ
tag_of (ack tag) = tag
tag_of (reject tag) = tag
tag_of (give_back tag) = tag

-- `settle`; `ErrRequeue` is an error like another here.
unfoldable pub settle : ℕ → Handled → Verdict
settle tag done = ack tag
settle tag failed = reject tag
settle tag requeue = reject tag

-- `d.Nack(false, true)` on each delivery.
unfoldable pub give_all_back : List ℕ → List Verdict
give_all_back [] = []
give_all_back (tag ∷ tags) = give_back tag ∷ give_all_back tags

-- The loop of `consumeSerially`, with the deliveries set aside so far, and what follows it once
-- the broker has closed the channel.
unfoldable pub consume_serially : List ℕ → List (ℕ × Handled) → List Verdict
consume_serially set_aside [] = give_all_back set_aside
consume_serially set_aside ((tag, requeue) ∷ deliveries) =
    consume_serially (set_aside ++ tag ∷ []) deliveries
consume_serially set_aside ((tag, done) ∷ deliveries) =
    settle tag done ∷ consume_serially set_aside deliveries
consume_serially set_aside ((tag, failed) ∷ deliveries) =
    settle tag failed ∷ consume_serially set_aside deliveries

-- `runPairSession`: what it tells the broker while the handler runs, if the handler accepts, and
-- after it. The `sync.Once` lets the first of the two through.
unfoldable pub run_pair_session : ℕ → ℕ → Handled → List Verdict
run_pair_session tag accepts result = elim (leb accepts 0) [
  | true ↦ settle tag result ∷ []
  | false ↦ ack tag ∷ []
]

-- `slices.SortFunc` by the delivery tag: the tags in ascending order.
unfoldable pub insert_tag : ℕ → List ℕ → List ℕ
insert_tag tag [] = tag ∷ []
insert_tag tag (t ∷ ts) = if leb tag t then tag ∷ t ∷ ts else t ∷ insert_tag tag ts

unfoldable pub sort_tags : List ℕ → List ℕ
sort_tags [] = []
sort_tags (t ∷ ts) = insert_tag t (sort_tags ts)

unfoldable pub requeue_in_order : List ℕ → List Verdict
requeue_in_order tags = give_all_back (sort_tags tags)
