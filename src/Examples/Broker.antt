-- ===== src/Examples/Broker.antt =====
-- Runs of internal/amqp.
use whatsmeow_gateway.Base.{
  ℕ, List, [], ◌∷◌, map, none, true, false, ◌≡◌, refl, lookup, insert, string_Eq,
}
use mathlib.Core.List.{Perm}
use whatsmeow_gateway.Amqp.Lanes.{Step, offer, works, new_lanes, run_steps, workers_of}
use whatsmeow_gateway.Amqp.Lanes.Jobs.{jobs_of}
use whatsmeow_gateway.Amqp.Lanes.Order.{Orderly, run_steps-Orderly}
use whatsmeow_gateway.Amqp.Consumer.{
  done, requeue, tag_of, give_all_back, consume_serially, requeue_in_order, ack, give_back,
}
use whatsmeow_gateway.Amqp.Consumer.Settlement.{
  consume_serially_lem, requeue_in_order_lem, IsAscending,
}
use whatsmeow_gateway.Amqp.Overflow.{new_overflow, route, admits, send}
use whatsmeow_gateway.Amqp.Overflow.System.{System, deliver, fresh, Reach, here, next}
use whatsmeow_gateway.Amqp.Overflow.Order.{quiet, InOrder, Reach-InOrder}

abbrev offers : List (Step ℕ)
offers = offer "channel" 1 ∷ offer "channel" 2 ∷ works "channel" 0 ∷ works "channel" 0 ∷ []

run_steps-Orderly_example :
    Orderly 1
      (lookup "channel" (run_steps (new_lanes 1) offers).pending)
      (workers_of (run_steps (new_lanes 1) offers) "channel")
      (jobs_of "channel" (run_steps (new_lanes 1) offers).finished)
      (jobs_of "channel" (run_steps (new_lanes 1) offers).accepted)
run_steps-Orderly_example = run_steps-Orderly 1 offers "channel"

consume_serially_lem_example :
    (consume_serially [] ((1, requeue) ∷ (2, done) ∷ []) ≡ ack 2 ∷ give_back 1 ∷ [])
    × Perm (map tag_of (consume_serially [] ((1, requeue) ∷ (2, done) ∷ []))) (1 ∷ 2 ∷ [])
unfolding give_all_back
consume_serially_lem_example = consume_serially_lem ((1, requeue) ∷ (2, done) ∷ [])

requeue_in_order_lem_example :
    Perm (map tag_of (requeue_in_order (3 ∷ 1 ∷ 2 ∷ []))) (3 ∷ 1 ∷ 2 ∷ [])
    × IsAscending (map tag_of (requeue_in_order (3 ∷ 1 ∷ 2 ∷ [])))
requeue_in_order_lem_example = requeue_in_order_lem (3 ∷ 1 ∷ 2 ∷ [])

-- The first delivery finds its lane full, and the second waits behind it.
abbrev first_moved : System
first_moved =
    deliver (record quiet { arrived = 7 ∷ [] }) 7 (route quiet.overflow "channel" none 0 false)

abbrev both_moved : System
both_moved =
    deliver (record first_moved { arrived = 7 ∷ 8 ∷ [] }) 8
      (route first_moved.overflow "channel" none 1 true)

arrivals : Reach "channel" quiet both_moved
unfolding new_overflow lookup insert route admits send
arrivals = next (next here (fresh quiet 7 0 false refl)) (fresh first_moved 8 1 true refl)

Reach-InOrder_example : InOrder both_moved
Reach-InOrder_example = Reach-InOrder "channel" arrivals
