-- ===== src/Amqp/Overflow.antt =====
-- internal/amqp/group_overflow.go: deliveries that find no room in their lane are moved to the tail
-- of the queue as numbered copies, so that a channel's commands stay in order.
-- A delivery is what `copyNumber` reads of it: its sequence number if it is a copy that this
-- consumer made (the nonce header matches and the number is there), nothing otherwise. Times are in
-- seconds; `unpublished` counts the copies on their way through `run` and `moveToTail`. An item
-- under way holds a pointer to its spill, which may be deleted and followed by another: each spill
-- has an identity, and what happens to a deleted one is seen by nobody.
pub mod System
pub mod Waiting
pub mod Order
use whatsmeow_gateway.Base.{
  ℕ, suc, ◌+◌, ◌-◌, String, List, [], ◌∷◌, ◌++◌, Bool, true, false, ◌&&◌, Option, none, some, ltb,
  leb, nat_eq, if◌then◌else◌, string_Eq, lookup, insert, delete,
}

abbrev pub overflow_stall_after : ℕ
overflow_stall_after = 30

pub record ChannelSpill : Type 0 where
  pub id : ℕ
  pub next : ℕ
  pub expected : ℕ
  pub last_progress : ℕ
  pub unpublished : ℕ

pub record Overflow : Type 0 where
  pub channels : List (String × ChannelSpill)
  pub fresh_id : ℕ

unfoldable pub new_overflow : Overflow
new_overflow = record { channels = []; fresh_id = 0 }

abbrev pub put : Overflow → String → ChannelSpill → Overflow
put o channel_id spill = record o { channels = insert channel_id spill o.channels }

abbrev pub forget : Overflow → String → Overflow
forget o channel_id = record o { channels = delete channel_id o.channels }

abbrev pub has_stalled : ChannelSpill → ℕ → Bool
has_stalled spill now =
    nat_eq spill.unpublished 0 && ltb overflow_stall_after (now - spill.last_progress)

abbrev pub copy_due : Option ℕ → ChannelSpill → Bool
copy_due none spill = false
copy_due (some seq) spill = leb seq spill.expected

-- `admits`.
unfoldable pub admits : Overflow → String → Option ℕ → ℕ → Overflow × Bool
admits o channel_id copy now = elim (lookup channel_id o.channels) [
  | none ↦ (o, true)
  | some spill ↦
      if has_stalled spill now then (forget o channel_id, true) else (o, copy_due copy spill)
]

abbrev pub progress : Overflow → String → ℕ → ℕ → ChannelSpill → Overflow
progress o channel_id seq now spill =
    let touched = record spill { last_progress = now } in
    if nat_eq seq spill.expected
    then (if nat_eq (spill.expected + 1) spill.next
        then forget o channel_id
        else put o channel_id (record touched { expected = spill.expected + 1 }))
    else put o channel_id touched

-- `admitted`.
unfoldable pub admitted : Overflow → String → Option ℕ → ℕ → Overflow
admitted o channel_id copy now = elim (lookup channel_id o.channels) [
  | none ↦ o
  | some spill ↦ elim copy [ none ↦ o | some seq ↦ progress o channel_id seq now spill ]
]

abbrev pub new_spill : ℕ → ℕ → ChannelSpill
new_spill id now = record { id = id; next = 1; expected = 1; last_progress = now; unpublished = 0 }

abbrev pub numbered : Overflow → String → ChannelSpill → Overflow × ℕ
numbered o channel_id spill = (
  put o channel_id (record spill { next = spill.next + 1; unpublished = spill.unpublished + 1 }),
  spill.next,
)

abbrev pub renumbered : Overflow → String → ChannelSpill → Option ℕ → Overflow × ℕ
renumbered o channel_id spill none = numbered o channel_id spill
renumbered o channel_id spill (some seq) =
    (put o channel_id (record spill { unpublished = spill.unpublished + 1 }), seq)

-- `send`: the number under which the delivery goes to the tail.
unfoldable pub send : Overflow → String → Option ℕ → ℕ → Overflow × ℕ
send o channel_id copy now = elim (lookup channel_id o.channels) [
  | none ↦ numbered (record o { fresh_id = suc o.fresh_id }) channel_id (new_spill o.fresh_id now)
  | some spill ↦ renumbered o channel_id spill copy
]

-- `item.spill.unpublished.Add(-1)` in `run`, once `moveToTail` returns.
unfoldable pub moved : Overflow → String → ℕ → Overflow
moved o channel_id id = elim (lookup channel_id o.channels) [
  | none ↦ o
  | some spill ↦
      if nat_eq spill.id id
      then put o channel_id (record spill { unpublished = spill.unpublished - 1 })
      else o
]

abbrev pub admit_or_send : Overflow × Bool → String → Option ℕ → ℕ → Bool → Overflow × Option ℕ
admit_or_send (o, false) channel_id copy now room =
    ((send o channel_id copy now).0, some (send o channel_id copy now).1)
admit_or_send (o, true) channel_id copy now room =
    if room
    then (admitted o channel_id copy now, none)
    else ((send o channel_id copy now).0, some (send o channel_id copy now).1)

-- The part of `consumePerChannel`'s loop that decides where a delivery goes: into its lane, if the
-- overflow admits it and the lane has room, or to the tail under a number.
unfoldable pub route : Overflow → String → Option ℕ → ℕ → Bool → Overflow × Option ℕ
route o channel_id copy now room =
    admit_or_send (admits o channel_id copy now) channel_id copy now room
