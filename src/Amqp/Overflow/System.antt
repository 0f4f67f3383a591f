-- ===== src/Amqp/Overflow/System.antt =====
-- One channel of internal/amqp/group_overflow.go with the tail of its queue, and its steps.
use whatsmeow_gateway.Base.{
  ℕ, String, List, [], ◌∷◌, ◌++◌, Bool, false, Option, none, some, string_Eq, lookup, ◌≡◌,
}
use whatsmeow_gateway.Amqp.Overflow.{Overflow, ChannelSpill, has_stalled, moved, route}

-- One channel's view: the overflow, the copies at the tail of the queue, and what has arrived and
-- what has been put into the lane, in order. Deliveries are told apart by a number.
pub record System : Type 0 where
  pub overflow : Overflow
  pub tail : List (ℕ × ℕ)
  pub arrived : List ℕ
  pub started : List ℕ

abbrev pub deliver : System → ℕ → Overflow × Option ℕ → System
deliver s m (o, none) = record s { overflow = o; started = s.started ++ m ∷ [] }
deliver s m (o, some seq) = record s { overflow = o; tail = s.tail ++ (seq, m) ∷ [] }

-- The channel's spill has not been given up for stalled.
abbrev pub stalled : Option ChannelSpill → ℕ → Bool
stalled none now = false
stalled (some spill) now = has_stalled spill now

abbrev pub Steady : String → System → ℕ → Type 0
Steady channel_id s now = stalled (lookup channel_id s.overflow.channels) now ≡ false

pub data Step (channel_id : String) : System → System → Type 0 where
  fresh :
      (s : System) (m now : ℕ) (room : Bool)
      → Steady channel_id s now
      → Step channel_id s (
          deliver
            (record s { arrived = s.arrived ++ m ∷ [] })
            m
            (route s.overflow channel_id none now room))
  copied :
      (s : System) (before after : List (ℕ × ℕ)) (seq m now : ℕ) (room : Bool)
      → s.tail ≡ before ++ (seq, m) ∷ after
      → Steady channel_id s now
      → Step channel_id s (
          deliver
            (record s { tail = before ++ after })
            m
            (route s.overflow channel_id (some seq) now room))
  moves :
      (s : System) (id : ℕ)
      → Step channel_id s (record s { overflow = moved s.overflow channel_id id })

pub data Reach (channel_id : String) (s : System) : System → Type 0 where
  here : Reach channel_id s s
  next : {t u : System} → Reach channel_id s t → Step channel_id t u → Reach channel_id s u
