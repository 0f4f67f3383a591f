-- ===== src/Call/Registry.antt =====
-- internal/call/registry.go: the live calls by channel and call id. A call is an object that its
-- callbacks share: the registry holds its handle, a number, and the calls stand in a heap.
pub mod Names
use whatsmeow_gateway.Base.{
  ℕ, String, List, [], Bool, true, false, Option, none, some, lookup, insert, delete, string_Eq,
  nat_Eq, if◌then◌else◌, map,
}
use whatsmeow_gateway.Call.Contracts.{Direction, Picture}
use whatsmeow_gateway.Call.Outbound.{Outbound, is_empty}

-- The operations of `LiveCall` that a command asks for.
pub data LiveAction : Type 0 where
  answer reject hangup start_video accept_video stop_video start_screen_share : LiveAction
  stop_screen_share : LiveAction
  set_video_enabled set_hand_raised set_approval_required : Bool → LiveAction
  set_video_orientation : ℕ → LiveAction
  send_reaction add_participant ring_participant admit_participant deny_participant :
      String → LiveAction

-- `LiveCall`: `early_end` is the reason, if the call ends while it is being wired up; `perform` is
-- the error of an operation.
pub record LiveCall : Type 0 where
  pub id : String
  pub peer : String
  pub is_video : Bool
  pub early_end : Option String
  pub perform : LiveAction → Option String

-- `Tracked`; `recording` says that there is a recorder, `ended` that `endOnce` has run, and
-- `answered_at` is the time that `acceptOnce` keeps.
pub record Tracked : Type 0 where
  pub call_id : String
  pub channel_id : String
  pub direction : Direction
  pub peer : String
  pub sender_lid : String
  pub sender_pn : String
  pub profile_picture : Option Picture
  pub is_video : Bool
  pub live : LiveCall
  pub recording : Bool
  pub early_end : Option String
  pub outbound : Outbound
  pub stream : Option ℕ
  pub finished : Bool
  pub started_at : ℕ
  pub answered_at : Option ℕ
  pub ended : Bool

-- `setStream`: the stream that was current, or a refusal once the call is finished.
abbrev pub set_stream : ℕ → Tracked → Option (Option ℕ) × Tracked
set_stream s t = if t.finished then (none, t) else (some t.stream, record t { stream = some s })

-- `finishStream`.
abbrev pub finish_stream : Tracked → Option ℕ × Tracked
finish_stream t = (t.stream, record t { stream = none; finished = true })

abbrev pub is_current : ℕ → Option ℕ → Bool
is_current s none = false
is_current s (some r) = nat_Eq.same r s

-- `clearStream`.
abbrev pub clear_stream : ℕ → Tracked → Bool × Tracked
clear_stream s t = if is_current s t.stream then (true, record t { stream = none }) else (false, t)

abbrev pub Channel : Type 0
Channel = List (String × ℕ)

abbrev pub Registry : Type 0
Registry = List (String × Channel)

abbrev channel_of : Option Channel → Channel
channel_of none = []
channel_of (some c) = c

-- `Insert`.
unfoldable pub register : String → String → ℕ → Registry → Registry
register channel_id call_id h r =
    insert channel_id (insert call_id h (channel_of (lookup channel_id r))) r

-- `Get`.
unfoldable pub registered : String → String → Registry → Option ℕ
registered channel_id call_id r = lookup call_id (channel_of (lookup channel_id r))

-- `Remove`: whether the call was there; a channel without calls goes too.
unfoldable pub unregister : String → String → Registry → Bool × Registry
unregister channel_id call_id r = elim (lookup channel_id r) [
  | none ↦ (false, r)
  | some channel ↦ elim (lookup call_id channel) [
    | none ↦ (false, r)
    | some h ↦
        let rest = delete call_id channel in
        if is_empty rest then (true, delete channel_id r) else (true, insert channel_id rest r)
  ]
]

-- `TakeChannel`.
unfoldable pub take_channel : String → Registry → List ℕ × Registry
take_channel channel_id r = elim (lookup channel_id r) [
  | none ↦ ([], r)
  | some channel ↦ (map (λ (e : String × ℕ). e.1) channel, delete channel_id r)
]

-- `Channels`.
abbrev pub channels : Registry → List String
channels r = map (λ (e : String × Channel). e.0) r
