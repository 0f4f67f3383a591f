-- ===== src/Call/Contracts.antt =====
-- internal/call/contracts.go, internal/call/inbound.go and internal/call/port.go: the events of a
-- call and what a calling client offers. The numbers that pass through from the client to an event
-- are natural numbers; a timestamp is the number whose digits its field holds.
use whatsmeow_gateway.Base.{ℕ, String, List, Bool, false, Option, none}

-- `Phase`.
pub data Phase : Type 0 where
  phase_idle phase_calling phase_ringing phase_connecting phase_active phase_ended : Phase
  phase_waiting_room phase_other : Phase

abbrev pub phase_name : Phase → String
phase_name phase_idle = "idle"
phase_name phase_calling = "calling"
phase_name phase_ringing = "ringing"
phase_name phase_connecting = "connecting"
phase_name phase_active = "active"
phase_name phase_ended = "ended"
phase_name phase_waiting_room = "waiting_room"
phase_name phase_other = "unknown"

pub data Direction : Type 0 where
  inbound outbound : Direction

pub data EventType : Type 0 where
  incoming ringing accepted rejected ended recording state_changed video_state reaction : EventType
  group_state waiting_room hand screen_share link_created link_preview command_ack : EventType
  command_failed : EventType

pub data ErrorCode : Type 0 where
  call_not_found unknown_action invalid_target action_failed no_caller media_fetch : ErrorCode
  recording_upload_failed : ErrorCode

pub record VideoState : Type 0 where
  pub active : Bool
  pub upgrade : Bool
  pub orientation : ℕ
  pub raw : ℕ

pub record Reaction : Type 0 where
  pub emoji : String
  pub participant_id : String
  pub sender : String
  pub removed : Bool

pub record GroupParticipant : Type 0 where
  pub jid : String
  pub pn : String
  pub state : String
  pub hand_raised : Bool

pub record GroupState : Type 0 where
  pub transaction_id : ℕ
  pub participants : List GroupParticipant

pub record WaitingRoomUser : Type 0 where
  pub jid : String
  pub pn : String
  pub state : String

pub record WaitingRoom : Type 0 where
  pub enabled : Bool
  pub is_admin : Bool
  pub in_waiting_room : Bool
  pub transaction_id : ℕ
  pub users : List WaitingRoomUser

pub record HandState : Type 0 where
  pub participant : String
  pub raised : Bool

pub record ScreenShare : Type 0 where
  pub participant : String
  pub active : Bool
  pub version : ℕ

pub record Media : Type 0 where
  pub key : String
  pub mime_type : String
  pub filename : String
  pub duration : ℕ

pub record EventVideoState : Type 0 where
  pub active : Bool
  pub upgrade : Bool
  pub orientation : ℕ

pub record EventReaction : Type 0 where
  pub emoji : String
  pub sender : String
  pub removed : Bool

pub record EventLink : Type 0 where
  pub token : String
  pub url : String
  pub video : Bool
  pub approval_required : Bool
  pub is_admin : Bool

pub record EventError : Type 0 where
  pub code : ErrorCode
  pub reason : String

pub record Event : Type 0 where
  pub phone_number_id : String
  pub tenant_id : String
  pub channel_id : String
  pub call_id : String
  pub command_id : String
  pub from : String
  pub sender_lid : String
  pub sender_pn : String
  pub direction : Direction
  pub type : EventType
  pub timestamp : ℕ
  pub state : String
  pub is_video : Bool
  pub duration : ℕ
  pub reason : String
  pub muted : Option Bool
  pub media : Option Media
  pub peer_media : Option Media
  pub operator_media : Option Media
  pub video_media : Option Media
  pub video : Option EventVideoState
  pub reacted : Option EventReaction
  pub group : Option GroupState
  pub waiting : Option WaitingRoom
  pub raised_hand : Option HandState
  pub shared_screen : Option ScreenShare
  pub link : Option EventLink
  pub failure : Option EventError

-- An event literal's fields that it does not name.
abbrev pub bare_event : EventType → Direction → Event
bare_event t d = record {
  phone_number_id = "";
  tenant_id = "";
  channel_id = "";
  call_id = "";
  command_id = "";
  from = "";
  sender_lid = "";
  sender_pn = "";
  direction = d;
  type = t;
  timestamp = 0;
  state = "";
  is_video = false;
  duration = 0;
  reason = "";
  muted = none;
  media = none;
  peer_media = none;
  operator_media = none;
  video_media = none;
  video = none;
  reacted = none;
  group = none;
  waiting = none;
  raised_hand = none;
  shared_screen = none;
  link = none;
  failure = none;
}

-- `avatar.Picture`.
pub record Picture : Type 0 where
  pub key : String
  pub id : String
  pub mime_type : String

pub record Identity : Type 0 where
  pub phone_number_id : String
  pub tenant_id : String

pub record InboundCallRich : Type 0 where
  pub kind : String
  pub direction : Direction
  pub is_video : Bool
  pub state : String

pub record InboundCallEvent : Type 0 where
  pub phone_number_id : String
  pub tenant_id : String
  pub channel_id : String
  pub from : String
  pub sender_lid : String
  pub sender_pn : String
  pub from_me : Bool
  pub provider_message_id : String
  pub timestamp : ℕ
  pub type : String
  pub rich_content : InboundCallRich
  pub profile_picture : Option Picture
