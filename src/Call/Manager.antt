-- ===== src/Call/Manager.antt =====
-- internal/call/manager.go: the calls of all channels, what their callbacks publish and how a call
-- ends; the streams of internal/call/stream.go as far as they are attached, asked for a key frame
-- and closed. A callback and a command run as one step. The upload of a recording runs by itself
-- after the call: it waits in `uploads`. A publication that the broker refuses is only logged.
use whatsmeow_gateway.Base.{
  ℕ, suc, ◌/◌, String, List, [], ◌∷◌, ◌++◌, Bool, true, false, ◌&&◌, not, Option, none, some,
  insert, nat_Eq, string_Eq, ◌==◌, if◌then◌else◌,
}
use whatsmeow_gateway.Groups.Service.{other}
use whatsmeow_gateway.SenderId.{Address, resolve, from_of}
use whatsmeow_gateway.Call.Contracts.{
  Direction, EventType, Event, bare_event, Picture, Identity, InboundCallEvent, inbound, outbound,
}
use whatsmeow_gateway.Call.Outbound.{new_outbound}
use whatsmeow_gateway.Call.Registry.{LiveCall, Tracked, Registry, register}

pub record Stream : Type 0 where
  pub closed : Bool
  pub keyframe : Bool

pub record Manager : Type 0 where
  pub registry : Registry
  pub calls : List (ℕ × Tracked)
  pub streams : List (ℕ × Stream)
  pub uploads : List ℕ
  pub published : List Event
  pub inbound : List InboundCallEvent
  pub next : ℕ

abbrev pub new_manager : Manager
new_manager = record {
  registry = [];
  calls = [];
  streams = [];
  uploads = [];
  published = [];
  inbound = [];
  next = 0;
}

-- What the manager is built with: the identity of a channel, `types.ParseJID`,
-- the LID store and the pictures of a channel, and whether calls are recorded.
pub record Surroundings : Type 0 where
  pub identity : String → Identity
  pub parse_jid : String → Option Address
  pub pn_for_lid : String → Option (Address → Option Address)
  pub picture_of : String → Address → Option Picture
  pub record_calls : Bool

abbrev pub second : ℕ
second = 1000000000

-- `publish`.
abbrev pub publish : Event → Manager → Manager
publish e m = record m { published = m.published ++ e ∷ [] }

abbrev pub set_call : ℕ → Tracked → Manager → Manager
set_call h t m = record m { calls = insert h t m.calls }

-- `event`.
abbrev pub event : Surroundings → ℕ → Tracked → EventType → Event
event env now t type =
    let id = env.identity t.channel_id in
    record (bare_event type t.direction) {
      phone_number_id = id.phone_number_id;
      tenant_id = id.tenant_id;
      channel_id = t.channel_id;
      call_id = t.call_id;
      from = from_of t.sender_lid t.sender_pn;
      sender_lid = t.sender_lid;
      sender_pn = t.sender_pn;
      timestamp = now / second;
      is_video = t.is_video;
    }

-- `NewInboundCallEvent`.
abbrev pub new_inbound_call_event :
    Identity
    → String
    → String
    → String
    → String
    → Direction
    → Bool
    → Bool
    → ℕ
    → Option Picture
    → InboundCallEvent
new_inbound_call_event id channel_id call_id lid pn direction from_me video timestamp picture =
    record {
      phone_number_id = id.phone_number_id;
      tenant_id = id.tenant_id;
      channel_id = channel_id;
      from = from_of lid pn;
      sender_lid = lid;
      sender_pn = pn;
      from_me = from_me;
      provider_message_id = call_id;
      timestamp = timestamp;
      type = "call";
      rich_content = record {
        kind = "call";
        direction = direction;
        is_video = video;
        state = "ringing";
      };
      profile_picture = picture;
    }

abbrev is_outbound : Direction → Bool
is_outbound inbound = false
is_outbound outbound = true

-- `publishInbound`.
abbrev pub publish_inbound : Surroundings → ℕ → Tracked → Manager → Manager
publish_inbound env now t m =
    let e =
      new_inbound_call_event (env.identity t.channel_id) t.channel_id t.call_id t.sender_lid
        t.sender_pn t.direction (is_outbound t.direction) t.is_video (now / second)
        t.profile_picture in
    record m { inbound = m.inbound ++ e ∷ [] }

abbrev no_address : Address
no_address = record { user = ""; server = other }

-- `parsePeerJID`.
abbrev pub parse_peer : Surroundings → String → Address
parse_peer env peer = elim (env.parse_jid peer) [ none ↦ no_address | some a ↦ a ]

-- `Track`: the call, its handle, and the manager that has registered it.
unfoldable pub new_tracked : Surroundings → ℕ → String → LiveCall → Direction → Bool → Tracked
new_tracked env now channel_id live direction recorded =
    let peer = parse_peer env live.peer in
    let (lid, pn) = resolve (env.pn_for_lid channel_id) peer no_address in
    record {
      call_id = live.id;
      channel_id = channel_id;
      direction = direction;
      peer = live.peer;
      sender_lid = lid;
      sender_pn = pn;
      profile_picture =
          if not (is_outbound direction) && not ((lid == "") && (pn == ""))
          then env.picture_of channel_id peer
          else none;
      is_video = live.is_video;
      live = live;
      recording = recorded;
      early_end = live.early_end;
      outbound = new_outbound;
      stream = none;
      finished = false;
      started_at = now;
      answered_at = none;
      ended = false;
    }

abbrev pub track : ℕ → Tracked → Manager → Manager
track h t m = record m {
  registry = register t.channel_id t.call_id h m.registry;
  calls = insert h t m.calls;
  next = suc m.next;
}
