-- ===== src/Call/Command.antt =====
-- internal/call/command.go and the `playVideo` of internal/call/annexb.go: a command on a call, and
-- the events that answer it. The client that places calls and the fetch of a medium's bytes are
-- parameters; a video plays by itself, and only what is checked before is in the model.
use whatsmeow_gateway.Base.{
  ℕ, ◌/◌, String, List, Bool, false, ◌&&◌, Option, none, some, nat_Eq, string_Eq, ◌==◌,
  if◌then◌else◌, ltb, length, Result, ok, err,
}
use whatsmeow_gateway.Call.Contracts.{
  Event, EventType, EventLink, ErrorCode, bare_event, outbound, ringing, link_created, link_preview,
  command_ack, command_failed, invalid_target, action_failed,
}
use whatsmeow_gateway.Call.Registry.{LiveCall, LiveAction, Tracked}
use whatsmeow_gateway.Call.Manager.{
  Manager, Surroundings, second, publish, event, publish_inbound, new_tracked, track,
}
use whatsmeow_gateway.Call.Lifecycle.{flush_early_end}

-- The actions that place a call.
pub data CallerAction : Type 0 where
  dial group_dial group_dial_by_id create_link preview_link join_link : CallerAction

-- The actions on a live call: those of the call itself with their arguments, the two that play a
-- medium, and any other text.
pub data LiveCommand : Type 0 where
  live : LiveAction → LiveCommand
  play_audio play_video : LiveCommand
  unknown : String → LiveCommand

pub data Action : Type 0 where
  placing : CallerAction → Action
  on_live : LiveCommand → Action

-- `amqp.GatewayCallCommand`; the arguments of a live action stand with it.
pub record CallCommand : Type 0 where
  pub tenant_id : String
  pub channel_id : String
  pub command_id : String
  pub call_id : String
  pub action : Action
  pub to : String
  pub targets : List String
  pub group_id : String
  pub video : Bool
  pub media_url : String
  pub link_token : String
  pub recorded : Option Bool

pub record Link : Type 0 where
  pub token : String
  pub url : String
  pub video : Bool

pub record LinkPreview : Type 0 where
  pub token : String
  pub video : Bool
  pub approval_required : Bool
  pub is_admin : Bool

-- `Caller`, by what it answers.
pub record Caller : Type 0 where
  pub call : String → Bool → Result String LiveCall
  pub group_call : List String → String → Bool → Result String LiveCall
  pub group_call_by_id : String → Bool → Result String LiveCall
  pub create_call_link : Bool → Result String Link
  pub preview_call_link : String → Bool → Result String LinkPreview
  pub join_call_link : String → Bool → Result String LiveCall

-- `commandEvent`.
abbrev pub command_event : Surroundings → ℕ → CallCommand → EventType → Event
command_event env now cmd type =
    let id = env.identity cmd.channel_id in
    record (bare_event type outbound) {
      phone_number_id = id.phone_number_id;
      tenant_id = if id.tenant_id == "" then cmd.tenant_id else id.tenant_id;
      channel_id = cmd.channel_id;
      call_id = cmd.call_id;
      command_id = cmd.command_id;
      timestamp = now / second;
    }

-- `ackCommand`.
abbrev pub ack_command : Surroundings → ℕ → CallCommand → Manager → Manager
ack_command env now cmd m = publish (command_event env now cmd command_ack) m

-- `failCommand`.
abbrev pub fail_command : Surroundings → ℕ → CallCommand → ErrorCode → String → Manager → Manager
fail_command env now cmd code reason m =
    publish
      (record (command_event env now cmd command_failed) {
        failure = some (record { code = code; reason = reason });
      })
      m

-- `recordFor`.
abbrev pub record_for : Surroundings → Option Bool → Bool
record_for env none = env.record_calls
record_for env (some recorded) = recorded && env.record_calls

-- The call that `trackOutbound` tracks.
abbrev pub outbound_call : Surroundings → ℕ → CallCommand → LiveCall → Tracked
outbound_call env now cmd live_call =
    new_tracked env now cmd.channel_id live_call outbound (record_for env cmd.recorded)

-- What `trackOutbound` does before an end that came early.
abbrev pub announced : Surroundings → ℕ → CallCommand → Tracked → Manager → Manager
announced env now cmd t m =
    let rung = record (event env now t ringing) { command_id = cmd.command_id } in
    ack_command env now cmd (publish rung (publish_inbound env now t (track m.next t m)))

-- `trackOutbound`.
unfoldable pub track_outbound : Surroundings → ℕ → CallCommand → LiveCall → Manager → Manager
track_outbound env now cmd live_call m =
    let t = outbound_call env now cmd live_call in
    flush_early_end env now m.next t.early_end (announced env now cmd t m)

-- A call that the client has placed, or its error.
unfoldable pub placed : Surroundings → ℕ → CallCommand → Result String LiveCall → Manager → Manager
placed env now cmd (err reason) m = fail_command env now cmd action_failed reason m
placed env now cmd (ok live_call) m = track_outbound env now cmd live_call m

abbrev pub link_event : Surroundings → ℕ → CallCommand → EventType → EventLink → Event
link_event env now cmd type link = record (command_event env now cmd type) { link = some link }

abbrev pub linked : Surroundings → ℕ → CallCommand → Result String Link → Manager → Manager
linked env now cmd (err reason) m = fail_command env now cmd action_failed reason m
linked env now cmd (ok link) m =
    publish
      (link_event env now cmd link_created (record {
        token = link.token;
        url = link.url;
        video = link.video;
        approval_required = false;
        is_admin = false;
      }))
      m

abbrev pub previewed :
    Surroundings → ℕ → CallCommand → Result String LinkPreview → Manager → Manager
previewed env now cmd (err reason) m = fail_command env now cmd action_failed reason m
previewed env now cmd (ok preview) m =
    publish
      (link_event env now cmd link_preview (record {
        token = preview.token;
        url = "";
        video = preview.video;
        approval_required = preview.approval_required;
        is_admin = preview.is_admin;
      }))
      m

-- `dispatchCaller`.
unfoldable pub dispatch_caller :
    Surroundings → ℕ → Caller → CallCommand → CallerAction → Manager → Manager
dispatch_caller env now caller cmd dial m =
    if cmd.to == ""
    then fail_command env now cmd invalid_target "dial requires a target in \"to\"" m
    else placed env now cmd (caller.call cmd.to cmd.video) m
dispatch_caller env now caller cmd group_dial m =
    if ltb (length cmd.targets) 2
    then fail_command env now cmd invalid_target "group.dial requires at least two targets" m
    else placed env now cmd (caller.group_call cmd.targets cmd.group_id cmd.video) m
dispatch_caller env now caller cmd group_dial_by_id m =
    if cmd.group_id == ""
    then fail_command env now cmd invalid_target "group.dial_by_id requires a groupId" m
    else placed env now cmd (caller.group_call_by_id cmd.group_id cmd.video) m
dispatch_caller env now caller cmd create_link m =
    linked env now cmd (caller.create_call_link cmd.video) m
dispatch_caller env now caller cmd preview_link m =
    if cmd.link_token == ""
    then fail_command env now cmd invalid_target "link.preview requires a linkToken" m
    else previewed env now cmd (caller.preview_call_link cmd.link_token cmd.video) m
dispatch_caller env now caller cmd join_link m =
    if cmd.link_token == ""
    then fail_command env now cmd invalid_target "link.join requires a linkToken" m
    else placed env now cmd (caller.join_call_link cmd.link_token cmd.video) m
