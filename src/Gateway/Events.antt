-- ===== src/Gateway/Events.antt =====
-- internal/gateway/gateway.go, handleSessionEvent, with listen.go: what WhatsApp says of a channel.
-- Messages, receipts and group changes go on to internal/mapper, and are told apart here only by the
-- chat that they are about.
pub mod LoggedOut
use whatsmeow_gateway.Base.{
  ℕ, String, Bool, true, false, not, ◌&&◌, List, [], ◌∷◌, ◌++◌, Option, none, some, ◌==◌, string_Eq,
  if◌then◌else◌, ◌<>◌, contains, Result, ok, err,
}
use whatsmeow_gateway.Session.{Failure, session}
use whatsmeow_gateway.Gateway.State.{
  Gateway, ChannelStatus, tenant_for, settings_for, forget_channel,
}

pub data Event : Type 0 where
  message receipt group_info : Bool → Event
  logged_out call_signal connected disconnected keep_alive_timeout keep_alive_restored : Event
  stream_replaced client_outdated other : Event
  temporary_ban connect_failure : String → String → Event
  stream_error : String → Event

-- What the device and the broker answer: the paired number, the name, and whether things succeed.
pub record Surroundings : Type 0 where
  pub device_user : String
  pub display_name : String
  pub publishes : Bool
  pub deletes : Bool

-- The reason with which an event ends the calls of its channel.
abbrev pub calls_are_dead : Event → Option String
calls_are_dead logged_out = some "logged_out"
calls_are_dead stream_replaced = some "stream_replaced"
calls_are_dead client_outdated = some "client_outdated"
calls_are_dead (connect_failure reason text) = some "connect_failure"
calls_are_dead _ = none

abbrev pub abort_calls : Gateway → String → Option String → Gateway
abort_calls g k none = g
abort_calls g k (some reason) = record g { aborted = g.aborted ++ ((k, reason) ∷ []) }

-- Whether an event is about a group.
abbrev pub is_group_event : Event → Bool
is_group_event (message in_group) = in_group
is_group_event (receipt in_group) = in_group
is_group_event (group_info in_group) = in_group
is_group_event _ = false

abbrev pub ignored_by_listen_groups : Gateway → String → Event → Bool
ignored_by_listen_groups g k event = not (settings_for g k).listen_groups && is_group_event event

-- `connectedIdentity`.
abbrev pub identity_of : Result Failure ℕ → Surroundings → String × String
identity_of (err e) env = ("", "")
identity_of (ok c) env = (env.device_user, env.display_name)

abbrev pub connected_identity : Gateway → Surroundings → String → String × String
connected_identity g env k = identity_of (session g.manager k) env

unfoldable pub publish_channel_status : Gateway → Surroundings → String → String → String → Gateway
publish_channel_status g env k status reason =
    let identity = if status == "connected" then connected_identity g env k else ("", "") in
    if env.publishes
    then record g {
      statuses =
          g.statuses
          ++ (record {
            tenant_id = tenant_for g k;
            channel_id = k;
            status = status;
            reason = reason;
            phone_number = identity.0;
            display_name = identity.1;
          }
              ∷ []);
    }
    else g

abbrev pub socket_disconnected : String
socket_disconnected = "socket disconnected"

abbrev pub device_logged_out : String
device_logged_out = "device_logged_out"

abbrev pub is_logged_out : Gateway → String → Bool
is_logged_out g k = contains k g.logged_out

unfoldable pub handle_connection_event : Gateway → Surroundings → String → Event → Gateway
handle_connection_event g env k event = elim event [
  | connected ↦ publish_channel_status g env k "connected" ""
  | disconnected ↦
      if is_logged_out g k
      then g
      else publish_channel_status g env k "disconnected" socket_disconnected
  | stream_replaced ↦
      publish_channel_status g env k "error" "session replaced by another connection"
  | client_outdated ↦ publish_channel_status g env k "error" "whatsapp client version outdated"
  | temporary_ban code expire ↦
      publish_channel_status g env k "error"
        ("temporarily banned (" <> (code <> ("), expires in " <> expire)))
  | connect_failure reason text ↦
      publish_channel_status g env k "error" ("connect failure: " <> (reason <> (" " <> text)))
  | stream_error code ↦ publish_channel_status g env k "error" ("stream error " <> code)
  | _ ↦ g
]

-- A logout is told once, until the channel is paired again.
unfoldable pub handle_logged_out : Gateway → Surroundings → String → Gateway
handle_logged_out g env k =
    let told =
      if is_logged_out g k
      then g
      else publish_channel_status (record g { logged_out = k ∷ g.logged_out }) env k "disconnected"
          device_logged_out in
    forget_channel told env.deletes k

abbrev pub handle_event : Gateway → Surroundings → String → Event → Gateway
handle_event g env k (message in_group) = g
handle_event g env k (receipt in_group) = g
handle_event g env k (group_info in_group) = g
handle_event g env k call_signal = g
handle_event g env k logged_out = handle_logged_out g env k
handle_event g env k event = handle_connection_event g env k event

unfoldable pub handle_session_event : Gateway → Surroundings → String → Event → Gateway
handle_session_event g env k event =
    let aborted = abort_calls g k (calls_are_dead event) in
    if ignored_by_listen_groups aborted k event then aborted else handle_event aborted env k event
