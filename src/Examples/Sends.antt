-- ===== src/Examples/Sends.antt =====
-- Runs of the send handler.
use whatsmeow_gateway.Gateway.Events.{
  Event, disconnected, logged_out, Surroundings, handle_session_event,
}
use whatsmeow_gateway.Gateway.Events.LoggedOut.{count_disconnected, handle_events, logout_told_once}
use whatsmeow_gateway.Gateway.Settings.{SettingsCommand, Answers as SettingsAnswers}
use whatsmeow_gateway.Gateway.Settings.Versions.{handle_settings, IsGivenBy, settings_never_fall}
use whatsmeow_gateway.Gateway.State.{tenant_for, settings_for}
use whatsmeow_gateway.Base.{◌≤◌, ◌⊎◌}
use whatsmeow_gateway.Base.{
  String, ◌<>◌, ◌≡◌, refl, List, [], ◌∷◌, ◌++◌, none, some, true, false, ok, err, string_Eq, lookup,
  insert,
}
use whatsmeow_gateway.Dedupe.{clean, refused, begin, mark_sent}
use whatsmeow_gateway.Groups.Service.{default_user, hidden_user}
use whatsmeow_gateway.Session.{
  new_manager, client_error, Up, ensure_connected, ensure_up, resume, session, register,
}
use whatsmeow_gateway.Gateway.State.{
  Gateway, StatusEvent, ChannelSession, default_settings, set_tenant, set_settings,
}
use whatsmeow_gateway.Gateway.SendKey.{SendCommand, dedupe_key_for}
use whatsmeow_gateway.Gateway.Send.{
  Answers, send_handler, provider_id_of, replayed_status, ensure_channel_connected, reported_chat,
  sent_status,
}
use whatsmeow_gateway.Gateway.Send.Outcome.{IsReported, IsGivenOnce, send_handler-reports}
use whatsmeow_gateway.Gateway.Send.Redelivery.{handle_all, send_handler-redelivered}

abbrev id_of : String → String
id_of key = "3EB0" <> key

abbrev stored : ChannelSession
stored = record {
  jid = "5511@s.whatsapp.net";
  tenant_id = "tenant";
  settings = default_settings;
  importing_history = false;
}

abbrev gateway : Gateway
gateway = record {
  ledger = record { sent_messages = []; group_actions = [] };
  manager = new_manager;
  sessions = ("channel", stored) ∷ [];
  tenants = [];
  settings = [];
  attached = [];
  messages = [];
  published = [];
  logged_out = [];
  statuses = [];
  aborted = [];
}

abbrev command : SendCommand
command = record {
  tenant_id = "tenant";
  channel_id = "channel";
  message_id = "m1";
  to = "5522@s.whatsapp.net";
  kind = "";
  target_provider_message_id = "";
  emoji = "";
  text = "hello";
}

abbrev up : Up
up = record { is_connected = true; is_logged_in = true; connects = ok tt; waits = true }

-- A channel that is resumed on demand, and a message that is sent.
abbrev answers : Answers
answers = record {
  inserts = clean;
  selects = clean;
  ups = up;
  reads_session = true;
  parses_jid = true;
  makes = ok tt;
  connects = ok tt;
  ups_again = up;
  builds = ok (record { user = "5522"; server = default_user });
  sends = ok ("3EB0m1", 1700);
  marks = clean;
  known_lid = some (record { user = "77"; server = hidden_user });
  requested = some (record { user = "5522"; server = default_user });
  publishes = true;
  now = 1701;
}

abbrev event : StatusEvent
event = record {
  provider_message_id = "3EB0m1";
  opaque_message_id = "m1";
  status = "sent";
  timestamp = 1700;
  error_code = none;
  tenant_id = "tenant";
  resolved_recipient = some (record { phone = "5522"; lid = "77" });
}

send_handler-reports_example :
    let handled =
      send_handler id_of gateway (record answers { builds = err client_error }) command in
    IsReported id_of gateway command handled × IsGivenOnce id_of gateway command handled.0
send_handler-reports_example =
    send_handler-reports id_of gateway (record answers { builds = err client_error }) command

abbrev others : List (Answers × SendCommand)
others =
    (record answers { inserts = refused }, command)
    ∷ (answers, record command { message_id = "m2" })
    ∷ []

send_handler-redelivered_example :
    let before = handle_all id_of (send_handler id_of gateway answers command).0 others in
    let again = send_handler id_of before answers command in
    (again.1 ≡ ok tt)
    × (again.0.messages ≡ before.messages)
    × (again.0.published
        ≡ before.published ++ (replayed_status command (provider_id_of id_of command) 1701 ∷ []))
unfolding send_handler set_tenant set_settings begin mark_sent lookup insert
    ensure_channel_connected ensure_connected session resume register ensure_up reported_chat
    sent_status dedupe_key_for
send_handler-redelivered_example =
    send_handler-redelivered id_of gateway answers answers command event others (λ k row e. cc) refl
      refl refl refl refl refl

abbrev around : Surroundings
around = record { device_user = "5511"; display_name = "Name"; publishes = true; deletes = true }

abbrev later : List (Surroundings × (String × Event))
later =
    (around, ("channel", disconnected))
    ∷ (around, ("other", logged_out))
    ∷ (around, ("channel", logged_out))
    ∷ []

logout_told_once_example :
    count_disconnected "channel"
      (handle_events (handle_session_event gateway around "channel" logged_out) later).statuses
    ≡ 1
unfolding count_disconnected
logout_told_once_example = logout_told_once gateway around "channel" later

abbrev settings_command : SettingsCommand
settings_command = record {
  tenant_id = "tenant";
  channel_id = "channel";
  listen_groups = some false;
  receive_calls = none;
  call_reject_message = some " busy ";
  settings_version = 3;
  removed = false;
}

abbrev settings_answers : SettingsAnswers
settings_answers = record { saves = clean; logs_out = ok tt; deletes = true }

abbrev settings_commands : List (SettingsAnswers × SettingsCommand)
settings_commands =
    (settings_answers, settings_command)
    ∷ (settings_answers, record settings_command { tenant_id = "intruder"; removed = true })
    ∷ (settings_answers, record settings_command { settings_version = 2 })
    ∷ []

abbrev known_gateway : Gateway
known_gateway = record gateway { tenants = ("channel", "tenant") ∷ [] }

settings_never_fall_example :
    let after = handle_settings known_gateway settings_commands in
    (tenant_for after "channel" ≡ "tenant")
    × ((settings_for known_gateway "channel").version ≤ (settings_for after "channel").version)
    × ((settings_for after "channel" ≡ settings_for known_gateway "channel")
        ⊎ IsGivenBy "tenant" (settings_for after "channel") settings_commands)
unfolding lookup
settings_never_fall_example =
    settings_never_fall "channel" "tenant" settings_commands known_gateway refl (λ e. cc)
      (refl, (refl, (refl, tt)))
