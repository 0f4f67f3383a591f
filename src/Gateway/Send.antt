-- ===== src/Gateway/Send.antt =====
-- internal/gateway/gateway.go, SendHandler: a send command from the ledger to WhatsApp and back. What
-- the database, WhatsApp, the broker, `BuildOutbound` and the parsing of a stored JID answer is an
-- argument. A command's error keeps the step that failed.
pub mod Ledger
pub mod Outcome
pub mod Redelivery
use whatsmeow_gateway.Base.{
  ℕ, String, Bool, true, false, List, [], ◌∷◌, ◌++◌, Option, none, some, ◌==◌, string_Eq, lookup,
  Result, ok, err,
}
use whatsmeow_gateway.Dedupe.{Store, StoreError, begin, mark_sent}
use whatsmeow_gateway.Dedupe
use whatsmeow_gateway.SenderId.{Address}
use whatsmeow_gateway.Groups.Service.{is_default_user, is_hidden_user}
use whatsmeow_gateway.Session.{
  Manager, Failure, no_session, socket_down, client_error, Answer, Up, ensure_connected, resume,
  session,
}
use whatsmeow_gateway.Gateway.State.{
  ChannelSession, Recipient, StatusEvent, Message, Gateway, set_tenant, set_settings,
}
use whatsmeow_gateway.Gateway.SendKey.{SendCommand, dedupe_key_for}

-- What is answered while a command is handled, in the order of the asking.
pub record Answers : Type 0 where
  pub inserts : Dedupe.Answer
  pub selects : Dedupe.Answer
  pub ups : Up
  pub reads_session : Bool
  pub parses_jid : Bool
  pub makes : Answer
  pub connects : Answer
  pub ups_again : Up
  pub builds : Result Failure Address
  pub sends : Result Failure (String × ℕ)
  pub marks : Dedupe.Answer
  pub known_lid : Option Address
  pub requested : Option Address
  pub publishes : Bool
  pub now : ℕ

pub data HandlerError : Type 0 where
  begin_failed : StoreError → HandlerError
  no_client : Failure → HandlerError
  mark_failed : StoreError → HandlerError
  publish_failed : HandlerError

abbrev pub Handled : Type 0
Handled = Gateway × Result HandlerError (Unit {0})

abbrev pub publish_status : Gateway → Bool → StatusEvent → Handled
publish_status g true event = (record g { published = g.published ++ (event ∷ []) }, ok tt)
publish_status g false event = (g, err publish_failed)

abbrev pub send_failure_code : Failure → String
send_failure_code no_session = "session_missing"
send_failure_code socket_down = "session_down"
send_failure_code e = "gateway_send_error"

unfoldable pub publish_send_failure : Gateway → Answers → SendCommand → String → Failure → Handled
publish_send_failure g a cmd provider_id cause = publish_status g a.publishes (record {
  provider_message_id = provider_id;
  opaque_message_id = cmd.message_id;
  status = "failed";
  timestamp = a.now;
  error_code = some (send_failure_code cause);
  tenant_id = "";
  resolved_recipient = none;
})

-- `ensureChannelConnected`: a channel without a client is resumed from its stored session.
abbrev pub attach_calls : Gateway → Result Failure ℕ → String → Gateway
attach_calls g (err e) k = g
attach_calls g (ok c) k = record g { attached = g.attached ++ ((k, c) ∷ []) }

abbrev pub with_manager : Gateway → Manager → Gateway
with_manager g m = record g { manager = m }

abbrev pub connect_again : Gateway → String → Up → Gateway × Answer
connect_again g k up =
    let (m, answer) = ensure_connected g.manager k up in (with_manager g m, answer)

abbrev pub after_resume : Gateway × Answer → String → Up → Gateway × Answer
after_resume (g, err e) k up = (g, err e)
after_resume (g, ok _) k up = connect_again (attach_calls g (session g.manager k) k) k up

abbrev pub resume_stored : Gateway → Answers → String → ChannelSession → Bool → Gateway × Answer
resume_stored g a k stored false = (g, err client_error)
resume_stored g a k stored true =
    let g' = set_settings (set_tenant g k stored.tenant_id) k stored.settings in
    let (m, answer) = resume g'.manager a.makes a.connects k stored.importing_history in
    after_resume (with_manager g' m, answer) k a.ups_again

abbrev pub resume_on_demand :
    Gateway → Answers → String → Bool → Option ChannelSession → Gateway × Answer
resume_on_demand g a k false stored = (g, err client_error)
resume_on_demand g a k true none = (g, err no_session)
resume_on_demand g a k true (some stored) = resume_stored g a k stored a.parses_jid

abbrev pub is_no_session : Failure → Bool
is_no_session no_session = true
is_no_session _ = false

abbrev pub after_failure : Bool → Gateway → Failure → Answers → String → Gateway × Answer
after_failure true g e a k = resume_on_demand g a k a.reads_session (lookup k g.sessions)
after_failure false g e a k = (g, err e)

abbrev pub after_ensure : Gateway × Answer → Answers → String → Gateway × Answer
after_ensure (g, err e) a k = after_failure (is_no_session e) g e a k
after_ensure (g, ok _) a k = (g, ok tt)

unfoldable pub ensure_channel_connected : Gateway → Answers → String → Gateway × Answer
ensure_channel_connected g a k = after_ensure (connect_again g k a.ups) a k

-- `reportedChat`: the LID that is known for a phone number.
abbrev pub known_or : Address → Bool → Option Address → Address
known_or to true (some lid) = lid
known_or to _ _ = to

unfoldable pub reported_chat : Answers → Address → Address
reported_chat a to = known_or to (is_default_user to.server) a.known_lid

-- internal/mapper/sent_status.go. The parsed form of the command's recipient is an argument.
abbrev pub recipient_of : Bool → Bool → Address → Address → Option Recipient
recipient_of true true pn chat = some (record { phone = pn.user; lid = chat.user })
recipient_of _ _ pn chat = none

abbrev pub resolved_recipient : Option Address → Address → Option Recipient
resolved_recipient none chat = none
resolved_recipient (some pn) chat =
    recipient_of (is_default_user pn.server) (is_hidden_user chat.server) pn chat

abbrev pub tenant_with : Option Recipient → String → String
tenant_with none tenant = ""
tenant_with (some recipient) tenant = tenant

unfoldable pub sent_status : SendCommand → Option Address → Address → String → ℕ → StatusEvent
sent_status cmd requested chat provider_id sent_at =
    let recipient = resolved_recipient requested chat in
    record {
      provider_message_id = provider_id;
      opaque_message_id = cmd.message_id;
      status = "sent";
      timestamp = sent_at;
      error_code = none;
      tenant_id = tenant_with recipient cmd.tenant_id;
      resolved_recipient = recipient;
    }

-- The status that a command gets whose message was sent before.
abbrev pub replayed_status : SendCommand → String → ℕ → StatusEvent
replayed_status cmd provider_id now = record {
  provider_message_id = provider_id;
  opaque_message_id = cmd.message_id;
  status = "sent";
  timestamp = now;
  error_code = none;
  tenant_id = "";
  resolved_recipient = none;
}

module _ (deterministic_provider_id : String → String) where
  abbrev pub provider_id_of : SendCommand → String
  provider_id_of cmd = deterministic_provider_id (dedupe_key_for cmd)

  abbrev pub with_ledger : Gateway → Store → Gateway
  with_ledger g ledger = record g { ledger = ledger }

  abbrev pub after_mark :
      Gateway
      → Store × Result StoreError (Unit {0})
      → Answers
      → SendCommand
      → Address
      → String
      → ℕ
      → Handled
  after_mark g (ledger, err e) a cmd to id sent_at = (with_ledger g ledger, err (mark_failed e))
  after_mark g (ledger, ok _) a cmd to id sent_at =
      publish_status (with_ledger g ledger) a.publishes
        (sent_status cmd a.requested (reported_chat a to) id sent_at)

  -- The message as WhatsApp is given it.
  abbrev pub message_for : SendCommand → Message
  message_for cmd = record { channel_id = cmd.channel_id; provider_message_id = provider_id_of cmd }

  abbrev pub after_send :
      Gateway → Answers → SendCommand → Address → Result Failure (String × ℕ) → Handled
  after_send g a cmd to (err e) = publish_send_failure g a cmd (provider_id_of cmd) e
  after_send g a cmd to (ok (id, sent_at)) =
      after_mark g (mark_sent g.ledger a.marks (dedupe_key_for cmd)) a cmd to id sent_at

  abbrev pub give_message : Gateway → SendCommand → Gateway
  give_message g cmd = record g { messages = g.messages ++ (message_for cmd ∷ []) }

  -- `Manager.Send`.
  abbrev pub send_by : Result Failure ℕ → Gateway → Answers → SendCommand → Address → Handled
  send_by (err e) g a cmd to = after_send g a cmd to (err e)
  send_by (ok c) g a cmd to = after_send (give_message g cmd) a cmd to a.sends

  abbrev pub after_build : Result Failure Address → Gateway → Answers → SendCommand → Handled
  after_build (err e) g a cmd = publish_send_failure g a cmd (provider_id_of cmd) e
  after_build (ok to) g a cmd = send_by (session g.manager cmd.channel_id) g a cmd to

  abbrev pub after_client : Result Failure ℕ → Gateway → Answers → SendCommand → Handled
  after_client (err e) g a cmd = (g, err (no_client e))
  after_client (ok c) g a cmd = after_build a.builds g a cmd

  abbrev pub after_connected : Gateway × Answer → Answers → SendCommand → Handled
  after_connected (g, err e) a cmd = publish_send_failure g a cmd (provider_id_of cmd) e
  after_connected (g, ok _) a cmd = after_client (session g.manager cmd.channel_id) g a cmd

  abbrev pub after_begin :
      Gateway → Store × Result StoreError (Bool × String) → Answers → SendCommand → Handled
  after_begin g (ledger, err e) a cmd = (with_ledger g ledger, err (begin_failed e))
  after_begin g (ledger, ok (true, existing)) a cmd =
      publish_status (with_ledger g ledger) a.publishes (replayed_status cmd existing a.now)
  after_begin g (ledger, ok (false, existing)) a cmd =
      after_connected (ensure_channel_connected (with_ledger g ledger) a cmd.channel_id) a cmd

  unfoldable pub send_handler : Gateway → Answers → SendCommand → Handled
  send_handler g a cmd =
      let g' = set_tenant g cmd.channel_id cmd.tenant_id in
      after_begin g' (begin g'.ledger a.inserts a.selects (dedupe_key_for cmd) (provider_id_of cmd))
        a cmd
