-- ===== src/Gateway/State.antt =====
-- internal/gateway/gateway.go: the state that the handlers share, with what internal/registry and
-- internal/channelsettings keep of a channel.
use whatsmeow_gateway.Base.{
  ℕ, String, Bool, true, List, Option, none, some, string_Eq, lookup, insert, delete, if◌then◌else◌,
}
use whatsmeow_gateway.Dedupe.{Store}
use whatsmeow_gateway.Session.{Manager}

-- internal/channelsettings/settings.go.
pub record Settings : Type 0 where
  pub listen_groups : Bool
  pub receive_calls : Bool
  pub call_reject_message : String
  pub version : ℕ

abbrev pub default_settings : Settings
default_settings = record {
  listen_groups = true;
  receive_calls = true;
  call_reject_message = "";
  version = 0;
}

-- internal/registry/store.go, `ChannelSession`, without its key.
pub record ChannelSession : Type 0 where
  pub jid : String
  pub tenant_id : String
  pub settings : Settings
  pub importing_history : Bool

-- internal/mapper: a status of a message. The reason of a failure is text, and is left out.
pub record Recipient : Type 0 where
  pub phone : String
  pub lid : String

pub record StatusEvent : Type 0 where
  pub provider_message_id : String
  pub opaque_message_id : String
  pub status : String
  pub timestamp : ℕ
  pub error_code : Option String
  pub tenant_id : String
  pub resolved_recipient : Option Recipient

-- internal/amqp/publisher.go, without the profile picture and the user.
pub record ChannelStatus : Type 0 where
  pub tenant_id : String
  pub channel_id : String
  pub status : String
  pub reason : String
  pub phone_number : String
  pub display_name : String

-- A message that WhatsApp was given.
pub record Message : Type 0 where
  pub channel_id : String
  pub provider_message_id : String

pub record Gateway : Type 0 where
  pub ledger : Store
  pub manager : Manager
  pub sessions : List (String × ChannelSession)
  pub tenants : List (String × String)
  pub settings : List (String × Settings)
  pub attached : List (String × ℕ)
  pub messages : List Message
  pub published : List StatusEvent
  pub logged_out : List String
  pub statuses : List ChannelStatus
  pub aborted : List (String × String)

unfoldable pub set_tenant : Gateway → String → String → Gateway
set_tenant g k tenant = record g { tenants = insert k tenant g.tenants }

abbrev pub or_empty : Option String → String
or_empty none = ""
or_empty (some tenant) = tenant

abbrev pub tenant_for : Gateway → String → String
tenant_for g k = or_empty (lookup k g.tenants)

unfoldable pub clear_tenant : Gateway → String → Gateway
clear_tenant g k = record g { tenants = delete k g.tenants }

-- internal/channelsettings/map.go: `Set`, `For` and `Clear`.
unfoldable pub set_settings : Gateway → String → Settings → Gateway
set_settings g k settings = record g { settings = insert k settings g.settings }

abbrev pub or_default : Option Settings → Settings
or_default none = default_settings
or_default (some settings) = settings

abbrev pub settings_for : Gateway → String → Settings
settings_for g k = or_default (lookup k g.settings)

unfoldable pub clear_settings : Gateway → String → Gateway
clear_settings g k = record g { settings = delete k g.settings }

-- `forgetChannel`, with whether the registry deletes the row.
unfoldable pub forget_channel : Gateway → Bool → String → Gateway
forget_channel g deletes k =
    let forgotten = clear_settings (clear_tenant g k) k in
    if deletes then record forgotten { sessions = delete k forgotten.sessions } else forgotten
