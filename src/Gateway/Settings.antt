-- ===== src/Gateway/Settings.antt =====
-- internal/gateway/settings.go: the settings of a channel, and its removal, with what
-- `SaveSettings` of internal/registry/store.go does to the channel's row.
pub mod Versions
use Prim.Native.Char.{Char, code}
use whatsmeow_gateway.Base.{
  ℕ, String, Bool, true, false, not, ◌&&◌, ◌||◌, List, Option, none, some, ◌==◌, string_Eq,
  if◌then◌else◌, ltb, leb, is_space, lookup, insert, Result, ok, err,
}
use whatsmeow_gateway.Dedupe.{Answer, clean, refused, lost}
use whatsmeow_gateway.Session.{Answer as ClientAnswer, remove}
use whatsmeow_gateway.Gateway.State.{
  Settings, default_settings, ChannelSession, Gateway, tenant_for, settings_for, set_settings,
  forget_channel,
}

pub record SettingsCommand : Type 0 where
  pub tenant_id : String
  pub channel_id : String
  pub listen_groups : Option Bool
  pub receive_calls : Option Bool
  pub call_reject_message : Option String
  pub settings_version : ℕ
  pub removed : Bool

-- `strings.TrimSpace`.
trim_left : String → String
trim_left String.[] = ""
trim_left (String.◌∷◌ c s) =
    let rest = trim_left s in if is_space (code c) then rest else String.◌∷◌ c s

trim_right : String → String
trim_right String.[] = ""
trim_right (String.◌∷◌ c s) =
    let rest = trim_right s in if rest == "" && is_space (code c) then "" else String.◌∷◌ c rest

pub trim_space : String → String
unfolding trim_left trim_right
trim_space s = trim_right (trim_left s)

abbrev pub given : Option Bool → Bool → Bool
given none b = b
given (some b) old = b

abbrev pub message_from : Option String → String
message_from none = ""
message_from (some text) = trim_space text

unfoldable pub settings_from : SettingsCommand → Settings
settings_from cmd = record {
  listen_groups = given cmd.listen_groups default_settings.listen_groups;
  receive_calls = given cmd.receive_calls default_settings.receive_calls;
  call_reject_message = message_from cmd.call_reject_message;
  version = cmd.settings_version;
}

pub data SaveResult : Type 0 where
  settings_saved settings_no_session settings_stale : SaveResult

pub data SettingsError : Type 0 where
  incomplete foreign_tenant persist_failed : SettingsError

abbrev pub with_row : Gateway → String → ChannelSession → Gateway
with_row g k row = record g { sessions = insert k row g.sessions }

-- What the statement does with a row of the tenant, and what it says.
abbrev pub save_row :
    Gateway
    → Answer
    → String
    → ChannelSession
    → Settings
    → Gateway × Result SettingsError SaveResult
save_row g clean k row next = (with_row g k (record row { settings = next }), ok settings_saved)
save_row g refused k row next = (g, err persist_failed)
save_row g lost k row next = (with_row g k (record row { settings = next }), err persist_failed)

abbrev pub save_nothing : Gateway → Answer → SaveResult → Gateway × Result SettingsError SaveResult
save_nothing g clean result = (g, ok result)
save_nothing g _ result = (g, err persist_failed)

abbrev pub save_found :
    Gateway
    → Answer
    → String
    → String
    → Settings
    → Option ChannelSession
    → Gateway × Result SettingsError SaveResult
save_found g a k tenant next none = save_nothing g a settings_no_session
save_found g a k tenant next (some row) =
    if not (row.tenant_id == tenant)
    then save_nothing g a settings_no_session
    else if leb row.settings.version next.version
    then save_row g a k row next
    else save_nothing g a settings_stale

unfoldable pub save_settings :
    Gateway → Answer → String → String → Settings → Gateway × Result SettingsError SaveResult
save_settings g a k tenant next = save_found g a k tenant next (lookup k g.sessions)

unfoldable pub remove_channel : Gateway → ClientAnswer → Bool → String → Gateway
remove_channel g logs_out deletes k =
    let (m, answer) = remove g.manager k logs_out in
    forget_channel (record g { manager = m }) deletes k

-- What the client and the database answer.
pub record Answers : Type 0 where
  pub saves : Answer
  pub logs_out : ClientAnswer
  pub deletes : Bool

abbrev pub Handled : Type 0
Handled = Gateway × Result SettingsError (Unit {0})

abbrev pub after_save : Gateway × Result SettingsError SaveResult → String → Settings → Handled
after_save (g, err e) k next = (g, err e)
after_save (g, ok settings_stale) k next = (g, ok tt)
after_save (g, ok settings_saved) k next = (set_settings g k next, ok tt)
after_save (g, ok settings_no_session) k next = (set_settings g k next, ok tt)

unfoldable pub apply_settings : Gateway → Answers → SettingsCommand → Handled
apply_settings g a cmd =
    if ltb cmd.settings_version (settings_for g cmd.channel_id).version
    then (g, ok tt)
    else after_save (save_settings g a.saves cmd.channel_id cmd.tenant_id (settings_from cmd))
        cmd.channel_id (settings_from cmd)

abbrev pub is_foreign : String → String → Bool
is_foreign known tenant = not (known == "") && not (known == tenant)

unfoldable pub settings_handler : Gateway → Answers → SettingsCommand → Handled
settings_handler g a cmd =
    if cmd.channel_id == "" || cmd.tenant_id == ""
    then (g, err incomplete)
    else if is_foreign (tenant_for g cmd.channel_id) cmd.tenant_id
    then (g, err foreign_tenant)
    else if cmd.removed
    then (remove_channel g a.logs_out a.deletes cmd.channel_id, ok tt)
    else apply_settings g a cmd
