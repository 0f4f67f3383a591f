-- ===== src/Gateway/GroupCommand.antt =====
-- `GroupHandler` of internal/gateway/groups.go, with `applyGroupAction` and `haltOrGiveUp`. What the
-- environment answers while the handler works on a group is a record that comes with the group's JID.
pub mod Steps
pub mod Interruptions
pub mod Ends
pub mod Rounds
pub mod Replay
pub mod Outcome
use whatsmeow_gateway.Base.{
  ℕ, ◌+◌, String, ◌<>◌, List, [], ◌∷◌, ◌++◌, Bool, true, false, ◌&&◌, ◌||◌, not, Option, none, some,
  ltb, if◌then◌else◌, Result, ok, err, Eq, string_Eq, ◌==◌, insert,
}
use whatsmeow_gateway.Amqp.RpcErrors.{GoError, rpc_error, invalid_request, unavailable, not_found}
use whatsmeow_gateway.Dedupe.{
  Store, StoreError, Answer, clean, refused, lost, ActionRecord, ActionKey, begin_action,
  mark_action_done, mark_action_failed, record_action_halt,
}
use whatsmeow_gateway.Groups.Errors.{classify, is_unavailable}
use whatsmeow_gateway.Groups.Service.{
  Jid, GroupClient, Request, Action, set_photo_action, Params, apply, is_group,
}
use whatsmeow_gateway.Gateway.Pacer.{Pacer, Pace, wait, touch}
use whatsmeow_gateway.Gateway.GroupSetup.{
  Command, Event, World, SetupEnv, ItemEnv, HandlerError, Run, prepare_group_command, shutting_down,
  begin_failed, publish_failed, halted,
}

abbrev pub key_of : Command → String → ActionKey
key_of cmd raw = (cmd.command_id, raw)

abbrev pub fresh_event : Command → String → Event
fresh_event cmd raw = record {
  tenant_id = cmd.tenant_id;
  channel_id = cmd.channel_id;
  command_id = cmd.command_id;
  group_jid = raw;
  action = cmd.action;
  ok = true;
  error = "";
  removed = none;
}

-- The event of an action that the ledger already holds the end of.
abbrev pub recorded_event : Command → String → ActionRecord → Event
recorded_event cmd raw r = record (fresh_event cmd raw) {
  ok = r.failure == "";
  error = r.failure;
  removed = r.removed;
}

-- The closure `fail` of `applyGroupAction`; an error of the ledger is only logged.
unfoldable pub fail :
    World → ItemEnv → Command → String → GoError → World × Result HandlerError Event
fail w env cmd raw e = (
  record w { store = (mark_action_failed w.store env.mark (key_of cmd raw) e.text).0 },
  ok (record (fresh_event cmd raw) { ok = false; error = e.text }),
)

abbrev pub group_halt_limit : ℕ
group_halt_limit = 3

abbrev pub decide_halt :
    World
    → ItemEnv
    → Command
    → String
    → GoError
    → Result StoreError ℕ
    → World × Result HandlerError Event
decide_halt w env cmd raw e (err _) = (w, err halted)
decide_halt w env cmd raw e (ok halts) =
    if ltb halts group_halt_limit then (w, err halted) else fail w env cmd raw e

-- `haltOrGiveUp`.
unfoldable pub halt_or_give_up :
    World → ItemEnv → Command → String → GoError → World × Result HandlerError Event
halt_or_give_up w env cmd raw e =
    decide_halt (record w { store = (record_action_halt w.store env.halt (key_of cmd raw)).0 }) env
      cmd raw e (record_action_halt w.store env.halt (key_of cmd raw)).1

-- What follows `groups.Apply`.
unfoldable pub conclude :
    World
    → ItemEnv
    → Command
    → String
    → Result GoError (Option ℕ)
    → World × Result HandlerError Event
conclude w env cmd raw (ok removed) = (
  record w { store = (mark_action_done w.store env.mark (key_of cmd raw) removed).0 },
  ok (record (fresh_event cmd raw) { removed = removed }),
)
conclude w env cmd raw (err e) =
    if is_unavailable e
    then (if env.stopping_after then (w, err shutting_down) else halt_or_give_up w env cmd raw e)
    else fail w env cmd raw e

abbrev pub applied_world : World → ItemEnv → Command → List Request → World
applied_world w env cmd requests = record w {
  pacer = touch w.pacer cmd.channel_id env.touched_at;
  requests = w.requests ++ requests;
}

-- From the wait for the channel's turn on.
unfoldable pub take_turn :
    World → ItemEnv → Command → Run → String → Jid → World × Result HandlerError Event
take_turn w env cmd run raw jid = elim (wait w.pacer cmd.channel_id env.pace) [
  | none ↦ (w, err shutting_down)
  | some t ↦
      conclude (applied_world w env cmd (apply env.client cmd.action jid cmd.params run.photo).0)
        env cmd raw (apply env.client cmd.action jid cmd.params run.photo).1
]

-- `PublishGroupAction`: the broker takes the event, refuses it, or takes it and the confirmation
-- is lost.
abbrev pub publish : Answer → World → Event → World × Result HandlerError (Unit {0})
publish clean w event = (record w { events = w.events ++ event ∷ [] }, ok tt)
publish refused w event = (w, err publish_failed)
publish lost w event = (record w { events = w.events ++ event ∷ [] }, err publish_failed)

-- Publishing the result of a group ends the work on it.
abbrev pub publish_result :
    ItemEnv → World × Result HandlerError Event → World × Result HandlerError (Unit {0})
publish_result env (w, err e) = (w, err e)
publish_result env (w, ok event) = publish env.published w event

abbrev pub group_jid_of : Option Jid → Option Jid
group_jid_of none = none
group_jid_of (some jid) = if is_group jid.server then some jid else none

abbrev pub bad_group_jid : String → GoError
bad_group_jid raw = rpc_error invalid_request ("groupJid \"" <> (raw <> "\" is not a group jid"))

-- `types.ParseJID` is whatsmeow's.
module _ (parse_jid : String → Option Jid) where
  -- `parseGroupJID`.
  abbrev pub parse_group_jid : String → Result GoError Jid
  parse_group_jid raw = elim (group_jid_of (parse_jid raw)) [
    | none ↦ err (bad_group_jid raw)
    | some jid ↦ ok jid
  ]

  -- `applyGroupAction`.
  unfoldable pub apply_group_action :
      World → ItemEnv → Command → Run → String → World × Result HandlerError Event
  apply_group_action w env cmd run raw = elim run.setup_error [
    | some e ↦ fail w env cmd raw e
    | none ↦ elim (parse_group_jid raw) [
      | err e ↦ fail w env cmd raw e
      | ok jid ↦ take_turn w env cmd run raw jid
    ]
  ]

  abbrev pub act :
      World
      → ItemEnv
      → Command
      → Run
      → String
      → Result StoreError ActionRecord
      → World × Result HandlerError Event
  act w env cmd run raw (err e) = (w, err begin_failed)
  act w env cmd run raw (ok r) =
      if r.finished
      then (w, ok (recorded_event cmd raw r))
      else apply_group_action w env cmd run raw

  -- One round of the loop over `cmd.GroupJIDs`.
  unfoldable pub handle_group :
      World → ItemEnv → Command → Run → String → World × Result HandlerError (Unit {0})
  handle_group w env cmd run raw =
      if env.stopping
      then (w, err shutting_down)
      else publish_result env (
          act (record w { store = (begin_action w.store env.begin (key_of cmd raw)).0 }) env cmd run
            raw (begin_action w.store env.begin (key_of cmd raw)).1)

  unfoldable pub handle_groups :
      World → Command → Run → List (String × ItemEnv) → World × Result HandlerError (Unit {0})
  handle_groups w cmd run [] = (w, ok tt)
  handle_groups w cmd run ((raw, env) ∷ rest) = elim (handle_group w env cmd run raw).1 [
    | err e ↦ ((handle_group w env cmd run raw).0, err e)
    | ok _ ↦ handle_groups (handle_group w env cmd run raw).0 cmd run rest
  ]

  -- `GroupHandler`.
  unfoldable pub group_handler :
      World → SetupEnv → Command → List (String × ItemEnv) → World × Result HandlerError (Unit {0})
  group_handler w env cmd items =
      if env.stopping
      then (w, err shutting_down)
      else handle_groups (prepare_group_command w env cmd).0 cmd (prepare_group_command w env cmd).1
          items
