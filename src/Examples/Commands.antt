-- ===== src/Examples/Commands.antt =====
-- Runs of `GroupHandler` of internal/gateway/groups.go.
use whatsmeow_gateway.Base.{
  ℕ, ◌+◌, ◌<◌, String, List, [], ◌∷◌, ◌++◌, Bool, true, false, Option, none, some, ◌≡◌, refl, ok,
  err, lookup, insert, string_Eq, nat_Eq, list_Eq, retain, is_blank,
}
use whatsmeow_gateway.Amqp.RpcErrors.{GoError, plain_error}
use whatsmeow_gateway.Dedupe.{
  ActionRow, ActionKey, action_key_Eq, pending, clean, begin_action, mark_action_done,
  mark_action_failed, record_action_halt,
}
use whatsmeow_gateway.Groups.Errors.{classify, is_unavailable}
use whatsmeow_gateway.Groups.Service.{Jid, group, hidden_user, GroupClient, lock, apply}
use whatsmeow_gateway.Gateway.Pacer.{wait, touch}
use whatsmeow_gateway.Gateway.GroupCommand.{
  handle_group, handle_groups, group_handler, apply_group_action, take_turn, conclude,
  halt_or_give_up, fail, key_of,
}
use whatsmeow_gateway.Gateway.GroupSetup.{
  Command, Event, World, SetupEnv, ItemEnv, Run, prepare_group_command,
}
use whatsmeow_gateway.Gateway.GroupCommand.Outcome.{EventsFor, group_handler-EventsFor}
use whatsmeow_gateway.Gateway.GroupCommand.Replay.{group_handler-replays}
use whatsmeow_gateway.Gateway.GroupCommand.Interruptions.{
  handle_group-shutting_down, handle_group-halted,
}

abbrev the_group : Jid
the_group = record { user = 49 ∷ []; server = group }

abbrev parse_jid : String → Option Jid
parse_jid text = some the_group

abbrev lock_all : Command
lock_all = record {
  command_id = "command";
  tenant_id = "tenant";
  channel_id = "channel";
  action = lock;
  params = record { phones = []; name = ""; description = ""; photo_url = "" };
}

abbrev answering : Option GoError → GroupClient
answering outcome = record {
  get_group_info = λ jid. err (plain_error "no info");
  create_group = λ name announced. err (plain_error "not created");
  set_group_announce = λ jid announced. outcome;
  set_group_name = λ jid name. none;
  set_group_topic = λ jid old new. none;
  set_group_photo = λ jid photo. none;
  update_group_participants = λ jid targets. ok [];
  pn_for_lid = λ jid. ok none;
  device_jid = none;
  device_lid = record { user = []; server = hidden_user };
}

abbrev setup : SetupEnv
setup = record {
  stopping = false;
  stopping_at_client = false;
  connect_error = none;
  client_error = none;
  fetch = none;
  to_jpeg = λ bytes. ok bytes;
  photo_context_ended = false;
}

abbrev item : Option GoError → Bool → ItemEnv
item outcome stopping_after = record {
  stopping = false;
  begin = clean;
  pace = record { now = 1000; jitter = 5; interrupted = false };
  client = answering outcome;
  touched_at = 1000;
  stopping_after = stopping_after;
  mark = clean;
  halt = clean;
  published = clean;
}

abbrev run : Run
run = record { photo = []; setup_error = none }

abbrev row : ℕ → ActionRow
row halts = record { status = pending; removed = none; failure = none; halts = halts }

abbrev with_rows : List (ActionKey × ActionRow) → World
with_rows rows = record {
  store = record { sent_messages = []; group_actions = rows };
  pacer = [];
  tenants = [];
  requests = [];
  events = [];
}

abbrev timed_out : GoError
timed_out = record (plain_error "info query timed out") { iq_timed_out = true }

abbrev begun_world : ℕ → World
begun_world halts = with_rows ((key_of lock_all "group", row halts) ∷ [])

abbrev locked : List (String × ItemEnv)
locked = ("group", item none false) ∷ []

abbrev first_world : World
first_world = (group_handler parse_jid (with_rows []) setup lock_all locked).0

group_handler-EventsFor_example :
    (es : List Event) × ((group_handler parse_jid (with_rows []) setup lock_all locked).0.events
      ≡ [] ++ es)
    × EventsFor lock_all locked es
unfolding group_handler handle_groups handle_group apply_group_action take_turn conclude
    halt_or_give_up fail prepare_group_command begin_action mark_action_done mark_action_failed
    record_action_halt lookup insert wait touch retain apply classify is_unavailable is_blank
group_handler-EventsFor_example =
    group_handler-EventsFor parse_jid (with_rows []) setup lock_all locked refl

group_handler-replays_example :
    let once = group_handler parse_jid (with_rows []) setup lock_all locked in
    let again =
      group_handler parse_jid (record first_world { events = [] }) setup lock_all locked in
    (es : List Event) × (once.0.events ≡ [] ++ es)
    × (again.1 ≡ ok tt)
    × (again.0.events ≡ [] ++ es)
    × (again.0.requests ≡ first_world.requests)
    × (again.0.store ≡ first_world.store)
unfolding group_handler handle_groups handle_group apply_group_action take_turn conclude
    halt_or_give_up fail prepare_group_command begin_action mark_action_done mark_action_failed
    record_action_halt lookup insert wait touch retain apply classify is_unavailable is_blank
group_handler-replays_example =
    group_handler-replays parse_jid lock_all (with_rows []) (record first_world { events = [] })
      setup setup locked locked tt ((refl, λ jid. tt), tt) refl refl refl refl
      ((refl, refl, refl), tt)

handle_group-shutting_down_example :
    lookup
      (key_of lock_all "group")
      (handle_group parse_jid
        (begun_world 0)
        (item (some timed_out) true)
        lock_all
        run
        "group").0.store.group_actions
    ≡ some (row 0)
unfolding group_handler handle_groups handle_group apply_group_action take_turn conclude
    halt_or_give_up fail prepare_group_command begin_action mark_action_done mark_action_failed
    record_action_halt lookup insert wait touch retain apply classify is_unavailable is_blank
handle_group-shutting_down_example =
    handle_group-shutting_down parse_jid (item (some timed_out) true) lock_all run "group"
      (begun_world 0) (row 0) refl refl refl

handle_group-halted_example :
    (lookup
        (key_of lock_all "group")
        (handle_group parse_jid
          (begun_world 1)
          (item (some timed_out) false)
          lock_all
          run
          "group").0.store.group_actions
      ≡ some (row 2))
    × (1 + 1 < 3)
unfolding group_handler handle_groups handle_group apply_group_action take_turn conclude
    halt_or_give_up fail prepare_group_command begin_action mark_action_done mark_action_failed
    record_action_halt lookup insert wait touch retain apply classify is_unavailable is_blank
handle_group-halted_example =
    handle_group-halted parse_jid (item (some timed_out) false) lock_all run "group" (begun_world 1)
      (row 1) refl refl refl
