-- ===== src/Gateway/GroupSetup.antt =====
-- The data of `GroupHandler` of internal/gateway/groups.go, and what it does before the first group:
-- `prepareGroupCommand` and `groupClient`, and `PreparePhoto` of internal/groups/service.go. The world
-- is what the handler changes: the ledger, the pacer, the channels' tenants, the requests that it makes
-- of WhatsApp and the events that it publishes.
use whatsmeow_gateway.Base.{
  ℕ, String, ◌<>◌, List, [], Bool, true, false, Option, none, some, if◌then◌else◌, Result, ok, err,
  string_Eq, ◌==◌, insert,
}
use whatsmeow_gateway.Amqp.RpcErrors.{GoError, rpc_error, invalid_request, unavailable, not_found}
use whatsmeow_gateway.Dedupe.{Store, Answer}
use whatsmeow_gateway.Groups.Errors.{classify}
use whatsmeow_gateway.Groups.Service.{GroupClient, Request, Action, set_photo_action, Params}
use whatsmeow_gateway.Gateway.Pacer.{Pacer, Pace}

-- `amqp.GatewayGroupCommand`, without the JIDs of its groups.
pub record Command : Type 0 where
  pub command_id : String
  pub tenant_id : String
  pub channel_id : String
  pub action : Action
  pub params : Params

-- `amqp.GroupActionEvent`.
pub record Event : Type 0 where
  pub tenant_id : String
  pub channel_id : String
  pub command_id : String
  pub group_jid : String
  pub action : Action
  pub ok : Bool
  pub error : String
  pub removed : Option ℕ

pub record World : Type 0 where
  pub store : Store
  pub pacer : Pacer
  pub tenants : List (String × String)
  pub requests : List Request
  pub events : List Event

-- What the environment answers before the first group: `shuttingDown` at the start, the gateway's
-- flag when the channel's client is asked for, the errors of `ensureChannelConnected` and `waClientFor`, and of the photo its download, its
-- conversion to a JPEG, and whether the time for both ran out.
pub record SetupEnv : Type 0 where
  pub stopping : Bool
  pub stopping_at_client : Bool
  pub connect_error : Option GoError
  pub client_error : Option GoError
  pub fetch : Option (String → Result GoError (List ℕ))
  pub to_jpeg : List ℕ → Result GoError (List ℕ)
  pub photo_context_ended : Bool

-- And while one of its groups is worked on: `shuttingDown` before the group and after the action,
-- the database's answers, the wait for the channel's turn, the client, the time at which the
-- action ends, and how the broker answers the event.
pub record ItemEnv : Type 0 where
  pub stopping : Bool
  pub begin : Answer
  pub pace : Pace
  pub client : GroupClient
  pub touched_at : ℕ
  pub stopping_after : Bool
  pub mark : Answer
  pub halt : Answer
  pub published : Answer

pub data HandlerError : Type 0 where
  shutting_down begin_failed publish_failed halted : HandlerError

-- `errors.Is(err, amqp.ErrRequeue)`.
abbrev pub asks_requeue : HandlerError → Bool
asks_requeue shutting_down = true
asks_requeue _ = false

abbrev client_outcome : Option GoError → Option GoError
client_outcome none = none
client_outcome (some e) = some (rpc_error unavailable e.text)

-- `groupClient`: the error of a channel that cannot serve, and the tenant noted on the way.
abbrev pub group_client : World → SetupEnv → Command → World × Option GoError
group_client w env cmd =
    if cmd.channel_id == ""
    then (w, some (rpc_error invalid_request "channelId is required"))
    else if env.stopping_at_client
    then (
      w,
      some (rpc_error unavailable "gateway is shutting down, the channel is not reopened here"),
    )
    else elim env.connect_error [
      | some e ↦ (
        w,
        some (if e.no_session then rpc_error not_found e.text else rpc_error unavailable e.text),
      )
      | none ↦ (
        record w { tenants = insert cmd.channel_id cmd.tenant_id w.tenants },
        client_outcome env.client_error,
      )
    ]

abbrev prepared : SetupEnv → Result GoError (List ℕ) → Result GoError (List ℕ)
prepared env (ok jpeg) = ok jpeg
prepared env (err e) =
    err (if env.photo_context_ended then classify e else rpc_error invalid_request e.text)

abbrev fetched : SetupEnv → Result GoError (List ℕ) → Result GoError (List ℕ)
fetched env (err e) = err (rpc_error invalid_request ("fetch photo: " <> e.text))
fetched env (ok raw) = prepared env (env.to_jpeg raw)

-- `PreparePhoto`.
abbrev pub prepare_photo : SetupEnv → String → Result GoError (List ℕ)
prepare_photo env url =
    if url == "" then err (rpc_error invalid_request "photoUrl is required") else elim env.fetch [
      | none ↦ err (rpc_error invalid_request "photo fetch is not available")
      | some fetch ↦ fetched env (fetch url)
    ]

-- `groupCommandRun`, without the command and the client.
pub record Run : Type 0 where
  pub setup_error : Option GoError
  pub photo : List ℕ

abbrev photo_run : Result GoError (List ℕ) → Run
photo_run (ok photo) = record { setup_error = none; photo = photo }
photo_run (err e) = record { setup_error = some e; photo = [] }

abbrev run_for : SetupEnv → Action → Params → Run
run_for env set_photo_action params = photo_run (prepare_photo env params.photo_url)
run_for env _ params = record { setup_error = none; photo = [] }

abbrev prepared_run : SetupEnv → Command → Option GoError → Run
prepared_run env cmd (some e) = record { setup_error = some e; photo = [] }
prepared_run env cmd none = run_for env cmd.action cmd.params

-- `prepareGroupCommand`.
unfoldable pub prepare_group_command : World → SetupEnv → Command → World × Run
prepare_group_command w env cmd =
    ((group_client w env cmd).0, prepared_run env cmd (group_client w env cmd).1)
