-- ===== src/Lib.antt =====
-- The core of whatsmeow-gateway: a Go service that keeps WhatsApp channels connected, takes commands
-- from a message broker, acts on WhatsApp through a client library, and publishes events back.
--
-- The parts and the files that model them. Paths are from the repository's root.
--
-- - Base: the shared types and lemmas: tests, lists, Go's maps as association lists, results, text.
-- - Dedupe: internal/dedupe/store.go, the ledger in the database: `begin` and `mark_sent` for sent
--   messages, `begin_action`, `mark_action_done`, `mark_action_failed` and `record_action_halt` for
--   group actions. Each statement of the database is run, refused, or run with its answer lost.
-- - Amqp: what internal/amqp makes of the broker's deliveries. Amqp.Lanes is group_lanes.go: `run`
--   offers a job to a channel's lane and `work` is one step of a worker of `drain`. Amqp.Overflow is
--   group_overflow.go: `route` is the choice of `consumePerChannel` between lane and tail of the queue.
--   Amqp.Consumer is how consumer.go settles deliveries. Amqp.RpcErrors is the errors of rpc.go.
-- - Groups: internal/groups. Groups.Errors is errors.go, Groups.Phones the Brazilian numbers,
--   Groups.Service the actions of service.go, with the client of client.go as a record of answers, and
--   Groups.Orientation orientation.go.
-- - Session: internal/session/manager.go. Session itself is the clients of channels and their mute
--   flags, Session.Pairing the pairings and the loop that follows one, Session.Pair the pairing command,
--   and Session.Lock the locks of `lockChannel`. Session.Silence runs the manager's operations in any
--   order, and Session.View is what the manager promises when flags and handlers are forgotten.
-- - Gateway: internal/gateway. Gateway.State is what the handlers share, with internal/channelsettings.
--   Gateway.Send is `SendHandler` of gateway.go, which joins the ledger, the session manager and the
--   statuses of internal/mapper/sent_status.go; Gateway.SendKey is `dedupeKeyFor`. Gateway.Settings is
--   settings.go, and Gateway.Events `handleSessionEvent` with listen.go. The rest is groups.go:
--   Gateway.Pacer is `channelPacer`, Gateway.GroupSetup what `GroupHandler` does before the first
--   group, and Gateway.GroupCommand its work on each group, which joins the ledger, the pacer and the
--   actions.
-- - History: internal/history. History.Batches is batches.go, the chats of a chunk cut into batches.
--   History.Queue is the chunk queues of importer.go, History.Chunk the import of one chunk, and
--   History.Registry the import's row of internal/registry/history.go.
-- - SenderId: internal/senderid/senderid.go.
-- - Call: internal/call. Call.Contracts is the events (contracts.go, inbound.go) and Call.Registry the
--   live calls (registry.go, port.go). Call.Manager and Call.Lifecycle are manager.go with the streams
--   of stream.go, Call.Command and Call.Dispatch command.go, Call.Outbound outbound.go, Call.AnnexB the
--   video units of annexb.go, and Call.Cooldown the cooldown of autoreply.go. Call.Ending joins them:
--   one operation for everything that happens to calls.
-- - Examples: runs of the model at concrete inputs.
--
-- How the model stands to the code. State is passed explicitly. What the code asks of the client
-- library, the database, the broker or a clock comes as an argument. A section under a mutex is one
-- step, and goroutines are sequences of such steps in any order: `Amqp.Lanes.run_steps`, the
-- relation `Amqp.Overflow.System.Step` and `Call.Ending.perform_all`. Objects that Go shares by
-- pointer (a call, a stream, a spill) have a handle or an identity. Numbers are natural numbers;
-- subtractions of times and counters are written where the code's do not go below zero, and the
-- version of a channel's settings, an int64, is taken to be zero or more. Logging is left out. Each
-- loop of the code is structural on the list that it ranges over, and where a loop waits (a lane's
-- worker, the overflow's mover) one round is one step. Only `retry` of importer.go, which may go on
-- for ever, runs on fuel, the number of its attempts: enough is a bound on how far away the next
-- calm moment is. So does the scan of EXIF data, where the number of bytes is enough.
--
-- What is not modelled: the connections (main.go, topology.go, publisher.go, s3.go, redis.go,
-- client.go), generated protobuf messages and their mapping (internal/mapper), images, audio
-- encoding and the recorder, and the HTTP media server. The hash of a provider id is a parameter,
-- and what `BuildOutbound` and `Translate` give is an argument.
pub mod Amqp
pub mod Base
pub mod Call
pub mod Dedupe
pub mod Examples
pub mod Gateway
pub mod Groups
pub mod History
pub mod SenderId
pub mod Session
