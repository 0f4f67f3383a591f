-- ===== src/Call/Ending.antt =====
-- Everything that happens to the calls of internal/call, as one kind of step, and the count of the
-- calls that have ended.
pub mod Balance
pub mod Steps
pub mod Commands
pub mod Rooted
pub mod Answered
pub mod Aborts
pub mod Once
use whatsmeow_gateway.Base.{
  ℕ, ◌+◌, ◌≤◌, String, List, [], ◌∷◌, ◌++◌, Bool, true, false, ◌&&◌, Option, none, some, lookup,
  nat_Eq, if◌then◌else◌, length, select, ◌≡◌,
}
use whatsmeow_gateway.Call.Contracts.{Event, EventType, ended}
use whatsmeow_gateway.Call.Registry.{LiveCall, Tracked}
use whatsmeow_gateway.Call.Manager.{Manager, Surroundings}
use whatsmeow_gateway.Call.Lifecycle.{
  take_incoming, Callback, callback, abort_channel, abort_all, attach_stream, detach_stream,
  Recording, upload,
}
use whatsmeow_gateway.Call.Command.{CallCommand, Caller}
use whatsmeow_gateway.Call.Dispatch.{Fetch, dispatch}

pub data Operation : Type 0 where
  takes_incoming : ℕ → String → LiveCall → Operation
  dispatches : ℕ → Option Caller → Fetch → CallCommand → Operation
  calls_back : ℕ → ℕ → Callback → Operation
  aborts_channel : ℕ → String → String → Operation
  aborts_all : ℕ → String → Operation
  attaches : String → String → Operation
  detaches : ℕ → ℕ → Operation
  uploads : ℕ → ℕ → Recording → Option String → Operation

abbrev pub perform : Surroundings → Operation → Manager → Manager
perform env (takes_incoming now channel_id live) m = take_incoming env now channel_id live m
perform env (dispatches now caller fetch cmd) m = dispatch env now caller fetch cmd m
perform env (calls_back now h c) m = callback env now h c m
perform env (aborts_channel now channel_id reason) m = abort_channel env now channel_id reason m
perform env (aborts_all now reason) m = abort_all env now reason m
perform env (attaches channel_id call_id) m = (attach_stream channel_id call_id m).1
perform env (detaches h s) m = detach_stream h s m
perform env (uploads now h r failure) m = upload env now h r failure m

abbrev pub perform_all : Surroundings → List Operation → Manager → Manager
perform_all env [] m = m
perform_all env (op ∷ ops) m = perform_all env ops (perform env op m)

abbrev is_ended_type : EventType → Bool
is_ended_type ended = true
is_ended_type _ = false

-- A test of a channel and a call id, on the events that tell an end and on the calls that have one.
abbrev pub Which : Type 0
Which = String → String → Bool

abbrev pub tells_end : Which → Event → Bool
tells_end q e = is_ended_type e.type && q e.channel_id e.call_id

abbrev pub has_ended : Which → Tracked → Bool
has_ended q t = t.ended && q t.channel_id t.call_id

abbrev pub one_if : Bool → ℕ
one_if true = 1
one_if false = 0

abbrev pub tally : (Tracked → Bool) → List (ℕ × Tracked) → ℕ
tally p [] = 0
tally p ((h, t) ∷ calls) = one_if (p t) + tally p calls

-- As many events tell the end of such a call as such calls have ended, and no handle is in use
-- before it is given out.
abbrev pub Balanced : Which → List (ℕ × Tracked) → List Event → ℕ → Type 0
Balanced q calls published next =
    (length (select (tells_end q) published) ≡ tally (has_ended q) calls)
    × ((k : ℕ) → next ≤ k → lookup k calls ≡ none)
