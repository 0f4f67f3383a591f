-- ===== src/Call/Dispatch.antt =====
-- internal/call/command.go and the `playVideo` of internal/call/annexb.go: a command on a live
-- call, and `Dispatch`. A video plays by itself: only what is checked before it is in the model.
pub mod Answers
use whatsmeow_gateway.Base.{
  ℕ, String, ◌<>◌, List, [], ◌∷◌, Bool, true, false, Option, none, some, lookup, insert, nat_Eq,
  string_Eq, ◌==◌, if◌then◌else◌, Result, ok, err,
}
use whatsmeow_gateway.Call.Contracts.{
  ErrorCode, call_not_found, unknown_action, action_failed, no_caller, media_fetch,
}
use whatsmeow_gateway.Call.Outbound.{is_empty, play_announcement}
use whatsmeow_gateway.Call.AnnexB.{split_annex_b}
use whatsmeow_gateway.Call.Registry.{LiveAction, reject, hangup, Tracked, registered}
use whatsmeow_gateway.Call.Manager.{Manager, Surroundings, set_call}
use whatsmeow_gateway.Call.Command.{
  CallCommand, Action, LiveCommand, live, play_audio, play_video, unknown, placing, on_live, Caller,
  ack_command, fail_command, dispatch_caller,
}

-- The error of a live action: a `fetchError`, or another.
pub data LiveError : Type 0 where
  fetch_error : String → LiveError
  plain_error : String → LiveError

-- The code and the reason with which the command fails.
abbrev pub failure_of : LiveError → ErrorCode × String
failure_of (fetch_error reason) = (media_fetch, reason)
failure_of (plain_error reason) = (action_failed, reason)

abbrev pub Fetch : Type 0
Fetch = String → Result String (List ℕ)

abbrev failed_live : Option String → Option LiveError
failed_live none = none
failed_live (some reason) = some (plain_error reason)

-- `play`: the call with the announcement, or the error.
unfoldable pub play : Fetch → CallCommand → Tracked → Option LiveError × Tracked
play fetch cmd t =
    if cmd.media_url == ""
    then (some (fetch_error "call: play requires a mediaUrl"), t)
    else elim (fetch cmd.media_url) [
      | err reason ↦ (some (fetch_error ("call: fetch play media: " <> reason)), t)
      | ok data_bytes ↦
          if is_empty data_bytes
          then (some (fetch_error ("call: play media " <> cmd.media_url <> " is empty")), t)
          else let (played, changed) = play_announcement data_bytes t.outbound in
            elim played [
              | err reason ↦ (some (plain_error reason), record t { outbound = changed })
              | ok done ↦ (none, record t { outbound = changed })
            ]
    ]

-- `playVideo`, up to the goroutine that sends the units.
unfoldable pub check_video : Fetch → CallCommand → Option LiveError
check_video fetch cmd =
    if cmd.media_url == ""
    then some (fetch_error "call: video.play requires a mediaUrl")
    else elim (fetch cmd.media_url) [
      | err reason ↦ some (fetch_error ("call: fetch video media: " <> reason))
      | ok data_bytes ↦
          if is_empty (split_annex_b data_bytes)
          then some (fetch_error ("call: " <> cmd.media_url <> " carries no H.264 access unit"))
          else none
    ]

-- The `switch` of `dispatchLive`: the error of a known action and the call after it, or none for
-- an action that is not known.
abbrev pub live_outcome :
    Fetch → CallCommand → LiveCommand → Tracked → Option (Option LiveError × Tracked)
live_outcome fetch cmd (live action) t = some (failed_live (t.live.perform action), t)
live_outcome fetch cmd play_audio t = some (play fetch cmd t)
live_outcome fetch cmd play_video t = some (check_video fetch cmd, t)
live_outcome fetch cmd (unknown name) t = none

abbrev action_name : LiveCommand → String
action_name (unknown name) = name
action_name _ = ""

-- `hangup` and `reject` are satisfied by a call that has ended.
abbrev pub ends_call : LiveCommand → Bool
ends_call (live hangup) = true
ends_call (live reject) = true
ends_call _ = false

abbrev pub answer_live :
    Surroundings
    → ℕ
    → CallCommand
    → LiveCommand
    → ℕ
    → Option (Option LiveError × Tracked)
    → Manager
    → Manager
answer_live env now cmd action h none m =
    fail_command env now cmd unknown_action ("unknown call action \"" <> action_name action <> "\"")
      m
answer_live env now cmd action h (some (none, t)) m = ack_command env now cmd (set_call h t m)
answer_live env now cmd action h (some (some e, t)) m =
    fail_command env now cmd (failure_of e).0 (failure_of e).1 (set_call h t m)

abbrev pub answer_missing : Surroundings → ℕ → CallCommand → LiveCommand → Manager → Manager
answer_missing env now cmd action m =
    if ends_call action
    then ack_command env now cmd m
    else fail_command env now cmd call_not_found
        ("no live call \"" <> cmd.call_id <> "\" on channel \"" <> cmd.channel_id <> "\"") m

-- `dispatchLive`.
unfoldable pub dispatch_live :
    Surroundings → ℕ → Fetch → CallCommand → LiveCommand → Manager → Manager
dispatch_live env now fetch cmd action m = elim (registered cmd.channel_id cmd.call_id m.registry) [
  | none ↦ answer_missing env now cmd action m
  | some h ↦ elim (lookup h m.calls) [
    | none ↦ m
    | some t ↦ answer_live env now cmd action h (live_outcome fetch cmd action t) m
  ]
]

-- The `switch` of `Dispatch`.
abbrev pub dispatch_action :
    Surroundings → ℕ → Caller → Fetch → CallCommand → Action → Manager → Manager
dispatch_action env now c fetch cmd (placing action) m = dispatch_caller env now c cmd action m
dispatch_action env now c fetch cmd (on_live action) m = dispatch_live env now fetch cmd action m

-- `Dispatch`.
unfoldable pub dispatch : Surroundings → ℕ → Option Caller → Fetch → CallCommand → Manager → Manager
dispatch env now none fetch cmd m =
    fail_command env now cmd no_caller "channel has no calling client" m
dispatch env now (some c) fetch cmd m = dispatch_action env now c fetch cmd cmd.action m
