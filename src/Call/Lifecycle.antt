-- ===== src/Call/Lifecycle.antt =====
-- internal/call/manager.go: how a call starts, what its callbacks do, and how it ends once, by its
-- own callback or because its channel or the gateway stops. A handle that is in no heap is no
-- object of the program; the operations on one do nothing.
use whatsmeow_gateway.Base.{
  ℕ, suc, ◌-◌, ◌/◌, String, List, [], ◌∷◌, ◌++◌, Bool, true, false, ◌||◌, Option, none, some,
  lookup, insert, nat_Eq, string_Eq, if◌then◌else◌,
}
use whatsmeow_gateway.Call.Contracts.{
  Phase, phase_name, VideoState, Reaction, GroupState, WaitingRoom, HandState, ScreenShare, Media,
  EventVideoState, EventReaction, Event, inbound, incoming, accepted, ended, recording,
  state_changed, video_state, reaction, group_state, waiting_room, hand, screen_share,
  command_failed, recording_upload_failed,
}
use whatsmeow_gateway.Call.Outbound.{close, clear_operator}
use whatsmeow_gateway.Call.Registry.{
  LiveCall, Tracked, set_stream, finish_stream, clear_stream, registered, unregister, take_channel,
  channels,
}
use whatsmeow_gateway.Call.Manager.{
  Stream, Manager, Surroundings, second, publish, set_call, event, publish_inbound, new_tracked,
  track,
}

-- `close` of a stream, once.
abbrev pub close_stream : Option ℕ → List (ℕ × Stream) → List (ℕ × Stream)
close_stream none streams = streams
close_stream (some s) streams = elim (lookup s streams) [
  | none ↦ streams
  | some stream ↦ insert s (record stream { closed = true }) streams
]

-- `requestKeyframe`.
abbrev pub request_keyframe : Option ℕ → List (ℕ × Stream) → List (ℕ × Stream)
request_keyframe none streams = streams
request_keyframe (some s) streams = elim (lookup s streams) [
  | none ↦ streams
  | some stream ↦
      if stream.closed then streams else insert s (record stream { keyframe = true }) streams
]

abbrev seconds_since : ℕ → Option ℕ → ℕ
seconds_since now none = 0
seconds_since now (some at) = (now - at) / second

-- What `endOnce` runs.
abbrev pub finish_call : Surroundings → ℕ → ℕ → Tracked → String → Manager → Manager
finish_call env now h t reason m =
    let (stream, stopped) = finish_stream t in
    let over = record stopped { outbound = close t.outbound; ended = true } in
    let e = record (event env now over ended) {
      reason = reason;
      duration = seconds_since now t.answered_at;
    } in
    record m {
      calls = insert h over m.calls;
      streams = close_stream stream m.streams;
      uploads = if t.recording then m.uploads ++ h ∷ [] else m.uploads;
      published = m.published ++ e ∷ [];
    }

-- `finish`.
unfoldable pub finish : Surroundings → ℕ → ℕ → String → Manager → Manager
finish env now h reason m = elim (lookup h m.calls) [
  | none ↦ m
  | some t ↦ if t.ended then m else finish_call env now h t reason m
]

-- `end`.
unfoldable pub end_call : Surroundings → ℕ → ℕ → String → Manager → Manager
end_call env now h reason m = elim (lookup h m.calls) [
  | none ↦ m
  | some t ↦
      let (removed, registry) = unregister t.channel_id t.call_id m.registry in
      if removed then finish env now h reason (record m { registry = registry }) else m
]

abbrev pub finish_all : Surroundings → ℕ → String → List ℕ → Manager → Manager
finish_all env now reason [] m = m
finish_all env now reason (h ∷ hs) m = finish_all env now reason hs (finish env now h reason m)

-- `AbortChannel`.
unfoldable pub abort_channel : Surroundings → ℕ → String → String → Manager → Manager
abort_channel env now channel_id reason m =
    let (taken, registry) = take_channel channel_id m.registry in
    finish_all env now reason taken (record m { registry = registry })

abbrev pub abort_channels : Surroundings → ℕ → String → List String → Manager → Manager
abort_channels env now reason [] m = m
abort_channels env now reason (c ∷ cs) m =
    abort_channels env now reason cs (abort_channel env now c reason m)

-- `AbortAll`.
abbrev pub abort_all : Surroundings → ℕ → String → Manager → Manager
abort_all env now reason m = abort_channels env now reason (channels m.registry) m

-- `flushEarlyEnd`.
abbrev pub flush_early_end : Surroundings → ℕ → ℕ → Option String → Manager → Manager
flush_early_end env now h none m = m
flush_early_end env now h (some reason) m = end_call env now h reason m

-- The callback of `Attach`, for a call that is not rejected by itself.
unfoldable pub take_incoming : Surroundings → ℕ → String → LiveCall → Manager → Manager
take_incoming env now channel_id live m =
    let t = new_tracked env now channel_id live inbound env.record_calls in
    let h = m.next in
    flush_early_end env now h t.early_end
      (publish (event env now t incoming) (publish_inbound env now t (track h t m)))

-- The callbacks of `subscribe`.
pub data Callback : Type 0 where
  on_ready on_peer_accept on_keyframe_request : Callback
  on_end : String → Callback
  on_state_change : Phase → Callback
  on_mute_state : Bool → Callback
  on_video_state : VideoState → Callback
  on_reaction : Reaction → Callback
  on_group_state : GroupState → Callback
  on_waiting_room : WaitingRoom → Callback
  on_hand_raise : HandState → Callback
  on_screen_share : ScreenShare → Callback

abbrev first_answer : ℕ → Option ℕ → Option ℕ
first_answer now none = some now
first_answer now (some at) = some at

-- `markAnswered`, which `acceptOnce` runs once.
abbrev pub mark_answered : ℕ → Tracked → Tracked
mark_answered now t = record t { answered_at = first_answer now t.answered_at }

abbrev pub called_back : Surroundings → ℕ → ℕ → Tracked → Callback → Manager → Manager
called_back env now h t on_ready m =
    publish (event env now t accepted) (set_call h (mark_answered now t) m)
called_back env now h t on_peer_accept m =
    publish (event env now t accepted) (set_call h (mark_answered now t) m)
called_back env now h t on_keyframe_request m = record m {
  streams = request_keyframe t.stream m.streams;
}
called_back env now h t (on_end reason) m = end_call env now h reason m
called_back env now h t (on_state_change phase) m =
    publish (record (event env now t state_changed) { state = phase_name phase }) m
called_back env now h t (on_mute_state muted) m =
    publish (record (event env now t state_changed) { muted = some muted }) m
called_back env now h t (on_video_state v) m =
    let shown : EventVideoState = record {
      active = v.active;
      upgrade = v.upgrade;
      orientation = v.orientation;
    } in
    publish (record (event env now t video_state) { video = some shown }) m
called_back env now h t (on_reaction r) m =
    let shown : EventReaction = record {
      emoji = r.emoji;
      sender = r.sender;
      removed = r.removed;
    } in
    publish (record (event env now t reaction) { reacted = some shown }) m
called_back env now h t (on_group_state s) m =
    publish (record (event env now t group_state) { group = some s }) m
called_back env now h t (on_waiting_room s) m =
    publish (record (event env now t waiting_room) { waiting = some s }) m
called_back env now h t (on_hand_raise s) m =
    publish (record (event env now t hand) { raised_hand = some s }) m
called_back env now h t (on_screen_share s) m =
    publish (record (event env now t screen_share) { shared_screen = some s }) m

unfoldable pub callback : Surroundings → ℕ → ℕ → Callback → Manager → Manager
callback env now h c m = elim (lookup h m.calls) [ none ↦ m | some t ↦ called_back env now h t c m ]

-- `AttachStream`: the stream, and the one that it replaces is closed.
unfoldable pub attach_stream : String → String → Manager → Option ℕ × Manager
attach_stream channel_id call_id m = elim (registered channel_id call_id m.registry) [
  | none ↦ (none, m)
  | some h ↦ elim (lookup h m.calls) [
    | none ↦ (none, m)
    | some t ↦
        let s = m.next in
        let fresh : Stream = record { closed = false; keyframe = true } in
        let (attached, changed) = set_stream s t in
        let opened = insert s fresh m.streams in
        elim attached [
          | none ↦ (none, record m { streams = close_stream (some s) opened; next = suc m.next })
          | some old ↦ (
            some s,
            record m {
              calls = insert h changed m.calls;
              streams = close_stream old opened;
              next = suc m.next;
            },
          )
        ]
  ]
]

-- The `detach` that `AttachStream` returns.
unfoldable pub detach_stream : ℕ → ℕ → Manager → Manager
detach_stream h s m = elim (lookup h m.calls) [
  | none ↦ m
  | some t ↦
      let closed = record m { streams = close_stream (some s) m.streams } in
      let (current, changed) = clear_stream s t in
      if current
      then set_call h (record changed { outbound = clear_operator t.outbound }) closed
      else closed
]

-- The recordings that `Recorder.Finish` has stored: audio, video, and one side's audio each.
pub record Recording : Type 0 where
  pub audio : Option Media
  pub video : Option Media
  pub peer_audio : Option Media
  pub operator_audio : Option Media

abbrev pub is_stored : Option Media → Bool
is_stored none = false
is_stored (some media) = true

abbrev pub upload_failed : Event → String → Event
upload_failed e reason = record e {
  failure = some (record { code = recording_upload_failed; reason = reason });
}

abbrev pub failed_upload : Surroundings → ℕ → Tracked → Option String → List Event
failed_upload env now t none = []
failed_upload env now t (some reason) = upload_failed (event env now t command_failed) reason ∷ []

-- What the goroutine of `uploadRecording` publishes for what `Recorder.Finish` has returned.
abbrev pub upload_events : Surroundings → ℕ → Tracked → Recording → Option String → List Event
upload_events env now t r failure =
    let e = record (event env now t recording) {
      media = r.audio;
      video_media = r.video;
      peer_media = r.peer_audio;
      operator_media = r.operator_audio;
    } in
    (if is_stored r.audio || is_stored r.video then e ∷ [] else [])
    ++ failed_upload env now t failure

unfoldable pub upload : Surroundings → ℕ → ℕ → Recording → Option String → Manager → Manager
upload env now h r failure m = elim (lookup h m.calls) [
  | none ↦ m
  | some t ↦ record m { published = m.published ++ upload_events env now t r failure }
]
