-- ===== src/Call/Ending/Answered.antt =====
-- Every command on a call of internal/call is answered, whatever happened before.
use whatsmeow_gateway.Base.{
  ℕ, String, List, [], ◌∷◌, Bool, true, false, Option, none, some, lookup, nat_Eq, ◌==◌,
  if◌then◌else◌, length, inl, inr, Bool-cases, Option-cases, Result, ok, err, ltb, string_Eq,
}
use whatsmeow_gateway.Call.Contracts.{ErrorCode}
use whatsmeow_gateway.Call.Registry.{Tracked, channels, registered, is_current}
use whatsmeow_gateway.Call.Registry.Names.{insert-Names}
use whatsmeow_gateway.Call.Manager.{Manager, Surroundings, new_manager}
use whatsmeow_gateway.Call.Lifecycle.{attach_stream, detach_stream}
use whatsmeow_gateway.Call.Command.{
  CallCommand, Action, CallerAction, LiveCommand, Caller, linked, previewed, dispatch_caller,
  fail_command, dial, group_dial, group_dial_by_id, create_link, preview_link, join_link, Link,
  LinkPreview, placing, on_live,
}
use whatsmeow_gateway.Call.Dispatch.{
  Fetch, LiveError, live_outcome, answer_live, answer_missing, ends_call, dispatch_live,
  dispatch_action, dispatch,
}
use whatsmeow_gateway.Call.Dispatch.Answers.{Answers, Rooted, dispatch-Answers}
use whatsmeow_gateway.Call.Ending.{
  Operation, takes_incoming, dispatches, calls_back, aborts_channel, aborts_all, attaches, detaches,
  uploads, perform, perform_all,
}
use whatsmeow_gateway.Call.Ending.Rooted.{
  abort_channel-Rooted, abort_channels-Rooted, take_incoming-Rooted, callback-Rooted, upload-Rooted,
  placed-Rooted,
}

attach_stream-Rooted :
    (channel_id call_id : String) (m : Manager)
    → Rooted m
    → Rooted (attach_stream channel_id call_id m).1
unfolding attach_stream
attach_stream-Rooted channel_id call_id m rooted =
    elim (Option-cases (registered channel_id call_id m.registry)) [
      | inl e ↦ rw (e, attach_stream) rooted
      | inr (h, e) ↦ elim (Option-cases (lookup h m.calls)) [
        | inl f ↦ rw (e, f, attach_stream) rooted
        | inr (t, f) ↦
            rw (e, f, attach_stream)
              (elim (Bool-cases t.finished) [
                | inl g ↦ simp g rooted
                | inr g ↦ simp g (insert-Names h _ m.calls m.registry rooted)
              ])
      ]
    ]

detach_stream-Rooted : (h s : ℕ) (m : Manager) → Rooted m → Rooted (detach_stream h s m)
unfolding detach_stream
detach_stream-Rooted h s m rooted = elim (Option-cases (lookup h m.calls)) [
  | inl e ↦ rw (e, detach_stream) rooted
  | inr (t, e) ↦
      rw (e, detach_stream)
        (elim (Bool-cases (is_current s t.stream)) [
          | inl g ↦ rw g (insert-Names h _ m.calls m.registry rooted)
          | inr g ↦ rw g rooted
        ])
]

module _ (env : Surroundings) where
  guarded-Rooted :
      (now : ℕ) (cmd : CallCommand) (t : Bool) (code : ErrorCode) (reason : String)
      (m after : Manager)
      → Rooted m
      → Rooted after
      → Rooted (if t then fail_command env now cmd code reason m else after)
  guarded-Rooted now cmd true code reason m after rooted h = rooted
  guarded-Rooted now cmd false code reason m after rooted h = h

  linked-Rooted :
      (now : ℕ) (cmd : CallCommand) (r : Result String Link) (m : Manager)
      → Rooted m
      → Rooted (linked env now cmd r m)
  linked-Rooted now cmd (err reason) m rooted = rooted
  linked-Rooted now cmd (ok link) m rooted = rooted

  previewed-Rooted :
      (now : ℕ) (cmd : CallCommand) (r : Result String LinkPreview) (m : Manager)
      → Rooted m
      → Rooted (previewed env now cmd r m)
  previewed-Rooted now cmd (err reason) m rooted = rooted
  previewed-Rooted now cmd (ok preview) m rooted = rooted

  dispatch_caller-Rooted :
      (now : ℕ) (caller : Caller) (cmd : CallCommand) (action : CallerAction) (m : Manager)
      → Rooted m
      → Rooted (dispatch_caller env now caller cmd action m)
  unfolding dispatch_caller
  dispatch_caller-Rooted now caller cmd dial m rooted =
      guarded-Rooted now cmd (cmd.to == "") _ _ m _ rooted
        (placed-Rooted env now cmd (caller.call cmd.to cmd.video) m rooted)
  dispatch_caller-Rooted now caller cmd group_dial m rooted =
      guarded-Rooted now cmd (ltb (length cmd.targets) 2) _ _ m _ rooted
        (placed-Rooted env now cmd (caller.group_call cmd.targets cmd.group_id cmd.video) m rooted)
  dispatch_caller-Rooted now caller cmd group_dial_by_id m rooted =
      guarded-Rooted now cmd (cmd.group_id == "") _ _ m _ rooted
        (placed-Rooted env now cmd (caller.group_call_by_id cmd.group_id cmd.video) m rooted)
  dispatch_caller-Rooted now caller cmd create_link m rooted =
      linked-Rooted now cmd (caller.create_call_link cmd.video) m rooted
  dispatch_caller-Rooted now caller cmd preview_link m rooted =
      guarded-Rooted now cmd (cmd.link_token == "") _ _ m _ rooted
        (previewed-Rooted now cmd (caller.preview_call_link cmd.link_token cmd.video) m rooted)
  dispatch_caller-Rooted now caller cmd join_link m rooted =
      guarded-Rooted now cmd (cmd.link_token == "") _ _ m _ rooted
        (placed-Rooted env now cmd (caller.join_call_link cmd.link_token cmd.video) m rooted)

  answer_live-Rooted :
      (now : ℕ) (cmd : CallCommand) (action : LiveCommand) (h : ℕ)
      (outcome : Option (Option LiveError × Tracked)) (m : Manager)
      → Rooted m
      → Rooted (answer_live env now cmd action h outcome m)
  answer_live-Rooted now cmd action h none m rooted = rooted
  answer_live-Rooted now cmd action h (some (none, t)) m rooted =
      insert-Names h t m.calls m.registry rooted
  answer_live-Rooted now cmd action h (some (some e, t)) m rooted =
      insert-Names h t m.calls m.registry rooted

  answer_missing-Rooted :
      (now : ℕ) (cmd : CallCommand) (action : LiveCommand) (m : Manager)
      → Rooted m
      → Rooted (answer_missing env now cmd action m)
  answer_missing-Rooted now cmd action m rooted = elim (Bool-cases (ends_call action)) [
    | inl e ↦ rw e rooted
    | inr e ↦ rw e rooted
  ]

  dispatch_live-Rooted :
      (now : ℕ) (fetch : Fetch) (cmd : CallCommand) (action : LiveCommand) (m : Manager)
      → Rooted m
      → Rooted (dispatch_live env now fetch cmd action m)
  unfolding dispatch_live
  dispatch_live-Rooted now fetch cmd action m rooted =
      elim (Option-cases (registered cmd.channel_id cmd.call_id m.registry)) [
        | inl e ↦ rw (e, dispatch_live) (answer_missing-Rooted now cmd action m rooted)
        | inr (h, e) ↦ elim (Option-cases (lookup h m.calls)) [
          | inl f ↦ rw (e, f, dispatch_live) rooted
          | inr (t, f) ↦
              rw (e, f, dispatch_live)
                (answer_live-Rooted now cmd action h (live_outcome fetch cmd action t) m rooted)
        ]
      ]

  dispatch_action-Rooted :
      (now : ℕ) (c : Caller) (fetch : Fetch) (cmd : CallCommand) (action : Action) (m : Manager)
      → Rooted m
      → Rooted (dispatch_action env now c fetch cmd action m)
  dispatch_action-Rooted now c fetch cmd (placing action) m rooted =
      dispatch_caller-Rooted now c cmd action m rooted
  dispatch_action-Rooted now c fetch cmd (on_live action) m rooted =
      dispatch_live-Rooted now fetch cmd action m rooted

  dispatch-Rooted :
      (now : ℕ) (caller : Option Caller) (fetch : Fetch) (cmd : CallCommand) (m : Manager)
      → Rooted m
      → Rooted (dispatch env now caller fetch cmd m)
  unfolding dispatch
  dispatch-Rooted now none fetch cmd m rooted = rooted
  dispatch-Rooted now (some c) fetch cmd m rooted =
      dispatch_action-Rooted now c fetch cmd cmd.action m rooted

  perform-Rooted : (op : Operation) (m : Manager) → Rooted m → Rooted (perform env op m)
  perform-Rooted (takes_incoming now channel_id live_call) m rooted =
      take_incoming-Rooted env now channel_id live_call m rooted
  perform-Rooted (dispatches now caller fetch cmd) m rooted =
      dispatch-Rooted now caller fetch cmd m rooted
  perform-Rooted (calls_back now h c) m rooted = callback-Rooted env now h c m rooted
  perform-Rooted (aborts_channel now channel_id reason) m rooted =
      abort_channel-Rooted env now channel_id reason m rooted
  perform-Rooted (aborts_all now reason) m rooted =
      abort_channels-Rooted env now reason (channels m.registry) m rooted
  perform-Rooted (attaches channel_id call_id) m rooted =
      attach_stream-Rooted channel_id call_id m rooted
  perform-Rooted (detaches h s) m rooted = detach_stream-Rooted h s m rooted
  perform-Rooted (uploads now h r failure) m rooted = upload-Rooted env now h r failure m rooted

  pub perform_all-Rooted :
      (ops : List Operation) (m : Manager) → Rooted m → Rooted (perform_all env ops m)
  perform_all-Rooted [] m rooted = rooted
  perform_all-Rooted (op ∷ ops) m rooted =
      perform_all-Rooted ops (perform env op m) (perform-Rooted op m rooted)

pub new_manager-Rooted : Rooted new_manager
unfolding registered lookup
new_manager-Rooted channel_id call_id h e = absurd (cc e)

-- Every command is answered, and once: after any sequence of incoming calls, commands, callbacks,
-- aborts, streams and uploads, dispatching a command publishes exactly one event that acknowledges
-- it, fails it or gives its link, with the command's channel and id, whatever else it publishes.
pub perform_all-Answers :
    (env : Surroundings) (ops : List Operation) (now : ℕ) (caller : Option Caller) (fetch : Fetch)
    (cmd : CallCommand)
    → let m = perform_all env ops new_manager in Answers cmd m (dispatch env now caller fetch cmd m)
perform_all-Answers env ops now caller fetch cmd =
    dispatch-Answers env now caller fetch cmd (perform_all env ops new_manager)
      (perform_all-Rooted env ops new_manager new_manager-Rooted)
