-- ===== src/Call/Dispatch/Answers.antt =====
-- Every command on a call is answered once, by internal/call/command.go.
use mathlib.Core.List.{append-nil, append_assoc}
use whatsmeow_gateway.Base.{
  ℕ, String, List, [], ◌∷◌, ◌++◌, Bool, true, false, Option, none, some, lookup, nat_Eq, string_Eq,
  ◌==◌, if◌then◌else◌, Result, ok, err, select, select-append, ◌≡◌, refl, sym, ap, ◌∙◌, inl, inr,
  Bool-cases, Option-cases, ltb, length,
}
use whatsmeow_gateway.Call.Contracts.{
  Event, EventType, ErrorCode, command_ack, command_failed, link_created, link_preview,
  action_failed,
}
use whatsmeow_gateway.Call.Registry.{LiveCall, Tracked, registered, unregister}
use whatsmeow_gateway.Call.Registry.Names.{Names}
use whatsmeow_gateway.Call.Manager.{Manager, Surroundings, set_call}
use whatsmeow_gateway.Call.Lifecycle.{finish, end_call, flush_early_end}
use whatsmeow_gateway.Call.Command.{
  CallCommand, Action, CallerAction, dial, group_dial, group_dial_by_id, create_link, preview_link,
  join_link, LiveCommand, placing, on_live, Caller, Link, LinkPreview, ack_command, fail_command,
  outbound_call, announced, track_outbound, placed, linked, previewed, dispatch_caller,
}
use whatsmeow_gateway.Call.Dispatch.{
  Fetch, LiveError, live_outcome, answer_live, answer_missing, ends_call, dispatch_action,
  dispatch_live, dispatch,
}

-- The events that answer a command.
abbrev is_answer_type : EventType → Bool
is_answer_type command_ack = true
is_answer_type command_failed = true
is_answer_type link_created = true
is_answer_type link_preview = true
is_answer_type _ = false

abbrev pub is_answer : Event → Bool
is_answer e = is_answer_type e.type

-- Between two states the manager publishes one answer, to this command.
abbrev pub Answers : CallCommand → Manager → Manager → Type 0
Answers cmd m after =
    (new : List Event) × (answer : Event) × (after.published ≡ m.published ++ new)
    × (select is_answer new ≡ answer ∷ [])
    × (answer.channel_id ≡ cmd.channel_id)
    × (answer.command_id ≡ cmd.command_id)

-- Between two states the manager publishes no answer.
abbrev Quiet : Manager → Manager → Type 0
Quiet m after =
    (new : List Event) × (after.published ≡ m.published ++ new) × (select is_answer new ≡ [])

-- The calls that the registry names are there.
abbrev pub Rooted : Manager → Type 0
Rooted m = Names m.calls m.registry

finish-Quiet :
    (env : Surroundings) (now h : ℕ) (reason : String) (m : Manager)
    → Quiet m (finish env now h reason m)
unfolding select finish
finish-Quiet env now h reason m = elim (Option-cases (lookup h m.calls)) [
  | inl e ↦ rw (e, finish) ([], sym (append-nil m.published), refl)
  | inr (t, e) ↦
      rw (e, finish)
        (elim (Bool-cases t.ended) [
          | inl f ↦ simp f ([], sym (append-nil m.published), refl)
          | inr f ↦ simp f (_, refl, refl)
        ])
]

end_call-Quiet :
    (env : Surroundings) (now h : ℕ) (reason : String) (m : Manager)
    → Quiet m (end_call env now h reason m)
unfolding select end_call
end_call-Quiet env now h reason m = elim (Option-cases (lookup h m.calls)) [
  | inl e ↦ rw (e, end_call) ([], sym (append-nil m.published), refl)
  | inr (t, e) ↦
      rw (e, end_call)
        (elim (Bool-cases (unregister t.channel_id t.call_id m.registry).0) [
          | inl f ↦ rw f (
              finish-Quiet env now h reason
                (record m { registry = (unregister t.channel_id t.call_id m.registry).1 }))
          | inr f ↦ rw f ([], sym (append-nil m.published), refl)
        ])
]

flush_early_end-Quiet :
    (env : Surroundings) (now h : ℕ) (early : Option String) (m : Manager)
    → Quiet m (flush_early_end env now h early m)
unfolding select
flush_early_end-Quiet env now h none m = ([], sym (append-nil m.published), refl)
flush_early_end-Quiet env now h (some reason) m = end_call-Quiet env now h reason m

-- An answer stays the only one when the manager goes on quietly.
Answers-Quiet :
    (cmd : CallCommand) (m during after : Manager)
    → Answers cmd m during
    → Quiet during after
    → Answers cmd m after
Answers-Quiet cmd m during after (new, answer, e, f, same_channel, same_command) (more, g, quiet) =
    (
      new ++ more,
      answer,
      g ∙ ap (λ l. l ++ more) e ∙ append_assoc m.published new more,
      select-append is_answer new more ∙ (rw (f, quiet) refl),
      same_channel,
      same_command,
    )

ack_command-Answers :
    (env : Surroundings) (now : ℕ) (cmd : CallCommand) (m : Manager)
    → Answers cmd m (ack_command env now cmd m)
unfolding select
ack_command-Answers env now cmd m = (_, _, refl, refl, refl, refl)

fail_command-Answers :
    (env : Surroundings) (now : ℕ) (cmd : CallCommand) (code : ErrorCode) (reason : String)
    (m : Manager)
    → Answers cmd m (fail_command env now cmd code reason m)
unfolding select
fail_command-Answers env now cmd code reason m = (_, _, refl, refl, refl, refl)

placed-Answers :
    (env : Surroundings) (now : ℕ) (cmd : CallCommand) (r : Result String LiveCall) (m : Manager)
    → Answers cmd m (placed env now cmd r m)
unfolding placed track_outbound select
placed-Answers env now cmd (err reason) m = fail_command-Answers env now cmd action_failed reason m
placed-Answers env now cmd (ok live_call) m =
    Answers-Quiet cmd m (announced env now cmd (outbound_call env now cmd live_call) m)
      (track_outbound env now cmd live_call m)
      (_, _, append_assoc m.published _ _, refl, refl, refl)
      (flush_early_end-Quiet env now m.next _ _)

linked-Answers :
    (env : Surroundings) (now : ℕ) (cmd : CallCommand) (r : Result String Link) (m : Manager)
    → Answers cmd m (linked env now cmd r m)
unfolding select
linked-Answers env now cmd (err reason) m = fail_command-Answers env now cmd action_failed reason m
linked-Answers env now cmd (ok link) m = (_, _, refl, refl, refl, refl)

previewed-Answers :
    (env : Surroundings) (now : ℕ) (cmd : CallCommand) (r : Result String LinkPreview) (m : Manager)
    → Answers cmd m (previewed env now cmd r m)
unfolding select
previewed-Answers env now cmd (err reason) m =
    fail_command-Answers env now cmd action_failed reason m
previewed-Answers env now cmd (ok preview) m = (_, _, refl, refl, refl, refl)

-- A test of the command's arguments: a refusal answers it, and so does what follows.
guarded-Answers :
    (env : Surroundings) (now : ℕ) (cmd : CallCommand) (t : Bool) (code : ErrorCode)
    (reason : String) (m after : Manager)
    → Answers cmd m after
    → Answers cmd m (if t then fail_command env now cmd code reason m else after)
guarded-Answers env now cmd true code reason m after h =
    fail_command-Answers env now cmd code reason m
guarded-Answers env now cmd false code reason m after h = h

dispatch_caller-Answers :
    (env : Surroundings) (now : ℕ) (caller : Caller) (cmd : CallCommand) (action : CallerAction)
    (m : Manager)
    → Answers cmd m (dispatch_caller env now caller cmd action m)
unfolding dispatch_caller
dispatch_caller-Answers env now caller cmd dial m =
    guarded-Answers env now cmd (cmd.to == "") _ _ m _
      (placed-Answers env now cmd (caller.call cmd.to cmd.video) m)
dispatch_caller-Answers env now caller cmd group_dial m =
    guarded-Answers env now cmd (ltb (length cmd.targets) 2) _ _ m _
      (placed-Answers env now cmd (caller.group_call cmd.targets cmd.group_id cmd.video) m)
dispatch_caller-Answers env now caller cmd group_dial_by_id m =
    guarded-Answers env now cmd (cmd.group_id == "") _ _ m _
      (placed-Answers env now cmd (caller.group_call_by_id cmd.group_id cmd.video) m)
dispatch_caller-Answers env now caller cmd create_link m =
    linked-Answers env now cmd (caller.create_call_link cmd.video) m
dispatch_caller-Answers env now caller cmd preview_link m =
    guarded-Answers env now cmd (cmd.link_token == "") _ _ m _
      (previewed-Answers env now cmd (caller.preview_call_link cmd.link_token cmd.video) m)
dispatch_caller-Answers env now caller cmd join_link m =
    guarded-Answers env now cmd (cmd.link_token == "") _ _ m _
      (placed-Answers env now cmd (caller.join_call_link cmd.link_token cmd.video) m)

answer_missing-Answers :
    (env : Surroundings) (now : ℕ) (cmd : CallCommand) (action : LiveCommand) (m : Manager)
    → Answers cmd m (answer_missing env now cmd action m)
unfolding select
answer_missing-Answers env now cmd action m = elim (Bool-cases (ends_call action)) [
  | inl h ↦ rw h (ack_command-Answers env now cmd m)
  | inr h ↦ rw h (fail_command-Answers env now cmd _ _ m)
]

answer_live-Answers :
    (env : Surroundings) (now : ℕ) (cmd : CallCommand) (action : LiveCommand) (h : ℕ)
    (outcome : Option (Option LiveError × Tracked)) (m : Manager)
    → Answers cmd m (answer_live env now cmd action h outcome m)
answer_live-Answers env now cmd action h none m = fail_command-Answers env now cmd _ _ m
answer_live-Answers env now cmd action h (some (none, t)) m =
    ack_command-Answers env now cmd (set_call h t m)
answer_live-Answers env now cmd action h (some (some e, t)) m =
    fail_command-Answers env now cmd _ _ (set_call h t m)

dispatch_live-Answers :
    (env : Surroundings) (now : ℕ) (fetch : Fetch) (cmd : CallCommand) (action : LiveCommand)
    (m : Manager)
    → Rooted m
    → Answers cmd m (dispatch_live env now fetch cmd action m)
unfolding dispatch_live select
dispatch_live-Answers env now fetch cmd action m rooted =
    elim (Option-cases (registered cmd.channel_id cmd.call_id m.registry)) [
      | inl e ↦ rw (e, dispatch_live) (answer_missing-Answers env now cmd action m)
      | inr (h, e) ↦
          let (t, f) = rooted cmd.channel_id cmd.call_id h e in
          rw (e, f, dispatch_live)
            (answer_live-Answers env now cmd action h (live_outcome fetch cmd action t) m)
    ]

dispatch_action-Answers :
    (env : Surroundings) (now : ℕ) (c : Caller) (fetch : Fetch) (cmd : CallCommand)
    (action : Action) (m : Manager)
    → Rooted m
    → Answers cmd m (dispatch_action env now c fetch cmd action m)
dispatch_action-Answers env now c fetch cmd (placing action) m rooted =
    dispatch_caller-Answers env now c cmd action m
dispatch_action-Answers env now c fetch cmd (on_live action) m rooted =
    dispatch_live-Answers env now fetch cmd action m rooted

-- A command to a manager whose registry names only calls that are there.
pub dispatch-Answers :
    (env : Surroundings) (now : ℕ) (caller : Option Caller) (fetch : Fetch) (cmd : CallCommand)
    (m : Manager)
    → Rooted m
    → Answers cmd m (dispatch env now caller fetch cmd m)
unfolding dispatch
dispatch-Answers env now none fetch cmd m rooted = fail_command-Answers env now cmd _ _ m
dispatch-Answers env now (some c) fetch cmd m rooted =
    dispatch_action-Answers env now c fetch cmd cmd.action m rooted
