-- ===== src/Call/Ending/Commands.antt =====
-- The commands of internal/call/command.go keep the count of ended calls.
use whatsmeow_gateway.Base.{
  ℕ, suc, String, [], ◌∷◌, ◌++◌, Bool, true, false, Option, none, some, lookup, nat_Eq, ◌==◌,
  if◌then◌else◌, length, select, ◌≡◌, refl, arith, inl, inr, Bool-cases, Option-cases, Result, ok,
  err, ltb, string_Eq,
}
use whatsmeow_gateway.Call.Contracts.{ErrorCode, action_failed}
use whatsmeow_gateway.Call.Registry.{LiveCall, Tracked, registered}
use whatsmeow_gateway.Call.Outbound.{play_announcement}
use whatsmeow_gateway.Call.Manager.{Manager, Surroundings, new_tracked}
use whatsmeow_gateway.Call.Command.{
  CallCommand, Action, CallerAction, LiveCommand, Caller, placed, linked, previewed, track_outbound,
  dispatch_caller, fail_command, dial, group_dial, group_dial_by_id, create_link, preview_link,
  join_link, Link, LinkPreview, placing, on_live, live, play_audio, play_video, unknown,
}
use whatsmeow_gateway.Call.Dispatch.{
  Fetch, LiveError, play, live_outcome, answer_live, answer_missing, ends_call, dispatch_live,
  dispatch_action, dispatch,
}
use whatsmeow_gateway.Call.Ending.{Which, has_ended}
use whatsmeow_gateway.Call.Ending.Balance.{publishing-Balanced, updating-Balanced, adding-Balanced}
use whatsmeow_gateway.Call.Ending.Steps.{Even, flush_early_end-Even, publish-Even}

module _ (q : Which) (env : Surroundings) where
  pub fail_command-Even :
      (now : ℕ) (cmd : CallCommand) (code : ErrorCode) (reason : String) (m : Manager)
      → Even q env m
      → Even q env (fail_command env now cmd code reason m)
  fail_command-Even now cmd code reason m even = publish-Even q env m _ _ refl even

  pub guarded-Even :
      (now : ℕ) (cmd : CallCommand) (t : Bool) (code : ErrorCode) (reason : String)
      (m after : Manager)
      → Even q env m
      → Even q env after
      → Even q env (if t then fail_command env now cmd code reason m else after)
  guarded-Even now cmd true code reason m after even h =
      fail_command-Even now cmd code reason m even
  guarded-Even now cmd false code reason m after even h = h

  pub placed-Even :
      (now : ℕ) (cmd : CallCommand) (r : Result String LiveCall) (m : Manager)
      → Even q env m
      → Even q env (placed env now cmd r m)
  unfolding placed track_outbound new_tracked select
  placed-Even now cmd (err reason) m even = fail_command-Even now cmd action_failed reason m even
  placed-Even now cmd (ok live_call) m even = flush_early_end-Even q env now m.next _ _ (
      publishing-Balanced q _ (m.published ++ _ ∷ []) (_ ∷ []) (suc m.next) refl (
        publishing-Balanced q _ m.published (_ ∷ []) (suc m.next) refl
          (adding-Balanced q m.calls m.published m.next _ refl even)))

  pub linked-Even :
      (now : ℕ) (cmd : CallCommand) (r : Result String Link) (m : Manager)
      → Even q env m
      → Even q env (linked env now cmd r m)
  linked-Even now cmd (err reason) m even = fail_command-Even now cmd action_failed reason m even
  linked-Even now cmd (ok link) m even = publish-Even q env m _ _ refl even

  pub previewed-Even :
      (now : ℕ) (cmd : CallCommand) (r : Result String LinkPreview) (m : Manager)
      → Even q env m
      → Even q env (previewed env now cmd r m)
  previewed-Even now cmd (err reason) m even = fail_command-Even now cmd action_failed reason m even
  previewed-Even now cmd (ok preview) m even = publish-Even q env m _ _ refl even

  pub dispatch_caller-Even :
      (now : ℕ) (caller : Caller) (cmd : CallCommand) (action : CallerAction) (m : Manager)
      → Even q env m
      → Even q env (dispatch_caller env now caller cmd action m)
  unfolding dispatch_caller
  dispatch_caller-Even now caller cmd dial m even =
      guarded-Even now cmd (cmd.to == "") _ _ m _ even
        (placed-Even now cmd (caller.call cmd.to cmd.video) m even)
  dispatch_caller-Even now caller cmd group_dial m even =
      guarded-Even now cmd (ltb (length cmd.targets) 2) _ _ m _ even
        (placed-Even now cmd (caller.group_call cmd.targets cmd.group_id cmd.video) m even)
  dispatch_caller-Even now caller cmd group_dial_by_id m even =
      guarded-Even now cmd (cmd.group_id == "") _ _ m _ even
        (placed-Even now cmd (caller.group_call_by_id cmd.group_id cmd.video) m even)
  dispatch_caller-Even now caller cmd create_link m even =
      linked-Even now cmd (caller.create_call_link cmd.video) m even
  dispatch_caller-Even now caller cmd preview_link m even =
      guarded-Even now cmd (cmd.link_token == "") _ _ m _ even
        (previewed-Even now cmd (caller.preview_call_link cmd.link_token cmd.video) m even)
  dispatch_caller-Even now caller cmd join_link m even =
      guarded-Even now cmd (cmd.link_token == "") _ _ m _ even
        (placed-Even now cmd (caller.join_call_link cmd.link_token cmd.video) m even)

  pub play-ended :
      (fetch : Fetch) (cmd : CallCommand) (t : Tracked)
      → has_ended q (play fetch cmd t).1 ≡ has_ended q t
  unfolding play play_announcement
  play-ended fetch cmd t = ground arith

  pub answer_live-Even :
      (now : ℕ) (cmd : CallCommand) (action : LiveCommand) (h : ℕ) (t u : Tracked)
      (outcome : Option LiveError) (m : Manager)
      → lookup h m.calls ≡ some t
      → has_ended q u ≡ has_ended q t
      → Even q env m
      → Even q env (answer_live env now cmd action h (some (outcome, u)) m)
  answer_live-Even now cmd action h t u none m found same even =
      publish-Even q env m _ _ refl
        (updating-Balanced q m.calls m.published m.next h t u found same even)
  answer_live-Even now cmd action h t u (some e) m found same even =
      publish-Even q env m _ _ refl
        (updating-Balanced q m.calls m.published m.next h t u found same even)

  pub live_outcome-Even :
      (now : ℕ) (fetch : Fetch) (cmd : CallCommand) (action : LiveCommand) (h : ℕ) (t : Tracked)
      (m : Manager)
      → lookup h m.calls ≡ some t
      → Even q env m
      → Even q env (answer_live env now cmd action h (live_outcome fetch cmd action t) m)
  live_outcome-Even now fetch cmd (live a) h t m found even =
      answer_live-Even now cmd (live a) h t t _ m found refl even
  live_outcome-Even now fetch cmd play_audio h t m found even =
      answer_live-Even now cmd play_audio h t (play fetch cmd t).1 _ m found
        (play-ended fetch cmd t) even
  live_outcome-Even now fetch cmd play_video h t m found even =
      answer_live-Even now cmd play_video h t t _ m found refl even
  live_outcome-Even now fetch cmd (unknown name) h t m found even =
      publish-Even q env m _ _ refl even

  pub answer_missing-Even :
      (now : ℕ) (cmd : CallCommand) (action : LiveCommand) (m : Manager)
      → Even q env m
      → Even q env (answer_missing env now cmd action m)
  answer_missing-Even now cmd action m even = elim (Bool-cases (ends_call action)) [
    | inl e ↦ rw e (publish-Even q env m _ _ refl even)
    | inr e ↦ rw e (publish-Even q env m _ _ refl even)
  ]

  pub dispatch_live-Even :
      (now : ℕ) (fetch : Fetch) (cmd : CallCommand) (action : LiveCommand) (m : Manager)
      → Even q env m
      → Even q env (dispatch_live env now fetch cmd action m)
  unfolding dispatch_live
  dispatch_live-Even now fetch cmd action m even =
      elim (Option-cases (registered cmd.channel_id cmd.call_id m.registry)) [
        | inl e ↦ rw (e, dispatch_live) (answer_missing-Even now cmd action m even)
        | inr (h, e) ↦ elim (Option-cases (lookup h m.calls)) [
          | inl f ↦ rw (e, f, dispatch_live) even
          | inr (t, f) ↦
              rw (e, f, dispatch_live) (live_outcome-Even now fetch cmd action h t m f even)
        ]
      ]

  pub dispatch_action-Even :
      (now : ℕ) (c : Caller) (fetch : Fetch) (cmd : CallCommand) (action : Action) (m : Manager)
      → Even q env m
      → Even q env (dispatch_action env now c fetch cmd action m)
  dispatch_action-Even now c fetch cmd (placing action) m even =
      dispatch_caller-Even now c cmd action m even
  dispatch_action-Even now c fetch cmd (on_live action) m even =
      dispatch_live-Even now fetch cmd action m even

  pub dispatch-Even :
      (now : ℕ) (caller : Option Caller) (fetch : Fetch) (cmd : CallCommand) (m : Manager)
      → Even q env m
      → Even q env (dispatch env now caller fetch cmd m)
  unfolding dispatch
  dispatch-Even now none fetch cmd m even = fail_command-Even now cmd _ _ m even
  dispatch-Even now (some c) fetch cmd m even =
      dispatch_action-Even now c fetch cmd cmd.action m even
