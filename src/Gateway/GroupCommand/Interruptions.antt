-- ===== src/Gateway/GroupCommand/Interruptions.antt =====
-- A command that stops in the middle: at a shutdown, and while WhatsApp is out of reach.
use whatsmeow_gateway.Base.{
  ℕ, ◌+◌, ◌<◌, String, Option, some, ltb, Result, ok, err, string_Eq, ◌≡◌, inl, inr, Bool-cases,
  ltb→lt, Option-cases, subst,
}
use whatsmeow_gateway.Amqp.RpcErrors.{GoError}
use whatsmeow_gateway.Dedupe.{
  StoreError, Answer, clean, refused, lost, ActionRecord, ActionRow, ActionKey, action_key_Eq,
  record_action_halt,
}
use whatsmeow_gateway.Dedupe.Actions.{action_row, begin_action-keeps, record_action_halt-row}
use whatsmeow_gateway.Groups.Errors.{is_unavailable}
use whatsmeow_gateway.Groups.Service.{Jid, apply}
use whatsmeow_gateway.Gateway.Pacer.{wait}
use whatsmeow_gateway.Gateway.GroupCommand.{
  key_of, fail, halt_or_give_up, conclude, take_turn, apply_group_action, publish, publish_result,
  act, handle_group, applied_world, bad_group_jid,
}
use whatsmeow_gateway.Gateway.GroupSetup.{Command, Event, World, ItemEnv, HandlerError, Run}
use whatsmeow_gateway.Gateway.GroupCommand.{group_jid_of, applied_world, group_halt_limit}
use whatsmeow_gateway.Gateway.GroupSetup.{shutting_down}
use whatsmeow_gateway.Gateway.GroupCommand.Rounds.{begun, reading}
use whatsmeow_gateway.Gateway.GroupCommand.{group_halt_limit}
use whatsmeow_gateway.Gateway.GroupSetup.{HandlerError}

-- What the ledger holds of an action when the work on its group stops with an error.
abbrev Stopped : ActionKey → ActionRow → World → Result HandlerError Event → Type 0
Stopped key row w' (err HandlerError.shutting_down) = action_row w'.store key ≡ some row
Stopped key row w' (err HandlerError.halted) =
    (action_row w'.store key ≡ some (record row { halts = row.halts + 1 }))
    × (row.halts + 1 < group_halt_limit)
Stopped key row w' _ = Unit

module _ (env : ItemEnv) (cmd : Command) (raw : String) (counted : env.halt ≡ clean)
    (row : ActionRow) where
  abbrev Stops : World × Result HandlerError Event → Type 0
  Stops out = Stopped (key_of cmd raw) row out.0 out.1

  fail-Stops : (w : World) (e : GoError) → Stops (fail w env cmd raw e)
  unfolding fail
  fail-Stops w e = tt

  halt_or_give_up-Stops :
      (w : World) (e : GoError)
      → action_row w.store (key_of cmd raw) ≡ some row
      → Stops (halt_or_give_up w env cmd raw e)
  unfolding halt_or_give_up
  halt_or_give_up-Stops w e h =
      let key = key_of cmd raw in
      let (wrote, count) = record_action_halt-row w.store key row h in
      simp (counted, count)
        (elim (Bool-cases (ltb (row.halts + 1) group_halt_limit)) [
          | inl below ↦ rw below (wrote, ltb→lt (row.halts + 1) group_halt_limit below)
          | inr reached ↦
              rw reached
                (fail-Stops (record w { store = (record_action_halt w.store clean key).0 }) e)
        ])

  conclude-Stops :
      (w : World) (r : Result GoError (Option ℕ))
      → action_row w.store (key_of cmd raw) ≡ some row
      → Stops (conclude w env cmd raw r)
  unfolding conclude
  conclude-Stops w (ok removed) h = tt
  conclude-Stops w (err e) h = elim (Bool-cases (is_unavailable e)) [
    | inr final ↦ rw final (fail-Stops w e)
    | inl away ↦ rw away (elim (Bool-cases env.stopping_after) [
      | inl stopping ↦ simp stopping h
      | inr running ↦ simp running (halt_or_give_up-Stops w e h)
    ])
  ]

  take_turn-Stops :
      (w : World) (run : Run) (jid : Jid)
      → action_row w.store (key_of cmd raw) ≡ some row
      → Stops (take_turn w env cmd run raw jid)
  unfolding take_turn
  take_turn-Stops w run jid h = elim (Option-cases (wait w.pacer cmd.channel_id env.pace)) [
    | inl e ↦ rw (e, take_turn) h
    | inr (t, e) ↦
        rw (e, take_turn)
          (conclude-Stops
            (applied_world w env cmd (apply env.client cmd.action jid cmd.params run.photo).0)
            (apply env.client cmd.action jid cmd.params run.photo).1 h)
  ]

  module _ (parse_jid : String → Option Jid) (run : Run) where
    apply_group_action-Stops :
        (w : World)
        → action_row w.store (key_of cmd raw) ≡ some row
        → Stops (apply_group_action parse_jid w env cmd run raw)
    unfolding apply_group_action
    apply_group_action-Stops w h = elim (Option-cases run.setup_error) [
      | inr (e, s) ↦ rw (s, apply_group_action) (fail-Stops w e)
      | inl s ↦ elim (Option-cases (group_jid_of (parse_jid raw))) [
        | inr (jid, p) ↦ rw (s, apply_group_action, p) (take_turn-Stops w run jid h)
        | inl p ↦ rw (s, apply_group_action, p) (fail-Stops w (bad_group_jid raw))
      ]
    ]

    act-Stops :
        (w : World) (r : Result StoreError ActionRecord)
        → action_row w.store (key_of cmd raw) ≡ some row
        → Stops (act parse_jid w env cmd run raw r)
    act-Stops w (err e) h = tt
    act-Stops w (ok r) h = elim (Bool-cases r.finished) [
      | inl done ↦ rw done tt
      | inr open_still ↦ rw open_still (apply_group_action-Stops w h)
    ]

-- How a whole round stops.
abbrev RoundStopped : ActionKey → ActionRow → World → Result HandlerError (Unit {0}) → Type 0
RoundStopped key row w' (err HandlerError.shutting_down) = action_row w'.store key ≡ some row
RoundStopped key row w' (err HandlerError.halted) =
    (action_row w'.store key ≡ some (record row { halts = row.halts + 1 }))
    × (row.halts + 1 < group_halt_limit)
RoundStopped key row w' _ = Unit

publish-RoundStopped :
    (a : Answer) (key : ActionKey) (row : ActionRow) (w : World) (event : Event)
    → RoundStopped key row (publish a w event).0 (publish a w event).1
publish-RoundStopped clean key row w event = tt
publish-RoundStopped refused key row w event = tt
publish-RoundStopped lost key row w event = tt

publish_result-RoundStopped :
    (env : ItemEnv) (key : ActionKey) (row : ActionRow) (out : World × Result HandlerError Event)
    → Stopped key row out.0 out.1
    → RoundStopped key row (publish_result env out).0 (publish_result env out).1
publish_result-RoundStopped env key row (w, err HandlerError.shutting_down) h = h
publish_result-RoundStopped env key row (w, err HandlerError.halted) h = h
publish_result-RoundStopped env key row (w, err HandlerError.begin_failed) h = tt
publish_result-RoundStopped env key row (w, err HandlerError.publish_failed) h = tt
publish_result-RoundStopped env key row (w, ok event) h =
    publish-RoundStopped env.published key row w event

module _ (parse_jid : String → Option Jid) (env : ItemEnv) (cmd : Command) (run : Run)
    (raw : String) where
  handle_group-RoundStopped :
      (w : World) (row : ActionRow)
      → env.halt ≡ clean
      → action_row w.store (key_of cmd raw) ≡ some row
      → RoundStopped
          (key_of cmd raw)
          row
          (handle_group parse_jid w env cmd run raw).0
          (handle_group parse_jid w env cmd run raw).1
  unfolding handle_group
  handle_group-RoundStopped w row counted h = elim (Bool-cases env.stopping) [
    | inl stopping ↦ simp stopping h
    | inr running ↦
        let w' = begun w env cmd raw in
        let key = key_of cmd raw in
        simp running (
          publish_result-RoundStopped env key row
            (act parse_jid w' env cmd run raw (reading w env cmd raw))
            (act-Stops env cmd raw counted row parse_jid run w' (reading w env cmd raw)
              (begin_action-keeps w.store env.begin key key row h)))
  ]

  -- A shutdown in the middle of a group leaves the action's row as it was, so that the command,
  -- which goes back to the queue, takes the action up again.
  pub handle_group-shutting_down :
      (w : World) (row : ActionRow)
      → env.halt ≡ clean
      → action_row w.store (key_of cmd raw) ≡ some row
      → (handle_group parse_jid w env cmd run raw).1 ≡ err shutting_down
      → action_row (handle_group parse_jid w env cmd run raw).0.store (key_of cmd raw) ≡ some row
  handle_group-shutting_down w row counted h stopped =
      subst (RoundStopped (key_of cmd raw) row (handle_group parse_jid w env cmd run raw).0) stopped
        (handle_group-RoundStopped w row counted h)

  -- While WhatsApp is out of reach a command halts at a group at most until the row has counted two
  -- halts: each halt that the ledger takes adds one to the row's count, changes nothing else of the
  -- row, and leaves the count below three.
  pub handle_group-halted :
      (w : World) (row : ActionRow)
      → env.halt ≡ clean
      → action_row w.store (key_of cmd raw) ≡ some row
      → (handle_group parse_jid w env cmd run raw).1 ≡ err HandlerError.halted
      → (action_row (handle_group parse_jid w env cmd run raw).0.store (key_of cmd raw)
          ≡ some (record row { halts = row.halts + 1 }))
        × (row.halts + 1 < 3)
  handle_group-halted w row counted h stopped =
      subst (RoundStopped (key_of cmd raw) row (handle_group parse_jid w env cmd run raw).0) stopped
        (handle_group-RoundStopped w row counted h)
