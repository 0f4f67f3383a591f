-- ===== src/Gateway/GroupCommand/Ends.antt =====
-- How the work on one group ends: in the ledger, so that it reads as the event that is published.
use whatsmeow_gateway.Base.{
  ℕ, ◌+◌, String, ◌<>◌, true, false, Option, none, some, ltb, Result, ok, err, string_Eq, ◌==◌, ◌≡◌,
  refl, ==-refl, inl, inr, Bool-cases, Option-cases, Result-cases, subst,
}
use whatsmeow_gateway.Amqp.RpcErrors.{GoError, invalid_request}
use whatsmeow_gateway.Dedupe.{
  Store, clean, ActionRow, action_key_Eq, record_action_halt, record_of, sent, failed,
}
use whatsmeow_gateway.Dedupe.Actions.{
  action_row, mark_action_done-row, mark_action_failed-row, record_action_halt-ok,
}
use whatsmeow_gateway.Groups.Errors.{is_unavailable}
use whatsmeow_gateway.Groups.Service.{Jid, apply}
use whatsmeow_gateway.Gateway.Pacer.{wait}
use whatsmeow_gateway.Gateway.GroupCommand.{
  key_of, recorded_event, fail, halt_or_give_up, conclude, take_turn, apply_group_action,
  applied_world, bad_group_jid,
}
use whatsmeow_gateway.Gateway.GroupSetup.{Command, Event, World, ItemEnv, HandlerError, Run}
use whatsmeow_gateway.Gateway.GroupCommand.{group_jid_of, applied_world, group_halt_limit}
use whatsmeow_gateway.Gateway.GroupCommand.Steps.{rpc_error-speaks}

-- The ledger holds the end of the action, and reads as the event.
abbrev pub Settled : Command → String → Event → Store → Type 0
Settled cmd raw event s =
    (row : ActionRow) × (action_row s (key_of cmd raw) ≡ some row)
    × ((record_of row).finished ≡ true)
    × (recorded_event cmd raw (record_of row) ≡ event)

abbrev pub Ends : Command → String → World → Result HandlerError Event → Type 0
Ends cmd raw w (err e) = Unit
Ends cmd raw w (ok event) = Settled cmd raw event w.store

-- An error that is recorded has a text: the ledger takes no failure without one.
abbrev pub Speaks : Result GoError (Option ℕ) → Type 0
Speaks (ok removed) = Unit
Speaks (err e) = (e.text == "") ≡ false

abbrev pub SetupSpeaks : Option GoError → Type 0
SetupSpeaks none = Unit
SetupSpeaks (some e) = (e.text == "") ≡ false

module _ (env : ItemEnv) (cmd : Command) (raw : String) (mark : env.mark ≡ clean) where
  pub fail-Ends :
      (w : World) (e : GoError) (row : ActionRow)
      → action_row w.store (key_of cmd raw) ≡ some row
      → (e.text == "") ≡ false
      → Ends cmd raw (fail w env cmd raw e).0 (fail w env cmd raw e).1
  unfolding fail
  fail-Ends w e row h n =
      let key = key_of cmd raw in
      let ended = record row { status = failed; removed = none; failure = some e.text } in
      (
        ended,
        rw mark
            (rw (mark_action_failed-row w.store key key e.text row n h) (rw (==-refl key) refl)),
        rw n refl,
        rw n (rw n refl),
      )

  pub halt_or_give_up-Ends :
      (w : World) (e : GoError) (row : ActionRow)
      → action_row w.store (key_of cmd raw) ≡ some row
      → (e.text == "") ≡ false
      → Ends cmd raw (halt_or_give_up w env cmd raw e).0 (halt_or_give_up w env cmd raw e).1
  unfolding halt_or_give_up
  halt_or_give_up-Ends w e row h n =
      let key = key_of cmd raw in
      let w' : World = record w { store = (record_action_halt w.store env.halt key).0 } in
      elim (Result-cases (record_action_halt w.store env.halt key).1) [
        | inr (x, failed_halt) ↦ rw failed_halt tt
        | inl (halts, counted) ↦ rw counted (elim (Bool-cases (ltb halts group_halt_limit)) [
          | inl below ↦ rw below tt
          | inr reached ↦ rw reached (
              fail-Ends w' e (record row { halts = row.halts + 1 })
                (record_action_halt-ok w.store env.halt key row h counted).0 n)
        ])
      ]

  pub conclude-Ends :
      (w : World) (r : Result GoError (Option ℕ)) (row : ActionRow)
      → action_row w.store (key_of cmd raw) ≡ some row
      → Speaks r
      → Ends cmd raw (conclude w env cmd raw r).0 (conclude w env cmd raw r).1
  unfolding conclude
  conclude-Ends w (ok removed) row h n =
      let key = key_of cmd raw in
      let ended = record row { status = sent; removed = removed; failure = none } in
      (
        ended,
        rw mark (rw (mark_action_done-row w.store key key removed row h) (rw (==-refl key) refl)),
        refl,
        refl,
      )
  conclude-Ends w (err e) row h n = elim (Bool-cases (is_unavailable e)) [
    | inr final ↦ rw final (fail-Ends w e row h n)
    | inl away ↦ rw away (elim (Bool-cases env.stopping_after) [
      | inl stopping ↦ simp stopping tt
      | inr running ↦ simp running (halt_or_give_up-Ends w e row h n)
    ])
  ]

  pub take_turn-Ends :
      (w : World) (run : Run) (jid : Jid) (row : ActionRow)
      → action_row w.store (key_of cmd raw) ≡ some row
      → Speaks (apply env.client cmd.action jid cmd.params run.photo).1
      → Ends cmd raw (take_turn w env cmd run raw jid).0 (take_turn w env cmd run raw jid).1
  unfolding take_turn
  take_turn-Ends w run jid row h n = elim (Option-cases (wait w.pacer cmd.channel_id env.pace)) [
    | inl e ↦ rw (e, take_turn) tt
    | inr (t, e) ↦
        rw (e, take_turn)
          (conclude-Ends
            (applied_world w env cmd (apply env.client cmd.action jid cmd.params run.photo).0)
            (apply env.client cmd.action jid cmd.params run.photo).1 row h n)
  ]

  pub apply_group_action-Ends :
      (parse_jid : String → Option Jid) (w : World) (run : Run) (row : ActionRow)
      → action_row w.store (key_of cmd raw) ≡ some row
      → SetupSpeaks run.setup_error
      → ((jid : Jid) → Speaks (apply env.client cmd.action jid cmd.params run.photo).1)
      → Ends cmd raw
          (apply_group_action parse_jid w env cmd run raw).0
          (apply_group_action parse_jid w env cmd run raw).1
  unfolding apply_group_action
  apply_group_action-Ends parse_jid w run row h setup n = elim (Option-cases run.setup_error) [
    | inr (e, s) ↦ rw (s, apply_group_action) (fail-Ends w e row h (subst SetupSpeaks s setup))
    | inl s ↦ elim (Option-cases (group_jid_of (parse_jid raw))) [
      | inr (jid, p) ↦ rw (s, apply_group_action, p) (take_turn-Ends w run jid row h (n jid))
      | inl p ↦
          rw (s, apply_group_action, p)
            (fail-Ends w (bad_group_jid raw) row h (
              rpc_error-speaks invalid_request ("groupJid \"" <> (raw <> "\" is not a group jid"))))
    ]
  ]
