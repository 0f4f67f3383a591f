-- ===== src/Gateway/GroupCommand/Rounds.antt =====
-- One round of the handler's loop: finished actions stay as they are.
use whatsmeow_gateway.Base.{
  String, true, false, Option, some, Result, ok, err, string_Eq, ◌==◌, ◌≡◌, refl, arith, ◌⊎◌, inl,
  inr, Bool-cases, ◌∙◌, sym, ap, subst,
}
use whatsmeow_gateway.Dedupe.{
  StoreError, clean, ActionRecord, ActionRow, ActionKey, action_key_Eq, begin_action, record_of,
}
use whatsmeow_gateway.Dedupe.Actions.{action_row, begin_action-keeps, begin_action-reads}
use whatsmeow_gateway.Groups.Service.{Jid, apply}
use whatsmeow_gateway.Gateway.GroupCommand.{
  key_of, recorded_event, publish_result, act, handle_group,
}
use whatsmeow_gateway.Gateway.GroupSetup.{Command, Event, World, ItemEnv, HandlerError, Run}
use whatsmeow_gateway.Gateway.GroupCommand.Steps.{apply_group_action-Same}
use whatsmeow_gateway.Gateway.GroupCommand.Ends.{Ends, Speaks, SetupSpeaks, apply_group_action-Ends}

pub publish_result-keeps :
    (env : ItemEnv) (out : World × Result HandlerError Event)
    → ((publish_result env out).0.store ≡ out.0.store)
      × ((publish_result env out).0.requests ≡ out.0.requests)
publish_result-keeps env (w, err e) = (refl, refl)
publish_result-keeps env (w, ok event) = (ground arith, ground arith)

-- The world once `BeginAction` has run, and what it answered.
abbrev pub begun : World → ItemEnv → Command → String → World
begun w env cmd raw = record w { store = (begin_action w.store env.begin (key_of cmd raw)).0 }

abbrev pub reading : World → ItemEnv → Command → String → Result StoreError ActionRecord
reading w env cmd raw = (begin_action w.store env.begin (key_of cmd raw)).1

module _ (parse_jid : String → Option Jid) (w : World) (env : ItemEnv) (cmd : Command) (run : Run)
    (raw : String) where
  pub act-keeps :
      (k : ActionKey) (row : ActionRow) (r : Result StoreError ActionRecord)
      → action_row w.store k ≡ some row
      → ((key_of cmd raw == k) ≡ false) ⊎ ((x : ActionRecord) → r ≡ ok x → x.finished ≡ true)
      → action_row (act parse_jid w env cmd run raw r).0.store k ≡ some row
  act-keeps k row (err e) h side = h
  act-keeps k row (ok r) h side = elim (Bool-cases r.finished) [
    | inl done ↦ rw done h
    | inr open_still ↦ rw open_still (elim side [
      | inl ne ↦ apply_group_action-Same env cmd raw k ne parse_jid w run ∙ h
      | inr all ↦ absurd (cc (all r refl, open_still))
    ])
  ]

  pub act-quiet :
      (r : Result StoreError ActionRecord)
      → ((x : ActionRecord) → r ≡ ok x → x.finished ≡ true)
      → (act parse_jid w env cmd run raw r).0.requests ≡ w.requests
  act-quiet (err e) all = refl
  act-quiet (ok r) all = rw (all r refl) refl

module _ (parse_jid : String → Option Jid) (env : ItemEnv) (cmd : Command) (run : Run)
    (raw : String) where
  -- An answer about a finished row says that it is finished.
  pub reading-finished :
      (w : World) (row : ActionRow)
      → action_row w.store (key_of cmd raw) ≡ some row
      → (record_of row).finished ≡ true
      → (x : ActionRecord) → reading w env cmd raw ≡ ok x
      → x.finished ≡ true
  reading-finished w row h f x r =
      let (_, same) = begin_action-reads w.store env.begin (key_of cmd raw) r in rw (same, h) f

  abbrev pub round : World → World × Result HandlerError (Unit {0})
  round w =
      publish_result env
        (act parse_jid (begun w env cmd raw) env cmd run raw (reading w env cmd raw))

  pub round-keeps :
      (w : World) (k : ActionKey) (row : ActionRow)
      → action_row w.store k ≡ some row
      → (record_of row).finished ≡ true
      → action_row (round w).0.store k ≡ some row
  round-keeps w k row h f =
      let key = key_of cmd raw in
      let h' = begin_action-keeps w.store env.begin key k row h in
      let out = act parse_jid (begun w env cmd raw) env cmd run raw (reading w env cmd raw) in
      rw (publish_result-keeps env out).0 (
        act-keeps parse_jid (begun w env cmd raw) env cmd run raw k row (reading w env cmd raw) h'
          (elim (Bool-cases (key == k)) [
            | inr ne ↦ inl ne
            | inl same ↦
                let own = sym ((action_key_Eq.same_iff key k).0 same) in
                inr (reading-finished w row (subst (λ x. action_row w.store x ≡ some row) own h) f)
          ]))

  -- A round never changes the row of a finished action, its own or another's.
  pub handle_group-keeps :
      (w : World) (k : ActionKey) (row : ActionRow)
      → action_row w.store k ≡ some row
      → (record_of row).finished ≡ true
      → action_row (handle_group parse_jid w env cmd run raw).0.store k ≡ some row
  unfolding handle_group
  handle_group-keeps w k row h f = elim (Bool-cases env.stopping) [
    | inl stopping ↦ simp stopping h
    | inr running ↦ simp running (round-keeps w k row h f)
  ]

  -- A group whose action the ledger holds the end of is not touched again, whatever the answers.
  pub handle_group-quiet :
      (w : World) (row : ActionRow)
      → action_row w.store (key_of cmd raw) ≡ some row
      → (record_of row).finished ≡ true
      → (handle_group parse_jid w env cmd run raw).0.requests ≡ w.requests
  unfolding handle_group
  handle_group-quiet w row h f = elim (Bool-cases env.stopping) [
    | inl stopping ↦ simp stopping refl
    | inr running ↦ simp running (
        (publish_result-keeps env
          (act parse_jid (begun w env cmd raw) env cmd run raw (reading w env cmd raw))).1
        ∙ act-quiet parse_jid (begun w env cmd raw) env cmd run raw (reading w env cmd raw)
            (reading-finished w row h f))
  ]

  pub act-Ends :
      (w : World)
      → env.mark ≡ clean
      → SetupSpeaks run.setup_error
      → ((jid : Jid) → Speaks (apply env.client cmd.action jid cmd.params run.photo).1)
      → (r : Result StoreError ActionRecord) (row : ActionRow)
      → action_row w.store (key_of cmd raw) ≡ some row
      → ((x : ActionRecord) → r ≡ ok x → x ≡ record_of row)
      → Ends cmd raw (act parse_jid w env cmd run raw r).0 (act parse_jid w env cmd run raw r).1
  act-Ends w mark setup n (err e) row h reads = tt
  act-Ends w mark setup n (ok r) row h reads = elim (Bool-cases r.finished) [
    | inl done ↦
        let same = reads r refl in
        rw done (
          row,
          h,
          ap (λ (x : ActionRecord). x.finished) (sym same) ∙ done,
          ap (recorded_event cmd raw) (sym same),
        )
    | inr open_still ↦
        rw open_still (apply_group_action-Ends env cmd raw mark parse_jid w run row h setup n)
  ]
