-- ===== src/Gateway/GroupCommand/Replay.antt =====
-- A command that is delivered again: what the ledger holds the end of is published from there.
use whatsmeow_gateway.Base.{
  String, List, [], ◌∷◌, ◌++◌, true, false, Option, some, Result, ok, err, string_Eq, ◌≡◌, refl,
  arith, inl, inr, Bool-cases, Result-cases, ◌∙◌, sym, ap, subst,
}
use whatsmeow_gateway.Dedupe.{
  Store, StoreError, clean, ActionRecord, ActionRow, ActionKey, action_key_Eq, record_of,
}
use whatsmeow_gateway.Dedupe.Actions.{action_row, row_or_pending, begin_action-reads}
use whatsmeow_gateway.Groups.Service.{Jid, apply}
use whatsmeow_gateway.Gateway.GroupCommand.{
  key_of, publish_result, act, handle_group, handle_groups,
}
use whatsmeow_gateway.Gateway.GroupSetup.{
  Command, Event, World, SetupEnv, ItemEnv, HandlerError, Run,
}
use whatsmeow_gateway.Base.{All}
use whatsmeow_gateway.Gateway.GroupCommand.{group_handler}
use whatsmeow_gateway.Gateway.GroupSetup.{prepare_group_command}
use mathlib.Core.List.{append-nil, append_assoc}
use whatsmeow_gateway.Dedupe.Actions.{begin_action-present}
use whatsmeow_gateway.Gateway.GroupCommand.Outcome.{act-Reports, prepare_group_command-keeps}
use whatsmeow_gateway.Gateway.GroupCommand.Ends.{Settled, Ends, Speaks, SetupSpeaks}
use whatsmeow_gateway.Gateway.GroupCommand.Rounds.{
  publish_result-keeps, begun, reading, handle_group-keeps, act-Ends,
}

abbrev Outcome : Type 0
Outcome = World × Result HandlerError (Unit {0})

abbrev pub jids : List (String × ItemEnv) → List String
jids [] = []
jids ((raw, env) ∷ items) = raw ∷ jids items

-- The ledger holds the end of the action on each group, and reads as these events.
abbrev pub AllSettled : Command → List String → List Event → Store → Type 0
AllSettled cmd [] [] s = Unit
AllSettled cmd [] (e ∷ es) s = ⊥
AllSettled cmd (raw ∷ raws) [] s = ⊥
AllSettled cmd (raw ∷ raws) (e ∷ es) s = Settled cmd raw e s × AllSettled cmd raws es s

-- The ledger takes the end of each action, and each error has a text.
abbrev pub Recorded : Command → Run → String × ItemEnv → Type 0
Recorded cmd run (raw, env) =
    (env.mark ≡ clean)
    × ((jid : Jid) → Speaks (apply env.client cmd.action jid cmd.params run.photo).1)

-- Nothing fails and nobody stops the gateway.
abbrev pub Calm : String × ItemEnv → Type 0
Calm (raw, env) = (env.stopping ≡ false) × (env.begin ≡ clean) × (env.published ≡ clean)

module _ (parse_jid : String → Option Jid) (cmd : Command) (run : Run) where
  publish_result-Settled :
      (env : ItemEnv) (raw : String) (w : World) (out : World × Result HandlerError Event)
      → (out.0.events ≡ w.events)
      → Ends cmd raw out.0 out.1
      → (publish_result env out).1 ≡ ok tt
      → (event : Event) × ((publish_result env out).0.events ≡ w.events ++ event ∷ [])
        × Settled cmd raw event (publish_result env out).0.store
  publish_result-Settled env raw w (w', err e) r ends h = cc
  publish_result-Settled env raw w (w', ok event) r ends h = (
    event,
    ground arith,
    subst (Settled cmd raw event) (sym (publish_result-keeps env (w', ok event)).0) ends,
  )

  reading-Ends :
      (w : World) (env : ItemEnv) (raw : String)
      → SetupSpeaks run.setup_error
      → Recorded cmd run (raw, env)
      → (r : Result StoreError ActionRecord) → reading w env cmd raw ≡ r
      → let out = act parse_jid (begun w env cmd raw) env cmd run raw r in Ends cmd raw out.0 out.1
  reading-Ends w env raw setup recorded (err e) h = tt
  reading-Ends w env raw setup recorded (ok x) h =
      let (there, same) = begin_action-reads w.store env.begin (key_of cmd raw) h in
      act-Ends parse_jid env cmd run raw (begun w env cmd raw) recorded.0 setup recorded.1 (ok x)
        (row_or_pending (action_row w.store (key_of cmd raw))) there (λ y p. cc (p, same))

  handle_group-Settled :
      (w : World) (env : ItemEnv) (raw : String)
      → SetupSpeaks run.setup_error
      → Recorded cmd run (raw, env)
      → (handle_group parse_jid w env cmd run raw).1 ≡ ok tt
      → (event : Event) × ((handle_group parse_jid w env cmd run raw).0.events
          ≡ w.events ++ event ∷ [])
        × Settled cmd raw event (handle_group parse_jid w env cmd run raw).0.store
  unfolding handle_group
  handle_group-Settled w env raw setup recorded h = elim (Bool-cases env.stopping) [
    | inl stopping ↦ absurd (cc (simp stopping at h))
    | inr running ↦
        let w' = begun w env cmd raw in
        let out = act parse_jid w' env cmd run raw (reading w env cmd raw) in
        simp running (
          publish_result-Settled env raw w' out
            (act-Reports env cmd raw parse_jid run w' (reading w env cmd raw)).0
            (reading-Ends w env raw setup recorded (reading w env cmd raw) refl)
            (simp running at h))
  ]

  handle_groups-keeps :
      (items : List (String × ItemEnv)) (w : World) (k : ActionKey) (row : ActionRow)
      → action_row w.store k ≡ some row
      → (record_of row).finished ≡ true
      → action_row (handle_groups parse_jid w cmd run items).0.store k ≡ some row
  unfolding handle_groups
  handle_groups-keeps [] w k row h f = h
  handle_groups-keeps ((raw, env) ∷ items) w k row h f =
      let once = handle_group-keeps parse_jid env cmd run raw w k row h f in
      elim (Result-cases (handle_group parse_jid w env cmd run raw).1) [
        | inr (e, stops) ↦ rw (stops, handle_groups) once
        | inl (u, goes) ↦
            rw (goes, handle_groups)
              (handle_groups-keeps items (handle_group parse_jid w env cmd run raw).0 k row once f)
      ]

  handle_groups-AllSettled :
      (items : List (String × ItemEnv)) (w : World)
      → SetupSpeaks run.setup_error
      → All (Recorded cmd run) items
      → (handle_groups parse_jid w cmd run items).1 ≡ ok tt
      → (es : List Event) × ((handle_groups parse_jid w cmd run items).0.events ≡ w.events ++ es)
        × AllSettled cmd (jids items) es (handle_groups parse_jid w cmd run items).0.store
  unfolding handle_groups
  handle_groups-AllSettled [] w setup recorded h = ([], sym (append-nil w.events), tt)
  handle_groups-AllSettled ((raw, env) ∷ items) w setup recorded h =
      elim (Result-cases (handle_group parse_jid w env cmd run raw).1) [
        | inr (e, stops) ↦ absurd (cc (rw (stops, handle_groups) at h))
        | inl (u, goes) ↦
            let w' = (handle_group parse_jid w env cmd run raw).0 in
            let (event, one, settled) = handle_group-Settled w env raw setup recorded.0 goes in
            let (row, there, finished, reads) = settled in
            let (es, more, rest) =
              handle_groups-AllSettled items w' setup recorded.1 (rw (goes, handle_groups) at h) in
            rw (goes, handle_groups)
              (
                event ∷ es,
                more ∙ ap (λ (l : List Event). l ++ es) one ∙ append_assoc w.events (event ∷ []) es,
                (
                  (
                    row,
                    handle_groups-keeps items w' (key_of cmd raw) row there finished,
                    finished,
                    reads,
                  ),
                  rest,
                ),
              )
      ]

  handle_group-replays :
      (w : World) (env : ItemEnv) (raw : String) (event : Event)
      → Calm (raw, env)
      → Settled cmd raw event w.store
      → handle_group parse_jid w env cmd run raw
        ≡ (record w { events = w.events ++ event ∷ [] }, ok tt)
  unfolding handle_group
  handle_group-replays w env raw event calm (row, there, finished, reads) = simp (
    calm.0,
    calm.1,
    begin_action-present w.store (key_of cmd raw) row there,
    finished,
    reads,
    calm.2,
  )

  handle_groups-step :
      (w : World) (env : ItemEnv) (raw : String) (items : List (String × ItemEnv)) (w' : World)
      → handle_group parse_jid w env cmd run raw ≡ (w', ok tt)
      → handle_groups parse_jid w cmd run ((raw, env) ∷ items)
        ≡ handle_groups parse_jid w' cmd run items
  unfolding handle_groups
  handle_groups-step w env raw items w' h =
      rw (ap (λ (p : Outcome). p.1) h, handle_groups)
        (ap (λ (p : Outcome). handle_groups parse_jid p.0 cmd run items) h)

  handle_groups-replays :
      (items : List (String × ItemEnv)) (w : World) (es : List Event)
      → All Calm items
      → AllSettled cmd (jids items) es w.store
      → handle_groups parse_jid w cmd run items ≡ (record w { events = w.events ++ es }, ok tt)
  unfolding handle_groups
  handle_groups-replays [] w [] calm settled = simp append-nil
  handle_groups-replays [] w (e ∷ es) calm settled = absurd settled
  handle_groups-replays ((raw, env) ∷ items) w [] calm settled = absurd settled
  handle_groups-replays ((raw, env) ∷ items) w (e ∷ es) calm settled =
      let w' : World = record w { events = w.events ++ e ∷ [] } in
      handle_groups-step w env raw items w' (handle_group-replays w env raw e calm.0 settled.0)
      ∙ handle_groups-replays items w' es calm.1 settled.1
      ∙ ap {B = World × Result HandlerError (Unit {0})}
          (λ (l : List Event). (record w { events = l }, ok tt)) (append_assoc w.events (e ∷ []) es)

-- Suppose that `GroupHandler` returns nil for a command, while the ledger took the end of every
-- action and every error had a text. Then a later delivery of the same command, with the ledger as
-- the first one left it and no failure, asks nothing of WhatsApp, whatever the client would answer
-- now: it returns nil, leaves the ledger as it is, and publishes the very events that the first
-- delivery published.
pub group_handler-replays :
    (parse_jid : String → Option Jid) (cmd : Command) (w w' : World) (env env' : SetupEnv)
    (items items' : List (String × ItemEnv))
    → SetupSpeaks (prepare_group_command w env cmd).1.setup_error
    → All (Recorded cmd (prepare_group_command w env cmd).1) items
    → (group_handler parse_jid w env cmd items).1 ≡ ok tt
    → w'.store ≡ (group_handler parse_jid w env cmd items).0.store
    → jids items' ≡ jids items
    → env'.stopping ≡ false
    → All Calm items'
    → let once = group_handler parse_jid w env cmd items in
      let again = group_handler parse_jid w' env' cmd items' in
      (es : List Event) × (once.0.events ≡ w.events ++ es)
      × (again.1 ≡ ok tt)
      × (again.0.events ≡ w'.events ++ es)
      × (again.0.requests ≡ w'.requests)
      × (again.0.store ≡ w'.store)
unfolding group_handler
group_handler-replays parse_jid cmd w w' env env' items items' setup recorded h store same
      calm_start calm =
    elim (Bool-cases env.stopping) [
      | inl stopping ↦ absurd (cc (simp stopping at h))
      | inr running ↦
          let once = prepare_group_command w env cmd in
          let again = prepare_group_command w' env' cmd in
          let (es, appended, settled) =
            handle_groups-AllSettled parse_jid cmd once.1 items once.0 setup recorded
              (simp running at h) in
          let kept : AllSettled cmd (jids items') es again.0.store =
            subst (λ l. AllSettled cmd l es again.0.store) (sym same)
              (subst (AllSettled cmd (jids items) es)
                (sym ((prepare_group_command-keeps w' env' cmd).1 ∙ store ∙ simp running refl))
                settled) in
          let second : group_handler parse_jid w' env' cmd items'
              ≡ (record again.0 { events = again.0.events ++ es }, ok tt) =
            simp calm_start
              (handle_groups-replays parse_jid cmd again.1 items' again.0 es calm kept) in
          let keeps = prepare_group_command-keeps w' env' cmd in
          (
            es,
            simp running (
                appended
                ∙ ap (λ (l : List Event). l ++ es) (prepare_group_command-keeps w env cmd).0),
            ap (λ (p : Outcome). p.1) second,
            ap (λ (p : Outcome). p.0.events) second ∙ ap (λ (l : List Event). l ++ es) keeps.0,
            ap (λ (p : Outcome). p.0.requests) second ∙ keeps.2,
            ap (λ (p : Outcome). p.0.store) second ∙ keeps.1,
          )
    ]
