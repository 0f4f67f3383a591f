-- ===== src/Gateway/GroupCommand/Outcome.antt =====
-- What the handler publishes: one event for each group, in order, addressed to it.
use whatsmeow_gateway.Base.{
  ℕ, String, List, [], ◌∷◌, ◌++◌, Option, ltb, Result, ok, err, string_Eq, ◌≡◌, refl, arith, inl,
  inr, Bool-cases, Option-cases, Result-cases, ◌∙◌, sym, ap,
}
use whatsmeow_gateway.Amqp.RpcErrors.{GoError}
use whatsmeow_gateway.Dedupe.{StoreError, ActionRecord, action_key_Eq, record_action_halt}
use whatsmeow_gateway.Groups.Errors.{is_unavailable}
use whatsmeow_gateway.Groups.Service.{Jid, apply}
use whatsmeow_gateway.Gateway.Pacer.{wait}
use whatsmeow_gateway.Gateway.GroupCommand.{
  key_of, fail, halt_or_give_up, conclude, take_turn, apply_group_action, publish_result, act,
  handle_group, handle_groups, applied_world, bad_group_jid,
}
use whatsmeow_gateway.Gateway.GroupSetup.{
  Command, Event, World, SetupEnv, ItemEnv, HandlerError, Run,
}
use whatsmeow_gateway.Gateway.GroupCommand.{
  group_jid_of, applied_world, group_halt_limit, group_handler,
}
use whatsmeow_gateway.Gateway.GroupSetup.{prepare_group_command}
use mathlib.Core.List.{append-nil, append_assoc}
use whatsmeow_gateway.Gateway.GroupCommand.{group_halt_limit}
use whatsmeow_gateway.Gateway.GroupSetup.{group_client}
use whatsmeow_gateway.Gateway.GroupCommand.Rounds.{begun, reading}

-- The work on a group publishes nothing itself, and its result is addressed to the command's
-- tenant, channel and group.
abbrev Addressed : Command → String → Result HandlerError Event → Type 0
Addressed cmd raw (err e) = Unit
Addressed cmd raw (ok event) =
    (event.group_jid ≡ raw)
    × (event.command_id ≡ cmd.command_id)
    × (event.channel_id ≡ cmd.channel_id)
    × (event.tenant_id ≡ cmd.tenant_id)

abbrev Reports : Command → String → World → World × Result HandlerError Event → Type 0
Reports cmd raw w out = (out.0.events ≡ w.events) × Addressed cmd raw out.1

module _ (env : ItemEnv) (cmd : Command) (raw : String) where
  fail-Reports : (w : World) (e : GoError) → Reports cmd raw w (fail w env cmd raw e)
  unfolding fail
  fail-Reports w e = (refl, (refl, refl, refl, refl))

  halt_or_give_up-Reports :
      (w : World) (e : GoError) → Reports cmd raw w (halt_or_give_up w env cmd raw e)
  unfolding halt_or_give_up
  halt_or_give_up-Reports w e =
      let key = key_of cmd raw in
      let w' : World = record w { store = (record_action_halt w.store env.halt key).0 } in
      elim (Result-cases (record_action_halt w.store env.halt key).1) [
        | inr (x, failed_halt) ↦ rw failed_halt (refl, tt)
        | inl (halts, counted) ↦ rw counted (elim (Bool-cases (ltb halts group_halt_limit)) [
          | inl below ↦ rw below (refl, tt)
          | inr reached ↦ rw reached (fail-Reports w' e)
        ])
      ]

  conclude-Reports :
      (w : World) (r : Result GoError (Option ℕ)) → Reports cmd raw w (conclude w env cmd raw r)
  unfolding conclude
  conclude-Reports w (ok removed) = (refl, (refl, refl, refl, refl))
  conclude-Reports w (err e) = elim (Bool-cases (is_unavailable e)) [
    | inr final ↦ rw final (fail-Reports w e)
    | inl away ↦ rw away (elim (Bool-cases env.stopping_after) [
      | inl stopping ↦ simp stopping (refl, tt)
      | inr running ↦ simp running (halt_or_give_up-Reports w e)
    ])
  ]

  take_turn-Reports :
      (w : World) (run : Run) (jid : Jid) → Reports cmd raw w (take_turn w env cmd run raw jid)
  unfolding take_turn
  take_turn-Reports w run jid = elim (Option-cases (wait w.pacer cmd.channel_id env.pace)) [
    | inl e ↦ rw (e, take_turn) (refl, tt)
    | inr (t, e) ↦
        rw (e, take_turn)
          (conclude-Reports
            (applied_world w env cmd (apply env.client cmd.action jid cmd.params run.photo).0)
            (apply env.client cmd.action jid cmd.params run.photo).1)
  ]

  module _ (parse_jid : String → Option Jid) (run : Run) where
    apply_group_action-Reports :
        (w : World) → Reports cmd raw w (apply_group_action parse_jid w env cmd run raw)
    unfolding apply_group_action
    apply_group_action-Reports w = elim (Option-cases run.setup_error) [
      | inr (e, h) ↦ rw (h, apply_group_action) (fail-Reports w e)
      | inl h ↦ elim (Option-cases (group_jid_of (parse_jid raw))) [
        | inr (jid, p) ↦ rw (h, apply_group_action, p) (take_turn-Reports w run jid)
        | inl p ↦ rw (h, apply_group_action, p) (fail-Reports w (bad_group_jid raw))
      ]
    ]

    pub act-Reports :
        (w : World) (r : Result StoreError ActionRecord)
        → Reports cmd raw w (act parse_jid w env cmd run raw r)
    act-Reports w (err e) = (refl, tt)
    act-Reports w (ok r) = elim (Bool-cases r.finished) [
      | inl done ↦ rw done (refl, (refl, refl, refl, refl))
      | inr open_still ↦ rw open_still (apply_group_action-Reports w)
    ]

-- The events of a run, one for each group in the command's order.
abbrev pub EventsFor : Command → List (String × ItemEnv) → List Event → Type 0
EventsFor cmd [] [] = Unit
EventsFor cmd [] (e ∷ es) = ⊥
EventsFor cmd ((raw, env) ∷ items) [] = ⊥
EventsFor cmd ((raw, env) ∷ items) (e ∷ es) = Addressed cmd raw (ok e) × EventsFor cmd items es

group_client-keeps :
    (w : World) (env : SetupEnv) (cmd : Command)
    → ((group_client w env cmd).0.events ≡ w.events)
      × ((group_client w env cmd).0.store ≡ w.store)
      × ((group_client w env cmd).0.requests ≡ w.requests)
group_client-keeps w env cmd = elim (Option-cases env.connect_error) [
  | inl none_there ↦ (ground arith, ground arith, ground arith)
  | inr (e, there) ↦ (ground arith, ground arith, ground arith)
]

-- Preparing a command publishes nothing, asks nothing and leaves the ledger as it is.
pub prepare_group_command-keeps :
    (w : World) (env : SetupEnv) (cmd : Command)
    → ((prepare_group_command w env cmd).0.events ≡ w.events)
      × ((prepare_group_command w env cmd).0.store ≡ w.store)
      × ((prepare_group_command w env cmd).0.requests ≡ w.requests)
unfolding prepare_group_command
prepare_group_command-keeps w env cmd = group_client-keeps w env cmd

module _ (parse_jid : String → Option Jid) (cmd : Command) (run : Run) where
  publish_result-Addressed :
      (env : ItemEnv) (raw : String) (w : World) (out : World × Result HandlerError Event)
      → Reports cmd raw w out
      → (publish_result env out).1 ≡ ok tt
      → (event : Event) × ((publish_result env out).0.events ≡ w.events ++ event ∷ [])
        × Addressed cmd raw (ok event)
  publish_result-Addressed env raw w (w', err e) r h = cc
  publish_result-Addressed env raw w (w', ok event) r h = (event, ground arith, r.1)

  handle_group-Addressed :
      (w : World) (env : ItemEnv) (raw : String)
      → (handle_group parse_jid w env cmd run raw).1 ≡ ok tt
      → (event : Event) × ((handle_group parse_jid w env cmd run raw).0.events
          ≡ w.events ++ event ∷ [])
        × Addressed cmd raw (ok event)
  unfolding handle_group
  handle_group-Addressed w env raw h = elim (Bool-cases env.stopping) [
    | inl stopping ↦ absurd (cc (simp stopping at h))
    | inr running ↦ simp running (
        publish_result-Addressed env raw (begun w env cmd raw)
          (act parse_jid (begun w env cmd raw) env cmd run raw (reading w env cmd raw))
          (act-Reports env cmd raw parse_jid run (begun w env cmd raw) (reading w env cmd raw))
          (simp running at h))
  ]

  handle_groups-EventsFor :
      (w : World) (items : List (String × ItemEnv))
      → (handle_groups parse_jid w cmd run items).1 ≡ ok tt
      → (es : List Event) × ((handle_groups parse_jid w cmd run items).0.events ≡ w.events ++ es)
        × EventsFor cmd items es
  unfolding handle_groups
  handle_groups-EventsFor w [] h = ([], sym (append-nil w.events), tt)
  handle_groups-EventsFor w ((raw, env) ∷ items) h =
      elim (Result-cases (handle_group parse_jid w env cmd run raw).1) [
        | inr (e, failed_round) ↦ absurd (cc (rw (failed_round, handle_groups) at h))
        | inl (u, done) ↦
            let w' = (handle_group parse_jid w env cmd run raw).0 in
            let (event, one, to) = handle_group-Addressed w env raw done in
            let (es, more, rest) =
              handle_groups-EventsFor w' items (rw (done, handle_groups) at h) in
            rw (done, handle_groups)
              (
                event ∷ es,
                more ∙ ap (λ (l : List Event). l ++ es) one ∙ append_assoc w.events (event ∷ []) es,
                (to, rest),
              )
      ]

-- When `GroupHandler` returns nil it has published exactly one more event for each group of the
-- command, in the command's order, each naming the group, the command, the channel and the tenant.
pub group_handler-EventsFor :
    (parse_jid : String → Option Jid) (w : World) (env : SetupEnv) (cmd : Command)
    (items : List (String × ItemEnv))
    → (group_handler parse_jid w env cmd items).1 ≡ ok tt
    → (es : List Event) × ((group_handler parse_jid w env cmd items).0.events ≡ w.events ++ es)
      × EventsFor cmd items es
unfolding group_handler
group_handler-EventsFor parse_jid w env cmd items h = elim (Bool-cases env.stopping) [
  | inl stopping ↦ absurd (cc (simp stopping at h))
  | inr running ↦
      let prepared = prepare_group_command w env cmd in
      let (es, appended, each) =
        handle_groups-EventsFor parse_jid cmd prepared.1 prepared.0 items (simp running at h) in
      simp running (
        es,
        appended ∙ ap (λ (l : List Event). l ++ es) (prepare_group_command-keeps w env cmd).0,
        each,
      )
]
