-- ===== src/Gateway/Send/Outcome.antt =====
-- internal/gateway/gateway.go, SendHandler: what a handled command has led to.
use whatsmeow_gateway.Base.{
  ℕ, String, Bool, true, false, ◌≡◌, ◌⊎◌, refl, inl, inr, [], ◌∷◌, ◌++◌, Result, ok, err, ap, ◌∙◌,
}
use whatsmeow_gateway.SenderId.{Address}
use whatsmeow_gateway.Dedupe.{Store, StoreError, begin, mark_sent}
use whatsmeow_gateway.Session.{Answer, Failure, session}
use whatsmeow_gateway.Gateway.State.{Gateway, StatusEvent, set_tenant}
use whatsmeow_gateway.Gateway.SendKey.{SendCommand, dedupe_key_for}
use whatsmeow_gateway.Gateway.Send.{
  Answers, HandlerError, begin_failed, no_client, mark_failed, publish_failed, Handled,
  publish_status, sent_status, publish_send_failure, ensure_channel_connected, provider_id_of,
  with_ledger, after_mark, message_for, give_message, after_send, send_by, after_build,
  after_client, after_connected, after_begin, send_handler,
}
use whatsmeow_gateway.Gateway.Send.Ledger.{
  IsSentRow, begin_duplicate, mark_sent_done, ensure_channel_connected-IsSame,
}

module _ (det : String → String) where
  -- A status that tells the truth about the command: sent, and the ledger has it, or failed.
  abbrev pub IsTrue : Store → SendCommand → StatusEvent → Type 0
  IsTrue ledger cmd event =
      (event.opaque_message_id ≡ cmd.message_id)
      × (((event.status ≡ "sent") × IsSentRow ledger (dedupe_key_for cmd))
          ⊎ ((event.status ≡ "failed") × (event.provider_message_id ≡ provider_id_of det cmd)))

  -- Success is one true status, and an error is none.
  abbrev pub IsReported : Gateway → SendCommand → Handled → Type 0
  IsReported g cmd (after, result) =
      ((event : StatusEvent) × (result ≡ ok tt)
        × (after.published ≡ g.published ++ (event ∷ []))
        × IsTrue after.ledger cmd event)
      ⊎ ((e : HandlerError) × (result ≡ err e) × (after.published ≡ g.published))

  -- At most one message, with the provider id of the command's key.
  abbrev pub IsGivenOnce : Gateway → SendCommand → Gateway → Type 0
  IsGivenOnce g cmd after =
      (after.messages ≡ g.messages) ⊎ (after.messages ≡ g.messages ++ (message_for det cmd ∷ []))

  publish-IsReported :
      (g : Gateway) (b : Bool) (cmd : SendCommand) (event : StatusEvent)
      → IsTrue g.ledger cmd event
      → IsReported g cmd (publish_status g b event)
  publish-IsReported g true cmd event h = inl (event, refl, refl, h)
  publish-IsReported g false cmd event h = inr (publish_failed, refl, refl)

  publish-messages :
      (g : Gateway) (b : Bool) (event : StatusEvent)
      → (publish_status g b event).0.messages ≡ g.messages
  publish-messages g true event = refl
  publish-messages g false event = refl

  module _ (a : Answers) (cmd : SendCommand) where
    failure-IsReported :
        (g : Gateway) (e : Failure)
        → IsReported g cmd (publish_send_failure g a cmd (provider_id_of det cmd) e)
    unfolding publish_send_failure
    failure-IsReported g e = publish-IsReported g a.publishes cmd _ (refl, inr (refl, refl))

    failure-messages :
        (g : Gateway) (e : Failure)
        → (publish_send_failure g a cmd (provider_id_of det cmd) e).0.messages ≡ g.messages
    unfolding publish_send_failure
    failure-messages g e = publish-messages g a.publishes _

    mark-IsReported :
        (g : Gateway) (r : Store × Result StoreError (Unit {0})) (to : Address) (id : String)
        (at : ℕ)
        → (r.1 ≡ ok tt → IsSentRow r.0 (dedupe_key_for cmd))
        → IsReported g cmd (after_mark det g r a cmd to id at)
    unfolding sent_status
    mark-IsReported g (ledger, err e) to id at h = inr (mark_failed e, refl, refl)
    mark-IsReported g (ledger, ok _) to id at h =
        publish-IsReported (with_ledger det g ledger) a.publishes cmd _ (refl, inl (refl, h refl))

    mark-messages :
        (g : Gateway) (r : Store × Result StoreError (Unit {0})) (to : Address) (id : String)
        (at : ℕ)
        → (after_mark det g r a cmd to id at).0.messages ≡ g.messages
    mark-messages g (ledger, err e) to id at = refl
    mark-messages g (ledger, ok _) to id at =
        publish-messages (with_ledger det g ledger) a.publishes _

    send-IsReported :
        (g : Gateway) (to : Address) (r : Result Failure (String × ℕ))
        → IsReported g cmd (after_send det g a cmd to r)
    send-IsReported g to (err e) = failure-IsReported g e
    send-IsReported g to (ok (id, at)) =
        mark-IsReported g (mark_sent g.ledger a.marks (dedupe_key_for cmd)) to id at
          (mark_sent_done g.ledger a.marks (dedupe_key_for cmd))

    send-messages :
        (g : Gateway) (to : Address) (r : Result Failure (String × ℕ))
        → (after_send det g a cmd to r).0.messages ≡ g.messages
    send-messages g to (err e) = failure-messages g e
    send-messages g to (ok (id, at)) =
        mark-messages g (mark_sent g.ledger a.marks (dedupe_key_for cmd)) to id at

    -- Both statements about a command, from the state before its channel was connected.
    abbrev Both : Gateway → Handled → Type 0
    Both g r = IsReported g cmd r × IsGivenOnce g cmd r.0

    send_by-Both :
        (r : Result Failure ℕ) (g : Gateway) (to : Address) → Both g (send_by det r g a cmd to)
    send_by-Both (err e) g to = (send-IsReported g to (err e), inl (send-messages g to (err e)))
    send_by-Both (ok c) g to = (
      send-IsReported (give_message det g cmd) to a.sends,
      inr (send-messages (give_message det g cmd) to a.sends),
    )

    build-Both : (r : Result Failure Address) (g : Gateway) → Both g (after_build det r g a cmd)
    build-Both (err e) g = (failure-IsReported g e, inl (failure-messages g e))
    build-Both (ok to) g = send_by-Both (session g.manager cmd.channel_id) g to

    client-Both : (r : Result Failure ℕ) (g : Gateway) → Both g (after_client det r g a cmd)
    client-Both (err e) g = (inr (no_client e, refl, refl), inl refl)
    client-Both (ok c) g = build-Both a.builds g

    connected-Both : (r : Gateway × Answer) → Both r.0 (after_connected det r a cmd)
    connected-Both (g, err e) = (failure-IsReported g e, inl (failure-messages g e))
    connected-Both (g, ok _) = client-Both (session g.manager cmd.channel_id) g

    -- The state from which a command is judged may be an earlier one with the same statuses.
    IsReported-before :
        (g h : Gateway) (r : Handled)
        → h.published ≡ g.published
        → IsReported h cmd r
        → IsReported g cmd r
    IsReported-before g h (after, result) same (inl (event, x, y, t)) =
        inl (event, x, y ∙ ap (λ l. l ++ (event ∷ [])) same, t)
    IsReported-before g h (after, result) same (inr (e, x, y)) = inr (e, x, y ∙ same)

    IsGivenOnce-before :
        (g h after : Gateway)
        → h.messages ≡ g.messages
        → IsGivenOnce h cmd after
        → IsGivenOnce g cmd after
    IsGivenOnce-before g h after same (inl x) = inl (x ∙ same)
    IsGivenOnce-before g h after same (inr x) =
        inr (x ∙ ap (λ l. l ++ (message_for det cmd ∷ [])) same)

    begin-Both :
        (g : Gateway) (r : Store × Result StoreError (Bool × String))
        → ((id : String) → r.1 ≡ ok (true, id) → IsSentRow r.0 (dedupe_key_for cmd))
        → Both g (after_begin det g r a cmd)
    begin-Both g (ledger, err e) h = (inr (begin_failed e, refl, refl), inl refl)
    begin-Both g (ledger, ok (true, id)) h = (
      publish-IsReported (with_ledger det g ledger) a.publishes cmd _ (refl, inl (refl, h id refl)),
      inl (publish-messages (with_ledger det g ledger) a.publishes _),
    )
    begin-Both g (ledger, ok (false, id)) h =
        let connected = ensure_channel_connected (with_ledger det g ledger) a cmd.channel_id in
        let same = ensure_channel_connected-IsSame (with_ledger det g ledger) a cmd.channel_id in
        let both = connected-Both connected in
        let result = after_connected det connected a cmd in
        (
          IsReported-before g connected.0 result same.2 both.0,
          IsGivenOnce-before g connected.0 result.0 same.1 both.1,
        )

pub send_handler-reports :
    (det : String → String) (g : Gateway) (a : Answers) (cmd : SendCommand)
    → let handled = send_handler det g a cmd in
      IsReported det g cmd handled × IsGivenOnce det g cmd handled.0
unfolding send_handler set_tenant
send_handler-reports det g a cmd =
    begin-Both det a cmd (set_tenant g cmd.channel_id cmd.tenant_id)
      (begin g.ledger a.inserts a.selects (dedupe_key_for cmd) (provider_id_of det cmd))
      (begin_duplicate g.ledger a.inserts a.selects (dedupe_key_for cmd) (provider_id_of det cmd))
