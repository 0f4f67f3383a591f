-- ===== src/Gateway/Send/Redelivery.antt =====
-- internal/gateway/gateway.go, SendHandler: a command that is delivered again.
use whatsmeow_gateway.Base.{
  ℕ, String, Bool, true, false, ◌≡◌, refl, inl, inr, List, [], ◌∷◌, ◌++◌, Result, ok, err, ap, ◌∙◌,
  subst, sym, string_Eq, ◌≢◌, ◌==◌,
}
use whatsmeow_gateway.SenderId.{Address}
use whatsmeow_gateway.Dedupe.{
  Answer as LedgerAnswer, Store, StoreError, is_sent, begin, mark_sent, clean,
}
use whatsmeow_gateway.Dedupe.Sent.{
  row_of, Advances, Advances-refl, Advances-trans, begin-Advances, mark_sent-Advances,
  begin_present,
}
use whatsmeow_gateway.Session.{Answer, Failure, session}
use whatsmeow_gateway.Gateway.State.{Gateway, StatusEvent, set_tenant}
use whatsmeow_gateway.Gateway.SendKey.{SendCommand, dedupe_key_for}
use whatsmeow_gateway.Gateway.Send.{
  Answers, publish_status, replayed_status, publish_send_failure, ensure_channel_connected,
  provider_id_of, with_ledger, after_mark, give_message, after_send, send_by, after_build,
  after_client, after_connected, after_begin, send_handler,
}
use whatsmeow_gateway.Gateway.Send.Ledger.{
  IsSentRow, ensure_channel_connected-IsSame, IsDeterministic, begin-IsDeterministic,
  mark_sent-IsDeterministic,
}
use whatsmeow_gateway.Gateway.Send.Outcome.{send_handler-reports}

-- What `Begin` and `MarkSent` keep of the ledger, the handler keeps.
module _ (det : String → String) (P : Store → Type 0)
    (begin_keeps : (s : Store) (i q : LedgerAnswer) (key : String)
      → P s
      → P (begin s i q key (det key)).0)
    (mark_keeps : (s : Store) (u : LedgerAnswer) (key : String)
      → P s
      → P (mark_sent s u key).0) where
  publish-ledger :
      (g : Gateway) (b : Bool) (event : StatusEvent)
      → P g.ledger
      → P (publish_status g b event).0.ledger
  publish-ledger g true event h = h
  publish-ledger g false event h = h

  module _ (a : Answers) (cmd : SendCommand) where
    failure-ledger :
        (g : Gateway) (e : Failure)
        → P g.ledger
        → P (publish_send_failure g a cmd (provider_id_of det cmd) e).0.ledger
    unfolding publish_send_failure
    failure-ledger g e h = publish-ledger g a.publishes _ h

    mark-ledger :
        (g : Gateway) (r : Store × Result StoreError (Unit {0})) (to : Address) (id : String)
        (at : ℕ)
        → P r.0
        → P (after_mark det g r a cmd to id at).0.ledger
    mark-ledger g (ledger, err e) to id at h = h
    mark-ledger g (ledger, ok _) to id at h =
        publish-ledger (with_ledger det g ledger) a.publishes _ h

    send-ledger :
        (g : Gateway) (to : Address) (r : Result Failure (String × ℕ))
        → P g.ledger
        → P (after_send det g a cmd to r).0.ledger
    send-ledger g to (err e) h = failure-ledger g e h
    send-ledger g to (ok (id, at)) h =
        mark-ledger g (mark_sent g.ledger a.marks (dedupe_key_for cmd)) to id at
          (mark_keeps g.ledger a.marks (dedupe_key_for cmd) h)

    send_by-ledger :
        (r : Result Failure ℕ) (g : Gateway) (to : Address)
        → P g.ledger
        → P (send_by det r g a cmd to).0.ledger
    send_by-ledger (err e) g to h = send-ledger g to (err e) h
    send_by-ledger (ok c) g to h = send-ledger (give_message det g cmd) to a.sends h

    build-ledger :
        (r : Result Failure Address) (g : Gateway)
        → P g.ledger
        → P (after_build det r g a cmd).0.ledger
    build-ledger (err e) g h = failure-ledger g e h
    build-ledger (ok to) g h = send_by-ledger (session g.manager cmd.channel_id) g to h

    client-ledger :
        (r : Result Failure ℕ) (g : Gateway) → P g.ledger → P (after_client det r g a cmd).0.ledger
    client-ledger (err e) g h = h
    client-ledger (ok c) g h = build-ledger a.builds g h

    connected-ledger :
        (r : Gateway × Answer) → P r.0.ledger → P (after_connected det r a cmd).0.ledger
    connected-ledger (g, err e) h = failure-ledger g e h
    connected-ledger (g, ok _) h = client-ledger (session g.manager cmd.channel_id) g h

    begin-ledger :
        (g : Gateway) (r : Store × Result StoreError (Bool × String))
        → P r.0
        → P (after_begin det g r a cmd).0.ledger
    begin-ledger g (ledger, err e) h = h
    begin-ledger g (ledger, ok (true, id)) h =
        publish-ledger (with_ledger det g ledger) a.publishes _ h
    begin-ledger g (ledger, ok (false, id)) h =
        let start = with_ledger det g ledger in
        connected-ledger (ensure_channel_connected start a cmd.channel_id)
          (subst P (sym (ensure_channel_connected-IsSame start a cmd.channel_id).0) h)

  send_handler-keeps :
      (g : Gateway) (a : Answers) (cmd : SendCommand)
      → P g.ledger
      → P (send_handler det g a cmd).0.ledger
  unfolding send_handler set_tenant
  send_handler-keeps g a cmd h =
      begin-ledger a cmd (set_tenant g cmd.channel_id cmd.tenant_id)
        (begin g.ledger a.inserts a.selects (dedupe_key_for cmd) (provider_id_of det cmd))
        (begin_keeps g.ledger a.inserts a.selects (dedupe_key_for cmd) h)

-- Other commands, with what they are answered.
unfoldable pub handle_all : (String → String) → Gateway → List (Answers × SendCommand) → Gateway
handle_all det g [] = g
handle_all det g ((a, cmd) ∷ rest) = handle_all det (send_handler det g a cmd).0 rest

handle_all-Advances :
    (det : String → String) (k : String) (g : Gateway) (cmds : List (Answers × SendCommand))
    → Advances (row_of g.ledger k) (row_of (handle_all det g cmds).ledger k)
unfolding handle_all
handle_all-Advances det k g [] = Advances-refl (row_of g.ledger k)
handle_all-Advances det k g ((a, cmd) ∷ rest) =
    let after = (send_handler det g a cmd).0 in
    Advances-trans (row_of g.ledger k) (row_of after.ledger k)
      (row_of (handle_all det after rest).ledger k)
      (send_handler-keeps det (λ s. Advances (row_of g.ledger k) (row_of s k))
        (λ s i q key h.
          Advances-trans (row_of g.ledger k) (row_of s k) (row_of (begin s i q key (det key)).0 k) h
            (begin-Advances s i q key (det key) k))
        (λ s u key h.
          Advances-trans (row_of g.ledger k) (row_of s k) (row_of (mark_sent s u key).0 k) h
            (mark_sent-Advances s u key k))
        g a cmd (Advances-refl (row_of g.ledger k)))
      (handle_all-Advances det k after rest)

handler-IsDeterministic :
    (det : String → String) (g : Gateway) (a : Answers) (cmd : SendCommand)
    → IsDeterministic det g.ledger
    → IsDeterministic det (send_handler det g a cmd).0.ledger
handler-IsDeterministic det g a cmd d =
    send_handler-keeps det (IsDeterministic det) (begin-IsDeterministic det)
      (mark_sent-IsDeterministic det) g a cmd d

last_injective :
    (xs : List StatusEvent) (a b : StatusEvent) → xs ++ (a ∷ []) ≡ xs ++ (b ∷ []) → a ≡ b
last_injective [] a b e = cc
last_injective (x ∷ xs) a b e = last_injective xs a b cc

sent_ne_failed : (x : String) → x ≡ "sent" → x ≢ "failed"
sent_ne_failed x e f =
    let equal : (x == "failed") ≡ true = (string_Eq.same_iff x "failed").1 f in
    let wrong = subst (λ y. (y == "failed") ≡ true) e equal in cc

-- The ledger says sent once a command has published that.
sent_row :
    (det : String → String) (g : Gateway) (a : Answers) (cmd : SendCommand) (event : StatusEvent)
    → (send_handler det g a cmd).1 ≡ ok tt
    → (send_handler det g a cmd).0.published ≡ g.published ++ (event ∷ [])
    → event.status ≡ "sent"
    → IsSentRow (send_handler det g a cmd).0.ledger (dedupe_key_for cmd)
sent_row det g a cmd event done published status = elim (send_handler-reports det g a cmd).0 [
  | inl (other, _, published', (_, inl (_, row))) ↦ row
  | inl (other, _, published', (_, inr (failed, _))) ↦
      let same = last_injective g.published other event (sym published' ∙ published) in
      absurd (sent_ne_failed event.status status (ap (λ x. x.status) (sym same) ∙ failed))
  | inr (e, failed, _) ↦ absurd cc
]

replay :
    (det : String → String) (g : Gateway) (b : Answers) (cmd : SendCommand) (id : String)
    (r : Store × Result StoreError (Bool × String))
    → r.1 ≡ ok (true, id)
    → b.publishes ≡ true
    → let again = after_begin det g r b cmd in
      (again.1 ≡ ok tt)
      × (again.0.messages ≡ g.messages)
      × (again.0.published ≡ g.published ++ (replayed_status cmd id b.now ∷ []))
replay det g b cmd id (ledger, err e) h p = absurd cc
replay det g b cmd id (ledger, ok (true, existing)) h p =
    let same : existing ≡ id = cc in rw (p, same) (refl, refl, refl)
replay det g b cmd id (ledger, ok (false, existing)) h p = absurd cc

pub send_handler-redelivered :
    (det : String → String) (g : Gateway) (a b : Answers) (cmd : SendCommand) (event : StatusEvent)
    (others : List (Answers × SendCommand))
    → IsDeterministic det g.ledger
    → (send_handler det g a cmd).1 ≡ ok tt
    → (send_handler det g a cmd).0.published ≡ g.published ++ (event ∷ [])
    → event.status ≡ "sent"
    → b.inserts ≡ clean
    → b.selects ≡ clean
    → b.publishes ≡ true
    → let before = handle_all det (send_handler det g a cmd).0 others in
      let again = send_handler det before b cmd in
      (again.1 ≡ ok tt)
      × (again.0.messages ≡ before.messages)
      × (again.0.published
          ≡ before.published ++ (replayed_status cmd (provider_id_of det cmd) b.now ∷ []))
unfolding send_handler set_tenant
send_handler-redelivered det g a b cmd event others d done published status i q p =
    let key = dedupe_key_for cmd in
    let after = (send_handler det g a cmd).0 in
    let before = handle_all det after others in
    let (row, e, is_marked) = sent_row det g a cmd event done published status in
    let kept = handler-IsDeterministic det g a cmd d key row e in
    let (next, e', same, still) =
      subst (λ o. Advances o (row_of before.ledger key)) e
        (handle_all-Advances det key after others) in
    let answer : (begin before.ledger b.inserts b.selects key (det key)).1 ≡ ok (true, det key) =
      rw (i, q)
        (begin_present before.ledger key (det key) next e'
          ∙ ap (λ x. ok (is_sent x, next.provider_message_id)) (still is_marked)
          ∙ ap (λ x. ok (true, x)) (same ∙ kept)) in
    replay det (set_tenant before cmd.channel_id cmd.tenant_id) b cmd (det key)
      (begin before.ledger b.inserts b.selects key (det key)) answer p
