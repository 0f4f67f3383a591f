-- ===== src/Gateway/Send/Ledger.antt =====
-- internal/gateway/gateway.go, SendHandler: what it does to the ledger of sent messages, and what the
-- connecting of a channel leaves alone.
use whatsmeow_gateway.Base.{
  String, Bool, true, false, ◌≡◌, refl, inl, inr, Option, none, some, arith, string_Eq, ==-refl,
  ◌==◌, lookup, lookup-insert, Option-cases, Result, ok, err, ℕ, ◌∙◌, Bool-cases,
}
use whatsmeow_gateway.Dedupe.{
  Store, Status, failed, SentRow, sent, is_sent, pending, Answer, begin, mark_sent,
}
use whatsmeow_gateway.Dedupe.Sent.{row_of}
use whatsmeow_gateway.Session.{Answer as SessionAnswer, Failure, Up, session}
use whatsmeow_gateway.Gateway.State.{Gateway, ChannelSession, set_tenant, set_settings}
use whatsmeow_gateway.Gateway.Send.{
  Answers, connect_again, after_resume, attach_calls, resume_stored, resume_on_demand, after_ensure,
  after_failure, is_no_session, ensure_channel_connected,
}

-- The row of a message that was sent.
abbrev pub IsSentRow : Store → String → Type 0
IsSentRow s key = (row : SentRow) × (row_of s key ≡ some row) × (row.status ≡ sent)

is_sent-sent : (status : Status) → is_sent status ≡ true → status ≡ sent
is_sent-sent pending h = cc
is_sent-sent sent h = refl
is_sent-sent failed h = cc

pub begin_duplicate :
    (s : Store) (i q : Answer) (key p id : String)
    → (begin s i q key p).1 ≡ ok (true, id)
    → IsSentRow (begin s i q key p).0 key
unfolding begin
begin_duplicate s i q key p id h = elim (Option-cases (row_of s key)) [
  | inl e ↦ absurd (ground arith)
  | inr (row, e) ↦ (row, ground arith, ground (arith, is_sent-sent row.status))
]

pub mark_sent_done :
    (s : Store) (a : Answer) (key : String)
    → (mark_sent s a key).1 ≡ ok tt
    → IsSentRow (mark_sent s a key).0 key
unfolding mark_sent
mark_sent_done s a key h = elim (Option-cases (row_of s key)) [
  | inl e ↦ absurd (ground arith)
  | inr (row, e) ↦ (
    record row { status = sent },
    ground
        (arith, ==-refl key, lookup-insert key key (record row { status = sent }) s.sent_messages),
    refl,
  )
]

-- Every row has the provider id that its key determines.
abbrev pub IsDeterministic : (String → String) → Store → Type 0
IsDeterministic det s =
    (key : String) (row : SentRow) → row_of s key ≡ some row → row.provider_message_id ≡ det key

pub begin-IsDeterministic :
    (det : String → String) (s : Store) (i q : Answer) (key : String)
    → IsDeterministic det s
    → IsDeterministic det (begin s i q key (det key)).0
unfolding begin
begin-IsDeterministic det s i q key d k row e = ground (
  arith,
  d k row,
  string_Eq.same_iff key k,
  lookup-insert key k (record { provider_message_id = det key; status = pending }) s.sent_messages,
)

pub mark_sent-IsDeterministic :
    (det : String → String) (s : Store) (a : Answer) (key : String)
    → IsDeterministic det s
    → IsDeterministic det (mark_sent s a key).0
unfolding mark_sent
mark_sent-IsDeterministic det s a key d k row e = elim (Option-cases (row_of s key)) [
  | inl g ↦ d k row (ground arith)
  | inr (old, g) ↦ elim (Bool-cases (key == k)) [
    | inl h ↦ ground (
      arith,
      d k old,
      d k row,
      string_Eq.same_iff key k,
      lookup-insert key k (record old { status = sent }) s.sent_messages,
    )
    | inr h ↦
        d k row (ground (arith, lookup-insert key k (record old { status = sent }) s.sent_messages))
  ]
]

-- What stays the same while a channel is connected.
abbrev pub IsSame : Gateway → Gateway → Type 0
IsSame g after =
    (after.ledger ≡ g.ledger) × (after.messages ≡ g.messages) × (after.published ≡ g.published)

attach_calls-IsSame :
    (g : Gateway) (r : Result Failure ℕ) (k : String) → IsSame g (attach_calls g r k)
attach_calls-IsSame g (err e) k = (refl, refl, refl)
attach_calls-IsSame g (ok c) k = (refl, refl, refl)

after_resume-IsSame :
    (g : Gateway) (r : Gateway × SessionAnswer) (k : String) (up : Up)
    → IsSame g r.0
    → IsSame g (after_resume r k up).0
after_resume-IsSame g (g', err e) k up h = h
after_resume-IsSame g (g', ok _) k up h =
    let (a, b, c) = attach_calls-IsSame g' (session g'.manager k) k in (a ∙ h.0, b ∙ h.1, c ∙ h.2)

resume_stored-IsSame :
    (g : Gateway) (a : Answers) (k : String) (stored : ChannelSession) (b : Bool)
    → IsSame g (resume_stored g a k stored b).0
unfolding set_tenant set_settings
resume_stored-IsSame g a k stored false = (refl, refl, refl)
resume_stored-IsSame g a k stored true = after_resume-IsSame g _ k a.ups_again (refl, refl, refl)

on_demand-IsSame :
    (g : Gateway) (a : Answers) (k : String) (b : Bool) (stored : Option ChannelSession)
    → IsSame g (resume_on_demand g a k b stored).0
on_demand-IsSame g a k false stored = (refl, refl, refl)
on_demand-IsSame g a k true none = (refl, refl, refl)
on_demand-IsSame g a k true (some stored) = resume_stored-IsSame g a k stored a.parses_jid

after_failure-IsSame :
    (b : Bool) (g : Gateway) (e : Failure) (a : Answers) (k : String)
    → IsSame g (after_failure b g e a k).0
after_failure-IsSame true g e a k = on_demand-IsSame g a k a.reads_session (lookup k g.sessions)
after_failure-IsSame false g e a k = (refl, refl, refl)

after_ensure-IsSame :
    (g : Gateway) (r : Gateway × SessionAnswer) (a : Answers) (k : String)
    → IsSame g r.0
    → IsSame g (after_ensure r a k).0
after_ensure-IsSame g (g', err e) a k h =
    let (x, y, z) = after_failure-IsSame (is_no_session e) g' e a k in (x ∙ h.0, y ∙ h.1, z ∙ h.2)
after_ensure-IsSame g (g', ok _) a k h = h

pub ensure_channel_connected-IsSame :
    (g : Gateway) (a : Answers) (k : String) → IsSame g (ensure_channel_connected g a k).0
unfolding ensure_channel_connected
ensure_channel_connected-IsSame g a k =
    after_ensure-IsSame g (connect_again g k a.ups) a k (refl, refl, refl)
