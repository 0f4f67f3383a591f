-- ===== src/Gateway/Events/LoggedOut.antt =====
-- internal/gateway/gateway.go: the end of a channel's session is told once.
use whatsmeow_gateway.Base.{
  ℕ, ◌+◌, String, Bool, true, false, not, ◌&&◌, ◌≡◌, refl, inl, inr, List, [], ◌∷◌, ◌++◌, Option,
  none, some, ◌==◌, string_Eq, ==-refl, if◌then◌else◌, Bool-cases, arith, ◌∙◌, ap,
}
use whatsmeow_gateway.Gateway.State.{
  Gateway, ChannelStatus, forget_channel, clear_settings, clear_tenant,
}
use whatsmeow_gateway.Gateway.Events.{
  Event, message, receipt, group_info, logged_out, call_signal, connected, disconnected,
  keep_alive_timeout, keep_alive_restored, stream_replaced, client_outdated, other, temporary_ban,
  connect_failure, stream_error, Surroundings, calls_are_dead, abort_calls,
  ignored_by_listen_groups, publish_channel_status, is_logged_out, handle_connection_event,
  handle_logged_out, handle_event, handle_session_event, socket_disconnected, device_logged_out,
}

-- The channel's statuses that say that it is disconnected.
abbrev pub says_disconnected : String → ChannelStatus → Bool
says_disconnected k s = s.channel_id == k && s.status == "disconnected"

unfoldable pub count_disconnected : String → List ChannelStatus → ℕ
count_disconnected k [] = 0
count_disconnected k (s ∷ rest) =
    (if says_disconnected k s then 1 else 0) + count_disconnected k rest

count_disconnected-append :
    (k : String) (xs ys : List ChannelStatus)
    → count_disconnected k (xs ++ ys) ≡ count_disconnected k xs + count_disconnected k ys
unfolding count_disconnected
count_disconnected-append k [] ys = omega arith
count_disconnected-append k (s ∷ xs) ys = omega (arith, count_disconnected-append k xs ys)

abbrev disconnections : String → Gateway → ℕ
disconnections k g = count_disconnected k g.statuses

-- A published status counts if it is the channel's, and says so.
publish-count :
    (g : Gateway) (env : Surroundings) (j status reason k : String)
    → disconnections k (publish_channel_status g env j status reason)
      ≡ disconnections k g
        + (if env.publishes && (j == k && status == "disconnected") then 1 else 0)
unfolding publish_channel_status count_disconnected
publish-count g env j status reason k = elim (Bool-cases env.publishes) [
  | inl h ↦ simp h (count_disconnected-append k g.statuses _ ∙ omega arith)
  | inr h ↦ simp h (omega arith)
]

publish-logged_out :
    (g : Gateway) (env : Surroundings) (j status reason k : String)
    → is_logged_out (publish_channel_status g env j status reason) k ≡ is_logged_out g k
unfolding publish_channel_status
publish-logged_out g env j status reason k = ground arith

forget-statuses :
    (g : Gateway) (deletes : Bool) (j : String)
    → ((forget_channel g deletes j).statuses ≡ g.statuses)
      × ((forget_channel g deletes j).logged_out ≡ g.logged_out)
unfolding forget_channel clear_settings clear_tenant
forget-statuses g true j = (refl, refl)
forget-statuses g false j = (refl, refl)

-- A channel whose logout was told, and that has not been disconnected again since.
abbrev Stays : String → Gateway → Gateway → Type 0
Stays k g after = (is_logged_out after k ≡ true) × (disconnections k after ≡ disconnections k g)

module _ (k : String) (env : Surroundings) where
  publish-Stays :
      (g : Gateway) (j status reason : String)
      → (status == "disconnected") ≡ false
      → is_logged_out g k ≡ true
      → Stays k g (publish_channel_status g env j status reason)
  publish-Stays g j status reason ne out = (
    publish-logged_out g env j status reason k ∙ out,
    publish-count g env j status reason k ∙ ground arith,
  )

  -- Another channel's status does not count.
  publish_other-Stays :
      (g : Gateway) (j status reason : String)
      → (j == k) ≡ false
      → is_logged_out g k ≡ true
      → Stays k g (publish_channel_status g env j status reason)
  publish_other-Stays g j status reason ne out = (
    publish-logged_out g env j status reason k ∙ out,
    publish-count g env j status reason k ∙ ground arith,
  )

  disconnected-Stays :
      (g : Gateway) (j : String)
      → is_logged_out g k ≡ true
      → Stays k g (handle_connection_event g env j disconnected)
  unfolding handle_connection_event
  disconnected-Stays g j out = elim (Bool-cases (j == k)) [
    | inl e ↦ rw ((string_Eq.same_iff j k).0 e, out) (out, refl)
    | inr e ↦ elim (Bool-cases (is_logged_out g j)) [
      | inl o ↦ rw o (out, refl)
      | inr o ↦ rw o (publish_other-Stays g j "disconnected" socket_disconnected e out)
    ]
  ]

  forget-Stays :
      (g told : Gateway) (j : String)
      → Stays k g told
      → Stays k g (forget_channel told env.deletes j)
  forget-Stays g told j (a, b) =
      let (s, l) = forget-statuses told env.deletes j in (rw l a, ap (count_disconnected k) s ∙ b)

  logged_out-Stays :
      (g : Gateway) (j : String) → is_logged_out g k ≡ true → Stays k g (handle_logged_out g env j)
  unfolding handle_logged_out
  logged_out-Stays g j out = elim (Bool-cases (is_logged_out g j)) [
    | inl o ↦ rw o (forget-Stays g g j (out, refl))
    | inr o ↦
        let other_channel : (j == k) ≡ false = ground (arith, string_Eq.same_iff j k) in
        let start = record g { logged_out = j ∷ g.logged_out } in
        let kept : is_logged_out start k ≡ true = ground arith in
        rw o (
          forget-Stays g (publish_channel_status start env j "disconnected" device_logged_out) j
            (publish_other-Stays start j "disconnected" device_logged_out other_channel kept))
  ]

  event-Stays :
      (g : Gateway) (j : String) (event : Event)
      → is_logged_out g k ≡ true
      → Stays k g (handle_event g env j event)
  unfolding handle_connection_event
  event-Stays g j (message b) out = (out, refl)
  event-Stays g j (receipt b) out = (out, refl)
  event-Stays g j (group_info b) out = (out, refl)
  event-Stays g j call_signal out = (out, refl)
  event-Stays g j logged_out out = logged_out-Stays g j out
  event-Stays g j connected out = publish-Stays g j "connected" "" refl out
  event-Stays g j disconnected out = disconnected-Stays g j out
  event-Stays g j keep_alive_timeout out = (out, refl)
  event-Stays g j keep_alive_restored out = (out, refl)
  event-Stays g j stream_replaced out = publish-Stays g j "error" _ refl out
  event-Stays g j client_outdated out = publish-Stays g j "error" _ refl out
  event-Stays g j other out = (out, refl)
  event-Stays g j (temporary_ban code expire) out = publish-Stays g j "error" _ refl out
  event-Stays g j (connect_failure reason text) out = publish-Stays g j "error" _ refl out
  event-Stays g j (stream_error code) out = publish-Stays g j "error" _ refl out

  abort-Stays :
      (g : Gateway) (j : String) (o : Option String)
      → is_logged_out g k ≡ true
      → Stays k g (abort_calls g j o)
  abort-Stays g j none out = (out, refl)
  abort-Stays g j (some reason) out = (out, refl)

  session_event-Stays :
      (g : Gateway) (j : String) (event : Event)
      → is_logged_out g k ≡ true
      → Stays k g (handle_session_event g env j event)
  unfolding handle_session_event
  session_event-Stays g j event out =
      let aborted = abort_calls g j (calls_are_dead event) in
      let (out', same) = abort-Stays g j (calls_are_dead event) out in
      elim (Bool-cases (ignored_by_listen_groups aborted j event)) [
        | inl i ↦ rw i (out', same)
        | inr i ↦ let (a, b) = event-Stays aborted j event out' in rw i (a, b ∙ same)
      ]

-- What WhatsApp says of channels, with what the device and the broker answer each time.
unfoldable pub handle_events : Gateway → List (Surroundings × (String × Event)) → Gateway
handle_events g [] = g
handle_events g ((env, (k, event)) ∷ rest) = handle_events (handle_session_event g env k event) rest

events-Stay :
    (k : String) (events : List (Surroundings × (String × Event))) (g : Gateway)
    → is_logged_out g k ≡ true
    → Stays k g (handle_events g events)
unfolding handle_events
events-Stay k [] g out = (out, refl)
events-Stay k ((env, (j, event)) ∷ rest) g out =
    let (a, b) = session_event-Stays k env g j event out in
    let (c, d) = events-Stay k rest (handle_session_event g env j event) a in (c, d ∙ b)

handled-told :
    (g : Gateway) (env : Surroundings) (k : String)
    → (is_logged_out (handle_logged_out g env k) k ≡ true)
      × (disconnections k (handle_logged_out g env k)
          ≡ disconnections k g + (if env.publishes && not (is_logged_out g k) then 1 else 0))
unfolding handle_logged_out
handled-told g env k = elim (Bool-cases (is_logged_out g k)) [
  | inl o ↦
      let (s, l) = forget-statuses g env.deletes k in
      rw o (rw l o, ap (count_disconnected k) s ∙ ground arith)
  | inr o ↦
      let start = record g { logged_out = k ∷ g.logged_out } in
      let told = publish_channel_status start env k "disconnected" device_logged_out in
      let (s, l) = forget-statuses told env.deletes k in
      let marked : is_logged_out start k ≡ true = ground (arith, ==-refl k) in
      rw o (
        rw l (publish-logged_out start env k "disconnected" device_logged_out k ∙ marked),
        ap (count_disconnected k) s
            ∙ publish-count start env k "disconnected" device_logged_out k
            ∙ ground (arith, ==-refl k),
      )
]

logged_out-told :
    (g : Gateway) (env : Surroundings) (k : String)
    → (is_logged_out (handle_session_event g env k logged_out) k ≡ true)
      × (disconnections k (handle_session_event g env k logged_out)
          ≡ disconnections k g + (if env.publishes && not (is_logged_out g k) then 1 else 0))
unfolding handle_session_event
logged_out-told g env k =
    let aborted = abort_calls g k (calls_are_dead logged_out) in
    let heard : ignored_by_listen_groups aborted k logged_out ≡ false = ground arith in
    rw heard (handled-told aborted env k)

-- A logout is told once, if the broker takes it: whatever WhatsApp says afterwards of this channel and
-- of others, a further logout or the loss of the connection included, the channel's statuses that say
-- it is disconnected are those from before, and one more if the logout had not been told already.
pub logout_told_once :
    (g : Gateway) (env : Surroundings) (k : String) (later : List (Surroundings × (String × Event)))
    → count_disconnected k (handle_events (handle_session_event g env k logged_out) later).statuses
      ≡ count_disconnected k g.statuses
        + (if env.publishes && not (is_logged_out g k) then 1 else 0)
logout_told_once g env k later =
    let (out, told) = logged_out-told g env k in
    (events-Stay k later (handle_session_event g env k logged_out) out).1 ∙ told
