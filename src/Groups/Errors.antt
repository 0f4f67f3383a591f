-- ===== src/Groups/Errors.antt =====
-- internal/groups/errors.go: which rpc error stands for an error of the WhatsApp client.
use whatsmeow_gateway.Base.{
  ℕ, String, Bool, true, false, ◌||◌, Option, none, some, nat_eq, leb, if◌then◌else◌, ◌≡◌, refl,
  arith, inl, inr, Option-cases, Bool-cases, nat_eq_iff, leb→le, ◌≤◌, ◌↔◌,
}
use whatsmeow_gateway.Amqp.RpcErrors.{
  RpcCode, RpcError, invalid_request, unavailable, bad_gateway, locked, forbidden, gone, internal,
  GoError, rpc_error,
}

-- 429, and 500 and above.
abbrev pub is_transient_code : ℕ → Bool
is_transient_code code = nat_eq code 429 || leb 500 code

abbrev pub is_transient_iq_error : Option ℕ → Bool
is_transient_iq_error none = false
is_transient_iq_error (some code) = is_transient_code code

abbrev pub is_disconnected : GoError → Bool
is_disconnected e = e.disconnected || e.socket_closed

abbrev pub classify_group_iq_code : ℕ → GoError → GoError
classify_group_iq_code code e =
    if nat_eq code 423
    then rpc_error locked "group is locked (423)"
    else if nat_eq code 401
    then rpc_error forbidden "not an admin of the group (401)"
    else if nat_eq code 403
    then rpc_error forbidden "not an admin of the group (403)"
    else if nat_eq code 404
    then rpc_error gone "group not found (404)"
    else if nat_eq code 410
    then rpc_error gone "group not found (410)"
    else rpc_error bad_gateway e.text

-- The cases that are not an IQ error's.
abbrev classify_sentinel : GoError → GoError
classify_sentinel e =
    if e.group_not_found
    then classify_group_iq_code 404 e
    else if e.not_in_group
    then classify_group_iq_code 403 e
    else if e.invite_link_unauthorized
    then classify_group_iq_code 401 e
    else rpc_error internal e.text

abbrev classify_iq : Option ℕ → GoError → GoError
classify_iq (some code) e = classify_group_iq_code code e
classify_iq none e = classify_sentinel e

abbrev pub out_of_reach : GoError → Bool
out_of_reach e =
    e.iq_timed_out
    || e.not_connected
    || e.not_logged_in
    || e.deadline_exceeded
    || e.canceled
    || is_transient_iq_error e.iq_code
    || is_disconnected e

abbrev classify_client : GoError → GoError
classify_client e =
    if e.invalid_image_format
    then rpc_error invalid_request e.text
    else if out_of_reach e
    then rpc_error unavailable e.text
    else classify_iq e.iq_code e

-- `Classify` of an error; of nil it is nil, which the callers see before they call.
unfoldable pub classify : GoError → GoError
classify e = elim e.rpc [ some r ↦ e | none ↦ classify_client e ]

abbrev is_unavailable_code : RpcCode → Bool
is_unavailable_code unavailable = true
is_unavailable_code _ = false

unfoldable pub is_unavailable : GoError → Bool
is_unavailable e = elim e.rpc [ some r ↦ is_unavailable_code r.code | none ↦ false ]

abbrev carries : GoError → Bool
carries e = elim e.rpc [ some r ↦ true | none ↦ false ]

classify_group_iq_code-carries :
    (code : ℕ) (e : GoError) → carries (classify_group_iq_code code e) ≡ true
classify_group_iq_code-carries code e = ground arith

classify_iq-carries : (code : Option ℕ) (e : GoError) → carries (classify_iq code e) ≡ true
classify_iq-carries (some code) e = classify_group_iq_code-carries code e
classify_iq-carries none e = ground (
  arith,
  classify_group_iq_code-carries 404 e,
  classify_group_iq_code-carries 403 e,
  classify_group_iq_code-carries 401 e,
)

client_branches-carries :
    (invalid away : Bool) (text : String) (y : GoError)
    → carries y ≡ true
    → carries (
        if invalid
        then rpc_error invalid_request text
        else if away
        then rpc_error unavailable text
        else y)
      ≡ true
client_branches-carries true away text y h = refl
client_branches-carries false true text y h = refl
client_branches-carries false false text y h = h

carries→rpc : (e : GoError) → carries e ≡ true → (r : RpcError) × (e.rpc ≡ some r)
carries→rpc e h = ground arith

-- Whatever the client answered, the classified error carries an rpc error.
pub classify-rpc : (e : GoError) → (r : RpcError) × ((classify e).rpc ≡ some r)
unfolding classify
classify-rpc e = elim (Option-cases e.rpc) [
  | inl h ↦ carries→rpc (classify e) (
      rw (h, classify)
        (client_branches-carries e.invalid_image_format (out_of_reach e) e.text
          (classify_iq e.iq_code e) (classify_iq-carries e.iq_code e)))
  | inr (r, h) ↦ (r, ground arith)
]

classify_of_rpc : (e : GoError) {r : RpcError} → e.rpc ≡ some r → classify e ≡ e
unfolding classify
classify_of_rpc e h = ground arith

-- Classifying twice is classifying once: an error that carries an rpc error is left as it is.
pub classify_idem : (e : GoError) → classify (classify e) ≡ classify e
classify_idem e = classify_of_rpc (classify e) (classify-rpc e).1

classify_group_iq_code-available :
    (code : ℕ) (e : GoError) → is_unavailable (classify_group_iq_code code e) ≡ false
unfolding is_unavailable
classify_group_iq_code-available code e = ground arith

classify_iq-available :
    (code : Option ℕ) (e : GoError) → is_unavailable (classify_iq code e) ≡ false
unfolding is_unavailable
classify_iq-available (some code) e = classify_group_iq_code-available code e
classify_iq-available none e = ground (
  arith,
  classify_group_iq_code-available 404 e,
  classify_group_iq_code-available 403 e,
  classify_group_iq_code-available 401 e,
)

branches-available :
    (invalid away : Bool) (e y : GoError)
    → is_unavailable y ≡ false
    → is_unavailable (
        if invalid
        then rpc_error invalid_request e.text
        else if away
        then rpc_error unavailable e.text
        else y)
      ≡ (if invalid then false else away)
unfolding is_unavailable
branches-available true away e y h = refl
branches-available false true e y h = refl
branches-available false false e y h = h

is_unavailable-away :
    (e : GoError)
    → e.rpc ≡ none
    → is_unavailable (classify e) ≡ (if e.invalid_image_format then false else out_of_reach e)
unfolding classify is_unavailable
is_unavailable-away e h =
    rw (h, classify)
      (branches-available e.invalid_image_format (out_of_reach e) e (classify_iq e.iq_code e)
        (classify_iq-available e.iq_code e))

-- What it means that WhatsApp was out of reach, cause by cause.
pub data IsOutOfReach (e : GoError) : Type 0 where
  timed_out : e.iq_timed_out ≡ true → IsOutOfReach e
  no_connection : e.not_connected ≡ true → IsOutOfReach e
  no_login : e.not_logged_in ≡ true → IsOutOfReach e
  too_late : e.deadline_exceeded ≡ true → IsOutOfReach e
  given_up : e.canceled ≡ true → IsOutOfReach e
  too_many_requests : e.iq_code ≡ some 429 → IsOutOfReach e
  server_at_fault : (code : ℕ) → e.iq_code ≡ some code → 500 ≤ code → IsOutOfReach e
  connection_lost : e.disconnected ≡ true → IsOutOfReach e
  connection_closed : e.socket_closed ≡ true → IsOutOfReach e

transient-IsOutOfReach :
    (e : GoError) (code : Option ℕ)
    → e.iq_code ≡ code
    → is_transient_iq_error code ≡ true
    → IsOutOfReach e
transient-IsOutOfReach e none same h = absurd (ground arith)
transient-IsOutOfReach e (some code) same h = elim (Bool-cases (nat_eq code 429)) [
  | inl many ↦ too_many_requests (ground (arith, (nat_eq_iff code 429).0 many))
  | inr other ↦ server_at_fault code same (leb→le 500 code (ground arith))
]

disconnected-IsOutOfReach : (e : GoError) → is_disconnected e ≡ true → IsOutOfReach e
disconnected-IsOutOfReach e h = elim (Bool-cases e.disconnected) [
  | inl lost ↦ connection_lost lost
  | inr other ↦ connection_closed (ground arith)
]

out_of_reach-IsOutOfReach : (e : GoError) → out_of_reach e ≡ true → IsOutOfReach e
out_of_reach-IsOutOfReach e h = elim (Bool-cases e.iq_timed_out) [
  | inl x ↦ timed_out x
  | inr a ↦ elim (Bool-cases e.not_connected) [
    | inl x ↦ no_connection x
    | inr b ↦ elim (Bool-cases e.not_logged_in) [
      | inl x ↦ no_login x
      | inr c ↦ elim (Bool-cases e.deadline_exceeded) [
        | inl x ↦ too_late x
        | inr d ↦ elim (Bool-cases e.canceled) [
          | inl x ↦ given_up x
          | inr f ↦ elim (Bool-cases (is_transient_iq_error e.iq_code)) [
            | inl x ↦ transient-IsOutOfReach e e.iq_code refl x
            | inr g ↦ disconnected-IsOutOfReach e (ground arith)
          ]
        ]
      ]
    ]
  ]
]

IsOutOfReach-out_of_reach : (e : GoError) → IsOutOfReach e → out_of_reach e ≡ true
IsOutOfReach-out_of_reach e (timed_out x) = ground arith
IsOutOfReach-out_of_reach e (no_connection x) = ground arith
IsOutOfReach-out_of_reach e (no_login x) = ground arith
IsOutOfReach-out_of_reach e (too_late x) = ground arith
IsOutOfReach-out_of_reach e (given_up x) = ground arith
IsOutOfReach-out_of_reach e (too_many_requests x) = ground arith
IsOutOfReach-out_of_reach e (server_at_fault code x le) = ground arith
IsOutOfReach-out_of_reach e (connection_lost x) = ground arith
IsOutOfReach-out_of_reach e (connection_closed x) = ground arith

-- Of an error that carries no rpc error yet, the verdict is "unavailable" exactly when WhatsApp
-- was out of reach (a timeout, a connection missing, lost or closed, no login, a deadline, a cancelled
-- call, or an IQ error 429 or from 500 up) and the image was not at fault.
pub is_unavailable-classify :
    (e : GoError)
    → e.rpc ≡ none
    → (is_unavailable (classify e) ≡ true) ↔ ((e.invalid_image_format ≡ false) × IsOutOfReach e)
is_unavailable-classify e h =
    let verdict = is_unavailable-away e h in
    (
      λ yes. (ground arith, out_of_reach-IsOutOfReach e (ground arith)),
      λ (valid, away). ground (arith, IsOutOfReach-out_of_reach e away),
    )
