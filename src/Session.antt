-- ===== src/Session.antt =====
-- internal/session/manager.go: the clients that the channels have, and who hears their events.
-- Objects that the code compares or shares by pointer are numbers: a client, a mute flag. Each
-- `new` takes the next number. What a client answers is an argument of the operation that asks it,
-- and what is asked of a client is written to a log. Errors keep what `errors.Is` can tell of them.
pub mod Silence
pub mod View
pub mod Pairing
pub mod Lock
pub mod Pair
use whatsmeow_gateway.Base.{
  ℕ, ◌+◌, String, Bool, true, false, List, [], ◌∷◌, ◌++◌, map, Option, none, some, ◌==◌,
  if◌then◌else◌, nat_Eq, string_Eq, lookup, insert, delete, Result, ok, err, ◌&&◌,
}

pub data Failure : Type 0 where
  no_session socket_down already_connected not_logged_in : Failure
  phone_too_short phone_not_international : Failure
  invalid_phone_number pairing_code_expired pairing_timeout : Failure
  pairing_busy canceled client_error : Failure

-- What WhatsApp reports through a client; the manager looks only for a logout.
pub data Event : Type 0 where
  logged_out : Event
  other : ℕ → Event

pub data Effect : Type 0 where
  connect disconnect logout take_over_history open_qr : ℕ → Effect
  told : ℕ → String → Event → Effect
  told_unlink : ℕ → String → Effect

pub record Manager : Type 0 where
  pub sessions : List (String × ℕ)
  pub muted : List (String × ℕ)
  pub flags : List (ℕ × Bool)
  pub listeners : List (ℕ × (String × ℕ))
  pub clients_made : ℕ
  pub flags_made : ℕ
  pub handlers : List ℕ
  pub unlink_handlers : List ℕ
  pub log : List Effect

abbrev pub Answer : Type 0
Answer = Result Failure (Unit {0})

abbrev pub new_manager : Manager
new_manager = record {
  sessions = [];
  muted = [];
  flags = [];
  listeners = [];
  clients_made = 0;
  flags_made = 0;
  handlers = [];
  unlink_handlers = [];
  log = [];
}

unfoldable pub on_event : Manager → ℕ → Manager
on_event m handler = record m { handlers = m.handlers ++ (handler ∷ []) }

unfoldable pub on_unlink : Manager → ℕ → Manager
on_unlink m handler = record m { unlink_handlers = m.unlink_handlers ++ (handler ∷ []) }

abbrev pub note : Manager → List Effect → Manager
note m effects = record m { log = m.log ++ effects }

unfoldable pub dispatch : Manager → String → Event → Manager
dispatch m k event = note m (map (λ handler. told handler k event) m.handlers)

abbrev pub is_some : Option ℕ → ℕ → Bool
is_some none c = false
is_some (some d) c = d == c

abbrev pub is_session : Manager → String → ℕ → Bool
is_session m k c = is_some (lookup k m.sessions) c

-- A new flag, which starts as false.
abbrev pub new_flag : Manager → Manager
new_flag m = record m { flags = insert m.flags_made false m.flags; flags_made = m.flags_made + 1 }

unfoldable pub register : Manager → String → ℕ → Manager
register m k c = record m {
  sessions = insert k c m.sessions;
  muted = insert k m.flags_made m.muted;
  flags = insert m.flags_made false m.flags;
  flags_made = m.flags_made + 1;
  listeners = insert c (k, m.flags_made) m.listeners;
}

-- The client that the factory makes.
abbrev pub new_client : Manager → Manager
new_client m = record m { clients_made = m.clients_made + 1 }

-- The handler that `register` gives to a client: what it does with an event, and the calls of
-- `drop` that it starts.
abbrev pub hear : Manager → String → ℕ → Option Bool → Event → Manager × List (String × ℕ)
hear m k c (some true) event = (m, [])
hear m k c _ logged_out = (dispatch m k logged_out, (k, c) ∷ [])
hear m k c _ (other n) = (dispatch m k (other n), [])

abbrev pub listen : Manager → ℕ → Option (String × ℕ) → Event → Manager × List (String × ℕ)
listen m c none event = (m, [])
listen m c (some (k, flag)) event = hear m k c (lookup flag m.flags) event

unfoldable pub emit : Manager → ℕ → Event → Manager × List (String × ℕ)
emit m c event = listen m c (lookup c m.listeners) event

unfoldable pub drop : Manager → String → ℕ → Manager
drop m k c =
    if is_session m k c
    then record m {
      sessions = delete k m.sessions;
      muted = delete k m.muted;
      log = m.log ++ (disconnect c ∷ []);
    }
    else note m (disconnect c ∷ [])

-- The flag of the channel's client; a client that was replaced gets a flag that nobody reads.
unfoldable pub muted_flag : Manager → String → ℕ → Manager × Option ℕ
muted_flag m k c =
    if is_session m k c then (m, lookup k m.muted) else (new_flag m, some m.flags_made)

-- A store through a nil pointer would panic; `muted_flag` never gives one.
abbrev pub store_flag : Manager → Option ℕ → Bool → Manager
store_flag m none b = m
store_flag m (some flag) b = record m { flags = insert flag b m.flags }

abbrev pub found : Option ℕ → Result Failure ℕ
found none = err no_session
found (some c) = ok c

unfoldable pub session : Manager → String → Result Failure ℕ
session m k = found (lookup k m.sessions)

-- `Manager.client`: the channel's client, made when there is none.
abbrev pub client_or_new : Manager → Option ℕ → Answer → String → Manager × Result Failure ℕ
client_or_new m (some c) made k = (m, ok c)
client_or_new m none (err e) k = (m, err e)
client_or_new m none (ok _) k = (register (new_client m) k m.clients_made, ok m.clients_made)

unfoldable pub client : Manager → Answer → String → Manager × Result Failure ℕ
client m made k = client_or_new m (lookup k m.sessions) made k

abbrev pub disconnect_all_of : List (String × ℕ) → List Effect
disconnect_all_of [] = []
disconnect_all_of ((k, c) ∷ rest) = disconnect c ∷ disconnect_all_of rest

unfoldable pub disconnect_all : Manager → Manager
disconnect_all m = record m {
  sessions = [];
  muted = [];
  log = m.log ++ disconnect_all_of m.sessions;
}

-- What a client answers while it is brought up.
pub record Up : Type 0 where
  pub is_connected : Bool
  pub is_logged_in : Bool
  pub connects : Answer
  pub waits : Bool

abbrev pub wait_for_connection : Bool → Answer
wait_for_connection true = ok tt
wait_for_connection false = err socket_down

abbrev pub after_connect : Answer → Bool → Answer
after_connect (err already_connected) waits = wait_for_connection waits
after_connect (err e) waits = err e
after_connect (ok _) waits = wait_for_connection waits

unfoldable pub ensure_up : Manager → ℕ → Up → Manager × Answer
ensure_up m c up =
    if up.is_connected && up.is_logged_in
    then (m, ok tt)
    else (note m (connect c ∷ []), after_connect up.connects up.waits)

abbrev pub ensure_session_up : Manager → Result Failure ℕ → Up → Manager × Answer
ensure_session_up m (err e) up = (m, err e)
ensure_session_up m (ok c) up = ensure_up m c up

unfoldable pub ensure_connected : Manager → String → Up → Manager × Answer
ensure_connected m k up = ensure_session_up m (session m k) up

abbrev pub finish_unlink : Manager → String → ℕ → Option ℕ → Answer → Manager × Answer
finish_unlink m k c flag (err e) = (store_flag m flag false, err e)
finish_unlink m k c flag (ok _) =
    let dropped = drop m k c in
    (note dropped (map (λ handler. told_unlink handler k) dropped.unlink_handlers), ok tt)

unfoldable pub unlink : Manager → String → ℕ → Answer → Manager × Answer
unlink m k c logs_out =
    let (flagged, flag) = muted_flag m k c in
    finish_unlink (note (store_flag flagged flag true) (logout c ∷ [])) k c flag logs_out

abbrev pub but_not_logged_in : Answer → Answer
but_not_logged_in (err not_logged_in) = ok tt
but_not_logged_in answer = answer

abbrev pub remove_session : Manager → String → Option ℕ → Answer → Manager × Answer
remove_session m k none logs_out = (m, ok tt)
remove_session m k (some c) logs_out =
    let (flagged, flag) = muted_flag m k c in
    (drop (note (store_flag flagged flag true) (logout c ∷ [])) k c, but_not_logged_in logs_out)

unfoldable pub remove : Manager → String → Answer → Manager × Answer
remove m k logs_out = remove_session m k (lookup k m.sessions) logs_out

abbrev pub take_over : Bool → ℕ → List Effect
take_over true c = take_over_history c ∷ []
take_over false c = []

abbrev pub finish_resume : Manager → String → ℕ → Answer → Manager × Answer
finish_resume m k c (ok _) = (m, ok tt)
finish_resume m k c (err e) = (drop m k c, err e)

abbrev pub resume_absent : Manager → Answer → Answer → String → Bool → Manager × Answer
resume_absent m (err e) connects k importing = (m, err e)
resume_absent m (ok _) connects k importing =
    let c = m.clients_made in
    finish_resume (note (register (new_client m) k c) (take_over importing c ++ (connect c ∷ []))) k
      c connects

abbrev pub resume_found : Manager → Option ℕ → Answer → Answer → String → Bool → Manager × Answer
resume_found m (some c) made connects k importing = (m, ok tt)
resume_found m none made connects k importing = resume_absent m made connects k importing

unfoldable pub resume : Manager → Answer → Answer → String → Bool → Manager × Answer
resume m made connects k importing = resume_found m (lookup k m.sessions) made connects k importing

-- `pairingClient`: the client to pair with, and whether its device is paired already.
pub record PairAnswers : Type 0 where
  pub makes : Answer
  pub has_device : Bool
  pub up : Up
  pub logs_out : Answer
  pub makes_again : Answer

abbrev pub not_paired : Manager × Result Failure ℕ → Manager × Result Failure (ℕ × Bool)
not_paired (m, err e) = (m, err e)
not_paired (m, ok c) = (m, ok (c, false))

abbrev pub after_unlink : Manager × Answer → Answer → String → Manager × Result Failure (ℕ × Bool)
after_unlink (m, err e) makes k = (m, err e)
after_unlink (m, ok _) makes k = not_paired (client m makes k)

abbrev pub after_up :
    Manager × Answer → PairAnswers → String → ℕ → Bool → Manager × Result Failure (ℕ × Bool)
after_up (m, err e) a k c relink = (m, err e)
after_up (m, ok _) a k c false = (m, ok (c, true))
after_up (m, ok _) a k c true = after_unlink (unlink m k c a.logs_out) a.makes_again k

abbrev pub after_device :
    Manager → Bool → PairAnswers → String → ℕ → Bool → Manager × Result Failure (ℕ × Bool)
after_device m false a k c relink = (m, ok (c, false))
after_device m true a k c relink = after_up (ensure_up m c a.up) a k c relink

abbrev pub after_client :
    Manager × Result Failure ℕ → PairAnswers → String → Bool → Manager × Result Failure (ℕ × Bool)
after_client (m, err e) a k relink = (m, err e)
after_client (m, ok c) a k relink = after_device m a.has_device a k c relink

unfoldable pub pairing_client :
    Manager → PairAnswers → String → Bool → Manager × Result Failure (ℕ × Bool)
pairing_client m a k relink = after_client (client m a.makes k) a k relink
