-- ===== src/Session/Silence/Changes.antt =====
-- internal/session/manager.go: the few changes that every operation of the manager is made of.
use whatsmeow_gateway.Base.{
  ℕ, ◌∷◌, String, ◌≡◌, refl, inl, inr, List, [], Option, none, some, string_Eq, nat_Eq, lookup,
  Bool-cases, Bool, true, false, ok, err, ◌++◌, Result, ◌&&◌,
}
use whatsmeow_gateway.Session.{
  Manager, Answer, Up, PairAnswers, Event, Effect, Failure, logged_out, other, on_event, on_unlink,
  emit, drop, client, client_or_new, resume, resume_absent, finish_resume, ensure_connected,
  ensure_up, ensure_session_up, session, remove, remove_session, pairing_client, after_client,
  after_device, resume_found, after_up, after_unlink, not_paired, disconnect_all, register,
  muted_flag, store_flag, unlink, dispatch, hear, listen, new_client, note, logout, connect,
  take_over,
}
use whatsmeow_gateway.Session.Silence.{
  Use, adds_handler, adds_unlink_handler, hears, drops, takes_client, resumes, ensures, removes,
  pairs, disconnects_all, apply, run,
}

abbrev pub set_muted : Manager → String → ℕ → List Effect → Manager
set_muted m k c effects =
    let (flagged, flag) = muted_flag m k c in note (store_flag flagged flag true) effects

abbrev pub set_heard : Manager → String → ℕ → List Effect → Manager
set_heard m k c effects =
    let (flagged, flag) = muted_flag m k c in
    store_flag (note (store_flag flagged flag true) effects) flag false

pub data Change (m : Manager) : Manager → Type 0 where
  writes :
      (hs us : List ℕ) (l : List Effect)
      → Change m (record m { handlers = hs; unlink_handlers = us; log = l })
  registers :
      (k : String)
      → lookup k m.sessions ≡ none
      → Change m (register (new_client m) k m.clients_made)
  frees : (k : String) (c : ℕ) → Change m (drop m k c)
  mutes : (k : String) (c : ℕ) (l : List Effect) → Change m (set_muted m k c l)
  unmutes : (k : String) (c : ℕ) (l : List Effect) → Change m (set_heard m k c l)
  clears : (l : List Effect) → Change m (record m { sessions = []; muted = []; log = l })

pub data Changes (m : Manager) : Manager → Type 0 where
  here : Changes m m
  next : {n o : Manager} → Changes m n → Change n o → Changes m o

one : {m n : Manager} → Change m n → Changes m n
one c = next here c

then_all : {m n o : Manager} → Changes m n → Changes n o → Changes m o
then_all h here = h
then_all h (next k c) = next (then_all h k) c

noted : (m : Manager) (l : List Effect) → Change m (note m l)
noted m l = writes m.handlers m.unlink_handlers (m.log ++ l)

dispatch-Change : (m : Manager) (k : String) (e : Event) → Change m (dispatch m k e)
unfolding dispatch
dispatch-Change m k e = noted m _

hear-Changes :
    (m : Manager) (k : String) (c : ℕ) (flag : Option Bool) (e : Event)
    → Changes m (hear m k c flag e).0
hear-Changes m k c (some true) e = here
hear-Changes m k c (some false) logged_out = one (dispatch-Change m k logged_out)
hear-Changes m k c (some false) (other n) = one (dispatch-Change m k (other n))
hear-Changes m k c none logged_out = one (dispatch-Change m k logged_out)
hear-Changes m k c none (other n) = one (dispatch-Change m k (other n))

listen-Changes :
    (m : Manager) (c : ℕ) (o : Option (String × ℕ)) (e : Event) → Changes m (listen m c o e).0
listen-Changes m c none e = here
listen-Changes m c (some (k, flag)) e = hear-Changes m k c (lookup flag m.flags) e

client-Changes :
    (m : Manager) (o : Option ℕ) (made : Answer) (k : String)
    → lookup k m.sessions ≡ o
    → Changes m (client_or_new m o made k).0
client-Changes m (some c) made k e = here
client-Changes m none (err f) k e = here
client-Changes m none (ok _) k e = one (registers k e)

finish_resume-Changes :
    (m : Manager) (k : String) (c : ℕ) (a : Answer) → Changes m (finish_resume m k c a).0
finish_resume-Changes m k c (ok _) = here
finish_resume-Changes m k c (err e) = one (frees k c)

resume-Changes :
    (m : Manager) (made connects : Answer) (k : String) (importing : Bool)
    → lookup k m.sessions ≡ none
    → Changes m (resume_absent m made connects k importing).0
resume-Changes m (err f) connects k importing e = here
resume-Changes m (ok _) connects k importing e =
    then_all (next (one (registers k e)) (noted _ (take_over importing _ ++ (connect _ ∷ []))))
      (finish_resume-Changes _ k m.clients_made connects)

resume_found-Changes :
    (m : Manager) (o : Option ℕ) (made connects : Answer) (k : String) (importing : Bool)
    → lookup k m.sessions ≡ o
    → Changes m (resume_found m o made connects k importing).0
resume_found-Changes m (some c) made connects k importing e = here
resume_found-Changes m none made connects k importing e =
    resume-Changes m made connects k importing e

ensure_up-Changes : (m : Manager) (c : ℕ) (up : Up) → Changes m (ensure_up m c up).0
unfolding ensure_up
ensure_up-Changes m c up = elim (Bool-cases (up.is_connected && up.is_logged_in)) [
  | inl h ↦ rw h here
  | inr h ↦ rw h (one (noted m (connect c ∷ [])))
]

ensure_session_up-Changes :
    (m : Manager) (r : Result Failure ℕ) (up : Up) → Changes m (ensure_session_up m r up).0
ensure_session_up-Changes m (err e) up = here
ensure_session_up-Changes m (ok c) up = ensure_up-Changes m c up

unlink-Changes : (m : Manager) (k : String) (c : ℕ) (a : Answer) → Changes m (unlink m k c a).0
unfolding unlink
unlink-Changes m k c (err e) = one (unmutes k c (logout c ∷ []))
unlink-Changes m k c (ok _) = next (next (one (mutes k c (logout c ∷ []))) (frees k c)) (noted _ _)

remove-Changes :
    (m : Manager) (k : String) (o : Option ℕ) (a : Answer) → Changes m (remove_session m k o a).0
remove-Changes m k none a = here
remove-Changes m k (some c) a = next (one (mutes k c (logout c ∷ []))) (frees k c)

not_paired-Changes :
    (m : Manager) (r : Manager × Result Failure ℕ) → Changes m r.0 → Changes m (not_paired r).0
not_paired-Changes m (n, err e) h = h
not_paired-Changes m (n, ok c) h = h

get_client-Changes : (m : Manager) (made : Answer) (k : String) → Changes m (client m made k).0
unfolding client
get_client-Changes m made k = client-Changes m (lookup k m.sessions) made k refl

after_unlink-Changes :
    (m : Manager) (r : Manager × Answer) (made : Answer) (k : String)
    → Changes m r.0
    → Changes m (after_unlink r made k).0
after_unlink-Changes m (n, err e) made k h = h
after_unlink-Changes m (n, ok _) made k h =
    then_all h (not_paired-Changes n (client n made k) (get_client-Changes n made k))

after_up-Changes :
    (m : Manager) (r : Manager × Answer) (a : PairAnswers) (k : String) (c : ℕ) (relink : Bool)
    → Changes m r.0
    → Changes m (after_up r a k c relink).0
after_up-Changes m (n, err e) a k c relink h = h
after_up-Changes m (n, ok _) a k c false h = h
after_up-Changes m (n, ok _) a k c true h = then_all h (
    after_unlink-Changes n (unlink n k c a.logs_out) a.makes_again k
      (unlink-Changes n k c a.logs_out))

after_device-Changes :
    (m : Manager) (paired : Bool) (a : PairAnswers) (k : String) (c : ℕ) (relink : Bool)
    → Changes m (after_device m paired a k c relink).0
after_device-Changes m false a k c relink = here
after_device-Changes m true a k c relink =
    after_up-Changes m (ensure_up m c a.up) a k c relink (ensure_up-Changes m c a.up)

after_client-Changes :
    (m : Manager) (r : Manager × Result Failure ℕ) (a : PairAnswers) (k : String) (relink : Bool)
    → Changes m r.0
    → Changes m (after_client r a k relink).0
after_client-Changes m (n, err e) a k relink h = h
after_client-Changes m (n, ok c) a k relink h =
    then_all h (after_device-Changes n a.has_device a k c relink)

pub apply-Changes : (m : Manager) (u : Use) → Changes m (apply m u)
unfolding on_event on_unlink emit resume ensure_connected remove pairing_client disconnect_all
apply-Changes m (adds_handler handler) = one (writes _ _ _)
apply-Changes m (adds_unlink_handler handler) = one (writes _ _ _)
apply-Changes m (hears c event) = listen-Changes m c (lookup c m.listeners) event
apply-Changes m (drops k c) = one (frees k c)
apply-Changes m (takes_client made k) = get_client-Changes m made k
apply-Changes m (resumes made connects k importing) =
    resume_found-Changes m (lookup k m.sessions) made connects k importing refl
apply-Changes m (ensures k up) = ensure_session_up-Changes m (session m k) up
apply-Changes m (removes k logs_out) = remove-Changes m k (lookup k m.sessions) logs_out
apply-Changes m (pairs answers k relink) =
    after_client-Changes m (client m answers.makes k) answers k relink
      (get_client-Changes m answers.makes k)
apply-Changes m disconnects_all = one (clears _)

-- What each change keeps, any operations keep.
module _ (P : Manager → Type 0) (kept : (m n : Manager) → Change m n → P m → P n) where
  Changes-keeps : {m n : Manager} → Changes m n → P m → P n
  Changes-keeps here h = h
  Changes-keeps (next cs c) h = kept _ _ c (Changes-keeps cs h)

  pub run-keeps : (m : Manager) (us : List Use) → P m → P (run m us)
  unfolding run
  run-keeps m [] h = h
  run-keeps m (u ∷ us) h = run-keeps (apply m u) us (Changes-keeps (apply-Changes m u) h)
