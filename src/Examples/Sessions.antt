-- ===== src/Examples/Sessions.antt =====
-- Runs of internal/session.
use whatsmeow_gateway.Base.{
  ℕ, ◌≡◌, refl, List, [], ◌∷◌, none, some, true, false, ok, err, All, arith, lookup, insert,
  string_Eq, nat_Eq, ◌≤◌, String, ◌⊎◌, ◌≢◌,
}
use whatsmeow_gateway.Session.{
  Manager, new_manager, Up, PairAnswers, client_error, pairing_busy, not_logged_in, logged_out,
  other, register, remove, emit, client, resume, on_event,
}
use whatsmeow_gateway.Session.Silence.{
  Use, adds_handler, takes_client, resumes, removes, hears, pairs, drops, run,
}
use whatsmeow_gateway.Session.Silence.Registered.{client_hears_own_flag}
use whatsmeow_gateway.Session.Silence.Removed.{remove-silences}
use whatsmeow_gateway.Session.View.{Moves, view, run-refines}
use whatsmeow_gateway.Session.Pairing.{
  Pairings, new_pairing, begin_pairing, joined, shows_qr, retain_qr,
}
use whatsmeow_gateway.Session.Pairing.Follow.{
  QrItem, code_event, takes, stops, follow, begins, handles, ends, Use as PairingUse,
  run as run_pairings,
}
use whatsmeow_gateway.Session.Pairing.Stale.{Survives, others-Survives, follow_stale, is_code}
use whatsmeow_gateway.Session.Pairing.Join.{shown_qr_is_joined}
use whatsmeow_gateway.Session.Lock.{
  Locks, no_locks, enter, acquire, Reach, here, next, enters, acquires, waiting, Goroutine,
}
use whatsmeow_gateway.Session.Lock.Counting.{count_if, works_on}
use whatsmeow_gateway.Session.Lock.Exclusive.{Reach-exclusive}
use whatsmeow_gateway.Session.Pair.{StartAnswers}

abbrev up : Up
up = record { is_connected = false; is_logged_in = false; connects = ok tt; waits = true }

abbrev relinking : PairAnswers
relinking = record {
  makes = ok tt;
  has_device = true;
  up = up;
  logs_out = ok tt;
  makes_again = ok tt;
}

abbrev uses : List Use
uses = adds_handler 7 ∷ takes_client (ok tt) "a" ∷ resumes (ok tt) (ok tt) "b" true ∷ []

abbrev two_clients : Manager
two_clients = run new_manager uses

has_two_clients : lookup "b" two_clients.sessions ≡ some 1
unfolding run client resume register on_event lookup insert
has_two_clients = refl

client_hears_own_flag_example :
    (flag : ℕ) × (lookup "b" two_clients.muted ≡ some flag)
    × (lookup 1 two_clients.listeners ≡ some ("b", flag))
    × ((j : String)
        → (j ≡ "b")
          ⊎ ((lookup j two_clients.sessions ≢ some 1) × (lookup j two_clients.muted ≢ some flag)))
client_hears_own_flag_example = client_hears_own_flag uses "b" 1 has_two_clients

remove-silences_example :
    let m =
      run
        (remove two_clients "b" (err not_logged_in)).0
        (resumes (ok tt) (err client_error) "b" false ∷ []) in
    emit m 1 (other 5) ≡ (m, [])
remove-silences_example =
    remove-silences uses (resumes (ok tt) (err client_error) "b" false ∷ []) "b" 1
      (err not_logged_in) (other 5) has_two_clients

abbrev later : List Use
later = pairs relinking "a" true ∷ removes "b" (ok tt) ∷ hears 0 logged_out ∷ drops "a" 0 ∷ []

run-refines_example : Moves (view two_clients) (view (run two_clients later))
run-refines_example = run-refines two_clients later

abbrev one_pairing : Pairings
one_pairing = record { pairings = ("a", 0) ∷ []; pairing_of = λ p. new_pairing true ""; made = 2 }

abbrev qr_item : QrItem
qr_item = record { event = code_event; error = none; code = "qr"; timeout = 20 }

abbrev others : List PairingUse
others = handles 5 "a" 1 qr_item (ok "code") ∷ begins 6 "a" false "" ∷ ends "a" 1 ∷ []

others-Survives_example : Survives one_pairing "a" 0 (run_pairings one_pairing others)
unfolding lookup
others-Survives_example =
    others-Survives others one_pairing "a" 0 refl (omega arith) (refl, (refl, (refl, tt)))

follow_stale_example :
    let (after, updates) =
      follow one_pairing "a" 1 (takes 5 qr_item (ok "code") true ∷ stops ∷ []) in
    (after ≡ one_pairing) × All (λ update. is_code update ≡ false) updates
unfolding lookup
follow_stale_example =
    follow_stale one_pairing "a" 1 (takes 5 qr_item (ok "code") true ∷ stops ∷ []) refl

shown_qr_is_joined_example :
    let after = (retain_qr one_pairing 5 "a" 0 "qr" 20).0 in
    ((begin_pairing after 5 "a" (new_pairing true "").import_history "").1
      ≡ joined (shows_qr "qr" ∷ []))
    × ((begin_pairing after 25 "a" (new_pairing true "").import_history "").1 ≡ joined [])
unfolding lookup new_pairing retain_qr
shown_qr_is_joined_example =
    shown_qr_is_joined one_pairing "a" 0 5 25 "qr" 20 refl refl refl (λ e. ground arith)
      (omega arith)

abbrev two_waiting : Locks
two_waiting = enter (enter no_locks "a") "a"

abbrev goroutine : Goroutine
goroutine = record { channel = "a"; lock = 0; phase = waiting }

abbrev one_working : Locks
one_working = acquire two_waiting [] goroutine (goroutine ∷ [])

one_working-Reach : Reach no_locks one_working
unfolding enter lookup insert
one_working-Reach =
    next (next (next here (enters "a" refl)) (enters "a" refl))
      (acquires [] goroutine (goroutine ∷ []) refl refl refl refl)

Reach-exclusive_example : count_if (works_on "a") one_working.goroutines ≤ 1
Reach-exclusive_example = Reach-exclusive "a" one_working-Reach

abbrev no_slot : StartAnswers
no_slot = record {
  opens_qr = ok tt;
  takes_slot = err pairing_busy;
  connects = ok tt;
  has_device = false;
}
