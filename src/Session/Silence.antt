-- ===== src/Session/Silence.antt =====
-- internal/session/manager.go: the manager under any sequence of its operations, and the clients
-- that nobody hears any more.
pub mod Changes
pub mod Registered
pub mod Removed
use whatsmeow_gateway.Base.{String, Bool, ℕ, List, [], ◌∷◌}
use whatsmeow_gateway.Session.{
  Manager, Answer, Up, PairAnswers, Event, on_event, on_unlink, emit, drop, client, resume,
  ensure_connected, remove, pairing_client, disconnect_all,
}

-- An operation, with what the clients answer.
pub data Use : Type 0 where
  adds_handler adds_unlink_handler : ℕ → Use
  hears : ℕ → Event → Use
  drops : String → ℕ → Use
  takes_client : Answer → String → Use
  resumes : Answer → Answer → String → Bool → Use
  ensures : String → Up → Use
  removes : String → Answer → Use
  pairs : PairAnswers → String → Bool → Use
  disconnects_all : Use

abbrev pub apply : Manager → Use → Manager
apply m (adds_handler handler) = on_event m handler
apply m (adds_unlink_handler handler) = on_unlink m handler
apply m (hears c event) = (emit m c event).0
apply m (drops k c) = drop m k c
apply m (takes_client made k) = (client m made k).0
apply m (resumes made connects k importing) = (resume m made connects k importing).0
apply m (ensures k up) = (ensure_connected m k up).0
apply m (removes k logs_out) = (remove m k logs_out).0
apply m (pairs answers k relink) = (pairing_client m answers k relink).0
apply m disconnects_all = disconnect_all m

unfoldable pub run : Manager → List Use → Manager
run m [] = m
run m (u ∷ us) = run (apply m u) us
