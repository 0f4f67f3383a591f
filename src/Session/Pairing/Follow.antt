-- ===== src/Session/Pairing/Follow.antt =====
-- internal/session/manager.go: the goroutine of `pair`, which follows what WhatsApp says of a
-- pairing. What `PairPhone` answers comes with each item.
use whatsmeow_gateway.Base.{
  ℕ, String, Bool, true, false, List, [], ◌∷◌, Option, none, some, if◌then◌else◌, Result, ok, err,
}
use whatsmeow_gateway.Session.{
  Failure, phone_too_short, phone_not_international, invalid_phone_number, pairing_code_expired,
  pairing_timeout, client_error,
}
use whatsmeow_gateway.Session.Pairing.{
  PairUpdate, shows_qr, shows_code, connected, failed, Pairings, by_code, has_code, retain_code,
  retain_qr, clear_qr, begin_pairing, forget_pairing, forget_all,
}

pub data ItemEvent : Type 0 where
  code_event success_event timeout_event other_event : ItemEvent

pub record QrItem : Type 0 where
  pub event : ItemEvent
  pub error : Option Failure
  pub code : String
  pub timeout : ℕ

abbrev pub pair_phone_error : Failure → Failure
pair_phone_error phone_too_short = invalid_phone_number
pair_phone_error phone_not_international = invalid_phone_number
pair_phone_error e = e

abbrev pub end_error : Bool → Option Failure → ItemEvent → Failure
end_error by_code (some e) event = e
end_error true none timeout_event = pairing_code_expired
end_error false none timeout_event = pairing_timeout
end_error by_code none _ = client_error

unfoldable pub pairing_end_error : Bool → QrItem → Failure
pairing_end_error by_code item = end_error by_code item.error item.event

-- What an item leads to: an update for the one who asked, with whether it is the last one, or none.
abbrev pub Handled : Type 0
Handled = Pairings × Option (PairUpdate × Bool)

abbrev pub shown : Pairings × Bool → PairUpdate → Handled
shown (s, true) update = (s, some (update, false))
shown (s, false) update = (s, none)

abbrev pub handle_phone_code : Pairings → String → ℕ → Result Failure String → Handled
handle_phone_code s k p (err e) = (s, some (failed (pair_phone_error e), true))
handle_phone_code s k p (ok code) = shown (retain_code s k p code) (shows_code code)

abbrev pub handle_code : Bool → Pairings → ℕ → String → ℕ → QrItem → Result Failure String → Handled
handle_code true s now k p item answer =
    if has_code s k p then (s, none) else handle_phone_code s k p answer
handle_code false s now k p item answer =
    shown (retain_qr s now k p item.code item.timeout) (shows_qr item.code)

abbrev pub handle_event :
    ItemEvent → Pairings → ℕ → String → ℕ → QrItem → Result Failure String → Handled
handle_event code_event s now k p item answer =
    handle_code (by_code (s.pairing_of p)) s now k p item answer
handle_event success_event s now k p item answer = (clear_qr s k p, some (connected, false))
handle_event _ s now k p item answer =
    (clear_qr s k p, some (failed (pairing_end_error (by_code (s.pairing_of p)) item), true))

unfoldable pub handle_item : Pairings → ℕ → String → ℕ → QrItem → Result Failure String → Handled
handle_item s now k p item answer = handle_event item.event s now k p item answer

-- A turn of the loop: an item, with whether its update is taken before the pairing is stopped, or
-- the end of the items or a stop.
pub data Turn : Type 0 where
  takes : ℕ → QrItem → Result Failure String → Bool → Turn
  stops : Turn

abbrev pub after_item :
    Option (PairUpdate × Bool)
    → Bool
    → List PairUpdate
    → Pairings
    → Pairings
    → Pairings × List PairUpdate
after_item none taken updates s later = (later, updates)
after_item (some (update, ends)) false updates s later = (s, [])
after_item (some (update, true)) true updates s later = (s, update ∷ [])
after_item (some (update, false)) true updates s later = (later, update ∷ updates)

-- The updates that the one who asked receives, in order.
unfoldable pub follow : Pairings → String → ℕ → List Turn → Pairings × List PairUpdate
follow s k p [] = (s, [])
follow s k p (stops ∷ turns) = (s, [])
follow s k p (takes now item answer taken ∷ turns) =
    let (s', handled) = handle_item s now k p item answer in
    let (later, updates) = follow s' k p turns in after_item handled taken updates s' later

-- What the goroutines of all pairings, and the commands, do to the pairings, in any order.
pub data Use : Type 0 where
  begins : ℕ → String → Bool → String → Use
  handles : ℕ → String → ℕ → QrItem → Result Failure String → Use
  ends : String → ℕ → Use
  forgets_all : Use

abbrev pub apply : Pairings → Use → Pairings
apply s (begins now k import_history phone) = (begin_pairing s now k import_history phone).0
apply s (handles now k p item answer) = (handle_item s now k p item answer).0
apply s (ends k p) = forget_pairing s k p
apply s forgets_all = forget_all s

unfoldable pub run : Pairings → List Use → Pairings
run s [] = s
run s (u ∷ us) = run (apply s u) us
