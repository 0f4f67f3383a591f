-- ===== src/Session/Pair.antt =====
-- internal/session/manager.go, pair: from a pairing command to the goroutine that follows it.
use whatsmeow_gateway.Base.{
  ℕ, String, Bool, true, false, List, [], ◌∷◌, ◌&&◌, none, some, ◌≡◌, arith, string_Eq, nat_Eq,
  ==-refl, lookup, lookup-delete, Result, ok, err,
}
use whatsmeow_gateway.Session.{
  Manager, Failure, Answer, PairAnswers, connect, open_qr, note, take_over, drop, pairing_client,
}
use whatsmeow_gateway.Session.Pairing.{
  PairUpdate, connected, Pairings, Begun, started, joined, superseded, set_pairing, begin_pairing,
  end_pairing,
}

-- What the client and the pairing slot answer on the way, and whether the device is paired by then.
pub record StartAnswers : Type 0 where
  pub opens_qr : Answer
  pub takes_slot : Answer
  pub connects : Answer
  pub has_device : Bool

abbrev pub close_done : Pairings → ℕ → Pairings
close_done s p = set_pairing s p (record (s.pairing_of p) { done = true })

abbrev pub finish_pairing : Manager → Pairings → String → ℕ → ℕ → Bool → Manager × Pairings
finish_pairing m s k p c has_device =
    let (m', s') = end_pairing m s k p c has_device in (m', close_done s' p)

abbrev pub fail_start :
    Manager → Pairings → String → ℕ → ℕ → Bool → Failure → Manager × Pairings × Answer
fail_start m s k p c has_device e =
    let (m', s') = finish_pairing m s k p c has_device in (m', s', err e)

abbrev pub after_connecting :
    Answer → Manager → Pairings → String → ℕ → ℕ → Bool → Manager × Pairings × Answer
after_connecting (err e) m s k p c has_device = fail_start m s k p c has_device e
after_connecting (ok _) m s k p c has_device = (m, s, ok tt)

abbrev pub after_slot :
    Answer → Answer → Manager → Pairings → String → ℕ → ℕ → Bool → Manager × Pairings × Answer
after_slot (err e) connects m s k p c has_device = fail_start m s k p c has_device e
after_slot (ok _) connects m s k p c has_device =
    after_connecting connects (note m (connect c ∷ [])) s k p c has_device

abbrev pub after_qr :
    Answer → StartAnswers → Bool → Manager → Pairings → String → ℕ → ℕ → Manager × Pairings × Answer
after_qr (err e) a import_history m s k p c = fail_start m s k p c a.has_device e
after_qr (ok _) a import_history m s k p c =
    after_slot a.takes_slot a.connects (note m (take_over import_history c)) s k p c a.has_device

-- From the new pairing to the start of the goroutine.
unfoldable pub start_pairing :
    Manager → Pairings → StartAnswers → Bool → String → ℕ → ℕ → Manager × Pairings × Answer
start_pairing m s a import_history k p c =
    after_qr a.opens_qr a import_history (note m (open_qr c ∷ [])) s k p c

-- What a pairing command gets: an error, updates that are complete, a pairing to follow with its
-- client, or a superseded pairing to wait for before the command is run again.
pub data Outcome : Type 0 where
  refused : Failure → Outcome
  gets : List PairUpdate → Outcome
  follows : ℕ → ℕ → Outcome
  waits_for : ℕ → Outcome

abbrev pub after_start : Manager × Pairings × Answer → ℕ → ℕ → Manager × Pairings × Outcome
after_start (m, s, err e) p c = (m, s, refused e)
after_start (m, s, ok _) p c = (m, s, follows p c)

abbrev pub after_begin :
    Pairings × Begun → Manager → StartAnswers → Bool → String → ℕ → Manager × Pairings × Outcome
after_begin (s, started p) m a import_history k c =
    after_start (start_pairing m s a import_history k p c) p c
after_begin (s, joined updates) m a import_history k c = (m, s, gets updates)
after_begin (s, superseded p) m a import_history k c = (m, s, waits_for p)

abbrev pub after_pairing_client :
    Manager × Result Failure (ℕ × Bool)
    → Pairings
    → StartAnswers
    → ℕ
    → String
    → Bool
    → String
    → Manager × Pairings × Outcome
after_pairing_client (m, err e) s a now k import_history phone = (m, s, refused e)
after_pairing_client (m, ok (c, true)) s a now k import_history phone =
    (m, s, gets (connected ∷ []))
after_pairing_client (m, ok (c, false)) s a now k import_history phone =
    after_begin (begin_pairing s now k import_history phone) m a import_history k c

unfoldable pub pair :
    Manager
    → Pairings
    → PairAnswers
    → StartAnswers
    → ℕ
    → String
    → Bool
    → Bool
    → String
    → Manager × Pairings × Outcome
pair m s answers start now k import_history relink_device phone =
    after_pairing_client (pairing_client m answers k (import_history && relink_device)) s start now
      k import_history phone

-- What remains of a channel whose pairing could not start.
abbrev pub IsCleared : String → Manager × Pairings × Answer → Type 0
IsCleared k (m, s, result) =
    (lookup k s.pairings ≡ none) × (lookup k m.sessions ≡ none) × (lookup k m.muted ≡ none)

module _ (s : Pairings) (k : String) (p c : ℕ) (e : lookup k s.pairings ≡ some p) where
  fail_start-IsCleared :
      (m : Manager) (f : Failure)
      → lookup k m.sessions ≡ some c
      → IsCleared k (fail_start m s k p c false f)
  unfolding end_pairing drop
  fail_start-IsCleared m f g =
      rw (e, g, ==-refl p, ==-refl c)
        (
          ground (arith, lookup-delete k k s.pairings, ==-refl k),
          ground (arith, lookup-delete k k m.sessions, ==-refl k),
          ground (arith, lookup-delete k k m.muted, ==-refl k),
        )

  after_connecting-IsCleared :
      (m : Manager) (f : Failure) (a : Answer)
      → lookup k m.sessions ≡ some c
      → (after_connecting a m s k p c false).2 ≡ err f
      → IsCleared k (after_connecting a m s k p c false)
  after_connecting-IsCleared m f (err o) g h = fail_start-IsCleared m o g
  after_connecting-IsCleared m f (ok _) g h = cc

  after_slot-IsCleared :
      (m : Manager) (f : Failure) (a connects : Answer)
      → lookup k m.sessions ≡ some c
      → (after_slot a connects m s k p c false).2 ≡ err f
      → IsCleared k (after_slot a connects m s k p c false)
  after_slot-IsCleared m f (err o) connects g h = fail_start-IsCleared m o g
  after_slot-IsCleared m f (ok _) connects g h =
      after_connecting-IsCleared (note m (connect c ∷ [])) f connects g h

  after_qr-IsCleared :
      (m : Manager) (f : Failure) (a : StartAnswers) (o : Answer) (import_history : Bool)
      → lookup k m.sessions ≡ some c
      → a.has_device ≡ false
      → (after_qr o a import_history m s k p c).2 ≡ err f
      → IsCleared k (after_qr o a import_history m s k p c)
  after_qr-IsCleared m f a (err u) import_history g d h = simp d (fail_start-IsCleared m u g)
  after_qr-IsCleared m f a (ok _) import_history g d h = simp d (
      after_slot-IsCleared (note m (take_over import_history c)) f a.takes_slot a.connects g
        (simp d at h))

-- A new pairing that cannot be started, because the QR codes cannot be had, the pairing slot stays
-- taken or the client does not connect, leaves its channel with no pairing and no client, as long as
-- the device was not paired, so the next command starts afresh.
pub failed_start_cleans :
    (m : Manager) (s : Pairings) (a : StartAnswers) (import_history : Bool) (k : String) (p c : ℕ)
    (f : Failure)
    → lookup k s.pairings ≡ some p
    → lookup k m.sessions ≡ some c
    → a.has_device ≡ false
    → (start_pairing m s a import_history k p c).2 ≡ err f
    → IsCleared k (start_pairing m s a import_history k p c)
unfolding start_pairing
failed_start_cleans m s a import_history k p c f e g d h =
    after_qr-IsCleared s k p c e (note m (open_qr c ∷ [])) f a a.opens_qr import_history g d h
