-- ===== src/Session/Pairing/Stale.antt =====
-- internal/session/manager.go: a pairing that was superseded or ended does no harm to the one that
-- the channel has.
use whatsmeow_gateway.Base.{
  ℕ, ◌<◌, String, Bool, true, false, not, ◌||◌, ◌≡◌, ◌⊎◌, refl, inl, inr, List, [], ◌∷◌, Option,
  none, some, arith, string_Eq, nat_Eq, ◌==◌, lookup, lookup-insert, lookup-delete, Bool-cases,
  Result, ok, err, All, ◌∙◌, ap,
}
use whatsmeow_gateway.Session.{Failure}
use whatsmeow_gateway.Session.Pairing.{
  PairUpdate, shows_qr, shows_code, Pairing, Pairings, by_code, has_code, halt, retain_code,
  retain_qr, clear_qr, begin_pairing, begin_with, is_live, set_pairing, xor,
}
use whatsmeow_gateway.Session.Pairing.Follow.{
  ItemEvent, code_event, success_event, timeout_event, other_event, QrItem, shown,
  handle_phone_code, handle_code, handle_event, handle_item, Use, begins, handles, ends,
  forgets_all, apply, run, Turn, takes, stops, follow, after_item,
}

abbrev pub is_code : PairUpdate → Bool
is_code (shows_qr code) = true
is_code (shows_code code) = true
is_code _ = false

abbrev pub shows_any_code : Option (PairUpdate × Bool) → Bool
shows_any_code none = false
shows_any_code (some (update, last)) = is_code update

handle_item_stale :
    (s : Pairings) (now : ℕ) (k : String) (p : ℕ) (item : QrItem) (answer : Result Failure String)
    → is_live s k p ≡ false
    → let (after, handled) = handle_item s now k p item answer in
      (after ≡ s) × (shows_any_code handled ≡ false)
unfolding handle_item retain_code has_code retain_qr clear_qr
handle_item_stale s now k p item answer stale = event item.event
  where
    phone :
        (r : Result Failure String)
        → ((handle_phone_code s k p r).0 ≡ s)
          × (shows_any_code (handle_phone_code s k p r).1 ≡ false)
    phone (err e) = (refl, refl)
    phone (ok code) = rw stale (refl, refl)

    code_of :
        (b : Bool)
        → ((handle_code b s now k p item answer).0 ≡ s)
          × (shows_any_code (handle_code b s now k p item answer).1 ≡ false)
    code_of true = rw stale (phone answer)
    code_of false = rw stale (refl, refl)

    event :
        (e : ItemEvent)
        → ((handle_event e s now k p item answer).0 ≡ s)
          × (shows_any_code (handle_event e s now k p item answer).1 ≡ false)
    event code_event = code_of (by_code (s.pairing_of p))
    event success_event = rw stale (refl, refl)
    event timeout_event = rw stale (refl, refl)
    event other_event = rw stale (refl, refl)

-- The loop of a pairing that is not its channel's changes nothing, and shows no code to the one who
-- asked for it.
pub follow_stale :
    (s : Pairings) (k : String) (p : ℕ) (turns : List Turn)
    → is_live s k p ≡ false
    → let (after, updates) = follow s k p turns in
      (after ≡ s) × All (λ update. is_code update ≡ false) updates
unfolding follow
follow_stale s k p [] stale = (refl, tt)
follow_stale s k p (stops ∷ turns) stale = (refl, tt)
follow_stale s k p (takes now item answer taken ∷ turns) stale =
    let (same, silent) = handle_item_stale s now k p item answer stale in
    rw same
      (after (follow_stale s k p turns stale) (handle_item s now k p item answer).1 taken silent)
  where
    after :
        ((follow s k p turns).0 ≡ s) × All (λ update. is_code update ≡ false) (follow s k p turns).1
        → (handled : Option (PairUpdate × Bool)) (b : Bool) → shows_any_code handled ≡ false
        → let (later, updates) =
            after_item handled b (follow s k p turns).1 s (follow s k p turns).0 in
          (later ≡ s) × All (λ update. is_code update ≡ false) updates
    after rest none b h = rest
    after rest (some (update, last)) false h = (refl, tt)
    after rest (some (update, true)) true h = (refl, (h, tt))
    after rest (some (update, false)) true h = (rest.0, (h, rest.1))

-- Another pairing's actions keep what the channel map and the counter have, and what `q` points to.
abbrev Apart : ℕ → Pairings → Pairings → Type 0
Apart q s after =
    (after.pairings ≡ s.pairings) × (after.made ≡ s.made) × (after.pairing_of q ≡ s.pairing_of q)

module _ (q : ℕ) (s : Pairings) (k : String) (p : ℕ) (ne : (p == q) ≡ false) where
  set_pairing-Apart : (pairing : Pairing) → Apart q s (set_pairing s p pairing)
  set_pairing-Apart pairing = rw ne (refl, refl, refl)

  retain_code-Apart : (code : String) → Apart q s (retain_code s k p code).0
  unfolding retain_code
  retain_code-Apart code = elim (Bool-cases (not (is_live s k p) || code == "")) [
    | inl h ↦ rw h (refl, refl, refl)
    | inr h ↦ rw (h, ne) (refl, refl, refl)
  ]

  retain_qr-Apart :
      (now : ℕ) (code : String) (timeout : ℕ) → Apart q s (retain_qr s now k p code timeout).0
  unfolding retain_qr
  retain_qr-Apart now code timeout = elim (Bool-cases (is_live s k p)) [
    | inl h ↦ elim (Bool-cases (code == "" || timeout == 0)) [
      | inl g ↦ rw (h, g, ne) (refl, refl, refl)
      | inr g ↦ rw (h, g, ne) (refl, refl, refl)
    ]
    | inr h ↦ rw h (refl, refl, refl)
  ]

  clear_qr-Apart : Apart q s (clear_qr s k p)
  unfolding clear_qr
  clear_qr-Apart = elim (Bool-cases (is_live s k p)) [
    | inl h ↦ rw (h, ne) (refl, refl, refl)
    | inr h ↦ rw h (refl, refl, refl)
  ]

  shown-Apart :
      (r : Pairings × Bool) (update : PairUpdate) → Apart q s r.0 → Apart q s (shown r update).0
  shown-Apart (after, true) update h = h
  shown-Apart (after, false) update h = h

  handle_item-Apart :
      (now : ℕ) (item : QrItem) (answer : Result Failure String)
      → Apart q s (handle_item s now k p item answer).0
  unfolding handle_item
  handle_item-Apart now item answer = event item.event
    where
      phone : (r : Result Failure String) → Apart q s (handle_phone_code s k p r).0
      phone (err e) = (refl, refl, refl)
      phone (ok code) =
          shown-Apart (retain_code s k p code) (shows_code code) (retain_code-Apart code)

      code_of : (b : Bool) → Apart q s (handle_code b s now k p item answer).0
      code_of true = elim (Bool-cases (has_code s k p)) [
        | inl h ↦ rw h (refl, refl, refl)
        | inr h ↦ rw h (phone answer)
      ]
      code_of false =
          shown-Apart (retain_qr s now k p item.code item.timeout) (shows_qr item.code)
            (retain_qr-Apart now item.code item.timeout)

      event : (e : ItemEvent) → Apart q s (handle_event e s now k p item answer).0
      event code_event = code_of (by_code (s.pairing_of p))
      event success_event = clear_qr-Apart
      event timeout_event = clear_qr-Apart
      event other_event = clear_qr-Apart

-- The pairing is the channel's still, and is as it was or halted.
abbrev pub Survives : Pairings → String → ℕ → Pairings → Type 0
Survives s k q after =
    (lookup k after.pairings ≡ some q)
    × (q < after.made)
    × ((after.pairing_of q ≡ s.pairing_of q) ⊎ (after.pairing_of q ≡ halt (s.pairing_of q)))

begin-Survives :
    (s : Pairings) (k : String) (q now : ℕ) (j : String) (import_history : Bool) (phone : String)
    (o : Option ℕ)
    → lookup j s.pairings ≡ o
    → lookup k s.pairings ≡ some q
    → q < s.made
    → Survives s k q (begin_with s o now j import_history phone).0
begin-Survives s k q now j import_history phone none e h lt = (
  ground (arith, lookup-insert j k s.made s.pairings, string_Eq.same_iff j k),
  omega arith,
  inl (ground (arith, nat_Eq.same_iff s.made q)),
)
begin-Survives s k q now j import_history phone (some live) e h lt =
    elim (Bool-cases (
      xor import_history (s.pairing_of live).import_history
      || not (phone == (s.pairing_of live).phone))) [
        | inl g ↦ rw g (h, lt, ground (arith, nat_Eq.same_iff live q))
        | inr g ↦ rw g (h, lt, inl refl)
      ]

-- Whose action it is.
abbrev pub is_of : ℕ → Use → Bool
is_of q (handles now k p item answer) = p == q
is_of q (ends k p) = p == q
is_of q (begins now k import_history phone) = false
is_of q forgets_all = true

apply-Survives :
    (s : Pairings) (k : String) (q : ℕ) (u : Use)
    → lookup k s.pairings ≡ some q
    → q < s.made
    → is_of q u ≡ false
    → Survives s k q (apply s u)
unfolding begin_pairing
apply-Survives s k q (begins now j import_history phone) h lt f =
    begin-Survives s k q now j import_history phone (lookup j s.pairings) refl h lt
apply-Survives s k q (handles now j p item answer) h lt f =
    let (a, b, c) = handle_item-Apart q s j p f now item answer in (rw a h, rw b lt, inl c)
apply-Survives s k q (ends j p) h lt f = elim (Bool-cases (is_live s j p)) [
  | inl g ↦ rw g (
    ground (arith, lookup-delete j k s.pairings, string_Eq.same_iff j k, nat_Eq.same_iff p q),
    lt,
    inl refl,
  )
  | inr g ↦ rw g (h, lt, inl refl)
]
apply-Survives s k q forgets_all h lt f = absurd (ground arith)

Survives-trans :
    (s t u : Pairings) (k : String) (q : ℕ) → Survives s k q t → Survives t k q u → Survives s k q u
Survives-trans s t u k q (a, b, inl c) (d, e, inl f) = (d, e, inl (f ∙ c))
Survives-trans s t u k q (a, b, inl c) (d, e, inr f) = (d, e, inr (f ∙ ap halt c))
Survives-trans s t u k q (a, b, inr c) (d, e, inl f) = (d, e, inr (f ∙ c))
Survives-trans s t u k q (a, b, inr c) (d, e, inr f) = (d, e, inr (f ∙ ap halt c))

-- Whatever the goroutines of other pairings do, of the same channel or of others, and whatever
-- pairings are asked for meanwhile, the pairing that a channel has stays the channel's, with its QR
-- code, its phone code and its options, and at most it is told to stop.
pub others-Survives :
    (us : List Use) (s : Pairings) (k : String) (q : ℕ)
    → lookup k s.pairings ≡ some q
    → q < s.made
    → All (λ u. is_of q u ≡ false) us
    → Survives s k q (run s us)
unfolding run
others-Survives [] s k q h lt f = (h, lt, inl refl)
others-Survives (u ∷ us) s k q h lt (f, fs) =
    let one = apply-Survives s k q u h lt f in
    Survives-trans s (apply s u) (run (apply s u) us) k q one
      (others-Survives us (apply s u) k q one.0 one.1 fs)
