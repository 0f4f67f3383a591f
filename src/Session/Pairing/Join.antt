-- ===== src/Session/Pairing/Join.antt =====
-- internal/session/manager.go: what a request gets that joins a pairing in progress.
use whatsmeow_gateway.Base.{
  ℕ, ◌+◌, ◌≤◌, ◌<◌, String, Bool, true, false, ◌||◌, ◌≡◌, ◌≢◌, refl, inl, inr, [], ◌∷◌, none, some,
  arith, string_Eq, nat_Eq, ==-refl, ◌==◌, lookup, Bool-cases, if◌then◌else◌, ltb, ltb→lt, subst,
  ap, ◌∙◌,
}
use whatsmeow_gateway.Session.Pairing.{
  shows_qr, Pairings, Pairing, emitted_at, retain_qr, retain_live_qr, begin_pairing, set_pairing,
  xor, retained, valid_qr, updates_of, joined,
}

emitted_at-le : (p : Pairing) (now : ℕ) → emitted_at p now ≤ now
emitted_at-le p now = ground arith

abbrev with_qr : Pairings → ℕ → ℕ → String → ℕ → Pairings
with_qr s now p code timeout =
    let pairing = s.pairing_of p in
    set_pairing s p
      (record pairing { qr = code; emitted = emitted_at pairing now; lifetime = timeout })

retain_live_qr_shown :
    (s : Pairings) (p now : ℕ) (code : String) (timeout : ℕ)
    → (retain_live_qr s now p code timeout).1 ≡ true
    → timeout ≢ 0
    → (retain_live_qr s now p code timeout).0 ≡ with_qr s now p code timeout
      × ((code == "") ≡ false)
      × (now < emitted_at (s.pairing_of p) now + timeout)
retain_live_qr_shown s p now code timeout h ne = elim (Bool-cases (code == "" || timeout == 0)) [
  | inl g ↦ absurd (ground (arith, nat_Eq.same_iff timeout 0))
  | inr g ↦ (rw g refl, ground arith, ltb→lt _ _ (ground arith))
]

retain_qr_live :
    (s : Pairings) (k : String) (p now : ℕ) (code : String) (timeout : ℕ)
    → lookup k s.pairings ≡ some p
    → retain_qr s now k p code timeout ≡ retain_live_qr s now p code timeout
unfolding retain_qr
retain_qr_live s k p now code timeout e = rw (e, ==-refl p) refl

-- A request for the pairing that is in progress, with the options of the pairing.
joins :
    (s : Pairings) (k : String) (p now : ℕ) (pairing : Pairing)
    → lookup k s.pairings ≡ some p
    → s.pairing_of p ≡ pairing
    → pairing.phone ≡ ""
    → (begin_pairing s now k pairing.import_history "").1
      ≡ joined (updates_of (retained pairing now))
unfolding begin_pairing
joins s k p now pairing e f g = rw e (rw f (simp (g, same pairing.import_history)))
  where
    same : (b : Bool) → xor b b ≡ false
    same true = refl
    same false = refl

retained_qr :
    (p : Pairing) (now : ℕ)
    → p.phone ≡ ""
    → (p.qr == "") ≡ false
    → retained p now ≡ (if ltb now (p.emitted + p.lifetime) then some (shows_qr p.qr) else none)
unfolding retained valid_qr
retained_qr p now e g = ground (arith, string_Eq.same_iff p.phone "")

-- A QR code with a positive timeout that a channel's pairing shows is what a request that joins the
-- pairing gets at that time, and from the code's timeout on such a request gets no code.
pub shown_qr_is_joined :
    (s : Pairings) (k : String) (p now late : ℕ) (code : String) (timeout : ℕ)
    → lookup k s.pairings ≡ some p
    → (s.pairing_of p).phone ≡ ""
    → (retain_qr s now k p code timeout).1 ≡ true
    → timeout ≢ 0
    → now + timeout ≤ late
    → let after = (retain_qr s now k p code timeout).0 in
      let import_history = (s.pairing_of p).import_history in
      ((begin_pairing after now k import_history "").1 ≡ joined (shows_qr code ∷ []))
      × ((begin_pairing after late k import_history "").1 ≡ joined [])
shown_qr_is_joined s k p now late code timeout e f h ne le =
    let pairing : Pairing = record (s.pairing_of p) {
      qr = code;
      emitted = emitted_at (s.pairing_of p) now;
      lifetime = timeout;
    } in
    let after = with_qr s now p code timeout in
    let (live, full, fresh) =
      retain_live_qr_shown s p now code timeout
        (subst (λ r. r.1 ≡ true) (retain_qr_live s k p now code timeout e) h) ne in
    let written : (retain_qr s now k p code timeout).0 ≡ after =
      ap (λ r. r.0) (retain_qr_live s k p now code timeout e) ∙ live in
    let at : after.pairing_of p ≡ pairing = rw (==-refl p) refl in
    let bound = emitted_at-le (s.pairing_of p) now in
    rw written (
      joins after k p now pairing e at f
          ∙ ap (λ u. joined (updates_of u)) (retained_qr pairing now f full)
          ∙ ground (arith, ltb→lt now (emitted_at (s.pairing_of p) now + timeout)),
      joins after k p late pairing e at f
          ∙ ap (λ u. joined (updates_of u)) (retained_qr pairing late f full)
          ∙ ground arith,
    )
