-- ===== src/Session/Silence/Removed.antt =====
-- internal/session/manager.go: nothing is heard of the client of a channel that was removed.
use whatsmeow_gateway.Base.{
  ℕ, ◌<◌, String, Bool, true, false, ◌≡◌, ◌≢◌, refl, inl, inr, List, [], ◌∷◌, Option, none, some,
  arith, string_Eq, nat_Eq, ==-refl, lookup, lookup-insert, lookup-delete, Bool-cases, ◌==◌, subst,
  sym,
}
use whatsmeow_gateway.Session.{
  Manager, Effect, Event, Answer, logout, emit, drop, register, muted_flag, store_flag, new_client,
  new_manager, note, is_session, remove,
}
use whatsmeow_gateway.Session.Silence.{Use, run}
use whatsmeow_gateway.Session.Silence.Changes.{
  Change, writes, registers, frees, mutes, unmutes, clears, set_muted, run-keeps,
}
use whatsmeow_gateway.Session.Silence.Registered.{IsSound, run-IsSound}

module _ (k : String) (flag c : ℕ) where
  -- The client's handler reads a flag that is set, and that no channel has.
  abbrev IsDeaf : Manager → Type 0
  IsDeaf m =
      (lookup c m.listeners ≡ some (k, flag))
      × (lookup flag m.flags ≡ some true)
      × ((j : String) → lookup j m.muted ≢ some flag)
      × (flag < m.flags_made)
      × (c < m.clients_made)

  register-IsDeaf :
      (m : Manager) (i : String) → IsDeaf m → IsDeaf (register (new_client m) i m.clients_made)
  unfolding register
  register-IsDeaf m i (a, b, free, lt, c_lt) = (
    ground (
      arith,
      lookup-insert m.clients_made c (i, m.flags_made) m.listeners,
      nat_Eq.same_iff m.clients_made c,
    ),
    ground
        (arith, lookup-insert m.flags_made flag false m.flags, nat_Eq.same_iff m.flags_made flag),
    λ j e. ground (arith, lookup-insert i j m.flags_made m.muted, free j),
    omega arith,
    omega arith,
  )

  drop-IsDeaf : (m : Manager) (i : String) (d : ℕ) → IsDeaf m → IsDeaf (drop m i d)
  unfolding drop
  drop-IsDeaf m i d deaf = elim (Bool-cases (is_session m i d)) [
    | inl h ↦ rw h (
      deaf.0,
      deaf.1,
      λ j e. deaf.2 j (ground (arith, lookup-delete i j m.muted)),
      deaf.3,
      deaf.4,
    )
    | inr h ↦ rw h deaf
  ]

  muted_flag-IsDeaf : (m : Manager) (i : String) (d : ℕ) → IsDeaf m → IsDeaf (muted_flag m i d).0
  unfolding muted_flag
  muted_flag-IsDeaf m i d deaf = elim (Bool-cases (is_session m i d)) [
    | inl h ↦ rw h deaf
    | inr h ↦ rw h (
      deaf.0,
      ground
          (arith, lookup-insert m.flags_made flag false m.flags, nat_Eq.same_iff m.flags_made flag),
      deaf.2,
      omega arith,
      deaf.4,
    )
  ]

  muted_flag-other :
      (m : Manager) (i : String) (d : ℕ) → IsDeaf m → (muted_flag m i d).1 ≢ some flag
  unfolding muted_flag
  muted_flag-other m i d deaf e = elim (Bool-cases (is_session m i d)) [
    | inl h ↦ deaf.2 i (ground arith)
    | inr h ↦ ground (arith, deaf.3)
  ]

  store_flag-IsDeaf :
      (m : Manager) (o : Option ℕ) (b : Bool) → IsDeaf m → o ≢ some flag → IsDeaf (store_flag m o b)
  store_flag-IsDeaf m none b deaf ne = deaf
  store_flag-IsDeaf m (some f) b deaf ne = (
    deaf.0,
    ground (arith, lookup-insert f flag b m.flags, nat_Eq.same_iff f flag, deaf.1),
    deaf.2,
    deaf.3,
    deaf.4,
  )

  set_muted-IsDeaf :
      (m : Manager) (i : String) (d : ℕ) (l : List Effect) → IsDeaf m → IsDeaf (set_muted m i d l)
  set_muted-IsDeaf m i d l deaf =
      store_flag-IsDeaf (muted_flag m i d).0 (muted_flag m i d).1 true
        (muted_flag-IsDeaf m i d deaf) (muted_flag-other m i d deaf)

  Change-IsDeaf : (m n : Manager) → Change m n → IsDeaf m → IsDeaf n
  unfolding lookup
  Change-IsDeaf m n (writes hs us l) deaf = deaf
  Change-IsDeaf m n (registers i e) deaf = register-IsDeaf m i deaf
  Change-IsDeaf m n (frees i d) deaf = drop-IsDeaf m i d deaf
  Change-IsDeaf m n (mutes i d l) deaf = set_muted-IsDeaf m i d l deaf
  Change-IsDeaf m n (unmutes i d l) deaf =
      store_flag-IsDeaf (set_muted m i d l) (muted_flag m i d).1 false
        (set_muted-IsDeaf m i d l deaf) (muted_flag-other m i d deaf)
  Change-IsDeaf m n (clears l) deaf = (deaf.0, deaf.1, λ j e. absurd (ground arith), deaf.3, deaf.4)

  emit_deaf : (m : Manager) (e : Event) → IsDeaf m → emit m c e ≡ (m, [])
  unfolding emit
  emit_deaf m e deaf = rw (deaf.0, deaf.1) refl

  set_muted_session :
      (m : Manager) (l : List Effect)
      → lookup k m.sessions ≡ some c
      → lookup k m.muted ≡ some flag
      → set_muted m k c l ≡ note (store_flag m (some flag) true) l
  unfolding muted_flag
  set_muted_session m l e g = rw (e, ==-refl c, g) refl

  flagged-IsDeaf :
      (m : Manager) (l : List Effect)
      → IsSound m
      → lookup k m.sessions ≡ some c
      → lookup k m.muted ≡ some flag
      → IsDeaf (drop (note (store_flag m (some flag) true) l) k c)
  unfolding drop
  flagged-IsDeaf m l sound e g =
      let (kept, same, heard, lt, kept_lt) = sound.0.0 k c e in
      rw (e, ==-refl c)
        (
          ground arith,
          ground (arith, lookup-insert flag flag true m.flags, ==-refl flag),
          λ j h. elim (Bool-cases (k == j)) [
            | inl o ↦ ground (arith, lookup-delete k j m.muted)
            | inr o ↦
                let shared = sound.1 j k flag (ground (arith, lookup-delete k j m.muted)) g in
                ground (arith, string_Eq.same_iff k j)
          ],
          ground arith,
          lt,
        )

  removed-IsDeaf :
      (m : Manager) (l : List Effect)
      → IsSound m
      → lookup k m.sessions ≡ some c
      → lookup k m.muted ≡ some flag
      → IsDeaf (drop (set_muted m k c l) k c)
  removed-IsDeaf m l sound e g =
      subst (λ n. IsDeaf (drop n k c)) (sym (set_muted_session m l e g))
        (flagged-IsDeaf m l sound e g)

pub remove-silences :
    (before after : List Use) (k : String) (c : ℕ) (logs_out : Answer) (event : Event)
    → lookup k (run new_manager before).sessions ≡ some c
    → let m = run (remove (run new_manager before) k logs_out).0 after in emit m c event ≡ (m, [])
unfolding remove
remove-silences before after k c logs_out event e =
    let m = run new_manager before in
    let sound = run-IsSound before in
    let (flag, kept, _, _, _) = sound.0.0 k c e in
    rw e (
      emit_deaf k flag c _ event (
        run-keeps (IsDeaf k flag c) (Change-IsDeaf k flag c)
          (drop (set_muted m k c (logout c ∷ [])) k c) after
          (removed-IsDeaf k flag c m (logout c ∷ []) sound e kept)))
