-- ===== src/Session/Silence/Registered.antt =====
-- internal/session/manager.go: each channel's client hears through the channel's own mute flag.
use whatsmeow_gateway.Base.{
  ℕ, ◌<◌, String, ◌≡◌, refl, inl, inr, List, some, arith, string_Eq, nat_Eq, ==-refl, ◌==◌, lookup,
  lookup-insert, lookup-delete, Bool-cases, Bool, true, false, Option, none, ◌∙◌, ◌≢◌, ◌⊎◌,
}
use whatsmeow_gateway.Session.{
  Manager, Effect, note, store_flag, drop, register, muted_flag, new_client, new_manager,
  is_session,
}
use whatsmeow_gateway.Session.Silence.{Use, run}
use whatsmeow_gateway.Session.Silence.Changes.{
  Change, writes, registers, frees, mutes, unmutes, clears, set_muted, set_heard, run-keeps,
}

-- A channel's client, its flag, and what the client's handler was given.
abbrev pub HasFlag : Manager → String → ℕ → Type 0
HasFlag m k c =
    (flag : ℕ) × (lookup k m.muted ≡ some flag)
    × (lookup c m.listeners ≡ some (k, flag))
    × (c < m.clients_made)
    × (flag < m.flags_made)

abbrev pub IsWired : Manager → Type 0
IsWired m =
    ((k : String) (c : ℕ) → lookup k m.sessions ≡ some c → HasFlag m k c)
    × ((k : String) (flag : ℕ)
        → lookup k m.muted ≡ some flag
        → (c : ℕ) × (lookup k m.sessions ≡ some c))

register-HasFlag :
    (m : Manager) (k j : String) (c : ℕ)
    → IsWired m
    → lookup j (register (new_client m) k m.clients_made).sessions ≡ some c
    → HasFlag (register (new_client m) k m.clients_made) j c
unfolding register
register-HasFlag m k j c w e = elim (Bool-cases (k == j)) [
  | inl h ↦ (
    m.flags_made,
    ground (arith, lookup-insert k j m.flags_made m.muted),
    ground (
      arith,
      lookup-insert k j m.clients_made m.sessions,
      lookup-insert m.clients_made c (k, m.flags_made) m.listeners,
      string_Eq.same_iff k j,
      nat_Eq.same_iff m.clients_made c,
    ),
    ground (arith, lookup-insert k j m.clients_made m.sessions),
    omega arith,
  )
  | inr h ↦
      let (flag, a, b, lt, flag_lt) =
        w.0 j c (ground (arith, lookup-insert k j m.clients_made m.sessions)) in
      (
        flag,
        ground (arith, lookup-insert k j m.flags_made m.muted),
        ground (
          arith,
          lookup-insert m.clients_made c (k, m.flags_made) m.listeners,
          nat_Eq.same_iff m.clients_made c,
        ),
        omega arith,
        omega arith,
      )
]

register-muted :
    (m : Manager) (k j : String) (flag : ℕ)
    → IsWired m
    → lookup j (register (new_client m) k m.clients_made).muted ≡ some flag
    → (c : ℕ) × (lookup j (register (new_client m) k m.clients_made).sessions ≡ some c)
unfolding register
register-muted m k j flag w e = elim (Bool-cases (k == j)) [
  | inl h ↦ (m.clients_made, ground (arith, lookup-insert k j m.clients_made m.sessions))
  | inr h ↦
      let (c, a) = w.1 j flag (ground (arith, lookup-insert k j m.flags_made m.muted)) in
      (c, ground (arith, lookup-insert k j m.clients_made m.sessions))
]

drop-IsWired : (m : Manager) (k : String) (c : ℕ) → IsWired m → IsWired (drop m k c)
unfolding drop
drop-IsWired m k c w = elim (Bool-cases (is_session m k c)) [
  | inl h ↦ rw h (
    λ j d e.
        let (flag, a, b, lt, flag_lt) = w.0 j d (ground (arith, lookup-delete k j m.sessions)) in
        (
          flag,
          ground (arith, lookup-delete k j m.muted, lookup-delete k j m.sessions),
          b,
          lt,
          flag_lt,
        ),
    λ j flag e.
        let (d, a) = w.1 j flag (ground (arith, lookup-delete k j m.muted)) in
        (d, ground (arith, lookup-delete k j m.sessions, lookup-delete k j m.muted)),
  )
  | inr h ↦ rw h w
]

-- Taking the flag of a client only ever makes more flags.
muted_flag-IsWired : (m : Manager) (k : String) (c : ℕ) → IsWired m → IsWired (muted_flag m k c).0
unfolding muted_flag
muted_flag-IsWired m k c w = elim (Bool-cases (is_session m k c)) [
  | inl h ↦ rw h w
  | inr h ↦
      rw h
        (λ j d e. let (flag, a, b, lt, flag_lt) = w.0 j d e in (flag, a, b, lt, omega arith), w.1)
]

store_flag-IsWired :
    (m : Manager) (flag : Option ℕ) (b : Bool) → IsWired m → IsWired (store_flag m flag b)
store_flag-IsWired m none b w = w
store_flag-IsWired m (some flag) b w = w

Change-IsWired : (m n : Manager) → Change m n → IsWired m → IsWired n
unfolding lookup
Change-IsWired m n (writes hs us l) w = w
Change-IsWired m n (registers k e) w =
    (λ j c. register-HasFlag m k j c w, λ j flag. register-muted m k j flag w)
Change-IsWired m n (frees k c) w = drop-IsWired m k c w
Change-IsWired m n (mutes k c l) w =
    store_flag-IsWired (muted_flag m k c).0 (muted_flag m k c).1 true (muted_flag-IsWired m k c w)
Change-IsWired m n (unmutes k c l) w =
    let (flagged, flag) = muted_flag m k c in
    store_flag-IsWired (note (store_flag flagged flag true) l) flag false
      (store_flag-IsWired flagged flag true (muted_flag-IsWired m k c w))
Change-IsWired m n (clears l) w =
    (λ j d e. absurd (ground arith), λ j flag e. absurd (ground arith))

-- Two channels never share a flag.
abbrev pub IsUnshared : Manager → Type 0
IsUnshared m =
    (j k : String) (flag : ℕ) → lookup j m.muted ≡ some flag → lookup k m.muted ≡ some flag → j ≡ k

muted-lt :
    (m : Manager) (k : String) (flag : ℕ)
    → IsWired m
    → lookup k m.muted ≡ some flag
    → flag < m.flags_made
muted-lt m k flag w e =
    let (c, a) = w.1 k flag e in let (kept, b, d, lt, kept_lt) = w.0 k c a in ground arith

register-IsUnshared :
    (m : Manager) (k : String)
    → IsWired m
    → IsUnshared m
    → IsUnshared (register (new_client m) k m.clients_made)
unfolding register
register-IsUnshared m k w alone i j flag a b = elim (Bool-cases (k == i)) [
  | inl h ↦ elim (Bool-cases (k == j)) [
    | inl g ↦ ground (arith, string_Eq.same_iff k i, string_Eq.same_iff k j)
    | inr g ↦ absurd (
        ground (
          arith,
          lookup-insert k i m.flags_made m.muted,
          lookup-insert k j m.flags_made m.muted,
          muted-lt m j flag w,
        ))
  ]
  | inr h ↦ elim (Bool-cases (k == j)) [
    | inl g ↦ absurd (
        ground (
          arith,
          lookup-insert k i m.flags_made m.muted,
          lookup-insert k j m.flags_made m.muted,
          muted-lt m i flag w,
        ))
    | inr g ↦
        alone i j flag (ground (arith, lookup-insert k i m.flags_made m.muted))
          (ground (arith, lookup-insert k j m.flags_made m.muted))
  ]
]

drop-IsUnshared : (m : Manager) (k : String) (c : ℕ) → IsUnshared m → IsUnshared (drop m k c)
unfolding drop
drop-IsUnshared m k c alone = elim (Bool-cases (is_session m k c)) [
  | inl h ↦ rw h (λ i j flag a b.
      alone i j flag (ground (arith, lookup-delete k i m.muted))
        (ground (arith, lookup-delete k j m.muted)))
  | inr h ↦ rw h alone
]

muted_flag-muted : (m : Manager) (k : String) (c : ℕ) → (muted_flag m k c).0.muted ≡ m.muted
unfolding muted_flag
muted_flag-muted m k c = ground arith

store_flag-muted :
    (m : Manager) (flag : Option ℕ) (b : Bool) → (store_flag m flag b).muted ≡ m.muted
store_flag-muted m none b = refl
store_flag-muted m (some flag) b = refl

set_muted-muted :
    (m : Manager) (k : String) (c : ℕ) (l : List Effect) → (set_muted m k c l).muted ≡ m.muted
set_muted-muted m k c l =
    store_flag-muted (muted_flag m k c).0 (muted_flag m k c).1 true ∙ muted_flag-muted m k c

set_heard-muted :
    (m : Manager) (k : String) (c : ℕ) (l : List Effect) → (set_heard m k c l).muted ≡ m.muted
set_heard-muted m k c l =
    store_flag-muted (set_muted m k c l) (muted_flag m k c).1 false ∙ set_muted-muted m k c l

abbrev pub IsSound : Manager → Type 0
IsSound m = IsWired m × IsUnshared m

pub Change-IsSound : (m n : Manager) → Change m n → IsSound m → IsSound n
unfolding lookup
Change-IsSound m n change sound = (Change-IsWired m n change sound.0, unshared change)
  where
    unshared : {o : Manager} → Change m o → IsUnshared o
    unshared (writes hs us l) = sound.1
    unshared (registers k e) = register-IsUnshared m k sound.0 sound.1
    unshared (frees k c) = drop-IsUnshared m k c sound.1
    unshared (mutes k c l) = λ i j flag. rw (set_muted-muted m k c l) (sound.1 i j flag)
    unshared (unmutes k c l) = λ i j flag. rw (set_heard-muted m k c l) (sound.1 i j flag)
    unshared (clears l) = λ i j flag a b. absurd (ground arith)

pub run-IsSound : (us : List Use) → IsSound (run new_manager us)
unfolding lookup
run-IsSound us = run-keeps IsSound Change-IsSound new_manager us (
  (λ k c e. absurd (ground arith), λ k c e. absurd (ground arith)),
  λ i j flag a b. absurd (ground arith),
)

-- After any operations, the client of a channel hears through the flag that the manager has for the
-- channel, and no other channel has the client or the flag.
pub client_hears_own_flag :
    (us : List Use) (k : String) (c : ℕ)
    → let m = run new_manager us in
      lookup k m.sessions ≡ some c
      → (flag : ℕ) × (lookup k m.muted ≡ some flag)
        × (lookup c m.listeners ≡ some (k, flag))
        × ((j : String)
            → (j ≡ k) ⊎ ((lookup j m.sessions ≢ some c) × (lookup j m.muted ≢ some flag)))
client_hears_own_flag us k c e =
    let (wired, unshared) = run-IsSound us in
    let (flag, a, b, _, _) = wired.0 k c e in
    (
      flag,
      a,
      b,
      λ j. elim (Bool-cases (j == k)) [
        | inl h ↦ inl (ground (arith, string_Eq.same_iff j k))
        | inr h ↦ inr (
          λ g. let (other_flag, _, d, _, _) = wired.0 j c g in ground (arith, ==-refl j),
          λ g. let same = unshared j k flag g a in ground (arith, ==-refl j),
        )
      ],
    )
