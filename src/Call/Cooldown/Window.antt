-- ===== src/Call/Cooldown/Window.antt =====
-- Within the window of an answer, the `Cooldown` of internal/call/autoreply.go allows no second one.
use whatsmeow_gateway.Base.{
  ℕ, ◌+◌, ◌-◌, ◌≤◌, ◌<◌, String, List, [], ◌∷◌, true, false, Option, none, some, lookup, insert,
  retain, string_Eq, ◌≡◌, ◌≢◌, refl, sym, ap, ◌∙◌, subst, arith, inl, inr, All, contains,
  Bool-cases, lookup-insert, lookup-delete, lookup-retain,
}
use whatsmeow_gateway.Call.Cooldown.{
  Held, Reservation, Cooldown, cooldown_keys, is_within, any_cooling, hold_all, allow_keys,
  allow_some, allow, release_key, release_keys, release,
}

-- What happens to the cooldown.
pub data Use : Type 0 where
  asks : ℕ → String → List String → Use
  releases : Reservation → Use

abbrev pub use_once : Use → Cooldown → Cooldown
use_once (asks now channel_id callers) c = (allow now channel_id callers c).1
use_once (releases held) c = release held c

abbrev pub use_all : List Use → Cooldown → Cooldown
use_all [] c = c
use_all (u ∷ us) c = use_all us (use_once u c)

-- The use comes within the window that began at `start`, and does not give back the reservation.
abbrev pub Leaves : ℕ → ℕ → ℕ → Use → Type 0
Leaves window start token (asks now channel_id callers) = (now - start) < window
Leaves window start token (releases held) = held.token ≢ token

-- The key is held since `start` by the reservation.
abbrev Keeps : ℕ → ℕ → ℕ → String → Cooldown → Type 0
Keeps window start token key c =
    (lookup key c.last ≡ some (record { at = start; token = token }))
    × (token ≤ c.counter)
    × (c.window ≡ window)

hold_all-other :
    (keys : List String) (held : Held) (key : String) (last : List (String × Held))
    → contains key keys ≡ false
    → lookup key (hold_all keys held last) ≡ lookup key last
hold_all-other [] held key last e = refl
hold_all-other (k ∷ keys) held key last e =
    hold_all-other keys held key (insert k held last) (ground (arith, e))
    ∙ lookup-insert k key held last
    ∙ (ground (arith, e))

hold_all-found :
    (keys : List String) (held : Held) (key : String) (last : List (String × Held))
    → contains key keys ≡ true
    → lookup key (hold_all keys held last) ≡ some held
hold_all-found [] held key last e = absurd (cc e)
hold_all-found (k ∷ keys) held key last e = elim (Bool-cases (contains key keys)) [
  | inl f ↦ hold_all-found keys held key (insert k held last) f
  | inr f ↦
      hold_all-other keys held key (insert k held last) f
      ∙ lookup-insert k key held last
      ∙ (ground (arith, e, f))
]

any_cooling-found :
    (keys : List String) (key : String) (held : Held) (last : List (String × Held))
    → lookup key last ≡ some held
    → contains key keys ≡ true
    → any_cooling keys last ≡ true
any_cooling-found [] key held last e f = absurd (cc f)
any_cooling-found (k ∷ keys) key held last e f =
    ground (arith, e, f, string_Eq.same_iff k key, any_cooling-found keys key held last)

release_key-other :
    (token : ℕ) (k key : String) (held : Held) (last : List (String × Held))
    → held.token ≢ token
    → lookup key last ≡ some held
    → lookup key (release_key token k last) ≡ some held
release_key-other token k key held last other e =
    ground (arith, other, e, string_Eq.same_iff k key, lookup-delete k key last)

release_keys-other :
    (token : ℕ) (keys : List String) (key : String) (held : Held) (last : List (String × Held))
    → held.token ≢ token
    → lookup key last ≡ some held
    → lookup key (release_keys token keys last) ≡ some held
release_keys-other token [] key held last other e = e
release_keys-other token (k ∷ keys) key held last other e =
    release_keys-other token keys key held (release_key token k last) other
      (release_key-other token k key held last other e)

kept-found :
    (window start token now : ℕ) (key : String) (c : Cooldown)
    → now - start < window
    → Keeps window start token key c
    → lookup key (retain (is_within c.window now) c.last)
      ≡ some (record { at = start; token = token })
kept-found window start token now key c soon (e, le, w) =
    lookup-retain (is_within c.window now) key c.last ∙ (rw e (ground (arith, soon, w)))

allow_keys-Keeps :
    (window start token now : ℕ) (keys : List String) (key : String) (c : Cooldown)
    → now - start < window
    → Keeps window start token key c
    → Keeps window start token key (allow_keys now keys c).1
allow_keys-Keeps window start token now keys key c soon (e, le, w) =
    let found = kept-found window start token now key c soon (e, le, w) in
    let kept = retain (is_within c.window now) c.last in
    let mine : Held = record { at = now; token = c.counter + 1 } in
    elim (Bool-cases (any_cooling keys kept)) [
      | inl f ↦ rw f (found, le, w)
      | inr f ↦ rw f (elim (Bool-cases (contains key keys)) [
        | inl g ↦ absurd (cc (any_cooling-found keys key _ kept found g, f))
        | inr g ↦ (hold_all-other keys mine key kept g ∙ found, omega (arith, le), w)
      ])
    ]

allow_some-Keeps :
    (window start token now : ℕ) (keys : List String) (key : String) (c : Cooldown)
    → now - start < window
    → Keeps window start token key c
    → Keeps window start token key (allow_some now keys c).1
allow_some-Keeps window start token now [] key c soon kept = kept
allow_some-Keeps window start token now (k ∷ keys) key c soon kept =
    allow_keys-Keeps window start token now (k ∷ keys) key c soon kept

allow_some-cooling :
    (window start token now : ℕ) (keys : List String) (key : String) (c : Cooldown)
    → now - start < window
    → contains key keys ≡ true
    → Keeps window start token key c
    → (allow_some now keys c).0 ≡ none
allow_some-cooling window start token now [] key c soon f kept = refl
allow_some-cooling window start token now (k ∷ keys) key c soon f kept =
    rw
      (any_cooling-found (k ∷ keys) key _ (retain (is_within c.window now) c.last)
        (kept-found window start token now key c soon kept) f)
      refl

use_once-Keeps :
    (window start token : ℕ) (key : String) (u : Use) (c : Cooldown)
    → Leaves window start token u
    → Keeps window start token key c
    → Keeps window start token key (use_once u c)
unfolding allow release
use_once-Keeps window start token key (asks now channel_id callers) c soon kept =
    allow_some-Keeps window start token now (cooldown_keys channel_id callers) key c soon kept
use_once-Keeps window start token key (releases held) c other (e, le, w) = (
  release_keys-other held.token held.keys key (record { at = start; token = token }) c.last
      (λ h. other (sym h)) e,
  le,
  w,
)

use_all-Keeps :
    (window start token : ℕ) (key : String) (us : List Use) (c : Cooldown)
    → All (Leaves window start token) us
    → Keeps window start token key c
    → Keeps window start token key (use_all us c)
use_all-Keeps window start token key [] c hs kept = kept
use_all-Keeps window start token key (u ∷ us) c (h, hs) kept =
    use_all-Keeps window start token key us (use_once u c) hs
      (use_once-Keeps window start token key u c h kept)

-- The reservation that is given out is held from then on.
allow_some-holds :
    (start : ℕ) (keys : List String) (key : String) (c : Cooldown) (r : Reservation)
    → (allow_some start keys c).0 ≡ some r
    → contains key r.keys ≡ true
    → Keeps c.window start r.token key (allow_some start keys c).1
allow_some-holds start [] key c r e f = absurd (cc e)
allow_some-holds start (k ∷ keys) key c r e f =
    elim (Bool-cases (any_cooling (k ∷ keys) (retain (is_within c.window start) c.last))) [
      | inl g ↦ absurd (cc (simp g at e))
      | inr g ↦ rw g (holds (simp g at e))
    ]
  where
    holds :
        some (record { keys = k ∷ keys; token = c.counter + 1 }) ≡ some r
        → Keeps c.window start r.token key (record c {
          last =
              hold_all
                (k ∷ keys)
                (record { at = start; token = c.counter + 1 })
                (retain (is_within c.window start) c.last);
          counter = c.counter + 1;
        })
    holds e =
        let token =
          ap {B = ℕ} (λ (o : Option Reservation). elim o [ none ↦ 0 | some x ↦ x.token ]) e in
        let keys_same =
          ap {B = List String} (λ (o : Option Reservation). elim o [ none ↦ [] | some x ↦ x.keys ])
            e in
        (
          hold_all-found (k ∷ keys) (record { at = start; token = c.counter + 1 }) key
                (retain (is_within c.window start) c.last)
                (subst (λ l. contains key l ≡ true) (sym keys_same) f)
              ∙ ap (λ n. some (record { at = start; token = n })) token,
          omega (arith, token),
          refl,
        )

-- A caller is answered once in a window: after a reservation that holds a key, whatever is asked
-- within the window and whichever other reservations are given back, a request within the window
-- for that key is refused.
pub allow-once :
    (start now : ℕ) (channel_id other_channel : String) (callers others : List String)
    (key : String) (us : List Use) (c : Cooldown) (r : Reservation)
    → (allow start channel_id callers c).0 ≡ some r
    → contains key r.keys ≡ true
    → contains key (cooldown_keys other_channel others) ≡ true
    → All (Leaves c.window start r.token) us
    → now - start < c.window
    → (allow now other_channel others (use_all us (allow start channel_id callers c).1)).0 ≡ none
unfolding allow
allow-once start now channel_id other_channel callers others key us c r e f g hs soon =
    allow_some-cooling c.window start r.token now (cooldown_keys other_channel others) key _ soon g
      (use_all-Keeps c.window start r.token key us _ hs
        (allow_some-holds start (cooldown_keys channel_id callers) key c r e f))
