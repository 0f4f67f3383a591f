-- ===== src/Call/Cooldown.antt =====
-- The `Cooldown` of internal/call/autoreply.go: a caller is answered once in a window of time.
pub mod Window
use whatsmeow_gateway.Base.{
  ℕ, ◌+◌, ◌-◌, String, ◌<>◌, List, [], ◌∷◌, Bool, true, false, not, Option, none, some, lookup,
  insert, delete, retain, string_Eq, nat_eq, ◌==◌, ltb, if◌then◌else◌,
}

-- `reservation`; the time is that of the clock, which does not go back.
pub record Held : Type 0 where
  pub at : ℕ
  pub token : ℕ

-- `Reservation`.
pub record Reservation : Type 0 where
  pub keys : List String
  pub token : ℕ

pub record Cooldown : Type 0 where
  pub window : ℕ
  pub last : List (String × Held)
  pub counter : ℕ

abbrev pub new_cooldown : ℕ → Cooldown
new_cooldown window = record { window = window; last = []; counter = 0 }

-- `cooldownKeys`.
abbrev pub cooldown_keys : String → List String → List String
cooldown_keys channel_id [] = []
cooldown_keys channel_id (caller ∷ callers) =
    if caller == ""
    then cooldown_keys channel_id callers
    else (channel_id <> "|" <> caller) ∷ cooldown_keys channel_id callers

abbrev pub is_within : ℕ → ℕ → Held → Bool
is_within window now held = ltb (now - held.at) window

abbrev pub any_cooling : List String → List (String × Held) → Bool
any_cooling [] last = false
any_cooling (key ∷ keys) last = elim (lookup key last) [
  | none ↦ any_cooling keys last
  | some held ↦ true
]

abbrev pub hold_all : List String → Held → List (String × Held) → List (String × Held)
hold_all [] held last = last
hold_all (key ∷ keys) held last = hold_all keys held (insert key held last)

-- `Allow` for keys that are there.
abbrev pub allow_keys : ℕ → List String → Cooldown → Option Reservation × Cooldown
allow_keys now keys c =
    let kept = retain (is_within c.window now) c.last in
    let token = c.counter + 1 in
    if any_cooling keys kept then (none, record c { last = kept }) else (
      some (record { keys = keys; token = token }),
      record c { last = hold_all keys (record { at = now; token = token }) kept; counter = token },
    )

abbrev pub allow_some : ℕ → List String → Cooldown → Option Reservation × Cooldown
allow_some now [] c = (none, c)
allow_some now (key ∷ keys) c = allow_keys now (key ∷ keys) c

-- `Allow`.
unfoldable pub allow : ℕ → String → List String → Cooldown → Option Reservation × Cooldown
allow now channel_id callers c = allow_some now (cooldown_keys channel_id callers) c

abbrev pub release_key : ℕ → String → List (String × Held) → List (String × Held)
release_key token key last = elim (lookup key last) [
  | none ↦ last
  | some current ↦ if nat_eq current.token token then delete key last else last
]

abbrev pub release_keys : ℕ → List String → List (String × Held) → List (String × Held)
release_keys token [] last = last
release_keys token (key ∷ keys) last = release_keys token keys (release_key token key last)

-- `Release`.
unfoldable pub release : Reservation → Cooldown → Cooldown
release held c = record c { last = release_keys held.token held.keys c.last }
