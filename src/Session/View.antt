-- ===== src/Session/View.antt =====
-- internal/session/manager.go: what the manager promises of the clients that channels have, when
-- mute flags, event handlers and the asking of clients are forgotten.
use mathlib.Core.Path.{fun_ext}
use whatsmeow_gateway.Base.{
  ℕ, ◌+◌, String, Bool, true, false, ◌≡◌, refl, inl, inr, List, [], ◌∷◌, Option, none, some, arith,
  string_Eq, nat_Eq, lookup, lookup-insert, lookup-delete, Bool-cases, ◌==◌, if◌then◌else◌, ◌∙◌,
  subst, sym,
}
use whatsmeow_gateway.Session.{
  Manager, Effect, drop, register, muted_flag, store_flag, is_session, is_some,
}
use whatsmeow_gateway.Session.Silence.{Use, apply, run}
use whatsmeow_gateway.Session.Silence.Changes.{
  Change, Changes, here, next, writes, registers, frees, mutes, unmutes, clears, set_muted,
  set_heard, apply-Changes,
}

-- The abstract state: who has which client, and the next client.
pub record Channels : Type 0 where
  pub client_of : String → Option ℕ
  pub next_client : ℕ

abbrev pub view : Manager → Channels
view m = record { client_of = λ k. lookup k m.sessions; next_client = m.clients_made }

abbrev pub set_client : (String → Option ℕ) → String → Option ℕ → String → Option ℕ
set_client f k o j = if k == j then o else f j

-- What may happen to the abstract state: a channel without a client takes the next one, a channel
-- gives up the client that it has, and all channels lose theirs.
pub data Move (s : Channels) (after : Channels) : Type 0 where
  claims :
      (k : String)
      → s.client_of k ≡ none
      → after.client_of ≡ set_client s.client_of k (some s.next_client)
      → after.next_client ≡ s.next_client + 1
      → Move s after
  gives_up :
      (k : String) (c : ℕ)
      → s.client_of k ≡ some c
      → after.client_of ≡ set_client s.client_of k none
      → after.next_client ≡ s.next_client
      → Move s after
  closes : after.client_of ≡ (λ k. none) → after.next_client ≡ s.next_client → Move s after

pub data Moves (s : Channels) : Channels → Type 0 where
  stays : Moves s s
  moves : {t u : Channels} → Moves s t → Move t u → Moves s u

drop-Moves :
    (s : Channels) (m : Manager) (k : String) (c : ℕ)
    → Moves s (view m)
    → Moves s (view (drop m k c))
unfolding drop
drop-Moves s m k c h = elim (Bool-cases (is_session m k c)) [
  | inl e ↦ rw e (
      moves h (
        gives_up k c (own (lookup k m.sessions) e) (fun_ext λ j. lookup-delete k j m.sessions)
          refl))
  | inr e ↦ rw e h
]
  where
    own : (o : Option ℕ) → is_some o c ≡ true → o ≡ some c
    own none g = absurd (ground arith)
    own (some d) g = ground (arith, nat_Eq.same_iff d c)

muted_flag-view : (m : Manager) (k : String) (c : ℕ) → view (muted_flag m k c).0 ≡ view m
unfolding muted_flag
muted_flag-view m k c = elim (Bool-cases (is_session m k c)) [
  | inl e ↦ rw e refl
  | inr e ↦ rw e refl
]

store_flag-view : (m : Manager) (o : Option ℕ) (b : Bool) → view (store_flag m o b) ≡ view m
store_flag-view m none b = refl
store_flag-view m (some flag) b = refl

set_muted-view :
    (m : Manager) (k : String) (c : ℕ) (l : List Effect) → view (set_muted m k c l) ≡ view m
set_muted-view m k c l =
    store_flag-view (muted_flag m k c).0 (muted_flag m k c).1 true ∙ muted_flag-view m k c

set_heard-view :
    (m : Manager) (k : String) (c : ℕ) (l : List Effect) → view (set_heard m k c l) ≡ view m
set_heard-view m k c l =
    store_flag-view (set_muted m k c l) (muted_flag m k c).1 false ∙ set_muted-view m k c l

Change-Moves : (s : Channels) (m n : Manager) → Change m n → Moves s (view m) → Moves s (view n)
unfolding register lookup
Change-Moves s m n (writes hs us l) h = h
Change-Moves s m n (registers k e) h =
    moves h (claims k e (fun_ext λ j. lookup-insert k j m.clients_made m.sessions) refl)
Change-Moves s m n (frees k c) h = drop-Moves s m k c h
Change-Moves s m n (mutes k c l) h = subst (Moves s) (sym (set_muted-view m k c l)) h
Change-Moves s m n (unmutes k c l) h = subst (Moves s) (sym (set_heard-view m k c l)) h
Change-Moves s m n (clears l) h = moves h (closes refl refl)

Changes-Moves : (s : Channels) {m n : Manager} → Changes m n → Moves s (view m) → Moves s (view n)
Changes-Moves s here h = h
Changes-Moves s (next cs c) h = Change-Moves s _ _ c (Changes-Moves s cs h)

run-Moves :
    (s : Channels) (m : Manager) (us : List Use) → Moves s (view m) → Moves s (view (run m us))
unfolding run
run-Moves s m [] h = h
run-Moves s m (u ∷ us) h = run-Moves s (apply m u) us (Changes-Moves s (apply-Changes m u) h)

pub run-refines : (m : Manager) (us : List Use) → Moves (view m) (view (run m us))
run-refines m us = run-Moves (view m) m us stays
