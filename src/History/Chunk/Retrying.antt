-- ===== src/History/Chunk/Retrying.antt =====
-- internal/history/importer.go: what a loop that sends a message until it is confirmed has sent.
use whatsmeow_gateway.Base.{
  ℕ, zero, suc, ◌+◌, String, arith, ◌≡◌, refl, inl, inr, List, [], ◌∷◌, ◌++◌, none, some,
  Bool-cases, Result, ok, err, ap, ◌∙◌, sym, string_Eq,
}
use mathlib.Core.List.{append_assoc, append-nil}
use whatsmeow_gateway.Dedupe.{Answer, clean, refused, lost}
use whatsmeow_gateway.History.Registry.{ImportError, found_import}
use whatsmeow_gateway.History.Chunk.{
  Moment, Outgoing, World, Run, Limits, tick, wait, still_active, publish, publish_active, attempt,
  is_no_import, next_delay, after_attempt, retry,
}

unfoldable pub copies : ℕ → Outgoing → List Outgoing
copies zero out = []
copies (suc n) out = out ∷ copies n out

-- The first list's elements in order, each at least once.
pub data Repeated : List Outgoing → List Outgoing → Type 0 where
  all : Repeated [] []
  once : {o : Outgoing} {os log : List Outgoing} → Repeated os log → Repeated (o ∷ os) (o ∷ log)
  again :
      {o : Outgoing} {os log : List Outgoing} → Repeated (o ∷ os) log → Repeated (o ∷ os) (o ∷ log)

-- The same, up to some point.
pub data Partly : List Outgoing → List Outgoing → Type 0 where
  stops : {os : List Outgoing} → Partly os []
  once : {o : Outgoing} {os log : List Outgoing} → Partly os log → Partly (o ∷ os) (o ∷ log)
  again : {o : Outgoing} {os log : List Outgoing} → Partly (o ∷ os) log → Partly (o ∷ os) (o ∷ log)

pub copies-Repeated :
    (n : ℕ) (o : Outgoing) (os log : List Outgoing)
    → Repeated os log
    → Repeated (o ∷ os) (copies (suc n) o ++ log)
unfolding copies
copies-Repeated zero o os log h = Repeated.once h
copies-Repeated (suc n) o os log h = Repeated.again (copies-Repeated n o os log h)

pub copies-Partly : (n : ℕ) (o : Outgoing) (os : List Outgoing) → Partly (o ∷ os) (copies n o)
unfolding copies
copies-Partly zero o os = Partly.stops
copies-Partly (suc n) o os = Partly.again (copies-Partly n o os)

pub copies-append-Partly :
    (n : ℕ) (o : Outgoing) (os log : List Outgoing)
    → Partly os log
    → Partly (o ∷ os) (copies (suc n) o ++ log)
unfolding copies
copies-append-Partly zero o os log h = Partly.once h
copies-append-Partly (suc n) o os log h = Partly.again (copies-append-Partly n o os log h)

abbrev pub Sent : World → World → List Outgoing → Type 0
Sent w after log = after.published ≡ w.published ++ log

pub Sent-trans :
    (u v w : World) (xs ys : List Outgoing) → Sent u v xs → Sent v w ys → Sent u w (xs ++ ys)
Sent-trans u v w xs ys h k = k ∙ ap (λ l. l ++ ys) h ∙ append_assoc u.published xs ys

pub Sent-none : (w : World) → Sent w w []
Sent-none w = sym (append-nil w.published)

-- A loop that has returned without an error has sent its message, perhaps several times.
abbrev pub Retried : Outgoing → World → Run (Unit {0}) → Type 0
Retried out w none = Unit
Retried out w (some (after, ok _)) = (n : ℕ) × Sent w after (copies (suc n) out)
Retried out w (some (after, err e)) = (n : ℕ) × Sent w after (copies n out)

pub publish-Retried :
    (a : Answer) (w : World) (out : Outgoing) → Retried out w (some (publish a w out))
unfolding copies
publish-Retried clean w out = (0, refl)
publish-Retried refused w out = (0, Sent-none w)
publish-Retried lost w out = (1, refl)

pub attempt-Retried :
    (m : Moment) (import_id : String) (out : Outgoing) (w : World)
    → Retried out w (some (attempt m import_id out w))
unfolding attempt copies
attempt-Retried m import_id out w =
    active (still_active (found_import m.reads m.now (m.others w.table)) import_id)
  where
    start : World
    start = tick (record w { table = m.others w.table })

    active :
        (r : Result ImportError (Unit {0}))
        → Retried out w (some (publish_active r m.broker start out))
    active (err e) = (0, Sent-none w)
    active (ok _) = publish-Retried m.broker start out

pub copies_count : (i j : ℕ) (out : Outgoing) → i ≡ j → copies i out ≡ copies j out
copies_count i j out e = ap (λ x. copies x out) e

pub copies-append : (i j : ℕ) (out : Outgoing) → copies i out ++ copies j out ≡ copies (i + j) out
unfolding copies
copies-append zero j out = copies_count j (0 + j) out (omega arith)
copies-append (suc i) j out =
    ap (λ l. out ∷ l) (copies-append i j out)
    ∙ copies_count (suc (i + j)) (suc i + j) out (omega arith)

-- What has been sent before is sent still.
pub before-Retried :
    (out : Outgoing) (u w : World) (n : ℕ) (r : Run (Unit {0}))
    → Sent u w (copies n out)
    → Retried out w r
    → Retried out u r
unfolding copies
before-Retried out u w n none s h = tt
before-Retried out u w n (some (after, ok _)) s (k, t) = (
  n + k,
  Sent-trans u w after (copies n out) (copies (suc k) out) s t
      ∙ ap (λ l. u.published ++ l)
          (copies-append n (suc k) out ∙ copies_count (n + suc k) (suc (n + k)) out (omega arith)),
)
before-Retried out u w n (some (after, err e)) s (k, t) = (
  n + k,
  Sent-trans u w after (copies n out) (copies k out) s t
      ∙ ap (λ l. u.published ++ l) (copies-append n k out),
)

module _ (env : ℕ → Moment) (limits : Limits) where
  -- The rest of a loop goes on from where its attempt has failed.
  pub after_attempt-Retried :
      (m : Moment) (out : Outgoing) (w : World) (tried : World × Result ImportError (Unit {0}))
      (delay : ℕ) (rest : Run (Unit {0}))
      → Retried out w (some tried)
      → Retried out tried.0 rest
      → Retried out w (after_attempt env limits m tried delay rest)
  after_attempt-Retried m out w (after, ok _) delay rest h k = h
  after_attempt-Retried m out w (after, err e) delay rest h k = elim (Bool-cases (is_no_import e)) [
    | inl x ↦ rw x h
    | inr x ↦ elim (Bool-cases m.is_canceled_waiting) [
      | inl y ↦ rw (x, y) h
      | inr y ↦ rw (x, y) (before-Retried out w after h.0 rest h.1 k)
    ]
  ]

  pub retry-Retried :
      (fuel delay : ℕ) (import_id : String) (out : Outgoing) (w : World)
      → Retried out w (retry env limits fuel delay import_id out w)
  unfolding retry
  retry-Retried zero delay import_id out w = tt
  retry-Retried (suc fuel) delay import_id out w =
      let m = env w.clock in
      let tried = attempt m import_id out w in
      after_attempt-Retried m out w tried delay
        (retry env limits fuel (next_delay env limits delay) import_id out (wait tried.0 delay))
        (attempt-Retried m import_id out w)
        (retry-Retried fuel (next_delay env limits delay) import_id out (wait tried.0 delay))
