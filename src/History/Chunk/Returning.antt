-- ===== src/History/Chunk/Returning.antt =====
-- internal/history/importer.go: the loops of an import come to an end.
use whatsmeow_gateway.Base.{
  ℕ, zero, suc, ◌+◌, ◌<◌, String, Bool, true, false, not, ◌&&◌, ◌||◌, ◌≡◌, refl, inl, inr, List, [],
  ◌∷◌, Option, none, some, if◌then◌else◌, Bool-cases, Result, ok, err, arith, string_Eq, subst,
}
use whatsmeow_gateway.Dedupe.{Answer, clean, refused, lost}
use whatsmeow_gateway.History.Batches.{Message}
use whatsmeow_gateway.History.Registry.{
  ImportError, Table, HistoryImport, found_import, finish_history_import, is_live, import_of,
}
use whatsmeow_gateway.History.Chunk.{
  Moment, HistoryBatch, Outgoing, batch, World, Run, then_run, Limits, tick, wait, still_active,
  is_import, publish, publish_active, attempt, is_no_import, next_delay, after_attempt, retry,
  count_batch, skip_chats, pace, publish_batches, finish, Chunk, finishes_import, batches_of,
  publish_chunk, persist, unless_replaced, import_found, import_chunk, release_after, import,
}

abbrev is_clean : Answer → Bool
is_clean clean = true
is_clean _ = false

-- A moment at which a loop cannot go on: the registry can be read and the broker confirms, or the
-- context is done.
abbrev pub is_calm : Moment → Bool
is_calm m = m.is_canceled_waiting || (m.reads && is_clean m.broker)

abbrev pub has_returned : {A : Type 0} → Run A → Bool
has_returned none = false
has_returned (some r) = true

abbrev is_settled : Result ImportError (Unit {0}) → Bool
is_settled (ok _) = true
is_settled (err e) = is_no_import e

publish-settled :
    (a : Answer) (w : World) (out : Outgoing)
    → is_clean a ≡ true
    → is_settled (publish a w out).1 ≡ true
publish-settled clean w out h = refl
publish-settled refused w out h = h
publish-settled lost w out h = h

attempt-settled :
    (m : Moment) (import_id : String) (out : Outgoing) (w : World)
    → m.reads ≡ true
    → is_clean m.broker ≡ true
    → is_settled (attempt m import_id out w).1 ≡ true
unfolding attempt
attempt-settled m import_id out w r b = simp r (found (m.others w.table))
  where
    start : World
    start = tick (record w { table = m.others w.table })

    asked :
        (active : Option HistoryImport)
        → is_settled (publish_active (still_active (ok active) import_id) m.broker start out).1
          ≡ true
    asked active = elim (Bool-cases (is_import import_id active)) [
      | inl e ↦ rw e (publish-settled m.broker start out b)
      | inr e ↦ rw e refl
    ]

    found :
        (t : Table)
        → is_settled
            (publish_active
              (still_active (found_import true m.now t) import_id)
              m.broker
              start
              out).1
          ≡ true
    found none = refl
    found (some row) = asked (if is_live m.now row then some (import_of row) else none)

module _ (env : ℕ → Moment) (limits : Limits) where
  settled-returned :
      (m : Moment) (tried : World × Result ImportError (Unit {0})) (delay : ℕ)
      (rest : Run (Unit {0}))
      → is_settled tried.1 ≡ true
      → has_returned (after_attempt env limits m tried delay rest) ≡ true
  settled-returned m (w, ok _) delay rest h = refl
  settled-returned m (w, err e) delay rest h = rw h refl

  canceled-returned :
      (m : Moment) (tried : World × Result ImportError (Unit {0})) (delay : ℕ)
      (rest : Run (Unit {0}))
      → m.is_canceled_waiting ≡ true
      → has_returned (after_attempt env limits m tried delay rest) ≡ true
  canceled-returned m (w, ok _) delay rest h = refl
  canceled-returned m (w, err e) delay rest h = elim (Bool-cases (is_no_import e)) [
    | inl x ↦ rw x refl
    | inr x ↦ rw (x, h) refl
  ]

  rest-returned :
      (m : Moment) (tried : World × Result ImportError (Unit {0})) (delay : ℕ)
      (rest : Run (Unit {0}))
      → has_returned rest ≡ true
      → has_returned (after_attempt env limits m tried delay rest) ≡ true
  rest-returned m (w, ok _) delay rest h = refl
  rest-returned m (w, err e) delay rest h = elim (Bool-cases (is_no_import e)) [
    | inl x ↦ rw x refl
    | inr x ↦ elim (Bool-cases m.is_canceled_waiting) [
      | inl y ↦ rw (x, y) refl
      | inr y ↦ rw (x, y) h
    ]
  ]

  attempt-clock :
      (m : Moment) (import_id : String) (out : Outgoing) (w : World)
      → (attempt m import_id out w).0.clock ≡ w.clock + 1
  unfolding attempt
  attempt-clock m import_id out w =
      active (still_active (found_import m.reads m.now (m.others w.table)) import_id)
    where
      start : World
      start = tick (record w { table = m.others w.table })

      sent : (a : Answer) → (publish a start out).0.clock ≡ w.clock + 1
      sent clean = refl
      sent refused = refl
      sent lost = refl

      active :
          (r : Result ImportError (Unit {0}))
          → (publish_active r m.broker start out).0.clock ≡ w.clock + 1
      active (err e) = refl
      active (ok _) = sent m.broker

  calm-settled :
      (m : Moment) (import_id : String) (out : Outgoing) (w : World) (delay : ℕ)
      (rest : Run (Unit {0}))
      → is_calm m ≡ true
      → has_returned (after_attempt env limits m (attempt m import_id out w) delay rest) ≡ true
  calm-settled m import_id out w delay rest calm = elim (Bool-cases m.is_canceled_waiting) [
    | inl h ↦ canceled-returned m (attempt m import_id out w) delay rest h
    | inr h ↦
        settled-returned m (attempt m import_id out w) delay rest
          (attempt-settled m import_id out w (ground arith) (ground arith))
  ]

  retry-returned :
      (fuel j at delay : ℕ) (import_id : String) (out : Outgoing) (w : World)
      → j < fuel
      → at ≡ w.clock + j
      → is_calm (env at) ≡ true
      → has_returned (retry env limits fuel delay import_id out w) ≡ true
  unfolding retry
  retry-returned zero j at delay import_id out w lt e calm = absurd (omega arith)
  retry-returned (suc fuel) zero at delay import_id out w lt e calm =
      let now : at ≡ w.clock = omega arith in
      calm-settled (env w.clock) import_id out w delay _
        (subst (λ n. is_calm (env n) ≡ true) now calm)
  retry-returned (suc fuel) (suc j) at delay import_id out w lt e calm =
      let m = env w.clock in
      let tried = attempt m import_id out w in
      let after = wait tried.0 delay in
      rest-returned m tried delay
        (retry env limits fuel (next_delay env limits delay) import_id out after)
        (retry-returned fuel j at (next_delay env limits delay) import_id out after (omega arith)
          (omega (arith, attempt-clock m import_id out w)) calm)

then_run-returned :
    {A B : Type 0} (r : Run A) (f : World → A → Run B)
    → has_returned r ≡ true
    → ((w : World) (a : A) → has_returned (f w a) ≡ true)
    → has_returned (then_run r f) ≡ true
then_run-returned none f h k = h
then_run-returned (some (w, err e)) f h k = refl
then_run-returned (some (w, ok a)) f h k = k w a

-- The next calm moment is never `fuel` moments away.
module _ (env : ℕ → Moment) (limits : Limits) (fuel : ℕ) (calm_after : ℕ → ℕ)
    (soon : (n : ℕ) → calm_after n < fuel)
    (calm : (n : ℕ) → is_calm (env (n + calm_after n)) ≡ true) where
  loop-returned :
      (import_id : String) (out : Outgoing) (w : World)
      → has_returned (retry env limits fuel limits.retry_first import_id out w) ≡ true
  loop-returned import_id out w =
      retry-returned env limits fuel (calm_after w.clock) (w.clock + calm_after w.clock)
        limits.retry_first import_id out w (soon w.clock) refl (calm w.clock)

  publish_batches-returned :
      (import_id : String) (n : ℕ) (bs : List HistoryBatch) (total : ℕ) (w : World)
      → has_returned (publish_batches env limits fuel import_id n bs total w) ≡ true
  unfolding publish_batches
  publish_batches-returned import_id n [] total w = refl
  publish_batches-returned import_id n (b ∷ bs) total w =
      then_run-returned (some (pace env limits n w)) _ refl (λ v a.
        then_run-returned (retry env limits fuel limits.retry_first import_id (batch b) v) _
          (loop-returned import_id (batch b) v)
          (λ u a.
            then_run-returned (some (count_batch env limits import_id total u)) _ refl
              (λ x t. publish_batches-returned import_id (n + 1) bs t x)))

  finish-returned :
      (active : HistoryImport) (channel_id : String) (total skipped : ℕ) (w : World)
      → has_returned (finish env limits fuel active channel_id total skipped w) ≡ true
  unfolding finish
  finish-returned active channel_id total skipped w =
      then_run-returned (retry env limits fuel limits.retry_first active.import_id _ w) _
        (loop-returned active.import_id _ w)
        (λ v a.
          then_run-returned
            (some (
              persist env limits (λ m. finish_history_import m.statement m.now active.import_id) v))
            _ refl (λ x o. refl))

  module _ (provider_message_id : Message → String) where
    publish_chunk-returned :
        (active : HistoryImport) (c : Chunk) (w : World)
        → has_returned (publish_chunk provider_message_id env limits fuel active c w) ≡ true
    unfolding publish_chunk
    publish_chunk-returned active c w =
        then_run-returned (some (skip_chats env limits active c.chats_without_phone w)) _ refl
          (λ v skipped.
            then_run-returned
              (publish_batches env limits fuel active.import_id 0
                (batches_of provider_message_id env limits active c) active.batches v)
              _
              (publish_batches-returned active.import_id 0
                (batches_of provider_message_id env limits active c) active.batches v)
              (λ u total. last u total skipped))
      where
        last :
            (u : World) (total skipped : ℕ)
            → has_returned (
                if active.finished || not (finishes_import c)
                then some (u, ok tt)
                else finish env limits fuel active c.channel_id total skipped u)
              ≡ true
        last u total skipped = elim (Bool-cases (active.finished || not (finishes_import c))) [
          | inl e ↦ rw e refl
          | inr e ↦ rw e (finish-returned active c.channel_id total skipped u)
        ]

    unless_replaced-returned :
        (r : Run (Unit {0}))
        → has_returned r ≡ true
        → has_returned (unless_replaced provider_message_id env limits r) ≡ true
    unless_replaced-returned none h = h
    unless_replaced-returned (some (w, ok _)) h = refl
    unless_replaced-returned (some (w, err e)) h = refl

    import_found-returned :
        (r : Result ImportError (Option HistoryImport)) (c : Chunk) (w : World)
        → has_returned (import_found provider_message_id env limits fuel r c w) ≡ true
    import_found-returned (err e) c w = refl
    import_found-returned (ok none) c w = refl
    import_found-returned (ok (some active)) c w =
        unless_replaced-returned (publish_chunk provider_message_id env limits fuel active c w)
          (publish_chunk-returned active c w)

    import_chunk-returned :
        (c : Chunk) (w : World)
        → has_returned (import_chunk provider_message_id env limits fuel c w) ≡ true
    unfolding import_chunk
    import_chunk-returned c w =
        let m = env w.clock in
        let table = m.others w.table in
        import_found-returned (found_import m.reads m.now table) c
          (tick (record w { table = table }))

    release_after-returned :
        (r : Run (Unit {0})) (releases : Bool)
        → has_returned r ≡ true
        → has_returned (release_after provider_message_id env limits r releases) ≡ true
    release_after-returned none releases h = h
    release_after-returned (some (w, err e)) releases h = refl
    release_after-returned (some (w, ok _)) true h = refl
    release_after-returned (some (w, ok _)) false h = refl

-- The import of a chunk comes to an end, whatever the chunk is and whatever others do to the import
-- meanwhile, if among any `fuel` moments in a row there is one at which the registry can be read and
-- the broker confirms, or the context is done.
pub import-returns :
    (provider_message_id : Message → String) (env : ℕ → Moment) (limits : Limits) (fuel : ℕ)
    (calm_after : ℕ → ℕ)
    → ((n : ℕ) → calm_after n < fuel)
    → ((n : ℕ) → is_calm (env (n + calm_after n)) ≡ true)
    → (downloads releases : Bool) (c : Chunk) (w : World)
    → has_returned (import provider_message_id env limits fuel downloads releases c w) ≡ true
unfolding import
import-returns provider_message_id env limits fuel calm_after soon calm false releases c w = refl
import-returns provider_message_id env limits fuel calm_after soon calm true releases c w =
    release_after-returned env limits fuel calm_after soon calm provider_message_id
      (if c.is_importable
        then import_chunk provider_message_id env limits fuel c w
        else some (w, ok tt))
      releases
      (elim (Bool-cases c.is_importable) [
        | inl h ↦
            simp h
              (import_chunk-returned env limits fuel calm_after soon calm provider_message_id c w)
        | inr h ↦ simp h refl
      ])
