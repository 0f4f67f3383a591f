-- ===== src/History/Chunk/Publishing.antt =====
-- internal/history/importer.go: what the publishing of a chunk has sent to the broker.
use whatsmeow_gateway.Base.{
  nat_eq,
  ℕ, zero, suc, ◌+◌, String, Bool, arith, true, false, ◌≡◌, refl, List, [], ◌∷◌, ◌++◌, Option, none,
  some, map, Result, ok, err, ap, ◌∙◌, string_Eq,
}
use whatsmeow_gateway.History.Registry.{
  ImportError, Table, HistoryImport, count_history_batch, skip_history_chats,
}
use whatsmeow_gateway.History.Chunk.{
  Moment, HistoryBatch, Outgoing, batch, World, Run, then_run, Limits, tick, wait, next_delay,
  retry, after_write, store_attempts, persist_from, or_else, count_batch, skip_chats, paced, pace,
  publish_batches, persist,
}
use whatsmeow_gateway.History.Chunk.Retrying.{
  copies, Repeated, Partly, copies-Repeated, copies-Partly, copies-append-Partly, Sent, Sent-trans,
  Sent-none, Retried, before-Retried, retry-Retried,
}

module _ (env : ℕ → Moment) (limits : Limits) where
  after_write-published :
      {A : Type 0} (m : Moment) (w : World) (result : Result ImportError A) (delay : ℕ)
      (is_last : Bool) (rest : World × Result ImportError (Option A))
      → rest.0.published ≡ w.published
      → (after_write env limits m w result delay is_last rest).0.published ≡ w.published
  after_write-published m w (ok a) delay is_last rest h = refl
  after_write-published m w (err e) delay is_last rest h = ground arith

  pub persist-published :
      {A : Type 0} (fuel number delay : ℕ)
      (write : Moment → Table → Table × Result ImportError A) (w : World)
      → (persist_from env limits fuel number delay write w).0.published ≡ w.published
  unfolding persist_from
  persist-published zero number delay write w = refl
  persist-published (suc fuel) number delay write w =
      let m = env w.clock in
      let answer = write m (m.others w.table) in
      let w' = tick (record w { table = answer.0 }) in
      after_write-published m w' answer.1 delay (nat_eq number (store_attempts env limits))
        (persist_from env limits fuel (number + 1) (next_delay env limits delay) write
          (wait w' delay))
        (persist-published fuel (number + 1) (next_delay env limits delay) write (wait w' delay))

  or_else-published :
      (n : ℕ) (r : World × Result ImportError (Option ℕ))
      → (or_else env limits n r).0.published ≡ r.0.published
  or_else-published n (w, err e) = refl
  or_else-published n (w, ok none) = refl
  or_else-published n (w, ok (some k)) = refl

  count_batch-published :
      (import_id : String) (n : ℕ) (w : World)
      → (count_batch env limits import_id n w).0.published ≡ w.published
  unfolding count_batch
  count_batch-published import_id n w =
      or_else-published (n + 1)
        (persist env limits (λ m. count_history_batch m.statement m.now import_id) w)
      ∙ persist-published 5 1 limits.retry_first
          (λ m. count_history_batch m.statement m.now import_id) w

  pub skip_chats-published :
      (active : HistoryImport) (chats : List String) (w : World)
      → (skip_chats env limits active chats w).0.published ≡ w.published
  unfolding skip_chats
  skip_chats-published active [] w = refl
  skip_chats-published active (chat ∷ chats) w =
      or_else-published active.skipped_chats (
        persist env limits
          (λ m. skip_history_chats m.statement m.now active.import_id (chat ∷ chats)) w)
      ∙ persist-published 5 1 limits.retry_first
          (λ m. skip_history_chats m.statement m.now active.import_id (chat ∷ chats)) w

  paced-published : (b : Bool) (w : World) → (paced env limits b w).0.published ≡ w.published
  paced-published true w = refl
  paced-published false w = refl

  pace-published : (n : ℕ) (w : World) → (pace env limits n w).0.published ≡ w.published
  pace-published zero w = refl
  pace-published (suc n) w = paced-published (env w.clock).is_canceled_waiting w

  -- What a loop over messages has sent: all of them, or those up to some point.
  abbrev pub SentAll : List Outgoing → World → Run ℕ → Type 0
  SentAll os w none = Unit
  SentAll os w (some (after, ok _)) = (log : List Outgoing) × Sent w after log × Repeated os log
  SentAll os w (some (after, err e)) = (log : List Outgoing) × Sent w after log × Partly os log

  -- A world that has sent as much serves as well.
  pub SentAll-before :
      (os : List Outgoing) (u w : World) (r : Run ℕ)
      → w.published ≡ u.published
      → SentAll os w r
      → SentAll os u r
  SentAll-before os u w none e h = tt
  SentAll-before os u w (some (after, ok n)) e (log, s, t) = (log, s ∙ ap (λ l. l ++ log) e, t)
  SentAll-before os u w (some (after, err f)) e (log, s, t) = (log, s ∙ ap (λ l. l ++ log) e, t)

  -- One message, and then the rest.
  SentAll-next :
      (o : Outgoing) (os : List Outgoing) (u w : World) (n : ℕ) (r : Run ℕ)
      → Sent u w (copies (suc n) o)
      → SentAll os w r
      → SentAll (o ∷ os) u r
  SentAll-next o os u w n none s h = tt
  SentAll-next o os u w n (some (after, ok x)) s (log, t, h) = (
    copies (suc n) o ++ log,
    Sent-trans u w after (copies (suc n) o) log s t,
    copies-Repeated n o os log h,
  )
  SentAll-next o os u w n (some (after, err f)) s (log, t, h) = (
    copies (suc n) o ++ log,
    Sent-trans u w after (copies (suc n) o) log s t,
    copies-append-Partly n o os log h,
  )

  -- Sent once, and then nothing more.
  SentAll-stop :
      (o : Outgoing) (os : List Outgoing) (u w : World) (n : ℕ) (e : ImportError)
      → Sent u w (copies n o)
      → SentAll (o ∷ os) u (some (w, err e))
  SentAll-stop o os u w n e s = (copies n o, s, copies-Partly n o os)

  pub publish_batches-SentAll :
      (fuel : ℕ) (import_id : String) (n : ℕ) (bs : List HistoryBatch) (total : ℕ) (w : World)
      → SentAll (map batch bs) w (publish_batches env limits fuel import_id n bs total w)
  unfolding publish_batches copies
  publish_batches-SentAll fuel import_id n [] total w = ([], Sent-none w, Repeated.all)
  publish_batches-SentAll fuel import_id n (b ∷ bs) total w =
      paced_case (pace env limits n w) (pace-published n w)
        (λ x t. publish_batches-SentAll fuel import_id (n + 1) bs t x)
    where
      rest : World → ℕ → Run ℕ
      rest v t = publish_batches env limits fuel import_id (n + 1) bs t v

      counted :
          (v : World) (k : ℕ) (r : World × Result ImportError ℕ)
          → r.0.published ≡ v.published
          → Sent w v (copies (suc k) (batch b))
          → ((x : World) (t : ℕ) → SentAll (map batch bs) x (rest x t))
          → SentAll (batch b ∷ map batch bs) w (then_run (some r) rest)
      counted v k (x, err e) same s go =
          SentAll-stop (batch b) (map batch bs) w x (suc k) e (same ∙ s)
      counted v k (x, ok t) same s go =
          SentAll-next (batch b) (map batch bs) w x k (rest x t) (same ∙ s) (go x t)

      sent_case :
          (r : Run (Unit {0}))
          → Retried (batch b) w r
          → ((x : World) (t : ℕ) → SentAll (map batch bs) x (rest x t))
          → SentAll
              (batch b ∷ map batch bs)
              w
              (then_run r (λ v _. then_run (some (count_batch env limits import_id total v)) rest))
      sent_case none h go = tt
      sent_case (some (v, err e)) (k, s) go = SentAll-stop (batch b) (map batch bs) w v k e s
      sent_case (some (v, ok _)) (k, s) go =
          counted v k (count_batch env limits import_id total v)
            (count_batch-published import_id total v) s go

      paced_case :
          (r : World × Result ImportError (Unit {0}))
          → r.0.published ≡ w.published
          → ((x : World) (t : ℕ) → SentAll (map batch bs) x (rest x t))
          → SentAll (batch b ∷ map batch bs) w (
              then_run (some r) (λ x _.
                then_run
                  (retry env limits fuel limits.retry_first import_id (batch b) x)
                  (λ v _. then_run (some (count_batch env limits import_id total v)) rest)))
      paced_case (x, err e) same go = ([], same ∙ Sent-none w, Partly.stops)
      paced_case (x, ok _) same go =
          let r = retry env limits fuel limits.retry_first import_id (batch b) x in
          sent_case r
            (before-Retried (batch b) w x 0 r (same ∙ Sent-none w)
              (retry-Retried env limits fuel limits.retry_first import_id (batch b) x))
            go
