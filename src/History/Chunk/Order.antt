-- ===== src/History/Chunk/Order.antt =====
-- internal/history/importer.go: a chunk's batches are sent in order, and the end of the import after them.
use whatsmeow_gateway.Base.{
  ℕ, suc, String, Bool, true, false, not, ◌||◌, ◌≡◌, ◌⊎◌, refl, inl, inr, List, [], ◌++◌, Option,
  none, some, map, if◌then◌else◌, Result, ok, err, ap, ◌∙◌, sym, string_Eq,
}
use mathlib.Core.List.{append-nil}
use whatsmeow_gateway.History.Batches.{Message}
use whatsmeow_gateway.History.Registry.{ImportError, Table, HistoryImport, finish_history_import}
use whatsmeow_gateway.History.Chunk.{
  Moment, HistoryDone, Outgoing, batch, done, World, Run, then_run, Limits, retry, skip_chats,
  publish_batches, finish, Chunk, finishes_import, batches_of, publish_chunk, persist,
}
use whatsmeow_gateway.History.Chunk.Retrying.{
  copies, Repeated, Partly, Sent, Sent-trans, Sent-none, Retried, retry-Retried,
}
use whatsmeow_gateway.History.Chunk.Publishing.{
  SentAll, publish_batches-SentAll, skip_chats-published, persist-published, SentAll-before,
}

-- What the publishing of a chunk has sent: its batches and then, if it ends the import, the end.
module _ (provider_message_id : Message → String) (env : ℕ → Moment) (limits : Limits) where
  abbrev pub ends_import : HistoryImport → Chunk → Bool
  ends_import active c = not (active.finished || not (finishes_import c))

  abbrev pub EndOf : Bool → List Outgoing → Type 0
  EndOf true log = (end : HistoryDone) × (n : ℕ) × (log ≡ copies (suc n) (done end))
  EndOf false log = log ≡ []

  abbrev pub IsPublished : HistoryImport → Chunk → World → Run (Unit {0}) → Type 0
  IsPublished active c w none = Unit
  IsPublished active c w (some (after, ok _)) =
      (log end : List Outgoing) × Sent w after (log ++ end)
      × Repeated (map batch (batches_of provider_message_id env limits active c)) log
      × EndOf (ends_import active c) end
  IsPublished active c w (some (after, err e)) =
      (log end : List Outgoing) × Sent w after (log ++ end)
      × ((Partly (map batch (batches_of provider_message_id env limits active c)) log × (end ≡ []))
          ⊎ (Repeated (map batch (batches_of provider_message_id env limits active c)) log
              × ((d : HistoryDone) × (n : ℕ) × (end ≡ copies n (done d)))))

  finish-Retried :
      (fuel : ℕ) (active : HistoryImport) (channel_id : String) (total skipped : ℕ) (w : World)
      → Retried
          (done (record {
            tenant_id = active.tenant_id;
            channel_id = channel_id;
            import_id = active.import_id;
            total_batches = total;
            skipped_chats = skipped;
          }))
          w
          (finish env limits fuel active channel_id total skipped w)
  unfolding finish
  finish-Retried fuel active channel_id total skipped w =
      let end : HistoryDone = record {
        tenant_id = active.tenant_id;
        channel_id = channel_id;
        import_id = active.import_id;
        total_batches = total;
        skipped_chats = skipped;
      } in
      let write : Moment → Table → Table × Result ImportError (Unit {0}) =
        λ m. finish_history_import m.statement m.now active.import_id in
      recorded end write (retry env limits fuel limits.retry_first active.import_id (done end) w)
        (retry-Retried env limits fuel limits.retry_first active.import_id (done end) w)
    where
      written :
          (end : HistoryDone) (r : World × Result ImportError (Option (Unit {0}))) (v : World)
          (n : ℕ)
          → r.0.published ≡ v.published
          → Sent w v (copies (suc n) (done end))
          → Retried (done end) w (then_run (some r) (λ x _. some (x, ok tt)))
      written end (x, err e) v n same s = (suc n, same ∙ s)
      written end (x, ok o) v n same s = (n, same ∙ s)

      recorded :
          (end : HistoryDone) (write : Moment → Table → Table × Result ImportError (Unit {0}))
          (r : Run (Unit {0}))
          → Retried (done end) w r
          → Retried (done end) w (
              then_run r
                (λ v _. then_run (some (persist env limits write v)) (λ x _. some (x, ok tt))))
      recorded end write none h = tt
      recorded end write (some (v, err e)) h = h
      recorded end write (some (v, ok _)) (n, s) =
          written end (persist env limits write v) v n
            (persist-published env limits 5 1 limits.retry_first write v) s

  -- After the batches: the end of the import, or nothing.
  ended :
      (active : HistoryImport) (c : Chunk) (w v : World) (log : List Outgoing) (d : HistoryDone)
      (r : Run (Unit {0}))
      → Sent w v log
      → Repeated (map batch (batches_of provider_message_id env limits active c)) log
      → ends_import active c ≡ true
      → Retried (done d) v r
      → IsPublished active c w r
  ended active c w v log d none s t e h = tt
  ended active c w v log d (some (x, ok _)) s t e (n, u) = (
    log,
    copies (suc n) (done d),
    Sent-trans w v x log (copies (suc n) (done d)) s u,
    t,
    rw e (d, n, refl),
  )
  ended active c w v log d (some (x, err f)) s t e (n, u) =
      (log, copies n (done d), Sent-trans w v x log (copies n (done d)) s u, inr (t, (d, n, refl)))

  tail_of : ℕ → HistoryImport → Chunk → ℕ → World → ℕ → Run (Unit {0})
  tail_of fuel active c skipped v total =
      if active.finished || not (finishes_import c)
      then some (v, ok tt)
      else finish env limits fuel active c.channel_id total skipped v

  batches_then_end :
      (fuel : ℕ) (active : HistoryImport) (c : Chunk) (w : World) (skipped : ℕ) (r : Run ℕ)
      → SentAll env limits (map batch (batches_of provider_message_id env limits active c)) w r
      → IsPublished active c w (then_run r (tail_of fuel active c skipped))
  unfolding tail_of
  batches_then_end fuel active c w skipped none h = tt
  batches_then_end fuel active c w skipped (some (v, err e)) (log, s, t) =
      (log, [], s ∙ ap (λ l. w.published ++ l) (sym (append-nil log)), inl (t, refl))
  batches_then_end fuel active c w skipped (some (v, ok total)) (log, s, t) =
      last (active.finished || not (finishes_import c)) refl
    where
      last :
          (b : Bool)
          → (active.finished || not (finishes_import c)) ≡ b
          → IsPublished active c w (
              if b
              then some (v, ok tt)
              else finish env limits fuel active c.channel_id total skipped v)
      last true e = (log, [], s ∙ ap (λ l. w.published ++ l) (sym (append-nil log)), t, rw e refl)
      last false e =
          ended active c w v log _ (finish env limits fuel active c.channel_id total skipped v) s t
            (ap not e) (finish-Retried fuel active c.channel_id total skipped v)

-- What the publishing of a chunk has sent when it returns without an error: the chunk's batches, in
-- order and each at least once, and after them, if the chunk ends an import that was not finished, the
-- end of the import, at least once, and nothing otherwise. When it returns an error it has sent the
-- batches up to some point, or all of them and perhaps the end of the import.
pub publish_chunk-ordered :
    (provider_message_id : Message → String) (env : ℕ → Moment) (limits : Limits) (fuel : ℕ)
    (active : HistoryImport) (c : Chunk) (w : World)
    → IsPublished provider_message_id env limits active c w
        (publish_chunk provider_message_id env limits fuel active c w)
unfolding publish_chunk tail_of
publish_chunk-ordered provider_message_id env limits fuel active c w =
    skipped_case (skip_chats env limits active c.chats_without_phone w)
      (skip_chats-published env limits active c.chats_without_phone w)
  where
    skipped_case :
        (r : World × Result ImportError ℕ)
        → r.0.published ≡ w.published
        → IsPublished provider_message_id env limits active c w (
            then_run (some r) (λ v skipped.
              then_run
                (publish_batches env limits fuel active.import_id 0
                  (batches_of provider_message_id env limits active c)
                  active.batches
                  v)
                (tail_of provider_message_id env limits fuel active c skipped)))
    skipped_case (v, err e) same = ([], [], same ∙ Sent-none w, inl (Partly.stops, refl))
    skipped_case (v, ok skipped) same =
        let bs = batches_of provider_message_id env limits active c in
        let r = publish_batches env limits fuel active.import_id 0 bs active.batches v in
        batches_then_end provider_message_id env limits fuel active c w skipped r (
          SentAll-before env limits (map batch bs) w v r same
            (publish_batches-SentAll env limits fuel active.import_id 0 bs active.batches v))
