-- ===== src/History/Batches/Splitting.antt =====
-- `Split` of internal/history/batches.go as a whole: what the batches hold, and that each fits.
use mathlib.Core.List.{append-nil, append_assoc, map-append}
use whatsmeow_gateway.Base.{
  ℕ, ◌≤◌, String, List, [], ◌∷◌, ◌++◌, map, Bool, false, not, none, ltb, select, select-append, ◌≡◌,
  refl, sym, ap, ◌∙◌, arith, inl, inr, All, Bool-cases, ltb→lt,
}
use whatsmeow_gateway.History.Batches.{
  Message, Chat, Builder, empty_chat, chat_header_bytes, is_oversized, place, place_all,
  place_chats, closed, new_builder, split,
}
use whatsmeow_gateway.History.Batches.Weights.{Line, tagged, lines, all_lines, all_lines-append}
use whatsmeow_gateway.History.Batches.Placing.{Fits, Started, Sound, flushed-Sound}
use whatsmeow_gateway.History.Batches.Fitting.{written, Placed, place_fitting-keeps}

chained {ℓ} :
    {A : Type ℓ} (a x y : List A) {b c : List A} → b ≡ a ++ x → c ≡ b ++ y → c ≡ a ++ (x ++ y)
chained a x y e f = f ∙ ap (λ l. l ++ y) e ∙ append_assoc a x y

-- Exact tests of a line: its message is too large for any batch, or it is not.
abbrev pub is_too_large : ℕ → Line → Bool
is_too_large max_bytes l = is_oversized max_bytes l.0 l.1

abbrev pub is_sendable : ℕ → Line → Bool
is_sendable max_bytes l = not (is_too_large max_bytes l)

module _ (provider_message_id : Message → String) (max_bytes : ℕ) where
  -- From one state of the builder to another, these lines have been dealt with.
  abbrev Took : Builder → Builder → List Line → Type 0
  Took b c ls =
      (written c ≡ written b ++ select (is_sendable max_bytes) ls)
      × (c.oversized
          ≡ b.oversized ++ map (λ l. provider_message_id l.1) (select (is_too_large max_bytes) ls))

  Took-nothing : (b : Builder) → Took b b []
  unfolding select
  Took-nothing b = (sym (append-nil (written b)), sym (append-nil b.oversized))

  Took-append :
      (b c d : Builder) (ls ks : List Line) → Took b c ls → Took c d ks → Took b d (ls ++ ks)
  Took-append b c d ls ks (e, f) (g, h) = (
    chained (written b) (select (is_sendable max_bytes) ls) (select (is_sendable max_bytes) ks) e g
        ∙ ap (λ l. written b ++ l) (sym (select-append (is_sendable max_bytes) ls ks)),
    chained b.oversized
          (map (λ (l : Line). provider_message_id l.1) (select (is_too_large max_bytes) ls))
          (map (λ (l : Line). provider_message_id l.1) (select (is_too_large max_bytes) ks)) f h
        ∙ ap (λ l. b.oversized ++ l)
            (sym (
                map-append (λ (l : Line). provider_message_id l.1)
                  (select (is_too_large max_bytes) ls) (select (is_too_large max_bytes) ks))
              ∙ ap (map (λ (l : Line). provider_message_id l.1))
                  (sym (select-append (is_too_large max_bytes) ls ks))),
  )

module _ (provider_message_id : Message → String) (max_messages max_bytes : ℕ)
    (positive : 1 ≤ max_messages) where
  place-keeps :
      (b : Builder) (chat : Chat) (m : Message)
      → Placed max_messages max_bytes b chat
      → Placed max_messages max_bytes
          (place provider_message_id max_messages max_bytes b chat m)
          chat
        × Took provider_message_id max_bytes b
            (place provider_message_id max_messages max_bytes b chat m)
            ((empty_chat chat, m) ∷ [])
  unfolding place select chat_header_bytes
  place-keeps b chat m (s, o) = elim (Bool-cases (is_oversized max_bytes chat m)) [
    | inl h ↦ rw h (
      (
        record {
          earlier = s.earlier;
          counted = s.counted;
          sized = s.sized;
          within = s.within;
          started = s.started;
        },
        o,
      ),
      (sym (append-nil (written b)), refl),
    )
    | inr h ↦ rw h (
        let (held, e, f) = place_fitting-keeps max_messages max_bytes positive b chat m h (s, o) in
        (held, (e, f ∙ sym (append-nil b.oversized))))
  ]

  place_all-keeps :
      (b : Builder) (chat : Chat) (ms : List Message)
      → Placed max_messages max_bytes b chat
      → Sound max_messages max_bytes
          (place_all provider_message_id max_messages max_bytes b chat ms)
        × Took provider_message_id max_bytes b
            (place_all provider_message_id max_messages max_bytes b chat ms)
            (tagged (empty_chat chat) ms)
  unfolding place_all
  place_all-keeps b chat [] (s, o) = (s, Took-nothing provider_message_id max_bytes b)
  place_all-keeps b chat (m ∷ ms) p =
      let (placed, took) = place-keeps b chat m p in
      let c = place provider_message_id max_messages max_bytes b chat m in
      let (sound, rest) = place_all-keeps c chat ms placed in
      (
        sound,
        Took-append provider_message_id max_bytes b c
            (place_all provider_message_id max_messages max_bytes c chat ms)
            ((empty_chat chat, m) ∷ []) (tagged (empty_chat chat) ms) took rest,
      )

  place_chats-keeps :
      (b : Builder) (chats : List Chat)
      → Sound max_messages max_bytes b
      → Sound max_messages max_bytes
          (place_chats provider_message_id max_messages max_bytes b chats)
        × Took provider_message_id max_bytes b
            (place_chats provider_message_id max_messages max_bytes b chats)
            (lines chats)
  unfolding place_chats
  place_chats-keeps b [] s = (s, Took-nothing provider_message_id max_bytes b)
  place_chats-keeps b (chat ∷ chats) s =
      let fresh = record b { opened = none } in
      let c = place_all provider_message_id max_messages max_bytes fresh chat chat.messages in
      let (sound, took) = place_all-keeps fresh chat chat.messages (fresh_Sound b s, tt) in
      let (sound_after, rest) = place_chats-keeps c chats sound in
      (
        sound_after,
        Took-append provider_message_id max_bytes b c
            (place_chats provider_message_id max_messages max_bytes c chats)
            (tagged (empty_chat chat) chat.messages) (lines chats) took rest,
      )
    where
      fresh_Started :
          (b : Builder) → Started max_bytes b → Started max_bytes (record b { opened = none })
      fresh_Started b (inl (e, f)) = inl (e, refl)
      fresh_Started b (inr h) = inr h

      fresh_Sound :
          (b : Builder)
          → Sound max_messages max_bytes b
          → Sound max_messages max_bytes (record b { opened = none })
      fresh_Sound b s = record {
        earlier = s.earlier;
        counted = s.counted;
        sized = s.sized;
        within = s.within;
        started = fresh_Started b s.started;
      }

  closed-Fits :
      (b : Builder)
      → Sound max_messages max_bytes b
      → All (Fits max_messages max_bytes) (closed provider_message_id max_messages max_bytes b).0
  closed-Fits b s = elim (Bool-cases (ltb 0 b.count)) [
    | inl h ↦ rw h (flushed-Sound max_messages max_bytes b (ltb→lt 0 b.count h) s).earlier
    | inr h ↦ rw h s.earlier
  ]

  closed-written :
      (b : Builder)
      → Sound max_messages max_bytes b
      → all_lines (closed provider_message_id max_messages max_bytes b).0 ≡ written b
  closed-written b s = elim (Bool-cases (ltb 0 b.count)) [
    | inl h ↦ rw (h, all_lines-append b.batches (b.current ∷ [])) (simp append-nil)
    | inr h ↦ rw h (idle s.started h)
  ]
    where
      idle : Started max_bytes b → ltb 0 b.count ≡ false → all_lines b.batches ≡ written b
      idle (inl (e, f)) h = rw e (sym (append-nil (all_lines b.batches)))
      idle (inr (e, f)) h = ground (arith, h, e)

  start-Sound :
      Sound max_messages max_bytes (new_builder provider_message_id max_messages max_bytes)
  start-Sound = record {
    earlier = tt;
    counted = refl;
    sized = refl;
    within = omega arith;
    started = inl (refl, refl);
  }

-- With room for at least one message a batch, the messages of the batches, each with the header of
-- its chat, are those of the chats that are not too large, in order; the ids returned are those of
-- the others, in order.
pub split-keeps_messages :
    (provider_message_id : Message → String) (max_messages max_bytes : ℕ) (chats : List Chat)
    → 1 ≤ max_messages
    → (all_lines (split provider_message_id max_messages max_bytes chats).0
        ≡ select (is_sendable max_bytes) (lines chats))
      × ((split provider_message_id max_messages max_bytes chats).1
          ≡ map (λ l. provider_message_id l.1) (select (is_too_large max_bytes) (lines chats)))
unfolding split
split-keeps_messages provider_message_id max_messages max_bytes chats positive =
    let b = new_builder provider_message_id max_messages max_bytes in
    let (sound, took) =
      place_chats-keeps provider_message_id max_messages max_bytes positive b chats
        (start-Sound provider_message_id max_messages max_bytes positive) in
    (
      closed-written provider_message_id max_messages max_bytes positive
            (place_chats provider_message_id max_messages max_bytes b chats) sound
          ∙ took.0,
      took.1,
    )

-- With room for at least one message a batch, every batch holds at least one message, at most
-- `max_messages`, and its messages with the envelopes count at most `max_bytes`.
pub split-Fits :
    (provider_message_id : Message → String) (max_messages max_bytes : ℕ) (chats : List Chat)
    → 1 ≤ max_messages
    → All (Fits max_messages max_bytes) (split provider_message_id max_messages max_bytes chats).0
unfolding split
split-Fits provider_message_id max_messages max_bytes chats positive =
    let b = new_builder provider_message_id max_messages max_bytes in
    closed-Fits provider_message_id max_messages max_bytes positive
      (place_chats provider_message_id max_messages max_bytes b chats)
      (place_chats-keeps provider_message_id max_messages max_bytes positive b chats
        (start-Sound provider_message_id max_messages max_bytes positive)).0
