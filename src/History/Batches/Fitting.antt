-- ===== src/History/Batches/Fitting.antt =====
-- A message that fits: `Split` of internal/history/batches.go flushes the batch first where it must,
-- and the books stay sound.
use mathlib.Core.List.{append-nil, append_assoc}
use whatsmeow_gateway.Base.{
  ℕ, ◌+◌, ◌≤◌, ◌<◌, List, [], ◌∷◌, ◌++◌, true, false, Option, none, some, length, ◌≡◌, refl, sym,
  ap, ◌∙◌, arith, inl, inr, Bool-cases,
}
use whatsmeow_gateway.History.Batches.{
  Message, Chat, Builder, batch_envelope_bytes, empty_chat, chat_header_bytes, flushed, put_message,
  message_cost, must_flush, place_fitting, is_oversized,
}
use whatsmeow_gateway.History.Batches.Weights.{Line, lines, all_lines, weight, all_lines-append}
use whatsmeow_gateway.History.Batches.Placing.{
  Started, Sound, OpenAt, put_message-lines, put_message-OpenAt, put_message-Sound, flushed-Sound,
}

abbrev pub written : Builder → List Line
written b = all_lines b.batches ++ lines b.current

-- Placing keeps the books sound, and the open chat is the one being placed.
abbrev pub Placed : ℕ → ℕ → Builder → Chat → Type 0
Placed max_messages max_bytes b chat =
    Sound max_messages max_bytes b × OpenAt b.opened b.current chat

put_message-Placed :
    (max_messages max_bytes : ℕ) (b : Builder) (chat : Chat) (m : Message)
    → b.count + 1 ≤ max_messages
    → b.size + message_cost b.opened (chat_header_bytes chat) m ≤ max_bytes
    → Placed max_messages max_bytes b chat
    → Placed max_messages max_bytes
        (put_message b chat m (message_cost b.opened (chat_header_bytes chat) m) b.opened)
        chat
put_message-Placed max_messages max_bytes b chat m h k (s, o) = (
  put_message-Sound max_messages max_bytes b chat m b.opened o h k s,
  put_message-OpenAt b chat m (message_cost b.opened (chat_header_bytes chat) m) b.opened refl o,
)

put_message-written :
    (b : Builder) (chat : Chat) (m : Message) (cost : ℕ) (o : Option ℕ)
    → OpenAt o b.current chat
    → written (put_message b chat m cost o) ≡ written b ++ (empty_chat chat, m) ∷ []
put_message-written b chat m cost none h =
    ap (λ l. all_lines b.batches ++ l) (put_message-lines b chat m cost none h)
    ∙ sym (append_assoc (all_lines b.batches) (lines b.current) ((empty_chat chat, m) ∷ []))
put_message-written b chat m cost (some i) h =
    ap (λ l. all_lines b.batches ++ l) (put_message-lines b chat m cost (some i) h)
    ∙ sym (append_assoc (all_lines b.batches) (lines b.current) ((empty_chat chat, m) ∷ []))

put_message-oversized :
    (b : Builder) (chat : Chat) (m : Message) (cost : ℕ) (o : Option ℕ)
    → (put_message b chat m cost o).oversized ≡ b.oversized
put_message-oversized b chat m cost none = refl
put_message-oversized b chat m cost (some i) = refl

flushed-written : (b : Builder) → written (flushed b) ≡ written b
flushed-written b = rw (all_lines-append b.batches (b.current ∷ [])) (simp append-nil)

module _ (max_messages max_bytes : ℕ) (positive : 1 ≤ max_messages) where
  room_after_flush :
      (chat : Chat) (m : Message)
      → is_oversized max_bytes chat m ≡ false
      → batch_envelope_bytes + message_cost none (chat_header_bytes chat) m ≤ max_bytes
  room_after_flush chat m small = ground (arith, small)

  must_flush-some :
      (b : Builder) (cost : ℕ) → must_flush max_messages max_bytes b cost ≡ true → 0 < b.count
  must_flush-some b cost h = ground (arith, h)

  must_flush-room :
      (b : Builder) (chat : Chat) (m : Message)
      → is_oversized max_bytes chat m ≡ false
      → Sound max_messages max_bytes b
      → must_flush max_messages max_bytes b (message_cost b.opened (chat_header_bytes chat) m)
        ≡ false
      → (b.count + 1 ≤ max_messages)
        × (b.size + message_cost b.opened (chat_header_bytes chat) m ≤ max_bytes)
  must_flush-room b chat m small s h = room s.started
    where
      room :
          Started max_bytes b
          → (b.count + 1 ≤ max_messages)
            × (b.size + message_cost b.opened (chat_header_bytes chat) m ≤ max_bytes)
      room (inl (e, f)) = (
        omega (arith, positive, s.counted, ap (λ c. length (lines c)) e),
        omega (
          arith,
          room_after_flush chat m small,
          s.sized,
          ap weight e,
          ap (λ o. message_cost o (chat_header_bytes chat) m) f,
        ),
      )
      room (inr (e, f)) = ground (arith, h, e, s.within)

  pub place_fitting-keeps :
      (b : Builder) (chat : Chat) (m : Message)
      → is_oversized max_bytes chat m ≡ false
      → Placed max_messages max_bytes b chat
      → Placed max_messages max_bytes (place_fitting max_messages max_bytes b chat m) chat
        × (written (place_fitting max_messages max_bytes b chat m)
            ≡ written b ++ (empty_chat chat, m) ∷ [])
        × ((place_fitting max_messages max_bytes b chat m).oversized ≡ b.oversized)
  place_fitting-keeps b chat m small (s, o) =
      elim (Bool-cases
        (must_flush max_messages max_bytes b (message_cost b.opened (chat_header_bytes chat) m))) [
          | inl h ↦ rw h (
            put_message-Placed max_messages max_bytes (flushed b) chat m positive
                (room_after_flush chat m small)
                (
                  flushed-Sound max_messages max_bytes b
                      (must_flush-some b (message_cost b.opened (chat_header_bytes chat) m) h) s,
                  tt,
                ),
            put_message-written (flushed b) chat m (message_cost none (chat_header_bytes chat) m)
                  none tt
                ∙ ap (λ l. l ++ (empty_chat chat, m) ∷ []) (flushed-written b),
            refl,
          )
          | inr h ↦ rw h (
            put_message-Placed max_messages max_bytes b chat m
                (must_flush-room b chat m small s h).0 (must_flush-room b chat m small s h).1
                (s, o),
            put_message-written b chat m (message_cost b.opened (chat_header_bytes chat) m) b.opened
                o,
            put_message-oversized b chat m (message_cost b.opened (chat_header_bytes chat) m)
                b.opened,
          )
        ]
