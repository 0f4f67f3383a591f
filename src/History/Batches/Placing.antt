-- ===== src/History/Batches/Placing.antt =====
-- One message placed into the batches of internal/history/batches.go: the variables of `Split` stay
-- in step with the chats that they count.
use mathlib.Core.List.{append-nil}
use whatsmeow_gateway.Base.{
  ℕ, ◌+◌, ◌≤◌, ◌<◌, List, [], ◌∷◌, ◌++◌, Option, none, some, length, length-append, ◌≡◌, refl, sym,
  ap, subst, ◌∙◌, arith, ◌⊎◌, inl, inr, All, All-append,
}
use whatsmeow_gateway.History.Batches.{
  Message, Chat, Builder, batch_envelope_bytes, empty_chat, chat_header_bytes, append_at, flushed,
  put_message, message_cost,
}
use whatsmeow_gateway.History.Batches.Weights.{
  lines, weight, lines-append, weight-append, append_at-last, lines-last, weight-last,
}

-- A batch that the broker takes.
abbrev pub Fits : ℕ → ℕ → List Chat → Type 0
Fits max_messages max_bytes batch =
    (1 ≤ length (lines batch))
    × (length (lines batch) ≤ max_messages)
    × (batch_envelope_bytes + weight batch ≤ max_bytes)

abbrev pub Started : ℕ → Builder → Type 0
Started max_bytes b =
    ((b.current ≡ []) × (b.opened ≡ none)) ⊎ ((0 < b.count) × (b.size ≤ max_bytes))

pub record Sound (max_messages max_bytes : ℕ) (b : Builder) : Type 0 where
  pub earlier : All (Fits max_messages max_bytes) b.batches
  pub counted : b.count ≡ length (lines b.current)
  pub sized : b.size ≡ batch_envelope_bytes + weight b.current
  pub within : b.count ≤ max_messages
  pub started : Started max_bytes b

-- The open chat is the last one of the batch, with the header of the chat that is being placed.
abbrev pub OpenAt : Option ℕ → List Chat → Chat → Type 0
OpenAt none current chat = Unit
OpenAt (some i) current chat =
    (before : List Chat) × (last : Chat) × (current ≡ before ++ last ∷ [])
    × (length before ≡ i)
    × (empty_chat last ≡ empty_chat chat)

append_at-open :
    (current before : List Chat) (last : Chat) (i : ℕ) (m : Message)
    → current ≡ before ++ last ∷ []
    → length before ≡ i
    → append_at current i m ≡ before ++ record last { messages = last.messages ++ m ∷ [] } ∷ []
append_at-open current before last i m e f = rw (e, sym f) (append_at-last before last m)

pub put_message-lines :
    (b : Builder) (chat : Chat) (m : Message) (cost : ℕ) (o : Option ℕ)
    → OpenAt o b.current chat
    → lines (put_message b chat m cost o).current ≡ lines b.current ++ (empty_chat chat, m) ∷ []
put_message-lines b chat m cost none h =
    rw (append_at-last b.current (empty_chat chat) m, lines-last b.current (empty_chat chat) m)
      (rw (lines-append b.current (empty_chat chat ∷ [])) (simp append-nil))
put_message-lines b chat m cost (some i) (before, last, e, f, same) =
    ap lines (append_at-open b.current before last i m e f)
    ∙ lines-last before last m
    ∙ (rw (e, same) refl)

pub put_message-weight :
    (b : Builder) (chat : Chat) (m : Message) (cost : ℕ) (o : Option ℕ)
    → OpenAt o b.current chat
    → weight (put_message b chat m cost o).current
      ≡ weight b.current + message_cost o (chat_header_bytes chat) m
unfolding chat_header_bytes
put_message-weight b chat m cost none h =
    ap weight (append_at-last b.current (empty_chat chat) m)
    ∙ (omega (
      arith,
      weight-last b.current (empty_chat chat) m,
      weight-append b.current (empty_chat chat ∷ []),
    ))
put_message-weight b chat m cost (some i) (before, last, e, f, same) =
    ap weight (append_at-open b.current before last i m e f)
    ∙ weight-last before last m
    ∙ ap (λ c. weight c + (length m + 1)) (sym e)

pub put_message-OpenAt :
    (b : Builder) (chat : Chat) (m : Message) (cost : ℕ) (o : Option ℕ)
    → b.opened ≡ o
    → OpenAt o b.current chat
    → OpenAt (put_message b chat m cost o).opened (put_message b chat m cost o).current chat
put_message-OpenAt b chat m cost none e h = (
  b.current,
  record (empty_chat chat) { messages = m ∷ [] },
  append_at-last b.current (empty_chat chat) m,
  refl,
  refl,
)
put_message-OpenAt b chat m cost (some i) e (before, last, f, g, same) =
    subst (λ o. OpenAt o (append_at b.current i m) chat) (sym e)
      (
        before,
        record last { messages = last.messages ++ m ∷ [] },
        append_at-open b.current before last i m f g,
        g,
        same,
      )

pub flushed-Sound :
    (max_messages max_bytes : ℕ) (b : Builder)
    → 0 < b.count
    → Sound max_messages max_bytes b
    → Sound max_messages max_bytes (flushed b)
flushed-Sound max_messages max_bytes b some_in s = record {
  earlier =
      All-append (Fits max_messages max_bytes) b.batches (b.current ∷ []) s.earlier
        (closing_Fits s.started, tt);
  counted = refl;
  sized = refl;
  within = omega arith;
  started = inl (refl, refl);
}
  where
    closing_Fits : Started max_bytes b → Fits max_messages max_bytes b.current
    closing_Fits (inl (e, h)) = omega (arith, some_in, s.counted, ap (λ c. length (lines c)) e)
    closing_Fits (inr (h, k)) =
        (omega (arith, s.counted), omega (arith, s.counted, s.within), omega (arith, s.sized))

put_message-counted :
    (b : Builder) (chat : Chat) (m : Message) (cost : ℕ) (o : Option ℕ)
    → OpenAt o b.current chat
    → b.count ≡ length (lines b.current)
    → b.count + 1 ≡ length (lines (put_message b chat m cost o).current)
put_message-counted b chat m cost o held e =
    rw (put_message-lines b chat m cost o held)
      (omega (arith, e, length-append (lines b.current) ((empty_chat chat, m) ∷ [])))

pub put_message-Sound :
    (max_messages max_bytes : ℕ) (b : Builder) (chat : Chat) (m : Message) (o : Option ℕ)
    → OpenAt o b.current chat
    → b.count + 1 ≤ max_messages
    → b.size + message_cost o (chat_header_bytes chat) m ≤ max_bytes
    → Sound max_messages max_bytes b
    → Sound max_messages max_bytes
        (put_message b chat m (message_cost o (chat_header_bytes chat) m) o)
put_message-Sound max_messages max_bytes b chat m none held fits_count fits_bytes s = record {
  earlier = s.earlier;
  counted =
      put_message-counted b chat m (message_cost none (chat_header_bytes chat) m) none held
        s.counted;
  sized = omega (
    arith,
    s.sized,
    put_message-weight b chat m (message_cost none (chat_header_bytes chat) m) none held,
  );
  within = fits_count;
  started = inr (omega arith, fits_bytes);
}
put_message-Sound max_messages max_bytes b chat m (some i) held fits_count fits_bytes s = record {
  earlier = s.earlier;
  counted =
      put_message-counted b chat m (message_cost (some i) (chat_header_bytes chat) m) (some i) held
        s.counted;
  sized = omega (
    arith,
    s.sized,
    put_message-weight b chat m (message_cost (some i) (chat_header_bytes chat) m) (some i) held,
  );
  within = fits_count;
  started = inr (omega arith, fits_bytes);
}
