-- ===== src/History/Batches/Weights.antt =====
-- The lines of chats, a message with the header of its chat, and the bytes that a batch is counted.
use mathlib.Core.List.{append-nil, append_assoc}
use whatsmeow_gateway.Base.{ℕ, ◌+◌, List, [], ◌∷◌, ◌++◌, ◌≡◌, refl, sym, ap, ◌∙◌, arith, length}
use whatsmeow_gateway.History.Batches.{Message, Chat, empty_chat, chat_header_bytes, append_at}

abbrev pub Line : Type 0
Line = Chat × Message

abbrev pub tagged : Chat → List Message → List Line
tagged h [] = []
tagged h (m ∷ ms) = (h, m) ∷ tagged h ms

abbrev pub lines : List Chat → List Line
lines [] = []
lines (c ∷ cs) = tagged (empty_chat c) c.messages ++ lines cs

abbrev pub all_lines : List (List Chat) → List Line
all_lines [] = []
all_lines (b ∷ bs) = lines b ++ all_lines bs

abbrev pub message_bytes : List Message → ℕ
message_bytes [] = 0
message_bytes (m ∷ ms) = length m + 1 + message_bytes ms

abbrev pub weight : List Chat → ℕ
weight [] = 0
weight (c ∷ cs) = chat_header_bytes c + message_bytes c.messages + weight cs

tagged-append : (h : Chat) (xs ys : List Message) → tagged h (xs ++ ys) ≡ tagged h xs ++ tagged h ys
tagged-append h [] ys = refl
tagged-append h (x ∷ xs) ys = ap (◌∷◌ (h, x)) (tagged-append h xs ys)

pub lines-append : (xs ys : List Chat) → lines (xs ++ ys) ≡ lines xs ++ lines ys
lines-append [] ys = refl
lines-append (c ∷ xs) ys =
    ap (λ l. tagged (empty_chat c) c.messages ++ l) (lines-append xs ys)
    ∙ sym (append_assoc (tagged (empty_chat c) c.messages) (lines xs) (lines ys))

pub all_lines-append :
    (xs ys : List (List Chat)) → all_lines (xs ++ ys) ≡ all_lines xs ++ all_lines ys
all_lines-append [] ys = refl
all_lines-append (b ∷ xs) ys =
    ap (λ l. lines b ++ l) (all_lines-append xs ys)
    ∙ sym (append_assoc (lines b) (all_lines xs) (all_lines ys))

message_bytes-append :
    (xs ys : List Message) → message_bytes (xs ++ ys) ≡ message_bytes xs + message_bytes ys
message_bytes-append [] ys = omega arith
message_bytes-append (x ∷ xs) ys = omega (arith, message_bytes-append xs ys)

pub weight-append : (xs ys : List Chat) → weight (xs ++ ys) ≡ weight xs + weight ys
weight-append [] ys = omega arith
weight-append (c ∷ xs) ys = omega (arith, weight-append xs ys)

-- Appending a message to the last chat.
pub append_at-last :
    (before : List Chat) (c : Chat) (m : Message)
    → append_at (before ++ c ∷ []) (length before) m
      ≡ before ++ record c { messages = c.messages ++ m ∷ [] } ∷ []
append_at-last [] c m = refl
append_at-last (b ∷ before) c m = ap (◌∷◌ b) (append_at-last before c m)

pub lines-last :
    (before : List Chat) (c : Chat) (m : Message)
    → lines (before ++ record c { messages = c.messages ++ m ∷ [] } ∷ [])
      ≡ lines (before ++ c ∷ []) ++ (empty_chat c, m) ∷ []
lines-last before c m =
    rw
      (
        lines-append before (record c { messages = c.messages ++ m ∷ [] } ∷ []),
        lines-append before (c ∷ []),
        tagged-append (empty_chat c) c.messages (m ∷ []),
      )
      (simp (append-nil, append_assoc))

pub weight-last :
    (before : List Chat) (c : Chat) (m : Message)
    → weight (before ++ record c { messages = c.messages ++ m ∷ [] } ∷ [])
      ≡ weight (before ++ c ∷ []) + (length m + 1)
unfolding chat_header_bytes
weight-last before c m = omega (
  arith,
  weight-append before (record c { messages = c.messages ++ m ∷ [] } ∷ []),
  weight-append before (c ∷ []),
  message_bytes-append c.messages (m ∷ []),
)
