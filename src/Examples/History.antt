-- ===== src/Examples/History.antt =====
-- Runs of internal/history/batches.go: four messages, one too large, at most two a batch.
use whatsmeow_gateway.Base.{
  ℕ, zero, suc, String, List, [], ◌∷◌, map, none, some, ◌≡◌, ◌≤◌, All, select, arith,
}
use whatsmeow_gateway.History.Batches.{Chat, Message, split}
use whatsmeow_gateway.History.Batches.Weights.{all_lines, lines}
use whatsmeow_gateway.History.Batches.Placing.{Fits}
use whatsmeow_gateway.History.Batches.Splitting.{
  is_sendable, is_too_large, split-keeps_messages, split-Fits,
}

abbrev message_id : Message → String
message_id m = "id"

abbrev long_message : ℕ → Message
long_message zero = []
long_message (suc n) = 7 ∷ long_message n

abbrev chats : List Chat
chats =
    record {
      phone = "551";
      lid = none;
      profile_name = some "Ana";
      messages = (1 ∷ []) ∷ (2 ∷ []) ∷ long_message 40 ∷ [];
    }
    ∷ record { phone = "552"; lid = none; profile_name = none; messages = (3 ∷ []) ∷ [] }
    ∷ []

one≤two : 1 ≤ 2
one≤two = omega arith

split-keeps_messages_example :
    (all_lines (split message_id 2 640 chats).0 ≡ select (is_sendable 640) (lines chats))
    × ((split message_id 2 640 chats).1
        ≡ map (λ l. message_id l.1) (select (is_too_large 640) (lines chats)))
split-keeps_messages_example = split-keeps_messages message_id 2 640 chats one≤two

split-Fits_example : All (Fits 2 640) (split message_id 2 640 chats).0
split-Fits_example = split-Fits message_id 2 640 chats one≤two
