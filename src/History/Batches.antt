-- ===== src/History/Batches.antt =====
-- internal/history/batches.go: the chats of a history chunk, cut into batches that the broker takes.
-- A message is its JSON, a list of bytes; reading the id in it is `encoding/json`'s, a parameter.
pub mod Weights
pub mod Placing
pub mod Fitting
pub mod Splitting
use Prim.Native.String.{len}
use whatsmeow_gateway.Base.{
  ℕ, zero, suc, ◌+◌, String, List, [], ◌∷◌, ◌++◌, Bool, true, false, ◌&&◌, ◌||◌, Option, none, some,
  ltb, nat_eq, if◌then◌else◌, length,
}

abbrev pub Message : Type 0
Message = List ℕ

-- `amqp.HistoryChat`.
pub record Chat : Type 0 where
  pub phone : String
  pub lid : Option String
  pub profile_name : Option String
  pub messages : List Message

abbrev pub batch_envelope_bytes : ℕ
batch_envelope_bytes = 512

abbrev pub chat_envelope_bytes : ℕ
chat_envelope_bytes = 96

abbrev text_bytes : Option String → ℕ
text_bytes none = 0
text_bytes (some s) = len s

unfoldable pub chat_header_bytes : Chat → ℕ
chat_header_bytes c =
    chat_envelope_bytes + len c.phone + text_bytes c.lid + text_bytes c.profile_name

abbrev pub empty_chat : Chat → Chat
empty_chat c = record c { messages = [] }

-- The variables of `Split`; `open` is the index in `current` of the chat being filled, or -1.
pub record Builder : Type 0 where
  pub batches : List (List Chat)
  pub oversized : List String
  pub current : List Chat
  pub count : ℕ
  pub size : ℕ
  pub opened : Option ℕ

abbrev pub flushed : Builder → Builder
flushed b = record b {
  batches = b.batches ++ b.current ∷ [];
  current = [];
  count = 0;
  size = batch_envelope_bytes;
  opened = none;
}

-- `current[i].Messages = append(current[i].Messages, message)`.
abbrev pub append_at : List Chat → ℕ → Message → List Chat
append_at [] i m = []
append_at (c ∷ cs) zero m = record c { messages = c.messages ++ m ∷ [] } ∷ cs
append_at (c ∷ cs) (suc i) m = c ∷ append_at cs i m

-- The message goes into the open chat, or into a new one of the same header.
abbrev pub put_message : Builder → Chat → Message → ℕ → Option ℕ → Builder
put_message b chat m cost (some i) = record b {
  current = append_at b.current i m;
  count = b.count + 1;
  size = b.size + cost;
}
put_message b chat m cost none = record b {
  current = append_at (b.current ++ empty_chat chat ∷ []) (length b.current) m;
  count = b.count + 1;
  size = b.size + cost;
  opened = some (length b.current);
}

abbrev pub message_cost : Option ℕ → ℕ → Message → ℕ
message_cost (some i) header m = length m + 1
message_cost none header m = length m + 1 + header

abbrev pub must_flush : ℕ → ℕ → Builder → ℕ → Bool
must_flush max_messages max_bytes b cost =
    ltb 0 b.count && (nat_eq b.count max_messages || ltb max_bytes (b.size + cost))

abbrev pub place_fitting : ℕ → ℕ → Builder → Chat → Message → Builder
place_fitting max_messages max_bytes b chat m =
    let header = chat_header_bytes chat in
    let cost = message_cost b.opened header m in
    if must_flush max_messages max_bytes b cost
    then put_message (flushed b) chat m (length m + 1 + header) none
    else put_message b chat m cost b.opened

abbrev pub is_oversized : ℕ → Chat → Message → Bool
is_oversized max_bytes chat m =
    ltb max_bytes (batch_envelope_bytes + chat_header_bytes chat + length m + 1)

module _ (provider_message_id : Message → String) (max_messages max_bytes : ℕ) where
  -- One round of the loop over a chat's messages.
  unfoldable pub place : Builder → Chat → Message → Builder
  place b chat m =
      if is_oversized max_bytes chat m
      then record b { oversized = b.oversized ++ provider_message_id m ∷ [] }
      else place_fitting max_messages max_bytes b chat m

  unfoldable pub place_all : Builder → Chat → List Message → Builder
  place_all b chat [] = b
  place_all b chat (m ∷ ms) = place_all (place b chat m) chat ms

  -- The loop over the chats; each begins with no open chat.
  unfoldable pub place_chats : Builder → List Chat → Builder
  place_chats b [] = b
  place_chats b (chat ∷ chats) =
      place_chats (place_all (record b { opened = none }) chat chat.messages) chats

  abbrev pub closed : Builder → List (List Chat) × List String
  closed b = (if ltb 0 b.count then b.batches ++ b.current ∷ [] else b.batches, b.oversized)

  abbrev pub new_builder : Builder
  new_builder = record {
    batches = [];
    oversized = [];
    current = [];
    count = 0;
    size = batch_envelope_bytes;
    opened = none;
  }

  -- `Split`.
  unfoldable pub split : List Chat → List (List Chat) × List String
  split chats = closed (place_chats new_builder chats)
