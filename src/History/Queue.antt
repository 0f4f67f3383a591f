-- ===== src/History/Queue.antt =====
-- internal/history/importer.go: the queues of chunks, one for each channel with a goroutine that
-- drains it. A chunk is a number. What was accepted, and what a goroutine took to import it, is
-- logged with its channel.
pub mod Order
use whatsmeow_gateway.Base.{
  ℕ, String, Bool, true, false, List, [], ◌∷◌, ◌++◌, Option, none, some, ◌==◌, string_Eq,
  if◌then◌else◌, lookup, insert, delete,
}

pub record Importer : Type 0 where
  pub closed : Bool
  pub queues : List (String × List ℕ)
  pub draining : List String
  pub accepted : List (String × ℕ)
  pub taken : List (String × ℕ)

abbrev pub new_importer : Importer
new_importer = record { closed = false; queues = []; draining = []; accepted = []; taken = [] }

abbrev pub put : Importer → String → List ℕ → ℕ → Importer
put i k pending chunk = record i {
  queues = insert k (pending ++ (chunk ∷ [])) i.queues;
  accepted = i.accepted ++ ((k, chunk) ∷ []);
}

-- The first chunk of a channel starts the goroutine.
abbrev pub accept_open : Importer → String → Option (List ℕ) → ℕ → Importer
accept_open i k (some pending) chunk = put i k pending chunk
accept_open i k none chunk = record (put i k [] chunk) { draining = k ∷ i.draining }

unfoldable pub accept : Importer → String → ℕ → Importer
accept i k chunk = if i.closed then i else accept_open i k (lookup k i.queues) chunk

-- Go's map gives the empty queue for a missing key.
abbrev pub pending_of : Option (List ℕ) → List ℕ
pending_of none = []
pending_of (some pending) = pending

abbrev pub take_from : Importer → String → List ℕ → Importer × Option ℕ
take_from i k [] = (record i { queues = delete k i.queues }, none)
take_from i k (chunk ∷ pending) = (record i { queues = insert k pending i.queues }, some chunk)

unfoldable pub next : Importer → String → Importer × Option ℕ
next i k = take_from i k (pending_of (lookup k i.queues))

abbrev pub remove_one : String → List String → List String
remove_one k [] = []
remove_one k (j ∷ js) = let rest = remove_one k js in if j == k then js else j ∷ rest

abbrev pub after_next : Importer × Option ℕ → String → Importer
after_next (i, none) k = record i { draining = remove_one k i.draining }
after_next (i, some chunk) k = record i { taken = i.taken ++ ((k, chunk) ∷ []) }

abbrev pub is_draining : String → List String → Bool
is_draining k [] = false
is_draining k (j ∷ js) = let rest = is_draining k js in if j == k then true else rest

-- A turn of the loop of `drain`, by the goroutine of a channel if it has one.
unfoldable pub drain_turn : Importer → String → Importer
drain_turn i k = if is_draining k i.draining then after_next (next i k) k else i

unfoldable pub close : Importer → Importer
close i = record i { closed = true }

pub data Use : Type 0 where
  accepts : String → ℕ → Use
  drains : String → Use
  closes : Use

abbrev pub apply : Importer → Use → Importer
apply i (accepts k chunk) = accept i k chunk
apply i (drains k) = drain_turn i k
apply i closes = close i

unfoldable pub run : Importer → List Use → Importer
run i [] = i
run i (u ∷ us) = run (apply i u) us
