-- ===== src/Call/Outbound.antt =====
-- internal/call/outbound.go: the audio that a call sends, an announcement or the frames that the
-- operator streams. The recorder that a read also writes to is a value of the result.
pub mod Playing
use whatsmeow_gateway.Base.{
  ℕ, zero, suc, ◌-◌, List, [], ◌∷◌, ◌++◌, Bool, true, false, ◌||◌, Option, none, some, ltb, leb,
  if◌then◌else◌, length, take, drop, Result, ok, err, String,
}

-- `operatorQueueFrames`.
abbrev pub operator_queue_frames : ℕ
operator_queue_frames = 50

-- `outboundAudio`.
pub record Outbound : Type 0 where
  pub closed : Bool
  pub announcement : List ℕ
  pub queue : List (List ℕ)
  pub pending : List ℕ

abbrev pub new_outbound : Outbound
new_outbound = record { closed = false; announcement = []; queue = []; pending = [] }

abbrev pub is_empty {ℓ} : {A : Type ℓ} → List A → Bool
is_empty [] = true
is_empty (x ∷ xs) = false

abbrev pub zeros : ℕ → List ℕ
zeros zero = []
zeros (suc n) = 0 ∷ zeros n

-- The loop of `Read` over the operator's frames: what is copied, and what stays pending and queued.
abbrev pub fill : ℕ → List ℕ → List (List ℕ) → List ℕ × List ℕ × List (List ℕ)
fill n pending [] = (take n pending, drop n pending, [])
fill n pending (frame ∷ queue) =
    let rest = fill (n - length pending) frame queue in
    if ltb (length pending) n
    then (pending ++ rest.0, rest.1, rest.2)
    else (take n pending, drop n pending, frame ∷ queue)

-- What `Read` gives into a buffer of `n` bytes: its bytes, and whether the recorder takes them too.
pub data Reading : Type 0 where
  eof : Reading
  read_bytes : List ℕ → Bool → Reading

abbrev pub filled : ℕ → List ℕ → Reading
filled n played = read_bytes (played ++ zeros (n - length played)) (ltb 0 (length played))

unfoldable pub read : ℕ → Outbound → Reading × Outbound
read zero o = (read_bytes [] false, o)
read (suc k) o =
    let n = suc k in
    let (played, pending, queue) = fill n o.pending o.queue in
    if o.closed
    then (eof, o)
    else if is_empty o.announcement
    then (filled n played, record o { pending = pending; queue = queue })
    else (filled n (take n o.announcement), record o { announcement = drop n o.announcement })

abbrev pub close : Outbound → Outbound
close o = record { closed = true; announcement = []; queue = []; pending = [] }

abbrev pub without_oldest : List (List ℕ) → List (List ℕ)
without_oldest queue = if leb operator_queue_frames (length queue) then drop 1 queue else queue

unfoldable pub write_operator : List ℕ → Outbound → Result String (Unit {0}) × Outbound
write_operator frame o =
    if o.closed
    then (err "call: queue operator audio: io: read/write on closed pipe", o)
    else if is_empty o.announcement
    then (ok tt, record o { queue = without_oldest o.queue ++ frame ∷ [] })
    else (ok tt, o)

abbrev pub clear_operator : Outbound → Outbound
clear_operator o = record o { queue = []; pending = [] }

unfoldable pub play_announcement : List ℕ → Outbound → Result String (Unit {0}) × Outbound
play_announcement pcm o =
    if o.closed
    then (err "call: play announcement: io: read/write on closed pipe", o)
    else (ok tt, record o { announcement = pcm; queue = []; pending = [] })
