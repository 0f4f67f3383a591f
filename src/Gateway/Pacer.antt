-- ===== src/Gateway/Pacer.antt =====
-- `channelPacer` of internal/gateway/groups.go: a gap between two group actions of a channel.
-- Times are in nanoseconds; a context that ends before the timer stops the wait.
use whatsmeow_gateway.Base.{
  ℕ, ◌+◌, ◌-◌, ◌≤◌, ◌<◌, String, List, Bool, not, Option, none, some, ltb, leb, if◌then◌else◌,
  string_Eq, lookup, insert, retain, lookup-insert, lookup-retain, keep_if, ◌≡◌, refl, arith,
  [], ◌∷◌, ◌⊎◌, ◌≢◌, inl, inr, Bool-cases, All,
}

abbrev pub group_gap_min : ℕ
group_gap_min = 300_000_000

abbrev pub group_gap_jitter : ℕ
group_gap_jitter = 500_000_000

abbrev pub Pacer : Type 0
Pacer = List (String × ℕ)

-- What a wait meets: the time at its start, the random part of the gap, and whether the context
-- ends before the timer.
pub record Pace : Type 0 where
  pub now : ℕ
  pub jitter : ℕ
  pub interrupted : Bool

abbrev wait_after : Option ℕ → Pace → Option ℕ
wait_after none pace = some pace.now
wait_after (some last) pace =
    if leb (last + group_gap_min + pace.jitter) pace.now
    then some pace.now
    else if pace.interrupted
    then none
    else some (last + group_gap_min + pace.jitter)

-- `wait`: the time at which it returns nil, or `none` for `errShuttingDown`.
unfoldable pub wait : Pacer → String → Pace → Option ℕ
wait p channel_id pace = wait_after (lookup channel_id p) pace

abbrev is_recent : ℕ → ℕ → Bool
is_recent now last = not (ltb (group_gap_min + group_gap_jitter) (now - last))

unfoldable pub touch : Pacer → String → ℕ → Pacer
touch p channel_id now = insert channel_id now (retain (is_recent now) p)

-- The touches of a channel's actions, each with its time.
unfoldable pub touch_all : Pacer → List (String × ℕ) → Pacer
touch_all p [] = p
touch_all p ((channel_id, now) ∷ rest) = touch_all (touch p channel_id now) rest

-- The channel's entry is there, or it was forgotten when the gap was over.
abbrev IsKept : String → ℕ → ℕ → Pacer → Type 0
IsKept channel_id last until p =
    (lookup channel_id p ≡ some last)
    ⊎ ((lookup channel_id p ≡ none) × (last + group_gap_min ≤ until))

touch-IsKept :
    (channel_id other : String) (last until now : ℕ) (p : Pacer)
    → other ≢ channel_id
    → now ≤ until
    → IsKept channel_id last until p
    → IsKept channel_id last until (touch p other now)
unfolding touch
touch-IsKept channel_id other last until now p ne le (inl e) =
    elim (Bool-cases (is_recent now last)) [
      | inl recent ↦ inl (ground (
          arith,
          lookup-insert other channel_id now (retain (is_recent now) p),
          lookup-retain (is_recent now) channel_id p,
          string_Eq.same_iff other channel_id,
        ))
      | inr old ↦ inr (
        ground (
          arith,
          lookup-insert other channel_id now (retain (is_recent now) p),
          lookup-retain (is_recent now) channel_id p,
          string_Eq.same_iff other channel_id,
        ),
        ground arith,
      )
    ]
touch-IsKept channel_id other last until now p ne le (inr (e, over)) = inr (
  ground (
    arith,
    lookup-insert other channel_id now (retain (is_recent now) p),
    lookup-retain (is_recent now) channel_id p,
    string_Eq.same_iff other channel_id,
  ),
  over,
)

-- A touch of another channel, at a time not after `until`.
abbrev pub IsOther : String → ℕ → String × ℕ → Type 0
IsOther channel_id until touched = (touched.0 ≢ channel_id) × (touched.1 ≤ until)

touch_all-IsKept :
    (channel_id : String) (last until : ℕ) (p : Pacer) (others : List (String × ℕ))
    → All (IsOther channel_id until) others
    → IsKept channel_id last until p
    → IsKept channel_id last until (touch_all p others)
unfolding touch_all
touch_all-IsKept channel_id last until p [] all h = h
touch_all-IsKept channel_id last until p ((other, now) ∷ rest) ((ne, le), all) h =
    touch_all-IsKept channel_id last until (touch p other now) rest all
      (touch-IsKept channel_id other last until now p ne le h)

wait-IsKept :
    (channel_id : String) (last : ℕ) (p : Pacer) (pace : Pace) {t : ℕ}
    → IsKept channel_id last pace.now p
    → wait p channel_id pace ≡ some t
    → last + group_gap_min ≤ t
unfolding wait
wait-IsKept channel_id last p pace (inl e) h = ground arith
wait-IsKept channel_id last p pace (inr (e, over)) h = ground arith

-- An action of a channel that was touched at `last`, by an earlier action and with any actions of
-- other channels since, starts at least the minimal gap after it.
pub wait-touch :
    (p : Pacer) (channel_id : String) (last : ℕ) (others : List (String × ℕ)) (pace : Pace) {t : ℕ}
    → All (IsOther channel_id pace.now) others
    → wait (touch_all (touch p channel_id last) others) channel_id pace ≡ some t
    → last + group_gap_min ≤ t
unfolding touch
wait-touch p channel_id last others pace all h =
    wait-IsKept channel_id last (touch_all (touch p channel_id last) others) pace
      (touch_all-IsKept channel_id last pace.now (touch p channel_id last) others all
        (inl (ground (
          arith,
          lookup-insert channel_id channel_id last (retain (is_recent last) p),
          string_Eq.same_iff channel_id channel_id,
        ))))
      h

wait_after-keep_if :
    (now : ℕ) (entry : Option ℕ) (pace : Pace)
    → now ≤ pace.now
    → pace.jitter < group_gap_jitter
    → wait_after (keep_if (is_recent now) entry) pace ≡ wait_after entry pace
wait_after-keep_if now none pace h j = refl
wait_after-keep_if now (some last) pace h j = ground arith

-- Forgetting old entries is never noticed: after a touch, each later wait of any channel is the
-- one that it would be if the touch had only added its own entry.
pub wait-touch_forgets :
    (p : Pacer) (channel_id other : String) (now : ℕ) (pace : Pace)
    → now ≤ pace.now
    → pace.jitter < group_gap_jitter
    → wait (touch p channel_id now) other pace ≡ wait (insert channel_id now p) other pace
unfolding wait touch
wait-touch_forgets p channel_id other now pace h j =
    rw
      (
        lookup-insert channel_id other now (retain (is_recent now) p),
        lookup-insert channel_id other now p,
        lookup-retain (is_recent now) other p,
      )
      (ground (arith, wait_after-keep_if now (lookup other p) pace h j))
