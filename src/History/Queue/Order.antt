-- ===== src/History/Queue/Order.antt =====
-- internal/history/importer.go: a channel's chunks are imported one after another, in the order in
-- which they came.
use whatsmeow_gateway.Base.{
  ℕ, ◌+◌, ◌≤◌, String, true, false, ◌≡◌, refl, inl, inr, List, [], ◌∷◌, ◌++◌, Option, none, some,
  ◌==◌, string_Eq, if◌then◌else◌, lookup, lookup-insert, lookup-delete, arith, Option-cases,
  Bool-cases, ◌∙◌, ap, sym, subst,
}
use mathlib.Core.List.{append_assoc, append-nil}
use whatsmeow_gateway.History.Queue.{
  Importer, new_importer, accept, accept_open, pending_of, take_from, next, remove_one, after_next,
  is_draining, drain_turn, close, Use, accepts, drains, closes, apply, run,
}

-- The chunks of a channel in a log.
unfoldable pub of_channel : String → List (String × ℕ) → List ℕ
of_channel k [] = []
of_channel k ((j, chunk) ∷ rest) =
    let more = of_channel k rest in if j == k then chunk ∷ more else more

of_channel-append :
    (k : String) (xs ys : List (String × ℕ))
    → of_channel k (xs ++ ys) ≡ of_channel k xs ++ of_channel k ys
unfolding of_channel
of_channel-append k [] ys = refl
of_channel-append k ((j, chunk) ∷ xs) ys = ground (arith, of_channel-append k xs ys)

-- How many goroutines drain a channel.
unfoldable pub drainers : String → List String → ℕ
drainers k [] = 0
drainers k (j ∷ js) = (if j == k then 1 else 0) + drainers k js

drainers-remove_one :
    (k j : String) (js : List String)
    → is_draining k js ≡ true
    → drainers j js ≡ drainers j (remove_one k js) + (if k == j then 1 else 0)
unfolding drainers
drainers-remove_one k j [] h = absurd cc
drainers-remove_one k j (i ∷ js) h = ground (
  arith,
  drainers-remove_one k j js,
  string_Eq.same_iff i k,
  string_Eq.same_iff i j,
  string_Eq.same_iff k j,
)

-- What a channel's queue, goroutine and logs have to do with each other.
abbrev IsServed : Importer → String → Option (List ℕ) → Type 0
IsServed i k none = (drainers k i.draining ≡ 0) × (of_channel k i.accepted ≡ of_channel k i.taken)
IsServed i k (some pending) =
    (drainers k i.draining ≡ 1) × (of_channel k i.accepted ≡ of_channel k i.taken ++ pending)

abbrev AreServed : Importer → Type 0
AreServed i = (k : String) → IsServed i k (lookup k i.queues)

log_same :
    (k j : String) (l : List (String × ℕ)) (chunk : ℕ)
    → (k == j) ≡ true
    → of_channel j (l ++ ((k, chunk) ∷ [])) ≡ of_channel j l ++ (chunk ∷ [])
unfolding of_channel
log_same k j l chunk h = rw (of_channel-append j l ((k, chunk) ∷ []), h) refl

log_other :
    (k j : String) (l : List (String × ℕ)) (chunk : ℕ)
    → (k == j) ≡ false
    → of_channel j (l ++ ((k, chunk) ∷ [])) ≡ of_channel j l
unfolding of_channel
log_other k j l chunk h =
    rw (of_channel-append j l ((k, chunk) ∷ []), h) (append-nil (of_channel j l))

-- A channel's part of the state is read at what its queue is known to be.
IsServed-known :
    (i : Importer) (j : String) (o : Option (List ℕ))
    → lookup j i.queues ≡ o
    → IsServed i j o
    → IsServed i j (lookup j i.queues)
IsServed-known i j o e h = rw e h

IsServed-at :
    (i : Importer) (j : String) (o : Option (List ℕ))
    → lookup j i.queues ≡ o
    → IsServed i j (lookup j i.queues)
    → IsServed i j o
IsServed-at i j o e h = subst (IsServed i j) e h

-- A change that leaves the goroutines and logs of a channel alone.
unchanged :
    (i after : Importer) (j : String) (o : Option (List ℕ))
    → drainers j after.draining ≡ drainers j i.draining
    → of_channel j after.accepted ≡ of_channel j i.accepted
    → of_channel j after.taken ≡ of_channel j i.taken
    → IsServed i j o
    → IsServed after j o
unchanged i after j none d a t (h, g) = (d ∙ h, a ∙ g ∙ sym t)
unchanged i after j (some pending) d a t (h, g) = (d ∙ h, a ∙ g ∙ ap (λ x. x ++ pending) (sym t))

accept-AreServed :
    (i : Importer) (k : String) (chunk : ℕ) (o : Option (List ℕ))
    → lookup k i.queues ≡ o
    → AreServed i
    → AreServed (accept_open i k o chunk)
unfolding drainers
accept-AreServed i k chunk (some pending) e h j = elim (Bool-cases (k == j)) [
  | inl g ↦
      let same = (string_Eq.same_iff k j).0 g in
      let (one, all) = IsServed-at i j (some pending) (rw (sym same) e) (h j) in
      IsServed-known (accept_open i k (some pending) chunk) j (some (pending ++ (chunk ∷ [])))
        (ground (arith, lookup-insert k j (pending ++ (chunk ∷ [])) i.queues))
        (
          one,
          log_same k j i.accepted chunk g
              ∙ ap (λ x. x ++ (chunk ∷ [])) all
              ∙ append_assoc (of_channel j i.taken) pending (chunk ∷ []),
        )
  | inr g ↦
      IsServed-known (accept_open i k (some pending) chunk) j (lookup j i.queues)
        (ground (arith, lookup-insert k j (pending ++ (chunk ∷ [])) i.queues))
        (unchanged i (accept_open i k (some pending) chunk) j (lookup j i.queues) refl
          (log_other k j i.accepted chunk g) refl (h j))
]
accept-AreServed i k chunk none e h j = elim (Bool-cases (k == j)) [
  | inl g ↦
      let same = (string_Eq.same_iff k j).0 g in
      let (zero_of, all) = IsServed-at i j none (rw (sym same) e) (h j) in
      IsServed-known (accept_open i k none chunk) j (some (chunk ∷ []))
        (ground (arith, lookup-insert k j (chunk ∷ []) i.queues))
        (ground arith, log_same k j i.accepted chunk g ∙ ap (λ x. x ++ (chunk ∷ [])) all)
  | inr g ↦
      IsServed-known (accept_open i k none chunk) j (lookup j i.queues)
        (ground (arith, lookup-insert k j (chunk ∷ []) i.queues))
        (unchanged i (accept_open i k none chunk) j (lookup j i.queues) (ground arith)
          (log_other k j i.accepted chunk g) refl (h j))
]

is_draining-drainers : (k : String) (js : List String) → is_draining k js ≡ true → 1 ≤ drainers k js
unfolding drainers
is_draining-drainers k [] h = absurd cc
is_draining-drainers k (j ∷ js) h = ground (arith, is_draining-drainers k js)

turn-AreServed :
    (i : Importer) (k : String) (o : Option (List ℕ))
    → is_draining k i.draining ≡ true
    → lookup k i.queues ≡ o
    → AreServed i
    → AreServed (after_next (take_from i k (pending_of o)) k)
turn-AreServed i k none d e h j =
    let (zero_of, _) = IsServed-at i k none e (h k) in
    absurd (omega (arith, is_draining-drainers k i.draining d))
turn-AreServed i k (some []) d e h j =
    let after = after_next (take_from i k []) k in
    let count = drainers-remove_one k j i.draining d in
    elim (Bool-cases (k == j)) [
      | inl g ↦
          let same = (string_Eq.same_iff k j).0 g in
          let (one, all) = IsServed-at i j (some []) (rw (sym same) e) (h j) in
          IsServed-known after j none (ground (arith, lookup-delete k j i.queues))
            (ground arith, all ∙ append-nil (of_channel j i.taken))
      | inr g ↦
          IsServed-known after j (lookup j i.queues) (ground (arith, lookup-delete k j i.queues))
            (unchanged i after j (lookup j i.queues) (ground arith) refl refl (h j))
    ]
turn-AreServed i k (some (chunk ∷ pending)) d e h j =
    let after = after_next (take_from i k (chunk ∷ pending)) k in
    elim (Bool-cases (k == j)) [
      | inl g ↦
          let same = (string_Eq.same_iff k j).0 g in
          let (one, all) = IsServed-at i j (some (chunk ∷ pending)) (rw (sym same) e) (h j) in
          IsServed-known after j (some pending) (ground (arith, lookup-insert k j pending i.queues))
            (
              one,
              all
                  ∙ sym (append_assoc (of_channel j i.taken) (chunk ∷ []) pending)
                  ∙ ap (λ x. x ++ pending) (sym (log_same k j i.taken chunk g)),
            )
      | inr g ↦
          IsServed-known after j (lookup j i.queues)
            (ground (arith, lookup-insert k j pending i.queues))
            (unchanged i after j (lookup j i.queues) refl refl (log_other k j i.taken chunk g)
              (h j))
    ]

apply-AreServed : (i : Importer) (u : Use) → AreServed i → AreServed (apply i u)
unfolding accept drain_turn next close
apply-AreServed i (accepts k chunk) h = elim (Bool-cases i.closed) [
  | inl c ↦ simp c h
  | inr c ↦ simp c (accept-AreServed i k chunk (lookup k i.queues) refl h)
]
apply-AreServed i (drains k) h = elim (Bool-cases (is_draining k i.draining)) [
  | inl d ↦ rw d (turn-AreServed i k (lookup k i.queues) d refl h)
  | inr d ↦ rw d h
]
apply-AreServed i closes h = h

run-AreServed : (i : Importer) (us : List Use) → AreServed i → AreServed (run i us)
unfolding run
run-AreServed i [] h = h
run-AreServed i (u ∷ us) h = run-AreServed (apply i u) us (apply-AreServed i u h)

-- The queue that the channel has, or the empty one.
abbrev pub queue_of : Importer → String → List ℕ
queue_of i k = pending_of (lookup k i.queues)

-- However chunks arrive, goroutines turn and the importer closes, a channel has one goroutine while
-- it has a queue and none otherwise, and the chunks taken for it, then those in its queue, are the
-- accepted ones: each once, in the order of arrival.
pub run-serves :
    (us : List Use) (k : String)
    → let i = run new_importer us in
      (drainers k i.draining ≡ elim (lookup k i.queues) [ none ↦ 0 | some _ ↦ 1 ])
      × (of_channel k i.accepted ≡ of_channel k i.taken ++ queue_of i k)
unfolding lookup drainers of_channel
run-serves us k =
    let i = run new_importer us in
    let h = run-AreServed new_importer us (λ j. (refl, refl)) k in
    elim (Option-cases (lookup k i.queues)) [
      | inl e ↦
          let (a, b) = IsServed-at i k none e h in
          rw e (a, b ∙ sym (append-nil (of_channel k i.taken)))
      | inr (pending, e) ↦ rw e (IsServed-at i k (some pending) e h)
    ]
