-- ===== src/Amqp/Lanes/Jobs.antt =====
-- What a lane of internal/amqp/group_lanes.go keeps, and the four ways in which it changes.
use mathlib.Core.List.{append-nil, append_assoc}
use whatsmeow_gateway.Base.{
  ℕ, zero, suc, ◌≤◌, String, List, [], ◌∷◌, ◌++◌, false, Option, none, some, leb, if◌then◌else◌,
  string_Eq, ◌==◌, lookup, length, ◌≡◌, ap, arith, length-append,
}
use whatsmeow_gateway.Amqp.Lanes.{
  Lanes, workers_of, is_busy, entries, worker_at, replace_worker, drop_worker,
}

module _ {J : Type 0} where
  -- The jobs of one lane in a log.
  abbrev pub jobs_of : String → List (String × J) → List J
  jobs_of key [] = []
  jobs_of key ((k, job) ∷ log) = let rest = jobs_of key log in if k == key then job ∷ rest else rest

  pub jobs_of-append :
      (key k : String) (log : List (String × J)) (job : J)
      → jobs_of key (log ++ (k, job) ∷ [])
        ≡ (if k == key then jobs_of key log ++ job ∷ [] else jobs_of key log)
  jobs_of-append key k [] job = ground arith
  jobs_of-append key k ((j, x) ∷ log) job = ground (arith, jobs_of-append key k log job)

  abbrev pub in_hand : Option J → List J
  in_hand none = []
  in_hand (some job) = job ∷ []

  -- A lane is idle, with every accepted job finished, or it has one worker, and what is finished,
  -- in hand and queued is what was accepted, in that order, with the queue within its bound.
  abbrev pub LaneInv : String → ℕ → Option (List J) → List (Option J) → List J → List J → Type 0
  LaneInv key backlog none [] finished accepted = finished ≡ accepted
  LaneInv key backlog none (w ∷ ws) finished accepted = ⊥
  LaneInv key backlog (some queue) [] finished accepted = ⊥
  LaneInv key backlog (some queue) (w ∷ []) finished accepted =
      (length queue ≤ backlog) × (finished ++ (in_hand w ++ queue) ≡ accepted)
  LaneInv key backlog (some queue) (w ∷ v ∷ ws) finished accepted = ⊥

  abbrev pub Inv : Lanes J → String → Type 0
  Inv l key =
      LaneInv key l.backlog (lookup key l.pending) (workers_of l key) (jobs_of key l.finished)
        (jobs_of key l.accepted)

  -- One lane on its own, through each kind of step.
  pub accepting-LaneInv :
      (key : String) (backlog : ℕ) (p : Option (List J)) (ws : List (Option J)) (fin acc : List J)
      (job : J)
      → LaneInv key backlog p ws fin acc
      → leb backlog (length (entries p)) ≡ false
      → LaneInv key backlog
          (some (entries p ++ job ∷ []))
          (if is_busy p then ws else none ∷ ws)
          fin
          (acc ++ job ∷ [])
  accepting-LaneInv key backlog none [] fin acc job h room =
      (ground arith, ap (λ (l : List J). l ++ job ∷ []) h)
  accepting-LaneInv key backlog none (w ∷ ws) fin acc job h room = absurd h
  accepting-LaneInv key backlog (some q) [] fin acc job h room = absurd h
  accepting-LaneInv key backlog (some q) (w ∷ []) fin acc job h room =
      (ground (arith, length-append q (job ∷ [])), rw (← h.1) (simp append_assoc))
  accepting-LaneInv key backlog (some q) (w ∷ v ∷ ws) fin acc job h room = absurd h

  pub taking-LaneInv :
      (key : String) (backlog : ℕ) (p : Option (List J)) (ws : List (Option J)) (fin acc : List J)
      (i : ℕ) (job : J) (rest : List J)
      → LaneInv key backlog p ws fin acc
      → worker_at ws i ≡ some none
      → entries p ≡ job ∷ rest
      → LaneInv key backlog (some rest) (replace_worker ws i (some job)) fin acc
  taking-LaneInv key backlog none [] fin acc i job rest h at_i e = cc
  taking-LaneInv key backlog none (w ∷ ws) fin acc i job rest h at_i e = absurd h
  taking-LaneInv key backlog (some q) [] fin acc i job rest h at_i e = absurd h
  taking-LaneInv key backlog (some q) (w ∷ []) fin acc zero job rest h at_i e = ground arith
  taking-LaneInv key backlog (some q) (w ∷ []) fin acc (suc i) job rest h at_i e = cc
  taking-LaneInv key backlog (some q) (w ∷ v ∷ ws) fin acc i job rest h at_i e = absurd h

  pub leaving-LaneInv :
      (key : String) (backlog : ℕ) (p : Option (List J)) (ws : List (Option J)) (fin acc : List J)
      (i : ℕ)
      → LaneInv key backlog p ws fin acc
      → worker_at ws i ≡ some none
      → entries p ≡ []
      → LaneInv key backlog none (drop_worker ws i) fin acc
  leaving-LaneInv key backlog none [] fin acc i h at_i e = cc
  leaving-LaneInv key backlog none (w ∷ ws) fin acc i h at_i e = absurd h
  leaving-LaneInv key backlog (some q) [] fin acc i h at_i e = absurd h
  leaving-LaneInv key backlog (some q) (w ∷ []) fin acc zero h at_i e =
      ground (arith, append-nil fin)
  leaving-LaneInv key backlog (some q) (w ∷ []) fin acc (suc i) h at_i e = cc
  leaving-LaneInv key backlog (some q) (w ∷ v ∷ ws) fin acc i h at_i e = absurd h

  pub finishing-LaneInv :
      (key : String) (backlog : ℕ) (p : Option (List J)) (ws : List (Option J)) (fin acc : List J)
      (i : ℕ) (job : J)
      → LaneInv key backlog p ws fin acc
      → worker_at ws i ≡ some (some job)
      → LaneInv key backlog p (replace_worker ws i none) (fin ++ job ∷ []) acc
  finishing-LaneInv key backlog none [] fin acc i job h at_i = cc
  finishing-LaneInv key backlog none (w ∷ ws) fin acc i job h at_i = absurd h
  finishing-LaneInv key backlog (some q) [] fin acc i job h at_i = absurd h
  finishing-LaneInv key backlog (some q) (w ∷ []) fin acc zero job h at_i =
      ground (arith, append_assoc fin (job ∷ []) q)
  finishing-LaneInv key backlog (some q) (w ∷ []) fin acc (suc i) job h at_i = cc
  finishing-LaneInv key backlog (some q) (w ∷ v ∷ ws) fin acc i job h at_i = absurd h
