-- ===== src/Amqp/Lanes.antt =====
-- `lanes` of internal/amqp/group_lanes.go: jobs of one channel run one after the other, in a lane
-- of their own with a bounded backlog.
-- The critical sections are steps on a state, and a schedule is a list of steps: a consumer offers
-- a job (`run`), and a worker goroutine of a lane (`drain`) either takes the next job or leaves, or
-- comes back from the job that it ran. The state also logs the jobs that were accepted and those
-- that have been run to their end.
pub mod Jobs
pub mod Steps
pub mod Order
use whatsmeow_gateway.Base.{
  ℕ, zero, suc, String, List, [], ◌∷◌, ◌++◌, Bool, true, false, Option, none, some, leb,
  if◌then◌else◌, string_Eq, lookup, insert, delete, length,
}

pub record Lanes (J : Type 0) : Type 0 where
  pub backlog : ℕ
  pub pending : List (String × List J)
  -- The goroutines of each lane, with the job in hand.
  pub workers : List (String × List (Option J))
  pub accepted : List (String × J)
  pub finished : List (String × J)

abbrev pub entries : {V : Type 0} → Option (List V) → List V
entries none = []
entries (some vs) = vs

abbrev pub is_busy : {V : Type 0} → Option V → Bool
is_busy none = false
is_busy (some v) = true

module _ {J : Type 0} where
  pub new_lanes : ℕ → Lanes J
  new_lanes backlog = record {
    backlog = backlog;
    pending = [];
    workers = [];
    accepted = [];
    finished = [];
  }

  abbrev pub queued : Lanes J → String → List J
  queued l key = entries (lookup key l.pending)

  abbrev pub workers_of : Lanes J → String → List (Option J)
  workers_of l key = entries (lookup key l.workers)

  -- `go l.drain(key)`.
  abbrev pub start_worker : Lanes J → String → List (String × List (Option J))
  start_worker l key = insert key (none ∷ workers_of l key) l.workers

  -- `run`: whether the job was accepted.
  pub run : Lanes J → String → J → Lanes J × Bool
  run l key job = if leb l.backlog (length (queued l key)) then (l, false) else (
    record l {
      pending = insert key (queued l key ++ job ∷ []) l.pending;
      workers = if is_busy (lookup key l.pending) then l.workers else start_worker l key;
      accepted = l.accepted ++ (key, job) ∷ [];
    },
    true,
  )

  -- The workers of a lane with one of them changed, or gone.
  abbrev pub replace_worker : List (Option J) → ℕ → Option J → List (Option J)
  replace_worker [] i w = []
  replace_worker (v ∷ vs) zero w = w ∷ vs
  replace_worker (v ∷ vs) (suc i) w = v ∷ replace_worker vs i w

  abbrev pub drop_worker : List (Option J) → ℕ → List (Option J)
  drop_worker [] i = []
  drop_worker (v ∷ vs) zero = vs
  drop_worker (v ∷ vs) (suc i) = v ∷ drop_worker vs i

  -- The next critical section of `drain`: take the head of the queue, or leave an empty lane.
  abbrev pub take_next : Lanes J → String → ℕ → List J → Lanes J
  take_next l key i [] = record l {
    pending = delete key l.pending;
    workers = insert key (drop_worker (workers_of l key) i) l.workers;
  }
  take_next l key i (job ∷ rest) = record l {
    pending = insert key rest l.pending;
    workers = insert key (replace_worker (workers_of l key) i (some job)) l.workers;
  }

  abbrev pub finish_job : Lanes J → String → ℕ → J → Lanes J
  finish_job l key i job = record l {
    workers = insert key (replace_worker (workers_of l key) i none) l.workers;
    finished = l.finished ++ (key, job) ∷ [];
  }

  abbrev pub worker_at : List (Option J) → ℕ → Option (Option J)
  worker_at [] i = none
  worker_at (v ∷ vs) zero = some v
  worker_at (v ∷ vs) (suc i) = worker_at vs i

  abbrev pub work : Lanes J → String → ℕ → Option (Option J) → Lanes J
  work l key i none = l
  work l key i (some none) = take_next l key i (queued l key)
  work l key i (some (some job)) = finish_job l key i job

  -- One round of `drain` by the lane's i-th worker, in two steps.
  pub drain : Lanes J → String → ℕ → Lanes J
  drain l key i = work l key i (worker_at (workers_of l key) i)

pub data Step (J : Type 0) : Type 0 where
  offer : String → J → Step J
  works : String → ℕ → Step J

module _ {J : Type 0} where
  abbrev pub step : Lanes J → Step J → Lanes J
  step l (offer key job) = (run l key job).0
  step l (works key i) = drain l key i

  pub run_steps : Lanes J → List (Step J) → Lanes J
  run_steps l [] = l
  run_steps l (s ∷ ss) = run_steps (step l s) ss
