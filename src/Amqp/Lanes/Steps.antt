-- ===== src/Amqp/Lanes/Steps.antt =====
-- Offers and the steps of workers keep the lanes of internal/amqp/group_lanes.go.
use whatsmeow_gateway.Base.{
  ℕ, String, List, [], ◌∷◌, ◌++◌, false, Option, none, some, leb, if◌then◌else◌, string_Eq, ◌==◌,
  lookup, length, lookup-insert, lookup-delete, ◌≡◌, arith, inl, inr, Bool-cases, ==-refl,
}
use whatsmeow_gateway.Amqp.Lanes.{
  Lanes, run, queued, workers_of, is_busy, entries, work, worker_at, replace_worker, drop_worker,
  start_worker,
}
use whatsmeow_gateway.Amqp.Lanes.Jobs.{
  jobs_of, jobs_of-append, Inv, accepting-LaneInv, taking-LaneInv, leaving-LaneInv,
  finishing-LaneInv,
}

module _ {J : Type 0} where
  start_worker-workers :
      (l : Lanes J) (k : String)
      → entries (lookup k (if is_busy (lookup k l.pending) then l.workers else start_worker l k))
        ≡ (if is_busy (lookup k l.pending) then workers_of l k else none ∷ workers_of l k)
  start_worker-workers l k =
      ground (arith, ==-refl k, lookup-insert k k (none ∷ workers_of l k) l.workers)

  start_worker-other :
      (l : Lanes J) (k key : String)
      → (k == key) ≡ false
      → entries (lookup key (if is_busy (lookup k l.pending) then l.workers else start_worker l k))
        ≡ workers_of l key
  start_worker-other l k key ne =
      ground (arith, lookup-insert k key (none ∷ workers_of l k) l.workers)

  pub run-Inv_own : (l : Lanes J) (k : String) (job : J) → Inv l k → Inv (run l k job).0 k
  unfolding run
  run-Inv_own l k job h = elim (Bool-cases (leb l.backlog (length (queued l k)))) [
    | inl full ↦ rw full h
    | inr room ↦ rw room (
        rw
          (
            lookup-insert k k (queued l k ++ job ∷ []) l.pending,
            ==-refl k,
            start_worker-workers l k,
            jobs_of-append k k l.accepted job,
            ==-refl k,
          )
          (accepting-LaneInv k l.backlog (lookup k l.pending) (workers_of l k)
            (jobs_of k l.finished) (jobs_of k l.accepted) job h room))
  ]

  pub run-Inv_other :
      (l : Lanes J) (k : String) (job : J) (key : String)
      → (k == key) ≡ false
      → Inv l key
      → Inv (run l k job).0 key
  unfolding run
  run-Inv_other l k job key ne h = elim (Bool-cases (leb l.backlog (length (queued l k)))) [
    | inl full ↦ rw full h
    | inr room ↦ rw room (
        rw
          (
            lookup-insert k key (queued l k ++ job ∷ []) l.pending,
            ne,
            start_worker-other l k key ne,
            jobs_of-append key k l.accepted job,
            ne,
          )
          h)
  ]

  pub work-Inv_own :
      (l : Lanes J) (k : String) (i : ℕ) (w : Option (Option J)) (q : List J)
      → worker_at (workers_of l k) i ≡ w
      → queued l k ≡ q
      → Inv l k
      → Inv (work l k i w) k
  work-Inv_own l k i none q at_i e h = h
  work-Inv_own l k i (some none) [] at_i e h = rw e (
      rw
        (
          lookup-delete k k l.pending,
          ==-refl k,
          lookup-insert k k (drop_worker (workers_of l k) i) l.workers,
          ==-refl k,
        )
        (leaving-LaneInv k l.backlog (lookup k l.pending) (workers_of l k) (jobs_of k l.finished)
          (jobs_of k l.accepted) i h at_i e))
  work-Inv_own l k i (some none) (job ∷ rest) at_i e h = rw e (
      rw
        (
          lookup-insert k k rest l.pending,
          ==-refl k,
          lookup-insert k k (replace_worker (workers_of l k) i (some job)) l.workers,
          ==-refl k,
        )
        (taking-LaneInv k l.backlog (lookup k l.pending) (workers_of l k) (jobs_of k l.finished)
          (jobs_of k l.accepted) i job rest h at_i e))
  work-Inv_own l k i (some (some job)) q at_i e h =
      rw
        (
          lookup-insert k k (replace_worker (workers_of l k) i none) l.workers,
          ==-refl k,
          jobs_of-append k k l.finished job,
          ==-refl k,
        )
        (finishing-LaneInv k l.backlog (lookup k l.pending) (workers_of l k) (jobs_of k l.finished)
          (jobs_of k l.accepted) i job h at_i)

  pub work-Inv_other :
      (l : Lanes J) (k : String) (i : ℕ) (key : String) (w : Option (Option J)) (q : List J)
      → queued l k ≡ q
      → (k == key) ≡ false
      → Inv l key
      → Inv (work l k i w) key
  work-Inv_other l k i key none q e ne h = h
  work-Inv_other l k i key (some none) [] e ne h = rw e (
      rw
        (
          lookup-delete k key l.pending,
          ne,
          lookup-insert k key (drop_worker (workers_of l k) i) l.workers,
          ne,
        )
        h)
  work-Inv_other l k i key (some none) (job ∷ rest) e ne h = rw e (
      rw
        (
          lookup-insert k key rest l.pending,
          ne,
          lookup-insert k key (replace_worker (workers_of l k) i (some job)) l.workers,
          ne,
        )
        h)
  work-Inv_other l k i key (some (some job)) q e ne h =
      rw
        (
          lookup-insert k key (replace_worker (workers_of l k) i none) l.workers,
          ne,
          jobs_of-append key k l.finished job,
          ne,
        )
        h
  -- From the step's own lane and from the others to every lane.
