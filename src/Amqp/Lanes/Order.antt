-- ===== src/Amqp/Lanes/Order.antt =====
-- The order of a lane: one worker at a time, jobs in the order of their acceptance, none lost.
use mathlib.Core.List.{append-nil}
use whatsmeow_gateway.Base.{
  ℕ, ◌≤◌, String, List, [], ◌∷◌, ◌++◌, false, Option, none, some, string_Eq, ◌==◌, lookup, length,
  ◌≡◌, refl, subst, ◌∙◌, arith, ◌⊎◌, inl, inr, Bool-cases,
}
use whatsmeow_gateway.Amqp.Lanes.{
  Lanes, new_lanes, run, drain, Step, offer, works, step, run_steps, queued, workers_of, entries,
  work, worker_at,
}
use whatsmeow_gateway.Amqp.Lanes.Jobs.{jobs_of, in_hand, LaneInv, Inv}
use whatsmeow_gateway.Amqp.Lanes.Steps.{run-Inv_own, run-Inv_other, work-Inv_own, work-Inv_other}

module _ {J : Type 0} where
  every_lane :
      (l l' : Lanes J) (k : String)
      → (Inv l k → Inv l' k)
      → ((key : String) → (k == key) ≡ false → Inv l key → Inv l' key)
      → (key : String) → Inv l key
      → Inv l' key
  every_lane l l' k own elsewhere key h = elim (Bool-cases (k == key)) [
    | inr ne ↦ elsewhere key ne h
    | inl same ↦ subst (λ x. Inv l x → Inv l' x) ((string_Eq.same_iff k key).0 same) own h
  ]

  -- No step of any consumer or worker breaks the invariant of any lane.
  pub step-Inv : (l : Lanes J) (s : Step J) (key : String) → Inv l key → Inv (step l s) key
  unfolding drain
  step-Inv l (offer k job) key h =
      every_lane l (run l k job).0 k (run-Inv_own l k job) (run-Inv_other l k job) key h
  step-Inv l (works k i) key h =
      every_lane l (drain l k i) k
        (work-Inv_own l k i (worker_at (workers_of l k) i) (queued l k) refl refl)
        (λ x ne. work-Inv_other l k i x (worker_at (workers_of l k) i) (queued l k) refl ne) key h

  run_steps-Inv :
      (l : Lanes J) (ss : List (Step J)) (key : String) → Inv l key → Inv (run_steps l ss) key
  unfolding run_steps
  run_steps-Inv l [] key h = h
  run_steps-Inv l (s ∷ ss) key h = run_steps-Inv (step l s) ss key (step-Inv l s key h)

  work-backlog :
      (l : Lanes J) (k : String) (i : ℕ) (w : Option (Option J)) (q : List J)
      → queued l k ≡ q
      → (work l k i w).backlog ≡ l.backlog
  work-backlog l k i none q e = refl
  work-backlog l k i (some none) [] e = rw e refl
  work-backlog l k i (some none) (job ∷ rest) e = rw e refl
  work-backlog l k i (some (some job)) q e = refl

  step-backlog : (l : Lanes J) (s : Step J) → (step l s).backlog ≡ l.backlog
  unfolding run drain
  step-backlog l (offer k job) = ground arith
  step-backlog l (works k i) = work-backlog l k i (worker_at (workers_of l k) i) (queued l k) refl

  run_steps-backlog : (l : Lanes J) (ss : List (Step J)) → (run_steps l ss).backlog ≡ l.backlog
  unfolding run_steps
  run_steps-backlog l [] = refl
  run_steps-backlog l (s ∷ ss) = run_steps-backlog (step l s) ss ∙ step-backlog l s

  -- What the invariant of a lane says of it.
  abbrev pub Orderly : ℕ → Option (List J) → List (Option J) → List J → List J → Type 0
  Orderly backlog p ws finished accepted =
      (rest : List J) × (finished ++ rest ≡ accepted)
      × (length (entries p) ≤ backlog)
      × (length ws ≤ 1)
      × ((length ws ≡ 1) ⊎ (finished ≡ accepted))

  LaneInv-Orderly :
      (key : String) (backlog : ℕ) (p : Option (List J)) (ws : List (Option J)) (fin acc : List J)
      → LaneInv key backlog p ws fin acc
      → Orderly backlog p ws fin acc
  LaneInv-Orderly key backlog none [] fin acc h =
      ([], append-nil fin ∙ h, omega arith, omega arith, inr h)
  LaneInv-Orderly key backlog none (w ∷ ws) fin acc h = absurd h
  LaneInv-Orderly key backlog (some q) [] fin acc h = absurd h
  LaneInv-Orderly key backlog (some q) (w ∷ []) fin acc h =
      (in_hand w ++ q, h.1, h.0, omega arith, inl refl)
  LaneInv-Orderly key backlog (some q) (w ∷ v ∷ ws) fin acc h = absurd h

  -- After any interleaving of offers and of workers' steps, in each lane: the jobs run to their end
  -- are an initial part of those accepted, in the order of acceptance; at most `backlog` jobs wait
  -- and at most one worker runs; and either one worker is there or every accepted job has been run.
  pub run_steps-Orderly :
      (backlog : ℕ) (ss : List (Step J)) (key : String)
      → let l = run_steps (new_lanes backlog) ss in
        Orderly backlog
          (lookup key l.pending)
          (workers_of l key)
          (jobs_of key l.finished)
          (jobs_of key l.accepted)
  run_steps-Orderly backlog ss key =
      let l = run_steps (new_lanes backlog) ss in
      subst
        (λ b.
          Orderly b (lookup key l.pending) (workers_of l key) (jobs_of key l.finished)
            (jobs_of key l.accepted))
        (run_steps-backlog (new_lanes backlog) ss ∙ (unfold new_lanes in refl))
        (LaneInv-Orderly key l.backlog (lookup key l.pending) (workers_of l key)
          (jobs_of key l.finished) (jobs_of key l.accepted)
          (run_steps-Inv (new_lanes backlog) ss key (unfold new_lanes lookup in refl)))
