-- ===== src/History/Chunk/Persisting.antt =====
-- internal/history/importer.go, persist: a write to the registry is tried a few times only.
use whatsmeow_gateway.Base.{
  ℕ, zero, suc, ◌+◌, ◌≤◌, max, Bool, ◌≡◌, refl, inl, inr, List, [], ◌∷◌, ◌++◌, Option, Bool-cases,
  Result, ok, err, arith, ap, ◌∙◌, sym, All, length,
  true, false, nat_eq, nat_eq_iff, ◌≢◌,
}
use mathlib.Core.List.{append_assoc, append-nil}
use whatsmeow_gateway.History.Registry.{ImportError, out_of_fuel, Table}
use whatsmeow_gateway.History.Chunk.{
  Moment, World, Limits, tick, wait, is_no_import, next_delay, after_write, persist_from,
}

-- At most `n` moments passed, with as many waits at most, none longer than the limits allow.
abbrev pub IsBrief : Limits → ℕ → World → World → Type 0
IsBrief limits n w after =
    (after.clock ≤ w.clock + n)
    × ((delays : List ℕ) × (after.waits ≡ w.waits ++ delays)
        × (length delays ≤ n)
        × All (λ d. d ≤ max limits.retry_first limits.retry_max) delays)

-- The loop was not cut short.
abbrev pub IsOver : {A : Type 0} → World × Result ImportError (Option A) → Type 0
IsOver (w, result) = result ≢ err out_of_fuel

some_more : (number left : ℕ) → number + suc left ≡ 6 → number ≢ 5 → 1 ≤ left
some_more number zero sum ne = absurd (ne (omega arith))
some_more number (suc left) sum ne = omega arith

module _ (env : ℕ → Moment) (limits : Limits) where
  at_once :
      (n : ℕ) (w v : World) → v.waits ≡ w.waits → v.clock ≡ w.clock + 1 → IsBrief limits (suc n) w v
  at_once n w v e c = (omega arith, ([], e ∙ sym (append-nil w.waits), omega arith, tt))

  -- A wait, and what comes after it.
  after_wait :
      (n delay : ℕ) (w v after : World)
      → v.waits ≡ w.waits
      → v.clock ≡ w.clock + 1
      → delay ≤ max limits.retry_first limits.retry_max
      → IsBrief limits n (wait v delay) after
      → IsBrief limits (suc n) w after
  after_wait n delay w v after e c le (before, (delays, f, short, all)) = (
    omega arith,
    (
      delay ∷ delays,
      f ∙ append_assoc v.waits (delay ∷ []) delays ∙ ap (λ l. l ++ (delay ∷ delays)) e,
      ground arith,
      (le, all),
    ),
  )

  IsBrief-refl : (n : ℕ) (w : World) → IsBrief limits n w w
  IsBrief-refl n w = (omega arith, ([], sym (append-nil w.waits), omega arith, tt))

  after_write-IsBrief :
      {A : Type 0} (m : Moment) (w v : World) (result : Result ImportError A) (n delay : ℕ)
      (is_last : Bool) (rest : World × Result ImportError (Option A))
      → v.waits ≡ w.waits
      → v.clock ≡ w.clock + 1
      → delay ≤ max limits.retry_first limits.retry_max
      → IsBrief limits n (wait v delay) rest.0
      → IsBrief limits (suc n) w (after_write env limits m v result delay is_last rest).0
  after_write-IsBrief m w v (ok a) n delay is_last rest e c le h = at_once n w v e c
  after_write-IsBrief m w v (err f) n delay is_last rest e c le h =
      elim (Bool-cases (is_no_import f)) [
        | inl x ↦ rw x (at_once n w v e c)
        | inr x ↦ elim (Bool-cases m.is_canceled) [
          | inl y ↦ rw (x, y) (at_once n w v e c)
          | inr y ↦ elim (Bool-cases is_last) [
            | inl z ↦ rw (x, y, z) (at_once n w v e c)
            | inr z ↦ elim (Bool-cases m.is_canceled_waiting) [
              | inl u ↦
                  rw (x, y, z, u)
                    (after_wait n delay w v (wait v delay) e c le (IsBrief-refl n (wait v delay)))
              | inr u ↦ rw (x, y, z, u) (after_wait n delay w v rest.0 e c le h)
            ]
          ]
        ]
      ]

  last_write-IsBrief :
      {A : Type 0} (m : Moment) (w v : World) (result : Result ImportError A) (n delay : ℕ)
      (rest : World × Result ImportError (Option A))
      → v.waits ≡ w.waits
      → v.clock ≡ w.clock + 1
      → IsBrief limits (suc n) w (after_write env limits m v result delay true rest).0
  last_write-IsBrief m w v (ok a) n delay rest e c = at_once n w v e c
  last_write-IsBrief m w v (err f) n delay rest e c = elim (Bool-cases (is_no_import f)) [
    | inl x ↦ rw x (at_once n w v e c)
    | inr x ↦ elim (Bool-cases m.is_canceled) [
      | inl y ↦ rw (x, y) (at_once n w v e c)
      | inr y ↦ rw (x, y) (at_once n w v e c)
    ]
  ]

  -- From the attempt with the given number on, those up to the fifth are left.
  persist_from-IsBrief :
      {A : Type 0} (left fuel number delay : ℕ)
      (write : Moment → Table → Table × Result ImportError A) (w : World)
      → number + left ≡ 6
      → 1 ≤ left
      → left ≤ fuel
      → delay ≤ max limits.retry_first limits.retry_max
      → IsBrief limits left w (persist_from env limits fuel number delay write w).0
  unfolding persist_from
  persist_from-IsBrief zero fuel number delay write w sum some_left enough le =
      absurd (omega arith)
  persist_from-IsBrief (suc left) zero number delay write w sum some_left enough le =
      absurd (omega arith)
  persist_from-IsBrief (suc left) (suc fuel) number delay write w sum some_left enough le =
      let m = env w.clock in
      let answer = write m (m.others w.table) in
      let v = tick (record w { table = answer.0 }) in
      let next = next_delay env limits delay in
      let rest = persist_from env limits fuel (number + 1) next write (wait v delay) in
      elim (Bool-cases (nat_eq number 5)) [
        | inl last ↦ rw last (
            last_write-IsBrief m w v answer.1 left delay rest refl refl)
        | inr more ↦
            let before : number ≢ 5 = λ e. absurd (ground (arith, (nat_eq_iff number 5).1 e)) in
            after_write-IsBrief m w v answer.1 left delay (nat_eq number 5) rest refl refl le
              (persist_from-IsBrief left fuel (number + 1) next write (wait v delay) (omega arith)
                (some_more number left sum before) (omega arith) (omega arith))
      ]

  after_write-IsOver :
      {A : Type 0} (m : Moment) (v : World) (result : Result ImportError A) (delay : ℕ)
      (is_last : Bool) (rest : World × Result ImportError (Option A))
      → (is_last ≡ false → IsOver rest)
      → IsOver (after_write env limits m v result delay is_last rest)
  after_write-IsOver m v (ok a) delay is_last rest h = λ e. absurd cc
  after_write-IsOver m v (err f) delay is_last rest h =
      elim (Bool-cases (is_no_import f)) [
        | inl x ↦ rw x (λ e. absurd cc)
        | inr x ↦ elim (Bool-cases m.is_canceled) [
          | inl y ↦ rw (x, y) (λ e. absurd cc)
          | inr y ↦ elim (Bool-cases is_last) [
            | inl z ↦ rw (x, y, z) (λ e. absurd cc)
            | inr z ↦ elim (Bool-cases m.is_canceled_waiting) [
              | inl u ↦ rw (x, y, z, u) (λ e. absurd cc)
              | inr u ↦ rw (x, y, z, u) (h z)
            ]
          ]
        ]
      ]

  persist_from-IsOver :
      {A : Type 0} (left fuel number delay : ℕ)
      (write : Moment → Table → Table × Result ImportError A) (w : World)
      → number + left ≡ 6
      → 1 ≤ left
      → left ≤ fuel
      → IsOver (persist_from env limits fuel number delay write w)
  unfolding persist_from
  persist_from-IsOver zero fuel number delay write w sum some_left enough = absurd (omega arith)
  persist_from-IsOver (suc left) zero number delay write w sum some_left enough =
      absurd (omega arith)
  persist_from-IsOver (suc left) (suc fuel) number delay write w sum some_left enough =
      let m = env w.clock in
      let answer = write m (m.others w.table) in
      let v = tick (record w { table = answer.0 }) in
      let next = next_delay env limits delay in
      after_write-IsOver m v answer.1 delay (nat_eq number 5)
        (persist_from env limits fuel (number + 1) next write (wait v delay))
        (λ more.
          persist_from-IsOver left fuel (number + 1) next write (wait v delay) (omega arith)
            (some_more number left sum (λ e. absurd (ground (arith, (nat_eq_iff number 5).1 e))))
            (omega arith))

-- A write to the registry is tried at most five times, and never waits longer than the longer of the
-- first delay and the longest one, whatever the database answers and however much fuel there is from
-- five on: the loop ends by itself, and the import goes on.
pub persist-IsBrief :
    {A : Type 0} (env : ℕ → Moment) (limits : Limits)
    (write : Moment → Table → Table × Result ImportError A) (w : World) (fuel : ℕ)
    → 5 ≤ fuel
    → let persisted = persist_from env limits fuel 1 limits.retry_first write w in
      IsBrief limits 5 w persisted.0 × IsOver persisted
persist-IsBrief env limits write w fuel enough = (
  persist_from-IsBrief env limits 5 fuel 1 limits.retry_first write w refl (omega arith) enough
      (omega arith),
  persist_from-IsOver env limits 5 fuel 1 limits.retry_first write w refl (omega arith) enough,
)
