-- ===== src/Session/Lock/Sections.antt =====
-- internal/session/manager.go, lockChannel: every section keeps the count.
use whatsmeow_gateway.Base.{
  ℕ, ◌-◌, ◌<◌, String, false, ◌≡◌, inl, inr, List, ◌∷◌, ◌++◌, none, some, arith, string_Eq, nat_Eq,
  ==-refl, ◌==◌, lookup, lookup-insert, lookup-delete, Bool-cases, All, All-append, subst,
  Option-cases,
}
use whatsmeow_gateway.Session.Lock.{
  waiting, inside, leaving, Goroutine, Locks, at_phase, enter, enter_with, acquire, release, leave,
}
use whatsmeow_gateway.Session.Lock.Counting.{
  count_if, count_if-append, holds, works, Knows, IsCounted, IsValid, All-split, works-le-holds,
  count_if-focus, Knows-insert, Knows-delete,
}

enter_new-IsValid :
    (s : Locks) (k : String) → lookup k s.locks ≡ none → IsValid s → IsValid (enter_with s none k)
unfolding count_if
enter_new-IsValid s k e v = (
  (
    ground (arith, lookup-insert k k s.made s.locks, ==-refl k),
    Knows-insert s.locks k s.made s.goroutines e v.0,
  ),
  λ j l h. ground (arith, lookup-insert k j s.made s.locks, v.1 j l),
  λ l le. ground (arith, v.2 l, nat_Eq.same_iff s.made l),
  λ l lt. elim (Bool-cases (s.made == l)) [
    | inl h ↦ (
      ground (arith, v.2 l, nat_Eq.same_iff s.made l),
      ground (arith, v.2 l, nat_Eq.same_iff s.made l, works-le-holds l s.goroutines),
    )
    | inr h ↦
        let old = v.3 l (ground (arith, nat_Eq.same_iff s.made l)) in (ground arith, ground arith)
  ],
)

enter_old-IsValid :
    (s : Locks) (k : String) (l : ℕ)
    → lookup k s.locks ≡ some l
    → IsValid s
    → IsValid (enter_with s (some l) k)
unfolding count_if
enter_old-IsValid s k l e v =
    let lt = v.1 k l e in
    (
      (e, v.0),
      v.1,
      λ j le. ground (arith, v.2 j le, nat_Eq.same_iff l j),
      λ j below. (
        ground (arith, (v.3 j below).0, nat_Eq.same_iff l j),
        ground (arith, (v.3 j below).1, nat_Eq.same_iff l j),
      ),
    )

pub enter-IsValid : (s : Locks) (k : String) → IsValid s → IsValid (enter s k)
unfolding enter
enter-IsValid s k v = elim (Option-cases (lookup k s.locks)) [
  | inl e ↦ rw e (enter_new-IsValid s k e v)
  | inr (l, e) ↦ rw e (enter_old-IsValid s k l e v)
]

module _ (s : Locks) (before : List Goroutine) (g : Goroutine) (rest : List Goroutine)
    (e : s.goroutines ≡ before ++ (g ∷ rest)) (v : IsValid s) where
  known : All (Knows s.locks) before × Knows s.locks g × All (Knows s.locks) rest
  known =
      let (front, back) =
        All-split (Knows s.locks) before (g ∷ rest) (subst (All (Knows s.locks)) e v.0) in
      (front, back.0, back.1)

  pub acquire-IsValid :
      g.phase ≡ waiting → (s.lock_of g.lock).is_locked ≡ false → IsValid (acquire s before g rest)
  unfolding acquire count_if
  acquire-IsValid w free = (
    All-append (Knows s.locks) before (at_phase g inside ∷ rest) known.0 (known.1, known.2),
    v.1,
    λ l le. ground (
      arith,
      v.2 l le,
      count_if-focus (holds l) s.goroutines before g rest e,
      count_if-append (holds l) before (at_phase g inside ∷ rest),
    ),
    λ l lt. (
      ground (
        arith,
        (v.3 l lt).0,
        count_if-focus (holds l) s.goroutines before g rest e,
        count_if-append (holds l) before (at_phase g inside ∷ rest),
        nat_Eq.same_iff g.lock l,
      ),
      ground (
        arith,
        (v.3 l lt).1,
        count_if-focus (works l) s.goroutines before g rest e,
        count_if-append (works l) before (at_phase g inside ∷ rest),
        nat_Eq.same_iff g.lock l,
      ),
    ),
  )

  pub release-IsValid : g.phase ≡ inside → IsValid (release s before g rest)
  unfolding release count_if
  release-IsValid w = (
    All-append (Knows s.locks) before (at_phase g leaving ∷ rest) known.0 (known.1, known.2),
    v.1,
    λ l le. ground (
      arith,
      v.2 l le,
      count_if-focus (holds l) s.goroutines before g rest e,
      count_if-append (holds l) before (at_phase g leaving ∷ rest),
    ),
    λ l lt. (
      ground (
        arith,
        (v.3 l lt).0,
        count_if-focus (holds l) s.goroutines before g rest e,
        count_if-append (holds l) before (at_phase g leaving ∷ rest),
        nat_Eq.same_iff g.lock l,
      ),
      ground (
        arith,
        (v.3 l lt).1,
        count_if-focus (works l) s.goroutines before g rest e,
        count_if-append (works l) before (at_phase g leaving ∷ rest),
        nat_Eq.same_iff g.lock l,
      ),
    ),
  )

  leave-counts : g.phase ≡ leaving → (l : ℕ) → l < s.made → IsCounted (leave s before g rest) l
  unfolding leave
  leave-counts w l lt = (
    ground (
      arith,
      (v.3 l lt).0,
      count_if-focus (holds l) s.goroutines before g rest e,
      count_if-append (holds l) before rest,
      nat_Eq.same_iff g.lock l,
    ),
    ground (
      arith,
      (v.3 l lt).1,
      count_if-focus (works l) s.goroutines before g rest e,
      count_if-append (works l) before rest,
      nat_Eq.same_iff g.lock l,
    ),
  )

  leave-Knows : g.phase ≡ leaving → All (Knows (leave s before g rest).locks) (before ++ rest)
  unfolding leave
  leave-Knows w =
      let still = All-append (Knows s.locks) before rest known.0 known.2 in
      elim (Bool-cases ((s.lock_of g.lock).holders - 1 == 0)) [
        | inl h ↦ rw h (
            Knows-delete s.locks g.channel g.lock (before ++ rest) known.1
              (ground (
                arith,
                (v.3 g.lock (v.1 g.channel g.lock known.1)).0,
                count_if-focus (holds g.lock) s.goroutines before g rest e,
                count_if-append (holds g.lock) before rest,
                ==-refl g.lock,
                nat_Eq.same_iff ((s.lock_of g.lock).holders - 1) 0,
              ))
              still)
        | inr h ↦ rw h still
      ]

  leave-lt : (k : String) (l : ℕ) → lookup k (leave s before g rest).locks ≡ some l → l < s.made
  unfolding leave
  leave-lt k l h = elim (Bool-cases ((s.lock_of g.lock).holders - 1 == 0)) [
    | inl z ↦ v.1 k l (ground (arith, lookup-delete g.channel k s.locks))
    | inr z ↦ v.1 k l (ground arith)
  ]

  pub leave-IsValid : g.phase ≡ leaving → IsValid (leave s before g rest)
  unfolding leave
  leave-IsValid w = (
    leave-Knows w,
    leave-lt,
    λ l le. ground (
      arith,
      v.2 l le,
      count_if-focus (holds l) s.goroutines before g rest e,
      count_if-append (holds l) before rest,
    ),
    leave-counts w,
  )
