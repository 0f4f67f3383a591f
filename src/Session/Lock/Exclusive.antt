-- ===== src/Session/Lock/Exclusive.antt =====
-- internal/session/manager.go, lockChannel: at most one goroutine works on a channel.
use whatsmeow_gateway.Base.{
  ℕ, ◌≤◌, String, ◌≡◌, refl, inl, inr, List, [], ◌∷◌, none, some, arith, string_Eq, nat_Eq, lookup,
  All, Option-cases,
}
use whatsmeow_gateway.Session.Lock.{
  Goroutine, Locks, no_locks, Step, enters, acquires, releases, leaves, Reach, here, next,
}
use whatsmeow_gateway.Session.Lock.Counting.{count_if, works, works_on, Knows, IsValid}
use whatsmeow_gateway.Session.Lock.Sections.{
  enter-IsValid, acquire-IsValid, release-IsValid, leave-IsValid,
}

Step-IsValid : {s after : Locks} → Step s after → IsValid s → IsValid after
Step-IsValid {s} (enters k e) v = rw e (enter-IsValid s k v)
Step-IsValid {s} (acquires before g rest e w free a) v =
    rw a (acquire-IsValid s before g rest e v w free)
Step-IsValid {s} (releases before g rest e w a) v = rw a (release-IsValid s before g rest e v w)
Step-IsValid {s} (leaves before g rest e w a) v = rw a (leave-IsValid s before g rest e v w)

Reach-IsValid : {s : Locks} → Reach no_locks s → IsValid s
unfolding lookup count_if
Reach-IsValid here =
    (tt, λ k l h. absurd (ground arith), λ l le. refl, λ l lt. absurd (ground arith))
Reach-IsValid (next r step) = Step-IsValid step (Reach-IsValid r)

works_on-le-works :
    (locks : List (String × ℕ)) (k : String) (l : ℕ) (gs : List Goroutine)
    → lookup k locks ≡ some l
    → All (Knows locks) gs
    → count_if (works_on k) gs ≤ count_if (works l) gs
unfolding count_if
works_on-le-works locks k l [] e h = omega arith
works_on-le-works locks k l (g ∷ gs) e h = ground (
  arith,
  works_on-le-works locks k l gs e h.1,
  string_Eq.same_iff g.channel k,
  nat_Eq.same_iff g.lock l,
)

unknown_works_on :
    (locks : List (String × ℕ)) (k : String) (gs : List Goroutine)
    → lookup k locks ≡ none
    → All (Knows locks) gs
    → count_if (works_on k) gs ≡ 0
unfolding count_if
unknown_works_on locks k [] e h = refl
unknown_works_on locks k (g ∷ gs) e h =
    ground (arith, unknown_works_on locks k gs e h.1, string_Eq.same_iff g.channel k)

-- Whatever goroutines enter, wait, work and leave, in whatever order, at most one of them works on a
-- channel at a time, although locks are forgotten and made anew.
pub Reach-exclusive :
    (k : String) {s : Locks} → Reach no_locks s → count_if (works_on k) s.goroutines ≤ 1
Reach-exclusive k {s} r =
    let v = Reach-IsValid r in
    elim (Option-cases (lookup k s.locks)) [
      | inl e ↦ ground (arith, unknown_works_on s.locks k s.goroutines e v.0)
      | inr (l, e) ↦
          let (_, counted) = v.3 l (v.1 k l e) in
          ground (arith, works_on-le-works s.locks k l s.goroutines e v.0)
    ]
