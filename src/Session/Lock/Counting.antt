-- ===== src/Session/Lock/Counting.antt =====
-- internal/session/manager.go, lockChannel: the goroutines that hold a lock, counted.
use whatsmeow_gateway.Base.{
  ℕ, ◌+◌, ◌≤◌, ◌<◌, String, Bool, true, false, ◌&&◌, ◌≡◌, List, [], ◌∷◌, ◌++◌, none, some, arith,
  string_Eq, nat_Eq, ◌==◌, lookup, insert, lookup-insert, lookup-delete, if◌then◌else◌, All, delete,
}
use whatsmeow_gateway.Session.Lock.{Phase, inside, Goroutine, Locks}

abbrev pub is_inside : Phase → Bool
is_inside inside = true
is_inside _ = false

unfoldable pub count_if : (Goroutine → Bool) → List Goroutine → ℕ
count_if p [] = 0
count_if p (g ∷ gs) = (if p g then 1 else 0) + count_if p gs

pub count_if-append :
    (p : Goroutine → Bool) (xs ys : List Goroutine)
    → count_if p (xs ++ ys) ≡ count_if p xs + count_if p ys
unfolding count_if
count_if-append p [] ys = omega arith
count_if-append p (g ∷ gs) ys = ground (arith, count_if-append p gs ys)

abbrev pub holds : ℕ → Goroutine → Bool
holds l g = g.lock == l

abbrev pub works : ℕ → Goroutine → Bool
works l g = g.lock == l && is_inside g.phase

-- The goroutines that work on a channel.
abbrev pub works_on : String → Goroutine → Bool
works_on k g = g.channel == k && is_inside g.phase

abbrev pub as_number : Bool → ℕ
as_number b = if b then 1 else 0

abbrev pub Knows : List (String × ℕ) → Goroutine → Type 0
Knows locks g = lookup g.channel locks ≡ some g.lock

abbrev pub IsCounted : Locks → ℕ → Type 0
IsCounted s l =
    ((s.lock_of l).holders ≡ count_if (holds l) s.goroutines)
    × (as_number (s.lock_of l).is_locked ≡ count_if (works l) s.goroutines)

abbrev pub IsValid : Locks → Type 0
IsValid s =
    All (Knows s.locks) s.goroutines
    × ((k : String) (l : ℕ) → lookup k s.locks ≡ some l → l < s.made)
    × ((l : ℕ) → s.made ≤ l → count_if (holds l) s.goroutines ≡ 0)
    × ((l : ℕ) → l < s.made → IsCounted s l)

pub All-split :
    (P : Goroutine → Type 0) (xs ys : List Goroutine) → All P (xs ++ ys) → All P xs × All P ys
All-split P [] ys h = (tt, h)
All-split P (x ∷ xs) ys h = let rest = All-split P xs ys h.1 in ((h.0, rest.0), rest.1)

pub works-le-holds : (l : ℕ) (gs : List Goroutine) → count_if (works l) gs ≤ count_if (holds l) gs
unfolding count_if
works-le-holds l [] = omega arith
works-le-holds l (g ∷ gs) = ground (arith, works-le-holds l gs)

pub count_if-focus :
    (p : Goroutine → Bool) (gs before : List Goroutine) (g : Goroutine) (rest : List Goroutine)
    → gs ≡ before ++ (g ∷ rest)
    → count_if p gs ≡ count_if p before + (as_number (p g) + count_if p rest)
unfolding count_if
count_if-focus p gs before g rest e = rw e (count_if-append p before (g ∷ rest))

pub Knows-insert :
    (locks : List (String × ℕ)) (k : String) (l : ℕ) (gs : List Goroutine)
    → lookup k locks ≡ none
    → All (Knows locks) gs
    → All (Knows (insert k l locks)) gs
Knows-insert locks k l [] e h = tt
Knows-insert locks k l (g ∷ gs) e h = (
  ground (arith, lookup-insert k g.channel l locks, string_Eq.same_iff k g.channel),
  Knows-insert locks k l gs e h.1,
)

-- A lock that no goroutine holds may be forgotten.
pub Knows-delete :
    (locks : List (String × ℕ)) (k : String) (l : ℕ) (gs : List Goroutine)
    → lookup k locks ≡ some l
    → count_if (holds l) gs ≡ 0
    → All (Knows locks) gs
    → All (Knows (delete k locks)) gs
unfolding count_if
Knows-delete locks k l [] e c h = tt
Knows-delete locks k l (g ∷ gs) e c h = (
  ground (
    arith,
    lookup-delete k g.channel locks,
    string_Eq.same_iff k g.channel,
    nat_Eq.same_iff g.lock l,
  ),
  Knows-delete locks k l gs e (ground arith) h.1,
)
