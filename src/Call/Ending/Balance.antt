-- ===== src/Call/Ending/Balance.antt =====
-- What keeps the count of the calls of internal/call that have ended.
use whatsmeow_gateway.Base.{
  ℕ, suc, ◌+◌, ◌≤◌, List, [], ◌∷◌, ◌++◌, Bool, false, Option, none, some, lookup, insert, nat_Eq,
  ◌==◌, length, select, ◌≡◌, refl, sym, ap, ◌∙◌, subst, arith, inl, inr, Bool-cases, lookup-insert,
  select-append, length-append,
}
use whatsmeow_gateway.Call.Contracts.{Event}
use whatsmeow_gateway.Call.Registry.{Tracked}
use whatsmeow_gateway.Call.Ending.{Which, tells_end, has_ended, one_if, tally, Balanced}

tally-insert_new :
    (p : Tracked → Bool) (h : ℕ) (t : Tracked) (calls : List (ℕ × Tracked))
    → lookup h calls ≡ none
    → tally p (insert h t calls) ≡ tally p calls + one_if (p t)
unfolding lookup insert
tally-insert_new p h t [] e = omega arith
tally-insert_new p h t ((k, u) ∷ calls) e = elim (Bool-cases (k == h)) [
  | inl f ↦ absurd (cc (simp f at e))
  | inr f ↦ rw f (omega (arith, tally-insert_new p h t calls (simp f at e)))
]

tally-insert :
    (p : Tracked → Bool) (h : ℕ) (t u : Tracked) (calls : List (ℕ × Tracked))
    → lookup h calls ≡ some t
    → tally p (insert h u calls) + one_if (p t) ≡ tally p calls + one_if (p u)
unfolding lookup insert
tally-insert p h t u [] e = absurd (cc e)
tally-insert p h t u ((k, w) ∷ calls) e = elim (Bool-cases (k == h)) [
  | inl f ↦ rw f (
      omega (
        arith,
        ap {B = ℕ} (λ (o : Option Tracked). elim o [ none ↦ 0 | some x ↦ one_if (p x) ])
            (simp f at e),
      ))
  | inr f ↦ rw f (omega (arith, tally-insert p h t u calls (simp f at e)))
]

fresh-insert :
    (h : ℕ) (t u : Tracked) (calls : List (ℕ × Tracked)) (next : ℕ)
    → lookup h calls ≡ some t
    → ((k : ℕ) → next ≤ k → lookup k calls ≡ none)
    → (k : ℕ) → next ≤ k
    → lookup k (insert h u calls) ≡ none
fresh-insert h t u calls next e free k le = elim (Bool-cases (h == k)) [
  | inl f ↦ absurd (cc (free h (subst (λ j. next ≤ j) (sym ((nat_Eq.same_iff h k).0 f)) le), e))
  | inr f ↦ lookup-insert h k u calls ∙ (rw f (free k le))
]

-- Publications that tell no end of such a call.
pub publishing-Balanced :
    (q : Which) (calls : List (ℕ × Tracked)) (published new : List Event) (next : ℕ)
    → select (tells_end q) new ≡ []
    → Balanced q calls published next
    → Balanced q calls (published ++ new) next
publishing-Balanced q calls published new next none_new (e, free) = (
  ap length (select-append (tells_end q) published new)
      ∙ length-append (select (tells_end q) published) (select (tells_end q) new)
      ∙ rw (none_new, e) (omega arith),
  free,
)

-- A change of a call that neither ends it nor renames it.
pub updating-Balanced :
    (q : Which) (calls : List (ℕ × Tracked)) (published : List Event) (next h : ℕ) (t u : Tracked)
    → lookup h calls ≡ some t
    → has_ended q u ≡ has_ended q t
    → Balanced q calls published next
    → Balanced q (insert h u calls) published next
updating-Balanced q calls published next h t u e same (counted, free) = (
  omega (arith, counted, tally-insert (has_ended q) h t u calls e, ap one_if same),
  fresh-insert h t u calls next e free,
)

-- A new call, which has not ended.
pub adding-Balanced :
    (q : Which) (calls : List (ℕ × Tracked)) (published : List Event) (next : ℕ) (t : Tracked)
    → has_ended q t ≡ false
    → Balanced q calls published next
    → Balanced q (insert next t calls) published (suc next)
adding-Balanced q calls published next t going (counted, free) = (
  omega (
    arith,
    counted,
    tally-insert_new (has_ended q) next t calls (free next (omega arith)),
    ap one_if going,
  ),
  λ k le. elim (Bool-cases (next == k)) [
    | inl f ↦ absurd (omega (arith, le, (nat_Eq.same_iff next k).0 f))
    | inr f ↦ lookup-insert next k t calls ∙ (rw f (free k (omega (arith, le))))
  ],
)

-- The end of a call, told by an event.
pub ending-Balanced :
    (q : Which) (calls : List (ℕ × Tracked)) (published : List Event) (next h : ℕ) (t u : Tracked)
    (e : Event)
    → lookup h calls ≡ some t
    → has_ended q t ≡ false
    → has_ended q u ≡ tells_end q e
    → Balanced q calls published next
    → Balanced q (insert h u calls) (published ++ e ∷ []) next
unfolding select
ending-Balanced q calls published next h t u e found going told (counted, free) = (
  omega (
    arith,
    counted,
    tally-insert (has_ended q) h t u calls found,
    ap one_if going,
    ap one_if told,
    ap length (select-append (tells_end q) published (e ∷ [])),
    length-append (select (tells_end q) published) (select (tells_end q) (e ∷ [])),
    one_selected e,
  ),
  fresh-insert h t u calls next found free,
)
  where
    one_selected : (e : Event) → length (select (tells_end q) (e ∷ [])) ≡ one_if (tells_end q e)
    one_selected e = elim (Bool-cases (tells_end q e)) [ inl h ↦ rw h refl | inr h ↦ rw h refl ]

-- A handle that is given out.
pub later-Balanced :
    (q : Which) (calls : List (ℕ × Tracked)) (published : List Event) (next : ℕ)
    → Balanced q calls published next
    → Balanced q calls published (suc next)
later-Balanced q calls published next (counted, free) =
    (counted, λ k le. free k (omega (arith, le)))
