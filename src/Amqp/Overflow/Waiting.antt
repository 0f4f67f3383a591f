-- ===== src/Amqp/Overflow/Waiting.antt =====
-- The numbers of the deliveries that wait in internal/amqp/group_overflow.go.
use mathlib.Core.List.{
  append_assoc, Perm, Permᴰ, Mem, mem-cons, not-mem-nil, perm_middle, perm_append_singleton,
  mem-append_right, mem-cons_self,
}
use mathlib.Core.List.Perm
use mathlib.Core.Logic.{∥∥₁_elim}
use mathlib.Core.Logic.Or
use mathlib.Core.HLevel.{×_prop}
use native.Mathlib.Bridge.{le_prop}
use native.Mathlib.Nat.{ℕ_set}
use whatsmeow_gateway.Base.{
  ℕ, suc, ◌+◌, ◌≤◌, ◌<◌, String, List, [], ◌∷◌, ◌++◌, Option, none, some, string_Eq, lookup, length,
  lookup-insert, lookup-delete, ◌≡◌, refl, sym, ap, subst, ◌∙◌, arith, ==-refl, length-append,
}
use whatsmeow_gateway.Amqp.Overflow.{Overflow, ChannelSpill, put, forget, new_spill}
use whatsmeow_gateway.Amqp.Overflow.System.{System}

-- Deliveries that wait, each with its number.
abbrev pub number : ℕ → List ℕ → List (ℕ × ℕ)
number e [] = []
number e (m ∷ ms) = (e, m) ∷ number (e + 1) ms

pub length-number : (e : ℕ) (ms : List ℕ) → length (number e ms) ≡ length ms
length-number e [] = refl
length-number e (m ∷ ms) = ap suc (length-number (e + 1) ms)

permᴰ-length : {xs ys : List (ℕ × ℕ)} → Permᴰ xs ys → length xs ≡ length ys
permᴰ-length Permᴰ.nil = refl
permᴰ-length (Permᴰ.cons x p) = ap suc (permᴰ-length p)
permᴰ-length (Permᴰ.swap x y) = refl
permᴰ-length (Permᴰ.trans p q) = permᴰ-length p ∙ permᴰ-length q

pub perm-length : {xs ys : List (ℕ × ℕ)} → Perm xs ys → length xs ≡ length ys
perm-length {xs} {ys} p = ∥∥₁_elim p (ℕ_set (length xs) (length ys)) permᴰ-length

number-append :
    (e : ℕ) (ms : List ℕ) (m : ℕ) → number e (ms ++ m ∷ []) ≡ number e ms ++ (e + length ms, m) ∷ []
number-append e [] m = ap (λ (n : ℕ). (n, m) ∷ []) (omega arith)
number-append e (w ∷ ms) m =
    ap (◌∷◌ (e, w))
      (number-append (e + 1) ms m ∙ ap (λ (n : ℕ). number (e + 1) ms ++ (n, m) ∷ []) (omega arith))

number-ge : (e : ℕ) (ms : List ℕ) (x : ℕ × ℕ) → Mem x (number e ms) → e ≤ x.0
number-ge e [] x h = absurd (not-mem-nil h)
number-ge e (w ∷ ms) x h =
    Or.elim le_prop (mem-cons.0 h) (λ p. ground arith)
      (λ q. omega (arith, number-ge (e + 1) ms x q))

number-head :
    (seq m e w : ℕ) (ms : List ℕ) → Mem (seq, m) (number e (w ∷ ms)) → seq ≤ e → (seq ≡ e) × (m ≡ w)
number-head seq m e w ms h below =
    Or.elim (×_prop (ℕ_set seq e) (ℕ_set m w)) (mem-cons.0 h)
      (λ p. (ap (λ (q : ℕ × ℕ). q.0) p, ap (λ (q : ℕ × ℕ). q.1) p))
      (λ q. absurd (omega (arith, number-ge (e + 1) ms (seq, m) q)))

-- What is started and what waits under a number is what arrived, in that order; the copies under
-- way are those that wait.
abbrev pub InvAt : Option ChannelSpill → List (ℕ × ℕ) → List ℕ → List ℕ → Type 0
InvAt none tail started arrived = (tail ≡ []) × (started ≡ arrived)
InvAt (some spill) tail started arrived =
    (waiting : List ℕ) × (started ++ waiting ≡ arrived)
    × Perm tail (number spill.expected waiting)
    × (spill.next ≡ spill.expected + length waiting)
    × (0 < length waiting)

pub length-zero : (xs : List ℕ) → length xs ≡ 0 → xs ≡ []
length-zero [] h = refl
length-zero (x ∷ xs) h = absurd (omega arith)

module _ (channel_id : String) where
  abbrev pub Inv : System → Type 0
  Inv s = InvAt (lookup channel_id s.overflow.channels) s.tail s.started s.arrived

  pub lookup-put :
      (o : Overflow) (spill : ChannelSpill)
      → lookup channel_id (put o channel_id spill).channels ≡ some spill
  lookup-put o spill = rw (lookup-insert channel_id channel_id spill o.channels, ==-refl channel_id)

  pub lookup-forget : (o : Overflow) → lookup channel_id (forget o channel_id).channels ≡ none
  lookup-forget o = rw (lookup-delete channel_id channel_id o.channels, ==-refl channel_id)

  pub first-InvAt :
      (id now m : ℕ) (tail : List (ℕ × ℕ)) (started arrived : List ℕ)
      → InvAt none tail started arrived
      → InvAt
          (some (record (new_spill id now) { next = 2; unpublished = 1 }))
          (tail ++ (1, m) ∷ [])
          started
          (arrived ++ m ∷ [])
  first-InvAt id now m tail started arrived (empty, same) = (
    m ∷ [],
    ap (λ (l : List ℕ). l ++ m ∷ []) same,
    rw empty (Perm.refl ((1, m) ∷ [])),
    omega arith,
    omega arith,
  )

  pub numbered-InvAt :
      (spill : ChannelSpill) (m : ℕ) (tail : List (ℕ × ℕ)) (started arrived : List ℕ)
      → InvAt (some spill) tail started arrived
      → InvAt
          (some (record spill { next = spill.next + 1; unpublished = spill.unpublished + 1 }))
          (tail ++ (spill.next, m) ∷ [])
          started
          (arrived ++ m ∷ [])
  numbered-InvAt spill m tail started arrived (waiting, same, perm, count, some_wait) = (
    waiting ++ m ∷ [],
    sym (append_assoc started waiting (m ∷ [])) ∙ ap (λ (l : List ℕ). l ++ m ∷ []) same,
    rw (number-append spill.expected waiting m, ← count) (Perm.append_right _ perm),
    omega (arith, length-append waiting (m ∷ [])),
    omega (arith, length-append waiting (m ∷ [])),
  )

  pub renumbered-InvAt :
      (spill : ChannelSpill) (before after : List (ℕ × ℕ)) (x : ℕ × ℕ) (tail : List (ℕ × ℕ))
      (started arrived : List ℕ)
      → tail ≡ before ++ x ∷ after
      → InvAt (some spill) tail started arrived
      → InvAt
          (some (record spill { unpublished = spill.unpublished + 1 }))
          ((before ++ after) ++ x ∷ [])
          started
          arrived
  renumbered-InvAt spill before after x tail started arrived e (waiting, same, perm, rest, more) = (
    waiting,
    same,
    Perm.trans
        (Perm.trans (perm_append_singleton x (before ++ after))
          (Perm.symm (perm_middle before after)))
        (subst (λ l. Perm l (number spill.expected waiting)) e perm),
    rest,
    more,
  )

  pub mem-middle : (before after : List (ℕ × ℕ)) (x : ℕ × ℕ) → Mem x (before ++ x ∷ after)
  mem-middle before after x = mem-append_right before mem-cons_self

  -- A copy that is due is the next delivery in order.
  pub due-waiting :
      (expected seq m : ℕ) (before after : List (ℕ × ℕ)) (waiting : List ℕ)
      → Perm (before ++ (seq, m) ∷ after) (number expected waiting)
      → seq ≤ expected
      → (rest : List ℕ) × (waiting ≡ m ∷ rest)
        × (seq ≡ expected)
        × Perm (before ++ after) (number (expected + 1) rest)
  due-waiting expected seq m before after [] perm below =
      absurd (not-mem-nil ((Perm.mem_iff perm).0 (mem-middle before after (seq, m))))
  due-waiting expected seq m before after (w ∷ ws) perm below =
      let (first, same) =
        number-head seq m expected w ws ((Perm.mem_iff perm).0 (mem-middle before after (seq, m)))
          below in
      let front : Perm ((seq, m) ∷ (before ++ after)) ((expected, w) ∷ number (expected + 1) ws) =
        Perm.trans (Perm.symm (perm_middle before after)) perm in
      (ws, ap (λ (x : ℕ). x ∷ ws) (sym same), first, Perm.cons_inv (rw (first, same) at front))
  -- Putting a due copy into its lane: the spill ends with the last of its deliveries.
