-- ===== src/Amqp/Overflow/Order.antt =====
-- The order that the overflow keeps. Deliveries of one channel arrive fresh, or as the copies that
-- this consumer put at the tail of the queue; the broker hands the copies out in any order, each
-- once, and any arrival may find the lane full.
use mathlib.Core.List.{append-nil, append_assoc, Perm, Mem, not-mem-nil}
use mathlib.Core.List.Perm
use whatsmeow_gateway.Base.{
  ℕ, suc, ◌+◌, ◌-◌, ◌≤◌, String, List, [], ◌∷◌, ◌++◌, Bool, false, Option, none, some, leb, nat_eq,
  string_Eq, lookup, length, ◌≡◌, refl, sym, ap, subst, ◌∙◌, arith, inl, inr, Bool-cases,
  Option-cases, leb→le, nat_eq_iff,
}
use whatsmeow_gateway.Amqp.Overflow.{
  ChannelSpill, new_overflow, admits, admitted, progress, new_spill, send, moved, route,
}
use whatsmeow_gateway.Amqp.Overflow.System.{
  System, deliver, stalled, Steady, Step, fresh, copied, moves, Reach, here, next,
}
use whatsmeow_gateway.Amqp.Overflow.Waiting.{
  number, length-number, perm-length, InvAt, length-zero, Inv, lookup-put, lookup-forget,
  first-InvAt, numbered-InvAt, renumbered-InvAt, mem-middle, due-waiting,
}

module _ (channel_id : String) where
  progress-Inv :
      (s : System) (before after : List (ℕ × ℕ)) (seq m now : ℕ) (spill : ChannelSpill)
      → s.tail ≡ before ++ (seq, m) ∷ after
      → seq ≤ spill.expected
      → InvAt (some spill) s.tail s.started s.arrived
      → InvAt
          (lookup channel_id (progress s.overflow channel_id seq now spill).channels)
          (before ++ after)
          (s.started ++ m ∷ [])
          s.arrived
  progress-Inv s before after seq m now spill e below (waiting, same, perm, count, more) =
      let (rest, whole, first, perm') =
        due-waiting channel_id spill.expected seq m before after waiting
          (subst (λ l. Perm l (number spill.expected waiting)) e perm) below in
      let order : (s.started ++ m ∷ []) ++ rest ≡ s.arrived =
        append_assoc s.started (m ∷ []) rest
        ∙ ap (λ (l : List ℕ). s.started ++ l) (sym whole)
        ∙ same in
      let size : length waiting ≡ suc (length rest) = ap length whole in
      rw ((nat_eq_iff seq spill.expected).1 first)
        (elim (Bool-cases (nat_eq (spill.expected + 1) spill.next)) [
          | inl last ↦ rw last (
              rw (lookup-forget channel_id s.overflow) (
                let none_left : rest ≡ [] =
                  length-zero rest
                    (omega (arith, size, (nat_eq_iff (spill.expected + 1) spill.next).0 last)) in
                (
                  Perm.eq-nil (
                      subst (λ l. Perm (before ++ after) (number (spill.expected + 1) l)) none_left
                        perm'),
                  sym (append-nil (s.started ++ m ∷ []))
                      ∙ subst (λ (l : List ℕ). (s.started ++ m ∷ []) ++ l ≡ s.arrived) none_left
                          order,
                )))
          | inr further ↦ rw further (
              rw
                (lookup-put channel_id s.overflow
                  (record spill { last_progress = now; expected = spill.expected + 1 }))
                (rest, order, perm', omega (arith, size), ground (arith, size, count)))
        ])

  -- Where a delivery goes when the overflow does not admit it, or its lane is full.
  send_fresh-Inv :
      (s : System) (m now : ℕ)
      → Inv channel_id s
      → Inv channel_id (
          deliver
            (record s { arrived = s.arrived ++ m ∷ [] })
            m
            ((send s.overflow channel_id none now).0, some (send s.overflow channel_id none now).1))
  unfolding send
  send_fresh-Inv s m now h = elim (Option-cases (lookup channel_id s.overflow.channels)) [
    | inl e ↦
        rw (e, send)
          (rw
            (lookup-put channel_id (record s.overflow { fresh_id = suc s.overflow.fresh_id })
              (record (new_spill s.overflow.fresh_id now) { next = 2; unpublished = 1 }))
            (first-InvAt channel_id s.overflow.fresh_id now m s.tail s.started s.arrived
              (subst (λ o. InvAt o s.tail s.started s.arrived) e h)))
    | inr (spill, e) ↦
        rw (e, send)
          (rw
            (lookup-put channel_id s.overflow
              (record spill { next = spill.next + 1; unpublished = spill.unpublished + 1 }))
            (numbered-InvAt channel_id spill m s.tail s.started s.arrived
              (subst (λ o. InvAt o s.tail s.started s.arrived) e h)))
  ]

  fresh-Inv :
      (s : System) (m now : ℕ) (room : Bool)
      → Steady channel_id s now
      → Inv channel_id s
      → Inv channel_id (
          deliver
            (record s { arrived = s.arrived ++ m ∷ [] })
            m
            (route s.overflow channel_id none now room))
  unfolding route admits admitted
  fresh-Inv s m now room steady h = elim (Option-cases (lookup channel_id s.overflow.channels)) [
    | inl e ↦
        rw (e, admits)
          (elim (Bool-cases room) [
            | inl fits ↦ rw fits (
                rw (e, admitted)
                  (rw e (
                    (subst (λ o. InvAt o s.tail s.started s.arrived) e h).0,
                    ap (λ (l : List ℕ). l ++ m ∷ [])
                        (subst (λ o. InvAt o s.tail s.started s.arrived) e h).1,
                  )))
            | inr full ↦ rw full (send_fresh-Inv s m now h)
          ])
    | inr (spill, e) ↦
        rw (e, admits) (rw (subst (λ o. stalled o now ≡ false) e steady) (send_fresh-Inv s m now h))
  ]

  send_copy-Inv :
      (s : System) (before after : List (ℕ × ℕ)) (seq m now : ℕ) (spill : ChannelSpill)
      → s.tail ≡ before ++ (seq, m) ∷ after
      → lookup channel_id s.overflow.channels ≡ some spill
      → InvAt (some spill) s.tail s.started s.arrived
      → Inv channel_id (
          deliver
            (record s { tail = before ++ after })
            m
            (
              (send s.overflow channel_id (some seq) now).0,
              some (send s.overflow channel_id (some seq) now).1,
            ))
  unfolding send
  send_copy-Inv s before after seq m now spill split e h =
      rw (e, send)
        (rw
          (lookup-put channel_id s.overflow (record spill { unpublished = spill.unpublished + 1 }))
          (renumbered-InvAt channel_id spill before after (seq, m) s.tail s.started s.arrived split
            h))

  copied-Inv :
      (s : System) (before after : List (ℕ × ℕ)) (seq m now : ℕ) (room : Bool)
      → s.tail ≡ before ++ (seq, m) ∷ after
      → Steady channel_id s now
      → Inv channel_id s
      → Inv channel_id (
          deliver
            (record s { tail = before ++ after })
            m
            (route s.overflow channel_id (some seq) now room))
  unfolding route admits admitted
  copied-Inv s before after seq m now room split steady h =
      elim (Option-cases (lookup channel_id s.overflow.channels)) [
        | inl e ↦
            let empty = (subst (λ o. InvAt o s.tail s.started s.arrived) e h).0 in
            absurd (
              not-mem-nil (
                subst (λ l. Mem (seq, m) l) (sym split ∙ empty)
                  (mem-middle channel_id before after (seq, m))))
        | inr (spill, e) ↦
            let own = subst (λ o. InvAt o s.tail s.started s.arrived) e h in
            rw (e, admits)
              (rw (subst (λ o. stalled o now ≡ false) e steady)
                (elim (Bool-cases (leb seq spill.expected)) [
                  | inr early ↦ rw early (send_copy-Inv s before after seq m now spill split e own)
                  | inl due ↦ rw due (elim (Bool-cases room) [
                    | inr full ↦ rw full (send_copy-Inv s before after seq m now spill split e own)
                    | inl fits ↦ rw fits (
                        rw (e, admitted)
                          (progress-Inv s before after seq m now spill split
                            (leb→le seq spill.expected due) own))
                  ])
                ]))
      ]

  moved-Inv :
      (s : System) (id : ℕ)
      → Inv channel_id s
      → Inv channel_id (record s { overflow = moved s.overflow channel_id id })
  unfolding moved
  moved-Inv s id h = elim (Option-cases (lookup channel_id s.overflow.channels)) [
    | inl e ↦ rw (e, moved) h
    | inr (spill, e) ↦
        rw (e, moved)
          (elim (Bool-cases (nat_eq spill.id id)) [
            | inr other ↦ rw other h
            | inl same ↦ rw same (
                rw
                  (lookup-put channel_id s.overflow
                    (record spill { unpublished = spill.unpublished - 1 }))
                  (subst (λ o. InvAt o s.tail s.started s.arrived) e h))
          ])
  ]

  -- Every step keeps the order of the channel's deliveries.
  pub Step-Inv : {s t : System} → Step channel_id s t → Inv channel_id s → Inv channel_id t
  Step-Inv (fresh s m now room steady) h = fresh-Inv s m now room steady h
  Step-Inv (copied s before after seq m now room split steady) h =
      copied-Inv s before after seq m now room split steady h
  Step-Inv (moves s id) h = moved-Inv s id h

  Reach-Inv : {s t : System} → Reach channel_id s t → Inv channel_id s → Inv channel_id t
  Reach-Inv here h = h
  Reach-Inv (next r st) h = Step-Inv st (Reach-Inv r h)

-- A channel of which nothing has arrived.
abbrev pub quiet : System
quiet = record { overflow = new_overflow; tail = []; arrived = []; started = [] }

abbrev pub InOrder : System → Type 0
InOrder s = (rest : List ℕ) × (s.started ++ rest ≡ s.arrived) × (length s.tail ≡ length rest)

InvAt-InOrder :
    (o : Option ChannelSpill) (s : System) → InvAt o s.tail s.started s.arrived → InOrder s
InvAt-InOrder none s (empty, same) = ([], append-nil s.started ∙ same, ap length empty)
InvAt-InOrder (some spill) s (waiting, same, perm, count, more) =
    (waiting, same, perm-length perm ∙ length-number spill.expected waiting)

pub Reach-InOrder : (channel_id : String) {s : System} → Reach channel_id quiet s → InOrder s
unfolding new_overflow lookup
Reach-InOrder channel_id {s} r =
    InvAt-InOrder (lookup channel_id s.overflow.channels) s (Reach-Inv channel_id r (refl, refl))
