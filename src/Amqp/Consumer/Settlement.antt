-- ===== src/Amqp/Consumer/Settlement.antt =====
-- Every delivery is settled exactly once, and what goes back goes back in order.
use mathlib.Core.List.{append-nil, append_assoc, Perm, perm_middle}
use mathlib.Core.List.Perm
use whatsmeow_gateway.Base.{
  ℕ, ◌≤◌, List, [], ◌∷◌, ◌++◌, map, leb, ◌≡◌, refl, ap, subst, ◌∙◌, arith, Bool-cases, inl, inr,
  leb→le,
}
use whatsmeow_gateway.Amqp.Consumer.{
  Handled, done, failed, requeue, Verdict, ack, reject, give_back, tag_of, settle, give_all_back,
  consume_serially, insert_tag, sort_tags, requeue_in_order,
}

abbrev pub tags : List (ℕ × Handled) → List ℕ
tags [] = []
tags ((tag, h) ∷ ds) = tag ∷ tags ds

give_all_back-tags : (ts : List ℕ) → map tag_of (give_all_back ts) ≡ ts
unfolding give_all_back
give_all_back-tags [] = refl
give_all_back-tags (t ∷ ts) = ap (◌∷◌ t) (give_all_back-tags ts)

consume_serially-perm :
    (set_aside : List ℕ) (ds : List (ℕ × Handled))
    → Perm (map tag_of (consume_serially set_aside ds)) (set_aside ++ tags ds)
unfolding consume_serially settle
consume_serially-perm aside [] = rw (give_all_back-tags aside, append-nil) (Perm.refl aside)
consume_serially-perm aside ((tag, done) ∷ ds) =
    Perm.trans (Perm.cons tag (consume_serially-perm aside ds))
      (Perm.symm (perm_middle aside (tags ds)))
consume_serially-perm aside ((tag, failed) ∷ ds) =
    Perm.trans (Perm.cons tag (consume_serially-perm aside ds))
      (Perm.symm (perm_middle aside (tags ds)))
consume_serially-perm aside ((tag, requeue) ∷ ds) =
    subst (Perm (map tag_of (consume_serially (aside ++ tag ∷ []) ds)))
      (append_assoc aside (tag ∷ []) (tags ds)) (consume_serially-perm (aside ++ tag ∷ []) ds)

-- The deliveries that asked to go back, in the order of their arrival.
abbrev pub asked_back : List (ℕ × Handled) → List ℕ
asked_back [] = []
asked_back ((tag, requeue) ∷ ds) = tag ∷ asked_back ds
asked_back ((tag, done) ∷ ds) = asked_back ds
asked_back ((tag, failed) ∷ ds) = asked_back ds

-- The verdicts of the deliveries that did not.
abbrev pub settled_at_once : List (ℕ × Handled) → List Verdict
settled_at_once [] = []
settled_at_once ((tag, requeue) ∷ ds) = settled_at_once ds
settled_at_once ((tag, done) ∷ ds) = ack tag ∷ settled_at_once ds
settled_at_once ((tag, failed) ∷ ds) = reject tag ∷ settled_at_once ds

give_all_back-append :
    (xs ys : List ℕ) → give_all_back (xs ++ ys) ≡ give_all_back xs ++ give_all_back ys
unfolding give_all_back
give_all_back-append [] ys = refl
give_all_back-append (x ∷ xs) ys = ap (◌∷◌ (give_back x)) (give_all_back-append xs ys)

consume_serially_from :
    (aside : List ℕ) (ds : List (ℕ × Handled))
    → consume_serially aside ds ≡ settled_at_once ds ++ give_all_back (aside ++ asked_back ds)
unfolding consume_serially settle
consume_serially_from aside [] = rw append-nil
consume_serially_from aside ((tag, done) ∷ ds) = ap (◌∷◌ (ack tag)) (consume_serially_from aside ds)
consume_serially_from aside ((tag, failed) ∷ ds) =
    ap (◌∷◌ (reject tag)) (consume_serially_from aside ds)
consume_serially_from aside ((tag, requeue) ∷ ds) =
    consume_serially_from (aside ++ tag ∷ []) ds
    ∙ ap (λ l. settled_at_once ds ++ give_all_back l)
        (append_assoc aside (tag ∷ []) (asked_back ds))

-- A serial consumer settles each delivery exactly once. Those that the handler did not ask to
-- requeue are acknowledged or rejected as they come; those that it did are given back once the
-- channel is closed, after all the others, in the order of their arrival.
pub consume_serially_lem :
    (ds : List (ℕ × Handled))
    → (consume_serially [] ds ≡ settled_at_once ds ++ give_all_back (asked_back ds))
      × Perm (map tag_of (consume_serially [] ds)) (tags ds)
consume_serially_lem ds = (consume_serially_from [] ds, consume_serially-perm [] ds)

insert_tag-perm : (t : ℕ) (ts : List ℕ) → Perm (insert_tag t ts) (t ∷ ts)
unfolding insert_tag
insert_tag-perm t [] = Perm.refl (t ∷ [])
insert_tag-perm t (u ∷ us) = elim (Bool-cases (leb t u)) [
  | inl first ↦ rw first (Perm.refl (t ∷ u ∷ us))
  | inr later ↦ rw later (Perm.trans (Perm.cons u (insert_tag-perm t us)) (Perm.swap t u us))
]

sort_tags-perm : (ts : List ℕ) → Perm (sort_tags ts) ts
unfolding sort_tags
sort_tags-perm [] = Perm.nil
sort_tags-perm (t ∷ ts) =
    Perm.trans (insert_tag-perm t (sort_tags ts)) (Perm.cons t (sort_tags-perm ts))

-- No tag is above a later one.
abbrev AllAbove : ℕ → List ℕ → Type 0
AllAbove t [] = Unit
AllAbove t (u ∷ us) = (t ≤ u) × AllAbove t us

abbrev pub IsAscending : List ℕ → Type 0
IsAscending [] = Unit
IsAscending (t ∷ ts) = AllAbove t ts × IsAscending ts

AllAbove-mono : (s t : ℕ) (ts : List ℕ) → s ≤ t → AllAbove t ts → AllAbove s ts
AllAbove-mono s t [] h all = tt
AllAbove-mono s t (u ∷ us) h all = (omega arith, AllAbove-mono s t us h all.1)

AllAbove-insert_tag : (s t : ℕ) (ts : List ℕ) → s ≤ t → AllAbove s ts → AllAbove s (insert_tag t ts)
unfolding insert_tag
AllAbove-insert_tag s t [] h all = (h, tt)
AllAbove-insert_tag s t (u ∷ us) h all = elim (Bool-cases (leb t u)) [
  | inl first ↦ rw first (h, all)
  | inr later ↦ rw later (all.0, AllAbove-insert_tag s t us h all.1)
]

insert_tag-IsAscending : (t : ℕ) (ts : List ℕ) → IsAscending ts → IsAscending (insert_tag t ts)
unfolding insert_tag
insert_tag-IsAscending t [] h = (tt, tt)
insert_tag-IsAscending t (u ∷ us) h = elim (Bool-cases (leb t u)) [
  | inl first ↦
      let below = leb→le t u first in rw first ((below, AllAbove-mono t u us below h.0), h)
  | inr later ↦
      rw later (AllAbove-insert_tag u t us (ground arith) h.0, insert_tag-IsAscending t us h.1)
]

sort_tags-IsAscending : (ts : List ℕ) → IsAscending (sort_tags ts)
unfolding sort_tags
sort_tags-IsAscending [] = tt
sort_tags-IsAscending (t ∷ ts) = insert_tag-IsAscending t (sort_tags ts) (sort_tags-IsAscending ts)

-- When a lane consumer stops, the deliveries set aside by the lanes, in whatever order they were,
-- are given back each once and in the order in which the broker delivered them.
pub requeue_in_order_lem :
    (ts : List ℕ)
    → Perm (map tag_of (requeue_in_order ts)) ts × IsAscending (map tag_of (requeue_in_order ts))
unfolding requeue_in_order
requeue_in_order_lem ts =
    rw (give_all_back-tags (sort_tags ts)) (sort_tags-perm ts, sort_tags-IsAscending ts)
