-- ===== src/Call/Ending/Aborts.antt =====
-- What `AbortChannel` of internal/call/manager.go leaves: no live call of the channel.
use whatsmeow_gateway.Base.{
  ℕ, String, List, [], ◌∷◌, true, none, some, lookup, insert, delete, nat_Eq, string_Eq, ◌==◌, map,
  contains, ◌≡◌, refl, sym, ap, ◌∙◌, subst, arith, inl, inr, Bool-cases, Option-cases,
  lookup-insert, lookup-delete, ==-refl,
}
use whatsmeow_gateway.Call.Registry.{Tracked, Channel, registered, take_channel}
use whatsmeow_gateway.Call.Manager.{Manager, Surroundings, new_manager}
use whatsmeow_gateway.Call.Lifecycle.{finish, finish_all, abort_channel}
use whatsmeow_gateway.Call.Ending.{Operation, perform_all}
use whatsmeow_gateway.Call.Ending.Answered.{perform_all-Rooted, new_manager-Rooted}

-- The call has ended.
abbrev pub Over : ℕ → Manager → Type 0
Over h m = (t : Tracked) × (lookup h m.calls ≡ some t) × (t.ended ≡ true)

contains-handles :
    (call_id : String) (h : ℕ) (channel : Channel)
    → lookup call_id channel ≡ some h
    → contains h (map (λ (e : String × ℕ). e.1) channel) ≡ true
unfolding lookup
contains-handles call_id h [] e = absurd (cc e)
contains-handles call_id h ((i, k) ∷ channel) e =
    ground (arith, e, ==-refl h, contains-handles call_id h channel)

found-own :
    (h : ℕ) (t : Tracked) (calls : List (ℕ × Tracked)) → lookup h (insert h t calls) ≡ some t
found-own h t calls = lookup-insert h h t calls ∙ (rw (==-refl h) refl)

module _ (env : Surroundings) (now : ℕ) (reason : String) where
  finish-Over_own :
      (h : ℕ) (t : Tracked) (m : Manager)
      → lookup h m.calls ≡ some t
      → Over h (finish env now h reason m)
  unfolding finish
  finish-Over_own h t m e =
      rw (e, finish)
        (elim (Bool-cases t.ended) [
          | inl f ↦ simp f (t, e, f)
          | inr f ↦ simp f (_, found-own h _ m.calls, refl)
        ])

  finish-Over : (h k : ℕ) (m : Manager) → Over h m → Over h (finish env now k reason m)
  unfolding finish
  finish-Over h k m (t, e, f) = elim (Bool-cases (k == h)) [
    | inl g ↦
        subst (λ j. Over h (finish env now j reason m)) (sym ((nat_Eq.same_iff k h).0 g))
          (finish-Over_own h t m e)
    | inr g ↦ elim (Option-cases (lookup k m.calls)) [
      | inl d ↦ rw (d, finish) (t, e, f)
      | inr (u, d) ↦
          rw (d, finish)
            (elim (Bool-cases u.ended) [
              | inl b ↦ simp b (t, e, f)
              | inr b ↦ simp b (t, lookup-insert k h _ m.calls ∙ (rw g e), f)
            ])
    ]
  ]

  finish-present :
      (h k : ℕ) (t : Tracked) (m : Manager)
      → lookup h m.calls ≡ some t
      → (u : Tracked) × (lookup h (finish env now k reason m).calls ≡ some u)
  unfolding finish
  finish-present h k t m e = elim (Bool-cases (k == h)) [
    | inl g ↦
        let (u, found, over) =
          subst (λ j. Over h (finish env now j reason m)) (sym ((nat_Eq.same_iff k h).0 g))
            (finish-Over_own h t m e) in
        (u, found)
    | inr g ↦ elim (Option-cases (lookup k m.calls)) [
      | inl d ↦ rw (d, finish) (t, e)
      | inr (u, d) ↦
          rw (d, finish)
            (elim (Bool-cases u.ended) [
              | inl b ↦ simp b (t, e)
              | inr b ↦ simp b (t, lookup-insert k h _ m.calls ∙ (rw g e))
            ])
    ]
  ]

  finish-registry : (k : ℕ) (m : Manager) → (finish env now k reason m).registry ≡ m.registry
  unfolding finish
  finish-registry k m = elim (Option-cases (lookup k m.calls)) [
    | inl d ↦ rw (d, finish) refl
    | inr (u, d) ↦
        rw (d, finish) (elim (Bool-cases u.ended) [ inl b ↦ simp b refl | inr b ↦ simp b refl ])
  ]

  finish_all-registry :
      (ks : List ℕ) (m : Manager) → (finish_all env now reason ks m).registry ≡ m.registry
  finish_all-registry [] m = refl
  finish_all-registry (k ∷ ks) m =
      finish_all-registry ks (finish env now k reason m) ∙ finish-registry k m

  finish_all-Over_kept :
      (ks : List ℕ) (h : ℕ) (m : Manager) → Over h m → Over h (finish_all env now reason ks m)
  finish_all-Over_kept [] h m over = over
  finish_all-Over_kept (k ∷ ks) h m over =
      finish_all-Over_kept ks h (finish env now k reason m) (finish-Over h k m over)

  finish_all-Over :
      (ks : List ℕ) (h : ℕ) (t : Tracked) (m : Manager)
      → lookup h m.calls ≡ some t
      → contains h ks ≡ true
      → Over h (finish_all env now reason ks m)
  finish_all-Over [] h t m e f = absurd (cc f)
  finish_all-Over (k ∷ ks) h t m e f = elim (Bool-cases (k == h)) [
    | inl g ↦ finish_all-Over_kept ks h (finish env now k reason m) (
        subst (λ j. Over h (finish env now j reason m)) (sym ((nat_Eq.same_iff k h).0 g))
          (finish-Over_own h t m e))
    | inr g ↦
        let (u, found) = finish-present h k t m e in
        finish_all-Over ks h u (finish env now k reason m) found (ground (arith, f, g))
  ]

  abort_channel-Over :
      (channel_id call_id : String) (h : ℕ) (t : Tracked) (m : Manager)
      → registered channel_id call_id m.registry ≡ some h
      → lookup h m.calls ≡ some t
      → Over h (abort_channel env now channel_id reason m)
        × (registered channel_id call_id (abort_channel env now channel_id reason m).registry
            ≡ none)
  unfolding abort_channel registered take_channel lookup
  abort_channel-Over channel_id call_id h t m e found =
      elim (Option-cases (lookup channel_id m.registry)) [
        | inl d ↦ absurd (cc (simp (d, registered) at e))
        | inr (channel, d) ↦
            let handles = map (λ (x : String × ℕ). x.1) channel in
            let start = record m { registry = delete channel_id m.registry } in
            let known : lookup call_id channel ≡ some h = simp (d, registered) at e in
            rw (d, take_channel)
              (
                finish_all-Over handles h t start found (contains-handles call_id h channel known),
                ap (registered channel_id call_id) (finish_all-registry handles start)
                    ∙ (ground (
                      arith,
                      lookup-delete channel_id channel_id m.registry,
                      ==-refl channel_id,
                    )),
              )
      ]

-- Aborting a channel ends its calls: after any sequence of incoming calls, commands, callbacks,
-- aborts, streams and uploads, a call that the registry has is over once `AbortChannel` returns for
-- its channel, and the registry does not have it any more.
pub perform_all-Over :
    (env : Surroundings) (ops : List Operation) (now : ℕ) (channel_id call_id reason : String)
    (h : ℕ)
    → registered channel_id call_id (perform_all env ops new_manager).registry ≡ some h
    → let after = abort_channel env now channel_id reason (perform_all env ops new_manager) in
      Over h after × (registered channel_id call_id after.registry ≡ none)
perform_all-Over env ops now channel_id call_id reason h e =
    let m = perform_all env ops new_manager in
    let (t, found) =
      perform_all-Rooted env ops new_manager new_manager-Rooted channel_id call_id h e in
    abort_channel-Over env now reason channel_id call_id h t m e found
