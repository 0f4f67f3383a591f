-- ===== src/Call/Registry/Names.antt =====
-- The registry of internal/call/registry.go names only calls that are there.
use whatsmeow_gateway.Base.{
  ℕ, String, List, Option, none, some, lookup, insert, delete, string_Eq, nat_Eq, ◌==◌, ◌&&◌,
  if◌then◌else◌, ◌≡◌, refl, sym, ap, ◌∙◌, arith, inl, inr, Bool-cases, Option-cases, lookup-insert,
  lookup-delete,
}
use whatsmeow_gateway.Call.Outbound.{is_empty}
use whatsmeow_gateway.Call.Registry.{
  Tracked, Registry, Channel, channel_of, register, registered, unregister, take_channel,
}

abbrev pub Names : List (ℕ × Tracked) → Registry → Type 0
Names calls r =
    (channel_id call_id : String) (h : ℕ)
    → registered channel_id call_id r ≡ some h
    → (t : Tracked) × (lookup h calls ≡ some t)

found-insert :
    (h k : ℕ) (t u : Tracked) (calls : List (ℕ × Tracked))
    → lookup h calls ≡ some t
    → (v : Tracked) × (lookup h (insert k u calls) ≡ some v)
found-insert h k t u calls e = elim (Bool-cases (k == h)) [
  | inl f ↦ (u, lookup-insert k h u calls ∙ (rw f refl))
  | inr f ↦ (t, lookup-insert k h u calls ∙ (rw f e))
]

pub insert-Names :
    (k : ℕ) (u : Tracked) (calls : List (ℕ × Tracked)) (r : Registry)
    → Names calls r
    → Names (insert k u calls) r
insert-Names k u calls r names channel_id call_id h e =
    let (t, found) = names channel_id call_id h e in found-insert h k t u calls found

-- A registry that names no more.
abbrev Fewer : Registry → Registry → Type 0
Fewer r smaller =
    (channel_id call_id : String) (h : ℕ)
    → registered channel_id call_id smaller ≡ some h
    → registered channel_id call_id r ≡ some h

delete-Fewer : (channel_id : String) (r : Registry) → Fewer r (delete channel_id r)
unfolding registered lookup
delete-Fewer channel_id r c i h e = ground (arith, e, lookup-delete channel_id c r)

smaller-Fewer :
    (channel_id call_id : String) (channel : Channel) (r : Registry)
    → lookup channel_id r ≡ some channel
    → Fewer r (insert channel_id (delete call_id channel) r)
unfolding registered
smaller-Fewer channel_id call_id channel r known c i h e = ground (
  arith,
  e,
  known,
  string_Eq.same_iff channel_id c,
  lookup-insert channel_id c (delete call_id channel) r,
  lookup-delete call_id i channel,
)

pub unregister-Names :
    (channel_id call_id : String) (calls : List (ℕ × Tracked)) (r : Registry)
    → Names calls r
    → Names calls (unregister channel_id call_id r).1
unfolding unregister
unregister-Names channel_id call_id calls r names = elim (Option-cases (lookup channel_id r)) [
  | inl e ↦ rw (e, unregister) names
  | inr (channel, e) ↦ elim (Option-cases (lookup call_id channel)) [
    | inl f ↦ rw (e, f, unregister) names
    | inr (k, f) ↦
        rw (e, f, unregister)
          (elim (Bool-cases (is_empty (delete call_id channel))) [
            | inl g ↦ rw g (λ c i h found. names c i h (delete-Fewer channel_id r c i h found))
            | inr g ↦ rw g (λ c i h found.
                names c i h (smaller-Fewer channel_id call_id channel r e c i h found))
          ])
  ]
]

pub take_channel-Names :
    (channel_id : String) (calls : List (ℕ × Tracked)) (r : Registry)
    → Names calls r
    → Names calls (take_channel channel_id r).1
unfolding take_channel
take_channel-Names channel_id calls r names = elim (Option-cases (lookup channel_id r)) [
  | inl e ↦ rw (e, take_channel) names
  | inr (channel, e) ↦
      rw (e, take_channel) (λ c i h found. names c i h (delete-Fewer channel_id r c i h found))
]

-- A registered call is found under its channel and id, and no other entry changes.
registered-register :
    (channel_id call_id c i : String) (k : ℕ) (r : Registry)
    → registered c i (register channel_id call_id k r)
      ≡ (if (channel_id == c) && (call_id == i) then some k else registered c i r)
unfolding register registered
registered-register channel_id call_id c i k r = ground (
  arith,
  string_Eq.same_iff channel_id c,
  lookup-insert channel_id c (insert call_id k (channel_of (lookup channel_id r))) r,
  lookup-insert call_id i k (channel_of (lookup channel_id r)),
)

pub register-Names :
    (channel_id call_id : String) (k : ℕ) (t : Tracked) (calls : List (ℕ × Tracked)) (r : Registry)
    → lookup k calls ≡ some t
    → Names calls r
    → Names calls (register channel_id call_id k r)
register-Names channel_id call_id k t calls r known names c i h e =
    elim (Bool-cases ((channel_id == c) && (call_id == i))) [
      | inl f ↦
          let found : some h ≡ some k =
            sym e ∙ registered-register channel_id call_id c i k r ∙ (rw f refl) in
          let handle = ap {B = ℕ} (λ (o : Option ℕ). elim o [ none ↦ 0 | some x ↦ x ]) found in
          (t, ap (λ j. lookup j calls) handle ∙ known)
      | inr f ↦ names c i h (sym (registered-register channel_id call_id c i k r ∙ (rw f refl)) ∙ e)
    ]
