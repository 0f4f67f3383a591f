-- ===== src/Groups/Service/Removal.antt =====
-- What the requests of an action touch: one group, and never the gateway's own account.
use whatsmeow_gateway.Base.{
  String, string_Eq, ℕ, ◌≤◌, List, [], ◌∷◌, Bool, false, ◌&&◌, ◌||◌, not, ◌≡◌, refl, arith, All,
  length, nat_Eq, list_Eq, ◌==◌, is_blank, Bool-cases, Result-cases, inl, inr,
}
use whatsmeow_gateway.Groups.Phones.{Digits, wanted_phones}
use whatsmeow_gateway.Groups.Service.{
  Jid, Participant, GroupClient, Request, announce, rename, retopic, set_photo, remove, Action,
  lock, unlock, remove_participants, set_name, set_description, set_photo_action, unknown, Params,
  SelfIdentity, self_of, is_self, is_default_user, is_hidden_user, matches_phone, targets_of,
  remove_participants_from, set_description_of, apply, Applied, remove_targets,
}

-- The account itself, by its phone's JID or by its LID.
abbrev pub is_own : SelfIdentity → Jid → Bool
is_own self t =
    (not (self.phone == []) && (is_default_user t.server && t.user == self.phone))
    || (not (self.lid == []) && (is_hidden_user t.server && t.user == self.lid))

is_own_of_is_self :
    (self : SelfIdentity) (p : Participant) → is_self self p ≡ false → is_own self p.jid ≡ false
is_own_of_is_self self p h = ground arith

abbrev pub NotOwn : SelfIdentity → Jid → Type 0
NotOwn self t = is_own self t ≡ false

targets_of-NotOwn :
    (c : GroupClient) (wanted : List Digits) (ps : List Participant)
    → All (NotOwn (self_of c)) (targets_of c wanted ps)
unfolding targets_of
targets_of-NotOwn c wanted [] = tt
targets_of-NotOwn c wanted (p ∷ ps) =
    let rest = targets_of-NotOwn c wanted ps in
    elim (Bool-cases (is_self (self_of c) p)) [
      | inl self ↦ rw self rest
      | inr other ↦ rw other (elim (Bool-cases (matches_phone c p wanted)) [
        | inl hit ↦ rw hit (is_own_of_is_self (self_of c) p other, rest)
        | inr miss ↦ rw miss rest
      ])
    ]

-- A request concerns one group, and a removal there spares the account.
abbrev pub Concerns : SelfIdentity → Jid → Request → Type 0
Concerns self jid (announce j on) = j ≡ jid
Concerns self jid (rename j name) = j ≡ jid
Concerns self jid (retopic j previous topic) = j ≡ jid
Concerns self jid (set_photo j photo) = j ≡ jid
Concerns self jid (remove j ts) = (j ≡ jid) × All (NotOwn self) ts

abbrev Harmless : GroupClient → Jid → Applied → Type 0
Harmless c jid a = (length a.0 ≤ 1) × All (Concerns (self_of c) jid) a.0

remove_targets-Harmless :
    (c : GroupClient) (jid : Jid) (ts : List Jid)
    → All (NotOwn (self_of c)) ts
    → Harmless c jid (remove_targets c jid ts)
remove_targets-Harmless c jid [] h = (omega arith, tt)
remove_targets-Harmless c jid (t ∷ ts) h = (omega arith, ((refl, h), tt))

remove_participants_from-Harmless :
    (c : GroupClient) (jid : Jid) (phones : List Digits)
    → Harmless c jid (remove_participants_from c jid phones)
unfolding remove_participants_from
remove_participants_from-Harmless c jid phones = elim (Result-cases (c.get_group_info jid)) [
  | inl (info, e) ↦
      rw (e, remove_participants_from)
        (remove_targets-Harmless c jid _
          (targets_of-NotOwn c (wanted_phones phones) info.participants))
  | inr (e, h) ↦ rw (h, remove_participants_from) (omega arith, tt)
]

set_description_of-Harmless :
    (c : GroupClient) (jid : Jid) (text : String) → Harmless c jid (set_description_of c jid text)
unfolding set_description_of
set_description_of-Harmless c jid text = elim (Result-cases (c.get_group_info jid)) [
  | inl (info, e) ↦
      rw (e, set_description_of)
        (elim (Bool-cases (info.topic == text)) [
          | inl same ↦ rw same (omega arith, tt)
          | inr differs ↦ rw differs (omega arith, (refl, tt))
        ])
  | inr (e, h) ↦ rw (h, set_description_of) (omega arith, tt)
]

-- Any action makes at most one request that changes a group, for the group that it was given, and
-- no removal has the gateway's own phone or LID among its targets.
pub apply-Harmless :
    (c : GroupClient) (action : Action) (jid : Jid) (params : Params) (photo : List ℕ)
    → (length (apply c action jid params photo).0 ≤ 1)
      × All (Concerns (self_of c) jid) (apply c action jid params photo).0
unfolding apply
apply-Harmless c lock jid params photo = (omega arith, (refl, tt))
apply-Harmless c unlock jid params photo = (omega arith, (refl, tt))
apply-Harmless c set_name jid params photo = elim (Bool-cases (is_blank params.name)) [
  | inl blank ↦ rw blank (omega arith, tt)
  | inr named ↦ rw named (omega arith, (refl, tt))
]
apply-Harmless c set_description jid params photo =
    set_description_of-Harmless c jid params.description
apply-Harmless c set_photo_action jid params [] = (omega arith, tt)
apply-Harmless c set_photo_action jid params (b ∷ photo) = (omega arith, (refl, tt))
apply-Harmless c remove_participants jid params photo =
    remove_participants_from-Harmless c jid params.phones
apply-Harmless c (unknown action) jid params photo = (omega arith, tt)
