-- ===== src/Groups/Service.antt =====
-- internal/groups/service.go and the part of whatsmeow's types that it reads.
-- The WhatsApp client (internal/groups/client.go) is a record of its answers; each function says
-- which requests it makes of the client that change a group, in order, and what it returns.
pub mod Removal
use whatsmeow_gateway.Base.{
  ℕ, zero, suc, ◌+◌, String, ◌<>◌, List, [], ◌∷◌, ◌++◌, Bool, true, false, ◌&&◌, ◌||◌, not, Option,
  none, some, nat_eq, leb, if◌then◌else◌, length, contains, Result, ok, err, Eq, string_Eq, nat_Eq,
  list_Eq, ◌==◌, is_blank, max,
}
use whatsmeow_gateway.Amqp.RpcErrors.{GoError, rpc_error, invalid_request}
use whatsmeow_gateway.Groups.Errors.{classify}
use whatsmeow_gateway.Groups.Phones.{Digits, wanted_phones}

-- `types.JID`: the server is `DefaultUserServer`, `HiddenUserServer`, `GroupServer` or another.
pub data Server : Type 0 where
  default_user hidden_user group other : Server

pub record Jid : Type 0 where
  pub user : Digits
  pub server : Server

abbrev pub is_default_user : Server → Bool
is_default_user default_user = true
is_default_user _ = false

abbrev pub is_hidden_user : Server → Bool
is_hidden_user hidden_user = true
is_hidden_user _ = false

abbrev pub is_group : Server → Bool
is_group group = true
is_group _ = false

-- `types.GroupParticipant`.
pub record Participant : Type 0 where
  pub jid : Jid
  pub phone_number : Jid
  pub lid : Jid
  pub error : ℕ

-- `types.GroupInfo`.
pub record GroupInfo : Type 0 where
  pub jid : Jid
  pub name : String
  pub topic : String
  pub topic_id : String
  pub is_announce : Bool
  pub participant_count : ℕ
  pub participants : List Participant

-- The answers of `GroupClient` while one action runs; an `error` return is an `Option`.
pub record GroupClient : Type 0 where
  pub get_group_info : Jid → Result GoError GroupInfo
  pub create_group : String → Bool → Result GoError GroupInfo
  pub set_group_announce : Jid → Bool → Option GoError
  pub set_group_name : Jid → String → Option GoError
  pub set_group_topic : Jid → String → String → Option GoError
  pub set_group_photo : Jid → List ℕ → Option GoError
  pub update_group_participants : Jid → List Jid → Result GoError (List Participant)
  pub pn_for_lid : Jid → Result GoError (Option Jid)
  pub device_jid : Option Jid
  pub device_lid : Jid

-- The requests that change a group.
pub data Request : Type 0 where
  announce : Jid → Bool → Request
  rename : Jid → String → Request
  retopic : Jid → String → String → Request
  set_photo : Jid → List ℕ → Request
  remove : Jid → List Jid → Request

pub data Action : Type 0 where
  lock unlock remove_participants set_name set_description set_photo_action : Action
  unknown : String → Action

-- `amqp.GroupActionParams`.
pub record Params : Type 0 where
  pub phones : List Digits
  pub name : String
  pub description : String
  pub photo_url : String

-- `ActionResult`: the number of removed participants, where the action counts them.
abbrev pub Applied : Type 0
Applied = List Request × Result GoError (Option ℕ)

-- What most actions return of the client's error.
abbrev outcome : Option GoError → Result GoError (Option ℕ)
outcome none = ok none
outcome (some e) = err (classify e)

pub record SelfIdentity : Type 0 where
  pub phone : Digits
  pub lid : Digits

abbrev user_of : Option Jid → Digits
user_of none = []
user_of (some jid) = jid.user

abbrev pub self_of : GroupClient → SelfIdentity
self_of c = record { phone = user_of c.device_jid; lid = c.device_lid.user }

abbrev pub is_self : SelfIdentity → Participant → Bool
is_self self p =
    (not (self.phone == [])
      && (p.phone_number.user == self.phone
          || (is_default_user p.jid.server && p.jid.user == self.phone)))
    || (not (self.lid == [])
        && (p.lid.user == self.lid || (is_hidden_user p.jid.server && p.jid.user == self.lid)))

abbrev resolved_matches : Result GoError (Option Jid) → List Digits → Bool
resolved_matches (err e) wanted = false
resolved_matches (ok none) wanted = false
resolved_matches (ok (some resolved)) wanted = contains resolved.user wanted

abbrev pub matches_phone : GroupClient → Participant → List Digits → Bool
matches_phone c p wanted =
    if contains p.phone_number.user wanted && not (p.phone_number.user == [])
    then true
    else if is_default_user p.jid.server && contains p.jid.user wanted
    then true
    else if not (p.phone_number.user == []) || p.lid.user == []
    then false
    else resolved_matches (c.pn_for_lid p.lid) wanted

-- The loop over `info.Participants`.
unfoldable pub targets_of : GroupClient → List Digits → List Participant → List Jid
targets_of c wanted [] = []
targets_of c wanted (p ∷ ps) =
    let rest = targets_of c wanted ps in
    if is_self (self_of c) p then rest else if matches_phone c p wanted then p.jid ∷ rest else rest

unfoldable pub count_removed : List Participant → ℕ
count_removed [] = 0
count_removed (r ∷ rs) = (if nat_eq r.error 0 then 1 else 0) + count_removed rs

abbrev removal_outcome : Result GoError (List Participant) → Result GoError (Option ℕ)
removal_outcome (err e) = err (classify e)
removal_outcome (ok results) = ok (some (count_removed results))

abbrev remove_targets : GroupClient → Jid → List Jid → Applied
remove_targets c jid [] = ([], ok (some 0))
remove_targets c jid (t ∷ ts) =
    (remove jid (t ∷ ts) ∷ [], removal_outcome (c.update_group_participants jid (t ∷ ts)))

unfoldable pub remove_participants_from : GroupClient → Jid → List Digits → Applied
unfolding targets_of
remove_participants_from c jid phones = elim (c.get_group_info jid) [
  | err e ↦ ([], err (classify e))
  | ok info ↦ remove_targets c jid (targets_of c (wanted_phones phones) info.participants)
]

unfoldable pub set_description_of : GroupClient → Jid → String → Applied
set_description_of c jid description = elim (c.get_group_info jid) [
  | err e ↦ ([], err (classify e))
  | ok info ↦ if info.topic == description then ([], ok none) else (
    retopic jid info.topic_id description ∷ [],
    outcome (c.set_group_topic jid info.topic_id description),
  )
]

-- `fmt.Sprintf("%q", …)` of a printable text without quotes or backslashes.
abbrev quote : String → String
quote s = "\"" <> (s <> "\"")

-- `Apply`.
unfoldable pub apply : GroupClient → Action → Jid → Params → List ℕ → Applied
unfolding remove_participants_from set_description_of
apply c lock jid params photo = (announce jid true ∷ [], outcome (c.set_group_announce jid true))
apply c unlock jid params photo =
    (announce jid false ∷ [], outcome (c.set_group_announce jid false))
apply c set_name jid params photo =
    if is_blank params.name
    then ([], err (rpc_error invalid_request "name is required"))
    else (rename jid params.name ∷ [], outcome (c.set_group_name jid params.name))
apply c set_description jid params photo = set_description_of c jid params.description
apply c set_photo_action jid params [] = ([], err (rpc_error invalid_request "photo is required"))
apply c set_photo_action jid params (b ∷ photo) =
    (set_photo jid (b ∷ photo) ∷ [], outcome (c.set_group_photo jid (b ∷ photo)))
apply c remove_participants jid params photo = remove_participants_from c jid params.phones
apply c (unknown action) jid params photo =
    ([], err (rpc_error invalid_request ("unknown action " <> quote action)))
