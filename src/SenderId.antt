-- ===== src/SenderId.antt =====
-- internal/senderid/senderid.go: the two identities of a sender. The store of `whatsmeow` that maps
-- a LID to a phone number may be absent; its error and its miss are both `none`.
use whatsmeow_gateway.Base.{String, Option, none, some, ◌==◌, string_Eq, if◌then◌else◌}
use whatsmeow_gateway.Groups.Service.{
  Server, default_user, hidden_user, group, other, is_default_user, is_hidden_user,
}

-- `types.JID`, with its user as text.
pub record Address : Type 0 where
  pub user : String
  pub server : Server

abbrev pub resolved_pn : Option Address → String
resolved_pn none = ""
resolved_pn (some a) = if is_default_user a.server then a.user else ""

-- `Resolve`: a LID and a phone number, "" for the one that is not known.
unfoldable pub resolve : Option (Address → Option Address) → Address → Address → String × String
resolve resolver sender alternative = elim sender.server [
  | hidden_user ↦ (
    sender.user,
    if is_default_user alternative.server
        then alternative.user
        else elim resolver [ none ↦ "" | some pn_for_lid ↦ resolved_pn (pn_for_lid sender) ],
  )
  | default_user ↦ (if is_hidden_user alternative.server then alternative.user else "", sender.user)
  | group ↦ ("", sender.user)
  | other ↦ ("", sender.user)
]

-- `From`.
abbrev pub from_of : String → String → String
from_of lid pn = if pn == "" then lid else pn
