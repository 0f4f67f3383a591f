-- ===== src/Session/Pairing.antt =====
-- internal/session/manager.go: the pairings of channels, one at a time for each channel.
-- A pairing is shared by pointer between the map and the goroutine that follows it: here it is a
-- number, and `pairing_of` holds what it points to. Times and durations are numbers; the zero time is
-- 0, and a timeout that is not positive is 0.
pub mod Follow
pub mod Stale
pub mod Join
use whatsmeow_gateway.Base.{
  ℕ, ◌+◌, String, Bool, true, false, not, ◌&&◌, ◌||◌, List, [], ◌∷◌, Option, none, some, ◌==◌, ltb,
  if◌then◌else◌, nat_Eq, string_Eq, lookup, insert, delete,
}
use whatsmeow_gateway.Session.{Manager, Failure, drop, is_some}

pub data PairUpdate : Type 0 where
  shows_qr shows_code : String → PairUpdate
  connected : PairUpdate
  failed : Failure → PairUpdate

pub record Pairing : Type 0 where
  pub qr : String
  pub emitted : ℕ
  pub lifetime : ℕ
  pub phone : String
  pub code : String
  pub import_history : Bool
  pub stopped : Bool
  pub done : Bool

pub record Pairings : Type 0 where
  pub pairings : List (String × ℕ)
  pub pairing_of : ℕ → Pairing
  pub made : ℕ

unfoldable pub new_pairing : Bool → String → Pairing
new_pairing import_history phone = record {
  qr = "";
  emitted = 0;
  lifetime = 0;
  phone = phone;
  code = "";
  import_history = import_history;
  stopped = false;
  done = false;
}

abbrev pub by_code : Pairing → Bool
by_code p = not (p.phone == "")

abbrev pub halt : Pairing → Pairing
halt p = record p { stopped = true }

unfoldable pub valid_qr : Pairing → ℕ → Option String
valid_qr p now = if p.qr == "" || not (ltb now (p.emitted + p.lifetime)) then none else some p.qr

abbrev pub clear : Pairing → Pairing
clear p = record p { qr = ""; emitted = 0; lifetime = 0; code = "" }

abbrev pub show_qr : Option String → Option PairUpdate
show_qr none = none
show_qr (some code) = some (shows_qr code)

unfoldable pub retained : Pairing → ℕ → Option PairUpdate
retained p now =
    if by_code p
    then (if p.code == "" then none else some (shows_code p.code))
    else show_qr (valid_qr p now)

abbrev pub set_pairing : Pairings → ℕ → Pairing → Pairings
set_pairing s p pairing = record s { pairing_of = λ q. if p == q then pairing else s.pairing_of q }

abbrev pub is_live : Pairings → String → ℕ → Bool
is_live s k p = is_some (lookup k s.pairings) p

pub data Begun : Type 0 where
  started : ℕ → Begun
  joined : List PairUpdate → Begun
  superseded : ℕ → Begun

abbrev pub updates_of : Option PairUpdate → List PairUpdate
updates_of none = []
updates_of (some update) = update ∷ []

abbrev pub xor : Bool → Bool → Bool
xor true b = not b
xor false b = b

abbrev pub join_or_supersede : Pairings → ℕ → ℕ → Bool → String → Pairings × Begun
join_or_supersede s now live import_history phone =
    let pairing = s.pairing_of live in
    if xor import_history pairing.import_history || not (phone == pairing.phone)
    then (set_pairing s live (halt pairing), superseded live)
    else (s, joined (updates_of (retained pairing now)))

abbrev pub begin_with : Pairings → Option ℕ → ℕ → String → Bool → String → Pairings × Begun
begin_with s (some live) now k import_history phone =
    join_or_supersede s now live import_history phone
begin_with s none now k import_history phone = (
  record {
    pairings = insert k s.made s.pairings;
    pairing_of = λ q. if s.made == q then new_pairing import_history phone else s.pairing_of q;
    made = s.made + 1;
  },
  started s.made,
)

unfoldable pub begin_pairing : Pairings → ℕ → String → Bool → String → Pairings × Begun
begin_pairing s now k import_history phone =
    begin_with s (lookup k s.pairings) now k import_history phone

abbrev pub forget_pairing : Pairings → String → ℕ → Pairings
forget_pairing s k p = if is_live s k p then record s { pairings = delete k s.pairings } else s

-- The client is let go unless its device was paired.
unfoldable pub end_pairing : Manager → Pairings → String → ℕ → ℕ → Bool → Manager × Pairings
end_pairing m s k p c has_device = (if has_device then m else drop m k c, forget_pairing s k p)

-- The time from which a code counts: where the one before it was scheduled to end, if that is past.
abbrev pub emitted_at : Pairing → ℕ → ℕ
emitted_at p now =
    let scheduled = p.emitted + p.lifetime in
    if not (p.emitted == 0) && ltb scheduled now then scheduled else now

abbrev pub retain_live_qr : Pairings → ℕ → ℕ → String → ℕ → Pairings × Bool
retain_live_qr s now p code timeout =
    let pairing = s.pairing_of p in
    if code == "" || timeout == 0 then (set_pairing s p (clear pairing), not (code == "")) else (
      set_pairing s p
          (record pairing { qr = code; emitted = emitted_at pairing now; lifetime = timeout }),
      ltb now (emitted_at pairing now + timeout),
    )

unfoldable pub retain_qr : Pairings → ℕ → String → ℕ → String → ℕ → Pairings × Bool
retain_qr s now k p code timeout =
    if is_live s k p then retain_live_qr s now p code timeout else (s, false)

unfoldable pub has_code : Pairings → String → ℕ → Bool
has_code s k p = is_live s k p && not ((s.pairing_of p).code == "")

unfoldable pub retain_code : Pairings → String → ℕ → String → Pairings × Bool
retain_code s k p code =
    if not (is_live s k p) || code == ""
    then (s, false)
    else (set_pairing s p (record (s.pairing_of p) { code = code }), true)

unfoldable pub clear_qr : Pairings → String → ℕ → Pairings
clear_qr s k p = if is_live s k p then set_pairing s p (clear (s.pairing_of p)) else s

-- What `DisconnectAll` does with the pairings.
unfoldable pub forget_all : Pairings → Pairings
forget_all s = record s { pairings = [] }
