-- ===== src/Call/AnnexB.antt =====
-- `SplitAnnexB` of internal/call/annexb.go: a stream of H.264 units cut into access units.
pub mod Units
use whatsmeow_gateway.Base.{
  ℕ, zero, suc, ◌+◌, ◌-◌, ◌%◌, List, [], ◌∷◌, ◌++◌, Bool, true, false, ◌&&◌, ◌||◌, nat_eq, ltb,
  length, take, drop, if◌then◌else◌,
}

-- `nalStart`.
pub record NalStart : Type 0 where
  pub offset : ℕ
  pub nal_type : ℕ

abbrev is_long_code : ℕ → ℕ → ℕ → ℕ → Bool
is_long_code a b c d = nat_eq a 0 && nat_eq b 0 && nat_eq c 0 && nat_eq d 1

abbrev is_short_code : ℕ → ℕ → ℕ → Bool
is_short_code a b c = nat_eq a 0 && nat_eq b 0 && nat_eq c 1

-- A start whose header is the first byte of what follows its code; the scan stops without one.
abbrev start_at : ℕ → List ℕ → List NalStart → List NalStart
start_at i [] later = []
start_at i (header ∷ rest) later = record { offset = i; nal_type = header % 32 } ∷ later

-- `nalStarts`, from the byte at offset `i`. It stops where fewer than three bytes are left, and a
-- start code at the end of the stream has no header.
unfoldable pub nal_starts : ℕ → List ℕ → List NalStart
nal_starts i [] = []
nal_starts i (a ∷ []) = []
nal_starts i (a ∷ b ∷ []) = []
nal_starts i (a ∷ b ∷ c ∷ []) = []
nal_starts i (a ∷ b ∷ c ∷ d ∷ rest) =
    let after_long = nal_starts (i + 4) rest in
    let after_short = nal_starts (i + 3) (d ∷ rest) in
    let next = nal_starts (i + 1) (b ∷ c ∷ d ∷ rest) in
    if is_long_code a b c d
    then start_at i rest after_long
    else if is_short_code a b c
    then start_at i (d ∷ rest) after_short
    else next

abbrev pub is_slice : ℕ → Bool
is_slice t = nat_eq t 1 || nat_eq t 5

-- `boundary`: a slice, an SEI, a parameter set or a delimiter begins a unit after a slice.
abbrev pub boundary : ℕ → Bool → Bool
boundary t has_slice =
    if is_slice t || nat_eq t 9 || nat_eq t 7 || nat_eq t 8 || nat_eq t 6 then has_slice else false

abbrev pub slice : ℕ → ℕ → List ℕ → List ℕ
slice from until stream = take (until - from) (drop from stream)

-- The loop of `SplitAnnexB` over the starts.
unfoldable pub cut_units : List ℕ → ℕ → Bool → List NalStart → List (List ℕ)
cut_units stream from has_slice [] =
    if ltb from (length stream) then slice from (length stream) stream ∷ [] else []
cut_units stream from has_slice (nal ∷ nals) =
    let cut = cut_units stream nal.offset (is_slice nal.nal_type) nals in
    let joined = cut_units stream from (has_slice || is_slice nal.nal_type) nals in
    if boundary nal.nal_type has_slice && ltb from nal.offset
    then slice from nal.offset stream ∷ cut
    else joined

unfoldable pub units_from : List ℕ → List NalStart → List (List ℕ)
units_from stream [] = []
units_from stream (nal ∷ nals) = cut_units stream nal.offset false (nal ∷ nals)

-- `SplitAnnexB`.
unfoldable pub split_annex_b : List ℕ → List (List ℕ)
split_annex_b stream = units_from stream (nal_starts 0 stream)
