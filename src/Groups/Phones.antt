-- ===== src/Groups/Phones.antt =====
-- The phone numbers of `remove_participants` in internal/groups/service.go: `wantedPhones` and
-- `brazilianSibling`. A number is the list of its bytes.
use whatsmeow_gateway.Base.{
  ℕ, ◌+◌, List, [], ◌∷◌, ◌++◌, Bool, true, false, ◌&&◌, Option, none, some, nat_eq, if◌then◌else◌,
  length, take, drop, get_elem?, ◌≡◌, refl, arith, list_Eq, nat_Eq, contains, ==-refl,
}

abbrev pub Digits : Type 0
Digits = List ℕ

abbrev brazil_prefix_len : ℕ
brazil_prefix_len = 4

abbrev brazil_landline_len : ℕ
brazil_landline_len = 12

abbrev brazil_mobile_len : ℕ
brazil_mobile_len = 13

abbrev brazil_mobile_digit : ℕ
brazil_mobile_digit = b'9'

-- `strings.HasPrefix(number, "55")`.
abbrev has_country_code : Digits → Bool
has_country_code (a ∷ b ∷ rest) = nat_eq a b'5' && nat_eq b b'5'
has_country_code _ = false

abbrev mobile_digit_at : Option ℕ → Bool
mobile_digit_at none = false
mobile_digit_at (some d) = nat_eq d brazil_mobile_digit

unfoldable pub brazilian_sibling : Digits → Option Digits
brazilian_sibling number =
    if has_country_code number
    then (if nat_eq (length number) brazil_landline_len
        then some
            (take brazil_prefix_len number ++ (brazil_mobile_digit ∷ drop brazil_prefix_len number))
        else if nat_eq (length number) brazil_mobile_len
        then (if mobile_digit_at (get_elem? number brazil_prefix_len)
            then some (take brazil_prefix_len number ++ drop (brazil_prefix_len + 1) number)
            else none)
        else none)
    else none

-- `strings.TrimLeft(phone, "+")`.
unfoldable pub trim_plus : Digits → Digits
trim_plus [] = []
trim_plus (c ∷ cs) = elim (nat_eq c b'+') [ true ↦ trim_plus cs | false ↦ c ∷ cs ]

abbrev with_sibling : Digits → Option Digits → List Digits → List Digits
with_sibling number none wanted = number ∷ wanted
with_sibling number (some sibling) wanted = number ∷ sibling ∷ wanted

-- The members of the set, in the order of the phones.
unfoldable pub wanted_phones : List Digits → List Digits
unfolding trim_plus brazilian_sibling
wanted_phones [] = []
wanted_phones (phone ∷ phones) =
    with_sibling (trim_plus phone) (brazilian_sibling (trim_plus phone)) (wanted_phones phones)

-- A Brazilian number has at most one sibling, and is its sibling's sibling: the ninth digit that a
-- landline-length number gains is the one that a mobile-length number loses.
pub brazilian_sibling_twice :
    (number : Digits) {other : Digits}
    → brazilian_sibling number ≡ some other
    → brazilian_sibling other ≡ some number
unfolding brazilian_sibling
brazilian_sibling_twice (a ∷ b ∷ c ∷ d ∷ []) h = ground arith
brazilian_sibling_twice (a ∷ b ∷ c ∷ d ∷ e ∷ rest) h = ground arith
brazilian_sibling_twice _ h = ground arith

trim_plus_of_sibling :
    (number : Digits) {other : Digits}
    → brazilian_sibling number ≡ some other
    → trim_plus number ≡ number
unfolding brazilian_sibling trim_plus
trim_plus_of_sibling [] h = refl
trim_plus_of_sibling (a ∷ []) h = ground arith
trim_plus_of_sibling (a ∷ b ∷ rest) h = ground arith

-- Asking by either form of a Brazilian number, with or without the ninth digit, selects the same
-- participants.
pub contains-wanted_phones :
    (number other : Digits) (phones : List Digits) (n : Digits)
    → brazilian_sibling number ≡ some other
    → contains n (wanted_phones (number ∷ phones)) ≡ contains n (wanted_phones (other ∷ phones))
unfolding wanted_phones
contains-wanted_phones number other phones n h =
    let back = brazilian_sibling_twice number h in
    rw (trim_plus_of_sibling number h, trim_plus_of_sibling other back, h, back) (ground arith)

-- A phone selects the number that it writes, with or without the plus sign.
pub contains-wanted_phones_self :
    (phone : Digits) (phones : List Digits)
    → contains (trim_plus phone) (wanted_phones (phone ∷ phones)) ≡ true
unfolding wanted_phones
contains-wanted_phones_self phone phones = ground (arith, ==-refl (trim_plus phone))
