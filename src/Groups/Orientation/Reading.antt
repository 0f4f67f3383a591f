-- ===== src/Groups/Orientation/Reading.antt =====
-- internal/groups/orientation.go, exifOrientation: whatever the bytes are, they are read in bounds.
use whatsmeow_gateway.Base.{
  ℕ, zero, suc, ◌+◌, ◌-◌, ◌≤◌, ◌<◌, Bool, true, false, not, ◌&&◌, ◌||◌, ◌≡◌, refl, inl, inr, List,
  [], ◌∷◌, Option, none, some, ◌==◌, nat_Eq, list_Eq, if◌then◌else◌, ltb, leb, length, take, drop,
  Result, ok, err, ◌>>=◌, arith, Bool-cases, length-drop,
}
use whatsmeow_gateway.Groups.Orientation.{
  Panic, byte_at, slice, ByteOrder, big_endian, uint16, uint32, exif_header, order_of,
  valid_orientation, read_value, read_entries, read_header, ends_scan, find_entry, read_tiff,
  tiff_orientation, or_next, read_segment, scan, exif_orientation,
}

-- A result that is no panic, with a property of its value.
abbrev pub Safe {ℓ} : {A : Type ℓ} → (A → Type 0) → Result Panic A → Type 0
Safe P (ok a) = P a
Safe P (err e) = ⊥

Safe-bind {ℓ κ} :
    {A : Type ℓ} {B : Type κ} (P : A → Type 0) (Q : B → Type 0) (m : Result Panic A)
    (f : A → Result Panic B)
    → Safe P m
    → ((a : A) → P a → Safe Q (f a))
    → Safe Q (m >>= f)
Safe-bind P Q (ok a) f h k = k a h
Safe-bind P Q (err e) f h k = absurd h

abbrev Any {ℓ} : {A : Type ℓ} → A → Type 0
Any a = Unit

byte_at-Safe : (bytes : List ℕ) (i : ℕ) → i < length bytes → Safe Any (byte_at bytes i)
byte_at-Safe [] i lt = absurd (omega arith)
byte_at-Safe (b ∷ bytes) zero lt = tt
byte_at-Safe (b ∷ bytes) (suc i) lt = byte_at-Safe bytes i (omega arith)

length-take : (n : ℕ) (xs : List ℕ) → n ≤ length xs → length (take n xs) ≡ n
length-take zero xs le = refl
length-take (suc n) [] le = absurd (omega arith)
length-take (suc n) (x ∷ xs) le = omega (arith, length-take n xs (omega arith))

slice-Safe :
    (bytes : List ℕ) (from to : ℕ)
    → from ≤ to
    → to ≤ length bytes
    → Safe (λ part. length part ≡ to - from) (slice bytes from to)
slice-Safe bytes from to le lt =
    let inside : (leb from to && leb to (length bytes)) ≡ true = ground arith in
    rw inside (length-take (to - from) (drop from bytes) (omega (arith, length-drop from bytes)))

uint16-Safe :
    (order : ByteOrder) (bytes : List ℕ) (i : ℕ)
    → i + 2 ≤ length bytes
    → Safe Any (uint16 order bytes i)
unfolding uint16
uint16-Safe order bytes i le =
    Safe-bind Any Any (byte_at bytes (i + 1)) _ (byte_at-Safe bytes (i + 1) (omega arith)) (λ b u.
      Safe-bind Any Any (byte_at bytes i) _ (byte_at-Safe bytes i (omega arith)) (λ a v. tt))

uint32-Safe :
    (order : ByteOrder) (bytes : List ℕ) (i : ℕ)
    → i + 4 ≤ length bytes
    → Safe Any (uint32 order bytes i)
unfolding uint32
uint32-Safe order bytes i le =
    Safe-bind Any Any (uint16 order bytes (i + 2)) _ (uint16-Safe order bytes (i + 2) (omega arith))
      (λ b u.
        Safe-bind Any Any (uint16 order bytes i) _ (uint16-Safe order bytes i (omega arith))
          (λ a v. tt))

-- An orientation as EXIF has them.
abbrev pub IsOrientation : ℕ → Type 0
IsOrientation value = (1 ≤ value) × (value ≤ 8)

abbrev IsMaybe : Option ℕ → Type 0
IsMaybe none = Unit
IsMaybe (some value) = IsOrientation value

valid-IsMaybe : (value : ℕ) → IsMaybe (valid_orientation value)
valid-IsMaybe value = elim (Bool-cases (ltb value 1 || ltb 8 value)) [
  | inl h ↦ rw h tt
  | inr h ↦ rw h (ground arith, ground arith)
]

if_Safe :
    {A : Type 0} (P : A → Type 0) (b : Bool) (m n : Result Panic A)
    → Safe P m
    → Safe P n
    → Safe P (if b then m else n)
if_Safe P true m n h k = h
if_Safe P false m n h k = k

find_entry-Safe :
    (order : ByteOrder) (tiff : List ℕ) (entries entry : ℕ)
    → Safe IsMaybe (find_entry order tiff entries entry)
unfolding find_entry
find_entry-Safe order tiff zero entry = tt
find_entry-Safe order tiff (suc entries) entry =
    elim (Bool-cases (ltb (length tiff) (entry + 12))) [
      | inl h ↦ rw h tt
      | inr h ↦
          let inside : entry + 12 ≤ length tiff = ground arith in
          rw h (
            Safe-bind Any IsMaybe (uint16 order tiff entry) _
              (uint16-Safe order tiff entry (omega arith))
              (λ tag u.
                if_Safe IsMaybe (tag == 0x0112) (read_value order tiff entry)
                  (find_entry order tiff entries (entry + 12))
                  (Safe-bind Any IsMaybe (uint16 order tiff (entry + 8)) _
                    (uint16-Safe order tiff (entry + 8) (omega arith)) (λ v w. valid-IsMaybe v))
                  (find_entry-Safe order tiff entries (entry + 12))))
    ]

read_entries-Safe :
    (order : ByteOrder) (tiff : List ℕ) (offset : ℕ) → Safe IsMaybe (read_entries order tiff offset)
read_entries-Safe order tiff offset = elim (Bool-cases (ltb (length tiff) (offset + 2))) [
  | inl h ↦ rw h tt
  | inr h ↦ rw h (
      Safe-bind Any IsMaybe (uint16 order tiff offset) _
        (uint16-Safe order tiff offset (ground arith))
        (λ entries u. find_entry-Safe order tiff entries (offset + 2)))
]

read_tiff-Safe :
    (order : Option ByteOrder) (tiff : List ℕ)
    → 8 ≤ length tiff
    → Safe IsMaybe (read_tiff order tiff)
read_tiff-Safe none tiff le = tt
read_tiff-Safe (some order) tiff le =
    Safe-bind Any IsMaybe (uint16 order tiff 2) _ (uint16-Safe order tiff 2 (omega arith))
      (λ magic u.
        if_Safe IsMaybe (magic == 42)
          (uint32 order tiff 4 >>= λ offset. read_entries order tiff offset) (ok none)
          (Safe-bind Any IsMaybe (uint32 order tiff 4) _ (uint32-Safe order tiff 4 (omega arith))
            (λ offset v. read_entries-Safe order tiff offset))
          tt)

tiff_orientation-Safe : (segment : List ℕ) → Safe IsMaybe (tiff_orientation segment)
unfolding tiff_orientation
tiff_orientation-Safe segment = elim (Bool-cases (ltb (length segment) 14)) [
  | inl h ↦ rw h tt
  | inr h ↦
      let full : 14 ≤ length segment = ground arith in
      rw h (
        Safe-bind (λ part. length part ≡ 6) IsMaybe (slice segment 0 6) _
          (slice-Safe segment 0 6 (omega arith) (omega arith))
          (λ header u.
            if_Safe IsMaybe (header == exif_header) (read_header segment) (ok none)
              (Safe-bind (λ part. length part ≡ length segment - 6) IsMaybe
                (slice segment 6 (length segment)) _
                (slice-Safe segment 6 (length segment) (omega arith) (omega arith))
                (λ tiff e.
                  Safe-bind (λ part. length part ≡ 2) IsMaybe (slice tiff 0 2) _
                    (slice-Safe tiff 0 2 (omega arith) (omega arith))
                    (λ mark v. read_tiff-Safe (order_of mark) tiff (omega arith))))
              tt))
]

or_next-Safe :
    (o : Option ℕ) (rest : Result Panic ℕ)
    → IsMaybe o
    → Safe IsOrientation rest
    → Safe IsOrientation (or_next o rest)
or_next-Safe none rest h k = k
or_next-Safe (some value) rest h k = h

scan-Safe :
    (fuel : ℕ) (bytes : List ℕ) (pos : ℕ)
    → length bytes ≤ pos + fuel
    → Safe IsOrientation (scan fuel bytes pos)
unfolding scan
scan-Safe zero bytes pos enough =
    let past : leb (pos + 4) (length bytes) ≡ false = ground arith in
    rw past (omega arith, omega arith)
scan-Safe (suc fuel) bytes pos enough = elim (Bool-cases (leb (pos + 4) (length bytes))) [
  | inr h ↦ rw h (omega arith, omega arith)
  | inl h ↦
      let inside : pos + 4 ≤ length bytes = ground arith in
      rw h (
        Safe-bind Any IsOrientation (byte_at bytes pos) _ (byte_at-Safe bytes pos (omega arith))
          (λ first u.
            Safe-bind Any IsOrientation (byte_at bytes (pos + 1)) _
              (byte_at-Safe bytes (pos + 1) (omega arith))
              (λ marker v.
                Safe-bind Any IsOrientation (uint16 big_endian bytes (pos + 2)) _
                  (uint16-Safe big_endian bytes (pos + 2) (omega arith))
                  (λ size w.
                    segment_case first marker size inside
                      (scan-Safe fuel bytes (pos + 2 + size) (omega arith))))))
]
  where
    segment_case :
        (first marker size : ℕ)
        → pos + 4 ≤ length bytes
        → Safe IsOrientation (scan fuel bytes (pos + 2 + size))
        → Safe IsOrientation (
            if ends_scan first marker size (pos + 2 + size) (length bytes)
            then ok 1
            else read_segment bytes pos marker (pos + 2 + size) (scan fuel bytes (pos + 2 + size)))
    segment_case first marker size inside go =
        elim (Bool-cases (ends_scan first marker size (pos + 2 + size) (length bytes))) [
          | inl e ↦ rw e (omega arith, omega arith)
          | inr e ↦
              let rest = scan fuel bytes (pos + 2 + size) in
              rw e (
                if_Safe IsOrientation (marker == 0xE1)
                  (slice bytes (pos + 4) (pos + 2 + size) >>= λ segment.
                    tiff_orientation segment >>= λ value. or_next value rest)
                  rest
                  (Safe-bind (λ part. length part ≡ pos + 2 + size - (pos + 4)) IsOrientation
                    (slice bytes (pos + 4) (pos + 2 + size)) _
                    (slice-Safe bytes (pos + 4) (pos + 2 + size) (ground arith) (ground arith))
                    (λ segment x.
                      Safe-bind IsMaybe IsOrientation (tiff_orientation segment) _
                        (tiff_orientation-Safe segment) (λ value y. or_next-Safe value rest y go)))
                  go)
        ]

-- Whatever bytes a picture has, the reading of its orientation returns, reads no byte out of range,
-- and gives one of the eight orientations.
pub exif_orientation-Safe : (bytes : List ℕ) → Safe IsOrientation (exif_orientation bytes)
unfolding exif_orientation
exif_orientation-Safe bytes = elim (Bool-cases (ltb (length bytes) 4)) [
  | inl h ↦ rw h (omega arith, omega arith)
  | inr h ↦
      let full : 4 ≤ length bytes = ground arith in
      rw h (
        Safe-bind Any IsOrientation (byte_at bytes 0) _ (byte_at-Safe bytes 0 (omega arith))
          (λ first u.
            Safe-bind Any IsOrientation (byte_at bytes 1) _ (byte_at-Safe bytes 1 (omega arith))
              (λ second v.
                if_Safe IsOrientation (not (first == 0xFF) || not (second == 0xD8)) (ok 1)
                  (scan (length bytes) bytes 2) (omega arith, omega arith)
                  (scan-Safe (length bytes) bytes 2 (omega arith)))))
]
