-- ===== src/Groups/Orientation.antt =====
-- internal/groups/orientation.go: the orientation that a JPEG's EXIF data asks for, and the turning of
-- a picture. Bytes are numbers. An index or a slice out of range, which panics in Go, is an error
-- here; a slice may reach up to the length, not the capacity. A picture has a size and a colour for
-- each pair of coordinates, which is read through the bounds only.
pub mod Reading
pub mod Turning
use whatsmeow_gateway.Base.{
  ℕ, zero, suc, ◌+◌, ◌-◌, ◌*◌, Bool, true, false, not, ◌&&◌, ◌||◌, List, [], ◌∷◌, Option, none,
  some, ◌==◌, nat_Eq, list_Eq, if◌then◌else◌, ltb, leb, length, get_elem?, take, drop, Result, ok,
  err, ◌>>=◌,
}

pub data Panic : Type 0 where
  out_of_range out_of_fuel : Panic

abbrev pub found {ℓ} : {A : Type ℓ} → Option A → Result Panic A
found none = err out_of_range
found (some a) = ok a

abbrev pub byte_at : List ℕ → ℕ → Result Panic ℕ
byte_at bytes i = found (get_elem? bytes i)

abbrev pub slice : List ℕ → ℕ → ℕ → Result Panic (List ℕ)
slice bytes from to =
    if leb from to && leb to (length bytes)
    then ok (take (to - from) (drop from bytes))
    else err out_of_range

pub data ByteOrder : Type 0 where
  big_endian little_endian : ByteOrder

abbrev pub pair_of : ByteOrder → ℕ → ℕ → ℕ
pair_of big_endian a b = a * 256 + b
pair_of little_endian a b = b * 256 + a

-- `Uint16(bytes[i:])`: the slice, and then its second byte before its first.
unfoldable pub uint16 : ByteOrder → List ℕ → ℕ → Result Panic ℕ
uint16 order bytes i = do b ← byte_at bytes (i + 1); a ← byte_at bytes i; ok (pair_of order a b)

abbrev pub quad_of : ByteOrder → ℕ → ℕ → ℕ
quad_of big_endian a b = a * 65536 + b
quad_of little_endian a b = b * 65536 + a

unfoldable pub uint32 : ByteOrder → List ℕ → ℕ → Result Panic ℕ
uint32 order bytes i = do
  b ← uint16 order bytes (i + 2)
  a ← uint16 order bytes i
  ok (quad_of order a b)

abbrev pub exif_header : List ℕ
exif_header = 69 ∷ 120 ∷ 105 ∷ 102 ∷ 0 ∷ 0 ∷ []

abbrev pub order_of : List ℕ → Option ByteOrder
order_of mark =
    if mark == (73 ∷ 73 ∷ [])
    then some little_endian
    else if mark == (77 ∷ 77 ∷ [])
    then some big_endian
    else none

abbrev pub valid_orientation : ℕ → Option ℕ
valid_orientation value = if ltb value 1 || ltb 8 value then none else some value

abbrev pub read_value : ByteOrder → List ℕ → ℕ → Result Panic (Option ℕ)
read_value order tiff entry = do value ← uint16 order tiff (entry + 8); ok (valid_orientation value)

-- The loop over the entries of the directory: those that are left, and where the next one is.
unfoldable pub find_entry : ByteOrder → List ℕ → ℕ → ℕ → Result Panic (Option ℕ)
find_entry order tiff zero entry = ok none
find_entry order tiff (suc entries) entry =
    let rest = find_entry order tiff entries (entry + 12) in
    if ltb (length tiff) (entry + 12)
    then ok none
    else (uint16 order tiff entry >>= λ tag.
        if tag == 0x0112 then read_value order tiff entry else rest)

abbrev pub read_entries : ByteOrder → List ℕ → ℕ → Result Panic (Option ℕ)
read_entries order tiff offset =
    if ltb (length tiff) (offset + 2)
    then ok none
    else (uint16 order tiff offset >>= λ entries. find_entry order tiff entries (offset + 2))

abbrev pub read_directory : ByteOrder → List ℕ → Result Panic (Option ℕ)
read_directory order tiff = uint16 order tiff 2 >>= λ magic.
    if magic == 42
    then (uint32 order tiff 4 >>= λ offset. read_entries order tiff offset)
    else ok none

abbrev pub read_tiff : Option ByteOrder → List ℕ → Result Panic (Option ℕ)
read_tiff none tiff = ok none
read_tiff (some order) tiff = read_directory order tiff

abbrev pub read_header : List ℕ → Result Panic (Option ℕ)
read_header segment = slice segment 6 (length segment) >>= λ tiff.
    slice tiff 0 2 >>= λ mark. read_tiff (order_of mark) tiff

unfoldable pub tiff_orientation : List ℕ → Result Panic (Option ℕ)
tiff_orientation segment =
    if ltb (length segment) 14
    then ok none
    else (slice segment 0 6 >>= λ header.
        if header == exif_header then read_header segment else ok none)

abbrev pub or_next : Option ℕ → Result Panic ℕ → Result Panic ℕ
or_next none rest = rest
or_next (some value) rest = ok value

-- A segment that is in the data, by its marker, and the rest of the loop.
abbrev pub read_segment : List ℕ → ℕ → ℕ → ℕ → Result Panic ℕ → Result Panic ℕ
read_segment bytes pos marker end rest =
    if marker == 0xE1
    then (slice bytes (pos + 4) end >>= λ segment.
        tiff_orientation segment >>= λ value. or_next value rest)
    else rest

abbrev pub ends_scan : ℕ → ℕ → ℕ → ℕ → ℕ → Bool
ends_scan first marker size end total =
    not (first == 0xFF) || marker == 0xDA || ltb size 2 || ltb total end

-- The loop over the segments. Each one moves on by at least four bytes, so as many rounds as there
-- are bytes are enough.
unfoldable pub scan : ℕ → List ℕ → ℕ → Result Panic ℕ
scan zero bytes pos = if leb (pos + 4) (length bytes) then err out_of_fuel else ok 1
scan (suc fuel) bytes pos =
    if leb (pos + 4) (length bytes)
    then (byte_at bytes pos >>= λ first. byte_at bytes (pos + 1) >>= λ marker.
        uint16 big_endian bytes (pos + 2) >>= λ size.
        let rest = scan fuel bytes (pos + 2 + size) in
        if ends_scan first marker size (pos + 2 + size) (length bytes)
        then ok 1
        else read_segment bytes pos marker (pos + 2 + size) rest)
    else ok 1

unfoldable pub exif_orientation : List ℕ → Result Panic ℕ
exif_orientation bytes =
    if ltb (length bytes) 4
    then ok 1
    else (byte_at bytes 0 >>= λ first. byte_at bytes 1 >>= λ second.
        if not (first == 0xFF) || not (second == 0xD8) then ok 1 else scan (length bytes) bytes 2)

-- Where the pixel at `x`, `y` of a turned picture comes from.
unfoldable pub source : ℕ → ℕ → ℕ → ℕ → ℕ × ℕ
source orientation last x y =
    if orientation == 2
    then (last - x, y)
    else if orientation == 3
    then (last - x, last - y)
    else if orientation == 4
    then (x, last - y)
    else if orientation == 5
    then (y, x)
    else if orientation == 6
    then (y, last - x)
    else if orientation == 7
    then (last - y, last - x)
    else if orientation == 8
    then (last - y, x)
    else (x, y)

-- A square picture with `size` pixels to a side.
pub record Picture (Colour : Type 0) : Type 0 where
  pub size : ℕ
  pub pixel : ℕ → ℕ → Colour

-- `RGBAAt`: outside the picture it gives the colour of nothing.
unfoldable pub rgba_at : {Colour : Type 0} → Colour → Picture Colour → ℕ → ℕ → Colour
rgba_at nothing picture x y =
    if ltb x picture.size && ltb y picture.size then picture.pixel x y else nothing

unfoldable pub orient : {Colour : Type 0} → Colour → Picture Colour → ℕ → Picture Colour
orient nothing square orientation =
    if orientation == 1
    then square
    else record {
      size = square.size;
      pixel = λ x y.
          let (sx, sy) = source orientation (square.size - 1) x y in rgba_at nothing square sx sy;
    }
