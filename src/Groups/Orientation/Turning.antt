-- ===== src/Groups/Orientation/Turning.antt =====
-- internal/groups/orientation.go, orient: turning a picture puts it upright, and loses nothing.
use whatsmeow_gateway.Base.{
  ℕ, zero, suc, ◌-◌, ◌≤◌, ◌<◌, ◌≡◌, refl, arith, ◌==◌, nat_Eq, if◌then◌else◌, Bool, true, false, ltb,
  ◌&&◌, ◌∙◌,
}
use whatsmeow_gateway.Groups.Orientation.{Picture, orient, source, rgba_at}

pub data Side : Type 0 where
  top right bottom left : Side

-- Where the EXIF standard has the first row of the stored picture, and its first column.
abbrev pub first_row : ℕ → Side
first_row orientation =
    if orientation == 1 then top
    else if orientation == 2 then top
    else if orientation == 3 then bottom
    else if orientation == 4 then bottom
    else if orientation == 5 then left
    else if orientation == 6 then right
    else if orientation == 7 then right
    else left

abbrev pub first_column : ℕ → Side
first_column orientation =
    if orientation == 1 then left
    else if orientation == 2 then right
    else if orientation == 3 then right
    else if orientation == 4 then left
    else if orientation == 5 then top
    else if orientation == 6 then top
    else if orientation == 7 then bottom
    else bottom

-- How many pixels a pixel is away from a side.
abbrev pub distance : ℕ → Side → ℕ → ℕ → ℕ
distance size top x y = y
distance size bottom x y = size - suc y
distance size left x y = x
distance size right x y = size - suc x

rgba_at-inside :
    {Colour : Type 0} (nothing : Colour) (picture : Picture Colour) {x y sx sy : ℕ}
    → sx ≡ x
    → sy ≡ y
    → x < picture.size
    → y < picture.size
    → rgba_at nothing picture sx sy ≡ picture.pixel x y
unfolding rgba_at
rgba_at-inside nothing picture {x} {y} e f x_lt y_lt =
    rw (e, f) (ground arith)

-- A turned picture has the size of the stored one, and is upright: each of its pixels is the stored
-- pixel whose row and column are as far from the first ones as the pixel is from the sides where the
-- EXIF standard has these.
pub orient-upright :
    {Colour : Type 0} (nothing : Colour) (square : Picture Colour) (orientation x y : ℕ)
    → 1 ≤ orientation
    → orientation ≤ 8
    → x < square.size
    → y < square.size
    → let turned = orient nothing square orientation in
      (turned.size ≡ square.size)
      × (turned.pixel x y
          ≡ square.pixel
            (distance square.size (first_column orientation) x y)
            (distance square.size (first_row orientation) x y))
unfolding orient source
orient-upright nothing square zero x y low high x_lt y_lt = absurd (omega arith)
orient-upright nothing square (suc zero) x y low high x_lt y_lt = (refl, refl)
orient-upright nothing square (suc (suc zero)) x y low high x_lt y_lt =
    (refl, rgba_at-inside nothing square (omega arith) (omega arith) (omega arith) (omega arith))
orient-upright nothing square (suc (suc (suc zero))) x y low high x_lt y_lt =
    (refl, rgba_at-inside nothing square (omega arith) (omega arith) (omega arith) (omega arith))
orient-upright nothing square (suc (suc (suc (suc zero)))) x y low high x_lt y_lt =
    (refl, rgba_at-inside nothing square (omega arith) (omega arith) (omega arith) (omega arith))
orient-upright nothing square (suc (suc (suc (suc (suc zero))))) x y low high x_lt y_lt =
    (refl, rgba_at-inside nothing square (omega arith) (omega arith) (omega arith) (omega arith))
orient-upright nothing square (suc (suc (suc (suc (suc (suc zero)))))) x y low high x_lt y_lt =
    (refl, rgba_at-inside nothing square (omega arith) (omega arith) (omega arith) (omega arith))
orient-upright nothing square (suc (suc (suc (suc (suc (suc (suc zero))))))) x y low high x_lt y_lt =
    (refl, rgba_at-inside nothing square (omega arith) (omega arith) (omega arith) (omega arith))
orient-upright nothing square (suc (suc (suc (suc (suc (suc (suc (suc zero)))))))) x y low high x_lt y_lt =
    (refl, rgba_at-inside nothing square (omega arith) (omega arith) (omega arith) (omega arith))
orient-upright nothing square (suc (suc (suc (suc (suc (suc (suc (suc (suc more))))))))) x y low high x_lt y_lt = absurd (omega arith)

-- The orientation that undoes another: the two quarter turns undo each other, and each other
-- orientation undoes itself.
abbrev pub undoing : ℕ → ℕ
undoing orientation = if orientation == 6 then 8 else if orientation == 8 then 6 else orientation

pub orient-orient :
    {Colour : Type 0} (nothing : Colour) (square : Picture Colour) (orientation x y : ℕ)
    → 1 ≤ orientation
    → orientation ≤ 8
    → x < square.size
    → y < square.size
    → (orient nothing (orient nothing square orientation) (undoing orientation)).pixel x y
      ≡ square.pixel x y
unfolding orient source
orient-orient nothing square zero x y low high x_lt y_lt = absurd (omega arith)
orient-orient nothing square (suc zero) x y low high x_lt y_lt = refl
orient-orient nothing square (suc (suc zero)) x y low high x_lt y_lt =
    rgba_at-inside nothing (orient nothing square 2) refl refl (omega arith) (omega arith)
    ∙ rgba_at-inside nothing square (omega arith) (omega arith) x_lt y_lt
orient-orient nothing square (suc (suc (suc zero))) x y low high x_lt y_lt =
    rgba_at-inside nothing (orient nothing square 3) refl refl (omega arith) (omega arith)
    ∙ rgba_at-inside nothing square (omega arith) (omega arith) x_lt y_lt
orient-orient nothing square (suc (suc (suc (suc zero)))) x y low high x_lt y_lt =
    rgba_at-inside nothing (orient nothing square 4) refl refl (omega arith) (omega arith)
    ∙ rgba_at-inside nothing square (omega arith) (omega arith) x_lt y_lt
orient-orient nothing square (suc (suc (suc (suc (suc zero))))) x y low high x_lt y_lt =
    rgba_at-inside nothing (orient nothing square 5) refl refl (omega arith) (omega arith)
    ∙ rgba_at-inside nothing square (omega arith) (omega arith) x_lt y_lt
orient-orient nothing square (suc (suc (suc (suc (suc (suc zero)))))) x y low high x_lt y_lt =
    rgba_at-inside nothing (orient nothing square 6) refl refl (omega arith) (omega arith)
    ∙ rgba_at-inside nothing square (omega arith) (omega arith) x_lt y_lt
orient-orient nothing square (suc (suc (suc (suc (suc (suc (suc zero))))))) x y low high x_lt y_lt =
    rgba_at-inside nothing (orient nothing square 7) refl refl (omega arith) (omega arith)
    ∙ rgba_at-inside nothing square (omega arith) (omega arith) x_lt y_lt
orient-orient nothing square (suc (suc (suc (suc (suc (suc (suc (suc zero)))))))) x y low high x_lt y_lt =
    rgba_at-inside nothing (orient nothing square 8) refl refl (omega arith) (omega arith)
    ∙ rgba_at-inside nothing square (omega arith) (omega arith) x_lt y_lt
orient-orient nothing square (suc (suc (suc (suc (suc (suc (suc (suc (suc more))))))))) x y low high x_lt y_lt = absurd (omega arith)
