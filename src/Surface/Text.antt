-- ===== src/Surface/Text.antt =====
-- src/surface.c `surface_draw_text`: the loops over the characters and over the dots of a glyph.
use Prim.Native.Nat.{bit_and}
use argusos_uefi_v.Base.{
  ℕ, zero, suc, ◌+◌, ◌-◌, ◌*◌, ◌^◌, not, ◌||◌, List, [], ◌∷◌, ltb, ◌==◌, if◌then◌else◌, Bool-cases,
  inl, inr,
}
use argusos_uefi_v.Base.Words.{u32, sub32}
use argusos_uefi_v.Surface.{Surface, surface_valid, surface_fill_rect}
use argusos_uefi_v.Surface.Damage.{IsSurface}
use argusos_uefi_v.Surface.Draw.{fill_rect-IsSurface}
use argusos_uefi_v.Surface.Font.{font5x7_row}

module _ (x y scale color : ℕ) where
  -- The loop over the five columns, from `column` on, with the rounds left.
  unfoldable pub draw_columns : ℕ → ℕ → ℕ → ℕ → Surface → Surface
  draw_columns bits row zero column s = s
  draw_columns bits row (suc rounds) column s = draw_columns bits row rounds (column + 1) (
      if bit_and bits (2 ^ (4 - column)) == 0
      then s
      else surface_fill_rect s (u32 (x + column * scale)) (u32 (y + row * scale)) scale scale color)

  -- The loop over the seven rows of a glyph.
  unfoldable pub draw_rows : ℕ → ℕ → ℕ → Surface → Surface
  draw_rows character zero row s = s
  draw_rows character (suc rounds) row s =
      draw_rows character rounds (row + 1) (draw_columns (font5x7_row character row) row 5 0 s)

-- The loop over the characters of the text, from column `x` on.
unfoldable pub draw_characters : List ℕ → ℕ → ℕ → ℕ → ℕ → Surface → Surface
draw_characters [] x y scale color s = s
draw_characters (character ∷ text) x y scale color s =
    let drawn = draw_rows x y scale color character 7 0 s in
    let rest = draw_characters text (u32 (x + u32 (6 * scale))) y scale color drawn in
    if ltb (sub32 0xFFFF_FFFF (u32 (6 * scale))) x then drawn else rest

unfoldable pub surface_draw_text : Surface → List ℕ → ℕ → ℕ → ℕ → ℕ → Surface
surface_draw_text s text x y scale color =
    if not (surface_valid s) || scale == 0 then s else draw_characters text x y scale color s

draw_columns-IsSurface :
    (x y scale color bits row n column : ℕ) (s : Surface)
    → IsSurface s
    → IsSurface (draw_columns x y scale color bits row n column s)
unfolding draw_columns
draw_columns-IsSurface x y scale color bits row zero column s ok = ok
draw_columns-IsSurface x y scale color bits row (suc n) column s ok =
    elim (Bool-cases (bit_and bits (2 ^ (4 - column)) == 0)) [
      | inl off ↦ rw off (draw_columns-IsSurface x y scale color bits row n (column + 1) s ok)
      | inr dot ↦ rw dot (
          draw_columns-IsSurface x y scale color bits row n (column + 1) _ (
            fill_rect-IsSurface s (u32 (x + column * scale)) (u32 (y + row * scale)) scale scale
              color ok))
    ]

draw_rows-IsSurface :
    (x y scale color character n row : ℕ) (s : Surface)
    → IsSurface s
    → IsSurface (draw_rows x y scale color character n row s)
unfolding draw_rows
draw_rows-IsSurface x y scale color character zero row s ok = ok
draw_rows-IsSurface x y scale color character (suc n) row s ok =
    draw_rows-IsSurface x y scale color character n (row + 1) _
      (draw_columns-IsSurface x y scale color (font5x7_row character row) row 5 0 s ok)

draw_characters-IsSurface :
    (text : List ℕ) (x y scale color : ℕ) (s : Surface)
    → IsSurface s
    → IsSurface (draw_characters text x y scale color s)
unfolding draw_characters
draw_characters-IsSurface [] x y scale color s ok = ok
draw_characters-IsSurface (c ∷ text) x y scale color s ok =
    let drawn = draw_rows-IsSurface x y scale color c 7 0 s ok in
    elim (Bool-cases (ltb (sub32 0xFFFF_FFFF (u32 (6 * scale))) x)) [
      | inl last ↦ rw last drawn
      | inr more ↦
          rw more (draw_characters-IsSurface text (u32 (x + u32 (6 * scale))) y scale color _ drawn)
    ]

pub draw_text-IsSurface :
    (s : Surface) (text : List ℕ) (x y scale color : ℕ)
    → IsSurface s
    → IsSurface (surface_draw_text s text x y scale color)
unfolding surface_draw_text
draw_text-IsSurface s text x y scale color ok =
    elim (Bool-cases (not (surface_valid s) || scale == 0)) [
      | inl refused ↦ rw refused ok
      | inr drawn ↦ rw drawn (draw_characters-IsSurface text x y scale color s ok)
    ]
