-- ===== src/Surface/Font.antt =====
-- src/font5x7.c: the glyphs of five by seven dots, a byte to a row. Characters are bytes.
use argusos_uefi_v.Base.{
  ℕ, ◌+◌, ◌-◌, true, false, ◌&&◌, ◌||◌, Option, none, some, List, [], ◌∷◌, leb, ◌==◌, if◌then◌else◌,
  get_or,
}

-- `glyph_t`.
pub record Glyph : Type 0 where
  pub c : ℕ
  pub row : List ℕ

abbrev glyph : ℕ → List ℕ → Glyph
glyph c row = record { c = c; row = row }

abbrev glyphs : List Glyph
glyphs =
    glyph 0x30 (0xe ∷ 0x11 ∷ 0x13 ∷ 0x15 ∷ 0x19 ∷ 0x11 ∷ 0xe ∷ [])
    ∷ glyph 0x31 (0x4 ∷ 0xc ∷ 0x4 ∷ 0x4 ∷ 0x4 ∷ 0x4 ∷ 0xe ∷ [])
    ∷ glyph 0x32 (0xe ∷ 0x11 ∷ 0x1 ∷ 0x2 ∷ 0x4 ∷ 0x8 ∷ 0x1f ∷ [])
    ∷ glyph 0x33 (0x1e ∷ 0x1 ∷ 0x1 ∷ 0xe ∷ 0x1 ∷ 0x1 ∷ 0x1e ∷ [])
    ∷ glyph 0x34 (0x2 ∷ 0x6 ∷ 0xa ∷ 0x12 ∷ 0x1f ∷ 0x2 ∷ 0x2 ∷ [])
    ∷ glyph 0x35 (0x1f ∷ 0x10 ∷ 0x10 ∷ 0x1e ∷ 0x1 ∷ 0x1 ∷ 0x1e ∷ [])
    ∷ glyph 0x36 (0xe ∷ 0x10 ∷ 0x10 ∷ 0x1e ∷ 0x11 ∷ 0x11 ∷ 0xe ∷ [])
    ∷ glyph 0x37 (0x1f ∷ 0x1 ∷ 0x2 ∷ 0x4 ∷ 0x8 ∷ 0x8 ∷ 0x8 ∷ [])
    ∷ glyph 0x38 (0xe ∷ 0x11 ∷ 0x11 ∷ 0xe ∷ 0x11 ∷ 0x11 ∷ 0xe ∷ [])
    ∷ glyph 0x39 (0xe ∷ 0x11 ∷ 0x11 ∷ 0xf ∷ 0x1 ∷ 0x1 ∷ 0xe ∷ [])
    ∷ glyph 0x41 (0xe ∷ 0x11 ∷ 0x11 ∷ 0x1f ∷ 0x11 ∷ 0x11 ∷ 0x11 ∷ [])
    ∷ glyph 0x42 (0x1e ∷ 0x11 ∷ 0x11 ∷ 0x1e ∷ 0x11 ∷ 0x11 ∷ 0x1e ∷ [])
    ∷ glyph 0x43 (0xf ∷ 0x10 ∷ 0x10 ∷ 0x10 ∷ 0x10 ∷ 0x10 ∷ 0xf ∷ [])
    ∷ glyph 0x44 (0x1e ∷ 0x11 ∷ 0x11 ∷ 0x11 ∷ 0x11 ∷ 0x11 ∷ 0x1e ∷ [])
    ∷ glyph 0x45 (0x1f ∷ 0x10 ∷ 0x10 ∷ 0x1e ∷ 0x10 ∷ 0x10 ∷ 0x1f ∷ [])
    ∷ glyph 0x46 (0x1f ∷ 0x10 ∷ 0x10 ∷ 0x1e ∷ 0x10 ∷ 0x10 ∷ 0x10 ∷ [])
    ∷ glyph 0x47 (0xf ∷ 0x10 ∷ 0x10 ∷ 0x17 ∷ 0x11 ∷ 0x11 ∷ 0xf ∷ [])
    ∷ glyph 0x48 (0x11 ∷ 0x11 ∷ 0x11 ∷ 0x1f ∷ 0x11 ∷ 0x11 ∷ 0x11 ∷ [])
    ∷ glyph 0x49 (0xe ∷ 0x4 ∷ 0x4 ∷ 0x4 ∷ 0x4 ∷ 0x4 ∷ 0xe ∷ [])
    ∷ glyph 0x4a (0x1 ∷ 0x1 ∷ 0x1 ∷ 0x1 ∷ 0x11 ∷ 0x11 ∷ 0xe ∷ [])
    ∷ glyph 0x4b (0x11 ∷ 0x12 ∷ 0x14 ∷ 0x18 ∷ 0x14 ∷ 0x12 ∷ 0x11 ∷ [])
    ∷ glyph 0x4c (0x10 ∷ 0x10 ∷ 0x10 ∷ 0x10 ∷ 0x10 ∷ 0x10 ∷ 0x1f ∷ [])
    ∷ glyph 0x4d (0x11 ∷ 0x1b ∷ 0x15 ∷ 0x15 ∷ 0x11 ∷ 0x11 ∷ 0x11 ∷ [])
    ∷ glyph 0x4e (0x11 ∷ 0x19 ∷ 0x15 ∷ 0x13 ∷ 0x11 ∷ 0x11 ∷ 0x11 ∷ [])
    ∷ glyph 0x4f (0xe ∷ 0x11 ∷ 0x11 ∷ 0x11 ∷ 0x11 ∷ 0x11 ∷ 0xe ∷ [])
    ∷ glyph 0x50 (0x1e ∷ 0x11 ∷ 0x11 ∷ 0x1e ∷ 0x10 ∷ 0x10 ∷ 0x10 ∷ [])
    ∷ glyph 0x51 (0xe ∷ 0x11 ∷ 0x11 ∷ 0x11 ∷ 0x15 ∷ 0x12 ∷ 0xd ∷ [])
    ∷ glyph 0x52 (0x1e ∷ 0x11 ∷ 0x11 ∷ 0x1e ∷ 0x14 ∷ 0x12 ∷ 0x11 ∷ [])
    ∷ glyph 0x53 (0xf ∷ 0x10 ∷ 0x10 ∷ 0xe ∷ 0x1 ∷ 0x1 ∷ 0x1e ∷ [])
    ∷ glyph 0x54 (0x1f ∷ 0x4 ∷ 0x4 ∷ 0x4 ∷ 0x4 ∷ 0x4 ∷ 0x4 ∷ [])
    ∷ glyph 0x55 (0x11 ∷ 0x11 ∷ 0x11 ∷ 0x11 ∷ 0x11 ∷ 0x11 ∷ 0xe ∷ [])
    ∷ glyph 0x56 (0x11 ∷ 0x11 ∷ 0x11 ∷ 0x11 ∷ 0x11 ∷ 0xa ∷ 0x4 ∷ [])
    ∷ glyph 0x57 (0x11 ∷ 0x11 ∷ 0x11 ∷ 0x15 ∷ 0x15 ∷ 0x15 ∷ 0xa ∷ [])
    ∷ glyph 0x58 (0x11 ∷ 0x11 ∷ 0xa ∷ 0x4 ∷ 0xa ∷ 0x11 ∷ 0x11 ∷ [])
    ∷ glyph 0x59 (0x11 ∷ 0x11 ∷ 0xa ∷ 0x4 ∷ 0x4 ∷ 0x4 ∷ 0x4 ∷ [])
    ∷ glyph 0x5a (0x1f ∷ 0x1 ∷ 0x2 ∷ 0x4 ∷ 0x8 ∷ 0x10 ∷ 0x1f ∷ [])
    ∷ glyph 0x2e (0 ∷ 0 ∷ 0 ∷ 0 ∷ 0 ∷ 0xc ∷ 0xc ∷ [])
    ∷ glyph 0x2c (0 ∷ 0 ∷ 0 ∷ 0 ∷ 0xc ∷ 0x4 ∷ 0x8 ∷ [])
    ∷ glyph 0x3a (0 ∷ 0xc ∷ 0xc ∷ 0 ∷ 0xc ∷ 0xc ∷ 0 ∷ [])
    ∷ glyph 0x3b (0 ∷ 0xc ∷ 0xc ∷ 0 ∷ 0xc ∷ 0x4 ∷ 0x8 ∷ [])
    ∷ glyph 0x2d (0 ∷ 0 ∷ 0 ∷ 0x1f ∷ 0 ∷ 0 ∷ 0 ∷ [])
    ∷ glyph 0x5f (0 ∷ 0 ∷ 0 ∷ 0 ∷ 0 ∷ 0 ∷ 0x1f ∷ [])
    ∷ glyph 0x2b (0 ∷ 0x4 ∷ 0x4 ∷ 0x1f ∷ 0x4 ∷ 0x4 ∷ 0 ∷ [])
    ∷ glyph 0x3d (0 ∷ 0 ∷ 0x1f ∷ 0 ∷ 0x1f ∷ 0 ∷ 0 ∷ [])
    ∷ glyph 0x2f (0x1 ∷ 0x2 ∷ 0x2 ∷ 0x4 ∷ 0x8 ∷ 0x8 ∷ 0x10 ∷ [])
    ∷ glyph 0x5c (0x10 ∷ 0x8 ∷ 0x8 ∷ 0x4 ∷ 0x2 ∷ 0x2 ∷ 0x1 ∷ [])
    ∷ glyph 0x28 (0x2 ∷ 0x4 ∷ 0x8 ∷ 0x8 ∷ 0x8 ∷ 0x4 ∷ 0x2 ∷ [])
    ∷ glyph 0x29 (0x8 ∷ 0x4 ∷ 0x2 ∷ 0x2 ∷ 0x2 ∷ 0x4 ∷ 0x8 ∷ [])
    ∷ glyph 0x5b (0xe ∷ 0x8 ∷ 0x8 ∷ 0x8 ∷ 0x8 ∷ 0x8 ∷ 0xe ∷ [])
    ∷ glyph 0x5d (0xe ∷ 0x2 ∷ 0x2 ∷ 0x2 ∷ 0x2 ∷ 0x2 ∷ 0xe ∷ [])
    ∷ glyph 0x3c (0x2 ∷ 0x4 ∷ 0x8 ∷ 0x10 ∷ 0x8 ∷ 0x4 ∷ 0x2 ∷ [])
    ∷ glyph 0x3e (0x8 ∷ 0x4 ∷ 0x2 ∷ 0x1 ∷ 0x2 ∷ 0x4 ∷ 0x8 ∷ [])
    ∷ glyph 0x21 (0x4 ∷ 0x4 ∷ 0x4 ∷ 0x4 ∷ 0x4 ∷ 0 ∷ 0x4 ∷ [])
    ∷ glyph 0x3f (0xe ∷ 0x11 ∷ 0x1 ∷ 0x2 ∷ 0x4 ∷ 0 ∷ 0x4 ∷ [])
    ∷ glyph 0x23 (0xa ∷ 0xa ∷ 0x1f ∷ 0xa ∷ 0x1f ∷ 0xa ∷ 0xa ∷ [])
    ∷ glyph 0x2a (0 ∷ 0xa ∷ 0x4 ∷ 0x1f ∷ 0x4 ∷ 0xa ∷ 0 ∷ [])
    ∷ glyph 0x40 (0xe ∷ 0x11 ∷ 0x17 ∷ 0x15 ∷ 0x17 ∷ 0x10 ∷ 0xe ∷ [])
    ∷ glyph 0x25 (0x19 ∷ 0x19 ∷ 0x2 ∷ 0x4 ∷ 0x8 ∷ 0x13 ∷ 0x13 ∷ [])
    ∷ glyph 0x26 (0xc ∷ 0x12 ∷ 0x14 ∷ 0x8 ∷ 0x15 ∷ 0x12 ∷ 0xd ∷ [])
    ∷ glyph 0x7c (0x4 ∷ 0x4 ∷ 0x4 ∷ 0x4 ∷ 0x4 ∷ 0x4 ∷ 0x4 ∷ [])
    ∷ glyph 0x27 (0x4 ∷ 0x4 ∷ 0x8 ∷ 0 ∷ 0 ∷ 0 ∷ 0 ∷ [])
    ∷ glyph 0x22 (0xa ∷ 0xa ∷ 0x14 ∷ 0 ∷ 0 ∷ 0 ∷ 0 ∷ [])
    ∷ []

unfoldable pub find_glyph : ℕ → List Glyph → Option (List ℕ)
find_glyph c [] = none
find_glyph c (g ∷ gs) = elim (g.c == c) [ true ↦ some g.row | false ↦ find_glyph c gs ]

abbrev pub upper_case : ℕ → ℕ
upper_case c = if leb 0x61 c && leb c 0x7A then c - 0x61 + 0x41 else c

unfoldable pub font5x7_row : ℕ → ℕ → ℕ
unfolding find_glyph
font5x7_row c row =
    if leb 7 row || upper_case c == 0x20 then 0 else elim (find_glyph (upper_case c) glyphs) [
      | some rows ↦ get_or rows row 0
      | none ↦ if row == 0 || row == 6 then 0x1F else 0x11
    ]
