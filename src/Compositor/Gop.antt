-- ===== src/Compositor/Gop.antt =====
-- src/gop.c: the frame buffer that UEFI hands over, with the calls that draw on it. The record is
-- `argus_gop_t` with the fields that these calls read.
use argusos_uefi_v.Base.{
  ℕ, ◌+◌, ◌-◌, ◌*◌, ◌≤◌, ◌<◌, ◌≡◌, Bool, true, not, ◌&&◌, ◌||◌, List, ltb, leb, ◌==◌, if◌then◌else◌,
  get_or, set, length, length-set, get_or-set_self, get_or-set_ne, arith, Bool-cases, ℕ-eq-cases,
  inl, inr,
}
use argusos_uefi_v.Raster.{fill_rows}
use argusos_uefi_v.Raster.Index.{same_row, cell-lt}

pub record Gop : Type 0 where
  pub usable : Bool
  pub width : ℕ
  pub height : ℕ
  pub pitch_pixels : ℕ
  pub fb : List ℕ

unfoldable pub gop_getpixel : Gop → ℕ → ℕ → ℕ
gop_getpixel g x y =
    if not g.usable || leb g.width x || leb g.height y
    then 0
    else get_or g.fb (y * g.pitch_pixels + x) 0

unfoldable pub gop_putpixel : Gop → ℕ → ℕ → ℕ → Gop
gop_putpixel g x y packed =
    if not g.usable || leb g.width x || leb g.height y
    then g
    else record g { fb = set g.fb (y * g.pitch_pixels + x) packed }

unfoldable pub gop_fill : Gop → ℕ → Gop
gop_fill g packed =
    if not g.usable
    then g
    else record g { fb = fill_rows g.pitch_pixels 0 g.width packed g.height 0 g.fb }

unfoldable pub gop_fill_rect : Gop → ℕ → ℕ → ℕ → ℕ → ℕ → Gop
gop_fill_rect g x y w h packed =
    if not g.usable || leb g.width x || leb g.height y
    then g
    else (let w' = if ltb (g.width - x) w then g.width - x else w in
        let h' = if ltb (g.height - y) h then g.height - y else h in
        record g { fb = fill_rows g.pitch_pixels x w' packed h' y g.fb })

-- What `gop_init` checks of the mode that it takes.
pub record IsGop (g : Gop) : Type 0 where
  pub ready : g.usable ≡ true
  pub pitch : g.width ≤ g.pitch_pixels
  pub storage : g.height * g.pitch_pixels ≤ length g.fb

pub putpixel-IsGop : (g : Gop) (x y packed : ℕ) → IsGop g → IsGop (gop_putpixel g x y packed)
unfolding gop_putpixel
putpixel-IsGop g x y packed ok =
    elim (Bool-cases (not g.usable || leb g.width x || leb g.height y)) [
      | inl refused ↦ rw refused ok
      | inr put ↦ rw put (record {
        ready = ok.ready;
        pitch = ok.pitch;
        storage = omega (arith, ok.storage, length-set g.fb (y * g.pitch_pixels + x) packed);
      })
    ]

-- A pixel that is put is there, and the others stay.
pub getpixel-putpixel :
    (g : Gop) (x y packed px py : ℕ)
    → IsGop g
    → px < g.width
    → py < g.height
    → gop_getpixel (gop_putpixel g x y packed) px py
      ≡ (if px == x && py == y then packed else gop_getpixel g px py)
unfolding gop_putpixel gop_getpixel
getpixel-putpixel g x y packed px py ok hx hy =
    elim (Bool-cases (leb g.width x || leb g.height y)) [
      | inl outside ↦ ground (arith, ok.ready)
      | inr on_screen ↦
          let room : y * g.pitch_pixels + x + 1 ≤ length g.fb =
            cell-lt g.pitch_pixels g.height x 1 y (length g.fb) (ground (arith, ok.pitch))
              (ground arith) ok.storage in
          let apart =
            same_row g.pitch_pixels x 1 y px py (omega (arith, ok.pitch))
              (ground (arith, ok.pitch)) in
          elim (ℕ-eq-cases py y) [
            | inl e ↦ elim (ℕ-eq-cases px x) [
              | inl e' ↦
                  rw (e, e')
                    (ground (
                      arith,
                      ok.ready,
                      get_or-set_self g.fb (y * g.pitch_pixels + x) packed 0 (omega arith),
                    ))
              | inr other ↦ rw e (
                  ground (
                    arith,
                    ok.ready,
                    get_or-set_ne g.fb (y * g.pitch_pixels + x) (y * g.pitch_pixels + px) packed 0
                        (omega arith),
                  ))
            ]
            | inr other ↦ ground (
              arith,
              ok.ready,
              get_or-set_ne g.fb (y * g.pitch_pixels + x) (py * g.pitch_pixels + px) packed 0
                  (λ same. other (apart (omega arith) (omega arith))),
            )
          ]
    ]
