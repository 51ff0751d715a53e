-- ===== src/Elf/Accept.antt =====
-- src/elf_loader.c: what an image has that `elf_validate_user_image` accepts, and which
-- segments its page limit lets pass.
use argusos_uefi_v.Base.{
  ℕ, ◌+◌, ◌≤◌, ◌<◌, ◌≡◌, inl, inr, refl, Bool, false, true, List, ltb, leb, ◌&&◌, arith, Bool-cases,
  ◌^◌,
}
use argusos_uefi_v.Elf.{
  Image, Scan, read_header, refuses_image, zero_scan, scan_programs, finish,
  elf_validate_user_image, exceeds_page_limit,
}
use argusos_uefi_v.Elf.Guards.{IsBytes}
use argusos_uefi_v.Elf.Scanned.{
  Enters, IsLoadable, segment_at, zero_scan-IsScanned, scan_programs-IsScanned,
}

-- The end of an accepting run: every round passed, and the entry point was met.
record Finished (entry : ℕ) (r : Scan × Bool) (image : Image) : Type 0 where
  passed : r.1 ≡ true
  entered : r.0.entry_is_executable ≡ true
  result : image ≡ record r.0.image { entry = entry }

finish-Finished :
    (entry : ℕ) (r : Scan × Bool) (image : Image)
    → finish entry r ≡ (image, true)
    → Finished entry r image
unfolding finish
finish-Finished entry (s, false) image h = absurd (ground arith)
finish-Finished entry (s, true) image h = record {
  passed = refl;
  entered = ground arith;
  result = ground arith;
}

-- What the caller relies on in an image that was accepted.
pub record IsUserImage (size user_min user_max : ℕ) (image : Image) : Type 0 where
  pub loadable : IsLoadable size user_min user_max image
  pub entered : (i : ℕ) × (i < image.segment_count) × Enters image.entry (segment_at image i)

module _ (bytes : List ℕ) (size user_min user_max : ℕ) (before image : Image) where
  abbrev scanned : Scan × Bool
  scanned =
      let h = read_header bytes in
      scan_programs bytes size user_min user_max h h.program_header_count 0 zero_scan

  accepted-Finished :
      elf_validate_user_image bytes size user_min user_max before ≡ (image, true)
      → Finished (read_header bytes).entry scanned image
  unfolding elf_validate_user_image
  accepted-Finished h = elim (Bool-cases (refuses_image bytes size user_min user_max)) [
    | inl refused ↦ absurd (ground arith)
    | inr passed ↦ finish-Finished (read_header bytes).entry scanned image (ground arith)
  ]

-- An accepted image has at most eight segments, each within the file and the user window, aligned
-- to pages and not both writable and executable; their pages do not meet, and the entry point is
-- in the file bytes of an executable one. The bytes are bytes, and the user window ends below
-- 2 ^ 43.
pub validate_accepts :
    (bytes : List ℕ) (size user_min user_max : ℕ) (before image : Image)
    → IsBytes bytes
    → user_max ≤ 2 ^ 43
    → elf_validate_user_image bytes size user_min user_max before ≡ (image, true)
    → IsUserImage size user_min user_max image
validate_accepts bytes size user_min user_max before image b low h =
    let h0 = read_header bytes in
    let end = accepted-Finished bytes size user_min user_max before image h in
    let r = scanned bytes size user_min user_max before image in
    let kept =
      scan_programs-IsScanned bytes size user_min user_max h0 b low h0.program_header_count 0
        zero_scan r.0 (zero_scan-IsScanned size user_min user_max h0.entry)
        (ground (arith, end.passed)) in
    rw end.result (record {
      loadable = record {
        slots = kept.loadable.slots;
        few = kept.loadable.few;
        mapped = kept.loadable.mapped;
        apart = kept.loadable.apart;
      };
      entered = kept.entered end.entered;
    })

-- Where the total so far keeps the limit of sixteen pages, the test refuses a segment exactly
-- if it has at most sixteen pages and takes the total past sixteen: a segment of more than
-- sixteen pages passes, since the difference wraps.
pub page_limit :
    (total pages : ℕ)
    → total ≤ 16
    → pages < 2 ^ 32
    → exceeds_page_limit total pages ≡ (leb pages 16 && ltb 16 (total + pages))
unfolding exceeds_page_limit
page_limit total pages kept fits = ground arith
