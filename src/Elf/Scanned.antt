-- ===== src/Elf/Scanned.antt =====
-- src/elf_loader.c: what the loop over the program headers keeps, round by round.
use Prim.Native.Nat.{bit_and}
use argusos_uefi_v.Base.{
  ℕ, zero, suc, ◌+◌, ◌*◌, ◌^◌, ◌≤◌, ◌<◌, ◌≡◌, ◌≢◌, ◌⊎◌, inl, inr, refl, sym, ap, ◌∙◌, false, true,
  List, some, length, get_or, length-set, get_or-set_self, get_or-set_ne, arith, ℕ-eq-cases,
  Bool-cases, Option-cases,
}
use argusos_uefi_v.Base.Words.{u64}
use argusos_uefi_v.Elf.{
  segment_of, program_bytes, Header, Program, Segment, Image, Scan, zero_segment, zero_scan,
  max_segments, flag_execute, read_program, rounded_size, refuses_load, add_segment, scan_program,
  scan_programs,
}
use argusos_uefi_v.Elf.Guards.{
  overlaps_prior-false, IsBytes, IsMapped, IsProgram, Passed, refuses_load-Passed,
  read_program-IsProgram,
}
use argusos_uefi_v.Elf.Sizes.{segment_pages_lem, rounded_lem, ranges_overlap-false}

abbrev pub segment_at : Image → ℕ → Segment
segment_at image i = get_or image.segments i zero_segment

-- The pages of two segments do not meet.
unfoldable pub Apart : Segment → Segment → Type 0
Apart g k =
    (g.virtual_address + g.page_count * 4096 ≤ k.virtual_address)
    ⊎ (k.virtual_address + k.page_count * 4096 ≤ g.virtual_address)

-- The entry point lies in the bytes that the file gives an executable segment.
pub record Enters (entry : ℕ) (g : Segment) : Type 0 where
  pub executable : bit_and g.flags flag_execute ≢ 0
  pub from : g.virtual_address ≤ entry
  pub before : entry < g.virtual_address + g.file_size

pub record IsLoadable (size user_min user_max : ℕ) (image : Image) : Type 0 where
  pub slots : length image.segments ≡ max_segments
  pub few : image.segment_count ≤ max_segments
  pub mapped :
      (i : ℕ) → i < image.segment_count → IsMapped size user_min user_max (segment_at image i)
  pub apart :
      (i j : ℕ) → i < j → j < image.segment_count → Apart (segment_at image j) (segment_at image i)

pub record IsScanned (size user_min user_max entry : ℕ) (s : Scan) : Type 0 where
  pub loadable : IsLoadable size user_min user_max s.image
  pub entered :
      s.entry_is_executable ≡ true
      → (i : ℕ) × (i < s.image.segment_count) × Enters entry (segment_at s.image i)

pub zero_scan-IsScanned :
    (size user_min user_max entry : ℕ) → IsScanned size user_min user_max entry zero_scan
zero_scan-IsScanned size user_min user_max entry = record {
  loadable = record {
    slots = refl;
    few = omega arith;
    mapped = λ i below. absurd (omega arith);
    apart = λ i j before below. absurd (omega arith);
  };
  entered = λ e. absurd (cc);
}

module _ (size user_min user_max entry : ℕ) (low : user_max ≤ 2 ^ 43) (s : Scan)
    (kept : IsScanned size user_min user_max entry s) where
  stack-IsScanned : IsScanned size user_min user_max entry (record s { stack_seen = true })
  stack-IsScanned = record { loadable = kept.loadable; entered = kept.entered }

  module _ (p : Program) (ok : Passed size user_min user_max s p) where
    segment_of-IsMapped : IsMapped size user_min user_max (segment_of p)
    segment_of-IsMapped =
        let below = ok.below in
        record {
          in_file = ok.in_file;
          file_fits = ok.file_fits;
          above = ok.above;
          below = below;
          some_memory = ok.some_memory;
          file_aligned = ok.file_aligned;
          aligned = ok.aligned;
          pages = segment_pages_lem p.memory_size (omega arith);
          readable = ok.readable;
          no_write_execute = ok.no_write_execute;
        }

    added_new : segment_at (add_segment entry s p).image s.image.segment_count ≡ segment_of p
    unfolding add_segment
    added_new =
        let few = kept.loadable.few in
        let room = ok.room in
        let slots = kept.loadable.slots in
        get_or-set_self s.image.segments s.image.segment_count (segment_of p) zero_segment
          (omega arith)

    added_old :
        (i : ℕ)
        → i < s.image.segment_count
        → segment_at (add_segment entry s p).image i ≡ segment_at s.image i
    unfolding add_segment
    added_old i l =
        get_or-set_ne s.image.segments s.image.segment_count i (segment_of p) zero_segment
          (omega arith)

    segment_of-Apart :
        (i : ℕ) → i < s.image.segment_count → Apart (segment_of p) (segment_at s.image i)
    unfolding Apart
    segment_of-Apart i l =
        let g = segment_at s.image i in
        let other = kept.loadable.mapped i l in
        let whole = segment_pages_lem p.memory_size (omega (arith, ok.below)) in
        let rounded = rounded_lem p.memory_size (omega (arith, ok.below)) in
        let disjoint =
          ranges_overlap-false p.virtual_address (rounded_size p.memory_size) g.virtual_address
            (u64 (g.page_count * 4096)) (omega (arith, ok.below, rounded))
            (omega (arith, other.below, other.pages))
            (overlaps_prior-false p s.image.segments s.image.segment_count 0 i ok.no_overlap
              (omega arith) (omega arith)) in
        ground (arith, disjoint, whole, rounded, other.below, other.pages)

    added-IsMapped :
        (i : ℕ)
        → i < s.image.segment_count + 1
        → IsMapped size user_min user_max (segment_at (add_segment entry s p).image i)
    added-IsMapped i l = elim (ℕ-eq-cases s.image.segment_count i) [
      | inl e ↦ rw (sym e, added_new) segment_of-IsMapped
      | inr ne ↦ rw (added_old i (omega arith)) (kept.loadable.mapped i (omega arith))
    ]

    added-Apart :
        (i j : ℕ)
        → i < j
        → j < s.image.segment_count + 1
        → Apart
            (segment_at (add_segment entry s p).image j)
            (segment_at (add_segment entry s p).image i)
    added-Apart i j before l = elim (ℕ-eq-cases s.image.segment_count j) [
      | inl e ↦ rw (added_old i (omega arith), sym e, added_new) (segment_of-Apart i (omega arith))
      | inr ne ↦
          rw (added_old i (omega arith), added_old j (omega arith))
            (kept.loadable.apart i j before (omega arith))
    ]

    added_entered :
        (add_segment entry s p).entry_is_executable ≡ true
        → (i : ℕ) × (i < s.image.segment_count + 1)
          × Enters entry (segment_at (add_segment entry s p).image i)
    unfolding add_segment
    added_entered e = elim (Bool-cases s.entry_is_executable) [
      | inl earlier ↦
          let (i, l, enters) = kept.entered earlier in (i, omega arith, rw (added_old i l) enters)
      | inr first ↦ (
        s.image.segment_count,
        omega arith,
        rw added_new (record {
          executable = ground arith;
          from = ground arith;
          before = ground (arith, ok.file_fits, ok.below);
        }),
      )
    ]

    added-IsScanned : IsScanned size user_min user_max entry (add_segment entry s p)
    unfolding add_segment
    added-IsScanned = record {
      loadable = record {
        slots =
            length-set s.image.segments s.image.segment_count (segment_of p) ∙ kept.loadable.slots;
        few = omega (arith, kept.loadable.few, ok.room);
        mapped = added-IsMapped;
        apart = added-Apart;
      };
      entered = added_entered;
    }

  scan_program_cases :
      (p : Program) (t : Scan)
      → scan_program size user_min user_max entry s p ≡ some t
      → (t ≡ record s { stack_seen = true })
        ⊎ ((refuses_load size user_min user_max s p ≡ false) × (t ≡ add_segment entry s p))
  unfolding scan_program
  scan_program_cases p t h = ground arith

  scan_program-IsScanned :
      (p : Program) (t : Scan)
      → IsProgram p
      → scan_program size user_min user_max entry s p ≡ some t
      → IsScanned size user_min user_max entry t
  scan_program-IsScanned p t w h = elim (scan_program_cases p t h) [
    | inl e ↦ rw e stack-IsScanned
    | inr (passed, e) ↦
        rw e (added-IsScanned p (refuses_load-Passed size user_min user_max s p w passed))
  ]

-- The whole loop, when every round passes.
pub scan_programs-IsScanned :
    (bytes : List ℕ) (size user_min user_max : ℕ) (h : Header)
    → IsBytes bytes
    → user_max ≤ 2 ^ 43
    → (rounds index : ℕ) (s t : Scan) → IsScanned size user_min user_max h.entry s
    → scan_programs bytes size user_min user_max h rounds index s ≡ (t, true)
    → IsScanned size user_min user_max h.entry t
unfolding scan_programs
scan_programs-IsScanned bytes size user_min user_max h b low zero index s t kept e =
    rw (sym (ap (λ r. r.0) e)) kept
scan_programs-IsScanned bytes size user_min user_max h b low (suc rounds) index s t kept e =
    let p = read_program bytes (h.program_header_offset + index * program_bytes) in
    elim (Option-cases (scan_program size user_min user_max h.entry s p)) [
      | inl stopped ↦ absurd (ground arith)
      | inr (next, went) ↦
          scan_programs-IsScanned bytes size user_min user_max h b low rounds (suc index) next t
            (scan_program-IsScanned size user_min user_max h.entry low s kept p next
              (read_program-IsProgram bytes (h.program_header_offset + index * program_bytes) b)
              went)
            (ground arith)
    ]
