-- ===== src/Heap/Merge.antt =====
-- src/heap.c `merge_with_next` on a block and the one after it.
use argusos_uefi_v.Base.{
  ℕ, ◌+◌, ◌^◌, ◌<◌, ◌≤◌, ◌≡◌, ◌∙◌, refl, ap, false, List, [], ◌∷◌, ◌==◌, arith, inl, inr,
  Bool-cases,
}
use argusos_uefi_v.Base.Words.{u64}
use argusos_uefi_v.Heap.{HeapBlock, block_magic, put, set_previous, absorb, merge_with_next}
use argusos_uefi_v.Heap.Tiles.{Tile, extent, merge_first}
use argusos_uefi_v.Heap.Chain.{
  pointer, header, Chain, linked, ended, put_self, put_ne, Chain-agree, Chain-at,
  Chain-set_previous, set_previous_below,
}

module _ (memory : ℕ → HeapBlock) (previous start : ℕ) (t u : Tile) (us : List Tile)
    (low : 64 ≤ start) (room : start + extent (t ∷ u ∷ us) < 2 ^ 64)
    (ht : memory start ≡ header previous start t (u ∷ us))
    (hu : memory (start + 32 + t.size) ≡ header start (start + 32 + t.size) u us)
    (others : Chain memory (start + 32 + t.size) (start + 32 + t.size + 32 + u.size) us) where
  abbrev next : ℕ
  next = start + 32 + t.size

  abbrev end : ℕ
  end = next + 32 + u.size

  abbrev both : Tile
  both = record { size = t.size + 32 + u.size; free = t.free }

  abbrev grown : ℕ → HeapBlock
  grown =
      put memory start
        (record (memory start) { size = t.size + 32 + u.size; next = pointer end us })

  abbrev relinked : ℕ → HeapBlock
  relinked = set_previous grown (pointer end us) start

  abbrev absorbed : ℕ → HeapBlock
  absorbed = put relinked next (record (relinked next) { magic = 0 })

  absorb-absorbed : absorb memory start next ≡ absorbed
  unfolding absorb
  absorb-absorbed =
      let ts : (memory start).size ≡ t.size = ap (λ (b : HeapBlock). b.size) ht in
      let un : (memory next).next ≡ pointer end us = ap (λ (b : HeapBlock). b.next) hu in
      let size : (memory next).size ≡ u.size = ap (λ (b : HeapBlock). b.size) hu in
      let sum : u64 (t.size + 32 + u.size) ≡ t.size + 32 + u.size = ground arith in
      rw (ts, un, size, sum) refl

  both_end : start + 32 + (t.size + 32 + u.size) ≡ end
  both_end = omega arith

  absorbed_below : (x : ℕ) → x < start → absorbed x ≡ memory x
  absorbed_below x below =
      put_ne relinked next (record (relinked next) { magic = 0 }) x (ground arith)
      ∙ set_previous_below grown start end x us (omega arith) (omega arith)
      ∙ put_ne memory start
          (record (memory start) { size = t.size + 32 + u.size; next = pointer end us }) x
          (ground arith)

  absorbed_first : absorbed start ≡ header previous start both us
  absorbed_first =
      put_ne relinked next (record (relinked next) { magic = 0 }) start (ground arith)
      ∙ set_previous_below grown start end start us (omega arith) (omega arith)
      ∙ put_self memory start
          (record (memory start) { size = t.size + 32 + u.size; next = pointer end us })
      ∙ ap (λ (b : HeapBlock). record b { size = t.size + 32 + u.size; next = pointer end us }) ht
      ∙ rw both_end refl

  absorbed-Chain : Chain absorbed previous start (both ∷ us)
  absorbed-Chain = linked absorbed_first (
      Chain-at absorbed start (start + 32 + (t.size + 32 + u.size)) end us both_end (
        Chain-agree relinked absorbed start end us
          (λ x above. put_ne relinked next (record (relinked next) { magic = 0 }) x (ground arith))
          (Chain-set_previous grown next start end us (omega arith) (
            Chain-agree memory grown next end us
              (λ x above.
                put_ne memory start
                  (record (memory start) { size = t.size + 32 + u.size; next = pointer end us }) x
                  (ground arith))
              others))))

merge-none :
    (memory : ℕ → HeapBlock) (block : ℕ)
    → (memory block).next ≡ 0
    → merge_with_next memory block ≡ memory
unfolding merge_with_next
merge-none memory block e = rw e refl

-- The block at `start` and a free one after it become one; below `start` nothing changes.
pub merge-Chain :
    (memory : ℕ → HeapBlock) (previous start : ℕ) (t : Tile) (ts : List Tile)
    → 64 ≤ start
    → start + extent (t ∷ ts) < 2 ^ 64
    → Chain memory previous start (t ∷ ts)
    → Chain (merge_with_next memory start) previous start (merge_first (t ∷ ts))
      × ((x : ℕ) → x < start → merge_with_next memory start x ≡ memory x)
unfolding merge_with_next
merge-Chain memory previous start t [] low room (linked h ended) =
    rw (merge-none memory start (ap (λ (b : HeapBlock). b.next) h))
      (linked h ended, λ x below. refl)
merge-Chain memory previous start t (u ∷ us) low room (linked ht (linked hu others)) =
    let next = start + 32 + t.size in
    let real : (next == 0) ≡ false = ground arith in
    let tn : (memory start).next ≡ next = ap (λ (b : HeapBlock). b.next) ht in
    let free : (memory next).free ≡ u.free = ap (λ (b : HeapBlock). b.free) hu in
    let magic : (memory next).magic ≡ block_magic = ap (λ (b : HeapBlock). b.magic) hu in
    elim (Bool-cases u.free) [
      | inl e ↦
          rw
            (
              tn,
              free,
              magic,
              e,
              real,
              absorb-absorbed memory previous start t u us low room ht hu others,
            )
            (
              absorbed-Chain memory previous start t u us low room ht hu others,
              absorbed_below memory previous start t u us low room ht hu others,
            )
      | inr e ↦ simp (tn, free, magic, e, real) (linked ht (linked hu others), λ x below. refl)
    ]
