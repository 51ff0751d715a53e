-- ===== src/Heap/Cut.antt =====
-- src/heap.c `kmalloc`: the block that is taken, and the block that is cut off it.
use argusos_uefi_v.Base.{
  ℕ, ◌+◌, ◌-◌, ◌^◌, ◌<◌, ◌≤◌, ◌≡◌, ◌≢◌, ◌∙◌, refl, ap, true, false, List, ◌∷◌, leb, arith, inl, inr,
  Bool-cases,
}
use argusos_uefi_v.Base.Words.{u64}
use argusos_uefi_v.Heap.{HeapBlock, put, set_previous, split_block, take_block}
use argusos_uefi_v.Heap.Tiles.{Tile, extent, carve}
use argusos_uefi_v.Heap.Chain.{
  pointer, header, Chain, linked, put_self, put_ne, Chain-agree, Chain-at, Chain-set_previous,
  set_previous_below,
}

abbrev taken : ℕ → Tile
taken size = record { size = size; free = false }

abbrev left_over : Tile → ℕ → Tile
left_over t size = record { size = t.size - size - 32; free = true }

-- A tile is cut in two.
module _ (memory : ℕ → HeapBlock) (previous start size : ℕ) (t : Tile) (ts : List Tile)
    (low : 64 ≤ start) (room : start + extent (t ∷ ts) < 2 ^ 64) (large : size + 48 ≤ t.size)
    (h : memory start ≡ header previous start t ts)
    (others : Chain memory start (start + 32 + t.size) ts) where
  abbrev split : ℕ
  split = start + 32 + size

  abbrev new_header : HeapBlock
  new_header = header start split (left_over t size) ts

  abbrev relinked : ℕ → HeapBlock
  relinked = set_previous (put memory split new_header) (pointer (start + 32 + t.size) ts) split

  split_address : u64 (start + 32 + size) ≡ split
  split_address = ground arith

  end_address : split + 32 + (t.size - size - 32) ≡ start + 32 + t.size
  end_address = ground arith

  relinked_others : Chain relinked split (start + 32 + t.size) ts
  relinked_others =
      Chain-set_previous (put memory split new_header) start split (start + 32 + t.size) ts
        (omega arith)
        (Chain-agree memory (put memory split new_header) start (start + 32 + t.size) ts
          (λ x above. put_ne memory split new_header x (ground arith)) others)

  relinked_split : relinked split ≡ new_header
  relinked_split =
      set_previous_below (put memory split new_header) split (start + 32 + t.size) split ts
        (omega arith) (omega arith)
      ∙ put_self memory split new_header

  relinked_below : (x : ℕ) → x < split → relinked x ≡ memory x
  relinked_below x below =
      set_previous_below (put memory split new_header) split (start + 32 + t.size) x ts
        (omega arith) (omega arith)
      ∙ put_ne memory split new_header x (ground arith)

  split-relinked :
      split_block memory start size
      ≡ put relinked start (record (relinked start) { next = split; size = size })
  unfolding split_block
  split-relinked =
      let hs : (memory start).size ≡ t.size = ap (λ (b : HeapBlock). b.size) h in
      let hn : (memory start).next ≡ pointer (start + 32 + t.size) ts =
        ap (λ (b : HeapBlock). b.next) h in
      rw (split_address, hs, hn, end_address) refl

  -- The first of the two blocks, once it is taken.
  abbrev first_header : HeapBlock
  first_header = header previous start (taken size) (left_over t size ∷ ts)

  abbrev cut_memory : ℕ → HeapBlock
  cut_memory = put relinked start (record (relinked start) { next = split; size = size })

  abbrev taken_memory : ℕ → HeapBlock
  taken_memory = put cut_memory start (record (cut_memory start) { free = false })

  taken_first : taken_memory start ≡ first_header
  taken_first =
      put_self cut_memory start (record (cut_memory start) { free = false })
      ∙ ap (λ (b : HeapBlock). record b { free = false })
          (put_self relinked start (record (relinked start) { next = split; size = size }))
      ∙ ap (λ (b : HeapBlock). record b { next = split; size = size; free = false })
          (relinked_below start (omega arith) ∙ h)

  taken_other : (x : ℕ) → x ≢ start → taken_memory x ≡ relinked x
  taken_other x apart =
      put_ne cut_memory start (record (cut_memory start) { free = false }) x apart
      ∙ put_ne relinked start (record (relinked start) { next = split; size = size }) x apart

  taken-Chain : Chain taken_memory previous start (taken size ∷ left_over t size ∷ ts)
  taken-Chain = linked taken_first (
      linked (taken_other split (ground arith) ∙ relinked_split) (
        Chain-agree relinked taken_memory split (split + 32 + (t.size - size - 32)) ts
          (λ x above. taken_other x (ground arith))
          (Chain-at relinked split (split + 32 + (t.size - size - 32)) (start + 32 + t.size) ts
            end_address relinked_others)))

  taken_below : (x : ℕ) → x < start → taken_memory x ≡ memory x
  taken_below x below = taken_other x (ground arith) ∙ relinked_below x (omega arith)

pub take_block-carve :
    (memory : ℕ → HeapBlock) (previous start size : ℕ) (t : Tile) (ts : List Tile)
    → 64 ≤ start
    → start + extent (t ∷ ts) < 2 ^ 64
    → size ≤ t.size
    → memory start ≡ header previous start t ts
    → Chain memory start (start + 32 + t.size) ts
    → Chain (take_block memory start size) previous start (carve size t ts)
      × ((x : ℕ) → x < start → take_block memory start size x ≡ memory x)
unfolding take_block
take_block-carve memory previous start size t ts low room enough h others =
    let hs : (memory start).size ≡ t.size = ap (λ (b : HeapBlock). b.size) h in
    let sum : u64 (size + 32 + 16) ≡ size + 48 = ground arith in
    rw (hs, sum)
      (elim (Bool-cases (leb (size + 48) t.size)) [
        | inl e ↦
            let large : size + 48 ≤ t.size = ground arith in
            rw (e, split-relinked memory previous start size t ts low room large h others)
              (
                taken-Chain memory previous start size t ts low room large h others,
                taken_below memory previous start size t ts low room large h others,
              )
        | inr e ↦
            let b : HeapBlock = record (memory start) { free = false } in
            rw e (
              linked (put_self memory start b ∙ ap (λ (c : HeapBlock). record c { free = false }) h)
                  (Chain-agree memory (put memory start b) start (start + 32 + t.size) ts
                    (λ x above. put_ne memory start b x (ground arith)) others),
              λ x below. put_ne memory start b x (ground arith),
            )
      ])
