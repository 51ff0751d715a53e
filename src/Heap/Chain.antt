-- ===== src/Heap/Chain.antt =====
-- The blocks of src/heap.c in memory: a doubly linked list whose headers stand where the tiles
-- before them end.
use argusos_uefi_v.Base.{
  ℕ, ◌+◌, ◌<◌, ◌≤◌, ◌≡◌, ◌≢◌, ◌∙◌, refl, ap, true, false, List, [], ◌∷◌, ◌==◌, arith,
}
use argusos_uefi_v.Heap.{HeapBlock, block_magic, put, set_previous}
use argusos_uefi_v.Heap.Tiles.{Tile}

-- The pointer to a row of tiles: 0 to none.
abbrev pub pointer : ℕ → List Tile → ℕ
pointer start [] = 0
pointer start (t ∷ ts) = start

abbrev pub header : ℕ → ℕ → Tile → List Tile → HeapBlock
header previous start t ts = record {
  size = t.size;
  previous = previous;
  next = pointer (start + 32 + t.size) ts;
  magic = block_magic;
  free = t.free;
}

-- The headers of the tiles `ts` stand in the memory from `start` on, after the block `previous`.
pub data Chain (memory : ℕ → HeapBlock) : ℕ → ℕ → List Tile → Type 0 where
  ended : {previous start : ℕ} → Chain memory previous start []
  linked :
      {previous start : ℕ} {t : Tile} {ts : List Tile}
      → memory start ≡ header previous start t ts
      → Chain memory start (start + 32 + t.size) ts
      → Chain memory previous start (t ∷ ts)

pub put_self : (memory : ℕ → HeapBlock) (a : ℕ) (b : HeapBlock) → put memory a b a ≡ b
unfolding put
put_self memory a b = let same : (a == a) ≡ true = ground arith in rw same refl

pub put_ne :
    (memory : ℕ → HeapBlock) (a : ℕ) (b : HeapBlock) (x : ℕ) → x ≢ a → put memory a b x ≡ memory x
unfolding put
put_ne memory a b x other = let apart : (x == a) ≡ false = ground arith in rw apart refl

-- A memory that agrees from `start` on holds the same blocks there.
pub Chain-agree :
    (memory other : ℕ → HeapBlock) (previous start : ℕ) (ts : List Tile)
    → ((x : ℕ) → start ≤ x → other x ≡ memory x)
    → Chain memory previous start ts
    → Chain other previous start ts
Chain-agree memory other previous start [] same ended = ended
Chain-agree memory other previous start (t ∷ ts) same (linked h rest) =
    linked (same start (omega arith) ∙ h) (
      Chain-agree memory other start (start + 32 + t.size) ts (λ x above. same x (omega arith))
        rest)

-- A row gets another predecessor by the write to its first header.
pub Chain-set_previous :
    (memory : ℕ → HeapBlock) (previous before start : ℕ) (ts : List Tile)
    → 0 < start
    → Chain memory previous start ts
    → Chain (set_previous memory (pointer start ts) before) before start ts
unfolding set_previous
Chain-set_previous memory previous before start [] positive ended = ended
Chain-set_previous memory previous before start (t ∷ ts) positive (linked h rest) =
    let real : (start == 0) ≡ false = ground arith in
    let b : HeapBlock = record (memory start) { previous = before } in
    rw real (
      linked (put_self memory start b ∙ ap (λ (c : HeapBlock). record c { previous = before }) h) (
        Chain-agree memory (put memory start b) start (start + 32 + t.size) ts
          (λ x above. put_ne memory start b x (ground arith)) rest))

pub set_previous_below :
    (memory : ℕ → HeapBlock) (before start x : ℕ) (ts : List Tile)
    → 0 < start
    → x < start
    → set_previous memory (pointer start ts) before x ≡ memory x
unfolding set_previous
set_previous_below memory before start x [] positive below = refl
set_previous_below memory before start x (t ∷ ts) positive below =
    let real : (start == 0) ≡ false = ground arith in
    rw real (put_ne memory start (record (memory start) { previous = before }) x (ground arith))

pub Chain-at :
    (memory : ℕ → HeapBlock) (previous start place : ℕ) (ts : List Tile)
    → start ≡ place
    → Chain memory previous place ts
    → Chain memory previous start ts
Chain-at memory previous start place ts same chain = rw same chain
