-- ===== src/FileCopy/Uring/Cells.antt =====
-- The blocks of 04_async_io/io-uring-cp.c that are being copied, and what is copied already.
use networking_howto.Prelude.{
  ℕ, ◌+◌, ◌%◌, ◌≤◌, ◌<◌, ◌≡◌, ◌≢◌, ◌⊎◌, none, some, arith, refl, sym, ap, ◌∙◌, subst,
}
use networking_howto.Fileshare.Posix.{Posix, Fd}
use networking_howto.FileCopy.Uring.{
  Ring, queue_size, BlockStage, block_idle, block_in_read, block_in_write, BlockStatus,
}
use networking_howto.FileCopy.Uring.Laws.{reading, writing, ReadsInto, WritesAt, Steady, RingLaws}

-- A cell of the queue, with the offset and the size of its block. `filled` is a block that was read
-- and whose write is not prepared yet.
pub data Cell : Type 0 where
  idle : Cell
  in_read : (offset size : ℕ) → Cell
  filled : (offset size : ℕ) → Cell
  in_write : (offset size : ℕ) → Cell

abbrev pub cell_at : BlockStage → (offset size : ℕ) → Cell
cell_at block_idle offset size = idle
cell_at block_in_read offset size = in_read offset size
cell_at block_in_write offset size = in_write offset size

abbrev pub cell_of : BlockStatus → Cell
cell_of b = cell_at b.stage b.offset b.size

-- The byte `i` lies in the block of the cell.
abbrev pub Covers : Cell → (i : ℕ) → Type 0
Covers idle i = ⊥
Covers (in_read o z) i = (o ≤ i) × (i < o + 4096)
Covers (filled o z) i = (o ≤ i) × (i < o + 4096)
Covers (in_write o z) i = (o ≤ i) × (i < o + 4096)

-- A block of the file below `off`: a whole one, or what is left at the end.
abbrev pub Block : (src_size off o z : ℕ) → Type 0
Block src_size off o z =
    (o % 4096 ≡ 0)
    × (0 < z)
    × (z ≤ 4096)
    × (o + z ≤ off)
    × (off ≤ src_size)
    × ((z ≡ 4096) ⊎ (o + z ≡ src_size))

-- The offset of a cell that is not idle is not `o`.
abbrev pub NotAt : (o : ℕ) → Cell → Type 0
NotAt o idle = Unit
NotAt o (in_read o' z) = o' ≢ o
NotAt o (filled o' z) = o' ≢ o
NotAt o (in_write o' z) = o' ≢ o

abbrev pub Differ : Cell → Cell → Type 0
Differ idle d = Unit
Differ (in_read o z) d = NotAt o d
Differ (filled o z) d = NotAt o d
Differ (in_write o z) d = NotAt o d

module _ (os : Posix) (ring : Ring os) (src dst : Fd) (source : ℕ → ℕ)
    (laws : RingLaws os ring src dst source) (src_size : ℕ) where
  open laws use {in_flight, content, buffer}

  -- What is known of cell `c`: its request, and what its buffer holds.
  abbrev pub Knows : (off : ℕ) → os.World → (c : ℕ) → Cell → Type 0
  Knows off w c idle = in_flight w c ≡ none
  Knows off w c (in_read o z) =
      (in_flight w c ≡ some (reading src 4096 o c)) × Block src_size off o z
  Knows off w c (filled o z) =
      (in_flight w c ≡ none)
      × Block src_size off o z
      × ((j : ℕ) → j < z → buffer w c j ≡ source (o + j))
  Knows off w c (in_write o z) =
      (in_flight w c ≡ some (writing dst 4096 o c))
      × Block src_size off o z
      × ((j : ℕ) → j < z → buffer w c j ≡ source (o + j))

  pub record Cells (off : ℕ) (g : ℕ → Cell) (w : os.World) : Type 0 where
    pub knows : (c : ℕ) → Knows off w c (g c)
    pub differ : (c d : ℕ) → c ≢ d → Differ (g c) (g d)
    pub beyond : (c : ℕ) → queue_size ≤ c → g c ≡ idle
    pub copied : (i : ℕ) → i < off → ((c : ℕ) → ¬ Covers (g c) i) → content w i ≡ source i

  module _ {off : ℕ} {g : ℕ → Cell} {w : os.World} (good : Cells off g w) where
    -- Only the request of a cell that is being read uses its buffer.
    pub no_reader :
        (c : ℕ) → ((o z : ℕ) → g c ≢ in_read o z) → (t : ℕ) → ¬ ReadsInto c (in_flight w t)
    no_reader c ne t = go (g t) refl (good.knows t)
      where
        go : (p : Cell) → g t ≡ p → Knows off w t p → ¬ ReadsInto c (in_flight w t)
        go idle e k r = subst (ReadsInto c) k r
        go (in_read o z) e k r =
            let same : t ≡ c = subst (ReadsInto c) k.0 r in ne o z (ap g (sym same) ∙ e)
        go (filled o z) e k r = subst (ReadsInto c) k.0 r
        go (in_write o z) e k r = subst (ReadsInto c) k.0 r

    -- Only the blocks that are copied at the moment are written.
    pub no_writer : (i : ℕ) → ((c : ℕ) → ¬ Covers (g c) i) → (t : ℕ) → ¬ WritesAt i (in_flight w t)
    no_writer i clear t = go (g t) (clear t) (good.knows t)
      where
        go : (p : Cell) → ¬ Covers p i → Knows off w t p → ¬ WritesAt i (in_flight w t)
        go idle not_in k r = subst (WritesAt i) k r
        go (in_read o z) not_in k r = subst (WritesAt i) k.0 r
        go (filled o z) not_in k r = subst (WritesAt i) k.0 r
        go (in_write o z) not_in k r = not_in (subst (WritesAt i) k.0 r)

    -- What is known of a cell stays so, while its request is the same.
    pub Knows-later :
        (off' : ℕ) (v : os.World) (c : ℕ)
        → off ≤ off'
        → off' ≤ src_size
        → Steady in_flight content buffer w v
        → in_flight v c ≡ in_flight w c
        → Knows off' v c (g c)
    Knows-later off' v c le fits steady same = go (g c) refl (good.knows c)
      where
        go : (p : Cell) → g c ≡ p → Knows off w c p → Knows off' v c p
        go idle e k = same ∙ k
        go (in_read o z) e k = (same ∙ k.0, omega arith)
        go (filled o z) e k =
            (same ∙ k.0, omega arith, λ j l. steady.0 c j (no_reader c (λ o' z' e'. cc)) ∙ k.2 j l)
        go (in_write o z) e k =
            (same ∙ k.0, omega arith, λ j l. steady.0 c j (no_reader c (λ o' z' e'. cc)) ∙ k.2 j l)
