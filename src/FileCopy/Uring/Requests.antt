-- ===== src/FileCopy/Uring/Requests.antt =====
-- The requests that 04_async_io/io-uring-cp.c prepares.
use networking_howto.Prelude.{
  update, update_self, ℕ, ◌+◌, ◌%◌, ◌≤◌, ◌<◌, ◌≡◌, ◌≢◌, ◌⊎◌, inl, inr, some, arith, sym, ap, ◌∙◌,
  subst, dec_lt,
}
use networking_howto.Fileshare.Posix.{Posix, Fd}
use networking_howto.FileCopy.Uring.{Ring, queue_size}
use networking_howto.FileCopy.Uring.Laws.{reading, writing, Apart, RingLaws}
use networking_howto.FileCopy.Uring.Cells.{
  Cell, idle, in_read, filled, in_write, Covers, Block, NotAt, Differ, no_reader,
}
use networking_howto.FileCopy.Uring.Steps.{
  NotAt-sym, Now, Knew, change-Cells, below_queue, clear_before, still_copied,
}

module _ (os : Posix) (ring : Ring os) (src dst : Fd) (source : ℕ → ℕ)
    (laws : RingLaws os ring src dst source) (src_size : ℕ) where
  open laws use {in_flight, content, buffer}

  abbrev At : (off : ℕ) → (ℕ → Cell) → os.World → Type 0
  At off g w = Now os ring src dst source laws src_size off g w

  module _ {off : ℕ} {g : ℕ → Cell} {w : os.World} (good : At off g w) (fits : off ≤ src_size) where
    Apart-read :
        (o c u : ℕ) (p : Cell)
        → u ≢ c
        → Knew os ring src dst source laws src_size off w u p
        → Apart (in_flight w u) (reading src 4096 o c)
    Apart-read o c u idle ne k = subst (λ r. Apart r (reading src 4096 o c)) (sym k) tt
    Apart-read o c u (in_read o' z) ne k = subst (λ r. Apart r (reading src 4096 o c)) (sym k.0) ne
    Apart-read o c u (filled o' z) ne k = subst (λ r. Apart r (reading src 4096 o c)) (sym k.0) tt
    Apart-read o c u (in_write o' z) ne k = subst (λ r. Apart r (reading src 4096 o c)) (sym k.0) ne

    Apart-write :
        (o z c u : ℕ) (p : Cell)
        → u ≢ c
        → Differ p (filled o z)
        → o % 4096 ≡ 0
        → Knew os ring src dst source laws src_size off w u p
        → Apart (in_flight w u) (writing dst 4096 o c)
    Apart-write o z c u idle ne d m k = subst (λ r. Apart r (writing dst 4096 o c)) (sym k) tt
    Apart-write o z c u (in_read o' z') ne d m k =
        subst (λ r. Apart r (writing dst 4096 o c)) (sym k.0) ne
    Apart-write o z c u (filled o' z') ne d m k =
        subst (λ r. Apart r (writing dst 4096 o c)) (sym k.0) tt
    Apart-write o z c u (in_write o' z') ne d m k =
        subst (λ r. Apart r (writing dst 4096 o c)) (sym k.0) (ne, blocks k.1.0)
      where
        blocks : o' % 4096 ≡ 0 → (o' + 4096 ≤ o) ⊎ (o + 4096 ≤ o')
        blocks m' = elim (dec_lt o o') [
          | yes l ↦ inr (omega (arith, l, m, m'))
          | no nl ↦ inl (omega (arith, nl, m, m', λ (e : o ≡ o'). d e))
        ]

    -- The block of a cell is to be written.
    pub prepared_write-Cells :
        (c o z : ℕ)
        → g c ≡ filled o z
        → At off (update g c (in_write o z)) (ring.prep_write_fixed dst 4096 o c c w)
    prepared_write-Cells c o z at =
        let small = below_queue os ring src dst source laws src_size good fits c (λ e. cc) in
        let (free, block, holds) =
          subst (Knew os ring src dst source laws src_size off w c) at (good.knows c) in
        let (same, steady) = laws.prep_write dst 4096 o c c w small free (λ u ne.
          Apart-write o z c u (g u) ne (subst (Differ (g u)) at (good.differ u c ne)) block.0
            (good.knows u)) in
        let v : os.World = ring.prep_write_fixed dst 4096 o c c w in
        change-Cells os ring src dst source laws src_size v off c (in_write o z)
          (some (writing dst 4096 o c)) small (omega arith) fits (same, steady)
          (
            ap (λ f. f c) same ∙ update_self (in_flight w) c (some (writing dst 4096 o c)),
            block,
            λ j l.
                steady.0 c j (no_reader os ring src dst source laws src_size good c (λ o' z' e. cc))
                ∙ holds j l,
          )
          (λ d ne. (
            subst (λ p. Differ p (g d)) at (good.differ c d ne),
            same_offset (g d) (subst (Differ (g d)) at (good.differ d c (λ e. ne (sym e)))),
          ))
          (λ i l clear. still_copied os ring src dst source laws src_size good fits v steady i l (
            clear_before os ring src dst source laws src_size good fits c (in_write o z) i
              (subst (λ p. ¬ Covers p i) (sym at)
                (subst (λ p. ¬ Covers p i) (update_self g c (in_write o z)) (clear c)))
              clear))
          good
      where
        same_offset : (p : Cell) → Differ p (filled o z) → Differ p (in_write o z)
        same_offset idle h = tt
        same_offset (in_read o' z') h = h
        same_offset (filled o' z') h = h
        same_offset (in_write o' z') h = h

    -- The next block is to be read by a cell that is idle.
    pub prepared_read-Cells :
        (c z : ℕ)
        → c < queue_size
        → g c ≡ idle
        → Block src_size (off + z) off z
        → At (off + z) (update g c (in_read off z)) (ring.prep_read_fixed src 4096 off c c w)
    prepared_read-Cells c z small at block =
        let free = subst (Knew os ring src dst source laws src_size off w c) at (good.knows c) in
        let (same, steady) =
          laws.prep_read src 4096 off c c w small free
            (λ u ne. Apart-read off c u (g u) ne (good.knows u)) in
        let v : os.World = ring.prep_read_fixed src 4096 off c c w in
        change-Cells os ring src dst source laws src_size v (off + z) c (in_read off z)
          (some (reading src 4096 off c)) small (omega arith) (omega (arith, block)) (same, steady)
          (ap (λ f. f c) same ∙ update_self (in_flight w) c (some (reading src 4096 off c)), block)
          (λ d ne. let other = older d (g d) (good.knows d) in (other, NotAt-sym off z (g d) other))
          (λ i l clear. elim (dec_lt i off) [
            | yes before ↦
                still_copied os ring src dst source laws src_size good fits v steady i before (
                  clear_before os ring src dst source laws src_size good fits c (in_read off z) i
                    (subst (λ p. ¬ Covers p i) (sym at) (λ h. h)) clear)
            | no from ↦ absurd (
                subst (λ p. ¬ Covers p i) (update_self g c (in_read off z)) (clear c)
                  (omega (arith, from), omega (arith, l, block)))
          ])
          good
      where
        older :
            (d : ℕ) (p : Cell) → Knew os ring src dst source laws src_size off w d p → NotAt off p
        older d idle k = tt
        older d (in_read o z') k = λ e. omega (arith, k.1, e)
        older d (filled o z') k = λ e. omega (arith, k.1, e)
        older d (in_write o z') k = λ e. omega (arith, k.1, e)
