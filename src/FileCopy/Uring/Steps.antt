-- ===== src/FileCopy/Uring/Steps.antt =====
-- What each call of 04_async_io/io-uring-cp.c does to the blocks that are being copied.
use networking_howto.Prelude.{
  each, update, update_self, update_ne, ℕ, ◌+◌, ◌-◌, ◌≤◌, ◌<◌, ◌≡◌, ◌≢◌, ◌⊎◌, inl, inr, Option,
  none, some, arith, sym, ap, ◌∙◌, subst, ℕ_discrete, dec_lt,
}
use networking_howto.Fileshare.Posix.{Posix, Fd}
use networking_howto.FileCopy.Uring.{Ring, Cqe, queue_size}
use networking_howto.FileCopy.Uring.Laws.{Fresh, Request, Steady, RingLaws, FullTransfers}
use networking_howto.FileCopy.Uring.Cells.{
  Cell, idle, in_read, filled, in_write, Covers, Block, NotAt, Differ, Knows, Cells, no_writer,
  Knows-later,
}

pub NotAt-sym : (o z : ℕ) (p : Cell) → NotAt o p → Differ p (in_read o z)
NotAt-sym o z idle h = tt
NotAt-sym o z (in_read o' z') h = λ e. h (sym e)
NotAt-sym o z (filled o' z') h = λ e. h (sym e)
NotAt-sym o z (in_write o' z') h = λ e. h (sym e)

module _ (os : Posix) (ring : Ring os) (src dst : Fd) (source : ℕ → ℕ)
    (laws : RingLaws os ring src dst source) (src_size : ℕ) where
  open laws use {in_flight, content, buffer}

  abbrev pub Now : (off : ℕ) → (ℕ → Cell) → os.World → Type 0
  Now off g w = Cells os ring src dst source laws src_size off g w

  abbrev pub Knew : (off : ℕ) → os.World → (c : ℕ) → Cell → Type 0
  Knew off w c p = Knows os ring src dst source laws src_size off w c p

  -- A call that neither prepares a request nor takes a completion.
  pub quiet-Cells :
      {off : ℕ} {g : ℕ → Cell} {w : os.World} (v : os.World)
      → off ≤ src_size
      → (in_flight v ≡ in_flight w) × Steady in_flight content buffer w v
      → Now off g w
      → Now off g v
  quiet-Cells {off} {g} {w} v fits (same, steady) good = record {
    knows = λ c.
        Knows-later os ring src dst source laws src_size good off v c (omega arith) fits steady
          (ap (λ f. f c) same);
    differ = good.differ;
    beyond = good.beyond;
    copied = λ i l clear.
        steady.1 i (no_writer os ring src dst source laws src_size good i clear)
        ∙ good.copied i l clear;
  }

  -- One cell changes.
  pub change-Cells :
      {off : ℕ} {g : ℕ → Cell} {w : os.World} (v : os.World) (off' c : ℕ) (p : Cell)
      (r : Option Request)
      → c < queue_size
      → off ≤ off'
      → off' ≤ src_size
      → (in_flight v ≡ update (in_flight w) c r) × Steady in_flight content buffer w v
      → Knew off' v c p
      → ((d : ℕ) → c ≢ d → Differ p (g d) × Differ (g d) p)
      → ((i : ℕ) → i < off' → ((d : ℕ) → ¬ Covers (update g c p d) i) → content v i ≡ source i)
      → Now off g w
      → Now off' (update g c p) v
  change-Cells {off} {g} {w} v off' c p r small le fits (same, steady) here apart copied good =
      record {
        knows =
            each (λ d q. Knew off' v d q) g c p here
              (λ d ne.
                Knows-later os ring src dst source laws src_size good off' v d le fits steady
                  (ap (λ f. f d) same ∙ update_ne (in_flight w) c r d ne));
        differ = λ d.
            each (λ d q. (e : ℕ) → d ≢ e → Differ q (update g c p e)) g c p
              (λ e ne. subst (Differ p) (sym (update_ne g c p e (λ h. ne (sym h)))) (apart e ne).0)
              (λ d ne e.
                each (λ e q. d ≢ e → Differ (g d) q) g c p (λ ne'. (apart d (λ h. ne (sym h))).1)
                  (λ e ne' ne''. good.differ d e ne'') e)
              d;
        beyond =
            each (λ d q. queue_size ≤ d → q ≡ idle) g c p
              (λ big. absurd (omega (arith, big, small))) (λ d ne. good.beyond d);
        copied = copied;
      }

  module _ {off : ℕ} {g : ℕ → Cell} {w : os.World} (good : Now off g w)
      (fits : off ≤ src_size) where
    pub below_queue : (c : ℕ) → g c ≢ idle → c < queue_size
    below_queue c ne = elim (dec_lt c queue_size) [
      | yes l ↦ l
      | no big ↦ absurd (ne (good.beyond c (omega (arith, big))))
    ]

    pub clear_before :
        (c : ℕ) (p : Cell) (i : ℕ)
        → ¬ Covers (g c) i
        → ((d : ℕ) → ¬ Covers (update g c p d) i)
        → (d : ℕ) → ¬ Covers (g d) i
    clear_before c p i here clear d = elim (ℕ_discrete d c) [
      | yes e ↦ subst (λ t. ¬ Covers (g t) i) (sym e) here
      | no ne ↦ subst (λ q. ¬ Covers q i) (update_ne g c p d ne) (clear d)
    ]

    -- What was copied before stays so.
    pub still_copied :
        (v : os.World)
        → Steady in_flight content buffer w v
        → (i : ℕ) → i < off
        → ((d : ℕ) → ¬ Covers (g d) i)
        → content v i ≡ source i
    still_copied v steady i l clear =
        steady.1 i (no_writer os ring src dst source laws src_size good i clear)
        ∙ good.copied i l clear

    -- The completion of a read.
    pub read-Cells :
        (full : FullTransfers os ring src dst source laws src_size)
        → (cqe : Cqe) (k o z : ℕ) → Fresh laws.unseen ring.peek_cqe w cqe
        → cqe.res ≡ some k
        → g cqe.user_data ≡ in_read o z
        → Now off (update g cqe.user_data (filled o z)) (ring.peek_cqe w).1
    read-Cells full cqe k o z found res at =
        let c : ℕ = cqe.user_data in
        let (busy, marked, same, steady) = laws.peek_some w cqe found in
        let (request, block) = subst (Knew off w c) at (good.knows c) in
        let enough = full.full_read w cqe 4096 o c k found request res in
        change-Cells (ring.peek_cqe w).1 off c (filled o z) none (below_queue c (λ e. cc))
          (omega arith) fits (same, steady)
          (
            ap (λ f. f c) same ∙ update_self (in_flight w) c none,
            block,
            λ j l. laws.read_done w cqe 4096 o c k found request res j (filled_up enough block l),
          )
          (λ d ne. (
            subst (λ p. Differ p (g d)) at (good.differ c d ne),
            let back = subst (Differ (g d)) at (good.differ d c (λ e. ne (sym e))) in
                same_offset (g d) back,
          ))
          (λ i l clear. still_copied (ring.peek_cqe w).1 steady i l (
            clear_before c (filled o z) i
              (subst (λ p. ¬ Covers p i) (sym at)
                (subst (λ p. ¬ Covers p i) (update_self g c (filled o z)) (clear c)))
              clear))
          good
      where
        filled_up :
            {j : ℕ} → (4096 ≤ k) ⊎ (src_size ≤ o + k) → Block src_size off o z → j < z → j < k
        filled_up (inl whole) block l = omega arith
        filled_up (inr end) block l = omega arith

        same_offset : (p : Cell) → Differ p (in_read o z) → Differ p (filled o z)
        same_offset idle h = tt
        same_offset (in_read o' z') h = h
        same_offset (filled o' z') h = h
        same_offset (in_write o' z') h = h

    -- The completion of a write.
    pub write-Cells :
        (full : FullTransfers os ring src dst source laws src_size)
        → (cqe : Cqe) (k o z : ℕ) → Fresh laws.unseen ring.peek_cqe w cqe
        → cqe.res ≡ some k
        → g cqe.user_data ≡ in_write o z
        → Now off (update g cqe.user_data idle) (ring.peek_cqe w).1
    write-Cells full cqe k o z found res at =
        let c : ℕ = cqe.user_data in
        let (busy, marked, same, steady) = laws.peek_some w cqe found in
        let (request, block, holds) = subst (Knew off w c) at (good.knows c) in
        let enough = full.full_write w cqe 4096 o c k found request res in
        change-Cells (ring.peek_cqe w).1 off c idle none (below_queue c (λ e. cc)) (omega arith)
          fits (same, steady) (ap (λ f. f c) same ∙ update_self (in_flight w) c none)
          (λ d ne. (tt, to_idle (g d)))
          (λ i l clear. elim (dec_lt i o) [
            | yes before ↦ still_copied (ring.peek_cqe w).1 steady i l (
                clear_before c idle i
                  (subst (λ p. ¬ Covers p i) (sym at) (λ h. omega (arith, h, before))) clear)
            | no from ↦ elim (dec_lt i (o + 4096)) [
              | yes within ↦
                  let at_i : o + (i - o) ≡ i = omega (arith, from) in
                  ap (content (ring.peek_cqe w).1) (sym at_i)
                  ∙ laws.write_done w cqe 4096 o c k found request res (i - o)
                      (omega (arith, from, within, enough))
                  ∙ holds (i - o) (in_block i from within l block)
                  ∙ ap source at_i
              | no past ↦ still_copied (ring.peek_cqe w).1 steady i l (
                  clear_before c idle i
                    (subst (λ p. ¬ Covers p i) (sym at) (λ h. omega (arith, h, past))) clear)
            ]
          ])
          good
      where
        to_idle : (p : Cell) → Differ p idle
        to_idle idle = tt
        to_idle (in_read o' z') = tt
        to_idle (filled o' z') = tt
        to_idle (in_write o' z') = tt

        in_block : (i : ℕ) → ¬ (i < o) → i < o + 4096 → i < off → Block src_size off o z → i - o < z
        in_block i from within l (_, _, _, _, below, inl whole) = omega arith
        in_block i from within l (_, _, _, _, below, inr end) = omega arith
