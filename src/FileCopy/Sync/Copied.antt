-- ===== src/FileCopy/Sync/Copied.antt =====
-- The loop of 04_async_io/sync-cp.c ends, and the file is copied.
use networking_howto.Prelude.{
  ℕ, zero, suc, ◌+◌, ◌-◌, ◌/◌, ◌^◌, ◌≤◌, ◌<◌, ◌≡◌, ◌⊎◌, inl, inr, Bool, true, false, Option, none,
  some, List, [], ◌∷◌, ◌++◌, length, ltb, ◌==◌, ==_iff, Bool-cases, arith, refl, sym, ap, ◌∙◌,
  subst, u32,
}
use mathlib.Core.List.{append-nil, append_assoc}
use networking_howto.Prelude.Program.{M, or_exit, value_or_exit}
use networking_howto.Prelude.Ends.{Ends, bind-Ends, or_exit-Ends, value_or_exit-Ends}
use networking_howto.Fileshare.Posix.{Posix, Fd}
use networking_howto.FileCopy.Sync.{sync_block_size, is_all, write_whole, copy_block, copy_loop}

-- `rest w` are the bytes of the source behind its file offset, and `copy w` those that the
-- destination has taken. A read takes the next bytes, a write that takes the whole buffer adds it.
pub record CopyLaws (os : Posix) (src dst : Fd) : Type 0 where
  pub rest : os.World → List ℕ
  pub copy : os.World → List ℕ
  pub read_some :
      (count : ℕ) (w : os.World) (got : List ℕ)
      → (os.read src count w).0 ≡ some got
      → (rest w ≡ got ++ rest (os.read src count w).1) × (copy (os.read src count w).1 ≡ copy w)
  pub write_all :
      (buf : List ℕ) (w : os.World)
      → (os.write dst buf w).0 ≡ some (length buf)
      → (copy (os.write dst buf w).1 ≡ copy w ++ buf) × (rest (os.write dst buf w).1 ≡ rest w)

-- A read of a regular file is short only at the end of the file.
abbrev pub ShortAtEnd : (os : Posix) (src dst : Fd) → CopyLaws os src dst → Type 0
ShortAtEnd os src dst laws =
    (count : ℕ) (w : os.World) (got : List ℕ)
    → (os.read src count w).0 ≡ some got
    → (length got ≡ count) ⊎ (laws.rest (os.read src count w).1 ≡ [])

-- A read has failed, or a write has not taken its whole buffer.
abbrev pub CallFailed : (os : Posix) (src dst : Fd) → Type 0
CallFailed os src dst =
    ((w : os.World) × ((os.read src sync_block_size w).0 ≡ none))
    ⊎ ((buf : List ℕ) × (w : os.World) × (is_all os buf (os.write dst buf w).0 ≡ false))

-- The loop has ended, and the whole file is in the copy.
abbrev pub WholeCopy : {W : Type 0} (copy : W → List ℕ) (file : List ℕ) → Bool → W → Type 0
WholeCopy copy file ended w = (ended ≡ true) × (copy w ≡ file)

module _ (os : Posix) (src dst : Fd) (laws : CopyLaws os src dst)
    (short : ShortAtEnd os src dst laws) (file : List ℕ) (small : length file < 2 ^ 32) where
  open laws use {rest, copy}

  length-append_lem : (xs ys : List ℕ) → length (xs ++ ys) ≡ length xs + length ys
  length-append_lem [] ys = omega arith
  length-append_lem (x ∷ xs) ys = omega (arith, length-append_lem xs ys)

  no_length : (xs : List ℕ) → length xs ≡ 0 → xs ≡ []
  no_length [] e = refl
  no_length (x ∷ xs) e = absurd (omega arith)

  -- The first `i` bytes are copied.
  record Copies (i : ℕ) (w : os.World) : Type 0 where
    so_far : file ≡ copy w ++ rest w
    count : length (copy w) ≡ i

  Copies-left : (i : ℕ) (w : os.World) → Copies i w → i + length (rest w) ≡ length file
  Copies-left i w good =
      let count = good.count in
      let sum = length-append_lem (copy w) (rest w) in
      let all = ap length good.so_far in omega (arith, count, sum, all)

  at_end : (i : ℕ) (w : os.World) → Copies i w → rest w ≡ [] → copy w ≡ file
  at_end i w good none_left =
      sym (good.so_far ∙ ap (λ r. copy w ++ r) none_left ∙ append-nil (copy w))

  all-is_all : (buf : List ℕ) (r : Option ℕ) → is_all os buf r ≡ true → r ≡ some (length buf)
  all-is_all buf none e = cc
  all-is_all buf (some n) e = ap some ((==_iff n (length buf)).0 e)

  -- After a read that has taken `buf`.
  record HasRead (i : ℕ) (buf : List ℕ) (w : os.World) : Type 0 where
    so_far : file ≡ copy w ++ (buf ++ rest w)
    count : length (copy w) ≡ i
    last : (length buf ≡ sync_block_size) ⊎ (rest w ≡ [])

  written :
      (i : ℕ) (buf : List ℕ) (w : os.World)
      → HasRead i buf w
      → (os.write dst buf w).0 ≡ some (length buf)
      → Copies (i + length buf) (os.write dst buf w).1
  written i buf w read all =
      let (more, same) = laws.write_all buf w all in
      let sum = length-append_lem (copy w) buf in
      let count = read.count in
      let length_is = ap length more in
      record {
        so_far =
            read.so_far
            ∙ sym (append_assoc (copy w) buf (rest w))
            ∙ ap (λ c. c ++ rest w) (sym more)
            ∙ ap (λ r. copy (os.write dst buf w).1 ++ r) (sym same);
        count = omega (arith, sum, count, length_is);
      }

  copy_block-WholeCopy :
      (again : ℕ → M os.World Bool) (i : ℕ) (buf : List ℕ) (w : os.World)
      → HasRead i buf w
      → ((v : os.World)
          → length buf ≡ sync_block_size
          → Copies (i + length buf) v
          → i + length buf ≤ length file
          → Ends (CallFailed os src dst) (WholeCopy copy file) (again (u32 (i + length buf)) v))
      → Ends (CallFailed os src dst) (WholeCopy copy file) (copy_block os again dst i buf w)
  unfolding copy_block
  copy_block-WholeCopy again i buf w read next =
      bind-Ends (CallFailed os src dst) _ (WholeCopy copy file) (or_exit (write_whole os dst buf)) _
        w (or_exit-Ends (CallFailed os src dst) (write_whole os dst buf) w (λ e. inr (buf, w, e)))
        (λ a v (h : (is_all os buf (os.write dst buf w).0 ≡ true) × (v ≡ (os.write dst buf w).1)).
          let good =
            subst (Copies (i + length buf)) (sym h.1)
              (written i buf w read (all-is_all buf (os.write dst buf w).0 h.0)) in
          let left = Copies-left (i + length buf) v good in
          elim (Bool-cases (length buf == sync_block_size)) [
            | inl whole ↦
                rw whole (
                  next v ((==_iff (length buf) sync_block_size).0 whole) good (omega (arith, left)))
            | inr part ↦
                rw part (refl, at_end (i + length buf) v good (ended v h.0 h.1 part read.last))
          ])
    where
      ended :
          (v : os.World)
          → is_all os buf (os.write dst buf w).0 ≡ true
          → v ≡ (os.write dst buf w).1
          → (length buf == sync_block_size) ≡ false
          → (length buf ≡ sync_block_size) ⊎ (rest w ≡ [])
          → rest v ≡ []
      ended v all e part (inl whole) =
          absurd (let same = (==_iff (length buf) sync_block_size).1 whole in cc)
      ended v all e part (inr none_left) =
          ap rest e
          ∙ (laws.write_all buf w (all-is_all buf (os.write dst buf w).0 all)).1
          ∙ none_left

  copy_loop-WholeCopy :
      (rounds i : ℕ) (w : os.World)
      → Copies i w
      → i ≤ length file
      → (length file - i) / 4096 < rounds
      → Ends
          (CallFailed os src dst)
          (WholeCopy copy file)
          (copy_loop os rounds src dst (length file) i w)
  unfolding copy_loop
  copy_loop-WholeCopy zero i w good le enough = absurd (omega arith)
  copy_loop-WholeCopy (suc rounds) i w good le enough = elim (Bool-cases (ltb i (length file))) [
    | inl more ↦ rw more (
        bind-Ends (CallFailed os src dst)
          (λ got v.
            ((os.read src sync_block_size w).0 ≡ some got)
            × (v ≡ (os.read src sync_block_size w).1))
          (WholeCopy copy file) (value_or_exit (os.read src sync_block_size))
          (copy_block os (λ j. copy_loop os rounds src dst (length file) j) dst i) w
          (value_or_exit-Ends (CallFailed os src dst) (os.read src sync_block_size) w
            (λ e. inl (w, e)))
          (λ got v h.
            copy_block-WholeCopy (λ j. copy_loop os rounds src dst (length file) j) i got v
              (has_read got v h.0 h.1)
              (λ u whole held below.
                let fits : u32 (i + length got) ≡ i + length got = omega (arith, below, small) in
                subst
                  (λ j.
                    Ends (CallFailed os src dst) (WholeCopy copy file)
                      (copy_loop os rounds src dst (length file) j u))
                  (sym fits)
                  (copy_loop-WholeCopy rounds (i + length got) u held below
                    (omega (arith, whole, enough, below))))))
    | inr over ↦ rw over (
      refl,
      at_end i w good (
          let left = Copies-left i w good in
          no_length (rest w) (let past = not_less over in omega (arith, left, past))),
    )
  ]
    where
      not_less : ltb i (length file) ≡ false → length file ≤ i
      not_less e = ground arith

      has_read :
          (got : List ℕ) (v : os.World)
          → (os.read src sync_block_size w).0 ≡ some got
          → v ≡ (os.read src sync_block_size w).1
          → HasRead i got v
      has_read got v e at =
          let (next, same) = laws.read_some sync_block_size w got e in
          record {
            so_far =
                good.so_far
                ∙ ap (λ r. copy w ++ r) next
                ∙ ap (λ c. c ++ (got ++ rest (os.read src sync_block_size w).1)) (sym same)
                ∙ ap (λ u. copy u ++ (got ++ rest u)) (sym at);
            count = ap (λ u. length (copy u)) at ∙ ap length same ∙ good.count;
            last = either (short sync_block_size w got e);
          }
        where
          either :
              (length got ≡ sync_block_size) ⊎ (rest (os.read src sync_block_size w).1 ≡ [])
              → (length got ≡ sync_block_size) ⊎ (rest v ≡ [])
          either (inl whole) = inl whole
          either (inr none_left) = inr (ap rest at ∙ none_left)

  -- If a read is short only at the end of the file, the file is shorter than 2^32 bytes, and nothing
  -- is copied at first, then with more rounds than the file has whole blocks of 4096 bytes, the loop
  -- ends with the whole file in the copy, or the program has exited for a read that failed or a write
  -- that did not take its whole buffer.
  pub copy_loop_copies :
      (w : os.World) (rounds : ℕ)
      → rest w ≡ file
      → copy w ≡ []
      → length file / 4096 < rounds
      → Ends
          (CallFailed os src dst)
          (WholeCopy copy file)
          (copy_loop os rounds src dst (length file) 0 w)
  copy_loop_copies w rounds source empty enough =
      copy_loop-WholeCopy rounds 0 w
        (record { so_far = sym (ap (λ c. c ++ rest w) empty ∙ source); count = ap length empty })
        (omega arith) (omega (arith, enough))
